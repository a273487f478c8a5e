-- ===== src/Allocator/Lending.antt =====
-- What each operation of the allocator does to the books, whatever the clients hold.
use infer_lab.Base.{
  ℕ, zero, suc, ◌+◌, ◌≤◌, ◌<◌, ◌≡◌, ◌⊎◌, inl, inr, refl, ap, ◌∙◌, List, [], ◌∷◌, ◌++◌, length,
  get_or, set, count, arith, ltb→lt, Bool-cases, ltb, get_or-set, length-set, live-set, ok, err,
  out_of_blocks, count-append,
}
use infer_lab.Allocator.{
  Allocator, Stats, num_free, take_block, allocate, allocate_each, allocate_many,
}
use infer_lab.Allocator.Accounts.{Accounts, Accounts-cast, free-unheld}

-- `t` is `s` after it has lent `blocks`, none of which anybody held.
pub record Lends (s : Allocator) (held blocks : List ℕ) (t : Allocator) : Type 0 where
  pub accounts : Accounts t (blocks ++ held)
  pub taken : num_free s ≡ num_free t + length blocks
  pub same_size : t.num_blocks ≡ s.num_blocks
  pub same_block : t.block_size ≡ s.block_size
  pub fresh : (b : ℕ) → 0 < count b blocks → count b held ≡ 0
  pub once : (b : ℕ) → count b blocks ≤ 1

abbrev with_block_taken : Allocator → ℕ → List ℕ → Stats → Allocator
with_block_taken s b rest st = record s { free_list = rest; ref = set s.ref b 1; stats = st }

take-Lends :
    (s : Allocator) (held : List ℕ) (b : ℕ) (rest : List ℕ) (st : Stats)
    → Accounts s held
    → s.free_list ≡ b ∷ rest
    → Lends s held (b ∷ []) (with_block_taken s b rest st)
take-Lends s held b rest st a e = record {
  accounts = record {
    sized = length-set s.ref b 1 ∙ a.sized;
    counts = λ c. ground (arith, get_or-set s.ref b c 1 0, a.counts c, a.sized, unheld);
    exact =
        λ c. ground (arith, get_or-set s.ref b c 1 1, a.exact c, here c, a.sized, unheld, free_b);
    total = ground (arith, live-set s.ref b 1, a.total, long, a.sized, unheld, a.counts b);
  };
  taken = long;
  same_size = refl;
  same_block = refl;
  fresh = λ c h. ground (arith, unheld);
  once = λ c. ground arith;
}
  where
    here : (c : ℕ) → count c s.free_list ≡ count c (b ∷ rest)
    here c = ap (count c) e

    long : length s.free_list ≡ length rest + 1
    long = rw e (omega arith)

    unheld : (b < s.num_blocks) × (count b held ≡ 0)
    unheld = free-unheld s held b a (ground (arith, here b))

    free_b : get_or s.ref b 1 ≡ 0
    free_b = ground (arith, a.exact b, here b)

take_block-Lends :
    (s : Allocator) (held l : List ℕ)
    → Accounts s held
    → s.free_list ≡ l
    → 0 < length l
    → (b : ℕ) × (t : Allocator) × (take_block s l ≡ (ok b, t)) × Lends s held (b ∷ []) t
unfolding take_block
take_block-Lends s held [] a e h = elim h [ ]
take_block-Lends s held (b ∷ rest) a e h =
    (b, with_block_taken s b rest _, refl, take-Lends s held b rest _ a e)

-- While a block is free, `allocate` returns a block that nobody holds and lends it to the caller.
pub allocate-Lends :
    (s : Allocator) (held : List ℕ)
    → Accounts s held
    → 0 < num_free s
    → (b : ℕ) × (t : Allocator) × (allocate s ≡ (ok b, t)) × Lends s held (b ∷ []) t
unfolding allocate
allocate-Lends s held a h = take_block-Lends s held s.free_list a refl h

Lends-none : (s : Allocator) (held : List ℕ) → Accounts s held → Lends s held [] s
Lends-none s held a = record {
  accounts = a;
  taken = omega arith;
  same_size = refl;
  same_block = refl;
  fresh = λ b h. absurd (omega arith);
  once = λ b. omega arith;
}

Lends-cons :
    {s t u : Allocator} {held : List ℕ} {b : ℕ} {blocks : List ℕ}
    → Lends s held (b ∷ []) t
    → Lends t (b ∷ held) blocks u
    → Lends s held (b ∷ blocks) u
Lends-cons {s} {t} {u} {held} {b} {blocks} l m = record {
  accounts =
      Accounts-cast
        (λ c. ground (arith, count-append c blocks (b ∷ held), count-append c blocks held))
        m.accounts;
  taken = omega (arith, l.taken, m.taken);
  same_size = m.same_size ∙ l.same_size;
  same_block = m.same_block ∙ l.same_block;
  fresh = λ c h. ground (arith, l.fresh c, m.fresh c);
  once = λ c. ground (arith, l.once c, m.once c, m.fresh c);
}

pub allocate_each-Lends :
    (n : ℕ) (s : Allocator) (held : List ℕ)
    → Accounts s held
    → n ≤ num_free s
    → (blocks : List ℕ) × (t : Allocator) × (allocate_each n s ≡ (ok blocks, t))
      × (length blocks ≡ n)
      × Lends s held blocks t
unfolding allocate_each
allocate_each-Lends zero s held a h = ([], s, refl, refl, Lends-none s held a)
allocate_each-Lends (suc n) s held a h =
    let (b, t, e, l) = allocate-Lends s held a (omega arith) in
    let (bs, u, e', len, m) =
      allocate_each-Lends n t (b ∷ held) l.accounts (omega (arith, l.taken)) in
    (b ∷ bs, u, rw (e, e') refl, ap suc len, Lends-cons l m)

-- All or nothing: `allocate_many` lends the number of blocks asked for, each once and none of them
-- held before, if so many are free, and otherwise raises `OutOfBlocks` and changes nothing.
pub allocate_many-Lends :
    (n : ℕ) (s : Allocator) (held : List ℕ)
    → Accounts s held
    → ((n ≤ num_free s)
        × ((blocks : List ℕ) × (t : Allocator) × (allocate_many n s ≡ (ok blocks, t))
            × (length blocks ≡ n)
            × Lends s held blocks t))
      ⊎ ((num_free s < n) × (allocate_many n s ≡ (err out_of_blocks, s)))
unfolding allocate_many
allocate_many-Lends n s held a = elim (Bool-cases (ltb (num_free s) n)) [
  | inl short ↦ inr (ltb→lt _ _ short, rw short refl)
  | inr enough ↦
      (let (blocks, t, e, len, l) = allocate_each-Lends n s held a (ground arith) in
        inl (ground arith, (blocks, t, rw enough e, len, l)))
]
