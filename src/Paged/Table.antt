-- ===== src/Paged/Table.antt =====
-- The methods of a sequence's block table against the books of the allocator.
use infer_lab.Base.{
  ℕ, ◌≤◌, ◌<◌, ◌≡◌, ◌⊎◌, inl, inr, refl, sym, ◌∙◌, List, [], ◌∷◌, ◌++◌, length, count, arith,
  Bool-cases, ◌==◌, ok, err, out_of_blocks, and_then, count-append, length-append, append-nil,
  ==_iff,
}
use infer_lab.Allocator.{Allocator, num_free}
use infer_lab.Allocator.Accounts.{Accounts, Accounts-cast}
use infer_lab.Allocator.Lending.{Lends, allocate_many-Lends}
use infer_lab.Allocator.Releasing.{Regains, incref-Accounts, free_many-Regains}
use infer_lab.Paged.{
  SequenceKv, capacity, blocks_needed, ensure_capacity, incref_each, adopt_prefix, release,
}
use infer_lab.Paged.Capacity.{blocks_needed-le_iff, blocks_needed-zero_iff}

-- `kv'` is `kv` with the blocks `more` behind its own, lent by the allocator `s`, which is then `t`.
pub record Extends (s : Allocator) (held : List ℕ) (kv kv' : SequenceKv) (more : List ℕ)
    (t : Allocator) : Type 0 where
  pub table : kv'.block_table ≡ kv.block_table ++ more
  pub same_length : kv'.length ≡ kv.length
  pub lent : Lends s (kv.block_table ++ held) more t
  pub accounts : Accounts t (kv'.block_table ++ held)

extended : SequenceKv → List ℕ → SequenceKv
extended kv more = record kv { block_table = kv.block_table ++ more }

extended-Extends :
    (s t : Allocator) (held : List ℕ) (kv : SequenceKv) (more : List ℕ)
    → Lends s (kv.block_table ++ held) more t
    → Extends s held kv (extended kv more) more t
unfolding extended
extended-Extends s t held kv more l = record {
  table = refl;
  same_length = refl;
  lent = l;
  accounts =
      Accounts-cast
        (λ b. omega (
          arith,
          count-append b more (kv.block_table ++ held),
          count-append b kv.block_table held,
          count-append b (kv.block_table ++ more) held,
          count-append b kv.block_table more,
        ))
        l.accounts;
}

same-Extends :
    (s : Allocator) (held : List ℕ) (kv : SequenceKv)
    → Accounts s (kv.block_table ++ held)
    → Extends s held kv kv [] s
same-Extends s held kv a = record {
  table = sym (append-nil kv.block_table);
  same_length = refl;
  lent = record {
    accounts = a;
    taken = omega arith;
    same_size = refl;
    same_block = refl;
    fresh = λ b h. absurd (omega arith);
    once = λ b. omega arith;
  };
  accounts = a;
}

-- `ensure_capacity` either extends the table by exactly the blocks that are needed, new ones that
-- nobody held, after which all the tokens fit, or, if there are too few, raises `OutOfBlocks` and
-- changes nothing.
pub ensure_capacity-Extends :
    (bs : ℕ) (kv : SequenceKv) (total : ℕ) (s : Allocator) (held : List ℕ)
    → 0 < bs
    → Accounts s (kv.block_table ++ held)
    → ((kv' : SequenceKv) × (more : List ℕ) × (t : Allocator) × (ensure_capacity bs kv total s
          ≡ (ok kv', t))
        × (length more ≡ blocks_needed bs kv total)
        × (total ≤ capacity bs kv')
        × Extends s held kv kv' more t)
      ⊎ ((num_free s < blocks_needed bs kv total)
          × (ensure_capacity bs kv total s ≡ (err out_of_blocks, s)))
unfolding ensure_capacity extended
ensure_capacity-Extends bs kv total s held h a =
    elim (Bool-cases (blocks_needed bs kv total == 0)) [
      | inl enough ↦
          (let none_needed = (==_iff _ _).0 enough in
            inl (
              kv,
              [],
              s,
              rw enough refl,
              sym none_needed,
              (blocks_needed-zero_iff bs kv total h).0 none_needed,
              same-Extends s held kv a,
            ))
      | inr more_needed ↦
          elim (allocate_many-Lends (blocks_needed bs kv total) s (kv.block_table ++ held) a) [
            | inl (_, (blocks, t, e, len, l)) ↦ inl (
              extended kv blocks,
              blocks,
              t,
              rw (more_needed, e) refl,
              len,
              unfold capacity in
                  (let fits =
                      (blocks_needed-le_iff bs kv total (length blocks) h).0 (omega arith) in
                    rw (length-append kv.block_table blocks) fits),
              extended-Extends s t held kv blocks l,
            )
            | inr (short, e) ↦ inr (short, rw (more_needed, e) refl)
          ]
    ]

-- Each of `blocks` is held by somebody.
abbrev pub AllHeld : List ℕ → List ℕ → Type 0
AllHeld held [] = Unit {0}
AllHeld held (b ∷ bs) = (0 < count b held) × AllHeld held bs

AllHeld-cons : (held : List ℕ) (c : ℕ) (bs : List ℕ) → AllHeld held bs → AllHeld (c ∷ held) bs
AllHeld-cons held c [] h = tt
AllHeld-cons held c (b ∷ bs) h = (ground (arith, h.0), AllHeld-cons held c bs h.1)

incref_each-Accounts :
    (bs : List ℕ) (s : Allocator) (held : List ℕ)
    → Accounts s held
    → AllHeld held bs
    → (t : Allocator) × (incref_each bs s ≡ (ok tt, t))
      × Accounts t (bs ++ held)
      × (num_free t ≡ num_free s)
      × (t.num_blocks ≡ s.num_blocks)
      × (t.block_size ≡ s.block_size)
unfolding incref_each
incref_each-Accounts [] s held a h = (s, refl, a, refl, refl, refl)
incref_each-Accounts (b ∷ bs) s held a h =
    let (t, e, a', n, m, k) = incref-Accounts s held b a h.0 in
    let (u, e', a'', n', m', k') =
      incref_each-Accounts bs t (b ∷ held) a' (AllHeld-cons held b bs h.1) in
    (
      u,
      rw (e, and_then) e',
      Accounts-cast (λ c. ground (arith, count-append c bs (b ∷ held), count-append c bs held)) a'',
      n' ∙ n,
      m' ∙ m,
      k' ∙ k,
    )

-- A table adopts a cached prefix: each block of it gets one reference more, no block is taken from
-- the free list, and the sequence has the tokens that the prefix holds.
pub adopt_prefix-Accounts :
    (kv : SequenceKv) (blocks : List ℕ) (num_tokens : ℕ) (s : Allocator) (held : List ℕ)
    → Accounts s (kv.block_table ++ held)
    → AllHeld (kv.block_table ++ held) blocks
    → (kv' : SequenceKv) × (t : Allocator) × (adopt_prefix kv blocks num_tokens s ≡ (ok kv', t))
      × (kv'.block_table ≡ kv.block_table ++ blocks)
      × (kv'.length ≡ num_tokens)
      × Accounts t (kv'.block_table ++ held)
      × (num_free t ≡ num_free s)
      × (t.num_blocks ≡ s.num_blocks)
      × (t.block_size ≡ s.block_size)
unfolding adopt_prefix
adopt_prefix-Accounts kv blocks num_tokens s held a h =
    let (t, e, a', n, m, k) = incref_each-Accounts blocks s (kv.block_table ++ held) a h in
    (
      record {
        block_table = kv.block_table ++ blocks;
        length = num_tokens;
        num_cached_prefix = num_tokens;
      },
      t,
      rw (e, and_then) refl,
      refl,
      refl,
      Accounts-cast
          (λ b. omega (
            arith,
            count-append b blocks (kv.block_table ++ held),
            count-append b kv.block_table held,
            count-append b (kv.block_table ++ blocks) held,
            count-append b kv.block_table blocks,
          ))
          a',
      n,
      m,
      k,
    )

-- `release` succeeds, empties the table, and gives back all its references and no other.
pub release-Regains :
    (kv : SequenceKv) (s : Allocator) (held : List ℕ)
    → Accounts s (kv.block_table ++ held)
    → (kv' : SequenceKv) × (t : Allocator) × (release kv s ≡ (ok kv', t))
      × (kv'.block_table ≡ [])
      × (kv'.length ≡ 0)
      × Regains s held t
unfolding release
release-Regains kv s held a =
    let (t, e, r) = free_many-Regains kv.block_table s held a in
    (record kv { block_table = []; length = 0 }, t, rw (e, and_then) refl, refl, refl, r)
