-- ===== src/Allocator/Releasing.antt =====
-- References added and given back: `incref`, `free` and `free_many` against the books.
use infer_lab.Base.{
  ℕ, ◌+◌, ◌-◌, ◌≤◌, ◌<◌, ◌≡◌, inl, inr, refl, ◌∙◌, List, [], ◌∷◌, ◌++◌, set, count, arith, ◌==◌,
  ltb, if◌then◌else◌, get_or-set, get_or-default, length-set, live-set, ok, err, value_error,
  index_error, and_then,
}
use infer_lab.Allocator.{
  Allocator, num_free, ref_at, allocate_many, incref, drop_reference, free, free_many,
}
use infer_lab.Allocator.Accounts.{Accounts, held-lt-num_blocks, num_free_unique}
use infer_lab.Allocator.Lending.{allocate_many-Lends}

-- `t` is `s` after references were given back, so that `held` is left.
pub record Regains (s : Allocator) (held : List ℕ) (t : Allocator) : Type 0 where
  pub accounts : Accounts t held
  pub grown : num_free s ≤ num_free t
  pub same_size : t.num_blocks ≡ s.num_blocks
  pub same_block : t.block_size ≡ s.block_size

-- `incref` of a block that somebody holds succeeds and adds one reference to the books.
pub incref-Accounts :
    (s : Allocator) (held : List ℕ) (b : ℕ)
    → Accounts s held
    → 0 < count b held
    → (t : Allocator) × (incref b s ≡ (ok (count b held + 1), t))
      × Accounts t (b ∷ held)
      × (num_free t ≡ num_free s)
      × (t.num_blocks ≡ s.num_blocks)
      × (t.block_size ≡ s.block_size)
unfolding incref
incref-Accounts s held b a h =
    let bound = held-lt-num_blocks s held b a h in
    (
      record s { ref = set s.ref b (ref_at s b + 1) },
      ground (arith, a.counts b),
      record {
        sized = length-set s.ref b _ ∙ a.sized;
        counts = λ c.
            ground
              (arith, get_or-set s.ref b c (ref_at s b + 1) 0, a.counts c, a.counts b, a.sized);
        exact = λ c. ground (
          arith,
          get_or-set s.ref b c (ref_at s b + 1) 1,
          a.exact c,
          a.counts b,
          a.sized,
          get_or-default s.ref b 0 1,
        );
        total = ground (arith, live-set s.ref b (ref_at s b + 1), a.total, a.sized, a.counts b);
      },
      refl,
      refl,
      refl,
    )

-- `incref` of a block of the pool that nobody holds raises `ValueError`, and of a number outside the
-- pool `IndexError`; either way nothing changes.
pub incref_unheld :
    (s : Allocator) (held : List ℕ) (b : ℕ)
    → Accounts s held
    → count b held ≡ 0
    → incref b s ≡ (err (if ltb b s.num_blocks then value_error else index_error), s)
unfolding incref
incref_unheld s held b a h = ground (arith, a.counts b)

drop_reference-Accounts :
    (s : Allocator) (held : List ℕ) (b : ℕ)
    → Accounts s (b ∷ held)
    → Accounts (drop_reference b s) held
unfolding drop_reference
drop_reference-Accounts s held b a =
    let bound = held-lt-num_blocks s (b ∷ held) b a (ground arith) in
    record {
      sized = ground (arith, length-set s.ref b 0, length-set s.ref b (ref_at s b - 1), a.sized);
      counts = λ c. ground (
        arith,
        get_or-set s.ref b c 0 0,
        get_or-set s.ref b c (ref_at s b - 1) 0,
        a.counts c,
        a.counts b,
        a.sized,
      );
      exact = λ c. ground (
        arith,
        get_or-set s.ref b c 0 1,
        get_or-set s.ref b c (ref_at s b - 1) 1,
        a.exact c,
        a.counts b,
        a.sized,
        get_or-default s.ref b 0 1,
      );
      total = ground (
        arith,
        live-set s.ref b 0,
        live-set s.ref b (ref_at s b - 1),
        a.total,
        a.sized,
        a.counts b,
      );
    }

-- `free` of a block that somebody holds succeeds, returns the references that are left, and takes
-- one off the books; the block is free again exactly if that was the last.
pub free-Regains :
    (s : Allocator) (held : List ℕ) (b : ℕ)
    → Accounts s (b ∷ held)
    → (t : Allocator) × (free b s ≡ (ok (count b held), t))
      × Regains s held t
      × (num_free t ≡ (if count b held == 0 then num_free s + 1 else num_free s))
unfolding free
free-Regains s held b a =
    let bound = held-lt-num_blocks s (b ∷ held) b a (ground arith) in
    (
      drop_reference b s,
      ground (arith, a.counts b),
      record {
        accounts = drop_reference-Accounts s held b a;
        grown = unfold drop_reference in ground arith;
        same_size = unfold drop_reference in ground arith;
        same_block = unfold drop_reference in ground arith;
      },
      unfold drop_reference in ground (arith, a.counts b),
    )

-- A double free, of a block of the pool that nobody holds, raises `ValueError`, and of a number
-- outside the pool `IndexError`; either way nothing changes.
pub free_unheld :
    (s : Allocator) (held : List ℕ) (b : ℕ)
    → Accounts s held
    → count b held ≡ 0
    → free b s ≡ (err (if ltb b s.num_blocks then value_error else index_error), s)
unfolding free
free_unheld s held b a h = ground (arith, a.counts b)

pub free_many-Regains :
    (bs : List ℕ) (s : Allocator) (held : List ℕ)
    → Accounts s (bs ++ held)
    → (t : Allocator) × (free_many bs s ≡ (ok tt, t)) × Regains s held t
unfolding free_many
free_many-Regains [] s held a =
    (s, refl, record { accounts = a; grown = omega arith; same_size = refl; same_block = refl })
free_many-Regains (b ∷ bs) s held a =
    let (t, e, r, _) = free-Regains s (bs ++ held) b a in
    let (u, e', r') = free_many-Regains bs t held r.accounts in
    (
      u,
      rw (e, and_then) e',
      record {
        accounts = r'.accounts;
        grown = omega (arith, r.grown, r'.grown);
        same_size = r'.same_size ∙ r.same_size;
        same_block = r'.same_block ∙ r.same_block;
      },
    )

-- Giving back at once all that was lent restores the number of free blocks, and no one holds more or
-- less than before.
pub free_many-allocate_many :
    (n : ℕ) (s : Allocator) (held : List ℕ)
    → Accounts s held
    → n ≤ num_free s
    → (blocks : List ℕ) × (t u : Allocator) × (allocate_many n s ≡ (ok blocks, t))
      × (free_many blocks t ≡ (ok tt, u))
      × Accounts u held
      × (num_free u ≡ num_free s)
free_many-allocate_many n s held a h = elim (allocate_many-Lends n s held a) [
  | inl (_, (blocks, t, e, _, l)) ↦
      (let (u, e', r) = free_many-Regains blocks t held l.accounts in
        (
          blocks,
          t,
          u,
          e,
          e',
          r.accounts,
          num_free_unique u s held r.accounts a (r.same_size ∙ l.same_size),
        ))
  | inr (short, _) ↦ absurd (omega arith)
]
