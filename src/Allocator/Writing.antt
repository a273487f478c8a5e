-- ===== src/Allocator/Writing.antt =====
-- Copy on write: `prepare_for_write` against the books.
use infer_lab.Base.{
  ℕ, ◌+◌, ◌<◌, ◌≡◌, refl, ◌∙◌, List, ◌∷◌, count, arith, true, false, lt→ltb, ltb, ok, err,
  out_of_blocks,
}
use infer_lab.Allocator.{Allocator, num_free, allocate, is_shared, prepare_for_write}
use infer_lab.Allocator.Accounts.{Accounts, Accounts-cast, held-lt-num_blocks}
use infer_lab.Allocator.Lending.{allocate-Lends}
use infer_lab.Allocator.Releasing.{free-Regains}

pub is_shared-eq-count :
    (s : Allocator) (held : List ℕ) (b : ℕ)
    → Accounts s (b ∷ held)
    → is_shared b s ≡ (ok (ltb 0 (count b held)), s)
unfolding is_shared
is_shared-eq-count s held b a =
    ground (arith, a.counts b, held-lt-num_blocks s (b ∷ held) b a (ground arith))

-- A caller that holds `b` alone writes to `b` itself, and nothing changes.
pub prepare_for_write_private :
    (s : Allocator) (held : List ℕ) (b : ℕ)
    → Accounts s (b ∷ held)
    → count b held ≡ 0
    → prepare_for_write b s ≡ (ok (b, false), s)
unfolding prepare_for_write
prepare_for_write_private s held b a h = rw (is_shared-eq-count s held b a) (ground arith)

-- A caller that shares `b` with others gets, while a block is free, another block that it holds
-- alone, gives up its own reference to `b`, and leaves the others theirs.
pub prepare_for_write_shared :
    (s : Allocator) (held : List ℕ) (b : ℕ)
    → Accounts s (b ∷ held)
    → 0 < count b held
    → 0 < num_free s
    → (c : ℕ) × (t : Allocator) × (prepare_for_write b s ≡ (ok (c, true), t))
      × Accounts t (c ∷ held)
      × (count c held ≡ 0)
      × (num_free s ≡ num_free t + 1)
      × (t.num_blocks ≡ s.num_blocks)
unfolding prepare_for_write
prepare_for_write_shared s held b a h room =
    let (c, t, e, l) = allocate-Lends s (b ∷ held) a room in
    let swapped : Accounts t (b ∷ c ∷ held) = Accounts-cast (λ d. omega arith) l.accounts in
    let (u, e', r, n) = free-Regains t (c ∷ held) b swapped in
    (
      c,
      record u { stats = record u.stats { cow_copies = u.stats.cow_copies + 1 } },
      rw (is_shared-eq-count s held b a, lt→ltb 0 (count b held) h, e, e') refl,
      record {
        sized = r.accounts.sized;
        counts = r.accounts.counts;
        exact = r.accounts.exact;
        total = r.accounts.total;
      },
      ground (arith, l.fresh c),
      ground (arith, l.taken, n, l.fresh c),
      r.same_size ∙ l.same_size,
    )

-- With no block free it raises `OutOfBlocks` and changes nothing.
pub prepare_for_write_full :
    (s : Allocator) (held : List ℕ) (b : ℕ)
    → Accounts s (b ∷ held)
    → 0 < count b held
    → num_free s ≡ 0
    → prepare_for_write b s ≡ (err out_of_blocks, s)
unfolding prepare_for_write allocate
prepare_for_write_full s held b a h none_free =
    rw (is_shared-eq-count s held b a, lt→ltb 0 (count b held) h) (ground arith)
