-- ===== src/Tests/Memory.antt =====
-- The allocator and the block tables at the demonstration pool.
use infer_lab.Base.{
  ℕ, ◌≡◌, ◌≤◌, ◌<◌, ◌↔◌, ◌⊎◌, refl, List, [], ◌∷◌, length, ok, err, arith, out_of_blocks,
  value_error,
}
use infer_lab.Allocator.{Allocator, num_free, allocate_many, free, free_many}
use infer_lab.Allocator.Accounts.{Accounts}
use infer_lab.Allocator.Lending.{Lends, allocate_many-Lends}
use infer_lab.Allocator.Releasing.{free_unheld, free_many-allocate_many}
use infer_lab.Paged.{SequenceKv, blocks_needed, capacity, ensure_capacity}
use infer_lab.Paged.Capacity.{blocks_needed-le_iff}
use infer_lab.Paged.Table.{Extends, ensure_capacity-Extends}
use infer_lab.Tests.Demo.{pool, pool-Accounts, table}

abbrev fresh_pool : Allocator
fresh_pool = record {
  num_blocks = 2;
  block_size = 2;
  free_list = 0 ∷ 1 ∷ [];
  ref = 0 ∷ 0 ∷ [];
  stats = record { allocated = 0; freed = 0; peak_used = 0; cow_copies = 0 };
}

allocate_many-Lends_example :
    ((1 ≤ num_free pool)
      × ((blocks : List ℕ) × (t : Allocator) × (allocate_many 1 pool ≡ (ok blocks, t))
          × (length blocks ≡ 1)
          × Lends pool (0 ∷ 2 ∷ 0 ∷ 1 ∷ []) blocks t))
    ⊎ ((num_free pool < 1) × (allocate_many 1 pool ≡ (err out_of_blocks, pool)))
allocate_many-Lends_example = allocate_many-Lends 1 pool (0 ∷ 2 ∷ 0 ∷ 1 ∷ []) pool-Accounts

free_unheld_example : free 3 pool ≡ (err value_error, pool)
free_unheld_example = free_unheld pool (0 ∷ 2 ∷ 0 ∷ 1 ∷ []) 3 pool-Accounts refl

free_many-allocate_many_example :
    (blocks : List ℕ) × (t u : Allocator) × (allocate_many 1 pool ≡ (ok blocks, t))
    × (free_many blocks t ≡ (ok tt, u))
    × Accounts u (0 ∷ 2 ∷ 0 ∷ 1 ∷ [])
    × (num_free u ≡ num_free pool)
free_many-allocate_many_example =
    free_many-allocate_many 1 pool (0 ∷ 2 ∷ 0 ∷ 1 ∷ []) pool-Accounts (omega arith)

blocks_needed-le_iff_example : (blocks_needed 2 table 5 ≤ 1) ↔ (5 ≤ 6)
blocks_needed-le_iff_example = blocks_needed-le_iff 2 table 5 1 (omega arith)

ensure_capacity-Extends_example :
    ((kv' : SequenceKv) × (more : List ℕ) × (t : Allocator) × (ensure_capacity 2 table 5 pool
        ≡ (ok kv', t))
      × (length more ≡ blocks_needed 2 table 5)
      × (5 ≤ capacity 2 kv')
      × Extends pool (0 ∷ 1 ∷ []) table kv' more t)
    ⊎ ((num_free pool < blocks_needed 2 table 5)
        × (ensure_capacity 2 table 5 pool ≡ (err out_of_blocks, pool)))
ensure_capacity-Extends_example =
    ensure_capacity-Extends 2 table 5 pool (0 ∷ 1 ∷ []) (omega arith) pool-Accounts
