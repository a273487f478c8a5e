-- ===== src/Tests/Rows.antt =====
-- The pools at the demonstration table, whose block 0 the cache shares; a row is a number.
use infer_lab.Base.{ℕ, ◌+◌, ◌≡◌, ◌⊎◌, refl, List, [], ◌∷◌, ◌++◌, ok, err, out_of_blocks, arith}
use infer_lab.Allocator.Accounts.{Accounts}
use infer_lab.Allocator.{allocate, allocate_each, allocate_many, is_shared, prepare_for_write}
use infer_lab.Paged.{ensure_capacity, blocks_needed, ceil_div}
use infer_lab.Paged.Pools.{Memory, with_length, write, gather, write_loop, writable_block}
use infer_lab.Paged.Pools.Sharing.{KeepsHeld}
use infer_lab.Paged.Pools.Storing.{Wrote, write-Wrote}
use infer_lab.Paged.Pools.Gathering.{gather-write}
use infer_lab.Tests.Demo.{pool, pool-Accounts, table}

abbrev memory : Memory ℕ
memory = record {
  kv = table;
  allocator = pool;
  k_pool = λ l b i. 100 + b + b + i;
  v_pool = λ l b i. 200 + b + b + i;
}

abbrev two_rows : List ℕ
two_rows = 7 ∷ 8 ∷ []

-- Row 1 stands in the shared block 0.
write-Wrote_example :
    ((m' : Memory ℕ) × (write 2 0 1 two_rows two_rows memory ≡ (ok tt, m'))
      × Wrote 2 0 1 two_rows two_rows (0 ∷ 1 ∷ []) memory m')
    ⊎ ((m' : Memory ℕ) × (write 2 0 1 two_rows two_rows memory ≡ (err out_of_blocks, m'))
        × Accounts m'.allocator (m'.kv.block_table ++ (0 ∷ 1 ∷ []))
        × KeepsHeld (0 ∷ 1 ∷ []) memory.k_pool m'.k_pool
        × KeepsHeld (0 ∷ 1 ∷ []) memory.v_pool m'.v_pool)
write-Wrote_example =
    write-Wrote 2 0 1 two_rows two_rows (0 ∷ 1 ∷ []) memory (omega arith) (omega arith)
      pool-Accounts

abbrev written : Memory ℕ
written = (write 2 0 3 two_rows two_rows memory).1

gather-write_example :
    gather 2 0 (with_length 5 written)
    ≡ ((gather 2 0 memory).0 ++ two_rows, (gather 2 0 memory).1 ++ two_rows)
unfolding write ensure_capacity blocks_needed ceil_div allocate_many allocate_each allocate
    write_loop writable_block prepare_for_write is_shared
gather-write_example =
    gather-write 2 0 two_rows two_rows (0 ∷ 1 ∷ []) memory written (omega arith) (omega arith) refl
      (omega arith) pool-Accounts refl
