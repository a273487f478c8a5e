-- ===== src/TensorParallel.antt =====
-- src/infer_lab/distributed/tensor_parallel.py: `TensorParallelAttention`, whole heads to ranks. A
-- slice is its two ends.
pub mod Heads
use infer_lab.Base.{ℕ, ◌+◌, ◌*◌, ◌/◌, Result, ok}
use infer_lab.Settings.{if_remainder}

pub record Attention : Type 0 where
  pub num_heads : ℕ
  pub num_kv_heads : ℕ
  pub world_size : ℕ

-- `__post_init__`
unfoldable pub check_attention : Attention → Result (Unit {0})
check_attention a =
    if_remainder a.num_heads a.world_size (if_remainder a.num_kv_heads a.world_size (ok tt))

abbrev pub heads_per_rank : Attention → ℕ
heads_per_rank a = a.num_heads / a.world_size

abbrev pub kv_heads_per_rank : Attention → ℕ
kv_heads_per_rank a = a.num_kv_heads / a.world_size

pub record Slice : Type 0 where
  pub first : ℕ
  pub last : ℕ

abbrev pub head_slice : Attention → ℕ → Slice
head_slice a rank = let h = heads_per_rank a in record { first = rank * h; last = (rank + 1) * h }

abbrev pub kv_cache_bytes_per_rank : Attention → ℕ → ℕ
kv_cache_bytes_per_rank a total_bytes = total_bytes / a.world_size
