-- ===== src/Paged.antt =====
-- src/infer_lab/kv/paged_cache.py: the block table of a sequence. `self.cache.block_size` and
-- `self.cache.allocator` are the argument `bs` and the state; a method returns the new `self`, and
-- one that raises leaves it as it was.
pub mod Capacity
pub mod Table
pub mod Pools
use infer_lab.Base.{
  ℕ, zero, suc, ◌+◌, ◌-◌, ◌*◌, ◌/◌, List, [], ◌∷◌, ◌++◌, length, take, Bool, true, false, ◌==◌,
  if◌then◌else◌, Result, ok, Action, and_then,
}
use infer_lab.Allocator.{Allocator, allocate_many, incref, free_many}

pub record SequenceKv : Type 0 where
  pub block_table : List ℕ
  pub length : ℕ
  pub num_cached_prefix : ℕ

abbrev pub new_sequence : SequenceKv
new_sequence = record { block_table = []; length = 0; num_cached_prefix = 0 }

-- `-(-n // d)`, the quotient rounded up, for a positive `d`.
unfoldable pub ceil_div : ℕ → ℕ → ℕ
ceil_div n d = (n + (d - 1)) / d

unfoldable pub capacity : ℕ → SequenceKv → ℕ
capacity bs kv = length kv.block_table * bs

-- `max(0, ...)` is the subtraction of ℕ.
unfoldable pub blocks_needed : ℕ → SequenceKv → ℕ → ℕ
blocks_needed bs kv total_tokens = ceil_div total_tokens bs - length kv.block_table

unfoldable pub ensure_capacity : ℕ → SequenceKv → ℕ → Action Allocator SequenceKv
ensure_capacity bs kv total_tokens s =
    if blocks_needed bs kv total_tokens == 0
    then (ok kv, s)
    else and_then (allocate_many (blocks_needed bs kv total_tokens) s)
        λ blocks t. (ok (record kv { block_table = kv.block_table ++ blocks }), t)

unfoldable pub incref_each : List ℕ → Action Allocator (Unit {0})
incref_each [] s = (ok tt, s)
incref_each (block ∷ blocks) s = and_then (incref block s) λ _ t. incref_each blocks t

unfoldable pub adopt_prefix : SequenceKv → List ℕ → ℕ → Action Allocator SequenceKv
adopt_prefix kv blocks num_tokens s = and_then (incref_each blocks s) λ _ t. (
  ok (record {
    block_table = kv.block_table ++ blocks;
    length = num_tokens;
    num_cached_prefix = num_tokens;
  }),
  t,
)

unfoldable pub release : SequenceKv → Action Allocator SequenceKv
release kv s =
    and_then (free_many kv.block_table s)
      λ _ t. (ok (record kv { block_table = []; length = 0 }), t)

unfoldable pub full_blocks : ℕ → SequenceKv → List ℕ
full_blocks bs kv = take (kv.length / bs) kv.block_table
