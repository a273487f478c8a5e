-- ===== src/Allocator.antt =====
-- src/infer_lab/kv/block_allocator.py: the reference-counting allocator of KV blocks.
-- `free` is the Python list `_free` read from its end: its head is the block that `pop()` takes and
-- where `append` puts one. `ref` is `_ref`. A read of `ref` stands behind `check` or behind a pop.
pub mod Accounts
pub mod Lending
pub mod Releasing
pub mod Writing
use infer_lab.Base.{
  ℕ, zero, suc, ◌+◌, ◌-◌, ◌≤◌, ◌<◌, max, List, [], ◌∷◌, length, get_or, set, replicate, range_from,
  Bool, true, false, ltb, leb, ◌==◌, if◌then◌else◌, Result, ok, err, Outcome, Action, and_then,
  ◌>>=◌, ◌>>◌, pure, raise, out_of_blocks, value_error, index_error,
}

pub record Stats : Type 0 where
  pub allocated : ℕ
  pub freed : ℕ
  pub peak_used : ℕ
  pub cow_copies : ℕ

pub record Allocator : Type 0 where
  pub num_blocks : ℕ
  pub block_size : ℕ
  pub free_list : List ℕ
  pub ref : List ℕ
  pub stats : Stats

abbrev pub no_stats : Stats
no_stats = record { allocated = 0; freed = 0; peak_used = 0; cow_copies = 0 }

unfoldable pub init : ℕ → ℕ → Result Allocator
init zero block_size = err value_error
init (suc n) block_size = ok (record {
  num_blocks = suc n;
  block_size = block_size;
  free_list = range_from 0 (suc n);
  ref = replicate (suc n) 0;
  stats = no_stats;
})

abbrev pub num_free : Allocator → ℕ
num_free s = length s.free_list

-- `num_free` never passes `num_blocks` in a sound allocator, so the difference is exact there.
abbrev pub num_used : Allocator → ℕ
num_used s = s.num_blocks - num_free s

abbrev pub ref_at : Allocator → ℕ → ℕ
ref_at s block = get_or s.ref block 0

abbrev pub check : ℕ → Action Allocator (Unit {0})
check block s = if ltb block s.num_blocks then (ok tt, s) else (err index_error, s)

take_block : Allocator → List ℕ → Outcome Allocator ℕ
take_block s [] = (err out_of_blocks, s)
take_block s (block ∷ rest) = (
  ok block,
  record s {
    free_list = rest;
    ref = set s.ref block 1;
    stats = record s.stats {
      allocated = s.stats.allocated + 1;
      peak_used = max s.stats.peak_used (s.num_blocks - length rest);
    };
  },
)

unfoldable pub allocate : Action Allocator ℕ
unfolding take_block
allocate s = take_block s s.free_list

-- `[self.allocate() for _ in range(count)]`
unfoldable pub allocate_each : ℕ → Action Allocator (List ℕ)
allocate_each zero s = (ok [], s)
allocate_each (suc n) s =
    and_then (allocate s)
      λ block s'. and_then (allocate_each n s') λ blocks s''. (ok (block ∷ blocks), s'')

unfoldable pub allocate_many : ℕ → Action Allocator (List ℕ)
allocate_many count s =
    if ltb (num_free s) count then (err out_of_blocks, s) else allocate_each count s

unfoldable pub incref : ℕ → Action Allocator ℕ
incref block = do
  check block
  λ s.
      if ref_at s block == 0
      then (err value_error, s)
      else (ok (ref_at s block + 1), record s { ref = set s.ref block (ref_at s block + 1) })

-- The state after `_ref[block] -= 1`, with the block back on the free list if that was the last.
drop_reference : ℕ → Allocator → Allocator
drop_reference block s =
    if ref_at s block - 1 == 0
    then record s {
      free_list = block ∷ s.free_list;
      ref = set s.ref block 0;
      stats = record s.stats { freed = s.stats.freed + 1 };
    }
    else record s { ref = set s.ref block (ref_at s block - 1) }

unfoldable pub free : ℕ → Action Allocator ℕ
unfolding drop_reference
free block = do
  check block
  λ s.
      if ref_at s block == 0
      then (err value_error, s)
      else (ok (ref_at s block - 1), drop_reference block s)

unfoldable pub free_many : List ℕ → Action Allocator (Unit {0})
free_many [] s = (ok tt, s)
free_many (block ∷ blocks) s = and_then (free block s) λ _ s'. free_many blocks s'

unfoldable pub is_shared : ℕ → Action Allocator Bool
is_shared block = do check block; λ s. (ok (ltb 1 (ref_at s block)), s)

unfoldable pub prepare_for_write : ℕ → Action Allocator (ℕ × Bool)
prepare_for_write block = do
  shared ← is_shared block
  if shared
      then (do
        new_block ← allocate
        free block
        λ s. (
          ok (new_block, true),
          record s { stats = record s.stats { cow_copies = s.stats.cow_copies + 1 } },
        ))
      else pure (block, false)

unfoldable pub ref_count : ℕ → Action Allocator ℕ
ref_count block = do check block; λ s. (ok (ref_at s block), s)

evictable_from : Allocator → List ℕ → List ℕ
evictable_from s [] = []
evictable_from s (b ∷ bs) = if ref_at s b == 1 then b ∷ evictable_from s bs else evictable_from s bs

pub evictable_blocks : Allocator → List ℕ
unfolding evictable_from
evictable_blocks s = evictable_from s (range_from 0 s.num_blocks)

pub record Snapshot : Type 0 where
  pub total : ℕ
  pub size : ℕ
  pub used : ℕ
  pub available : ℕ
  pub peak : ℕ
  pub copies : ℕ

pub snapshot : Allocator → Snapshot
snapshot s = record {
  total = s.num_blocks;
  size = s.block_size;
  used = num_used s;
  available = num_free s;
  peak = s.stats.peak_used;
  copies = s.stats.cow_copies;
}
