-- ===== src/Scheduler/Admission.antt =====
-- scheduler.py: `_try_prefix_cache`, `_admit` and `_make_chunk`.
use infer_lab.Base.{
  ℕ, ◌+◌, ◌-◌, ◌*◌, min, take, drop, Bool, true, false, ltb, leb, ◌==◌, if◌then◌else◌, Option, none,
  some, Result, ok, err, Action, and_then, assertion_error,
}
use infer_lab.Paged.{SequenceKv, new_sequence, blocks_needed, capacity, adopt_prefix}
use infer_lab.Radix.{RadixCache, match_prefix}
use infer_lab.Request.{Request, State, prefill_target_len, prefill_token_ids, remaining_prefill}
use infer_lab.Scheduler.State.{Scheduler, Config, Chunk, on_allocator}
use infer_lab.Scheduler.Room.{Balance, fits, at_least_zero}

-- The request after a hit of `matched` tokens, with the table that has adopted the blocks.
abbrev pub with_prefix : Request → SequenceKv → ℕ → Request
with_prefix r kv matched = record r {
  kv = some kv;
  num_computed_tokens = matched;
  metrics = record r.metrics { cached_prefix_tokens = matched };
}

abbrev pub count_hit : ℕ → Scheduler → Scheduler
count_hit matched s = record s {
  stats = record s.stats { prefix_cache_hit_tokens = s.stats.prefix_cache_hit_tokens + matched };
}

-- A request object and the block table that it points to.
abbrev pub seated : Request → SequenceKv → Request × SequenceKv
seated r kv = (record r { kv = some kv }, kv)

-- `match`, and then the adoption of what it found.
abbrev pub try_match : Request → SequenceKv → RadixCache → Action Scheduler (Request × SequenceKv)
try_match r kv c s =
    let ((blocks, matched), c') = match_prefix r.prompt_token_ids c in
    let t = record s { radix = some c' } in
    if matched == 0
    then (ok (seated r kv), t)
    else and_then (on_allocator (adopt_prefix kv blocks matched) t)
        λ kv' u. (ok (with_prefix r kv' matched, kv'), count_hit matched u)

abbrev pub try_cache :
    Request → SequenceKv → Option RadixCache → Action Scheduler (Request × SequenceKv)
try_cache r kv none s = (ok (seated r kv), s)
try_cache r kv (some c) s =
    if s.config.enable_prefix_caching then try_match r kv c s else (ok (seated r kv), s)

-- The request as `_admit` leaves it before its test for memory: with a block table.
unfoldable pub seat : Request → Option SequenceKv → Action Scheduler (Request × SequenceKv)
seat r (some kv) s = (ok (r, kv), s)
seat r none s = try_cache r new_sequence s.radix s

-- Whether the request was admitted, and the request object as the call leaves it.
unfoldable pub admit : Request → Balance → Action Scheduler (Bool × Request)
admit r balance s = and_then (seat r r.kv s) λ (r', kv) t.
    if fits (blocks_needed t.config.block_size kv (r'.num_computed_tokens + 1)) balance
    then (ok (true, record r' { state = State.prefill }), t)
    else (ok (false, r'), t)

-- The number of tokens of the next chunk, once `take` of them fit the budget; 0 stands for `None`.
abbrev pub shrink : Config → Request → SequenceKv → Balance → ℕ → ℕ
shrink g r kv balance take =
    if fits (blocks_needed g.block_size kv (r.num_computed_tokens + take)) balance
    then take
    else min take
        (capacity g.block_size kv + at_least_zero balance * g.block_size - r.num_computed_tokens)

unfoldable pub wanted : Config → Request → ℕ → ℕ
wanted g r budget =
    if g.enable_chunked_prefill
    then min (remaining_prefill r) budget
    else if ltb budget (remaining_prefill r)
    then 0
    else remaining_prefill r

abbrev pub chunk_of : Request → ℕ → Chunk
chunk_of r n = record {
  request = r.request_id;
  start_pos = r.num_computed_tokens;
  token_ids = take n (drop r.num_computed_tokens (prefill_token_ids r));
  is_final_chunk = leb (prefill_target_len r) (r.num_computed_tokens + n);
}

abbrev pub non_empty_chunk : Request → ℕ → Option Chunk
non_empty_chunk r n = if n == 0 then none else some (chunk_of r n)

-- Every early `return None` is a size of 0; the assertion stands behind the first of them.
abbrev pub chunk_from : Config → Request → ℕ → Balance → Option SequenceKv → Result (Option Chunk)
chunk_from g r n balance none = err assertion_error
chunk_from g r n balance (some kv) = ok (non_empty_chunk r (shrink g r kv balance n))

unfoldable pub make_chunk : Config → Request → ℕ → Balance → Result (Option Chunk)
make_chunk g r budget balance =
    if wanted g r budget == 0 then ok none else chunk_from g r (wanted g r budget) balance r.kv
