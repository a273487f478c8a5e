-- ===== src/Tests/Serving.antt =====
-- A scheduler over the demonstration pool and cache: request 1 decodes with the table of the
-- demonstration, request 2 waits.
use infer_lab.Base.{
  ℕ, ◌≡◌, ◌⊎◌, ◌+◌, ◌≤◌, refl, [], ◌∷◌, ◌++◌, List, length, count, Bool, true, false, none, some,
  arith, ok, Returns,
}
use infer_lab.Allocator.{num_free}
use infer_lab.Allocator.Accounts.{Accounts}
use infer_lab.Paged.{SequenceKv, capacity}
use infer_lab.Radix.Blocks.{blocks}
use infer_lab.Request.{Request, State, new_request, prefill_done, prefill_target_len}
use infer_lab.Scheduler.State.{
  retire, abort, add_request, Stats, empty_output, Config, Scheduler, Chunk, no_stats, find_request,
}
use infer_lab.Scheduler.Room.{Balance, reserved_blocks, reclaim, make_room}
use infer_lab.Scheduler.Admission.{admit, make_chunk}
use infer_lab.Scheduler.Schedule.{first_round, admit_all, schedule}
use infer_lab.Scheduler.Queues.{tables}
use infer_lab.Scheduler.Invariant.{Inv, Moves, CacheExhausted, cached, held}
use infer_lab.Scheduler.Preempting.{Preempts, OnlyProtected, make_room-Moves}
use infer_lab.Scheduler.Chunking.{IsChunk, make_chunk-IsChunk}
use infer_lab.Scheduler.Admitting.{Seats, admit-Seats}
use infer_lab.Scheduler.Stepping.{Feasible, schedule-Feasible}
use infer_lab.Scheduler.Stalling.{Blocked, schedule-stalled}
use infer_lab.Scheduler.Leaving.{Aborted, abort-Aborted, add_request-Inv}
use infer_lab.Scheduler.Retiring.{Retired, retire-Retired}
use infer_lab.Scheduler.Ending.{admit_all_enough}
use infer_lab.Tests.Demo.{pool, cache, table, pool-Accounts_cache}

abbrev pub settings : Config
settings = record {
  block_size = 2;
  max_num_seqs = 4;
  max_num_batched_tokens = 8;
  enable_chunked_prefill = true;
  enable_prefix_caching = true;
  enable_preemption = true;
  watermark = λ n. 0;
}

abbrev pub decoding : Request
decoding = record (new_request (5 ∷ 6 ∷ 9 ∷ []) (record { max_tokens = 4; ignore_eos = false }) 1) {
  state = State.running;
  output_token_ids = 4 ∷ [];
  kv = some table;
  num_computed_tokens = 3;
}

abbrev pub queued : Request
queued = new_request (5 ∷ 6 ∷ 7 ∷ 8 ∷ 1 ∷ []) (record { max_tokens = 4; ignore_eos = false }) 2

abbrev pub busy : Scheduler
busy = record {
  config = settings;
  allocator = pool;
  radix = some cache;
  waiting = queued ∷ [];
  running = decoding ∷ [];
  stats = no_stats;
}

busy-Accounts : Accounts busy.allocator (cached busy.radix ++ held busy)
unfolding blocks tables
busy-Accounts = pool-Accounts_cache

busy_distinct : (i : ℕ) → count i (1 ∷ []) + count i (2 ∷ []) ≤ 1
busy_distinct i = ground arith

pub busy-Inv : Inv busy
busy-Inv = record {
  books = busy-Accounts;
  cache = (unfold blocks in refl, (tt, (tt, tt, tt), tt));
  seated = (tt, tt);
  distinct = busy_distinct;
  few = omega arith;
}

schedule-Feasible_example : Returns (Feasible 8) (schedule busy)
schedule-Feasible_example = schedule-Feasible busy busy-Inv (omega arith)

make_room-Moves_example :
    (victims : List ℕ) × (t : Scheduler) × (make_room 4 [] busy ≡ (ok victims, t))
    × Moves [] busy t
    × Preempts [] victims busy t
    × (4 + reserved_blocks busy ≤ num_free busy.allocator → victims ≡ [])
    × (true ≡ false → victims ≡ [])
    × ((freed : ℕ) × (u : Scheduler) × (reclaim 4 busy ≡ (ok freed, u))
        × ((victims ≡ []) ⊎ CacheExhausted u.radix u.allocator))
    × (true ≡ true → (4 + reserved_blocks t ≤ num_free t.allocator) ⊎ OnlyProtected [] t)
make_room-Moves_example = make_room-Moves 4 [] busy busy-Inv

abbrev one_block : Balance
one_block = record { have = 1; owed = 0 }

abbrev prefilling : Request
prefilling = record queued { kv = some table; num_computed_tokens = 2 }

make_chunk-IsChunk_example :
    (make_chunk settings prefilling 8 one_block ≡ ok none)
    ⊎ ((c : Chunk) × (make_chunk settings prefilling 8 one_block ≡ ok (some c))
        × IsChunk settings prefilling table 8 one_block c)
make_chunk-IsChunk_example =
    make_chunk-IsChunk settings prefilling table 8 one_block (omega arith) refl

admit-Seats_example :
    (admitted : Bool) × (q' : Request) × (kv : SequenceKv) × (t : Scheduler) × (admit queued
        one_block busy
      ≡ (ok (admitted, q'), t))
    × Seats busy queued [] q' kv t
admit-Seats_example = admit-Seats queued [] one_block busy busy-Inv refl

-- Block 1 is in the cache only, and could be evicted.
abbrev halfway : Request
halfway =
    record (new_request (5 ∷ 6 ∷ 9 ∷ 8 ∷ 7 ∷ 6 ∷ 5 ∷ 4 ∷ [])
      (record { max_tokens = 4; ignore_eos = false }) 3) {
        state = State.prefill;
        kv = some (record { block_table = 0 ∷ 2 ∷ 3 ∷ []; length = 6; num_cached_prefix = 2 });
        num_computed_tokens = 6;
      }

abbrev stalled_server : Scheduler
stalled_server = record busy {
  allocator = record pool { free_list = []; ref = 2 ∷ 1 ∷ 1 ∷ 1 ∷ [] };
  waiting = [];
  running = halfway ∷ [];
}

halfway-Blocked : Blocked 2 halfway
unfolding capacity prefill_done prefill_target_len
halfway-Blocked = record {
  kv = record { block_table = 0 ∷ 2 ∷ 3 ∷ []; length = 6; num_cached_prefix = 2 };
  has_kv = refl;
  full = omega arith;
  mid_prefill = refl;
}

schedule-stalled_example :
    (st : Stats) × (schedule stalled_server
      ≡ (ok empty_output, record stalled_server { stats = st }))
schedule-stalled_example =
    schedule-stalled stalled_server halfway [] (omega arith) refl refl refl (halfway-Blocked, tt)

abort-Aborted_example :
    (found : Bool) × (t : Scheduler) × (abort 1 busy ≡ (ok found, t)) × Aborted 1 busy found t
abort-Aborted_example = abort-Aborted 1 busy busy-Inv

abbrev newcomer : Request
newcomer = new_request (1 ∷ []) (record { max_tokens = 1; ignore_eos = true }) 9

add_request-Inv_example :
    Inv (add_request newcomer busy) × (length (add_request newcomer busy).waiting ≡ 2)
add_request-Inv_example = add_request-Inv newcomer busy busy-Inv refl refl

retire-Retired_example :
    (t : Scheduler) × (retire decoding busy ≡ (ok tt, t)) × Retired decoding busy t
retire-Retired_example = retire-Retired decoding busy busy-Inv (unfold find_request in refl)

admit_all_enough_example : admit_all (1 + 2) (first_round busy) ≡ admit_all 1 (first_round busy)
admit_all_enough_example = admit_all_enough 2 1 (first_round busy) (omega arith)
