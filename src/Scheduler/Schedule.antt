-- ===== src/Scheduler/Schedule.antt =====
-- scheduler.py: `schedule`, its four phases as functions on the variables of the method.
use infer_lab.Base.{
  ℕ, zero, suc, ◌+◌, ◌-◌, max, List, [], ◌∷◌, ◌++◌, length, Bool, true, false, ltb, leb, ◌==◌, not,
  ◌&&◌, ◌||◌, if◌then◌else◌, Option, none, some, Result, ok, err, Outcome, Action, and_then,
  assertion_error,
}
use infer_lab.Allocator.{num_free}
use infer_lab.Paged.{SequenceKv, blocks_needed, ceil_div}
use infer_lab.Radix
use infer_lab.Radix.{RadixCache}
use infer_lab.Request.{Request, State, prefill_done, is_preempted}
use infer_lab.Scheduler.State.{
  Scheduler, Stats, Output, Chunk, num_tokens, sum_tokens, empty_output, is_empty, none_left, ids,
  find_request, remove_request, release_request, on_radix,
}
use infer_lab.Scheduler.Room.{fits, available, make_room}
use infer_lab.Scheduler.Admission.{admit, make_chunk}

-- The local variables of `schedule` with the scheduler itself. `scheduled` is the set of that name.
pub record Round : Type 0 where
  pub sched : Scheduler
  pub out : Output
  pub budget : ℕ
  pub reserved : ℕ
  pub scheduled : List ℕ

abbrev pub on_sched {ℓ} : {A : Type ℓ} → Action Scheduler A → Action Round A
on_sched m r = let (x, s) = m r.sched in (x, record r { sched = s })

abbrev pub lift_result {ℓ} : {A : Type ℓ} → Result A → Action Round A
lift_result x r = (x, r)

-- A request of the loop's list that `_make_room` has preempted since stands in `waiting`, so that
-- one not found in `running` is one whose state is PREEMPTED.
abbrev pub lookup_request : ℕ → Scheduler → Option Request
lookup_request id s = find_request id s.running

abbrev pub commit_decode : ℕ → ℕ → Round → Round
commit_decode id needed r = record r {
  reserved = r.reserved + needed;
  scheduled = id ∷ r.scheduled;
  out = record r.out { decode_requests = r.out.decode_requests ++ id ∷ [] };
  budget = r.budget - 1;
}

abbrev pub add_preempted : List ℕ → Round → Round
add_preempted victims r = record r { out = record r.out { preempted = r.out.preempted ++ victims } }

abbrev pub preempted_now : Option Request → Bool
preempted_now none = true
preempted_now (some q) = is_preempted q.state

-- A decode for which the memory is missing: make room, and give up for this step if that failed.
abbrev pub decode_short : ℕ → ℕ → Action Round (Unit {0})
decode_short id needed r =
    and_then (on_sched (make_room (needed + r.reserved) (id ∷ r.scheduled)) r) λ victims r'.
      if preempted_now (lookup_request id r'.sched)
      then (ok tt, add_preempted victims r')
      else if fits needed (available r'.sched r'.reserved)
      then (ok tt, commit_decode id needed (add_preempted victims r'))
      else (ok tt, add_preempted victims r')

abbrev pub decode_with : ℕ → Request → Option SequenceKv → Action Round (Unit {0})
decode_with id q none r = (err assertion_error, r)
decode_with id q (some kv) r =
    let needed = blocks_needed r.sched.config.block_size kv (q.num_computed_tokens + 1) in
    if fits needed (available r.sched r.reserved)
    then (ok tt, commit_decode id needed r)
    else decode_short id needed r

abbrev pub decode_found : ℕ → Option Request → Action Round (Unit {0})
decode_found id none r = (ok tt, r)
decode_found id (some q) r =
    if is_preempted q.state || not (prefill_done q) then (ok tt, r) else decode_with id q q.kv r

unfoldable pub decode_one : ℕ → Action Round (Unit {0})
decode_one id r = decode_found id (lookup_request id r.sched) r

-- `for request in list(self.running)`: the list is that of the loop's start.
unfoldable pub decode_all : List ℕ → Action Round (Unit {0})
decode_all [] r = (ok tt, r)
decode_all (id ∷ rest) r =
    let go = and_then (decode_one id r) λ _ r'. decode_all rest r' in
    if r.budget == 0 then (ok tt, r) else go

abbrev pub commit_chunk : Chunk → ℕ → Round → Round
commit_chunk c needed r = record r {
  reserved = r.reserved + needed;
  scheduled = c.request ∷ r.scheduled;
  out = record r.out { prefill_chunks = r.out.prefill_chunks ++ c ∷ [] };
  budget = r.budget - num_tokens c;
}

abbrev pub chunk_with : Chunk → Option SequenceKv → Action Round (Unit {0})
chunk_with c none r = (err assertion_error, r)
chunk_with c (some kv) r = (
  ok tt,
  commit_chunk c (blocks_needed r.sched.config.block_size kv (c.start_pos + num_tokens c)) r,
)

abbrev pub take_chunk : Request → Option Chunk → Action Round (Unit {0})
take_chunk q none r = (ok tt, r)
take_chunk q (some c) r = chunk_with c q.kv r

abbrev pub prefill_found : Option Request → Action Round (Unit {0})
prefill_found none r = (ok tt, r)
prefill_found (some q) r =
    if prefill_done q || is_preempted q.state
    then (ok tt, r)
    else and_then
        (lift_result (make_chunk r.sched.config q r.budget (available r.sched r.reserved)) r)
        λ c r'. take_chunk q c r'

unfoldable pub prefill_one : ℕ → Action Round (Unit {0})
prefill_one id r = prefill_found (lookup_request id r.sched) r

unfoldable pub prefill_all : List ℕ → Action Round (Unit {0})
prefill_all [] r = (ok tt, r)
prefill_all (id ∷ rest) r =
    let go = and_then (prefill_one id r) λ _ r'. prefill_all rest r' in
    if r.budget == 0 then (ok tt, r) else go

-- `self.waiting.pop(0)`, `self.running.append(request)`.
abbrev pub start_running : Request → List Request → Scheduler → Scheduler
start_running q rest s = record s { waiting = rest; running = s.running ++ q ∷ [] }

-- An admission for which no chunk fits is rolled back: the request goes back to the head of the
-- queue.
abbrev pub roll_back : Request → Action Round Bool
roll_back q r = and_then (on_sched (release_request q) r) λ q' r'. (
  ok false,
  record r' {
    sched = record r'.sched {
      running = remove_request q.request_id r'.sched.running;
      waiting = record q' { state = State.waiting } ∷ r'.sched.waiting;
    };
  },
)

abbrev pub first_chunk : Request → Option Chunk → Action Round Bool
first_chunk q none r = roll_back q r
first_chunk q (some c) r = and_then (chunk_with c q.kv r) λ _ r'. (ok true, r')

-- A round of phase 3 at the head `q` of the queue, with `rest` behind it; false is its `break`.
abbrev pub admitted : List Request → Bool × Request → Action Round Bool
admitted rest (false, q) r = (ok false, record r { sched = record r.sched { waiting = q ∷ rest } })
admitted rest (true, q) r =
    let r' = record r { sched = start_running q rest r.sched } in
    and_then (lift_result (make_chunk r.sched.config q r.budget (available r.sched r.reserved)) r')
      λ c r''. first_chunk q c r''

unfoldable pub admit_one : Request → List Request → Action Round Bool
admit_one q rest r =
    and_then (on_sched (admit q (available r.sched r.reserved)) r) λ x r'. admitted rest x r'

abbrev pub may_admit : Round → Bool
may_admit r = ltb 0 r.budget && ltb (length r.sched.running) r.sched.config.max_num_seqs

-- What follows a round of the loop: the next round, or the end of the loop.
abbrev pub go_on : Action Round (Unit {0}) → Bool → Action Round (Unit {0})
go_on next true r = next r
go_on next false r = (ok tt, r)

abbrev pub admit_next : Action Round (Unit {0}) → List Request → Action Round (Unit {0})
admit_next next [] r = (ok tt, r)
admit_next next (q ∷ rest) r =
    if may_admit r then and_then (admit_one q rest r) (go_on next) else (ok tt, r)

-- The `while` loop of phase 3. A round that does not break takes one request off the queue, so that
-- as many rounds as there are waiting requests are enough.
unfoldable pub admit_all : ℕ → Action Round (Unit {0})
admit_all zero r = (ok tt, r)
admit_all (suc fuel) r = admit_next (admit_all fuel) r.sched.waiting r

-- Phase 4, first half: nothing runs, nothing was scheduled, and requests wait for the prefix cache.
abbrev pub stalled : Request → Option RadixCache → Action Round (Unit {0})
stalled head none r = (ok tt, r)
stalled head (some c) r =
    let needed = ceil_div (head.num_computed_tokens + 1) r.sched.config.block_size in
    and_then (on_sched (on_radix c (Radix.evict (max 1 (needed - num_free r.sched.allocator)))) r)
      λ _ r'. (ok tt, r')

abbrev pub break_stall : List Request → List Request → Action Round (Unit {0})
break_stall (q ∷ running) waiting r = (ok tt, r)
break_stall [] [] r = (ok tt, r)
break_stall [] (head ∷ waiting) r = stalled head r.sched.radix r

-- Phase 4, second half: the oldest running request takes its next block.
abbrev pub schedule_head : Request → SequenceKv → Action Round (Unit {0})
schedule_head head kv r =
    let needed = blocks_needed r.sched.config.block_size kv (head.num_computed_tokens + 1) in
    if leb needed (num_free r.sched.allocator)
    then (
      ok tt,
      record r {
        scheduled = head.request_id ∷ r.scheduled;
        out = record r.out { decode_requests = r.out.decode_requests ++ head.request_id ∷ [] };
      },
    )
    else (ok tt, r)

abbrev pub head_with : Request → Option SequenceKv → Action Round (Unit {0})
head_with head none r = (ok tt, r)
head_with head (some kv) r =
    let needed = blocks_needed r.sched.config.block_size kv (head.num_computed_tokens + 1) in
    if prefill_done head
    then if ltb (num_free r.sched.allocator) needed
      then and_then (on_sched (make_room needed (head.request_id ∷ [])) r)
          (λ victims r'. schedule_head head kv (add_preempted victims r'))
      else schedule_head head kv r
    else (ok tt, r)

abbrev pub advance_head : List Request → Action Round (Unit {0})
advance_head [] r = (ok tt, r)
advance_head (head ∷ rest) r = head_with head head.kv r

unfoldable pub force_progress : Action Round (Unit {0})
force_progress r =
    if is_empty r.out
    then and_then (break_stall r.sched.running r.sched.waiting r)
        (λ _ r'. advance_head r'.sched.running r')
    else (ok tt, r)

-- The bookkeeping at the end.
abbrev pub bookkeeping : Scheduler → Output → Stats
bookkeeping s out = record s.stats {
  scheduled_prefill_tokens = s.stats.scheduled_prefill_tokens + sum_tokens out.prefill_chunks;
  scheduled_decode_tokens = s.stats.scheduled_decode_tokens + length out.decode_requests;
  max_running = max s.stats.max_running (length s.running);
  mixed_steps =
      (if not (none_left out.prefill_chunks) && not (none_left out.decode_requests)
        then s.stats.mixed_steps + 1
        else s.stats.mixed_steps);
}

abbrev pub first_round : Scheduler → Round
first_round s = record {
  sched = record s { stats = record s.stats { steps = s.stats.steps + 1 } };
  out = empty_output;
  budget = s.config.max_num_batched_tokens;
  reserved = 0;
  scheduled = [];
}

unfoldable pub phases : Action Round (Unit {0})
phases r0 = and_then (decode_all (ids r0.sched.running) r0) λ _ r1.
    and_then (prefill_all (ids r1.sched.running) r1)
      λ _ r2. and_then (admit_all (length r2.sched.waiting) r2) λ _ r3. force_progress r3

abbrev pub close : Outcome Round (Unit {0}) → Outcome Scheduler Output
close (err e, r) = (err e, r.sched)
close (ok _, r) = (ok r.out, record r.sched { stats = bookkeeping r.sched r.out })

unfoldable pub schedule : Action Scheduler Output
schedule s = close (phases (first_round s))
