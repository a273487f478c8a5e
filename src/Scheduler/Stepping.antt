-- ===== src/Scheduler/Stepping.antt =====
-- Phase 4 of `schedule`, and what a whole step guarantees.
use infer_lab.Base.{
  ℕ, ◌+◌, ◌-◌, ◌≤◌, ◌<◌, ◌≡◌, refl, sym, ap, subst, ◌∙◌, max, List, [], ◌∷◌, ◌++◌, length,
  length-append, All, All-append, All-imp, Bool, true, false, Option, none, some, arith, leb, ltb,
  ◌&&◌, ==_refl, ok, Outcome, and_then, Returns, Returns-ok, Returns-if, Returns-eq,
  Returns-and_then,
}
use infer_lab.Allocator.{num_free}
use infer_lab.Paged.{SequenceKv, blocks_needed, ceil_div}
use infer_lab.Radix.{RadixCache}
use infer_lab.Request.{Request, prefill_done}
use infer_lab.Scheduler.State.{
  Scheduler, Chunk, Output, find_request, contains, ids, is_empty, none_left, sum_tokens,
  num_batched_tokens,
}
use infer_lab.Scheduler.Schedule.{
  Round, stalled, break_stall, schedule_head, head_with, advance_head, force_progress,
  add_preempted, decode_all, prefill_all, admit_all, first_round, phases, close, schedule,
  bookkeeping,
}
use infer_lab.Scheduler.Invariant.{Inv, evict_from-Moves}
use infer_lab.Scheduler.Preempting.{make_room-Moves}
use infer_lab.Scheduler.Planning.{
  Planned, Planned-Moves, demand, decode_sum, decode_need, chunk_sum, kv_need, contains_head,
}
use infer_lab.Scheduler.Decoding.{Plans, decode_all-Plans, prefill_all-Plans}
use infer_lab.Scheduler.Enqueuing.{admit_all-Plans}

-- The request of a decode, or of a chunk, runs.
abbrev pub Runs : List Request → ℕ → Type 0
Runs rs id = (q : Request) × (find_request id rs ≡ some q)

abbrev pub RunsChunk : List Request → Chunk → Type 0
RunsChunk rs c = (q : Request) × (find_request c.request rs ≡ some q)

-- The plan `out` can be executed by the scheduler `t`, with `limit` tokens.
pub record Feasible (limit : ℕ) (out : Output) (t : Scheduler) : Type 0 where
  pub inv : Inv t
  -- the free list has the blocks that all decodes and chunks together take
  pub enough : demand t.config.block_size t.running out ≤ num_free t.allocator
  -- phase 4 schedules one token whatever the budget is
  pub bounded : num_batched_tokens out ≤ max limit 1
  pub decodes : All (Runs t.running) out.decode_requests
  pub chunks : All (RunsChunk t.running) out.prefill_chunks

abbrev pub Settles : ℕ → Unit {0} → Round → Type 0
Settles limit _ r = Feasible limit r.out r.sched

Planned-Feasible : (limit : ℕ) (r : Round) → Planned limit r → Feasible limit r.out r.sched
Planned-Feasible limit r p = record {
  inv = p.inv;
  enough = omega (arith, p.reserves, p.covered);
  bounded = omega (arith, p.spent);
  decodes = All-imp r.out.decode_requests p.present p.decodes;
  chunks = All-imp r.out.prefill_chunks (λ c. p.present c.request) p.chunks;
}

-- Nothing is scheduled yet.
abbrev pub Blank : Output → Type 0
Blank out = (out.prefill_chunks ≡ []) × (out.decode_requests ≡ [])

none_left_lem : {A : Type 0} (xs : List A) → none_left xs ≡ true → xs ≡ []
none_left_lem [] e = refl
none_left_lem (x ∷ xs) e = cc

and_true : (a b : Bool) → (a && b) ≡ true → (a ≡ true) × (b ≡ true)
and_true true b e = (refl, e)
and_true false b e = cc

is_empty-Blank : (out : Output) → is_empty out ≡ true → Blank out
is_empty-Blank out e =
    let (a, b) = and_true (none_left out.prefill_chunks) (none_left out.decode_requests) e in
    (none_left_lem out.prefill_chunks a, none_left_lem out.decode_requests b)

-- A plan that is still blank.
abbrev pub Idle : ℕ → Unit {0} → Round → Type 0
Idle limit _ r = Planned limit r × Blank r.out

stalled-Idle :
    (limit : ℕ) (head : Request) (o : Option RadixCache) (r : Round)
    → r.sched.radix ≡ o
    → Idle limit tt r
    → Returns (Idle limit) (stalled head o r)
stalled-Idle limit head none r e h = Returns-ok (Idle limit) tt r h
stalled-Idle limit head (some c) r e (p, blank) =
    let n = max 1 (
      ceil_div (head.num_computed_tokens + 1) r.sched.config.block_size
      - num_free r.sched.allocator) in
    let (freed, t, run, m, _, _, _, _) = evict_from-Moves (some c) n r.sched r.scheduled e p.inv in
    Returns-eq (Idle limit) _ tt (record r { sched = t })
      (ap
        (λ (o : Outcome Scheduler ℕ).
          and_then (o.0, record r { sched = o.1 }) (λ _ r'. (ok tt, r')))
        run)
      (Planned-Moves limit r t p m.inv m.same_config m.grown m.kept, blank)

break_stall-Idle :
    (limit : ℕ) (running waiting : List Request) (r : Round)
    → Idle limit tt r
    → Returns (Idle limit) (break_stall running waiting r)
break_stall-Idle limit (q ∷ running) waiting r h = Returns-ok (Idle limit) tt r h
break_stall-Idle limit [] [] r h = Returns-ok (Idle limit) tt r h
break_stall-Idle limit [] (head ∷ waiting) r h = stalled-Idle limit head r.sched.radix r refl h

Blank-Feasible :
    (limit : ℕ) (out : Output) (t : Scheduler) → Inv t → Blank out → Feasible limit out t
unfolding decode_sum chunk_sum
Blank-Feasible limit out t v (no_chunks, no_decodes) =
    let bs = t.config.block_size in
    record {
      inv = v;
      enough =
          omega
            (arith, ap (decode_sum bs t.running) no_decodes, ap (chunk_sum bs t.running) no_chunks);
      bounded = omega (arith, ap sum_tokens no_chunks, ap (length {A = ℕ}) no_decodes);
      decodes = subst (All (Runs t.running)) (sym no_decodes) tt;
      chunks = subst (All (RunsChunk t.running)) (sym no_chunks) tt;
    }

-- A single decode on a blank plan.
one_decode-Feasible :
    (limit id : ℕ) (out : Output) (t : Scheduler) (q : Request)
    → Inv t
    → Blank out
    → find_request id t.running ≡ some q
    → decode_need t.config.block_size (some q) ≤ num_free t.allocator
    → Feasible limit (record out { decode_requests = out.decode_requests ++ id ∷ [] }) t
unfolding decode_sum chunk_sum
one_decode-Feasible limit id out t q v (no_chunks, no_decodes) e room =
    let bs = t.config.block_size in
    record {
      inv = v;
      enough = omega (
        arith,
        room,
        ap (λ ds. decode_sum bs t.running (ds ++ id ∷ [])) no_decodes,
        ap (decode_need bs) e,
        ap (chunk_sum bs t.running) no_chunks,
      );
      bounded = omega (
        arith,
        ap sum_tokens no_chunks,
        ap (length {A = ℕ}) no_decodes,
        length-append out.decode_requests (id ∷ []),
      );
      decodes =
          All-append (Runs t.running) out.decode_requests (id ∷ [])
            (subst (All (Runs t.running)) (sym no_decodes) tt) ((q, e), tt);
      chunks = subst (All (RunsChunk t.running)) (sym no_chunks) tt;
    }

schedule_head-Settles :
    (limit : ℕ) (head : Request) (kv : SequenceKv) (r : Round)
    → Inv r.sched
    → Blank r.out
    → find_request head.request_id r.sched.running ≡ some head
    → head.kv ≡ some kv
    → Returns (Settles limit) (schedule_head head kv r)
schedule_head-Settles limit head kv r v blank e k =
    let needed = blocks_needed r.sched.config.block_size kv (head.num_computed_tokens + 1) in
    let need = ap (λ o. kv_need r.sched.config.block_size o (head.num_computed_tokens + 1)) k in
    Returns-if (Settles limit) (leb needed (num_free r.sched.allocator)) _ (ok tt, r)
      (λ room.
        Returns-ok (Settles limit) tt _
          (one_decode-Feasible limit head.request_id r.out r.sched head v blank e (ground arith)))
      (λ _. Returns-ok (Settles limit) tt r (Blank-Feasible limit r.out r.sched v blank))

head_with-Settles :
    (limit : ℕ) (head : Request) (o : Option SequenceKv) (r : Round)
    → Idle limit tt r
    → find_request head.request_id r.sched.running ≡ some head
    → head.kv ≡ o
    → Returns (Settles limit) (head_with head o r)
head_with-Settles limit head none r (p, blank) e k =
    Returns-ok (Settles limit) tt r (Planned-Feasible limit r p)
head_with-Settles limit head (some kv) r (p, blank) e k =
    let needed = blocks_needed r.sched.config.block_size kv (head.num_computed_tokens + 1) in
    let (victims, t, run, m, _, _, _, _, _) =
      make_room-Moves needed (head.request_id ∷ []) r.sched p.inv in
    let r' = add_preempted victims (record r { sched = t }) in
    let made =
      schedule_head-Settles limit head kv r' m.inv blank
        (m.kept head.request_id (contains_head head.request_id []) ∙ e) k in
    Returns-if (Settles limit) (prefill_done head) _ (ok tt, r)
      (λ _.
        Returns-if (Settles limit) (ltb (num_free r.sched.allocator) needed) _
          (schedule_head head kv r)
          (λ _. Returns-eq (Settles limit) _ made.value made.state (rw run made.returns) made.holds)
          (λ _. schedule_head-Settles limit head kv r p.inv blank e k))
      (λ _. Returns-ok (Settles limit) tt r (Planned-Feasible limit r p))

advance_head-Settles :
    (limit : ℕ) (o : List Request) (r : Round)
    → Idle limit tt r
    → r.sched.running ≡ o
    → Returns (Settles limit) (advance_head o r)
unfolding find_request
advance_head-Settles limit [] r (p, blank) e =
    Returns-ok (Settles limit) tt r (Planned-Feasible limit r p)
advance_head-Settles limit (head ∷ rest) r h e =
    let here : find_request head.request_id (head ∷ rest) ≡ some head = rw ==_refl refl in
    head_with-Settles limit head head.kv r h (ap (find_request head.request_id) e ∙ here) refl

force_progress-Settles :
    (limit : ℕ) (r : Round) → Planned limit r → Returns (Settles limit) (force_progress r)
unfolding force_progress
force_progress-Settles limit r p =
    Returns-if (Settles limit) (is_empty r.out) _ (ok tt, r)
      (λ empty.
        Returns-and_then (Idle limit) (Settles limit)
          (break_stall r.sched.running r.sched.waiting r) (λ _ r'. advance_head r'.sched.running r')
          (break_stall-Idle limit r.sched.running r.sched.waiting r (p, is_empty-Blank r.out empty))
          (λ _ r' h. advance_head-Settles limit r'.sched.running r' h refl))
      (λ _. Returns-ok (Settles limit) tt r (Planned-Feasible limit r p))

first_round-Planned :
    (s : Scheduler)
    → Inv s
    → 0 < s.config.block_size
    → Planned s.config.max_num_batched_tokens (first_round s)
unfolding decode_sum chunk_sum contains
first_round-Planned s v h = record {
  inv = record {
    books = v.books;
    cache = v.cache;
    seated = v.seated;
    distinct = v.distinct;
    few = v.few;
  };
  positive = h;
  reserves = refl;
  covered = omega arith;
  spent = omega arith;
  decodes = tt;
  chunks = tt;
  present = λ id e. cc;
}

phases-Settles : (limit : ℕ) (r : Round) → Planned limit r → Returns (Settles limit) (phases r)
unfolding phases
phases-Settles limit r p =
    Returns-and_then (Plans limit) (Settles limit) (decode_all (ids r.sched.running) r) _
      (decode_all-Plans limit (ids r.sched.running) r p)
      (λ _ r1 p1.
        Returns-and_then (Plans limit) (Settles limit) (prefill_all (ids r1.sched.running) r1) _
          (prefill_all-Plans limit (ids r1.sched.running) r1 p1)
          (λ _ r2 p2.
            Returns-and_then (Plans limit) (Settles limit) (admit_all (length r2.sched.waiting) r2)
              _ (admit_all-Plans limit (length r2.sched.waiting) r2 p2)
              (λ _ r3 p3. force_progress-Settles limit r3 p3)))

-- On a scheduler with the invariant and a block size that is not 0, `schedule` raises nothing and
-- keeps the invariant; the requests of its plan run,
-- the blocks that they will need together are free, and the plan has no more tokens than
-- `max_num_batched_tokens`, or one if that is 0.
pub schedule-Feasible :
    (s : Scheduler)
    → Inv s
    → 0 < s.config.block_size
    → Returns (Feasible s.config.max_num_batched_tokens) (schedule s)
unfolding schedule
schedule-Feasible s v h =
    let limit = s.config.max_num_batched_tokens in
    let done = phases-Settles limit (first_round s) (first_round-Planned s v h) in
    let r = done.state in
    let f = done.holds in
    Returns-eq (Feasible limit) _ r.out (record r.sched { stats = bookkeeping r.sched r.out })
      (ap close done.returns)
      record {
        inv = record {
          books = f.inv.books;
          cache = f.inv.cache;
          seated = f.inv.seated;
          distinct = f.inv.distinct;
          few = f.inv.few;
        };
        enough = f.enough;
        bounded = f.bounded;
        decodes = f.decodes;
        chunks = f.chunks;
      }
