-- ===== src/Scheduler/Stalling.antt =====
-- When `schedule` plans nothing: running prefills that are out of blocks.
use infer_lab.Base.{
  ℕ, ◌+◌, ◌≤◌, ◌<◌, ◌≡◌, refl, ap, ◌∙◌, List, [], ◌∷◌, length, All, Bool, true, false, not, ltb,
  ◌||◌, inl, inr, Option, none, some, arith, ◌==◌, if◌then◌else◌, ok, and_then,
}
use infer_lab.Allocator.{num_free}
use infer_lab.Paged.{SequenceKv, capacity, blocks_needed}
use infer_lab.Paged.Capacity.{blocks_needed-le_iff}
use infer_lab.Request.{Request, prefill_done, is_preempted}
use infer_lab.Scheduler.State.{Scheduler, Stats, Config, empty_output, ids, find_request}
use infer_lab.Scheduler.Room.{make_room, available, Balance}
use infer_lab.Scheduler.Admission.{make_chunk}
use infer_lab.Scheduler.Schedule.{
  Round, decode_found, decode_one, decode_all, prefill_found, prefill_one, prefill_all, take_chunk,
  decode_with, lift_result, admit_all, force_progress, advance_head, on_sched, schedule_head,
  add_preempted, break_stall, head_with, first_round, phases, schedule, bookkeeping,
}
use infer_lab.Scheduler.Decoding.{find-All}
use infer_lab.Scheduler.Chunking.{make_chunk-IsChunk}

-- A request in the middle of its prefill whose table has no room for another token.
pub record Blocked (bs : ℕ) (q : Request) : Type 0 where
  pub kv : SequenceKv
  pub has_kv : q.kv ≡ some kv
  pub full : capacity bs kv ≤ q.num_computed_tokens
  pub mid_prefill : prefill_done q ≡ false

if_both {ℓ} : {A : Type ℓ} (b : Bool) {x y z : A} → x ≡ z → y ≡ z → (if b then x else y) ≡ z
if_both true e f = e
if_both false e f = f

if_or_true {ℓ} : {A : Type ℓ} (b : Bool) (x y : A) → (if b || true then x else y) ≡ x
if_or_true true x y = refl
if_or_true false x y = refl

-- Without a free block no chunk is made.
make_chunk-Blocked :
    (g : Config) (q : Request) (budget : ℕ) (b : Balance)
    → 0 < g.block_size
    → Blocked g.block_size q
    → b.have ≡ 0
    → make_chunk g q budget b ≡ ok none
unfolding capacity
make_chunk-Blocked g q budget b h w full = elim (make_chunk-IsChunk g q w.kv budget b h w.has_kv) [
  | inl none_made ↦ none_made
  | inr (c, made, i) ↦
      (let fits =
          (blocks_needed-le_iff g.block_size w.kv (c.start_pos + length c.token_ids) 0 h).0
            (omega (arith, i.in_memory, full)) in
        absurd (omega (arith, fits, i.some_tokens, i.starts, w.full)))
]

module _ (r : Round) (h : 0 < r.sched.config.block_size)
    (dry : num_free r.sched.allocator ≡ 0) where
  abbrev Stuck : Request → Type 0
  Stuck = Blocked r.sched.config.block_size

  decode_found_blocked :
      (id : ℕ) (o : Option Request)
      → ((q : Request) → o ≡ some q → Stuck q)
      → decode_found id o r ≡ (ok tt, r)
  decode_found_blocked id none w = refl
  decode_found_blocked id (some q) w =
      ap (λ b. if is_preempted q.state || not b then (ok tt, r) else decode_with id q q.kv r)
        (w q refl).mid_prefill
      ∙ if_or_true (is_preempted q.state) _ _

  prefill_found_blocked :
      (o : Option Request) → ((q : Request) → o ≡ some q → Stuck q) → prefill_found o r ≡ (ok tt, r)
  prefill_found_blocked none w = refl
  prefill_found_blocked (some q) w = if_both (prefill_done q || is_preempted q.state) refl (
      ap (λ x. and_then (lift_result x r) (λ c r'. take_chunk q c r'))
        (make_chunk-Blocked r.sched.config q r.budget (available r.sched r.reserved) h (w q refl)
          dry))

  module _ (all : All Stuck r.sched.running) where
    decode_all_blocked : (snapshot : List ℕ) → decode_all snapshot r ≡ (ok tt, r)
    unfolding decode_all decode_one
    decode_all_blocked [] = refl
    decode_all_blocked (id ∷ rest) = if_both (r.budget == 0) refl (
        ap (λ o. and_then o (λ _ r'. decode_all rest r'))
          (decode_found_blocked id (find_request id r.sched.running)
            (λ q. find-All Stuck id r.sched.running q all))
        ∙ decode_all_blocked rest)

    prefill_all_blocked : (snapshot : List ℕ) → prefill_all snapshot r ≡ (ok tt, r)
    unfolding prefill_all prefill_one
    prefill_all_blocked [] = refl
    prefill_all_blocked (id ∷ rest) = if_both (r.budget == 0) refl (
        ap (λ o. and_then o (λ _ r'. prefill_all rest r'))
          (prefill_found_blocked (find_request id r.sched.running)
            (λ q. find-All Stuck id r.sched.running q all))
        ∙ prefill_all_blocked rest)

advance_head-Blocked :
    (o : List Request) (r : Round)
    → All (Blocked r.sched.config.block_size) o
    → advance_head o r ≡ (ok tt, r)
advance_head-Blocked [] r w = refl
advance_head-Blocked (q ∷ rest) r w = head_with_blocked q.kv
  where
    head_with_blocked : (o : Option SequenceKv) → head_with q o r ≡ (ok tt, r)
    head_with_blocked none = refl
    head_with_blocked (some kv) =
        ap
          (λ b.
            if b
            then if ltb (num_free r.sched.allocator)
                (blocks_needed r.sched.config.block_size kv (q.num_computed_tokens + 1))
              then and_then
                  (on_sched
                    (make_room
                      (blocks_needed r.sched.config.block_size kv (q.num_computed_tokens + 1))
                      (q.request_id ∷ []))
                    r)
                  (λ victims r'. schedule_head q kv (add_preempted victims r'))
              else schedule_head q kv r
            else (ok tt, r))
          w.0.mid_prefill

-- If the block size is not 0, no block is free, nobody waits, and every running request, of which
-- there is at least one, is in the middle of its prefill with a full table, then `schedule` plans
-- nothing, preempts nobody and evicts nothing: it changes the scheduler only in its statistics, so
-- that the next call finds the same. This holds also where the prefix cache has blocks that could
-- be evicted.
pub schedule-stalled :
    (s : Scheduler) (q : Request) (rest : List Request)
    → 0 < s.config.block_size
    → num_free s.allocator ≡ 0
    → s.waiting ≡ []
    → s.running ≡ q ∷ rest
    → All (Blocked s.config.block_size) s.running
    → (st : Stats) × (schedule s ≡ (ok empty_output, record s { stats = st }))
unfolding schedule phases force_progress admit_all
schedule-stalled s q rest h dry nobody some_run w =
    let r = first_round s in
    let decoded = decode_all_blocked r h dry w (ids s.running) in
    let prefilled = prefill_all_blocked r h dry w (ids s.running) in
    let quiet : admit_all (length s.waiting) r ≡ (ok tt, r) = admitted_none in
    let no_stall : break_stall s.running s.waiting r ≡ (ok tt, r) =
      ap (λ running. break_stall running s.waiting r) some_run in
    let no_head : advance_head s.running r ≡ (ok tt, r) = advance_head-Blocked s.running r w in
    (bookkeeping r.sched r.out, rw (decoded, prefilled, quiet, no_stall, no_head) refl)
  where
    admitted_none : admit_all (length s.waiting) (first_round s) ≡ (ok tt, first_round s)
    admitted_none = ap (λ ws. admit_all (length {A = Request} ws) (first_round s)) nobody
