-- ===== src/Scheduler/Enqueuing.antt =====
-- Phase 3 of `schedule`: admissions from the head of the queue, and their roll-back.
use infer_lab.Base.{
  Action, ℕ, zero, suc, ◌<◌, ◌≡◌, refl, sym, ap, subst, ◌∙◌, List, [], ◌∷◌, ◌++◌, length,
  length-append, count, count-append, All, All-append, Bool, true, false, Bool-cases, inl, inr,
  Option, none, some, arith, ok, Result, Outcome, and_then, Returns, Returns-ok, Returns-if,
  Returns-eq, Returns-and_then,
}
use infer_lab.Allocator.Accounts.{Accounts-cast}
use infer_lab.Paged.{SequenceKv}
use infer_lab.Request.{Request, State}
use infer_lab.Scheduler.State.{
  Scheduler, Chunk, Config, find_request, remove_request, contains, ids, release_request,
}
use infer_lab.Scheduler.Room.{available}
use infer_lab.Scheduler.Admission.{make_chunk}
use infer_lab.Scheduler.Schedule.{
  Round, lift_result, start_running, roll_back, first_chunk, admitted, admit_one, may_admit,
  admit_all, admit_next, go_on,
}
use infer_lab.Scheduler.Queues.{
  tables, count-tables, count-tables_snoc, count-ids_snoc, find-append, find-snoc, count_of_find,
}
use infer_lab.Scheduler.Invariant.{cached, HasKv, Inv, Seated}
use infer_lab.Scheduler.Preempting.{requeue-Moves}
use infer_lab.Scheduler.Chunking.{make_chunk-IsChunk}
use infer_lab.Scheduler.Admitting.{Seats, admit-Seats}
use infer_lab.Scheduler.Decoding.{Plans, chunk_with-Plans}
use infer_lab.Scheduler.Planning.{Planned, Planned-Moves}

-- The postcondition of a round of the loop, whether it breaks or not.
abbrev pub PlansOn : ℕ → Bool → Round → Type 0
PlansOn limit _ r = Planned limit r

-- The request goes back to its place: not admitted.
back-Inv :
    (s t : Scheduler) (q q' : Request) (rest : List Request) (kv : SequenceKv)
    → Inv s
    → s.waiting ≡ q ∷ rest
    → Seats s q rest q' kv t
    → Inv (record t { waiting = q' ∷ rest })
back-Inv s t q q' rest kv v w d =
    let running = d.same_running in
    record {
      books =
          Accounts-cast
            (λ b.
              ap (λ x. count b (cached t.radix ++ (tables x ++ tables (q' ∷ rest)))) (sym running))
            d.books;
      cache = d.cache;
      seated = subst (All Seated) (sym running) v.seated;
      distinct = λ i. ground (
        arith,
        v.distinct i,
        ap (λ x. count i (ids x)) w,
        ap (λ x. count i (ids x)) running,
        d.same_id,
      );
      few = omega (
        arith,
        v.few,
        ap (λ (g : Config). g.max_num_seqs) d.same_config,
        ap (length {A = Request}) running,
      );
    }

HasKv-some : (o : Option SequenceKv) (kv : SequenceKv) → o ≡ some kv → HasKv o
HasKv-some none kv e = cc
HasKv-some (some x) kv e = tt

-- The request joins the running ones: admitted.
start-Inv :
    (s t : Scheduler) (q q' : Request) (rest : List Request) (kv : SequenceKv)
    → Inv s
    → s.waiting ≡ q ∷ rest
    → Seats s q rest q' kv t
    → length s.running < s.config.max_num_seqs
    → Inv (start_running q' rest t)
start-Inv s t q q' rest kv v w d room =
    let running = d.same_running in
    record {
      books =
          Accounts-cast
            (λ b. omega (
              arith,
              count-append b (cached t.radix) (tables s.running ++ tables (q' ∷ rest)),
              count-append b (tables s.running) (tables (q' ∷ rest)),
              count-append b (cached t.radix) (tables (t.running ++ q' ∷ []) ++ tables rest),
              count-append b (tables (t.running ++ q' ∷ [])) (tables rest),
              count-tables b q' rest,
              count-tables_snoc b t.running q',
              ap (λ x. count b (tables x)) running,
            ))
            d.books;
      cache = d.cache;
      seated =
          All-append Seated t.running (q' ∷ []) (subst (All Seated) (sym running) v.seated)
            (HasKv-some q'.kv kv d.has_kv, tt);
      distinct = λ i. ground (
        arith,
        v.distinct i,
        ap (λ x. count i (ids x)) w,
        ap (λ x. count i (ids x)) running,
        d.same_id,
        count-ids_snoc i t.running q',
      );
      few = omega (
        arith,
        room,
        ap (λ (g : Config). g.max_num_seqs) d.same_config,
        ap (length {A = Request}) running,
        length-append t.running (q' ∷ []),
      );
    }

-- The head of the queue has an identifier that no running request has.
new_id :
    (s t : Scheduler) (q q' : Request) (rest : List Request) (kv : SequenceKv)
    → Inv s
    → s.waiting ≡ q ∷ rest
    → Seats s q rest q' kv t
    → count q'.request_id (ids t.running) ≡ 0
new_id s t q q' rest kv v w d =
    let one = v.distinct q.request_id in
    let waits = ap (λ x. count q.request_id (ids x)) w in
    let runs = ap (λ x. count q.request_id (ids x)) d.same_running in
    let zero_count : count q.request_id (ids t.running) ≡ 0 = ground arith in
    ap (λ i. count i (ids t.running)) d.same_id ∙ zero_count

not_listed :
    (limit : ℕ) (r : Round) (id : ℕ)
    → Planned limit r
    → count id (ids r.sched.running) ≡ 0
    → contains id r.scheduled ≡ false
not_listed limit r id p h = elim (Bool-cases (contains id r.scheduled)) [
  | inl there ↦
      (let (q, e) = p.present id there in
        absurd (omega (arith, count_of_find id r.sched.running q e)))
  | inr away ↦ away
]

roll_back-Plans :
    (limit : ℕ) (q : Request) (r : Round)
    → Planned limit r
    → find_request q.request_id r.sched.running ≡ some q
    → contains q.request_id r.scheduled ≡ false
    → Returns (PlansOn limit) (roll_back q r)
unfolding release_request
roll_back-Plans limit q r p found away =
    let w = record q { kv = none; state = State.waiting } in
    let (t, e, m) =
      requeue-Moves q w r.sched r.scheduled r.sched.stats p.inv found away refl refl in
    let s' = record r.sched {
      allocator = t;
      running = remove_request q.request_id r.sched.running;
      waiting = w ∷ r.sched.waiting;
    } in
    Returns-eq (PlansOn limit) (roll_back q r) false (record r { sched = s' }) (rw e refl)
      (Planned-Moves limit r s' p m.inv m.same_config m.grown m.kept)

-- The chunk of a request that was just admitted, or its roll-back.
first_chunk-Plans :
    (limit : ℕ) (q : Request) (kv : SequenceKv) (budget : ℕ) (r : Round)
    → Planned limit r
    → find_request q.request_id r.sched.running ≡ some q
    → contains q.request_id r.scheduled ≡ false
    → q.kv ≡ some kv
    → budget ≡ r.budget
    → Returns (PlansOn limit) (
        and_then
          (lift_result (make_chunk r.sched.config q budget (available r.sched r.reserved)) r)
          (λ c r'. first_chunk q c r'))
first_chunk-Plans limit q kv budget r p found away k spend =
    let go =
      λ (x : Result (Option Chunk)). and_then (lift_result x r) (λ c r'. first_chunk q c r') in
    elim (make_chunk-IsChunk r.sched.config q kv budget (available r.sched r.reserved) p.positive
      k) [
        | inl none_made ↦
            (let back = roll_back-Plans limit q r p found away in
              Returns-eq (PlansOn limit) _ back.value back.state (ap go none_made ∙ back.returns)
                back.holds)
        | inr (c, made, i) ↦
            (let joined = chunk_with-Plans limit c q kv q.kv budget r p found k k spend i in
              Returns-eq (PlansOn limit) _ true joined.state
                (ap go made ∙ ap (λ o. and_then o (λ _ r'. (ok true, r'))) joined.returns)
                joined.holds)
      ]

admitted-Plans :
    (limit : ℕ) (b : Bool) (q q' : Request) (rest : List Request) (kv : SequenceKv) (t : Scheduler)
    (r : Round)
    → Planned limit r
    → r.sched.waiting ≡ q ∷ rest
    → length r.sched.running < r.sched.config.max_num_seqs
    → Seats r.sched q rest q' kv t
    → Returns (PlansOn limit) (admitted rest (b, q') (record r { sched = t }))
admitted-Plans limit false q q' rest kv t r p w room d =
    Returns-ok (PlansOn limit) false (record r { sched = record t { waiting = q' ∷ rest } })
      (Planned-Moves limit r (record t { waiting = q' ∷ rest }) p
        (back-Inv r.sched t q q' rest kv p.inv w d) d.same_config (omega (arith, d.same_free))
        (λ i c. ap (find_request i) d.same_running))
admitted-Plans limit true q q' rest kv t r p w room d =
    let s' = start_running q' rest t in
    let fresh = new_id r.sched t q q' rest kv p.inv w d in
    let p' =
      Planned-Moves limit r s' p (start-Inv r.sched t q q' rest kv p.inv w d room) d.same_config
        (omega (arith, d.same_free))
        (λ i c.
          let (x, e) = p.present i c in
          let e' = ap (find_request i) d.same_running ∙ e in
          find-append i t.running (q' ∷ []) x e' ∙ sym e) in
    first_chunk-Plans limit q' kv r.budget (record r { sched = s' }) p'
      (find-snoc t.running q' fresh)
      (not_listed limit r q'.request_id p
        (ap (λ x. count q'.request_id (ids x)) (sym d.same_running) ∙ fresh))
      d.has_kv refl

admit_one-Plans :
    (limit : ℕ) (q : Request) (rest : List Request) (r : Round)
    → Planned limit r
    → r.sched.waiting ≡ q ∷ rest
    → length r.sched.running < r.sched.config.max_num_seqs
    → Returns (PlansOn limit) (admit_one q rest r)
unfolding admit_one
admit_one-Plans limit q rest r p w room =
    let (b, q', kv, t, run, d) =
      admit-Seats q rest (available r.sched r.reserved) r.sched p.inv w in
    let done = admitted-Plans limit b q q' rest kv t r p w room d in
    Returns-eq (PlansOn limit) _ done.value done.state
      (ap
          (λ (o : Outcome Scheduler (Bool × Request)).
            and_then (o.0, record r { sched = o.1 }) (λ x r'. admitted rest x r'))
          run
        ∙ done.returns)
      done.holds

admit_next-Plans :
    (limit : ℕ) (next : Action Round (Unit {0})) (o : List Request) (r : Round)
    → Planned limit r
    → r.sched.waiting ≡ o
    → ((r' : Round) → Planned limit r' → Returns (Plans limit) (next r'))
    → Returns (Plans limit) (admit_next next o r)
admit_next-Plans limit next [] r p e h = Returns-ok (Plans limit) tt r p
admit_next-Plans limit next (q ∷ rest) r p e h =
    Returns-if (Plans limit) (may_admit r) (and_then (admit_one q rest r) (go_on next)) (ok tt, r)
      (λ may.
        Returns-and_then (PlansOn limit) (Plans limit) (admit_one q rest r) (go_on next)
          (admit_one-Plans limit q rest r p e (ground arith)) go_on-Plans)
      (λ _. Returns-ok (Plans limit) tt r p)
  where
    go_on-Plans :
        (b : Bool) (r' : Round) → Planned limit r' → Returns (Plans limit) (go_on next b r')
    go_on-Plans true r' p' = h r' p'
    go_on-Plans false r' p' = Returns-ok (Plans limit) tt r' p'

-- Phase 3 raises nothing, and the plan stays within the memory and the budget.
pub admit_all-Plans :
    (limit fuel : ℕ) (r : Round) → Planned limit r → Returns (Plans limit) (admit_all fuel r)
unfolding admit_all
admit_all-Plans limit zero r p = Returns-ok (Plans limit) tt r p
admit_all-Plans limit (suc fuel) r p =
    admit_next-Plans limit (admit_all fuel) r.sched.waiting r p refl
      (λ r' p'. admit_all-Plans limit fuel r' p')
