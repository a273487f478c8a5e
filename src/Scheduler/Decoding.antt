-- ===== src/Scheduler/Decoding.antt =====
-- Phases 1 and 2 of `schedule`: running requests, decodes first.
use infer_lab.Base.{
  ℕ, ◌+◌, ◌<◌, ◌≡◌, refl, sym, ap, subst, ◌∙◌, List, [], ◌∷◌, All, not, ◌||◌, Bool-cases, inl, inr,
  Option, none, some, arith, ◌==◌, if◌then◌else◌, ok, and_then, Returns, Returns-ok, Returns-if,
  Returns-eq, Returns-and_then, some_injective,
}
use infer_lab.Paged.{SequenceKv, blocks_needed}
use infer_lab.Request.{Request, prefill_done, is_preempted}
use infer_lab.Scheduler.State.{Chunk, find_request, num_tokens}
use infer_lab.Scheduler.Room.{fits, available}
use infer_lab.Scheduler.Admission.{make_chunk}
use infer_lab.Scheduler.Schedule.{
  Round, lift_result, lookup_request, commit_decode, commit_chunk, add_preempted, preempted_now,
  decode_short, decode_with, decode_found, decode_one, decode_all, chunk_with, take_chunk,
  prefill_found, prefill_one, prefill_all,
}
use infer_lab.Scheduler.Invariant.{HasKv, Seated}
use infer_lab.Scheduler.Queues.{find-Removed}
use infer_lab.Scheduler.Preempting.{make_room-Moves}
use infer_lab.Scheduler.Chunking.{IsChunk, make_chunk-IsChunk}
use infer_lab.Scheduler.Planning.{
  Planned, Planned-Moves, commit_decode-Planned, commit_chunk-Planned, kv_need, contains-cons,
  contains_head,
}

-- The postcondition of each part of `schedule`.
abbrev pub Plans : ℕ → Unit {0} → Round → Type 0
Plans limit _ r = Planned limit r

pub find-All {κ} :
    (P : Request → Type κ) (id : ℕ) (rs : List Request) (q : Request)
    → All P rs
    → find_request id rs ≡ some q
    → P q
unfolding find_request
find-All P id [] q h e = cc
find-All P id (r ∷ rs) q h e = elim (Bool-cases (r.request_id == id)) [
  | inl hit ↦ (let found : some r ≡ some q = rw hit at e in subst P (some_injective found) h.0)
  | inr miss ↦ find-All P id rs q h.1 (rw miss at e)
]

add_preempted-Planned :
    (limit : ℕ) (victims : List ℕ) (r : Round)
    → Planned limit r
    → Planned limit (add_preempted victims r)
add_preempted-Planned limit victims r p = record {
  inv = p.inv;
  positive = p.positive;
  reserves = p.reserves;
  covered = p.covered;
  spent = p.spent;
  decodes = p.decodes;
  chunks = p.chunks;
  present = p.present;
}

decode_short-Plans :
    (limit id : ℕ) (q : Request) (kv : SequenceKv) (r : Round)
    → Planned limit r
    → 0 < r.budget
    → find_request id r.sched.running ≡ some q
    → q.kv ≡ some kv
    → Returns
        (Plans limit)
        (decode_short id (blocks_needed r.sched.config.block_size kv (q.num_computed_tokens + 1)) r)
decode_short-Plans limit id q kv r p b e k =
    let needed = blocks_needed r.sched.config.block_size kv (q.num_computed_tokens + 1) in
    let (victims, t, run, m, _, _, _, _, _) =
      make_room-Moves (needed + r.reserved) (id ∷ r.scheduled) r.sched p.inv in
    let p' =
      add_preempted-Planned limit victims (record r { sched = t })
        (Planned-Moves limit r t p m.inv m.same_config m.grown
          (λ i c. m.kept i (contains-cons i id r.scheduled c))) in
    let r' = add_preempted victims (record r { sched = t }) in
    let room = fits needed (available t r.reserved) in
    let rest =
      Returns-if (Plans limit) (preempted_now (lookup_request id t)) (ok tt, r')
        (if room then (ok tt, commit_decode id needed r') else (ok tt, r'))
        (λ _. Returns-ok (Plans limit) tt r' p')
        (λ _.
          Returns-if (Plans limit) room (ok tt, commit_decode id needed r') (ok tt, r')
            (λ h. Returns-ok (Plans limit) tt (commit_decode id needed r') (
              commit_decode-Planned limit id needed r' q p'
                (m.kept id (contains_head id r.scheduled) ∙ e)
                (ap (λ g. blocks_needed g.block_size kv (q.num_computed_tokens + 1))
                    (sym m.same_config)
                  ∙ sym (ap (λ o. kv_need t.config.block_size o (q.num_computed_tokens + 1)) k))
                (ground arith) b))
            (λ _. Returns-ok (Plans limit) tt r' p')) in
    record {
      value = rest.value;
      state = rest.state;
      returns = rw run rest.returns;
      holds = rest.holds;
    }

decode_with-Plans :
    (limit id : ℕ) (q : Request) (o : Option SequenceKv) (r : Round)
    → Planned limit r
    → 0 < r.budget
    → find_request id r.sched.running ≡ some q
    → q.kv ≡ o
    → HasKv o
    → Returns (Plans limit) (decode_with id q o r)
decode_with-Plans limit id q none r p b e k has = absurd has
decode_with-Plans limit id q (some kv) r p b e k has =
    let needed = blocks_needed r.sched.config.block_size kv (q.num_computed_tokens + 1) in
    Returns-if (Plans limit) (fits needed (available r.sched r.reserved))
      (ok tt, commit_decode id needed r) (decode_short id needed r)
      (λ h. Returns-ok (Plans limit) tt (commit_decode id needed r) (
        commit_decode-Planned limit id needed r q p e
          (sym (ap (λ o. kv_need r.sched.config.block_size o (q.num_computed_tokens + 1)) k))
          (ground arith) b))
      (λ _. decode_short-Plans limit id q kv r p b e k)

decode_found-Plans :
    (limit id : ℕ) (o : Option Request) (r : Round)
    → Planned limit r
    → 0 < r.budget
    → find_request id r.sched.running ≡ o
    → Returns (Plans limit) (decode_found id o r)
decode_found-Plans limit id none r p b e = Returns-ok (Plans limit) tt r p
decode_found-Plans limit id (some q) r p b e =
    Returns-if (Plans limit) (is_preempted q.state || not (prefill_done q)) (ok tt, r)
      (decode_with id q q.kv r) (λ _. Returns-ok (Plans limit) tt r p)
      (λ _.
        decode_with-Plans limit id q q.kv r p b e refl
          (find-All Seated id r.sched.running q p.inv.seated e))

-- Phase 1 raises nothing, and the plan stays within the memory and the budget.
pub decode_all-Plans :
    (limit : ℕ) (snapshot : List ℕ) (r : Round)
    → Planned limit r
    → Returns (Plans limit) (decode_all snapshot r)
unfolding decode_all decode_one
decode_all-Plans limit [] r p = Returns-ok (Plans limit) tt r p
decode_all-Plans limit (id ∷ rest) r p =
    Returns-if (Plans limit) (r.budget == 0) (ok tt, r) _ (λ _. Returns-ok (Plans limit) tt r p)
      (λ more.
        Returns-and_then (Plans limit) (Plans limit) (decode_one id r) (λ _ r'. decode_all rest r')
          (decode_found-Plans limit id (lookup_request id r.sched) r p (ground arith) refl)
          (λ _ r' p'. decode_all-Plans limit rest r' p'))

-- The chunk that was made joins the plan.
pub chunk_with-Plans :
    (limit : ℕ) (c : Chunk) (q : Request) (kv : SequenceKv) (o : Option SequenceKv) (budget : ℕ)
    (r : Round)
    → Planned limit r
    → find_request q.request_id r.sched.running ≡ some q
    → q.kv ≡ some kv
    → o ≡ some kv
    → budget ≡ r.budget
    → IsChunk r.sched.config q kv budget (available r.sched r.reserved) c
    → Returns (Plans limit) (chunk_with c o r)
chunk_with-Plans limit c q kv none budget r p e k same spend i = cc
chunk_with-Plans limit c q kv (some kv') budget r p e k same spend i =
    let agree : kv' ≡ kv = some_injective same in
    let bs = r.sched.config.block_size in
    let total = c.start_pos + num_tokens c in
    let here : blocks_needed bs kv' total ≡ blocks_needed bs kv total =
      ap (λ x. blocks_needed bs x total) agree in
    Returns-ok (Plans limit) tt (commit_chunk c (blocks_needed bs kv' total) r) (
      commit_chunk-Planned limit (blocks_needed bs kv' total) c r q p
        (ap (λ x. find_request x r.sched.running) i.whose ∙ e)
        (here ∙ sym (ap (λ o. kv_need bs o total) k)) (omega (arith, i.in_memory, here, p.covered))
        (omega (arith, i.in_budget)))

prefill_with-Plans :
    (limit : ℕ) (q : Request) (o : Option SequenceKv) (r : Round)
    → Planned limit r
    → find_request q.request_id r.sched.running ≡ some q
    → q.kv ≡ o
    → HasKv o
    → Returns (Plans limit) (
        and_then
          (lift_result (make_chunk r.sched.config q r.budget (available r.sched r.reserved)) r)
          (λ c r'. take_chunk q c r'))
prefill_with-Plans limit q none r p e k has = absurd has
prefill_with-Plans limit q (some kv) r p e k has =
    elim (make_chunk-IsChunk r.sched.config q kv r.budget (available r.sched r.reserved) p.positive
      k) [
        | inl none_made ↦
            Returns-eq (Plans limit) _ tt r
              (ap (λ x. and_then (lift_result x r) (λ c r'. take_chunk q c r')) none_made) p
        | inr (c, made, i) ↦
            (let rest = chunk_with-Plans limit c q kv q.kv r.budget r p e k k refl i in
              Returns-eq (Plans limit) _ rest.value rest.state
                (ap (λ x. and_then (lift_result x r) (λ c r'. take_chunk q c r')) made
                  ∙ rest.returns)
                rest.holds)
      ]

pub find_same_id :
    (id : ℕ) (rs : List Request) (q : Request) → find_request id rs ≡ some q → q.request_id ≡ id
find_same_id id rs q e = (find-Removed id q rs e).same_id

prefill_found-Plans :
    (limit id : ℕ) (o : Option Request) (r : Round)
    → Planned limit r
    → find_request id r.sched.running ≡ o
    → Returns (Plans limit) (prefill_found o r)
prefill_found-Plans limit id none r p e = Returns-ok (Plans limit) tt r p
prefill_found-Plans limit id (some q) r p e =
    Returns-if (Plans limit) (prefill_done q || is_preempted q.state) (ok tt, r) _
      (λ _. Returns-ok (Plans limit) tt r p)
      (λ _.
        prefill_with-Plans limit q q.kv r p
          (ap (λ x. find_request x r.sched.running) (find_same_id id r.sched.running q e) ∙ e) refl
          (find-All Seated id r.sched.running q p.inv.seated e))

-- So does phase 2.
pub prefill_all-Plans :
    (limit : ℕ) (snapshot : List ℕ) (r : Round)
    → Planned limit r
    → Returns (Plans limit) (prefill_all snapshot r)
unfolding prefill_all prefill_one
prefill_all-Plans limit [] r p = Returns-ok (Plans limit) tt r p
prefill_all-Plans limit (id ∷ rest) r p =
    Returns-if (Plans limit) (r.budget == 0) (ok tt, r) _ (λ _. Returns-ok (Plans limit) tt r p)
      (λ more.
        Returns-and_then (Plans limit) (Plans limit) (prefill_one id r)
          (λ _ r'. prefill_all rest r')
          (prefill_found-Plans limit id (lookup_request id r.sched) r p refl)
          (λ _ r' p'. prefill_all-Plans limit rest r' p'))
