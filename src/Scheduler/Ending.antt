-- ===== src/Scheduler/Ending.antt =====
-- The `while` loop of phase 3 ends within as many rounds as requests wait.
use infer_lab.Base.{
  ℕ, zero, suc, ◌+◌, ◌≤◌, ◌≡◌, refl, ap, ◌∙◌, List, [], ◌∷◌, length, Bool, true, false, Option,
  none, some, Result, ok, err, Outcome, Action, and_then, arith, if◌then◌else◌,
}
use infer_lab.Paged.{SequenceKv}
use infer_lab.Request.{Request}
use infer_lab.Scheduler.State.{Chunk, release_request}
use infer_lab.Scheduler.Room.{available}
use infer_lab.Scheduler.Admission.{admit, make_chunk}
use infer_lab.Scheduler.Schedule.{
  Round, on_sched, lift_result, chunk_with, first_chunk, start_running, admitted, admit_one,
  may_admit, go_on, admit_next, admit_all,
}

-- A round that goes on has taken the head off the queue.
abbrev Shortens : List Request → Outcome Round Bool → Type 0
Shortens rest (ok true, r) = r.sched.waiting ≡ rest
Shortens rest (ok false, r) = Unit {0}
Shortens rest (err e, r) = Unit {0}

and_then-break :
    {A : Type 0} (rest : List Request) (o : Outcome Round A) (f : A → Round → Round)
    → Shortens rest (and_then o (λ a r. (ok false, f a r)))
and_then-break rest (ok a, r) f = tt
and_then-break rest (err e, r) f = tt

chunk_with-Shortens :
    (rest : List Request) (c : Chunk) (o : Option SequenceKv) (r : Round)
    → r.sched.waiting ≡ rest
    → Shortens rest (and_then (chunk_with c o r) (λ _ r'. (ok true, r')))
chunk_with-Shortens rest c none r h = tt
chunk_with-Shortens rest c (some kv) r h = h

first_chunk-Shortens :
    (rest : List Request) (q : Request) (x : Result (Option Chunk)) (r : Round)
    → r.sched.waiting ≡ rest
    → Shortens rest (and_then (lift_result x r) (λ c r'. first_chunk q c r'))
first_chunk-Shortens rest q (err e) r h = tt
first_chunk-Shortens rest q (ok none) r h = and_then-break rest (on_sched (release_request q) r) _
first_chunk-Shortens rest q (ok (some c)) r h = chunk_with-Shortens rest c q.kv r h

admitted-Shortens :
    (rest : List Request) (x : Bool × Request) (r : Round) → Shortens rest (admitted rest x r)
admitted-Shortens rest (false, q) r = tt
admitted-Shortens rest (true, q) r =
    first_chunk-Shortens rest q
      (make_chunk r.sched.config q r.budget (available r.sched r.reserved))
      (record r { sched = start_running q rest r.sched }) refl

and_then-Shortens :
    (rest : List Request) (o : Outcome Round (Bool × Request))
    → Shortens rest (and_then o (λ x r. admitted rest x r))
and_then-Shortens rest (ok x, r) = admitted-Shortens rest x r
and_then-Shortens rest (err e, r) = tt

go_on-eq :
    (rest : List Request) (f g : Action Round (Unit {0})) (o : Outcome Round Bool)
    → Shortens rest o
    → ((r : Round) → r.sched.waiting ≡ rest → f r ≡ g r)
    → and_then o (go_on f) ≡ and_then o (go_on g)
go_on-eq rest f g (ok true, r) h same = same r h
go_on-eq rest f g (ok false, r) h same = refl
go_on-eq rest f g (err e, r) h same = refl

admit_next-eq :
    (f g : Action Round (Unit {0})) (o : List Request) (r : Round)
    → ((r' : Round) → suc (length r'.sched.waiting) ≡ length o → f r' ≡ g r')
    → admit_next f o r ≡ admit_next g o r
unfolding admit_one
admit_next-eq f g [] r same = refl
admit_next-eq f g (q ∷ rest) r same =
    ap (λ x. if may_admit r then x else (ok tt, r))
      (go_on-eq rest f g (admit_one q rest r)
        (and_then-Shortens rest (on_sched (admit q (available r.sched r.reserved)) r))
        (λ r' e. same r' (ap (λ (rs : List Request). suc (length rs)) e)))

admit_next_nobody :
    (f : Action Round (Unit {0})) (o : List Request) (r : Round)
    → length o ≤ 0
    → admit_next f o r ≡ (ok tt, r)
admit_next_nobody f [] r h = refl
admit_next_nobody f (q ∷ rest) r h = absurd (omega arith)

admit_all-suc :
    (n : ℕ) (r : Round) → length r.sched.waiting ≤ n → admit_all (suc n) r ≡ admit_all n r
unfolding admit_all
admit_all-suc zero r h = admit_next_nobody (admit_all zero) r.sched.waiting r h
admit_all-suc (suc n) r h =
    admit_next-eq (admit_all (suc n)) (admit_all n) r.sched.waiting r
      (λ r' e. admit_all-suc n r' (omega (arith, e)))

-- Fuel for as many rounds as requests wait is enough: the loop of phase 3 does with more fuel what
-- it does with that much, whether it raises or not.
pub admit_all_enough :
    (extra fuel : ℕ) (r : Round)
    → length r.sched.waiting ≤ fuel
    → admit_all (fuel + extra) r ≡ admit_all fuel r
admit_all_enough zero fuel r h =
    let none_more : fuel + 0 ≡ fuel = omega arith in ap (λ n. admit_all n r) none_more
admit_all_enough (suc extra) fuel r h =
    let one_more : fuel + suc extra ≡ suc (fuel + extra) = omega arith in
    ap (λ n. admit_all n r) one_more
    ∙ admit_all-suc (fuel + extra) r (omega arith)
    ∙ admit_all_enough extra fuel r h
