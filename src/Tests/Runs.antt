-- ===== src/Tests/Runs.antt =====
-- A runner over an engine that only counts: it refuses request 0 and ends the oldest request at
-- each step.
use infer_lab.Base.{
  ℕ, ◌+◌, ◌≤◌, ◌<◌, ◌≡◌, refl, ap, [], ◌∷◌, count, Bool, true, false, ltb, ◌==◌, Result, ok, err,
  Outcome, value_error, arith,
}
use infer_lab.Runner.{Ops, Runner, started, submit, drain_one, turn, deliver, find_key, remove_key}
use infer_lab.Runner.Reaching.{Lawful, Reached, here, submitting, draining, turning}
use infer_lab.Runner.Handles.{seconds, done_at}
use infer_lab.Runner.Once.{Reached-once}

-- The first identifier that is not finished, and the next one.
abbrev Counter : Type 0
Counter = ℕ × ℕ

abbrev added : Bool → Counter → Outcome Counter ℕ
added true e = (err value_error, e)
added false (a, b) = (ok b, (a, b + 1))

abbrev counting : Ops ℕ ℕ Counter
counting = record {
  add_request = λ request e. added (request == 0) e;
  step = λ e. (ok (e.0 ∷ []), (e.0 + 1, e.1));
  abort_request = λ id e. e;
  has_unfinished_requests = λ e. ltb e.0 e.1;
  output_id = λ o. o;
  output_finished = λ o. true;
}

issues_next :
    (request : ℕ) (e e' : Counter) (id : ℕ)
    → counting.add_request request e ≡ (ok id, e')
    → (e.1 ≤ id) × (id < e'.1)
issues_next request (a, b) (a', b') id h = tested (request == 0) h
  where
    value : Result ℕ → ℕ
    value (ok n) = n
    value (err x) = 0

    tested : (c : Bool) → added c (a, b) ≡ (ok id, (a', b')) → (b ≤ id) × (id < b')
    tested true h = (let clash = ap (λ (o : Outcome Counter ℕ). o.0) h in cc)
    tested false h =
        (let same = ap (λ (o : Outcome Counter ℕ). value o.0) h in
          let next = ap (λ (o : Outcome Counter ℕ). o.1.1) h in (omega arith, omega arith))

add_keeps : (request : ℕ) (e : Counter) → e.1 ≤ (counting.add_request request e).1.1
add_keeps request (a, b) = tested (request == 0)
  where
    tested : (c : Bool) → b ≤ (added c (a, b)).1.1
    tested true = omega arith
    tested false = omega arith

counting-Lawful : Lawful counting (λ e. e.1)
counting-Lawful = record {
  issues = issues_next;
  add_grows = add_keeps;
  step_grows = λ e. omega arith;
  abort_grows = λ id e. omega arith;
}

abbrev idle : Runner ℕ ℕ Counter
idle = started (0, 0)

-- Requests 5 and 0 are submitted, both are drained, and a step answers the first.
abbrev served : Runner ℕ ℕ Counter
served = turn counting (drain_one counting (drain_one counting (submit 0 (submit 5 idle).1).1))

served-Reached : Reached counting (0, 0) served
unfolding submit
served-Reached = turning (draining (draining (submitting 0 1 (submitting 5 0 here refl) refl)))

Reached-once_example :
    count 0 (seconds served.submissions)
      + count 0 (seconds served.pending)
      + done_at 0 served.handles
    ≡ 1
unfolding turn drain_one submit deliver find_key remove_key
Reached-once_example =
    Reached-once counting (λ e. e.1) counting-Lawful (0, 0) served served-Reached 0 (omega arith)
