-- ===== src/Pipeline/Wavefront.antt =====
-- pipeline_parallel.py: `PipelineSchedule.run`, the stages as functions on activations of any type,
-- and the counts of its report. The dictionary of buffers is a function of stage and micro-batch.
pub mod Running
pub mod Results
use infer_lab.Base.{
  ℕ, zero, suc, ◌+◌, ◌-◌, ◌*◌, ◌==◌, List, [], ◌∷◌, ◌++◌, length, set, replicate, get_elem?, Bool,
  true, false, ltb, leb, ◌&&◌, if◌then◌else◌, Option, none, some, Result, ok, err, Outcome, Action,
  and_then, value_error, key_error, index_error, assertion_error,
}

pub record Stage (A : Type 0) : Type 0 where
  pub fn : A → A
  pub busy_steps : ℕ

pub record Wave (A : Type 0) : Type 0 where
  pub stages : List (Stage A)
  pub buffers : ℕ → ℕ → Option A
  pub outputs : List (Option A)
  pub timeline : List (ℕ × (ℕ × ℕ))

-- `num_stages * (num_micro_batches + num_stages - 1)`
abbrev pub total_slots : ℕ → ℕ → ℕ
total_slots p m = p * (m + p - 1)

module _ {A : Type 0} where
  abbrev pub put_buffer : ℕ → ℕ → Option A → (ℕ → ℕ → Option A) → ℕ → ℕ → Option A
  put_buffer s i x buffers s' i' = if (s' == s) && (i' == i) then x else buffers s' i'

  -- `self.stages[s](x)` and what is done with its result.
  abbrev pub advanced : ℕ → ℕ → ℕ → ℕ → A → Stage A → Wave A → Wave A
  advanced p t s micro x stage w =
      let y = stage.fn x in
      record {
        stages = set w.stages s (record stage { busy_steps = stage.busy_steps + 1 });
        buffers =
            (let popped = put_buffer s micro none w.buffers in
              if ltb (s + 1) p then put_buffer (s + 1) micro (some y) popped else popped);
        outputs = (if ltb (s + 1) p then w.outputs else set w.outputs micro (some y));
        timeline = w.timeline ++ (t, (s, micro)) ∷ [];
      }

  abbrev pub with_input : ℕ → ℕ → ℕ → ℕ → Option A → Option (Stage A) → Action (Wave A) (Unit {0})
  with_input p t s micro none stage w = (err key_error, w)
  with_input p t s micro (some x) none w = (err index_error, w)
  with_input p t s micro (some x) (some stage) w = (ok tt, advanced p t s micro x stage w)

  -- The body of the two loops.
  unfoldable pub slot : ℕ → ℕ → ℕ → ℕ → Action (Wave A) (Unit {0})
  slot p m t s w =
      if leb s t && ltb (t - s) m
      then with_input p t s (t - s) (w.buffers s (t - s)) (get_elem? w.stages s) w
      else (ok tt, w)

  -- The stages from `s` on, `count` of them, at time `t`.
  unfoldable pub tick : ℕ → ℕ → ℕ → ℕ → ℕ → Action (Wave A) (Unit {0})
  tick p m t zero s w = (ok tt, w)
  tick p m t (suc count) s w = and_then (slot p m t s w) λ _ w'. tick p m t count (suc s) w'

  -- The times from `t` on, `count` of them.
  unfoldable pub ticks : ℕ → ℕ → ℕ → ℕ → Action (Wave A) (Unit {0})
  ticks p m zero t w = (ok tt, w)
  ticks p m (suc count) t w = and_then (tick p m t p 0 w) λ _ w'. ticks p m count (suc t) w'

  abbrev pub first_buffers : List A → ℕ → ℕ → Option A
  first_buffers xs s i = if s == 0 then get_elem? xs i else none

  abbrev pub start : List (Stage A) → List A → Wave A
  start stages xs = record {
    stages = stages;
    buffers = first_buffers xs;
    outputs = replicate (length xs) none;
    timeline = [];
  }

  -- `assert all(...)`, and the outputs.
  unfoldable pub all_outputs : List (Option A) → Result (List A)
  all_outputs [] = ok []
  all_outputs (none ∷ os) = err assertion_error
  all_outputs (some y ∷ os) = cons (all_outputs os)
    where
      cons : Result (List A) → Result (List A)
      cons (ok ys) = ok (y ∷ ys)
      cons (err e) = err e

  -- The state is what the schedule object keeps: its stages, and the last timeline.
  unfoldable pub run : ℕ → List A → Wave A → Outcome (Wave A) (List A)
  run m xs w =
      if length xs == m
      then and_then (ticks (length w.stages) m (m + length w.stages - 1) 0 (start w.stages xs))
          (λ _ w'. (all_outputs w'.outputs, w'))
      else (err value_error, w)
