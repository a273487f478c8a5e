-- ===== src/Engine/Stepping.antt =====
-- llm_engine.py: `step` and `_record_step`.
use infer_lab.Base.{
  ℕ, ◌+◌, List, [], ◌∷◌, ◌++◌, length, if◌then◌else◌, Option, none, some, ok, Action, and_then,
}
use infer_lab.Model.{Network}
use infer_lab.Request.{Request, SamplingParams, is_finished}
use infer_lab.Scheduler.State.{Output, sum_tokens, is_empty, find_request, ids, retire}
use infer_lab.Scheduler.Schedule.{schedule}
use infer_lab.Engine.{Engine, on_sched, file_away}
use infer_lab.Engine.Emitting.{EngineOutput, append_stats}
use infer_lab.Engine.Prefill.{prefill_chunks}
use infer_lab.Engine.Decoding.{decode_batch}

module _ {ℓ} {V G : Type ℓ} where
  abbrev pub retire_one : Option Request → Action (Engine V G) (Unit {0})
  retire_one none e = (ok tt, e)
  retire_one (some r) e =
      if is_finished r
      then and_then (on_sched (retire r) e) (λ _ e'. (ok tt, file_away r e'))
      else (ok tt, e)

  -- `for request in list(self.scheduler.running)`
  unfoldable pub retire_finished : List ℕ → Action (Engine V G) (Unit {0})
  retire_finished [] e = (ok tt, e)
  retire_finished (id ∷ rest) e =
      and_then (retire_one (find_request id e.sched.running) e) λ _ e'. retire_finished rest e'

  unfoldable pub record_step : Output → Engine V G → Engine V G
  record_step plan e = record e {
    step_index = e.step_index + 1;
    step_history =
        append_stats
          (record {
            step_index = e.step_index + 1;
            num_prefill_tokens = sum_tokens plan.prefill_chunks;
            num_decode_tokens = length plan.decode_requests;
            num_running = length e.sched.running;
            num_waiting = length e.sched.waiting;
            preemptions = length plan.preempted;
          })
          e.step_history;
  }

module _ {ℓ} {X V L G : Type ℓ} (net : Network X V L)
    (sample : L → SamplingParams → G → ℕ × G) where
  abbrev pub execute : Output → Action (Engine V G) (List EngineOutput)
  execute plan e =
      if is_empty plan
      then (ok [], record_step plan e)
      else and_then (prefill_chunks net sample plan.prefill_chunks e) λ outs e1.
        and_then (decode_batch net sample plan.decode_requests e1) λ more e2.
          and_then (retire_finished (ids e2.sched.running) e2)
            λ _ e3. (ok (outs ++ more), record_step plan e3)

  unfoldable pub step : Action (Engine V G) (List EngineOutput)
  step e = and_then (on_sched schedule e) execute
