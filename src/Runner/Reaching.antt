-- ===== src/Runner/Reaching.antt =====
-- The interleavings of the clients' calls with the loop, and what the runner relies on of the
-- engine.
use infer_lab.Base.{ℕ, ◌≤◌, ◌<◌, ◌≡◌, ok}
use infer_lab.Runner.{Ops, Runner, started, submit, stop, wait_timeout, drain_one, turn}

-- The engine gives identifiers from a counter, which no call takes back.
pub record Lawful {R O E : Type 0} (ops : Ops R O E) (next_id : E → ℕ) : Type 0 where
  pub issues :
      (request : R) (e e' : E) (id : ℕ)
      → ops.add_request request e ≡ (ok id, e')
      → (next_id e ≤ id) × (id < next_id e')
  pub add_grows : (request : R) (e : E) → next_id e ≤ next_id (ops.add_request request e).1
  pub step_grows : (e : E) → next_id e ≤ next_id (ops.step e).1
  pub abort_grows : (id : ℕ) (e : E) → next_id e ≤ next_id (ops.abort_request id e)

module _ {R O E : Type 0} (ops : Ops R O E) where
  -- The runner's state after any sequence of calls and turns.
  pub data Reached (start : E) : Runner R O E → Type 0 where
    here : Reached start (started start)
    submitting :
        {r r' : Runner R O E}
        → (request : R) (h : ℕ) → Reached start r
        → submit request r ≡ (ok h, r')
        → Reached start r'
    stopping : {r : Runner R O E} → Reached start r → Reached start (stop r)
    waiting : {r : Runner R O E} → (h : ℕ) → Reached start r → Reached start (wait_timeout ops h r)
    draining : {r : Runner R O E} → Reached start r → Reached start (drain_one ops r)
    turning : {r : Runner R O E} → Reached start r → Reached start (turn ops r)
