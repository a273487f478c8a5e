-- ===== src/Engine/Draining.antt =====
-- `generate`: which engines its loop drains.
use infer_lab.Base.{ℕ, zero, suc, ◌<◌, ◌≡◌, List, true, false, Result, ok, err}
use infer_lab.Model.{Network}
use infer_lab.Request.{SamplingParams}
use infer_lab.Engine.{Engine, has_unfinished_requests}
use infer_lab.Engine.Emitting.{EngineOutput}
use infer_lab.Engine.Stepping.{step}
use infer_lab.Engine.Generating.{collect}

abbrev value_or : List EngineOutput → Result (List EngineOutput) → List EngineOutput
value_or d (ok a) = a
value_or d (err e) = d

module _ {ℓ} {X V L G : Type ℓ} (net : Network X V L)
    (sample : L → SamplingParams → G → ℕ × G) where
  -- `n` steps, each from an engine that has work and none of which raises, lead from `e` and the
  -- outputs `final` to `e'` and `final'`.
  unfoldable pub Runs : ℕ → Engine V G → List EngineOutput → Engine V G → List EngineOutput → Type ℓ
  Runs zero e final e' final' = (e ≡ e') × (final ≡ final')
  Runs (suc n) e final e' final' =
      (outs : List EngineOutput) × (e1 : Engine V G) × (has_unfinished_requests e ≡ true)
      × (step net sample e ≡ (ok outs, e1))
      × Runs n e1 (collect outs final) e' final'

  abbrev pub Drained : ℕ → Engine V G → List EngineOutput → Engine V G → List EngineOutput → Type ℓ
  Drained left e final e' final' =
      (n : ℕ) × (n < left) × Runs n e final e' final' × (has_unfinished_requests e' ≡ false)
