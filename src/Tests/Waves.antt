-- ===== src/Tests/Waves.antt =====
-- Two stages, three micro-batches.
use infer_lab.Base.{ℕ, ◌+◌, ◌*◌, ◌≡◌, [], ◌∷◌, map, none, ok, arith}
use infer_lab.Pipeline.Wavefront.{Wave, run}
use infer_lab.Pipeline.Wavefront.Running.{through}
use infer_lab.Pipeline.Wavefront.Results.{run-through}

abbrev two_stages : Wave ℕ
two_stages = record {
  stages =
      record { fn = λ x. x + 1; busy_steps = 0 } ∷ record { fn = λ x. x * 2; busy_steps = 0 } ∷ [];
  buffers = λ s i. none;
  outputs = [];
  timeline = [];
}

run-through_example :
    (w' : Wave ℕ) × (run 3 (5 ∷ 6 ∷ 7 ∷ []) two_stages
      ≡ (ok (map (through two_stages.stages) (5 ∷ 6 ∷ 7 ∷ [])), w'))
run-through_example = run-through (5 ∷ 6 ∷ 7 ∷ []) two_stages (omega arith)
