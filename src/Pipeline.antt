-- ===== src/Pipeline.antt =====
-- src/infer_lab/distributed/pipeline_parallel.py: `split_layers`, the layers of each stage.
pub mod Partition
pub mod Wavefront
use infer_lab.Base.{
  ℕ, zero, suc, ◌+◌, ◌/◌, ◌%◌, List, [], ◌∷◌, Bool, true, false, ltb, ◌==◌, if◌then◌else◌, Result,
  ok, err, value_error, zero_division_error,
}

-- `range(start, start + n)`
unfoldable pub range : ℕ → ℕ → List ℕ
range start zero = []
range start (suc n) = start ∷ range (start + 1) n

-- The loop over the stages, from stage `s` on with `n` stages to come.
unfoldable pub split_from : ℕ → ℕ → ℕ → ℕ → ℕ → List (List ℕ)
split_from zero s base extra start = []
split_from (suc n) s base extra start =
    let size = base + (if ltb s extra then 1 else 0) in
    range start size ∷ split_from n (s + 1) base extra (start + size)

unfoldable pub split_layers : ℕ → ℕ → Result (List (List ℕ))
split_layers num_layers num_stages =
    if ltb num_layers num_stages
    then err value_error
    else if num_stages == 0
    then err zero_division_error
    else ok (split_from num_stages 0 (num_layers / num_stages) (num_layers % num_stages) 0)
