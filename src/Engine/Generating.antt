-- ===== src/Engine/Generating.antt =====
-- llm_engine.py: `generate`, with `max_steps` as the fuel that it is in Python.
use infer_lab.Base.{
  ℕ, zero, suc, List, [], ◌∷◌, ◌==◌, if◌then◌else◌, Option, none, some, ok, err, Action, and_then,
  runtime_error,
}
use infer_lab.Model.{Network}
use infer_lab.Request.{SamplingParams}
use infer_lab.Engine.{Engine, Item, add_request, has_unfinished_requests}
use infer_lab.Engine.Emitting.{EngineOutput}
use infer_lab.Engine.Stepping.{step}

-- `final`, the latest output first.
abbrev pub collect : List EngineOutput → List EngineOutput → List EngineOutput
collect [] final = final
collect (o ∷ outs) final = collect outs (if o.finished then o ∷ final else final)

unfoldable pub find_output : ℕ → List EngineOutput → Option EngineOutput
find_output id [] = none
find_output id (o ∷ os) = if o.request_id == id then some o else find_output id os

abbrev pub add_found : Option EngineOutput → List EngineOutput → List EngineOutput
add_found none os = os
add_found (some o) os = o ∷ os

-- `[final[i] for i in ids if i in final]`
unfoldable pub outputs_of : List ℕ → List EngineOutput → List EngineOutput
outputs_of [] final = []
outputs_of (id ∷ rest) final = add_found (find_output id final) (outputs_of rest final)

module _ {ℓ} {X V L G : Type ℓ} (net : Network X V L)
    (sample : L → SamplingParams → G → ℕ × G) where
  unfoldable pub add_all : List (List Item) → Option SamplingParams → Action (Engine V G) (List ℕ)
  add_all [] sampling e = (ok [], e)
  add_all (p ∷ ps) sampling e =
      and_then (add_request p sampling none e)
        λ id e'. and_then (add_all ps sampling e') λ more e''. (ok (id ∷ more), e'')

  -- The steps that are left once none is left raise, whether or not the engine has drained.
  unfoldable pub drive : ℕ → List EngineOutput → Action (Engine V G) (List EngineOutput)
  drive zero final e = (err runtime_error, e)
  drive (suc left) final e =
      let round = and_then (step net sample e) λ outs e'. drive left (collect outs final) e' in
      if has_unfinished_requests e then round else (ok final, e)

  unfoldable pub generate :
      List (List Item) → Option SamplingParams → ℕ → Action (Engine V G) (List EngineOutput)
  generate prompts sampling max_steps e =
      and_then (add_all prompts sampling e)
        λ wanted e1. and_then (drive max_steps [] e1) λ final e2. (ok (outputs_of wanted final), e2)
