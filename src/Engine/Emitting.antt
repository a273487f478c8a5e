-- ===== src/Engine/Emitting.antt =====
-- llm_engine.py: what a request says of a step, the effect of a token on its request, and the
-- history.
use infer_lab.Base.{
  ℕ, List, [], ◌∷◌, ◌++◌, length, drop, Bool, ltb, leb, not, ◌==◌, ◌&&◌, if◌then◌else◌, Option,
}
use infer_lab.Request.{
  Request, Metrics, FinishReason, by_eos, by_length, is_finished, append_token, finish,
  num_generated,
}
use infer_lab.Tokenizer.{eos_id}
use infer_lab.Engine.{StepStats}

pub record EngineOutput : Type 0 where
  pub request_id : ℕ
  pub prompt_token_ids : List ℕ
  pub output_token_ids : List ℕ
  pub finished : Bool
  pub finish_reason : Option FinishReason
  pub metrics : Metrics

abbrev pub output_for : Request → EngineOutput
output_for r = record {
  request_id = r.request_id;
  prompt_token_ids = r.prompt_token_ids;
  output_token_ids = r.output_token_ids;
  finished = is_finished r;
  finish_reason = r.finish_reason;
  metrics = r.metrics;
}

-- `_emit` once the token is sampled.
unfoldable pub emitted : ℕ → Request → Request
emitted token r =
    let r1 = append_token token r in
    if not r.sampling.ignore_eos && (token == eos_id)
    then finish by_eos r1
    else if leb r.sampling.max_tokens (num_generated r1)
    then finish by_length r1
    else r1

-- `history.append(stats)`, and the oldest 5,000 go once there are more than 10,000.
unfoldable pub append_stats : StepStats → List StepStats → List StepStats
append_stats stats history =
    let longer = history ++ stats ∷ [] in
    if ltb 10000 (length longer) then drop 5000 longer else longer
