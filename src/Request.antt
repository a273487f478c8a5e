-- ===== src/Request.antt =====
-- src/infer_lab/engine/request.py: a request and its lifecycle. Identifiers are compared for
-- equality only and stand as numbers. The times of `RequestMetrics` are readings of a clock that
-- nothing here decides by; they are left out, the counters are kept.
pub mod Tokens
use infer_lab.Base.{
  ℕ, zero, suc, ◌+◌, ◌-◌, List, [], ◌∷◌, ◌++◌, length, take, Bool, true, false, leb, ltb, ◌==◌,
  ◌||◌, if◌then◌else◌, Option, none, some, Result, ok, err, Outcome, Action, and_then, value_error,
  index_error,
}
use infer_lab.Allocator.{Allocator}
use infer_lab.Paged.{SequenceKv, release}

pub data State : Type 0 where
  waiting prefill running preempted finished aborted : State

pub data FinishReason : Type 0 where
  by_length by_eos by_abort : FinishReason

-- `temperature`, `top_p`, `top_k` and `seed` are floats and options of the sampler, which is not
-- modelled; of their checks only that of `max_tokens` is about a number that the engine counts by.
pub record SamplingParams : Type 0 where
  pub max_tokens : ℕ
  pub ignore_eos : Bool

unfoldable pub sampling_params : ℕ → Bool → Result SamplingParams
sampling_params max_tokens ignore_eos =
    if max_tokens == 0
    then err value_error
    else ok (record { max_tokens = max_tokens; ignore_eos = ignore_eos })

pub record Metrics : Type 0 where
  pub preemption_count : ℕ
  pub recomputed_tokens : ℕ
  pub cached_prefix_tokens : ℕ

abbrev pub no_metrics : Metrics
no_metrics = record { preemption_count = 0; recomputed_tokens = 0; cached_prefix_tokens = 0 }

pub record Request : Type 0 where
  pub prompt_token_ids : List ℕ
  pub sampling : SamplingParams
  pub request_id : ℕ
  pub state : State
  pub finish_reason : Option FinishReason
  pub output_token_ids : List ℕ
  pub metrics : Metrics
  pub kv : Option SequenceKv
  pub num_computed_tokens : ℕ

abbrev pub new_request : List ℕ → SamplingParams → ℕ → Request
new_request prompt sampling id = record {
  prompt_token_ids = prompt;
  sampling = sampling;
  request_id = id;
  state = waiting;
  finish_reason = none;
  output_token_ids = [];
  metrics = no_metrics;
  kv = none;
  num_computed_tokens = 0;
}

abbrev pub is_preempted : State → Bool
is_preempted preempted = true
is_preempted _ = false

abbrev pub is_running : State → Bool
is_running running = true
is_running _ = false

abbrev pub is_over : State → Bool
is_over finished = true
is_over aborted = true
is_over _ = false

abbrev pub prompt_len : Request → ℕ
prompt_len r = length r.prompt_token_ids

abbrev pub num_generated : Request → ℕ
num_generated r = length r.output_token_ids

abbrev pub total_len : Request → ℕ
total_len r = prompt_len r + num_generated r

-- `max(0, self.num_generated - 1)` is the subtraction of ℕ.
unfoldable pub prefill_target_len : Request → ℕ
prefill_target_len r = prompt_len r + (num_generated r - 1)

abbrev pub all_token_ids : Request → List ℕ
all_token_ids r = r.prompt_token_ids ++ r.output_token_ids

unfoldable pub prefill_token_ids : Request → List ℕ
prefill_token_ids r = take (prefill_target_len r) (all_token_ids r)

unfoldable pub prefill_done : Request → Bool
prefill_done r = leb (prefill_target_len r) r.num_computed_tokens

unfoldable pub remaining_prefill : Request → ℕ
remaining_prefill r = prefill_target_len r - r.num_computed_tokens

abbrev pub next_position : Request → ℕ
next_position r = r.num_computed_tokens

-- `xs[-1]`
unfoldable pub last_of : List ℕ → Result ℕ
last_of [] = err index_error
last_of (x ∷ []) = ok x
last_of (x ∷ y ∷ xs) = last_of (y ∷ xs)

abbrev pub last_or : List ℕ → List ℕ → Result ℕ
last_or [] prompt = last_of prompt
last_or (x ∷ xs) prompt = last_of (x ∷ xs)

unfoldable pub last_token : Request → Result ℕ
unfolding last_of
last_token r = last_or r.output_token_ids r.prompt_token_ids

abbrev pub is_finished : Request → Bool
is_finished r = is_over r.state

unfoldable pub append_token : ℕ → Request → Request
append_token token r = record r { output_token_ids = r.output_token_ids ++ token ∷ [] }

abbrev pub state_after : FinishReason → State
state_after by_abort = aborted
state_after _ = finished

unfoldable pub finish : FinishReason → Request → Request
finish reason r = record r { state = state_after reason; finish_reason = some reason }

-- The request once its block table is given back.
abbrev pub restarted : Request → Request
restarted r = record r {
  kv = none;
  num_computed_tokens = 0;
  state = preempted;
  metrics = record r.metrics {
    recomputed_tokens = r.metrics.recomputed_tokens + r.num_computed_tokens;
  };
}

-- `if request.kv is not None: request.kv.release()`
abbrev pub release_kv : Option SequenceKv → Action Allocator (Unit {0})
release_kv none s = (ok tt, s)
release_kv (some kv) s = and_then (release kv s) λ _ t. (ok tt, t)

unfoldable pub reset_for_recompute : Request → Action Allocator Request
reset_for_recompute r s = and_then (release_kv r.kv s) λ _ t. (ok (restarted r), t)
