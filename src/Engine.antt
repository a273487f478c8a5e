-- ===== src/Engine.antt =====
-- src/infer_lab/engine/llm_engine.py: the engine's state, submission and abort. `_requests` refers
-- to every request ever submitted. Those that wait or run stand in the scheduler's queues;
-- `archive` holds the others. The caller gives no identifier that a request has already.
pub mod Submitting
pub mod Emitting
pub mod Finishing
pub mod Prefill
pub mod Decoding
pub mod Stepping
pub mod Generating
pub mod Draining
use infer_lab.Base.{
  ℕ, ◌+◌, max, List, [], ◌∷◌, ◌++◌, length, Bool, true, false, ltb, leb, not, ◌==◌, ◌&&◌,
  if◌then◌else◌, Option, none, some, Result, ok, err, Outcome, Action, and_then, value_error,
}
use infer_lab.Paged.Pools.{Pool}
use infer_lab.Model.{ForwardStats}
use infer_lab.Request.{
  Request, SamplingParams, sampling_params, FinishReason, by_abort, new_request, is_finished,
  finish,
}
use infer_lab.Scheduler.State
use infer_lab.Scheduler.State.{Scheduler, find_request, remove_request}

-- A value of the JSON list of a prompt; a Boolean is not taken for an integer.
pub data Item : Type 0 where
  token : ℕ → Item
  negative : ℕ → Item
  no_integer : Item

pub record Settings : Type 0 where
  pub vocab_size : ℕ
  pub max_model_len : ℕ
  pub default_max_tokens : ℕ

pub record StepStats : Type 0 where
  pub step_index : ℕ
  pub num_prefill_tokens : ℕ
  pub num_decode_tokens : ℕ
  pub num_running : ℕ
  pub num_waiting : ℕ
  pub preemptions : ℕ

-- `next_id` is the counter of the default identifiers, `rng` the state of the sampler's generator.
pub record Engine {ℓ} (V G : Type ℓ) : Type ℓ where
  pub settings : Settings
  pub sched : Scheduler
  pub k_pool : Pool V
  pub v_pool : Pool V
  pub model_stats : ForwardStats
  pub rng : G
  pub archive : List Request
  pub next_id : ℕ
  pub step_index : ℕ
  pub step_history : List StepStats

abbrev pub all_integers : List Item → Bool
all_integers [] = true
all_integers (no_integer ∷ items) = false
all_integers (_ ∷ items) = all_integers items

-- `min(prompt_token_ids) < 0`
abbrev pub any_negative : List Item → Bool
any_negative [] = false
any_negative (negative n ∷ items) = true
any_negative (_ ∷ items) = any_negative items

abbrev pub token_ids : List Item → List ℕ
token_ids [] = []
token_ids (token n ∷ items) = n ∷ token_ids items
token_ids (_ ∷ items) = token_ids items

abbrev pub largest : List ℕ → ℕ
largest [] = 0
largest (n ∷ ns) = max n (largest ns)

-- The checks of a prompt by itself; without a negative item its largest is that of its tokens.
unfoldable pub check_prompt : ℕ → List Item → Result (List ℕ)
check_prompt vocab [] = err value_error
check_prompt vocab (item ∷ items) =
    if not (all_integers (item ∷ items))
    then err value_error
    else if any_negative (item ∷ items)
    then err value_error
    else if leb vocab (largest (token_ids (item ∷ items)))
    then err value_error
    else ok (token_ids (item ∷ items))

-- `sampling or SamplingParams(max_tokens=default)`
abbrev pub chosen_sampling : ℕ → Option SamplingParams → Result SamplingParams
chosen_sampling default none = sampling_params default false
chosen_sampling default (some params) = ok params

-- The checks of a prompt with its parameters.
abbrev pub check_length : ℕ → List ℕ → Result SamplingParams → Result (List ℕ × SamplingParams)
check_length max_len prompt (err e) = err e
check_length max_len prompt (ok params) =
    if ltb max_len (length prompt + params.max_tokens) then err value_error else ok (prompt, params)

abbrev pub check_both :
    Settings → Option SamplingParams → Result (List ℕ) → Result (List ℕ × SamplingParams)
check_both settings sampling (err e) = err e
check_both settings sampling (ok prompt) =
    check_length settings.max_model_len prompt
      (chosen_sampling settings.default_max_tokens sampling)

unfoldable pub validate :
    Settings → List Item → Option SamplingParams → Result (List ℕ × SamplingParams)
validate settings items sampling =
    check_both settings sampling (check_prompt settings.vocab_size items)

abbrev pub given_id : ℕ → Option ℕ → ℕ
given_id default none = default
given_id default (some id) = id

abbrev pub or_else : Option Request → Option Request → Option Request
or_else none other = other
or_else (some r) other = some r

abbrev pub is_nonempty : List Request → Bool
is_nonempty [] = false
is_nonempty (r ∷ rs) = true

module _ {ℓ} {V G : Type ℓ} where
  abbrev pub submitted :
      Option ℕ → Engine V G → Result (List ℕ × SamplingParams) → Outcome (Engine V G) ℕ
  submitted request_id e (err x) = (err x, e)
  submitted request_id e (ok (prompt, params)) =
      let id = given_id e.next_id request_id in
      (
        ok id,
        record e {
          sched = State.add_request (new_request prompt params id) e.sched;
          next_id = e.next_id + 1;
        },
      )

  unfoldable pub add_request : List Item → Option SamplingParams → Option ℕ → Action (Engine V G) ℕ
  add_request items sampling request_id e =
      submitted request_id e (validate e.settings items sampling)

  -- A call on the scheduler.
  abbrev pub on_sched : {A : Type 0} → Action Scheduler A → Action (Engine V G) A
  on_sched f e = let (r, s) = f e.sched in (r, record e { sched = s })

  -- `self._requests.get(request_id)`
  abbrev pub get_request : ℕ → Engine V G → Option Request
  get_request id e =
      or_else (find_request id e.sched.waiting)
        (or_else (find_request id e.sched.running) (find_request id e.archive))

  -- A request that has left the queues, and its block table with them.
  abbrev pub file_away : Request → Engine V G → Engine V G
  file_away r e = record e {
    archive = record r { kv = none } ∷ remove_request r.request_id e.archive;
  }

  abbrev pub abort_found : ℕ → Option Request → Action (Engine V G) Bool
  abort_found id none e = (ok false, e)
  abort_found id (some r) e =
      if is_finished r
      then (ok false, e)
      else and_then (on_sched (State.abort id) e)
          λ _ e'. (ok true, file_away (finish by_abort r) e')

  unfoldable pub abort_request : ℕ → Action (Engine V G) Bool
  abort_request id e = abort_found id (get_request id e) e

  abbrev pub has_unfinished_requests : Engine V G → Bool
  has_unfinished_requests e =
      if is_nonempty e.sched.waiting then true else is_nonempty e.sched.running
