-- ===== src/Tests/Requests.antt =====
-- An engine over the scheduler of Tests/Serving, in which request 1 decodes and request 2 waits.
use infer_lab.Base.{
  ℕ, ◌+◌, ◌≤◌, ◌<◌, ◌≡◌, ◌⊎◌, refl, List, [], ◌∷◌, ◌++◌, count, true, false, not, ◌&&◌, ◌==◌, none,
  some, arith, ok, err, value_error,
}
use infer_lab.Allocator.{num_free}
use infer_lab.Request.{SamplingParams, new_request, is_finished, num_generated, by_eos, by_length}
use infer_lab.Scheduler.State.{ids, find_request}
use infer_lab.Scheduler.Invariant.{Inv}
use infer_lab.Engine.{Engine, Item, token, add_request, abort_request}
use infer_lab.Tokenizer.{eos_id}
use infer_lab.Engine.Emitting.{emitted}
use infer_lab.Engine.Submitting.{Servable, add_request-Servable, abort_request-Inv}
use infer_lab.Engine.Finishing.{emitted-Ends}
use infer_lab.Tests.Serving.{busy, busy-Inv, decoding}

abbrev engine : Engine ℕ ℕ
engine = record {
  settings = record { vocab_size = 8; max_model_len = 6; default_max_tokens = 4 };
  sched = busy;
  k_pool = λ l b i. 0;
  v_pool = λ l b i. 0;
  model_stats = record {
    prefill_tokens = 0;
    decode_tokens = 0;
    prefill_calls = 0;
    decode_calls = 0;
  };
  rng = 0;
  archive = [];
  next_id = 3;
  step_index = 0;
  step_history = [];
}

abbrev two_tokens : List Item
two_tokens = token 5 ∷ token 7 ∷ []

abbrev four : SamplingParams
four = record { max_tokens = 4; ignore_eos = false }

add_request-Servable_example :
    (Servable engine.settings two_tokens 4
      × (e' : Engine ℕ ℕ) × (add_request two_tokens (some four) none engine ≡ (ok 3, e'))
      × (e'.sched.waiting ≡ busy.waiting ++ new_request (5 ∷ 7 ∷ []) four 3 ∷ [])
      × (e'.sched.running ≡ busy.running))
    ⊎ ((Servable engine.settings two_tokens 4 → ⊥)
        × (add_request two_tokens (some four) none engine ≡ (err value_error, engine)))
add_request-Servable_example = add_request-Servable two_tokens (some four) four none engine refl

abort_request-Inv_example :
    (e' : Engine ℕ ℕ) × (abort_request 1 engine ≡ (ok true, e'))
    × Inv e'.sched
    × (count 1 (ids e'.sched.running) + count 1 (ids e'.sched.waiting) ≡ 0)
    × (num_free busy.allocator ≤ num_free e'.sched.allocator)
    × (abort_request 1 e' ≡ (ok false, e'))
unfolding find_request
abort_request-Inv_example = abort_request-Inv 1 decoding engine busy-Inv refl refl

emitted-Ends_example :
    let r' = emitted 257 decoding in
    let stops = not decoding.sampling.ignore_eos && (257 == eos_id) in
    (r'.output_token_ids ≡ 4 ∷ 257 ∷ [])
    × (num_generated r' ≤ 4)
    × (((stops ≡ true) × (is_finished r' ≡ true) × (r'.finish_reason ≡ some by_eos))
        ⊎ (((stops ≡ false)
              × (is_finished r' ≡ true)
              × (r'.finish_reason ≡ some by_length)
              × (num_generated r' ≡ 4))
            ⊎ ((stops ≡ false) × (is_finished r' ≡ false) × (num_generated r' < 4))))
emitted-Ends_example = emitted-Ends 257 decoding refl (omega arith)

abbrev greedy : ℕ → SamplingParams → ℕ → ℕ × ℕ
greedy logits params g = (logits, g)
