-- ===== src/Engine/Decoding.antt =====
-- llm_engine.py: the batched decode of `step`.
use infer_lab.Base.{
  ℕ, ◌+◌, List, [], ◌∷◌, Bool, not, ◌&&◌, if◌then◌else◌, Option, none, some, Result, ok, err,
  Outcome, Action, and_then, assertion_error, value_error,
}
use infer_lab.Paged.{SequenceKv}
use infer_lab.Model.{Network, ForwardStats}
use infer_lab.Model.Batch.{Slot, Batch, forward_decode_batch}
use infer_lab.Request.{Request, SamplingParams, is_finished, is_running, last_token, next_position}
use infer_lab.Scheduler.State.{find_request}
use infer_lab.Engine.{Engine}
use infer_lab.Engine.Emitting.{EngineOutput, output_for}
use infer_lab.Engine.Prefill.{store, emit, with_cache}

-- The decode batch: the planned requests that still run.
abbrev pub may_decode : Request → Bool
may_decode r = not (is_finished r) && is_running r.state

abbrev pub add_decode : Option Request → List (Request × SequenceKv) → List (Request × SequenceKv)
add_decode none rest = rest
add_decode (some r) rest = with_table r.kv
  where
    with_table : Option SequenceKv → List (Request × SequenceKv)
    with_table none = rest
    with_table (some kv) = if may_decode r then (r, kv) ∷ rest else rest

unfoldable pub decodes_of : List ℕ → List Request → List (Request × SequenceKv)
decodes_of [] running = []
decodes_of (id ∷ planned) running =
    add_decode (find_request id running) (decodes_of planned running)

abbrev pub cons_result : Result ℕ → Result (List ℕ) → Result (List ℕ)
cons_result (err e) ts = err e
cons_result (ok t) (err e) = err e
cons_result (ok t) (ok ts) = ok (t ∷ ts)

abbrev pub last_tokens : List (Request × SequenceKv) → Result (List ℕ)
last_tokens [] = ok []
last_tokens ((r, kv) ∷ ds) = cons_result (last_token r) (last_tokens ds)

abbrev pub positions_of : List (Request × SequenceKv) → List ℕ
positions_of [] = []
positions_of ((r, kv) ∷ ds) = next_position r ∷ positions_of ds

abbrev pub tables_of : List (Request × SequenceKv) → List SequenceKv
tables_of [] = []
tables_of ((r, kv) ∷ ds) = kv ∷ tables_of ds

abbrev pub ids_of : List (Request × SequenceKv) → List ℕ
ids_of [] = []
ids_of ((r, kv) ∷ ds) = r.request_id ∷ ids_of ds

module _ {ℓ} {X V G : Type ℓ} where
  -- The sequences of the batch with the tables that the forward pass left them.
  abbrev pub store_tables : List (Request × SequenceKv) → List (Slot X) → Engine V G → Engine V G
  store_tables ((r, kv) ∷ ds) (s ∷ ss) e =
      store_tables ds ss (store (record r { kv = some s.kv }) e)
  store_tables _ _ e = e

module _ {ℓ} {V L G : Type ℓ} (sample : L → SamplingParams → G → ℕ × G) where
  -- `for request, logits in zip(decodes, batch_logits, strict=True)`
  unfoldable pub emit_all : List ℕ → List L → Action (Engine V G) (List EngineOutput)
  emit_all [] [] e = (ok [], e)
  emit_all (id ∷ rest) (logits ∷ more) e =
      and_then (emit_one (find_request id e.sched.running) logits e)
        λ out e'. and_then (emit_all rest more e') λ outs e''. (ok (out ∷ outs), e'')
    where
      emit_one : Option Request → L → Action (Engine V G) EngineOutput
      emit_one none logits e = (err assertion_error, e)
      emit_one (some r) logits e =
          let (r', e') =
            emit sample (record r { num_computed_tokens = r.num_computed_tokens + 1 }) logits e in
          (ok (output_for r'), e')
  emit_all _ _ e = (err value_error, e)

module _ {ℓ} {X V L G : Type ℓ} (net : Network X V L)
    (sample : L → SamplingParams → G → ℕ × G) where
  abbrev pub decoded_batch :
      List (Request × SequenceKv)
      → Engine V G
      → Result (List L) × (Batch X V × ForwardStats)
      → Outcome (Engine V G) (List EngineOutput)
  decoded_batch ds e (result, ((slots, c), stats)) = emit_result result (
      store_tables ds slots
        (with_cache c.allocator c.k_pool c.v_pool (record e { model_stats = stats })))
    where
      emit_result : Result (List L) → Action (Engine V G) (List EngineOutput)
      emit_result (err x) f = (err x, f)
      emit_result (ok logits) f = emit_all sample (ids_of ds) logits f

  abbrev pub decode_tokens :
      List (Request × SequenceKv) → Result (List ℕ) → Action (Engine V G) (List EngineOutput)
  decode_tokens ds (err x) e = (err x, e)
  decode_tokens ds (ok tokens) e = decoded_batch ds e (
      forward_decode_batch net e.sched.config.block_size tokens (tables_of ds) (positions_of ds)
        (record { allocator = e.sched.allocator; k_pool = e.k_pool; v_pool = e.v_pool })
        e.model_stats)

  abbrev pub decode_some : List (Request × SequenceKv) → Action (Engine V G) (List EngineOutput)
  decode_some [] e = (ok [], e)
  decode_some (d ∷ ds) e = decode_tokens (d ∷ ds) (last_tokens (d ∷ ds)) e

  unfoldable pub decode_batch : List ℕ → Action (Engine V G) (List EngineOutput)
  decode_batch planned e = decode_some (decodes_of planned e.sched.running) e
