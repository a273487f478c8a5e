-- ===== src/Engine/Prefill.antt =====
-- llm_engine.py: the prefill loop of `step`, and `_emit`.
use infer_lab.Base.{
  ℕ, ◌+◌, ◌==◌, List, [], ◌∷◌, ◌++◌, not, if◌then◌else◌, Option, none, some, Result, ok, err,
  Outcome, Action, and_then, assertion_error,
}
use infer_lab.Allocator.{Allocator}
use infer_lab.Paged.{SequenceKv}
use infer_lab.Paged.Pools.{Pool}
use infer_lab.Model.{Network, Device, forward_prefill}
use infer_lab.Request.{Request, State, SamplingParams, num_generated}
use infer_lab.Scheduler.State.{Chunk, num_tokens, find_request, replace_request}
use infer_lab.Engine.{Engine}
use infer_lab.Engine.Emitting.{EngineOutput, output_for, emitted}

module _ {ℓ} {V G : Type ℓ} where
  -- The request object `r` has changed.
  abbrev pub store : Request → Engine V G → Engine V G
  store r e = record e { sched = record e.sched { running = replace_request r e.sched.running } }

  abbrev pub device_of : SequenceKv → Engine V G → Device V
  device_of kv e = record {
    memory = record {
      kv = kv;
      allocator = e.sched.allocator;
      k_pool = e.k_pool;
      v_pool = e.v_pool;
    };
    stats = e.model_stats;
  }

  abbrev pub with_cache : Allocator → Pool V → Pool V → Engine V G → Engine V G
  with_cache allocator k_pool v_pool e = record e {
    sched = record e.sched { allocator = allocator };
    k_pool = k_pool;
    v_pool = v_pool;
  }

-- `sample` is `sample_token` with the generator's state, and the request's parameters.
module _ {ℓ} {V L G : Type ℓ} (sample : L → SamplingParams → G → ℕ × G) where
  abbrev pub emit : Request → L → Engine V G → Request × Engine V G
  emit r logits e =
      let (token, g) = sample logits r.sampling e.rng in
      let r' = emitted token r in (r', store r' (record e { rng = g }))

module _ {ℓ} {X V L G : Type ℓ} (net : Network X V L)
    (sample : L → SamplingParams → G → ℕ × G) where
  -- The chunk's end, after the forward pass.
  abbrev pub chunk_done : Chunk → Request → L → Engine V G → List EngineOutput × Engine V G
  chunk_done c r logits e =
      let r1 = record r { num_computed_tokens = c.start_pos + num_tokens c } in
      let r2 = record r1 { state = State.running } in
      let (r3, e3) = emit sample r2 logits e in
      if not c.is_final_chunk
      then ([], store r1 e)
      else if num_generated r == 0
      then (output_for r3 ∷ [], e3)
      else ([], store r2 e)

  -- What `forward_prefill` has written, also where it has raised.
  abbrev pub prefilled :
      Chunk → Request → Engine V G → Outcome (Device V) L → Outcome (Engine V G) (List EngineOutput)
  prefilled c r e (result, d) =
      let r' = record r { kv = some d.memory.kv } in
      let e' = store r' (
        with_cache d.memory.allocator d.memory.k_pool d.memory.v_pool
          (record e { model_stats = d.stats })) in
      finish_chunk result r' e'
    where
      finish_chunk : Result L → Request → Engine V G → Outcome (Engine V G) (List EngineOutput)
      finish_chunk (err x) q f = (err x, f)
      finish_chunk (ok logits) q f = let (outs, f') = chunk_done c q logits f in (ok outs, f')

  -- `assert request.kv is not None`; a request that is not running has no table.
  abbrev pub prefill_with : Chunk → Option Request → Action (Engine V G) (List EngineOutput)
  prefill_with c none e = (err assertion_error, e)
  prefill_with c (some r) e = with_kv r.kv
    where
      with_kv : Option SequenceKv → Outcome (Engine V G) (List EngineOutput)
      with_kv none = (err assertion_error, e)
      with_kv (some kv) =
          prefilled c r e
            (forward_prefill net e.sched.config.block_size c.token_ids c.start_pos (device_of kv e))

  unfoldable pub prefill_chunks : List Chunk → Action (Engine V G) (List EngineOutput)
  prefill_chunks [] e = (ok [], e)
  prefill_chunks (c ∷ cs) e =
      and_then (prefill_with c (find_request c.request e.sched.running) e)
        λ outs e'. and_then (prefill_chunks cs e') λ more e''. (ok (outs ++ more), e'')
