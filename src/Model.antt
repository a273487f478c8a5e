-- ===== src/Model.antt =====
-- src/infer_lab/model/numpy_model.py: `forward_prefill` on the paged cache. A row of the hidden
-- state is a value of type `X`, a row of a pool one of type `V`. What a layer computes in floating
-- point is a parameter, row by row: `key` and `value` are a row's projections at its position,
-- `attend` is the rest of the layer with attention over the rows that the causal mask leaves, those
-- at or before its own position. `stats` has no reading of the experts' load.
pub mod Batch
pub mod Dense
pub mod Layers
pub mod Prefill
use infer_lab.Base.{
  ℕ, zero, suc, ◌+◌, ◌==◌, List, [], ◌∷◌, length, take, map, Bool, true, ltb, leb, ◌&&◌,
  if◌then◌else◌, Result, ok, err, Action, and_then, value_error, index_error,
}
use infer_lab.Paged.Pools.{Memory, with_length, write, gather}

pub record Network {ℓ} (X V L : Type ℓ) : Type ℓ where
  pub num_layers : ℕ
  pub vocab_size : ℕ
  pub max_position_embeddings : ℕ
  pub embed : ℕ → X
  pub key : ℕ → ℕ → X → V
  pub value : ℕ → ℕ → X → V
  pub attend : ℕ → ℕ → X → List V → List V → X
  pub to_logits : X → L

pub record ForwardStats : Type 0 where
  pub prefill_tokens : ℕ
  pub decode_tokens : ℕ
  pub prefill_calls : ℕ
  pub decode_calls : ℕ

-- The memory of the sequence at hand, and the model's counters.
pub record Device {ℓ} (V : Type ℓ) : Type ℓ where
  pub memory : Memory V
  pub stats : ForwardStats

abbrev pub all_below : ℕ → List ℕ → Bool
all_below n [] = true
all_below n (t ∷ ts) = ltb t n && all_below n ts

-- The rows of consecutive positions, projected.
unfoldable pub project {ℓ} : {X V : Type ℓ} → (ℕ → X → V) → ℕ → List X → List V
project f pos [] = []
project f pos (x ∷ xs) = f pos x ∷ project f (suc pos) xs

module _ {ℓ} {X V L : Type ℓ} (net : Network X V L) (bs : ℕ) where
  unfoldable pub attend_rows : ℕ → ℕ → List V → List V → List X → List X
  attend_rows layer pos ks vs [] = []
  attend_rows layer pos ks vs (x ∷ xs) =
      net.attend layer pos x (take (suc pos) ks) (take (suc pos) vs)
      ∷ attend_rows layer (suc pos) ks vs xs

  -- `if layer_idx == 0: seq_kv.length = start_pos + n`
  abbrev pub lengthened : ℕ → ℕ → Memory V → Memory V
  lengthened layer n m = if layer == 0 then with_length n m else m

  -- The end of a layer, after the write.
  abbrev pub attended : ℕ → ℕ → List X → Memory V → List X
  attended layer start xs m = attend_rows layer start (gather bs layer m).0 (gather bs layer m).1 xs

  -- A layer. The rotation tables have `max_position_embeddings` rows.
  unfoldable pub layer_pass : ℕ → ℕ → List X → Action (Memory V) (List X)
  layer_pass layer start xs m =
      if leb (start + length xs) net.max_position_embeddings
      then and_then
          (write bs layer start (project (net.key layer) start xs)
            (project (net.value layer) start xs) m)
          (λ _ m1.
            let m2 = lengthened layer (start + length xs) m1 in
            (ok (attended layer start xs m2), m2))
      else (err index_error, m)

  -- The layers from `layer` on, `count` of them.
  unfoldable pub layers_from : ℕ → ℕ → ℕ → List X → Action (Memory V) (List X)
  layers_from zero layer start xs m = (ok xs, m)
  layers_from (suc count) layer start xs m =
      and_then (layer_pass layer start xs m) λ ys m'. layers_from count (suc layer) start ys m'

  -- `self._logits(x[-1:])[0]`
  unfoldable pub last_logits : List X → Result L
  last_logits [] = err index_error
  last_logits (x ∷ []) = ok (net.to_logits x)
  last_logits (x ∷ y ∷ xs) = last_logits (y ∷ xs)

  abbrev pub on_memory : {A : Type ℓ} → Action (Memory V) A → Action (Device V) A
  on_memory f d = let (r, m) = f d.memory in (r, record d { memory = m })

  abbrev pub count_prefill : ℕ → Device V → Device V
  count_prefill n d = record d {
    stats = record d.stats {
      prefill_tokens = d.stats.prefill_tokens + n;
      prefill_calls = d.stats.prefill_calls + 1;
    };
  }

  unfoldable pub forward_prefill : List ℕ → ℕ → Action (Device V) L
  forward_prefill tokens start d =
      if length tokens == 0
      then (err value_error, d)
      else if all_below net.vocab_size tokens
      then and_then (on_memory (layers_from net.num_layers 0 start (map net.embed tokens)) d)
          (λ xs d'. (last_logits xs, count_prefill (length tokens) d'))
      else (err index_error, d)
