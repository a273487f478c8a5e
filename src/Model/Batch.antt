-- ===== src/Model/Batch.antt =====
-- numpy_model.py: `forward_decode_batch`, one token for each sequence of a batch, layer by layer.
use infer_lab.Base.{
  ℕ, zero, suc, ◌+◌, ◌==◌, List, [], ◌∷◌, length, take, Bool, true, ltb, ◌&&◌, not, if◌then◌else◌,
  Result, ok, err, Outcome, Action, and_then, value_error, index_error,
}
use infer_lab.Allocator.{Allocator}
use infer_lab.Paged.{SequenceKv}
use infer_lab.Paged.Pools.{Pool, Memory, write, gather}
use infer_lab.Model.{Network, ForwardStats, all_below, lengthened}

-- A sequence of the decode batch: its table, the position of its token and its hidden row.
pub record Slot {ℓ} (X : Type ℓ) : Type ℓ where
  pub kv : SequenceKv
  pub pos : ℕ
  pub row : X

-- What the sequences of a batch share.
pub record Cache {ℓ} (V : Type ℓ) : Type ℓ where
  pub allocator : Allocator
  pub k_pool : Pool V
  pub v_pool : Pool V

abbrev pub Batch {ℓ} : Type ℓ → Type ℓ → Type ℓ
Batch X V = List (Slot X) × Cache V

abbrev pub open_slot {ℓ} : {X V : Type ℓ} → Slot X → Cache V → Memory V
open_slot s c = record { kv = s.kv; allocator = c.allocator; k_pool = c.k_pool; v_pool = c.v_pool }

abbrev pub close_slot {ℓ} : {X V : Type ℓ} → Slot X → Memory V → Slot X × Cache V
close_slot s m = (
  record s { kv = m.kv },
  record { allocator = m.allocator; k_pool = m.k_pool; v_pool = m.v_pool },
)

module _ {ℓ} {X V L : Type ℓ} (net : Network X V L) (bs : ℕ) where
  -- A sequence's part of a layer, after its write.
  abbrev pub decoded :
      ℕ → Slot X → Result (Unit {0}) × Memory V → Result (Unit {0}) × (Slot X × Cache V)
  decoded layer s (err e, m) = (err e, close_slot s m)
  decoded layer s (ok _, m) =
      let m2 = lengthened net bs layer (s.pos + 1) m in
      let (ks, vs) = gather bs layer m2 in
      (
        ok tt,
        close_slot
            (record s {
              row = net.attend layer s.pos s.row (take (suc s.pos) ks) (take (suc s.pos) vs);
            })
            m2,
      )

  unfoldable pub decode_slot : ℕ → Slot X → Cache V → Result (Unit {0}) × (Slot X × Cache V)
  decode_slot layer s c = decoded layer s (
      write bs layer s.pos (net.key layer s.pos s.row ∷ []) (net.value layer s.pos s.row ∷ [])
        (open_slot s c))

  -- `for b, seq_kv in enumerate(seq_kvs)`; an exception leaves the sequences behind it as they were.
  abbrev pub slots_after :
      (Cache V → Outcome (Batch X V) (Unit {0}))
      → List (Slot X)
      → Result (Unit {0}) × (Slot X × Cache V)
      → Outcome (Batch X V) (Unit {0})
  slots_after next rest (err e, (s, c)) = (err e, (s ∷ rest, c))
  slots_after next rest (ok _, (s, c)) = let (r, (ss, c')) = next c in (r, (s ∷ ss, c'))

  unfoldable pub decode_slots : ℕ → List (Slot X) → Cache V → Outcome (Batch X V) (Unit {0})
  decode_slots layer [] c = (ok tt, ([], c))
  decode_slots layer (s ∷ ss) c = slots_after (decode_slots layer ss) ss (decode_slot layer s c)

  abbrev pub in_window : List (Slot X) → Bool
  in_window [] = true
  in_window (s ∷ ss) = ltb s.pos net.max_position_embeddings && in_window ss

  unfoldable pub decode_layers : ℕ → ℕ → Action (Batch X V) (Unit {0})
  decode_layers zero layer b = (ok tt, b)
  decode_layers (suc count) layer b =
      if in_window b.0
      then and_then (decode_slots layer b.0 b.1) (λ _ b'. decode_layers count (suc layer) b')
      else (err index_error, b)

  abbrev pub rows_logits : List (Slot X) → List L
  rows_logits [] = []
  rows_logits (s ∷ ss) = net.to_logits s.row ∷ rows_logits ss

  abbrev pub new_slots : List ℕ → List SequenceKv → List ℕ → List (Slot X)
  new_slots (t ∷ ts) (kv ∷ kvs) (p ∷ ps) =
      record { kv = kv; pos = p; row = net.embed t } ∷ new_slots ts kvs ps
  new_slots _ _ _ = []

  abbrev pub count_decode : ℕ → ForwardStats → ForwardStats
  count_decode n s = record s {
    decode_tokens = s.decode_tokens + n;
    decode_calls = s.decode_calls + 1;
  }

  -- The state is the cache with the model's counters; the tables of the batch are an argument, and
  -- come back in its order.
  abbrev pub batch_done :
      ℕ
      → ForwardStats
      → Outcome (Batch X V) (Unit {0})
      → Result (List L) × (Batch X V × ForwardStats)
  batch_done n stats (err e, b) = (err e, (b, stats))
  batch_done n stats (ok _, b) = (ok (rows_logits b.0), (b, count_decode n stats))

  unfoldable pub forward_decode_batch :
      List ℕ
      → List SequenceKv
      → List ℕ
      → Cache V
      → ForwardStats
      → Result (List L) × (Batch X V × ForwardStats)
  forward_decode_batch tokens kvs positions c stats =
      let slots = new_slots tokens kvs positions in
      if length tokens == 0
      then (ok [], ((slots, c), stats))
      else if not ((length kvs == length tokens) && (length positions == length tokens))
      then (err value_error, ((slots, c), stats))
      else if all_below net.vocab_size tokens
      then batch_done (length tokens) stats (decode_layers net.num_layers 0 (slots, c))
      else (err index_error, ((slots, c), stats))
