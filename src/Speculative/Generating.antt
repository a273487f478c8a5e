-- ===== src/Speculative/Generating.antt =====
-- `generate`: it ends, and within the number of tokens that was asked for.
use infer_lab.Base.{ℕ, ◌+◌, ◌≤◌, ◌<◌, ◌≡◌, ◌⊎◌, List, length, Error, ok, err}
use infer_lab.Speculative.{Model, Loop}
use infer_lab.Speculative.Accepting.{InVocab}

-- What is asked of a model, on the key-value states that satisfy `Good`: on some tokens of the
-- vocabulary that end within the window a forward pass gives a row of logits for each token, and
-- `Good` holds after it, or it raises one of `Raises`; and `Good` stays when a length within the
-- window is assigned. `Raises` is OutOfBlocks; or nothing, where `Good` says that the pool has the
-- blocks for a whole window.
pub record Serves {ℓ κ} {K : Type ℓ} (Good : K → Type κ) (Raises : Error → Type 0)
    (vocab window : ℕ) (m : Model K) : Type (ℓ ⊔ κ) where
  pub forwards :
      (tokens : List ℕ) (pos : ℕ) (kv : K)
      → Good kv
      → 0 < length tokens
      → InVocab vocab tokens
      → pos + length tokens ≤ window
      → ((rows : List ℕ) × (kv' : K) × (m.forward tokens pos kv ≡ (ok rows, kv'))
          × (length rows ≡ length tokens)
          × InVocab vocab rows
          × Good kv')
        ⊎ ((e : Error) × (kv' : K) × (m.forward tokens pos kv ≡ (err e, kv')) × Raises e)
  pub resets : (n : ℕ) (kv : K) → n ≤ window → Good kv → Good (m.set_length n kv)

-- What holds of the variables between two rounds: `prompted` is the length of the prompt.
record Steady {ℓ κ} {K : Type ℓ} (GoodTarget GoodDraft : K → Type κ) (vocab prompted : ℕ)
    (s : Loop K) : Type (ℓ ⊔ κ) where
  target_good : GoodTarget s.target_kv
  draft_good : GoodDraft s.draft_kv
  in_vocab : InVocab vocab s.output
  some_token : 0 < length s.output
  placed : s.position + 1 ≡ prompted + length s.output
