-- ===== src/Tokenizer.antt =====
-- src/infer_lab/model/tokenizer.py: the byte tokenizer. A text is a value of any type; UTF-8 is a
-- parameter, `to_bytes` and `from_bytes`, the latter with its replacement of malformed bytes.
pub mod Decoding
use infer_lab.Base.{ℕ, ◌+◌, ◌==◌, List, [], ◌∷◌, Bool, ltb, if◌then◌else◌}

abbrev pub bos_id : ℕ
bos_id = 256

abbrev pub eos_id : ℕ
eos_id = 257

abbrev pub pad_id : ℕ
pad_id = 258

abbrev pub num_special : ℕ
num_special = 3

abbrev pub vocab_size : ℕ
vocab_size = 256 + num_special

unfoldable pub bytes_below_256 : List ℕ → List ℕ
bytes_below_256 [] = []
bytes_below_256 (i ∷ ids) = let rest = bytes_below_256 ids in if ltb i 256 then i ∷ rest else rest

module _ {ℓ} {S : Type ℓ} where
  unfoldable pub encode : (S → List ℕ) → S → Bool → List ℕ
  encode to_bytes text add_bos = if add_bos then bos_id ∷ to_bytes text else to_bytes text

  unfoldable pub decode : (List ℕ → S) → List ℕ → S
  decode from_bytes ids = from_bytes (bytes_below_256 ids)

abbrev pub is_eos : ℕ → Bool
is_eos token_id = token_id == eos_id
