-- ===== src/Tests/Configs.antt =====
-- The default model, a block size of 16, and the text of two bytes.
use infer_lab.Base.{ℕ, ◌*◌, ◌<◌, ◌≡◌, ◌↔◌, refl, List, [], ◌∷◌, ◌++◌, true, ok, arith}
use infer_lab.Tokenizer.{encode, decode}
use infer_lab.Tokenizer.Decoding.{decode-encode}
use infer_lab.Settings.{ModelConfig, check_model, head_dim, kv_group_size, recompute, check_engine}
use infer_lab.Settings.Checks.{IsPowerOfTwo, check_model-Divides, check_engine-IsPowerOfTwo}

abbrev tiny : ModelConfig
tiny = record {
  vocab_size = 1024;
  hidden_size = 256;
  intermediate_size = 688;
  num_layers = 4;
  num_heads = 8;
  num_kv_heads = 2;
  tie_word_embeddings = true;
  num_experts = 0;
  num_experts_per_tok = 2;
}

check_model-Divides_example :
    (head_dim tiny * 8 ≡ 256) × (kv_group_size tiny * 2 ≡ 8) × (0 < 8) × (0 < 2)
unfolding check_model
check_model-Divides_example = check_model-Divides tiny refl

check_engine-IsPowerOfTwo_example : (check_engine recompute 16 ≡ ok tt) ↔ IsPowerOfTwo 16
check_engine-IsPowerOfTwo_example = check_engine-IsPowerOfTwo recompute 16 refl

abbrev text : List ℕ
text = 104 ∷ 105 ∷ []

decode-encode_example : decode (λ b. b) (encode (λ t. t) text true ++ 257 ∷ []) ≡ text
decode-encode_example =
    decode-encode (λ t. t) (λ b. b) text true (257 ∷ []) refl (omega arith, (omega arith, tt))
      (omega arith, tt)
