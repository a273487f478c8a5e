-- ===== src/Tests/Prefilling.antt =====
-- A small network of numbers on the demonstration pool: a prompt of three tokens in one chunk.
use infer_lab.Base.{ℕ, ◌+◌, ◌≡◌, ◌⊎◌, List, [], ◌∷◌, ok, err, out_of_blocks, arith}
use infer_lab.Tests.Demo.{pool, pool-Accounts, table}
use infer_lab.Model.{Network, Device, forward_prefill}
use infer_lab.Model.Dense.{dense_logits}
use infer_lab.Model.Layers.{Cached, Kept}
use infer_lab.Model.Prefill.{forward_prefill-Cached}

abbrev total : List ℕ → ℕ
total [] = 0
total (x ∷ xs) = x + total xs

abbrev pub sums : Network ℕ ℕ ℕ
sums = record {
  num_layers = 2;
  vocab_size = 8;
  max_position_embeddings = 16;
  embed = λ t. t + 1;
  key = λ layer p x. x + p;
  value = λ layer p x. x + x;
  attend = λ layer p x ks vs. x + total ks + total vs;
  to_logits = λ x. x;
}

abbrev prompt : ℕ → ℕ
prompt p = 3

abbrev device : Device ℕ
device = record {
  memory = record { kv = table; allocator = pool; k_pool = λ l b i. 0; v_pool = λ l b i. 0 };
  stats = record { prefill_tokens = 0; decode_tokens = 0; prefill_calls = 0; decode_calls = 0 };
}

device-Cached : Cached sums 2 prompt (0 ∷ 1 ∷ []) 0 device.memory
device-Cached = record {
  accounts = pool-Accounts;
  room = omega arith;
  k_rows = λ l t low lt. absurd (omega arith);
  v_rows = λ l t low lt. absurd (omega arith);
}

forward_prefill-Cached_example :
    ((d' : Device ℕ) × (forward_prefill sums 2 (3 ∷ 3 ∷ 3 ∷ []) 0 device
        ≡ (ok (dense_logits sums prompt 2), d'))
      × Cached sums 2 prompt (0 ∷ 1 ∷ []) 3 d'.memory
      × (d'.memory.kv.length ≡ 3)
      × Kept (0 ∷ 1 ∷ []) device.memory d'.memory)
    ⊎ ((d' : Device ℕ) × (forward_prefill sums 2 (3 ∷ 3 ∷ 3 ∷ []) 0 device
          ≡ (err out_of_blocks, d'))
        × Kept (0 ∷ 1 ∷ []) device.memory d'.memory)
forward_prefill-Cached_example =
    forward_prefill-Cached sums 2 (omega arith) prompt (0 ∷ 1 ∷ []) 0 2 device (omega arith)
      (omega arith) (λ p lo hi. omega arith) device-Cached
