-- ===== src/Settings.antt =====
-- src/infer_lab/config.py: the checks of the two configurations, and what is computed from them. The
-- floats of a configuration decide nothing here and are left out.
pub mod Checks
use infer_lab.Base.{
  ℕ, ◌+◌, ◌-◌, ◌*◌, ◌/◌, ◌%◌, ◌==◌, max, Bool, true, false, ltb, not, ◌&&◌, ◌||◌, if◌then◌else◌,
  Result, ok, err, value_error, zero_division_error,
}
use Prim.Native.Nat.{bit_and}

pub record ModelConfig : Type 0 where
  pub vocab_size : ℕ
  pub hidden_size : ℕ
  pub intermediate_size : ℕ
  pub num_layers : ℕ
  pub num_heads : ℕ
  pub num_kv_heads : ℕ
  pub tie_word_embeddings : Bool
  pub num_experts : ℕ
  pub num_experts_per_tok : ℕ

-- `a % b` as a condition: a divisor of 0 raises.
abbrev pub if_remainder : ℕ → ℕ → Result (Unit {0}) → Result (Unit {0})
if_remainder a b next =
    if b == 0 then err zero_division_error else if not (a % b == 0) then err value_error else next

-- `ModelConfig.__post_init__`
unfoldable pub check_model : ModelConfig → Result (Unit {0})
check_model c = if_remainder c.hidden_size c.num_heads (
    if_remainder c.num_heads c.num_kv_heads (
      if not (c.num_experts == 0) && ltb c.num_experts c.num_experts_per_tok
      then err value_error
      else ok tt))

abbrev pub head_dim : ModelConfig → ℕ
head_dim c = c.hidden_size / c.num_heads

abbrev pub kv_group_size : ModelConfig → ℕ
kv_group_size c = c.num_heads / c.num_kv_heads

abbrev pub is_moe : ModelConfig → Bool
is_moe c = ltb 0 c.num_experts

abbrev pub param_count : ModelConfig → ℕ
param_count c =
    let h = c.hidden_size in
    let kv = c.num_kv_heads * head_dim c in
    let attn = h * h + 2 * h * kv + h * h in
    let ffn = 3 * h * c.intermediate_size * max c.num_experts 1 in
    let router = h * c.num_experts in
    let norms = 2 * h in
    let embed = c.vocab_size * h * (if c.tie_word_embeddings then 1 else 2) in
    c.num_layers * (attn + ffn + router + norms) + embed + h

-- `preemption_mode in ("recompute", "swap")`
pub data PreemptionMode : Type 0 where
  recompute swap other_mode : PreemptionMode

abbrev pub is_mode : PreemptionMode → Bool
is_mode other_mode = false
is_mode _ = true

-- `EngineConfig.__post_init__`
unfoldable pub check_engine : PreemptionMode → ℕ → Result (Unit {0})
check_engine mode block_size =
    if not (is_mode mode)
    then err value_error
    else if (block_size == 0) || not (bit_and block_size (block_size - 1) == 0)
    then err value_error
    else ok tt
