-- ===== src/TensorParallel/Heads.antt =====
-- The ranks share out the heads.
use native.Mathlib.Nat.{div-lt_iff_lt-mul}
use infer_lab.Base.{ℕ, zero, suc, ◌+◌, ◌*◌, ◌/◌, ◌≤◌, ◌<◌, ◌≡◌, ◌↔◌, ok, arith}
use infer_lab.Settings.Checks.{remainder-passes, whole}
use infer_lab.TensorParallel.{Attention, check_attention, heads_per_rank, head_slice}

-- The multiples of `b` around `n`.
div-between : (n b r : ℕ) → 0 < b → (r * b ≤ n) × (n < (r + 1) * b) ↔ (n / b ≡ r)
div-between n b r h = (
  (λ w.
      let above : n / b < r + 1 = (div-lt_iff_lt-mul h).1 w.1 in
      let below : n / b < r → ⊥ =
        λ l. (let low = (div-lt_iff_lt-mul h).0 l in omega (arith, low, w.0)) in
      ground (arith, above, below)),
  λ e. (
    (let low : n < r * b → ⊥ =
          λ l. (let small = (div-lt_iff_lt-mul h).1 l in omega (arith, small, e)) in
        ground arith),
    (div-lt_iff_lt-mul h).0 (omega (arith, e)),
  ),
)

-- Where the checks pass, each head is in the slice of exactly one rank, the quotient of its number
-- by `heads_per_rank`, and that is a rank of the group.
pub head_slice-owner :
    (a : Attention) (head rank : ℕ)
    → check_attention a ≡ ok tt
    → head < a.num_heads
    → (((head_slice a rank).first ≤ head) × (head < (head_slice a rank).last)
        ↔ (head / heads_per_rank a ≡ rank))
      × (head / heads_per_rank a < a.world_size)
unfolding check_attention
head_slice-owner a head rank passes lt =
    let (ranks, exact, more) = remainder-passes a.num_heads a.world_size _ passes in
    let all = whole a.num_heads a.world_size ranks exact in
    let some_head : 0 < heads_per_rank a = positive (heads_per_rank a) all in
    (
      div-between head (heads_per_rank a) rank some_head,
      (div-lt_iff_lt-mul some_head).1
          (omega (arith, lt, all, swap a.world_size (heads_per_rank a))),
    )
  where
    positive : (q : ℕ) → q * a.world_size ≡ a.num_heads → 0 < q
    positive zero e = absurd (omega (arith, e, lt))
    positive (suc q) e = omega arith

    swap : (x y : ℕ) → x * y ≡ y * x
    swap x y = omega arith
