-- ===== src/Paged/Capacity.antt =====
-- How many blocks a number of tokens takes.
use native.Mathlib.Nat.{div-lt_iff_lt-mul}
use infer_lab.Base.{ℕ, ◌+◌, ◌-◌, ◌*◌, ◌/◌, ◌≤◌, ◌<◌, ◌≡◌, ◌↔◌, length, arith}
use infer_lab.Paged.{SequenceKv, ceil_div, capacity, blocks_needed}

mul_suc : (k d : ℕ) → (k + 1) * d ≡ k * d + d
mul_suc k d = omega arith

-- `ceil_div n d` is the least `k` with `n ≤ k * d`.
pub ceil_div-le_iff : (n d k : ℕ) → 0 < d → (ceil_div n d ≤ k) ↔ (n ≤ k * d)
unfolding ceil_div
ceil_div-le_iff n d k h = (
  λ p.
      let q : n + (d - 1) < (k + 1) * d = (div-lt_iff_lt-mul h).0 (omega arith) in
      omega (arith, mul_suc k d),
  λ p.
      let q : n + (d - 1) < (k + 1) * d = omega (arith, mul_suc k d) in
      let r : (n + (d - 1)) / d < k + 1 = (div-lt_iff_lt-mul h).1 q in omega arith,
)

-- A table needs at most `k` further blocks for `total` tokens exactly if they fit once it has them.
pub blocks_needed-le_iff :
    (bs : ℕ) (kv : SequenceKv) (total k : ℕ)
    → 0 < bs
    → (blocks_needed bs kv total ≤ k) ↔ (total ≤ (length kv.block_table + k) * bs)
unfolding blocks_needed
blocks_needed-le_iff bs kv total k h = (
  λ p. (ceil_div-le_iff total bs (length kv.block_table + k) h).0 (omega arith),
  λ p. let q = (ceil_div-le_iff total bs (length kv.block_table + k) h).1 p in omega arith,
)

-- A table that is long enough needs no block.
pub blocks_needed-zero_iff :
    (bs : ℕ) (kv : SequenceKv) (total : ℕ)
    → 0 < bs
    → (blocks_needed bs kv total ≡ 0) ↔ (total ≤ capacity bs kv)
unfolding capacity
blocks_needed-zero_iff bs kv total h =
    let fits = blocks_needed-le_iff bs kv total 0 h in
    (
      λ p. let q = fits.0 (omega arith) in omega arith,
      λ p. let q = fits.1 (omega arith) in omega arith,
    )

-- More tokens never need fewer blocks.
pub blocks_needed_mono :
    (bs : ℕ) (kv : SequenceKv) (m n : ℕ)
    → 0 < bs
    → m ≤ n
    → blocks_needed bs kv m ≤ blocks_needed bs kv n
blocks_needed_mono bs kv m n h le =
    let fits = (blocks_needed-le_iff bs kv n (blocks_needed bs kv n) h).0 (omega arith) in
    (blocks_needed-le_iff bs kv m (blocks_needed bs kv n) h).1 (omega arith)
