-- ===== src/Ring/Wire.antt =====
-- The ring of ranks: each rank's messages reach the next rank.
use infer_lab.Base.{ℕ, zero, suc, ◌+◌, ◌-◌, ◌*◌, ◌%◌, ◌<◌, ◌≡◌}
use infer_lab.Ring.{back, sent}

-- `wire r k` is the message that rank `r` sends in its round `k`. TCP hands the messages of the rank
-- before on unchanged and in their order, so that what a rank sends is what its program makes of the
-- messages of the rank before, in whatever order the ranks run.
abbrev pub Delivered {ℓ} :
    {A : Type ℓ} → (A → ℕ) → (A → A → A) → ℕ → (ℕ → ℕ → A) → (ℕ → ℕ → A) → Type ℓ
Delivered size add n tensors wire =
    (r k : ℕ)
    → r < n
    → k < (n - 1) * 2
    → wire r k ≡ sent size add n r (tensors r) (wire (back n r 1)) k

-- The reduction of chunk `i` in the order of the ring: rank `i` first, and `k` ranks after it.
unfoldable pub ring_sum {ℓ} : {A : Type ℓ} → (A → A → A) → ℕ → (ℕ → ℕ → A) → ℕ → ℕ → A
ring_sum add n tensors i zero = tensors i i
ring_sum add n tensors i (suc k) = add (tensors ((i + suc k) % n) i) (ring_sum add n tensors i k)
