-- ===== src/Tests/Ranks.antt =====
-- A ring of two ranks with two chunks each, and a socket that hands over one byte at a time.
use infer_lab.Base.{
  ℕ, zero, suc, ◌+◌, ◌*◌, ◌≤◌, ◌<◌, ◌≡◌, refl, List, [], ◌∷◌, ◌++◌, length, ok, Action, arith,
}
use infer_lab.Ring.{back, run, sent, scatter, gather}
use infer_lab.Ring.Wire.{Delivered, ring_sum}
use infer_lab.Ring.Reduction.{run-ring_sum}
use infer_lab.Ring.Framing.{frame, recv_msg}
use infer_lab.Ring.Framing.Delivery.{Stream, recv_msg-frame}

abbrev four_bytes : ℕ → ℕ
four_bytes x = 4

abbrev tensors : ℕ → ℕ → ℕ
tensors r i = 10 * r + i

abbrev wire : ℕ → ℕ → ℕ
wire zero zero = 0
wire zero (suc k) = 12
wire (suc r) zero = 11
wire (suc r) (suc k) = 10

wire-Delivered : Delivered four_bytes ◌+◌ 2 tensors wire
unfolding sent scatter gather
wire-Delivered zero zero h k = refl
wire-Delivered zero (suc zero) h k = refl
wire-Delivered zero (suc (suc n)) h k = absurd (omega arith)
wire-Delivered (suc zero) zero h k = refl
wire-Delivered (suc zero) (suc zero) h k = refl
wire-Delivered (suc zero) (suc (suc n)) h k = absurd (omega arith)
wire-Delivered (suc (suc r)) n h k = absurd (omega arith)

run-ring_sum_example :
    (run four_bytes ◌+◌ 2 0 (tensors 0) (wire (back 2 0 1))).chunks 1 ≡ ring_sum ◌+◌ 2 tensors 1 1
run-ring_sum_example =
    run-ring_sum four_bytes ◌+◌ 2 tensors wire (omega arith) wire-Delivered 0 1 (omega arith)
      (omega arith)

byte_by_byte : ℕ → Action (List ℕ) (List ℕ)
byte_by_byte n [] = (ok [], [])
byte_by_byte n (b ∷ bs) = (ok (b ∷ []), bs)

byte_by_byte-Stream : Stream byte_by_byte (λ s. s)
unfolding byte_by_byte
byte_by_byte-Stream = record { step = one_byte }
  where
    one_byte :
        (n : ℕ) (s : List ℕ)
        → 0 < n
        → 0 < length s
        → (b : ℕ) × (bs : List ℕ) × (s' : List ℕ) × (byte_by_byte n s ≡ (ok (b ∷ bs), s'))
          × (suc (length bs) ≤ n)
          × (s ≡ b ∷ bs ++ s')
    one_byte n [] h k = absurd (omega arith)
    one_byte n (b ∷ bs) h k = (b, [], bs, refl, omega arith, refl)

recv_msg-frame_example :
    (bytes : List ℕ) × (frame (5 ∷ 6 ∷ []) ≡ ok bytes)
    × (0 ∷ 0 ∷ 0 ∷ 2 ∷ 5 ∷ 6 ∷ 9 ∷ [] ≡ bytes ++ 9 ∷ []
        → (s' : List ℕ) × (recv_msg byte_by_byte (0 ∷ 0 ∷ 0 ∷ 2 ∷ 5 ∷ 6 ∷ 9 ∷ [])
            ≡ (ok (5 ∷ 6 ∷ []), s'))
          × (s' ≡ 9 ∷ []))
recv_msg-frame_example =
    recv_msg-frame byte_by_byte (λ s. s) (5 ∷ 6 ∷ []) (9 ∷ []) (0 ∷ 0 ∷ 0 ∷ 2 ∷ 5 ∷ 6 ∷ 9 ∷ [])
      byte_by_byte-Stream (omega arith)
