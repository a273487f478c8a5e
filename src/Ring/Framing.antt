-- ===== src/Ring/Framing.antt =====
-- ring_allreduce.py: length-prefixed messages on a byte stream. Bytes are numbers; the socket is a
-- parameter, the call `recv` on a state of any type.
pub mod Delivery
use infer_lab.Base.{
  ℕ, zero, suc, ◌+◌, ◌-◌, ◌*◌, ◌/◌, ◌%◌, ◌^◌, List, [], ◌∷◌, ◌++◌, length, ltb, ◌==◌, if◌then◌else◌,
  Result, ok, err, Outcome, Action, and_then, ring_error, struct_error,
}

-- `_HEADER.pack(n)`: four bytes, the highest first; a length that does not fit is refused.
unfoldable pub pack_header : ℕ → Result (List ℕ)
pack_header n =
    if ltb n (2 ^ 32)
    then ok (n / 2 ^ 24 ∷ n / 2 ^ 16 % 256 ∷ n / 2 ^ 8 % 256 ∷ n % 256 ∷ [])
    else err struct_error

-- `_HEADER.unpack`, of exactly four bytes.
unfoldable pub unpack_header : List ℕ → Result ℕ
unpack_header (a ∷ b ∷ c ∷ d ∷ []) = ok (a * 2 ^ 24 + b * 2 ^ 16 + c * 2 ^ 8 + d)
unpack_header _ = err struct_error

abbrev pub with_payload : List ℕ → Result (List ℕ) → Result (List ℕ)
with_payload payload (ok header) = ok (header ++ payload)
with_payload payload (err e) = err e

-- The bytes that `send_msg` hands to `sendall`.
unfoldable pub frame : List ℕ → Result (List ℕ)
frame payload = with_payload payload (pack_header (length payload))

module _ {ℓ} {S : Type ℓ} (recv : ℕ → Action S (List ℕ)) where
  -- What follows a call of `recv`: a timeout is a RingError, and so is a connection that was closed.
  abbrev pub received :
      (ℕ → List ℕ → Action S (List ℕ)) → ℕ → List ℕ → Outcome S (List ℕ) → Outcome S (List ℕ)
  received next remaining chunks (err e, s) = (err ring_error, s)
  received next remaining chunks (ok [], s) = (err ring_error, s)
  received next remaining chunks (ok (b ∷ bs), s) =
      next (remaining - length (b ∷ bs)) (chunks ++ b ∷ bs) s

  -- The loop of `recv_exact`. A round takes at least a byte, so that `n` rounds are enough.
  unfoldable pub recv_loop : ℕ → ℕ → List ℕ → Action S (List ℕ)
  recv_loop zero remaining chunks s = (ok chunks, s)
  recv_loop (suc fuel) remaining chunks s =
      if remaining == 0
      then (ok chunks, s)
      else received (recv_loop fuel) remaining chunks (recv remaining s)

  unfoldable pub recv_exact : ℕ → Action S (List ℕ)
  recv_exact n s = recv_loop n n [] s

  abbrev pub recv_payload : Result ℕ → Action S (List ℕ)
  recv_payload (ok n) s = recv_exact n s
  recv_payload (err e) s = (err e, s)

  unfoldable pub recv_msg : Action S (List ℕ)
  recv_msg s = and_then (recv_exact 4 s) λ header t. recv_payload (unpack_header header) t
