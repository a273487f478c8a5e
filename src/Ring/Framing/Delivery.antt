-- ===== src/Ring/Framing/Delivery.antt =====
-- A message arrives whole, however the stream is cut.
use infer_lab.Base.{
  ℕ, zero, suc, ◌+◌, ◌-◌, ◌*◌, ◌/◌, ◌%◌, ◌^◌, ◌≤◌, ◌<◌, ◌≡◌, refl, sym, ap, ◌∙◌, List, [], ◌∷◌,
  ◌++◌, append_assoc, append-nil, length, length-append, lt→ltb, ◌==◌, if◌then◌else◌, false, ok,
  Action, and_then, arith,
}
use infer_lab.Ring.Framing.{
  pack_header, unpack_header, frame, with_payload, received, recv_loop, recv_exact, recv_msg,
  recv_payload,
}

-- `unread` is what the peer has sent and nobody has read. A call of `recv` for `n` bytes hands over
-- from the front at least one and at most `n` of them, if there are any; no call times out.
pub record Stream {ℓ} {S : Type ℓ} (recv : ℕ → Action S (List ℕ)) (unread : S → List ℕ)
    : Type ℓ where
  pub step :
      (n : ℕ) (s : S)
      → 0 < n
      → 0 < length (unread s)
      → (b : ℕ) × (bs : List ℕ) × (s' : S) × (recv n s ≡ (ok (b ∷ bs), s'))
        × (suc (length bs) ≤ n)
        × (unread s ≡ b ∷ bs ++ unread s')

tail_injective : {x y : ℕ} {xs ys : List ℕ} → x ∷ xs ≡ y ∷ ys → (x ≡ y) × (xs ≡ ys)
tail_injective e = (cc, cc)

-- A short prefix of `xs ++ rest` is one of `xs`.
split_prefix :
    (front us xs rest : List ℕ)
    → xs ++ rest ≡ front ++ us
    → length front ≤ length xs
    → (ys : List ℕ) × (xs ≡ front ++ ys) × (us ≡ ys ++ rest)
split_prefix [] us xs rest e h = (xs, refl, sym e)
split_prefix (a ∷ front) us [] rest e h = absurd (omega arith)
split_prefix (a ∷ front) us (x ∷ xs) rest e h =
    let (same, tails) = tail_injective e in
    let (ys, p, q) = split_prefix front us xs rest tails (omega arith) in (ys, cc, q)

module _ {ℓ} {S : Type ℓ} (recv : ℕ → Action S (List ℕ)) (unread : S → List ℕ)
    (stream : Stream recv unread) where
  -- The loop hands over the next bytes `xs` of the stream.
  recv_loop-append :
      (fuel : ℕ) (xs chunks rest : List ℕ) (s : S)
      → length xs ≤ fuel
      → unread s ≡ xs ++ rest
      → (s' : S) × (recv_loop recv fuel (length xs) chunks s ≡ (ok (chunks ++ xs), s'))
        × (unread s' ≡ rest)
  unfolding recv_loop
  recv_loop-append zero [] chunks rest s h e = (s, rw append-nil refl, e)
  recv_loop-append zero (x ∷ xs) chunks rest s h e = absurd (omega arith)
  recv_loop-append (suc fuel) [] chunks rest s h e = (s, rw append-nil refl, e)
  recv_loop-append (suc fuel) (x ∷ xs) chunks rest s h e =
      let (b, bs, t, got, few, front) =
        stream.step (length (x ∷ xs)) s (omega arith) (omega (arith, ap (length {A = ℕ}) e)) in
      let (ys, whole, left) = split_prefix (b ∷ bs) (unread t) (x ∷ xs) rest (sym e ∙ front) few in
      let count : length (x ∷ xs) - length (b ∷ bs) ≡ length ys =
        omega (arith, ap (length {A = ℕ}) whole, length-append (b ∷ bs) ys) in
      let (u, run, end) =
        recv_loop-append fuel ys (chunks ++ b ∷ bs) rest t
          (omega (arith, ap (length {A = ℕ}) whole, length-append (b ∷ bs) ys)) left in
      let more : (length (x ∷ xs) == 0) ≡ false = ground arith in
      let joined : (chunks ++ b ∷ bs) ++ ys ≡ chunks ++ x ∷ xs =
        append_assoc chunks (b ∷ bs) ys ∙ ap (λ (zs : List ℕ). chunks ++ zs) (sym whole) in
      (
        u,
        ap
              (λ b.
                if b
                then (ok chunks, s)
                else received recv (recv_loop recv fuel) (length (x ∷ xs)) chunks
                    (recv (length (x ∷ xs)) s))
              more
            ∙ ap (received recv (recv_loop recv fuel) (length (x ∷ xs)) chunks) got
            ∙ ap (λ k. recv_loop recv fuel k (chunks ++ b ∷ bs) t) count
            ∙ run
            ∙ ap (λ (zs : List ℕ). (ok zs, u)) joined,
        end,
      )

  recv_exact-append :
      (xs rest : List ℕ) (s : S)
      → unread s ≡ xs ++ rest
      → (s' : S) × (recv_exact recv (length xs) s ≡ (ok xs, s')) × (unread s' ≡ rest)
  unfolding recv_exact
  recv_exact-append xs rest s e = recv_loop-append (length xs) xs [] rest s (omega arith) e

quotients :
    (n : ℕ)
    → n / 2 ^ 24 * 2 ^ 24 + n / 2 ^ 16 % 256 * 2 ^ 16 + n / 2 ^ 8 % 256 * 2 ^ 8 + n % 256 ≡ n
quotients n = omega arith

unpack_header-pack_header :
    (n : ℕ)
    → n < 2 ^ 32
    → (header : List ℕ) × (pack_header n ≡ ok header)
      × (length header ≡ 4)
      × (unpack_header header ≡ ok n)
unfolding pack_header unpack_header
unpack_header-pack_header n h = (
  n / 2 ^ 24 ∷ n / 2 ^ 16 % 256 ∷ n / 2 ^ 8 % 256 ∷ n % 256 ∷ [],
  rw (lt→ltb n (2 ^ 32) h) refl,
  refl,
  ap ok (quotients n),
)

-- A message of fewer than 2 ^ 32 bytes that `send_msg` has put in front of `rest` on a stream comes
-- out of `recv_msg` whole, however the stream is cut into reads, and `rest` is left; nothing is
-- raised.
pub recv_msg-frame {ℓ} :
    {S : Type ℓ} (recv : ℕ → Action S (List ℕ)) (unread : S → List ℕ) (payload rest : List ℕ)
    (s : S)
    → Stream recv unread
    → length payload < 2 ^ 32
    → (bytes : List ℕ) × (frame payload ≡ ok bytes)
      × (unread s ≡ bytes ++ rest
          → (s' : S) × (recv_msg recv s ≡ (ok payload, s')) × (unread s' ≡ rest))
unfolding frame recv_msg
recv_msg-frame recv unread payload rest s stream h =
    let (header, packed, four, unpacked) = unpack_header-pack_header (length payload) h in
    (
      header ++ payload,
      ap (with_payload payload) packed,
      λ e.
          let (t, first, left) =
            recv_exact-append recv unread stream header (payload ++ rest) s
              (e ∙ append_assoc header payload rest) in
          let (u, second, end) = recv_exact-append recv unread stream payload rest t left in
          (
            u,
            ap
                  (λ k.
                    and_then (recv_exact recv k s) (λ hd t. recv_payload recv (unpack_header hd) t))
                  (sym four)
                ∙ ap (λ o. and_then o (λ hd t. recv_payload recv (unpack_header hd) t)) first
                ∙ ap (λ n. recv_payload recv n t) unpacked
                ∙ second,
            end,
          ),
    )
