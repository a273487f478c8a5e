-- ===== src/Ring/Reduction.antt =====
-- What every rank holds after the two phases.
use native.Mathlib.Nat.{mod-eq_of_lt, mod-eq-sub-mod}
use infer_lab.Base.{
  ℕ, zero, suc, ◌+◌, ◌-◌, ◌%◌, ◌≤◌, ◌<◌, ◌≡◌, ◌≢◌, ◌⊎◌, inl, inr, refl, sym, ap, ap₂, ◌∙◌, Bool,
  leb, ltb, ◌==◌, Bool-cases, ==_iff, true, false, if◌then◌else◌, arith,
}
use infer_lab.Ring.{Node, back, update, scatter, gather, sent, run}
use infer_lab.Ring.Wire.{Delivered, ring_sum}

-- How many ranks `r` stands behind `i`.
abbrev dist : ℕ → ℕ → ℕ → ℕ
dist n i r = if leb i r then r - i else r + n - i

mod_wrap : (n x : ℕ) → x < n + n → x % n ≡ (if ltb x n then x else x - n)
mod_wrap n x h = elim (Bool-cases (ltb x n)) [
  | inl small ↦ rw small (mod-eq_of_lt (ground arith))
  | inr large ↦ rw large (mod-eq-sub-mod (ground arith) ∙ mod-eq_of_lt (ground arith))
]

back-eq : (n r k : ℕ) → r < n → 0 < k → k ≤ n → back n r k ≡ (if leb k r then r - k else r + n - k)
back-eq n r k h p q = ground (arith, mod_wrap n (r + n - k) (omega arith))

back_zero : (n r : ℕ) → r < n → back n r 0 ≡ r
back_zero n r h = ground (arith, mod_wrap n (r + n - 0) (omega arith))

back_bounds : (n r k : ℕ) → r < n → k < n → (back n r k < n) × (dist n (back n r k) r ≡ k)
back_bounds n r zero h q = ground (arith, back_zero n r h)
back_bounds n r (suc k) h q = ground (arith, back-eq n r (suc k) h (omega arith) (omega arith))

-- An index is reached by going back its distance.
back-dist : (n r k i : ℕ) → r < n → k < n → i < n → dist n i r ≡ k → back n r k ≡ i
back-dist n r zero i h q b e = ground (arith, back_zero n r h)
back-dist n r (suc k) i h q b e = ground (arith, back-eq n r (suc k) h (omega arith) (omega arith))

dist_bound : (n i r : ℕ) → i < n → r < n → dist n i r < n
dist_bound n i r h q = ground arith

forth-dist : (n i r : ℕ) → i < n → r < n → (i + dist n i r) % n ≡ r
forth-dist n i r h q = ground (arith, mod_wrap n (i + dist n i r) (ground arith))

-- One rank before is one further back.
dist-back :
    (n i r t : ℕ) → i < n → r < n → suc t < n → dist n i r ≡ suc t → dist n i (back n r 1) ≡ t
dist-back n i r t h q b e = ground (arith, back-eq n r 1 q (omega arith) (omega arith))

-- The index that the rank before sends in a round of phase 2.
next_sent :
    (n r t i : ℕ) → r < n → i < n → t < n - 1 → dist n i r ≡ t → (back n r 1 + n - t + 1) % n ≡ i
next_sent n r t i hr hi ht d =
    let p = back n r 1 in
    let e = back-eq n r 1 hr (omega arith) (omega arith) in
    let low = (back_bounds n r 1 hr (omega arith)).0 in
    elim (Bool-cases (leb t p)) [
      | inl le ↦
          (let fewer : p + n - t + 1 - n ≡ p + 1 - t = ground arith in
            mod-eq-sub-mod {n = p + n - t + 1} {m = n} (ground arith)
            ∙ ap (λ x. x % n) fewer
            ∙ ground (arith, mod_wrap n (p + 1 - t) (omega arith)))
      | inr gt ↦ ground (arith, mod_wrap n (p + n - t + 1) (ground arith))
    ]

dist_prev :
    (n r t i : ℕ)
    → r < n
    → i < n
    → t < n - 1
    → dist n i r ≡ t
    → (dist n i (back n r 1) < t) ⊎ (dist n i (back n r 1) ≡ n - 1)
dist_prev n r zero i hr hi ht d = inr (ground (arith, back-eq n r 1 hr (omega arith) (omega arith)))
dist_prev n r (suc t) i hr hi ht d = inl (omega (arith, dist-back n i r t hi hr (omega arith) d))

update_self {ℓ} : {A : Type ℓ} (f : ℕ → A) (i : ℕ) (v : A) → update f i v i ≡ v
update_self f i v = rw ((==_iff i i).1 refl) refl

update_ne {ℓ} : {A : Type ℓ} (f : ℕ → A) (i j : ℕ) (v : A) → i ≢ j → update f i v j ≡ f j
update_ne f i j v h = elim (Bool-cases (i == j)) [
  | inl same ↦ absurd (h ((==_iff i j).0 same))
  | inr other ↦ rw other refl
]

if_true {ℓ} : {A : Type ℓ} (b : Bool) (x y : A) → b ≡ true → (if b then x else y) ≡ x
if_true b x y e = rw e refl

if_false {ℓ} : {A : Type ℓ} (b : Bool) (x y : A) → b ≡ false → (if b then x else y) ≡ y
if_false b x y e = rw e refl

module _ {ℓ} {A : Type ℓ} (size : A → ℕ) (add : A → A → A) (n : ℕ) (tensors wire : ℕ → ℕ → A)
    (sends : Delivered size add n tensors wire) where
  abbrev after_scatter : ℕ → ℕ → Node A
  after_scatter r t = scatter size add n r (tensors r) (wire (back n r 1)) t

  abbrev after_gather : ℕ → ℕ → Node A
  after_gather r t = gather size add n r (tensors r) (wire (back n r 1)) t

  -- What rank `r` holds of chunk `i` after `t` rounds of phase 1.
  abbrev Partial : ℕ → ℕ → ℕ → Type ℓ
  Partial t r i =
      (dist n i r ≤ t → (after_scatter r t).chunks i ≡ ring_sum add n tensors i (dist n i r))
      × (t < dist n i r → (after_scatter r t).chunks i ≡ tensors r i)

  -- The message of a round of phase 1, once the sender's chunks are known.
  sent_scatter :
      (r t i : ℕ)
      → r < n
      → i < n
      → suc t < n
      → ((p j : ℕ) → p < n → j < n → Partial t p j)
      → dist n i r ≡ suc t
      → wire (back n r 1) t ≡ ring_sum add n tensors i t
  unfolding sent
  sent_scatter r t i hr hi ht known d =
      let p = back n r 1 in
      let hp = (back_bounds n r 1 hr (omega arith)).0 in
      let dp = dist-back n i r t hi hr ht d in
      sends p t hp (omega arith)
      ∙ if_true (ltb t (n - 1)) _ _ (ground arith)
      ∙ ap (after_scatter p t).chunks (back-dist n p t i hp (omega arith) hi dp)
      ∙ (known p i hp hi).0 (omega (arith, dp))
      ∙ ap (ring_sum add n tensors i) dp

  scatter-Partial : (t : ℕ) → t ≤ n - 1 → (r i : ℕ) → r < n → i < n → Partial t r i
  unfolding scatter ring_sum
  scatter-Partial zero h r i hr hi =
      let same : dist n i r ≤ 0 → r ≡ i = λ d. ground arith in
      (
        λ d.
            let none_behind : 0 ≡ dist n i r = omega arith in
            ap (λ p. tensors p i) (same d) ∙ ap (ring_sum add n tensors i) none_behind,
        λ d. refl,
      )
  scatter-Partial (suc t) h r i hr hi =
      let f = (after_scatter r t).chunks in
      let j = back n r (t + 1) in
      let known = scatter-Partial t (omega arith) in
      let dj = (back_bounds n r (t + 1) hr (omega arith)).1 in
      elim (Bool-cases (j == i)) [
        | inl hit ↦
            (let e = (==_iff j i).0 hit in
              let d : dist n i r ≡ suc t = ap (λ x. dist n x r) (sym e) ∙ dj ∙ omega arith in
              let own : f j ≡ tensors r i = ap f e ∙ (known r i hr hi).1 (omega (arith, d)) in
              let arrived = sent_scatter r t i hr hi (omega arith) known d in
              let here : (i + suc t) % n ≡ r =
                ap (λ k. (i + k) % n) (sym d) ∙ forth-dist n i r hi hr in
              (
                λ le.
                    ap (update f j (add (f j) (wire (back n r 1) t))) (sym e)
                    ∙ update_self f j (add (f j) (wire (back n r 1) t))
                    ∙ ap₂ add (own ∙ ap (λ p. tensors p i) (sym here)) arrived
                    ∙ ap (ring_sum add n tensors i) (sym d),
                λ lt. absurd (omega (arith, d)),
              ))
        | inr miss ↦
            (let ne : j ≢ i = λ e. cc ((==_iff j i).1 e) in
              let other : dist n i r ≢ t + 1 =
                λ d. ne (back-dist n r (t + 1) i hr (omega arith) hi d) in
              let kept = update_ne f j i (add (f j) (wire (back n r 1) t)) ne in
              (
                λ le. kept ∙ (known r i hr hi).0 (omega (arith, other)),
                λ lt. kept ∙ (known r i hr hi).1 (omega arith),
              ))
      ]

  -- Chunk `i` is complete at rank `r` after `t` rounds of phase 2.
  abbrev Complete : ℕ → ℕ → ℕ → Type ℓ
  Complete t r i =
      (dist n i r < t) ⊎ (dist n i r ≡ n - 1)
      → (after_gather r t).chunks i ≡ ring_sum add n tensors i (n - 1)

  -- The message of a round of phase 2.
  sent_gather :
      (r t i : ℕ)
      → r < n
      → i < n
      → t < n - 1
      → ((p j : ℕ) → p < n → j < n → Complete t p j)
      → dist n i r ≡ t
      → wire (back n r 1) (n - 1 + t) ≡ ring_sum add n tensors i (n - 1)
  unfolding sent
  sent_gather r t i hr hi ht known d =
      let p = back n r 1 in
      let hp = (back_bounds n r 1 hr (omega arith)).0 in
      let round : n - 1 + t - (n - 1) ≡ t = omega arith in
      sends p (n - 1 + t) hp (omega arith)
      ∙ if_false (ltb (n - 1 + t) (n - 1)) _ _ (ground arith)
      ∙ ap (λ k. (after_gather p k).chunks ((p + n - k + 1) % n)) round
      ∙ ap (after_gather p t).chunks (next_sent n r t i hr hi ht d)
      ∙ known p i hp hi (dist_prev n r t i hr hi ht d)

  gather-Complete : (t : ℕ) → t ≤ n - 1 → 1 < n → (r i : ℕ) → r < n → i < n → Complete t r i
  unfolding gather
  gather-Complete zero h two r i hr hi (inl low) = absurd (omega arith)
  gather-Complete zero h two r i hr hi (inr last) =
      (scatter-Partial (n - 1) (omega arith) r i hr hi).0 (omega (arith, last))
      ∙ ap (ring_sum add n tensors i) last
  gather-Complete (suc t) h two r i hr hi held =
      let f = (after_gather r t).chunks in
      let j = back n r t in
      let incoming = wire (back n r 1) (n - 1 + t) in
      let known = gather-Complete t (omega arith) two in
      elim (Bool-cases (j == i)) [
        | inl hit ↦
            (let e = (==_iff j i).0 hit in
              let d = ap (λ x. dist n x r) (sym e) ∙ (back_bounds n r t hr (omega arith)).1 in
              ap (update f j incoming) (sym e)
              ∙ update_self f j incoming
              ∙ sent_gather r t i hr hi (omega arith) known d)
        | inr miss ↦
            (let ne : j ≢ i = λ e. cc ((==_iff j i).1 e) in
              let other : dist n i r ≢ t = λ d. ne (back-dist n r t i hr (omega arith) hi d) in
              update_ne f j i incoming ne ∙ known r i hr hi (still t held other))
      ]
    where
      still : (t : ℕ) {d m : ℕ} → (d < suc t) ⊎ (d ≡ m) → d ≢ t → (d < t) ⊎ (d ≡ m)
      still t (inl lt) ne = inl (omega (arith, ne))
      still t (inr e) ne = inr e

-- Once each message has reached the next rank, every rank holds the same: of each chunk the sum
-- over all ranks, taken in the order of the ring from the chunk's own rank on. `add` need not
-- commute, and nothing is assumed about the order in which the ranks run.
pub run-ring_sum {ℓ} :
    {A : Type ℓ} (size : A → ℕ) (add : A → A → A) (n : ℕ) (tensors wire : ℕ → ℕ → A)
    → 1 < n
    → Delivered size add n tensors wire
    → (r i : ℕ) → r < n
    → i < n
    → (run size add n r (tensors r) (wire (back n r 1))).chunks i ≡ ring_sum add n tensors i (n - 1)
unfolding run
run-ring_sum size add n tensors wire two sends r i hr hi =
    gather-Complete size add n tensors wire sends (n - 1) (omega arith) two r i hr hi
      (settled (dist_bound n i r hi hr))
  where
    settled : {d m : ℕ} → d < m → (d < m - 1) ⊎ (d ≡ m - 1)
    settled {d} {m} h = elim (Bool-cases (ltb d (m - 1))) [
      | inl low ↦ inl (ground arith)
      | inr high ↦ inr (ground arith)
    ]
