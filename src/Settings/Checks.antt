-- ===== src/Settings/Checks.antt =====
-- What a configuration that passes its checks is.
use Prim.Native.Nat.{digits, bit_and, bit_and-bitwise}
use native.Mathlib.Nat.{pow-suc}
use infer_lab.Base.{
  ℕ, zero, suc, ◌+◌, ◌-◌, ◌*◌, ◌/◌, ◌%◌, ◌^◌, ◌==◌, ◌≤◌, ◌<◌, ◌≡◌, ◌↔◌, inl, inr, refl, sym, ap,
  ◌∙◌, min, Bool-cases, true, false, Result, ok, err, value_error, arith,
}
use infer_lab.Settings.{
  ModelConfig, if_remainder, check_model, head_dim, kv_group_size, PreemptionMode, is_mode,
  check_engine,
}

abbrev pub both_digits : ℕ → ℕ → ℕ → ℕ
both_digits n a b = digits (λ b. zero) min n a b

-- More digits than the first number has make no difference.
both_digits-enough : (n a b : ℕ) → a ≤ n → both_digits (suc n) a b ≡ both_digits n a b
both_digits-enough zero zero b h = refl
both_digits-enough zero (suc a) b h = absurd (omega arith)
both_digits-enough (suc n) zero b h = refl
both_digits-enough (suc n) (suc a) b h =
    ap (λ r. r * 2 + min (suc a % 2) (b % 2))
      (both_digits-enough n (suc a / 2) (b / 2) (omega arith))

both_digits-exact : (d a b : ℕ) → both_digits (a + d) a b ≡ both_digits a a b
both_digits-exact zero a b = ap (λ n. both_digits n a b) (omega arith)
both_digits-exact (suc d) a b =
    let more : a + suc d ≡ suc (a + d) = omega arith in
    ap (λ n. both_digits n a b) more
    ∙ both_digits-enough (a + d) a b (omega arith)
    ∙ both_digits-exact d a b

-- The lowest digit.
bit_and-digit :
    (a b : ℕ) → bit_and (suc a) b ≡ bit_and (suc a / 2) (b / 2) * 2 + min (suc a % 2) (b % 2)
bit_and-digit a b =
    let half = suc a / 2 in
    let rest : half + (a - half) ≡ a = omega arith in
    let trimmed : both_digits a half (b / 2) ≡ both_digits half half (b / 2) =
      ap (λ n. both_digits n half (b / 2)) (sym rest) ∙ both_digits-exact (a - half) half (b / 2) in
    simp bit_and-bitwise (ap (λ r. r * 2 + min (suc a % 2) (b % 2)) trimmed)

abbrev pub IsPowerOfTwo : ℕ → Type 0
IsPowerOfTwo n = (k : ℕ) × (n ≡ 2 ^ k)

bit_and_same : (fuel m : ℕ) → m ≤ fuel → bit_and m m ≡ m
bit_and_same fuel zero h = refl
bit_and_same zero (suc m) h = absurd (omega arith)
bit_and_same (suc fuel) (suc m) h =
    let half = bit_and_same fuel (suc m / 2) (omega arith) in
    omega (arith, bit_and-digit m (suc m), half)

two_powers : (k : ℕ) → 0 < 2 ^ k
two_powers zero = omega arith
two_powers (suc k) = omega (arith, two_powers k, pow-suc 2 k)

-- Twice a number, or an odd number, as a power of two.
double-IsPowerOfTwo : (n m : ℕ) → n ≡ 2 * m → 0 < m → IsPowerOfTwo n ↔ IsPowerOfTwo m
double-IsPowerOfTwo n m e h =
    ((λ q. halve q.0 q.1), λ q. let (k, f) = q in (suc k, omega (arith, e, f, pow-suc 2 k)))
  where
    halve : (k : ℕ) → n ≡ 2 ^ k → IsPowerOfTwo m
    halve zero f = absurd (omega (arith, f, e, h))
    halve (suc k) f = (k, omega (arith, f, e, pow-suc 2 k))

odd-IsPowerOfTwo : (n m : ℕ) → n ≡ 2 * m + 1 → IsPowerOfTwo n ↔ (m ≡ 0)
odd-IsPowerOfTwo n m e = ((λ q. small q.0 q.1), λ z. (0, omega (arith, e, z)))
  where
    small : (k : ℕ) → n ≡ 2 ^ k → m ≡ 0
    small zero f = omega (arith, f, e)
    small (suc k) f = absurd (omega (arith, f, e, pow-suc 2 k))

mask-IsPowerOfTwo : (fuel a : ℕ) → a < fuel → (bit_and (suc a) a ≡ 0) ↔ IsPowerOfTwo (suc a)
mask-IsPowerOfTwo zero a h = absurd (omega arith)
mask-IsPowerOfTwo (suc fuel) a h = elim (Bool-cases (a % 2 == 0)) [
  | inl even ↦
      (let m = a / 2 in
        let digit = bit_and-digit a a in
        let here : suc a / 2 ≡ m = ground arith in
        let same = ap (λ i. bit_and i m) here ∙ bit_and_same m m (omega arith) in
        let (to, back) = odd-IsPowerOfTwo (suc a) m (ground arith) in
        ((λ z. back (ground (arith, digit, same, z))), λ q. ground (arith, digit, same, to q)))
  | inr odd ↦
      (let m = a / 2 in
        let digit = bit_and-digit a a in
        let here : suc a / 2 ≡ suc m = ground arith in
        let same = ap (λ i. bit_and i m) here in
        let (to, back) = mask-IsPowerOfTwo fuel m (ground arith) in
        let (down, up) = double-IsPowerOfTwo (suc a) (suc m) (ground arith) (omega arith) in
        (
          (λ z. up (to (ground (arith, digit, same, z)))),
          λ q. (let none = back (down q) in ground (arith, digit, same, none)),
        ))
]

-- With a known preemption mode, `EngineConfig` takes a block size exactly if it is a power of two.
pub check_engine-IsPowerOfTwo :
    (mode : PreemptionMode) (block_size : ℕ)
    → is_mode mode ≡ true
    → (check_engine mode block_size ≡ ok tt) ↔ IsPowerOfTwo block_size
unfolding check_engine
check_engine-IsPowerOfTwo mode zero known =
    ((λ h. let h' = rw known at h in cc), λ q. absurd (omega (arith, q.1, two_powers q.0)))
check_engine-IsPowerOfTwo mode (suc a) known =
    let (to, back) = mask-IsPowerOfTwo (suc a) a (omega arith) in
    ((λ h. to (accepted h)), λ q. taken (back q))
  where
    positive : (suc a == 0) ≡ false
    positive = ground arith

    pred : suc a - 1 ≡ a
    pred = omega arith

    accepted : check_engine mode (suc a) ≡ ok tt → bit_and (suc a) a ≡ 0
    accepted h = elim (Bool-cases (bit_and (suc a) a == 0)) [
      | inl zeroed ↦ ground arith
      | inr rest ↦
          (let no : check_engine mode (suc a) ≡ err value_error =
              rw (known, positive, pred, rest) refl in
            let clash = sym no ∙ h in cc)
    ]

    taken : bit_and (suc a) a ≡ 0 → check_engine mode (suc a) ≡ ok tt
    taken z =
        let hit : (bit_and (suc a) a == 0) ≡ true = ground arith in
        rw (known, positive, pred, hit) refl

pub remainder-passes :
    (a b : ℕ) (next : Result (Unit {0}))
    → if_remainder a b next ≡ ok tt
    → (0 < b) × (a % b ≡ 0) × (next ≡ ok tt)
remainder-passes a b next h = elim (Bool-cases (b == 0)) [
  | inl none ↦ (let h' = rw none at h in cc)
  | inr some_heads ↦ elim (Bool-cases (a % b == 0)) [
    | inl exact ↦ (ground arith, ground arith, rw (some_heads, exact) at h)
    | inr rest ↦ (let h' = rw (some_heads, rest) at h in cc)
  ]
]

pub whole : (a b : ℕ) → 0 < b → a % b ≡ 0 → a / b * b ≡ a
whole a b h e = omega (arith, e)

-- A model's configuration that passes is divided into whole heads, and its heads into whole groups.
pub check_model-Divides :
    (c : ModelConfig)
    → check_model c ≡ ok tt
    → (head_dim c * c.num_heads ≡ c.hidden_size)
      × (kv_group_size c * c.num_kv_heads ≡ c.num_heads)
      × (0 < c.num_heads)
      × (0 < c.num_kv_heads)
unfolding check_model
check_model-Divides c h =
    let (heads, exact, more) = remainder-passes c.hidden_size c.num_heads _ h in
    let (groups, exact', _) = remainder-passes c.num_heads c.num_kv_heads _ more in
    (
      whole c.hidden_size c.num_heads heads exact,
      whole c.num_heads c.num_kv_heads groups exact',
      heads,
      groups,
    )
