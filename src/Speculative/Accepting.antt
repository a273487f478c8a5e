-- ===== src/Speculative/Accepting.antt =====
-- The tokens of a round: in the vocabulary, at least one, and no more than the output has room for.
use infer_lab.Base.{
  ℕ, ◌+◌, ◌≤◌, ◌<◌, ◌≡◌, refl, subst, List, [], ◌∷◌, ◌++◌, length, length-append, All, All-append,
  false, Bool-cases, inl, inr, leb, ◌==◌, arith, Result, ok, err,
}
use infer_lab.Speculative.{
  Accepted, accept, last_of, all_but_last, check_proposals, verify_rows, extend,
}
use infer_lab.Speculative.Verifying.{check_proposals-Checked}

abbrev pub InVocab : ℕ → List ℕ → Type 0
InVocab vocab tokens = All (λ t. t < vocab) tokens

pub last_of-All : (v : ℕ) (xs : List ℕ) → 0 < length xs → InVocab v xs → last_of xs < v
unfolding last_of
last_of-All v [] h a = absurd (omega arith)
last_of-All v (x ∷ []) h a = a.0
last_of-All v (x ∷ y ∷ xs) h a = last_of-All v (y ∷ xs) (omega arith) a.1

pub all_but_last-All :
    (v : ℕ) (xs : List ℕ)
    → InVocab v xs
    → InVocab v (all_but_last xs) × (length (all_but_last xs) ≤ length xs)
unfolding all_but_last
all_but_last-All v [] a = (tt, omega arith)
all_but_last-All v (x ∷ []) a = (tt, omega arith)
all_but_last-All v (x ∷ y ∷ xs) a =
    let (rest, len) = all_but_last-All v (y ∷ xs) a.1 in ((a.0, rest), omega (arith, len))

-- The tokens of a result that is not an exception are in the vocabulary.
abbrev AcceptedInVocab : ℕ → Result Accepted → Type 0
AcceptedInVocab v (ok a) = InVocab v a.tokens
AcceptedInVocab v (err e) = Unit {0}

accept-All :
    (v p : ℕ) (r : Result Accepted) → p < v → AcceptedInVocab v r → AcceptedInVocab v (accept p r)
accept-All v p (ok a) h k = (h, k)
accept-All v p (err e) h k = tt

check_proposals-All :
    (v : ℕ) (rows ps : List ℕ)
    → InVocab v rows
    → InVocab v ps
    → AcceptedInVocab v (check_proposals rows ps)
unfolding check_proposals
check_proposals-All v rows [] a b = tt
check_proposals-All v [] (p ∷ ps) a b = tt
check_proposals-All v (row ∷ rows) (p ∷ ps) a b =
    let rest = check_proposals-All v rows ps a.1 b.1 in
    elim (Bool-cases (row == p)) [
      | inl same ↦ rw same (accept-All v p (check_proposals rows ps) b.0 rest)
      | inr other ↦ rw other (a.0, tt)
    ]

pub window_le : (last : ℕ) (ps : List ℕ) → length ps ≤ length (last ∷ all_but_last ps)
unfolding all_but_last
window_le last [] = omega arith
window_le last (p ∷ []) = omega arith
window_le last (p ∷ q ∷ ps) = omega (arith, window_le last (q ∷ ps))

-- With a row for each proposal, at least one token comes out.
pub verify_rows_some :
    (v : ℕ) (rows ps : List ℕ)
    → length ps ≤ length rows
    → 0 < length rows
    → InVocab v rows
    → InVocab v ps
    → (a : Accepted) × (verify_rows rows ps ≡ ok a) × (0 < length a.tokens) × InVocab v a.tokens
unfolding verify_rows
verify_rows_some v rows ps h some_row in_rows in_ps =
    let (a, e, c) = check_proposals-Checked rows ps h in
    let fine : InVocab v a.tokens =
      subst (AcceptedInVocab v) e (check_proposals-All v rows ps in_rows in_ps) in
    elim (Bool-cases a.full) [
      | inl full ↦ (
        record a { tokens = a.tokens ++ last_of rows ∷ [] },
        rw (e, full) refl,
        omega (arith, length-append a.tokens (last_of rows ∷ [])),
        All-append (λ t. t < v) a.tokens (last_of rows ∷ []) fine
            (last_of-All v rows some_row in_rows, tt),
      )
      | inr stop ↦ (a, rw (e, stop) refl, omega (arith, c.mismatch stop), fine)
    ]

pub extend-All :
    (v n : ℕ) (ts : List ℕ) (o : List ℕ × ℕ)
    → InVocab v ts
    → InVocab v o.0
    → InVocab v (extend n ts o).0
      × ((extend n ts o).1 + length o.0 ≡ o.1 + length (extend n ts o).0)
unfolding extend
extend-All v n [] o a b = (b, refl)
extend-All v n (t ∷ ts) o a b = elim (Bool-cases (leb n (length o.0))) [
  | inl full ↦ rw full (b, refl)
  | inr more ↦
      (let (rest, pos) =
          extend-All v n ts (o.0 ++ t ∷ [], o.1 + 1) a.1
            (All-append (λ t. t < v) o.0 (t ∷ []) b (a.0, tt)) in
        rw more (rest, omega (arith, pos, length-append o.0 (t ∷ []))))
]

pub extend_bound :
    (n : ℕ) (ts : List ℕ) (o : List ℕ × ℕ)
    → (length o.0 ≤ length (extend n ts o).0) × (length o.0 ≤ n → length (extend n ts o).0 ≤ n)
unfolding extend
extend_bound n [] o = (omega arith, λ h. h)
extend_bound n (t ∷ ts) o = elim (Bool-cases (leb n (length o.0))) [
  | inl full ↦ rw full (omega arith, λ h. h)
  | inr more ↦
      (let (grown, low) = extend_bound n ts (o.0 ++ t ∷ [], o.1 + 1) in
        let len = length-append o.0 (t ∷ []) in
        rw more (omega (arith, grown, len), λ h. low (ground (arith, len))))
]

pub extend_some :
    (n : ℕ) (ts : List ℕ) (o : List ℕ × ℕ)
    → length o.0 < n
    → 0 < length ts
    → length o.0 < length (extend n ts o).0
unfolding extend
extend_some n [] o h p = absurd (omega arith)
extend_some n (t ∷ ts) o h p =
    let more : leb n (length o.0) ≡ false = ground arith in
    rw more
      (omega (arith, (extend_bound n ts (o.0 ++ t ∷ [], o.1 + 1)).0, length-append o.0 (t ∷ [])))
