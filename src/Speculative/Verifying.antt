-- ===== src/Speculative/Verifying.antt =====
-- `_verify`: which tokens it accepts.
use infer_lab.Base.{
  ℕ, suc, ◌≤◌, ◌<◌, ◌≡◌, ◌≢◌, refl, sym, ap, ap₂, ◌∙◌, get_elem?, some_injective, List, [], ◌∷◌,
  ◌++◌, length, take, true, false, Bool-cases, inl, inr, ◌==◌, ==_iff, ==_refl, arith, ok,
}
use infer_lab.Speculative.{Accepted, check_proposals, verify_rows, last_of}

-- The tokens are the target's own, and the first `count` of them the proposals. Either all
-- proposals were accepted, or the target's choice differs from the first proposal that was not, and
-- follows the others.
pub record Checked (rows proposals : List ℕ) (a : Accepted) : Type 0 where
  pub from_target : a.tokens ≡ take (length a.tokens) rows
  pub proposed : take a.count a.tokens ≡ take a.count proposals
  pub mismatch : a.full ≡ false → length a.tokens ≡ suc a.count
  pub few : a.count ≤ length proposals
  pub matched : a.full ≡ true → a.tokens ≡ proposals
  pub whole : a.full ≡ true → a.count ≡ length proposals
  pub stopped : a.full ≡ false → a.count < length proposals
  pub corrected : a.full ≡ false → get_elem? rows a.count ≢ get_elem? proposals a.count

Checked-cons :
    (row p : ℕ) (rows ps : List ℕ) (a : Accepted)
    → row ≡ p
    → Checked rows ps a
    → Checked
        (row ∷ rows)
        (p ∷ ps)
        (record { tokens = p ∷ a.tokens; count = suc a.count; full = a.full })
Checked-cons row p rows ps a e c = record {
  from_target = ap₂ (λ (x : ℕ) (xs : List ℕ). x ∷ xs) (sym e) c.from_target;
  proposed = ap (λ (xs : List ℕ). p ∷ xs) c.proposed;
  mismatch = λ f. ap suc (c.mismatch f);
  few = omega (arith, c.few);
  matched = λ f. ap (λ (xs : List ℕ). p ∷ xs) (c.matched f);
  whole = λ f. ap suc (c.whole f);
  stopped = λ f. omega (arith, c.stopped f);
  corrected = c.corrected;
}

-- With a row for each proposal the loop of `_verify` raises nothing; every token that it accepts is
-- the target's greedy choice. Either all proposals are accepted, or those before the first that is
-- not the target's choice, which the target's choice then replaces as the last token.
pub check_proposals-Checked :
    (rows proposals : List ℕ)
    → length proposals ≤ length rows
    → (a : Accepted) × (check_proposals rows proposals ≡ ok a) × Checked rows proposals a
unfolding check_proposals
check_proposals-Checked rows [] h = (
  record { tokens = []; count = 0; full = true },
  refl,
  record {
    from_target = refl;
    proposed = refl;
    mismatch = λ e. cc;
    few = omega arith;
    matched = λ _. refl;
    whole = λ _. refl;
    stopped = λ e. cc;
    corrected = λ e. cc;
  },
)
check_proposals-Checked [] (p ∷ ps) h = absurd (omega arith)
check_proposals-Checked (row ∷ rows) (p ∷ ps) h = elim (Bool-cases (row == p)) [
  | inl same ↦
      (let (a, e, c) = check_proposals-Checked rows ps (omega arith) in
        (
          record { tokens = p ∷ a.tokens; count = suc a.count; full = a.full },
          rw (same, e) refl,
          Checked-cons row p rows ps a ((==_iff row p).0 same) c,
        ))
  | inr other ↦ (
    record { tokens = row ∷ []; count = 0; full = false },
    rw other refl,
    record {
      from_target = refl;
      proposed = refl;
      mismatch = λ _. refl;
      few = omega arith;
      matched = λ e. cc;
      whole = λ e. cc;
      stopped = λ _. omega arith;
      corrected = λ _ e.
          (let same = some_injective e in
            let hit = (==_iff row p).1 same in let clash = sym hit ∙ other in cc);
    },
  )
]

check_proposals_full :
    (rows : List ℕ)
    → check_proposals rows rows ≡ ok (record { tokens = rows; count = length rows; full = true })
unfolding check_proposals
check_proposals_full [] = refl
check_proposals_full (row ∷ rows) = rw (==_refl, check_proposals_full rows) refl

last_of_snoc : (xs : List ℕ) (x : ℕ) → last_of (xs ++ x ∷ []) ≡ x
unfolding last_of
last_of_snoc [] x = refl
last_of_snoc (y ∷ []) x = refl
last_of_snoc (y ∷ z ∷ xs) x = last_of_snoc (z ∷ xs) x

-- When every proposal is the target's greedy choice, the token after them is not the target's next
-- choice: it is read from the row of the last proposal, so that this proposal is returned twice.
pub verify_rows_repeats :
    (rows : List ℕ) (row : ℕ)
    → verify_rows (rows ++ row ∷ []) (rows ++ row ∷ [])
      ≡ ok (record {
        tokens = (rows ++ row ∷ []) ++ row ∷ [];
        count = length (rows ++ row ∷ []);
        full = true;
      })
unfolding verify_rows
verify_rows_repeats rows row =
    rw (check_proposals_full (rows ++ row ∷ []), last_of_snoc rows row) refl
