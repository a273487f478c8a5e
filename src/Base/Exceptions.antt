-- ===== src/Base/Exceptions.antt =====
-- The exceptions that the Python code raises, as values, and methods that mutate an object and may
-- raise. What was written before a raise stays written, so the state comes back beside the error.
use mathlib.Core.Path.{◌≡◌, refl, ap, ◌∙◌}
use mathlib.Core.Bool.{Bool, true, false}
use infer_lab.Base.Tests.{if◌then◌else◌}

pub data Error : Type 0 where
  out_of_blocks value_error index_error assertion_error key_error runtime_error zero_division_error
        timeout_error ring_error struct_error :
      Error

pub data Result {ℓ} (A : Type ℓ) : Type ℓ where
  ok : A → Result A
  err : Error → Result A

-- The outcome of a call: what it returns or raises, and the state that it leaves.
abbrev pub Outcome {ℓ κ} : Type ℓ → Type κ → Type (ℓ ⊔ κ)
Outcome S A = Result A × S

abbrev pub Action {ℓ κ} : Type ℓ → Type κ → Type (ℓ ⊔ κ)
Action S A = S → Outcome S A

module _ {ℓ κ μ} {S : Type ℓ} {A : Type κ} {B : Type μ} where
  abbrev pub and_then : Outcome S A → (A → Action S B) → Outcome S B
  and_then (ok a, s) f = f a s
  and_then (err e, s) f = (err e, s)

  infixl 5 ◌>>=◌
  abbrev pub ◌>>=◌ : Action S A → (A → Action S B) → Action S B
  ◌>>=◌ m f s = and_then (m s) f

  infixl 5 ◌>>◌
  abbrev pub ◌>>◌ : Action S A → Action S B → Action S B
  m >> k = m >>= λ _. k

module _ {ℓ κ} {S : Type ℓ} {A : Type κ} where
  abbrev pub pure : A → Action S A
  pure a s = (ok a, s)

  abbrev pub raise : Error → Action S A
  raise e s = (err e, s)

-- The call returns, and what it returns and the state that it leaves satisfy `P`.
pub record Returns {ℓ κ μ} {S : Type ℓ} {A : Type κ} (P : A → S → Type μ) (o : Outcome S A)
    : Type (ℓ ⊔ κ ⊔ μ) where
  pub value : A
  pub state : S
  pub returns : o ≡ (ok value, state)
  pub holds : P value state

module _ {ℓ κ μ} {S : Type ℓ} {A : Type κ} (P : A → S → Type μ) where
  pub Returns-ok : (a : A) (s : S) → P a s → Returns P (ok a, s)
  Returns-ok a s h = record { value = a; state = s; returns = refl; holds = h }

  pub Returns-if :
      (b : Bool) (x y : Outcome S A)
      → (b ≡ true → Returns P x)
      → (b ≡ false → Returns P y)
      → Returns P (if b then x else y)
  Returns-if true x y h k = h refl
  Returns-if false x y h k = k refl

  pub Returns-eq : (o : Outcome S A) (a : A) (s : S) → o ≡ (ok a, s) → P a s → Returns P o
  Returns-eq o a s e h = record { value = a; state = s; returns = e; holds = h }

module _ {ℓ κ μ ν ρ} {S : Type ℓ} {A : Type κ} {B : Type μ} (P : A → S → Type ν)
    (Q : B → S → Type ρ) where
  pub Returns-and_then :
      (m : Outcome S A) (f : A → Action S B)
      → Returns P m
      → ((a : A) (s : S) → P a s → Returns Q (f a s))
      → Returns Q (and_then m f)
  Returns-and_then m f h k =
      let rest = k h.value h.state h.holds in
      record {
        value = rest.value;
        state = rest.state;
        returns = ap (λ o. and_then o f) h.returns ∙ rest.returns;
        holds = rest.holds;
      }
