-- ===== src/Model/Dense.antt =====
-- The network without a cache, one position at a time, and the rows that a cache holds of it.
use infer_lab.Base.{
  ℕ, zero, suc, ◌+◌, ◌≤◌, ◌<◌, ◌≡◌, refl, ap, ap₂, ◌∙◌, ◌∷◌, length, map, get_or, true, arith, ok,
}
use infer_lab.Paged.Pools.{rows_from}
use infer_lab.Paged.Pools.Gathering.{take-rows_from}
use infer_lab.Model.{Network, all_below, project, attend_rows, last_logits}

pub length-rows_from {ℓ} : {V : Type ℓ} (start n : ℕ) (f : ℕ → V) → length (rows_from start n f) ≡ n
length-rows_from start zero f = refl
length-rows_from start (suc n) f = ap suc (length-rows_from (suc start) n f)

pub get_or-rows_from_at {ℓ} :
    {V : Type ℓ} (start n j : ℕ) (f : ℕ → V) (d : V)
    → j < n
    → get_or (rows_from start n f) j d ≡ f (start + j)
get_or-rows_from_at start zero j f d h = absurd (omega arith)
get_or-rows_from_at start (suc n) zero f d h = ap f (omega arith)
get_or-rows_from_at start (suc n) (suc j) f d h =
    let next : suc start + j ≡ start + suc j = omega arith in
    get_or-rows_from_at (suc start) n j f d (omega arith) ∙ ap f next

pub project-rows_from {ℓ} :
    {X V : Type ℓ} (f : ℕ → X → V) (start n : ℕ) (x : ℕ → X)
    → project f start (rows_from start n x) ≡ rows_from start n (λ p. f p (x p))
unfolding project
project-rows_from f start zero x = refl
project-rows_from f start (suc n) x =
    ap (λ vs. f start (x start) ∷ vs) (project-rows_from f (suc start) n x)

pub map-rows_from {ℓ} :
    {X : Type ℓ} (f : ℕ → X) (start n : ℕ) (token : ℕ → ℕ)
    → map f (rows_from start n token) ≡ rows_from start n (λ p. f (token p))
map-rows_from f start zero token = refl
map-rows_from f start (suc n) token =
    ap (λ xs. f (token start) ∷ xs) (map-rows_from f (suc start) n token)

pub all_below-rows_from :
    (b start n : ℕ) (token : ℕ → ℕ)
    → ((p : ℕ) → start ≤ p → p < start + n → token p < b)
    → all_below b (rows_from start n token) ≡ true
all_below-rows_from b start zero token h = refl
all_below-rows_from b start (suc n) token h = ground (
  arith,
  h start (omega arith) (omega arith),
  all_below-rows_from b (suc start) n token (λ p lo hi. h p (omega arith) (omega arith)),
)

module _ {ℓ} {X V L : Type ℓ} (net : Network X V L) (token : ℕ → ℕ) where
  -- The hidden state of position `p` before a layer: every earlier position is computed with it.
  unfoldable pub hidden : ℕ → ℕ → X
  hidden zero p = net.embed (token p)
  hidden (suc layer) p =
      net.attend layer p (hidden layer p)
        (rows_from 0 (suc p) (λ q. net.key layer q (hidden layer q)))
        (rows_from 0 (suc p) (λ q. net.value layer q (hidden layer q)))

  abbrev pub key_at : ℕ → ℕ → V
  key_at layer p = net.key layer p (hidden layer p)

  abbrev pub value_at : ℕ → ℕ → V
  value_at layer p = net.value layer p (hidden layer p)

  -- The logits that predict the token after position `p`.
  abbrev pub dense_logits : ℕ → L
  dense_logits p = net.to_logits (hidden net.num_layers p)

  pub attend_rows-hidden :
      (layer start n total : ℕ) (bs : ℕ)
      → start + n ≤ total
      → attend_rows net bs layer start
          (rows_from 0 total (key_at layer))
          (rows_from 0 total (value_at layer))
          (rows_from start n (hidden layer))
        ≡ rows_from start n (hidden (suc layer))
  unfolding attend_rows hidden
  attend_rows-hidden layer start zero total bs h = refl
  attend_rows-hidden layer start (suc n) total bs h =
      ap₂ (λ x xs. x ∷ xs)
        (ap₂ (λ ks vs. net.attend layer start (hidden layer start) ks vs)
          (take-rows_from (suc start) total 0 (key_at layer) (omega arith))
          (take-rows_from (suc start) total 0 (value_at layer) (omega arith)))
        (attend_rows-hidden layer (suc start) n total bs (omega arith))

  pub last_logits-hidden :
      (bs start n layer : ℕ)
      → last_logits net bs (rows_from start (suc n) (hidden layer))
        ≡ ok (net.to_logits (hidden layer (start + n)))
  unfolding last_logits
  last_logits-hidden bs start zero layer =
      let here : start ≡ start + 0 = omega arith in
      ap (λ p. ok (net.to_logits (hidden layer p))) here
  last_logits-hidden bs start (suc n) layer =
      let next : suc start + n ≡ start + suc n = omega arith in
      last_logits-hidden bs (suc start) n layer ∙ ap (λ p. ok (net.to_logits (hidden layer p))) next
