-- ===== src/Paged/Pools/Cells.antt =====
-- Where a token's row stands, and the table as a list of references.
use infer_lab.Base.{
  ℕ, zero, suc, ◌+◌, ◌*◌, ◌/◌, ◌%◌, ◌<◌, ◌≡◌, ◌≢◌, refl, ap, List, [], ◌∷◌, length, count, set,
  get_or, get_elem?, some, arith,
}
use native.Mathlib.Nat.{div-lt_iff_lt-mul}
use infer_lab.Paged.Pools.{Pool}

-- The row of token `t` in a layer of a pool.
abbrev pub cell {ℓ} : {V : Type ℓ} → ℕ → List ℕ → Pool V → ℕ → ℕ → V
cell bs table pool layer t = pool layer (get_or table (t / bs) 0) (t % bs)

abbrev pub remove_at : ℕ → List ℕ → List ℕ
remove_at i [] = []
remove_at zero (x ∷ xs) = xs
remove_at (suc i) (x ∷ xs) = x ∷ remove_at i xs

pub get_elem?-eq-get_or :
    (xs : List ℕ) (i : ℕ) → i < length xs → get_elem? xs i ≡ some (get_or xs i 0)
get_elem?-eq-get_or [] i h = absurd (omega arith)
get_elem?-eq-get_or (x ∷ xs) zero h = refl
get_elem?-eq-get_or (x ∷ xs) (suc i) h = get_elem?-eq-get_or xs i (omega arith)

pub count-remove_at :
    (b : ℕ) (xs : List ℕ) (i : ℕ)
    → i < length xs
    → count b xs ≡ count b (get_or xs i 0 ∷ remove_at i xs)
count-remove_at b [] i h = absurd (omega arith)
count-remove_at b (x ∷ xs) zero h = refl
count-remove_at b (x ∷ xs) (suc i) h = ground (arith, count-remove_at b xs i (omega arith))

pub count-set :
    (b : ℕ) (xs : List ℕ) (i v : ℕ)
    → i < length xs
    → count b (set xs i v) ≡ count b (v ∷ remove_at i xs)
count-set b [] i v h = absurd (omega arith)
count-set b (x ∷ xs) zero v h = refl
count-set b (x ∷ xs) (suc i) v h = ground (arith, count-set b xs i v (omega arith))

pub count_of_get : (xs : List ℕ) (j : ℕ) → j < length xs → 0 < count (get_or xs j 0) xs
count_of_get [] j h = absurd (omega arith)
count_of_get (x ∷ xs) zero h = ground arith
count_of_get (x ∷ xs) (suc j) h = ground (arith, count_of_get xs j (omega arith))

-- Another place of the table still holds its block.
pub count_of_other :
    (xs : List ℕ) (i j : ℕ) → i ≢ j → j < length xs → 0 < count (get_or xs j 0) (remove_at i xs)
count_of_other [] i j ne h = absurd (omega arith)
count_of_other (x ∷ xs) zero zero ne h = absurd (ne refl)
count_of_other (x ∷ xs) zero (suc j) ne h = count_of_get xs j (omega arith)
count_of_other (x ∷ xs) (suc i) zero ne h = ground arith
count_of_other (x ∷ xs) (suc i) (suc j) ne h =
    ground (arith, count_of_other xs i j (λ e. ne (ap suc e)) (omega arith))

pub index-lt : (bs t n : ℕ) → 0 < bs → t < n * bs → t / bs < n
index-lt bs t n h lt = (div-lt_iff_lt-mul h).1 lt

-- Tokens of one block differ in their slots.
pub same_block : (bs t pos : ℕ) → 0 < bs → t / bs ≡ pos / bs → t + pos % bs ≡ pos + t % bs
same_block bs t pos h e = omega (arith, ap (λ x. x * bs) e)
