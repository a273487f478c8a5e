-- ===== src/Base/Counting.antt =====
-- How often a number occurs in a list: the multiset view of a list.
use Prim.Native.Nat.{ℕ, zero, suc, ◌+◌, ◌≤◌, ◌<◌}
use mathlib.Core.Path.{◌≡◌, refl}
use mathlib.Core.List.{List, [], ◌∷◌, ◌++◌}
use native.Mathlib.Omega.{arith}
use infer_lab.Base.Tests.{ltb, leb, ◌==◌, if◌then◌else◌}
use infer_lab.Base.Lists.{length, take, drop, set, get_or, replicate}
use mathlib.Core.Bool.{◌&&◌}

abbrev pub count : ℕ → List ℕ → ℕ
count b [] = 0
count b (x ∷ xs) = (if x == b then 1 else 0) + count b xs

pub count-append : (b : ℕ) (xs ys : List ℕ) → count b (xs ++ ys) ≡ count b xs + count b ys
count-append b [] ys = omega arith
count-append b (x ∷ xs) ys = ground (arith, count-append b xs ys)

pub count-take-drop :
    (b n : ℕ) (xs : List ℕ) → count b (take n xs) + count b (drop n xs) ≡ count b xs
count-take-drop b zero xs = omega arith
count-take-drop b (suc n) [] = omega arith
count-take-drop b (suc n) (x ∷ xs) = ground (arith, count-take-drop b n xs)

-- The numbers from `i` on, `n` of them: Python's `range(i, i + n)`.
abbrev pub range_from : ℕ → ℕ → List ℕ
range_from i zero = []
range_from i (suc n) = i ∷ range_from (i + 1) n

pub length-range_from : (i n : ℕ) → length (range_from i n) ≡ n
length-range_from i zero = refl
length-range_from i (suc n) = omega (arith, length-range_from (i + 1) n)

pub count-range_from :
    (b i n : ℕ) → count b (range_from i n) ≡ (if leb i b && ltb b (i + n) then 1 else 0)
count-range_from b i zero = ground arith
count-range_from b i (suc n) = ground (arith, count-range_from b (i + 1) n)

-- How many entries of a list are not zero.
abbrev pub live : List ℕ → ℕ
live [] = 0
live (x ∷ xs) = (if x == 0 then 0 else 1) + live xs

pub live-set :
    (xs : List ℕ) (i v : ℕ)
    → i < length xs
    → live (set xs i v) + (if get_or xs i 0 == 0 then 0 else 1)
      ≡ live xs + (if v == 0 then 0 else 1)
live-set [] i v h = elim h [ ]
live-set (x ∷ xs) zero v h = omega arith
live-set (x ∷ xs) (suc i) v h = omega (arith, live-set xs i v (omega arith))

pub live-replicate : (n : ℕ) → live (replicate n 0) ≡ 0
live-replicate zero = refl
live-replicate (suc n) = omega (arith, live-replicate n)

pub count-le-length : (b : ℕ) (xs : List ℕ) → count b xs ≤ length xs
count-le-length b [] = omega arith
count-le-length b (x ∷ xs) = ground (arith, count-le-length b xs)

-- Lists that agree at every index have as many entries that are not zero.
pub live-cast :
    (xs ys : List ℕ)
    → length xs ≡ length ys
    → ((i : ℕ) → get_or xs i 0 ≡ get_or ys i 0)
    → live xs ≡ live ys
live-cast [] [] e h = refl
live-cast [] (y ∷ ys) e h = absurd (omega arith)
live-cast (x ∷ xs) [] e h = absurd (omega arith)
live-cast (x ∷ xs) (y ∷ ys) e h =
    let here : x ≡ y = h 0 in ground (arith, live-cast xs ys (omega arith) (λ i. h (suc i)))
