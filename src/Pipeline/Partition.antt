-- ===== src/Pipeline/Partition.antt =====
-- What the stages of `split_layers` are.
use infer_lab.Base.{
  ℕ, zero, suc, ◌+◌, ◌-◌, ◌*◌, ◌/◌, ◌%◌, ◌≤◌, ◌<◌, ◌≡◌, refl, sym, ap, ◌∙◌, min, List, [], ◌∷◌,
  ◌++◌, length, All, false, ltb, ◌==◌, if◌then◌else◌, arith, ok,
}
use infer_lab.Pipeline.{range, split_from, split_layers}

abbrev pub flatten : List (List ℕ) → List ℕ
flatten [] = []
flatten (xs ∷ xss) = xs ++ flatten xss

-- A stage has `base` layers or one more.
abbrev pub Balanced : ℕ → List ℕ → Type 0
Balanced base stage = (base ≤ length stage) × (length stage ≤ base + 1)

length-range : (start n : ℕ) → length (range start n) ≡ n
unfolding range
length-range start zero = refl
length-range start (suc n) = ap suc (length-range (start + 1) n)

range-add : (a b start : ℕ) → range start (a + b) ≡ range start a ++ range (start + a) b
unfolding range
range-add zero b start =
    let no_more : zero + b ≡ b = omega arith in
    let here : start ≡ start + zero = omega arith in
    ap (range start) no_more ∙ ap (λ i. range i b) here
range-add (suc a) b start =
    let one_more : suc a + b ≡ suc (a + b) = omega arith in
    let next : start + 1 + a ≡ start + suc a = omega arith in
    ap (range start) one_more
    ∙ ap (λ (xs : List ℕ). start ∷ xs)
        (range-add a b (start + 1) ∙ ap (λ i. range (start + 1) a ++ range i b) next)

split_from-range :
    (n s base extra start : ℕ)
    → flatten (split_from n s base extra start) ≡ range start (n * base + min n (extra - s))
unfolding split_from
split_from-range zero s base extra start =
    let none_left : 0 ≡ zero * base + min zero (extra - s) = omega arith in
    let nothing : [] ≡ range start 0 = unfold range in refl in nothing ∙ ap (range start) none_left
split_from-range (suc n) s base extra start =
    let size = base + (if ltb s extra then 1 else 0) in
    let rest = n * base + min n (extra - (s + 1)) in
    let total : size + rest ≡ suc n * base + min (suc n) (extra - s) = ground arith in
    ap (λ (xs : List ℕ). range start size ++ xs)
      (split_from-range n (s + 1) base extra (start + size))
    ∙ sym (range-add size rest start)
    ∙ ap (range start) total

split_from-Balanced :
    (n s base extra start : ℕ) → All (Balanced base) (split_from n s base extra start)
unfolding split_from
split_from-Balanced zero s base extra start = tt
split_from-Balanced (suc n) s base extra start =
    let size = base + (if ltb s extra then 1 else 0) in
    let len = length-range start size in
    (
      (ground (arith, len), ground (arith, len)),
      split_from-Balanced n (s + 1) base extra (start + size),
    )

length-split_from : (n s base extra start : ℕ) → length (split_from n s base extra start) ≡ n
unfolding split_from
length-split_from zero s base extra start = refl
length-split_from (suc n) s base extra start = ap suc (length-split_from n (s + 1) base extra _)

-- With at least one stage and no more stages than layers, `split_layers` gives as many stages as
-- were asked for; one after another they are the layers from 0 on, each once and in order, and two
-- stages differ by at most one layer.
pub split_layers-Balanced :
    (num_layers num_stages : ℕ)
    → 0 < num_stages
    → num_stages ≤ num_layers
    → (stages : List (List ℕ)) × (split_layers num_layers num_stages ≡ ok stages)
      × (length stages ≡ num_stages)
      × (flatten stages ≡ range 0 num_layers)
      × All (Balanced (num_layers / num_stages)) stages
unfolding split_layers
split_layers-Balanced l n h k =
    let base = l / n in
    let extra = l % n in
    let enough : ltb l n ≡ false = ground arith in
    let some_stage : (n == 0) ≡ false = ground arith in
    let divided : n * base + min n (extra - 0) ≡ l = omega arith in
    (
      split_from n 0 base extra 0,
      rw (enough, some_stage) refl,
      length-split_from n 0 base extra 0,
      split_from-range n 0 base extra 0 ∙ ap (range 0) divided,
      split_from-Balanced n 0 base extra 0,
    )
