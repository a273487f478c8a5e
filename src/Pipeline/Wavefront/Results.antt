-- ===== src/Pipeline/Wavefront/Results.antt =====
-- What `run` returns.
use infer_lab.Base.{
  ℕ, zero, suc, ◌+◌, ◌-◌, ◌<◌, ◌≡◌, inl, refl, ap, ◌∙◌, List, [], ◌∷◌, length, length-replicate,
  map, get_elem?, Option, none, some, some_injective, ==_refl, arith, ok, and_then,
}
use infer_lab.Pipeline.Wavefront.{Stage, Wave, first_buffers, start, all_outputs, run}
use infer_lab.Pipeline.Wavefront.Running.{through, after, Ready, At, ticks-At}

all_outputs-map :
    {A : Type 0} (g : A → A) (xs : List A) (os : List (Option A))
    → length os ≡ length xs
    → ((i : ℕ) (x : A)
        → get_elem? xs i ≡ some x
        → i < length xs
        → get_elem? os i ≡ some (some (g x)))
    → all_outputs os ≡ ok (map g xs)
unfolding all_outputs
all_outputs-map g [] [] e h = refl
all_outputs-map g [] (o ∷ os) e h = absurd (omega arith)
all_outputs-map g (x ∷ xs) [] e h = absurd (omega arith)
all_outputs-map {A = A} g (x ∷ xs) (o ∷ os) e h =
    let first : o ≡ some (g x) = some_injective (h 0 x refl (omega arith)) in
    let rest = all_outputs-map g xs os (omega arith) (λ i y e1 lt. h (suc i) y e1 (omega arith)) in
    rw (first, rest) refl

-- The function of stage `s`.
abbrev fn_of : {A : Type 0} → List (Stage A) → ℕ → A → A
fn_of [] s x = x
fn_of (st ∷ ss) zero x = st.fn x
fn_of (st ∷ ss) (suc s) x = fn_of ss s x

fn_of-get :
    {A : Type 0} (stages : List (Stage A)) (s : ℕ)
    → s < length stages
    → (st : Stage A) × (get_elem? stages s ≡ some st) × (st.fn ≡ fn_of stages s)
fn_of-get [] s h = absurd (omega arith)
fn_of-get (st ∷ ss) zero h = (st, refl, refl)
fn_of-get (st ∷ ss) (suc s) h = fn_of-get ss s (omega arith)

after-suc :
    {A : Type 0} (f : ℕ → A → A) (n : ℕ) (x : A)
    → after f (suc n) x ≡ after (λ s. f (suc s)) n (f 0 x)
after-suc f zero x = refl
after-suc f (suc n) x = ap (f (suc n)) (after-suc f n x)

after-through :
    {A : Type 0} (stages : List (Stage A)) (x : A)
    → after (fn_of stages) (length stages) x ≡ through stages x
after-through [] x = refl
after-through (st ∷ ss) x = after-suc (fn_of (st ∷ ss)) (length ss) x ∙ after-through ss (st.fn x)

start-At :
    {A : Type 0} (stages : List (Stage A)) (xs : List A)
    → 0 < length stages
    → At (fn_of stages) (length stages) xs 0 0 (start stages xs)
start-At stages xs h = record {
  stages = λ s h. fn_of-get stages s h;
  num_stages = refl;
  buffers = λ s i x sp e lt r. first s i x e r;
  outputs = λ i x e lt r. absurd (ground arith);
  num_outputs = length-replicate (length xs) none;
}
  where
    first :
        (s i : ℕ) (x : _)
        → get_elem? xs i ≡ some x
        → Ready 0 0 s i
        → first_buffers xs s i ≡ some (after (fn_of stages) s x)
    first zero i x e r = e
    first (suc s) i x e r = absurd (ground arith)

-- With at least one stage and as many inputs as micro-batches, `run` raises nothing and returns each
-- input's image through all stages, in the order of the inputs.
pub run-through :
    {A : Type 0} (xs : List A) (w : Wave A)
    → 0 < length w.stages
    → (w' : Wave A) × (run (length xs) xs w ≡ (ok (map (through w.stages) xs), w'))
unfolding run
run-through xs w h =
    let p = length w.stages in
    let f = fn_of w.stages in
    let (w', e, a) =
      ticks-At f p xs (length xs + p - 1) 0 (start w.stages xs) h (start-At w.stages xs h) in
    let outs = all_outputs-map (through w.stages) xs w'.outputs a.num_outputs (λ i x e1 lt.
      a.outputs i x e1 lt (inl (omega arith))
      ∙ ap (λ z. some (some z)) (after-through w.stages x)) in
    (w', rw (==_refl (length xs), e, and_then) (ap (λ r. (r, w')) outs))
