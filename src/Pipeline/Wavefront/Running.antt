-- ===== src/Pipeline/Wavefront/Running.antt =====
-- The wavefront hands every micro-batch through all stages in their order.
use infer_lab.Base.{
  ℕ, zero, suc, ◌+◌, ◌-◌, ◌≤◌, ◌<◌, ◌≡◌, ◌⊎◌, inl, inr, refl, sym, ap, subst, ◌∙◌, List, [], ◌∷◌,
  length, length-set, set, get_elem?, Bool, Bool-cases, true, false, ltb, leb, ◌==◌, ◌&&◌,
  if◌then◌else◌, Option, none, some, some_injective, arith, ok, and_then,
}
use infer_lab.Pipeline.Wavefront.{Stage, Wave, put_buffer, advanced, slot, tick, ticks}

get_elem?-set :
    {A : Type 0} (xs : List A) (i j : ℕ) (v : A)
    → get_elem? (set xs i v) j ≡ (if (i == j) && ltb i (length xs) then some v else get_elem? xs j)
get_elem?-set [] i j v = ground arith
get_elem?-set (x ∷ xs) zero zero v = ground arith
get_elem?-set (x ∷ xs) zero (suc j) v = ground arith
get_elem?-set (x ∷ xs) (suc i) zero v = ground arith
get_elem?-set (x ∷ xs) (suc i) (suc j) v = ground (arith, get_elem?-set xs i j v)

get_elem?-lt :
    {A : Type 0} (xs : List A) (i : ℕ) → i < length xs → (x : A) × (get_elem? xs i ≡ some x)
get_elem?-lt [] i h = absurd (omega arith)
get_elem?-lt (x ∷ xs) zero h = (x, refl)
get_elem?-lt (x ∷ xs) (suc i) h = get_elem?-lt xs i (omega arith)

-- The activation before stage `s` of a micro-batch `x`.
abbrev pub through : {A : Type 0} → List (Stage A) → A → A
through [] x = x
through (s ∷ ss) x = through ss (s.fn x)

module _ {A : Type 0} (f : ℕ → A → A) where
  abbrev pub after : ℕ → A → A
  after zero x = x
  after (suc s) x = f s (after s x)

-- A buffer after a stage: the next stage's input if it is the one just made, else as it was.
moved :
    {A : Type 0} (c : Bool) (buffers : ℕ → ℕ → Option A) (k j s i : ℕ) (y z : A)
    → (s ≡ k → i ≡ j → ⊥)
    → (s ≡ suc k → i ≡ j → (c ≡ true) × (y ≡ z))
    → (((s ≡ suc k) × (i ≡ j) → ⊥) → buffers s i ≡ some z)
    → (if c
          then put_buffer (k + 1) j (some y) (put_buffer k j none buffers)
          else put_buffer k j none buffers)
        s i
      ≡ some z
moved c buffers k j s i y z popped made old = elim (Bool-cases ((s == k + 1) && (i == j))) [
  | inl hit ↦ (let (on, same) = made (ground arith) (ground arith) in rw (on, hit) (ap some same))
  | inr miss ↦
      (let rest = old (λ h. ground (arith, h.0, h.1)) in
        let kept : ((s == k) && (i == j)) ≡ false = ground arith in skipped c kept miss rest)
]
  where
    skipped :
        (c : Bool)
        → ((s == k) && (i == j)) ≡ false
        → ((s == k + 1) && (i == j)) ≡ false
        → buffers s i ≡ some z
        → (if c
              then put_buffer (k + 1) j (some y) (put_buffer k j none buffers)
              else put_buffer k j none buffers)
            s i
          ≡ some z
    skipped true e1 e2 e = rw (e2, e1) e
    skipped false e1 e2 e = rw e1 e

-- Which buffers are filled at time `t`, when the stages below `k` have had their turn.
abbrev pub Ready : ℕ → ℕ → ℕ → ℕ → Type 0
Ready t k s i =
    ((s + i ≡ t) × (k ≤ s)) ⊎ (((s + i ≡ suc t) × ((1 ≤ s) × (s ≤ k))) ⊎ ((s ≡ 0) × (t < i)))

module _ {A : Type 0} (f : ℕ → A → A) (p : ℕ) (xs : List A) where
  pub record At (t k : ℕ) (w : Wave A) : Type 0 where
    pub stages : (s : ℕ) → s < p → (st : Stage A) × (get_elem? w.stages s ≡ some st) × (st.fn ≡ f s)
    pub num_stages : length w.stages ≡ p
    pub buffers :
        (s i : ℕ) (x : A)
        → s < p
        → get_elem? xs i ≡ some x
        → i < length xs
        → Ready t k s i
        → w.buffers s i ≡ some (after f s x)
    pub outputs :
        (i : ℕ) (x : A)
        → get_elem? xs i ≡ some x
        → i < length xs
        → (p + i ≤ t) ⊎ ((p + i ≡ suc t) × (p ≤ k))
        → get_elem? w.outputs i ≡ some (some (after f p x))
    pub num_outputs : length w.outputs ≡ length xs

  -- A stage with nothing to do.
  idle-At :
      (t k : ℕ) (w : Wave A)
      → k < p
      → (leb k t && ltb (t - k) (length xs)) ≡ false
      → At t k w
      → At t (suc k) w
  idle-At t k w h skip a = record {
    stages = a.stages;
    num_stages = a.num_stages;
    buffers = λ s i x sp e lt r. a.buffers s i x sp e lt (ground arith);
    outputs = λ i x e lt r. a.outputs i x e lt (ground arith);
    num_outputs = a.num_outputs;
  }

  advanced-At :
      (t k : ℕ) (w : Wave A) (x : A) (st : Stage A)
      → k < p
      → k ≤ t
      → t - k < length xs
      → get_elem? xs (t - k) ≡ some x
      → get_elem? w.stages k ≡ some st
      → st.fn ≡ f k
      → At t k w
      → At t (suc k) (advanced p t k (t - k) (after f k x) st w)
  advanced-At t k w x st h le lt ex es ef a = record {
    stages = λ s sp. same_stage s sp (Bool-cases (k == s));
    num_stages =
        length-set w.stages k (record st { busy_steps = st.busy_steps + 1 }) ∙ a.num_stages;
    buffers = λ s i x' sp e lt' r.
        moved (ltb (k + 1) p) w.buffers k (t - k) s i (st.fn (after f k x)) (after f s x')
          (λ h1 h2. ground arith) (λ h1 h2. (ground arith, made s i x' h1 h2 e))
          (λ ne. a.buffers s i x' sp e lt' (still s i ne r));
    outputs = λ i x' e lt' r. written i x' e lt' r (Bool-cases (ltb (k + 1) p));
    num_outputs = sized (ltb (k + 1) p);
  }
    where
      y : A
      y = st.fn (after f k x)

      st' : Stage A
      st' = record st { busy_steps = st.busy_steps + 1 }

      same_stage :
          (s : ℕ)
          → s < p
          → ((k == s) ≡ true) ⊎ ((k == s) ≡ false)
          → (q : Stage A) × (get_elem? (set w.stages k st') s ≡ some q) × (q.fn ≡ f s)
      same_stage s sp (inl hit) =
          let inside : ltb k (length w.stages) ≡ true = ground (arith, a.num_stages) in
          let same : k ≡ s = ground arith in
          (st', get_elem?-set w.stages k s st' ∙ rw (hit, inside) refl, ef ∙ ap f same)
      same_stage s sp (inr miss) =
          let (q, e, fn) = a.stages s sp in (q, get_elem?-set w.stages k s st' ∙ rw miss e, fn)

      made :
          (s i : ℕ) (x' : A) → s ≡ suc k → i ≡ t - k → get_elem? xs i ≡ some x' → y ≡ after f s x'
      made s i x' h1 h2 e =
          let same : x ≡ x' = some_injective (sym ex ∙ ap (get_elem? xs) (sym h2) ∙ e) in
          ap (λ g. g (after f k x)) ef
          ∙ ap (λ z. f k (after f k z)) same
          ∙ ap (λ n. after f n x') (sym h1)

      still : (s i : ℕ) → ((s ≡ suc k) × (i ≡ t - k) → ⊥) → Ready t (suc k) s i → Ready t k s i
      still s i ne (inl (e, g)) = inl (e, omega arith)
      still s i ne (inr (inl (e, (g, g')))) = elim (Bool-cases (s == suc k)) [
        | inl hit ↦
            (let here : s ≡ suc k = ground arith in absurd (ne (here, omega (arith, here, e, le))))
        | inr miss ↦ inr (inl (e, (g, ground arith)))
      ]
      still s i ne (inr (inr h)) = inr (inr h)

      written :
          (i : ℕ) (x' : A)
          → get_elem? xs i ≡ some x'
          → i < length xs
          → (p + i ≤ t) ⊎ ((p + i ≡ suc t) × (p ≤ suc k))
          → (ltb (k + 1) p ≡ true) ⊎ (ltb (k + 1) p ≡ false)
          → get_elem? (if ltb (k + 1) p then w.outputs else set w.outputs (t - k) (some y)) i
            ≡ some (some (after f p x'))
      written i x' e lt' r (inl more) = rw more (a.outputs i x' e lt' (inl (ground arith)))
      written i x' e lt' r (inr last) = elim (Bool-cases (t - k == i)) [
        | inl hit ↦
            (let here : i ≡ t - k = ground arith in
              let end : p ≡ suc k = ground arith in
              let inside : ltb (t - k) (length w.outputs) ≡ true = ground (arith, a.num_outputs) in
              rw last (
                get_elem?-set w.outputs (t - k) i (some y)
                ∙ rw (hit, inside) (ap (λ z. some (some z)) (made p i x' end here e))))
        | inr miss ↦ rw last (
            get_elem?-set w.outputs (t - k) i (some y)
            ∙ rw miss (a.outputs i x' e lt' (inl (ground arith))))
      ]

      sized :
          (c : Bool) → length (if c then w.outputs else set w.outputs (t - k) (some y)) ≡ length xs
      sized true = a.num_outputs
      sized false = length-set w.outputs (t - k) (some y) ∙ a.num_outputs

  slot-At :
      (t k : ℕ) (w : Wave A)
      → k < p
      → At t k w
      → (w' : Wave A) × (slot p (length xs) t k w ≡ (ok tt, w')) × At t (suc k) w'
  unfolding slot
  slot-At t k w h a = elim (Bool-cases (leb k t && ltb (t - k) (length xs))) [
    | inr skip ↦ (w, rw skip refl, idle-At t k w h skip a)
    | inl work ↦
        (let le : k ≤ t = ground arith in
          let lt : t - k < length xs = ground arith in
          let (x, ex) = get_elem?-lt xs (t - k) lt in
          let (st, es, ef) = a.stages k h in
          let input = a.buffers k (t - k) x h ex lt (inl (omega arith, omega arith)) in
          (
            advanced p t k (t - k) (after f k x) st w,
            rw (work, input, es) refl,
            advanced-At t k w x st h le lt ex es ef a,
          ))
  ]

  tick-At :
      (count t k : ℕ) (w : Wave A)
      → k + count ≡ p
      → At t k w
      → (w' : Wave A) × (tick p (length xs) t count k w ≡ (ok tt, w')) × At t p w'
  unfolding tick
  tick-At zero t k w e a = (w, refl, subst (λ n. At t n w) (omega arith) a)
  tick-At (suc count) t k w e a =
      let (w1, run1, a1) = slot-At t k w (omega arith) a in
      let (w2, run2, a2) = tick-At count t (suc k) w1 (omega arith) a1 in
      (w2, rw (run1, and_then) run2, a2)

  -- The clock goes on.
  next-At : (t : ℕ) (w : Wave A) → 0 < p → At t p w → At (suc t) 0 w
  next-At t w h a = record {
    stages = a.stages;
    num_stages = a.num_stages;
    buffers = λ s i x sp e lt r. a.buffers s i x sp e lt (ground arith);
    outputs = λ i x e lt r. a.outputs i x e lt (ground arith);
    num_outputs = a.num_outputs;
  }

  pub ticks-At :
      (count t : ℕ) (w : Wave A)
      → 0 < p
      → At t 0 w
      → (w' : Wave A) × (ticks p (length xs) count t w ≡ (ok tt, w')) × At (t + count) 0 w'
  unfolding ticks
  ticks-At zero t w h a = (w, refl, subst (λ n. At n 0 w) (omega arith) a)
  ticks-At (suc count) t w h a =
      let (w1, run1, a1) = tick-At p t 0 w (omega arith) a in
      let (w2, run2, a2) = ticks-At count (suc t) w1 h (next-At t w1 h a1) in
      let later : suc t + count ≡ t + suc count = omega arith in
      (w2, rw (run1, and_then) run2, subst (λ n. At n 0 w2) later a2)
