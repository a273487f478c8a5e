-- ===== src/Paged/Pools/Writing.antt =====
-- `write`: the rows land on the tokens they are for, and nobody else's block is touched.
use native.Mathlib.Nat.{div-lt_iff_lt-mul}
use infer_lab.Base.{
  ℕ, ◌+◌, ◌-◌, ◌*◌, ◌/◌, ◌%◌, ◌≤◌, ◌<◌, ◌≡◌, ◌≢◌, inl, inr, refl, sym, ap, subst, ◌∙◌, List, ◌++◌,
  length, count, count-append, get_or, Bool, Bool-cases, true, false, ltb, leb, ◌==◌, ==_iff, ◌&&◌,
  if◌then◌else◌, arith,
}
use infer_lab.Paged.Pools.{Pool, write_slots}
use infer_lab.Paged.Pools.Cells.{cell, remove_at, count_of_other, index-lt, same_block}
use infer_lab.Paged.Pools.Sharing.{SameCells, KeepsHeld}

-- Tokens from `pos` on to the end of its block stand in that block.
window_block : (bs pos t : ℕ) → 0 < bs → pos ≤ t → t < pos + (bs - pos % bs) → t / bs ≡ pos / bs
window_block bs pos t h le lt =
    let q = pos / bs in
    let above : t / bs < q + 1 = (div-lt_iff_lt-mul h).1 (omega arith) in
    let below : t / bs < q → ⊥ =
      λ b. (let low : t < q * bs = (div-lt_iff_lt-mul h).0 b in omega arith) in
    ground arith

-- The slots of one round, by tokens.
if_cong {ℓ} :
    {V : Type ℓ} (b b' : Bool) (x y z : V)
    → b ≡ b'
    → x ≡ y
    → (if b then x else z) ≡ (if b' then y else z)
if_cong b b' x y z e f = ap (λ c. if c then x else z) e ∙ ap (λ v. if b' then v else z) f

window_in :
    (t r pos slot count : ℕ)
    → t + slot ≡ pos + r
    → (leb slot r && ltb r (slot + count)) ≡ (leb pos t && ltb t (pos + count))
window_in t r pos slot count e = ground arith

window_out :
    (bs pos count t : ℕ)
    → 0 < bs
    → count ≤ bs - pos % bs
    → t / bs ≢ pos / bs
    → (leb pos t && ltb t (pos + count)) ≡ false
window_out bs pos count t h fits ne = elim (Bool-cases (leb pos t && ltb t (pos + count))) [
  | inl inside ↦ absurd (ne (window_block bs pos t h (ground arith) (ground arith)))
  | inr outside ↦ outside
]

pub if_skip {ℓ} : {V : Type ℓ} (b : Bool) (x z : V) → b ≡ false → (if b then x else z) ≡ z
if_skip b x z e = rw e refl

pub if_taken {ℓ} : {V : Type ℓ} (b : Bool) (x z : V) → b ≡ true → (if b then x else z) ≡ x
if_taken b x z e = rw e refl

and_false : (b : Bool) → (b && false) ≡ false
and_false true = refl
and_false false = refl

eq_ne : (a b : ℕ) → a ≢ b → (a == b) ≡ false
eq_ne a b h = ground arith

put-cell {ℓ} :
    {V : Type ℓ} (bs : ℕ) (table : List ℕ) (pool : Pool V) (layer pos count w : ℕ) (rows : List V)
    (l t : ℕ)
    → 0 < bs
    → pos / bs < length table
    → t < length table * bs
    → count ≤ bs - pos % bs
    → (t / bs ≢ pos / bs → get_or table (t / bs) 0 ≢ get_or table (pos / bs) 0)
    → cell bs table (write_slots layer (get_or table (pos / bs) 0) (pos % bs) count rows w pool) l t
      ≡ (if (l == layer) && (leb pos t && ltb t (pos + count))
          then get_or rows (w + (t - pos)) (cell bs table pool l t)
          else cell bs table pool l t)
put-cell bs table pool layer pos count w rows l t h lt in_table fits apart =
    elim (Bool-cases (t / bs == pos / bs)) [
      | inl hit ↦
          (let same = (==_iff (t / bs) (pos / bs)).0 hit in
            let slots = same_block bs t pos h same in
            let block = ap (λ j. get_or table j 0) same in
            let offset : w + (t % bs - pos % bs) ≡ w + (t - pos) = omega arith in
            if_cong _ _ _ _ _
              (ap
                  (λ c.
                    (l == layer)
                    && (c && (leb (pos % bs) (t % bs) && ltb (t % bs) (pos % bs + count))))
                  ((==_iff _ _).1 block)
                ∙ ap (λ c. (l == layer) && c) (window_in t (t % bs) pos (pos % bs) count slots))
              (ap (λ k. get_or rows k (cell bs table pool l t)) offset))
      | inr miss ↦
          (let ne : t / bs ≢ pos / bs = λ e. cc ((==_iff (t / bs) (pos / bs)).1 e) in
            let off : Bool → Bool = λ c. (l == layer) && c in
            let elsewhere = eq_ne _ _ (apart ne) in
            if_skip _ _ _ (
              ap (λ c. off (c && (leb (pos % bs) (t % bs) && ltb (t % bs) (pos % bs + count))))
                elsewhere
              ∙ and_false (l == layer))
            ∙ sym (
                if_skip _ _ _
                  (ap off (window_out bs pos count t h fits ne) ∙ and_false (l == layer))))
    ]

merge_rounds {ℓ} :
    {V : Type ℓ} (a : Bool) (start w n t : ℕ) (rows : List V) (c c0 : V)
    → c ≡ (if a && (leb start t && ltb t (start + w)) then get_or rows (t - start) c0 else c0)
    → (if a && (leb (start + w) t && ltb t (start + w + n))
        then get_or rows (w + (t - (start + w))) c
        else c)
      ≡ (if a && (leb start t && ltb t (start + (w + n))) then get_or rows (t - start) c0 else c0)
merge_rounds false start w n t rows c c0 e = e
merge_rounds true start w n t rows c c0 e = elim (Bool-cases (ltb t (start + w))) [
  | inl early ↦
      (let old : (leb start t && ltb t (start + w)) ≡ (leb start t && ltb t (start + (w + n))) =
          ground arith in
        if_skip (leb (start + w) t && ltb t (start + w + n)) _ _ (ground arith)
        ∙ e
        ∙ ap (λ b. if b then get_or rows (t - start) c0 else c0) old)
  | inr late ↦
      (let untouched : c ≡ c0 = e ∙ if_skip (leb start t && ltb t (start + w)) _ _ (ground arith) in
        let new : (leb (start + w) t && ltb t (start + w + n))
            ≡ (leb start t && ltb t (start + (w + n))) =
          ground arith in
        ap
          (λ v.
            if leb (start + w) t && ltb t (start + w + n)
            then get_or rows (w + (t - (start + w))) v
            else v)
          untouched
        ∙ read_same new)
]
  where
    out : leb (start + w) t ≡ false → (leb (start + w) t && ltb t (start + w + n)) ≡ false
    out gt = rw gt refl

    offset : leb (start + w) t ≡ true → w + (t - (start + w)) ≡ t - start
    offset le = ground arith

    read_same :
        (leb (start + w) t && ltb t (start + w + n)) ≡ (leb start t && ltb t (start + (w + n)))
        → (if leb (start + w) t && ltb t (start + w + n)
            then get_or rows (w + (t - (start + w))) c0
            else c0)
          ≡ (if leb start t && ltb t (start + (w + n)) then get_or rows (t - start) c0 else c0)
    read_same new = elim (Bool-cases (leb (start + w) t)) [
      | inl le ↦ if_cong _ _ _ _ _ new (ap (λ k. get_or rows k c0) (offset le))
      | inr gt ↦ if_skip _ _ _ (out gt) ∙ sym (if_skip _ _ _ (sym new ∙ out gt))
    ]

-- What a sequence reads of a pool once `upto` of the rows stand there from token `start` on.
abbrev pub Rows {ℓ} :
    {V : Type ℓ} → ℕ → ℕ → ℕ → List V → ℕ → List ℕ → Pool V → List ℕ → Pool V → Type ℓ
Rows bs layer start rows upto table0 pool0 table pool =
    (l t : ℕ)
    → t < length table0 * bs
    → cell bs table pool l t ≡ (
        if (l == layer) && (leb start t && ltb t (start + upto))
        then get_or rows (t - start) (cell bs table0 pool0 l t)
        else cell bs table0 pool0 l t)

module _ {ℓ} {V : Type ℓ} (bs layer start : ℕ) (rows : List V) (positive : 0 < bs) where
  -- A round adds its rows to those of the rounds before.
  pub round-Rows :
      (w n : ℕ) (table0 table table1 : List ℕ) (pool0 pool pool1 : Pool V) (held : List ℕ)
      → (start + w) / bs < length table1
      → n ≤ bs - (start + w) % bs
      → length table ≡ length table0
      → length table1 ≡ length table
      → count (get_or table1 ((start + w) / bs) 0) (remove_at ((start + w) / bs) table1 ++ held) ≡ 0
      → SameCells bs table table1 pool pool1
      → Rows bs layer start rows w table0 pool0 table pool
      → Rows bs layer start rows
          (w + n)
          table0
          pool0
          table1
          (write_slots layer (get_or table1 ((start + w) / bs) 0) ((start + w) % bs) n rows w pool1)
  round-Rows w n table0 table table1 pool0 pool pool1 held lt fits size size1 alone same before l t
        inside =
      let here : t < length table * bs = ap_lt size inside in
      let there : t < length table1 * bs = ap_lt size1 here in
      put-cell bs table1 pool1 layer (start + w) n w rows l t positive lt there fits (λ ne e.
        let held_there =
          count_of_other table1 ((start + w) / bs) (t / bs) (λ x. ne (sym x))
            (index-lt bs t (length table1) positive there) in
        let bad = ap (λ x. count x (remove_at ((start + w) / bs) table1)) e in
        omega (
          arith,
          held_there,
          alone,
          bad,
          count-append (get_or table1 ((start + w) / bs) 0) (remove_at ((start + w) / bs) table1)
              held,
        ))
      ∙ merge_rounds (l == layer) start w n t rows (cell bs table1 pool1 l t)
          (cell bs table0 pool0 l t) (same l t here ∙ before l t inside)
    where
      ap_lt : {a b t : ℕ} → a ≡ b → t < b * bs → t < a * bs
      ap_lt {a} {b} {t} e h = subst (λ x. t < x * bs) (sym e) h

  -- The slots of the round are no block of others.
  pub round-KeepsHeld :
      (w n slot : ℕ) (table : List ℕ) (index : ℕ) (pool0 pool : Pool V) (held : List ℕ)
      → count (get_or table index 0) (remove_at index table ++ held) ≡ 0
      → KeepsHeld held pool0 pool
      → KeepsHeld held pool0 (write_slots layer (get_or table index 0) slot n rows w pool)
  round-KeepsHeld w n slot table index pool0 pool held alone before l b i kept =
      if_skip _ _ _ (
        ap (λ c. (l == layer) && (c && (leb slot i && ltb i (slot + n))))
          (eq_ne b (get_or table index 0) (λ e.
            let bad = ap (λ x. count x held) e in
            omega (
              arith,
              kept,
              alone,
              bad,
              count-append (get_or table index 0) (remove_at index table) held,
            )))
        ∙ and_false (l == layer))
      ∙ before l b i kept
