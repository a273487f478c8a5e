-- ===== src/Paged/Pools/Gathering.antt =====
-- `gather` reads the sequence in the order of its tokens, and reads back what `write` wrote.
use infer_lab.Base.{
  ℕ, zero, suc, ◌+◌, ◌*◌, ◌/◌, ◌%◌, ◌≤◌, ◌<◌, ◌≡◌, inl, inr, refl, sym, ap, ap₂, subst, ◌∙◌, List,
  [], ◌∷◌, ◌++◌, length, length-take, take, get_or, Bool-cases, true, ◌==◌, ◌||◌, arith, ok,
  Outcome,
}
use native.Mathlib.Nat.{div-lt_iff_lt-mul, add-mul-div_left}
use infer_lab.Paged.{ceil_div}
use infer_lab.Paged.Capacity.{ceil_div-le_iff}
use infer_lab.Paged.Pools.{Pool, Memory, with_length, rows_from, flat, no_blocks, gather, write}
use infer_lab.Paged.Pools.Cells.{cell, index-lt}
use infer_lab.Paged.Pools.Storing.{Wrote, write-Wrote}
use infer_lab.Paged.Pools.Writing.{if_skip, if_taken}
use infer_lab.Allocator.Accounts.{Accounts}

rows_from-add {ℓ} :
    {V : Type ℓ} (a b start : ℕ) (f : ℕ → V)
    → rows_from start (a + b) f ≡ rows_from start a f ++ rows_from (start + a) b f
rows_from-add zero b start f =
    let none_more : zero + b ≡ b = omega arith in
    let here : start ≡ start + zero = omega arith in
    ap (λ n. rows_from start n f) none_more ∙ ap (λ i. rows_from i b f) here
rows_from-add (suc a) b start f =
    let one_more : suc a + b ≡ suc (a + b) = omega arith in
    let next : suc start + a ≡ start + suc a = omega arith in
    ap (λ n. rows_from start n f) one_more
    ∙ ap (λ xs. f start ∷ xs)
        (rows_from-add a b (suc start) f
          ∙ ap (λ i. rows_from (suc start) a f ++ rows_from i b f) next)

pub rows_from-cong {ℓ} :
    {V : Type ℓ} (start n : ℕ) (f g : ℕ → V)
    → ((i : ℕ) → start ≤ i → i < start + n → f i ≡ g i)
    → rows_from start n f ≡ rows_from start n g
rows_from-cong start zero f g h = refl
rows_from-cong start (suc n) f g h =
    ap₂ (λ x xs. x ∷ xs) (h start (omega arith) (omega arith))
      (rows_from-cong (suc start) n f g (λ i lo hi. h i (omega arith) (omega arith)))

rows_from-shift {ℓ} :
    {V : Type ℓ} (a start n : ℕ) (f : ℕ → V)
    → rows_from (a + start) n f ≡ rows_from start n (λ i. f (a + i))
rows_from-shift a start zero f = refl
rows_from-shift a start (suc n) f =
    let next : suc (a + start) ≡ a + suc start = omega arith in
    ap (λ xs. f (a + start) ∷ xs)
      (ap (λ i. rows_from i n f) next ∙ rows_from-shift a (suc start) n f)

pub take-rows_from {ℓ} :
    {V : Type ℓ} (n m start : ℕ) (f : ℕ → V)
    → n ≤ m
    → take n (rows_from start m f) ≡ rows_from start n f
take-rows_from zero m start f h = refl
take-rows_from (suc n) zero start f h = absurd (omega arith)
take-rows_from (suc n) (suc m) start f h =
    ap (λ xs. f start ∷ xs) (take-rows_from n m (suc start) f (omega arith))

next_block : (bs i : ℕ) → 0 < bs → ((bs + i) / bs ≡ suc (i / bs)) × ((bs + i) % bs ≡ i % bs)
next_block bs i h =
    let turn : bs + i ≡ i + bs * 1 = omega arith in
    let q : (bs + i) / bs ≡ suc (i / bs) =
      ap (λ n. n / bs) turn ∙ add-mul-div_left i 1 h ∙ next (i / bs) in
    (q, omega (arith, ap (λ n. n * bs) q))
  where
    next : (n : ℕ) → n + 1 ≡ suc n
    next n = omega arith

first_block : (bs i : ℕ) → 0 < bs → i < bs → (i / bs ≡ 0) × (i % bs ≡ i)
first_block bs i h lt =
    let small : i < 1 * bs = omega arith in
    let q : i / bs < 1 = (div-lt_iff_lt-mul h).1 small in
    let zero_block : i / bs ≡ 0 = omega arith in
    (zero_block, omega (arith, ap (λ n. n * bs) zero_block))

-- The blocks of the table one after another are its tokens in their order.
flat-cells {ℓ} :
    {V : Type ℓ} (bs layer : ℕ) (pool : Pool V) (table : List ℕ)
    → 0 < bs
    → flat bs layer pool table ≡ rows_from 0 (length table * bs) (cell bs table pool layer)
unfolding flat
flat-cells bs layer pool [] h =
    let nothing : 0 ≡ 0 * bs = omega arith in
    ap (λ n. rows_from 0 n (cell bs [] pool layer)) nothing
flat-cells bs layer pool (b ∷ table) h =
    let n = length table in
    let whole = cell bs (b ∷ table) pool layer in
    let size : bs + n * bs ≡ suc n * bs = omega arith in
    let right : bs + 0 ≡ 0 + bs = omega arith in
    ap₂ (λ xs ys. xs ++ ys)
      (rows_from-cong 0 bs (pool layer b) whole (λ i lo hi.
        let (q, r) = first_block bs i h (omega arith) in
        sym (ap (λ j. pool layer (get_or (b ∷ table) j 0) (i % bs)) q ∙ ap (pool layer b) r)))
      (flat-cells bs layer pool table h
        ∙ rows_from-cong 0 (n * bs) (cell bs table pool layer) (λ i. whole (bs + i))
            (λ i lo hi.
              let (q, r) = next_block bs i h in
              sym (
                ap (λ j. pool layer (get_or (b ∷ table) j 0) ((bs + i) % bs)) q
                ∙ ap (pool layer (get_or table (i / bs) 0)) r))
        ∙ sym (rows_from-shift bs 0 (n * bs) whole)
        ∙ ap (λ i. rows_from i (n * bs) whole) right)
    ∙ sym (rows_from-add bs (n * bs) 0 whole)
    ∙ ap (λ m. rows_from 0 m whole) size

get_or-take : (n : ℕ) (xs : List ℕ) (i : ℕ) → i < n → get_or (take n xs) i 0 ≡ get_or xs i 0
get_or-take zero xs i h = absurd (omega arith)
get_or-take (suc n) [] i h = refl
get_or-take (suc n) (x ∷ xs) zero h = refl
get_or-take (suc n) (x ∷ xs) (suc i) h = get_or-take n xs i (omega arith)

gather_pool {ℓ} :
    {V : Type ℓ} (bs layer n : ℕ) (pool : Pool V) (table : List ℕ)
    → 0 < bs
    → n ≤ length table * bs
    → take n (flat bs layer pool (take (ceil_div n bs) table))
      ≡ rows_from 0 n (cell bs table pool layer)
gather_pool bs layer n pool table h room =
    let blocks = ceil_div n bs in
    let few : blocks ≤ length table = (ceil_div-le_iff n bs (length table) h).1 room in
    let all_in : n ≤ blocks * bs = (ceil_div-le_iff n bs blocks h).0 (omega arith) in
    let size : length (take blocks table) ≡ blocks = omega (arith, length-take blocks table) in
    ap (take n) (flat-cells bs layer pool (take blocks table) h)
    ∙ take-rows_from n (length (take blocks table) * bs) 0 (cell bs (take blocks table) pool layer)
        (rw size all_in)
    ∙ rows_from-cong 0 n (cell bs (take blocks table) pool layer) (cell bs table pool layer)
        (λ i lo hi.
          ap (λ b. pool layer b (i % bs))
            (get_or-take blocks table (i / bs)
              (index-lt bs i blocks h (omega (arith, hi, all_in)))))

no_tokens :
    (n bs : ℕ) (table : List ℕ)
    → n ≤ length table * bs
    → ((n == 0) || no_blocks table) ≡ true
    → n ≡ 0
no_tokens zero bs table room e = refl
no_tokens (suc n) bs [] room e = omega arith
no_tokens (suc n) bs (b ∷ table) room e = ground arith

-- `gather` of a sequence whose table has room for its tokens is the list of its rows, token by
-- token: the block table makes no difference.
pub gather-cells {ℓ} :
    {V : Type ℓ} (bs layer : ℕ) (m : Memory V)
    → 0 < bs
    → m.kv.length ≤ length m.kv.block_table * bs
    → gather bs layer m ≡ (
      rows_from 0 m.kv.length (cell bs m.kv.block_table m.k_pool layer),
      rows_from 0 m.kv.length (cell bs m.kv.block_table m.v_pool layer),
    )
unfolding gather
gather-cells {V = V} bs layer m h room =
    let n = m.kv.length in
    let table = m.kv.block_table in
    let read : ℕ → List V × List V = λ n. (
      rows_from 0 n (cell bs table m.k_pool layer),
      rows_from 0 n (cell bs table m.v_pool layer),
    ) in
    elim (Bool-cases ((n == 0) || no_blocks table)) [
      | inl nothing ↦ if_taken _ _ _ nothing ∙ ap read (sym (no_tokens n bs table room nothing))
      | inr some_tokens ↦
          if_skip _ _ _ some_tokens
          ∙ ap₂ (λ xs ys. (xs, ys)) (gather_pool bs layer n m.k_pool table h room)
              (gather_pool bs layer n m.v_pool table h room)
    ]

get_or-rows_from {ℓ} :
    {V : Type ℓ} (xs : List V) (f : ℕ → V)
    → ((i : ℕ) (d : V) → i < length xs → f i ≡ get_or xs i d)
    → rows_from 0 (length xs) f ≡ xs
get_or-rows_from [] f h = refl
get_or-rows_from {V = V} (x ∷ xs) f h =
    ap₂ (λ y ys. y ∷ ys) (h 0 x (omega arith))
      (rows_from-shift 1 0 (length xs) f
        ∙ get_or-rows_from xs (λ i. f (1 + i)) (λ i d lt. h (1 + i) d (omega arith) ∙ step i d))
  where
    step : (i : ℕ) (d : V) → get_or (x ∷ xs) (1 + i) d ≡ get_or xs i d
    step i d = let one : 1 + i ≡ suc i = omega arith in ap (λ j. get_or (x ∷ xs) j d) one

-- The rows that are read after rows have been written behind those that were there.
behind {ℓ} :
    {V : Type ℓ} (bs n : ℕ) (xs : List V) (old new : ℕ → V)
    → ((t : ℕ) → t < n → new t ≡ old t)
    → ((i : ℕ) (d : V) → i < length xs → new (n + i) ≡ get_or xs i d)
    → rows_from 0 (n + length xs) new ≡ rows_from 0 n old ++ xs
behind bs n xs old new kept written =
    let here : n + 0 ≡ 0 + n = omega arith in
    rows_from-add n (length xs) 0 new
    ∙ ap₂ (λ ys zs. ys ++ zs) (rows_from-cong 0 n new old (λ i lo hi. kept i (omega arith)))
        (ap (λ i. rows_from i (length xs) new) (sym here)
          ∙ rows_from-shift n 0 (length xs) new
          ∙ get_or-rows_from xs (λ i. new (n + i)) written)

gather-Wrote {ℓ} :
    {V : Type ℓ} (bs layer : ℕ) (k v : List V) (held : List ℕ) (m m' : Memory V)
    → 0 < bs
    → length v ≡ length k
    → m.kv.length ≤ length m.kv.block_table * bs
    → Wrote bs layer m.kv.length k v held m m'
    → gather bs layer (with_length (m.kv.length + length k) m')
      ≡ ((gather bs layer m).0 ++ k, (gather bs layer m).1 ++ v)
gather-Wrote bs layer k v held m m' h same room w =
    let n = m.kv.length in
    let old = gather-cells bs layer m h room in
    gather-cells bs layer (with_length (n + length k) m') h w.room
    ∙ ap₂ (λ xs ys. (xs, ys))
        (behind bs n k (cell bs m.kv.block_table m.k_pool layer)
          (cell bs m'.kv.block_table m'.k_pool layer)
          (λ t lt. w.k_kept layer t (omega (arith, lt, room)) (inr (inl lt)))
          (λ i d lt. w.k_written i d lt))
        (ap (λ c. rows_from 0 (n + c) (cell bs m'.kv.block_table m'.v_pool layer)) (sym same)
          ∙ behind bs n v (cell bs m.kv.block_table m.v_pool layer)
              (cell bs m'.kv.block_table m'.v_pool layer)
              (λ t lt. w.v_kept layer t (omega (arith, lt, room)) (inr (inl lt)))
              (λ i d lt. w.v_written i d (omega (arith, lt, same)) lt))
    ∙ ap₂ (λ xs ys. (xs ++ k, ys ++ v)) (sym (ap (λ p. p.0) old)) (sym (ap (λ p. p.1) old))

-- Rows that `write` appends to a sequence are what `gather` reads behind the rows that were there,
-- whichever blocks the sequence shared, once `length` counts them.
pub gather-write {ℓ} :
    {V : Type ℓ} (bs layer : ℕ) (k v : List V) (held : List ℕ) (m m' : Memory V)
    → 0 < bs
    → 0 < length k
    → length v ≡ length k
    → m.kv.length ≤ length m.kv.block_table * bs
    → Accounts m.allocator (m.kv.block_table ++ held)
    → write bs layer m.kv.length k v m ≡ (ok tt, m')
    → gather bs layer (with_length (m.kv.length + length k) m')
      ≡ ((gather bs layer m).0 ++ k, (gather bs layer m).1 ++ v)
gather-write {V = V} bs layer k v held m m' h some_rows same room a run =
    elim (write-Wrote bs layer m.kv.length k v held m h some_rows a) [
      | inl (m1, run1, w) ↦
          (let unique : m1 ≡ m' = ap (λ o. o.1) (sym run1 ∙ run) in
            gather-Wrote bs layer k v held m m' h same room
              (subst (λ x. Wrote bs layer m.kv.length k v held m x) unique w))
      | inr (m1, run1, _, _, _) ↦
          (let clash = ap (λ (o : Outcome (Memory V) (Unit {0})). o.0) (sym run1 ∙ run) in cc)
    ]
