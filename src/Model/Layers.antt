-- ===== src/Model/Layers.antt =====
-- A chunk through the layers: what the pools hold between two of them.
use infer_lab.Base.{
  ℕ, zero, suc, ◌+◌, ◌-◌, ◌*◌, ◌≤◌, ◌<◌, ◌≡◌, ◌≢◌, ◌⊎◌, inl, inr, refl, sym, ap, ap₂, subst, ◌∙◌,
  List, ◌++◌, length, get_or, Bool-cases, true, ltb, leb, ◌==◌, ==_iff, arith, ok, err,
  out_of_blocks, and_then,
}
use infer_lab.Allocator.Accounts.{Accounts}
use infer_lab.Paged.Pools.{Pool, Memory, with_length, rows_from}
use infer_lab.Paged.Pools.Cells.{cell}
use infer_lab.Paged.Pools.Sharing.{KeepsHeld}
use infer_lab.Paged.Pools.Storing.{Wrote, write-Wrote}
use infer_lab.Paged.Pools.Gathering.{gather-cells, rows_from-cong}
use infer_lab.Model.{Network, project, attend_rows, lengthened, attended, layer_pass, layers_from}
use infer_lab.Model.Dense.{
  length-rows_from, get_or-rows_from_at, project-rows_from, hidden, key_at, value_at,
  attend_rows-hidden,
}

-- Of `top` layers, in those below `layer` the rows of the tokens before `stop` stand in the pool,
-- in the others those of the tokens before `start`.
abbrev pub Filled {ℓ} : {V : Type ℓ} → ℕ → ℕ → ℕ → ℕ → (ℕ → ℕ → V) → (ℕ → ℕ → V) → Type ℓ
Filled top start stop layer f at =
    (l t : ℕ) → l < top → (t < start) ⊎ ((l < layer) × (t < stop)) → at l t ≡ f l t

-- A layer's rows have been written.
Filled-suc {ℓ} :
    {V : Type ℓ} (top start n layer cap : ℕ) (f old new : ℕ → ℕ → V) (rows : List V)
    → start ≤ cap
    → (0 < layer → start + n ≤ cap)
    → rows ≡ rows_from start n (f layer)
    → ((j : ℕ) (d : V) → j < n → new layer (start + j) ≡ get_or rows j d)
    → ((l t : ℕ) → t < cap → (l ≢ layer) ⊎ ((t < start) ⊎ (start + n ≤ t)) → new l t ≡ old l t)
    → Filled top start (start + n) layer f old
    → Filled top start (start + n) (suc layer) f new
Filled-suc top start n layer cap f old new rows room more e written kept h l t low (inl early) =
    kept l t (omega arith) (inr (inl early)) ∙ h l t low (inl early)
Filled-suc top start n layer cap f old new rows room more e written kept h l t low
      (inr (lt, inside)) =
    elim (Bool-cases (l == layer)) [
      | inl same ↦ here ((==_iff l layer).0 same)
      | inr other ↦
          (let ne : l ≢ layer = λ s. (let b = (==_iff l layer).1 s in ground arith) in
            let below : l < layer = omega (arith, ne) in
            kept l t (omega (arith, more (omega arith))) (inl ne) ∙ h l t low (inr (below, inside)))
    ]
  where
    offset : (lo : start ≤ t) → (j : ℕ) × (t ≡ start + j)
    offset lo = (t - start, omega arith)

    new_row : (j : ℕ) → t ≡ start + j → new layer t ≡ f layer t
    new_row j s =
        ap (new layer) s
        ∙ written j (f layer t) (omega arith)
        ∙ ap (λ r. get_or r j (f layer t)) e
        ∙ get_or-rows_from_at start n j (f layer) (f layer t) (omega arith)
        ∙ ap (f layer) (sym s)

    at_layer : layer < top → new layer t ≡ f layer t
    at_layer low = elim (Bool-cases (ltb t start)) [
      | inl early ↦
          kept layer t (ground arith) (inr (inl (ground arith)))
          ∙ h layer t low (inl (ground arith))
      | inr late ↦ (let (j, s) = offset (ground arith) in new_row j s)
    ]

    here : l ≡ layer → new l t ≡ f l t
    here s = ap (λ i. new i t) s ∙ at_layer (omega (arith, low, s)) ∙ ap (λ i. f i t) (sym s)

-- What a call leaves that finds no block: the books and everyone else's rows.
pub record Kept {ℓ} {V : Type ℓ} (held : List ℕ) (m0 m : Memory V) : Type ℓ where
  pub accounts : Accounts m.allocator (m.kv.block_table ++ held)
  pub k_held : KeepsHeld held m0.k_pool m.k_pool
  pub v_held : KeepsHeld held m0.v_pool m.v_pool

module _ {ℓ} {X V L : Type ℓ} (net : Network X V L) (bs : ℕ) (token : ℕ → ℕ) (held : List ℕ) where
  -- The rows of a sequence's tokens before `start` stand in every layer.
  pub record Cached (start : ℕ) (m : Memory V) : Type ℓ where
    pub accounts : Accounts m.allocator (m.kv.block_table ++ held)
    pub room : start ≤ length m.kv.block_table * bs
    pub k_rows :
        (l t : ℕ)
        → l < net.num_layers
        → t < start
        → cell bs m.kv.block_table m.k_pool l t ≡ key_at net token l t
    pub v_rows :
        (l t : ℕ)
        → l < net.num_layers
        → t < start
        → cell bs m.kv.block_table m.v_pool l t ≡ value_at net token l t

module _ {ℓ} {X V L : Type ℓ} (net : Network X V L) (bs : ℕ) (positive : 0 < bs) (token : ℕ → ℕ)
    (held : List ℕ) (m0 : Memory V) where
  -- Between two layers.
  pub record Reached (start n layer : ℕ) (m : Memory V) : Type ℓ where
    pub accounts : Accounts m.allocator (m.kv.block_table ++ held)
    pub room : start ≤ length m.kv.block_table * bs
    pub room_for_all : 0 < layer → start + n ≤ length m.kv.block_table * bs
    pub counted : 0 < layer → m.kv.length ≡ start + n
    pub k_rows :
        Filled net.num_layers start
          (start + n)
          layer
          (key_at net token)
          (cell bs m.kv.block_table m.k_pool)
    pub v_rows :
        Filled net.num_layers start
          (start + n)
          layer
          (value_at net token)
          (cell bs m.kv.block_table m.v_pool)
    pub k_held : KeepsHeld held m0.k_pool m.k_pool
    pub v_held : KeepsHeld held m0.v_pool m.v_pool

  with_length-Reached :
      (start n layer count : ℕ) (k v : List V) (m m1 : Memory V)
      → k ≡ rows_from start n (key_at net token layer)
      → v ≡ rows_from start n (value_at net token layer)
      → Reached start n layer m
      → Wrote bs layer start k v held m m1
      → count ≡ start + n
      → Reached start n (suc layer) (with_length count m1)
  with_length-Reached start n layer count k v m m1 ek ev r w e =
      let kn : length k ≡ n =
        ap (length {A = V}) ek ∙ length-rows_from start n (key_at net token layer) in
      let vn : length v ≡ n =
        ap (length {A = V}) ev ∙ length-rows_from start n (value_at net token layer) in
      let room : start + n ≤ length m1.kv.block_table * bs = omega (arith, w.room, kn) in
      let cap = length m.kv.block_table * bs in
      record {
        accounts = w.accounts;
        room = omega (arith, room);
        room_for_all = λ _. room;
        counted = λ _. e;
        k_rows =
            Filled-suc net.num_layers start n layer cap (key_at net token)
              (cell bs m.kv.block_table m.k_pool) (cell bs m1.kv.block_table m1.k_pool) k r.room
              r.room_for_all ek (λ j d lt. w.k_written j d (omega (arith, kn, lt)))
              (λ l t lt away.
                w.k_kept l t lt
                  (subst (λ c. (l ≢ layer) ⊎ ((t < start) ⊎ (start + c ≤ t))) (sym kn) away))
              r.k_rows;
        v_rows =
            Filled-suc net.num_layers start n layer cap (value_at net token)
              (cell bs m.kv.block_table m.v_pool) (cell bs m1.kv.block_table m1.v_pool) v r.room
              r.room_for_all ev
              (λ j d lt. w.v_written j d (omega (arith, kn, lt)) (omega (arith, vn, lt)))
              (λ l t lt away.
                w.v_kept l t lt
                  (subst (λ c. (l ≢ layer) ⊎ ((t < start) ⊎ (start + c ≤ t))) (sym kn) away))
              r.v_rows;
        k_held = λ l b i h. w.k_held l b i h ∙ r.k_held l b i h;
        v_held = λ l b i h. w.v_held l b i h ∙ r.v_held l b i h;
      }

  lengthened-Reached :
      (start n layer count : ℕ) (k v : List V) (m m1 : Memory V)
      → k ≡ rows_from start n (key_at net token layer)
      → v ≡ rows_from start n (value_at net token layer)
      → Reached start n layer m
      → Wrote bs layer start k v held m m1
      → count ≡ start + n
      → Reached start n (suc layer) (lengthened net bs layer count m1)
  lengthened-Reached start n layer count k v m m1 ek ev r w e = elim (Bool-cases (layer == 0)) [
    | inl first ↦ rw first (with_length-Reached start n layer count k v m m1 ek ev r w e)
    | inr later ↦ rw later (
        with_length-Reached start n layer m1.kv.length k v m m1 ek ev r w
          (w.same_length ∙ r.counted (ground arith)))
  ]

  attended-Reached :
      (start n layer : ℕ) (m : Memory V)
      → layer < net.num_layers
      → Reached start n (suc layer) m
      → attended net bs layer start (rows_from start n (hidden net token layer)) m
        ≡ rows_from start n (hidden net token (suc layer))
  attended-Reached start n layer m low r =
      let some_layer : 0 < suc layer = omega arith in
      let size = r.counted some_layer in
      let room : m.kv.length ≤ length m.kv.block_table * bs =
        omega (arith, size, r.room_for_all some_layer) in
      let read = gather-cells bs layer m positive room in
      let row : (f : ℕ → ℕ → V) (pool : Pool V)
          → Filled net.num_layers start (start + n) (suc layer) f (cell bs m.kv.block_table pool)
          → rows_from 0 m.kv.length (cell bs m.kv.block_table pool layer)
            ≡ rows_from 0 (start + n) (f layer) =
        λ f pool filled.
          ap (λ c. rows_from 0 c (cell bs m.kv.block_table pool layer)) size
          ∙ rows_from-cong 0 (start + n) (cell bs m.kv.block_table pool layer) (f layer)
              (λ t lo hi. filled layer t low (inr (omega arith, omega (arith, hi)))) in
      ap₂
        (λ ks vs. attend_rows net bs layer start ks vs (rows_from start n (hidden net token layer)))
        (ap (λ p. p.0) read ∙ row (key_at net token) m.k_pool r.k_rows)
        (ap (λ p. p.1) read ∙ row (value_at net token) m.v_pool r.v_rows)
      ∙ attend_rows-hidden net token layer start n (start + n) bs (omega arith)

  layer_pass-Reached :
      (start n layer : ℕ) (m : Memory V)
      → 0 < n
      → start + n ≤ net.max_position_embeddings
      → layer < net.num_layers
      → Reached start n layer m
      → ((m' : Memory V) × (layer_pass net bs layer start
              (rows_from start n (hidden net token layer))
              m
            ≡ (ok (rows_from start n (hidden net token (suc layer))), m'))
          × Reached start n (suc layer) m')
        ⊎ ((m' : Memory V) × (layer_pass net bs layer start
                (rows_from start n (hidden net token layer))
                m
              ≡ (err out_of_blocks, m'))
            × Kept held m0 m')
  unfolding layer_pass
  layer_pass-Reached start n layer m h fits low r =
      let xs = rows_from start n (hidden net token layer) in
      let k = project (net.key layer) start xs in
      let v = project (net.value layer) start xs in
      let ek = project-rows_from (net.key layer) start n (hidden net token layer) in
      let ev = project-rows_from (net.value layer) start n (hidden net token layer) in
      let kn : length k ≡ n =
        ap (length {A = V}) ek ∙ length-rows_from start n (key_at net token layer) in
      let xn : length xs ≡ n = length-rows_from start n (hidden net token layer) in
      let inside : leb (start + length xs) net.max_position_embeddings ≡ true = ground arith in
      elim (write-Wrote bs layer start k v held m positive (omega arith) r.accounts) [
        | inr (m', e, a, kh, vh) ↦ inr (
          m',
          rw (inside, e, and_then) refl,
          record {
            accounts = a;
            k_held = λ l b i c. kh l b i c ∙ r.k_held l b i c;
            v_held = λ l b i c. vh l b i c ∙ r.v_held l b i c;
          },
        )
        | inl (m1, e, w) ↦
            (let m2 = lengthened net bs layer (start + length xs) m1 in
              let next =
                lengthened-Reached start n layer (start + length xs) k v m m1 ek ev r w
                  (ap (λ c. start + c) xn) in
              inl (
                m2,
                rw (inside, e, and_then)
                    (ap (λ ys. (ok ys, m2)) (attended-Reached start n layer m2 low next)),
                next,
              ))
      ]

  pub layers_from-Reached :
      (count start n layer : ℕ) (m : Memory V)
      → 0 < n
      → start + n ≤ net.max_position_embeddings
      → layer + count ≡ net.num_layers
      → Reached start n layer m
      → ((m' : Memory V) × (layers_from net bs count layer start
              (rows_from start n (hidden net token layer))
              m
            ≡ (ok (rows_from start n (hidden net token net.num_layers)), m'))
          × Reached start n net.num_layers m')
        ⊎ ((m' : Memory V) × (layers_from net bs count layer start
                (rows_from start n (hidden net token layer))
                m
              ≡ (err out_of_blocks, m'))
            × Kept held m0 m')
  unfolding layers_from
  layers_from-Reached zero start n layer m h fits all r =
      let here : layer ≡ net.num_layers = omega arith in
      inl (
        m,
        ap (λ i. (ok (rows_from start n (hidden net token i)), m)) here,
        subst (λ i. Reached start n i m) here r,
      )
  layers_from-Reached (suc count) start n layer m h fits all r =
      elim (layer_pass-Reached start n layer m h fits (omega arith) r) [
        | inr (m1, e, k) ↦ inr (m1, rw (e, and_then) refl, k)
        | inl (m1, e, r1) ↦
            elim (layers_from-Reached count start n (suc layer) m1 h fits (omega arith) r1) [
              | inr (m2, e2, k) ↦ inr (m2, rw (e, and_then) e2, k)
              | inl (m2, e2, r2) ↦ inl (m2, rw (e, and_then) e2, r2)
            ]
      ]

  pub start-Reached : (start n : ℕ) → Cached net bs token held start m0 → Reached start n 0 m0
  start-Reached start n c = record {
    accounts = c.accounts;
    room = c.room;
    room_for_all = λ h. absurd (omega arith);
    counted = λ h. absurd (omega arith);
    k_rows = λ l t low h. c.k_rows l t low (early t h);
    v_rows = λ l t low h. c.v_rows l t low (early t h);
    k_held = λ l b i h. refl;
    v_held = λ l b i h. refl;
  }
    where
      early : {l : ℕ} → (t : ℕ) → (t < start) ⊎ ((l < 0) × (t < start + n)) → t < start
      early t (inl h) = h
      early t (inr (h, _)) = absurd (omega arith)
