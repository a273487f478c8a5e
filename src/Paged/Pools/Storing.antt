-- ===== src/Paged/Pools/Storing.antt =====
-- `write` as a whole: the loop over the blocks, behind the growth of the table.
use infer_lab.Base.{
  ℕ, zero, suc, ◌+◌, ◌-◌, ◌*◌, ◌/◌, ◌%◌, ◌≤◌, ◌<◌, ◌≡◌, ◌≢◌, ◌⊎◌, inl, inr, refl, sym, ap, subst,
  ◌∙◌, min, List, [], ◌∷◌, ◌++◌, length, length-append, count, get_or, get_or-default, Bool-cases,
  false, ltb, leb, ◌==◌, ◌&&◌, arith, ok, err, out_of_blocks, and_then,
}
use infer_lab.Allocator.{Allocator}
use infer_lab.Allocator.Accounts.{Accounts}
use infer_lab.Paged.{SequenceKv, capacity}
use infer_lab.Paged.Table.{Extends, ensure_capacity-Extends}
use infer_lab.Paged.Pools.{Pool, Memory, put_rows, write_slots, write_loop, write}
use infer_lab.Paged.Pools.Cells.{cell, index-lt, remove_at}
use infer_lab.Paged.Pools.Sharing.{KeepsHeld, Writable, writable_block-Writable}
use infer_lab.Paged.Pools.Writing.{if_skip, if_taken, Rows, round-Rows, round-KeepsHeld}

module _ {ℓ} {V : Type ℓ} (bs layer start : ℕ) (k v : List V) (held : List ℕ)
    (positive : 0 < bs) where
  -- The memory `m` after the first `upto` rows have been written to `m0`.
  pub record Stored (upto : ℕ) (m0 m : Memory V) : Type ℓ where
    pub accounts : Accounts m.allocator (m.kv.block_table ++ held)
    pub same_size : length m.kv.block_table ≡ length m0.kv.block_table
    pub same_length : m.kv.length ≡ m0.kv.length
    pub k_rows : Rows bs layer start k upto m0.kv.block_table m0.k_pool m.kv.block_table m.k_pool
    pub v_rows : Rows bs layer start v upto m0.kv.block_table m0.v_pool m.kv.block_table m.v_pool
    pub k_held : KeepsHeld held m0.k_pool m.k_pool
    pub v_held : KeepsHeld held m0.v_pool m.v_pool

  round-Stored :
      (w n : ℕ) (m0 m m1 : Memory V) (block : ℕ)
      → Stored w m0 m
      → Writable bs held ((start + w) / bs) block m m1
      → (start + w) / bs < length m1.kv.block_table
      → n ≤ bs - (start + w) % bs
      → Stored (w + n) m0 (put_rows layer block ((start + w) % bs) n k v w m1)
  round-Stored w n m0 m m1 block s u lt fits =
      let index = (start + w) / bs in
      let slot = (start + w) % bs in
      let table1 = m1.kv.block_table in
      let alone : count (get_or table1 index 0) (remove_at index table1 ++ held) ≡ 0 =
        ap (λ b. count b (remove_at index table1 ++ held)) u.here ∙ u.alone in
      let at_block : (rows : List V) (pool : Pool V) → Pool V → Type ℓ =
        λ rows pool pool1. Rows bs layer start rows (w + n) m0.kv.block_table pool table1 pool1 in
      record {
        accounts = u.accounts;
        same_size = u.same_size ∙ s.same_size;
        same_length = u.same_length ∙ s.same_length;
        k_rows =
            subst (λ b. at_block k m0.k_pool (write_slots layer b slot n k w m1.k_pool)) u.here
              (round-Rows bs layer start k positive w n m0.kv.block_table m.kv.block_table table1
                m0.k_pool m.k_pool m1.k_pool held lt fits s.same_size u.same_size alone u.k_cells
                s.k_rows);
        v_rows =
            subst (λ b. at_block v m0.v_pool (write_slots layer b slot n v w m1.v_pool)) u.here
              (round-Rows bs layer start v positive w n m0.kv.block_table m.kv.block_table table1
                m0.v_pool m.v_pool m1.v_pool held lt fits s.same_size u.same_size alone u.v_cells
                s.v_rows);
        k_held =
            subst (λ b. KeepsHeld held m0.k_pool (write_slots layer b slot n k w m1.k_pool)) u.here
              (round-KeepsHeld bs layer start k positive w n slot table1 index m0.k_pool m1.k_pool
                held alone (λ l b i c. u.k_held l b i c ∙ s.k_held l b i c));
        v_held =
            subst (λ b. KeepsHeld held m0.v_pool (write_slots layer b slot n v w m1.v_pool)) u.here
              (round-KeepsHeld bs layer start v positive w n slot table1 index m0.v_pool m1.v_pool
                held alone (λ l b i c. u.v_held l b i c ∙ s.v_held l b i c));
      }

  -- The loop writes all rows, or raises `OutOfBlocks` after some of them.
  write_loop-Stored :
      (fuel w : ℕ) (m0 m : Memory V)
      → w ≤ length k
      → length k ≤ fuel + w
      → start + length k ≤ length m0.kv.block_table * bs
      → Stored w m0 m
      → ((m' : Memory V) × (write_loop fuel bs layer start k v w m ≡ (ok tt, m'))
          × Stored (length k) m0 m')
        ⊎ ((upto : ℕ) × (m' : Memory V) × (write_loop fuel bs layer start k v w m
              ≡ (err out_of_blocks, m'))
            × Stored upto m0 m')
  unfolding write_loop
  write_loop-Stored zero w m0 m le enough room s =
      let all : w ≡ length k = omega arith in inl (m, refl, subst (λ x. Stored x m0 m) all s)
  write_loop-Stored (suc fuel) w m0 m le enough room s = elim (Bool-cases (ltb w (length k))) [
    | inr done ↦
        (let all : w ≡ length k = ground arith in
          inl (m, rw done refl, subst (λ x. Stored x m0 m) all s))
    | inl more ↦
        (let slot = (start + w) % bs in
          let n = min (bs - slot) (length k - w) in
          let in_slot : slot < bs = omega arith in
          let lt : (start + w) / bs < length m.kv.block_table =
            index-lt bs (start + w) (length m.kv.block_table) positive
              (subst (λ x. start + w < x * bs) (sym s.same_size) (ground arith)) in
          elim (writable_block-Writable bs held ((start + w) / bs) m positive lt s.accounts) [
            | inr (dry, e) ↦ inr (w, m, rw (more, e) refl, s)
            | inl (block, m1, e, u) ↦
                (let s' =
                    round-Stored w n m0 m m1 block s u (omega (arith, lt, u.same_size))
                      (omega arith) in
                  elim (write_loop-Stored fuel (w + n) m0 (put_rows layer block slot n k v w m1)
                    (ground arith) (ground arith) room s') [
                      | inl (m', run, done) ↦ inl (m', rw (more, e, and_then) run, done)
                      | inr (upto, m', run, part) ↦ inr (upto, m', rw (more, e, and_then) run, part)
                    ])
          ])
  ]

get_or-append : (xs ys : List ℕ) (i d : ℕ) → i < length xs → get_or (xs ++ ys) i d ≡ get_or xs i d
get_or-append [] ys i d h = absurd (omega arith)
get_or-append (x ∷ xs) ys zero d h = refl
get_or-append (x ∷ xs) ys (suc i) d h = get_or-append xs ys i d (omega arith)

-- What `write` leaves: the rows stand at their tokens, every other row of the sequence and every
-- block of others is as before.
pub record Wrote {ℓ} {V : Type ℓ} (bs layer start : ℕ) (k v : List V) (held : List ℕ)
    (m m' : Memory V) : Type ℓ where
  pub accounts : Accounts m'.allocator (m'.kv.block_table ++ held)
  pub room : start + length k ≤ length m'.kv.block_table * bs
  pub more_blocks : length m.kv.block_table ≤ length m'.kv.block_table
  pub same_length : m'.kv.length ≡ m.kv.length
  pub k_written :
      (i : ℕ) (d : V)
      → i < length k
      → cell bs m'.kv.block_table m'.k_pool layer (start + i) ≡ get_or k i d
  pub v_written :
      (i : ℕ) (d : V)
      → i < length k
      → i < length v
      → cell bs m'.kv.block_table m'.v_pool layer (start + i) ≡ get_or v i d
  pub k_kept :
      (l t : ℕ)
      → t < length m.kv.block_table * bs
      → (l ≢ layer) ⊎ ((t < start) ⊎ (start + length k ≤ t))
      → cell bs m'.kv.block_table m'.k_pool l t ≡ cell bs m.kv.block_table m.k_pool l t
  pub v_kept :
      (l t : ℕ)
      → t < length m.kv.block_table * bs
      → (l ≢ layer) ⊎ ((t < start) ⊎ (start + length k ≤ t))
      → cell bs m'.kv.block_table m'.v_pool l t ≡ cell bs m.kv.block_table m.v_pool l t
  pub k_held : KeepsHeld held m.k_pool m'.k_pool
  pub v_held : KeepsHeld held m.v_pool m'.v_pool

Rows-start {ℓ} :
    {V : Type ℓ} (bs layer start : ℕ) (rows : List V) (table : List ℕ) (pool : Pool V)
    → Rows bs layer start rows 0 table pool table pool
Rows-start bs layer start rows table pool l t h =
    sym (if_skip ((l == layer) && (leb start t && ltb t (start + 0))) _ _ (ground arith))

Rows-at {ℓ} :
    {V : Type ℓ} (bs layer start n : ℕ) (rows : List V) (table0 table : List ℕ)
    (pool0 pool : Pool V)
    → Rows bs layer start rows n table0 pool0 table pool
    → (i : ℕ) (d : V) → start + i < length table0 * bs
    → i < n
    → i < length rows
    → cell bs table pool layer (start + i) ≡ get_or rows i d
Rows-at bs layer start n rows table0 table pool0 pool r i d h lt small =
    let offset : start + i - start ≡ i = omega arith in
    r layer (start + i) h
    ∙ if_taken ((layer == layer) && (leb start (start + i) && ltb (start + i) (start + n))) _ _
        (ground arith)
    ∙ ap (λ j. get_or rows j (cell bs table0 pool0 layer (start + i))) offset
    ∙ get_or-default rows i (cell bs table0 pool0 layer (start + i)) d small

Rows-else {ℓ} :
    {V : Type ℓ} (bs layer start n : ℕ) (rows : List V) (table0 table : List ℕ)
    (pool0 pool : Pool V)
    → Rows bs layer start rows n table0 pool0 table pool
    → (l t : ℕ) → t < length table0 * bs
    → (l ≢ layer) ⊎ ((t < start) ⊎ (start + n ≤ t))
    → cell bs table pool l t ≡ cell bs table0 pool0 l t
Rows-else bs layer start n rows table0 table pool0 pool r l t h away =
    r l t h ∙ if_skip ((l == layer) && (leb start t && ltb t (start + n))) _ _ (outside away)
  where
    outside :
        (l ≢ layer) ⊎ ((t < start) ⊎ (start + n ≤ t))
        → ((l == layer) && (leb start t && ltb t (start + n))) ≡ false
    outside (inl ne) = ground arith
    outside (inr (inl early)) = ground arith
    outside (inr (inr late)) = ground arith

cell_extended {ℓ} :
    {V : Type ℓ} (bs : ℕ) (table table' more : List ℕ) (pool : Pool V) (l t : ℕ)
    → 0 < bs
    → table' ≡ table ++ more
    → t < length table * bs
    → cell bs table' pool l t ≡ cell bs table pool l t
cell_extended bs table table' more pool l t h e inside =
    ap (λ xs. cell bs xs pool l t) e
    ∙ ap (λ b. pool l b (t % bs))
        (get_or-append table more (t / bs) 0 (index-lt bs t (length table) h inside))

wider_table : (a b c bs u : ℕ) → c ≡ a + b → u < a * bs → u < c * bs
wider_table a b c bs u e h = omega (arith, ap (λ n. n * bs) e)

module _ {ℓ} {V : Type ℓ} (bs layer start : ℕ) (k v : List V) (held : List ℕ) (m : Memory V)
    (positive : 0 < bs) where
  start-Stored :
      (kv : SequenceKv) (more : List ℕ) (t : Allocator)
      → Extends m.allocator held m.kv kv more t
      → Stored bs layer start k v held positive 0
          (record m { kv = kv; allocator = t })
          (record m { kv = kv; allocator = t })
  start-Stored kv more t x = record {
    accounts = x.accounts;
    same_size = refl;
    same_length = refl;
    k_rows = Rows-start bs layer start k kv.block_table m.k_pool;
    v_rows = Rows-start bs layer start v kv.block_table m.v_pool;
    k_held = λ l b i h. refl;
    v_held = λ l b i h. refl;
  }

  Stored-Wrote :
      (kv : SequenceKv) (more : List ℕ) (t : Allocator) (m' : Memory V)
      → Extends m.allocator held m.kv kv more t
      → start + length k ≤ length kv.block_table * bs
      → Stored bs layer start k v held positive (length k) (record m { kv = kv; allocator = t }) m'
      → Wrote bs layer start k v held m m'
  Stored-Wrote kv more t m' x room s =
      let size = ap (length {A = ℕ}) x.table ∙ length-append m.kv.block_table more in
      let wider : (u : ℕ) → u < length m.kv.block_table * bs → u < length kv.block_table * bs =
        λ u h.
          wider_table (length m.kv.block_table) (length more) (length kv.block_table) bs u size h in
      record {
        accounts = s.accounts;
        room = rw s.same_size room;
        more_blocks = omega (arith, s.same_size, size);
        same_length = s.same_length ∙ x.same_length;
        k_written = λ i d h.
            Rows-at bs layer start (length k) k kv.block_table m'.kv.block_table m.k_pool m'.k_pool
              s.k_rows i d (omega (arith, room, h)) h h;
        v_written = λ i d h g.
            Rows-at bs layer start (length k) v kv.block_table m'.kv.block_table m.v_pool m'.v_pool
              s.v_rows i d (omega (arith, room, h)) h g;
        k_kept = λ l u h away.
            Rows-else bs layer start (length k) k kv.block_table m'.kv.block_table m.k_pool
              m'.k_pool s.k_rows l u (wider u h) away
            ∙ cell_extended bs m.kv.block_table kv.block_table more m.k_pool l u positive x.table h;
        v_kept = λ l u h away.
            Rows-else bs layer start (length k) v kv.block_table m'.kv.block_table m.v_pool
              m'.v_pool s.v_rows l u (wider u h) away
            ∙ cell_extended bs m.kv.block_table kv.block_table more m.v_pool l u positive x.table h;
        k_held = s.k_held;
        v_held = s.v_held;
      }

  -- `write` of at least one row puts the rows at their tokens, whatever is shared, and changes no
  -- other row of the sequence and no block that others hold. Or it raises `OutOfBlocks`; then too
  -- the books agree and the blocks of others are as before.
  pub write-Wrote :
      0 < length k
      → Accounts m.allocator (m.kv.block_table ++ held)
      → ((m' : Memory V) × (write bs layer start k v m ≡ (ok tt, m'))
          × Wrote bs layer start k v held m m')
        ⊎ ((m' : Memory V) × (write bs layer start k v m ≡ (err out_of_blocks, m'))
            × Accounts m'.allocator (m'.kv.block_table ++ held)
            × KeepsHeld held m.k_pool m'.k_pool
            × KeepsHeld held m.v_pool m'.v_pool)
  unfolding write capacity
  write-Wrote some_rows a =
      let nonempty : (length k == 0) ≡ false = ground arith in
      elim (ensure_capacity-Extends bs m.kv (start + length k) m.allocator held positive a) [
        | inr (short, e) ↦ inr (m, rw (nonempty, e) refl, a, (λ l b i h. refl), (λ l b i h. refl))
        | inl (kv, more, t, e, n, room, x) ↦
            (let m0 = record m { kv = kv; allocator = t } in
              elim (write_loop-Stored bs layer start k v held positive (length k) 0 m0 m0
                (omega arith) (omega arith) room (start-Stored kv more t x)) [
                  | inl (m', run, s) ↦
                      inl (m', rw (nonempty, e, and_then) run, Stored-Wrote kv more t m' x room s)
                  | inr (upto, m', run, s) ↦
                      inr (m', rw (nonempty, e, and_then) run, s.accounts, s.k_held, s.v_held)
                ])
      ]
