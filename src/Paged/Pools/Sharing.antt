-- ===== src/Paged/Pools/Sharing.antt =====
-- `_writable_block`: copy on write keeps every row, the sequence's own and those of others.
use infer_lab.Base.{
  ℕ, zero, suc, ◌*◌, ◌/◌, ◌%◌, ◌<◌, ◌≡◌, ◌≢◌, ◌⊎◌, inl, inr, refl, ap, ◌∙◌, List, [], ◌∷◌, ◌++◌,
  length, length-set, count, count-append, set, get_or, get_or-set, Bool-cases, ◌==◌, ==_iff,
  ==_refl, Option, arith, ok, err, out_of_blocks,
}
use infer_lab.Allocator.{num_free}
use infer_lab.Allocator.Accounts.{Accounts, Accounts-cast}
use infer_lab.Allocator.Writing.{
  prepare_for_write_private, prepare_for_write_shared, prepare_for_write_full,
}
use infer_lab.Paged.Pools.{Pool, Memory, copy_block, copied, writable_found, writable_block}
use infer_lab.Paged.Pools.Cells.{
  cell, remove_at, get_elem?-eq-get_or, count-remove_at, count-set, count_of_other, index-lt,
}

-- The sequence reads the same rows in both pools.
abbrev pub SameCells {ℓ} : {V : Type ℓ} → ℕ → List ℕ → List ℕ → Pool V → Pool V → Type ℓ
SameCells bs table table' pool pool' =
    (l t : ℕ) → t < length table * bs → cell bs table' pool' l t ≡ cell bs table pool l t

-- The blocks that others hold are as they were.
abbrev pub KeepsHeld {ℓ} : {V : Type ℓ} → List ℕ → Pool V → Pool V → Type ℓ
KeepsHeld held pool pool' = (l b i : ℕ) → 0 < count b held → pool' l b i ≡ pool l b i

-- The block at `index` of the table is now the sequence's alone.
pub record Writable {ℓ} {V : Type ℓ} (bs : ℕ) (held : List ℕ) (index block : ℕ) (m m' : Memory V)
    : Type ℓ where
  pub accounts : Accounts m'.allocator (m'.kv.block_table ++ held)
  pub here : get_or m'.kv.block_table index 0 ≡ block
  pub alone : count block (remove_at index m'.kv.block_table ++ held) ≡ 0
  pub same_size : length m'.kv.block_table ≡ length m.kv.block_table
  pub same_length : m'.kv.length ≡ m.kv.length
  pub k_cells : SameCells bs m.kv.block_table m'.kv.block_table m.k_pool m'.k_pool
  pub v_cells : SameCells bs m.kv.block_table m'.kv.block_table m.v_pool m'.v_pool
  pub k_held : KeepsHeld held m.k_pool m'.k_pool
  pub v_held : KeepsHeld held m.v_pool m'.v_pool

copy_block_self {ℓ} :
    {V : Type ℓ} (from c l i : ℕ) (pool : Pool V) → copy_block from c pool l c i ≡ pool l from i
copy_block_self from c l i pool = rw (==_refl c) refl

copy_block_ne {ℓ} :
    {V : Type ℓ} (from c l b i : ℕ) (pool : Pool V)
    → b ≢ c
    → copy_block from c pool l b i ≡ pool l b i
copy_block_ne from c l b i pool ne = elim (Bool-cases (b == c)) [
  | inl same ↦ absurd (ne ((==_iff b c).0 same))
  | inr other ↦ rw other refl
]

module _ {ℓ} {V : Type ℓ} (bs : ℕ) (held table : List ℕ) (index c : ℕ)
    (lt : index < length table) where
  -- The copy in the block `c`, which nobody else holds.
  copy-SameCells :
      (pool : Pool V)
      → 0 < bs
      → count c (remove_at index table ++ held) ≡ 0
      → SameCells bs table (set table index c) pool (copy_block (get_or table index 0) c pool)
  copy-SameCells pool h fresh l t in_table =
      let j = t / bs in
      let jt : j < length table = index-lt bs t (length table) h in_table in
      let at = get_or-set table index j c 0 in
      elim (Bool-cases (index == j)) [
        | inl hit ↦
            (let same = (==_iff index j).0 hit in
              let moved : get_or (set table index c) j 0 ≡ c = ground arith in
              ap (λ b. copy_block (get_or table index 0) c pool l b (t % bs)) moved
              ∙ copy_block_self (get_or table index 0) c l (t % bs) pool
              ∙ ap (λ x. pool l (get_or table x 0) (t % bs)) same)
        | inr miss ↦
            (let kept : get_or (set table index c) j 0 ≡ get_or table j 0 = ground arith in
              let held_there = count_of_other table index j (λ e. cc ((==_iff index j).1 e)) jt in
              let ne : get_or table j 0 ≢ c = λ e.
                let bad = ap (λ x. count x (remove_at index table)) e in
                omega
                  (arith, held_there, fresh, count-append c (remove_at index table) held, bad) in
              ap (λ b. copy_block (get_or table index 0) c pool l b (t % bs)) kept
              ∙ copy_block_ne (get_or table index 0) c l (get_or table j 0) (t % bs) pool ne)
      ]

  copy-KeepsHeld :
      (pool : Pool V)
      → count c (remove_at index table ++ held) ≡ 0
      → KeepsHeld held pool (copy_block (get_or table index 0) c pool)
  copy-KeepsHeld pool fresh l b i kept = copy_block_ne (get_or table index 0) c l b i pool (λ e.
      let bad = ap (λ x. count x held) e in
      omega (arith, kept, fresh, count-append c (remove_at index table) held, bad))

remove_at-set : (xs : List ℕ) (i v : ℕ) → remove_at i (set xs i v) ≡ remove_at i xs
remove_at-set [] i v = refl
remove_at-set (x ∷ xs) zero v = refl
remove_at-set (x ∷ xs) (suc i) v = ap (λ (ys : List ℕ). x ∷ ys) (remove_at-set xs i v)

-- `_writable_block` of an index in the table makes that block the sequence's alone: it reads the
-- same rows as before, and no block of others has changed. It raises `OutOfBlocks` and changes
-- nothing where the block is shared and no block is free.
pub writable_block-Writable {ℓ} :
    {V : Type ℓ} (bs : ℕ) (held : List ℕ) (index : ℕ) (m : Memory V)
    → 0 < bs
    → index < length m.kv.block_table
    → Accounts m.allocator (m.kv.block_table ++ held)
    → ((block : ℕ) × (m' : Memory V) × (writable_block index m ≡ (ok block, m'))
        × Writable bs held index block m m')
      ⊎ ((num_free m.allocator ≡ 0) × (writable_block index m ≡ (err out_of_blocks, m)))
unfolding writable_block
writable_block-Writable bs held index m h lt a =
    let table = m.kv.block_table in
    let b = get_or table index 0 in
    let rest = remove_at index table ++ held in
    let found = get_elem?-eq-get_or table index lt in
    let split : Accounts m.allocator (b ∷ rest) =
      Accounts-cast
        (λ x. omega (
          arith,
          count-append x table held,
          count-remove_at x table index lt,
          count-append x (remove_at index table) held,
        ))
        a in
    let run = λ (o : Option ℕ). writable_found index o m in
    elim (Bool-cases (count b rest == 0)) [
      | inl none_else ↦
          (let alone = (==_iff (count b rest) 0).0 none_else in
            let e = prepare_for_write_private m.allocator rest b split alone in
            inl (
              b,
              m,
              ap run found ∙ ap (copied index b m) e,
              record {
                accounts = a;
                here = refl;
                alone = alone;
                same_size = refl;
                same_length = refl;
                k_cells = λ l t k. refl;
                v_cells = λ l t k. refl;
                k_held = λ l x i k. refl;
                v_held = λ l x i k. refl;
              },
            ))
      | inr others ↦
          (let shared : 0 < count b rest = ground arith in
            elim (Bool-cases (num_free m.allocator == 0)) [
              | inl full ↦
                  (let dry = (==_iff (num_free m.allocator) 0).0 full in
                    inr (
                      dry,
                      ap run found
                          ∙ ap (copied index b m)
                              (prepare_for_write_full m.allocator rest b split shared dry),
                    ))
              | inr room ↦
                  (let (c, t, e, a', fresh, taken, size) =
                      prepare_for_write_shared m.allocator rest b split shared (ground arith) in
                    inl (
                      c,
                      _,
                      ap run found ∙ ap (copied index b m) e,
                      record {
                        accounts =
                            Accounts-cast
                              (λ x. omega (
                                arith,
                                count-append x (set table index c) held,
                                count-set x table index c lt,
                                count-append x (remove_at index table) held,
                              ))
                              a';
                        here = ground (arith, get_or-set table index index c 0);
                        alone =
                            ap (λ (xs : List ℕ). count c (xs ++ held)) (remove_at-set table index c)
                            ∙ fresh;
                        same_size = length-set table index c;
                        same_length = refl;
                        k_cells = copy-SameCells bs held table index c lt m.k_pool h fresh;
                        v_cells = copy-SameCells bs held table index c lt m.v_pool h fresh;
                        k_held = copy-KeepsHeld bs held table index c lt m.k_pool fresh;
                        v_held = copy-KeepsHeld bs held table index c lt m.v_pool fresh;
                      },
                    ))
            ])
    ]
