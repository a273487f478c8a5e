-- ===== src/Paged/Pools.antt =====
-- paged_cache.py: the two pools of keys and values, `write` with copy on write, and `gather`. A row
-- of a pool, an array of `num_kv_heads` times `head_dim` floats, is a value of any type; a pool is
-- read by layer, block and slot. The sequence is part of the state, since a call that raises has
-- changed it.
pub mod Cells
pub mod Sharing
pub mod Writing
pub mod Storing
pub mod Gathering
use infer_lab.Base.{
  ℕ, zero, suc, ◌+◌, ◌-◌, ◌*◌, ◌/◌, ◌%◌, min, List, [], ◌∷◌, ◌++◌, length, take, set, get_or,
  get_elem?, Bool, true, false, ltb, leb, ◌==◌, ◌&&◌, ◌||◌, if◌then◌else◌, Option, none, some,
  Result, ok, err, Outcome, Action, and_then, index_error,
}
use infer_lab.Allocator.{Allocator, prepare_for_write}
use infer_lab.Paged.{SequenceKv, ceil_div, ensure_capacity}

abbrev pub Pool {ℓ} : Type ℓ → Type ℓ
Pool V = ℕ → ℕ → ℕ → V

pub record Memory {ℓ} (V : Type ℓ) : Type ℓ where
  pub kv : SequenceKv
  pub allocator : Allocator
  pub k_pool : Pool V
  pub v_pool : Pool V

-- `seq_kv.length = n`
abbrev pub with_length {ℓ} : {V : Type ℓ} → ℕ → Memory V → Memory V
with_length n m = record m { kv = record m.kv { length = n } }

abbrev pub no_blocks : List ℕ → Bool
no_blocks [] = true
no_blocks (b ∷ bs) = false

module _ {ℓ} {V : Type ℓ} where
  -- `pool[:, to] = pool[:, from]`
  abbrev pub copy_block : ℕ → ℕ → Pool V → Pool V
  copy_block from to pool l b i = if b == to then pool l from i else pool l b i

  -- `pool[layer, block, slot:slot + count] = rows[written:written + count]`
  abbrev pub write_slots : ℕ → ℕ → ℕ → ℕ → List V → ℕ → Pool V → Pool V
  write_slots layer block slot count rows written pool l b i =
      if (l == layer) && ((b == block) && (leb slot i && ltb i (slot + count)))
      then get_or rows (written + (i - slot)) (pool l b i)
      else pool l b i

  abbrev pub grown : Memory V → Outcome Allocator SequenceKv → Outcome (Memory V) (Unit {0})
  grown m (ok kv, t) = (ok tt, record m { kv = kv; allocator = t })
  grown m (err e, t) = (err e, record m { allocator = t })

  abbrev pub reserve : ℕ → ℕ → Action (Memory V) (Unit {0})
  reserve bs total m = grown m (ensure_capacity bs m.kv total m.allocator)

  -- The end of `_writable_block`, after `prepare_for_write`.
  abbrev pub copied : ℕ → ℕ → Memory V → Outcome Allocator (ℕ × Bool) → Outcome (Memory V) ℕ
  copied index block m (err e, t) = (err e, record m { allocator = t })
  copied index block m (ok (new_block, false), t) = (ok new_block, record m { allocator = t })
  copied index block m (ok (new_block, true), t) = (
    ok new_block,
    record {
      kv = record m.kv { block_table = set m.kv.block_table index new_block };
      allocator = t;
      k_pool = copy_block block new_block m.k_pool;
      v_pool = copy_block block new_block m.v_pool;
    },
  )

  abbrev pub writable_found : ℕ → Option ℕ → Action (Memory V) ℕ
  writable_found index none m = (err index_error, m)
  writable_found index (some block) m = copied index block m (prepare_for_write block m.allocator)

  unfoldable pub writable_block : ℕ → Action (Memory V) ℕ
  writable_block index m = writable_found index (get_elem? m.kv.block_table index) m

  abbrev pub put_rows : ℕ → ℕ → ℕ → ℕ → List V → List V → ℕ → Memory V → Memory V
  put_rows layer block slot count k v written m = record m {
    k_pool = write_slots layer block slot count k written m.k_pool;
    v_pool = write_slots layer block slot count v written m.v_pool;
  }

  -- The `while` loop of `write`; a round writes at least one row, so that `n` rounds are enough.
  unfoldable pub write_loop : ℕ → ℕ → ℕ → ℕ → List V → List V → ℕ → Action (Memory V) (Unit {0})
  write_loop zero bs layer start k v written m = (ok tt, m)
  write_loop (suc fuel) bs layer start k v written m =
      let slot = (start + written) % bs in
      let count = min (bs - slot) (length k - written) in
      let round = and_then (writable_block ((start + written) / bs) m) λ block m'.
        write_loop fuel bs layer start k v (written + count)
          (put_rows layer block slot count k v written m') in
      if ltb written (length k) then round else (ok tt, m)

  unfoldable pub write : ℕ → ℕ → ℕ → List V → List V → Action (Memory V) (Unit {0})
  write bs layer start k v m =
      if length k == 0
      then (ok tt, m)
      else and_then (reserve bs (start + length k) m)
          λ _ m'. write_loop (length k) bs layer start k v 0 m'

  -- The rows `f 0`, …, `f (n - 1)`.
  abbrev pub rows_from : ℕ → ℕ → (ℕ → V) → List V
  rows_from start zero f = []
  rows_from start (suc n) f = f start ∷ rows_from (suc start) n f

  -- `pool[layer, table].reshape(-1, ...)`
  unfoldable pub flat : ℕ → ℕ → Pool V → List ℕ → List V
  flat bs layer pool [] = []
  flat bs layer pool (block ∷ table) = rows_from 0 bs (pool layer block) ++ flat bs layer pool table

  unfoldable pub gather : ℕ → ℕ → Memory V → List V × List V
  gather bs layer m =
      let table = take (ceil_div m.kv.length bs) m.kv.block_table in
      if (m.kv.length == 0) || no_blocks m.kv.block_table then ([], []) else (
        take m.kv.length (flat bs layer m.k_pool table),
        take m.kv.length (flat bs layer m.v_pool table),
      )
