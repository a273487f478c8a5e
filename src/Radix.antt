-- ===== src/Radix.antt =====
-- src/infer_lab/kv/radix_cache.py: the cache, its methods and LRU eviction over Radix/Tree.antt.
pub mod Tree
pub mod Blocks
pub mod Matching
pub mod Inserting
pub mod Picking
pub mod Walking
pub mod Evicting
pub mod Shape
pub mod Publishing
pub mod Keeping
use infer_lab.Base.{
  ℕ, zero, suc, ◌+◌, ◌-◌, ◌*◌, ◌/◌, min, List, [], ◌∷◌, ◌++◌, map, length, take, drop, Bool, true,
  false, ◌&&◌, ltb, ◌==◌, if◌then◌else◌, Option, none, some, Result, ok, err, Outcome, Action,
  and_then, ◌>>=◌, pure, Error,
}
use infer_lab.Allocator.{Allocator, free, ref_count}
use Tree.{Node, Forest, nil, tree, Inserted, Visit, match_below, insert_below, walk, remove_at}

pub record Stats : Type 0 where
  pub lookups : ℕ
  pub hits : ℕ
  pub hit_tokens : ℕ
  pub inserted_blocks : ℕ
  pub evicted_blocks : ℕ

-- `clock` is the number that `next(self._clock)` returns next.
pub record RadixCache : Type 0 where
  pub block_size : ℕ
  pub max_blocks : Option ℕ
  pub root : Forest
  pub stats : Stats
  pub clock : ℕ
  pub cached_blocks : ℕ

-- The cache with the allocator that it shares with the sequences.
pub record Shared : Type 0 where
  pub radix : RadixCache
  pub allocator : Allocator

abbrev pub init : ℕ → Option ℕ → RadixCache
init block_size max_blocks = record {
  block_size = block_size;
  max_blocks = max_blocks;
  root = nil;
  stats = record { lookups = 0; hits = 0; hit_tokens = 0; inserted_blocks = 0; evicted_blocks = 0 };
  clock = 1;
  cached_blocks = 0;
}

-- `usable // block_size` chunks, so the last token is never matched.
abbrev pub max_chunks : ℕ → List ℕ → ℕ
max_chunks bs tokens = (length tokens - 1) / bs

unfoldable pub match_prefix : List ℕ → RadixCache → (List ℕ × ℕ) × RadixCache
match_prefix tokens c =
    let bs = c.block_size in
    let found = match_below c.clock bs tokens (max_chunks bs tokens) c.root in
    let matched = length found.0 * bs in
    (
      (found.0, matched),
      record c {
        root = found.1;
        clock = c.clock + 1;
        stats = record c.stats {
          lookups = c.stats.lookups + 1;
          hits = (if matched == 0 then c.stats.hits else c.stats.hits + 1);
          hit_tokens = c.stats.hit_tokens + matched;
        };
      },
    )

-- `best is None or node.last_access < best.last_access`
abbrev pub older : Option Visit → Visit → Option Visit
older none v = some v
older (some best) v = if ltb v.node.last_access best.node.last_access then some v else some best

unfoldable pub better : Option Visit → Visit → Action Allocator (Option Visit)
better best v =
    if v.is_leaf
    then elim v.node.block_id [
      | none ↦ pure best
      | some block ↦ (do refs ← ref_count block; pure (if refs == 1 then older best v else best))
    ]
    else pure best

unfoldable pub choose : Option Visit → List Visit → Action Allocator (Option Visit)
choose best [] s = (ok best, s)
choose best (v ∷ vs) s = and_then (better best v s) λ best' t. choose best' vs t

abbrev pub free_if : Option ℕ → Action Allocator (Unit {0})
free_if none s = (ok tt, s)
free_if (some block) s = and_then (free block s) λ _ t. (ok tt, t)

-- The counters after an eviction from the tree `r`, with the allocator that `free` left.
abbrev pub evicted : RadixCache → Allocator → Shared
evicted r t = record {
  radix = record r {
    cached_blocks = r.cached_blocks - 1;
    stats = record r.stats { evicted_blocks = r.stats.evicted_blocks + 1 };
  };
  allocator = t;
}

abbrev pub after_free : RadixCache → Outcome Allocator (Unit {0}) → Outcome Shared (Unit {0})
after_free r (ok _, t) = (ok tt, evicted r t)
after_free r (err e, t) = (err e, record { radix = r; allocator = t })

unfoldable pub evict_one : Visit → Action Shared (Unit {0})
evict_one victim c =
    after_free (record c.radix { root = remove_at victim.place c.radix.root })
      (free_if victim.node.block_id c.allocator)

-- `_lru_evictable_leaf`, which only reads.
unfoldable pub lru_evictable_leaf : Action Shared (Option Visit)
lru_evictable_leaf c =
    let (r, t) = choose none (walk c.radix.root) c.allocator in (r, record c { allocator = t })

-- `num_blocks` counts the blocks still wanted, and the result is how many were evicted.
unfoldable pub evict : ℕ → Action Shared ℕ
evict zero c = (ok 0, c)
evict (suc n) c = and_then (lru_evictable_leaf c) λ found t. elim found [
  | none ↦ (ok 0, t)
  | some victim ↦
      and_then (evict_one victim t) λ _ u. and_then (evict n u) λ freed v. (ok (suc freed), v)
]

unfoldable pub evict_to : ℕ → Action Shared ℕ
evict_to target c = evict (c.radix.cached_blocks - target) c

abbrev pub trim : Option ℕ → Action Shared (Unit {0})
trim none c = (ok tt, c)
trim (some m) c = and_then (evict_to m c) λ _ t. (ok tt, t)

abbrev pub num_chunks : ℕ → List ℕ → List ℕ → ℕ
num_chunks bs tokens block_ids = min (length block_ids) (length tokens / bs)

-- The cache after the loop of `insert`.
unfoldable pub insert_chunks : List ℕ → List ℕ → Shared → Inserted
insert_chunks tokens block_ids c =
    let bs = c.radix.block_size in
    insert_below c.radix.clock bs tokens 0 (take (num_chunks bs tokens block_ids) block_ids)
      c.radix.root c.allocator

abbrev pub registered : RadixCache → Inserted → Shared
registered r i = record {
  radix = record r {
    root = i.forest;
    clock = r.clock + 1;
    cached_blocks = r.cached_blocks + i.added;
    stats = record r.stats { inserted_blocks = r.stats.inserted_blocks + i.added };
  };
  allocator = i.allocator;
}

-- The end of `insert`: an exception of the loop, or the eviction down to `max_blocks`.
abbrev pub settle : Option ℕ → ℕ → Option Error → Action Shared ℕ
settle limit added (some e) c = (err e, c)
settle limit added none c = and_then (trim limit c) λ _ t. (ok added, t)

unfoldable pub insert : List ℕ → List ℕ → Action Shared ℕ
insert tokens block_ids c =
    let done = insert_chunks tokens block_ids c in
    settle c.radix.max_blocks done.added done.failure (registered c.radix done)

unfoldable pub num_nodes : RadixCache → ℕ
num_nodes r = length (walk r.root)

-- `reset`: every node in the order of the walk gives up its block.
unfoldable pub free_visits : List Visit → Action Allocator (Unit {0})
free_visits [] s = (ok tt, s)
free_visits (v ∷ vs) s = and_then (free_if v.node.block_id s) λ _ t. free_visits vs t

abbrev pub after_reset : RadixCache → Outcome Allocator (Unit {0}) → Outcome Shared (Unit {0})
after_reset r (ok _, t) =
    (ok tt, record { radix = record r { root = nil; cached_blocks = 0 }; allocator = t })
after_reset r (err e, t) = (err e, record { radix = r; allocator = t })

unfoldable pub reset : Action Shared (Unit {0})
reset c = after_reset c.radix (free_visits (walk c.radix.root) c.allocator)
