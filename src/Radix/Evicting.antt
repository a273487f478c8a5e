-- ===== src/Radix/Evicting.antt =====
-- Eviction against the books: what `evict` frees, which leaves it takes, and when it stops.
use infer_lab.Base.{
  ℕ, zero, suc, ◌+◌, ◌≤◌, ◌<◌, ◌≡◌, ◌⊎◌, inl, inr, refl, ◌∙◌, List, [], ◌∷◌, ◌++◌, count-append,
  All, All-imp, true, false, Option, none, some, arith, ok, and_then, length,
}
use infer_lab.Allocator.{Allocator, num_free}
use infer_lab.Allocator.Accounts.{Accounts, Accounts-cast}
use infer_lab.Allocator.Releasing.{Regains, free-Regains}
use infer_lab.Radix.Tree.{Forest, Visit, walk, remove_at}
use infer_lab.Radix.Blocks.{own, blocks, AllHaveBlock}
use infer_lab.Radix.Walking.{IsVisit, walk-IsVisit, walk-BlockInRange}
use infer_lab.Radix.Picking.{
  evictable, only_cached, pick, choose-eq-pick, Fine, pick-Fine, NoNewer, pick_least,
}
use infer_lab.Radix.{Shared, free_if, evict_one, lru_evictable_leaf, evicted, evict}

-- The cache and the allocator agree: `held` are the references of the sequences.
pub record Sound (c : Shared) (held : List ℕ) : Type 0 where
  pub accounts : Accounts c.allocator (blocks c.radix.root ++ held)
  pub counted : c.radix.cached_blocks ≡ length (blocks c.radix.root)
  pub has_blocks : AllHaveBlock c.radix.root

pub lru-eq-pick :
    (c : Shared) (held : List ℕ)
    → Sound c held
    → lru_evictable_leaf c ≡ (ok (pick c.allocator none (walk c.radix.root)), c)
unfolding lru_evictable_leaf
lru-eq-pick c held h =
    rw
      (choose-eq-pick c.allocator none (walk c.radix.root)
        (walk-BlockInRange c.allocator held c.radix.root h.accounts))
      refl

free_if-Regains :
    (s : Allocator) (held : List ℕ) (o : Option ℕ) (rest : List ℕ)
    → Accounts s (own o ++ rest)
    → only_cached s o ≡ true
    → (t : Allocator) × (free_if o s ≡ (ok tt, t))
      × Regains s rest t
      × (num_free t ≡ num_free s + 1)
      × (length (own o) ≡ 1)
free_if-Regains s held none rest a e = cc
free_if-Regains s held (some b) rest a e =
    let (t, f, r, n) = free-Regains s rest b a in
    (t, rw (f, and_then) refl, r, ground (arith, n, a.counts b), refl)

-- One round of `evict` on an evictable leaf: its block becomes free, and the rest stays as it was.
evict_one-Sound :
    (c : Shared) (held : List ℕ) (v : Visit)
    → Sound c held
    → IsVisit c.radix.root v
    → evictable c.allocator v ≡ true
    → (c' : Shared) × (evict_one v c ≡ (ok tt, c'))
      × Sound c' held
      × (num_free c'.allocator ≡ num_free c.allocator + 1)
      × (c'.radix.cached_blocks + 1 ≡ c.radix.cached_blocks)
      × (c'.allocator.num_blocks ≡ c.allocator.num_blocks)
      × (c'.allocator.block_size ≡ c.allocator.block_size)
unfolding evict_one
evict_one-Sound c held v h i e =
    let leaf : v.is_leaf ≡ true = ground arith in
    let lone : only_cached c.allocator v.node.block_id ≡ true = ground arith in
    let left = remove_at v.place c.radix.root in
    let a : Accounts c.allocator (own v.node.block_id ++ (blocks left ++ held)) =
      Accounts-cast
        (λ b. omega (
          arith,
          i.cut leaf b,
          count-append b (blocks c.radix.root) held,
          count-append b (own v.node.block_id) (blocks left ++ held),
          count-append b (blocks left) held,
        ))
        h.accounts in
    let (t, f, r, n, one) =
      free_if-Regains c.allocator held v.node.block_id (blocks left ++ held) a lone in
    (
      evicted (record c.radix { root = left }) t,
      rw f refl,
      record {
        accounts = r.accounts;
        counted = omega (arith, h.counted, i.shorter leaf, one);
        has_blocks = i.has h.has_blocks;
      },
      n,
      omega (arith, h.counted, i.shorter leaf, one),
      r.same_size,
      r.same_block,
    )

-- No leaf of the tree can be evicted.
abbrev pub Exhausted : Shared → Type 0
Exhausted c = All (λ v. evictable c.allocator v ≡ false) (walk c.radix.root)

-- `evict n` frees `freed` blocks and reaches `c'`.
pub record Evicts (n : ℕ) (c : Shared) (held : List ℕ) (freed : ℕ) (c' : Shared) : Type 0 where
  pub sound : Sound c' held
  pub bounded : freed ≤ n
  pub gained : num_free c'.allocator ≡ num_free c.allocator + freed
  pub dropped : c'.radix.cached_blocks + freed ≡ c.radix.cached_blocks
  pub same_size : c'.allocator.num_blocks ≡ c.allocator.num_blocks
  pub same_block : c'.allocator.block_size ≡ c.allocator.block_size
  pub all_tried : freed < n → Exhausted c'

Evicts-none :
    (n : ℕ) (c : Shared) (held : List ℕ)
    → Sound c held
    → (0 < n → Exhausted c)
    → Evicts n c held 0 c
Evicts-none n c held h x = record {
  sound = h;
  bounded = omega arith;
  gained = omega arith;
  dropped = omega arith;
  same_size = refl;
  same_block = refl;
  all_tried = x;
}

evict_round :
    (n : ℕ) (c : Shared) (held : List ℕ) (best : Option Visit)
    → Sound c held
    → ((d : Shared)
        → Sound d held
        → (freed : ℕ) × (c' : Shared) × (evict n d ≡ (ok freed, c')) × Evicts n d held freed c')
    → lru_evictable_leaf c ≡ (ok best, c)
    → Fine c.allocator (IsVisit c.radix.root) best
    → All (NoNewer c.allocator best) (walk c.radix.root)
    → (freed : ℕ) × (c' : Shared) × (evict (suc n) c ≡ (ok freed, c'))
      × Evicts (suc n) c held freed c'
unfolding evict
evict_round n c held none h ih e fine least =
    (0, c, rw e refl, Evicts-none (suc n) c held h (λ _. least))
evict_round n c held (some v) h ih e fine least =
    let (d, f, h', gain, drop, m, k) = evict_one-Sound c held v h fine.0 fine.1 in
    let (freed, c', g, r) = ih d h' in
    (
      suc freed,
      c',
      rw (e, f, g) refl,
      record {
        sound = r.sound;
        bounded = omega (arith, r.bounded);
        gained = omega (arith, r.gained, gain);
        dropped = omega (arith, r.dropped, drop);
        same_size = r.same_size ∙ m;
        same_block = r.same_block ∙ k;
        all_tried = λ lt. r.all_tried (omega arith);
      },
    )

-- `evict n` always succeeds: it frees at most `n` blocks, exactly those that it reports, drops as
-- many from the cache and keeps the books of the cache and of the sequences; if it stops short of
-- `n`, no leaf is left whose block only the cache holds.
pub evict-Evicts :
    (n : ℕ) (c : Shared) (held : List ℕ)
    → Sound c held
    → (freed : ℕ) × (c' : Shared) × (evict n c ≡ (ok freed, c')) × Evicts n c held freed c'
evict-Evicts zero c held h =
    (0, c, unfold evict in refl, Evicts-none 0 c held h (λ lt. absurd (omega arith)))
evict-Evicts (suc n) c held h =
    evict_round n c held (pick c.allocator none (walk c.radix.root)) h
      (λ d h'. evict-Evicts n d held h') (lru-eq-pick c held h)
      (pick-Fine c.allocator (IsVisit c.radix.root) (walk c.radix.root) none tt
        (walk-IsVisit c.radix.root))
      (pick_least c.allocator (walk c.radix.root) none).1

abbrev pub Among : Visit → List Visit → Type 0
Among v [] = ⊥
Among v (w ∷ vs) = (v ≡ w) ⊎ Among v vs

All-Among : (vs : List Visit) → All (λ v. Among v vs) vs
All-Among [] = tt
All-Among (v ∷ vs) = (inl refl, All-imp vs (λ w h. inr h) (All-Among vs))

-- `v` is one of the nodes of the tree, unchanged, and can be cut if it is a leaf.
abbrev pub NodeOf : Forest → Visit → Type 0
NodeOf f v = Among v (walk f) × IsVisit f v

walk-NodeOf : (f : Forest) → All (NodeOf f) (walk f)
walk-NodeOf f = both (walk f) (All-Among (walk f)) (walk-IsVisit f)
  where
    both :
        (vs : List Visit) → All (λ v. Among v (walk f)) vs → All (IsVisit f) vs → All (NodeOf f) vs
    both [] a b = tt
    both (v ∷ vs) a b = ((a.0, b.0), both vs a.1 b.1)

-- The leaf that is evicted first: on a cache with its invariant `_lru_evictable_leaf` finds one
-- whenever there is one; it is a node of the tree as it stands there, a leaf whose block only the
-- cache holds, and no other such leaf was used less recently.
pub lru_evictable_leaf-least :
    (c : Shared) (held : List ℕ)
    → Sound c held
    → (r : Option Visit) × (lru_evictable_leaf c ≡ (ok r, c))
      × Fine c.allocator (NodeOf c.radix.root) r
      × All (NoNewer c.allocator r) (walk c.radix.root)
lru_evictable_leaf-least c held h = (
  pick c.allocator none (walk c.radix.root),
  lru-eq-pick c held h,
  pick-Fine c.allocator (NodeOf c.radix.root) (walk c.radix.root) none tt
      (walk-NodeOf c.radix.root),
  (pick_least c.allocator (walk c.radix.root) none).1,
)
