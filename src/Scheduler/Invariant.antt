-- ===== src/Scheduler/Invariant.antt =====
-- What holds of the scheduler between two calls, and how a call inside a step may change it.
use infer_lab.Base.{
  ℕ, ◌+◌, ◌≤◌, ◌<◌, ◌≡◌, sym, refl, ap, subst, ◌∙◌, List, [], ◌++◌, length, count, All, true,
  Option, none, some, arith, ok,
}
use infer_lab.Allocator.{Allocator, num_free}
use infer_lab.Allocator.Accounts.{Accounts, Accounts-cast}
use infer_lab.Paged.{SequenceKv}
use infer_lab.Radix.{RadixCache, Shared}
use infer_lab.Radix.Blocks.{blocks, AllHaveBlock}
use infer_lab.Radix.Evicting.{Sound, Exhausted, evict-Evicts}
use infer_lab.Request.{Request}
use infer_lab.Scheduler.State.{Scheduler, find_request, ids, contains, put_back}
use infer_lab.Scheduler.Room.{evict_from}
use infer_lab.Scheduler.Queues.{tables}

-- The blocks that the prefix cache holds, if there is one.
abbrev pub cached : Option RadixCache → List ℕ
cached none = []
cached (some c) = blocks c.root

abbrev pub CacheSound : Option RadixCache → Type 0
CacheSound none = Unit {0}
CacheSound (some c) = (c.cached_blocks ≡ length (blocks c.root)) × AllHaveBlock c.root

abbrev pub HasKv : Option SequenceKv → Type 0
HasKv none = ⊥
HasKv (some kv) = Unit {0}

abbrev pub Seated : Request → Type 0
Seated r = HasKv r.kv

-- All references to blocks: the cache's, then those of the requests.
abbrev pub held : Scheduler → List ℕ
held s = tables s.running ++ tables s.waiting

pub record Inv (s : Scheduler) : Type 0 where
  -- the allocator's counts are the references of the cache and of both queues
  pub books : Accounts s.allocator (cached s.radix ++ held s)
  pub cache : CacheSound s.radix
  -- a running request has a block table
  pub seated : All Seated s.running
  -- no request stands twice
  pub distinct : (i : ℕ) → count i (ids s.running) + count i (ids s.waiting) ≤ 1
  pub few : length s.running ≤ s.config.max_num_seqs

-- `t` is `s` after calls that preempt only requests that are not protected.
pub record Moves (protected : List ℕ) (s t : Scheduler) : Type 0 where
  pub inv : Inv t
  pub same_config : t.config ≡ s.config
  pub same_size : t.allocator.num_blocks ≡ s.allocator.num_blocks
  pub grown : num_free s.allocator ≤ num_free t.allocator
  pub kept :
      (id : ℕ)
      → contains id protected ≡ true
      → find_request id t.running ≡ find_request id s.running

pub Moves-refl : (protected : List ℕ) (s : Scheduler) → Inv s → Moves protected s s
Moves-refl protected s v = record {
  inv = v;
  same_config = refl;
  same_size = refl;
  grown = omega arith;
  kept = λ id h. refl;
}

pub Moves-trans :
    (protected : List ℕ) (s t u : Scheduler)
    → Moves protected s t
    → Moves protected t u
    → Moves protected s u
Moves-trans protected s t u m n = record {
  inv = n.inv;
  same_config = n.same_config ∙ m.same_config;
  same_size = n.same_size ∙ m.same_size;
  grown = omega (arith, m.grown, n.grown);
  kept = λ id h. n.kept id h ∙ m.kept id h;
}

-- The cache, if there is one, has no leaf that can be evicted.
abbrev pub CacheExhausted : Option RadixCache → Allocator → Type 0
CacheExhausted none a = Unit {0}
CacheExhausted (some c) a = Exhausted (record { radix = c; allocator = a })

-- Eviction from the cache changes neither queue and frees what it says, fewer than `n` only where it
-- leaves nothing to evict.
pub evict_from-Moves :
    (c : Option RadixCache) (n : ℕ) (s : Scheduler) (protected : List ℕ)
    → s.radix ≡ c
    → Inv s
    → (freed : ℕ) × (t : Scheduler) × (evict_from c n s ≡ (ok freed, t))
      × Moves protected s t
      × (num_free t.allocator ≡ num_free s.allocator + freed)
      × (t.running ≡ s.running)
      × (t.waiting ≡ s.waiting)
      × (freed < n → CacheExhausted t.radix t.allocator)
evict_from-Moves none n s protected e v = (
  0,
  s,
  refl,
  Moves-refl protected s v,
  omega arith,
  refl,
  refl,
  λ _. subst (λ o. CacheExhausted o s.allocator) (sym e) tt,
)
evict_from-Moves (some c) n s protected e v =
    let books : Accounts s.allocator (blocks c.root ++ held s) =
      Accounts-cast (λ b. ap (λ o. count b (cached o ++ held s)) e) v.books in
    let cache : CacheSound (some c) = subst CacheSound e v.cache in
    let start : Shared = record { radix = c; allocator = s.allocator } in
    let sound : Sound start (held s) = record {
      accounts = books;
      counted = cache.0;
      has_blocks = cache.1;
    } in
    let (freed, c', run, ev) = evict-Evicts n start (held s) sound in
    (
      freed,
      put_back s c',
      rw run refl,
      record {
        inv = record {
          books = ev.sound.accounts;
          cache = (ev.sound.counted, ev.sound.has_blocks);
          seated = v.seated;
          distinct = v.distinct;
          few = v.few;
        };
        same_config = refl;
        same_size = ev.same_size;
        grown = omega (arith, ev.gained);
        kept = λ id h. refl;
      },
      ev.gained,
      refl,
      refl,
      ev.all_tried,
    )
