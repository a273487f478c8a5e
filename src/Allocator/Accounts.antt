-- ===== src/Allocator/Accounts.antt =====
-- The books of the allocator against the references that its clients hold: `held` lists the blocks
-- of all block tables and of the prefix cache, a block once for each reference to it.
use infer_lab.Base.{
  ℕ, zero, suc, ◌+◌, ◌<◌, ◌≡◌, sym, ◌∙◌, List, [], length, get_or, count, live, arith, ◌==◌,
  if◌then◌else◌, get_or-default, get_or-out, replicate, range_from, length-range_from,
  count-range_from, length-replicate, get_or-replicate, live-replicate, live-cast, ok,
}
use infer_lab.Allocator.{Allocator, init, num_free, ref_at}

pub record Accounts (s : Allocator) (held : List ℕ) : Type 0 where
  -- there is one reference count for each block
  pub sized : length s.ref ≡ s.num_blocks
  -- the reference count of a block is the number of references that are held
  pub counts : (b : ℕ) → ref_at s b ≡ count b held
  -- the free list holds each block of the pool that has no reference, once, and nothing else
  pub exact : (b : ℕ) → count b s.free_list ≡ (if get_or s.ref b 1 == 0 then 1 else 0)
  -- a block is free or in use, never both and never neither
  pub total : length s.free_list + live s.ref ≡ s.num_blocks

-- The order in which references are listed does not matter.
pub Accounts-cast :
    {s : Allocator} {held held' : List ℕ}
    → ((b : ℕ) → count b held ≡ count b held')
    → Accounts s held
    → Accounts s held'
Accounts-cast same a = record {
  sized = a.sized;
  counts = λ b. a.counts b ∙ same b;
  exact = a.exact;
  total = a.total;
}

-- A block that somebody holds is a block of the pool.
pub held-lt-num_blocks :
    (s : Allocator) (held : List ℕ) (b : ℕ) → Accounts s held → 0 < count b held → b < s.num_blocks
held-lt-num_blocks s held b a h = ground (arith, a.counts b, a.sized, get_or-out s.ref b 0)

-- So is a block on the free list, and nobody holds it.
pub free-unheld :
    (s : Allocator) (held : List ℕ) (b : ℕ)
    → Accounts s held
    → 0 < count b s.free_list
    → (b < s.num_blocks) × (count b held ≡ 0)
free-unheld s held b a h =
    ground (arith, a.counts b, a.exact b, a.sized, get_or-out s.ref b 1, get_or-default s.ref b 0 1)

-- A new allocator holds all its blocks free, each once, and its books agree with no references.
pub init-Accounts : (n block_size : ℕ) {s : Allocator} → init n block_size ≡ ok s → Accounts s []
unfolding init
init-Accounts zero bs e = cc
init-Accounts (suc n) bs {s} e = subst_state (ground arith)
  where
    fresh : Allocator
    fresh = record {
      num_blocks = suc n;
      block_size = bs;
      free_list = range_from 0 (suc n);
      ref = replicate (suc n) 0;
      stats = record { allocated = 0; freed = 0; peak_used = 0; cow_copies = 0 };
    }

    fresh-Accounts : Accounts fresh []
    fresh-Accounts = record {
      sized = length-replicate {A = ℕ} (suc n) 0;
      counts = λ b. ground (arith, get_or-replicate {A = ℕ} (suc n) b 0 0);
      exact =
          λ b. ground (arith, get_or-replicate {A = ℕ} (suc n) b 0 1, count-range_from b 0 (suc n));
      total = omega (arith, length-range_from 0 (suc n), live-replicate (suc n));
    }

    subst_state : fresh ≡ s → Accounts s []
    subst_state p = rw p at fresh-Accounts

-- The number of free blocks is determined by what is held.
pub num_free_unique :
    (s t : Allocator) (held : List ℕ)
    → Accounts s held
    → Accounts t held
    → s.num_blocks ≡ t.num_blocks
    → num_free s ≡ num_free t
num_free_unique s t held a b e = omega (
  arith,
  a.total,
  b.total,
  live-cast s.ref t.ref (a.sized ∙ e ∙ sym b.sized) (λ i. a.counts i ∙ sym (b.counts i)),
)
