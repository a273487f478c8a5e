-- ===== src/Tests/Demo.antt =====
-- A pool of four blocks. Block 0 is in the cache and in a sequence's table, block 1 in the cache
-- only, block 2 in the table only, and block 3 is free.
use infer_lab.Base.{
  ℕ, zero, suc, ◌≡◌, refl, [], ◌∷◌, ◌++◌, count, get_or, if◌then◌else◌, ◌==◌, none, some, arith,
}
use infer_lab.Allocator.{Allocator, ref_at}
use infer_lab.Allocator.Accounts.{Accounts, Accounts-cast}
use infer_lab.Paged.{SequenceKv}
use infer_lab.Radix.Tree.{Node, Forest, nil, tree}
use infer_lab.Radix.{RadixCache, Shared}
use infer_lab.Radix.Blocks.{blocks}
use infer_lab.Radix.Evicting.{Sound}

abbrev pub pool : Allocator
pool = record {
  num_blocks = 4;
  block_size = 2;
  free_list = 3 ∷ [];
  ref = 2 ∷ 1 ∷ 1 ∷ 0 ∷ [];
  stats = record { allocated = 3; freed = 0; peak_used = 3; cow_copies = 0 };
}

pool_counts : (b : ℕ) → ref_at pool b ≡ count b (0 ∷ 2 ∷ 0 ∷ 1 ∷ [])
pool_counts zero = refl
pool_counts (suc zero) = refl
pool_counts (suc (suc zero)) = refl
pool_counts (suc (suc (suc b))) = ground arith

pool_exact : (b : ℕ) → count b pool.free_list ≡ (if get_or pool.ref b 1 == 0 then 1 else 0)
pool_exact zero = refl
pool_exact (suc zero) = refl
pool_exact (suc (suc zero)) = refl
pool_exact (suc (suc (suc zero))) = refl
pool_exact (suc (suc (suc (suc b)))) = ground arith

pub pool-Accounts : Accounts pool (0 ∷ 2 ∷ 0 ∷ 1 ∷ [])
pool-Accounts = record { sized = refl; counts = pool_counts; exact = pool_exact; total = refl }

-- The same with the references listed in another order.
pub pool-Accounts_cache : Accounts pool (0 ∷ 1 ∷ 0 ∷ 2 ∷ [])
pool-Accounts_cache = Accounts-cast (λ b. omega arith) pool-Accounts

abbrev pub table : SequenceKv
table = record { block_table = 0 ∷ 2 ∷ []; length = 3; num_cached_prefix = 2 }

abbrev pub child : Node
child = record { tokens = 7 ∷ 8 ∷ []; block_id = some 1; last_access = 2; depth = 4 }

abbrev pub prefixes : Forest
prefixes =
    tree (record { tokens = 5 ∷ 6 ∷ []; block_id = some 0; last_access = 2; depth = 2 })
      (tree child nil nil) nil

abbrev pub cache : RadixCache
cache = record {
  block_size = 2;
  max_blocks = none;
  root = prefixes;
  stats = record { lookups = 0; hits = 0; hit_tokens = 0; inserted_blocks = 2; evicted_blocks = 0 };
  clock = 3;
  cached_blocks = 2;
}

abbrev pub shared : Shared
shared = record { radix = cache; allocator = pool }

pub shared-Accounts : Accounts shared.allocator (blocks shared.radix.root ++ (0 ∷ 2 ∷ []))
unfolding blocks
shared-Accounts = pool-Accounts_cache

pub shared-Sound : Sound shared (0 ∷ 2 ∷ [])
shared-Sound = record {
  accounts = shared-Accounts;
  counted = unfold blocks in refl;
  has_blocks = (tt, (tt, tt, tt), tt);
}
