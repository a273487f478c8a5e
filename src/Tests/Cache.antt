-- ===== src/Tests/Cache.antt =====
-- The prefix cache and a request at the demonstration pool.
use infer_lab.Base.{
  take, drop, ℕ, ◌≡◌, ◌+◌, ◌*◌, ◌≤◌, ◌<◌, refl, List, [], ◌∷◌, ◌++◌, length, All, Option, false, ok,
  arith,
}
use infer_lab.Allocator.Accounts.{Accounts}
use infer_lab.Paged.Table.{AllHeld}
use infer_lab.Radix.Tree.{Visit, walk}
use infer_lab.Radix.{Shared, match_prefix, insert, evict, lru_evictable_leaf, num_chunks}
use infer_lab.Radix.Blocks.{blocks}
use infer_lab.Radix.Matching.{Spells, match_prefix-longest, match_prefix-Accounts}
use infer_lab.Radix.Shape.{Longest, insert-match_prefix}
use infer_lab.Radix.Picking.{Fine, NoNewer}
use infer_lab.Radix.Evicting.{NodeOf, Evicts, evict-Evicts, lru_evictable_leaf-least}
use infer_lab.Request.{Request, new_request}
use infer_lab.Radix.Publishing.{Publishes, insert-Publishes}
use infer_lab.Tests.Demo.{pool, cache, prefixes, shared, shared-Accounts, shared-Sound}

abbrev query : List ℕ
query = 5 ∷ 6 ∷ 7 ∷ 8 ∷ 9 ∷ []

match_prefix-query : (match_prefix query cache).0 ≡ (0 ∷ 1 ∷ [], 4)
unfolding match_prefix infer_lab.Radix.Tree.match_below infer_lab.Radix.Tree.same_tokens
match_prefix-query = refl

match_prefix-longest_example :
    let found = (match_prefix query cache).0.0 in
    let matched = (match_prefix query cache).0.1 in
    Spells 2 query found prefixes
    × (matched ≡ length found * 2)
    × (matched < 5)
    × ((bl : List ℕ) → Spells 2 query bl prefixes → length bl * 2 < 5 → length bl ≤ length found)
match_prefix-longest_example = match_prefix-longest query cache (omega arith) (omega arith)

match_prefix-Accounts_example :
    Accounts pool (blocks (match_prefix query cache).1.root ++ (0 ∷ 2 ∷ []))
    × AllHeld
        (blocks (match_prefix query cache).1.root ++ (0 ∷ 2 ∷ []))
        (match_prefix query cache).0.0
    × ((match_prefix query cache).1.cached_blocks ≡ 2)
match_prefix-Accounts_example = match_prefix-Accounts query cache pool (0 ∷ 2 ∷ []) shared-Accounts

abbrev published : List ℕ
published = 5 ∷ 6 ∷ 9 ∷ 9 ∷ []

insert-match_prefix_example :
    (added : ℕ) × (c' : Shared) × (insert published (0 ∷ 2 ∷ []) shared ≡ (ok added, c'))
    × Accounts c'.allocator (blocks c'.radix.root ++ (0 ∷ 2 ∷ []))
    × (length (blocks c'.radix.root) ≡ length (blocks prefixes) + added)
    × (c'.radix.cached_blocks ≡ 2 + added)
    × ((old : List ℕ) × Longest 2 published 2 prefixes old
        × ((more : List ℕ)
            → 4 < length (published ++ more)
            → let found = (match_prefix (published ++ more) c'.radix).0.0 in
              (2 ≤ length found) × (take 2 found ≡ old ++ drop (length old) (0 ∷ 2 ∷ []))))
insert-match_prefix_example =
    insert-match_prefix published (0 ∷ 2 ∷ []) shared (0 ∷ 2 ∷ []) (omega arith) refl
      shared-Accounts (tt, (tt, tt, tt), tt) (omega arith, (omega arith, tt))

evict-Evicts_example :
    (freed : ℕ) × (c' : Shared) × (evict 2 shared ≡ (ok freed, c'))
    × Evicts 2 shared (0 ∷ 2 ∷ []) freed c'
evict-Evicts_example = evict-Evicts 2 shared (0 ∷ 2 ∷ []) shared-Sound

lru_evictable_leaf-least_example :
    (r : Option Visit) × (lru_evictable_leaf shared ≡ (ok r, shared))
    × Fine pool (NodeOf prefixes) r
    × All (NoNewer pool r) (walk prefixes)
lru_evictable_leaf-least_example = lru_evictable_leaf-least shared (0 ∷ 2 ∷ []) shared-Sound

abbrev asked : Request
asked = new_request (1 ∷ 2 ∷ []) (record { max_tokens = 4; ignore_eos = false }) 7

insert-Publishes_example :
    (added : ℕ) × (c' : Shared) × (insert published (0 ∷ 2 ∷ []) shared ≡ (ok added, c'))
    × Publishes shared (0 ∷ 2 ∷ []) c'
insert-Publishes_example =
    insert-Publishes published (0 ∷ 2 ∷ []) shared (0 ∷ 2 ∷ []) shared-Sound
      (omega arith, (omega arith, tt))
