-- ===== src/Radix/Matching.antt =====
-- What `match` finds, and that it changes nothing but access times and statistics.
use infer_lab.Base.{
  ℕ, zero, suc, ◌*◌, ◌≤◌, ◌<◌, ◌≡◌, refl, ap, List, [], ◌∷◌, ◌++◌, length, count, count-append,
  take, drop, true, false, Bool-cases, inl, inr, Option, none, some, arith,
}
use infer_lab.Radix.Tree.{Node, Forest, nil, tree, same_tokens, adopt_child, match_below}
use infer_lab.Radix.Blocks.{own, blocks, count-blocks}
use infer_lab.Radix.{RadixCache, match_prefix, max_chunks}
use native.Mathlib.Nat.{le-div_iff_mul-le}
use infer_lab.Allocator.{Allocator}
use infer_lab.Allocator.Accounts.{Accounts, Accounts-cast}
use infer_lab.Paged.Table.{AllHeld}

-- `matched` are the blocks along the path that spells the first chunks of `tokens`.
pub data Spells (bs : ℕ) : List ℕ → List ℕ → Forest → Type 0 where
  stop : {tokens : List ℕ} {f : Forest} → Spells bs tokens [] f
  step :
      {tokens : List ℕ} {node : Node} {kids rest : Forest} {b : ℕ} {bl : List ℕ}
      → same_tokens node.tokens (take bs tokens) ≡ true
      → node.block_id ≡ some b
      → Spells bs (drop bs tokens) bl kids
      → Spells bs tokens (b ∷ bl) (tree node kids rest)
  skip :
      {tokens : List ℕ} {node : Node} {kids rest : Forest} {bl : List ℕ}
      → same_tokens node.tokens (take bs tokens) ≡ false
      → Spells bs tokens bl rest
      → Spells bs tokens bl (tree node kids rest)

adopt_child-Spells :
    (now bs : ℕ) (tokens : List ℕ) (node : Node) (kids rest : Forest) (hit : List ℕ × Forest)
    (o : Option ℕ)
    → node.block_id ≡ o
    → same_tokens node.tokens (take bs tokens) ≡ true
    → Spells bs (drop bs tokens) hit.0 kids
    → Spells bs tokens (adopt_child now node kids rest hit o).0 (tree node kids rest)
adopt_child-Spells now bs tokens node kids rest hit none e same h = stop
adopt_child-Spells now bs tokens node kids rest hit (some b) e same h = step same e h

pub match_below-Spells :
    (now bs : ℕ) (tokens : List ℕ) (n : ℕ) (f : Forest)
    → Spells bs tokens (match_below now bs tokens n f).0 f
unfolding match_below
match_below-Spells now bs tokens zero f = stop
match_below-Spells now bs tokens (suc n) nil = stop
match_below-Spells now bs tokens (suc n) (tree node kids rest) =
    let hit = match_below-Spells now bs (drop bs tokens) n kids in
    let miss = match_below-Spells now bs tokens (suc n) rest in
    elim (Bool-cases (same_tokens node.tokens (take bs tokens))) [
      | inl same ↦
          rw same (adopt_child-Spells now bs tokens node kids rest _ node.block_id refl same hit)
      | inr other ↦ rw other (skip other miss)
    ]

-- Whatever spells at most `n` chunks is no longer than what the loop finds.
match_below-longest :
    (now bs n : ℕ) {tokens bl : List ℕ} {f : Forest}
    → Spells bs tokens bl f
    → length bl ≤ n
    → length bl ≤ length (match_below now bs tokens n f).0
unfolding match_below
match_below-longest now bs n stop h = omega arith
match_below-longest now bs zero (step same e s) h = elim h [ ]
match_below-longest now bs (suc n) (step {node = node} same e s) h =
    let deeper = match_below-longest now bs n s (omega arith) in ground (arith, deeper)
match_below-longest now bs zero (skip other s) h = h
match_below-longest now bs (suc n) (skip other s) h =
    let later = match_below-longest now bs (suc n) s h in rw other later

blocks-adopt_child :
    (c now : ℕ) (node : Node) (kids rest : Forest) (hit : List ℕ × Forest) (o : Option ℕ)
    → node.block_id ≡ o
    → (count c (blocks hit.1) ≡ count c (blocks kids)) × (count c hit.0 ≤ count c (blocks kids))
    → (count c (blocks (adopt_child now node kids rest hit o).1)
        ≡ count c (blocks (tree node kids rest)))
      × (count c (adopt_child now node kids rest hit o).0 ≤ count c (blocks (tree node kids rest)))
blocks-adopt_child c now node kids rest hit none e h = omega arith
blocks-adopt_child c now node kids rest hit (some b) e h =
    let mine : count c (own node.block_id) ≡ count c (b ∷ []) = ap (λ o. count c (own o)) e in
    omega (
      arith,
      mine,
      count-blocks c node kids rest,
      count-blocks c (record node { last_access = now }) hit.1 rest,
    )

-- The loop keeps the blocks of the tree, and finds only blocks of the tree, as often at most.
pub blocks-match_below :
    (c now bs : ℕ) (tokens : List ℕ) (n : ℕ) (f : Forest)
    → (count c (blocks (match_below now bs tokens n f).1) ≡ count c (blocks f))
      × (count c (match_below now bs tokens n f).0 ≤ count c (blocks f))
unfolding match_below
blocks-match_below c now bs tokens zero f = omega arith
blocks-match_below c now bs tokens (suc n) nil = omega arith
blocks-match_below c now bs tokens (suc n) (tree node kids rest) =
    let hit = blocks-match_below c now bs (drop bs tokens) n kids in
    let miss = blocks-match_below c now bs tokens (suc n) rest in
    elim (Bool-cases (same_tokens node.tokens (take bs tokens))) [
      | inl same ↦ rw same (blocks-adopt_child c now node kids rest _ node.block_id refl hit)
      | inr other ↦
          rw other (omega (arith, count-blocks c node kids rest, count-blocks c node kids _, miss))
    ]

length-adopt_child :
    (now n : ℕ) (node : Node) (kids rest : Forest) (hit : List ℕ × Forest) (o : Option ℕ)
    → length hit.0 ≤ n
    → length (adopt_child now node kids rest hit o).0 ≤ suc n
length-adopt_child now n node kids rest hit none h = omega arith
length-adopt_child now n node kids rest hit (some b) h = omega arith

length-match_below :
    (now bs : ℕ) (tokens : List ℕ) (n : ℕ) (f : Forest)
    → length (match_below now bs tokens n f).0 ≤ n
unfolding match_below
length-match_below now bs tokens zero f = omega arith
length-match_below now bs tokens (suc n) nil = omega arith
length-match_below now bs tokens (suc n) (tree node kids rest) =
    let hit = length-match_below now bs (drop bs tokens) n kids in
    let miss = length-match_below now bs tokens (suc n) rest in
    elim (Bool-cases (same_tokens node.tokens (take bs tokens))) [
      | inl same ↦ rw same (length-adopt_child now n node kids rest _ node.block_id hit)
      | inr other ↦ rw other miss
    ]

-- `match` returns the blocks along a path of the tree that spells the first tokens of the query, and
-- how many tokens these are, a whole number of blocks and fewer than the query has; no such path is
-- longer.
pub match_prefix-longest :
    (tokens : List ℕ) (c : RadixCache)
    → 0 < c.block_size
    → 0 < length tokens
    → let found = (match_prefix tokens c).0.0 in
      let matched = (match_prefix tokens c).0.1 in
      Spells c.block_size tokens found c.root
      × (matched ≡ length found * c.block_size)
      × (matched < length tokens)
      × ((bl : List ℕ)
          → Spells c.block_size tokens bl c.root
          → length bl * c.block_size < length tokens
          → length bl ≤ length found)
unfolding match_prefix
match_prefix-longest tokens c h some_token =
    let n = max_chunks c.block_size tokens in
    let found = (match_below c.clock c.block_size tokens n c.root).0 in
    let short = (le-div_iff_mul-le h).0 (length-match_below c.clock c.block_size tokens n c.root) in
    (
      match_below-Spells c.clock c.block_size tokens n c.root,
      refl,
      omega arith,
      λ bl s few.
          match_below-longest c.clock c.block_size n s ((le-div_iff_mul-le h).1 (omega arith)),
    )

AllHeld-of_count : (held bs : List ℕ) → ((b : ℕ) → count b bs ≤ count b held) → AllHeld held bs
AllHeld-of_count held [] h = tt
AllHeld-of_count held (b ∷ bs) h =
    (ground (arith, h b), AllHeld-of_count held bs (λ c. ground (arith, h c)))

-- A lookup leaves the books as they are, and what it finds can be adopted: the cache holds each
-- block that it returns.
pub match_prefix-Accounts :
    (tokens : List ℕ) (c : RadixCache) (s : Allocator) (held : List ℕ)
    → Accounts s (blocks c.root ++ held)
    → Accounts s (blocks (match_prefix tokens c).1.root ++ held)
      × AllHeld (blocks (match_prefix tokens c).1.root ++ held) (match_prefix tokens c).0.0
      × ((match_prefix tokens c).1.cached_blocks ≡ c.cached_blocks)
unfolding match_prefix
match_prefix-Accounts tokens c s held a =
    let n = max_chunks c.block_size tokens in
    let f = (match_below c.clock c.block_size tokens n c.root).1 in
    (
      Accounts-cast
          (λ b. omega (
            arith,
            blocks-match_below b c.clock c.block_size tokens n c.root,
            count-append b (blocks c.root) held,
            count-append b (blocks f) held,
          ))
          a,
      AllHeld-of_count _ _ (λ b. omega (
        arith,
        blocks-match_below b c.clock c.block_size tokens n c.root,
        count-append b (blocks f) held,
      )),
      refl,
    )
