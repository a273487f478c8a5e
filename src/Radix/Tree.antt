-- ===== src/Radix/Tree.antt =====
-- src/infer_lab/kv/radix_cache.py: the prefix cache, a tree over blocks of tokens. Here the tree
-- and the loops over it; Radix.antt has the cache and its methods. `Forest` is the dictionary
-- `children` of a node in insertion order: each entry is a node, whose key is its `tokens`, with
-- the node's own children beside it. The root carries no data, so the cache keeps its children. A
-- node is found again by its place instead of its address.
use infer_lab.Base.{
  ℕ, zero, suc, ◌+◌, List, [], ◌∷◌, ◌++◌, map, take, drop, Bool, true, false, ◌&&◌, ◌==◌,
  if◌then◌else◌, Option, none, some, Outcome, ok, err, Error,
}
use infer_lab.Allocator.{Allocator, incref}

pub record Node : Type 0 where
  pub tokens : List ℕ
  pub block_id : Option ℕ
  pub last_access : ℕ
  pub depth : ℕ

pub data Forest : Type 0 where
  nil : Forest
  tree : Node → Forest → Forest → Forest

unfoldable pub same_tokens : List ℕ → List ℕ → Bool
same_tokens [] [] = true
same_tokens [] (y ∷ ys) = false
same_tokens (x ∷ xs) [] = false
same_tokens (x ∷ xs) (y ∷ ys) = (x == y) && same_tokens xs ys

-- The round of `match` at the child of the right tokens: a node with no block ends the loop.
abbrev pub adopt_child : ℕ → Node → Forest → Forest → List ℕ × Forest → Option ℕ → List ℕ × Forest
adopt_child now node kids rest hit none = ([], tree node kids rest)
adopt_child now node kids rest hit (some b) =
    (b ∷ hit.0, tree (record node { last_access = now }) hit.1 rest)

-- The loop of `match` with `chunks` rounds left, `tokens` those not yet matched, below one node.
unfoldable pub match_below : ℕ → ℕ → List ℕ → ℕ → Forest → List ℕ × Forest
match_below now bs tokens zero f = ([], f)
match_below now bs tokens (suc n) nil = ([], nil)
match_below now bs tokens (suc n) (tree node kids rest) =
    let hit = match_below now bs (drop bs tokens) n kids in
    let miss = match_below now bs tokens (suc n) rest in
    if same_tokens node.tokens (take bs tokens)
    then adopt_child now node kids rest hit node.block_id
    else (miss.0, tree node kids miss.1)

-- What the loop of `insert` leaves: the tree and the allocator, how many blocks it registered, and
-- the exception that ended it, if any.
pub record Inserted : Type 0 where
  pub forest : Forest
  pub allocator : Allocator
  pub added : ℕ
  pub failure : Option Error

-- A new node, and below it what the later rounds `below` made of its empty dictionary.
abbrev pub attach : Node → Inserted → Inserted
attach node below = record below { forest = tree node below.forest nil; added = suc below.added }

-- `incref` stands before the new node, so an exception there leaves the dictionary empty.
abbrev pub enter : Node → Outcome Allocator ℕ → Inserted → Inserted
enter node (ok _, t) below = attach node below
enter node (err e, t) below = record { forest = nil; allocator = t; added = 0; failure = some e }

unfoldable pub insert_below : ℕ → ℕ → List ℕ → ℕ → List ℕ → Forest → Allocator → Inserted
insert_below now bs tokens depth [] f s = record {
  forest = f;
  allocator = s;
  added = 0;
  failure = none;
}
insert_below now bs tokens depth (block ∷ blocks) nil s =
    let r = incref block s in
    enter
      (record {
        tokens = take bs tokens;
        block_id = some block;
        last_access = now;
        depth = depth + bs;
      })
      r (insert_below now bs (drop bs tokens) (depth + bs) blocks nil r.1)
insert_below now bs tokens depth (block ∷ blocks) (tree node kids rest) s =
    let hit = insert_below now bs (drop bs tokens) node.depth blocks kids s in
    let miss = insert_below now bs tokens depth (block ∷ blocks) rest s in
    if same_tokens node.tokens (take bs tokens)
    then record hit { forest = tree (record node { last_access = now }) hit.forest rest }
    else record miss { forest = tree node kids miss.forest }

-- Where a node stands in a forest.
pub data Place : Type 0 where
  here : Place
  under : Place → Place
  after : Place → Place

pub record Visit : Type 0 where
  pub node : Node
  pub is_leaf : Bool
  pub place : Place

abbrev pub is_empty : Forest → Bool
is_empty nil = true
is_empty (tree node kids rest) = false

abbrev pub move_under : Visit → Visit
move_under v = record v { place = under v.place }

abbrev pub move_after : Visit → Visit
move_after v = record v { place = after v.place }

-- `_walk` below the root: a node before its children, the children in order.
unfoldable pub walk : Forest → List Visit
walk nil = []
walk (tree node kids rest) =
    record { node = node; is_leaf = is_empty kids; place = here }
    ∷ (map move_under (walk kids) ++ map move_after (walk rest))

-- `del parent.children[victim.tokens]`
unfoldable pub remove_at : Place → Forest → Forest
remove_at p nil = nil
remove_at here (tree node kids rest) = rest
remove_at (under p) (tree node kids rest) = tree node (remove_at p kids) rest
remove_at (after p) (tree node kids rest) = tree node kids (remove_at p rest)
