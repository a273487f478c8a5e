-- ===== src/Radix/Blocks.antt =====
-- The blocks that the tree of the prefix cache holds, a block once for each node.
use infer_lab.Base.{
  ℕ, ◌+◌, ◌≡◌, refl, List, [], ◌∷◌, ◌++◌, length, count, count-append, length-append, Option, none,
  some, arith,
}
use infer_lab.Radix.Tree.{Node, Forest, nil, tree}

abbrev pub own : Option ℕ → List ℕ
own none = []
own (some b) = b ∷ []

unfoldable pub blocks : Forest → List ℕ
blocks nil = []
blocks (tree node kids rest) = own node.block_id ++ (blocks kids ++ blocks rest)

pub count-blocks :
    (c : ℕ) (node : Node) (kids rest : Forest)
    → count c (blocks (tree node kids rest))
      ≡ count c (own node.block_id) + count c (blocks kids) + count c (blocks rest)
unfolding blocks
count-blocks c node kids rest = omega (
  arith,
  count-append c (own node.block_id) (blocks kids ++ blocks rest),
  count-append c (blocks kids) (blocks rest),
)

pub length-blocks :
    (node : Node) (kids rest : Forest)
    → length (blocks (tree node kids rest))
      ≡ length (own node.block_id) + length (blocks kids) + length (blocks rest)
unfolding blocks
length-blocks node kids rest = omega (
  arith,
  length-append (own node.block_id) (blocks kids ++ blocks rest),
  length-append (blocks kids) (blocks rest),
)

-- Every node of the tree has a block: `insert` makes no other.
abbrev pub HasBlock : Option ℕ → Type 0
HasBlock none = ⊥
HasBlock (some b) = Unit {0}

abbrev pub AllHaveBlock : Forest → Type 0
AllHaveBlock nil = Unit {0}
AllHaveBlock (tree node kids rest) = HasBlock node.block_id × AllHaveBlock kids × AllHaveBlock rest

pub count-blocks_nil : (c : ℕ) → count c (blocks nil) ≡ 0
unfolding blocks
count-blocks_nil c = refl
