-- ===== src/Radix/Keeping.antt =====
-- A lookup keeps the number of blocks in the tree, and a block at each node.
use infer_lab.Base.{
  ℕ, zero, suc, ◌≡◌, refl, List, length, take, drop, Bool-cases, inl, inr, Option, none, some,
  arith,
}
use infer_lab.Radix.{RadixCache, match_prefix, max_chunks}
use infer_lab.Radix.Tree.{Node, Forest, nil, tree, same_tokens, adopt_child, match_below}
use infer_lab.Radix.Blocks.{blocks, length-blocks, AllHaveBlock}

-- The forest `g` has as many blocks as `f`, and a block at each node where `f` has.
abbrev pub SameShape : Forest → Forest → Type 0
SameShape f g = (length (blocks g) ≡ length (blocks f)) × (AllHaveBlock f → AllHaveBlock g)

adopt_child-SameShape :
    (now : ℕ) (node : Node) (kids rest : Forest) (hit : List ℕ × Forest) (o : Option ℕ)
    → node.block_id ≡ o
    → SameShape kids hit.1
    → SameShape (tree node kids rest) (adopt_child now node kids rest hit o).1
adopt_child-SameShape now node kids rest hit none e h = (refl, λ a. a)
adopt_child-SameShape now node kids rest hit (some b) e h = (
  omega (
    arith,
    length-blocks node kids rest,
    length-blocks (record node { last_access = now }) hit.1 rest,
    h.0,
  ),
  λ a. (a.0, h.1 a.1, a.2),
)

match_below-SameShape :
    (now bs : ℕ) (tokens : List ℕ) (n : ℕ) (f : Forest)
    → SameShape f (match_below now bs tokens n f).1
unfolding match_below
match_below-SameShape now bs tokens zero f = (refl, λ a. a)
match_below-SameShape now bs tokens (suc n) nil = (refl, λ a. a)
match_below-SameShape now bs tokens (suc n) (tree node kids rest) =
    let hit = match_below-SameShape now bs (drop bs tokens) n kids in
    let miss = match_below-SameShape now bs tokens (suc n) rest in
    elim (Bool-cases (same_tokens node.tokens (take bs tokens))) [
      | inl same ↦ rw same (adopt_child-SameShape now node kids rest _ node.block_id refl hit)
      | inr other ↦ rw other (
        omega (
          arith,
          length-blocks node kids rest,
          length-blocks node kids (match_below now bs tokens (suc n) rest).1,
          miss.0,
        ),
        λ a. (a.0, a.1, miss.1 a.2),
      )
    ]

pub match_prefix-AllHaveBlock :
    (tokens : List ℕ) (c : RadixCache)
    → AllHaveBlock c.root
    → (length (blocks (match_prefix tokens c).1.root) ≡ length (blocks c.root))
      × AllHaveBlock (match_prefix tokens c).1.root
unfolding match_prefix
match_prefix-AllHaveBlock tokens c h =
    let same =
      match_below-SameShape c.clock c.block_size tokens (max_chunks c.block_size tokens) c.root in
    (same.0, same.1 h)
