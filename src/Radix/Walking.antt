-- ===== src/Radix/Walking.antt =====
-- The visits of `_walk`: each leaf can be cut from the tree, with its block and nothing else.
use infer_lab.Base.{
  ℕ, ◌+◌, ◌≤◌, ◌≡◌, List, ◌++◌, map, count, count-append, All, All-map, All-imp, All-append, true,
  Option, none, some, arith, length,
}
use infer_lab.Allocator.{Allocator}
use infer_lab.Allocator.Accounts.{Accounts, held-lt-num_blocks}
use infer_lab.Radix.Tree.{
  Node, Forest, nil, tree, Visit, walk, remove_at, is_empty, move_under, move_after, here,
}
use infer_lab.Radix.Blocks.{
  own, blocks, count-blocks, length-blocks, count-blocks_nil, AllHaveBlock,
}
use infer_lab.Radix.Picking.{BlockInRange}

-- `v` is a visit of `f`: its block is a block of `f`, and if it is a leaf it can be cut.
pub record IsVisit (f : Forest) (v : Visit) : Type 0 where
  pub present : (c : ℕ) → count c (own v.node.block_id) ≤ count c (blocks f)
  pub cut :
      v.is_leaf ≡ true
      → (c : ℕ)
      → count c (blocks f) ≡ count c (own v.node.block_id) + count c (blocks (remove_at v.place f))
  pub shorter :
      v.is_leaf ≡ true
      → length (blocks f) ≡ length (own v.node.block_id) + length (blocks (remove_at v.place f))
  pub has : AllHaveBlock f → AllHaveBlock (remove_at v.place f)

IsVisit-here :
    (node : Node) (kids rest : Forest)
    → IsVisit (tree node kids rest) (record { node = node; is_leaf = is_empty kids; place = here })
unfolding remove_at
IsVisit-here node nil rest = record {
  present = λ c. omega (arith, count-blocks c node nil rest);
  cut = λ e c. omega (arith, count-blocks c node nil rest, count-blocks_nil c);
  shorter = λ e. unfold blocks in omega (arith, length-blocks node nil rest);
  has = λ h. h.2;
}
IsVisit-here node (tree m k r) rest = record {
  present = λ c. omega (arith, count-blocks c node (tree m k r) rest);
  cut = λ e. cc;
  shorter = λ e. cc;
  has = λ h. h.2;
}

IsVisit-under :
    (node : Node) (kids rest : Forest) (v : Visit)
    → IsVisit kids v
    → IsVisit (tree node kids rest) (move_under v)
unfolding remove_at
IsVisit-under node kids rest v h = record {
  present = λ c. omega (arith, h.present c, count-blocks c node kids rest);
  cut = λ e c. omega (
    arith,
    h.cut e c,
    count-blocks c node kids rest,
    count-blocks c node (remove_at v.place kids) rest,
  );
  shorter = λ e. omega (
    arith,
    h.shorter e,
    length-blocks node kids rest,
    length-blocks node (remove_at v.place kids) rest,
  );
  has = λ a. (a.0, h.has a.1, a.2);
}

IsVisit-after :
    (node : Node) (kids rest : Forest) (v : Visit)
    → IsVisit rest v
    → IsVisit (tree node kids rest) (move_after v)
unfolding remove_at
IsVisit-after node kids rest v h = record {
  present = λ c. omega (arith, h.present c, count-blocks c node kids rest);
  cut = λ e c. omega (
    arith,
    h.cut e c,
    count-blocks c node kids rest,
    count-blocks c node kids (remove_at v.place rest),
  );
  shorter = λ e. omega (
    arith,
    h.shorter e,
    length-blocks node kids rest,
    length-blocks node kids (remove_at v.place rest),
  );
  has = λ a. (a.0, a.1, h.has a.2);
}

pub walk-IsVisit : (f : Forest) → All (IsVisit f) (walk f)
unfolding walk
walk-IsVisit nil = tt
walk-IsVisit (tree node kids rest) = (
  IsVisit-here node kids rest,
  All-append (IsVisit (tree node kids rest)) (map move_under (walk kids))
      (map move_after (walk rest))
      (All-map (IsVisit (tree node kids rest)) move_under (walk kids)
        (All-imp (walk kids) (IsVisit-under node kids rest) (walk-IsVisit kids)))
      (All-map (IsVisit (tree node kids rest)) move_after (walk rest)
        (All-imp (walk rest) (IsVisit-after node kids rest) (walk-IsVisit rest))),
)

in_range :
    (s : Allocator) (held : List ℕ) (f : Forest) (o : Option ℕ)
    → Accounts s (blocks f ++ held)
    → ((c : ℕ) → count c (own o) ≤ count c (blocks f))
    → BlockInRange s o
in_range s held f none a h = tt
in_range s held f (some b) a h =
    held-lt-num_blocks s (blocks f ++ held) b a
      (ground (arith, h b, count-append b (blocks f) held))

-- The blocks of the tree are blocks of the pool.
pub walk-BlockInRange :
    (s : Allocator) (held : List ℕ) (f : Forest)
    → Accounts s (blocks f ++ held)
    → All (λ v. BlockInRange s v.node.block_id) (walk f)
walk-BlockInRange s held f a =
    All-imp (walk f) (λ v h. in_range s held f v.node.block_id a h.present) (walk-IsVisit f)
