-- ===== src/Radix/Inserting.antt =====
-- What the loop of `insert` does to the books and to the tree.
use infer_lab.Base.{
  ℕ, ◌+◌, ◌≤◌, ◌≡◌, refl, ap, ◌∙◌, List, [], ◌∷◌, ◌++◌, length, count, count-append, take, drop,
  Bool-cases, inl, inr, none, some, arith,
}
use infer_lab.Allocator.{Allocator, num_free}
use infer_lab.Allocator.Accounts.{Accounts, Accounts-cast}
use infer_lab.Allocator.Releasing.{incref-Accounts}
use infer_lab.Paged.Table.{AllHeld}
use infer_lab.Radix.Tree.{Node, Forest, nil, tree, same_tokens, Inserted, attach, insert_below}
use infer_lab.Radix.Blocks.{own, blocks, count-blocks, length-blocks, count-blocks_nil}

-- The loop registered `i.added` blocks without an exception: the tree of `i` holds them besides
-- those of `f`, and no block left the free list.
pub record Registers (f : Forest) (s : Allocator) (held : List ℕ) (i : Inserted) : Type 0 where
  pub no_failure : i.failure ≡ none
  pub accounts : Accounts i.allocator (blocks i.forest ++ held)
  pub counted : length (blocks i.forest) ≡ length (blocks f) + i.added
  pub same_free : num_free i.allocator ≡ num_free s
  pub same_size : i.allocator.num_blocks ≡ s.num_blocks
  pub same_block : i.allocator.block_size ≡ s.block_size

AllHeld-mono :
    (held held' bs : List ℕ)
    → ((b : ℕ) → count b held ≤ count b held')
    → AllHeld held bs
    → AllHeld held' bs
AllHeld-mono held held' [] le h = tt
AllHeld-mono held held' (b ∷ bs) le h =
    (omega (arith, h.0, le b), AllHeld-mono held held' bs le h.1)

-- A node in front: what the loop did below `kids` is what it did to the whole.
register_kids :
    (node node' : Node) (kids rest : Forest) (s : Allocator) (held : List ℕ) (i : Inserted)
    → node'.block_id ≡ node.block_id
    → Registers kids s (own node.block_id ++ (blocks rest ++ held)) i
    → Registers (tree node kids rest) s held (record i { forest = tree node' i.forest rest })
register_kids node node' kids rest s held i e r = record {
  no_failure = r.no_failure;
  accounts =
      Accounts-cast
        (λ b. omega (
          arith,
          ap (λ o. count b (own o)) e,
          count-append b (blocks i.forest) (own node.block_id ++ (blocks rest ++ held)),
          count-append b (own node.block_id) (blocks rest ++ held),
          count-append b (blocks rest) held,
          count-append b (blocks (tree node' i.forest rest)) held,
          count-blocks b node' i.forest rest,
        ))
        r.accounts;
  counted = omega (
    arith,
    ap (λ o. length (own o)) e,
    r.counted,
    length-blocks node kids rest,
    length-blocks node' i.forest rest,
  );
  same_free = r.same_free;
  same_size = r.same_size;
  same_block = r.same_block;
}

register_rest :
    (node : Node) (kids rest : Forest) (s : Allocator) (held : List ℕ) (i : Inserted)
    → Registers rest s (own node.block_id ++ (blocks kids ++ held)) i
    → Registers (tree node kids rest) s held (record i { forest = tree node kids i.forest })
register_rest node kids rest s held i r = record {
  no_failure = r.no_failure;
  accounts =
      Accounts-cast
        (λ b. omega (
          arith,
          count-append b (blocks i.forest) (own node.block_id ++ (blocks kids ++ held)),
          count-append b (own node.block_id) (blocks kids ++ held),
          count-append b (blocks kids) held,
          count-append b (blocks (tree node kids i.forest)) held,
          count-blocks b node kids i.forest,
        ))
        r.accounts;
  counted =
      omega (arith, r.counted, length-blocks node kids rest, length-blocks node kids i.forest);
  same_free = r.same_free;
  same_size = r.same_size;
  same_block = r.same_block;
}

-- A new node at the end of a dictionary, with what the later rounds put below it.
register_new :
    (node : Node) (b : ℕ) (s t : Allocator) (held : List ℕ) (i : Inserted)
    → node.block_id ≡ some b
    → num_free t ≡ num_free s
    → t.num_blocks ≡ s.num_blocks
    → t.block_size ≡ s.block_size
    → Registers nil t (b ∷ held) i
    → Registers nil s held (attach node i)
register_new node b s t held i e n m k r = record {
  no_failure = r.no_failure;
  accounts =
      Accounts-cast
        (λ c. omega (
          arith,
          ap (λ o. count c (own o)) e,
          count-append c (blocks i.forest) (b ∷ held),
          count-append c (blocks (tree node i.forest nil)) held,
          count-blocks c node i.forest nil,
          count-blocks_nil c,
        ))
        r.accounts;
  counted =
      unfold blocks in
      omega (arith, ap (λ o. length (own o)) e, r.counted, length-blocks node i.forest nil);
  same_free = r.same_free ∙ n;
  same_size = r.same_size ∙ m;
  same_block = r.same_block ∙ k;
}

focus_kids :
    (node : Node) (kids rest : Forest) (s : Allocator) (held : List ℕ)
    → Accounts s (blocks (tree node kids rest) ++ held)
    → Accounts s (blocks kids ++ (own node.block_id ++ (blocks rest ++ held)))
focus_kids node kids rest s held = Accounts-cast λ b. omega (
  arith,
  count-append b (blocks kids) (own node.block_id ++ (blocks rest ++ held)),
  count-append b (own node.block_id) (blocks rest ++ held),
  count-append b (blocks rest) held,
  count-append b (blocks (tree node kids rest)) held,
  count-blocks b node kids rest,
)

focus_rest :
    (node : Node) (kids rest : Forest) (s : Allocator) (held : List ℕ)
    → Accounts s (blocks (tree node kids rest) ++ held)
    → Accounts s (blocks rest ++ (own node.block_id ++ (blocks kids ++ held)))
focus_rest node kids rest s held = Accounts-cast λ b. omega (
  arith,
  count-append b (blocks rest) (own node.block_id ++ (blocks kids ++ held)),
  count-append b (own node.block_id) (blocks kids ++ held),
  count-append b (blocks kids) held,
  count-append b (blocks (tree node kids rest)) held,
  count-blocks b node kids rest,
)

more_held :
    (node : Node) (f : Forest) (held : List ℕ) (b : ℕ)
    → count b held ≤ count b (own node.block_id ++ (blocks f ++ held))
more_held node f held b =
    omega
      (arith, count-append b (own node.block_id) (blocks f ++ held), count-append b (blocks f) held)

-- If somebody holds each of `block_ids`, the loop of `insert` raises nothing, and the books agree
-- with the new tree.
pub insert_below-Registers :
    (now bs : ℕ) (tokens : List ℕ) (depth : ℕ) (block_ids : List ℕ) (f : Forest) (s : Allocator)
    (held : List ℕ)
    → Accounts s (blocks f ++ held)
    → AllHeld held block_ids
    → Registers f s held (insert_below now bs tokens depth block_ids f s)
unfolding insert_below
insert_below-Registers now bs tokens depth [] f s held a h = record {
  no_failure = refl;
  accounts = a;
  counted = omega arith;
  same_free = refl;
  same_size = refl;
  same_block = refl;
}
insert_below-Registers now bs tokens depth (block ∷ ids) nil s held a h =
    let plain : Accounts s held = unfold blocks in a in
    let (t, e, a', n, m, k) = incref-Accounts s held block plain h.0 in
    let deeper =
      insert_below-Registers now bs (drop bs tokens) (depth + bs) ids nil t (block ∷ held)
        (unfold blocks in a') (AllHeld-mono held (block ∷ held) ids (λ b. omega arith) h.1) in
    rw e (register_new _ block s t held _ refl n m k deeper)
insert_below-Registers now bs tokens depth (block ∷ ids) (tree node kids rest) s held a h =
    elim (Bool-cases (same_tokens node.tokens (take bs tokens))) [
      | inl same ↦ rw same (
          register_kids node _ kids rest s held _ refl (
            insert_below-Registers now bs (drop bs tokens) node.depth ids kids s _
              (focus_kids node kids rest s held a)
              (AllHeld-mono held _ ids (more_held node rest held) h.1)))
      | inr other ↦ rw other (
          register_rest node kids rest s held _ (
            insert_below-Registers now bs tokens depth (block ∷ ids) rest s _
              (focus_rest node kids rest s held a)
              (AllHeld-mono held _ (block ∷ ids) (more_held node kids held) h)))
    ]
