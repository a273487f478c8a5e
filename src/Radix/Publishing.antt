-- ===== src/Radix/Publishing.antt =====
-- `insert` on a cache that may be limited by `max_blocks`.
use infer_lab.Base.{
  ℕ, ◌+◌, ◌-◌, ◌≤◌, ◌≡◌, refl, ap, ◌∙◌, List, [], ◌∷◌, take, drop, Bool-cases, inl, inr, Option,
  none, some, arith, ok, err, Outcome, and_then,
}
use infer_lab.Allocator.{Allocator, num_free}
use infer_lab.Paged.Table.{AllHeld}
use infer_lab.Radix.{Shared, insert, insert_chunks, num_chunks, registered, settle, trim, evict_to}
use infer_lab.Radix.Tree.{Node, Forest, Inserted, nil, tree, same_tokens, insert_below, enter}
use infer_lab.Radix.Blocks.{HasBlock, AllHaveBlock}
use infer_lab.Radix.Inserting.{insert_below-Registers}
use infer_lab.Radix.Shape.{AllHeld-take}
use infer_lab.Radix.Evicting.{Sound, evict-Evicts}

enter-AllHaveBlock :
    (node : Node) (o : Outcome Allocator ℕ) (below : Inserted)
    → HasBlock node.block_id
    → AllHaveBlock below.forest
    → AllHaveBlock (enter node o below).forest
enter-AllHaveBlock node (ok n, t) below b h = (b, h, tt)
enter-AllHaveBlock node (err e, t) below b h = tt

insert_below-AllHaveBlock :
    (now bs : ℕ) (tokens : List ℕ) (depth : ℕ) (ids : List ℕ) (f : Forest) (s : Allocator)
    → AllHaveBlock f
    → AllHaveBlock (insert_below now bs tokens depth ids f s).forest
unfolding insert_below
insert_below-AllHaveBlock now bs tokens depth [] f s h = h
insert_below-AllHaveBlock now bs tokens depth (b ∷ ids) nil s h =
    enter-AllHaveBlock _ _ _ tt
      (insert_below-AllHaveBlock now bs (drop bs tokens) (depth + bs) ids nil _ tt)
insert_below-AllHaveBlock now bs tokens depth (b ∷ ids) (tree node kids rest) s h =
    elim (Bool-cases (same_tokens node.tokens (take bs tokens))) [
      | inl same ↦
          rw same
            (h.0, insert_below-AllHaveBlock now bs (drop bs tokens) node.depth ids kids s h.1, h.2)
      | inr other ↦
          rw other (h.0, h.1, insert_below-AllHaveBlock now bs tokens depth (b ∷ ids) rest s h.2)
    ]

-- What a call that publishes blocks leaves.
pub record Publishes (c : Shared) (held : List ℕ) (c' : Shared) : Type 0 where
  pub sound : Sound c' held
  pub grown : num_free c.allocator ≤ num_free c'.allocator
  pub same_size : c'.allocator.num_blocks ≡ c.allocator.num_blocks

trim-Publishes :
    (o : Option ℕ) (c : Shared) (held : List ℕ)
    → Sound c held
    → (c' : Shared) × (trim o c ≡ (ok tt, c')) × Publishes c held c'
unfolding evict_to
trim-Publishes none c held h =
    (c, refl, record { sound = h; grown = omega arith; same_size = refl })
trim-Publishes (some m) c held h =
    let (freed, c', run, ev) = evict-Evicts (c.radix.cached_blocks - m) c held h in
    (
      c',
      rw run refl,
      record { sound = ev.sound; grown = omega (arith, ev.gained); same_size = ev.same_size },
    )

-- If somebody holds each of `block_ids`, `insert` succeeds also where it has to evict down to
-- `max_blocks`; the books agree, and no block has left the free list.
pub insert-Publishes :
    (tokens block_ids : List ℕ) (c : Shared) (held : List ℕ)
    → Sound c held
    → AllHeld held block_ids
    → (added : ℕ) × (c' : Shared) × (insert tokens block_ids c ≡ (ok added, c'))
      × Publishes c held c'
unfolding insert insert_chunks
insert-Publishes tokens block_ids c held h ids =
    let bs = c.radix.block_size in
    let some_ids = take (num_chunks bs tokens block_ids) block_ids in
    let r =
      insert_below-Registers c.radix.clock bs tokens 0 some_ids c.radix.root c.allocator held
        h.accounts (AllHeld-take (num_chunks bs tokens block_ids) held block_ids ids) in
    let done = insert_chunks tokens block_ids c in
    let sound : Sound (registered c.radix done) held = record {
      accounts = r.accounts;
      counted = omega (arith, h.counted, r.counted);
      has_blocks =
          insert_below-AllHaveBlock c.radix.clock bs tokens 0 some_ids c.radix.root c.allocator
            h.has_blocks;
    } in
    let (c', run, p) = trim-Publishes c.radix.max_blocks (registered c.radix done) held sound in
    (
      done.added,
      c',
      ap (λ f. settle c.radix.max_blocks done.added f (registered c.radix done)) r.no_failure
          ∙ ap (λ (o : Outcome Shared (Unit {0})). and_then o (λ _ t. (ok done.added, t))) run,
      record {
        sound = p.sound;
        grown = omega (arith, p.grown, r.same_free);
        same_size = p.same_size ∙ r.same_size;
      },
    )
