-- ===== src/Radix/Shape.antt =====
-- What was inserted is found again: `insert` leaves a path that spells the tokens.
use native.Mathlib.Nat.{le-div_iff_mul-le}
use infer_lab.Base.{
  ℕ, zero, suc, ◌+◌, ◌*◌, ◌≤◌, ◌<◌, ◌≡◌, refl, sym, ap, ap₂, ◌∙◌, some_injective, List, [], ◌∷◌,
  ◌++◌, length, length-take, length-drop, take-append, drop-append, take, drop, Bool, true, false,
  Bool-cases, inl, inr, Option, none, some, arith, ok, err, Outcome,
}
use infer_lab.Allocator.{Allocator, incref}
use infer_lab.Allocator.Accounts.{Accounts}
use infer_lab.Paged.Table.{AllHeld}
use infer_lab.Radix.Tree.{Node, Forest, nil, tree, same_tokens, Inserted, enter, insert_below}
use infer_lab.Radix.Blocks.{blocks, HasBlock, AllHaveBlock}
use infer_lab.Radix.Matching.{Spells, match_prefix-longest}
use infer_lab.Radix.Inserting.{insert_below-Registers}
use infer_lab.Radix.{Shared, match_prefix, insert, insert_chunks, registered, num_chunks}

pub same_tokens_refl : (xs : List ℕ) → same_tokens xs xs ≡ true
unfolding same_tokens
same_tokens_refl [] = refl
same_tokens_refl (x ∷ xs) = ground (arith, same_tokens_refl xs)

enter-Spells :
    (bs : ℕ) (tokens : List ℕ) (node : Node) (b : ℕ) (bl : List ℕ) (r : Outcome Allocator ℕ)
    (i : Inserted)
    → node.block_id ≡ some b
    → node.tokens ≡ take bs tokens
    → (enter node r i).failure ≡ none
    → (i.failure ≡ none → Spells bs (drop bs tokens) bl i.forest)
    → Spells bs tokens (b ∷ bl) (enter node r i).forest
enter-Spells bs tokens node b bl (ok _, t) i e same fine h =
    Spells.step (rw same (same_tokens_refl (take bs tokens))) e (h fine)
enter-Spells bs tokens node b bl (err x, t) i e same fine h = cc

block_of : (o : Option ℕ) → HasBlock o → (b : ℕ) × (o ≡ some b)
block_of none h = absurd h
block_of (some b) h = (b, refl)

-- Below a leaf the loop registers every block that it is given.
insert_below-Spells :
    (now bs : ℕ) (tokens : List ℕ) (depth : ℕ) (ids : List ℕ) (s : Allocator)
    → (insert_below now bs tokens depth ids nil s).failure ≡ none
    → Spells bs tokens ids (insert_below now bs tokens depth ids nil s).forest
unfolding insert_below
insert_below-Spells now bs tokens depth [] s fine = Spells.stop
insert_below-Spells now bs tokens depth (block ∷ ids) s fine =
    enter-Spells bs tokens _ block ids (incref block s) _ refl refl fine
      (insert_below-Spells now bs (drop bs tokens) (depth + bs) ids (incref block s).1)

-- `old` are the blocks that `f` has on its longest path for at most `n` chunks of `tokens`.
pub record Longest (bs : ℕ) (tokens : List ℕ) (n : ℕ) (f : Forest) (old : List ℕ) : Type 0 where
  pub spells : Spells bs tokens old f
  pub short : length old ≤ n
  pub longest : (bl : List ℕ) → Spells bs tokens bl f → length bl ≤ n → length bl ≤ length old

-- From `f` to `f'` the path goes on beyond its old blocks with those of `ids`.
abbrev Goes : ℕ → List ℕ → List ℕ → Forest → Forest → Type 0
Goes bs tokens ids f f' =
    (old : List ℕ) × Longest bs tokens (length ids) f old
    × Spells bs tokens (old ++ drop (length old) ids) f'

insert_below-Goes :
    (now bs : ℕ) (tokens : List ℕ) (depth : ℕ) (ids : List ℕ) (f : Forest) (s : Allocator)
    → AllHaveBlock f
    → (insert_below now bs tokens depth ids f s).failure ≡ none
    → Goes bs tokens ids f (insert_below now bs tokens depth ids f s).forest
unfolding insert_below
insert_below-Goes now bs tokens depth [] f s h fine =
    ([], record { spells = Spells.stop; short = omega arith; longest = λ bl p le. le }, Spells.stop)
insert_below-Goes now bs tokens depth (block ∷ ids) nil s h fine = (
  [],
  record { spells = Spells.stop; short = omega arith; longest = λ bl p le. empty bl p },
  enter-Spells bs tokens _ block ids (incref block s) _ refl refl fine
      (insert_below-Spells now bs (drop bs tokens) (depth + bs) ids (incref block s).1),
)
  where
    empty : (bl : List ℕ) → Spells bs tokens bl nil → length bl ≤ 0
    empty bl Spells.stop = omega arith
insert_below-Goes now bs tokens depth (block ∷ ids) (tree node kids rest) s h fine =
    elim (Bool-cases (same_tokens node.tokens (take bs tokens))) [
      | inl same ↦
          (let (b, e) = block_of node.block_id h.0 in
            let (old, l, p) =
              insert_below-Goes now bs (drop bs tokens) node.depth ids kids s h.1
                (rw same at fine) in
            (
              b ∷ old,
              record {
                spells = Spells.step {bl = old} same e l.spells;
                short = omega (arith, l.short);
                longest = λ bl q le. inside same old (λ c. l.longest c) bl q le;
              },
              rw same (Spells.step {bl = old ++ drop (length old) ids} same e p),
            ))
      | inr other ↦
          (let (old, l, p) =
              insert_below-Goes now bs tokens depth (block ∷ ids) rest s h.2 (rw other at fine) in
            (
              old,
              record {
                spells = Spells.skip {bl = old} other l.spells;
                short = l.short;
                longest = λ bl q le. beside other old (λ c. l.longest c) bl q le;
              },
              rw other (Spells.skip {bl = old ++ drop (length old) (block ∷ ids)} other p),
            ))
    ]
  where
    apart : {x : Bool} {A : Type 0} → x ≡ true → x ≡ false → A
    apart e f = cc

    inside :
        same_tokens node.tokens (take bs tokens) ≡ true
        → (old : List ℕ)
        → ((c : List ℕ)
            → Spells bs (drop bs tokens) c kids
            → length c ≤ length ids
            → length c ≤ length old)
        → (bl : List ℕ) → Spells bs tokens bl (tree node kids rest)
        → length bl ≤ suc (length ids)
        → length bl ≤ suc (length old)
    inside same old l bl Spells.stop le = omega arith
    inside same old l (b ∷ bl) (Spells.step q e s) le =
        let deeper = l bl s (omega arith) in omega (arith, deeper)
    inside same old l bl (Spells.skip q s) le = apart same q

    beside :
        same_tokens node.tokens (take bs tokens) ≡ false
        → (old : List ℕ)
        → ((c : List ℕ)
            → Spells bs tokens c rest
            → length c ≤ suc (length ids)
            → length c ≤ length old)
        → (bl : List ℕ) → Spells bs tokens bl (tree node kids rest)
        → length bl ≤ suc (length ids)
        → length bl ≤ length old
    beside other old l bl Spells.stop le = omega arith
    beside other old l bl (Spells.step q e s) le = apart q other
    beside other old l bl (Spells.skip q s) le = l bl s le

apart_tests : {x : Bool} {A : Type 0} → x ≡ true → x ≡ false → A
apart_tests e f = cc

-- Of two paths for the same tokens the shorter is the beginning of the longer.
Spells-take :
    {bs : ℕ} {tokens a bl : List ℕ} {f : Forest}
    → Spells bs tokens a f
    → Spells bs tokens bl f
    → length a ≤ length bl
    → take (length a) bl ≡ a
Spells-take Spells.stop q h = refl
Spells-take (Spells.step same e s) Spells.stop h = absurd (omega arith)
Spells-take (Spells.step same e s) (Spells.step same' e' s') h =
    ap₂ (λ x xs. x ∷ xs) (some_injective (sym e' ∙ e)) (Spells-take s s' (omega arith))
Spells-take (Spells.step same e s) (Spells.skip other s') h = apart_tests same other
Spells-take {a = []} (Spells.skip other s) q h = refl
Spells-take {a = x ∷ a} (Spells.skip other s) Spells.stop h = absurd (omega arith)
Spells-take {a = x ∷ a} (Spells.skip other s) (Spells.step same e s') h = apart_tests same other
Spells-take {a = x ∷ a} (Spells.skip other s) (Spells.skip other' s') h = Spells-take s s' h

step_size : (n bs : ℕ) → suc n * bs ≡ n * bs + bs
step_size n bs = omega arith

-- A path within `tokens` also spells any continuation of them.
Spells-append :
    {bs : ℕ} {tokens bl : List ℕ} {f : Forest} (more : List ℕ)
    → Spells bs tokens bl f
    → length bl * bs ≤ length tokens
    → Spells bs (tokens ++ more) bl f
Spells-append more Spells.stop h = Spells.stop
Spells-append {bs} more (Spells.step {tokens = tokens} {bl = bl} same e s) h =
    let one : bs ≤ length tokens = omega (arith, step_size (length bl) bs) in
    Spells.step (rw (take-append bs tokens more one) same) e (
      rw (drop-append bs tokens more one)
        (Spells-append more s (omega (arith, step_size (length bl) bs, length-drop bs tokens))))
Spells-append {bs} more (Spells.skip {tokens = tokens} {bl = []} other s) h = Spells.stop
Spells-append {bs} more (Spells.skip {tokens = tokens} {bl = b ∷ bl} other s) h =
    let one : bs ≤ length tokens = omega (arith, step_size (length bl) bs) in
    Spells.skip (rw (take-append bs tokens more one) other) (Spells-append more s h)

num_chunks-fits :
    (bs : ℕ) (tokens ids : List ℕ) → 0 < bs → num_chunks bs tokens ids * bs ≤ length tokens
num_chunks-fits bs tokens ids h = (le-div_iff_mul-le h).0 (omega arith)

pub AllHeld-take : (n : ℕ) (held ids : List ℕ) → AllHeld held ids → AllHeld held (take n ids)
AllHeld-take zero held ids h = tt
AllHeld-take (suc n) held [] h = tt
AllHeld-take (suc n) held (b ∷ ids) h = (h.0, AllHeld-take n held ids h.1)

length-over :
    (old ids : List ℕ)
    → length old ≤ length ids
    → length (old ++ drop (length old) ids) ≡ length ids
length-over [] ids h = refl
length-over (b ∷ old) [] h = absurd (omega arith)
length-over (b ∷ old) (i ∷ ids) h = ap suc (length-over old ids (omega arith))

-- A cache with no limit: if somebody holds each of `block_ids`, `insert` succeeds, returns how many
-- blocks the cache holds more, and the books agree. Let `old` be the blocks on the longest path
-- that the tree had before for the inserted chunks. A later query that begins with `tokens` and
-- goes on past these chunks is served at least their number of blocks from the cache, and first
-- `old` and then those of `block_ids` that come after, each for its chunk.
pub insert-match_prefix :
    (tokens block_ids : List ℕ) (c : Shared) (held : List ℕ)
    → 0 < c.radix.block_size
    → c.radix.max_blocks ≡ none
    → Accounts c.allocator (blocks c.radix.root ++ held)
    → AllHaveBlock c.radix.root
    → AllHeld held block_ids
    → let n = num_chunks c.radix.block_size tokens block_ids in
      (added : ℕ) × (c' : Shared) × (insert tokens block_ids c ≡ (ok added, c'))
      × Accounts c'.allocator (blocks c'.radix.root ++ held)
      × (length (blocks c'.radix.root) ≡ length (blocks c.radix.root) + added)
      × (c'.radix.cached_blocks ≡ c.radix.cached_blocks + added)
      × ((old : List ℕ) × Longest c.radix.block_size tokens n c.radix.root old
          × ((more : List ℕ)
              → n * c.radix.block_size < length (tokens ++ more)
              → let found = (match_prefix (tokens ++ more) c'.radix).0.0 in
                (n ≤ length found) × (take n found ≡ old ++ drop (length old) (take n block_ids))))
unfolding insert insert_chunks
insert-match_prefix tokens block_ids c held h unlimited a has h_ids =
    let bs = c.radix.block_size in
    let n = num_chunks bs tokens block_ids in
    let ids = take n block_ids in
    let r =
      insert_below-Registers c.radix.clock bs tokens 0 ids c.radix.root c.allocator held a
        (AllHeld-take n held block_ids h_ids) in
    let (old, l, s) =
      insert_below-Goes c.radix.clock bs tokens 0 ids c.radix.root c.allocator has r.no_failure in
    let all : length ids ≡ n = omega (arith, length-take n block_ids) in
    let same_count : length (old ++ drop (length old) ids) ≡ n =
      length-over old ids l.short ∙ all in
    let fits : length (old ++ drop (length old) ids) * bs ≤ length tokens =
      rw same_count (num_chunks-fits bs tokens block_ids h) in
    (
      (insert_chunks tokens block_ids c).added,
      registered c.radix (insert_chunks tokens block_ids c),
      rw (r.no_failure, unlimited) refl,
      r.accounts,
      r.counted,
      refl,
      (
        old,
        record {
          spells = l.spells;
          short = omega (arith, l.short, all);
          longest = λ bl p le. l.longest bl p (omega (arith, all));
        },
        λ more room.
            (let path = Spells-append more s fits in
              let (found, _, _, best) =
                match_prefix-longest (tokens ++ more)
                  (registered c.radix (insert_chunks tokens block_ids c)).radix h (omega arith) in
              let enough = best _ path (rw same_count room) in
              (
                omega (arith, enough, same_count),
                ap
                      (λ k.
                        take k
                          (match_prefix (tokens ++ more)
                            (registered c.radix (insert_chunks tokens block_ids c)).radix).0.0)
                      (sym same_count)
                    ∙ Spells-take path found enough,
              )),
      ),
    )
