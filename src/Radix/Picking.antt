-- ===== src/Radix/Picking.antt =====
-- Which leaf is evicted: the loop of `_lru_evictable_leaf` against a selection without exceptions.
use infer_lab.Base.{
  ℕ, ◌≤◌, ◌<◌, ◌≡◌, refl, List, [], ◌∷◌, All, Bool, true, false, ◌&&◌, Bool-cases, inl, inr, Option,
  none, some, arith, ltb, ◌==◌, if◌then◌else◌, ok,
}
use infer_lab.Allocator.{Allocator, ref_at, ref_count}
use infer_lab.Radix.Tree.{Visit}
use infer_lab.Radix.{older, better, choose}

abbrev pub only_cached : Allocator → Option ℕ → Bool
only_cached s none = false
only_cached s (some b) = ref_at s b == 1

-- A leaf whose block nobody but the cache holds.
abbrev pub evictable : Allocator → Visit → Bool
evictable s v = v.is_leaf && only_cached s v.node.block_id

unfoldable pub pick : Allocator → Option Visit → List Visit → Option Visit
pick s best [] = best
pick s best (v ∷ vs) = pick s (if evictable s v then older best v else best) vs

abbrev pub BlockInRange : Allocator → Option ℕ → Type 0
BlockInRange s none = Unit {0}
BlockInRange s (some b) = b < s.num_blocks

better-eq :
    (s : Allocator) (best : Option Visit) (v : Visit) (o : Option ℕ)
    → v.node.block_id ≡ o
    → BlockInRange s o
    → better best v s ≡ (ok (if evictable s v then older best v else best), s)
unfolding better ref_count
better-eq s best v none e h = ground (arith, e)
better-eq s best v (some b) e h = ground (arith, e)

pub choose-eq-pick :
    (s : Allocator) (best : Option Visit) (vs : List Visit)
    → All (λ v. BlockInRange s v.node.block_id) vs
    → choose best vs s ≡ (ok (pick s best vs), s)
unfolding choose pick
choose-eq-pick s best [] h = refl
choose-eq-pick s best (v ∷ vs) h =
    rw (better-eq s best v v.node.block_id refl h.0)
      (choose-eq-pick s (if evictable s v then older best v else best) vs h.1)

-- What is known of a candidate that was picked, and of the visits that were not.
abbrev pub Fine : Allocator → (Visit → Type 0) → Option Visit → Type 0
Fine s P none = Unit {0}
Fine s P (some v) = P v × (evictable s v ≡ true)

older-Fine :
    (s : Allocator) (P : Visit → Type 0) (best : Option Visit) (v : Visit)
    → Fine s P best
    → P v
    → Fine s P (if evictable s v then older best v else best)
older-Fine s P none v h p = elim (Bool-cases (evictable s v)) [
  | inl e ↦ rw e (p, e)
  | inr e ↦ rw e tt
]
older-Fine s P (some w) v h p = elim (Bool-cases (evictable s v)) [
  | inl e ↦ rw e (elim (Bool-cases (ltb v.node.last_access w.node.last_access)) [
    | inl l ↦ rw l (p, e)
    | inr l ↦ rw l h
  ])
  | inr e ↦ rw e h
]

pub pick-Fine :
    (s : Allocator) (P : Visit → Type 0) (vs : List Visit) (best : Option Visit)
    → Fine s P best
    → All P vs
    → Fine s P (pick s best vs)
unfolding pick
pick-Fine s P [] best h a = h
pick-Fine s P (v ∷ vs) best h a =
    pick-Fine s P vs (if evictable s v then older best v else best) (older-Fine s P best v h a.0)
      a.1

-- `r` is at most as recently used as `v`, if `v` is evictable at all.
abbrev pub NoNewer : Allocator → Option Visit → Visit → Type 0
NoNewer s none v = evictable s v ≡ false
NoNewer s (some r) v = evictable s v ≡ true → r.node.last_access ≤ v.node.last_access

-- `r` is at most as recently used as the candidate `best`.
abbrev pub BestKept : Option Visit → Option Visit → Type 0
BestKept r none = Unit {0}
BestKept none (some b) = ⊥
BestKept (some r) (some b) = r.node.last_access ≤ b.node.last_access

kept_older :
    (s : Allocator) (r best : Option Visit) (v : Visit)
    → BestKept r (if evictable s v then older best v else best)
    → BestKept r best × NoNewer s r v
kept_older s none none v h = ground arith
kept_older s none (some b) v h = ground arith
kept_older s (some r) none v h = ground arith
kept_older s (some r) (some b) v h = ground arith

pub pick_least :
    (s : Allocator) (vs : List Visit) (best : Option Visit)
    → BestKept (pick s best vs) best × All (NoNewer s (pick s best vs)) vs
unfolding pick
pick_least s [] none = (tt, tt)
pick_least s [] (some b) = (omega arith, tt)
pick_least s (v ∷ vs) best =
    let best' = if evictable s v then older best v else best in
    let (k, a) = pick_least s vs best' in
    let (k', n) = kept_older s (pick s best' vs) best v k in (k', (n, a))
