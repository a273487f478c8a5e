-- ===== src/Scheduler/Room.antt =====
-- scheduler.py: `_reserved_blocks`, `_free_blocks`, `_make_room` and `_preempt`.
use infer_lab.Base.{
  ℕ, zero, suc, ◌+◌, ◌-◌, List, [], ◌∷◌, length, reverse, Bool, leb, if◌then◌else◌, Option, none,
  some, ok, Action, and_then,
}
use infer_lab.Allocator.{num_free}
use infer_lab.Radix
use infer_lab.Radix.{RadixCache}
use infer_lab.Request.{Request, reset_for_recompute}
use infer_lab.Scheduler.State.{Scheduler, on_allocator, on_radix, remove_request, contains}

abbrev pub reserved_blocks : Scheduler → ℕ
reserved_blocks s = s.config.watermark s.allocator.num_blocks

-- Python's `have - owed`, which may be negative.
pub record Balance : Type 0 where
  pub have : ℕ
  pub owed : ℕ

-- `needed <= balance`
abbrev pub fits : ℕ → Balance → Bool
fits needed b = leb (needed + b.owed) b.have

-- `max(0, balance)`
abbrev pub at_least_zero : Balance → ℕ
at_least_zero b = b.have - b.owed

abbrev pub free_blocks : Scheduler → Balance
free_blocks s = record { have = num_free s.allocator; owed = reserved_blocks s }

-- `available()` of `schedule`.
abbrev pub available : Scheduler → ℕ → Balance
available s reserved = record { have = num_free s.allocator; owed = reserved_blocks s + reserved }

abbrev pub counted_preemption : Request → Request
counted_preemption r = record r {
  metrics = record r.metrics { preemption_count = r.metrics.preemption_count + 1 };
}

unfoldable pub preempt : Request → Action Scheduler (Unit {0})
preempt r s = and_then (on_allocator (reset_for_recompute r) s) λ r' t. (
  ok tt,
  record t {
    stats = record t.stats { preemptions = t.stats.preemptions + 1 };
    running = remove_request r.request_id t.running;
    waiting = counted_preemption r' ∷ t.waiting;
  },
)

-- The first of `reversed(running)` that is not protected.
unfoldable pub find_victim : List ℕ → List Request → Option Request
find_victim protected [] = none
find_victim protected (r ∷ rs) =
    if contains r.request_id protected then find_victim protected rs else some r

-- The `while` loop of `_make_room`; each round preempts a running request, so that as many rounds as
-- there are running requests are enough.
unfoldable pub preempt_until : ℕ → ℕ → List ℕ → Action Scheduler (List ℕ)
preempt_until zero needed protected s = (ok [], s)
preempt_until (suc fuel) needed protected s =
    if fits needed (free_blocks s)
    then (ok [], s)
    else (elim (find_victim protected (reverse s.running)) [
      | none ↦ (ok [], s)
      | some victim ↦ and_then (preempt victim s) λ _ t.
          and_then (preempt_until fuel needed protected t)
            λ victims u. (ok (victim.request_id ∷ victims), u)
    ])

-- The reclaim from the prefix cache; a shortfall that is not positive evicts nothing.
abbrev pub evict_from : Option RadixCache → ℕ → Action Scheduler ℕ
evict_from none shortfall s = (ok 0, s)
evict_from (some c) shortfall s = on_radix c (Radix.evict shortfall) s

unfoldable pub reclaim : ℕ → Action Scheduler ℕ
reclaim needed s = evict_from s.radix (needed + reserved_blocks s - num_free s.allocator) s

unfoldable pub make_room : ℕ → List ℕ → Action Scheduler (List ℕ)
make_room needed protected s = and_then (reclaim needed s) λ _ t.
    if t.config.enable_preemption
    then preempt_until (length t.running) needed protected t
    else (ok [], t)
