-- ===== src/Health.antt =====
-- src/infer_lab/distributed/health.py: the failure detector of the ring. The peers stand in a list,
-- by rank. A time is a value of any type; `missed now last` is `int((now - last) // interval_s)`,
-- an integer: the quotient is negative for a heartbeat after `now`. A step of -1 is `none`.
pub mod Quorum
use infer_lab.Base.{
  ℕ, zero, suc, ◌+◌, ◌==◌, max, List, [], ◌∷◌, length, set, get_elem?, Bool, true, false, ltb, ◌&&◌,
  if◌then◌else◌, Option, none, some, Result, ok, err, Outcome, Action, key_error,
}

-- `pos n` is n, `negsuc n` is -(n + 1).
pub data ℤ : Type 0 where
  pos : ℕ → ℤ
  negsuc : ℕ → ℤ

abbrev pub ltb_ℤ : ℤ → ℤ → Bool
ltb_ℤ (pos a) (pos b) = ltb a b
ltb_ℤ (pos a) (negsuc b) = false
ltb_ℤ (negsuc a) (pos b) = true
ltb_ℤ (negsuc a) (negsuc b) = ltb b a

abbrev pub is_zero : ℤ → Bool
is_zero (pos n) = n == 0
is_zero (negsuc n) = false

pub data PeerState : Type 0 where
  healthy suspect dead unknown : PeerState

pub record PeerHealth (T : Type 0) : Type 0 where
  pub last_heartbeat : Option T
  pub state : PeerState
  pub missed_intervals : ℤ
  pub observed_step : Option ℕ

pub record HealthMonitor (T : Type 0) : Type 0 where
  pub failure_threshold : ℤ
  pub peers : List (PeerHealth T)

abbrev pub later_step : Option ℕ → Option ℕ → Option ℕ
later_step none old = old
later_step (some step) old = some step

abbrev pub classify : ℤ → ℤ → PeerState
classify threshold missed =
    if is_zero missed then healthy else if ltb_ℤ missed threshold then suspect else dead

abbrev pub is_healthy : PeerState → Bool
is_healthy healthy = true
is_healthy _ = false

abbrev pub is_dead : PeerState → Bool
is_dead dead = true
is_dead _ = false

-- The highest step that was observed, if one was.
abbrev pub higher : Option ℕ → Option ℕ → Option ℕ
higher none other = other
higher (some a) none = some a
higher (some a) (some b) = some (max a b)

abbrev pub lags : ℕ → Option ℕ → Bool
lags top none = false
lags top (some step) = ltb step top

module _ {T : Type 0} where
  abbrev pub new_peer : PeerHealth T
  new_peer = record {
    last_heartbeat = none;
    state = unknown;
    missed_intervals = pos 0;
    observed_step = none;
  }

  unfoldable pub new_peers : ℕ → List (PeerHealth T)
  new_peers zero = []
  new_peers (suc n) = new_peer ∷ new_peers n

  abbrev pub world_size : HealthMonitor T → ℕ
  world_size h = length h.peers

  abbrev pub beaten : ℕ → T → Option ℕ → Option (PeerHealth T) → Action (HealthMonitor T) (Unit {0})
  beaten rank now step none h = (err key_error, h)
  beaten rank now step (some p) h = (
    ok tt,
    record h {
      peers = set h.peers rank (record p {
        last_heartbeat = some now;
        missed_intervals = pos 0;
        state = healthy;
        observed_step = later_step step p.observed_step;
      });
    },
  )

  unfoldable pub heartbeat : ℕ → T → Option ℕ → Action (HealthMonitor T) (Unit {0})
  heartbeat rank now step h = beaten rank now step (get_elem? h.peers rank) h

  -- `threshold` is `failure_threshold`.
  abbrev pub evaluated : (T → T → ℤ) → ℤ → T → PeerHealth T → Option T → PeerHealth T
  evaluated missed threshold now p none = record p { state = unknown }
  evaluated missed threshold now p (some last) = record p {
    missed_intervals = missed now last;
    state = classify threshold (missed now last);
  }

  abbrev pub evaluate_peers : (T → T → ℤ) → ℤ → T → List (PeerHealth T) → List (PeerHealth T)
  evaluate_peers missed threshold now [] = []
  evaluate_peers missed threshold now (p ∷ ps) =
      evaluated missed threshold now p p.last_heartbeat ∷ evaluate_peers missed threshold now ps

  unfoldable pub evaluate : (T → T → ℤ) → T → HealthMonitor T → HealthMonitor T
  evaluate missed now h = record h { peers = evaluate_peers missed h.failure_threshold now h.peers }

  -- The ranks from `rank` on whose state is DEAD.
  unfoldable pub dead_from : ℕ → List (PeerHealth T) → List ℕ
  dead_from rank [] = []
  dead_from rank (p ∷ ps) =
      let rest = dead_from (suc rank) ps in if is_dead p.state then rank ∷ rest else rest

  unfoldable pub count_healthy : List (PeerHealth T) → ℕ
  count_healthy [] = 0
  count_healthy (p ∷ ps) = (if is_healthy p.state then 1 else 0) + count_healthy ps

  unfoldable pub dead_peers : (T → T → ℤ) → T → HealthMonitor T → List ℕ
  dead_peers missed now h = dead_from 0 (evaluate missed now h).peers

  unfoldable pub healthy_count : (T → T → ℤ) → T → HealthMonitor T → ℕ
  healthy_count missed now h = count_healthy (evaluate missed now h).peers

  unfoldable pub is_quorate : (T → T → ℤ) → T → HealthMonitor T → Bool
  is_quorate missed now h = healthy_count missed now h == world_size h

  abbrev pub leader : List (PeerHealth T) → Option ℕ
  leader [] = none
  leader (p ∷ ps) = higher p.observed_step (leader ps)

  unfoldable pub behind : ℕ → ℕ → List (PeerHealth T) → List ℕ
  behind top rank [] = []
  behind top rank (p ∷ ps) =
      let rest = behind top (suc rank) ps in if lags top p.observed_step then rank ∷ rest else rest

  abbrev pub behind_leader : Option ℕ → List (PeerHealth T) → List ℕ
  behind_leader none ps = []
  behind_leader (some top) ps = behind top 0 ps

  -- The ranks come in their order.
  unfoldable pub stragglers : HealthMonitor T → List ℕ
  stragglers h = behind_leader (leader h.peers) h.peers
