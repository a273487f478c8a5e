-- ===== src/Tests/Beats.antt =====
-- Three ranks at time 7, with an interval of 1: one sent a heartbeat now, one after `now` was read,
-- and one never did.
use infer_lab.Base.{ℕ, ◌-◌, ◌≡◌, ◌↔◌, refl, [], ◌∷◌, ltb, if◌then◌else◌, true, some}
use infer_lab.Health.{
  ℤ, pos, negsuc, suspect, classify, HealthMonitor, new_peer, healthy, is_quorate, dead_peers,
}
use infer_lab.Health.Quorum.{AllTimely, is_quorate-AllTimely}

abbrev missed : ℕ → ℕ → ℤ
missed now last = if ltb now last then negsuc (last - now - 1) else pos (now - last)

late_suspect : classify (pos 3) (missed 7 8) ≡ suspect
late_suspect = refl

abbrev monitor : HealthMonitor ℕ
monitor = record {
  failure_threshold = pos 3;
  peers =
      record new_peer { last_heartbeat = some 7; state = healthy }
      ∷ record new_peer { last_heartbeat = some 8; state = healthy }
      ∷ new_peer
      ∷ [];
}

is_quorate-AllTimely_example :
    ((is_quorate missed 7 monitor ≡ true) ↔ AllTimely missed 7 monitor.peers)
    × (is_quorate missed 7 monitor ≡ true → dead_peers missed 7 monitor ≡ [])
is_quorate-AllTimely_example = is_quorate-AllTimely missed 7 monitor
