-- ===== src/Health/Quorum.antt =====
-- When the ring is quorate.
use infer_lab.Base.{
  ℕ, suc, ◌+◌, ◌≤◌, ◌≡◌, ◌↔◌, refl, ap, List, [], ◌∷◌, length, Bool, Bool-cases, inl, inr, true,
  false, ==_iff, if◌then◌else◌, Option, none, some, arith,
}
use infer_lab.Health.{
  ℤ, pos, negsuc, ltb_ℤ, is_zero, PeerState, PeerHealth, HealthMonitor, healthy, suspect, dead,
  unknown, classify, evaluated, evaluate_peers, evaluate, is_healthy, is_dead, count_healthy,
  healthy_count, is_quorate, dead_peers, dead_from,
}

count_healthy-le : {T : Type 0} (ps : List (PeerHealth T)) → count_healthy ps ≤ length ps
unfolding count_healthy
count_healthy-le [] = omega arith
count_healthy-le (p ∷ ps) = ground (arith, count_healthy-le ps)

module _ {T : Type 0} (missed : T → T → ℤ) (now : T) where
  -- The peer's last heartbeat is less than an interval old, and not after `now`.
  abbrev pub Timely : Option T → Type 0
  Timely none = ⊥
  Timely (some last) = missed now last ≡ pos 0

  abbrev pub AllTimely : List (PeerHealth T) → Type 0
  AllTimely [] = Unit {0}
  AllTimely (p ∷ ps) = Timely p.last_heartbeat × AllTimely ps

  healthy-Timely :
      (threshold : ℤ) (p : PeerHealth T) (o : Option T)
      → (is_healthy (evaluated missed threshold now p o).state ≡ true) ↔ Timely o
  healthy-Timely threshold p none = ((λ h. cc), λ h. absurd h)
  healthy-Timely threshold p (some last) = by_count (missed now last)
    where
      not_healthy : (n : ℤ) → is_zero n ≡ false → is_healthy (classify threshold n) ≡ true → ⊥
      not_healthy n miss h = elim (Bool-cases (ltb_ℤ n threshold)) [
        | inl few ↦ (let clash = rw (miss, few) at h in cc)
        | inr many ↦ (let clash = rw (miss, many) at h in cc)
      ]

      zero_is : (n : ℤ) → is_zero n ≡ true → n ≡ pos 0
      zero_is (pos n) e = ap pos ((==_iff n 0).0 e)
      zero_is (negsuc n) e = cc

      by_count : (n : ℤ) → (is_healthy (classify threshold n) ≡ true) ↔ (n ≡ pos 0)
      by_count n = elim (Bool-cases (is_zero n)) [
        | inl hit ↦ ((λ h. zero_is n hit), λ e. rw hit refl)
        | inr miss ↦ ((λ h. absurd (not_healthy n miss h)), λ e. (let clash = rw e at miss in cc))
      ]

  length-evaluate_peers :
      (threshold : ℤ) (ps : List (PeerHealth T))
      → length (evaluate_peers missed threshold now ps) ≡ length ps
  length-evaluate_peers threshold [] = refl
  length-evaluate_peers threshold (p ∷ ps) = ap suc (length-evaluate_peers threshold ps)

  all_healthy :
      (threshold : ℤ) (ps : List (PeerHealth T))
      → (count_healthy (evaluate_peers missed threshold now ps) ≡ length ps) ↔ AllTimely ps
  unfolding count_healthy
  all_healthy threshold [] = ((λ h. tt), λ h. refl)
  all_healthy threshold (p ∷ ps) =
      let (to, back) = healthy-Timely threshold p p.last_heartbeat in
      let (rest_to, rest_back) = all_healthy threshold ps in
      let q = evaluated missed threshold now p p.last_heartbeat in
      let most = count_healthy-le (evaluate_peers missed threshold now ps) in
      let size = length-evaluate_peers threshold ps in
      (
        (λ h. (
          to (first (is_healthy q.state) _ _ (length ps) size most h),
          rest_to (others (is_healthy q.state) _ _ (length ps) size most h),
        )),
        (λ h. both (is_healthy q.state) _ (length ps) (back h.0) (rest_back h.1)),
      )
    where
      first : (b : Bool) (c l n : ℕ) → l ≡ n → c ≤ l → (if b then 1 else 0) + c ≡ suc n → b ≡ true
      first true c l n e h k = refl
      first false c l n e h k = absurd (omega arith)

      others : (b : Bool) (c l n : ℕ) → l ≡ n → c ≤ l → (if b then 1 else 0) + c ≡ suc n → c ≡ n
      others true c l n e h k = omega arith
      others false c l n e h k = absurd (omega arith)

      both : (b : Bool) (c n : ℕ) → b ≡ true → c ≡ n → (if b then 1 else 0) + c ≡ suc n
      both true c n e h = omega arith
      both false c n e h = cc

  none_dead :
      (threshold : ℤ) (rank : ℕ) (ps : List (PeerHealth T))
      → AllTimely ps
      → dead_from rank (evaluate_peers missed threshold now ps) ≡ []
  unfolding dead_from
  none_dead threshold rank [] h = refl
  none_dead threshold rank (p ∷ ps) h =
      let alive =
        healthy_alive (evaluated missed threshold now p p.last_heartbeat).state
          ((healthy-Timely threshold p p.last_heartbeat).1 h.0) in
      rw alive (none_dead threshold (suc rank) ps h.1)
    where
      healthy_alive : (s : PeerState) → is_healthy s ≡ true → is_dead s ≡ false
      healthy_alive healthy e = refl
      healthy_alive suspect e = refl
      healthy_alive dead e = cc
      healthy_alive unknown e = refl

  -- The ring is quorate exactly if every rank has sent a heartbeat and the last of each is 0 intervals
  -- old, not a negative number of them, as one after `now` is; and no peer is dead then.
  pub is_quorate-AllTimely :
      (h : HealthMonitor T)
      → ((is_quorate missed now h ≡ true) ↔ AllTimely h.peers)
        × (is_quorate missed now h ≡ true → dead_peers missed now h ≡ [])
  unfolding is_quorate healthy_count dead_peers evaluate
  is_quorate-AllTimely h =
      let counted = count_healthy (evaluate_peers missed h.failure_threshold now h.peers) in
      let (to, back) = all_healthy h.failure_threshold h.peers in
      let (equal, test) = ==_iff counted (length h.peers) in
      (
        ((λ q. to (equal q)), λ t. test (back t)),
        λ q. none_dead h.failure_threshold 0 h.peers (to (equal q)),
      )
