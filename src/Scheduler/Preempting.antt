-- ===== src/Scheduler/Preempting.antt =====
-- Preemption against the invariant: `_preempt` and `_make_room`.
use mathlib.Core.List.{reverse-cons}
use infer_lab.Base.{
  ltb, ℕ, zero, suc, ◌+◌, ◌-◌, ◌≤◌, ◌≡◌, ◌⊎◌, inl, inr, refl, sym, ap, ap₂, ◌∙◌, List, [], ◌∷◌,
  ◌++◌, length, reverse, All, Bool, count, count-append, true, false, Bool-cases, Option-cases,
  Option, none, some, arith, ok, and_then,
}
use infer_lab.Allocator.{Allocator, num_free}
use infer_lab.Allocator.Accounts.{Accounts, Accounts-cast}
use infer_lab.Allocator.Releasing.{Regains}
use infer_lab.Paged.{SequenceKv}
use infer_lab.Paged.Table.{release-Regains}
use infer_lab.Request.{Request, release_kv, reset_for_recompute, restarted}
use infer_lab.Scheduler.State.{
  Scheduler, Config, Stats, find_request, remove_request, contains, ids,
}
use infer_lab.Scheduler.Room.{
  reserved_blocks, fits, free_blocks, preempt, counted_preemption, find_victim, preempt_until,
  reclaim, make_room,
}
use infer_lab.Scheduler.Queues.{
  table_of, tables, count-tables, find-Removed, find-remove_ne, remove-All, find_victim_lem,
  Protected, no_victim_lem, not_contains-count,
}
use infer_lab.Scheduler.Invariant.{
  cached, Inv, Seated, Moves, Moves-refl, Moves-trans, CacheExhausted, evict_from-Moves,
}

pub release_kv-Regains :
    (o : Option SequenceKv) (s : Allocator) (rest : List ℕ)
    → Accounts s (table_of o ++ rest)
    → (t : Allocator) × (release_kv o s ≡ (ok tt, t)) × Regains s rest t
release_kv-Regains none s rest a =
    (s, refl, record { accounts = a; grown = omega arith; same_size = refl; same_block = refl })
release_kv-Regains (some kv) s rest a =
    let (kv', t, e, _, _, r) = release-Regains kv s rest a in (t, rw (e, and_then) refl, r)

ne_of_protected :
    (protected : List ℕ) (i j : ℕ)
    → contains i protected ≡ false
    → contains j protected ≡ true
    → i ≡ j
    → ⊥
ne_of_protected protected i j h k e = cc (ap (λ x. contains x protected) e)

-- A running request `v` goes back to the head of `waiting` as `w`, once its blocks are given back.
pub requeue-Moves :
    (v w : Request) (s : Scheduler) (protected : List ℕ) (st : Stats)
    → Inv s
    → find_request v.request_id s.running ≡ some v
    → contains v.request_id protected ≡ false
    → w.request_id ≡ v.request_id
    → w.kv ≡ none
    → (t : Allocator) × (release_kv v.kv s.allocator ≡ (ok tt, t))
      × Moves protected s (record s {
        allocator = t;
        stats = st;
        running = remove_request v.request_id s.running;
        waiting = w ∷ s.waiting;
      })
requeue-Moves v w s protected st h found free same empty =
    let out = find-Removed v.request_id v s.running found in
    let left = remove_request v.request_id s.running in
    let rest = cached s.radix ++ (tables left ++ tables s.waiting) in
    let a : Accounts s.allocator (table_of v.kv ++ rest) =
      Accounts-cast
        (λ b. omega (
          arith,
          out.tables_eq b,
          count-append b (cached s.radix) (tables s.running ++ tables s.waiting),
          count-append b (tables s.running) (tables s.waiting),
          count-append b (table_of v.kv) rest,
          count-append b (cached s.radix) (tables left ++ tables s.waiting),
          count-append b (tables left) (tables s.waiting),
        ))
        h.books in
    let (t, e, r) = release_kv-Regains v.kv s.allocator rest a in
    (
      t,
      e,
      record {
        inv = record {
          books =
              Accounts-cast
                (λ b. omega (
                  arith,
                  count-append b (cached s.radix) (tables left ++ tables s.waiting),
                  count-append b (tables left) (tables s.waiting),
                  count-append b (cached s.radix) (tables left ++ tables (w ∷ s.waiting)),
                  count-append b (tables left) (tables (w ∷ s.waiting)),
                  count-tables b w s.waiting,
                  ap (λ o. count b (table_of o)) empty,
                ))
                r.accounts;
          cache = h.cache;
          seated = remove-All Seated v.request_id s.running h.seated;
          distinct = λ i. ground (arith, out.ids_eq i, h.distinct i, same);
          few = omega (arith, out.length_eq, h.few);
        };
        same_config = refl;
        same_size = r.same_size;
        grown = r.grown;
        kept = λ id p.
            find-remove_ne v.request_id id s.running
              (ne_of_protected protected v.request_id id free p);
      },
    )

-- `_preempt` of a running request that is not protected raises nothing and keeps the invariant; one
-- request fewer runs and one more waits, at the head; the protected ones are as before, and no free
-- block is lost.
pub preempt-Moves :
    (v : Request) (s : Scheduler) (protected : List ℕ)
    → Inv s
    → find_request v.request_id s.running ≡ some v
    → contains v.request_id protected ≡ false
    → (t : Scheduler) × (preempt v s ≡ (ok tt, t))
      × Moves protected s t
      × (length s.running ≡ suc (length t.running))
      × (ids t.waiting ≡ v.request_id ∷ ids s.waiting)
unfolding preempt reset_for_recompute
preempt-Moves v s protected h found free =
    let st = record s.stats { preemptions = s.stats.preemptions + 1 } in
    let w = counted_preemption (restarted v) in
    let (t, e, m) = requeue-Moves v w s protected st h found free refl refl in
    (
      record s {
        allocator = t;
        stats = st;
        running = remove_request v.request_id s.running;
        waiting = w ∷ s.waiting;
      },
      rw (e, and_then) refl,
      m,
      (find-Removed v.request_id v s.running found).length_eq,
      refl,
    )

append_snoc : (xs : List ℕ) (y : ℕ) (ys : List ℕ) → (xs ++ y ∷ []) ++ ys ≡ xs ++ y ∷ ys
append_snoc [] y ys = refl
append_snoc (x ∷ xs) y ys = ap (λ zs. x ∷ zs) (append_snoc xs y ys)

-- From `s` to `t` the `victims`, none of them protected, have left the running requests and wait
-- before the others, the last one first.
pub record Preempts (protected victims : List ℕ) (s t : Scheduler) : Type 0 where
  pub fewer : length s.running ≡ length victims + length t.running
  pub unprotected : All (λ i. count i protected ≡ 0) victims
  pub requeued : ids t.waiting ≡ reverse victims ++ ids s.waiting

Preempts-none : (protected : List ℕ) (s : Scheduler) → Preempts protected [] s s
Preempts-none protected s = record { fewer = omega arith; unprotected = tt; requeued = refl }

Preempts-cons :
    (protected victims : List ℕ) (i : ℕ) (s t u : Scheduler)
    → count i protected ≡ 0
    → length s.running ≡ suc (length t.running)
    → ids t.waiting ≡ i ∷ ids s.waiting
    → Preempts protected victims t u
    → Preempts protected (i ∷ victims) s u
Preempts-cons protected victims i s t u free len back p = record {
  fewer = omega (arith, len, p.fewer);
  unprotected = (free, p.unprotected);
  requeued = p.requeued ∙ (ap (λ xs. reverse victims ++ xs) back ∙ sym (move (ids s.waiting)));
}
  where
    move : (ys : List ℕ) → reverse (i ∷ victims) ++ ys ≡ reverse victims ++ i ∷ ys
    move ys = rw reverse-cons (append_snoc (reverse victims) i ys)

abbrev pub OnlyProtected : List ℕ → Scheduler → Type 0
OnlyProtected protected s = All (Protected protected) s.running

-- With as many rounds as requests run, and the invariant at the start, the loop of `_make_room`
-- raises nothing, keeps the invariant and ends with room or with only protected requests running;
-- with room at the start it preempts nobody.
pub preempt_until-Moves :
    (fuel needed : ℕ) (protected : List ℕ) (s : Scheduler)
    → Inv s
    → length s.running ≤ fuel
    → (victims : List ℕ) × (t : Scheduler) × (preempt_until fuel needed protected s
        ≡ (ok victims, t))
      × Moves protected s t
      × Preempts protected victims s t
      × (fits needed (free_blocks s) ≡ true → victims ≡ [])
      × ((fits needed (free_blocks t) ≡ true) ⊎ OnlyProtected protected t)
unfolding preempt_until
preempt_until-Moves zero needed protected s h le = (
  [],
  s,
  refl,
  Moves-refl protected s h,
  Preempts-none protected s,
  (λ _. refl),
  inr (nothing s.running le),
)
  where
    nothing : (xs : List Request) → length xs ≤ 0 → All (Protected protected) xs
    nothing [] p = tt
    nothing (x ∷ xs) p = absurd (omega arith)
preempt_until-Moves (suc fuel) needed protected s h le =
    elim (Bool-cases (fits needed (free_blocks s))) [
      | inl room ↦ (
        [],
        s,
        rw room refl,
        Moves-refl protected s h,
        Preempts-none protected s,
        (λ _. refl),
        inl room,
      )
      | inr short ↦ elim (Option-cases (find_victim protected (reverse s.running))) [
        | inl e ↦ (
          [],
          s,
          rw (short, e, preempt_until) refl,
          Moves-refl protected s h,
          Preempts-none protected s,
          (λ _. refl),
          inr (no_victim_lem protected s.running e),
        )
        | inr (v, e) ↦
            (let (found, free) =
                find_victim_lem protected v s.running (λ i. omega (arith, h.distinct i)) e in
              let (t, run, m, len, back) = preempt-Moves v s protected h found free in
              let (vs, u, run', m', p, _, end) =
                preempt_until-Moves fuel needed protected t m.inv (omega (arith, len)) in
              (
                v.request_id ∷ vs,
                u,
                rw (short, e, run, run', preempt_until) refl,
                Moves-trans protected s t u m m',
                Preempts-cons protected vs v.request_id s t u
                    (not_contains-count v.request_id protected free) len back p,
                (λ room. absurd (true_is_not_false room short)),
                end,
              ))
      ]
    ]
  where
    true_is_not_false : {b : Bool} → b ≡ true → b ≡ false → ⊥
    true_is_not_false e f = cc

-- On a scheduler with the invariant `_make_room` succeeds and keeps it; it moves no request that is
-- protected and loses no free block. The victims that it reports have left the running requests and
-- wait before the others; no protected request is among them. There are none with enough free
-- blocks at the start or without preemption, nor as long as the prefix cache has a block to evict.
-- Where preemption is enabled it ends with as many free blocks as were asked for, beside the
-- reserve, or with only protected requests running.
pub make_room-Moves :
    (needed : ℕ) (protected : List ℕ) (s : Scheduler)
    → Inv s
    → (victims : List ℕ) × (t : Scheduler) × (make_room needed protected s ≡ (ok victims, t))
      × Moves protected s t
      × Preempts protected victims s t
      × (needed + reserved_blocks s ≤ num_free s.allocator → victims ≡ [])
      × (s.config.enable_preemption ≡ false → victims ≡ [])
      × ((freed : ℕ) × (u : Scheduler) × (reclaim needed s ≡ (ok freed, u))
          × ((victims ≡ []) ⊎ CacheExhausted u.radix u.allocator))
      × (s.config.enable_preemption ≡ true
          → (needed + reserved_blocks t ≤ num_free t.allocator) ⊎ OnlyProtected protected t)
unfolding make_room reclaim
make_room-Moves needed protected s h =
    let (freed, t, run, m, gain, same, wait, spent) =
      evict_from-Moves s.radix (needed + reserved_blocks s - num_free s.allocator) s protected refl
        h in
    let config : t.config.enable_preemption ≡ s.config.enable_preemption =
      ap (λ (c : Config). c.enable_preemption) m.same_config in
    let reserve : reserved_blocks t ≡ reserved_blocks s =
      ap₂ (λ (c : Config) (n : ℕ). c.watermark n) m.same_config m.same_size in
    elim (Bool-cases t.config.enable_preemption) [
      | inl on ↦
          (let (vs, u, run', m', p, room, end) =
              preempt_until-Moves (length t.running) needed protected t m.inv (omega arith) in
            (
              vs,
              u,
              rw (run, on, run') refl,
              Moves-trans protected s t u m m',
              record {
                fewer = omega (arith, ap length same, p.fewer);
                unprotected = p.unprotected;
                requeued = p.requeued ∙ ap (λ q. reverse vs ++ ids q) wait;
              },
              (λ enough. room (ground (arith, gain, reserve))),
              (λ off. absurd_bool (sym (config ∙ off) ∙ on)),
              (
                freed,
                t,
                run,
                elim (Bool-cases (ltb freed (needed + reserved_blocks s - num_free s.allocator))) [
                  | inl few ↦ inr (spent (ground arith))
                  | inr enough ↦ inl (room (ground (arith, gain, reserve)))
                ],
              ),
              λ _. elim end [ inl fit ↦ inl (ground arith) | inr only ↦ inr only ],
            ))
      | inr off ↦ (
        [],
        t,
        rw (run, off) refl,
        m,
        record { fewer = omega (arith, ap length same); unprotected = tt; requeued = ap ids wait },
        (λ _. refl),
        (λ _. refl),
        (freed, t, run, inl refl),
        λ on. absurd_bool (sym off ∙ (config ∙ on)),
      )
    ]
  where
    absurd_bool : {A : Type 0} → false ≡ true → A
    absurd_bool e = cc
