-- ===== src/Scheduler/Retiring.antt =====
-- `commit_prefix` and `retire` against the invariant.
use infer_lab.Base.{
  ℕ, ◌+◌, ◌/◌, ◌≤◌, ◌≡◌, refl, ap, subst, ◌∙◌, List, [], ◌∷◌, ◌++◌, count, count-append, Bool,
  Bool-cases, inl, inr, Option, none, some, arith, ok, if◌then◌else◌,
}
use infer_lab.Allocator.{Allocator, num_free}
use infer_lab.Allocator.Accounts.{Accounts, Accounts-cast}
use infer_lab.Paged.{SequenceKv, full_blocks}
use infer_lab.Paged.Table.{AllHeld}
use infer_lab.Radix.{RadixCache, Shared}
use infer_lab.Radix.Blocks.{blocks}
use infer_lab.Radix.Evicting.{Sound}
use infer_lab.Radix.Publishing.{insert-Publishes}
use infer_lab.Radix.Shape.{AllHeld-take}
use infer_lab.Request.{Request, release_kv, all_token_ids}
use infer_lab.Scheduler.State.{
  Scheduler, Stats, find_request, remove_request, ids, commit_prefix, publish, retire,
  release_request, put_back,
}
use infer_lab.Scheduler.Queues.{table_of, tables, find-Removed, remove-All}
use infer_lab.Scheduler.Invariant.{cached, CacheSound, held, Inv, Seated}
use infer_lab.Scheduler.Preempting.{release_kv-Regains}

AllHeld-within : (held bs : List ℕ) → ((b : ℕ) → count b bs ≤ count b held) → AllHeld held bs
AllHeld-within held [] h = tt
AllHeld-within held (b ∷ bs) h =
    (ground (arith, h b), AllHeld-within held bs (λ x. ground (arith, h x)))

-- `t` is `s` after a call that changes only the cache and the allocator, and loses no free block.
pub record Keeps (s t : Scheduler) : Type 0 where
  pub inv : Inv t
  pub same_running : t.running ≡ s.running
  pub same_waiting : t.waiting ≡ s.waiting
  pub same_stats : t.stats ≡ s.stats
  pub grown : num_free s.allocator ≤ num_free t.allocator

Keeps-refl : (s : Scheduler) → Inv s → Keeps s s
Keeps-refl s v = record {
  inv = v;
  same_running = refl;
  same_waiting = refl;
  same_stats = refl;
  grown = omega arith;
}

publish-insert :
    (q : Request) (kv : SequenceKv) (c : RadixCache) (s : Scheduler)
    → Inv s
    → s.radix ≡ some c
    → ((b : ℕ) → count b kv.block_table ≤ count b (held s))
    → (t : Scheduler) × (publish q (some kv) (some c) s ≡ (ok tt, t)) × Keeps s t
unfolding full_blocks
publish-insert q kv c s v e within =
    let books : Accounts s.allocator (blocks c.root ++ held s) =
      Accounts-cast (λ b. ap (λ o. count b (cached o ++ held s)) e) v.books in
    let cache : CacheSound (some c) = subst CacheSound e v.cache in
    let shared : Shared = record { radix = c; allocator = s.allocator } in
    let sound : Sound shared (held s) = record {
      accounts = books;
      counted = cache.0;
      has_blocks = cache.1;
    } in
    let (n, c', run, p) =
      insert-Publishes (all_token_ids q) (full_blocks s.config.block_size kv) shared (held s) sound
        (AllHeld-take (kv.length / s.config.block_size) (held s) kv.block_table
          (AllHeld-within (held s) kv.block_table within)) in
    (
      put_back s c',
      rw run refl,
      record {
        inv = record {
          books = p.sound.accounts;
          cache = (p.sound.counted, p.sound.has_blocks);
          seated = v.seated;
          distinct = v.distinct;
          few = v.few;
        };
        same_running = refl;
        same_waiting = refl;
        same_stats = refl;
        grown = p.grown;
      },
    )

publish-Keeps :
    (q : Request) (o : Option SequenceKv) (c : Option RadixCache) (s : Scheduler)
    → Inv s
    → s.radix ≡ c
    → ((b : ℕ) → count b (table_of o) ≤ count b (held s))
    → (t : Scheduler) × (publish q o c s ≡ (ok tt, t)) × Keeps s t
publish-Keeps q none c s v e within = (s, refl, Keeps-refl s v)
publish-Keeps q (some kv) none s v e within = (s, refl, Keeps-refl s v)
publish-Keeps q (some kv) (some c) s v e within = publish-insert q kv c s v e within

-- `commit_prefix` of a running request raises nothing, keeps the invariant and both queues, and
-- loses no free block.
pub commit_prefix-Keeps :
    (q : Request) (s : Scheduler)
    → Inv s
    → find_request q.request_id s.running ≡ some q
    → (t : Scheduler) × (commit_prefix q s ≡ (ok tt, t)) × Keeps s t
unfolding commit_prefix
commit_prefix-Keeps q s v e =
    let choice = λ (b : Bool). if b then publish q q.kv s.radix s else (ok tt, s) in
    let out = find-Removed q.request_id q s.running e in
    elim (Bool-cases s.config.enable_prefix_caching) [
      | inl on ↦
          (let (t, run, k) = publish-Keeps q q.kv s.radix s v refl (λ b.
              omega
                (arith, out.tables_eq b, count-append b (tables s.running) (tables s.waiting))) in
            (t, ap choice on ∙ run, k))
      | inr off ↦ (s, ap choice off, Keeps-refl s v)
    ]

-- A retired request is gone.
pub record Retired (q : Request) (s t : Scheduler) : Type 0 where
  pub inv : Inv t
  pub gone : count q.request_id (ids t.running) + count q.request_id (ids t.waiting) ≡ 0
  pub left : t.running ≡ remove_request q.request_id s.running
  pub grown : num_free s.allocator ≤ num_free t.allocator
  pub finished : t.stats.finished ≡ s.stats.finished + 1

-- The second half of `retire`: the request gives up its blocks and leaves `running`.
drop_request :
    (q : Request) (s : Scheduler)
    → Inv s
    → find_request q.request_id s.running ≡ some q
    → (t : Allocator) × (release_kv q.kv s.allocator ≡ (ok tt, t))
      × (num_free s.allocator ≤ num_free t)
      × Accounts t
          (cached s.radix ++ (tables (remove_request q.request_id s.running) ++ tables s.waiting))
drop_request q s v e =
    let out = find-Removed q.request_id q s.running e in
    let left = remove_request q.request_id s.running in
    let rest = cached s.radix ++ (tables left ++ tables s.waiting) in
    let a : Accounts s.allocator (table_of q.kv ++ rest) =
      Accounts-cast
        (λ b. omega (
          arith,
          out.tables_eq b,
          count-append b (table_of q.kv) rest,
          count-append b (cached s.radix) (tables left ++ tables s.waiting),
          count-append b (tables left) (tables s.waiting),
          count-append b (cached s.radix) (tables s.running ++ tables s.waiting),
          count-append b (tables s.running) (tables s.waiting),
        ))
        v.books in
    let (t, run, r) = release_kv-Regains q.kv s.allocator rest a in (t, run, r.grown, r.accounts)

-- On a scheduler with the invariant, `retire` of a running request raises nothing and keeps it; the
-- request is in no queue afterwards, the others run on, and no free block is lost.
pub retire-Retired :
    (q : Request) (s : Scheduler)
    → Inv s
    → find_request q.request_id s.running ≡ some q
    → (t : Scheduler) × (retire q s ≡ (ok tt, t)) × Retired q s t
unfolding retire release_request
retire-Retired q s v e =
    let id = q.request_id in
    let (t, run, k) = commit_prefix-Keeps q s v e in
    let here = ap (find_request id) k.same_running ∙ e in
    let (a, freed, grown, books) = drop_request q t k.inv here in
    let out = find-Removed id q t.running here in
    (
      record t {
        allocator = a;
        running = remove_request id t.running;
        stats = record t.stats { finished = t.stats.finished + 1 };
      },
      rw (run, freed) refl,
      record {
        inv = record {
          books = books;
          cache = k.inv.cache;
          seated = remove-All Seated id t.running k.inv.seated;
          distinct = λ i. ground (arith, out.ids_eq i, k.inv.distinct i);
          few = omega (arith, out.length_eq, k.inv.few);
        };
        gone = ground (arith, out.ids_eq id, k.inv.distinct id);
        left = ap (remove_request id) k.same_running;
        grown = omega (arith, k.grown, grown);
        finished = ap (λ (st : Stats). st.finished + 1) k.same_stats;
      },
    )
