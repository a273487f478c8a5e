-- ===== src/Scheduler/Admitting.antt =====
-- `_admit` and the prefix lookup in it, against the invariant.
use infer_lab.Base.{
  ℕ, ◌+◌, ◌≡◌, inl, inr, refl, sym, ap, subst, ◌∙◌, List, ◌∷◌, ◌++◌, count, count-append, Bool,
  true, false, Bool-cases, Option, none, some, arith, ok, ◌==◌, if◌then◌else◌,
}
use infer_lab.Allocator.{Allocator, num_free}
use infer_lab.Allocator.Accounts.{Accounts, Accounts-cast}
use infer_lab.Paged.{SequenceKv, new_sequence, blocks_needed}
use infer_lab.Paged.Table.{adopt_prefix-Accounts}
use infer_lab.Radix.{RadixCache, match_prefix}
use infer_lab.Radix.Blocks.{blocks}
use infer_lab.Radix.Matching.{match_prefix-Accounts}
use infer_lab.Radix.Keeping.{match_prefix-AllHaveBlock}
use infer_lab.Request.{Request, State}
use infer_lab.Scheduler.State.{Scheduler}
use infer_lab.Scheduler.Room.{Balance, fits}
use infer_lab.Scheduler.Admission.{
  seat, seated, with_prefix, count_hit, try_match, try_cache, admit,
}
use infer_lab.Scheduler.Queues.{table_of, tables, count-tables}
use infer_lab.Scheduler.Invariant.{cached, CacheSound, Inv}

-- `q'` is the head `q` of `waiting` with the block table `kv`, in the scheduler `t`, which has not
-- yet the new object in its queue. Nothing else changed but the cache's access times.
pub record Seats (s : Scheduler) (q : Request) (rest : List Request) (q' : Request)
    (kv : SequenceKv) (t : Scheduler) : Type 0 where
  pub has_kv : q'.kv ≡ some kv
  pub same_id : q'.request_id ≡ q.request_id
  pub books : Accounts t.allocator (cached t.radix ++ (tables s.running ++ tables (q' ∷ rest)))
  pub cache : CacheSound t.radix
  pub same_config : t.config ≡ s.config
  pub same_size : t.allocator.num_blocks ≡ s.allocator.num_blocks
  pub same_free : num_free t.allocator ≡ num_free s.allocator
  pub same_running : t.running ≡ s.running

-- A request with an empty table in place of none holds what it held.
empty_table :
    (s : Allocator) (c : List ℕ) (running rest : List Request) (q : Request)
    → q.kv ≡ none
    → Accounts s (c ++ (tables running ++ tables (q ∷ rest)))
    → Accounts s (c ++ (tables running ++ tables ((seated q new_sequence).0 ∷ rest)))
empty_table s c running rest q e = Accounts-cast λ b. omega (
  arith,
  count-append b c (tables running ++ tables (q ∷ rest)),
  count-append b c (tables running ++ tables ((seated q new_sequence).0 ∷ rest)),
  count-append b (tables running) (tables (q ∷ rest)),
  count-append b (tables running) (tables ((seated q new_sequence).0 ∷ rest)),
  count-tables b q rest,
  count-tables b (seated q new_sequence).0 rest,
  ap (λ o. count b (table_of o)) e,
)

unchanged :
    (s : Scheduler) (q : Request) (rest : List Request)
    → q.kv ≡ none
    → Accounts s.allocator (cached s.radix ++ (tables s.running ++ tables (q ∷ rest)))
    → CacheSound s.radix
    → Seats s q rest (seated q new_sequence).0 new_sequence s
unchanged s q rest e a k = record {
  has_kv = refl;
  same_id = refl;
  books = empty_table s.allocator (cached s.radix) s.running rest q e a;
  cache = k;
  same_config = refl;
  same_size = refl;
  same_free = refl;
  same_running = refl;
}

try_match-Seats :
    (q : Request) (rest : List Request) (c : RadixCache) (s : Scheduler)
    → q.kv ≡ none
    → Accounts s.allocator (blocks c.root ++ (tables s.running ++ tables (q ∷ rest)))
    → CacheSound (some c)
    → (q' : Request) × (kv : SequenceKv) × (t : Scheduler) × (try_match q new_sequence c s
        ≡ (ok (q', kv), t))
      × Seats s q rest q' kv t
try_match-Seats q rest c s e a k =
    let found = (match_prefix q.prompt_token_ids c).0.0 in
    let matched = (match_prefix q.prompt_token_ids c).0.1 in
    let c' = (match_prefix q.prompt_token_ids c).1 in
    let others = tables s.running ++ tables (q ∷ rest) in
    let (a', h, n) = match_prefix-Accounts q.prompt_token_ids c s.allocator others a in
    let (len, has) = match_prefix-AllHaveBlock q.prompt_token_ids c k.1 in
    let sound : CacheSound (some c') = (n ∙ k.0 ∙ sym len, has) in
    elim (Bool-cases (matched == 0)) [
      | inl miss ↦ (
        (seated q new_sequence).0,
        new_sequence,
        record s { radix = some c' },
        rw (miss) refl,
        record {
          has_kv = refl;
          same_id = refl;
          books = empty_table s.allocator (blocks c'.root) s.running rest q e a';
          cache = sound;
          same_config = refl;
          same_size = refl;
          same_free = refl;
          same_running = refl;
        },
      )
      | inr hit ↦
          (let (kv', t, run, tab, _, acc, free, size, _) =
              adopt_prefix-Accounts new_sequence found matched s.allocator
                (blocks c'.root ++ others) a' h in
            (
              with_prefix q kv' matched,
              kv',
              count_hit matched (record s { radix = some c'; allocator = t }),
              rw (hit, run) refl,
              record {
                has_kv = refl;
                same_id = refl;
                books =
                    Accounts-cast
                      (λ b. omega (
                        arith,
                        count-append b kv'.block_table (blocks c'.root ++ others),
                        count-append b (blocks c'.root) others,
                        count-append b (tables s.running) (tables (q ∷ rest)),
                        count-append b (blocks c'.root)
                            (tables s.running ++ tables (with_prefix q kv' matched ∷ rest)),
                        count-append b (tables s.running)
                            (tables (with_prefix q kv' matched ∷ rest)),
                        count-tables b q rest,
                        count-tables b (with_prefix q kv' matched) rest,
                        ap (λ o. count b (table_of o)) e,
                      ))
                      acc;
                cache = sound;
                same_config = refl;
                same_size = size;
                same_free = free;
                same_running = refl;
              },
            ))
    ]

try_cache-Seats :
    (q : Request) (rest : List Request) (o : Option RadixCache) (s : Scheduler)
    → q.kv ≡ none
    → Accounts s.allocator (cached s.radix ++ (tables s.running ++ tables (q ∷ rest)))
    → CacheSound s.radix
    → s.radix ≡ o
    → (q' : Request) × (kv : SequenceKv) × (t : Scheduler) × (try_cache q new_sequence o s
        ≡ (ok (q', kv), t))
      × Seats s q rest q' kv t
try_cache-Seats q rest none s e a k is =
    ((seated q new_sequence).0, new_sequence, s, refl, unchanged s q rest e a k)
try_cache-Seats q rest (some c) s e a k is =
    let choice =
      λ (b : Bool). if b then try_match q new_sequence c s else (ok (seated q new_sequence), s) in
    elim (Bool-cases s.config.enable_prefix_caching) [
      | inl on ↦
          (let (q', kv, t, run, d) =
              try_match-Seats q rest c s e
                (Accounts-cast
                  (λ b. ap (λ o. count b (cached o ++ (tables s.running ++ tables (q ∷ rest)))) is)
                  a)
                (subst CacheSound is k) in
            (q', kv, t, ap choice on ∙ run, d))
      | inr off ↦
          ((seated q new_sequence).0, new_sequence, s, ap choice off, unchanged s q rest e a k)
    ]

seat-Seats :
    (q : Request) (rest : List Request) (o : Option SequenceKv) (s : Scheduler)
    → q.kv ≡ o
    → Accounts s.allocator (cached s.radix ++ (tables s.running ++ tables (q ∷ rest)))
    → CacheSound s.radix
    → (q' : Request) × (kv : SequenceKv) × (t : Scheduler) × (seat q o s ≡ (ok (q', kv), t))
      × Seats s q rest q' kv t
unfolding seat
seat-Seats q rest none s e a k = try_cache-Seats q rest s.radix s e a k refl
seat-Seats q rest (some kv) s e a k = (
  q,
  kv,
  s,
  refl,
  record {
    has_kv = e;
    same_id = refl;
    books = a;
    cache = k;
    same_config = refl;
    same_size = refl;
    same_free = refl;
    same_running = refl;
  },
)

Seats-prefill :
    (s t : Scheduler) (q q' : Request) (rest : List Request) (kv : SequenceKv)
    → Seats s q rest q' kv t
    → Seats s q rest (record q' { state = State.prefill }) kv t
Seats-prefill s t q q' rest kv h = record {
  has_kv = h.has_kv;
  same_id = h.same_id;
  books =
      Accounts-cast
        (λ b.
          let q'' = record q' { state = State.prefill } in
          omega (
            arith,
            count-append b (cached t.radix) (tables s.running ++ tables (q' ∷ rest)),
            count-append b (cached t.radix) (tables s.running ++ tables (q'' ∷ rest)),
            count-append b (tables s.running) (tables (q' ∷ rest)),
            count-append b (tables s.running) (tables (q'' ∷ rest)),
            count-tables b q' rest,
            count-tables b q'' rest,
          ))
        h.books;
  cache = h.cache;
  same_config = h.same_config;
  same_size = h.same_size;
  same_free = h.same_free;
  same_running = h.same_running;
}

-- On a scheduler with the invariant `_admit` succeeds at the head of the queue; the request then
-- has a block table, which may have adopted cached blocks, the books agree, and no block has left
-- the free list.
pub admit-Seats :
    (q : Request) (rest : List Request) (balance : Balance) (s : Scheduler)
    → Inv s
    → s.waiting ≡ q ∷ rest
    → (admitted : Bool) × (q' : Request) × (kv : SequenceKv) × (t : Scheduler) × (admit q balance s
        ≡ (ok (admitted, q'), t))
      × Seats s q rest q' kv t
unfolding admit
admit-Seats q rest balance s h e =
    let a : Accounts s.allocator (cached s.radix ++ (tables s.running ++ tables (q ∷ rest))) =
      Accounts-cast (λ b. ap (λ w. count b (cached s.radix ++ (tables s.running ++ tables w))) e)
        h.books in
    let (q', kv, t, run, d) = seat-Seats q rest q.kv s refl a h.cache in
    elim (Bool-cases
      (fits (blocks_needed t.config.block_size kv (q'.num_computed_tokens + 1)) balance)) [
        | inl room ↦ (
          true,
          record q' { state = State.prefill },
          kv,
          t,
          rw (run, room) refl,
          Seats-prefill s t q q' rest kv d,
        )
        | inr short ↦ (false, q', kv, t, rw (run, short) refl, d)
      ]
