-- ===== src/Scheduler/Leaving.antt =====
-- `add_request` and `abort` against the invariant.
use infer_lab.Base.{
  ℕ, ◌+◌, ◌≤◌, ◌≡◌, refl, ap, List, [], ◌∷◌, ◌++◌, length, count, count-append, length-append, Bool,
  true, false, Bool-cases, inl, inr, Option, none, some, arith, ok, ◌==◌,
}
use infer_lab.Allocator.{num_free}
use infer_lab.Allocator.Accounts.{Accounts, Accounts-cast}
use infer_lab.Request.{Request, State}
use infer_lab.Scheduler.State.{
  Scheduler, find_request, remove_request, ids, add_request, abort, abort_waiting, abort_running,
  release_request,
}
use infer_lab.Scheduler.Queues.{
  table_of, tables, count-tables_snoc, count-ids_snoc, find-Removed, remove-All,
}
use infer_lab.Scheduler.Invariant.{cached, Inv, Seated}
use infer_lab.Scheduler.Preempting.{release_kv-Regains}

-- `add_request` of a request with a new identifier and without a block table keeps the invariant,
-- and makes the queue longer by one.
pub add_request-Inv :
    (q : Request) (s : Scheduler)
    → Inv s
    → count q.request_id (ids s.running) + count q.request_id (ids s.waiting) ≡ 0
    → q.kv ≡ none
    → Inv (add_request q s) × (length (add_request q s).waiting ≡ length s.waiting + 1)
unfolding add_request
add_request-Inv q s v fresh bare =
    let w = record q { state = State.waiting } in
    (
      record {
        books =
            Accounts-cast
              (λ b. omega (
                arith,
                count-append b (cached s.radix) (tables s.running ++ tables s.waiting),
                count-append b (tables s.running) (tables s.waiting),
                count-append b (cached s.radix) (tables s.running ++ tables (s.waiting ++ w ∷ [])),
                count-append b (tables s.running) (tables (s.waiting ++ w ∷ [])),
                count-tables_snoc b s.waiting w,
                ap (λ o. count b (table_of o)) bare,
              ))
              v.books;
        cache = v.cache;
        seated = v.seated;
        distinct = λ i. ground (arith, v.distinct i, count-ids_snoc i s.waiting w);
        few = v.few;
      },
      length-append s.waiting (w ∷ []),
    )

find_none : (id : ℕ) (rs : List Request) → find_request id rs ≡ none → count id (ids rs) ≡ 0
unfolding find_request
find_none id [] e = refl
find_none id (r ∷ rs) e = elim (Bool-cases (r.request_id == id)) [
  | inl hit ↦ (let found : some r ≡ none = rw hit at e in cc)
  | inr miss ↦ (let rest = find_none id rs (rw miss at e) in ground arith)
]

-- What `abort` leaves: nobody has the identifier, and no free block is lost.
pub record Aborted (id : ℕ) (s : Scheduler) (found : Bool) (t : Scheduler) : Type 0 where
  pub inv : Inv t
  pub gone : count id (ids t.running) + count id (ids t.waiting) ≡ 0
  pub grown : num_free s.allocator ≤ num_free t.allocator
  pub unchanged : found ≡ false → t ≡ s

abort_running-Aborted :
    (id : ℕ) (o : Option Request) (s : Scheduler)
    → Inv s
    → find_request id s.running ≡ o
    → count id (ids s.waiting) ≡ 0
    → (found : Bool) × (t : Scheduler) × (abort_running id o s ≡ (ok found, t))
      × Aborted id s found t
unfolding release_request
abort_running-Aborted id none s v e w = (
  false,
  s,
  refl,
  record {
    inv = v;
    gone = omega (arith, find_none id s.running e, w);
    grown = omega arith;
    unchanged = λ _. refl;
  },
)
abort_running-Aborted id (some q) s v e w =
    let out = find-Removed id q s.running e in
    let left = remove_request id s.running in
    let rest = cached s.radix ++ (tables left ++ tables s.waiting) in
    let a : Accounts s.allocator (table_of q.kv ++ rest) =
      Accounts-cast
        (λ b. omega (
          arith,
          out.tables_eq b,
          count-append b (table_of q.kv) rest,
          count-append b (cached s.radix) (tables left ++ tables s.waiting),
          count-append b (tables left) (tables s.waiting),
          count-append b (cached s.radix) (tables s.running ++ tables s.waiting),
          count-append b (tables s.running) (tables s.waiting),
        ))
        v.books in
    let (t, run, r) = release_kv-Regains q.kv s.allocator rest a in
    (
      true,
      record s { allocator = t; running = left },
      rw run refl,
      record {
        inv = record {
          books = r.accounts;
          cache = v.cache;
          seated = remove-All Seated id s.running v.seated;
          distinct = λ i. ground (arith, out.ids_eq i, v.distinct i);
          few = omega (arith, out.length_eq, v.few);
        };
        gone = ground (arith, out.ids_eq id, v.distinct id, w);
        grown = r.grown;
        unchanged = λ f. cc;
      },
    )

abort_waiting-Aborted :
    (id : ℕ) (o : Option Request) (s : Scheduler)
    → Inv s
    → find_request id s.waiting ≡ o
    → (found : Bool) × (t : Scheduler) × (abort_waiting id o s ≡ (ok found, t))
      × Aborted id s found t
unfolding release_request
abort_waiting-Aborted id none s v e =
    abort_running-Aborted id (find_request id s.running) s v refl (find_none id s.waiting e)
abort_waiting-Aborted id (some q) s v e =
    let out = find-Removed id q s.waiting e in
    let left = remove_request id s.waiting in
    let rest = cached s.radix ++ (tables s.running ++ tables left) in
    let a : Accounts s.allocator (table_of q.kv ++ rest) =
      Accounts-cast
        (λ b. omega (
          arith,
          out.tables_eq b,
          count-append b (table_of q.kv) rest,
          count-append b (cached s.radix) (tables s.running ++ tables left),
          count-append b (tables s.running) (tables left),
          count-append b (cached s.radix) (tables s.running ++ tables s.waiting),
          count-append b (tables s.running) (tables s.waiting),
        ))
        v.books in
    let (t, run, r) = release_kv-Regains q.kv s.allocator rest a in
    (
      true,
      record s { allocator = t; waiting = left },
      rw run refl,
      record {
        inv = record {
          books = r.accounts;
          cache = v.cache;
          seated = v.seated;
          distinct = λ i. ground (arith, out.ids_eq i, v.distinct i);
          few = v.few;
        };
        gone = ground (arith, out.ids_eq id, v.distinct id);
        grown = r.grown;
        unchanged = λ f. cc;
      },
    )

-- On a scheduler with the invariant `abort` raises nothing and keeps it; afterwards no request with
-- the identifier waits or runs, no free block is lost, and where it returns false nothing has
-- changed.
pub abort-Aborted :
    (id : ℕ) (s : Scheduler)
    → Inv s
    → (found : Bool) × (t : Scheduler) × (abort id s ≡ (ok found, t)) × Aborted id s found t
unfolding abort
abort-Aborted id s v = abort_waiting-Aborted id (find_request id s.waiting) s v refl
