-- ===== src/Scheduler/Queues.antt =====
-- Facts about the queues: finding, removing and the victim of a preemption.
use mathlib.Core.List.{reverse-cons}
use infer_lab.Base.{
  ℕ, suc, ◌+◌, ◌≤◌, ◌<◌, ◌≡◌, ◌≢◌, ◌⊎◌, inl, inr, refl, sym, ap, ◌∙◌, List, [], ◌∷◌, ◌++◌, length,
  reverse, count, count-append, All, true, false, Bool-cases, ◌==◌, if◌then◌else◌, Option, none,
  some, arith, ==_iff, some_injective,
}
use infer_lab.Paged.{SequenceKv}
use infer_lab.Request.{Request}
use infer_lab.Scheduler.State.{find_request, remove_request, contains, ids}
use infer_lab.Scheduler.Room.{find_victim}

abbrev pub table_of : Option SequenceKv → List ℕ
table_of none = []
table_of (some kv) = kv.block_table

-- The blocks that the requests of a queue hold.
unfoldable pub tables : List Request → List ℕ
tables [] = []
tables (r ∷ rs) = table_of r.kv ++ tables rs

pub count-tables :
    (b : ℕ) (r : Request) (rs : List Request)
    → count b (tables (r ∷ rs)) ≡ count b (table_of r.kv) + count b (tables rs)
unfolding tables
count-tables b r rs = count-append b (table_of r.kv) (tables rs)

pub count-tables_nil : (b : ℕ) → count b (tables []) ≡ 0
unfolding tables
count-tables_nil b = refl

pub count-tables_snoc :
    (b : ℕ) (rs : List Request) (r : Request)
    → count b (tables (rs ++ r ∷ [])) ≡ count b (tables rs) + count b (table_of r.kv)
count-tables_snoc b [] r = omega (arith, count-tables b r [], count-tables_nil b)
count-tables_snoc b (q ∷ rs) r =
    omega (arith, count-tables b q (rs ++ r ∷ []), count-tables b q rs, count-tables_snoc b rs r)

pub count-ids_snoc :
    (i : ℕ) (rs : List Request) (r : Request)
    → count i (ids (rs ++ r ∷ [])) ≡ count i (ids rs) + (if r.request_id == i then 1 else 0)
count-ids_snoc i [] r = omega arith
count-ids_snoc i (q ∷ rs) r = omega (arith, count-ids_snoc i rs r)

-- What taking a request that was found off its queue does.
pub record Removed (id : ℕ) (r : Request) (rs : List Request) : Type 0 where
  pub same_id : r.request_id ≡ id
  pub tables_eq :
      (b : ℕ)
      → count b (tables rs) ≡ count b (table_of r.kv) + count b (tables (remove_request id rs))
  pub ids_eq :
      (i : ℕ) → count i (ids rs) ≡ (if id == i then 1 else 0) + count i (ids (remove_request id rs))
  pub length_eq : length rs ≡ suc (length (remove_request id rs))

pub find-Removed :
    (id : ℕ) (r : Request) (rs : List Request) → find_request id rs ≡ some r → Removed id r rs
unfolding find_request remove_request
find-Removed id r [] e = cc
find-Removed id r (q ∷ rs) e = elim (Bool-cases (q.request_id == id)) [
  | inl hit ↦
      (let same : q ≡ r = some_injective (rw hit at e) in
        let q_id : q.request_id ≡ id = (==_iff _ _).0 hit in
        record {
          same_id = ap (λ (x : Request). x.request_id) (sym same) ∙ q_id;
          tables_eq = λ b. rw (hit, ← same) (count-tables b q rs);
          ids_eq = λ i. rw hit (ground arith);
          length_eq = rw hit refl;
        })
  | inr miss ↦
      (let rest = find-Removed id r rs (rw miss at e) in
        record {
          same_id = rest.same_id;
          tables_eq = λ b. rw miss (
              omega (
                arith,
                count-tables b q rs,
                count-tables b q (remove_request id rs),
                rest.tables_eq b,
              ));
          ids_eq = λ i. rw miss (omega (arith, rest.ids_eq i));
          length_eq = rw miss (ap suc rest.length_eq);
        })
]

pub find-remove_ne :
    (id j : ℕ) (rs : List Request)
    → id ≢ j
    → find_request j (remove_request id rs) ≡ find_request j rs
unfolding find_request remove_request
find-remove_ne id j [] h = refl
find-remove_ne id j (q ∷ rs) h = ground (arith, find-remove_ne id j rs h)

pub remove-All {κ} :
    (P : Request → Type κ) (id : ℕ) (rs : List Request) → All P rs → All P (remove_request id rs)
unfolding remove_request
remove-All P id [] h = tt
remove-All P id (q ∷ rs) h = elim (Bool-cases (q.request_id == id)) [
  | inl hit ↦ rw hit h.1
  | inr miss ↦ rw miss (h.0, remove-All P id rs h.1)
]

-- `v` stands in the list.
abbrev pub In : Request → List Request → Type 0
In v [] = ⊥
In v (x ∷ xs) = (v ≡ x) ⊎ In v xs

In-snoc : (v x : Request) (xs : List Request) → In v (xs ++ x ∷ []) → In v xs ⊎ (v ≡ x)
In-snoc v x [] (inl e) = inr e
In-snoc v x [] (inr h) = absurd h
In-snoc v x (y ∷ xs) (inl e) = inl (inl e)
In-snoc v x (y ∷ xs) (inr h) = elim (In-snoc v x xs h) [ inl i ↦ inl (inr i) | inr e ↦ inr e ]

In-reverse : (v : Request) (xs : List Request) → In v (reverse xs) → In v xs
In-reverse v [] h = h
In-reverse v (x ∷ xs) h = elim (In-snoc v x (reverse xs) (rw reverse-cons at h)) [
  | inl i ↦ inr (In-reverse v xs i)
  | inr e ↦ inl e
]

count_of_In : (v : Request) (xs : List Request) → In v xs → 0 < count v.request_id (ids xs)
count_of_In v [] h = absurd h
count_of_In v (x ∷ xs) (inl e) =
    let same : v.request_id ≡ x.request_id = ap (λ (r : Request). r.request_id) e in ground arith
count_of_In v (x ∷ xs) (inr h) = omega (arith, count_of_In v xs h)

find_of_In :
    (v : Request) (xs : List Request)
    → In v xs
    → count v.request_id (ids xs) ≤ 1
    → find_request v.request_id xs ≡ some v
unfolding find_request
find_of_In v [] i h = absurd i
find_of_In v (x ∷ xs) (inl e) h =
    let same : v.request_id ≡ x.request_id = ap (λ (r : Request). r.request_id) e in
    rw ((==_iff x.request_id v.request_id).1 (sym same)) (ap some (sym e))
find_of_In v (x ∷ xs) (inr i) h =
    let later = count_of_In v xs i in
    elim (Bool-cases (x.request_id == v.request_id)) [
      | inl hit ↦ absurd (ground arith)
      | inr miss ↦ rw miss (find_of_In v xs i (omega arith))
    ]

find_victim-In :
    (protected : List ℕ) (v : Request) (xs : List Request)
    → find_victim protected xs ≡ some v
    → In v xs × (contains v.request_id protected ≡ false)
unfolding find_victim
find_victim-In protected v [] e = cc
find_victim-In protected v (x ∷ xs) e = elim (Bool-cases (contains x.request_id protected)) [
  | inl kept ↦ (let (i, c) = find_victim-In protected v xs (rw kept at e) in (inr i, c))
  | inr free ↦
      (let same : x ≡ v = some_injective (rw free at e) in
        (inl (sym same), ap (λ (r : Request). contains r.request_id protected) (sym same) ∙ free))
]

-- The victim of a preemption runs and is not protected.
pub find_victim_lem :
    (protected : List ℕ) (v : Request) (xs : List Request)
    → ((i : ℕ) → count i (ids xs) ≤ 1)
    → find_victim protected (reverse xs) ≡ some v
    → (find_request v.request_id xs ≡ some v) × (contains v.request_id protected ≡ false)
find_victim_lem protected v xs h e =
    let (i, c) = find_victim-In protected v (reverse xs) e in
    (find_of_In v xs (In-reverse v xs i) (h v.request_id), c)

contains-count : (i : ℕ) (xs : List ℕ) → contains i xs ≡ true → 0 < count i xs
unfolding contains
contains-count i [] e = cc
contains-count i (x ∷ xs) e = elim (Bool-cases (x == i)) [
  | inl hit ↦ ground arith
  | inr miss ↦ (let rest = contains-count i xs (ground arith) in ground arith)
]

pub not_contains-count : (i : ℕ) (xs : List ℕ) → contains i xs ≡ false → count i xs ≡ 0
unfolding contains
not_contains-count i [] e = refl
not_contains-count i (x ∷ xs) e = elim (Bool-cases (x == i)) [
  | inl hit ↦ absurd (ground arith)
  | inr miss ↦ (let rest = not_contains-count i xs (ground arith) in ground arith)
]

-- The identifier of the request is among the protected ones.
abbrev pub Protected : List ℕ → Request → Type 0
Protected protected r = 0 < count r.request_id protected

All-snoc {κ} :
    (P : Request → Type κ) (x : Request) (xs : List Request) → All P (xs ++ x ∷ []) → P x × All P xs
All-snoc P x [] h = (h.0, tt)
All-snoc P x (y ∷ xs) h = let (last, rest) = All-snoc P x xs h.1 in (last, (h.0, rest))

All-reverse {κ} : (P : Request → Type κ) (xs : List Request) → All P (reverse xs) → All P xs
All-reverse P [] h = tt
All-reverse P (x ∷ xs) h =
    let (last, rest) = All-snoc P x (reverse xs) (rw reverse-cons at h) in
    (last, All-reverse P xs rest)

find_victim-All :
    (protected : List ℕ) (xs : List Request)
    → find_victim protected xs ≡ none
    → All (Protected protected) xs
unfolding find_victim
find_victim-All protected [] e = tt
find_victim-All protected (x ∷ xs) e = elim (Bool-cases (contains x.request_id protected)) [
  | inl kept ↦
      (contains-count x.request_id protected kept, find_victim-All protected xs (rw kept at e))
  | inr free ↦ (let clash = rw free at e in cc)
]

-- Where no victim is found, every running request is protected.
pub no_victim_lem :
    (protected : List ℕ) (xs : List Request)
    → find_victim protected (reverse xs) ≡ none
    → All (Protected protected) xs
no_victim_lem protected xs e =
    All-reverse (Protected protected) xs (find_victim-All protected (reverse xs) e)

pub find-append :
    (id : ℕ) (rs ys : List Request) (q : Request)
    → find_request id rs ≡ some q
    → find_request id (rs ++ ys) ≡ some q
unfolding find_request
find-append id [] ys q e = cc
find-append id (r ∷ rs) ys q e = elim (Bool-cases (r.request_id == id)) [
  | inl hit ↦ rw hit (rw hit at e)
  | inr miss ↦ rw miss (find-append id rs ys q (rw miss at e))
]

-- A request with a new identifier is found at the end of the queue.
pub find-snoc :
    (rs : List Request) (q : Request)
    → count q.request_id (ids rs) ≡ 0
    → find_request q.request_id (rs ++ q ∷ []) ≡ some q
unfolding find_request
find-snoc [] q h = ground arith
find-snoc (r ∷ rs) q h = ground (arith, find-snoc rs q)

pub count_of_find :
    (id : ℕ) (rs : List Request) (q : Request) → find_request id rs ≡ some q → 0 < count id (ids rs)
count_of_find id rs q e = let out = (find-Removed id q rs e).ids_eq id in ground arith
