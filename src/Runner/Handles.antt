-- ===== src/Runner/Handles.antt =====
-- The handles, the dictionary and the queue: what an operation does to the places of a handle.
use infer_lab.Base.{
  ℕ, ◌+◌, ◌≤◌, ◌<◌, ◌≡◌, inl, inr, refl, ap, ◌∙◌, List, [], ◌∷◌, ◌++◌, length, length-set, get_or,
  get_or-set, count, All, Bool, Bool-cases, true, false, ltb, ◌==◌, ◌&&◌, if◌then◌else◌, some,
  some_injective, arith,
}
use infer_lab.Runner.{
  Message, Pending, Runner, new_pending, fail_with, modify, fail_each, find_key, remove_key,
}

abbrev pub bit : Bool → ℕ
bit true = 1
bit false = 0

-- 1 if the request with the handle `h` is answered.
abbrev pub done_at : {O : Type 0} → ℕ → List (Pending O) → ℕ
done_at h handles = bit (get_or handles h new_pending).done

-- How often `h` stands in the queue or in the dictionary.
abbrev pub seconds : {A : Type 0} → List (A × ℕ) → List ℕ
seconds [] = []
seconds ((a, h) ∷ rest) = h ∷ seconds rest

pub seconds-append :
    {A : Type 0} (xs : List (A × ℕ)) (a : A) (h : ℕ) (b : ℕ)
    → count b (seconds (xs ++ (a, h) ∷ [])) ≡ count b (seconds xs) + (if h == b then 1 else 0)
seconds-append [] a h b = omega arith
seconds-append (x ∷ xs) a h b = omega (arith, seconds-append xs a h b)

-- An operation that answers the object, or one that does not touch its answer.
pub done_at-modify :
    {O : Type 0} (h b : ℕ) (f : Pending O → Pending O) (handles : List (Pending O)) (d : Bool)
    → (f (get_or handles h new_pending)).done ≡ d
    → done_at b (modify h f handles)
      ≡ (if (h == b) && ltb h (length handles) then bit d else done_at b handles)
done_at-modify {O = O} h b f handles d e =
    ap (λ (p : Pending O). bit p.done)
      (get_or-set handles h b (f (get_or handles h new_pending)) new_pending)
    ∙ pick ((h == b) && ltb h (length handles)) (f (get_or handles h new_pending))
        (get_or handles b new_pending) e
  where
    pick :
        (c : Bool) (p q : Pending O)
        → p.done ≡ d
        → bit (if c then p else q).done ≡ (if c then bit d else bit q.done)
    pick true p q e = ap bit e
    pick false p q e = refl

pub length-modify :
    {O : Type 0} (h : ℕ) (f : Pending O → Pending O) (handles : List (Pending O))
    → length (modify h f handles) ≡ length handles
length-modify h f handles = length-set handles h (f (get_or handles h new_pending))

pub length-fail_each :
    {O : Type 0} (message : Message) (entries : List (ℕ × ℕ)) (handles : List (Pending O))
    → length (fail_each message entries handles) ≡ length handles
unfolding fail_each
length-fail_each message [] handles = refl
length-fail_each message ((id, h) ∷ rest) handles =
    length-fail_each message rest (modify h (fail_with message) handles)
    ∙ length-modify h (fail_with message) handles

-- All objects of the dictionary are answered.
pub done_at-fail_each :
    {O : Type 0} (message : Message) (entries : List (ℕ × ℕ)) (handles : List (Pending O)) (b : ℕ)
    → done_at b (fail_each message entries handles) ≡ (
        if ltb 0 (count b (seconds entries)) && ltb b (length handles)
        then 1
        else done_at b handles)
unfolding fail_each
done_at-fail_each message [] handles b = refl
done_at-fail_each message ((id, h) ∷ rest) handles b =
    let handles' = modify h (fail_with message) handles in
    let one = done_at-modify h b (fail_with message) handles true refl in
    let size = length-modify h (fail_with message) handles in
    let more = done_at-fail_each message rest handles' b in
    join (count b (seconds rest)) (done_at b (fail_each message rest handles')) (done_at b handles')
      (done_at b handles) (length handles') (length handles) size one more
  where
    join :
        (c x y z n m : ℕ)
        → n ≡ m
        → y ≡ (if (h == b) && ltb h m then 1 else z)
        → x ≡ (if ltb 0 c && ltb b n then 1 else y)
        → x ≡ (if ltb 0 ((if h == b then 1 else 0) + c) && ltb b m then 1 else z)
    join c x y z n m e e1 e2 = ground arith

pub find_key-Removed :
    (id h : ℕ) (entries : List (ℕ × ℕ)) (b : ℕ)
    → find_key id entries ≡ some h
    → count b (seconds entries)
      ≡ (if h == b then 1 else 0) + count b (seconds (remove_key id entries))
unfolding find_key remove_key
find_key-Removed id h [] b e = cc
find_key-Removed id h ((i, g) ∷ rest) b e = elim (Bool-cases (i == id)) [
  | inl hit ↦
      (let same : g ≡ h = some_injective (rw hit at e) in
        rw hit (ap (λ x. (if x == b then 1 else 0) + count b (seconds rest)) same))
  | inr miss ↦ rw miss (omega (arith, find_key-Removed id h rest b (rw miss at e)))
]

pub remove_key-All :
    (id n : ℕ) (entries : List (ℕ × ℕ))
    → All (λ entry. entry.0 < n) entries
    → All (λ entry. entry.0 < n) (remove_key id entries)
unfolding remove_key
remove_key-All id n [] h = tt
remove_key-All id n ((i, g) ∷ rest) (h, hs) = elim (Bool-cases (i == id)) [
  | inl hit ↦ rw hit hs
  | inr miss ↦ rw miss (h, remove_key-All id n rest hs)
]

pub remove_key-absent :
    (id n : ℕ) (entries : List (ℕ × ℕ))
    → n ≤ id
    → All (λ entry. entry.0 < n) entries
    → remove_key id entries ≡ entries
unfolding remove_key
remove_key-absent id n [] le h = refl
remove_key-absent id n ((i, g) ∷ rest) le (h, hs) =
    let miss : (i == id) ≡ false = ground arith in
    rw miss (ap (λ es. (i, g) ∷ es) (remove_key-absent id n rest le hs))

pub All-below :
    (n m : ℕ) (entries : List (ℕ × ℕ))
    → n ≤ m
    → All (λ entry. entry.0 < n) entries
    → All (λ entry. entry.0 < m) entries
All-below n m [] le h = tt
All-below n m ((i, g) ∷ rest) le (h, hs) = (omega arith, All-below n m rest le hs)

pub record Invariant {R O E : Type 0} (next_id : E → ℕ) (r : Runner R O E) : Type 0 where
  -- each handle stands once: queued, with the engine, or answered
  pub once :
      (h : ℕ)
      → count h (seconds r.submissions) + count h (seconds r.pending) + done_at h r.handles
        ≡ (if ltb h (length r.handles) then 1 else 0)
  -- the engine gave every identifier that the dictionary has
  pub issued : All (λ entry. entry.0 < next_id r.engine) r.pending

-- A handle leaves one of the two places and is answered.
pub answered :
    (h b n n' x x' y d d' : ℕ)
    → n' ≡ n
    → x ≡ (if h == b then 1 else 0) + x'
    → d' ≡ (if (h == b) && ltb h n then 1 else d)
    → x + y + d ≡ (if ltb b n then 1 else 0)
    → x' + y + d' ≡ (if ltb b n' then 1 else 0)
answered h b n n' x x' y d d' e1 e2 e3 e4 = ground arith

pub all_answered :
    (b n n' q p d d' : ℕ)
    → n' ≡ n
    → d' ≡ (if ltb 0 p && ltb b n then 1 else d)
    → q + p + d ≡ (if ltb b n then 1 else 0)
    → q + 0 + d' ≡ (if ltb b n' then 1 else 0)
all_answered b n n' q p d d' e1 e2 e3 = ground arith

-- An operation that leaves the answer.
pub done_at-modify_same :
    {O : Type 0} (h b : ℕ) (f : Pending O → Pending O) (handles : List (Pending O))
    → ((p : Pending O) → (f p).done ≡ p.done)
    → done_at b (modify h f handles) ≡ done_at b handles
done_at-modify_same {O = O} h b f handles same =
    let here = done_at-modify h b f handles (get_or handles h new_pending).done (same _) in
    choose (done_at b (modify h f handles)) (done_at b handles) (done_at h handles)
      (λ e. ap (λ i. done_at i handles) e) here
  where
    choose :
        (x y z : ℕ)
        → (h ≡ b → z ≡ y)
        → x ≡ (if (h == b) && ltb h (length handles) then z else y)
        → x ≡ y
    choose x y z e1 e2 = ground arith
