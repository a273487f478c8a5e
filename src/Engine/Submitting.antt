-- ===== src/Engine/Submitting.antt =====
-- Which prompts `add_request` takes, and `abort_request` against the invariant of the scheduler.
use infer_lab.Base.{
  ℕ, ◌+◌, ◌≤◌, ◌<◌, ◌≡◌, ◌⊎◌, inl, inr, refl, List, [], ◌∷◌, ◌++◌, length, true, false, Bool-cases,
  leb, ltb, ◌==◌, if◌then◌else◌, Option, none, some, arith, ok, err, value_error, count,
}
use infer_lab.Allocator.{num_free}
use infer_lab.Request.{Request, SamplingParams, new_request, is_finished, finish, by_abort}
use infer_lab.Scheduler.State.{Scheduler, find_request, remove_request, ids, abort}
use infer_lab.Scheduler.State
use infer_lab.Scheduler.Invariant.{Inv}
use infer_lab.Scheduler.Leaving.{abort-Aborted}
use infer_lab.Scheduler.Decoding.{find_same_id}
use infer_lab.Engine.{
  Item, token, negative, no_integer, Settings, Engine, all_integers, any_negative, token_ids,
  largest, check_prompt, chosen_sampling, validate, given_id, submitted, add_request, get_request,
  or_else, abort_request, file_away,
}

-- Every item is a token of the vocabulary.
abbrev pub Known : ℕ → List Item → Type 0
Known vocab [] = Unit {0}
Known vocab (token n ∷ items) = (n < vocab) × Known vocab items
Known vocab (_ ∷ items) = ⊥

-- A prompt that the engine can serve with `max_tokens` more.
abbrev pub Servable : Settings → List Item → ℕ → Type 0
Servable s items max_tokens =
    (0 < length items) × Known s.vocab_size items × (length items + max_tokens ≤ s.max_model_len)

-- The three tests of the items, and what they decide.
Known-checks :
    (vocab : ℕ) (items : List Item)
    → 0 < vocab
    → Known vocab items
    → (all_integers items ≡ true)
      × (any_negative items ≡ false)
      × (largest (token_ids items) < vocab)
      × (length (token_ids items) ≡ length items)
Known-checks vocab [] h k = (refl, refl, h, refl)
Known-checks vocab (token n ∷ items) h (lt, k) =
    let (a, b, c, d) = Known-checks vocab items h k in
    (a, b, ground (arith, c, lt), omega (arith, d))
Known-checks vocab (negative n ∷ items) h k = absurd k
Known-checks vocab (no_integer ∷ items) h k = absurd k

checks-Known :
    (vocab : ℕ) (items : List Item)
    → all_integers items ≡ true
    → any_negative items ≡ false
    → leb vocab (largest (token_ids items)) ≡ false
    → Known vocab items
checks-Known vocab [] a b c = tt
checks-Known vocab (token n ∷ items) a b c =
    (ground arith, checks-Known vocab items a b (ground arith))
checks-Known vocab (negative n ∷ items) a b c = cc
checks-Known vocab (no_integer ∷ items) a b c = cc

Known-pos : (vocab : ℕ) (item : Item) (items : List Item) → Known vocab (item ∷ items) → 0 < vocab
Known-pos vocab (token n) items (lt, k) = omega (arith, lt)
Known-pos vocab (negative n) items k = absurd k
Known-pos vocab no_integer items k = absurd k

check_prompt-cases :
    (vocab : ℕ) (items : List Item)
    → ((0 < length items)
        × Known vocab items
        × (check_prompt vocab items ≡ ok (token_ids items))
        × (length (token_ids items) ≡ length items))
      ⊎ (((0 < length items) × Known vocab items → ⊥)
          × (check_prompt vocab items ≡ err value_error))
unfolding check_prompt
check_prompt-cases vocab [] = inr ((λ h. absurd (omega (arith, h.0))), refl)
check_prompt-cases vocab (item ∷ items) = elim (Bool-cases (all_integers (item ∷ items))) [
  | inr bad ↦ inr ((λ h. let (a, b, c, d) = known h.1 in cc), rw bad refl)
  | inl ints ↦ elim (Bool-cases (any_negative (item ∷ items))) [
    | inl bad ↦ inr ((λ h. let (a, b, c, d) = known h.1 in cc), rw (ints, bad) refl)
    | inr pos ↦ elim (Bool-cases (leb vocab (largest (token_ids (item ∷ items))))) [
      | inl bad ↦
          inr ((λ h. let (a, b, c, d) = known h.1 in ground arith), rw (ints, pos, bad) refl)
      | inr small ↦
          (let k = checks-Known vocab (item ∷ items) ints pos small in
            inl (omega arith, k, rw (ints, pos, small) refl, (known k).3))
    ]
  ]
]
  where
    known :
        Known vocab (item ∷ items)
        → (all_integers (item ∷ items) ≡ true)
          × (any_negative (item ∷ items) ≡ false)
          × (largest (token_ids (item ∷ items)) < vocab)
          × (length (token_ids (item ∷ items)) ≡ length (item ∷ items))
    known k = Known-checks vocab (item ∷ items) (Known-pos vocab item items k) k

find-absent : (id : ℕ) (rs : List Request) → count id (ids rs) ≡ 0 → find_request id rs ≡ none
unfolding find_request
find-absent id [] h = refl
find-absent id (r ∷ rs) h =
    let (miss, rest) = apart (r.request_id) (count id (ids rs)) h in
    rw miss (find-absent id rs rest)
  where
    apart : (i n : ℕ) → (if i == id then 1 else 0) + n ≡ 0 → ((i == id) ≡ false) × (n ≡ 0)
    apart i n e = ground arith

or_else-id :
    (id : ℕ) (o o' : Option Request) (r : Request)
    → ((q : Request) → o ≡ some q → q.request_id ≡ id)
    → ((q : Request) → o' ≡ some q → q.request_id ≡ id)
    → or_else o o' ≡ some r
    → r.request_id ≡ id
or_else-id id none o' r h k e = k r e
or_else-id id (some q) o' r h k e = h r e

module _ {ℓ} {V G : Type ℓ} where
  get_request-id :
      (id : ℕ) (e : Engine V G) (r : Request) → get_request id e ≡ some r → r.request_id ≡ id
  get_request-id id e r found =
      let below = or_else-id id (find_request id e.sched.running) (find_request id e.archive) in
      or_else-id id (find_request id e.sched.waiting) _ r (λ q. find_same_id id e.sched.waiting q)
        (λ q. below q (λ q. find_same_id id e.sched.running q) (λ q. find_same_id id e.archive q))
        found

  -- With the parameters that it is given, or those of the default where there are none,
  -- `add_request` takes a prompt exactly if it is not empty, all its items are tokens of the
  -- vocabulary and its length with `max_tokens` is at most `max_model_len`; the request then stands
  -- behind those that wait. Otherwise it raises ValueError and leaves the engine as it was.
  pub add_request-Servable :
      (items : List Item) (sampling : Option SamplingParams) (params : SamplingParams)
      (id : Option ℕ) (e : Engine V G)
      → chosen_sampling e.settings.default_max_tokens sampling ≡ ok params
      → let new = given_id e.next_id id in
        (Servable e.settings items params.max_tokens
          × (e' : Engine V G) × (add_request items sampling id e ≡ (ok new, e'))
          × (e'.sched.waiting ≡ e.sched.waiting ++ new_request (token_ids items) params new ∷ [])
          × (e'.sched.running ≡ e.sched.running))
        ⊎ ((Servable e.settings items params.max_tokens → ⊥)
            × (add_request items sampling id e ≡ (err value_error, e)))
  unfolding add_request validate State.add_request
  add_request-Servable items sampling params id e chosen =
      elim (check_prompt-cases e.settings.vocab_size items) [
        | inr (bad, run) ↦ inr ((λ h. bad (h.0, h.1)), rw run refl)
        | inl (some_items, known, run, size) ↦
            elim (Bool-cases
              (ltb e.settings.max_model_len (length (token_ids items) + params.max_tokens))) [
                | inl long ↦
                    inr ((λ h. let (a, b, c) = h in ground arith), rw (run, chosen, long) refl)
                | inr short ↦ inl (
                  (some_items, known, ground arith),
                  (submitted id e (ok (token_ids items, params))).1,
                  rw (run, chosen, short) refl,
                  refl,
                  refl,
                )
              ]
      ]

  -- On an engine whose scheduler has the invariant, `abort_request` of a request that is not
  -- finished returns true and keeps the invariant; the request then neither waits nor runs, no free
  -- block is lost, and a second call returns false and changes nothing.
  pub abort_request-Inv :
      (id : ℕ) (r : Request) (e : Engine V G)
      → Inv e.sched
      → get_request id e ≡ some r
      → is_finished r ≡ false
      → (e' : Engine V G) × (abort_request id e ≡ (ok true, e'))
        × Inv e'.sched
        × (count id (ids e'.sched.running) + count id (ids e'.sched.waiting) ≡ 0)
        × (num_free e.sched.allocator ≤ num_free e'.sched.allocator)
        × (abort_request id e' ≡ (ok false, e'))
  unfolding abort_request finish find_request
  abort_request-Inv id r e v found going =
      let (hit, s, run, a) = abort-Aborted id e.sched v in
      let e' = file_away (finish by_abort r) (record e { sched = s }) in
      (e', rw (found, going, run) refl, a.inv, a.gone, a.grown, again s a.gone)
    where
      again :
          (s : Scheduler)
          → count id (ids s.running) + count id (ids s.waiting) ≡ 0
          → let e' = file_away (finish by_abort r) (record e { sched = s }) in
            abort_request id e' ≡ (ok false, e')
      again s gone =
          let same = get_request-id id e r found in
          let w = find-absent id s.waiting (omega (arith, gone)) in
          let u = find-absent id s.running (omega (arith, gone)) in
          let hit : (r.request_id == id) ≡ true = ground arith in rw (w, u, hit) refl
