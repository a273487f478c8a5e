-- ===== src/Request/Tokens.antt =====
-- The token counts of a request across a preemption.
use infer_lab.Base.{
  ℕ, ◌+◌, ◌-◌, ◌<◌, ◌≡◌, refl, ap, append_assoc, ◌⊎◌, List, [], ◌∷◌, ◌++◌, length, length-append,
  length-take, take, false, arith, ok,
}
use infer_lab.Request.{
  Request, prompt_len, num_generated, all_token_ids, prefill_target_len, prefill_token_ids,
  prefill_done, remaining_prefill, append_token, restarted, last_of, last_or, last_token,
}

-- The tokens to prefill are as many as `prefill_target_len` says.
pub length-prefill_token_ids : (r : Request) → length (prefill_token_ids r) ≡ prefill_target_len r
unfolding prefill_token_ids prefill_target_len
length-prefill_token_ids r = omega (
  arith,
  length-take (prompt_len r + (num_generated r - 1)) (all_token_ids r),
  length-append r.prompt_token_ids r.output_token_ids,
)

pub remaining_prefill-pos : (r : Request) → prefill_done r ≡ false → 0 < remaining_prefill r
unfolding prefill_done remaining_prefill
remaining_prefill-pos r h = ground arith

last_of-append : (xs : List ℕ) (x : ℕ) → last_of (xs ++ x ∷ []) ≡ ok x
unfolding last_of
last_of-append [] x = refl
last_of-append (y ∷ []) x = refl
last_of-append (y ∷ z ∷ xs) x = last_of-append (z ∷ xs) x

take_all : (xs ys : List ℕ) → take (length xs) (xs ++ ys) ≡ xs
take_all [] ys = refl
take_all (x ∷ xs) ys = ap (λ t. x ∷ t) (take_all xs ys)

last_or-append : (xs prompt : List ℕ) (x : ℕ) → last_or (xs ++ x ∷ []) prompt ≡ ok x
last_or-append [] prompt x = last_of-append [] x
last_or-append (y ∷ xs) prompt x = last_of-append (y ∷ xs) x

-- A request that is preempted after it emitted a token keeps its output, replays the prompt and all
-- output but that token, and feeds that token next.
pub restarted-append_token :
    (r : Request) (x : ℕ)
    → let again = restarted (append_token x r) in
      (again.output_token_ids ≡ r.output_token_ids ++ x ∷ [])
      × (prefill_token_ids again ≡ all_token_ids r)
      × (last_token again ≡ ok x)
      × (prefill_done again ≡ false ⊎ (prefill_target_len again ≡ 0))
unfolding append_token prefill_token_ids prefill_target_len last_token prefill_done
restarted-append_token r x =
    let many = length-append r.output_token_ids (x ∷ []) in
    let target : prompt_len r + (length (r.output_token_ids ++ x ∷ []) - 1)
        ≡ length (all_token_ids r) =
      omega (arith, many, length-append r.prompt_token_ids r.output_token_ids) in
    (
      refl,
      rw (target, ← append_assoc) (take_all (all_token_ids r) (x ∷ [])),
      last_or-append r.output_token_ids r.prompt_token_ids x,
      ground arith,
    )
