-- ===== src/Tests/Drafting.antt =====
-- Speculative decoding with toy models of 10 tokens, a window of 16 and a pool for 12 tokens: each
-- counts up by one and starts again after 9. The key-value state is the number of tokens that it
-- holds.
use infer_lab.Base.{
  ℕ, suc, ◌≡◌, ◌+◌, refl, [], ◌∷◌, List, length, Bool, true, false, ltb, if◌then◌else◌, none, arith,
  Outcome, Error, Result, ok, err, value_error, index_error, out_of_blocks,
}
use infer_lab.Speculative.{
  Model, Decoder, Stats, Accepted, check_proposals, verify_rows, generate, loop, round, propose,
  extend, last_of, all_but_last,
}
use infer_lab.Speculative.Verifying.{Checked, check_proposals-Checked, verify_rows_repeats}

abbrev successor : ℕ → ℕ
successor x = if ltb x 9 then suc x else 0

successors : List ℕ → List ℕ
successors [] = []
successors (x ∷ xs) = successor x ∷ successors xs

abbrev known : List ℕ → Bool
known [] = true
known (x ∷ xs) = if ltb x 10 then known xs else false

abbrev counted : List ℕ → ℕ → ℕ → Outcome ℕ (List ℕ)
counted [] pos kv = (err value_error, kv)
counted (x ∷ xs) pos kv =
    if ltb 16 (pos + length (x ∷ xs))
    then (err index_error, kv)
    else if known (x ∷ xs)
    then (if ltb 12 (pos + length (x ∷ xs))
        then (err out_of_blocks, kv)
        else (ok (successors (x ∷ xs)), pos + length (x ∷ xs)))
    else (err index_error, kv)

abbrev counting : Model ℕ
counting = record { forward = counted; kv_length = λ kv. kv; set_length = λ n kv. n }

-- The only exception within the window.
abbrev NoBlocks : Error → Type 0
NoBlocks e = e ≡ out_of_blocks

abbrev pair : Decoder ℕ
pair = record { target = counting; draft = counting; num_draft_tokens = 2 }

check_proposals-Checked_example :
    (a : Accepted) × (check_proposals (4 ∷ 5 ∷ []) (4 ∷ 7 ∷ []) ≡ ok a)
    × Checked (4 ∷ 5 ∷ []) (4 ∷ 7 ∷ []) a
check_proposals-Checked_example = check_proposals-Checked (4 ∷ 5 ∷ []) (4 ∷ 7 ∷ []) (omega arith)

verify_rows_repeats_example :
    verify_rows (4 ∷ 5 ∷ []) (4 ∷ 5 ∷ [])
    ≡ ok (record { tokens = 4 ∷ 5 ∷ 5 ∷ []; count = 2; full = true })
verify_rows_repeats_example = verify_rows_repeats (4 ∷ []) 5

abbrev output_of : Result (List ℕ × Stats) → List ℕ
output_of (ok (output, stats)) = output
output_of (err e) = []

-- Each round repeats its last proposal.
generated : output_of (generate pair (8 ∷ 9 ∷ []) 5 none 0 0) ≡ 0 ∷ 1 ∷ 2 ∷ 2 ∷ 3 ∷ []
unfolding generate loop round propose verify_rows check_proposals extend last_of all_but_last
    successors
generated = refl

-- An exception of a forward pass is that of `generate`: without a token, and where the pool is full.
no_prompt : generate pair [] 5 none 0 0 ≡ err value_error
unfolding generate
no_prompt = refl

pool_full : generate pair (8 ∷ 9 ∷ []) 12 none 0 0 ≡ err out_of_blocks
unfolding generate loop round propose verify_rows check_proposals extend last_of all_but_last
    successors
pool_full = refl
