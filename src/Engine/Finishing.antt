-- ===== src/Engine/Finishing.antt =====
-- `_emit`: when a request ends.
use infer_lab.Base.{
  ℕ, ◌≤◌, ◌<◌, ◌≡◌, ◌⊎◌, inl, inr, refl, [], ◌∷◌, ◌++◌, length, length-append, Bool-cases, true,
  false, leb, ◌==◌, ◌&&◌, not, some, arith,
}
use infer_lab.Request.{Request, by_eos, by_length, is_finished, num_generated, append_token, finish}
use infer_lab.Tokenizer.{eos_id}
use infer_lab.Engine.Emitting.{emitted}

-- A token is appended to a request that is not finished and has fewer than `max_tokens`. The
-- request then has at most `max_tokens`, and one of three holds: it ends by EOS, because the token
-- is the end token and it does not ignore that; it ends by LENGTH with exactly `max_tokens`,
-- because the first does not hold; or it goes on with fewer, because neither does.
pub emitted-Ends :
    (token : ℕ) (r : Request)
    → is_finished r ≡ false
    → num_generated r < r.sampling.max_tokens
    → let r' = emitted token r in
      let stops = not r.sampling.ignore_eos && (token == eos_id) in
      (r'.output_token_ids ≡ r.output_token_ids ++ token ∷ [])
      × (num_generated r' ≤ r.sampling.max_tokens)
      × (((stops ≡ true) × (is_finished r' ≡ true) × (r'.finish_reason ≡ some by_eos))
          ⊎ (((stops ≡ false)
                × (is_finished r' ≡ true)
                × (r'.finish_reason ≡ some by_length)
                × (num_generated r' ≡ r.sampling.max_tokens))
              ⊎ ((stops ≡ false)
                  × (is_finished r' ≡ false)
                  × (num_generated r' < r.sampling.max_tokens))))
unfolding emitted append_token finish
emitted-Ends token r going few =
    let longer = length-append r.output_token_ids (token ∷ []) in
    elim (Bool-cases (not r.sampling.ignore_eos && (token == eos_id))) [
      | inl stops ↦ rw stops (refl, omega (arith, longer, few), inl (refl, refl, refl))
      | inr on ↦
          elim (Bool-cases
            (leb r.sampling.max_tokens (length (r.output_token_ids ++ token ∷ [])))) [
              | inl full ↦
                  rw (on, full)
                    (
                      refl,
                      omega (arith, longer, few),
                      inr (inl (refl, refl, refl, ground (arith, longer))),
                    )
              | inr room ↦
                  rw (on, room)
                    (refl, omega (arith, longer, few), inr (inr (refl, going, ground arith)))
            ]
    ]
