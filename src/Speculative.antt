-- ===== src/Speculative.antt =====
-- src/infer_lab/engine/speculative.py at temperature 0, where sampling is the argmax of the logits.
-- The two transformers are floating-point code and stand as parameters: a forward pass gives, for
-- each token it is fed, the argmax of that row of logits, and the key-value state after it; or it
-- raises, on no tokens, past the window, outside the vocabulary and where the pool has no block
-- left. `generate` does not catch an exception, so that one ends it, whatever the states hold then.
pub mod Verifying
pub mod Accepting
pub mod Generating
use infer_lab.Base.{
  ℕ, zero, suc, ◌+◌, List, [], ◌∷◌, ◌++◌, length, take, min, Bool, true, false, leb, ◌==◌,
  if◌then◌else◌, Option, none, some, Result, ok, err, Outcome, Action, and_then, index_error,
}

pub record Model {ℓ} (K : Type ℓ) : Type ℓ where
  -- `forward_prefill(tokens, kv, start_pos)`
  pub forward : List ℕ → ℕ → Action K (List ℕ)
  -- `kv.length`, and its assignment
  pub kv_length : K → ℕ
  pub set_length : ℕ → K → K

pub record Stats : Type 0 where
  pub rounds : ℕ
  pub proposed : ℕ
  pub accepted : ℕ
  pub bonus_tokens : ℕ
  pub target_forwards : ℕ
  pub draft_forwards : ℕ

abbrev pub no_stats : Stats
no_stats = record {
  rounds = 0;
  proposed = 0;
  accepted = 0;
  bonus_tokens = 0;
  target_forwards = 0;
  draft_forwards = 0;
}

-- `xs[-1]` of a list that is not empty.
unfoldable pub last_of : List ℕ → ℕ
last_of [] = 0
last_of (x ∷ []) = x
last_of (x ∷ y ∷ xs) = last_of (y ∷ xs)

-- `xs[:-1]`
unfoldable pub all_but_last : List ℕ → List ℕ
all_but_last [] = []
all_but_last (x ∷ []) = []
all_but_last (x ∷ y ∷ xs) = x ∷ all_but_last (y ∷ xs)

-- `_propose`, the loop over `num_draft_tokens`.
unfoldable pub propose {ℓ} : {K : Type ℓ} → Model K → ℕ → ℕ → ℕ → Action K (List ℕ)
propose draft zero token pos kv = (ok [], kv)
propose draft (suc n) token pos kv = and_then (draft.forward (token ∷ []) pos kv) λ rows kv'.
    and_then (propose draft n (last_of rows) (pos + 1) kv')
      λ proposals kv''. (ok (last_of rows ∷ proposals), kv'')

-- What the loop of `_verify` has accepted: `full` says that it ran to its end.
pub record Accepted : Type 0 where
  pub tokens : List ℕ
  pub count : ℕ
  pub full : Bool

abbrev pub accept : ℕ → Result Accepted → Result Accepted
accept p (ok a) = ok (record { tokens = p ∷ a.tokens; count = suc a.count; full = a.full })
accept p (err e) = err e

unfoldable pub check_proposals : List ℕ → List ℕ → Result Accepted
check_proposals rows [] = ok (record { tokens = []; count = 0; full = true })
check_proposals [] (p ∷ proposals) = err index_error
check_proposals (row ∷ rows) (p ∷ proposals) =
    let rest = accept p (check_proposals rows proposals) in
    if row == p then rest else ok (record { tokens = row ∷ []; count = 0; full = false })

-- The bonus token, where every proposal was accepted.
abbrev pub with_bonus : List ℕ → Result Accepted → Result Accepted
with_bonus rows (err e) = err e
with_bonus rows (ok a) =
    ok (if a.full then record a { tokens = a.tokens ++ last_of rows ∷ [] } else a)

-- `_verify`, on the rows of the target's forward pass over the window.
unfoldable pub verify_rows : List ℕ → List ℕ → Result Accepted
verify_rows rows proposals = with_bonus rows (check_proposals rows proposals)

-- `for token in accepted`
unfoldable pub extend : ℕ → List ℕ → List ℕ × ℕ → List ℕ × ℕ
extend max_tokens [] o = o
extend max_tokens (t ∷ ts) o =
    if leb max_tokens (length o.0) then o else extend max_tokens ts (o.0 ++ t ∷ [], o.1 + 1)

-- The variables of `generate`.
pub record Loop {ℓ} (K : Type ℓ) : Type ℓ where
  pub target_kv : K
  pub draft_kv : K
  pub output : List ℕ
  pub position : ℕ
  pub stats : Stats

pub record Decoder {ℓ} (K : Type ℓ) : Type ℓ where
  pub target : Model K
  pub draft : Model K
  pub num_draft_tokens : ℕ

-- The end of a round: the accepted tokens, and the roll-back of both key-value states.
abbrev pub end_round {ℓ} :
    {K : Type ℓ} → Decoder K → ℕ → Loop K → K → K → List ℕ → Result Accepted → Result (Loop K)
end_round d max_tokens s target_kv draft_kv proposals (err e) = err e
end_round d max_tokens s target_kv draft_kv proposals (ok a) =
    let (output, position) = extend max_tokens a.tokens (s.output, s.position) in
    ok (record {
      target_kv = d.target.set_length position target_kv;
      draft_kv = d.draft.set_length (min (d.draft.kv_length draft_kv) position) draft_kv;
      output = output;
      position = position;
      stats = record {
        rounds = s.stats.rounds + 1;
        proposed = s.stats.proposed + length proposals;
        accepted = s.stats.accepted + a.count;
        bonus_tokens = (if a.full then s.stats.bonus_tokens + 1 else s.stats.bonus_tokens);
        target_forwards = s.stats.target_forwards + 1;
        draft_forwards = s.stats.draft_forwards + d.num_draft_tokens;
      };
    })

-- `_verify` and the end of the round, after the target's forward pass.
abbrev pub with_rows {ℓ} :
    {K : Type ℓ} → Decoder K → ℕ → Loop K → K → List ℕ → Outcome K (List ℕ) → Result (Loop K)
with_rows d max_tokens s draft_kv proposals (ok rows, target_kv) =
    end_round d max_tokens s target_kv draft_kv proposals (verify_rows rows proposals)
with_rows d max_tokens s draft_kv proposals (err e, target_kv) = err e

abbrev pub with_proposals {ℓ} :
    {K : Type ℓ} → Decoder K → ℕ → Loop K → Outcome K (List ℕ) → Result (Loop K)
with_proposals d max_tokens s (ok proposals, draft_kv) =
    with_rows d max_tokens s draft_kv proposals (
      d.target.forward (last_of s.output ∷ all_but_last proposals) s.position
        (d.target.set_length s.position s.target_kv))
with_proposals d max_tokens s (err e, draft_kv) = err e

unfoldable pub round {ℓ} : {K : Type ℓ} → Decoder K → ℕ → Loop K → Result (Loop K)
round d max_tokens s = with_proposals d max_tokens s (
    propose d.draft d.num_draft_tokens (last_of s.output) s.position
      (d.draft.set_length s.position s.draft_kv))

-- `eos_id`, none where `ignore_eos` is set.
abbrev pub at_eos : Option ℕ → List ℕ → Bool
at_eos none output = false
at_eos (some e) output = last_of output == e

abbrev pub go_on {ℓ} : {K : Type ℓ} → (Loop K → Result (Loop K)) → Result (Loop K) → Result (Loop K)
go_on next (ok s) = next s
go_on next (err e) = err e

-- The `while` loop. A round adds a token, so that `max_tokens` rounds are enough.
unfoldable pub loop {ℓ} : {K : Type ℓ} → ℕ → Decoder K → ℕ → Option ℕ → Loop K → Result (Loop K)
loop zero d max_tokens eos s = ok s
loop (suc fuel) d max_tokens eos s =
    if leb max_tokens (length s.output)
    then ok s
    else if at_eos eos s.output
    then ok s
    else go_on (loop fuel d max_tokens eos) (round d max_tokens s)

-- The variables before the loop, from the forward passes of both models on a prompt of `position`
-- tokens.
abbrev pub prefilled {ℓ} :
    {K : Type ℓ} → ℕ → Outcome K (List ℕ) → Outcome K (List ℕ) → Result (Loop K)
prefilled position (err e, target_kv) drafted = err e
prefilled position (ok rows, target_kv) (err e, draft_kv) = err e
prefilled position (ok rows, target_kv) (ok _, draft_kv) = ok (record {
  target_kv = target_kv;
  draft_kv = draft_kv;
  output = last_of rows ∷ [];
  position = position;
  stats = record no_stats { target_forwards = 1; draft_forwards = 1 };
})

abbrev pub start {ℓ} : {K : Type ℓ} → Decoder K → List ℕ → K → K → Result (Loop K)
start d prompt target_kv draft_kv =
    prefilled (length prompt) (d.target.forward prompt 0 target_kv)
      (d.draft.forward prompt 0 draft_kv)

abbrev pub finish_generate {ℓ} : {K : Type ℓ} → ℕ → Result (Loop K) → Result (List ℕ × Stats)
finish_generate max_tokens (ok s) = ok (take max_tokens s.output, s.stats)
finish_generate max_tokens (err e) = err e

-- `generate` on two empty key-value states; the release of both at the end changes no output.
unfoldable pub generate {ℓ} :
    {K : Type ℓ} → Decoder K → List ℕ → ℕ → Option ℕ → K → K → Result (List ℕ × Stats)
generate d prompt max_tokens eos target_kv draft_kv =
    finish_generate max_tokens
      (go_on (loop max_tokens d max_tokens eos) (start d prompt target_kv draft_kv))
