-- ===== src/Scheduler/Chunking.antt =====
-- `_make_chunk`: what a chunk is, and that it fits the budget and the memory.
use infer_lab.Base.{
  ℕ, ◌+◌, ◌-◌, ◌*◌, ◌≤◌, ◌<◌, ◌≡◌, ◌⊎◌, inl, inr, refl, ap, ◌∙◌, length, length-take, length-drop,
  take, drop, min, Bool-cases, none, some, arith, ok, leb, ◌==◌,
}
use infer_lab.Paged.{SequenceKv, blocks_needed, capacity}
use infer_lab.Paged.Capacity.{blocks_needed-le_iff}
use infer_lab.Request.{Request, prefill_target_len, prefill_token_ids, remaining_prefill}
use infer_lab.Request.Tokens.{length-prefill_token_ids}
use infer_lab.Scheduler.State.{Config, Chunk, num_tokens}
use infer_lab.Scheduler.Room.{Balance, fits, at_least_zero}
use infer_lab.Scheduler.Admission.{
  wanted, shrink, chunk_of, non_empty_chunk, chunk_from, make_chunk,
}

-- `c` is the next piece of the prefill of `r`, within the budget and the blocks at hand.
pub record IsChunk (g : Config) (r : Request) (kv : SequenceKv) (budget : ℕ) (b : Balance)
    (c : Chunk) : Type 0 where
  pub whose : c.request ≡ r.request_id
  pub starts : c.start_pos ≡ r.num_computed_tokens
  pub some_tokens : 0 < num_tokens c
  pub in_budget : num_tokens c ≤ budget
  pub in_memory : blocks_needed g.block_size kv (c.start_pos + num_tokens c) ≤ at_least_zero b
  pub tokens : c.token_ids ≡ take (num_tokens c) (drop r.num_computed_tokens (prefill_token_ids r))
  pub final : c.is_final_chunk ≡ leb (prefill_target_len r) (c.start_pos + num_tokens c)

wanted-le :
    (g : Config) (r : Request) (budget : ℕ)
    → (wanted g r budget ≤ budget) × (wanted g r budget ≤ remaining_prefill r)
unfolding wanted
wanted-le g r budget = ground arith

shrink-le :
    (g : Config) (r : Request) (kv : SequenceKv) (b : Balance) (n : ℕ) → shrink g r kv b n ≤ n
shrink-le g r kv b n = ground arith

within :
    (g : Config) (r : Request) (kv : SequenceKv) (b : Balance) (n : ℕ)
    → 0 < n
    → n ≤ capacity g.block_size kv + at_least_zero b * g.block_size - r.num_computed_tokens
    → r.num_computed_tokens + n ≤ (length kv.block_table + at_least_zero b) * g.block_size
unfolding capacity
within g r kv b n h le =
    let total : (length kv.block_table + at_least_zero b) * g.block_size
        ≡ length kv.block_table * g.block_size + at_least_zero b * g.block_size =
      omega arith in
    omega arith

shrink_fits :
    (g : Config) (r : Request) (kv : SequenceKv) (b : Balance) (n : ℕ)
    → 0 < g.block_size
    → 0 < shrink g r kv b n
    → blocks_needed g.block_size kv (r.num_computed_tokens + shrink g r kv b n) ≤ at_least_zero b
shrink_fits g r kv b n h p =
    elim (Bool-cases (fits (blocks_needed g.block_size kv (r.num_computed_tokens + n)) b)) [
      | inl room ↦ rw room (ground arith)
      | inr short ↦
          (let m =
              min n (
                capacity g.block_size kv
                + at_least_zero b * g.block_size
                - r.num_computed_tokens) in
            let pos : 0 < m = rw short at p in
            rw short (
              (blocks_needed-le_iff g.block_size kv (r.num_computed_tokens + m) (at_least_zero b)
                  h).1
                (within g r kv b m pos (omega arith))))
    ]

length-chunk_of : (r : Request) (n : ℕ) → n ≤ remaining_prefill r → num_tokens (chunk_of r n) ≡ n
unfolding remaining_prefill
length-chunk_of r n h = omega (
  arith,
  length-take n (drop r.num_computed_tokens (prefill_token_ids r)),
  length-drop r.num_computed_tokens (prefill_token_ids r),
  length-prefill_token_ids r,
)

chunk_of-IsChunk :
    (g : Config) (r : Request) (kv : SequenceKv) (budget : ℕ) (b : Balance)
    → 0 < g.block_size
    → 0 < shrink g r kv b (wanted g r budget)
    → IsChunk g r kv budget b (chunk_of r (shrink g r kv b (wanted g r budget)))
chunk_of-IsChunk g r kv budget b h p =
    let n = shrink g r kv b (wanted g r budget) in
    let small = shrink-le g r kv b (wanted g r budget) in
    let len : num_tokens (chunk_of r n) ≡ n =
      length-chunk_of r n (omega (arith, small, wanted-le g r budget)) in
    record {
      whose = refl;
      starts = refl;
      some_tokens = rw len p;
      in_budget = omega (arith, small, wanted-le g r budget, len);
      in_memory = rw len (shrink_fits g r kv b (wanted g r budget) h p);
      tokens = rw len refl;
      final = rw len refl;
    }

-- For a request with a block table, and a block size that is not 0, `_make_chunk` raises nothing,
-- and returns no chunk or one of at least one token, the next tokens of the prefill, that fits both
-- the budget and the free blocks.
pub make_chunk-IsChunk :
    (g : Config) (r : Request) (kv : SequenceKv) (budget : ℕ) (b : Balance)
    → 0 < g.block_size
    → r.kv ≡ some kv
    → (make_chunk g r budget b ≡ ok none)
      ⊎ ((c : Chunk) × (make_chunk g r budget b ≡ ok (some c)) × IsChunk g r kv budget b c)
unfolding make_chunk
make_chunk-IsChunk g r kv budget b h e =
    let n = shrink g r kv b (wanted g r budget) in
    let seated = ap (chunk_from g r (wanted g r budget) b) e in
    elim (Bool-cases (wanted g r budget == 0)) [
      | inl nothing ↦ inl (rw nothing refl)
      | inr something ↦ elim (Bool-cases (n == 0)) [
        | inl full ↦
            (let none_left : ok (non_empty_chunk r n) ≡ ok none = rw full refl in
              inl (rw something (seated ∙ none_left)))
        | inr room ↦
            (let one : ok (non_empty_chunk r n) ≡ ok (some (chunk_of r n)) = rw room refl in
              inr (
                chunk_of r n,
                rw something (seated ∙ one),
                chunk_of-IsChunk g r kv budget b h (ground arith),
              ))
      ]
    ]
