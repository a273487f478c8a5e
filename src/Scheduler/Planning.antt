-- ===== src/Scheduler/Planning.antt =====
-- The blocks that a step's plan will take when it is executed, and what holds of the variables of
-- `schedule` between its decisions.
use infer_lab.Base.{
  ℕ, ◌+◌, ◌≤◌, ◌<◌, ◌≡◌, refl, ap, ◌∙◌, ap₂, ◌⊎◌, List, [], ◌∷◌, ◌++◌, length-append, All,
  All-append, All-imp, true, inl, inr, Option, none, some, arith,
}
use infer_lab.Allocator.{num_free}
use infer_lab.Paged.{SequenceKv, blocks_needed}
use infer_lab.Request.{Request}
use infer_lab.Scheduler.State.{
  Scheduler, Chunk, Output, Config, find_request, contains, sum_tokens, num_tokens,
  num_batched_tokens,
}
use infer_lab.Scheduler.Schedule.{Round, commit_decode, commit_chunk}
use infer_lab.Scheduler.Invariant.{Inv}

-- What a block table lacks for `total` tokens.
abbrev pub kv_need : ℕ → Option SequenceKv → ℕ → ℕ
kv_need bs none total = 0
kv_need bs (some kv) total = blocks_needed bs kv total

-- The blocks that a decode of the request, or a chunk of its prefill, takes.
abbrev pub decode_need : ℕ → Option Request → ℕ
decode_need bs none = 0
decode_need bs (some q) = kv_need bs q.kv (q.num_computed_tokens + 1)

abbrev pub chunk_need : ℕ → Chunk → Option Request → ℕ
chunk_need bs c none = 0
chunk_need bs c (some q) = kv_need bs q.kv (c.start_pos + num_tokens c)

unfoldable pub decode_sum : ℕ → List Request → List ℕ → ℕ
decode_sum bs rs [] = 0
decode_sum bs rs (id ∷ ids) = decode_need bs (find_request id rs) + decode_sum bs rs ids

unfoldable pub chunk_sum : ℕ → List Request → List Chunk → ℕ
chunk_sum bs rs [] = 0
chunk_sum bs rs (c ∷ cs) = chunk_need bs c (find_request c.request rs) + chunk_sum bs rs cs

-- The blocks that the execution of the plan `out` takes from the free list.
abbrev pub demand : ℕ → List Request → Output → ℕ
demand bs rs out = decode_sum bs rs out.decode_requests + chunk_sum bs rs out.prefill_chunks

pub decode_sum-snoc :
    (bs : ℕ) (rs : List Request) (ids : List ℕ) (id : ℕ)
    → decode_sum bs rs (ids ++ id ∷ []) ≡ decode_sum bs rs ids + decode_need bs (find_request id rs)
unfolding decode_sum
decode_sum-snoc bs rs [] id = omega arith
decode_sum-snoc bs rs (i ∷ ids) id = omega (arith, decode_sum-snoc bs rs ids id)

pub chunk_sum-snoc :
    (bs : ℕ) (rs : List Request) (cs : List Chunk) (c : Chunk)
    → chunk_sum bs rs (cs ++ c ∷ [])
      ≡ chunk_sum bs rs cs + chunk_need bs c (find_request c.request rs)
unfolding chunk_sum
chunk_sum-snoc bs rs [] c = omega arith
chunk_sum-snoc bs rs (d ∷ cs) c = omega (arith, chunk_sum-snoc bs rs cs c)

-- A request is in the set, and both queues agree on it.
abbrev pub Listed : List ℕ → ℕ → Type 0
Listed scheduled id = contains id scheduled ≡ true

abbrev pub ListedChunk : List ℕ → Chunk → Type 0
ListedChunk scheduled c = contains c.request scheduled ≡ true

-- Two queues agree on the requests of a set.
abbrev pub Agree : List ℕ → List Request → List Request → Type 0
Agree scheduled rs rs' =
    (id : ℕ) → contains id scheduled ≡ true → find_request id rs' ≡ find_request id rs

decode_sum-cast :
    (bs : ℕ) (scheduled : List ℕ) (rs rs' : List Request) (ids : List ℕ)
    → Agree scheduled rs rs'
    → All (Listed scheduled) ids
    → decode_sum bs rs' ids ≡ decode_sum bs rs ids
unfolding decode_sum
decode_sum-cast bs scheduled rs rs' [] same h = refl
decode_sum-cast bs scheduled rs rs' (id ∷ ids) same h =
    omega
      (arith, ap (decode_need bs) (same id h.0), decode_sum-cast bs scheduled rs rs' ids same h.1)

chunk_sum-cast :
    (bs : ℕ) (scheduled : List ℕ) (rs rs' : List Request) (cs : List Chunk)
    → Agree scheduled rs rs'
    → All (ListedChunk scheduled) cs
    → chunk_sum bs rs' cs ≡ chunk_sum bs rs cs
unfolding chunk_sum
chunk_sum-cast bs scheduled rs rs' [] same h = refl
chunk_sum-cast bs scheduled rs rs' (c ∷ cs) same h = omega (
  arith,
  ap (chunk_need bs c) (same c.request h.0),
  chunk_sum-cast bs scheduled rs rs' cs same h.1,
)

-- What holds of the variables of `schedule`, with the token limit it began with.
pub record Planned (limit : ℕ) (r : Round) : Type 0 where
  pub inv : Inv r.sched
  pub positive : 0 < r.sched.config.block_size
  -- `reserved` is what the plan will take, and that much is free
  pub reserves : demand r.sched.config.block_size r.sched.running r.out ≡ r.reserved
  pub covered : r.reserved ≤ num_free r.sched.allocator
  -- what is not left of the budget is in the plan
  pub spent : num_batched_tokens r.out + r.budget ≡ limit
  pub decodes : All (Listed r.scheduled) r.out.decode_requests
  pub chunks : All (ListedChunk r.scheduled) r.out.prefill_chunks
  -- what is in the plan runs
  pub present :
      (id : ℕ)
      → contains id r.scheduled ≡ true
      → (q : Request) × (find_request id r.sched.running ≡ some q)

-- The plan stands in a scheduler that agrees on the scheduled requests and has no fewer free blocks.
pub Planned-Moves :
    (limit : ℕ) (r : Round) (t : Scheduler)
    → Planned limit r
    → Inv t
    → t.config ≡ r.sched.config
    → num_free r.sched.allocator ≤ num_free t.allocator
    → Agree r.scheduled r.sched.running t.running
    → Planned limit (record r { sched = t })
Planned-Moves limit r t p v same grown agree = record {
  inv = v;
  positive = omega (arith, p.positive, ap (λ (g : Config). g.block_size) same);
  reserves =
      ap (λ (g : Config). demand g.block_size t.running r.out) same
      ∙ (ap₂ (λ (a b : ℕ). a + b)
          (decode_sum-cast r.sched.config.block_size r.scheduled r.sched.running t.running
            r.out.decode_requests agree p.decodes)
          (chunk_sum-cast r.sched.config.block_size r.scheduled r.sched.running t.running
            r.out.prefill_chunks agree p.chunks))
      ∙ p.reserves;
  covered = omega (arith, p.covered, grown);
  spent = p.spent;
  decodes = p.decodes;
  chunks = p.chunks;
  present = λ id h. let (q, e) = p.present id h in (q, agree id h ∙ e);
}

pub contains-cons : (x id : ℕ) (xs : List ℕ) → contains x xs ≡ true → contains x (id ∷ xs) ≡ true
unfolding contains
contains-cons x id xs h = ground arith

pub contains_head : (id : ℕ) (xs : List ℕ) → contains id (id ∷ xs) ≡ true
unfolding contains
contains_head id xs = ground arith

contains_cases :
    (x id : ℕ) (xs : List ℕ) → contains x (id ∷ xs) ≡ true → (x ≡ id) ⊎ (contains x xs ≡ true)
unfolding contains
contains_cases x id xs h = ground arith

present_more :
    (id : ℕ) (scheduled : List ℕ) (rs : List Request) (q : Request)
    → find_request id rs ≡ some q
    → ((i : ℕ) → contains i scheduled ≡ true → (q : Request) × (find_request i rs ≡ some q))
    → (i : ℕ) → contains i (id ∷ scheduled) ≡ true
    → (q : Request) × (find_request i rs ≡ some q)
present_more id scheduled rs q e h i c = elim (contains_cases i id scheduled c) [
  | inl same ↦ (q, ap (λ x. find_request x rs) same ∙ e)
  | inr old ↦ h i old
]

-- A decode joins the plan with the blocks that it needs.
pub commit_decode-Planned :
    (limit id needed : ℕ) (r : Round) (q : Request)
    → Planned limit r
    → find_request id r.sched.running ≡ some q
    → needed ≡ decode_need r.sched.config.block_size (some q)
    → r.reserved + needed ≤ num_free r.sched.allocator
    → 0 < r.budget
    → Planned limit (commit_decode id needed r)
commit_decode-Planned limit id needed r q p e n room b = record {
  inv = p.inv;
  positive = p.positive;
  reserves = omega (
    arith,
    decode_sum-snoc r.sched.config.block_size r.sched.running r.out.decode_requests id,
    ap (decode_need r.sched.config.block_size) e,
    p.reserves,
    n,
  );
  covered = room;
  spent = omega (arith, p.spent, length-append r.out.decode_requests (id ∷ []));
  decodes =
      All-append (Listed (id ∷ r.scheduled)) r.out.decode_requests (id ∷ [])
        (All-imp r.out.decode_requests (λ x. contains-cons x id r.scheduled) p.decodes)
        (contains_head id r.scheduled, tt);
  chunks = All-imp r.out.prefill_chunks (λ c. contains-cons c.request id r.scheduled) p.chunks;
  present = present_more id r.scheduled r.sched.running q e p.present;
}

sum_tokens-snoc :
    (cs : List Chunk) (c : Chunk) → sum_tokens (cs ++ c ∷ []) ≡ sum_tokens cs + num_tokens c
sum_tokens-snoc [] c = omega arith
sum_tokens-snoc (d ∷ cs) c = omega (arith, sum_tokens-snoc cs c)

-- A chunk joins the plan with the blocks that it needs.
pub commit_chunk-Planned :
    (limit needed : ℕ) (c : Chunk) (r : Round) (q : Request)
    → Planned limit r
    → find_request c.request r.sched.running ≡ some q
    → needed ≡ chunk_need r.sched.config.block_size c (some q)
    → r.reserved + needed ≤ num_free r.sched.allocator
    → num_tokens c ≤ r.budget
    → Planned limit (commit_chunk c needed r)
commit_chunk-Planned limit needed c r q p e n room b = record {
  inv = p.inv;
  positive = p.positive;
  reserves = omega (
    arith,
    chunk_sum-snoc r.sched.config.block_size r.sched.running r.out.prefill_chunks c,
    ap (chunk_need r.sched.config.block_size c) e,
    p.reserves,
    n,
  );
  covered = room;
  spent = omega (arith, p.spent, sum_tokens-snoc r.out.prefill_chunks c);
  decodes = All-imp r.out.decode_requests (λ x. contains-cons x c.request r.scheduled) p.decodes;
  chunks =
      All-append (ListedChunk (c.request ∷ r.scheduled)) r.out.prefill_chunks (c ∷ [])
        (All-imp r.out.prefill_chunks (λ d. contains-cons d.request c.request r.scheduled) p.chunks)
        (contains_head c.request r.scheduled, tt);
  present = present_more c.request r.scheduled r.sched.running q e p.present;
}
