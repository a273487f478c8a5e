-- ===== src/Scheduler/State.antt =====
-- scheduler.py: the scheduler's state, what a step schedules, the queues and the calls that change
-- a queue outside `schedule`. A request object stands once, in `waiting` or in `running`; the other
-- places that refer to it hold its identifier, and read it from its queue. The state holds the
-- allocator and the prefix cache that the Python objects share by reference.
use infer_lab.Base.{
  ℕ, ◌+◌, List, [], ◌∷◌, ◌++◌, length, Bool, true, false, ◌==◌, ◌&&◌, if◌then◌else◌, Option, none,
  some, ok, Action, and_then,
}
use infer_lab.Allocator.{Allocator}
use infer_lab.Paged.{SequenceKv, full_blocks}
use infer_lab.Radix
use infer_lab.Radix.{RadixCache, Shared}
use infer_lab.Request.{Request, State, all_token_ids, release_kv}

-- The fields of `EngineConfig` that the scheduler reads. `watermark n` is `int(n * watermark)`, the
-- blocks of a pool of `n` that are kept free; the float itself is a parameter of the program.
pub record Config : Type 0 where
  pub block_size : ℕ
  pub max_num_seqs : ℕ
  pub max_num_batched_tokens : ℕ
  pub enable_chunked_prefill : Bool
  pub enable_prefix_caching : Bool
  pub enable_preemption : Bool
  pub watermark : ℕ → ℕ

pub record Chunk : Type 0 where
  pub request : ℕ
  pub start_pos : ℕ
  pub token_ids : List ℕ
  pub is_final_chunk : Bool

abbrev pub num_tokens : Chunk → ℕ
num_tokens c = length c.token_ids

pub record Output : Type 0 where
  pub prefill_chunks : List Chunk
  pub decode_requests : List ℕ
  pub preempted : List ℕ

abbrev pub empty_output : Output
empty_output = record { prefill_chunks = []; decode_requests = []; preempted = [] }

abbrev pub sum_tokens : List Chunk → ℕ
sum_tokens [] = 0
sum_tokens (c ∷ cs) = num_tokens c + sum_tokens cs

abbrev pub none_left {ℓ} : {A : Type ℓ} → List A → Bool
none_left [] = true
none_left (x ∷ xs) = false

abbrev pub is_empty : Output → Bool
is_empty o = none_left o.prefill_chunks && none_left o.decode_requests

abbrev pub num_batched_tokens : Output → ℕ
num_batched_tokens o = sum_tokens o.prefill_chunks + length o.decode_requests

pub record Stats : Type 0 where
  pub steps : ℕ
  pub scheduled_prefill_tokens : ℕ
  pub scheduled_decode_tokens : ℕ
  pub preemptions : ℕ
  pub prefix_cache_hit_tokens : ℕ
  pub admitted : ℕ
  pub finished : ℕ
  pub max_running : ℕ
  pub mixed_steps : ℕ

abbrev pub no_stats : Stats
no_stats = record {
  steps = 0;
  scheduled_prefill_tokens = 0;
  scheduled_decode_tokens = 0;
  preemptions = 0;
  prefix_cache_hit_tokens = 0;
  admitted = 0;
  finished = 0;
  max_running = 0;
  mixed_steps = 0;
}

pub record Scheduler : Type 0 where
  pub config : Config
  pub allocator : Allocator
  pub radix : Option RadixCache
  pub waiting : List Request
  pub running : List Request
  pub stats : Stats

abbrev pub init : Config → Allocator → Option RadixCache → Scheduler
init config allocator radix = record {
  config = config;
  allocator = allocator;
  radix = radix;
  waiting = [];
  running = [];
  stats = no_stats;
}

-- A call on the allocator, or on the cache with it, inside a method of the scheduler.
abbrev pub on_allocator {ℓ} : {A : Type ℓ} → Action Allocator A → Action Scheduler A
on_allocator m s = let (r, t) = m s.allocator in (r, record s { allocator = t })

abbrev pub put_back : Scheduler → Shared → Scheduler
put_back s c = record s { allocator = c.allocator; radix = some c.radix }

abbrev pub on_radix {ℓ} : {A : Type ℓ} → RadixCache → Action Shared A → Action Scheduler A
on_radix c m s = let (r, t) = m (record { radix = c; allocator = s.allocator }) in (r, put_back s t)

unfoldable pub find_request : ℕ → List Request → Option Request
find_request id [] = none
find_request id (r ∷ rs) = if r.request_id == id then some r else find_request id rs

-- `queue.remove(request)`: the first with its identifier goes.
unfoldable pub remove_request : ℕ → List Request → List Request
remove_request id [] = []
remove_request id (r ∷ rs) = if r.request_id == id then rs else r ∷ remove_request id rs

unfoldable pub replace_request : Request → List Request → List Request
replace_request q [] = []
replace_request q (r ∷ rs) =
    if r.request_id == q.request_id then q ∷ rs else r ∷ replace_request q rs

abbrev pub ids : List Request → List ℕ
ids [] = []
ids (r ∷ rs) = r.request_id ∷ ids rs

unfoldable pub contains : ℕ → List ℕ → Bool
contains x [] = false
contains x (y ∷ ys) = if y == x then true else contains x ys

unfoldable pub add_request : Request → Scheduler → Scheduler
add_request r s = record s {
  waiting = s.waiting ++ record r { state = State.waiting } ∷ [];
  stats = record s.stats { admitted = s.stats.admitted + 1 };
}

-- `_release`: the request object without its block table.
unfoldable pub release_request : Request → Action Scheduler Request
release_request r s =
    and_then (on_allocator (release_kv r.kv) s) λ _ t. (ok (record r { kv = none }), t)

-- `abort` looks through `waiting`, then through `running`.
abbrev pub abort_running : ℕ → Option Request → Action Scheduler Bool
abort_running id none s = (ok false, s)
abort_running id (some r) s =
    and_then (release_request r s)
      λ _ t. (ok true, record t { running = remove_request id t.running })

abbrev pub abort_waiting : ℕ → Option Request → Action Scheduler Bool
abort_waiting id none s = abort_running id (find_request id s.running) s
abort_waiting id (some r) s =
    and_then (release_request r s)
      λ _ t. (ok true, record t { waiting = remove_request id t.waiting })

unfoldable pub abort : ℕ → Action Scheduler Bool
abort id s = abort_waiting id (find_request id s.waiting) s

abbrev pub publish : Request → Option SequenceKv → Option RadixCache → Action Scheduler (Unit {0})
publish r none c s = (ok tt, s)
publish r (some kv) none s = (ok tt, s)
publish r (some kv) (some c) s =
    and_then (on_radix c (Radix.insert (all_token_ids r) (full_blocks s.config.block_size kv)) s)
      λ _ t. (ok tt, t)

unfoldable pub commit_prefix : Request → Action Scheduler (Unit {0})
commit_prefix r s = if s.config.enable_prefix_caching then publish r r.kv s.radix s else (ok tt, s)

unfoldable pub retire : Request → Action Scheduler (Unit {0})
retire r s = and_then (commit_prefix r s) λ _ t. and_then (release_request r t) λ _ u. (
  ok tt,
  record u {
    running = remove_request r.request_id u.running;
    stats = record u.stats { finished = u.stats.finished + 1 };
  },
)
