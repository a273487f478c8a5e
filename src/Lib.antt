-- ===== src/Lib.antt =====
-- infer-lab, a paged inference engine: the KV memory, the scheduler, the engine and its runner, and the
-- collectives, checked.
--
-- Parts, with the paths from the repository's root:
--   src/infer_lab/kv/block_allocator.py   Allocator: the pool of blocks with reference counts
--   src/infer_lab/kv/paged_cache.py       Paged: a sequence's block table over the allocator;
--                                         Paged/Pools: the rows of keys and values, write and gather
--   src/infer_lab/kv/radix_cache.py       Radix: the prefix tree (Radix/Tree) and the cache over it
--   src/infer_lab/model/numpy_model.py    Model: the prefill over the paged cache, and the batched
--                                         decode (Model/Batch)
--   src/infer_lab/model/tokenizer.py      Tokenizer: bytes and special tokens
--   src/infer_lab/config.py               Settings: the configurations and their checks
--   src/infer_lab/engine/request.py       Request: a request, its states and token counts
--   src/infer_lab/engine/scheduler.py     Scheduler: queues (State), preemption (Room), admission
--                                         (Admission) and a step (Schedule)
--   src/infer_lab/engine/llm_engine.py    Engine: submission and abort; the phases of a step (Prefill,
--                                         Decoding, Stepping) and generate (Generating)
--   src/infer_lab/engine/speculative.py   Speculative: draft and verification at temperature 0
--   src/infer_lab/server/engine_runner.py Runner: the loop and its clients as interleaved steps
--   src/infer_lab/distributed/ring_allreduce.py      Ring: the rank's program, the framing of messages
--                                         (Framing) and the driver's checks (Driver)
--   src/infer_lab/distributed/tensor_parallel.py     TensorParallel: whole heads to ranks
--   src/infer_lab/distributed/health.py   Health: the failure detector
--   src/infer_lab/distributed/pipeline_parallel.py   Pipeline: the layers of each stage, and the
--                                         wavefront of micro-batches (Wavefront)
-- The allocator is shared by reference in Python. Here it is a state that each method takes and
-- returns, beside a result or an exception (Base/Exceptions): what was written before a raise stays.
-- Block tables and the tree hold references to blocks; Allocator/Accounts relates the list of all
-- references held to the allocator's counts, and the theorems on the memory are stated with it.
-- A step of the engine runs the scheduler, the model on the block tables of the plan, and then retires
-- what has finished; its state is that of the scheduler with the two pools. The runner uses an engine
-- through an interface, with laws on its identifiers. A method keeps its Python name; a method that
-- Python splits into a loop and its body has a definition for each.
--
-- Bounds: numbers are unbounded, as Python's are, and natural where Python's cannot be negative. Loops recur on the list or the tree that they go
-- through; `evict` recurs on the blocks still wanted, the loop of `_make_room` on the number of
-- running requests, each round of which takes one, admission on the number of waiting requests,
-- speculative decoding on `max_tokens`, since each of its rounds adds a token, `write` on the rows to
-- write and `recv_exact` on the bytes to receive, at least one of which goes in each round. `generate`
-- recurs on `max_steps`, which Python counts too.
--
-- Not modelled: floats (utilization, rates, sampling, what a layer computes), clock readings, logging,
-- sockets and threads as such, the sharded products of tensor parallelism, the fleet, the HTTP layer and metrics, the choice of
-- kernels, scripts and clients. What a layer computes, the sampler, UTF-8, the addition of two arrays,
-- the two models of speculative decoding (each with its own cache) and the watermark's rounding are
-- parameters.
mod Base
pub mod Allocator
pub mod Paged
pub mod Model
pub mod Engine
pub mod Runner
pub mod Health
pub mod Settings
pub mod Tokenizer
pub mod TensorParallel
pub mod Radix
pub mod Request
pub mod Pipeline
pub mod Ring
pub mod Scheduler
pub mod Speculative
mod Tests
