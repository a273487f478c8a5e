-- ===== src/Scheduler.antt =====
-- src/infer_lab/engine/scheduler.py: continuous batching with a token budget, chunked prefill and
-- preemption. The definitions are in State, Room, Admission and Schedule, the proofs in the others.
pub mod State
pub mod Room
pub mod Admission
pub mod Schedule
pub mod Queues
pub mod Invariant
pub mod Preempting
pub mod Chunking
pub mod Admitting
pub mod Planning
pub mod Decoding
pub mod Enqueuing
pub mod Stepping
pub mod Stalling
pub mod Leaving
pub mod Retiring
pub mod Ending
