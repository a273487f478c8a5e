-- ===== src/Ring.antt =====
-- src/infer_lab/distributed/ring_allreduce.py: the rank's program, `RingNode.run`. A chunk is a
-- value of any type, and `add` is the float32 addition of two arrays; the chunks of a rank are read
-- by their index below `world_size`. Python's `%` of a negative number is written with `world_size`
-- added.
pub mod Wire
pub mod Reduction
pub mod Framing
pub mod Driver
use infer_lab.Base.{ℕ, zero, suc, ◌+◌, ◌-◌, ◌*◌, ◌%◌, ◌==◌, ltb, if◌then◌else◌}

pub record Stats : Type 0 where
  pub bytes_sent : ℕ
  pub bytes_received : ℕ
  pub steps : ℕ

abbrev pub no_stats : Stats
no_stats = record { bytes_sent = 0; bytes_received = 0; steps = 0 }

pub record Node {ℓ} (A : Type ℓ) : Type ℓ where
  pub chunks : ℕ → A
  pub stats : Stats

-- `chunks[i] = v`
abbrev pub update {ℓ} : {A : Type ℓ} → (ℕ → A) → ℕ → A → ℕ → A
update f i v j = if i == j then v else f j

-- `(rank - k) % n`, for a `k` of at most `n`.
abbrev pub back : ℕ → ℕ → ℕ → ℕ
back n rank k = (rank + n - k) % n

-- `size` is the number of bytes of an encoded chunk.
abbrev pub count_bytes {ℓ} : {A : Type ℓ} → (A → ℕ) → A → A → Stats → Stats
count_bytes size payload incoming s = record {
  bytes_sent = s.bytes_sent + size payload;
  bytes_received = s.bytes_received + size incoming;
  steps = s.steps + 1;
}

module _ {ℓ} {A : Type ℓ} (size : A → ℕ) (add : A → A → A) (n rank : ℕ) where
  -- A round of phase 1, in which the message `incoming` arrives.
  abbrev pub scatter_step : ℕ → A → Node A → Node A
  scatter_step step incoming s =
      let recv_idx = back n rank (step + 1) in
      record {
        chunks = update s.chunks recv_idx (add (s.chunks recv_idx) incoming);
        stats = count_bytes size (s.chunks (back n rank step)) incoming s.stats;
      }

  -- A round of phase 2.
  abbrev pub gather_step : ℕ → A → Node A → Node A
  gather_step step incoming s = record {
    chunks = update s.chunks (back n rank step) incoming;
    stats = count_bytes size (s.chunks ((rank + n - step + 1) % n)) incoming s.stats;
  }

  -- The node after the first rounds of phase 1, with the messages that arrive in their order.
  unfoldable pub scatter : (ℕ → A) → (ℕ → A) → ℕ → Node A
  scatter tensor incoming zero = record { chunks = tensor; stats = no_stats }
  scatter tensor incoming (suc t) = scatter_step t (incoming t) (scatter tensor incoming t)

  -- The node after phase 1 and the first rounds of phase 2.
  unfoldable pub gather : (ℕ → A) → (ℕ → A) → ℕ → Node A
  gather tensor incoming zero = scatter tensor incoming (n - 1)
  gather tensor incoming (suc t) = gather_step t (incoming (n - 1 + t)) (gather tensor incoming t)

  -- The message that the rank sends in a round: before it receives.
  unfoldable pub sent : (ℕ → A) → (ℕ → A) → ℕ → A
  sent tensor incoming k =
      if ltb k (n - 1)
      then (scatter tensor incoming k).chunks (back n rank k)
      else (gather tensor incoming (k - (n - 1))).chunks ((rank + n - (k - (n - 1)) + 1) % n)

  unfoldable pub run : (ℕ → A) → (ℕ → A) → Node A
  run tensor incoming = gather tensor incoming (n - 1)
