-- ===== src/Ring/Driver.antt =====
-- ring_allreduce.py: `run_ring_allreduce` and `_split_chunks`. How each rank's thread has ended is
-- an argument, in the order of the ranks; `array_split` is numpy's, a parameter.
use infer_lab.Base.{
  ℕ, ◌==◌, List, [], ◌∷◌, length, Bool, true, false, ltb, ◌&&◌, if◌then◌else◌, Error, Result, ok,
  err, value_error, ring_error,
}
use infer_lab.Ring.{Stats}

pub record Tensor {ℓ} (F : Type ℓ) : Type ℓ where
  pub shape : List ℕ
  pub values : List F

-- What a thread leaves: it runs still, its node has an error, or a result.
pub data Ended {ℓ} (A : Type ℓ) : Type ℓ where
  stuck : Ended A
  failed : Error → Ended A
  reduced : A → Stats → Ended A

abbrev pub same_shape : List ℕ → List ℕ → Bool
same_shape [] [] = true
same_shape (n ∷ ns) (k ∷ ks) = (n == k) && same_shape ns ks
same_shape _ _ = false

module _ {ℓ} {F : Type ℓ} (array_split : List F → ℕ → List (List F)) where
  -- The tensor is flat already where its values stand in one list.
  unfoldable pub split_chunks : List F → ℕ → Result (List (List F))
  split_chunks flat n = if ltb (length flat) n then err value_error else ok (array_split flat n)

abbrev pub all_of_shape {ℓ} : {F : Type ℓ} → List ℕ → List (Tensor F) → Bool
all_of_shape shape [] = true
all_of_shape shape (t ∷ ts) = same_shape t.shape shape && all_of_shape shape ts

-- The checks before any socket is opened.
unfoldable pub check_tensors {ℓ} : {F : Type ℓ} → List (Tensor F) → Result (Unit {0})
check_tensors [] = err value_error
check_tensors (t ∷ []) = err value_error
check_tensors (t ∷ u ∷ ts) = if all_of_shape t.shape (t ∷ u ∷ ts) then ok tt else err value_error

module _ {ℓ} {A : Type ℓ} where
  abbrev pub any_stuck : List (Ended A) → Bool
  any_stuck [] = false
  any_stuck (stuck ∷ es) = true
  any_stuck (_ ∷ es) = any_stuck es

  abbrev pub any_failed : List (Ended A) → Bool
  any_failed [] = false
  any_failed (failed e ∷ es) = true
  any_failed (_ ∷ es) = any_failed es

  abbrev pub results_of : List (Ended A) → List A
  results_of [] = []
  results_of (reduced a s ∷ es) = a ∷ results_of es
  results_of (_ ∷ es) = results_of es

  abbrev pub stats_of : List (Ended A) → List Stats
  stats_of [] = []
  stats_of (reduced a s ∷ es) = s ∷ stats_of es
  stats_of (_ ∷ es) = stats_of es

  -- The end of the driver, after the threads are joined.
  unfoldable pub join_ranks : List (Ended A) → Result (List A × List Stats)
  join_ranks es =
      if any_stuck es
      then err ring_error
      else if any_failed es
      then err ring_error
      else ok (results_of es, stats_of es)

  abbrev pub after_checks : List (Ended A) → Result (Unit {0}) → Result (List A × List Stats)
  after_checks es (err e) = err e
  after_checks es (ok _) = join_ranks es

  unfoldable pub run_ring_allreduce {κ} :
      {F : Type κ} → List (Tensor F) → List (Ended A) → Result (List A × List Stats)
  run_ring_allreduce tensors es = after_checks es (check_tensors tensors)
