-- ===== src/Tests/Stages.antt =====
-- The pipeline's layers and the ranks' heads at small numbers.
use infer_lab.Base.{ℕ, ◌≡◌, ◌/◌, ◌≤◌, ◌<◌, ◌↔◌, refl, List, length, All, arith, ok}
use infer_lab.TensorParallel.{Attention, check_attention, head_slice}
use infer_lab.TensorParallel.Heads.{head_slice-owner}
use infer_lab.Pipeline.{range, split_layers}
use infer_lab.Pipeline.Partition.{flatten, Balanced, split_layers-Balanced}

split_layers-Balanced_example :
    (stages : List (List ℕ)) × (split_layers 7 3 ≡ ok stages)
    × (length stages ≡ 3)
    × (flatten stages ≡ range 0 7)
    × All (Balanced (7 / 3)) stages
split_layers-Balanced_example = split_layers-Balanced 7 3 (omega arith) (omega arith)

abbrev eight_heads : Attention
eight_heads = record { num_heads = 8; num_kv_heads = 4; world_size = 2 }

-- Head 5 is the second rank's.
head_slice-owner_example :
    (((head_slice eight_heads 1).first ≤ 5) × (5 < (head_slice eight_heads 1).last) ↔ (5 / 4 ≡ 1))
    × (5 / 4 < 2)
unfolding check_attention
head_slice-owner_example = head_slice-owner eight_heads 5 1 refl (omega arith)
