-- ===== src/Merkle/Examples.antt =====
-- The theorems on Merkle trees at three leaves, hashed by the list of the two hashes' bytes.
use rust_dogecoin.Common.{ℕ, ◌≡◌, ◌<◌, ◌≤◌, ◌*◌, ◌^◌, List, [], ◌∷◌, some, refl, arith}
use rust_dogecoin.Common.Int.{pos}
use rust_dogecoin.Dogecoin.AuxPow.{compute_merkle_root}
use rust_dogecoin.Merkle.{level_loop, merkle_root_r, pair_up, calculate_root, calculate_root_inline}
use rust_dogecoin.Merkle.Tree.{tree_root, calculate_root_total}
use rust_dogecoin.Merkle.Branch.{branch, calculate_root-compute_merkle_root}

abbrev joined : List ℕ → List ℕ
joined x = x

abbrev leaves : List (List ℕ)
leaves = (1 ∷ []) ∷ (2 ∷ []) ∷ (3 ∷ []) ∷ []

calculate_root_total_example :
    (height : ℕ) × (3 ≤ 2 ^ height)
    × (2 ^ height < 2 * 3)
    × (calculate_root joined leaves ≡ some (tree_root joined height leaves))
    × (calculate_root_inline joined leaves ≡ some (tree_root joined height leaves))
calculate_root_total_example = calculate_root_total joined leaves (omega arith)

calculate_root-compute_merkle_root_example :
    calculate_root joined leaves
    ≡ some (compute_merkle_root joined (3 ∷ []) (branch joined 2 leaves 2) (pos 2))
calculate_root-compute_merkle_root_example =
    calculate_root-compute_merkle_root joined 2 leaves 2 (3 ∷ []) (omega arith) (omega arith) refl

-- The last leaf is its own sibling.
three_leaves : calculate_root joined leaves ≡ some (1 ∷ 2 ∷ 3 ∷ 3 ∷ [])
unfolding calculate_root pair_up merkle_root_r level_loop
three_leaves = refl
