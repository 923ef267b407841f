-- ===== src/Merkle.antt =====
-- bitcoin/src/merkle_tree/mod.rs: the root of a list of hashes. `sha256d` is the double SHA-256 of the
-- hash library. `none` stands for the missing root of no hashes, and for an index out of range.
pub mod InPlace
pub mod Tree
pub mod Branch
pub mod Partial
mod Examples
use rust_dogecoin.Common.{
  ℕ, zero, suc, ◌+◌, ◌-◌, ◌*◌, ◌/◌, ◌%◌, List, [], ◌∷◌, ◌++◌, Option, none, some, length, take,
  get_elem?, ◌>>=◌, ◌==◌,
}
use rust_dogecoin.Common.Lists.{set}
use Prim.Native.Nat.{min}

module _ (sha256d : List ℕ → List ℕ) where
  abbrev pub node : List ℕ → List ℕ → List ℕ
  node left right = sha256d (left ++ right)

  -- The loop over the iterator: each two neighbours, and the last one with itself.
  unfoldable pub pair_up : List (List ℕ) → List (List ℕ)
  pair_up [] = []
  pair_up (x ∷ []) = node x x ∷ []
  pair_up (x ∷ y ∷ rest) = node x y ∷ pair_up rest

  -- The loop of `merkle_root_r`, which writes to the slice that it reads: `rounds` rounds from `idx`.
  unfoldable pub level_loop : ℕ → ℕ → List (List ℕ) → Option (List (List ℕ))
  level_loop zero idx hashes = some hashes
  level_loop (suc rounds) idx hashes = do
    left ← get_elem? hashes (2 * idx)
    right ← get_elem? hashes (min (2 * idx + 1) (length hashes - 1))
    level_loop rounds (suc idx) (set hashes idx (node left right))

  -- `merkle_root_r`, on fuel for the depth of the recursion.
  unfoldable pub merkle_root_r : ℕ → List (List ℕ) → Option (List ℕ)
  merkle_root_r zero hashes = none
  merkle_root_r (suc fuel) (x ∷ []) = some x
  merkle_root_r (suc fuel) hashes = do
    next ← level_loop ((length hashes + 1) / 2) 0 hashes
    merkle_root_r fuel (take (length hashes / 2 + length hashes % 2) next)

  unfoldable pub calculate_root_inline : List (List ℕ) → Option (List ℕ)
  calculate_root_inline [] = none
  calculate_root_inline (x ∷ []) = some x
  calculate_root_inline (x ∷ y ∷ rest) = merkle_root_r (length (x ∷ y ∷ rest)) (x ∷ y ∷ rest)

  unfoldable pub calculate_root : List (List ℕ) → Option (List ℕ)
  calculate_root [] = none
  calculate_root (x ∷ []) = some x
  calculate_root (x ∷ y ∷ rest) =
      merkle_root_r (length (pair_up (x ∷ y ∷ rest))) (pair_up (x ∷ y ∷ rest))
