-- ===== src/Merkle/Branch.antt =====
-- A leaf of the tree of bitcoin/src/merkle_tree/mod.rs is proved to be one by the branch that
-- `AuxPow::compute_merkle_root` of bitcoin/src/dogecoin/auxpow.rs folds.
use rust_dogecoin.Common.{
  ℕ, zero, suc, ◌≡◌, ◌<◌, ◌≤◌, ◌*◌, ◌/◌, ◌%◌, ◌^◌, List, [], ◌∷◌, some, length, arith, ◌∙◌, ap, sym,
  if◌then◌else◌, get_elem?, ◌==◌,
}
use rust_dogecoin.Common.Int.{pos}
use rust_dogecoin.Merkle.{node, pair_up, calculate_root}
use rust_dogecoin.Common.Bits.{pow_double}
use rust_dogecoin.Merkle.InPlace.{length-pair_up}
use rust_dogecoin.Merkle.Tree.{tree_root, tree_root-pair_up, calculate_root_lem}
use rust_dogecoin.Dogecoin.AuxPow as Proof
use rust_dogecoin.Dogecoin.AuxPow.{compute_merkle_root}

module _ (sha256d : List ℕ → List ℕ) where
  -- The hash that the one at `index` is paired with.
  unfoldable pub sibling : List (List ℕ) → ℕ → List ℕ
  sibling [] index = []
  sibling (x ∷ []) index = x
  sibling (x ∷ y ∷ rest) zero = y
  sibling (x ∷ y ∷ rest) (suc zero) = x
  sibling (x ∷ y ∷ rest) (suc (suc index)) = sibling rest index

  unfoldable pub branch : ℕ → List (List ℕ) → ℕ → List (List ℕ)
  branch zero hashes index = []
  branch (suc height) hashes index =
      sibling hashes index ∷ branch height (pair_up sha256d hashes) (index / 2)

  parent :
      (hashes : List (List ℕ)) (index : ℕ) (x : List ℕ)
      → get_elem? hashes index ≡ some x
      → get_elem? (pair_up sha256d hashes) (index / 2)
        ≡ some (
            if index % 2 == 1
            then node sha256d (sibling hashes index) x
            else node sha256d x (sibling hashes index))
  unfolding sibling pair_up
  parent [] index x h = absurd (search arith)
  parent (y ∷ []) zero x h = cc
  parent (y ∷ []) (suc index) x h = absurd (ground arith)
  parent (y ∷ z ∷ rest) zero x h = cc
  parent (y ∷ z ∷ rest) (suc zero) x h = cc
  parent (y ∷ z ∷ rest) (suc (suc index)) x h =
      let d : suc (suc index) / 2 ≡ suc (index / 2) = omega arith in
      let m : suc (suc index) % 2 ≡ index % 2 = omega arith in rw (d, m) (parent rest index x h)

  some_index :
      (hashes : List (List ℕ)) (index : ℕ) (x : List ℕ)
      → get_elem? hashes index ≡ some x
      → 0 < length hashes
  some_index [] index x h = absurd (search arith)
  some_index (y ∷ hashes) index x h = omega arith

  pub one_level :
      (x b : List ℕ) (bs : List (List ℕ)) (index : ℕ)
      → compute_merkle_root sha256d x (b ∷ bs) (pos index)
        ≡ compute_merkle_root sha256d
            (if index % 2 == 1 then node sha256d b x else node sha256d x b)
            bs
            (pos (index / 2))
  unfolding compute_merkle_root Proof.parent_hash
  one_level x b bs index =
      let m : index % 4294967296 % 2 ≡ index % 2 = omega arith in
      ap
        (λ t.
          compute_merkle_root sha256d (if t == 1 then node sha256d b x else node sha256d x b) bs
            (pos (index / 2)))
        m

  pub compute_merkle_root-branch :
      (height : ℕ) (hashes : List (List ℕ)) (index : ℕ) (x : List ℕ)
      → length hashes ≤ 2 ^ height
      → get_elem? hashes index ≡ some x
      → compute_merkle_root sha256d x (branch height hashes index) (pos index)
        ≡ tree_root sha256d height hashes
  unfolding compute_merkle_root branch tree_root
  compute_merkle_root-branch zero [] index x k h = absurd (search arith)
  compute_merkle_root-branch zero (y ∷ []) zero x k h = cc
  compute_merkle_root-branch zero (y ∷ []) (suc index) x k h = absurd (search arith)
  compute_merkle_root-branch zero (y ∷ z ∷ hashes) index x k h = absurd (omega arith)
  compute_merkle_root-branch (suc height) hashes index x k h =
      one_level x (sibling hashes index) (branch height (pair_up sha256d hashes) (index / 2)) index
      ∙ compute_merkle_root-branch height (pair_up sha256d hashes) (index / 2) _
          (omega (arith, length-pair_up sha256d hashes, pow_double height))
          (parent hashes index x h)
      ∙ sym (tree_root-pair_up sha256d height hashes (some_index hashes index x h) k)

  -- For a list of hashes, a height whose power of two is at least their number and less than twice
  -- it, and the hash at an index, the computed root is what the fold of
  -- `AuxPow::compute_merkle_root` gives from that hash, the branch of its siblings and the index.
  pub calculate_root-compute_merkle_root :
      (height : ℕ) (hashes : List (List ℕ)) (index : ℕ) (x : List ℕ)
      → length hashes ≤ 2 ^ height
      → 2 ^ height < 2 * length hashes
      → get_elem? hashes index ≡ some x
      → calculate_root sha256d hashes
        ≡ some (compute_merkle_root sha256d x (branch height hashes index) (pos index))
  calculate_root-compute_merkle_root height hashes index x low high h =
      calculate_root_lem sha256d height hashes low high
      ∙ ap some (sym (compute_merkle_root-branch height hashes index x low h))
