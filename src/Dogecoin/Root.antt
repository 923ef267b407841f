-- ===== src/Dogecoin/Root.antt =====
-- The Merkle root of a block: `Block::compute_merkle_root` and `Block::check_merkle_root` of
-- bitcoin/src/dogecoin/mod.rs.
use rust_dogecoin.Common.Bytes.{bytes_eq, bytes_eq_sound, bytes_eq_refl}
use rust_dogecoin.Common.{
  subst, ℕ, zero, suc, ◌≡◌, ◌↔◌, ◌<◌, ◌≤◌, ◌*◌, ◌^◌, List, [], ◌∷◌, Option, some, Bool, true,
  length, map, arith, sym, ◌∙◌, get_elem?, length-map,
}
use rust_dogecoin.Common.Int.{pos}
use rust_dogecoin.Blockdata.Transaction.{Transaction, compute_txid}
use rust_dogecoin.Dogecoin.AuxPow as Proof
use rust_dogecoin.Blockdata.Block.{equals_root}
use rust_dogecoin.Dogecoin.Header.{Block}
use rust_dogecoin.Merkle.{calculate_root}
use rust_dogecoin.Merkle.Tree.{tree_root, calculate_root_lem, calculate_root_total}
use rust_dogecoin.Merkle.Branch.{branch, compute_merkle_root-branch}

get_elem?-map :
    (f : Transaction → List ℕ) (txs : List Transaction) (index : ℕ) (tx : Transaction)
    → get_elem? txs index ≡ some tx
    → get_elem? (map f txs) index ≡ some (f tx)
get_elem?-map f [] index tx h = absurd (search arith)
get_elem?-map f (x ∷ txs) zero tx h = cc
get_elem?-map f (x ∷ txs) (suc index) tx h = get_elem?-map f txs index tx h

module _ (sha256d : List ℕ → List ℕ) where
  unfoldable pub block_txids : Block → List (List ℕ)
  block_txids b = map (compute_txid sha256d) b.txdata

  unfoldable pub compute_merkle_root : Block → Option (List ℕ)
  compute_merkle_root b = calculate_root sha256d (block_txids b)

  unfoldable pub check_merkle_root : Block → Bool
  check_merkle_root b = equals_root b.header.pure_header.merkle_root (compute_merkle_root b)

  length-block_txids : (b : Block) → length (block_txids b) ≡ length b.txdata
  unfolding block_txids
  length-block_txids b = length-map b.txdata (compute_txid sha256d)

  -- The check against a root that is there compares the two.
  check_present :
      (b : Block) (root : List ℕ)
      → compute_merkle_root b ≡ some root
      → (check_merkle_root b ≡ true) ↔ (b.header.pure_header.merkle_root ≡ root)
  unfolding check_merkle_root equals_root
  check_present b root e = rw e (
    bytes_eq_sound b.header.pure_header.merkle_root root,
    λ f.
        subst (λ r. bytes_eq b.header.pure_header.merkle_root r ≡ true) f
          (bytes_eq_refl b.header.pure_header.merkle_root),
  )

  -- For a block with a transaction, some height whose power of two is at least the number of
  -- transactions and less than twice it has this: the check succeeds just when the header's root is
  -- the root of the tree of that height over the transaction identifiers.
  pub check_merkle_root_lem :
      (b : Block)
      → 0 < length b.txdata
      → (height : ℕ) × (length b.txdata ≤ 2 ^ height)
        × (2 ^ height < 2 * length b.txdata)
        × ((check_merkle_root b ≡ true)
            ↔ (b.header.pure_header.merkle_root ≡ tree_root sha256d height (block_txids b)))
  unfolding compute_merkle_root
  check_merkle_root_lem b h =
      let n = length-block_txids b in
      let (height, low, high, root, _) =
        calculate_root_total sha256d (block_txids b) (omega (arith, n)) in
      (height, omega (arith, n), omega (arith, n), check_present b _ root)

  pub check_merkle_root_proof :
      (b : Block) (height index : ℕ) (tx : Transaction)
      → length b.txdata ≤ 2 ^ height
      → 2 ^ height < 2 * length b.txdata
      → get_elem? b.txdata index ≡ some tx
      → check_merkle_root b ≡ true
      → Proof.compute_merkle_root sha256d
          (compute_txid sha256d tx)
          (branch sha256d height (block_txids b) index)
          (pos index)
        ≡ b.header.pure_header.merkle_root
  unfolding compute_merkle_root block_txids
  check_merkle_root_proof b height index tx low high h e =
      let n = length-block_txids b in
      let root =
        calculate_root_lem sha256d height (block_txids b) (omega (arith, n)) (omega (arith, n)) in
      compute_merkle_root-branch sha256d height (block_txids b) index _ (omega (arith, n))
        (get_elem?-map (compute_txid sha256d) b.txdata index tx h)
      ∙ sym ((check_present b _ root).0 e)
