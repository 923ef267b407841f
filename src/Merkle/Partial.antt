-- ===== src/Merkle/Partial.antt =====
-- bitcoin/src/merkle_tree/block.rs: Merkle blocks and their partial Merkle trees. `none` in an `Option`
-- is a panic. Numbers are those of a `u32`, and what overflows wraps as in a release build. What the
-- vectors of the caller hold after an error is not modelled.
pub mod Codec
pub mod Levels
pub mod Shape
pub mod Build
pub mod Moves
pub mod Steps
pub mod Extract
pub mod Wire
pub mod Complete
pub mod Found
pub mod Sound
mod Examples
use rust_dogecoin.Common.{
  ℕ, zero, suc, ◌+◌, ◌-◌, ◌*◌, ◌/◌, ◌%◌, ◌^◌, List, [], ◌∷◌, ◌++◌, Option, none, some, Bool, true,
  false, not, ◌&&◌, ◌||◌, length, take, drop, map, ltb, leb, ◌==◌, if◌then◌else◌, bit_and, bit_or,
  get_elem?, ◌>>=◌,
}
use rust_dogecoin.Common.Bytes.{bytes_eq, to_le_bytes}
use rust_dogecoin.Common.Results.{Result, ok, err}
use rust_dogecoin.Blockdata.Header.{Header}
use rust_dogecoin.Merkle.{node}

pub data MerkleBlockError : Type 0 where
  merkle_root_mismatch : MerkleBlockError
  no_transactions : MerkleBlockError
  too_many_transactions : MerkleBlockError
  too_many_hashes : MerkleBlockError
  not_enough_bits : MerkleBlockError
  not_all_bits_consumed : MerkleBlockError
  not_all_hashes_consumed : MerkleBlockError
  bits_array_overflow : MerkleBlockError
  hashes_array_overflow : MerkleBlockError
  identical_hashes_found : MerkleBlockError

pub record PartialMerkleTree : Type 0 where
  pub num_transactions : ℕ
  pub bits : List Bool
  pub hashes : List (List ℕ)

pub record MerkleBlock : Type 0 where
  pub header : Header
  pub txn : PartialMerkleTree

-- Where an extraction is: the bits and hashes used, and the vectors of the caller.
pub record Extraction : Type 0 where
  pub bits_used : ℕ
  pub hash_used : ℕ
  pub found : List (List ℕ)
  pub indexes : List ℕ

-- `Weight::MAX_BLOCK / Weight::MIN_TRANSACTION`.
abbrev pub max_transactions : ℕ
max_transactions = 4_000_000 / (4 * 60)

unfoldable pub calc_tree_width : ℕ → ℕ → ℕ
calc_tree_width num height = (num + 2 ^ height + 2 ^ 32 - 1) % 2 ^ 32 / 2 ^ height

-- The loop, on fuel for its rounds, from `height`.
unfoldable pub height_loop : ℕ → ℕ → ℕ → ℕ
height_loop zero num height = height
height_loop (suc fuel) num height =
    let higher = height_loop fuel num (suc height) in
    if ltb 1 (calc_tree_width num height) then higher else height

-- At height 32 every width is at most 1.
unfoldable pub calc_tree_height : ℕ → ℕ
calc_tree_height num = height_loop 32 num 0

-- The loop over the flags below a node: `rounds` of them from `p`.
unfoldable pub match_loop : ℕ → ℕ → Bool → List Bool → Option Bool
match_loop zero p parent_of_match flags = some parent_of_match
match_loop (suc rounds) p parent_of_match flags = do
  m ← get_elem? flags p
  match_loop rounds (suc p) (parent_of_match || m) flags

unfoldable pub is_parent_of_match : ℕ → ℕ → ℕ → List Bool → Option Bool
is_parent_of_match num height pos flags =
    let start = pos * 2 ^ height % 2 ^ 32 in
    let end = (pos + 1) * 2 ^ height % 2 ^ 32 in
    match_loop ((if ltb end num then end else num) - start) start false flags

unfoldable pub push_bit : PartialMerkleTree → Bool → PartialMerkleTree
push_bit t b = record t { bits = t.bits ++ b ∷ [] }

unfoldable pub push_hash : PartialMerkleTree → List ℕ → PartialMerkleTree
push_hash t h = record t { hashes = t.hashes ++ h ∷ [] }

unfoldable pub next_bit :
    PartialMerkleTree → Extraction → Result (Bool × Extraction) MerkleBlockError
next_bit t x = elim (get_elem? t.bits x.bits_used) [
  | none ↦ err bits_array_overflow
  | some b ↦ ok (b, record x { bits_used = x.bits_used + 1 })
]

unfoldable pub next_hash :
    PartialMerkleTree → Extraction → Result (List ℕ × Extraction) MerkleBlockError
next_hash t x = elim (get_elem? t.hashes x.hash_used) [
  | none ↦ err hashes_array_overflow
  | some h ↦ ok (h, record x { hash_used = x.hash_used + 1 })
]

abbrev pub then_ok {ℓ κ} :
    {A : Type ℓ} {B : Type κ}
    → Result A MerkleBlockError
    → (A → Result B MerkleBlockError)
    → Result B MerkleBlockError
then_ok (ok a) f = f a
then_ok (err e) f = err e

-- A leaf that matches is found.
abbrev pub leaf_found : Bool → ℕ → List ℕ × Extraction → List ℕ × Extraction
leaf_found false pos (h, x) = (h, x)
leaf_found true pos (h, x) =
    (h, record x { found = x.found ++ h ∷ []; indexes = x.indexes ++ pos ∷ [] })

-- The tests after the traversal.
unfoldable pub all_consumed :
    PartialMerkleTree → List ℕ × Extraction → Result (List ℕ × Extraction) MerkleBlockError
all_consumed t (root, x) =
    if not ((x.bits_used + 7) % 2 ^ 32 / 8 == (length t.bits % 2 ^ 32 + 7) % 2 ^ 32 / 8)
    then err not_all_bits_consumed
    else if not (x.hash_used == length t.hashes % 2 ^ 32)
    then err not_all_hashes_consumed
    else ok (root, x)

module _ (sha256d : List ℕ → List ℕ) where
  unfoldable pub calc_hash : ℕ → ℕ → ℕ → List (List ℕ) → Option (List ℕ)
  calc_hash num zero pos txids = get_elem? txids pos
  calc_hash num (suc height) pos txids =
      let beyond = calc_hash num height (pos * 2 + 1) txids in
      do
        left ← calc_hash num height (pos * 2) txids
        right ← if ltb (pos * 2 + 1) (calc_tree_width num height) then beyond else some left
        some (node sha256d left right)

  -- The hash of a node below which nothing is explored.
  unfoldable pub store_hash : ℕ → ℕ → List (List ℕ) → PartialMerkleTree → Option PartialMerkleTree
  store_hash height pos txids t = do
    hash ← calc_hash t.num_transactions height pos txids
    some (push_hash t hash)

  unfoldable pub traverse_and_build :
      ℕ → ℕ → List (List ℕ) → List Bool → PartialMerkleTree → Option PartialMerkleTree
  traverse_and_build zero pos txids flags t = do
    b ← is_parent_of_match t.num_transactions 0 pos flags
    store_hash 0 pos txids (push_bit t b)
  traverse_and_build (suc height) pos txids flags t = do
    b ← is_parent_of_match t.num_transactions (suc height) pos flags
    let below = do
      t1 ← traverse_and_build height (pos * 2) txids flags (push_bit t b)
      let right = traverse_and_build height (pos * 2 + 1) txids flags t1
      if ltb (pos * 2 + 1) (calc_tree_width t.num_transactions height) then right else some t1
    if not b then store_hash (suc height) pos txids (push_bit t b) else below

  -- The two assertions, and the traversal from the root.
  unfoldable pub from_txids : List (List ℕ) → List Bool → Option PartialMerkleTree
  from_txids txids flags =
      let num = length txids % 2 ^ 32 in
      if length txids == 0
      then none
      else if not (length txids == length flags)
      then none
      else traverse_and_build (calc_tree_height num) 0 txids flags
          (record { num_transactions = num; bits = []; hashes = [] })

  -- What is left when the left subtree gave `left`, and the right one is still to be read.
  unfoldable pub join_right :
      List ℕ → List ℕ × Extraction → Result (List ℕ × Extraction) MerkleBlockError
  join_right left (right, x) =
      if bytes_eq right left then err identical_hashes_found else ok (node sha256d left right, x)

  unfoldable pub traverse_and_extract :
      PartialMerkleTree → ℕ → ℕ → Extraction → Result (List ℕ × Extraction) MerkleBlockError
  traverse_and_extract t zero pos x =
      then_ok (next_bit t x) λ (b, x1). then_ok (next_hash t x1) λ r. ok (leaf_found b pos r)
  traverse_and_extract t (suc height) pos x = then_ok (next_bit t x) λ (b, x1).
      let below = then_ok (traverse_and_extract t height (pos * 2) x1) λ (left, x2).
        let right = then_ok (traverse_and_extract t height (pos * 2 + 1) x2) (join_right left) in
        if ltb (pos * 2 + 1) (calc_tree_width t.num_transactions height)
        then right
        else ok (node sha256d left left, x2) in
      if not b then next_hash t x1 else below

  -- `PartialMerkleTree::extract_matches`: the root, and the vectors filled.
  unfoldable pub extract_matches : PartialMerkleTree → Result (List ℕ × Extraction) MerkleBlockError
  extract_matches t =
      let start : Extraction = record { bits_used = 0; hash_used = 0; found = []; indexes = [] } in
      if t.num_transactions == 0
      then err no_transactions
      else if ltb max_transactions t.num_transactions
      then err too_many_transactions
      else if ltb t.num_transactions (length t.hashes % 2 ^ 32)
      then err too_many_hashes
      else if ltb (length t.bits) (length t.hashes)
      then err not_enough_bits
      else then_ok (traverse_and_extract t (calc_tree_height t.num_transactions) 0 start)
          (all_consumed t)

  -- `MerkleBlock::extract_matches`.
  unfoldable pub extract_block_matches : MerkleBlock → Result Extraction MerkleBlockError
  extract_block_matches b =
      then_ok (extract_matches b.txn)
        λ (root, x). if bytes_eq root b.header.merkle_root then ok x else err merkle_root_mismatch

  unfoldable pub from_header_txids_with_predicate :
      Header → List (List ℕ) → (List ℕ → Bool) → Option MerkleBlock
  from_header_txids_with_predicate header block_txids match_txids = do
    pmt ← from_txids block_txids (map match_txids block_txids)
    some (record { header = header; txn = pmt })
