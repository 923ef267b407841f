-- ===== src/Merkle/Partial/Examples.antt =====
-- The theorems on Merkle blocks at a block of one transaction, and a partial tree over three leaves hashed
-- by the list of the two hashes' bytes.
use rust_dogecoin.Common.{
  ℕ, ◌≡◌, ◌<◌, ◌≤◌, List, [], ◌∷◌, ◌++◌, Bool, true, false, some, map, length, refl, arith,
}
use rust_dogecoin.Common.Results.{ok, err}
use rust_dogecoin.Common.Int.{pos}
use rust_dogecoin.Blockdata.Header.{Header}
use rust_dogecoin.Pow.Target.{compact}
use rust_dogecoin.Merkle.Tree.{tree_root}
use rust_dogecoin.Common.Bytes.{
  to_le_bytes, from_le_bytes, length-to_le_bytes, bytes_eq, bytes_eq-false,
}
use rust_dogecoin.Merkle.Partial.Steps.{IsDistinct}
use rust_dogecoin.Merkle.{pair_up, level_loop, calculate_root, merkle_root_r}
use rust_dogecoin.Merkle.Partial.{
  PartialMerkleTree, MerkleBlock, max_transactions, Extraction, from_txids, extract_matches,
  extract_block_matches, from_header_txids_with_predicate, traverse_and_build, is_parent_of_match,
  match_loop, calc_hash, store_hash, push_bit, push_hash, calc_tree_width, calc_tree_height,
  height_loop, next_bit, next_hash, traverse_and_extract, join_right, all_consumed,
  identical_hashes_found,
}
use rust_dogecoin.Merkle.Partial.Codec.{encode_merkle_block, decode_merkle_block}
use rust_dogecoin.Merkle.Partial.Shape.{selected, positions}
use rust_dogecoin.Merkle.Partial.Complete.{merkle_block_lem}
use rust_dogecoin.Merkle.Partial.Found.{Paired}
use rust_dogecoin.Merkle.Partial.Sound.{IsProved, extract_block_matches_sound}

-- A hash function of 32 bytes: the first ones, filled up with zeros.
abbrev first_bytes : List ℕ → List ℕ
first_bytes x = to_le_bytes 32 (from_le_bytes x)

abbrev txid : ℕ → List ℕ
txid n = to_le_bytes 32 n

abbrev txids : List (List ℕ)
txids = txid 1 ∷ txid 2 ∷ txid 3 ∷ []

abbrev some_header : List ℕ → Header
some_header root = record {
  version = pos 2;
  prev_blockhash = txid 0;
  merkle_root = root;
  time = 1410566068;
  bits = compact 0x1b07a80f;
  nonce = 7;
}

abbrev is_second : List ℕ → Bool
is_second x = bytes_eq x (txid 2)

first_bytes_size : (x : List ℕ) → length (first_bytes x) ≡ 32
first_bytes_size x = length-to_le_bytes 32 (from_le_bytes x)

txids-IsDistinct : IsDistinct first_bytes (calc_tree_height 3) txids
unfolding calc_tree_height height_loop calc_tree_width tree_root to_le_bytes from_le_bytes
txids-IsDistinct = (
  (tt, λ h. (bytes_eq-false (txid 2) (txid 1) refl, tt)),
  λ h. (bytes_eq-false (txid 3) (txid 1) refl, (tt, λ k. absurd (omega arith))),
)

merkle_block_lem_example :
    (sent : MerkleBlock) × (received : MerkleBlock) × (x : Extraction)
    × (from_header_txids_with_predicate first_bytes (some_header (txid 1)) txids is_second
        ≡ some sent)
    × (decode_merkle_block (encode_merkle_block sent ++ 5 ∷ []) ≡ ok (received, 5 ∷ []))
    × (extract_block_matches first_bytes sent ≡ ok x)
    × (extract_block_matches first_bytes received ≡ ok x)
    × (x.found ≡ selected txids (map is_second txids))
    × (x.indexes ≡ positions 0 (map is_second txids))
unfolding calculate_root pair_up merkle_root_r level_loop to_le_bytes from_le_bytes
merkle_block_lem_example =
    merkle_block_lem first_bytes first_bytes_size (some_header (txid 1)) txids is_second (5 ∷ [])
      (omega arith) refl (omega arith) (omega arith) (omega arith) txids-IsDistinct

abbrev joined : List ℕ → List ℕ
joined x = x

-- The second of three leaves.
abbrev some_tree : PartialMerkleTree
some_tree = record {
  num_transactions = 3;
  bits = true ∷ true ∷ false ∷ true ∷ false ∷ [];
  hashes = (1 ∷ []) ∷ (2 ∷ []) ∷ (3 ∷ 3 ∷ []) ∷ [];
}

abbrev some_block : MerkleBlock
some_block = record { header = some_header (1 ∷ 2 ∷ 3 ∷ 3 ∷ []); txn = some_tree }

abbrev some_extraction : Extraction
some_extraction = record { bits_used = 5; hash_used = 3; found = (2 ∷ []) ∷ []; indexes = 1 ∷ [] }

extracted_second : extract_block_matches joined some_block ≡ ok some_extraction
unfolding extract_block_matches extract_matches traverse_and_extract next_bit next_hash join_right
    all_consumed calc_tree_height height_loop calc_tree_width
extracted_second = refl

built_second :
    from_txids joined ((1 ∷ []) ∷ (2 ∷ []) ∷ (3 ∷ []) ∷ []) (false ∷ true ∷ false ∷ [])
    ≡ some some_tree
unfolding from_txids traverse_and_build is_parent_of_match match_loop calc_hash store_hash push_bit
    push_hash calc_tree_height height_loop calc_tree_width
built_second = refl

extract_block_matches_sound_example :
    (0 < 3)
    × (3 ≤ max_transactions)
    × Paired (IsProved joined 3 (1 ∷ 2 ∷ 3 ∷ 3 ∷ [])) ((2 ∷ []) ∷ []) (1 ∷ [])
extract_block_matches_sound_example =
    extract_block_matches_sound joined some_block some_extraction extracted_second

-- A partial tree of two equal leaves is refused.
refused_twins :
    extract_matches joined (record {
      num_transactions = 2;
      bits = true ∷ true ∷ true ∷ [];
      hashes = (1 ∷ []) ∷ (1 ∷ []) ∷ [];
    })
    ≡ err identical_hashes_found
unfolding extract_matches traverse_and_extract next_bit next_hash join_right all_consumed
    calc_tree_height height_loop calc_tree_width
refused_twins = refl
