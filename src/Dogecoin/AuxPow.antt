-- ===== src/Dogecoin/AuxPow.antt =====
-- bitcoin/src/dogecoin/auxpow.rs: the merged-mining proof and its validation. `sha256d` is the double
-- SHA-256 of the hash library. `none` is a panic: a slice out of range, or a shift of a `u32` by 32
-- bits or more with overflow checks on.
pub mod Search
pub mod Index
pub mod Script
pub mod Merkle
pub mod Valid
use rust_dogecoin.Common.{
  ℕ, suc, ◌+◌, ◌*◌, ◌%◌, ◌^◌, Bool, true, false, ◌&&◌, not, List, [], ◌∷◌, ◌++◌, length, take, drop,
  reverse, Option, none, some, leb, ltb, ◌==◌, if◌then◌else◌, ◌>>=◌,
}
use rust_dogecoin.Common.Bytes.{bytes_eq, from_le_bytes}
use rust_dogecoin.Common.Int.{ℤ, pos, to_word, of_word, shr_ℤ}
use rust_dogecoin.Common.Results.{Result, ok, err}
use rust_dogecoin.Blockdata.Transaction.{Transaction, TxIn, compute_txid}
use rust_dogecoin.Blockdata.Header.{Header, extract_chain_id, ==_ℤ}

pub data AuxPowCoinbaseScriptValidationError : Type 0 where
  missing_merkle_root multiple_headers header_not_adjacent legacy_root_too_far :
      AuxPowCoinbaseScriptValidationError
  missing_merkle_size_and_nonce merkle_size_mismatch invalid_chain_index :
      AuxPowCoinbaseScriptValidationError

pub data AuxPowValidationError : Type 0 where
  aux_pow_not_from_coinbase parent_has_same_chain_id chain_merkle_branch_too_long :
      AuxPowValidationError
  invalid_coinbase_merkle_proof coinbase_has_no_inputs : AuxPowValidationError
  invalid_aux_pow_coinbase_script : AuxPowCoinbaseScriptValidationError → AuxPowValidationError

pub record AuxPow : Type 0 where
  pub coinbase_tx : Transaction
  pub parent_hash : List ℕ
  pub coinbase_branch : List (List ℕ)
  pub coinbase_index : ℤ
  pub blockchain_branch : List (List ℕ)
  pub blockchain_index : ℤ
  pub parent_block_header : Header

abbrev pub merged_mining_header : List ℕ
merged_mining_header = 0xfa ∷ 0xbe ∷ 0x6d ∷ 0x6d ∷ []

-- `slice::windows`: the runs of `n` bytes, in order, for a positive `n`.
unfoldable pub windows : ℕ → List ℕ → List (List ℕ)
windows n [] = []
windows n (x ∷ xs) =
    let rest = windows n xs in if leb n (length (x ∷ xs)) then take n (x ∷ xs) ∷ rest else []

-- `Iterator::position`
unfoldable pub position {ℓ} : {A : Type ℓ} → (A → Bool) → List A → Option ℕ
position f [] = none
position f (x ∷ xs) =
    let rest = position f xs in if f x then some 0 else (do i ← rest; some (suc i))

unfoldable pub find_bytes : List ℕ → List ℕ → Option ℕ
find_bytes haystack [] = some 0
find_bytes haystack (y ∷ ys) =
    position (λ window. bytes_eq window (y ∷ ys)) (windows (length (y ∷ ys)) haystack)

-- `&bytes[start..]`
unfoldable pub slice_from : ℕ → List ℕ → Option (List ℕ)
slice_from start bytes = if leb start (length bytes) then some (drop start bytes) else none

-- `1u32 << height`
unfoldable pub shl_one : Bool → ℕ → Option ℕ
shl_one debug height =
    if ltb height 32 then some (2 ^ height) else if debug then none else some (2 ^ (height % 32))

-- One step of the generator: `wrapping_mul(1103515245).wrapping_add(12345)`.
abbrev pub next_rand : ℕ → ℕ
next_rand rand = (rand * 1103515245 % 2 ^ 32 + 12345) % 2 ^ 32

unfoldable pub get_expected_index : Bool → ℕ → ℤ → ℕ → Option ℤ
get_expected_index debug nonce chain_id merkle_height = do
  size ← shl_one debug merkle_height
  some (of_word 32 (next_rand ((next_rand nonce + to_word 32 chain_id) % 2 ^ 32) % size))

-- What follows the header at `header_pos`: a second header, given where one was found, or the root.
unfoldable pub one_header : ℕ → ℕ → Option ℕ → Option AuxPowCoinbaseScriptValidationError
one_header header_pos root_pos (some _) = some multiple_headers
one_header header_pos root_pos none =
    if header_pos + 4 == root_pos then none else some header_not_adjacent

-- The `match` on the place of the header; the error of it, if any.
unfoldable pub header_place :
    List ℕ → ℕ → Option ℕ → Option (Option AuxPowCoinbaseScriptValidationError)
header_place script root_pos (some header_pos) = do
  rest ← slice_from (header_pos + 4) script
  some (one_header header_pos root_pos (find_bytes rest merged_mining_header))
header_place script root_pos none =
    some (if ltb 20 root_pos then some legacy_root_too_far else none)

-- The size and the nonce behind the root.
unfoldable pub size_and_nonce :
    Bool → AuxPow → ℤ → List ℕ → Option (Result (Unit {0}) AuxPowCoinbaseScriptValidationError)
size_and_nonce debug aux chain_id remaining =
    if ltb (length remaining) 8 then some (err missing_merkle_size_and_nonce) else (do
      size ← shl_one debug (length aux.blockchain_branch)
      if from_le_bytes (take 4 remaining) == size
          then (do
            expected ←
                get_expected_index debug (from_le_bytes (take 4 (drop 4 remaining))) chain_id
                  (length aux.blockchain_branch)
            some (if ==_ℤ aux.blockchain_index expected then ok tt else err invalid_chain_index))
          else some (err merkle_size_mismatch))

-- The rest of the check, after the header's place.
unfoldable pub check_placed :
    Bool
    → AuxPow
    → List ℕ
    → ℤ
    → ℕ
    → Option AuxPowCoinbaseScriptValidationError
    → Option (Result (Unit {0}) AuxPowCoinbaseScriptValidationError)
check_placed debug aux script chain_id root_pos (some e) = some (err e)
check_placed debug aux script chain_id root_pos none = do
  remaining ← slice_from (root_pos + 32) script
  size_and_nonce debug aux chain_id remaining

-- The check, after the search for the root.
unfoldable pub check_root :
    Bool
    → AuxPow
    → List ℕ
    → ℤ
    → Option ℕ
    → Option (Result (Unit {0}) AuxPowCoinbaseScriptValidationError)
check_root debug aux script chain_id none = some (err missing_merkle_root)
check_root debug aux script chain_id (some root_pos) = do
  misplaced ← header_place script root_pos (find_bytes script merged_mining_header)
  check_placed debug aux script chain_id root_pos misplaced

unfoldable pub check_merged_mining_coinbase_script :
    Bool
    → AuxPow
    → List ℕ
    → List ℕ
    → ℤ
    → Option (Result (Unit {0}) AuxPowCoinbaseScriptValidationError)
check_merged_mining_coinbase_script debug aux script root chain_id =
    check_root debug aux script chain_id (find_bytes script root)

-- The first input's script, when there is one.
abbrev pub first_script : List TxIn → Option (List ℕ)
first_script [] = none
first_script (i ∷ is) = some i.script_sig

abbrev pub map_err :
    Result (Unit {0}) AuxPowCoinbaseScriptValidationError → Result (Unit {0}) AuxPowValidationError
map_err (ok x) = ok x
map_err (err e) = err (invalid_aux_pow_coinbase_script e)

-- The check of the first input's script, when there is an input.
unfoldable pub check_first_input :
    Bool → AuxPow → List ℕ → ℤ → Option (List ℕ) → Option (Result (Unit {0}) AuxPowValidationError)
check_first_input debug aux root chain_id none = some (err coinbase_has_no_inputs)
check_first_input debug aux root chain_id (some script) = do
  r ← check_merged_mining_coinbase_script debug aux script root chain_id
  some (map_err r)

module _ (sha256d : List ℕ → List ℕ) where
  unfoldable pub parent_hash : List ℕ → List ℕ → List ℕ
  parent_hash left right = sha256d (left ++ right)

  -- The loop over the branch; the index is shifted down once a level.
  unfoldable pub compute_merkle_root : List ℕ → List (List ℕ) → ℤ → List ℕ
  compute_merkle_root hash [] index = hash
  compute_merkle_root hash (b ∷ bs) index =
      compute_merkle_root
        (if to_word 32 index % 2 == 1 then parent_hash b hash else parent_hash hash b) bs
        (shr_ℤ index 1)

  unfoldable pub check :
      Bool → AuxPow → List ℕ → ℤ → Bool → Option (Result (Unit {0}) AuxPowValidationError)
  check debug aux aux_block_hash chain_id strict_chain_id =
      if not (==_ℤ aux.coinbase_index (pos 0))
      then some (err aux_pow_not_from_coinbase)
      else if strict_chain_id && ==_ℤ (extract_chain_id aux.parent_block_header) chain_id
      then some (err parent_has_same_chain_id)
      else if ltb 30 (length aux.blockchain_branch)
      then some (err chain_merkle_branch_too_long)
      else if not (
          bytes_eq
            (compute_merkle_root (compute_txid sha256d aux.coinbase_tx) aux.coinbase_branch
              aux.coinbase_index)
            aux.parent_block_header.merkle_root)
      then some (err invalid_coinbase_merkle_proof)
      else check_first_input debug aux
          (reverse (compute_merkle_root aux_block_hash aux.blockchain_branch aux.blockchain_index))
          chain_id (first_script aux.coinbase_tx.input)
