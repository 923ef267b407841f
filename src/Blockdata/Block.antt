-- ===== src/Blockdata/Block.antt =====
-- bitcoin/src/blockdata/block.rs: the block, its Merkle roots, its witness commitment and its sizes, and
-- what these ask of a transaction in transaction.rs.
use rust_dogecoin.Common.{
  ℕ, ◌+◌, ◌*◌, List, [], ◌∷◌, ◌++◌, Option, none, some, Bool, true, false, not, ◌&&◌, ◌||◌, length,
  map, take, drop, ◌==◌, leb, if◌then◌else◌,
}
use rust_dogecoin.Common.Bytes.{bytes_eq}
use rust_dogecoin.Consensus.Encode.{size, encode_vec}
use rust_dogecoin.Blockdata.Transaction.{
  OutPoint, TxIn, TxOut, Transaction, encode_transaction, any_witness, compute_txid, compute_wtxid,
}
use rust_dogecoin.Blockdata.Header.{Header, encode_header}
use rust_dogecoin.Blockdata.Sizes as Sizes
use rust_dogecoin.Blockdata.Sizes.{sum_map}
use rust_dogecoin.Merkle.{calculate_root}

pub record Block : Type 0 where
  pub header : Header
  pub txdata : List Transaction

unfoldable pub encode_block : Block → List ℕ
encode_block b = encode_header b.header ++ encode_vec encode_transaction b.txdata

abbrev pub all_zeros : List ℕ
all_zeros =
    0 ∷ 0 ∷ 0 ∷ 0 ∷ 0 ∷ 0 ∷ 0 ∷ 0 ∷ 0 ∷ 0 ∷ 0 ∷ 0 ∷ 0 ∷ 0 ∷ 0 ∷ 0 ∷ 0 ∷ 0 ∷ 0 ∷ 0 ∷ 0 ∷ 0 ∷ 0 ∷ 0
    ∷ 0 ∷ 0 ∷ 0 ∷ 0 ∷ 0 ∷ 0 ∷ 0 ∷ 0 ∷ []

abbrev pub null : OutPoint
null = record { txid = all_zeros; vout = 0xffff_ffff }

unfoldable pub is_null : OutPoint → Bool
is_null o = bytes_eq o.txid null.txid && (o.vout == null.vout)

-- Exactly one input, with the null output point.
unfoldable pub is_coinbase_input : List TxIn → Bool
is_coinbase_input [] = false
is_coinbase_input (i ∷ []) = is_null i.previous_output
is_coinbase_input (i ∷ j ∷ is) = false

unfoldable pub is_coinbase : Transaction → Bool
is_coinbase tx = is_coinbase_input tx.input

unfoldable pub coinbase : Block → Option Transaction
coinbase b = first b.txdata
  where
    first : List Transaction → Option Transaction
    first [] = none
    first (tx ∷ txs) = some tx

-- A match on the computed root.
unfoldable pub equals_root : List ℕ → Option (List ℕ) → Bool
equals_root root (some computed) = bytes_eq root computed
equals_root root none = false

abbrev pub any_segwit : List Transaction → Bool
any_segwit [] = false
any_segwit (tx ∷ txs) = any_witness tx.input || any_segwit txs

abbrev pub commitment_magic : List ℕ
commitment_magic = 0x6a ∷ 0x24 ∷ 0xaa ∷ 0x21 ∷ 0xa9 ∷ 0xed ∷ []

abbrev pub is_commitment : TxOut → Bool
is_commitment o =
    leb 38 (length o.script_pubkey) && bytes_eq (take 6 o.script_pubkey) commitment_magic

-- The output that `rposition` finds: the last one that begins like a commitment.
unfoldable pub last_commitment : List TxOut → Option TxOut
last_commitment [] = none
last_commitment (o ∷ os) = or_else (last_commitment os)
  where
    or_else : Option TxOut → Option TxOut
    or_else (some later) = some later
    or_else none = if is_commitment o then some o else none

-- The only element of the first input's witness, if it has 32 bytes.
unfoldable pub reserved_value : List TxIn → Option (List ℕ)
reserved_value [] = none
reserved_value (i ∷ is) = only i.witness
  where
    only : List (List ℕ) → Option (List ℕ)
    only [] = none
    only (v ∷ []) = if length v == 32 then some v else none
    only (v ∷ w ∷ vs) = none

-- The sum of the header's 80 bytes, the count and the transactions.
unfoldable pub base_size : Block → ℕ
base_size b = 80 + size (length b.txdata) + sum_map Sizes.base_size b.txdata

unfoldable pub total_size : Block → ℕ
total_size b = 80 + size (length b.txdata) + sum_map Sizes.total_size b.txdata

unfoldable pub weight : Block → ℕ
weight b = base_size b * 3 + total_size b

module _ (sha256d : List ℕ → List ℕ) where
  unfoldable pub compute_merkle_root : Block → Option (List ℕ)
  compute_merkle_root b = calculate_root sha256d (map (compute_txid sha256d) b.txdata)

  unfoldable pub check_merkle_root : Block → Bool
  check_merkle_root b = equals_root b.header.merkle_root (compute_merkle_root b)

  -- The first hash is replaced with zeros.
  unfoldable pub witness_hashes : List Transaction → List (List ℕ)
  witness_hashes [] = []
  witness_hashes (tx ∷ txs) = all_zeros ∷ map (compute_wtxid sha256d) txs

  unfoldable pub witness_root : Block → Option (List ℕ)
  witness_root b = calculate_root sha256d (witness_hashes b.txdata)

  unfoldable pub compute_witness_commitment : List ℕ → List ℕ → List ℕ
  compute_witness_commitment root reserved = sha256d (root ++ reserved)

  -- The commitment of an output against the root and the reserved value.
  unfoldable pub check_output : Option TxOut → Option (List ℕ) → Option (List ℕ) → Bool
  check_output none reserved root = false
  check_output (some o) none root = false
  check_output (some o) (some reserved) none = false
  check_output (some o) (some reserved) (some root) =
      bytes_eq (take 32 (drop 6 o.script_pubkey)) (compute_witness_commitment root reserved)

  unfoldable pub check_coinbase : Option Transaction → Option (List ℕ) → Bool
  check_coinbase none root = false
  check_coinbase (some cb) root =
      if not (is_coinbase cb)
      then false
      else check_output (last_commitment cb.output) (reserved_value cb.input) root

  unfoldable pub check_witness_commitment : Block → Bool
  check_witness_commitment b =
      if not (any_segwit b.txdata) then true else check_coinbase (coinbase b) (witness_root b)
