-- ===== src/Dogecoin/Examples.antt =====
-- The theorems on bitcoin/src/dogecoin at a small merged-mining proof, with a constant hash function.
use rust_dogecoin.Common.{
  ◌↔◌, ◌*◌, ◌≤◌, suc, map, ℕ, ◌≡◌, ◌⊎◌, refl, arith, ◌^◌, ◌<◌, List, [], ◌∷◌, ◌++◌, true, some,
}
use rust_dogecoin.Common.Int.{pos}
use rust_dogecoin.Common.Bytes.{from_le_bytes}
use rust_dogecoin.Common.Results.{ok, err}
use rust_dogecoin.Pow.Target.{compact}
use rust_dogecoin.Blockdata.Transaction.{Transaction, compute_txid}
use rust_dogecoin.Blockdata.Header.{Header, extract_chain_id, has_auxpow_bit}
use rust_dogecoin.Dogecoin.AuxPow as Proof
use rust_dogecoin.Blockdata.Whole.{IsTransaction}
use rust_dogecoin.Dogecoin.Header.{Block, encode_block, decode_block}
use rust_dogecoin.Merkle.Tree.{tree_root}
use rust_dogecoin.Dogecoin.Root.{block_txids, check_merkle_root, check_merkle_root_lem}
use rust_dogecoin.Dogecoin.Header.RoundTrip.{IsAuxPow, decode_block-encode_block}
use rust_dogecoin.Blockdata.RoundTrip.{IsHeader}
use rust_dogecoin.Dogecoin.AuxPow.{
  AuxPow, AuxPowValidationError, merged_mining_header, find_bytes, check,
  check_merged_mining_coinbase_script, compute_merkle_root, get_expected_index,
}
use rust_dogecoin.Dogecoin.AuxPow.Script.{Decides}
use rust_dogecoin.Dogecoin.AuxPow.Valid.{IsValid, check_lem}
use rust_dogecoin.Dogecoin.AuxPow.Merkle.{compute_merkle_root-binds, Collision}

-- A hash of 32 zero bytes.
abbrev zeros : List ℕ
zeros =
    0 ∷ 0 ∷ 0 ∷ 0 ∷ 0 ∷ 0 ∷ 0 ∷ 0 ∷ 0 ∷ 0 ∷ 0 ∷ 0 ∷ 0 ∷ 0 ∷ 0 ∷ 0 ∷ 0 ∷ 0 ∷ 0 ∷ 0 ∷ 0 ∷ 0 ∷ 0 ∷ 0
    ∷ 0 ∷ 0 ∷ 0 ∷ 0 ∷ 0 ∷ 0 ∷ 0 ∷ 0 ∷ []

abbrev zero_hash : List ℕ → List ℕ
zero_hash x = zeros

-- The header, the root, a tree of one leaf, and a nonce.
abbrev some_script : List ℕ
some_script = 3 ∷ (merged_mining_header ++ (zeros ++ (1 ∷ 0 ∷ 0 ∷ 0 ∷ 7 ∷ 0 ∷ 0 ∷ 0 ∷ [])))

abbrev coinbase : Transaction
coinbase = record {
  version = pos 1;
  lock_time = 0;
  input =
      record {
        previous_output = record { txid = zeros; vout = 0xffff_ffff };
        script_sig = some_script;
        sequence = 0;
        witness = [];
      }
      ∷ [];
  output = [];
}

abbrev parent : Header
parent = record {
  version = pos 2;
  prev_blockhash = zeros;
  merkle_root = zeros;
  time = 0;
  bits = compact 0x1b07a80f;
  nonce = 0;
}

abbrev some_proof : AuxPow
some_proof = record {
  coinbase_tx = coinbase;
  parent_hash = zeros;
  coinbase_branch = [];
  coinbase_index = pos 0;
  blockchain_branch = [];
  blockchain_index = pos 0;
  parent_block_header = parent;
}

-- The proof is accepted.
accepted : check zero_hash true some_proof zeros (pos 98) true ≡ some (ok tt)
unfolding check Proof.check_first_input check_merged_mining_coinbase_script Proof.check_root
    Proof.check_placed Proof.size_and_nonce Proof.header_place Proof.one_header find_bytes
    Proof.position Proof.windows Proof.slice_from Proof.shl_one get_expected_index
    compute_merkle_root compute_txid extract_chain_id from_le_bytes
accepted = refl

check_lem_example :
    Decides {E = AuxPowValidationError}
      (check zero_hash true some_proof zeros (pos 98) true)
      (ok tt)
      err
      (IsValid zero_hash (λ _. refl) some_proof zeros (pos 98) true)
check_lem_example = check_lem zero_hash (λ _. refl) true some_proof zeros (pos 98) true refl

-- Another leaf; the constant hash takes it to the same root, by a collision.
abbrev other : List ℕ
other = map suc zeros

compute_merkle_root-binds_example :
    ((other ≡ zeros) × ((zeros ∷ []) ≡ (zeros ∷ []))) ⊎ Collision zero_hash (λ _. refl)
unfolding compute_merkle_root Proof.parent_hash
compute_merkle_root-binds_example =
    compute_merkle_root-binds zero_hash (λ _. refl) other zeros (zeros ∷ []) (zeros ∷ []) (pos 1)
      refl refl (refl, tt) (refl, tt) refl refl

-- A block whose header says that a proof follows, with one transaction.
abbrev some_block : Block
some_block = record {
  header = record {
    pure_header = record {
      version = pos 0x620102;
      prev_blockhash = zeros;
      merkle_root = zeros;
      time = 5;
      bits = compact 0x1b07a80f;
      nonce = 0;
    };
    aux_pow = some some_proof;
  };
  txdata = coinbase ∷ [];
}

flagged : has_auxpow_bit some_block.header.pure_header ≡ true
unfolding has_auxpow_bit
flagged = refl

coinbase-IsTransaction : IsTransaction coinbase
coinbase-IsTransaction = (
  omega arith,
  (
    omega arith,
    (
      (
        omega arith,
        ((((refl, omega arith), (omega arith, omega arith)), tt), ((omega arith, omega arith), tt)),
      ),
      (omega arith, tt),
    ),
  ),
)

pure-IsHeader : IsHeader some_block.header.pure_header
pure-IsHeader = (omega arith, (refl, (refl, (omega arith, (omega arith, omega arith)))))

parent-IsHeader : IsHeader parent
parent-IsHeader = (omega arith, (refl, (refl, (omega arith, (omega arith, omega arith)))))

some_proof-IsAuxPow : IsAuxPow some_proof
some_proof-IsAuxPow = (
  coinbase-IsTransaction,
  (refl, ((omega arith, tt), (omega arith, ((omega arith, tt), (omega arith, parent-IsHeader))))),
)

decode_block-encode_block_example :
    decode_block (encode_block some_block ++ (9 ∷ [])) ≡ ok (some_block, 9 ∷ [])
decode_block-encode_block_example =
    decode_block-encode_block some_block (9 ∷ []) (pure-IsHeader, (flagged, some_proof-IsAuxPow))
      (omega arith) (coinbase-IsTransaction, tt)

check_merkle_root_lem_example :
    (height : ℕ) × (1 ≤ 2 ^ height)
    × (2 ^ height < 2 * 1)
    × ((check_merkle_root zero_hash some_block ≡ true)
        ↔ (zeros ≡ tree_root zero_hash height (block_txids zero_hash some_block)))
check_merkle_root_lem_example = check_merkle_root_lem zero_hash some_block (omega arith)
