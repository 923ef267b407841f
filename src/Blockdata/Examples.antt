-- ===== src/Blockdata/Examples.antt =====
-- The theorems on transactions and headers at values.
use rust_dogecoin.Common.{
  ◌-◌, ℕ, ◌≡◌, ◌≢◌, ◌⊎◌, ◌↔◌, refl, arith, ◌^◌, ◌<◌, ◌≤◌, List, [], ◌∷◌, ◌++◌, All, true,
}
use rust_dogecoin.Common.Int.{pos}
use rust_dogecoin.Common.Bytes.{IsByte, from_le_bytes}
use rust_dogecoin.Common.Results.{ok, err}
use rust_dogecoin.Pow.U256.{value}
use rust_dogecoin.Pow.Target.{compact, target, from_compact}
use rust_dogecoin.Pow.U256.{u256}
use rust_dogecoin.Common.{◌*◌, ◌+◌, ◌>>=◌, some, map, take, drop, length}
use rust_dogecoin.Common.Bytes.{to_le_bytes}
use rust_dogecoin.Blockdata.Transaction.{
  compute_wtxid, Transaction, TxIn, TxOut, encode_transaction,
}
use rust_dogecoin.Consensus.Encode
use rust_dogecoin.Blockdata.Block as Blocks
use rust_dogecoin.Blockdata.Block.{check_witness_commitment}
use rust_dogecoin.Blockdata.Commitment.{check_witness_commitment_lem}
use rust_dogecoin.Blockdata.Height.{bip34_block_height, bip34_block_height_lem}
use rust_dogecoin.Blockdata.Sizes.{weight, vsize}
use rust_dogecoin.Blockdata.Weights.{stripped, weight_lem, block_weight_lem}
use rust_dogecoin.Blockdata.Witness.{push_slice, from_slice, to_vec, nth}
use rust_dogecoin.Blockdata.Witness.Layout.{layout, elements}
use rust_dogecoin.Blockdata.Witness.Push.{push_slice-layout}
use rust_dogecoin.Blockdata.Witness.Lookup.{nth-layout, to_vec-from_slice}
use rust_dogecoin.Blockdata.LockTime.Relative as Relative
use rust_dogecoin.Blockdata.LockTime.Laws.{relative_implied, from_seconds_ceil_lem}
use rust_dogecoin.Merkle.Tree.{tree_root}
use rust_dogecoin.Script.Instructions.{push_int, push_int_non_minimal, push_header}
use rust_dogecoin.Script.Instructions as Scripts
use rust_dogecoin.Script.Integers.{write_scriptint, write_loop, write_last, unsigned_abs}
use rust_dogecoin.Consensus.Encode.{encode_vec}
use rust_dogecoin.Blockdata.Header
use rust_dogecoin.Blockdata.Header.{
  Header, encode_header, validate_pow, block_hash, has_auxpow_bit, extract_chain_id,
  extract_base_version, is_legacy,
}
use rust_dogecoin.Blockdata.Decode.{decode_transaction}
use rust_dogecoin.Blockdata.Whole.{witness_size, decode_transaction-encode_transaction}
use rust_dogecoin.Blockdata.ProofOfWork.{validate_pow_lem}

-- A hash of 32 zero bytes.
abbrev zeros : List ℕ
zeros =
    0 ∷ 0 ∷ 0 ∷ 0 ∷ 0 ∷ 0 ∷ 0 ∷ 0 ∷ 0 ∷ 0 ∷ 0 ∷ 0 ∷ 0 ∷ 0 ∷ 0 ∷ 0 ∷ 0 ∷ 0 ∷ 0 ∷ 0 ∷ 0 ∷ 0 ∷ 0 ∷ 0
    ∷ 0 ∷ 0 ∷ 0 ∷ 0 ∷ 0 ∷ 0 ∷ 0 ∷ 0 ∷ []

zeros-IsByte : All IsByte zeros
zeros-IsByte = omega arith

-- Version 0x620102: chain 98, merged mining, base 2.
abbrev some_header : Header
some_header = record {
  version = pos 0x620102;
  prev_blockhash = zeros;
  merkle_root = zeros;
  time = 1410566068;
  bits = compact 0x1b07a80f;
  nonce = 7;
}

abbrev segwit_input : TxIn
segwit_input = record {
  previous_output = record { txid = zeros; vout = 1 };
  script_sig = 0x51 ∷ [];
  sequence = 0xffff_ffff;
  witness = (1 ∷ 2 ∷ []) ∷ [] ∷ [];
}

abbrev some_output : TxOut
some_output = record { value = 5_000_000_000; script_pubkey = 0x51 ∷ [] }

abbrev some_transaction : Transaction
some_transaction = record {
  version = pos 2;
  lock_time = 9;
  input = segwit_input ∷ [];
  output = some_output ∷ [];
}

size_small : witness_size segwit_input.witness ≤ 4_000_000
unfolding Encode.size
size_small = omega arith

decode_transaction-encode_transaction_example :
    decode_transaction (encode_transaction some_transaction ++ (3 ∷ []))
    ≡ ok (some_transaction, 3 ∷ [])
decode_transaction-encode_transaction_example =
    decode_transaction-encode_transaction some_transaction (3 ∷ []) (
      omega arith,
      (
        omega arith,
        (
          (
            omega arith,
            (
              (((refl, omega arith), (omega arith, omega arith)), tt),
              ((omega arith, size_small), tt),
            ),
          ),
          (omega arith, ((omega arith, omega arith), tt)),
        ),
      ),
    )

abbrev zero_hash : List ℕ → List ℕ
zero_hash x = zeros

validate_pow_lem_example :
    ((validate_pow zero_hash some_header (target (u256 0 1))
        ≡ ok (block_hash zero_hash some_header))
      × ((from_compact some_header.bits ≡ target (u256 0 1))
          × (from_le_bytes (block_hash zero_hash some_header) ≤ value (u256 0 1))))
    ⊎ (((validate_pow zero_hash some_header (target (u256 0 1)) ≡ err Header.bad_target)
          × (from_compact some_header.bits ≢ target (u256 0 1)))
        ⊎ ((validate_pow zero_hash some_header (target (u256 0 1)) ≡ err Header.bad_proof_of_work)
            × ((from_compact some_header.bits ≡ target (u256 0 1))
                × (value (u256 0 1) < from_le_bytes (block_hash zero_hash some_header)))))
validate_pow_lem_example =
    validate_pow_lem zero_hash some_header (target (u256 0 1)) (omega arith)
      (λ x. (zeros-IsByte, refl))

weight_lem_example :
    (weight some_transaction
      ≡ 3 * length (stripped some_transaction) + length (encode_transaction some_transaction))
    × (weight some_transaction ≤ 4 * vsize some_transaction)
    × (4 * vsize some_transaction < weight some_transaction + 4)
weight_lem_example = weight_lem some_transaction (refl, tt)

abbrev two_transactions : Blocks.Block
two_transactions = record {
  header = some_header;
  txdata = some_transaction ∷ some_transaction ∷ [];
}

block_weight_lem_example :
    (Blocks.total_size two_transactions ≡ length (Blocks.encode_block two_transactions))
    × (Blocks.weight two_transactions
        ≡ 3 * Blocks.base_size two_transactions + length (Blocks.encode_block two_transactions))
    × (Blocks.base_size two_transactions
        ≡ length (encode_header some_header ++ encode_vec stripped two_transactions.txdata))
block_weight_lem_example =
    block_weight_lem two_transactions (refl, refl) ((refl, tt), ((refl, tt), tt))

-- A commitment output over a block with one more transaction.
abbrev committed : TxOut
committed = record { value = 0; script_pubkey = Blocks.commitment_magic ++ zeros }

is_null-null : Blocks.is_null Blocks.null ≡ true
unfolding Blocks.is_null
is_null-null = refl

check_witness_commitment_lem_example :
    (check_witness_commitment zero_hash (record {
      header = some_header;
      txdata =
          record {
            version = pos 1;
            lock_time = 0;
            input =
                record {
                  previous_output = Blocks.null;
                  script_sig = 0x51 ∷ [];
                  sequence = 0;
                  witness = zeros ∷ [];
                }
                ∷ [];
            output = (some_output ∷ []) ++ committed ∷ [];
          }
          ∷ some_transaction
          ∷ [];
    })
      ≡ true)
    ↔ (take 32 (drop 6 committed.script_pubkey)
        ≡ zero_hash (
            tree_root zero_hash 1
              (Blocks.all_zeros ∷ map (compute_wtxid zero_hash) (some_transaction ∷ []))
            ++ zeros))
check_witness_commitment_lem_example =
    check_witness_commitment_lem zero_hash 1 some_header (pos 1) 0 0 Blocks.null (0x51 ∷ []) zeros
      (some_output ∷ []) [] committed (some_transaction ∷ []) (omega arith) (omega arith)
      is_null-null refl refl tt

few : length (elements ((1 ∷ []) ∷ [])) < 2 ^ 32
unfolding Encode.encode_bytes Encode.encode_var_int Encode.encode_u8 to_le_bytes
few = omega arith

push_slice-layout_example :
    push_slice (layout ((1 ∷ []) ∷ [])) (2 ∷ 3 ∷ []) ≡ some (layout ((1 ∷ []) ∷ (2 ∷ 3 ∷ []) ∷ []))
push_slice-layout_example = push_slice-layout ((1 ∷ []) ∷ []) (2 ∷ 3 ∷ []) few

nth-layout_example :
    (nth (layout ((1 ∷ []) ∷ [])) 0 ≡ some (some (1 ∷ [])))
    × (nth (layout ((1 ∷ []) ∷ [])) (0 + 2 ^ 62) ≡ some (some (1 ∷ [])))
nth-layout_example = nth-layout ((1 ∷ []) ∷ []) 0 few (omega arith)

to_vec-from_slice_example : (from_slice ((1 ∷ []) ∷ []) >>= (λ w. to_vec w)) ≡ some ((1 ∷ []) ∷ [])
to_vec-from_slice_example = to_vec-from_slice ((1 ∷ []) ∷ []) few

thousand : push_int [] (pos 1000) ≡ some (2 ∷ 0xe8 ∷ 3 ∷ [])
unfolding push_int push_int_non_minimal Scripts.push_slice push_header write_scriptint write_loop
    write_last unsigned_abs
thousand = refl

-- The height 1000, pushed as two bytes.
bip34_block_height_lem_example :
    bip34_block_height (record {
      header = some_header;
      txdata =
          record {
            version = pos 1;
            lock_time = 0;
            input =
                record {
                  previous_output = Blocks.null;
                  script_sig = (2 ∷ 0xe8 ∷ 3 ∷ []) ++ (0x51 ∷ []);
                  sequence = 0;
                  witness = [];
                }
                ∷ [];
            output = [];
          }
          ∷ [];
    })
    ≡ ok 1000
bip34_block_height_lem_example =
    bip34_block_height_lem some_header (pos 1) 0 0 Blocks.null (2 ∷ 0xe8 ∷ 3 ∷ []) (0x51 ∷ []) [] []
      [] [] 1000 refl (omega arith) (omega arith) thousand

relative_implied_example :
    (Relative.is_implied_by (Relative.blocks 3) (Relative.blocks 5) ≡ true) ↔ (
      (Relative.is_same_unit (Relative.blocks 3) (Relative.blocks 5) ≡ true)
      × ((height time : ℕ)
          → height < 2 ^ 16
          → time < 2 ^ 16
          → Relative.is_satisfied_by (Relative.blocks 5) height time ≡ true
          → Relative.is_satisfied_by (Relative.blocks 3) height time ≡ true))
relative_implied_example = relative_implied (Relative.blocks 3) (Relative.blocks 5) (omega arith)

three_five : Relative.is_implied_by (Relative.blocks 3) (Relative.blocks 5) ≡ true
unfolding Relative.is_implied_by
three_five = refl

from_seconds_ceil_lem_example :
    ((n : ℕ) × (Relative.from_seconds_ceil 513 ≡ ok n)
      × (n < 2 ^ 16)
      × (513 ≤ 512 * n)
      × (512 * n < 513 + 512))
    ⊎ (((Relative.from_seconds_ceil 513 ≡ err (Relative.time_overflow 513))
          × (512 * 65535 < 513)
          × (513 < 2 ^ 32 - 511))
        ⊎ ((Relative.from_seconds_ceil 513 ≡ ok 0) × (2 ^ 32 - 511 ≤ 513)))
from_seconds_ceil_lem_example = from_seconds_ceil_lem 513 (omega arith)
