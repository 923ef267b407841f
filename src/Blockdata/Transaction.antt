-- ===== src/Blockdata/Transaction.antt =====
-- bitcoin/src/blockdata/transaction.rs: the data types and the encoding of a transaction. A hash is
-- the list of its 32 bytes, a script the list of its bytes, `lock_time` is its consensus integer,
-- and a witness is the list of its elements.
use rust_dogecoin.Common.{ℕ, List, [], ◌∷◌, ◌++◌, Bool, true, false, ◌||◌, not, if◌then◌else◌}
use rust_dogecoin.Common.Int.{ℤ}
use rust_dogecoin.Consensus.Encode.{
  encode_u8, encode_u32, encode_u64, encode_i32, encode_bytes, encode_vec, concat_map,
}

pub record OutPoint : Type 0 where
  pub txid : List ℕ
  pub vout : ℕ

pub record TxIn : Type 0 where
  pub previous_output : OutPoint
  pub script_sig : List ℕ
  pub sequence : ℕ
  pub witness : List (List ℕ)

pub record TxOut : Type 0 where
  pub value : ℕ
  pub script_pubkey : List ℕ

pub record Transaction : Type 0 where
  pub version : ℤ
  pub lock_time : ℕ
  pub input : List TxIn
  pub output : List TxOut

unfoldable pub encode_out_point : OutPoint → List ℕ
encode_out_point o = o.txid ++ encode_u32 o.vout

unfoldable pub encode_tx_in : TxIn → List ℕ
encode_tx_in i =
    encode_out_point i.previous_output ++ (encode_bytes i.script_sig ++ encode_u32 i.sequence)

unfoldable pub encode_tx_out : TxOut → List ℕ
encode_tx_out o = encode_u64 o.value ++ encode_bytes o.script_pubkey

abbrev pub is_empty {ℓ} : {A : Type ℓ} → List A → Bool
is_empty [] = true
is_empty (x ∷ xs) = false

abbrev pub any_witness : List TxIn → Bool
any_witness [] = false
any_witness (i ∷ is) = not (is_empty i.witness) || any_witness is

unfoldable pub uses_segwit_serialization : Transaction → Bool
uses_segwit_serialization tx = if any_witness tx.input then true else is_empty tx.input

-- A witness: the number of its elements, and each element with its length.
unfoldable pub encode_witness : List (List ℕ) → List ℕ
encode_witness w = encode_vec encode_bytes w

unfoldable pub encode_transaction : Transaction → List ℕ
encode_transaction tx =
    encode_i32 tx.version
    ++ ((if uses_segwit_serialization tx
          then encode_u8 0x00
            ++ (encode_u8 0x01
                ++ (encode_vec encode_tx_in tx.input
                    ++ (encode_vec encode_tx_out tx.output
                        ++ concat_map (λ i. encode_witness i.witness) tx.input)))
          else encode_vec encode_tx_in tx.input ++ encode_vec encode_tx_out tx.output)
        ++ encode_u32 tx.lock_time)

module _ (sha256d : List ℕ → List ℕ) where
  -- The witness-free form, hashed.
  unfoldable pub compute_txid : Transaction → List ℕ
  compute_txid tx = sha256d (
      encode_i32 tx.version
      ++ (encode_vec encode_tx_in tx.input
          ++ (encode_vec encode_tx_out tx.output ++ encode_u32 tx.lock_time)))

  unfoldable pub compute_wtxid : Transaction → List ℕ
  compute_wtxid tx = sha256d (encode_transaction tx)
