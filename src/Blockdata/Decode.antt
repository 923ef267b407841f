-- ===== src/Blockdata/Decode.antt =====
-- The decoders of bitcoin/src/blockdata: transactions (transaction.rs), witnesses (witness.rs) and
-- block headers (block.rs), on a reader that is bounded already.
use rust_dogecoin.Common.{
  ◌-◌, ℕ, zero, suc, ◌+◌, ◌*◌, ◌^◌, List, [], ◌∷◌, ◌&&◌, ◌==◌, leb, ltb, not, if◌then◌else◌,
}
use rust_dogecoin.Common.Int.{ℤ}
use rust_dogecoin.Common.Results.{Result, ok, err}
use rust_dogecoin.Consensus.Encode
use rust_dogecoin.Consensus.Encode.{
  Read, Error, ◌>>=◌, read_slice, read_uint, read_i32, decode_var_int, decode_bytes, decode_vec,
}
use rust_dogecoin.Blockdata.Transaction.{OutPoint, TxIn, TxOut, Transaction, is_empty, any_witness}
use rust_dogecoin.Blockdata.Header.{Header}
use rust_dogecoin.Pow.Target.{compact}

abbrev pub max_vec_size : ℕ
max_vec_size = 4_000_000

unfoldable pub decode_out_point : List ℕ → Read OutPoint
decode_out_point bs = do
  (txid, bs1) ← read_slice 32 bs
  (vout, bs2) ← read_uint 4 bs1
  ok (record { txid = txid; vout = vout }, bs2)

unfoldable pub decode_tx_in : List ℕ → Read TxIn
decode_tx_in bs = do
  (previous, bs1) ← decode_out_point bs
  (script, bs2) ← decode_bytes bs1
  (sequence, bs3) ← read_uint 4 bs2
  ok (
    record { previous_output = previous; script_sig = script; sequence = sequence; witness = [] },
    bs3,
  )

unfoldable pub decode_tx_out : List ℕ → Read TxOut
decode_tx_out bs = do
  (value, bs1) ← read_uint 8 bs
  (script, bs2) ← decode_bytes bs1
  ok (record { value = value; script_pubkey = script }, bs2)

-- The elements of a witness of `count` elements, `n` of them still to read, when those read so far
-- take `used` bytes with their lengths.
unfoldable pub read_witness_elements : ℕ → ℕ → ℕ → List ℕ → Read (List (List ℕ))
read_witness_elements count zero used bs = ok ([], bs)
read_witness_elements count (suc n) used bs = do
  (size, bs1) ← decode_var_int bs
  if leb (2 ^ 64) (4 * count + used + size + Encode.size size)
      then err (Encode.oversized_vector_allocation (2 ^ 64 - 1) max_vec_size)
      else if ltb max_vec_size (used + size + Encode.size size)
      then err (
          Encode.oversized_vector_allocation (4 * count + used + size + Encode.size size)
            max_vec_size)
      else (do
        (x, bs2) ← read_slice size bs1
        (xs, bs3) ← read_witness_elements count n (used + size + Encode.size size) bs2
        ok (x ∷ xs, bs3))

unfoldable pub decode_witness : List ℕ → Read (List (List ℕ))
decode_witness bs = do
  (count, bs1) ← decode_var_int bs
  if ltb max_vec_size count
      then err (Encode.oversized_vector_allocation count max_vec_size)
      else read_witness_elements count count 0 bs1

-- The loop that sets the inputs' witnesses, in order.
unfoldable pub decode_witnesses : List TxIn → List ℕ → Read (List TxIn)
decode_witnesses [] bs = ok ([], bs)
decode_witnesses (i ∷ is) bs = do
  (w, bs1) ← decode_witness bs
  (rest, bs2) ← decode_witnesses is bs1
  ok (
    record {
      previous_output = i.previous_output;
      script_sig = i.script_sig;
      sequence = i.sequence;
      witness = w;
    }
        ∷ rest,
    bs2,
  )

-- The form with marker and flag, after the marker was read as an empty vector.
unfoldable pub decode_segwit : ℤ → List ℕ → Read Transaction
decode_segwit version bs = do
  (flag, bs1) ← read_uint 1 bs
  if flag == 1
      then (do
        (input, bs2) ← decode_vec decode_tx_in bs1
        (output, bs3) ← decode_vec decode_tx_out bs2
        (inputs, bs4) ← decode_witnesses input bs3
        if not (is_empty inputs) && not (any_witness inputs) then err Encode.parse_failed else (do
          (lock_time, bs5) ← read_uint 4 bs4
          ok (
            record { version = version; lock_time = lock_time; input = inputs; output = output },
            bs5,
          )))
      else err (Encode.unsupported_segwit_flag flag)

-- What follows the first vector of inputs.
unfoldable pub decode_rest : ℤ → List TxIn → List ℕ → Read Transaction
decode_rest version [] bs = decode_segwit version bs
decode_rest version (i ∷ is) bs = do
  (output, bs1) ← decode_vec decode_tx_out bs
  (lock_time, bs2) ← read_uint 4 bs1
  ok (record { version = version; lock_time = lock_time; input = i ∷ is; output = output }, bs2)

unfoldable pub decode_transaction : List ℕ → Read Transaction
decode_transaction bs = do
  (version, bs1) ← read_i32 bs
  (input, bs2) ← decode_vec decode_tx_in bs1
  decode_rest version input bs2

unfoldable pub decode_header : List ℕ → Read Header
decode_header bs = do
  (version, bs1) ← read_i32 bs
  (prev, bs2) ← read_slice 32 bs1
  (root, bs3) ← read_slice 32 bs2
  (time, bs4) ← read_uint 4 bs3
  (bits, bs5) ← read_uint 4 bs4
  (nonce, bs6) ← read_uint 4 bs5
  ok (
    record {
      version = version;
      prev_blockhash = prev;
      merkle_root = root;
      time = time;
      bits = compact bits;
      nonce = nonce;
    },
    bs6,
  )

-- `deserialize`: the bytes must be consumed entirely.
unfoldable pub deserialize {ℓ} : {A : Type ℓ} → (List ℕ → Read A) → List ℕ → Result A Error
deserialize f bs = elim (f bs) [
  | ok (x, left) ↦ elim left [ [] ↦ ok x | _ ∷ _ ↦ err Encode.parse_failed ]
  | err e ↦ err e
]
