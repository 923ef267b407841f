-- ===== src/Blockdata/RoundTrip.antt =====
-- Transactions and headers of bitcoin/src/blockdata are read back as they were written.
use rust_dogecoin.Common.{
  ℕ, ◌≡◌, ◌<◌, ◌^◌, List, [], ◌++◌, length, refl, arith, append_assoc, subst,
}
use rust_dogecoin.Common.Int.{ℤ, pos, negsuc, to_word, of_word}
use rust_dogecoin.Common.Bytes.{from_le_bytes-to_le_bytes}
use rust_dogecoin.Common.Results.{ok}
use rust_dogecoin.Consensus.Encode.{
  read_slice, read_uint, read_i32, encode_i32, encode_u32, encode_u64,
}
use rust_dogecoin.Consensus.RoundTrip.{read_slice_append, read_slice-to_le_bytes, read_uint_lem}
use rust_dogecoin.Consensus.Vectors.{decode_bytes-encode_bytes}
use rust_dogecoin.Blockdata.Transaction.{
  OutPoint, TxIn, TxOut, encode_out_point, encode_tx_in, encode_tx_out,
}
use rust_dogecoin.Blockdata.Header.{Header, encode_header}
use rust_dogecoin.Blockdata.Decode.{decode_out_point, decode_tx_in, decode_tx_out, decode_header}

abbrev pub IsI32 : ℤ → Type 0
IsI32 (pos n) = n < 2 ^ 31
IsI32 (negsuc n) = n < 2 ^ 31

signed_word : (v : ℤ) → IsI32 v → (of_word 32 (to_word 32 v) ≡ v) × (to_word 32 v < 256 ^ 4)
signed_word (pos n) h = ground arith
signed_word (negsuc n) h = ground arith

pub read_i32_lem :
    (v : ℤ) (left : List ℕ) → IsI32 v → read_i32 (encode_i32 v ++ left) ≡ ok (v, left)
unfolding read_i32 encode_i32
read_i32_lem v left h =
    rw
      (
        read_slice-to_le_bytes 4 (to_word 32 v) left,
        from_le_bytes-to_le_bytes 4 (to_word 32 v) (signed_word v h).1,
        (signed_word v h).0,
      )
      refl

pub read_u32_lem :
    (v : ℕ) (left : List ℕ) → v < 2 ^ 32 → read_uint 4 (encode_u32 v ++ left) ≡ ok (v, left)
unfolding encode_u32
read_u32_lem v left h = read_uint_lem 4 v left h

read_u64_lem :
    (v : ℕ) (left : List ℕ) → v < 2 ^ 64 → read_uint 8 (encode_u64 v ++ left) ≡ ok (v, left)
unfolding encode_u64
read_u64_lem v left h = read_uint_lem 8 v left h

pub read_hash : (xs left : List ℕ) → length xs ≡ 32 → read_slice 32 (xs ++ left) ≡ ok (xs, left)
read_hash xs left h =
    subst (λ n. read_slice n (xs ++ left) ≡ ok (xs, left)) h (read_slice_append xs left)

abbrev pub IsHeader : Header → Type 0
IsHeader h =
    IsI32 h.version
    × ((length h.prev_blockhash ≡ 32)
        × ((length h.merkle_root ≡ 32)
            × ((h.time < 2 ^ 32) × ((h.bits.consensus < 2 ^ 32) × (h.nonce < 2 ^ 32)))))

-- A header whose fields fit their types is read back as it was written, and the bytes that follow
-- are left.
pub decode_header-encode_header :
    (h : Header) (left : List ℕ)
    → IsHeader h
    → decode_header (encode_header h ++ left) ≡ ok (h, left)
unfolding decode_header encode_header
decode_header-encode_header h left (a, (b, (c, (d, (e, f))))) =
    simp
      (
        append_assoc,
        (λ (end : List ℕ). read_i32_lem h.version end a),
        (λ (end : List ℕ). read_hash h.prev_blockhash end b),
        (λ (end : List ℕ). read_hash h.merkle_root end c),
        (λ (end : List ℕ). read_u32_lem h.time end d),
        (λ (end : List ℕ). read_u32_lem h.bits.consensus end e),
        (λ (end : List ℕ). read_u32_lem h.nonce end f),
      )
      refl

abbrev pub IsOutPoint : OutPoint → Type 0
IsOutPoint o = (length o.txid ≡ 32) × (o.vout < 2 ^ 32)

decode_out_point_lem :
    (o : OutPoint) (left : List ℕ)
    → IsOutPoint o
    → decode_out_point (encode_out_point o ++ left) ≡ ok (o, left)
unfolding decode_out_point encode_out_point
decode_out_point_lem o left (a, b) =
    simp
      (
        append_assoc,
        (λ (end : List ℕ). read_hash o.txid end a),
        (λ (end : List ℕ). read_u32_lem o.vout end b),
      )
      refl

abbrev pub IsTxIn : TxIn → Type 0
IsTxIn i = IsOutPoint i.previous_output × ((length i.script_sig < 2 ^ 64) × (i.sequence < 2 ^ 32))

-- The input without its witness.
abbrev pub no_witness : TxIn → TxIn
no_witness i = record {
  previous_output = i.previous_output;
  script_sig = i.script_sig;
  sequence = i.sequence;
  witness = [];
}

pub decode_tx_in_lem :
    (i : TxIn) (left : List ℕ)
    → IsTxIn i
    → decode_tx_in (encode_tx_in i ++ left) ≡ ok (no_witness i, left)
unfolding decode_tx_in encode_tx_in
decode_tx_in_lem i left (a, (b, c)) =
    simp
      (
        append_assoc,
        (λ (end : List ℕ). decode_out_point_lem i.previous_output end a),
        (λ (end : List ℕ). decode_bytes-encode_bytes i.script_sig end b),
        (λ (end : List ℕ). read_u32_lem i.sequence end c),
      )
      refl

abbrev pub IsTxOut : TxOut → Type 0
IsTxOut o = (o.value < 2 ^ 64) × (length o.script_pubkey < 2 ^ 64)

pub decode_tx_out_lem :
    (o : TxOut) (left : List ℕ) → IsTxOut o → decode_tx_out (encode_tx_out o ++ left) ≡ ok (o, left)
unfolding decode_tx_out encode_tx_out
decode_tx_out_lem o left (a, b) =
    simp
      (
        append_assoc,
        (λ (end : List ℕ). read_u64_lem o.value end a),
        (λ (end : List ℕ). decode_bytes-encode_bytes o.script_pubkey end b),
      )
      refl
