-- ===== src/Blockdata/Whole.antt =====
-- A whole transaction of bitcoin/src/blockdata/transaction.rs, with or without witnesses, is read
-- back as it was written.
use rust_dogecoin.Common.{
  inr, inl, Bool-cases, length-map, ℕ, ◌≡◌, ◌<◌, ◌≤◌, ◌+◌, ◌*◌, ◌^◌, List, [], ◌∷◌, ◌++◌, map, true,
  false, length, refl, arith, All, append_assoc, ap, sym, subst, ltb, leb, ◌&&◌, ◌||◌, not,
}
use rust_dogecoin.Common.Results.{ok}
use rust_dogecoin.Consensus.Encode
use rust_dogecoin.Consensus.Encode.{
  Read, ◌>>=◌, encode_i32, encode_u32, encode_u8, encode_bytes, encode_vec, concat_map, decode_vec,
  read_slice,
}
use rust_dogecoin.Consensus.RoundTrip.{
  read_slice_append, read_uint_lem, decode_var_int-encode_var_int,
}
use rust_dogecoin.Consensus.Vectors.{IsReadBack, decode_vec-encode_vec}
use rust_dogecoin.Blockdata.Transaction.{
  TxIn, TxOut, Transaction, encode_tx_in, encode_tx_out, encode_witness, encode_transaction,
  uses_segwit_serialization, any_witness, is_empty,
}
use rust_dogecoin.Blockdata.Decode
use rust_dogecoin.Blockdata.Decode.{
  max_vec_size, read_witness_elements, decode_witness, decode_witnesses, decode_tx_in,
  decode_tx_out, decode_transaction,
}
use rust_dogecoin.Blockdata.RoundTrip.{
  IsI32, IsTxIn, IsTxOut, no_witness, read_i32_lem, read_u32_lem, decode_tx_in_lem,
  decode_tx_out_lem,
}

-- The bytes that the elements of a witness take, with their lengths.
abbrev pub witness_size : List (List ℕ) → ℕ
witness_size [] = 0
witness_size (x ∷ xs) = length x + Encode.size (length x) + witness_size xs

abbrev pub IsWitness : List (List ℕ) → Type 0
IsWitness w = (length w ≤ max_vec_size) × (witness_size w ≤ max_vec_size)

elements_lem :
    (count used : ℕ) (w : List (List ℕ)) (left : List ℕ)
    → count ≤ max_vec_size
    → used + witness_size w ≤ max_vec_size
    → read_witness_elements count (length w) used (concat_map encode_bytes w ++ left) ≡ ok (w, left)
unfolding read_witness_elements encode_bytes
elements_lem count used [] left h k = refl
elements_lem count used (x ∷ xs) left h k =
    let a : leb (2 ^ 64) (4 * count + used + length x + Encode.size (length x)) ≡ false =
      ground arith in
    let b : ltb max_vec_size (used + length x + Encode.size (length x)) ≡ false = ground arith in
    simp
      (
        append_assoc,
        (λ (end : List ℕ). decode_var_int-encode_var_int (length x) end (omega arith)),
        a,
        b,
        (λ (end : List ℕ). read_slice_append x end),
        elements_lem count (used + length x + Encode.size (length x)) xs left h (omega arith),
      )
      refl

decode_witness_lem :
    (w : List (List ℕ)) (left : List ℕ)
    → IsWitness w
    → decode_witness (encode_witness w ++ left) ≡ ok (w, left)
unfolding decode_witness encode_witness encode_vec
decode_witness_lem w left (h, k) =
    let a : ltb max_vec_size (length w) ≡ false = ground arith in
    simp
      (
        append_assoc,
        (λ (end : List ℕ). decode_var_int-encode_var_int (length w) end (omega arith)),
        a,
        elements_lem (length w) 0 w left h (omega arith),
      )
      refl

abbrev encode_witnesses : List TxIn → List ℕ
encode_witnesses is = concat_map (λ i. encode_witness i.witness) is

decode_witnesses_lem :
    (is : List TxIn) (left : List ℕ)
    → All (λ i. IsWitness i.witness) is
    → decode_witnesses (map no_witness is) (encode_witnesses is ++ left) ≡ ok (is, left)
unfolding decode_witnesses
decode_witnesses_lem [] left h = refl
decode_witnesses_lem (i ∷ is) left (h, hs) =
    simp
      (
        append_assoc,
        (λ (end : List ℕ). decode_witness_lem i.witness end h),
        decode_witnesses_lem is left hs,
      )
      refl

each_input :
    (is : List TxIn)
    → All IsTxIn is
    → All (IsReadBack decode_tx_in encode_tx_in) (map no_witness is)
each_input [] k = tt
each_input (i ∷ is) (k, ks) = (λ left. decode_tx_in_lem (no_witness i) left k, each_input is ks)

same_inputs :
    (is : List TxIn) → concat_map encode_tx_in (map no_witness is) ≡ concat_map encode_tx_in is
unfolding encode_tx_in
same_inputs [] = refl
same_inputs (i ∷ is) = ap (λ bs. encode_tx_in i ++ bs) (same_inputs is)

same_vector :
    (is : List TxIn) → encode_vec encode_tx_in (map no_witness is) ≡ encode_vec encode_tx_in is
unfolding encode_vec
same_vector is = rw (length-map is no_witness, same_inputs is) refl

-- The inputs, without their witnesses.
inputs_lem :
    (is : List TxIn) (left : List ℕ)
    → length is < 2 ^ 64
    → All IsTxIn is
    → decode_vec decode_tx_in (encode_vec encode_tx_in is ++ left) ≡ ok (map no_witness is, left)
inputs_lem is left h k =
    subst (λ bs. decode_vec decode_tx_in (bs ++ left) ≡ ok (map no_witness is, left))
      (same_vector is)
      (decode_vec-encode_vec decode_tx_in encode_tx_in (map no_witness is) left
        (omega (arith, length-map is no_witness)) (each_input is k))

outputs_lem :
    (os : List TxOut) (left : List ℕ)
    → length os < 2 ^ 64
    → All IsTxOut os
    → decode_vec decode_tx_out (encode_vec encode_tx_out os ++ left) ≡ ok (os, left)
outputs_lem os left h k = decode_vec-encode_vec decode_tx_out encode_tx_out os left h (each os k)
  where
    each : (os : List TxOut) → All IsTxOut os → All (IsReadBack decode_tx_out encode_tx_out) os
    each [] k = tt
    each (o ∷ os) (k, ks) = (λ left. decode_tx_out_lem o left k, each os ks)

-- The marker is read as an empty vector.
marker_lem : (left : List ℕ) → decode_vec decode_tx_in (encode_u8 0 ++ left) ≡ ok ([], left)
unfolding decode_vec Encode.encode_var_int Encode.read_elements
marker_lem left = rw (decode_var_int-encode_var_int 0 left (omega arith)) refl

flag_lem : (left : List ℕ) → Encode.read_uint 1 (encode_u8 1 ++ left) ≡ ok (1, left)
unfolding encode_u8
flag_lem left = read_uint_lem 1 1 left (omega arith)

abbrev pub IsTransaction : Transaction → Type 0
IsTransaction tx =
    IsI32 tx.version
    × ((tx.lock_time < 2 ^ 32)
        × (((length tx.input < 2 ^ 64)
              × (All IsTxIn tx.input × All (λ i. IsWitness i.witness) tx.input))
            × ((length tx.output < 2 ^ 64) × All IsTxOut tx.output)))

segwit_guard :
    (tx : Transaction)
    → uses_segwit_serialization tx ≡ true
    → (not (is_empty tx.input) && not (any_witness tx.input)) ≡ false
unfolding uses_segwit_serialization
segwit_guard tx t = elim (Bool-cases (any_witness tx.input)) [
  | inl e ↦ rw e (elim (Bool-cases (is_empty tx.input)) [ inl f ↦ rw f refl | inr f ↦ rw f refl ])
  | inr e ↦ let f : is_empty tx.input ≡ true = ground arith in rw (e, f) refl
]

-- Inputs without a witness lose nothing.
no_witness_same : (is : List TxIn) → any_witness is ≡ false → map no_witness is ≡ is
no_witness_same [] h = refl
no_witness_same (i ∷ is) h = first i.witness refl (no_witness_same is)
  where
    first :
        (w : List (List ℕ))
        → i.witness ≡ w
        → (any_witness is ≡ false → map no_witness is ≡ is)
        → map no_witness (i ∷ is) ≡ i ∷ is
    first [] e same =
        let tail = same (subst (λ w. (not (is_empty w) || any_witness is) ≡ false) e h) in
        λ j.
          record {
            previous_output = i.previous_output;
            script_sig = i.script_sig;
            sequence = i.sequence;
            witness = sym e j;
          }
          ∷ tail j
    first (x ∷ xs) e same =
        let absurd : true ≡ false = subst (λ w. (not (is_empty w) || any_witness is) ≡ false) e h in
        ground arith

legacy_guard :
    (tx : Transaction)
    → uses_segwit_serialization tx ≡ false
    → (any_witness tx.input ≡ false) × (is_empty tx.input ≡ false)
unfolding uses_segwit_serialization
legacy_guard tx t = ground arith

legacy_rest :
    (tx : Transaction) (is : List TxIn) (left : List ℕ)
    → is_empty is ≡ false
    → tx.lock_time < 2 ^ 32
    → length tx.output < 2 ^ 64
    → All IsTxOut tx.output
    → Decode.decode_rest tx.version is
        (encode_vec encode_tx_out tx.output ++ (encode_u32 tx.lock_time ++ left))
      ≡ ok (
        record { version = tx.version; lock_time = tx.lock_time; input = is; output = tx.output },
        left,
      )
unfolding Decode.decode_rest
legacy_rest tx [] left e b f g = ground arith
legacy_rest tx (i ∷ is) left e b f g =
    simp
      (
        (λ (end : List ℕ). outputs_lem tx.output end f g),
        (λ (end : List ℕ). read_u32_lem tx.lock_time end b),
      )
      refl

segwit_rest :
    (tx : Transaction) (left : List ℕ)
    → IsTransaction tx
    → uses_segwit_serialization tx ≡ true
    → Decode.decode_segwit tx.version (
        encode_u8 1
        ++ (encode_vec encode_tx_in tx.input
            ++ (encode_vec encode_tx_out tx.output
                ++ (encode_witnesses tx.input ++ (encode_u32 tx.lock_time ++ left)))))
      ≡ ok (tx, left)
unfolding Decode.decode_segwit
segwit_rest tx left (a, (b, ((c, (d, e)), (f, g)))) t =
    simp
      (
        flag_lem,
        (λ (end : List ℕ). inputs_lem tx.input end c d),
        (λ (end : List ℕ). outputs_lem tx.output end f g),
        (λ (end : List ℕ). decode_witnesses_lem tx.input end e),
        segwit_guard tx t,
        (λ (end : List ℕ). read_u32_lem tx.lock_time end b),
      )
      refl

-- A transaction whose fields fit their types, and each of whose witnesses has at most 4,000,000
-- elements and takes at most 4,000,000 bytes, is read back as it was written, witnesses included,
-- and the bytes that follow are left.
pub decode_transaction-encode_transaction :
    (tx : Transaction) (left : List ℕ)
    → IsTransaction tx
    → decode_transaction (encode_transaction tx ++ left) ≡ ok (tx, left)
unfolding decode_transaction encode_transaction Decode.decode_rest
decode_transaction-encode_transaction tx left (a, (b, ((c, (d, e)), (f, g)))) =
    elim (Bool-cases (uses_segwit_serialization tx)) [
      | inl t ↦
          simp (t, append_assoc, (λ (end : List ℕ). read_i32_lem tx.version end a), marker_lem)
            (segwit_rest tx left (a, (b, ((c, (d, e)), (f, g)))) t)
      | inr t ↦
          simp
            (
              t,
              append_assoc,
              (λ (end : List ℕ). read_i32_lem tx.version end a),
              (λ (end : List ℕ). inputs_lem tx.input end c d),
              no_witness_same tx.input (legacy_guard tx t).0,
            )
            (legacy_rest tx tx.input left (legacy_guard tx t).1 b f g)
    ]
