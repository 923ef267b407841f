-- ===== src/Blockdata/Weights.antt =====
-- The sizes of bitcoin/src/blockdata/transaction.rs are the lengths of the encodings.
use rust_dogecoin.Common.{
  sym, ◌<◌, ◌≤◌, All, ℕ, ◌≡◌, ◌+◌, ◌*◌, List, [], ◌∷◌, ◌++◌, length, length-append, arith, refl,
  Bool-cases, inl, inr,
}
use rust_dogecoin.Common.Int.{to_word}
use rust_dogecoin.Common.Bytes.{to_le_bytes, length-to_le_bytes}
use rust_dogecoin.Consensus.Encode.{
  size, encode_var_int, encode_bytes, encode_vec, concat_map, encode_u8, encode_u32, encode_u64,
  encode_i32,
}
use rust_dogecoin.Consensus.RoundTrip.{length-encode_var_int}
use rust_dogecoin.Blockdata.Transaction.{
  TxIn, TxOut, Transaction, uses_segwit_serialization, encode_tx_in, encode_tx_out,
  encode_out_point, encode_witness, encode_transaction,
}
use rust_dogecoin.Blockdata.Header.{Header, encode_header}
use rust_dogecoin.Blockdata.Block as Block
use rust_dogecoin.Blockdata.Sizes.{
  vsize, sum_map, tx_in_base_size, tx_in_total_size, tx_out_size, witness_total_size, base_size,
  total_size, weight,
}

All-always {ℓ κ} : {A : Type ℓ} {P : A → Type κ} → ((x : A) → P x) → (xs : List A) → All P xs
All-always h [] = tt
All-always h (x ∷ xs) = (h x, All-always h xs)

All-mono {ℓ κ μ} :
    {A : Type ℓ} (P : A → Type κ) (Q : A → Type μ) (xs : List A)
    → ((x : A) → P x → Q x)
    → All P xs
    → All Q xs
All-mono P Q [] f h = tt
All-mono P Q (x ∷ xs) f (h, hs) = (f x h, All-mono P Q xs f hs)

-- Encoders whose lengths a function tells have such sums.
length-concat_map {ℓ} :
    {A : Type ℓ} (f : A → List ℕ) (g : A → ℕ) (xs : List A)
    → All (λ x. length (f x) ≡ g x) xs
    → length (concat_map f xs) ≡ sum_map g xs
length-concat_map f g [] h = refl
length-concat_map f g (x ∷ xs) (h, hs) =
    omega (arith, length-append (f x) (concat_map f xs), h, length-concat_map f g xs hs)

length-encode_vec {ℓ} :
    {A : Type ℓ} (f : A → List ℕ) (g : A → ℕ) (xs : List A)
    → All (λ x. length (f x) ≡ g x) xs
    → length (encode_vec f xs) ≡ size (length xs) + sum_map g xs
unfolding encode_vec
length-encode_vec f g xs h = omega (
  arith,
  length-append (encode_var_int (length xs)) (concat_map f xs),
  length-encode_var_int (length xs),
  length-concat_map f g xs h,
)

length-encode_bytes : (bs : List ℕ) → length (encode_bytes bs) ≡ size (length bs) + length bs
unfolding encode_bytes
length-encode_bytes bs =
    omega (arith, length-append (encode_var_int (length bs)) bs, length-encode_var_int (length bs))

length-encode_witness : (w : List (List ℕ)) → length (encode_witness w) ≡ witness_total_size w
unfolding encode_witness witness_total_size
length-encode_witness w = length-encode_vec encode_bytes _ w (All-always length-encode_bytes w)

length-encode_tx_out : (o : TxOut) → length (encode_tx_out o) ≡ tx_out_size o
unfolding encode_tx_out tx_out_size encode_u64
length-encode_tx_out o = omega (
  arith,
  length-append (encode_u64 o.value) (encode_bytes o.script_pubkey),
  length-to_le_bytes 8 o.value,
  length-encode_bytes o.script_pubkey,
)

-- The transaction an input spends from is named by 32 bytes.
abbrev pub HasTxid : TxIn → Type 0
HasTxid i = length i.previous_output.txid ≡ 32

length-encode_tx_in : (i : TxIn) → HasTxid i → length (encode_tx_in i) ≡ tx_in_base_size i
unfolding encode_tx_in tx_in_base_size encode_out_point encode_u32
length-encode_tx_in i h = omega (
  arith,
  length-append (encode_out_point i.previous_output)
      (encode_bytes i.script_sig ++ to_le_bytes 4 i.sequence),
  length-append i.previous_output.txid (to_le_bytes 4 i.previous_output.vout),
  length-append (encode_bytes i.script_sig) (to_le_bytes 4 i.sequence),
  length-to_le_bytes 4 i.previous_output.vout,
  length-to_le_bytes 4 i.sequence,
  length-encode_bytes i.script_sig,
)

length-inputs :
    (is : List TxIn)
    → All HasTxid is
    → length (encode_vec encode_tx_in is) ≡ size (length is) + sum_map tx_in_base_size is
length-inputs is h =
    length-encode_vec encode_tx_in tx_in_base_size is (All-mono HasTxid _ is length-encode_tx_in h)

length-outputs :
    (os : List TxOut)
    → length (encode_vec encode_tx_out os) ≡ size (length os) + sum_map tx_out_size os
length-outputs os =
    length-encode_vec encode_tx_out tx_out_size os (All-always length-encode_tx_out os)

-- The witnesses come after the outputs, and are counted with the inputs.
length-witnesses :
    (is : List TxIn)
    → length (concat_map (λ (i : TxIn). encode_witness i.witness) is) + sum_map tx_in_base_size is
      ≡ sum_map tx_in_total_size is
unfolding tx_in_total_size
length-witnesses [] = refl
length-witnesses (i ∷ is) = omega (
  arith,
  length-append (encode_witness i.witness) (concat_map (λ (j : TxIn). encode_witness j.witness) is),
  length-encode_witness i.witness,
  length-witnesses is,
)

-- The encoding without the witnesses, which `compute_txid` hashes.
unfoldable pub stripped : Transaction → List ℕ
stripped tx =
    encode_i32 tx.version
    ++ (encode_vec encode_tx_in tx.input
        ++ (encode_vec encode_tx_out tx.output ++ encode_u32 tx.lock_time))

pub base_size_lem : (tx : Transaction) → All HasTxid tx.input → base_size tx ≡ length (stripped tx)
unfolding base_size stripped encode_i32 encode_u32
base_size_lem tx h = simp length-append (
    omega (
      arith,
      length-to_le_bytes 4 (to_word 32 tx.version),
      length-to_le_bytes 4 tx.lock_time,
      length-to_le_bytes 1 0,
      length-to_le_bytes 1 1,
      length-inputs tx.input h,
      length-outputs tx.output,
    ))

pub total_size_lem :
    (tx : Transaction) → All HasTxid tx.input → total_size tx ≡ length (encode_transaction tx)
unfolding total_size encode_transaction encode_i32 encode_u32 encode_u8
total_size_lem tx h = elim (Bool-cases (uses_segwit_serialization tx)) [
  | inl segwit ↦ rw segwit (
      simp length-append (
        omega (
          arith,
          length-to_le_bytes 4 (to_word 32 tx.version),
          length-to_le_bytes 4 tx.lock_time,
          length-to_le_bytes 1 0,
          length-to_le_bytes 1 1,
          length-inputs tx.input h,
          length-outputs tx.output,
          length-witnesses tx.input,
        )))
  | inr legacy ↦ rw legacy (
      simp length-append (
        omega (
          arith,
          length-to_le_bytes 4 (to_word 32 tx.version),
          length-to_le_bytes 4 tx.lock_time,
          length-to_le_bytes 1 0,
          length-to_le_bytes 1 1,
          length-inputs tx.input h,
          length-outputs tx.output,
        )))
]

-- For a transaction whose inputs name 32-byte transaction identifiers, the weight is three times
-- the length of the encoding without witnesses plus the length of the encoding, without inputs too,
-- and the virtual size is a quarter of the weight, rounded up.
pub weight_lem :
    (tx : Transaction)
    → All HasTxid tx.input
    → (weight tx ≡ 3 * length (stripped tx) + length (encode_transaction tx))
      × (weight tx ≤ 4 * vsize tx)
      × (4 * vsize tx < weight tx + 4)
unfolding weight vsize
weight_lem tx h = (omega (arith, base_size_lem tx h, total_size_lem tx h), omega arith, omega arith)

-- The hashes of a header have 32 bytes.
abbrev pub HasHashes : Header → Type 0
HasHashes h = (length h.prev_blockhash ≡ 32) × (length h.merkle_root ≡ 32)

length-encode_header : (h : Header) → HasHashes h → length (encode_header h) ≡ 80
unfolding encode_header encode_i32 encode_u32
length-encode_header h (p, m) = simp length-append (
    omega (
      arith,
      p,
      m,
      length-to_le_bytes 4 (to_word 32 h.version),
      length-to_le_bytes 4 h.time,
      length-to_le_bytes 4 h.bits.consensus,
      length-to_le_bytes 4 h.nonce,
    ))

-- For a block whose hashes have 32 bytes, the total size is the length of its encoding, the base
-- size that of the encoding without witnesses, and the weight three times the base size plus the
-- length of the encoding.
pub block_weight_lem :
    (b : Block.Block)
    → HasHashes b.header
    → All (λ (tx : Transaction). All HasTxid tx.input) b.txdata
    → (Block.total_size b ≡ length (Block.encode_block b))
      × (Block.weight b ≡ 3 * Block.base_size b + length (Block.encode_block b))
      × (Block.base_size b ≡ length (encode_header b.header ++ encode_vec stripped b.txdata))
unfolding Block.total_size Block.weight Block.base_size Block.encode_block
block_weight_lem b h hs =
    let total =
      length-encode_vec encode_transaction total_size b.txdata
        (All-mono _ _ b.txdata (λ tx t. sym (total_size_lem tx t)) hs) in
    let base =
      length-encode_vec stripped base_size b.txdata
        (All-mono _ _ b.txdata (λ tx t. sym (base_size_lem tx t)) hs) in
    (
      omega (
        arith,
        total,
        length-encode_header b.header h,
        length-append (encode_header b.header) (encode_vec encode_transaction b.txdata),
      ),
      omega (
        arith,
        total,
        length-encode_header b.header h,
        length-append (encode_header b.header) (encode_vec encode_transaction b.txdata),
      ),
      omega (
        arith,
        base,
        length-encode_header b.header h,
        length-append (encode_header b.header) (encode_vec stripped b.txdata),
      ),
    )
