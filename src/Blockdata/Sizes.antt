-- ===== src/Blockdata/Sizes.antt =====
-- Sizes and weights of bitcoin/src/blockdata/transaction.rs, witness.rs and block.rs, computed without
-- encoding anything. The sums of `usize` are exact: they count bytes held in memory.
use rust_dogecoin.Common.{ℕ, ◌+◌, ◌*◌, ◌/◌, List, [], ◌∷◌, length, if◌then◌else◌}
use rust_dogecoin.Consensus.Encode.{size}
use rust_dogecoin.Blockdata.Transaction.{TxIn, TxOut, Transaction, uses_segwit_serialization}

-- `.map(f).sum::<usize>()`
abbrev pub sum_map {ℓ} : {A : Type ℓ} → (A → ℕ) → List A → ℕ
sum_map f [] = 0
sum_map f (x ∷ xs) = f x + sum_map f xs

unfoldable pub witness_total_size : List (List ℕ) → ℕ
witness_total_size w =
    size (length w) + sum_map (λ (element : List ℕ). size (length element) + length element) w

-- `OutPoint::SIZE` is 36 and `Sequence::SIZE` is 4.
unfoldable pub tx_in_base_size : TxIn → ℕ
tx_in_base_size i = 36 + size (length i.script_sig) + length i.script_sig + 4

unfoldable pub tx_in_total_size : TxIn → ℕ
tx_in_total_size i = tx_in_base_size i + witness_total_size i.witness

unfoldable pub legacy_weight : TxIn → ℕ
legacy_weight i = tx_in_base_size i * 4

unfoldable pub segwit_weight : TxIn → ℕ
segwit_weight i = tx_in_base_size i * 4 + witness_total_size i.witness

-- `Amount::SIZE` is 8.
unfoldable pub tx_out_size : TxOut → ℕ
tx_out_size o = 8 + size (length o.script_pubkey) + length o.script_pubkey

unfoldable pub tx_out_weight : TxOut → ℕ
tx_out_weight o = tx_out_size o * 4

-- `absolute::LockTime::SIZE` is 4.
unfoldable pub base_size : Transaction → ℕ
base_size tx =
    4
    + size (length tx.input)
    + sum_map tx_in_base_size tx.input
    + size (length tx.output)
    + sum_map tx_out_size tx.output
    + 4

unfoldable pub total_size : Transaction → ℕ
total_size tx =
    4
    + (if uses_segwit_serialization tx then 2 else 0)
    + size (length tx.input)
    + sum_map (λ i. if uses_segwit_serialization tx then tx_in_total_size i else tx_in_base_size i)
        tx.input
    + size (length tx.output)
    + sum_map tx_out_size tx.output
    + 4

unfoldable pub weight : Transaction → ℕ
weight tx = base_size tx * 3 + total_size tx

-- `to_vbytes_ceil`
unfoldable pub vsize : Transaction → ℕ
vsize tx = (weight tx + 3) / 4
