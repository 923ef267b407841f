-- ===== src/Blockdata/Commitment.antt =====
-- The witness commitment and the weight of a block of bitcoin/src/blockdata/block.rs.
use rust_dogecoin.Common.{
  suc, ℕ, ◌≡◌, ◌↔◌, ◌<◌, ◌*◌, ◌^◌, List, [], ◌∷◌, ◌++◌, none, some, true, false, length, map, take,
  drop, All, refl, arith, subst, length-map, ==_iff,
}
use rust_dogecoin.Common.Bytes.{bytes_eq, bytes_eq_sound, bytes_eq_refl}
use rust_dogecoin.Blockdata.Header.{Header}
use rust_dogecoin.Common.Int.{ℤ}
use rust_dogecoin.Blockdata.Transaction.{OutPoint, TxOut, Transaction, compute_wtxid}
use rust_dogecoin.Blockdata.Block.{
  is_coinbase_input, all_zeros, is_null, is_coinbase, is_commitment, last_commitment,
  reserved_value, witness_hashes, witness_root, compute_witness_commitment, check_output,
  check_coinbase, check_witness_commitment, coinbase,
}
use rust_dogecoin.Merkle.Tree.{tree_root, calculate_root_lem}

-- Later outputs that are no commitments do not matter.
last_commitment-none :
    (os : List TxOut) → All (λ o. is_commitment o ≡ false) os → last_commitment os ≡ none
unfolding last_commitment
last_commitment-none [] h = refl
last_commitment-none (o ∷ os) (h, hs) = rw (last_commitment-none os hs) (rw h refl)

last_commitment-append :
    (before : List TxOut) (o : TxOut) (later : List TxOut)
    → is_commitment o ≡ true
    → All (λ p. is_commitment p ≡ false) later
    → last_commitment (before ++ o ∷ later) ≡ some o
unfolding last_commitment
last_commitment-append [] o later h hs = rw (last_commitment-none later hs) (rw h refl)
last_commitment-append (p ∷ before) o later h hs =
    rw (last_commitment-append before o later h hs) refl

module _ (sha256d : List ℕ → List ℕ) where
  -- The commitment of the output against the root and the reserved value.
  commitment_check :
      (o : TxOut) (reserved root : List ℕ)
      → (check_output sha256d (some o) (some reserved) (some root) ≡ true)
        ↔ (take 32 (drop 6 o.script_pubkey) ≡ sha256d (root ++ reserved))
  unfolding check_output compute_witness_commitment
  commitment_check o reserved root = (
    bytes_eq_sound (take 32 (drop 6 o.script_pubkey)) (sha256d (root ++ reserved)),
    λ e.
        subst (λ c. bytes_eq (take 32 (drop 6 o.script_pubkey)) c ≡ true) e
          (bytes_eq_refl (take 32 (drop 6 o.script_pubkey))),
  )

  -- For a block whose first transaction has one input, with the null outpoint and a witness of one
  -- element of 32 bytes, and an output that begins like a commitment with none such after it, and
  -- for a height whose power of two is at least the number of transactions and less than twice it,
  -- the check succeeds just when the 32 bytes of the output are the hash of the witness root and
  -- that element, the root being that of the tree over zeros and the other transactions' hashes.
  pub check_witness_commitment_lem :
      (height : ℕ) (header : Header) (version : ℤ) (lock_time sequence : ℕ) (previous : OutPoint)
      (script_sig reserved : List ℕ) (before later : List TxOut) (o : TxOut)
      (txs : List Transaction)
      → length txs < 2 ^ height
      → 2 ^ height < 2 * suc (length txs)
      → is_null previous ≡ true
      → length reserved ≡ 32
      → is_commitment o ≡ true
      → All (λ p. is_commitment p ≡ false) later
      → (check_witness_commitment sha256d (record {
        header = header;
        txdata =
            record {
              version = version;
              lock_time = lock_time;
              input =
                  record {
                    previous_output = previous;
                    script_sig = script_sig;
                    sequence = sequence;
                    witness = reserved ∷ [];
                  }
                  ∷ [];
              output = before ++ o ∷ later;
            }
            ∷ txs;
      })
          ≡ true)
        ↔ (take 32 (drop 6 o.script_pubkey)
            ≡ sha256d (
                tree_root sha256d height (all_zeros ∷ map (compute_wtxid sha256d) txs) ++ reserved))
  unfolding check_witness_commitment check_coinbase coinbase is_coinbase is_coinbase_input
      reserved_value witness_root witness_hashes
  check_witness_commitment_lem height header version lock_time sequence previous script_sig reserved
        before later o txs low high n r c none_later =
      let l = length-map txs (compute_wtxid sha256d) in
      rw
        (
          n,
          (==_iff (length reserved) 32).1 r,
          last_commitment-append before o later c none_later,
          calculate_root_lem sha256d height (all_zeros ∷ map (compute_wtxid sha256d) txs)
              (omega (arith, l)) (omega (arith, l)),
        )
        (commitment_check o reserved _)
