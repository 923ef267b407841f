-- ===== src/Dogecoin/Header/RoundTrip.antt =====
-- Dogecoin headers and blocks are read back as they were written.
use rust_dogecoin.Common.{
  ℕ, ◌≡◌, ◌<◌, ◌^◌, List, [], ◌∷◌, ◌++◌, length, All, true, false, Option, some, none, refl,
  append_assoc, append-nil,
}
use rust_dogecoin.Common.Results.{ok}
use rust_dogecoin.Consensus.Encode.{read_slice, encode_vec, decode_vec}
use rust_dogecoin.Consensus.Vectors.{IsReadBack, decode_vec-encode_vec}
use rust_dogecoin.Blockdata.Transaction.{Transaction, encode_transaction}
use rust_dogecoin.Blockdata.Header.{Header, encode_header, has_auxpow_bit}
use rust_dogecoin.Blockdata.Decode.{decode_transaction}
use rust_dogecoin.Blockdata.RoundTrip.{
  IsI32, IsHeader, read_i32_lem, read_hash, decode_header-encode_header,
}
use rust_dogecoin.Blockdata.Whole.{IsTransaction, decode_transaction-encode_transaction}
use rust_dogecoin.Dogecoin.AuxPow.{AuxPow}
use rust_dogecoin.Dogecoin.Header.{
  DogecoinHeader, Block, encode_hash, encode_aux_pow, decode_aux_pow, encode_option,
  encode_dogecoin_header, decode_dogecoin_header, encode_block, decode_block, from_pure_header,
}

abbrev pub IsBranch : List (List ℕ) → Type 0
IsBranch b = (length b < 2 ^ 64) × All (λ h. length h ≡ 32) b

branch_lem :
    (b : List (List ℕ)) (left : List ℕ)
    → IsBranch b
    → decode_vec (read_slice 32) (encode_vec encode_hash b ++ left) ≡ ok (b, left)
branch_lem b left (h, k) = decode_vec-encode_vec (read_slice 32) encode_hash b left h (each b k)
  where
    each :
        (b : List (List ℕ))
        → All (λ h. length h ≡ 32) b
        → All (IsReadBack (read_slice 32) encode_hash) b
    each [] k = tt
    each (x ∷ xs) (k, ks) = (λ left. read_hash x left k, each xs ks)

-- The fields of a proof fit their types.
abbrev pub IsAuxPow : AuxPow → Type 0
IsAuxPow a =
    IsTransaction a.coinbase_tx
    × ((length a.parent_hash ≡ 32)
        × (IsBranch a.coinbase_branch
            × (IsI32 a.coinbase_index
                × (IsBranch a.blockchain_branch
                    × (IsI32 a.blockchain_index × IsHeader a.parent_block_header)))))

decode_aux_pow_lem :
    (a : AuxPow) (left : List ℕ)
    → IsAuxPow a
    → decode_aux_pow (encode_aux_pow a ++ left) ≡ ok (a, left)
unfolding decode_aux_pow encode_aux_pow
decode_aux_pow_lem a left (b, (c, (d, (e, (f, (g, h)))))) =
    simp
      (
        append_assoc,
        (λ (end : List ℕ). decode_transaction-encode_transaction a.coinbase_tx end b),
        (λ (end : List ℕ). read_hash a.parent_hash end c),
        (λ (end : List ℕ). branch_lem a.coinbase_branch end d),
        (λ (end : List ℕ). read_i32_lem a.coinbase_index end e),
        (λ (end : List ℕ). branch_lem a.blockchain_branch end f),
        (λ (end : List ℕ). read_i32_lem a.blockchain_index end g),
        (λ (end : List ℕ). decode_header-encode_header a.parent_block_header end h),
      )
      refl

-- The version tells just when there is a proof, and the proof fits.
abbrev pub IsFlagged : Header → Option AuxPow → Type 0
IsFlagged h none = has_auxpow_bit h ≡ false
IsFlagged h (some a) = (has_auxpow_bit h ≡ true) × IsAuxPow a

abbrev pub IsDogecoinHeader : DogecoinHeader → Type 0
IsDogecoinHeader h = IsHeader h.pure_header × IsFlagged h.pure_header h.aux_pow

header_lem :
    (pure : Header) (o : Option AuxPow) (left : List ℕ)
    → IsHeader pure
    → IsFlagged pure o
    → decode_dogecoin_header ((encode_header pure ++ encode_option o) ++ left)
      ≡ ok (record { pure_header = pure; aux_pow = o }, left)
unfolding decode_dogecoin_header encode_option from_pure_header
header_lem pure none left h k =
    simp (append-nil, (λ (end : List ℕ). decode_header-encode_header pure end h), k) refl
header_lem pure (some a) left h (k, l) =
    simp
      (
        append_assoc,
        (λ (end : List ℕ). decode_header-encode_header pure end h),
        k,
        (λ (end : List ℕ). decode_aux_pow_lem a end l),
      )
      refl

dogecoin_header_lem :
    (h : DogecoinHeader) (left : List ℕ)
    → IsDogecoinHeader h
    → decode_dogecoin_header (encode_dogecoin_header h ++ left) ≡ ok (h, left)
unfolding encode_dogecoin_header
dogecoin_header_lem h left (a, b) = header_lem h.pure_header h.aux_pow left a b

-- A block whose fields fit their types, whose transactions and proof are within the limits of the
-- transaction decoder, and whose header's version says that a merged-mining proof follows just when
-- there is one, is read back as it was written, and the bytes that follow are left.
pub decode_block-encode_block :
    (b : Block) (left : List ℕ)
    → IsDogecoinHeader b.header
    → length b.txdata < 2 ^ 64
    → All IsTransaction b.txdata
    → decode_block (encode_block b ++ left) ≡ ok (b, left)
unfolding decode_block encode_block
decode_block-encode_block b left h k l =
    simp
      (
        append_assoc,
        (λ (end : List ℕ). dogecoin_header_lem b.header end h),
        (λ (end : List ℕ).
            decode_vec-encode_vec decode_transaction encode_transaction b.txdata end k
              (each b.txdata l)),
      )
      refl
  where
    each :
        (txs : List Transaction)
        → All IsTransaction txs
        → All (IsReadBack decode_transaction encode_transaction) txs
    each [] l = tt
    each (tx ∷ txs) (l, ls) = (λ left. decode_transaction-encode_transaction tx left l, each txs ls)
