-- ===== src/Merkle/Partial/Codec.antt =====
-- The encoding of Merkle blocks, bitcoin/src/merkle_tree/block.rs: the flags are packed eight to a byte,
-- the lowest bit first.
use rust_dogecoin.Common.{
  ℕ, zero, suc, ◌+◌, ◌*◌, ◌/◌, ◌%◌, ◌^◌, List, [], ◌∷◌, ◌++◌, Bool, not, length, take, drop, ltb,
  ◌==◌, if◌then◌else◌, bit_and, bit_or,
}
use rust_dogecoin.Common.Results.{ok, err}
use rust_dogecoin.Consensus.Encode.{
  Read, encode_u8, encode_u32, encode_var_int, encode_vec, read_uint, read_slice, decode_vec,
  decode_var_int, oversized_vector_allocation, ◌>>=◌,
}
use rust_dogecoin.Blockdata.Header.{encode_header}
use rust_dogecoin.Blockdata.Decode.{decode_header}
use rust_dogecoin.Merkle.Partial.{PartialMerkleTree, MerkleBlock}

-- The byte of a chunk of flags, from bit `i`.
unfoldable pub pack_byte : ℕ → ℕ → List Bool → ℕ
pack_byte i byte [] = byte
pack_byte i byte (b ∷ bits) =
    pack_byte (suc i) (bit_or byte ((if b then 1 else 0) * 2 ^ i % 256)) bits

-- The chunks of eight bits; the last one may be shorter.
unfoldable pub pack : ℕ → List Bool → List ℕ
pack zero bits = []
pack (suc chunks) bits = encode_u8 (pack_byte 0 0 (take 8 bits)) ++ pack chunks (drop 8 bits)

unfoldable pub encode_partial : PartialMerkleTree → List ℕ
encode_partial t =
    encode_u32 t.num_transactions
    ++ (encode_vec (λ (h : List ℕ). h) t.hashes
        ++ (encode_var_int ((length t.bits + 7) / 8) ++ pack ((length t.bits + 7) / 8) t.bits))

-- The bits of a byte from bit `i`.
unfoldable pub unpack_byte : ℕ → ℕ → ℕ → List Bool
unpack_byte zero i byte = []
unpack_byte (suc n) i byte = not (bit_and byte (2 ^ i) == 0) ∷ unpack_byte n (suc i) byte

unfoldable pub unpack : ℕ → List ℕ → Read (List Bool)
unpack zero bs = ok ([], bs)
unpack (suc chunks) bs = do
  (byte, left) ← read_uint 1 bs
  (bits, rest) ← unpack chunks left
  ok (unpack_byte 8 0 byte ++ bits, rest)

unfoldable pub read_bits : ℕ → List ℕ → Read (List Bool)
read_bits chunks bs =
    if ltb 4_000_000 chunks
    then err (oversized_vector_allocation chunks 4_000_000)
    else unpack chunks bs

unfoldable pub decode_partial : List ℕ → Read PartialMerkleTree
decode_partial bs = do
  (num, bs1) ← read_uint 4 bs
  (hashes, bs2) ← decode_vec (read_slice 32) bs1
  (chunks, bs3) ← decode_var_int bs2
  (bits, left) ← read_bits chunks bs3
  ok (record { num_transactions = num; bits = bits; hashes = hashes }, left)

unfoldable pub encode_merkle_block : MerkleBlock → List ℕ
encode_merkle_block b = encode_header b.header ++ encode_partial b.txn

unfoldable pub decode_merkle_block : List ℕ → Read MerkleBlock
decode_merkle_block bs = do
  (header, bs1) ← decode_header bs
  (txn, left) ← decode_partial bs1
  ok (record { header = header; txn = txn }, left)
