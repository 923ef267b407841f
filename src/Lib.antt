-- ===== src/Lib.antt =====
-- Verification of rust-dogecoin: the consensus core of the Dogecoin library.
--
-- The program reads, writes and validates Dogecoin data. Its core parts, and the files that model
-- them:
--   * Common: tests, lists and signed integers over the native numbers, bit masks as arithmetic,
--     little-endian bytes, results.
--   * Pow/U256: `U256` of bitcoin/src/pow.rs, a record of two 128-bit words. The names of the
--     operations are those of the source; `div_loop`, `div_step`, `mul_word` and `mul_round` are
--     the bodies of its loops. Proofs: Sum, Shift, Product, Operators, Length, SetBit,
--     Rounds, Quotient, Inverse, Wire.
--   * Pow/Target: `Target`, `Work` and `CompactTarget` of the same file, the compact form and its
--     loss (Compact, Lossy).
--   * Pow/Retarget: the difficulty adjustment of Dogecoin (Timespan, Bounds).
--   * Consensus/Encode: bitcoin/src/consensus/encode.rs. A reader is the list of bytes that are left,
--     an encoder the list of bytes that it writes (RoundTrip, Minimal, Vectors).
--   * Blockdata: transactions, witnesses and headers of bitcoin/src/blockdata/transaction.rs,
--     witness.rs and block.rs, and the readings of a version of bitcoin/src/dogecoin/mod.rs. Decode
--     has the decoders, RoundTrip and Whole their round trips, ProofOfWork and Version the rest.
--   * Blockdata/Sizes and Weights: sizes and weights of transactions and blocks. Blockdata/Witness: the
--     buffer of a witness; `layout` of Witness/Layout is the buffer of a list of elements (Push,
--     Cursor, Lookup).
--     Blockdata/Block, Commitment and Height: the block of block.rs, its witness commitment and its
--     BIP-34 height. Blockdata/LockTime: bitcoin/src/blockdata/locktime, units/src/locktime and the
--     sequence numbers of transaction.rs (Laws).
--   * Merkle: bitcoin/src/merkle_tree/mod.rs. InPlace has the loop that overwrites its slice, Tree the
--     root described from the top, Branch the link to the merged-mining proof.
--   * Merkle/Partial: the Merkle blocks and partial trees of bitcoin/src/merkle_tree/block.rs, Codec
--     their encoding. Levels and Shape describe the leaves below a node and what is stored for them,
--     Build the building, Moves, Steps and Extract the extraction, Wire the encoding, Complete the way
--     from sender to receiver, Found and Sound what any extraction proves.
--   * Base58: base58/src/lib.rs. Digits and Loops have the numbers that its loops compute, Capacity the
--     room of the decoder, Strings and Order the characters and their order, RoundTrip and Unique the
--     theorems.
--   * Units: units/src/amount.rs. Amount has `parse_signed_to_satoshi` (Decimal its loops, Parse whole
--     strings) and `from_str_in`, Format `fmt_satoshi_in` (Digits, RoundTrip).
--   * Script: the numbers of bitcoin/src/blockdata/script/mod.rs (Integers: Magnitude, Reading,
--     Written, RoundTrip), the classes of opcodes.rs (Opcodes), and the iterator and the pushes of
--     instruction.rs, owned.rs and builder.rs (Instructions: Parse, Whole, Numbers).
--   * Dogecoin/Params: bitcoin/src/dogecoin/params.rs and the networks of mod.rs.
--   * Dogecoin/AuxPow: the merged-mining proof of bitcoin/src/dogecoin/auxpow.rs (Search, Index,
--     Script, Merkle, Valid). Dogecoin/Root: the Merkle root of a block of mod.rs.
--   * Dogecoin/Header: the header with its proof and the block of mod.rs, with their encoding.
-- The validation of a merged-mining proof uses the transaction's hash and the parent's header; the
-- proof of work of a header uses targets; targets use `U256`; the decoders use the
-- encoding.
--
-- Machine words are numbers below their bound, with the wrap-around written out; `debug` tells
-- whether overflow checks are on. `none` in an `Option` is a panic: a division by zero, a checked
-- overflow, a slice out of range or a shift that is too far. Signed integers are `ℤ`.
-- The hash functions are parameters: a theorem that needs it asks for a result of 32 bytes.
-- A hash, a script and a byte array are lists of bytes. In a transaction a witness is the list of its
-- elements; its buffer is a model of its own, tied to the list by the theorems on it. The lookup in
-- that buffer and the rounding of seconds wrap as in a release build.
-- Fuel: `read_chunks` takes the length plus one, more than the chunks that a positive chunk size can
-- need. `merkle_root_r` takes the number of hashes, which each level halves; `items` one more than the
-- bytes, of which each item takes one; `collect` one more than the elements; `write_loop` the eight
-- bytes of the word; `height_loop` the 32 heights after which a width is at most 1; `push_carry` the two
-- digits of a byte to the base 58; `digits` and `dec_width` the 20 decimal digits of a 64-bit number.
-- The other loops are structural.
--
-- Not modelled: script templates and sigops, the operators of amounts and their unit in a string, fee
-- rates, addresses, keys, taproot, PSBT, peer-to-peer messages and filters, text and serde conversions,
-- floating-point difficulty, the retarget of Bitcoin, the memory that a decoder or a builder reserves,
-- and the limit that `consensus_decode` puts on an unbounded reader (the decoders are those for a
-- bounded one).
pub mod Common
pub mod Pow
pub mod Consensus
pub mod Merkle
pub mod Script
pub mod Base58
pub mod Units
pub mod Blockdata
pub mod Dogecoin
