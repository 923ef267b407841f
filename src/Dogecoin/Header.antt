-- ===== src/Dogecoin/Header.antt =====
-- The header with its merged-mining proof, and the block, of bitcoin/src/dogecoin/mod.rs, and the
-- encoding of the proof of bitcoin/src/dogecoin/auxpow.rs.
pub mod RoundTrip
use rust_dogecoin.Common.{[], ℕ, List, ◌++◌, Option, some, none, if◌then◌else◌}
use rust_dogecoin.Common.Results.{ok}
use rust_dogecoin.Consensus.Encode.{
  Read, ◌>>=◌, read_slice, read_i32, encode_i32, encode_vec, decode_vec,
}
use rust_dogecoin.Blockdata.Transaction.{Transaction, encode_transaction}
use rust_dogecoin.Blockdata.Header.{Header, encode_header, has_auxpow_bit}
use rust_dogecoin.Blockdata.Decode.{decode_transaction, decode_header}
use rust_dogecoin.Dogecoin.AuxPow.{AuxPow}

pub record DogecoinHeader : Type 0 where
  pub pure_header : Header
  pub aux_pow : Option AuxPow

unfoldable pub from_pure_header : Header → DogecoinHeader
from_pure_header h = record { pure_header = h; aux_pow = none }

pub record Block : Type 0 where
  pub header : DogecoinHeader
  pub txdata : List Transaction

-- A hash is its 32 bytes.
abbrev pub encode_hash : List ℕ → List ℕ
encode_hash h = h

unfoldable pub encode_aux_pow : AuxPow → List ℕ
encode_aux_pow a =
    encode_transaction a.coinbase_tx
    ++ (a.parent_hash
        ++ (encode_vec encode_hash a.coinbase_branch
            ++ (encode_i32 a.coinbase_index
                ++ (encode_vec encode_hash a.blockchain_branch
                    ++ (encode_i32 a.blockchain_index ++ encode_header a.parent_block_header)))))

unfoldable pub decode_aux_pow : List ℕ → Read AuxPow
decode_aux_pow bs = do
  (coinbase_tx, bs1) ← decode_transaction bs
  (parent, bs2) ← read_slice 32 bs1
  (coinbase_branch, bs3) ← decode_vec (read_slice 32) bs2
  (coinbase_index, bs4) ← read_i32 bs3
  (blockchain_branch, bs5) ← decode_vec (read_slice 32) bs4
  (blockchain_index, bs6) ← read_i32 bs5
  (parent_block_header, bs7) ← decode_header bs6
  ok (
    record {
      coinbase_tx = coinbase_tx;
      parent_hash = parent;
      coinbase_branch = coinbase_branch;
      coinbase_index = coinbase_index;
      blockchain_branch = blockchain_branch;
      blockchain_index = blockchain_index;
      parent_block_header = parent_block_header;
    },
    bs7,
  )

-- The proof, when there is one.
unfoldable pub encode_option : Option AuxPow → List ℕ
encode_option none = []
encode_option (some a) = encode_aux_pow a

unfoldable pub encode_dogecoin_header : DogecoinHeader → List ℕ
encode_dogecoin_header h = encode_header h.pure_header ++ encode_option h.aux_pow

unfoldable pub decode_dogecoin_header : List ℕ → Read DogecoinHeader
decode_dogecoin_header bs = do
  (pure, bs1) ← decode_header bs
  if has_auxpow_bit pure
      then (do
        (a, bs2) ← decode_aux_pow bs1
        ok (record { pure_header = pure; aux_pow = some a }, bs2))
      else ok (from_pure_header pure, bs1)

unfoldable pub encode_block : Block → List ℕ
encode_block b = encode_dogecoin_header b.header ++ encode_vec encode_transaction b.txdata

unfoldable pub decode_block : List ℕ → Read Block
decode_block bs = do
  (header, bs1) ← decode_dogecoin_header bs
  (txdata, bs2) ← decode_vec decode_transaction bs1
  ok (record { header = header; txdata = txdata }, bs2)
