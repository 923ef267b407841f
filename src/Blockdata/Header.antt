-- ===== src/Blockdata/Header.antt =====
-- bitcoin/src/blockdata/block.rs: the block header, its version, encoding, hashes and proof of work;
-- and what bitcoin/src/dogecoin/mod.rs reads from a version.
use rust_dogecoin.Common.{
  ℕ, List, ◌++◌, Bool, false, ◌||◌, ◌&&◌, not, if◌then◌else◌, ltb, ◌==◌, bit_and, ◌^◌, ◌-◌,
}
use rust_dogecoin.Common.Int.{ℤ, pos, negsuc, to_word, shr_ℤ, rem_ℤ}
use rust_dogecoin.Common.Results.{Result, ok, err}
use rust_dogecoin.Consensus.Encode.{encode_u32, encode_i32}
use rust_dogecoin.Pow.U256
use rust_dogecoin.Pow.Target
use rust_dogecoin.Pow.Target.{Target, CompactTarget, Work}

pub record Header : Type 0 where
  pub version : ℤ
  pub prev_blockhash : List ℕ
  pub merkle_root : List ℕ
  pub time : ℕ
  pub bits : CompactTarget
  pub nonce : ℕ

pub data ValidationError : Type 0 where
  bad_proof_of_work bad_target : ValidationError

unfoldable pub encode_header : Header → List ℕ
encode_header h =
    encode_i32 h.version
    ++ (h.prev_blockhash
        ++ (h.merkle_root
            ++ (encode_u32 h.time ++ (encode_u32 h.bits.consensus ++ encode_u32 h.nonce))))

abbrev pub ==_U256 : U256.U256 → U256.U256 → Bool
==_U256 a b = (a.hi == b.hi) && (a.lo == b.lo)

unfoldable pub is_signalling_soft_fork : ℤ → ℕ → Bool
is_signalling_soft_fork version bit =
    if ltb 28 bit
    then false
    else if not (bit_and (to_word 32 version) (2 ^ 32 - 1 - 0x1fff_ffff) == 0x2000_0000)
    then false
    else ltb 0 (bit_and (bit_and (to_word 32 version) 0x1fff_ffff) (2 ^ bit))

abbrev pub target : Header → Target
target h = Target.from_compact h.bits

-- The version's low bits tell that merged-mining data follows.
abbrev pub version_auxpow : ℕ
version_auxpow = 2 ^ 8

unfoldable pub has_auxpow_bit : Header → Bool
has_auxpow_bit h = not (bit_and (to_word 32 h.version) version_auxpow == 0)

unfoldable pub extract_chain_id : Header → ℤ
extract_chain_id h = shr_ℤ h.version 16

abbrev pub ==_ℤ : ℤ → ℤ → Bool
==_ℤ (pos a) (pos b) = a == b
==_ℤ (negsuc a) (negsuc b) = a == b
==_ℤ (pos a) (negsuc b) = false
==_ℤ (negsuc a) (pos b) = false

unfoldable pub is_legacy : Header → Bool
is_legacy h =
    ==_ℤ h.version (pos 1) || (==_ℤ h.version (pos 2) && ==_ℤ (extract_chain_id h) (pos 0))

unfoldable pub extract_base_version : Header → ℤ
extract_base_version h = rem_ℤ h.version version_auxpow

module _ (hash : List ℕ → List ℕ) where
  -- The hash of the encoded header, with SHA256d or with scrypt.
  unfoldable pub block_hash : Header → List ℕ
  block_hash h = hash (encode_header h)

  -- `validate_pow` with SHA256d, `validate_pow_with_scrypt` with scrypt.
  unfoldable pub validate_pow : Header → Target → Result (List ℕ) ValidationError
  validate_pow h required =
      if not (==_U256 (target h).inner required.inner)
      then err bad_target
      else if Target.is_met_by (target h) (block_hash h)
      then ok (block_hash h)
      else err bad_proof_of_work
