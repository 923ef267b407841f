-- ===== src/Blockdata/Version.antt =====
-- The parts of a block's version that bitcoin/src/dogecoin/mod.rs reads, and the proof of work of a
-- header.
use rust_dogecoin.Common.{
  ◌&&◌, ◌||◌, subst, ◌↔◌, ℕ, ◌≡◌, ◌⊎◌, ◌<◌, ◌+◌, ◌*◌, ◌^◌, ◌%◌, ◌/◌, true, arith, ◌==◌, ap,
}
use rust_dogecoin.Common.Int.{pos, to_word}
use rust_dogecoin.Common.Bits.{and_bit}
use rust_dogecoin.Blockdata.Header.{
  Header, has_auxpow_bit, extract_chain_id, extract_base_version, is_legacy,
}

-- The bit that says that merged-mining data follows is the ninth of the 32 bits of the version, for
-- negative versions too.
pub has_auxpow_bit_lem :
    (h : Header) → (has_auxpow_bit h ≡ true) ↔ (to_word 32 h.version / 2 ^ 8 % 2 ≡ 1)
unfolding has_auxpow_bit
has_auxpow_bit_lem h = rw (and_bit 8 (to_word 32 h.version)) (ground arith)

legacy_iff :
    (chain bit base : ℕ)
    → base < 2 ^ 8
    → bit < 2
    → (((chain * 2 ^ 16 + bit * 2 ^ 8 + base == 1)
          || ((chain * 2 ^ 16 + bit * 2 ^ 8 + base == 2)
              && ((chain * 2 ^ 16 + bit * 2 ^ 8 + base) / 2 ^ 16 == 0)))
        ≡ true)
      ↔ ((chain ≡ 0) × ((bit ≡ 0) × ((base ≡ 1) ⊎ (base ≡ 2))))
legacy_iff chain bit base h k = (
  λ t.
      let v : (chain * 2 ^ 16 + bit * 2 ^ 8 + base ≡ 1)
          ⊎ (chain * 2 ^ 16 + bit * 2 ^ 8 + base ≡ 2) =
        ground arith in
      omega arith,
  λ (a, (b, c)). ground arith,
)

-- A version made of a chain identifier below 2^15, the merged-mining bit (0 or 1) and a base
-- version below 2^8 gives back these parts, and it is a legacy version just when it is the number 1
-- or 2.
pub version_parts :
    (h : Header) (chain bit base : ℕ)
    → chain < 2 ^ 15
    → bit < 2
    → base < 2 ^ 8
    → h.version ≡ pos (chain * 2 ^ 16 + bit * 2 ^ 8 + base)
    → (extract_chain_id h ≡ pos chain)
      × ((extract_base_version h ≡ pos base)
          × (((has_auxpow_bit h ≡ true) ↔ (bit ≡ 1))
              × ((is_legacy h ≡ true) ↔ ((chain ≡ 0) × ((bit ≡ 0) × ((base ≡ 1) ⊎ (base ≡ 2)))))))
unfolding extract_chain_id extract_base_version is_legacy
version_parts h chain bit base a b c e = (
  rw e (ap pos (omega arith)),
  (
    rw e (ap pos (omega arith)),
    (
      (
        λ t.
            omega (arith, subst (λ v. to_word 32 v / 2 ^ 8 % 2 ≡ 1) e ((has_auxpow_bit_lem h).0 t)),
        λ t. (has_auxpow_bit_lem h).1 (rw e (omega arith)),
      ),
      rw e (legacy_iff chain bit base c b),
    ),
  ),
)
