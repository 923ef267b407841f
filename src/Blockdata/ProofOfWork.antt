-- ===== src/Blockdata/ProofOfWork.antt =====
-- `validate_pow` of bitcoin/src/blockdata/block.rs decides the proof of work of a header.
use rust_dogecoin.Common.{
  ap, Bool-cases, subst, ◌↔◌, ℕ, ◌≡◌, ◌≢◌, ◌⊎◌, ◌<◌, ◌≤◌, ◌^◌, List, length, All, Bool, true, false,
  refl, arith, inl, inr,
}
use rust_dogecoin.Common.Bytes.{IsByte, from_le_bytes}
use rust_dogecoin.Common.Results.{ok, err}
use rust_dogecoin.Pow.U256.{u256, U256, IsU256, value}
use rust_dogecoin.Pow.U256.Sum.{le-value}
use rust_dogecoin.Pow.U256.Wire.{u256_from_le_bytes_lem}
use rust_dogecoin.Pow.Target.{target, Target, is_met_by, from_compact}
use rust_dogecoin.Pow.Target.Lossy.{from_compact-IsU256}
use rust_dogecoin.Blockdata.Header
use rust_dogecoin.Blockdata.Header.{Header, validate_pow, block_hash, ValidationError}

-- For a 256-bit target and a hash of 32 bytes, the hash meets the target just when its number,
-- least significant byte first, is at most the target's.
pub is_met_by_lem :
    (t : Target) (hash : List ℕ)
    → IsU256 t.inner
    → All IsByte hash
    → length hash ≡ 32
    → (is_met_by t hash ≡ true) ↔ (from_le_bytes hash ≤ value t.inner)
unfolding is_met_by
is_met_by_lem t hash h a l =
    let (e, w) = u256_from_le_bytes_lem hash a l in rw (le-value _ t.inner w h, e) (ground arith)

-- The other side of a decided bound.
above : {b : Bool} {x y : ℕ} → b ≡ false → ((b ≡ true) ↔ (x ≤ y)) → y < x
above {x = x} {y = y} f h = elim (le_or_lt x y) [
  | inl p ↦ let g = h.1 p in ground arith
  | inr p ↦ p
]
  where
    le_or_lt : (x y : ℕ) → (x ≤ y) ⊎ (y < x)
    le_or_lt x y = omega arith

==_U256_lem : (a b : U256) → (Header.==_U256 a b ≡ true) ↔ (a ≡ b)
==_U256_lem a b = (
  λ e.
      let p : a.hi ≡ b.hi = ground arith in
      let q : a.lo ≡ b.lo = ground arith in λ i. u256 (p i) (q i),
  λ e. subst (λ c. Header.==_U256 a c ≡ true) e (same a),
)
  where
    same : (a : U256) → Header.==_U256 a a ≡ true
    same a = ground arith

-- For a header whose bits fit in 32 bits and a hash function of 32 bytes, the validation accepts
-- the header, with its hash, when the target that it encodes is the required one and the hash is at
-- most that target; with another target it returns bad_target, and with a hash above the required
-- target bad_proof_of_work.
pub validate_pow_lem :
    (hash : List ℕ → List ℕ) (h : Header) (required : Target)
    → h.bits.consensus < 2 ^ 32
    → ((x : List ℕ) → All IsByte (hash x) × (length (hash x) ≡ 32))
    → ((validate_pow hash h required ≡ ok (block_hash hash h))
        × ((from_compact h.bits ≡ required)
            × (from_le_bytes (block_hash hash h) ≤ value required.inner)))
      ⊎ (((validate_pow hash h required ≡ err Header.bad_target) × (from_compact h.bits ≢ required))
          ⊎ ((validate_pow hash h required ≡ err Header.bad_proof_of_work)
              × ((from_compact h.bits ≡ required)
                  × (value required.inner < from_le_bytes (block_hash hash h)))))
unfolding validate_pow block_hash
validate_pow_lem hash h required b k =
    let t = from_compact h.bits in
    let meets =
      is_met_by_lem t (block_hash hash h) (from_compact-IsU256 h.bits b) (k _).0 (k _).1 in
    elim (Bool-cases (Header.==_U256 t.inner required.inner)) [
      | inl e ↦
          let same : t ≡ required = λ i. target ((==_U256_lem t.inner required.inner).0 e i) in
          let number : value t.inner ≡ value required.inner =
            ap value ((==_U256_lem t.inner required.inner).0 e) in
          elim (Bool-cases (is_met_by t (block_hash hash h))) [
            | inl f ↦ rw (e, f) (inl (refl, (same, omega (arith, meets.0 f, number))))
            | inr f ↦ rw (e, f) (inr (inr (refl, (same, omega (arith, above f meets, number)))))
          ]
      | inr e ↦ rw e (
          inr (
            inl (
              refl,
              λ q.
                  let g = (==_U256_lem t.inner required.inner).1 (ap (λ (z : Target). z.inner) q) in
                  ground arith,
            )))
    ]
