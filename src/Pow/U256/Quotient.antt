-- ===== src/Pow/U256/Quotient.antt =====
-- `div_rem` of `U256`: the bitwise long division gives the quotient and the remainder.
use rust_dogecoin.Common.{
  ℕ, zero, suc, ◌-◌, ◌*◌, ◌/◌, ◌%◌, ◌^◌, ◌≤◌, ◌<◌, ◌≡◌, refl, false, arith, ltb, ◌==◌, sym, inl,
  inr, Bool-cases, ltb→lt, ltb-false, some, none,
}
use rust_dogecoin.Common.Bits.{pow_double, pow_pos, pow_split, div_unique, mod_unique}
use rust_dogecoin.Pow.U256.{
  U256, IsU256, value, le, wrapping_shl, div_loop, bits, bit_length, div_rem, zero_value,
}
use rust_dogecoin.Pow.U256.Shift.{wrapping_shl_lem}
use rust_dogecoin.Pow.U256.Length.{IsLength, bits_lem}
use native.Mathlib.Nat.{pow-le-pow_right}
use rust_dogecoin.Pow.U256.Rounds.{div_loop_lem}

-- `out` is the quotient and the remainder of `a` by `b`.
pub record IsDivision (a b : ℕ) (out : U256 × U256) : Type 0 where
  pub quotient : value out.0 ≡ a / b
  pub remainder : value out.1 ≡ a % b
  pub fits : IsU256 out.0
  pub left : IsU256 out.1

length_pos : (n x : ℕ) → IsLength n x → 0 < x → (n == 0) ≡ false
length_pos zero x len h = absurd (omega (arith, len.above))
length_pos (suc n) x len h = ground arith

-- A shorter number is smaller.
shorter_lt : (n m x y : ℕ) → IsLength n x → IsLength m y → 0 < y → n < m → x < y
shorter_lt n m x y lx ly h lt =
    omega (arith, lx.above, ly.below h, pow_double n, pow-le-pow_right {n = 2} (omega arith) lt)

-- A divisor that is not longer, shifted to the dividend's length, stays in 256 bits and is more
-- than half the dividend.
aligned :
    (n m x y : ℕ)
    → IsLength n x
    → IsLength m y
    → 0 < y
    → m ≤ n
    → n ≤ 256
    → (y * 2 ^ (n - m) < 2 ^ 256) × (x < 2 * (2 ^ (n - m) * y))
aligned n m x y lx ly h le b = (
  omega (
    arith,
    scaled_lt y (2 ^ m) (2 ^ (n - m)) (pow_pos (n - m)) ly.above,
    pow_split n m le,
    pow-le-pow_right {n = 2} (omega arith) b,
  ),
  omega (arith, lx.above, scaled_le (2 ^ m) (2 * y) (2 ^ (n - m)) (ly.below h), pow_split n m le),
)
  where
    scaled_lt : (x y p : ℕ) → 0 < p → x < y → x * p < p * y
    scaled_lt x y p hp h = grind arith

    scaled_le : (x y p : ℕ) → x ≤ y → p * x ≤ p * y
    scaled_le x y p h = grind arith

-- For 256-bit numbers and a divisor other than zero, the division returns numbers q and r of 256
-- bits with dividend = q * divisor + r and r below the divisor.
pub div_rem_lem :
    (a b : U256)
    → IsU256 a
    → IsU256 b
    → 0 < value b
    → (out : U256 × U256) × (div_rem a b ≡ some out) × IsDivision (value a) (value b) out
unfolding div_rem
div_rem_lem a b ha hb h =
    let (la, ba) = bits_lem a ha in
    let (lb, bb) = bits_lem b hb in
    elim (Bool-cases (ltb (bits a) (bits b))) [
      | inl shorter ↦
          let less =
            shorter_lt (bits a) (bits b) (value a) (value b) la lb h (ltb→lt _ _ shorter) in
          (
            (zero_value, a),
            rw (length_pos _ _ lb h, shorter),
            record {
              quotient = sym (div_unique _ _ 0 (value a) (omega arith) less);
              remainder = sym (mod_unique _ _ 0 (value a) (omega arith) less);
              fits = omega arith;
              left = ha;
            },
          )
      | inr longer ↦
          let n = bits a - bits b in
          let nonzero = length_pos _ _ lb h in
          let small : n < 256 = ground (arith, ba) in
          let (room, half) =
            aligned (bits a) (bits b) (value a) (value b) la lb h (ltb-false _ _ longer) ba in
          let (sv, sw) = wrapping_shl_lem b n hb small in
          let exact : value (wrapping_shl b n) ≡ 2 ^ n * value b = omega (arith, sv, room) in
          let done =
            div_loop_lem (value b) h n 0 a (wrapping_shl b n) zero_value small ha sw (omega arith)
              exact half (omega arith) in
          (
            div_loop n a (wrapping_shl b n) zero_value,
            rw (nonzero, longer),
            record {
              quotient = omega (arith, done.quotient);
              remainder = done.remainder;
              fits = done.fits;
              left = done.left;
            },
          )
    ]

-- By zero it panics.
pub div_rem_zero : (a : U256) → div_rem a zero_value ≡ none
unfolding div_rem bits bit_length
div_rem_zero a = refl
