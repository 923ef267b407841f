-- ===== src/Pow/U256/Length.antt =====
-- `bits` of `U256` is the length of the number in binary digits.
use rust_dogecoin.Common.{
  ℕ, zero, suc, ◌+◌, ◌-◌, ◌*◌, ◌/◌, ◌^◌, ◌≤◌, ◌<◌, ◌≡◌, refl, arith, ltb, ◌==◌, inl, inr,
  Bool-cases,
}
use rust_dogecoin.Common.Bits.{pow_double, pow-add}
use rust_dogecoin.Pow.U256.{U256, IsU256, value, bit_length, bits}

-- `n` is the number of binary digits of `x`.
pub record IsLength (n x : ℕ) : Type 0 where
  pub above : x < 2 ^ n
  pub below : 0 < x → 2 ^ n ≤ 2 * x
  pub at_zero : x ≡ 0 → n ≡ 0

suc_below : (n x : ℕ) → 0 < x → IsLength n (x / 2) → 2 ^ suc n ≤ 2 * x
suc_below n x p len = elim (Bool-cases (x / 2 == 0)) [
  | inl one ↦ rw (len.at_zero (ground arith)) (omega arith)
  | inr more ↦ omega (arith, pow_double n, len.below (ground arith))
]

pub bit_length_lem : (w x : ℕ) → x < 2 ^ w → IsLength (bit_length w x) x × (bit_length w x ≤ w)
unfolding bit_length
bit_length_lem zero x h =
    (record { above = h; below = λ p. absurd (omega arith); at_zero = λ _. refl }, omega arith)
bit_length_lem (suc w) x h = elim (Bool-cases (x == 0)) [
  | inl is_zero ↦
      rw is_zero (
        record { above = ground arith; below = λ p. ground arith; at_zero = λ _. refl },
        omega arith,
      )
  | inr more ↦
      let (len, le) = bit_length_lem w (x / 2) (omega (arith, pow_double w)) in
      rw more (
        record {
          above = omega (arith, pow_double (bit_length w (x / 2)), len.above);
          below = λ p. suc_below _ x p len;
          at_zero = λ p. ground arith;
        },
        omega (arith, le),
      )
]

-- The length of the high word puts 128 digits above the low one.
high-IsLength :
    (n h l : ℕ) → 0 < h → l < 2 ^ 128 → IsLength n h → IsLength (n + 128) (h * 2 ^ 128 + l)
high-IsLength n h l p hl len = record {
  above = rw pow-add (omega (arith, len.above));
  below = λ _. rw pow-add (omega (arith, len.below p));
  at_zero = λ e. absurd (omega arith);
}

-- For a 256-bit number, the count of bits is the length of the number in binary, and at most 256.
pub bits_lem : (u : U256) → IsU256 u → IsLength (bits u) (value u) × (bits u ≤ 256)
unfolding bits
bits_lem u (hh, hl) =
    let (lh, bh) = bit_length_lem 128 u.hi hh in
    let (ll, bl) = bit_length_lem 128 u.lo hl in
    elim (Bool-cases (ltb 0 u.hi)) [
      | inl some_high ↦
          let e : 256 - (128 - bit_length 128 u.hi) ≡ bit_length 128 u.hi + 128 =
            omega (arith, bh) in
          rw (some_high, e) (high-IsLength _ u.hi u.lo (ground arith) hl lh, omega (arith, bh))
      | inr no_high ↦
          let e : 128 - (128 - bit_length 128 u.lo) ≡ bit_length 128 u.lo = omega (arith, bl) in
          let low : value u ≡ u.lo = ground arith in rw (no_high, e, low) (ll, omega (arith, bl))
    ]
