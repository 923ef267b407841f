-- ===== src/Pow/U256/Inverse.antt =====
-- `inverse` of `U256`: 2^256 / (u + 1), and the three values for which the code defines it apart.
use rust_dogecoin.Common.{ℕ, ◌+◌, ◌-◌, ◌/◌, ◌%◌, ◌^◌, ◌≤◌, ◌<◌, ◌≡◌, arith, sym, ◌∙◌, some, false}
use rust_dogecoin.Common.Bits.{div_unique, div_lt}
use rust_dogecoin.Pow.U256.{
  U256, IsU256, value, inverse, is_zero, is_one, is_max, div, complement, wrapping_inc,
}
use rust_dogecoin.Pow.U256.Sum.{complement_lem, wrapping_inc_lem}
use rust_dogecoin.Pow.U256.Quotient.{div_rem_lem}
use native.Mathlib.Nat.{div-add-mod, mod-lt}

pub div_lem :
    (a b : U256)
    → IsU256 a
    → IsU256 b
    → 0 < value b
    → (q : U256) × (div a b ≡ some q) × (value q ≡ value a / value b) × IsU256 q
unfolding div
div_lem a b ha hb h = let (out, e, d) = div_rem_lem a b ha hb h in (out.0, rw e, d.quotient, d.fits)

-- One more than the quotient of the complement.
quotient_up : (m d : ℕ) → 0 < d → d ≤ m → (m - d) / d + 1 ≡ m / d
quotient_up m d hd le =
    sym (div_unique m d _ ((m - d) % d) (omega (arith, div-add-mod (m - d) d)) (mod-lt _ hd))

inverse_value :
    (a c i : ℕ)
    → 1 < a
    → a < 2 ^ 256 - 1
    → c ≡ 2 ^ 256 - 1 - a
    → i ≡ a + 1
    → (c / i + 1) % 2 ^ 256 ≡ 2 ^ 256 / (a + 1)
inverse_value a c i more less ec ei =
    let c' : c ≡ 2 ^ 256 - (a + 1) = omega (arith, ec) in
    let up : (2 ^ 256 - (a + 1)) / (a + 1) + 1 ≡ 2 ^ 256 / (a + 1) =
      quotient_up (2 ^ 256) (a + 1) (omega arith) (omega arith) in
    let small : 2 ^ 256 / (a + 1) < 2 ^ 256 =
      div_lt (2 ^ 256) (a + 1) (2 ^ 256) (omega arith) (omega arith) in
    rw (c', ei, up) (omega (arith, small))

-- For a 256-bit number other than 0, 1 and 2^256 - 1, the inverse is computed without a panic and
-- is 2^256 / (u + 1).
pub inverse_lem :
    (u : U256)
    → IsU256 u
    → 1 < value u
    → value u < 2 ^ 256 - 1
    → (r : U256) × (inverse u ≡ some r) × (value r ≡ 2 ^ 256 / (value u + 1)) × IsU256 r
unfolding inverse
inverse_lem u hu more less =
    let (cv, cw) = complement_lem u hu in
    let (iv, iw) = wrapping_inc_lem u hu in
    let iv' : value (wrapping_inc u) ≡ value u + 1 = omega (arith, iv) in
    let (q, e, qv, qw) = div_lem (complement u) (wrapping_inc u) cw iw (omega (arith, iv')) in
    let (rv, rw') = wrapping_inc_lem q qw in
    (
      wrapping_inc q,
      rw (not_special.0, not_special.1, not_special.2, e),
      rv ∙ rw qv (inverse_value (value u) _ _ more less cv iv'),
      rw',
    )
  where
    not_special : (is_zero u ≡ false) × (is_one u ≡ false) × (is_max u ≡ false)
    not_special = unfold is_zero is_one is_max in (ground arith, ground arith, ground arith)
