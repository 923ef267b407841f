-- ===== src/Pow/Target/Lossy.antt =====
-- What the way through the compact form loses: `from_compact` after `to_compact_lossy`.
use rust_dogecoin.Common.{
  if◌then◌else◌, ℕ, ◌+◌, ◌-◌, ◌*◌, ◌/◌, ◌%◌, ◌^◌, ◌≤◌, ◌<◌, ◌≡◌, refl, arith, sym, ◌∙◌, false, ltb,
  leb, ◌==◌, bit_and, inl, inr, Bool-cases, leb→le, leb-false,
}
use rust_dogecoin.Common.Bits.{pow_pos, pow-add, div_unique, and_mask}
use rust_dogecoin.Pow.U256
use rust_dogecoin.Pow.U256.{U256, IsU256, value}
use rust_dogecoin.Pow.U256.Sum.{value-lt}
use rust_dogecoin.Pow.U256.Shift.{wrapping_shl_lem, wrapping_shl-IsU256}
use rust_dogecoin.Pow.Target.{
  target, CompactTarget, Target, compact, mantissa_exponent, from_compact, to_compact_lossy,
}
use rust_dogecoin.Pow.Target.Compact.{IsCompact, to_compact_lem, short_split, long_split}
use native.Mathlib.Nat.{pow-le-pow_right, mul-div-mul_right, div-add-mod, mod-lt, div-le_self}

-- The number that a mantissa and an exponent stand for.
abbrev scaled : ℕ → ℕ → ℕ
scaled e m = m * 2 ^ (8 * e) / 2 ^ 24

scaled_short : (e m : ℕ) → e ≤ 3 → scaled e m ≡ m / 2 ^ (8 * (3 - e))
scaled_short e m h =
    rw (← short_split e h)
      (mul-div-mul_right {m = 2 ^ (8 * e)} m (2 ^ (8 * (3 - e))) (pow_pos (8 * e)))

scaled_long : (e m : ℕ) → 3 < e → scaled e m ≡ m * 2 ^ (8 * (e - 3))
scaled_long e m h = rw (← long_split e h) (omega arith)

shifted :
    (x s : ℕ)
    → x < 2 ^ 23
    → s < 256
    → x * 2 ^ s < 2 ^ 256
    → (value (U256.wrapping_shl (U256.from_u128 x) s) ≡ x * 2 ^ s)
      × IsU256 (U256.wrapping_shl (U256.from_u128 x) s)
shifted x s hx hs fits =
    let (v, w) = wrapping_shl_lem (U256.from_u128 x) s (omega arith) hs in
    (omega (arith, v, fits), w)

no_sign : (x : ℕ) → x < 2 ^ 23 → ltb 0x7F_FFFF x ≡ false
no_sign x h = ground arith

-- `from_compact` of a packed mantissa, with the sign bit clear and in range, is the number that it
-- stands for.
pub from_packed :
    (e m : ℕ)
    → m < 2 ^ 23
    → e ≤ 33
    → scaled e m < 2 ^ 256
    → (value (from_compact (compact (e * 2 ^ 24 + m))).inner ≡ scaled e m)
      × IsU256 (from_compact (compact (e * 2 ^ 24 + m))).inner
unfolding from_compact mantissa_exponent
from_packed e m hm he fits =
    let top : (e * 2 ^ 24 + m) / 2 ^ 24 ≡ e = omega arith in
    let low : bit_and (e * 2 ^ 24 + m) 0xFFFFFF ≡ m = and_mask 24 (e * 2 ^ 24 + m) ∙ omega arith in
    elim (Bool-cases (leb e 3)) [
      | inl short ↦
          let q = m / 2 ^ (8 * (3 - e)) in
          let small : q < 2 ^ 23 = omega (arith, div-le_self m (2 ^ (8 * (3 - e)))) in
          let (v, w) = shifted q 0 small (omega arith) (omega arith) in
          rw (top, low, short, no_sign q small)
            (v ∙ omega (arith, scaled_short e m (leb→le e 3 short)), w)
      | inr long ↦
          let e' = scaled_long e m (leb-false e 3 long) in
          let (v, w) = shifted m (8 * (e - 3)) hm (omega arith) (omega (arith, e', fits)) in
          rw (top, low, long, no_sign m hm) (v ∙ sym e', w)
    ]

times_div : (x q : ℕ) → 0 < q → x * q / q ≡ x
times_div x q h = div_unique (x * q) q x 0 (omega arith) h

-- Up to exponent 3 nothing is lost.
scaled_exact : (t e m : ℕ) → IsCompact t e m → e ≤ 3 → scaled e m ≡ t
scaled_exact t e m c h = scaled_short e m h ∙ rw whole (times_div t q (pow_pos (8 * (3 - e))))
  where
    q : ℕ
    q = 2 ^ (8 * (3 - e))

    whole : m ≡ t * q
    whole =
        c.bytes ∙ rw (← short_split e h) (div_unique _ _ (t * q) 0 (omega arith) (pow_pos (8 * e)))

-- Above it the mantissa is a quotient.
quotient_long : (t e m : ℕ) → IsCompact t e m → 3 < e → m ≡ t / 2 ^ (8 * (e - 3))
quotient_long t e m c h =
    c.bytes
    ∙ rw (← long_split e h) (mul-div-mul_right {m = 2 ^ 24} t (2 ^ (8 * (e - 3))) (omega arith))

near_of : (t q m : ℕ) → 0 < q → m ≡ t / q → (m * q ≤ t) × (t < m * q + q)
near_of t q m h e =
    let whole : m * q + t % q ≡ t = rw e (omega (arith, div-add-mod t q)) in
    (omega (arith, whole), omega (arith, whole, mod-lt t h))

close_of :
    (t q m : ℕ)
    → 0 < q
    → m ≡ t / q
    → (0 < t → 2 ^ 15 ≤ m)
    → (m * q ≤ t) × (2 ^ 15 * (t - m * q) ≤ t)
close_of t q m h e precise =
    let (low, high) = near_of t q m h e in (low, grind (arith, low, high, precise, le_times))
  where
    le_times : (x y z : ℕ) → x ≤ y → x * z ≤ y * z
    le_times x y z h = grind arith

-- What a mantissa and an exponent of `t` stand for is at most `t`, and loses at most one part in
-- 2^15 of it.
pub scaled_close :
    (t e m : ℕ) → IsCompact t e m → (scaled e m ≤ t) × (2 ^ 15 * (t - scaled e m) ≤ t)
scaled_close t e m c = elim (Bool-cases (leb e 3)) [
  | inl short ↦ rw (scaled_exact t e m c (leb→le e 3 short)) (omega arith, omega arith)
  | inr long ↦
      let far = leb-false e 3 long in
      rw (scaled_long e m far)
        (close_of t _ m (pow_pos (8 * (e - 3))) (quotient_long t e m c far) c.precise)
]

-- Scaled back up, the mantissa is the leading bytes again.
again_bytes : (e m : ℕ) → 3 < e → m ≡ m * 2 ^ (8 * (e - 3)) * 2 ^ 24 / 2 ^ (8 * e)
again_bytes e m h =
    rw (← long_split e h)
      (sym (div_unique _ _ m 0 (omega arith) (rw (long_split e h) (pow_pos (8 * e)))))

-- It has the same mantissa and exponent again.
pub scaled-IsCompact : (t e m : ℕ) → IsCompact t e m → IsCompact (scaled e m) e m
scaled-IsCompact t e m c = elim (Bool-cases (leb e 3)) [
  | inl short ↦ rw (scaled_exact t e m c (leb→le e 3 short)) c
  | inr long ↦
      let (low, high) = scaled_close t e m c in
      let far = leb-false e 3 long in
      let up = scaled_long e m far in
      record {
        bytes = rw up (again_bytes e m far);
        unsigned = c.unsigned;
        precise = λ h. c.precise (omega (arith, low));
        at_zero = λ z. c.at_zero (
            no_part t (m * 2 ^ (8 * (e - 3))) (omega (arith, up, z))
              (λ h. positive m _ (c.precise h) (pow_pos (8 * (e - 3)))));
        at_most = c.at_most;
      }
]
  where
    positive : (x y : ℕ) → 2 ^ 15 ≤ x → 0 < y → 0 < x * y
    positive x y h k = grind arith

    no_part : (t x : ℕ) → x ≡ 0 → (0 < t → 0 < x) → t ≡ 0
    no_part t x z h = ground (arith, h)

further : (e e' : ℕ) → e < e' → 8 + 8 * e ≤ 8 * e'
further e e' h = omega arith

-- A quotient below 2^23 falls below 2^15 when the divisor grows by 256.
far_apart : (x p q : ℕ) → 0 < p → 0 < q → 256 * p ≤ q → x / p < 2 ^ 23 → 2 ^ 15 ≤ x / q → ⊥
far_apart x p q hp hq a b c =
    let (low, high) = near_of x p (x / p) hp refl in
    let (low', high') = near_of x q (x / q) hq refl in
    grind (
      arith,
      low',
      high,
      le_times (x / p + 1) (2 ^ 23) p (omega arith),
      le_times (2 ^ 15) (x / q) q c,
    )
  where
    le_times : (x y z : ℕ) → x ≤ y → x * z ≤ y * z
    le_times x y z h = grind arith

exponent_not_less : (t e m e' m' : ℕ) → 0 < t → IsCompact t e m → IsCompact t e' m' → e < e' → ⊥
exponent_not_less t e m e' m' h c c' lt =
    far_apart (t * 2 ^ 24) (2 ^ (8 * e)) (2 ^ (8 * e')) (pow_pos (8 * e)) (pow_pos (8 * e')) apart
      (rw (← c.bytes) c.unsigned) (rw (← c'.bytes) (c'.precise h))
  where
    apart : 256 * 2 ^ (8 * e) ≤ 2 ^ (8 * e')
    apart =
        omega (arith, pow-add 8 (8 * e), pow-le-pow_right {n = 2} (omega arith) (further e e' lt))

-- The mantissa and the exponent are determined.
pub IsCompact-unique : (t e m e' m' : ℕ) → IsCompact t e m → IsCompact t e' m' → (e ≡ e') × (m ≡ m')
IsCompact-unique t e m e' m' c c' = elim (Bool-cases (t == 0)) [
  | inl zero_t ↦ same (omega (arith, c.at_zero (ground arith), c'.at_zero (ground arith)))
  | inr some_t ↦ same (
      tight e e' (exponent_not_less t e m e' m' (ground arith) c c')
        (exponent_not_less t e' m' e m (ground arith) c' c))
]
  where
    tight : (a b : ℕ) → ¬ (a < b) → ¬ (b < a) → a ≡ b
    tight a b h k = omega arith

    same : e ≡ e' → (e ≡ e') × (m ≡ m')
    same q = (q, c.bytes ∙ rw q (sym c'.bytes))

-- Writing a 256-bit target and reading it gives a target that is at most the original and loses at
-- most one part in 2^15 of it.
pub from_compact-to_compact_lossy :
    (t : Target)
    → IsU256 t.inner
    → let back = value (from_compact (to_compact_lossy t)).inner in
      (back ≤ value t.inner) × (2 ^ 15 * (value t.inner - back) ≤ value t.inner)
from_compact-to_compact_lossy t ht =
    let (e, m, c, packed) = to_compact_lem t ht in
    let (low, close) = scaled_close _ e m c in
    let (v, w) = from_packed e m c.unsigned c.at_most (omega (arith, low, value-lt t.inner ht)) in
    rw (packed, v) (low, close)

-- For a 256-bit target, writing what was read from the written target gives the same bits: the loss
-- happens once.
pub to_compact_lossy_idempotent :
    (t : Target)
    → IsU256 t.inner
    → to_compact_lossy (from_compact (to_compact_lossy t)) ≡ to_compact_lossy t
to_compact_lossy_idempotent t ht =
    let (e, m, c, packed) = to_compact_lem t ht in
    let (low, close) = scaled_close _ e m c in
    let (v, w) = from_packed e m c.unsigned c.at_most (omega (arith, low, value-lt t.inner ht)) in
    let (e', m', c', packed') = to_compact_lem (from_compact (compact (e * 2 ^ 24 + m))) w in
    let (same_e, same_m) = IsCompact-unique _ e' m' e m (rw v at c') (scaled-IsCompact _ e m c) in
    rw (packed, packed', same_e, same_m)

unsigned_or_zero :
    (x s : ℕ)
    → x < 2 ^ 24
    → IsU256
        (if ltb 0x7F_FFFF x
          then target U256.zero_value
          else target (U256.wrapping_shl (U256.from_u128 x) s)).inner
unsigned_or_zero x s h = elim (Bool-cases (ltb 0x7F_FFFF x)) [
  | inl sign ↦ rw sign (omega arith)
  | inr clear ↦ rw clear (wrapping_shl-IsU256 (U256.from_u128 x) s (omega arith))
]

-- Every target that is read from bits is a 256-bit number.
pub from_compact-IsU256 : (c : CompactTarget) → c.consensus < 2 ^ 32 → IsU256 (from_compact c).inner
unfolding from_compact mantissa_exponent
from_compact-IsU256 c h =
    let bits = c.consensus in
    let low : bit_and bits 0xFFFFFF ≡ bits % 2 ^ 24 = and_mask 24 bits in
    elim (Bool-cases (leb (bits / 2 ^ 24) 3)) [
      | inl short ↦
          rw (short, low)
            (unsigned_or_zero _ 0
              (omega (arith, div-le_self (bits % 2 ^ 24) (2 ^ (8 * (3 - bits / 2 ^ 24))))))
      | inr long ↦ rw (long, low) (unsigned_or_zero _ (8 * (bits / 2 ^ 24 - 3)) (omega arith))
    ]
