-- ===== src/Pow/Target/Compact.antt =====
-- The compact form of a target: what `to_compact_lossy` keeps, and that `from_compact` reads it back.
use rust_dogecoin.Common.{
  ℕ, ◌+◌, ◌-◌, ◌*◌, ◌/◌, ◌%◌, ◌^◌, ◌≤◌, ◌<◌, ◌≡◌, ◌≢◌, arith, sym, ◌∙◌, ap, leb, ◌==◌, bit_and,
  bit_or, inl, inr, Bool-cases, leb→le, leb-false,
}
use rust_dogecoin.Common.Bits.{
  pow_split, pow_pos, pow-add, div_unique, div_lt, and_bit, or_disjoint_low,
}
use rust_dogecoin.Pow.U256
use rust_dogecoin.Pow.U256.{U256, IsU256, value, low_u64, low_u32, low_u128}
use rust_dogecoin.Pow.U256.Shift.{wrapping_shr_lem}
use rust_dogecoin.Pow.U256.Length.{bits_lem, IsLength}
use rust_dogecoin.Pow.Target.{Target, compact, leading_bytes, to_compact_lossy}
use native.Mathlib.Nat.{pow-le-pow_right, mul-div-mul_right, div-div-eq-div-mul, zero-div}

-- `s` bytes hold `t`, and `s - 1` do not.
record IsSize (s t : ℕ) : Type 0 where
  above : t < 2 ^ (8 * s)
  below : 0 < t → 2 ^ (8 * s) ≤ 256 * t
  at_zero : t ≡ 0 → s ≡ 0
  at_most : s ≤ 32

size_of_length : (n t : ℕ) → IsLength n t → n ≤ 256 → IsSize ((n + 7) / 8) t
size_of_length n t len b = record {
  above = omega (arith, len.above, pow-le-pow_right {n = 2} (omega arith) (up n));
  below =
      λ h. omega (arith, len.below h, pow-le-pow_right {n = 2} (omega arith) (down n), pow-add n 7);
  at_zero = λ e. omega (arith, len.at_zero e);
  at_most = omega arith;
}
  where
    up : (n : ℕ) → n ≤ 8 * ((n + 7) / 8)
    up n = omega arith

    down : (n : ℕ) → 8 * ((n + 7) / 8) ≤ n + 7
    down n = omega arith

-- The three leading bytes of `t`, of size `s`: `t * 2^24 / 2^(8 s)`.
record IsLeading (t s m : ℕ) : Type 0 where
  size : IsSize s t
  bytes : m ≡ t * 2 ^ 24 / 2 ^ (8 * s)

-- They fill three bytes.
leading_bounds : (t s m : ℕ) → IsLeading t s m → (m < 2 ^ 24) × (0 < t → 2 ^ 16 ≤ m)
leading_bounds t s m l = (
  rw l.bytes (div_lt (t * 2 ^ 24) p (2 ^ 24) (pow_pos (8 * s)) (omega (arith, l.size.above))),
  λ h.
      rw l.bytes (le_div (t * 2 ^ 24) p (2 ^ 16) (pow_pos (8 * s)) (omega (arith, l.size.below h))),
)
  where
    p : ℕ
    p = 2 ^ (8 * s)

    le_div : (x p q : ℕ) → 0 < p → q * p ≤ x → q ≤ x / p
    le_div x p q hp h = grind arith

low_u64-value : (u : U256) → value u < 2 ^ 64 → low_u64 u ≡ value u
unfolding low_u64
low_u64-value u h = omega arith

low_u32-value : (u : U256) → value u < 2 ^ 32 → low_u32 u ≡ value u
unfolding low_u32
low_u32-value u h = omega arith

pub short_split : (s : ℕ) → s ≤ 3 → 2 ^ (8 * (3 - s)) * 2 ^ (8 * s) ≡ 2 ^ 24
short_split s h =
    let e : 8 * (3 - s) ≡ 24 - 8 * s = omega arith in rw e (pow_split 24 (8 * s) (omega arith))

pub long_split : (s : ℕ) → 3 < s → 2 ^ (8 * (s - 3)) * 2 ^ 24 ≡ 2 ^ (8 * s)
long_split s h =
    let e : 8 * (s - 3) ≡ 8 * s - 24 = omega arith in rw e (pow_split (8 * s) 24 (omega arith))

-- Up to three bytes are shifted up to three.
short_value :
    (t s : ℕ)
    → s ≤ 3
    → t < 2 ^ (8 * s)
    → (t * 2 ^ (8 * (3 - s)) ≡ t * 2 ^ 24 / 2 ^ (8 * s)) × (t * 2 ^ (8 * (3 - s)) < 2 ^ 24)
short_value t s h small = (
  sym (div_unique _ (2 ^ (8 * s)) _ 0 (rw (← short_split s h) (omega arith)) (pow_pos (8 * s))),
  rw (← short_split s h) (scaled (2 ^ (8 * (3 - s))) t (2 ^ (8 * s)) (pow_pos (8 * (3 - s))) small),
)
  where
    scaled : (p x y : ℕ) → 0 < p → x < y → x * p < p * y
    scaled p x y hp h = grind arith

-- Of more than three bytes the leading three are kept.
long_value :
    (t s : ℕ)
    → 3 < s
    → t < 2 ^ (8 * s)
    → (t / 2 ^ (8 * (s - 3)) ≡ t * 2 ^ 24 / 2 ^ (8 * s)) × (t / 2 ^ (8 * (s - 3)) < 2 ^ 24)
long_value t s h small = (
  rw (← long_split s h) (sym (mul-div-mul_right {m = 2 ^ 24} t (2 ^ (8 * (s - 3))) (omega arith))),
  div_lt t (2 ^ (8 * (s - 3))) (2 ^ 24) (pow_pos (8 * (s - 3)))
      (omega (arith, small, long_split s h)),
)

leading_bytes_lem :
    (u : U256) → IsU256 u → IsLeading (value u) (leading_bytes u).0 (leading_bytes u).1
unfolding leading_bytes
leading_bytes_lem u hu =
    let (len, b) = bits_lem u hu in
    let sz = size_of_length (U256.bits u) (value u) len b in
    let s = (U256.bits u + 7) / 8 in
    elim (Bool-cases (leb s 3)) [
      | inl short ↦
          let s3 : s ≤ 3 = leb→le s 3 short in
          let (v, small) = short_value (value u) s s3 sz.above in
          let t_small : value u < 2 ^ 24 =
            omega (arith, sz.above, pow-le-pow_right {n = 2} (omega arith) (eight_up s s3)) in
          rw (short, low_u64-value u (omega (arith, t_small)))
            (record { size = sz; bytes = omega (arith, v, small) })
      | inr long ↦
          let (v, w) = wrapping_shr_lem u (8 * (s - 3)) hu (omega (arith, sz.at_most)) in
          let (lv, small) = long_value (value u) s (leb-false s 3 long) sz.above in
          rw (long, low_u32-value (U256.wrapping_shr u (8 * (s - 3))) (omega (arith, v, small)))
            (record { size = sz; bytes = v ∙ lv })
    ]
  where
    eight_up : (s : ℕ) → s ≤ 3 → 8 * s ≤ 24
    eight_up s h = omega arith

-- `m` and `e` are the mantissa and the exponent of `t`: `m` is `t * 2^24 / 2^(8 e)`, it leaves the
-- sign bit clear, and it has at least 15 digits unless `t` is zero.
pub record IsCompact (t e m : ℕ) : Type 0 where
  pub bytes : m ≡ t * 2 ^ 24 / 2 ^ (8 * e)
  pub unsigned : m < 2 ^ 23
  pub precise : 0 < t → 2 ^ 15 ≤ m
  pub at_zero : t ≡ 0 → e ≡ 0
  pub at_most : e ≤ 33

-- Three bytes with the sign bit clear stay; with it set, one byte more is dropped.
unsigned_lem : (t s m : ℕ) → IsLeading t s m → m / 2 ^ 23 % 2 ≡ 0 → IsCompact t s m
unsigned_lem t s m l clear =
    let (small, large) = leading_bounds t s m l in
    record {
      bytes = l.bytes;
      unsigned = omega arith;
      precise = λ h. omega (arith, large h);
      at_zero = l.size.at_zero;
      at_most = omega (arith, l.size.at_most);
    }

signed_lem : (t s m : ℕ) → IsLeading t s m → m / 2 ^ 23 % 2 ≢ 0 → IsCompact t (s + 1) (m / 2 ^ 8)
signed_lem t s m l set =
    let (small, large) = leading_bounds t s m l in
    record {
      bytes = rw l.bytes (
          div-div-eq-div-mul (t * 2 ^ 24) (2 ^ (8 * s)) (2 ^ 8)
          ∙ ap (λ (p : ℕ). t * 2 ^ 24 / p) next);
      unsigned = omega arith;
      precise = λ h. omega arith;
      at_zero = λ z. absurd (set (rw (l.bytes, z) (zero_div (2 ^ (8 * s)))));
      at_most = omega (arith, l.size.at_most);
    }
  where
    next : 2 ^ (8 * s) * 2 ^ 8 ≡ 2 ^ (8 * (s + 1))
    next = let e : 8 * (s + 1) ≡ 8 * s + 8 = omega arith in rw (e, pow-add (8 * s) 8)

    zero_div : (p : ℕ) → 0 * 2 ^ 24 / p / 2 ^ 23 % 2 ≡ 0
    zero_div p = omega (arith, zero-div p)

-- `compact | (size << 24)`
pack : (e m : ℕ) → m < 2 ^ 24 → e ≤ 33 → bit_or m (e * 2 ^ 24 % 2 ^ 32) ≡ e * 2 ^ 24 + m
pack e m h le =
    let whole : e * 2 ^ 24 % 2 ^ 32 ≡ e * 2 ^ 24 = omega arith in
    rw whole (or_disjoint_low 24 e m h)

-- `to_compact_lossy` packs a mantissa and an exponent of the target.
pub to_compact_lem :
    (t : Target)
    → IsU256 t.inner
    → (e m : ℕ) × IsCompact (value t.inner) e m × (to_compact_lossy t ≡ compact (e * 2 ^ 24 + m))
unfolding to_compact_lossy
to_compact_lem t ht =
    let l = leading_bytes_lem t.inner ht in
    let s = (leading_bytes t.inner).0 in
    let m = (leading_bytes t.inner).1 in
    let (small, large) = leading_bounds (value t.inner) s m l in
    let sign : bit_and m 0x0080_0000 ≡ m / 2 ^ 23 % 2 * 2 ^ 23 = and_bit 23 m in
    elim (Bool-cases (bit_and m 0x0080_0000 == 0)) [
      | inl clear ↦ (
        s,
        m,
        unsigned_lem _ s m l (ground (arith, sign)),
        rw clear (ap compact (pack s m small (omega (arith, l.size.at_most)))),
      )
      | inr set ↦ (
        s + 1,
        m / 2 ^ 8,
        signed_lem _ s m l (ground (arith, sign)),
        rw set
            (ap compact (pack (s + 1) (m / 2 ^ 8) (omega arith) (omega (arith, l.size.at_most)))),
      )
    ]
