-- ===== src/Pow/U256/Shift.antt =====
-- Shifts of `U256` as products and quotients by powers of two.
use rust_dogecoin.Common.{
  ℕ, ◌+◌, ◌-◌, ◌*◌, ◌/◌, ◌%◌, ◌^◌, ◌≤◌, ◌<◌, ◌≡◌, arith, ltb, ap, sym, ◌∙◌, inl, inr, Bool-cases,
}
use rust_dogecoin.Common.Bits.{pow_split, digit_room, div_lt, pow_pos, div_unique}
use rust_dogecoin.Pow.U256.{U256, IsU256, value, wrapping_shl, wrapping_shr}
use mathlib.Core.Path.{subst}
use native.Mathlib.Nat.{div-add-mod, mod-lt, mul_comm, div-div-eq-div-mul, div-le_self}

-- A word times `p` splits at `q * p`: the part that leaves the word, and the part that stays.
times_split :
    (x p q m : ℕ) → q * p ≡ m → 0 < p → 0 < q → (x * p ≡ x / q * m + x % q * p) × (x % q * p < m)
times_split x p q m e hp hq = (
  ap (λ (t : ℕ). t * p) (sym (div-add-mod x q)) ∙ rw (← e) (grind arith),
  rw (← e) (grind (arith, mod-lt x hq)),
)

-- `<<` by less than a word, on words: `p` is 2^s and `q` is 2^(128 - s).
shl_words :
    (h l p q : ℕ)
    → q * p ≡ 2 ^ 128
    → 0 < p
    → 0 < q
    → ((h * p % 2 ^ 128 + l / q) % 2 ^ 128) * 2 ^ 128 + l * p % 2 ^ 128
      ≡ (h * 2 ^ 128 + l) * p % 2 ^ 256
shl_words h l p q e hp hq = let (s, b) = times_split l p q _ e hp hq in omega (arith, s, b)

regroup :
    (h l p q : ℕ)
    → q * p ≡ 2 ^ 128
    → h * 2 ^ 128 + l ≡ (h / p * 2 ^ 128 + (l / p + h % p * q)) * p + l % p
regroup h l p q e =
    rw (← e) (omega (arith, ap (λ (t : ℕ). t * (q * p)) (div-add-mod h p), div-add-mod l p))

shr_words :
    (h l p q : ℕ)
    → q * p ≡ 2 ^ 128
    → 0 < p
    → 0 < q
    → h < 2 ^ 128
    → l < 2 ^ 128
    → (h / p) * 2 ^ 128 + (l / p + h * q % 2 ^ 128) % 2 ^ 128 ≡ (h * 2 ^ 128 + l) / p
shr_words h l p q e hp hq hh hl =
    let (s, b) = times_split h q p _ (mul_comm p q ∙ e) hq hp in
    let low : l / p < q = div_lt l p q hp (rw e hl) in
    let fits : l / p + h % p * q < 2 ^ 128 = digit_room (h % p) (l / p) p q (mod-lt h hp) low e in
    let whole : (h * 2 ^ 128 + l) / p ≡ h / p * 2 ^ 128 + (l / p + h % p * q) =
      div_unique _ p _ (l % p) (regroup h l p q e) (mod-lt l hp) in
    omega (arith, s, b, fits, whole)

pow_zero_at : (s : ℕ) → s ≡ 0 → 2 ^ s ≡ 1
pow_zero_at s e = rw e

shl_high :
    (h l s : ℕ)
    → 128 ≤ s
    → l * 2 ^ (s - 128) % 2 ^ 128 * 2 ^ 128 ≡ (h * 2 ^ 128 + l) * 2 ^ s % 2 ^ 256
shl_high h l s g = rw (← pow_split s 128 g) (omega arith)

-- For a 256-bit number and a shift below 256, the left shift is the product by the power of two
-- modulo 2^256, a 256-bit number.
pub wrapping_shl_lem :
    (u : U256) (s : ℕ)
    → IsU256 u
    → s < 256
    → (value (wrapping_shl u s) ≡ value u * 2 ^ s % 2 ^ 256) × IsU256 (wrapping_shl u s)
unfolding wrapping_shl
wrapping_shl_lem u s (hh, hl) b = elim (Bool-cases (ltb s 128)) [
  | inl low ↦
      let e : s % 256 ≡ s = omega arith in
      let e' : s % 128 ≡ s = ground arith in
      let words =
        shl_words u.hi u.lo (2 ^ s) (2 ^ (128 - s)) (pow_split 128 s (ground arith)) (pow_pos s)
          (pow_pos (128 - s)) in
      rw (e, e') (ground (arith, words, pow_zero_at s), (ground arith, ground arith))
  | inr high ↦
      let e : s % 256 ≡ s = omega arith in
      let e' : s % 128 ≡ s - 128 = ground arith in
      rw (e, e') (ground (arith, shl_high u.hi u.lo s), (ground arith, ground arith))
]

shr_high : (h l s : ℕ) → 128 ≤ s → l < 2 ^ 128 → h / 2 ^ (s - 128) ≡ (h * 2 ^ 128 + l) / 2 ^ s
shr_high h l s g hl =
    let e : (h * 2 ^ 128 + l) / 2 ^ 128 ≡ h = omega arith in
    rw (← pow_split s 128 g, mul_comm (2 ^ (s - 128)) (2 ^ 128), ← div-div-eq-div-mul, e)

-- For a 256-bit number and a shift below 256, the right shift is the quotient by the power of two,
-- a 256-bit number.
pub wrapping_shr_lem :
    (u : U256) (s : ℕ)
    → IsU256 u
    → s < 256
    → (value (wrapping_shr u s) ≡ value u / 2 ^ s) × IsU256 (wrapping_shr u s)
unfolding wrapping_shr
wrapping_shr_lem u s (hh, hl) b = elim (Bool-cases (ltb s 128)) [
  | inl low ↦
      let e : s % 256 ≡ s = omega arith in
      let e' : s % 128 ≡ s = ground arith in
      let words =
        shr_words u.hi u.lo (2 ^ s) (2 ^ (128 - s)) (pow_split 128 s (ground arith)) (pow_pos s)
          (pow_pos (128 - s)) hh hl in
      rw (e, e')
        (
          ground (arith, words, pow_zero_at s),
          (ground (arith, div-le_self u.hi (2 ^ s)), ground (arith, div-le_self u.lo (2 ^ s))),
        )
  | inr high ↦
      let e : s % 256 ≡ s = omega arith in
      let e' : s % 128 ≡ s - 128 = ground arith in
      rw (e, e')
        (
          ground (arith, shr_high u.hi u.lo s),
          (ground arith, ground (arith, div-le_self u.hi (2 ^ (s - 128)))),
        )
]

-- A left shift by any amount is one by its lowest eight bits.
pub wrapping_shl-IsU256 : (u : U256) (s : ℕ) → IsU256 u → IsU256 (wrapping_shl u s)
unfolding wrapping_shl
wrapping_shl-IsU256 u s h = subst IsU256 same ((wrapping_shl_lem u (s % 256) h (omega arith)).1)
  where
    same : wrapping_shl u (s % 256) ≡ wrapping_shl u s
    same = let e : s % 256 % 256 ≡ s % 256 = omega arith in rw e
