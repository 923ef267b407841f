-- ===== src/Pow/U256/Product.antt =====
-- Products of `U256`: `mul_u64` is exact with its flag; `overflowing_mul` is exact modulo 2^256, and
-- its flag misses an overflow of the three lower rounds.
use rust_dogecoin.Common.{
  false, ℕ, ◌+◌, ◌*◌, ◌/◌, ◌%◌, ◌^◌, ◌<◌, ◌≡◌, ◌||◌, arith, leb, bit_or, ap, ◌∙◌, sym,
}
use rust_dogecoin.Common.Bits.{or_disjoint_low}
use rust_dogecoin.Pow.U256.{
  U256, IsU256, value, mul_word, mul_u64, mul_round, overflowing_mul, wrapping_shr, low_u64,
  zero_value,
}
use native.Mathlib.Nat.{div-add-mod}
use rust_dogecoin.Pow.U256.Sum.{value-lt, wrapping_add_lem, overflowing_add_lem}
use rust_dogecoin.Pow.U256.Shift.{wrapping_shl_lem, wrapping_shr_lem}

word_room : (m r c w : ℕ) → r < m → c < m → w < m → c + r * w < m * m
word_room m r c w hr hc hw = grind arith

mul_word_lem :
    (r c w : ℕ)
    → r < 2 ^ 64
    → c < 2 ^ 64
    → w < 2 ^ 64
    → ((mul_word r c w).0 + (mul_word r c w).1 * 2 ^ 64 ≡ c + r * w)
      × ((mul_word r c w).0 < 2 ^ 64)
      × ((mul_word r c w).1 < 2 ^ 64)
unfolding mul_word
mul_word_lem r c w hr hc hw =
    (omega arith, omega arith, omega (arith, word_room (2 ^ 64) r c w hr hc hw))

two_words : (x r : ℕ) → x < 2 ^ 128 → x * r ≡ r * (x % 2 ^ 64) + r * (x / 2 ^ 64 % 2 ^ 64) * 2 ^ 64
two_words x r h =
    let e : x ≡ x % 2 ^ 64 + x / 2 ^ 64 % 2 ^ 64 * 2 ^ 64 = omega arith in
    omega (arith, ap (λ (t : ℕ). t * r) e)

-- Joining two 64-bit words by `|`.
join : (x y : ℕ) → x < 2 ^ 64 → bit_or x (y * 2 ^ 64) ≡ y * 2 ^ 64 + x
join x y h = or_disjoint_low 64 y x h

-- For a 256-bit number and a factor below 2^64, the result is the product modulo 2^256, a 256-bit
-- number, and the flag tells whether the product is 2^256 or more.
pub mul_u64_lem :
    (u : U256) (r : ℕ)
    → IsU256 u
    → r < 2 ^ 64
    → (value (mul_u64 u r).0 ≡ value u * r % 2 ^ 256)
      × ((mul_u64 u r).1 ≡ leb (2 ^ 256) (value u * r))
      × IsU256 (mul_u64 u r).0
unfolding mul_u64
mul_u64_lem u r (hh, hl) hr =
    let (e0, l0, b0) = mul_word_lem r 0 (u.lo % 2 ^ 64) hr (omega arith) (omega arith) in
    let (e1, l1, b1) = mul_word_lem r _ (u.lo / 2 ^ 64 % 2 ^ 64) hr b0 (omega arith) in
    let (e2, l2, b2) = mul_word_lem r _ (u.hi % 2 ^ 64) hr b1 (omega arith) in
    let (e3, l3, b3) = mul_word_lem r _ (u.hi / 2 ^ 64 % 2 ^ 64) hr b2 (omega arith) in
    rw (join _ _ l0, join _ _ l2)
      (
        omega (arith, e0, e1, e2, e3, l0, l1, l2, l3, two_words u.lo r hl, two_words u.hi r hh),
        ground (arith, e0, e1, e2, e3, l0, l1, l2, l3, two_words u.lo r hl, two_words u.hi r hh),
        (omega (arith, l2, l3), omega (arith, l0, l1)),
      )

low_u64-shr :
    (b : U256) (s : ℕ) → IsU256 b → s < 256 → low_u64 (wrapping_shr b s) ≡ value b / 2 ^ s % 2 ^ 64
unfolding low_u64
low_u64-shr b s hb h = let (v, w) = wrapping_shr_lem b s hb h in omega (arith, v)

-- A remainder inside a sum of products can be dropped.
wrap_inside : (x y p : ℕ) → (x + y % 2 ^ 256 * p % 2 ^ 256) % 2 ^ 256 ≡ (x + y * p) % 2 ^ 256
wrap_inside x y p =
    let e : y * p ≡ y / 2 ^ 256 * p * 2 ^ 256 + y % 2 ^ 256 * p =
      ap (λ (t : ℕ). t * p) (sym (div-add-mod y (2 ^ 256))) ∙ omega arith in
    omega (arith, e)

-- The three lower words of `y`, one after the other.
add_rounds :
    (x y r0 r1 r2 : ℕ)
    → r0 ≡ (0 + x * (y / 2 ^ 0 % 2 ^ 64) * 2 ^ 0) % 2 ^ 256
    → r1 ≡ (r0 + x * (y / 2 ^ 64 % 2 ^ 64) * 2 ^ 64) % 2 ^ 256
    → r2 ≡ (r1 + x * (y / 2 ^ 128 % 2 ^ 64) * 2 ^ 128) % 2 ^ 256
    → r2 ≡ x * (y % 2 ^ 192) % 2 ^ 256
add_rounds x y r0 r1 r2 e0 e1 e2 =
    let words : y % 2 ^ 192
        ≡ y % 2 ^ 64 + y / 2 ^ 64 % 2 ^ 64 * 2 ^ 64 + y / 2 ^ 128 % 2 ^ 64 * 2 ^ 128 =
      omega arith in
    let low : y / 2 ^ 0 % 2 ^ 64 ≡ y % 2 ^ 64 = omega arith in
    omega (arith, e1, e2, rw low at e0, ap (λ (t : ℕ). x * t) words)

module _ (a b : U256) (ha : IsU256 a) (hb : IsU256 b) where
  -- Round `i` adds the product by word `i` of `b`, shifted to its place.
  mul_round_lem :
      (i : ℕ) (ret : U256)
      → IsU256 ret
      → i < 3
      → (value (mul_round a b i ret)
          ≡ (value ret + value a * (value b / 2 ^ (64 * i) % 2 ^ 64) * 2 ^ (64 * i)) % 2 ^ 256)
        × IsU256 (mul_round a b i ret)
  unfolding mul_round
  mul_round_lem i ret hr hi =
      let word = low_u64-shr b (64 * i) hb (omega arith) in
      let (mv, mf, mw) =
        mul_u64_lem a (low_u64 (wrapping_shr b (64 * i))) ha (rw word (omega arith)) in
      let (sv, sw) = wrapping_shl_lem _ (64 * i) mw (omega arith) in
      let (rv, rw') = wrapping_add_lem ret _ hr sw in
      (rv ∙ rw (sv, mv, word) (wrap_inside (value ret) _ (2 ^ (64 * i))), rw')

  low_rounds : U256
  low_rounds = mul_round a b 2 (mul_round a b 1 (mul_round a b 0 zero_value))

  low_rounds_lem : (value low_rounds ≡ value a * (value b % 2 ^ 192) % 2 ^ 256) × IsU256 low_rounds
  unfolding low_rounds
  low_rounds_lem =
      let (v0, w0) = mul_round_lem 0 zero_value (omega arith) (omega arith) in
      let (v1, w1) = mul_round_lem 1 _ w0 (omega arith) in
      let (v2, w2) = mul_round_lem 2 _ w1 (omega arith) in
      (add_rounds (value a) (value b) _ _ _ v0 v1 v2, w2)

  -- The top word of `b` is added without its shift by 192.
  overflowing_mul_lem :
      (value (overflowing_mul a b).0 ≡ value a * (value b % 2 ^ 192 + value b / 2 ^ 192) % 2 ^ 256)
      × IsU256 (overflowing_mul a b).0
      × ((overflowing_mul a b).1 ≡ (
          leb (2 ^ 256) (value a * (value b / 2 ^ 192))
          || leb (2 ^ 256) (value low_rounds + value a * (value b / 2 ^ 192) % 2 ^ 256)))
  unfolding overflowing_mul low_rounds
  overflowing_mul_lem =
      let (lv, lw) = low_rounds_lem in
      let word : low_u64 (wrapping_shr b 192) ≡ value b / 2 ^ 192 =
        low_u64-shr b 192 hb (omega arith) ∙ omega (arith, value-lt b hb) in
      let (mv, mf, mw) =
        mul_u64_lem a (low_u64 (wrapping_shr b 192)) ha (rw word (omega (arith, value-lt b hb))) in
      let (sv, sf, sw) =
        overflowing_add_lem low_rounds (mul_u64 a (low_u64 (wrapping_shr b 192))).0 lw mw in
      (sv ∙ rw (mv, word, lv) (omega arith), sw, rw (mf, sf, mv, word))

  -- For 256-bit numbers, the right one below 2^192, the result is the product modulo 2^256, a
  -- 256-bit number, and the flag is never set.
  pub overflowing_mul_small :
      value b < 2 ^ 192
      → (value (overflowing_mul a b).0 ≡ value a * value b % 2 ^ 256)
        × ((overflowing_mul a b).1 ≡ false)
        × IsU256 (overflowing_mul a b).0
  overflowing_mul_small small =
      let (v, w, f) = overflowing_mul_lem in
      let whole : value b % 2 ^ 192 + value b / 2 ^ 192 ≡ value b = omega arith in
      let none_above : value b / 2 ^ 192 ≡ 0 = omega arith in
      let (lv, lw) = low_rounds_lem in
      (v ∙ rw whole, f ∙ rw none_above (ground (arith, value-lt low_rounds lw)), w)

  -- For 256-bit numbers, the result is the left number times the sum of the right one's lower 192
  -- bits and its top 64 bits, modulo 2^256: the top word counts as a lowest word.
  pub overflowing_mul-value :
      value (overflowing_mul a b).0 ≡ value a * (value b % 2 ^ 192 + value b / 2 ^ 192) % 2 ^ 256
  overflowing_mul-value = overflowing_mul_lem.0
