-- ===== src/Pow/U256/Sum.antt =====
-- Order, sums, differences and the successor of `U256`, as arithmetic modulo 2^256.
use rust_dogecoin.Common.{◌+◌, ◌-◌, ◌%◌, ◌^◌, ◌<◌, ◌≡◌, arith, ltb, leb}
use rust_dogecoin.Pow.U256.{
  U256, IsU256, value, lt, le, overflowing_add, wrapping_add, complement, overflowing_sub,
  wrapping_sub, wrapping_inc, one_value,
}

pub value-inj : (a b : U256) → IsU256 a → IsU256 b → value a ≡ value b → a ≡ b
value-inj a b (ah, al) (bh, bl) e = ground (arith)

pub value-lt : (a : U256) → IsU256 a → value a < 2 ^ 256
value-lt a (h, l) = omega arith

pub lt-value : (a b : U256) → IsU256 a → IsU256 b → lt a b ≡ ltb (value a) (value b)
unfolding lt
lt-value a b (ah, al) (bh, bl) = ground arith

pub le-value : (a b : U256) → IsU256 a → IsU256 b → le a b ≡ leb (value a) (value b)
unfolding le lt
le-value a b (ah, al) (bh, bl) = ground arith

-- For 256-bit numbers, the result is the sum modulo 2^256, a 256-bit number, and the flag tells
-- whether the sum is 2^256 or more.
pub overflowing_add_lem :
    (a b : U256)
    → IsU256 a
    → IsU256 b
    → (value (overflowing_add a b).0 ≡ (value a + value b) % 2 ^ 256)
      × ((overflowing_add a b).1 ≡ leb (2 ^ 256) (value a + value b))
      × IsU256 (overflowing_add a b).0
unfolding overflowing_add
overflowing_add_lem a b (ah, al) (bh, bl) =
    (ground arith, ground arith, (ground arith, ground arith))

pub wrapping_add_lem :
    (a b : U256)
    → IsU256 a
    → IsU256 b
    → (value (wrapping_add a b) ≡ (value a + value b) % 2 ^ 256) × IsU256 (wrapping_add a b)
unfolding wrapping_add
wrapping_add_lem a b ha hb = let (v, f, w) = overflowing_add_lem a b ha hb in (v, w)

pub complement_lem :
    (a : U256) → IsU256 a → (value (complement a) ≡ 2 ^ 256 - 1 - value a) × IsU256 (complement a)
unfolding complement
complement_lem a (h, l) = omega arith

-- For 256-bit numbers, the result is the difference modulo 2^256, a 256-bit number, and the flag
-- tells whether the left number is below the right one.
pub overflowing_sub_lem :
    (a b : U256)
    → IsU256 a
    → IsU256 b
    → (value (overflowing_sub a b).0 ≡ (value a + 2 ^ 256 - value b) % 2 ^ 256)
      × ((overflowing_sub a b).1 ≡ ltb (value a) (value b))
      × IsU256 (overflowing_sub a b).0
unfolding overflowing_sub
overflowing_sub_lem a b ha hb =
    let (cv, cw) = complement_lem b hb in
    let (sv, sw) = wrapping_add_lem a (complement b) ha cw in
    let (tv, tw) = wrapping_add_lem (wrapping_add a (complement b)) one_value sw (omega arith) in
    (omega (arith, value-lt a ha, value-lt b hb), lt-value a b ha hb, tw)

pub wrapping_sub_lem :
    (a b : U256)
    → IsU256 a
    → IsU256 b
    → (value (wrapping_sub a b) ≡ (value a + 2 ^ 256 - value b) % 2 ^ 256)
      × IsU256 (wrapping_sub a b)
unfolding wrapping_sub
wrapping_sub_lem a b ha hb = let (v, f, w) = overflowing_sub_lem a b ha hb in (v, w)

pub wrapping_inc_lem :
    (a : U256)
    → IsU256 a
    → (value (wrapping_inc a) ≡ (value a + 1) % 2 ^ 256) × IsU256 (wrapping_inc a)
unfolding wrapping_inc
wrapping_inc_lem a (h, l) = (ground arith, (ground arith, ground arith))
