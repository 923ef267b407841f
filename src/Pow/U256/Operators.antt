-- ===== src/Pow/U256/Operators.antt =====
-- The operators `+`, `-`, `*` of `U256` where the result fits: no panic, with and without debug
-- assertions.
use rust_dogecoin.Common.{◌+◌, ◌-◌, ◌*◌, ◌^◌, ◌≤◌, ◌<◌, ◌≡◌, arith, ◌∙◌, false, Bool, some}
use rust_dogecoin.Pow.U256.{
  U256, IsU256, value, checked, add, sub, mul, overflowing_add, overflowing_sub, overflowing_mul,
}
use rust_dogecoin.Pow.U256.Sum.{overflowing_add_lem, overflowing_sub_lem, value-lt}
use rust_dogecoin.Pow.U256.Product.{overflowing_mul_small}

checked_ok : (debug : Bool) (r : U256 × Bool) → r.1 ≡ false → checked debug r ≡ some r.0
checked_ok debug (r, over) e = ground arith

pub add_exact :
    (debug : Bool) (a b : U256)
    → IsU256 a
    → IsU256 b
    → value a + value b < 2 ^ 256
    → (r : U256) × (add debug a b ≡ some r) × (value r ≡ value a + value b) × IsU256 r
unfolding add
add_exact debug a b ha hb fits =
    let (v, f, w) = overflowing_add_lem a b ha hb in
    (
      (overflowing_add a b).0,
      checked_ok debug (overflowing_add a b) (f ∙ ground arith),
      omega (arith, v),
      w,
    )

pub sub_exact :
    (debug : Bool) (a b : U256)
    → IsU256 a
    → IsU256 b
    → value b ≤ value a
    → (r : U256) × (sub debug a b ≡ some r) × (value r ≡ value a - value b) × IsU256 r
unfolding sub
sub_exact debug a b ha hb fits =
    let (v, f, w) = overflowing_sub_lem a b ha hb in
    (
      (overflowing_sub a b).0,
      checked_ok debug (overflowing_sub a b) (f ∙ ground arith),
      omega (arith, v, value-lt a ha),
      w,
    )

pub mul_exact :
    (debug : Bool) (a b : U256)
    → IsU256 a
    → IsU256 b
    → value b < 2 ^ 192
    → value a * value b < 2 ^ 256
    → (r : U256) × (mul debug a b ≡ some r) × (value r ≡ value a * value b) × IsU256 r
unfolding mul
mul_exact debug a b ha hb small fits =
    let (v, f, w) = overflowing_mul_small a b ha hb small in
    ((overflowing_mul a b).0, checked_ok debug (overflowing_mul a b) f, omega (arith, v, fits), w)
