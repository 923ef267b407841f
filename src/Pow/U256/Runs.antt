-- ===== src/Pow/U256/Runs.antt =====
-- Runs of `U256` at numbers.
use rust_dogecoin.Common.{◌≡◌, refl, some, false, ◌^◌}
use rust_dogecoin.Pow.U256.{
  complement, overflowing_sub, wrapping_sub, lt, le, overflowing_add, bit_length, wrapping_add,
  bits, set_bit, low_u64, wrapping_shr, wrapping_shl, mul_word, div_step, mul_u64, div_loop,
  mul_round, u256, zero_value, overflowing_mul, div_rem,
}

div_run :
    div_rem (u256 5 17) (u256 0 1000)
    ≡ some (u256 0 1701411834604692317316873037158841057, u256 0 297)
unfolding div_rem div_loop div_step wrapping_shl wrapping_shr set_bit bits bit_length le lt
    wrapping_sub overflowing_sub wrapping_add overflowing_add complement
div_run = refl

mul_lost : overflowing_mul (u256 (2 ^ 127) 0) (u256 0 2) ≡ (zero_value, false)
unfolding overflowing_mul mul_round mul_u64 mul_word wrapping_shl wrapping_shr low_u64 wrapping_add
    overflowing_add
mul_lost = refl
