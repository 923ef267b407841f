-- ===== src/Pow/Examples.antt =====
-- The theorems on bitcoin/src/pow.rs at numbers.
use rust_dogecoin.Common.{ℕ, ◌≡◌, refl, arith, ◌^◌, ◌*◌, ◌/◌, ◌%◌, ◌+◌, ◌-◌, ◌≤◌, true, false, some}
use rust_dogecoin.Common.Int.{pos}
use rust_dogecoin.Dogecoin.Params.{mainnet_params, is_digishield_activated}
use rust_dogecoin.Pow.U256
use rust_dogecoin.Pow.U256.{U256, u256, value, IsU256, max_value}
use rust_dogecoin.Pow.U256.Product.{overflowing_mul_small, overflowing_mul-value}
use rust_dogecoin.Pow.U256.Quotient.{div_rem_lem, IsDivision}
use rust_dogecoin.Pow.U256.Inverse.{inverse_lem}
use rust_dogecoin.Pow.Target
use rust_dogecoin.Pow.Target.{
  Target, target, compact, CompactTarget, from_compact, to_compact_lossy,
}
use rust_dogecoin.Pow.Target.Lossy.{from_compact-to_compact_lossy}
use rust_dogecoin.Pow.Retarget
use rust_dogecoin.Pow.Retarget.Timespan.{
  modulated_timespan_lem, shortest, longest, counted, seconds,
}
use rust_dogecoin.Pow.Retarget.Bounds.{
  max_transition_threshold_dogecoin_lem, from_next_work_required_dogecoin_lem, ceiling, next_target,
  IsWritten,
}
use Prim.Native.Nat.{min}

-- 2^129 + 7
abbrev large : U256
large = u256 2 7

large-IsU256 : IsU256 large
large-IsU256 = (omega arith, omega arith)

-- 2^192
abbrev high_word : U256
high_word = u256 (2 ^ 64) 0

high_word-IsU256 : IsU256 high_word
high_word-IsU256 = (omega arith, omega arith)

-- 2^255 * 2: the product is lost, and the flag does not tell.
overflowing_mul_small_example :
    (value (U256.overflowing_mul (u256 (2 ^ 127) 0) (u256 0 2)).0
      ≡ value (u256 (2 ^ 127) 0) * value (u256 0 2) % 2 ^ 256)
    × ((U256.overflowing_mul (u256 (2 ^ 127) 0) (u256 0 2)).1 ≡ false)
    × IsU256 (U256.overflowing_mul (u256 (2 ^ 127) 0) (u256 0 2)).0
overflowing_mul_small_example =
    overflowing_mul_small (u256 (2 ^ 127) 0) (u256 0 2) (omega arith, omega arith)
      (omega arith, omega arith) (omega arith)

-- 1 * 2^192: the result is 1.
overflowing_mul-value_example :
    value (U256.overflowing_mul (u256 0 1) high_word).0
    ≡ value (u256 0 1) * (value high_word % 2 ^ 192 + value high_word / 2 ^ 192) % 2 ^ 256
overflowing_mul-value_example =
    overflowing_mul-value (u256 0 1) high_word (omega arith, omega arith) high_word-IsU256

div_rem_lem_example :
    (out : U256 × U256) × (U256.div_rem high_word large ≡ some out)
    × IsDivision (value high_word) (value large) out
div_rem_lem_example = div_rem_lem high_word large high_word-IsU256 large-IsU256 (omega arith)

inverse_lem_example :
    (r : U256) × (U256.inverse large ≡ some r) × (value r ≡ 2 ^ 256 / (value large + 1)) × IsU256 r
inverse_lem_example = inverse_lem large large-IsU256 (omega arith) (omega arith)

modulated_timespan_lem_example :
    (m : ℕ) × (Retarget.modulated_timespan true (pos 100) mainnet_params 150_000 ≡ some (pos m))
    × (shortest
          (is_digishield_activated mainnet_params 150_000)
          150_000
          (seconds mainnet_params 150_000)
        ≤ m)
    × (m
        ≤ longest (is_digishield_activated mainnet_params 150_000) (seconds mainnet_params 150_000))
modulated_timespan_lem_example =
    modulated_timespan_lem true (pos 100) mainnet_params 150_000 (omega arith, omega arith)

max_transition_threshold_dogecoin_lem_example :
    (r : Target) × (Retarget.max_transition_threshold_dogecoin true
        (target large)
        mainnet_params
        150_000
      ≡ some r)
    × (value r.inner
        ≡ min
            (ceiling (is_digishield_activated mainnet_params 150_000) (value (target large).inner))
            (value mainnet_params.max_attainable_target.inner))
    × IsU256 r.inner
max_transition_threshold_dogecoin_lem_example =
    max_transition_threshold_dogecoin_lem true (target large) mainnet_params 150_000 large-IsU256
      (omega arith, omega arith) (omega arith)

from_compact-to_compact_lossy_example :
    (value (from_compact (to_compact_lossy (target large))).inner ≤ value large)
    × (2 ^ 15 * (value large - value (from_compact (to_compact_lossy (target large))).inner)
        ≤ value large)
from_compact-to_compact_lossy_example = from_compact-to_compact_lossy (target large) large-IsU256

-- The bits of an early block, 0x1e0ffff0.
early_small : value (from_compact (compact 0x1e0ffff0)).inner ≤ 2 ^ 240
unfolding from_compact U256.wrapping_shl Target.mantissa_exponent
early_small = omega arith

from_next_work_required_dogecoin_lem_example :
    (c : CompactTarget) × (Retarget.from_next_work_required_dogecoin true
        (compact 0x1e0ffff0)
        (pos 100)
        mainnet_params
        150_000
      ≡ some c)
    × IsWritten
        (next_target
          (is_digishield_activated mainnet_params 150_000)
          (value (from_compact (compact 0x1e0ffff0)).inner)
          (counted
            (is_digishield_activated mainnet_params 150_000)
            150_000
            (seconds mainnet_params 150_000)
            (pos 100))
          (seconds mainnet_params 150_000)
          (value mainnet_params.max_attainable_target.inner))
        c
from_next_work_required_dogecoin_lem_example =
    from_next_work_required_dogecoin_lem true (compact 0x1e0ffff0) (pos 100) mainnet_params 150_000
      refl (omega arith, omega arith) (omega arith) (omega arith, omega arith) early_small

-- 100 seconds for the 60 aimed at count as 65, and 1000 as the longest timespan, 90.
counted_100 : counted true 150_000 60 (pos 100) ≡ 65
counted_100 = omega arith

counted_1000 : counted true 150_000 60 (pos 1000) ≡ 90
counted_1000 = omega arith
