-- ===== src/Pow/Retarget.antt =====
-- The difficulty adjustments of Dogecoin: `min_transition_threshold_dogecoin`,
-- `max_transition_threshold_dogecoin`, `from_next_work_required_dogecoin` and
-- `from_header_difficulty_adjustment_dogecoin` of bitcoin/src/pow.rs.
-- `debug` tells whether overflow checks are on, and `none` is a panic.
pub mod Timespan
pub mod Bounds
use rust_dogecoin.Common.{ℕ, ◌*◌, ◌^◌, ◌%◌, Bool, Option, some, leb, if◌then◌else◌, ◌>>=◌}
use rust_dogecoin.Common.Int.{
  ℤ, pos, ◌+ℤ◌, ◌-ℤ◌, div_ℤ, shr_ℤ, clamp, to_word, of_word, checked_i64,
}
use rust_dogecoin.Pow.U256
use rust_dogecoin.Pow.Target
use rust_dogecoin.Pow.Target.{
  Target, CompactTarget, target, from_compact, to_compact_lossy, min_target,
}
use rust_dogecoin.Dogecoin.Params.{Params, is_digishield_activated, pow_target_timespan}

-- By how many bits the target may fall before Digishield.
abbrev pub fall_shift : ℕ → ℕ
fall_shift height = if leb height 5_000 then 4 else if leb height 10_000 then 3 else 2

unfoldable pub min_transition_threshold_dogecoin : Bool → Target → Params → ℕ → Option Target
min_transition_threshold_dogecoin debug t p height =
    if is_digishield_activated p height
    then (do u ← U256.sub debug t.inner (U256.wrapping_shr t.inner 2); some (target u))
    else some (target (U256.wrapping_shr t.inner (fall_shift height)))

unfoldable pub max_transition_threshold_dogecoin : Bool → Target → Params → ℕ → Option Target
max_transition_threshold_dogecoin debug t p height =
    if is_digishield_activated p height
    then (do
      u ← U256.add debug t.inner (U256.wrapping_shr t.inner 1)
      some (min_target (target u) p.max_attainable_target))
    else some (min_target (Target.max_transition_threshold_unchecked t) p.max_attainable_target)

-- The timespan under Digishield: an eighth of the deviation counts, and the result is clamped.
unfoldable pub damped_timespan : Bool → ℤ → ℤ → Option ℤ
damped_timespan debug timespan retarget_timespan = do
  deviation ← checked_i64 debug (timespan -ℤ retarget_timespan)
  modulated ← checked_i64 debug (retarget_timespan +ℤ div_ℤ deviation 8)
  min_timespan ← checked_i64 debug (retarget_timespan -ℤ shr_ℤ retarget_timespan 2)
  max_timespan ← checked_i64 debug (retarget_timespan +ℤ shr_ℤ retarget_timespan 1)
  some (clamp modulated min_timespan max_timespan)

-- Before Digishield it is clamped alone; `<<` drops what leaves the word.
unfoldable pub clamped_timespan : ℤ → ℤ → ℕ → ℤ
clamped_timespan timespan retarget_timespan height =
    clamp timespan (shr_ℤ retarget_timespan (fall_shift height))
      (of_word 64 (to_word 64 retarget_timespan * 2 ^ 2 % 2 ^ 64))

-- The timespan that the retarget uses.
unfoldable pub modulated_timespan : Bool → ℤ → Params → ℕ → Option ℤ
modulated_timespan debug timespan p height =
    if is_digishield_activated p height
    then damped_timespan debug timespan (pow_target_timespan p height)
    else some (clamped_timespan timespan (pow_target_timespan p height) height)

unfoldable pub from_next_work_required_dogecoin :
    Bool → CompactTarget → ℤ → Params → ℕ → Option CompactTarget
from_next_work_required_dogecoin debug last timespan p height =
    if p.no_pow_retargeting then some last else do
      modulated ← modulated_timespan debug timespan p height
      let prev_target = from_compact last
      maximum_retarget ← max_transition_threshold_dogecoin debug prev_target p height
      product ← U256.mul debug prev_target.inner (U256.from_u128 (to_word 64 modulated))
      retarget ← U256.div product (U256.from_u128 (to_word 64 (pow_target_timespan p height)))
      some (
          to_compact_lossy
            (if U256.le maximum_retarget.inner retarget then maximum_retarget else target retarget))

-- `current.time`, `last_epoch_boundary.time` and `current.bits` of two headers.
unfoldable pub from_header_difficulty_adjustment_dogecoin :
    Bool → ℕ → ℕ → CompactTarget → Params → ℕ → Option CompactTarget
from_header_difficulty_adjustment_dogecoin debug last_time time bits p height = do
  timespan ← checked_i64 debug (pos time -ℤ pos last_time)
  from_next_work_required_dogecoin debug bits timespan p height
