-- ===== src/Blockdata/LockTime/Relative.antt =====
-- bitcoin/src/blockdata/locktime/relative.rs, units/src/locktime/relative.rs and `Sequence` of
-- bitcoin/src/blockdata/transaction.rs: a relative lock time is a number of blocks or of intervals of 512
-- seconds, in the low half of a sequence number. Sums of `u32` wrap as in a release build.
use rust_dogecoin.Common.{
  ℕ, ◌+◌, ◌/◌, ◌%◌, ◌^◌, Bool, true, false, not, ◌&&◌, leb, ltb, ◌==◌, if◌then◌else◌, bit_and,
  bit_or, Option, none, some,
}
use rust_dogecoin.Common.Results.{Result, ok, err}

pub data TimeOverflowError : Type 0 where
  time_overflow : ℕ → TimeOverflowError

pub data DisabledLockTimeError : Type 0 where
  disabled : ℕ → DisabledLockTimeError

pub data IncompatibleError : Type 0 where
  incompatible_height : ℕ → ℕ → IncompatibleError
  incompatible_time : ℕ → ℕ → IncompatibleError

pub data LockTime : Type 0 where
  blocks : ℕ → LockTime
  time : ℕ → LockTime

-- A sequence number is its `u32`.
unfoldable pub enables_absolute_lock_time : ℕ → Bool
enables_absolute_lock_time sequence = not (sequence == 0xffff_ffff)

unfoldable pub is_final : ℕ → Bool
is_final sequence = not (enables_absolute_lock_time sequence)

unfoldable pub is_rbf : ℕ → Bool
is_rbf sequence = ltb sequence 0xffff_fffe

unfoldable pub is_relative_lock_time : ℕ → Bool
is_relative_lock_time sequence = bit_and sequence 0x8000_0000 == 0

unfoldable pub is_height_locked : ℕ → Bool
is_height_locked sequence = is_relative_lock_time sequence && (bit_and sequence 0x0040_0000 == 0)

unfoldable pub is_time_locked : ℕ → Bool
is_time_locked sequence = is_relative_lock_time sequence && ltb 0 (bit_and sequence 0x0040_0000)

unfoldable pub sequence_from_512_second_intervals : ℕ → ℕ
sequence_from_512_second_intervals intervals = bit_or intervals 0x0040_0000

unfoldable pub from_seconds_floor : ℕ → Result ℕ TimeOverflowError
from_seconds_floor seconds =
    if leb (seconds / 512) 0xffff then ok (seconds / 512) else err (time_overflow seconds)

unfoldable pub from_seconds_ceil : ℕ → Result ℕ TimeOverflowError
from_seconds_ceil seconds =
    let interval = (seconds + 511) % 2 ^ 32 / 512 in
    if leb interval 0xffff then ok interval else err (time_overflow seconds)

unfoldable pub to_relative_lock_time : ℕ → Option LockTime
to_relative_lock_time sequence =
    if not (is_relative_lock_time sequence)
    then none
    else if is_time_locked sequence
    then some (time (sequence % 2 ^ 16))
    else some (blocks (sequence % 2 ^ 16))

unfoldable pub or_disabled : ℕ → Option LockTime → Result LockTime DisabledLockTimeError
or_disabled n (some lock) = ok lock
or_disabled n none = err (disabled n)

unfoldable pub from_consensus : ℕ → Result LockTime DisabledLockTimeError
from_consensus n = or_disabled n (to_relative_lock_time n)

unfoldable pub to_consensus_u32 : LockTime → ℕ
to_consensus_u32 (blocks h) = h
to_consensus_u32 (time t) = bit_or (2 ^ 22) t

unfoldable pub is_same_unit : LockTime → LockTime → Bool
is_same_unit (blocks this) (blocks other) = true
is_same_unit (time this) (time other) = true
is_same_unit (blocks this) (time other) = false
is_same_unit (time this) (blocks other) = false

unfoldable pub is_implied_by : LockTime → LockTime → Bool
is_implied_by (blocks this) (blocks other) = leb this other
is_implied_by (time this) (time other) = leb this other
is_implied_by (blocks this) (time other) = false
is_implied_by (time this) (blocks other) = false

unfoldable pub implied_by_result : LockTime → Result LockTime DisabledLockTimeError → Bool
implied_by_result lock (ok other) = is_implied_by lock other
implied_by_result lock (err e) = false

unfoldable pub is_implied_by_sequence : LockTime → ℕ → Bool
is_implied_by_sequence lock other = implied_by_result lock (from_consensus other)

unfoldable pub is_satisfied_by_height : LockTime → ℕ → Result Bool IncompatibleError
is_satisfied_by_height (blocks h) height = ok (leb h height)
is_satisfied_by_height (time t) height = err (incompatible_height height t)

unfoldable pub is_satisfied_by_time : LockTime → ℕ → Result Bool IncompatibleError
is_satisfied_by_time (time t) now = ok (leb t now)
is_satisfied_by_time (blocks h) now = err (incompatible_time now h)

-- `Ok(true)`
unfoldable pub is_ok_true : Result Bool IncompatibleError → Bool
is_ok_true (ok satisfied) = satisfied
is_ok_true (err e) = false

unfoldable pub is_satisfied_by : LockTime → ℕ → ℕ → Bool
is_satisfied_by lock h t =
    if is_ok_true (is_satisfied_by_height lock h)
    then true
    else is_ok_true (is_satisfied_by_time lock t)
