-- ===== src/Blockdata/LockTime/Absolute.antt =====
-- bitcoin/src/blockdata/locktime/absolute.rs and units/src/locktime/absolute.rs: an absolute lock time is
-- a block height or a time, told apart by a threshold.
use rust_dogecoin.Common.{ℕ, Bool, true, false, not, leb, ltb, if◌then◌else◌}
use rust_dogecoin.Common.Results.{Result, ok, err}
use rust_dogecoin.Blockdata.Transaction.{TxIn, Transaction}
use rust_dogecoin.Common.{List, [], ◌∷◌, ◌||◌, ◌==◌}

abbrev pub lock_time_threshold : ℕ
lock_time_threshold = 500_000_000

pub data ConversionError : Type 0 where
  invalid_height : ℕ → ConversionError
  invalid_time : ℕ → ConversionError

pub data LockTime : Type 0 where
  blocks : ℕ → LockTime
  seconds : ℕ → LockTime

unfoldable pub height_from_consensus : ℕ → Result ℕ ConversionError
height_from_consensus n = if ltb n lock_time_threshold then ok n else err (invalid_height n)

unfoldable pub time_from_consensus : ℕ → Result ℕ ConversionError
time_from_consensus n = if leb lock_time_threshold n then ok n else err (invalid_time n)

unfoldable pub from_consensus : ℕ → LockTime
from_consensus n = if ltb n lock_time_threshold then blocks n else seconds n

abbrev pub map_ok {ℓ κ} :
    {A : Type ℓ} {B : Type κ} → (A → B) → Result A ConversionError → Result B ConversionError
map_ok f (ok a) = ok (f a)
map_ok f (err e) = err e

unfoldable pub from_height : ℕ → Result LockTime ConversionError
from_height n = map_ok (λ h. blocks h) (height_from_consensus n)

unfoldable pub from_time : ℕ → Result LockTime ConversionError
from_time n = map_ok (λ t. seconds t) (time_from_consensus n)

unfoldable pub to_consensus_u32 : LockTime → ℕ
to_consensus_u32 (blocks h) = h
to_consensus_u32 (seconds t) = t

unfoldable pub is_same_unit : LockTime → LockTime → Bool
is_same_unit (blocks a) (blocks b) = true
is_same_unit (seconds a) (seconds b) = true
is_same_unit (blocks a) (seconds b) = false
is_same_unit (seconds a) (blocks b) = false

unfoldable pub is_satisfied_by : LockTime → ℕ → ℕ → Bool
is_satisfied_by (blocks n) height time = leb n height
is_satisfied_by (seconds n) height time = leb n time

unfoldable pub is_implied_by : LockTime → LockTime → Bool
is_implied_by (blocks this) (blocks other) = leb this other
is_implied_by (seconds this) (seconds other) = leb this other
is_implied_by (blocks this) (seconds other) = false
is_implied_by (seconds this) (blocks other) = false

-- `Sequence::MAX` disables the lock time of an input.
unfoldable pub enables_lock_time : TxIn → Bool
enables_lock_time i = not (i.sequence == 0xffff_ffff)

abbrev pub any_enables : List TxIn → Bool
any_enables [] = false
any_enables (i ∷ is) = enables_lock_time i || any_enables is

unfoldable pub is_lock_time_enabled : Transaction → Bool
is_lock_time_enabled tx = any_enables tx.input

unfoldable pub is_absolute_timelock_satisfied : Transaction → ℕ → ℕ → Bool
is_absolute_timelock_satisfied tx height time =
    if not (is_lock_time_enabled tx)
    then true
    else is_satisfied_by (from_consensus tx.lock_time) height time
