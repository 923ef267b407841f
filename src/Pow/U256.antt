-- ===== src/Pow/U256.antt =====
-- `U256` of bitcoin/src/pow.rs: a 256-bit unsigned integer as a high and a low `u128`.
-- A `u128` is a number below 2^128, and what wraps is written out. The proofs are in the children.
pub mod Sum
pub mod Operators
pub mod Inverse
pub mod SetBit
pub mod Rounds
pub mod Quotient
pub mod Length
pub mod Product
pub mod Shift
pub mod Wire
mod Runs
use rust_dogecoin.Common.{
  ℕ, zero, suc, ◌+◌, ◌-◌, ◌*◌, ◌/◌, ◌%◌, ◌^◌, ◌≤◌, ◌<◌, ◌≡◌, Bool, true, false, ◌&&◌, ◌||◌, not,
  Option, none, some, List, [], ◌∷◌, ◌++◌, ltb, leb, ◌==◌, if◌then◌else◌, bit_or,
}
use rust_dogecoin.Common.Bytes.{to_le_bytes, from_le_bytes}
use rust_dogecoin.Common.{reverse, take, drop, length, ◌>>=◌}

-- `U256(hi, lo)`
pub record U256 : Type 0 where
  pub hi : ℕ
  pub lo : ℕ

abbrev pub u256 : ℕ → ℕ → U256
u256 h l = record { hi = h; lo = l }

-- Both words are `u128`s.
abbrev pub IsU256 : U256 → Type 0
IsU256 u = (u.hi < 2 ^ 128) × (u.lo < 2 ^ 128)

-- The number that a `U256` stands for.
abbrev pub value : U256 → ℕ
value u = u.hi * 2 ^ 128 + u.lo

abbrev pub max_value : U256
max_value = u256 (2 ^ 128 - 1) (2 ^ 128 - 1)

abbrev pub zero_value : U256
zero_value = u256 0 0

abbrev pub one_value : U256
one_value = u256 0 1

-- `From<T>` for the unsigned types up to `u128`
abbrev pub from_u128 : ℕ → U256
from_u128 x = u256 0 x

-- The derived order: the high words first.
unfoldable pub lt : U256 → U256 → Bool
lt a b = if a.hi == b.hi then ltb a.lo b.lo else ltb a.hi b.hi

unfoldable pub le : U256 → U256 → Bool
le a b = not (lt b a)

unfoldable pub is_zero : U256 → Bool
is_zero u = (u.hi == 0) && (u.lo == 0)

unfoldable pub is_one : U256 → Bool
is_one u = (u.hi == 0) && (u.lo == 1)

unfoldable pub is_max : U256 → Bool
is_max u = (u.hi == 2 ^ 128 - 1) && (u.lo == 2 ^ 128 - 1)

unfoldable pub low_u128 : U256 → ℕ
low_u128 u = u.lo

unfoldable pub low_u64 : U256 → ℕ
unfolding low_u128
low_u64 u = low_u128 u % 2 ^ 64

unfoldable pub low_u32 : U256 → ℕ
unfolding low_u128
low_u32 u = low_u128 u % 2 ^ 32

unfoldable pub saturating_to_u128 : U256 → ℕ
saturating_to_u128 u = if lt (from_u128 (2 ^ 128 - 1)) u then 2 ^ 128 - 1 else low_u128 u

-- `u128::overflowing_add`
abbrev pub overflowing_add_u128 : ℕ → ℕ → ℕ × Bool
overflowing_add_u128 a b = ((a + b) % 2 ^ 128, leb (2 ^ 128) (a + b))

unfoldable pub overflowing_add : U256 → U256 → U256 × Bool
overflowing_add a b =
    let (high, over_high) = overflowing_add_u128 a.hi b.hi in
    let (low, over_low) = overflowing_add_u128 a.lo b.lo in
    let (high', over_carry) = overflowing_add_u128 high 1 in
    if over_low then (u256 high' low, over_high || over_carry) else (u256 high low, over_high)

unfoldable pub wrapping_add : U256 → U256 → U256
wrapping_add a b = (overflowing_add a b).0

-- `!self`
unfoldable pub complement : U256 → U256
complement u = u256 (2 ^ 128 - 1 - u.hi) (2 ^ 128 - 1 - u.lo)

unfoldable pub overflowing_sub : U256 → U256 → U256 × Bool
overflowing_sub a b = (wrapping_add (wrapping_add a (complement b)) one_value, lt a b)

unfoldable pub wrapping_sub : U256 → U256 → U256
wrapping_sub a b = (overflowing_sub a b).0

unfoldable pub wrapping_inc : U256 → U256
wrapping_inc u =
    let low = (u.lo + 1) % 2 ^ 128 in u256 (if low == 0 then (u.hi + 1) % 2 ^ 128 else u.hi) low

-- `<<` and `>>`: the shift is taken modulo 256.
unfoldable pub wrapping_shl : U256 → ℕ → U256
wrapping_shl u rhs =
    let shift = rhs % 256 in
    let bit_shift = shift % 128 in
    if leb 128 shift
    then u256 (u.lo * 2 ^ bit_shift % 2 ^ 128) 0
    else u256
        (if ltb 0 bit_shift
          then (u.hi * 2 ^ bit_shift % 2 ^ 128 + u.lo / 2 ^ (128 - bit_shift)) % 2 ^ 128
          else u.hi * 2 ^ bit_shift % 2 ^ 128)
        (u.lo * 2 ^ bit_shift % 2 ^ 128)

unfoldable pub wrapping_shr : U256 → ℕ → U256
wrapping_shr u rhs =
    let shift = rhs % 256 in
    let bit_shift = shift % 128 in
    if leb 128 shift
    then u256 0 (u.hi / 2 ^ bit_shift)
    else u256 (u.hi / 2 ^ bit_shift) (
        if ltb 0 bit_shift
        then (u.lo / 2 ^ bit_shift + u.hi * 2 ^ (128 - bit_shift) % 2 ^ 128) % 2 ^ 128
        else u.lo / 2 ^ bit_shift)

-- Binary digits of `x`, found in at most `w` steps.
unfoldable pub bit_length : ℕ → ℕ → ℕ
bit_length zero x = 0
bit_length (suc w) x = if x == 0 then 0 else suc (bit_length w (x / 2))

-- `u128::leading_zeros`
abbrev pub leading_zeros : ℕ → ℕ
leading_zeros x = 128 - bit_length 128 x

unfoldable pub bits : U256 → ℕ
bits u = if ltb 0 u.hi then 256 - leading_zeros u.hi else 128 - leading_zeros u.lo

-- One round of the loop of `mul_u64`: the new word and the new carry.
unfoldable pub mul_word : ℕ → ℕ → ℕ → ℕ × ℕ
mul_word rhs carry word = let n = carry + rhs * word in (n % 2 ^ 64, n / 2 ^ 64)

unfoldable pub mul_u64 : U256 → ℕ → U256 × Bool
mul_u64 u rhs =
    let (w0, c0) = mul_word rhs 0 (u.lo % 2 ^ 64) in
    let (w1, c1) = mul_word rhs c0 (u.lo / 2 ^ 64 % 2 ^ 64) in
    let (w2, c2) = mul_word rhs c1 (u.hi % 2 ^ 64) in
    let (w3, c3) = mul_word rhs c2 (u.hi / 2 ^ 64 % 2 ^ 64) in
    (u256 (bit_or w2 (w3 * 2 ^ 64)) (bit_or w0 (w1 * 2 ^ 64)), not (c3 == 0))

-- One round `i` of the loop of `overflowing_mul`.
unfoldable pub mul_round : U256 → U256 → ℕ → U256 → U256
mul_round a b i ret =
    wrapping_add ret (wrapping_shl (mul_u64 a (low_u64 (wrapping_shr b (64 * i)))).0 (64 * i))

unfoldable pub overflowing_mul : U256 → U256 → U256 × Bool
overflowing_mul a b =
    let low = mul_round a b 2 (mul_round a b 1 (mul_round a b 0 zero_value)) in
    let (top, over_mul) = mul_u64 a (low_u64 (wrapping_shr b 192)) in
    let (sum, over_add) = overflowing_add low top in (sum, over_mul || over_add)

-- `ret[1 - shift / 128] |= 1 << (shift % 128)`
unfoldable pub set_bit : U256 → ℕ → U256
set_bit q shift =
    if ltb shift 128
    then u256 q.hi (bit_or q.lo (2 ^ (shift % 128)))
    else u256 (bit_or q.hi (2 ^ (shift % 128))) q.lo

-- The body of the loop of `div_rem`, without the shift: what is left and the quotient so far.
unfoldable pub div_step : ℕ → U256 → U256 → U256 → U256 × U256
div_step shift sub_copy shift_copy ret =
    if le shift_copy sub_copy
    then (wrapping_sub sub_copy shift_copy, set_bit ret shift)
    else (sub_copy, ret)

-- The loop of `div_rem`, which ends after the round at shift 0.
unfoldable pub div_loop : ℕ → U256 → U256 → U256 → U256 × U256
div_loop zero sub_copy shift_copy ret =
    let (sub_copy', ret') = div_step 0 sub_copy shift_copy ret in (ret', sub_copy')
div_loop (suc n) sub_copy shift_copy ret =
    let (sub_copy', ret') = div_step (suc n) sub_copy shift_copy ret in
    div_loop n sub_copy' (wrapping_shr shift_copy 1) ret'

-- Quotient and remainder; `none` is the panic on a zero divisor.
unfoldable pub div_rem : U256 → U256 → Option (U256 × U256)
div_rem a b =
    if bits b == 0
    then none
    else if ltb (bits a) (bits b)
    then some (zero_value, a)
    else some (div_loop (bits a - bits b) a (wrapping_shl b (bits a - bits b)) zero_value)

-- The operators. With debug assertions on, `+`, `-` and `*` panic when the flag is set.
abbrev pub checked : Bool → U256 × Bool → Option U256
checked debug (res, overflow) = if debug && overflow then none else some res

unfoldable pub add : Bool → U256 → U256 → Option U256
add debug a b = checked debug (overflowing_add a b)

unfoldable pub sub : Bool → U256 → U256 → Option U256
sub debug a b = checked debug (overflowing_sub a b)

unfoldable pub mul : Bool → U256 → U256 → Option U256
mul debug a b = checked debug (overflowing_mul a b)

unfoldable pub div : U256 → U256 → Option U256
div a b = do (q, r) ← div_rem a b; some q

-- 2^256 / (u + 1), with the cases that the code singles out.
unfoldable pub inverse : U256 → Option U256
inverse u =
    if is_zero u
    then some max_value
    else if is_one u
    then some max_value
    else if is_max u
    then some one_value
    else do ret ← div (complement u) (wrapping_inc u); some (wrapping_inc ret)

-- Byte arrays are lists of 32 bytes.
unfoldable pub split_in_half : List ℕ → List ℕ × List ℕ
split_in_half a = (take 16 a, drop 16 a)

unfoldable pub u256_from_be_bytes : List ℕ → U256
u256_from_be_bytes a =
    let (high, low) = split_in_half a in
    u256 (from_le_bytes (reverse high)) (from_le_bytes (reverse low))

unfoldable pub u256_from_le_bytes : List ℕ → U256
u256_from_le_bytes a =
    let (high, low) = split_in_half a in u256 (from_le_bytes low) (from_le_bytes high)

unfoldable pub u256_to_be_bytes : U256 → List ℕ
u256_to_be_bytes u = reverse (to_le_bytes 16 u.hi) ++ reverse (to_le_bytes 16 u.lo)

unfoldable pub u256_to_le_bytes : U256 → List ℕ
u256_to_le_bytes u = to_le_bytes 16 u.lo ++ to_le_bytes 16 u.hi
