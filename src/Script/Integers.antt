-- ===== src/Script/Integers.antt =====
-- The numbers of scripts, bitcoin/src/blockdata/script/mod.rs: little-endian magnitudes of the least
-- length, with the sign in the highest bit. The bytes written are the ones of the eight-byte buffer up to
-- the returned length; `none` is the panic of a write past the buffer.
pub mod Magnitude
pub mod Reading
pub mod Written
pub mod RoundTrip
use rust_dogecoin.Common.{
  ℕ, zero, suc, ◌+◌, ◌-◌, ◌*◌, ◌/◌, ◌%◌, ◌^◌, List, [], ◌∷◌, ◌++◌, Option, none, some, Bool, true,
  false, not, ◌&&◌, length, reverse, leb, ltb, ◌==◌, if◌then◌else◌, bit_and, bit_or,
}
use rust_dogecoin.Common.Int.{ℤ, pos, negsuc, sub_ℕ}
use rust_dogecoin.Blockdata.Transaction.{OutPoint}
use rust_dogecoin.Common.Results.{Result, ok, err}

pub data Error : Type 0 where
  non_minimal_push : Error
  early_end_of_script : Error
  numeric_overflow : Error
  unknown_spent_output : OutPoint → Error
  serialization : Error

unfoldable pub unsigned_abs : ℤ → ℕ
unsigned_abs (pos n) = n
unsigned_abs (negsuc n) = suc n

abbrev pub is_negative : ℤ → Bool
is_negative (pos n) = false
is_negative (negsuc n) = true

abbrev pub sign_byte : Bool → ℕ
sign_byte neg = if neg then 0x80 else 0

-- The last byte, after an extra one when the number's value takes the sign bit.
unfoldable pub write_last : Bool → ℕ → List ℕ
write_last neg abs =
    if not (bit_and abs 0x80 == 0)
    then abs ∷ sign_byte neg ∷ []
    else bit_or abs (sign_byte neg) ∷ []

-- The loop, on fuel for the bytes of the number.
unfoldable pub write_loop : ℕ → Bool → ℕ → List ℕ
write_loop zero neg abs = write_last neg abs
write_loop (suc fuel) neg abs =
    let rest = write_loop fuel neg (abs / 2 ^ 8) in
    if ltb 0xff abs then bit_and abs 0xff ∷ rest else write_last neg abs

unfoldable pub write_scriptint : ℤ → Option (List ℕ)
write_scriptint n =
    let out = write_loop 8 (is_negative n) (unsigned_abs n) in
    if unsigned_abs n == 0 then some [] else if leb (length out) 8 then some out else none

-- The fold with the accumulated number and the shift; up to four bytes stay within an `i64`.
unfoldable pub parse_fold : ℕ → ℕ → List ℕ → ℕ × ℕ
parse_fold acc sh [] = (acc, sh)
parse_fold acc sh (n ∷ v) = parse_fold (acc + n * 2 ^ sh) (sh + 8) v

-- `last` is the last byte of `v`.
unfoldable pub scriptint_parse : List ℕ → ℕ → ℤ
scriptint_parse v last =
    let (ret, sh) = parse_fold 0 0 v in
    if not (bit_and last 0x80 == 0) then sub_ℕ 0 (bit_and ret (2 ^ (sh - 1) - 1)) else pos ret

-- Without a bit of the second last byte that would conflict with the sign.
unfoldable pub no_conflict : List ℕ → Bool
no_conflict [] = true
no_conflict (second ∷ before) = bit_and second 0x80 == 0

-- On the bytes from the last one back.
unfoldable pub read_from_last : List ℕ → List ℕ → Result ℤ Error
read_from_last v [] = ok (pos 0)
read_from_last v (last ∷ before) =
    if ltb 4 (length v)
    then err numeric_overflow
    else if (bit_and last 0x7f == 0) && no_conflict before
    then err non_minimal_push
    else ok (scriptint_parse v last)

unfoldable pub read_scriptint : List ℕ → Result ℤ Error
read_scriptint v = read_from_last v (reverse v)

unfoldable pub read_any : List ℕ → List ℕ → Result ℤ Error
read_any v [] = ok (pos 0)
read_any v (last ∷ before) =
    if ltb 4 (length v) then err numeric_overflow else ok (scriptint_parse v last)

unfoldable pub read_scriptint_non_minimal : List ℕ → Result ℤ Error
read_scriptint_non_minimal v = read_any v (reverse v)

abbrev pub all_zero : List ℕ → Bool
all_zero [] = true
all_zero (b ∷ bs) = (b == 0) && all_zero bs

-- The last byte with the ones before it.
abbrev pub onto : ℕ → Option (ℕ × List ℕ) → Option (ℕ × List ℕ)
onto b none = none
onto b (some (last, rest)) = some (last, b ∷ rest)

unfoldable pub split_last : List ℕ → Option (ℕ × List ℕ)
split_last [] = none
split_last (last ∷ []) = some (last, [])
split_last (b ∷ c ∷ v) = onto b (split_last (c ∷ v))

unfoldable pub bool_of : Option (ℕ × List ℕ) → Bool
bool_of none = false
bool_of (some (last, rest)) = not ((bit_and last 0x7f == 0) && all_zero rest)

unfoldable pub read_scriptbool : List ℕ → Bool
read_scriptbool v = bool_of (split_last v)
