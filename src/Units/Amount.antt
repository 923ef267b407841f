-- ===== src/Units/Amount.antt =====
-- units/src/amount.rs: amounts, and how they are read from decimal strings. A string of ASCII
-- characters is the list of its bytes, where the positions of its characters are those of its bytes.
pub mod Decimal
pub mod Parse
mod Examples
use rust_dogecoin.Common.{
  ℕ, zero, suc, ◌+◌, ◌-◌, ◌*◌, ◌^◌, List, [], ◌∷◌, Option, none, some, Bool, true, false, not, ◌&&◌,
  ◌||◌, length, take, drop, reverse, ltb, leb, ◌==◌, if◌then◌else◌,
}
use rust_dogecoin.Common.Int.{ℤ, pos, negsuc}
use rust_dogecoin.Common.Results.{Result, ok, err}

pub data Denomination : Type 0 where
  bitcoin centi_bitcoin milli_bitcoin micro_bitcoin nano_bitcoin pico_bitcoin : Denomination
  bit satoshi milli_satoshi : Denomination

-- The number of decimal places more than a satoshi.
unfoldable pub precision : Denomination → ℤ
precision bitcoin = negsuc 7
precision centi_bitcoin = negsuc 5
precision milli_bitcoin = negsuc 4
precision micro_bitcoin = negsuc 1
precision nano_bitcoin = pos 1
precision pico_bitcoin = pos 4
precision bit = negsuc 1
precision satoshi = pos 0
precision milli_satoshi = pos 3

pub data MissingDigitsKind : Type 0 where
  empty only_minus_sign : MissingDigitsKind

-- `overflow is_negative`, and `invalid_character` with the character and its position.
pub data InnerParseError : Type 0 where
  overflow : Bool → InnerParseError
  too_precise : ℕ → InnerParseError
  missing_digits : MissingDigitsKind → InnerParseError
  input_too_large : ℕ → InnerParseError
  invalid_character : ℕ → ℕ → InnerParseError

abbrev pub then_ok {ℓ κ} :
    {A : Type ℓ} {B : Type κ}
    → Result A InnerParseError
    → (A → Result B InnerParseError)
    → Result B InnerParseError
then_ok (ok a) f = f a
then_ok (err e) f = err e

-- `s.find('.')`.
unfoldable pub find_dot : List ℕ → Option ℕ
find_dot [] = none
find_dot (c ∷ s) =
    if c == b'.' then some 0 else elim (find_dot s) [ none ↦ none | some i ↦ some (suc i) ]

-- Of the last characters, the reversed string in front, the one nearest to the end that is not 0.
unfoldable pub last_nonzero : ℕ → List ℕ → Option ℕ
last_nonzero zero s = none
last_nonzero (suc n) [] = none
last_nonzero (suc n) (c ∷ s) =
    let rest = last_nonzero n s in if c == b'0' then rest else some (length s)

-- The first character that is not 0, from a position.
unfoldable pub first_nonzero : ℕ → List ℕ → Option ℕ
first_nonzero i [] = none
first_nonzero i (c ∷ s) = let rest = first_nonzero (suc i) s in if c == b'0' then rest else some i

abbrev pub or_else : Option ℕ → Option ℕ → Option ℕ
or_else none o = o
or_else (some i) o = some i

unfoldable pub is_too_precise : List ℕ → ℕ → Option ℕ
is_too_precise s places = elim (find_dot s) [
  | some dot ↦
      if leb dot places
      then some 0
      else or_else (last_nonzero places (reverse (take dot s)))
          (first_nonzero (suc dot) (drop (suc dot) s))
  | none ↦ if leb (length s) places then some 0 else last_nonzero places (reverse s)
]

unfoldable pub only_zeros : List ℕ → Bool
only_zeros [] = true
only_zeros (c ∷ s) = (c == b'0') && only_zeros s

-- `s.parse::<i64>()` is `Ok(0)`: zeros, one at least, after at most one sign.
unfoldable pub parses_to_zero : List ℕ → Bool
parses_to_zero [] = false
parses_to_zero (c ∷ s) =
    if (c == b'+') || (c == b'-') then not (length s == 0) && only_zeros s else only_zeros (c ∷ s)

-- `is_negative as usize`.
abbrev pub sign_len : Bool → ℕ
sign_len true = 1
sign_len false = 0

-- `value = 10 * value + digit`, with its two checks.
unfoldable pub push_digit : Bool → ℕ → ℕ → Result ℕ InnerParseError
push_digit neg value c =
    if leb (2 ^ 64) (10 * value)
    then err (overflow neg)
    else if leb (2 ^ 64) (10 * value + (c - b'0'))
    then err (overflow neg)
    else ok (10 * value + (c - b'0'))

-- The counter of the digits past the point.
unfoldable pub count_decimal : ℕ → ℕ → Option ℕ → Result (Option ℕ) InnerParseError
count_decimal max_decimals position none = ok none
count_decimal max_decimals position (some d) =
    if ltb d max_decimals then ok (some (d + 1)) else err (too_precise position)

-- The loop over the characters, from a position: the value and the counter.
unfoldable pub parse_loop :
    Bool → ℕ → ℕ → Option ℕ → ℕ → List ℕ → Result (ℕ × Option ℕ) InnerParseError
parse_loop neg max_decimals i decimals value [] = ok (value, decimals)
parse_loop neg max_decimals i decimals value (c ∷ s) =
    let digit = then_ok (push_digit neg value c) λ v.
      then_ok (count_decimal max_decimals (i + sign_len neg) decimals)
        λ d. parse_loop neg max_decimals (suc i) d v s in
    let dot : Result (ℕ × Option ℕ) InnerParseError = elim decimals [
      | none ↦
          let rest = parse_loop neg max_decimals (suc i) (some 0) value s in
          if max_decimals == 0 then ok (value, none) else rest
      | some d ↦ err (invalid_character b'.' (i + sign_len neg))
    ] in
    if leb b'0' c && leb c b'9'
    then digit
    else if c == b'.'
    then dot
    else err (invalid_character c (i + sign_len neg))

-- The shift by the decimals that are left.
unfoldable pub scale_loop : Bool → ℕ → ℕ → Result ℕ InnerParseError
scale_loop neg zero value = ok value
scale_loop neg (suc n) value =
    let rest = scale_loop neg n (10 * value) in
    if leb (2 ^ 64) (10 * value) then err (overflow neg) else rest

abbrev pub unwrap_or : Option ℕ → ℕ → ℕ
unwrap_or none x = x
unwrap_or (some y) x = y

unfoldable pub parse_digits : Bool → ℕ → List ℕ → Result (Bool × ℕ) InnerParseError
parse_digits neg max_decimals s =
    then_ok (parse_loop neg max_decimals 0 none 0 s) λ (value, decimals).
      then_ok (scale_loop neg (max_decimals - unwrap_or decimals 0) value) λ v. ok (neg, v)

-- The string without its sign.
unfoldable pub parse_unsigned : Bool → Denomination → List ℕ → Result (Bool × ℕ) InnerParseError
parse_unsigned neg denom s = elim (precision denom) [
  | negsuc k ↦ parse_digits neg (suc k) s
  | pos last_n ↦ elim (is_too_precise s last_n) [
    | some position ↦
        if parses_to_zero s then ok (neg, 0) else err (too_precise (position + sign_len neg))
    | none ↦ parse_digits neg 0 (take (unwrap_or (find_dot s) (length s) - last_n) s)
  ]
]

unfoldable pub parse_signed_to_satoshi : List ℕ → Denomination → Result (Bool × ℕ) InnerParseError
parse_signed_to_satoshi [] denom = err (missing_digits empty)
parse_signed_to_satoshi (c ∷ s) denom =
    if ltb 50 (length (c ∷ s))
    then err (input_too_large (length (c ∷ s)))
    else if not (c == b'-')
    then parse_unsigned false denom (c ∷ s)
    else if length s == 0
    then err (missing_digits only_minus_sign)
    else parse_unsigned true denom s

-- `is_signed` and `is_greater_than_max`.
pub record OutOfRangeError : Type 0 where
  is_signed : Bool
  is_greater_than_max : Bool

pub data ParseAmountError : Type 0 where
  out_of_range : OutOfRangeError → ParseAmountError
  too_precise : ℕ → ParseAmountError
  missing_digits : MissingDigitsKind → ParseAmountError
  input_too_large : ℕ → ParseAmountError
  invalid_character : ℕ → ℕ → ParseAmountError

-- `InnerParseError::convert`.
unfoldable pub convert : InnerParseError → Bool → ParseAmountError
convert (overflow neg) signed =
    out_of_range (record { is_signed = signed; is_greater_than_max = not neg })
convert (too_precise position) signed = too_precise position
convert (missing_digits kind) signed = missing_digits kind
convert (input_too_large len) signed = input_too_large len
convert (invalid_character c position) signed = invalid_character c position

-- `Amount::from_str_in`.
unfoldable pub from_str_in : List ℕ → Denomination → Result ℕ ParseAmountError
from_str_in s denom = elim (parse_signed_to_satoshi s denom) [
  | err e ↦ err (convert e false)
  | ok (negative, sat) ↦
      if negative
      then err (out_of_range (record { is_signed = false; is_greater_than_max = false }))
      else ok sat
]

-- `SignedAmount::from_str_in`.
unfoldable pub signed_from_str_in : List ℕ → Denomination → Result ℤ ParseAmountError
signed_from_str_in s denom = elim (parse_signed_to_satoshi s denom) [
  | err e ↦ err (convert e true)
  | ok (false, sat) ↦
      if ltb (2 ^ 63 - 1) sat
      then err (out_of_range (record { is_signed = true; is_greater_than_max = true }))
      else ok (pos sat)
  | ok (true, sat) ↦
      if ltb (2 ^ 63) sat
      then err (out_of_range (record { is_signed = true; is_greater_than_max = false }))
      else if sat == 0
      then ok (pos 0)
      else ok (negsuc (sat - 1))
]
