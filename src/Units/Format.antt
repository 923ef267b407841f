-- ===== src/Units/Format.antt =====
-- units/src/amount.rs: amounts written as decimal strings. A string is the list of its bytes, and a
-- sink that refuses a write is left out.
pub mod Digits
pub mod RoundTrip
mod Examples
use rust_dogecoin.Common.{
  ℕ, zero, suc, ◌+◌, ◌-◌, ◌*◌, ◌/◌, ◌%◌, ◌^◌, List, [], ◌∷◌, ◌++◌, Option, none, some, Bool, true,
  false, not, ◌&&◌, ◌||◌, length, ltb, leb, ◌==◌, if◌then◌else◌,
}
use rust_dogecoin.Common.Int.{pos, negsuc}
use rust_dogecoin.Units.Amount
use rust_dogecoin.Units.Amount.{
  Denomination, bitcoin, centi_bitcoin, milli_bitcoin, micro_bitcoin, nano_bitcoin, pico_bitcoin,
  bit, satoshi, milli_satoshi, unwrap_or,
}

-- `Denomination::as_str`.
abbrev pub as_str : Denomination → List ℕ
as_str bitcoin = b'B' ∷ b'T' ∷ b'C' ∷ []
as_str centi_bitcoin = b'c' ∷ b'B' ∷ b'T' ∷ b'C' ∷ []
as_str milli_bitcoin = b'm' ∷ b'B' ∷ b'T' ∷ b'C' ∷ []
as_str micro_bitcoin = b'u' ∷ b'B' ∷ b'T' ∷ b'C' ∷ []
as_str nano_bitcoin = b'n' ∷ b'B' ∷ b'T' ∷ b'C' ∷ []
as_str pico_bitcoin = b'p' ∷ b'B' ∷ b'T' ∷ b'C' ∷ []
as_str bit = b'b' ∷ b'i' ∷ b't' ∷ b's' ∷ []
as_str satoshi = b's' ∷ b'a' ∷ b't' ∷ b'o' ∷ b's' ∷ b'h' ∷ b'i' ∷ []
as_str milli_satoshi = b'm' ∷ b's' ∷ b'a' ∷ b't' ∷ []

pub data Alignment : Type 0 where
  left right center : Alignment

pub record FormatOptions : Type 0 where
  fill : ℕ
  align : Option Alignment
  width : Option ℕ
  precision : Option ℕ
  sign_plus : Bool
  sign_aware_zero_pad : Bool

-- `FormatOptions::default`.
abbrev pub default_options : FormatOptions
default_options = record {
  fill = b' ';
  align = none;
  width = none;
  precision = none;
  sign_plus = false;
  sign_aware_zero_pad = false;
}

-- The width of a number in decimal digits, on fuel for them.
unfoldable pub dec_width : ℕ → ℕ → ℕ
dec_width zero num = 1
dec_width (suc fuel) num =
    let rest = suc (dec_width fuel (num / 10)) in if num / 10 == 0 then 1 else rest

unfoldable pub repeat_char : ℕ → ℕ → List ℕ
repeat_char c zero = []
repeat_char c (suc count) = c ∷ repeat_char c count

-- `{}` of a number: its decimal digits, on fuel for them.
unfoldable pub digits : ℕ → ℕ → List ℕ
digits zero num = []
digits (suc fuel) num =
    let front = digits fuel (num / 10) in
    (if num / 10 == 0 then [] else front) ++ (num % 10 + b'0') ∷ []

-- `{:0width$}` of a number below 2^64.
unfoldable pub padded : ℕ → ℕ → List ℕ
padded width num = repeat_char b'0' (width - length (digits 20 num)) ++ digits 20 num

-- The zeros at the end of the decimals are dropped: the number of decimals, and the decimals.
unfoldable pub strip_zeros : ℕ → ℕ → ℕ × ℕ
strip_zeros zero num = (0, num)
strip_zeros (suc nb_decimals) num =
    let rest = strip_zeros nb_decimals (num / 10) in
    if num % 10 == 0 then rest else (suc nb_decimals, num)

-- The number before the point, the decimals, their number, and the zeros before the point.
pub record Normalized : Type 0 where
  num_before_decimal_point : ℕ
  num_after_decimal_point : ℕ
  norm_nb_decimals : ℕ
  exp : ℕ

unfoldable pub normalize : ℕ → Denomination → Normalized
normalize sat denom = elim (Amount.precision denom) [
  | pos p ↦ record {
    num_before_decimal_point = sat;
    num_after_decimal_point = 0;
    norm_nb_decimals = 0;
    exp = if ltb 0 sat then p else 0;
  }
  | negsuc k ↦
      let divisor = 10 ^ suc k in
      let (nb, after) = strip_zeros (suc k) (sat % divisor) in
      let whole = sat % divisor == 0 in
      record {
        num_before_decimal_point = sat / divisor;
        num_after_decimal_point = if whole then 0 else after;
        norm_nb_decimals = if whole then 0 else nb;
        exp = 0;
      }
]

-- The spaces to the left and to the right of a string of a width.
unfoldable pub padding : ℕ → FormatOptions → ℕ × ℕ
padding num_width options =
    let width = unwrap_or options.width 0 in
    let missing = width - num_width in
    let aligned : ℕ × ℕ = elim options.align [
      | none ↦ (missing, 0)
      | some right ↦ (missing, 0)
      | some left ↦ (0, missing)
      | some center ↦ (missing / 2, (missing + 1) / 2)
    ] in
    if not (ltb num_width width)
    then (0, 0)
    else if options.sign_aware_zero_pad
    then (missing, 0)
    else aligned

unfoldable pub fmt_satoshi_in : ℕ → Bool → Denomination → Bool → FormatOptions → List ℕ
fmt_satoshi_in sat negative denom show_denom options =
    let n = normalize sat denom in
    let trailing_decimal_zeros = unwrap_or options.precision 0 - n.norm_nb_decimals in
    let total_decimals = n.norm_nb_decimals + trailing_decimal_zeros in
    let num_width =
      (if ltb 0 total_decimals then 1 + total_decimals else 0)
      + (dec_width 20 n.num_before_decimal_point + n.exp)
      + (if options.sign_plus || negative then 1 else 0)
      + (if show_denom then length (as_str denom) + 1 else 0) in
    let (left_pad, pad_right) = padding num_width options in
    (if options.sign_aware_zero_pad then [] else repeat_char options.fill left_pad)
    ++ (if negative then b'-' ∷ [] else if options.sign_plus then b'+' ∷ [] else [])
    ++ (if options.sign_aware_zero_pad then repeat_char b'0' left_pad else [])
    ++ digits 20 n.num_before_decimal_point
    ++ repeat_char b'0' n.exp
    ++ (if ltb 0 total_decimals then b'.' ∷ [] else [])
    ++ (if ltb 0 n.norm_nb_decimals
        then padded n.norm_nb_decimals n.num_after_decimal_point
        else [])
    ++ repeat_char b'0' trailing_decimal_zeros
    ++ (if show_denom then b' ' ∷ as_str denom else [])
    ++ repeat_char options.fill pad_right

-- `Amount::to_string_in`, with `fmt_value_in`.
unfoldable pub to_string_in : ℕ → Denomination → List ℕ
to_string_in sat denom = fmt_satoshi_in sat false denom false default_options
