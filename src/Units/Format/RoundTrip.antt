-- ===== src/Units/Format/RoundTrip.antt =====
-- Amounts that units/src/amount.rs writes in a unit larger than a satoshi are read back.
use rust_dogecoin.Common.{
  ℕ, suc, ◌≡◌, ◌<◌, ◌≤◌, ◌+◌, ◌-◌, ◌*◌, ◌/◌, ◌%◌, ◌^◌, List, [], ◌∷◌, ◌++◌, true, false, length,
  ltb, ◌==◌, refl, arith, ap, ◌∙◌, Bool-cases, append-nil, append_assoc, length-append,
  if◌then◌else◌, inl, inr, lt→leb-false, lt→ltb, le→ltb-false,
}
use native.Mathlib.Nat.{one-le-pow, div-add-mod', div-le_self, mod-lt}
use rust_dogecoin.Common.Int.{negsuc, neg_part}
use rust_dogecoin.Common.Results.{ok}
use rust_dogecoin.Units.Amount.{
  Denomination, bitcoin, centi_bitcoin, milli_bitcoin, micro_bitcoin, nano_bitcoin, pico_bitcoin,
  bit, satoshi, milli_satoshi, precision, parse_signed_to_satoshi, from_str_in,
}
use rust_dogecoin.Units.Amount.Decimal.{decimal, decimal-append, pointed}
use rust_dogecoin.Units.Amount.Parse.{parse_signed_to_satoshi_lem, parse_whole_lem}
use rust_dogecoin.Units.Format.{
  digits, padded, strip_zeros, to_string_in, fmt_satoshi_in, normalize, padding, repeat_char,
  default_options, Normalized,
}
use rust_dogecoin.Units.Format.Digits.{
  digits-IsDigit, decimal-digits, length-digits, digits_start, decimal-after, padded_digits,
  power_split, strip_zeros_lem,
}

padding_none : (n : ℕ) → padding n default_options ≡ (0, 0)
unfolding padding
padding_none n = let narrow : ltb n 0 ≡ false = le→ltb-false n 0 (omega arith) in rw narrow refl

-- The string of a normalized number without options.
plain : Normalized → List ℕ
plain n =
    let trailing = 0 - n.norm_nb_decimals in
    digits 20 n.num_before_decimal_point
    ++ repeat_char b'0' n.exp
    ++ (if ltb 0 (n.norm_nb_decimals + trailing) then b'.' ∷ [] else [])
    ++ (if ltb 0 n.norm_nb_decimals
        then padded n.norm_nb_decimals n.num_after_decimal_point
        else [])
    ++ repeat_char b'0' trailing
    ++ []
    ++ repeat_char b' ' 0

to_string_in_lem :
    (sat : ℕ) (denom : Denomination) → to_string_in sat denom ≡ plain (normalize sat denom)
unfolding to_string_in fmt_satoshi_in plain repeat_char
to_string_in_lem sat denom = simp padding_none refl

plain_whole :
    (a c : ℕ)
    → plain (record {
      num_before_decimal_point = a;
      num_after_decimal_point = c;
      norm_nb_decimals = 0;
      exp = 0;
    })
      ≡ digits 20 a
unfolding plain repeat_char
plain_whole a c = simp append-nil refl

plain-pointed :
    (a c nb : ℕ)
    → 0 < nb
    → plain (record {
      num_before_decimal_point = a;
      num_after_decimal_point = c;
      norm_nb_decimals = nb;
      exp = 0;
    })
      ≡ pointed (digits 20 a) (padded nb c)
unfolding plain repeat_char
plain-pointed a c nb p =
    let none_left : 0 - nb ≡ 0 = omega arith in
    rw (none_left, lt→ltb 0 nb p, lt→ltb 0 (nb + 0) (omega (arith, p)))
      (simp (append-nil, append_assoc) refl)

normalize_whole :
    (sat k : ℕ) (denom : Denomination)
    → precision denom ≡ negsuc k
    → (sat % 10 ^ suc k == 0) ≡ true
    → plain (normalize sat denom) ≡ digits 20 (sat / 10 ^ suc k)
unfolding normalize
normalize_whole sat k denom unit h = rw (normalize, unit, h) (plain_whole (sat / 10 ^ suc k) 0)

normalize-pointed :
    (sat k : ℕ) (denom : Denomination)
    → precision denom ≡ negsuc k
    → (sat % 10 ^ suc k == 0) ≡ false
    → 0 < (strip_zeros (suc k) (sat % 10 ^ suc k)).0
    → plain (normalize sat denom)
      ≡ pointed (digits 20 (sat / 10 ^ suc k)) (
          padded
            (strip_zeros (suc k) (sat % 10 ^ suc k)).0
            (strip_zeros (suc k) (sat % 10 ^ suc k)).1)
unfolding normalize
normalize-pointed sat k denom unit h p =
    rw (normalize, unit, h)
      (plain-pointed (sat / 10 ^ suc k) (strip_zeros (suc k) (sat % 10 ^ suc k)).1
        (strip_zeros (suc k) (sat % 10 ^ suc k)).0 p)

fits_whole : (sat : ℕ) → sat < 2 ^ 64 → (d : ℕ) → sat / d < 10 ^ 20
fits_whole sat h d = omega (arith, h, div-le_self sat d)

-- The number that the digits before the point and the decimals write.
number_of :
    (sat k : ℕ)
    → sat < 2 ^ 64
    → (frac : List ℕ)
    → decimal 0 (digits 20 (sat / 10 ^ suc k) ++ frac)
      ≡ sat / 10 ^ suc k * 10 ^ length frac + decimal 0 frac
number_of sat k h frac =
    let whole = sat / 10 ^ suc k in
    decimal-append 0 (digits 20 whole) frac
    ∙ rw (decimal-digits 20 whole (fits_whole sat h (10 ^ suc k))) (decimal-after whole frac)

-- No unit has more than 8 decimals.
few_decimals : (denom : Denomination) (k : ℕ) → precision denom ≡ negsuc k → k < 8
unfolding precision
few_decimals bitcoin k h = omega (arith, ap neg_part h)
few_decimals centi_bitcoin k h = omega (arith, ap neg_part h)
few_decimals milli_bitcoin k h = omega (arith, ap neg_part h)
few_decimals micro_bitcoin k h = omega (arith, ap neg_part h)
few_decimals nano_bitcoin k h = omega (arith, ap neg_part h)
few_decimals pico_bitcoin k h = omega (arith, ap neg_part h)
few_decimals bit k h = omega (arith, ap neg_part h)
few_decimals satoshi k h = omega (arith, ap neg_part h)
few_decimals milli_satoshi k h = omega (arith, ap neg_part h)

length_whole : (sat d : ℕ) → sat < 2 ^ 64 → length (digits 20 (sat / d)) ≤ 20
length_whole sat d h = length-digits 20 19 (sat / d) (fits_whole sat h d)

-- An amount of whole coins of the unit.
whole_back :
    (sat k : ℕ) (denom : Denomination)
    → sat < 2 ^ 64
    → precision denom ≡ negsuc k
    → (sat % 10 ^ suc k == 0) ≡ true
    → parse_signed_to_satoshi (to_string_in sat denom) denom ≡ ok (false, sat)
whole_back sat k denom h unit e =
    let p = 10 ^ suc k in
    let zero_left : sat % p ≡ 0 = ground arith in
    let written = to_string_in_lem sat denom ∙ normalize_whole sat k denom unit e in
    let value : decimal 0 (digits 20 (sat / p)) * p ≡ sat =
      rw (decimal-digits 20 (sat / p) (fits_whole sat h p))
        (omega (arith, div-add-mod' sat p, zero_left)) in
    let read =
      parse_whole_lem denom k (digits 20 (sat / p)) unit (digits-IsDigit 20 (sat / p))
        (digits_start 19 (sat / p)) (omega (arith, length_whole sat p h)) in
    rw (written, read, value, lt→leb-false (2 ^ 64) sat h) refl

joined_value :
    (w p frac left : ℕ) (q r : ℕ) → q * r ≡ p → frac * r ≡ left → (w * q + frac) * r ≡ w * p + left
joined_value w p frac left q r e f = grind arith

-- An amount with decimals.
pointed_back :
    (sat k : ℕ) (denom : Denomination)
    → sat < 2 ^ 64
    → precision denom ≡ negsuc k
    → (sat % 10 ^ suc k == 0) ≡ false
    → parse_signed_to_satoshi (to_string_in sat denom) denom ≡ ok (false, sat)
pointed_back sat k denom h unit e =
    let p = 10 ^ suc k in
    let m = sat % p in
    let left_over : 0 < m = ground arith in
    let nb = (strip_zeros (suc k) m).0 in
    let after = (strip_zeros (suc k) m).1 in
    let whole = digits 20 (sat / p) in
    let frac = padded nb after in
    let (a, b, c, d) =
      strip_zeros_lem (suc k) m left_over (mod-lt sat (one-le-pow (suc k) 10 (omega arith))) in
    let few = few_decimals denom k unit in
    let (pd, pl, pv) = padded_digits nb after b c (omega (arith, a, few)) in
    let written = to_string_in_lem sat denom ∙ normalize-pointed sat k denom unit e b in
    let len : length (pointed whole frac) ≤ 50 =
      omega (arith, length-append whole (b'.' ∷ frac), length_whole sat p h, pl, a, few) in
    let read =
      parse_signed_to_satoshi_lem false denom k whole frac unit (digits-IsDigit 20 (sat / p)) pd
        (omega (arith, pl, a)) len in
    let value : decimal 0 (whole ++ frac) * 10 ^ (suc k - length frac) ≡ sat =
      rw (number_of sat k h frac, pl, pv)
        (joined_value (sat / p) p after m (10 ^ nb) (10 ^ (suc k - nb)) (power_split nb (suc k) a) d
          ∙ div-add-mod' sat p) in
    rw (written, read, value, lt→leb-false (2 ^ 64) sat h) refl

-- An amount of less than 2^64 satoshis is read back from the string that it is written to without
-- options, in every unit larger than a satoshi.
pub from_str_in-to_string_in :
    (sat k : ℕ) (denom : Denomination)
    → sat < 2 ^ 64
    → precision denom ≡ negsuc k
    → from_str_in (to_string_in sat denom) denom ≡ ok sat
unfolding from_str_in
from_str_in-to_string_in sat k denom h unit = elim (Bool-cases (sat % 10 ^ suc k == 0)) [
  | inl e ↦ rw (from_str_in, whole_back sat k denom h unit e) refl
  | inr e ↦ rw (from_str_in, pointed_back sat k denom h unit e) refl
]
