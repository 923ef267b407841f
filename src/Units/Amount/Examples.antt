-- ===== src/Units/Amount/Examples.antt =====
-- The theorems on units/src/amount.rs at decimal strings.
use rust_dogecoin.Common.{◌≡◌, [], ◌∷◌, true, refl, arith}
use rust_dogecoin.Common.Results.{ok, err}
use rust_dogecoin.Common.Int.{pos}
use rust_dogecoin.Units.Amount.{
  bitcoin, milli_satoshi, InnerParseError, precision, parse_signed_to_satoshi, parse_unsigned,
  parse_digits, parse_loop, push_digit, count_decimal, scale_loop, is_too_precise, find_dot,
  last_nonzero, parses_to_zero, only_zeros, signed_from_str_in,
}
use rust_dogecoin.Units.Amount.Decimal.{pointed, decimal}
use rust_dogecoin.Units.Amount.Parse.{signed, parse_signed_to_satoshi_lem}

minus_one_and_a_half :
    parse_signed_to_satoshi (signed true (pointed (b'1' ∷ []) (b'5' ∷ []))) bitcoin
    ≡ ok (true, 150_000_000)
unfolding parse_signed_to_satoshi parse_unsigned parse_digits parse_loop push_digit count_decimal
    scale_loop precision
minus_one_and_a_half = refl

-- 4000 msat, and 4001 msat.
four_satoshis : signed_from_str_in (b'4' ∷ b'0' ∷ b'0' ∷ b'0' ∷ []) milli_satoshi ≡ ok (pos 4)
unfolding signed_from_str_in parse_signed_to_satoshi parse_unsigned parse_digits parse_loop
    push_digit count_decimal scale_loop precision is_too_precise find_dot last_nonzero
four_satoshis = refl

four_and_a_bit :
    parse_signed_to_satoshi (b'4' ∷ b'0' ∷ b'0' ∷ b'1' ∷ []) milli_satoshi
    ≡ err (InnerParseError.too_precise 3)
unfolding parse_signed_to_satoshi parse_unsigned precision is_too_precise find_dot last_nonzero
    parses_to_zero only_zeros
four_and_a_bit = refl

-- The sign is read twice where the string is a zero that is shorter than the unit.
two_signs : parse_signed_to_satoshi (b'-' ∷ b'-' ∷ b'0' ∷ []) milli_satoshi ≡ ok (true, 0)
unfolding parse_signed_to_satoshi parse_unsigned precision is_too_precise find_dot parses_to_zero
    only_zeros
two_signs = refl

parse_signed_to_satoshi_lem_example :
    parse_signed_to_satoshi (signed true (pointed (b'1' ∷ []) (b'5' ∷ []))) bitcoin
    ≡ ok (true, 150_000_000)
unfolding decimal precision
parse_signed_to_satoshi_lem_example =
    parse_signed_to_satoshi_lem true bitcoin 7 (b'1' ∷ []) (b'5' ∷ []) refl (omega arith)
      (omega arith) (omega arith) (omega arith)
