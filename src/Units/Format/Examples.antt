-- ===== src/Units/Format/Examples.antt =====
-- The theorems on the strings of units/src/amount.rs at amounts.
use rust_dogecoin.Common.{◌≡◌, [], ◌∷◌, some, true, refl, arith}
use rust_dogecoin.Common.Results.{ok}
use rust_dogecoin.Units.Amount.{bitcoin, micro_bitcoin, milli_satoshi, from_str_in, precision}
use rust_dogecoin.Units.Format.{
  to_string_in, fmt_satoshi_in, normalize, padding, repeat_char, digits, dec_width, strip_zeros,
  padded, default_options,
}
use rust_dogecoin.Units.Format.RoundTrip.{from_str_in-to_string_in}

one_and_a_half : to_string_in 150_000_000 bitcoin ≡ b'1' ∷ b'.' ∷ b'5' ∷ []
unfolding to_string_in fmt_satoshi_in normalize padding repeat_char digits dec_width strip_zeros
    padded precision
one_and_a_half = refl

-- Twelve wide with zeros, with the sign and the unit.
zero_padded :
    fmt_satoshi_in 2 true milli_satoshi true
      (record default_options { width = some 12; sign_aware_zero_pad = true })
    ≡ b'-' ∷ b'0' ∷ b'0' ∷ b'2' ∷ b'0' ∷ b'0' ∷ b'0' ∷ b' ' ∷ b'm' ∷ b's' ∷ b'a' ∷ b't' ∷ []
unfolding fmt_satoshi_in normalize padding repeat_char digits dec_width precision
zero_padded = refl

from_str_in-to_string_in_example :
    from_str_in (to_string_in 150_000_001 micro_bitcoin) micro_bitcoin ≡ ok 150_000_001
unfolding precision
from_str_in-to_string_in_example =
    from_str_in-to_string_in 150_000_001 1 micro_bitcoin (omega arith) refl
