-- ===== src/Base58/Examples.antt =====
-- The theorems on Base58 at three bytes, with a constant hash.
use rust_dogecoin.Common.{ℕ, ◌≡◌, ◌⊎◌, List, [], ◌∷◌, some, none, refl, arith}
use rust_dogecoin.Common.Bytes.{from_le_bytes}
use rust_dogecoin.Common.Results.{ok, err}
use rust_dogecoin.Base58.{
  invalid_character, too_short, decode, encode, encode_check, decode_check, zeros, times_58,
  decode_loop, decoded, base58_digit, base58_char, leading_ones, skip_zeros, add_byte, times_256,
  push_carry, format_loop, write_chars, check_checksum,
}
use rust_dogecoin.Base58.Loops.{first_invalid}
use rust_dogecoin.Base58.Unique.{decode_check_unique}
use rust_dogecoin.Base58.RoundTrip.{decode_total, decode_check-encode_check}

abbrev some_bytes : List ℕ
some_bytes = 0 ∷ 13 ∷ 36 ∷ []

-- The number 58 * 58, after a zero byte.
encoded_square : encode some_bytes ≡ some (b'1' ∷ b'2' ∷ b'1' ∷ b'1' ∷ [])
unfolding encode format_loop add_byte times_256 push_carry write_chars base58_char
encoded_square = refl

abbrev zero_hash : List ℕ → List ℕ
zero_hash x = zeros 32

decode_check-encode_check_example :
    (cs : List ℕ) × (encode_check zero_hash some_bytes ≡ some cs)
    × (decode_check zero_hash cs ≡ some (ok some_bytes))
decode_check-encode_check_example =
    decode_check-encode_check zero_hash some_bytes (omega arith) (λ x. (refl, omega arith))

abbrev checked_string : List ℕ
checked_string = b'1' ∷ b'7' ∷ b'Y' ∷ b'X' ∷ b'q' ∷ b'9' ∷ b'H' ∷ b'1' ∷ b'1' ∷ []

decoded_string : decode_check zero_hash checked_string ≡ some (ok some_bytes)
unfolding decode_check decode decode_loop base58_digit times_58 decoded leading_ones skip_zeros
    check_checksum from_le_bytes
decoded_string = refl

decode_check_unique_example : encode_check zero_hash some_bytes ≡ some checked_string
decode_check_unique_example =
    decode_check_unique zero_hash checked_string some_bytes (λ x. (refl, omega arith))
      decoded_string

-- The letter l is not in the alphabet.
decode_total_example :
    ((c : ℕ) × (first_invalid (b'2' ∷ b'l' ∷ []) ≡ some c)
      × (decode (b'2' ∷ b'l' ∷ []) ≡ some (err (invalid_character c))))
    ⊎ ((first_invalid (b'2' ∷ b'l' ∷ []) ≡ none)
        × (out : List ℕ) × (decode (b'2' ∷ b'l' ∷ []) ≡ some (ok out)))
decode_total_example = decode_total (b'2' ∷ b'l' ∷ [])

refused_l : decode (b'2' ∷ b'l' ∷ []) ≡ some (err (invalid_character b'l'))
unfolding decode decode_loop base58_digit times_58 decoded
refused_l = refl

too_short_check : decode_check zero_hash (b'2' ∷ []) ≡ some (err (too_short 1))
unfolding decode_check decode decode_loop base58_digit times_58 decoded leading_ones skip_zeros
    check_checksum
too_short_check = refl
