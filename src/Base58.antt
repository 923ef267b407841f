-- ===== src/Base58.antt =====
-- base58/src/lib.rs: Base58 and Base58Check. A string is the list of its bytes; `sha256d` is the double
-- SHA-256 of the hash library; `none` is a panic. The `SmallVec` of the encoder is the list of what was
-- pushed, the `scratch` of the decoder the list of its bytes from the last one.
pub mod Digits
pub mod Capacity
pub mod Loops
pub mod Strings
pub mod Order
pub mod RoundTrip
pub mod Unique
mod Examples
use rust_dogecoin.Common.{
  ℕ, zero, suc, ◌+◌, ◌-◌, ◌*◌, ◌/◌, ◌%◌, List, [], ◌∷◌, ◌++◌, Option, none, some, Bool, true, false,
  not, ◌&&◌, length, take, drop, reverse, ltb, leb, ◌==◌, if◌then◌else◌, get_elem?, ◌>>=◌,
}
use rust_dogecoin.Common.Bytes.{from_le_bytes}
use rust_dogecoin.Common.Results.{Result, ok, err}

pub data Error : Type 0 where
  invalid_character : ℕ → Error
  too_short : ℕ → Error
  incorrect_checksum : ℕ → ℕ → Error

-- `BASE58_CHARS`: 1-9, A-H, J-N, P-Z, a-k, m-z.
unfoldable pub base58_char : ℕ → Option ℕ
base58_char d =
    if ltb d 9
    then some (d + b'1')
    else if ltb d 17
    then some (d - 9 + b'A')
    else if ltb d 22
    then some (d - 17 + b'J')
    else if ltb d 33
    then some (d - 22 + b'P')
    else if ltb d 44
    then some (d - 33 + b'a')
    else if ltb d 58
    then some (d - 44 + b'm')
    else none

-- `BASE58_DIGITS`, and the test for its length.
unfoldable pub base58_digit : ℕ → Option ℕ
base58_digit c =
    if leb b'1' c && leb c b'9'
    then some (c - b'1')
    else if leb b'A' c && leb c b'H'
    then some (c - b'A' + 9)
    else if leb b'J' c && leb c b'N'
    then some (c - b'J' + 17)
    else if leb b'P' c && leb c b'Z'
    then some (c - b'P' + 22)
    else if leb b'a' c && leb c b'k'
    then some (c - b'a' + 33)
    else if leb b'm' c && leb c b'z'
    then some (c - b'm' + 44)
    else none

-- `X = X * 58 + carry` in base 256: the bytes and the carry that is left.
unfoldable pub times_58 : ℕ → List ℕ → List ℕ × ℕ
times_58 carry [] = ([], carry)
times_58 carry (d256 ∷ scratch) =
    let sum = carry + d256 * 58 in
    let (rest, left) = times_58 (sum / 256) scratch in ((sum % 256) ∷ rest, left)

-- The loop over the characters.
unfoldable pub decode_loop : List ℕ → List ℕ → Option (Result (List ℕ) Error)
decode_loop [] scratch = some (ok scratch)
decode_loop (d58 ∷ string) scratch = elim (base58_digit d58) [
  | none ↦ some (err (invalid_character d58))
  | some carry ↦
      let (next, left) = times_58 carry scratch in
      let rest = decode_loop string next in if left == 0 then rest else none
]

abbrev pub zeros : ℕ → List ℕ
zeros zero = []
zeros (suc n) = 0 ∷ zeros n

-- `take_while(|&x| x == BASE58_CHARS[0])`, counted.
unfoldable pub leading_ones : List ℕ → ℕ
leading_ones [] = 0
leading_ones (c ∷ string) = let more = suc (leading_ones string) in if c == b'1' then more else 0

unfoldable pub skip_zeros : List ℕ → List ℕ
skip_zeros [] = []
skip_zeros (x ∷ xs) = let rest = skip_zeros xs in if x == 0 then rest else x ∷ xs

unfoldable pub decoded : List ℕ → Result (List ℕ) Error → Result (List ℕ) Error
decoded string (ok scratch) = ok (zeros (leading_ones string) ++ skip_zeros (reverse scratch))
decoded string (err e) = err e

unfoldable pub decode : List ℕ → Option (Result (List ℕ) Error)
decode string = do
  r ← decode_loop string (zeros (1 + length string * 11 / 15))
  some (decoded string r)

-- One byte more: `X = X * 256 + carry` in base 58, and the carry that is left.
unfoldable pub times_256 : ℕ → List ℕ → List ℕ × ℕ
times_256 carry [] = ([], carry)
times_256 carry (ch ∷ ret) =
    let new_ch = ch * 256 + carry in
    let (rest, left) = times_256 (new_ch / 58) ret in ((new_ch % 58) ∷ rest, left)

-- `while carry > 0`, on fuel for its rounds.
unfoldable pub push_carry : ℕ → ℕ → List ℕ
push_carry zero carry = []
push_carry (suc fuel) carry =
    let rest = (carry % 58) ∷ push_carry fuel (carry / 58) in if carry == 0 then [] else rest

-- A carry below 256 has at most two digits.
unfoldable pub add_byte : ℕ → List ℕ → List ℕ
add_byte carry ret = let (digits, left) = times_256 carry ret in digits ++ push_carry 2 left

-- The loop over the bytes: the digits, and the count of leading zeros while `leading_zeroes` holds.
unfoldable pub format_loop : List ℕ → List ℕ → ℕ → Bool → List ℕ × ℕ
format_loop [] ret leading_zero_count leading_zeroes = (ret, leading_zero_count)
format_loop (d256 ∷ bytes) ret leading_zero_count leading_zeroes =
    let zero_byte = leading_zeroes && (d256 == 0) in
    format_loop bytes (add_byte d256 ret)
      (if zero_byte then leading_zero_count + 1 else leading_zero_count) zero_byte

unfoldable pub write_chars : List ℕ → Option (List ℕ)
write_chars [] = some []
write_chars (ch ∷ ret) = do c ← base58_char ch; rest ← write_chars ret; some (c ∷ rest)

unfoldable pub encode : List ℕ → Option (List ℕ)
encode bytes =
    let (ret, count) = format_loop bytes [] 0 true in write_chars (reverse (ret ++ zeros count))

module _ (sha256d : List ℕ → List ℕ) where
  unfoldable pub encode_check : List ℕ → Option (List ℕ)
  encode_check bytes = encode (bytes ++ take 4 (sha256d bytes))

  -- The checks on what was decoded.
  unfoldable pub check_checksum : List ℕ → Result (List ℕ) Error
  check_checksum ret =
      let check_start = length ret - 4 in
      let expected = from_le_bytes (take 4 (sha256d (take check_start ret))) in
      let actual = from_le_bytes (drop check_start ret) in
      if ltb (length ret) 4
      then err (too_short (length ret))
      else if not (actual == expected)
      then err (incorrect_checksum actual expected)
      else ok (take check_start ret)

  abbrev pub checked_sum : Result (List ℕ) Error → Result (List ℕ) Error
  checked_sum (ok ret) = check_checksum ret
  checked_sum (err e) = err e

  unfoldable pub decode_check : List ℕ → Option (Result (List ℕ) Error)
  decode_check string = do r ← decode string; some (checked_sum r)
