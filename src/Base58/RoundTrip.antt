-- ===== src/Base58/RoundTrip.antt =====
-- Base58 and Base58Check of base58/src/lib.rs: what is encoded is decoded to itself, and the decoder
-- does not panic.
use rust_dogecoin.Common.{
  ℕ, zero, suc, ◌≡◌, ◌≤◌, ◌+◌, ◌-◌, ◌*◌, ◌/◌, ◌^◌, List, [], ◌++◌, none, some, true, length, take,
  reverse, ◌==◌, refl, arith, ap, sym, ◌∙◌, All, All-append, inl, inr, ◌⊎◌, length-append,
  take-append, drop-append, le→ltb-false, length-take,
}
use rust_dogecoin.Common.Bytes.{IsByte, from_le_bytes, All-take}
use rust_dogecoin.Common.Results.{ok, err}
use rust_dogecoin.Base58.{
  invalid_character, decode, decoded, encode, format_loop, leading_ones, skip_zeros, zeros,
  check_checksum, encode_check, decode_check,
}
use rust_dogecoin.Base58.Capacity.{scratch_space}
use rust_dogecoin.Base58.Digits.{IsDigit, value}
use rust_dogecoin.Base58.Loops.{
  number, leading_zeros, Writes, first_invalid, decode_loop_lem, format_loop_lem,
}
use rust_dogecoin.Base58.Strings.{
  write_chars_lem, leading_ones-Writes, first_invalid-Writes, Writes-unique, All-reverse,
}
use rust_dogecoin.Base58.Order.{
  number-reverse, value-append-zeros, leading_zeros-reverse, zeros-skip_zeros, skip_zeros_unique,
}

pub zeros-IsByte : (n : ℕ) → All IsByte (zeros n)
zeros-IsByte zero = tt
zeros-IsByte (suc n) = (omega arith, zeros-IsByte n)

zeros-IsDigit : (n : ℕ) → All IsDigit (zeros n)
zeros-IsDigit zero = tt
zeros-IsDigit (suc n) = (omega arith, zeros-IsDigit n)

length-zeros : (n : ℕ) → length (zeros n) ≡ n
length-zeros zero = refl
length-zeros (suc n) = ap suc (length-zeros n)

from_le_bytes-zeros : (n : ℕ) → from_le_bytes (zeros n) ≡ 0
unfolding from_le_bytes
from_le_bytes-zeros zero = refl
from_le_bytes-zeros (suc n) = omega (arith, from_le_bytes-zeros n)

-- The loop of the decoder from the empty scratch space.
pub decode_from_zero :
    (cs : List ℕ)
    → ((c : ℕ) × (first_invalid cs ≡ some c) × (decode cs ≡ some (err (invalid_character c))))
      ⊎ ((ds out : List ℕ) × (first_invalid cs ≡ none)
          × Writes cs ds
          × (decode cs ≡ some (ok (zeros (leading_ones cs) ++ skip_zeros (reverse out))))
          × (from_le_bytes out ≡ number 58 0 ds)
          × All IsByte out)
unfolding decode decoded
decode_from_zero cs =
    let n = 1 + length cs * 11 / 15 in
    let z = from_le_bytes-zeros n in
    let room : (from_le_bytes (zeros n) + 1) * 58 ^ length cs ≤ 256 ^ length (zeros n) =
      rw (z, length-zeros n) (omega (arith, scratch_space (length cs))) in
    elim (decode_loop_lem cs (zeros n) (zeros-IsByte n) room) [
      | inl (c, f, e) ↦ inl (c, f, rw e refl)
      | inr (ds, out, f, w, e, v, b) ↦
          inr (ds, out, f, w, rw e refl, v ∙ ap (λ k. number 58 k ds) z, b)
    ]

-- The decoder does not panic: a string with a character outside of the alphabet gives an error with
-- the first one, and any other string gives bytes.
pub decode_total :
    (cs : List ℕ)
    → ((c : ℕ) × (first_invalid cs ≡ some c) × (decode cs ≡ some (err (invalid_character c))))
      ⊎ ((first_invalid cs ≡ none) × (out : List ℕ) × (decode cs ≡ some (ok out)))
decode_total cs = elim (decode_from_zero cs) [
  | inl bad ↦ inl bad
  | inr (ds, out, f, w, e, v, b) ↦ inr (f, _, e)
]

-- Bytes are encoded without a panic, and decoding the string gives them back, with the zeros in front.
pub decode-encode :
    (bytes : List ℕ)
    → All IsByte bytes
    → (cs : List ℕ) × (encode bytes ≡ some cs) × (decode cs ≡ some (ok bytes))
unfolding encode value
decode-encode bytes b =
    let (v, d, t, k) = format_loop_lem bytes [] 0 true b tt tt in
    let ret = (format_loop bytes [] 0 true).0 in
    let n = (format_loop bytes [] 0 true).1 in
    let count : n ≡ leading_zeros bytes = k ∙ omega arith in
    let ds = reverse (ret ++ zeros n) in
    let (cs, e, w) =
      write_chars_lem ds
        (All-reverse IsDigit (ret ++ zeros n) (All-append _ ret (zeros n) d (zeros-IsDigit n))) in
    elim (decode_from_zero cs) [
      | inl (c, f, _) ↦ let bad = sym f ∙ first_invalid-Writes cs ds w in cc
      | inr (es, out, f, w', g, m, o) ↦
          let same : es ≡ ds = Writes-unique cs es ds w' w in
          let number_of : from_le_bytes out ≡ number 256 0 bytes =
            m
            ∙ ap (number 58 0) same
            ∙ number-reverse (ret ++ zeros n)
            ∙ value-append-zeros ret n
            ∙ v in
          let rest = skip_zeros_unique out bytes o (All-reverse IsByte bytes b) number_of in
          let front : leading_ones cs ≡ leading_zeros bytes =
            leading_ones-Writes cs ds w ∙ leading_zeros-reverse ret n t ∙ count in
          (cs, e, g ∙ rw (front, rest, zeros-skip_zeros bytes) refl)
    ]

module _ (sha256d : List ℕ → List ℕ) where
  check_checksum-append :
      (bytes : List ℕ)
      → length (take 4 (sha256d bytes)) ≡ 4
      → check_checksum sha256d (bytes ++ take 4 (sha256d bytes)) ≡ ok bytes
  unfolding check_checksum
  check_checksum-append bytes h =
      let sum = take 4 (sha256d bytes) in
      let n = length-append bytes sum in
      let start : length (bytes ++ sum) - 4 ≡ length bytes = omega (arith, n, h) in
      let long = le→ltb-false (length (bytes ++ sum)) 4 (omega (arith, n, h)) in
      let same : (from_le_bytes sum == from_le_bytes sum) ≡ true = ground arith in
      rw (start, take-append bytes sum, drop-append bytes sum, long, same) refl

  -- With a hash function of 32 bytes, bytes are encoded with their checksum without a panic, and
  -- decoding the string with the check of the checksum gives them back.
  pub decode_check-encode_check :
      (bytes : List ℕ)
      → All IsByte bytes
      → ((x : List ℕ) → (length (sha256d x) ≡ 32) × All IsByte (sha256d x))
      → (cs : List ℕ) × (encode_check sha256d bytes ≡ some cs)
        × (decode_check sha256d cs ≡ some (ok bytes))
  unfolding encode_check decode_check
  decode_check-encode_check bytes b hash =
      let (l, h) = hash bytes in
      let sum = take 4 (sha256d bytes) in
      let (cs, e, d) = decode-encode (bytes ++ sum) (All-append _ bytes sum b (All-take 4 _ h)) in
      (
        cs,
        e,
        rw d (
            ap some
              (check_checksum-append bytes (omega (arith, length-take 4 (sha256d bytes), l)))),
      )
