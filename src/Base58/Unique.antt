-- ===== src/Base58/Unique.antt =====
-- Base58 and Base58Check of base58/src/lib.rs: a string that the decoder takes is the one that the
-- encoder writes.
use rust_dogecoin.Common.{
  ℕ, ◌≡◌, ◌-◌, List, [], ◌∷◌, ◌++◌, some, true, length, take, drop, reverse, ◌==◌, refl, arith, ap,
  sym, ◌∙◌, All, All-append, inl, inr, Bool-cases, ==_iff, length-drop, length-take, take-drop, ltb,
  ltb-false, Option-cases,
}
use mathlib.Core.List.{reverse-append}
use rust_dogecoin.Common.Bytes.{
  IsByte, from_le_bytes, to_le_bytes-from_le_bytes, All-take, All-drop,
}
use rust_dogecoin.Common.Results.{ok, Result-cases}
use rust_dogecoin.Base58.{
  base58_char, base58_digit, decode, encode, format_loop, leading_ones, skip_zeros, zeros,
  write_chars, check_checksum, encode_check, decode_check,
}
use rust_dogecoin.Base58.Digits.{IsDigit, value}
use rust_dogecoin.Base58.Loops.{
  number, leading_zeros, Writes, format_loop_lem, base58_digit-IsDigit,
}
use rust_dogecoin.Base58.Strings.{leading_ones-Writes, All-reverse, some_inj}
use rust_dogecoin.Base58.Order.{
  reverse-zeros, zeros-skip_zeros, trimmed_unique, number-decoded, leading_zeros-decoded,
  All-skip_zeros,
}
use rust_dogecoin.Base58.RoundTrip.{zeros-IsByte, decode_from_zero}

char_digit : (c d : ℕ) → base58_digit c ≡ some d → base58_char d ≡ some c
unfolding base58_digit base58_char
char_digit c d h = ground arith

write_chars-Writes : (cs ds : List ℕ) → Writes cs ds → write_chars ds ≡ some cs
unfolding write_chars
write_chars-Writes [] [] w = refl
write_chars-Writes [] (d ∷ ds) w = absurd w
write_chars-Writes (c ∷ cs) [] w = absurd w
write_chars-Writes (c ∷ cs) (d ∷ ds) (e, w) = rw (char_digit c d e, write_chars-Writes cs ds w) refl

Writes-IsDigit : (cs ds : List ℕ) → Writes cs ds → All IsDigit ds
Writes-IsDigit [] [] w = tt
Writes-IsDigit [] (d ∷ ds) w = absurd w
Writes-IsDigit (c ∷ cs) [] w = absurd w
Writes-IsDigit (c ∷ cs) (d ∷ ds) (e, w) = (base58_digit-IsDigit c d e, Writes-IsDigit cs ds w)

-- The digits that the encoder writes for a number and its zeros.
encoded_digits :
    (bytes ds : List ℕ)
    → All IsByte bytes
    → All IsDigit ds
    → number 256 0 bytes ≡ number 58 0 ds
    → leading_zeros bytes ≡ leading_zeros ds
    → reverse ((format_loop bytes [] 0 true).0 ++ zeros (format_loop bytes [] 0 true).1) ≡ ds
unfolding value
encoded_digits bytes ds b a same front =
    let (v, d, t, k) = format_loop_lem bytes [] 0 true b tt tt in
    let ret = (format_loop bytes [] 0 true).0 in
    let n = (format_loop bytes [] 0 true).1 in
    let count : n ≡ leading_zeros ds = k ∙ omega (arith, front) in
    let digits = trimmed_unique ret ds t d (All-reverse IsDigit ds a) (v ∙ same) in
    reverse-append ret (zeros n) ∙ rw (reverse-zeros n, digits, count) (zeros-skip_zeros ds)

-- A string that decodes to bytes is the one that those bytes are encoded to.
pub encode-decode :
    (cs bytes : List ℕ) → decode cs ≡ some (ok bytes) → (encode bytes ≡ some cs) × All IsByte bytes
unfolding encode
encode-decode cs bytes e = elim (decode_from_zero cs) [
  | inl (c, _, bad) ↦ cc
  | inr (ds, out, f, w, g, v, o) ↦
      let k = leading_ones cs in
      let found = zeros k ++ skip_zeros (reverse out) in
      let same : bytes ≡ found = cc in
      let b =
        All-append _ (zeros k) (skip_zeros (reverse out)) (zeros-IsByte k)
          (All-skip_zeros _ (reverse out) (All-reverse _ out o)) in
      let digits =
        encoded_digits found ds b (Writes-IsDigit cs ds w) (number-decoded k out ∙ v)
          (leading_zeros-decoded k out ∙ leading_ones-Writes cs ds w) in
      rw same (rw digits (write_chars-Writes cs ds w), b)
]

same_sum :
    (xs ys : List ℕ)
    → All IsByte xs
    → All IsByte ys
    → length xs ≡ length ys
    → from_le_bytes xs ≡ from_le_bytes ys
    → xs ≡ ys
same_sum xs ys a b l e =
    sym (to_le_bytes-from_le_bytes xs a) ∙ rw (l, e) (to_le_bytes-from_le_bytes ys b)

module _ (sha256d : List ℕ → List ℕ) where
  check_checksum_back :
      (ret payload : List ℕ)
      → All IsByte ret
      → ((x : List ℕ) → (length (sha256d x) ≡ 32) × All IsByte (sha256d x))
      → check_checksum sha256d ret ≡ ok payload
      → ret ≡ payload ++ take 4 (sha256d payload)
  unfolding check_checksum
  check_checksum_back ret payload b hash e =
      let n = length ret - 4 in
      let (l, h) = hash (take n ret) in
      let sum = take 4 (sha256d (take n ret)) in
      elim (Bool-cases (ltb (length ret) 4)) [
        | inl short ↦ let bad = rw short at e in cc
        | inr long ↦ elim (Bool-cases (from_le_bytes (drop n ret) == from_le_bytes sum)) [
          | inr differs ↦ let bad = rw (long, differs) at e in cc
          | inl equal ↦
              let good = rw (long, equal) at e in
              let front : take n ret ≡ payload = cc in
              let back : drop n ret ≡ sum =
                same_sum (drop n ret) sum (All-drop n ret b) (All-take 4 _ h)
                  (omega (
                    arith,
                    length-drop n ret,
                    length-take 4 (sha256d (take n ret)),
                    l,
                    ltb-false (length ret) 4 long,
                  ))
                  ((==_iff _ _).0 equal) in
              sym (take-drop n ret)
              ∙ rw (back, ap (λ x. take 4 (sha256d x)) front)
                  (ap (λ x. x ++ take 4 (sha256d payload)) front)
        ]
      ]

  -- With a hash function of 32 bytes, a string that is decoded with the check of its checksum is
  -- the one that its payload is encoded to with the checksum: no other string is taken for that
  -- payload.
  pub decode_check_unique :
      (cs payload : List ℕ)
      → ((x : List ℕ) → (length (sha256d x) ≡ 32) × All IsByte (sha256d x))
      → decode_check sha256d cs ≡ some (ok payload)
      → encode_check sha256d payload ≡ some cs
  unfolding encode_check decode_check
  decode_check_unique cs payload hash e = elim (Option-cases (decode cs)) [
    | inl panic ↦ let bad = rw panic at e in cc
    | inr (r, done) ↦
        let checked = rw done at e in
        elim (Result-cases r) [
          | inr (f, refused) ↦ let bad = rw refused at checked in cc
          | inl (ret, taken) ↦
              let (back, b) = encode-decode cs ret (done ∙ ap some taken) in
              let sum : check_checksum sha256d ret ≡ ok payload = some_inj (rw taken at checked) in
              rw (← check_checksum_back ret payload b hash sum) back
        ]
  ]
