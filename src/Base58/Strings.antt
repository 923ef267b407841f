-- ===== src/Base58/Strings.antt =====
-- The characters of base58/src/lib.rs, and the order of digits and bytes: loops run from the lowest, and
-- strings are written from the highest.
use rust_dogecoin.Common.{
  ℕ, ◌≡◌, ◌<◌, List, [], ◌∷◌, none, some, Bool, true, false, reverse, ◌==◌, ==_iff, refl, arith, ap,
  sym, ◌∙◌, All, All-append, Option-cases, inl, inr,
}
use mathlib.Core.List.{reverse-cons}
use rust_dogecoin.Base58.{base58_char, base58_digit, write_chars, leading_ones}
use rust_dogecoin.Base58.Capacity.{all_below, all_below_sound}
use rust_dogecoin.Base58.Digits.{IsDigit}
use rust_dogecoin.Base58.Loops.{leading_zeros, Writes, first_invalid}

char_test : ℕ → Bool
char_test d = elim (base58_char d) [
  | none ↦ false
  | some c ↦ elim (base58_digit c) [ none ↦ false | some e ↦ e == d ]
]

char_table : all_below 58 char_test ≡ true
unfolding all_below char_test base58_char base58_digit
char_table = refl

digit_char : (d : ℕ) → d < 58 → (c : ℕ) × (base58_char d ≡ some c) × (base58_digit c ≡ some d)
unfolding char_test
digit_char d h =
    let t = all_below_sound 58 char_test d char_table h in
    elim (Option-cases (base58_char d)) [
      | inl bad ↦ let f = rw (bad, char_test) at t in cc
      | inr (c, good) ↦ elim (Option-cases (base58_digit c)) [
        | inl bad ↦ let f = rw (good, bad, char_test) at t in cc
        | inr (e, same) ↦
            let f : (e == d) ≡ true = rw (good, same, char_test) at t in
            (c, good, same ∙ ap some ((==_iff e d).0 f))
      ]
    ]

pub write_chars_lem :
    (ds : List ℕ) → All IsDigit ds → (cs : List ℕ) × (write_chars ds ≡ some cs) × Writes cs ds
unfolding write_chars
write_chars_lem [] a = ([], refl, tt)
write_chars_lem (d ∷ ds) (h, a) =
    let (c, f, g) = digit_char d h in
    let (cs, e, w) = write_chars_lem ds a in (c ∷ cs, rw (f, e) refl, (g, w))

one_is_zero : (c d : ℕ) → base58_digit c ≡ some d → (c == b'1') ≡ (d == 0)
unfolding base58_digit
one_is_zero c d h = ground arith

pub leading_ones-Writes : (cs ds : List ℕ) → Writes cs ds → leading_ones cs ≡ leading_zeros ds
unfolding leading_ones leading_zeros
leading_ones-Writes [] [] w = refl
leading_ones-Writes [] (d ∷ ds) w = absurd w
leading_ones-Writes (c ∷ cs) [] w = absurd w
leading_ones-Writes (c ∷ cs) (d ∷ ds) (e, w) =
    rw (one_is_zero c d e, leading_ones-Writes cs ds w) refl

pub first_invalid-Writes : (cs ds : List ℕ) → Writes cs ds → first_invalid cs ≡ none
unfolding first_invalid
first_invalid-Writes [] ds w = refl
first_invalid-Writes (c ∷ cs) [] w = absurd w
first_invalid-Writes (c ∷ cs) (d ∷ ds) (e, w) = rw (e, first_invalid) (first_invalid-Writes cs ds w)

pub some_inj {ℓ} : {A : Type ℓ} {x y : A} → some x ≡ some y → x ≡ y
some_inj {x = x} e = ap (λ o. elim o [ none ↦ x | some z ↦ z ]) e

pub Writes-unique : (cs ds es : List ℕ) → Writes cs ds → Writes cs es → ds ≡ es
Writes-unique [] [] [] v w = refl
Writes-unique [] [] (e ∷ es) v w = absurd w
Writes-unique [] (d ∷ ds) es v w = absurd v
Writes-unique (c ∷ cs) [] es v w = absurd v
Writes-unique (c ∷ cs) (d ∷ ds) [] v w = absurd w
Writes-unique (c ∷ cs) (d ∷ ds) (e ∷ es) (p, v) (q, w) =
    rw (some_inj (sym p ∙ q), Writes-unique cs ds es v w) refl

pub All-reverse : (P : ℕ → Type 0) (xs : List ℕ) → All P xs → All P (reverse xs)
All-reverse P [] a = tt
All-reverse P (x ∷ xs) (h, a) =
    rw (reverse-cons x xs) (All-append P (reverse xs) (x ∷ []) (All-reverse P xs a) (h, tt))
