-- ===== src/Base58/Order.antt =====
-- Numbers written from the lowest digit and from the highest, as base58/src/lib.rs reverses them.
use rust_dogecoin.Common.{
  ℕ, zero, suc, ◌≡◌, ◌<◌, ◌+◌, ◌*◌, List, [], ◌∷◌, ◌++◌, false, reverse, ◌==◌, refl, arith, ap, sym,
  ◌∙◌, Bool-cases, All, inl, inr,
}
use mathlib.Core.List.{reverse-cons, reverse-append, reverse-reverse}
use rust_dogecoin.Common.Bytes.{IsByte, from_le_bytes}
use rust_dogecoin.Base58.{skip_zeros, zeros}
use rust_dogecoin.Base58.Digits.{IsDigit, IsTrimmed, value, value-append}
use rust_dogecoin.Base58.Loops.{number, leading_zeros}

number-append :
    (base acc : ℕ) (xs ys : List ℕ)
    → number base acc (xs ++ ys) ≡ number base (number base acc xs) ys
unfolding number
number-append base acc [] ys = refl
number-append base acc (x ∷ xs) ys = number-append base (base * acc + x) xs ys

number-snoc :
    (base : ℕ) (xs : List ℕ) (x : ℕ) → number base 0 (xs ++ x ∷ []) ≡ base * number base 0 xs + x
unfolding number
number-snoc base xs x = number-append base 0 xs (x ∷ [])

pub number-reverse : (ds : List ℕ) → number 58 0 (reverse ds) ≡ value ds
unfolding number value
number-reverse [] = refl
number-reverse (d ∷ ds) =
    rw (reverse-cons d ds, number-snoc 58 (reverse ds) d, number-reverse ds) (omega arith)

from_le_bytes-reverse : (ds : List ℕ) → number 256 0 (reverse ds) ≡ from_le_bytes ds
unfolding number from_le_bytes
from_le_bytes-reverse [] = refl
from_le_bytes-reverse (d ∷ ds) =
    rw (reverse-cons d ds, number-snoc 256 (reverse ds) d, from_le_bytes-reverse ds) (omega arith)

value-zeros : (k : ℕ) → value (zeros k) ≡ 0
unfolding value
value-zeros zero = refl
value-zeros (suc k) = omega (arith, value-zeros k)

pub value-append-zeros : (ds : List ℕ) (k : ℕ) → value (ds ++ zeros k) ≡ value ds
value-append-zeros ds k = value-append ds (zeros k) ∙ rw (value-zeros k) (omega arith)

zeros-snoc : (k : ℕ) → zeros k ++ 0 ∷ [] ≡ 0 ∷ zeros k
zeros-snoc zero = refl
zeros-snoc (suc k) = ap (λ l. 0 ∷ l) (zeros-snoc k)

pub reverse-zeros : (k : ℕ) → reverse (zeros k) ≡ zeros k
reverse-zeros zero = refl
reverse-zeros (suc k) = rw (reverse-cons 0 (zeros k), reverse-zeros k) (zeros-snoc k)

leading_zeros-zeros : (k : ℕ) (xs : List ℕ) → leading_zeros (zeros k ++ xs) ≡ k + leading_zeros xs
unfolding leading_zeros
leading_zeros-zeros zero xs = omega arith
leading_zeros-zeros (suc k) xs = omega (arith, leading_zeros-zeros k xs)

-- Reversed, a trimmed number begins with a digit that is not zero.
first_digit :
    (d : ℕ) (ds : List ℕ)
    → IsTrimmed (d ∷ ds)
    → (e : ℕ) × (es : List ℕ) × (reverse (d ∷ ds) ≡ e ∷ es) × (0 < e)
first_digit d [] t = (d, [], refl, t)
first_digit d (d' ∷ ds) t =
    let (e, es, f, p) = first_digit d' ds t in
    (e, es ++ d ∷ [], reverse-cons d (d' ∷ ds) ∙ ap (λ l. l ++ d ∷ []) f, p)

no_leading_zeros : (ds : List ℕ) → IsTrimmed ds → leading_zeros (reverse ds) ≡ 0
unfolding leading_zeros
no_leading_zeros [] t = refl
no_leading_zeros (d ∷ ds) t =
    let (e, es, f, p) = first_digit d ds t in
    let nonzero : (e == 0) ≡ false = ground arith in rw (f, nonzero) refl

pub leading_zeros-reverse :
    (ds : List ℕ) (k : ℕ) → IsTrimmed ds → leading_zeros (reverse (ds ++ zeros k)) ≡ k
leading_zeros-reverse ds k t =
    rw
      (
        reverse-append ds (zeros k),
        reverse-zeros k,
        leading_zeros-zeros k (reverse ds),
        no_leading_zeros ds t,
      )
      (omega arith)

pub zeros-skip_zeros : (xs : List ℕ) → zeros (leading_zeros xs) ++ skip_zeros xs ≡ xs
unfolding leading_zeros skip_zeros
zeros-skip_zeros [] = refl
zeros-skip_zeros (x ∷ xs) = elim (Bool-cases (x == 0)) [
  | inl e ↦ let z : x ≡ 0 = ground arith in rw z (ap (λ l. 0 ∷ l) (zeros-skip_zeros xs))
  | inr e ↦ rw e refl
]

-- A last digit after what is left of a number.
glue : List ℕ → ℕ → List ℕ
glue [] x = skip_zeros (x ∷ [])
glue (y ∷ ys) x = y ∷ (ys ++ x ∷ [])

skip_zeros-snoc : (xs : List ℕ) (x : ℕ) → skip_zeros (xs ++ x ∷ []) ≡ glue (skip_zeros xs) x
unfolding skip_zeros glue
skip_zeros-snoc [] x = refl
skip_zeros-snoc (y ∷ xs) x = elim (Bool-cases (y == 0)) [
  | inl e ↦ rw e (skip_zeros-snoc xs x)
  | inr e ↦ rw e refl
]

strip : List ℕ → List ℕ
strip ds = skip_zeros (reverse ds)

strip-cons : (d : ℕ) (ds : List ℕ) → strip (d ∷ ds) ≡ glue (strip ds) d
unfolding strip
strip-cons d ds = ap skip_zeros (reverse-cons d ds) ∙ skip_zeros-snoc (reverse ds) d

-- Digits in a base, where the number determines the first digit and the number of the others.
module _ (P : ℕ → Type 0) (number_of : List ℕ → ℕ) (none_left : number_of [] ≡ 0)
    (zero_left : (a : ℕ) (xs : List ℕ) → number_of (a ∷ xs) ≡ 0 → (a ≡ 0) × (number_of xs ≡ 0))
    (same_left : (a b : ℕ) (xs ys : List ℕ)
      → P a
      → P b
      → number_of (a ∷ xs) ≡ number_of (b ∷ ys)
      → (a ≡ b) × (number_of xs ≡ number_of ys)) where
  strip_zero : (ds : List ℕ) → number_of ds ≡ 0 → strip ds ≡ []
  unfolding strip glue skip_zeros
  strip_zero [] h = refl
  strip_zero (d ∷ ds) h =
      let (z, zs) = zero_left d ds h in strip-cons d ds ∙ rw (strip_zero ds zs, z) refl

  -- The digits of a number are those without the zeros in front.
  strip_unique :
      (xs bs : List ℕ) → All P xs → All P bs → number_of xs ≡ number_of bs → strip xs ≡ strip bs
  unfolding strip skip_zeros
  strip_unique [] bs p q h = sym (strip_zero bs (sym h ∙ none_left))
  strip_unique (a ∷ xs) [] p q h = strip_zero (a ∷ xs) (h ∙ none_left)
  strip_unique (a ∷ xs) (b ∷ bs) (p, ps) (q, qs) h =
      let (first, others) = same_left a b xs bs p q h in
      strip-cons a xs ∙ rw (first, strip_unique xs bs ps qs others) refl ∙ sym (strip-cons b bs)

zero_bytes : (a : ℕ) (xs : List ℕ) → from_le_bytes (a ∷ xs) ≡ 0 → (a ≡ 0) × (from_le_bytes xs ≡ 0)
unfolding from_le_bytes
zero_bytes a xs h = (omega (arith, h), omega (arith, h))

same_bytes :
    (a b : ℕ) (xs ys : List ℕ)
    → IsByte a
    → IsByte b
    → from_le_bytes (a ∷ xs) ≡ from_le_bytes (b ∷ ys)
    → (a ≡ b) × (from_le_bytes xs ≡ from_le_bytes ys)
unfolding from_le_bytes
same_bytes a b xs ys p q h = (omega (arith, h), omega (arith, h))

zero_digits : (a : ℕ) (xs : List ℕ) → value (a ∷ xs) ≡ 0 → (a ≡ 0) × (value xs ≡ 0)
unfolding value
zero_digits a xs h = (omega (arith, h), omega (arith, h))

same_digits :
    (a b : ℕ) (xs ys : List ℕ)
    → IsDigit a
    → IsDigit b
    → value (a ∷ xs) ≡ value (b ∷ ys)
    → (a ≡ b) × (value xs ≡ value ys)
unfolding value
same_digits a b xs ys p q h = (omega (arith, h), omega (arith, h))

pub skip_zeros_unique :
    (out bytes : List ℕ)
    → All IsByte out
    → All IsByte (reverse bytes)
    → from_le_bytes out ≡ number 256 0 bytes
    → skip_zeros (reverse out) ≡ skip_zeros bytes
unfolding strip from_le_bytes
skip_zeros_unique out bytes p q h =
    strip_unique IsByte from_le_bytes refl zero_bytes same_bytes out (reverse bytes) p q
      (h ∙ ap (number 256 0) (sym (reverse-reverse bytes)) ∙ from_le_bytes-reverse (reverse bytes))
    ∙ ap skip_zeros (reverse-reverse bytes)

-- Digits without a zero in front are determined by their number.
pub trimmed_unique :
    (ret ds : List ℕ)
    → IsTrimmed ret
    → All IsDigit ret
    → All IsDigit (reverse ds)
    → value ret ≡ number 58 0 ds
    → reverse ret ≡ skip_zeros ds
unfolding strip value
trimmed_unique ret ds t p q h =
    let whole : skip_zeros (reverse ret) ≡ reverse ret =
      rw (no_leading_zeros ret t) at (zeros-skip_zeros (reverse ret)) in
    let turned = reverse-reverse ds in
    sym whole
    ∙ strip_unique IsDigit value refl zero_digits same_digits ret (reverse ds) p q
        (h ∙ ap (number 58 0) (sym turned) ∙ number-reverse (reverse ds))
    ∙ ap skip_zeros turned

number-zeros : (base k : ℕ) (xs : List ℕ) → number base 0 (zeros k ++ xs) ≡ number base 0 xs
unfolding number
number-zeros base zero xs = refl
number-zeros base (suc k) xs =
    let start : base * 0 + 0 ≡ 0 = omega arith in
    ap (λ n. number base n (zeros k ++ xs)) start ∙ number-zeros base k xs

number-skip_zeros : (base : ℕ) (xs : List ℕ) → number base 0 (skip_zeros xs) ≡ number base 0 xs
number-skip_zeros base xs =
    sym (number-zeros base (leading_zeros xs) (skip_zeros xs))
    ∙ ap (number base 0) (zeros-skip_zeros xs)

leading_zeros-skip_zeros : (xs : List ℕ) → leading_zeros (skip_zeros xs) ≡ 0
unfolding leading_zeros skip_zeros
leading_zeros-skip_zeros [] = refl
leading_zeros-skip_zeros (x ∷ xs) = elim (Bool-cases (x == 0)) [
  | inl e ↦ rw e (leading_zeros-skip_zeros xs)
  | inr e ↦ rw (e, leading_zeros, e) refl
]

-- The number and the zeros in front of what the decoder returns.
pub number-decoded :
    (k : ℕ) (out : List ℕ) → number 256 0 (zeros k ++ skip_zeros (reverse out)) ≡ from_le_bytes out
number-decoded k out =
    number-zeros 256 k (skip_zeros (reverse out))
    ∙ number-skip_zeros 256 (reverse out)
    ∙ from_le_bytes-reverse out

pub leading_zeros-decoded :
    (k : ℕ) (out : List ℕ) → leading_zeros (zeros k ++ skip_zeros (reverse out)) ≡ k
leading_zeros-decoded k out =
    leading_zeros-zeros k (skip_zeros (reverse out))
    ∙ rw (leading_zeros-skip_zeros (reverse out)) (omega arith)

pub All-skip_zeros : (P : ℕ → Type 0) (xs : List ℕ) → All P xs → All P (skip_zeros xs)
unfolding skip_zeros
All-skip_zeros P [] a = tt
All-skip_zeros P (x ∷ xs) (h, a) = elim (Bool-cases (x == 0)) [
  | inl e ↦ rw e (All-skip_zeros P xs a)
  | inr e ↦ rw e (h, a)
]
