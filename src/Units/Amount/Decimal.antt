-- ===== src/Units/Amount/Decimal.antt =====
-- The decimal strings of units/src/amount.rs: the loops of the parser compute the number that the
-- digits write, with every overflow found.
use rust_dogecoin.Common.{
  ℕ, zero, suc, ◌≡◌, ◌<◌, ◌≤◌, ◌+◌, ◌-◌, ◌*◌, ◌^◌, List, [], ◌∷◌, ◌++◌, Option, none, some, Bool,
  true, false, ◌&&◌, length, leb, ◌==◌, refl, arith, ap, sym, ◌∙◌, Bool-cases, All, append-nil,
  if◌then◌else◌, inl, inr, leb→le, le→leb, leb-false, lt→leb-false, lt→ltb,
}
use native.Mathlib.Nat.{pow-suc, one-le-pow}
use rust_dogecoin.Common.Results.{Result, ok, err}
use rust_dogecoin.Units.Amount.{
  InnerParseError, overflow, push_digit, count_decimal, parse_loop, scale_loop, parse_digits,
  then_ok, sign_len, unwrap_or,
}

abbrev pub IsDigit : ℕ → Type 0
IsDigit c = (b'0' ≤ c) × (c ≤ b'9')

-- The number that decimal digits write after a number.
unfoldable pub decimal : ℕ → List ℕ → ℕ
decimal n [] = n
decimal n (c ∷ s) = decimal (10 * n + (c - b'0')) s

-- A number that has to fit in 64 bits before it is used.
abbrev pub fit : {A : Type 0} → Bool → ℕ → (ℕ → Result A InnerParseError) → Result A InnerParseError
fit neg n f = if leb (2 ^ 64) n then err (overflow neg) else f n

decimal-le : (n : ℕ) (s : List ℕ) → n ≤ decimal n s
unfolding decimal
decimal-le n [] = omega arith
decimal-le n (c ∷ s) = omega (arith, decimal-le (10 * n + (c - b'0')) s)

push_digit_lem : (neg : Bool) (n c : ℕ) → push_digit neg n c ≡ fit neg (10 * n + (c - b'0')) ok
unfolding push_digit
push_digit_lem neg n c = elim (Bool-cases (leb (2 ^ 64) (10 * n))) [
  | inl e ↦
      let big = leb→le (2 ^ 64) (10 * n) e in
      rw (e, le→leb (2 ^ 64) (10 * n + (c - b'0')) (omega (arith, big))) refl
  | inr e ↦ rw e refl
]

is_digit : (c : ℕ) → IsDigit c → (leb b'0' c && leb c b'9') ≡ true
is_digit c h = ground arith

-- One digit more, where the counter goes on.
digit_step :
    (neg : Bool) (m i n c : ℕ) (d e : Option ℕ) (s : List ℕ)
    → IsDigit c
    → count_decimal m (i + sign_len neg) d ≡ ok e
    → parse_loop neg m i d n (c ∷ s)
      ≡ fit neg (10 * n + (c - b'0')) (λ v. parse_loop neg m (suc i) e v s)
unfolding parse_loop
digit_step neg m i n c d e s h counted =
    rw (is_digit c h, push_digit_lem neg n c, counted)
      (elim (Bool-cases (leb (2 ^ 64) (10 * n + (c - b'0')))) [
        | inl big ↦ rw big refl
        | inr small ↦ rw small refl
      ])

-- An overflow on the way is an overflow at the end.
overflow_early :
    {A : Type 0} (neg : Bool) (n : ℕ) (s : List ℕ) (f : ℕ → Result A InnerParseError)
    → leb (2 ^ 64) n ≡ true
    → fit neg (decimal n s) f ≡ err (overflow neg)
overflow_early neg n s f h =
    let big = leb→le (2 ^ 64) n h in
    rw (le→leb (2 ^ 64) (decimal n s) (omega (arith, big, decimal-le n s))) refl

whole_digits :
    (neg : Bool) (m i n : ℕ) (s rest : List ℕ)
    → n < 2 ^ 64
    → All IsDigit s
    → parse_loop neg m i none n (s ++ rest)
      ≡ fit neg (decimal n s) (λ v. parse_loop neg m (i + length s) none v rest)
unfolding decimal count_decimal
whole_digits neg m i n [] rest h a =
    rw (lt→leb-false (2 ^ 64) n h) (ap (λ j. parse_loop neg m j none n rest) (omega arith))
whole_digits neg m i n (c ∷ s) rest h (p, a) =
    let next = 10 * n + (c - b'0') in
    digit_step neg m i n c none none (s ++ rest) p refl ∙ elim (Bool-cases (leb (2 ^ 64) next)) [
      | inl big ↦ rw big (
          sym (
            overflow_early neg next s (λ v. parse_loop neg m (i + suc (length s)) none v rest) big))
      | inr small ↦ rw small (
          whole_digits neg m (suc i) next s rest (leb-false (2 ^ 64) next small) a
          ∙ ap (λ j. fit neg (decimal next s) (λ v. parse_loop neg m j none v rest)) (omega arith))
    ]

fraction_digits :
    (neg : Bool) (m i n d : ℕ) (s : List ℕ)
    → n < 2 ^ 64
    → d + length s ≤ m
    → All IsDigit s
    → parse_loop neg m i (some d) n s ≡ fit neg (decimal n s) (λ v. ok (v, some (d + length s)))
unfolding decimal count_decimal parse_loop
fraction_digits neg m i n d [] h k a =
    rw (lt→leb-false (2 ^ 64) n h) (ap (λ j. ok (n, some j)) (omega arith))
fraction_digits neg m i n d (c ∷ s) h k (p, a) =
    let next = 10 * n + (c - b'0') in
    digit_step neg m i n c (some d) (some (d + 1)) s p (rw (lt→ltb d m (omega (arith, k))) refl)
    ∙ elim (Bool-cases (leb (2 ^ 64) next)) [
      | inl big ↦
          rw big (sym (overflow_early neg next s (λ v. ok (v, some (d + suc (length s)))) big))
      | inr small ↦ rw small (
          fraction_digits neg m (suc i) next (d + 1) s (leb-false (2 ^ 64) next small)
            (omega (arith, k)) a
          ∙ ap (λ j. fit neg (decimal next s) (λ v. ok (v, some j))) (omega arith))
    ]

too_large : (n p : ℕ) → 2 ^ 64 ≤ n → 1 ≤ p → 2 ^ 64 ≤ n * p
too_large n p h k = grind arith

scale_loop_lem : (neg : Bool) (k n : ℕ) → n < 2 ^ 64 → scale_loop neg k n ≡ fit neg (n * 10 ^ k) ok
unfolding scale_loop
scale_loop_lem neg zero n h =
    let same : n * 10 ^ 0 ≡ n = omega arith in rw same (rw (lt→leb-false (2 ^ 64) n h) refl)
scale_loop_lem neg (suc k) n h =
    let step : n * 10 ^ suc k ≡ 10 * n * 10 ^ k = rw (pow-suc 10 k) (grind arith) in
    elim (Bool-cases (leb (2 ^ 64) (10 * n))) [
      | inl big ↦
          let one = one-le-pow k 10 (omega arith) in
          let large : 2 ^ 64 ≤ n * 10 ^ suc k =
            rw step (too_large (10 * n) (10 ^ k) (leb→le (2 ^ 64) (10 * n) big) one) in
          rw (big, le→leb (2 ^ 64) (n * 10 ^ suc k) large) refl
      | inr small ↦
          rw (small, step) (scale_loop_lem neg k (10 * n) (leb-false (2 ^ 64) (10 * n) small))
    ]

-- The digits before the point, and those after it.
abbrev pub pointed : List ℕ → List ℕ → List ℕ
pointed whole frac = whole ++ b'.' ∷ frac

-- A number in the unit of the last decimal, on its way to satoshis.
abbrev pub scaled : Bool → ℕ → ℕ → Result (Bool × ℕ) InnerParseError
scaled neg k n = fit neg (n * 10 ^ k) (λ v. ok (neg, v))

then_fit :
    {A B : Type 0} (neg : Bool) (n : ℕ) (g : ℕ → Result A InnerParseError)
    (f : A → Result B InnerParseError)
    → then_ok (fit neg n g) f ≡ fit neg n (λ v. then_ok (g v) f)
then_fit neg n g f = elim (Bool-cases (leb (2 ^ 64) n)) [ inl e ↦ rw e refl | inr e ↦ rw e refl ]

scale_fit :
    (neg : Bool) (k n : ℕ)
    → fit neg n (λ v. then_ok (scale_loop neg k v) λ w. ok (neg, w)) ≡ scaled neg k n
scale_fit neg k n = elim (Bool-cases (leb (2 ^ 64) n)) [
  | inl big ↦
      let large = too_large n (10 ^ k) (leb→le (2 ^ 64) n big) (one-le-pow k 10 (omega arith)) in
      rw (big, le→leb (2 ^ 64) (n * 10 ^ k) large) refl
  | inr small ↦
      rw (small, scale_loop_lem neg k n (leb-false (2 ^ 64) n small))
        (then_fit neg (n * 10 ^ k) ok (λ w. ok (neg, w)))
]

pub decimal-append : (n : ℕ) (s t : List ℕ) → decimal n (s ++ t) ≡ decimal (decimal n s) t
unfolding decimal
decimal-append n [] t = refl
decimal-append n (c ∷ s) t = decimal-append (10 * n + (c - b'0')) s t

-- After the digits before the point.
abbrev finish : Bool → ℕ → ℕ × Option ℕ → Result (Bool × ℕ) InnerParseError
finish neg m (value, decimals) =
    then_ok (scale_loop neg (m - unwrap_or decimals 0) value) λ v. ok (neg, v)

pub parse_digits_whole :
    (neg : Bool) (m : ℕ) (whole : List ℕ)
    → All IsDigit whole
    → parse_digits neg m whole ≡ scaled neg m (decimal 0 whole)
unfolding parse_digits parse_loop
parse_digits_whole neg m whole a =
    let run : parse_loop neg m 0 none 0 whole ≡ fit neg (decimal 0 whole) (λ v. ok (v, none)) =
      rw (append-nil whole) at (whole_digits neg m 0 0 whole [] (omega arith) a) in
    rw run (then_fit neg (decimal 0 whole) (λ v. ok (v, none)) (finish neg m))
    ∙ scale_fit neg (m - 0) (decimal 0 whole)
    ∙ ap (λ k. scaled neg k (decimal 0 whole)) (omega arith)

point_step :
    (neg : Bool) (m i n : ℕ) (frac : List ℕ)
    → 0 < m
    → n < 2 ^ 64
    → All IsDigit frac
    → length frac ≤ m
    → parse_loop neg m i none n (b'.' ∷ frac)
      ≡ fit neg (decimal n frac) (λ v. ok (v, some (length frac)))
unfolding parse_loop
point_step neg m i n frac p h b k =
    let more : (m == 0) ≡ false = ground arith in
    rw more (
      fraction_digits neg m (suc i) n 0 frac h (omega (arith, k)) b
      ∙ ap (λ j. fit neg (decimal n frac) (λ v. ok (v, some j))) (omega arith))

pub parse_digits-pointed :
    (neg : Bool) (m : ℕ) (whole frac : List ℕ)
    → 0 < m
    → All IsDigit whole
    → All IsDigit frac
    → length frac ≤ m
    → parse_digits neg m (pointed whole frac)
      ≡ scaled neg (m - length frac) (decimal 0 (whole ++ frac))
unfolding parse_digits
parse_digits-pointed neg m whole frac p a b k =
    let n = decimal 0 whole in
    let run : parse_loop neg m 0 none 0 (pointed whole frac)
        ≡ fit neg (decimal n frac) (λ v. ok (v, some (length frac))) =
      whole_digits neg m 0 0 whole (b'.' ∷ frac) (omega arith) a
      ∙ elim (Bool-cases (leb (2 ^ 64) n)) [
        | inl big ↦ rw big (sym (overflow_early neg n frac (λ v. ok (v, some (length frac))) big))
        | inr small ↦
            rw small (point_step neg m (0 + length whole) n frac p (leb-false (2 ^ 64) n small) b k)
      ] in
    rw (run, decimal-append 0 whole frac)
      (then_fit neg (decimal n frac) (λ v. ok (v, some (length frac))) (finish neg m)
        ∙ scale_fit neg (m - length frac) (decimal n frac))
