-- ===== src/Units/Format/Digits.antt =====
-- The decimal digits that units/src/amount.rs writes are read back as the number.
use rust_dogecoin.Common.{
  ℕ, zero, suc, ◌≡◌, ◌<◌, ◌≤◌, ◌+◌, ◌-◌, ◌*◌, ◌/◌, ◌%◌, ◌^◌, List, [], ◌∷◌, ◌++◌, true, length,
  ◌==◌, refl, arith, ap, ◌∙◌, Bool-cases, All, All-append, length-append, if◌then◌else◌, inl, inr,
}
use native.Mathlib.Nat.{pow-suc, pow-le-pow_right}
use rust_dogecoin.Units.Amount.Decimal.{IsDigit, decimal, decimal-append}
use rust_dogecoin.Units.Format.{digits, repeat_char, padded, strip_zeros}

pub digits-IsDigit : (fuel n : ℕ) → All IsDigit (digits fuel n)
unfolding digits
digits-IsDigit zero n = tt
digits-IsDigit (suc fuel) n = elim (Bool-cases (n / 10 == 0)) [
  | inl e ↦ rw e ((omega arith, omega arith), tt)
  | inr e ↦ rw e (
      All-append IsDigit (digits fuel (n / 10)) ((n % 10 + b'0') ∷ [])
        (digits-IsDigit fuel (n / 10)) ((omega arith, omega arith), tt))
]

pub decimal-digits : (fuel n : ℕ) → n < 10 ^ fuel → decimal 0 (digits fuel n) ≡ n
unfolding digits decimal
decimal-digits zero n h = omega (arith, h)
decimal-digits (suc fuel) n h =
    let step = rw (pow-suc 10 fuel) at h in
    elim (Bool-cases (n / 10 == 0)) [
      | inl e ↦ let z : n / 10 ≡ 0 = ground arith in rw e (omega (arith, z))
      | inr e ↦ rw e (
          decimal-append 0 (digits fuel (n / 10)) ((n % 10 + b'0') ∷ [])
          ∙ rw (decimal-digits fuel (n / 10) (omega (arith, step))) (omega arith))
    ]

pub length-digits : (fuel j n : ℕ) → n < 10 ^ suc j → length (digits fuel n) ≤ suc j
unfolding digits
length-digits zero j n h = omega arith
length-digits (suc fuel) zero n h =
    let z : (n / 10 == 0) ≡ true = ground arith in rw z (omega arith)
length-digits (suc fuel) (suc j) n h =
    let step = rw (pow-suc 10 (suc j)) at h in
    elim (Bool-cases (n / 10 == 0)) [
      | inl e ↦ rw e (omega arith)
      | inr e ↦ rw e (
          omega (
            arith,
            length-append (digits fuel (n / 10)) ((n % 10 + b'0') ∷ []),
            length-digits fuel j (n / 10) (omega (arith, step)),
          ))
    ]

pub digits_start : (fuel n : ℕ) → 0 < length (digits (suc fuel) n)
unfolding digits
digits_start fuel n =
    omega (
      arith,
      length-append (if n / 10 == 0 then [] else digits fuel (n / 10)) ((n % 10 + b'0') ∷ []),
    )

zeros-IsDigit : (k : ℕ) → All IsDigit (repeat_char b'0' k)
unfolding repeat_char
zeros-IsDigit zero = tt
zeros-IsDigit (suc k) = ((omega arith, omega arith), zeros-IsDigit k)

length-repeat_char : (c k : ℕ) → length (repeat_char c k) ≡ k
unfolding repeat_char
length-repeat_char c zero = refl
length-repeat_char c (suc k) = ap suc (length-repeat_char c k)

decimal-zeros : (k : ℕ) (s : List ℕ) → decimal 0 (repeat_char b'0' k ++ s) ≡ decimal 0 s
unfolding repeat_char decimal
decimal-zeros zero s = refl
decimal-zeros (suc k) s =
    let start : 10 * 0 + (b'0' - b'0') ≡ 0 = omega arith in
    ap (λ n. decimal n (repeat_char b'0' k ++ s)) start ∙ decimal-zeros k s

-- Digits after a number.
pub decimal-after : (n : ℕ) (s : List ℕ) → decimal n s ≡ n * 10 ^ length s + decimal 0 s
unfolding decimal
decimal-after n [] = omega arith
decimal-after n (c ∷ s) =
    decimal-after (10 * n + (c - b'0')) s
    ∙ rw (decimal-after (10 * 0 + (c - b'0')) s, pow-suc 10 (length s)) (grind arith)

below_power : (a b n : ℕ) → n < 10 ^ a → a ≤ b → n < 10 ^ b
below_power a b n h k = omega (arith, h, pow-le-pow_right {n = 10} (omega arith) {i = a} {j = b} k)

ten_times : (a q m : ℕ) → a * q ≡ m → a * (q * 10) ≡ 10 * m
ten_times a q m h = grind arith

padded_lem :
    (j n : ℕ)
    → n < 10 ^ suc j
    → suc j ≤ 20
    → All IsDigit (padded (suc j) n)
      × (length (padded (suc j) n) ≡ suc j)
      × (decimal 0 (padded (suc j) n) ≡ n)
unfolding padded
padded_lem j n h k =
    let ds = digits 20 n in
    let l = length-digits 20 j n h in
    let z = repeat_char b'0' (suc j - length ds) in
    (
      All-append IsDigit z ds (zeros-IsDigit (suc j - length ds)) (digits-IsDigit 20 n),
      omega (arith, length-append z ds, length-repeat_char b'0' (suc j - length ds), l),
      decimal-zeros (suc j - length ds) ds ∙ decimal-digits 20 n (below_power (suc j) 20 n h k),
    )

-- The decimals without the zeros at their end.
pub strip_zeros_lem :
    (p n : ℕ)
    → 0 < n
    → n < 10 ^ p
    → ((strip_zeros p n).0 ≤ p)
      × (0 < (strip_zeros p n).0)
      × ((strip_zeros p n).1 < 10 ^ (strip_zeros p n).0)
      × ((strip_zeros p n).1 * 10 ^ (p - (strip_zeros p n).0) ≡ n)
unfolding strip_zeros
strip_zeros_lem zero n z h = absurd (omega (arith, z, h))
strip_zeros_lem (suc p) n z h = elim (Bool-cases (n % 10 == 0)) [
  | inr e ↦
      let none_dropped : suc p - suc p ≡ 0 = omega arith in
      rw e (omega arith, omega arith, h, rw none_dropped (omega arith))
  | inl e ↦
      let step = rw (pow-suc 10 p) at h in
      let ten : n % 10 ≡ 0 = ground arith in
      let (a, b, c, d) = strip_zeros_lem p (n / 10) (omega (arith, z, ten)) (omega (arith, step)) in
      let nb = (strip_zeros p (n / 10)).0 in
      let dropped : suc p - nb ≡ suc (p - nb) = omega (arith, a) in
      rw e (
        omega (arith, a),
        b,
        c,
        rw (dropped, pow-suc 10 (p - nb))
            (ten_times (strip_zeros p (n / 10)).1 (10 ^ (p - nb)) (n / 10) d ∙ omega (arith, ten)),
      )
]

pub padded_digits :
    (nb n : ℕ)
    → 0 < nb
    → n < 10 ^ nb
    → nb ≤ 20
    → All IsDigit (padded nb n) × (length (padded nb n) ≡ nb) × (decimal 0 (padded nb n) ≡ n)
padded_digits zero n z h k = absurd (omega (arith, z))
padded_digits (suc j) n z h k = padded_lem j n h k

power_sum : (a b : ℕ) → 10 ^ a * 10 ^ b ≡ 10 ^ (a + b)
power_sum zero b = let start : 0 + b ≡ b = omega arith in rw start (omega arith)
power_sum (suc a) b =
    let sum : 10 ^ (suc a + b) ≡ 10 ^ suc (a + b) = ap (λ e. 10 ^ e) (omega arith) in
    rw (sum, pow-suc 10 a, pow-suc 10 (a + b))
      (ten_more (10 ^ a) (10 ^ b) (10 ^ (a + b)) (power_sum a b))
  where
    ten_more : (x y z : ℕ) → x * y ≡ z → x * 10 * y ≡ z * 10
    ten_more x y z h = grind arith

pub power_split : (a p : ℕ) → a ≤ p → 10 ^ a * 10 ^ (p - a) ≡ 10 ^ p
power_split a p h = power_sum a (p - a) ∙ ap (λ e. 10 ^ e) (omega (arith, h))
