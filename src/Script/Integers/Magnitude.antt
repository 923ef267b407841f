-- ===== src/Script/Integers/Magnitude.antt =====
-- The written form of a number of bitcoin/src/blockdata/script/mod.rs as a sign and a magnitude: what the
-- loop writes is the one byte string of least length with them.
use rust_dogecoin.Common.{
  le→ltb-false, ℕ, zero, suc, ◌≡◌, ◌<◌, ◌≤◌, ◌+◌, ◌*◌, ◌/◌, ◌%◌, ◌^◌, List, [], ◌∷◌, Bool, true,
  false, not, ◌||◌, length, leb, ltb, ◌==◌, if◌then◌else◌, bit_and, bit_or, refl, arith, ap, All,
  Bool-cases, inl, inr, leb→le, leb-false, le→leb, lt→leb-false, lt→ltb, subst, ltb-false, ltb→lt,
}
use native.Mathlib.Nat.{pow-suc}
use rust_dogecoin.Common.Bits.{and_mask, and_bit, or_disjoint_low}
use rust_dogecoin.Common.Bytes.{IsByte}
use rust_dogecoin.Script.Integers.{sign_byte, write_last, write_loop}

unfoldable pub magnitude : List ℕ → ℕ
magnitude [] = 0
magnitude (last ∷ []) = last % 128
magnitude (b ∷ c ∷ v) = b + 256 * magnitude (c ∷ v)

unfoldable pub negative : List ℕ → Bool
negative [] = false
negative (last ∷ []) = leb 128 last
negative (b ∷ c ∷ v) = negative (c ∷ v)

-- The last byte says more than the sign, or makes room for it.
unfoldable pub is_minimal : List ℕ → Bool
is_minimal [] = true
is_minimal (last ∷ []) = ltb 0 (last % 128)
is_minimal (b ∷ last ∷ []) = ltb 0 (last % 128) || leb 128 b
is_minimal (b ∷ c ∷ d ∷ v) = is_minimal (c ∷ d ∷ v)

-- The sign beside a magnitude of seven bits.
or_sign : (neg : Bool) (abs : ℕ) → abs < 128 → bit_or abs (sign_byte neg) ≡ abs + sign_byte neg
or_sign true abs h = omega (arith, or_disjoint_low 7 1 abs h)
or_sign false abs h = omega (arith, or_disjoint_low 7 0 abs h)

-- The sign bit of a byte.
pub top_bit : (b : ℕ) → b < 256 → (bit_and b 0x80 == 0) ≡ not (leb 128 b)
top_bit b h = elim (Bool-cases (leb 128 b)) [
  | inl high ↦
      let e : bit_and b 0x80 ≡ 128 = omega (arith, and_bit 7 b, leb→le 128 b high) in
      rw (high, e) refl
  | inr low ↦
      let e : bit_and b 0x80 ≡ 0 = omega (arith, and_bit 7 b, leb-false 128 b low) in
      rw (low, e) refl
]

-- The last bytes without bit masks.
write_last_lem :
    (neg : Bool) (abs : ℕ)
    → abs < 256
    → write_last neg abs
      ≡ (if leb 128 abs then abs ∷ sign_byte neg ∷ [] else (abs + sign_byte neg) ∷ [])
unfolding write_last
write_last_lem neg abs h = elim (Bool-cases (leb 128 abs)) [
  | inl high ↦ rw (top_bit abs h, high) refl
  | inr low ↦ rw (top_bit abs h, low, or_sign neg abs (leb-false 128 abs low)) refl
]

write_loop_step :
    (fuel : ℕ) (neg : Bool) (abs : ℕ)
    → write_loop (suc fuel) neg abs
      ≡ (if ltb 255 abs then (abs % 256) ∷ write_loop fuel neg (abs / 256) else write_last neg abs)
unfolding write_loop
write_loop_step fuel neg abs = rw (and_mask 8 abs) refl

-- What a byte string says, and that it is one, in the least length.
abbrev pub Says : Bool → ℕ → List ℕ → Type 0
Says neg abs v = (magnitude v ≡ abs) × (negative v ≡ neg) × (is_minimal v ≡ true) × All IsByte v

write_last-Says : (neg : Bool) (abs : ℕ) → 0 < abs → abs < 256 → Says neg abs (write_last neg abs)
unfolding magnitude negative is_minimal
write_last-Says neg abs h k = rw (write_last_lem neg abs k) (elim (Bool-cases (leb 128 abs)) [
  | inl high ↦ rw high (two neg high)
  | inr low ↦ rw low (one neg (leb-false 128 abs low))
])
  where
    two : (s : Bool) → leb 128 abs ≡ true → Says s abs (abs ∷ sign_byte s ∷ [])
    two true e = (omega arith, refl, rw e refl, (k, (omega arith, tt)))
    two false e = (omega arith, refl, rw e refl, (k, (omega arith, tt)))

    one : (s : Bool) → abs < 128 → Says s abs ((abs + sign_byte s) ∷ [])
    one true l =
        (omega arith, le→leb _ _ (omega arith), lt→ltb _ _ (omega arith), (omega arith, tt))
    one false l =
        (omega arith, lt→leb-false _ _ (omega arith), lt→ltb _ _ (omega arith), (omega arith, tt))

cons-Says :
    (neg : Bool) (b abs : ℕ) (v : List ℕ)
    → b < 256
    → 0 < abs
    → Says neg abs v
    → Says neg (b + 256 * abs) (b ∷ v)
unfolding magnitude negative is_minimal
cons-Says neg b abs [] h p (m, n, l, y) = absurd (omega arith)
cons-Says neg b abs (c ∷ []) h p (m, n, l, y) =
    (omega (arith, m), n, rw (lt→ltb 0 (c % 128) (omega (arith, m))) refl, (h, y))
cons-Says neg b abs (c ∷ d ∷ v) h p (m, n, l, y) = (rw m refl, n, l, (h, y))

pub write_loop-Says :
    (fuel : ℕ) (neg : Bool) (abs : ℕ)
    → 0 < abs
    → abs < 256 ^ suc fuel
    → Says neg abs (write_loop fuel neg abs)
unfolding write_loop
write_loop-Says zero neg abs p h = write_last-Says neg abs p h
write_loop-Says (suc fuel) neg abs p h =
    rw (write_loop_step fuel neg abs) (elim (Bool-cases (ltb 255 abs)) [
      | inl more ↦ rw more (
          let e : abs % 256 + 256 * (abs / 256) ≡ abs = omega arith in
          let q = ltb→lt 255 abs more in
          let ih =
            write_loop-Says fuel neg (abs / 256) (omega arith)
              (omega (arith, pow-suc 256 (suc fuel))) in
          subst (λ a. Says neg a (abs % 256 ∷ write_loop fuel neg (abs / 256))) e
            (cons-Says neg (abs % 256) (abs / 256) (write_loop fuel neg (abs / 256)) (omega arith)
              (omega arith) ih))
      | inr small ↦ rw small (write_last-Says neg abs p (omega (arith, ltb-false 255 abs small)))
    ])

pub minimal_pos : (v : List ℕ) → 0 < length v → is_minimal v ≡ true → 0 < magnitude v
unfolding magnitude is_minimal
minimal_pos [] h m = absurd (omega arith)
minimal_pos (l ∷ []) h m = ltb→lt 0 (l % 128) m
minimal_pos (b ∷ l ∷ []) h m = ground arith
minimal_pos (b ∷ c ∷ d ∷ v) h m = omega (arith, minimal_pos (c ∷ d ∷ v) (omega arith) m)

small : (fuel : ℕ) (neg : Bool) (abs : ℕ) → abs < 256 → write_loop fuel neg abs ≡ write_last neg abs
unfolding write_loop
small zero neg abs h = refl
small (suc fuel) neg abs h =
    rw (write_loop_step fuel neg abs, le→ltb-false 255 abs (omega arith)) refl

sign_of : (l : ℕ) → l < 256 → l % 128 + sign_byte (leb 128 l) ≡ l
sign_of l h = elim (Bool-cases (leb 128 l)) [
  | inl e ↦ let f = leb→le 128 l e in rw e (omega arith)
  | inr e ↦ let f = leb-false 128 l e in rw e (omega arith)
]

one_byte : (l fuel : ℕ) → l < 256 → write_loop fuel (leb 128 l) (l % 128) ≡ l ∷ []
one_byte l fuel h =
    rw
      (
        small fuel (leb 128 l) (l % 128) (omega arith),
        write_last_lem (leb 128 l) (l % 128) (omega arith),
        lt→leb-false 128 (l % 128) (omega arith),
        sign_of l h,
      )
      refl

carry :
    (fuel : ℕ) (neg : Bool) (b m : ℕ)
    → b < 256
    → 0 < m
    → write_loop (suc fuel) neg (b + 256 * m) ≡ b ∷ write_loop fuel neg m
carry fuel neg b m h k =
    let r : (b + 256 * m) % 256 ≡ b = omega arith in
    let q : (b + 256 * m) / 256 ≡ m = omega arith in
    rw (write_loop_step fuel neg (b + 256 * m), lt→ltb 255 (b + 256 * m) (omega arith), r, q) refl

-- A last byte that holds the sign alone.
sign_only :
    (fuel b l : ℕ)
    → b < 256
    → l < 256
    → l % 128 ≡ 0
    → leb 128 b ≡ true
    → write_loop (suc fuel) (leb 128 l) (b + 256 * (l % 128)) ≡ b ∷ l ∷ []
sign_only fuel b l h k e f =
    let s : sign_byte (leb 128 l) ≡ l = omega (arith, sign_of l k) in
    let m : b + 256 * (l % 128) ≡ b = omega arith in
    rw (m, small (suc fuel) (leb 128 l) b h, write_last_lem (leb 128 l) b h, f, s) refl

-- The loop writes a byte string of least length again.
pub write_loop-magnitude :
    (v : List ℕ) (fuel : ℕ)
    → 0 < length v
    → length v ≤ suc fuel
    → is_minimal v ≡ true
    → All IsByte v
    → write_loop fuel (negative v) (magnitude v) ≡ v
unfolding magnitude is_minimal negative
write_loop-magnitude [] fuel h k m y = absurd (omega arith)
write_loop-magnitude (l ∷ []) fuel h k m (y, _) = one_byte l fuel y
write_loop-magnitude (b ∷ c ∷ v) zero h k m y = absurd (omega arith)
write_loop-magnitude (b ∷ l ∷ []) (suc fuel) h k m (y, (z, _)) =
    elim (Bool-cases (ltb 0 (l % 128))) [
      | inl more ↦
          rw (carry fuel (leb 128 l) b (l % 128) y (ltb→lt _ _ more))
            (ap (λ t. b ∷ t) (one_byte l fuel z))
      | inr less ↦
          let f = ltb-false 0 (l % 128) less in sign_only fuel b l y z (omega arith) (ground arith)
    ]
write_loop-magnitude (b ∷ c ∷ d ∷ v) (suc fuel) h k m (y, ys) =
    rw
      (carry fuel (negative (d ∷ v)) b (c + 256 * magnitude (d ∷ v)) y
        (minimal_pos (c ∷ d ∷ v) (omega arith) m))
      (ap (λ t. b ∷ t) (write_loop-magnitude (c ∷ d ∷ v) fuel (omega arith) (omega arith) m ys))
