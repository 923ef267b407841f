-- ===== src/Base58/Loops.antt =====
-- The loops of base58/src/lib.rs compute the number that their input writes, the highest digit first.
use rust_dogecoin.Common.{
  ℕ, suc, ◌≡◌, ◌<◌, ◌≤◌, ◌+◌, ◌*◌, ◌^◌, List, [], ◌∷◌, Option, none, some, Bool, true, false, ◌&&◌,
  length, ◌==◌, refl, arith, ap, ◌∙◌, All, if◌then◌else◌, Option-cases, inl, inr, ◌⊎◌,
}
use rust_dogecoin.Common.Bytes.{IsByte, from_le_bytes}
use rust_dogecoin.Common.Results.{ok, err}
use rust_dogecoin.Base58.{
  invalid_character, base58_digit, times_58, decode_loop, add_byte, format_loop,
}
use rust_dogecoin.Base58.Digits.{IsDigit, IsTrimmed, value, times_58_lem, add_byte_lem}
use native.Mathlib.Nat.{pow-suc, one-le-pow}

-- The number of the digits, after a number.
unfoldable pub number : ℕ → ℕ → List ℕ → ℕ
number base acc [] = acc
number base acc (d ∷ ds) = number base (base * acc + d) ds

-- The zeros at the start.
unfoldable pub leading_zeros : List ℕ → ℕ
leading_zeros [] = 0
leading_zeros (x ∷ xs) = let more = suc (leading_zeros xs) in if x == 0 then more else 0

-- The characters are those of the digits.
abbrev pub Writes : List ℕ → List ℕ → Type 0
Writes [] [] = Unit {0}
Writes [] (d ∷ ds) = ⊥
Writes (c ∷ cs) [] = ⊥
Writes (c ∷ cs) (d ∷ ds) = (base58_digit c ≡ some d) × Writes cs ds

-- The first character that is no digit.
unfoldable pub first_invalid : List ℕ → Option ℕ
first_invalid [] = none
first_invalid (c ∷ cs) = elim (base58_digit c) [ none ↦ some c | some d ↦ first_invalid cs ]

pub base58_digit-IsDigit : (c d : ℕ) → base58_digit c ≡ some d → d < 58
unfolding base58_digit
base58_digit-IsDigit c d h = ground arith

enough_room : (f q p : ℕ) → 0 < q → (f + 1) * (q * 58) ≤ p → 58 * f + 58 ≤ p
enough_room f q p h k = grind arith

none_left : (x p left s : ℕ) → x + p * left ≡ s → s < p → left ≡ 0
none_left x p left s e h = grind arith

room_left : (c f q p : ℕ) → c < 58 → (f + 1) * (q * 58) ≤ p → (58 * f + c + 1) * q ≤ p
room_left c f q p h k = grind arith

-- One character more leaves no carry when the scratch space is large enough.
no_carry :
    (carry n : ℕ) (scratch : List ℕ)
    → carry < 58
    → (from_le_bytes scratch + 1) * 58 ^ suc n ≤ 256 ^ length scratch
    → ((times_58 carry scratch).1 ≡ 0)
      × (from_le_bytes (times_58 carry scratch).0 ≡ 58 * from_le_bytes scratch + carry)
      × ((from_le_bytes (times_58 carry scratch).0 + 1) * 58 ^ n ≤ 256 ^ length scratch)
no_carry carry n scratch c room =
    let (v, l, b) = times_58_lem carry scratch in
    let f = from_le_bytes scratch in
    let p = 256 ^ length scratch in
    let q = rw (pow-suc 58 n) at room in
    let fits = enough_room f (58 ^ n) p (one-le-pow n 58 (omega arith)) q in
    let zero_left = none_left _ p _ _ v (omega (arith, fits, c)) in
    let sum : from_le_bytes (times_58 carry scratch).0 ≡ 58 * f + carry =
      omega (arith, rw zero_left at v) in
    (zero_left, sum, rw sum (room_left carry f (58 ^ n) p c q))

pub decode_loop_lem :
    (cs scratch : List ℕ)
    → All IsByte scratch
    → (from_le_bytes scratch + 1) * 58 ^ length cs ≤ 256 ^ length scratch
    → ((c : ℕ) × (first_invalid cs ≡ some c)
        × (decode_loop cs scratch ≡ some (err (invalid_character c))))
      ⊎ ((ds out : List ℕ) × (first_invalid cs ≡ none)
          × Writes cs ds
          × (decode_loop cs scratch ≡ some (ok out))
          × (from_le_bytes out ≡ number 58 (from_le_bytes scratch) ds)
          × All IsByte out)
unfolding first_invalid decode_loop number
decode_loop_lem [] scratch b room = inr ([], scratch, refl, tt, refl, refl, b)
decode_loop_lem (c ∷ cs) scratch b room = elim (Option-cases (base58_digit c)) [
  | inl bad ↦ inl (c, rw (bad, first_invalid) refl, rw (bad, decode_loop) refl)
  | inr (d, good) ↦
      let (left, v, room') = no_carry d (length cs) scratch (base58_digit-IsDigit c d good) room in
      let (_, l, b') = times_58_lem d scratch in
      elim (decode_loop_lem cs (times_58 d scratch).0 b' (rw l room')) [
        | inl (e, f, g) ↦ inl (e, rw (good, first_invalid) f, rw (good, decode_loop, left) g)
        | inr (ds, out, f, w, g, n, a) ↦ inr (
          d ∷ ds,
          out,
          rw (good, first_invalid) f,
          (good, w),
          rw (good, decode_loop, left) g,
          n ∙ ap (λ k. number 58 k ds) v,
          a,
        )
      ]
]

-- The loop of the encoder: the digits of the number of the bytes, and the count of the zeros in front.
pub format_loop_lem :
    (bytes ret : List ℕ) (count : ℕ) (leading : Bool)
    → All IsByte bytes
    → All IsDigit ret
    → IsTrimmed ret
    → (value (format_loop bytes ret count leading).0 ≡ number 256 (value ret) bytes)
      × All IsDigit (format_loop bytes ret count leading).0
      × IsTrimmed (format_loop bytes ret count leading).0
      × ((format_loop bytes ret count leading).1
          ≡ count + (if leading then leading_zeros bytes else 0))
unfolding format_loop number leading_zeros
format_loop_lem [] ret count true b a t = (refl, a, t, omega arith)
format_loop_lem [] ret count false b a t = (refl, a, t, omega arith)
format_loop_lem (x ∷ bytes) ret count leading (b, bs) a t =
    let (v, a', t') = add_byte_lem x ret b a in
    let zero_byte = leading && (x == 0) in
    let (n, d, trimmed, k) =
      format_loop_lem bytes (add_byte x ret) (if zero_byte then count + 1 else count) zero_byte bs
        a' (t' t) in
    (
      n ∙ ap (λ (m : ℕ). number 256 m bytes) (v ∙ omega arith),
      d,
      trimmed,
      k ∙ counted leading (x == 0),
    )
  where
    counted :
        (leading z : Bool)
        → (if leading && z then count + 1 else count)
            + (if leading && z then leading_zeros bytes else 0)
          ≡ count + (if leading then (if z then suc (leading_zeros bytes) else 0) else 0)
    counted true true = omega arith
    counted true false = refl
    counted false z = refl
