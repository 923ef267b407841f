-- ===== src/Pow/Retarget/Timespan.antt =====
-- The timespan of a retarget lies within its bounds, and is computed without overflow.
use rust_dogecoin.Common.{
  ℕ, ◌+◌, ◌-◌, ◌*◌, ◌/◌, ◌%◌, ◌^◌, ◌≤◌, ◌≡◌, arith, refl, ap, ◌∙◌, true, false, leb, suc, Bool,
  some, inl, inr, Bool-cases, if◌then◌else◌,
}
use rust_dogecoin.Common.Int.{
  ℤ, pos, negsuc, pos_part, ◌≤ℤ◌, ◌-ℤ◌, ◌+ℤ◌, div_ℤ, shr_ℤ, clamp, IsI64, of_word, checked_i64_fits,
}
use Prim.Native.Nat.{min, max}
use native.Mathlib.Nat.{div-le_self}
use rust_dogecoin.Dogecoin.Params.{
  Params, Network, dogecoin, testnet, regtest, is_digishield_activated, pow_target_timespan,
}
use rust_dogecoin.Pow.Retarget.{fall_shift, damped_timespan, clamped_timespan, modulated_timespan}

-- The target timespan in seconds.
abbrev pub timespan_of : Network → Bool → ℕ
timespan_of n false = 14400
timespan_of dogecoin true = 60
timespan_of testnet true = 60
timespan_of regtest true = 1

pub seconds : Params → ℕ → ℕ
seconds p height = timespan_of p.network (is_digishield_activated p height)

pub pow_target_timespan-seconds :
    (p : Params) (height : ℕ) → pow_target_timespan p height ≡ pos (seconds p height)
unfolding pow_target_timespan seconds
pow_target_timespan-seconds p height = ground arith

pub seconds_bounds : (p : Params) (height : ℕ) → (1 ≤ seconds p height) × (seconds p height ≤ 14400)
unfolding seconds
seconds_bounds p height = ground arith

-- The bounds of the retarget's timespan: from 3/4 to 3/2 of the target timespan with Digishield, and
-- before it from 1/16, 1/8 or 1/4, by height, to 4 times.
abbrev pub shortest : Bool → ℕ → ℕ → ℕ
shortest true height n = n - n / 4
shortest false height n = n / 2 ^ fall_shift height

abbrev pub longest : Bool → ℕ → ℕ
longest true n = n + n / 2
longest false n = 4 * n

-- A timespan for which the differences do not overflow; header times are `u32`s, so theirs is one.
abbrev pub IsModest : ℤ → Type 0
IsModest z = (negsuc (2 ^ 62) ≤ℤ z) × (z ≤ℤ pos (2 ^ 62))

-- The timespan that is aimed at. With Digishield an eighth of the deviation from the target timespan
-- counts, rounded toward the target; before it the timespan itself, or nothing where that is negative.
abbrev pub aimed_at : Bool → ℕ → ℤ → ℕ
aimed_at true n (pos k) = if leb n k then n + (k - n) / 8 else n - (n - k) / 8
aimed_at true n (negsuc k) = n - (n + suc k) / 8
aimed_at false n (pos k) = k
aimed_at false n (negsuc k) = 0

-- The timespan between the bounds that is the nearest to it.
abbrev pub counted : Bool → ℕ → ℕ → ℤ → ℕ
counted digishield height n z =
    max (shortest digishield height n) (min (longest digishield n) (aimed_at digishield n z))

within :
    (low high x : ℕ) → low ≤ high → (low ≤ max low (min high x)) × (max low (min high x) ≤ high)
within low high x h = (omega arith, omega (arith, h))

clamp_pos :
    (z : ℤ) (low high : ℕ)
    → low ≤ high
    → clamp z (pos low) (pos high) ≡ pos (max low (min high (pos_part z)))
clamp_pos (pos n) low high h = ground arith
clamp_pos (negsuc n) low high h = ground arith

aimed_damped : (z : ℤ) (n : ℕ) → pos_part (pos n +ℤ div_ℤ (z -ℤ pos n) 8) ≡ aimed_at true n z
aimed_damped (pos k) n = ground arith
aimed_damped (negsuc k) n = ground arith

aimed_whole : (z : ℤ) (n : ℕ) → pos_part z ≡ aimed_at false n z
aimed_whole (pos k) n = refl
aimed_whole (negsuc k) n = refl

difference_fits : (z : ℤ) (n : ℕ) → IsModest z → n ≤ 14400 → IsI64 (z -ℤ pos n)
difference_fits (pos k) n h b = (ground arith, ground arith)
difference_fits (negsuc k) n h b = (ground arith, ground arith)

damped_fits : (z : ℤ) (n : ℕ) → IsModest z → n ≤ 14400 → IsI64 (pos n +ℤ div_ℤ (z -ℤ pos n) 8)
damped_fits (pos k) n h b = (ground arith, ground arith)
damped_fits (negsuc k) n h b = (ground arith, ground arith)

damped_timespan_lem :
    (debug : Bool) (z : ℤ) (n height : ℕ)
    → IsModest z
    → n ≤ 14400
    → damped_timespan debug z (pos n) ≡ some (pos (counted true height n z))
unfolding damped_timespan
damped_timespan_lem debug z n height h b =
    let low : pos n -ℤ shr_ℤ (pos n) 2 ≡ pos (n - n / 4) = ground arith in
    let high : pos n +ℤ shr_ℤ (pos n) 1 ≡ pos (n + n / 2) = ground arith in
    rw
      (
        checked_i64_fits debug (z -ℤ pos n) (difference_fits z n h b),
        checked_i64_fits debug (pos n +ℤ div_ℤ (z -ℤ pos n) 8) (damped_fits z n h b),
        low,
        checked_i64_fits debug (pos (n - n / 4)) (ground arith),
        high,
        checked_i64_fits debug (pos (n + n / 2)) (ground arith),
        clamp_pos (pos n +ℤ div_ℤ (z -ℤ pos n) 8) (n - n / 4) (n + n / 2) (omega arith),
        aimed_damped z n,
      )
      refl

clamped_timespan_lem :
    (z : ℤ) (n height : ℕ)
    → n ≤ 14400
    → clamped_timespan z (pos n) height ≡ pos (counted false height n z)
unfolding clamped_timespan
clamped_timespan_lem z n height b =
    let high : of_word 64 (n % 2 ^ 64 * 2 ^ 2 % 2 ^ 64) ≡ pos (4 * n) = ground arith in
    rw high (
      clamp_pos z (n / 2 ^ fall_shift height) (4 * n)
        (omega (arith, div-le_self n (2 ^ fall_shift height)))
      ∙ ap (λ x. pos (max (n / 2 ^ fall_shift height) (min (4 * n) x))) (aimed_whole z n))

-- For a timespan within 2^62 of zero, the timespan of a retarget is computed without overflow and is
-- the one between the height's bounds that is the nearest to what is aimed at.
pub modulated_timespan-counted :
    (debug : Bool) (z : ℤ) (p : Params) (height : ℕ)
    → IsModest z
    → modulated_timespan debug z p height
      ≡ some (pos (counted (is_digishield_activated p height) height (seconds p height) z))
unfolding modulated_timespan
modulated_timespan-counted debug z p height h =
    let n = seconds p height in
    let (least, most) = seconds_bounds p height in
    elim (Bool-cases (is_digishield_activated p height)) [
      | inl on ↦
          rw (on, pow_target_timespan-seconds p height)
            (damped_timespan_lem debug z n height h most)
      | inr off ↦
          rw (off, pow_target_timespan-seconds p height, clamped_timespan_lem z n height most) refl
    ]

shortest-le-longest :
    (digishield : Bool) (height n : ℕ) → shortest digishield height n ≤ longest digishield n
shortest-le-longest true height n = omega arith
shortest-le-longest false height n = omega (arith, div-le_self n (2 ^ fall_shift height))

pub counted-le-longest :
    (digishield : Bool) (height n : ℕ) (z : ℤ)
    → counted digishield height n z ≤ longest digishield n
counted-le-longest d height n z =
    let (above, below) =
      within (shortest d height n) (longest d n) (aimed_at d n z)
        (shortest-le-longest d height n) in
    below

-- For a timespan within 2^62 of zero, the timespan of a retarget is computed without overflow and
-- is a number between the height's shortest and longest timespan.
pub modulated_timespan_lem :
    (debug : Bool) (z : ℤ) (p : Params) (height : ℕ)
    → IsModest z
    → (m : ℕ) × (modulated_timespan debug z p height ≡ some (pos m))
      × (shortest (is_digishield_activated p height) height (seconds p height) ≤ m)
      × (m ≤ longest (is_digishield_activated p height) (seconds p height))
modulated_timespan_lem debug z p height h =
    let d = is_digishield_activated p height in
    let n = seconds p height in
    let (above, below) =
      within (shortest d height n) (longest d n) (aimed_at d n z)
        (shortest-le-longest d height n) in
    (counted d height n z, modulated_timespan-counted debug z p height h, above, below)
