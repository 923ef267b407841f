-- ===== src/Blockdata/LockTime/Laws.antt =====
-- Laws of the lock times of bitcoin/src/blockdata/locktime: implication is implication of satisfaction,
-- a relative lock time is read back from a sequence number, and intervals are rounded.
use rust_dogecoin.Common.{
  sym, ◌∙◌, ltb→lt, ltb-false, leb-false, inr, leb→le, inl, Bool-cases, ◌⊎◌, le→leb, ℕ, ◌≡◌, ◌↔◌,
  ◌<◌, ◌≤◌, ◌+◌, ◌-◌, ◌*◌, ◌/◌, ◌%◌, ◌^◌, true, leb, ltb, if◌then◌else◌, refl, arith, bit_and,
  bit_or,
}
use rust_dogecoin.Common.Results.{ok, err}
use rust_dogecoin.Common.Bits.{and_bit, or_disjoint}
use rust_dogecoin.Blockdata.LockTime.Absolute as Absolute
use rust_dogecoin.Blockdata.LockTime.Relative as Relative
use rust_dogecoin.Blockdata.LockTime.Relative.{time_overflow, from_seconds_floor, from_seconds_ceil}

-- A bound is at least as strong as another just when whatever reaches it reaches the other.
leb_iff : (a b : ℕ) → (leb a b ≡ true) ↔ ((x : ℕ) → leb b x ≡ true → leb a x ≡ true)
leb_iff a b = (λ h x k. ground arith, λ f. f b (le→leb b b (omega arith)))

pub absolute_implied :
    (this other : Absolute.LockTime)
    → Absolute.is_same_unit this other ≡ true
    → (Absolute.is_implied_by this other ≡ true) ↔ (
        (height time : ℕ)
        → Absolute.is_satisfied_by other height time ≡ true
        → Absolute.is_satisfied_by this height time ≡ true)
unfolding Absolute.is_implied_by Absolute.is_satisfied_by Absolute.is_same_unit
absolute_implied (Absolute.blocks a) (Absolute.blocks b) s =
    (λ h height time. (leb_iff a b).0 h height, λ f. f b 0 (le→leb b b (omega arith)))
absolute_implied (Absolute.seconds a) (Absolute.seconds b) s =
    (λ h height time. (leb_iff a b).0 h time, λ f. f 0 b (le→leb b b (omega arith)))
absolute_implied (Absolute.blocks a) (Absolute.seconds b) s = absurd (ground arith)
absolute_implied (Absolute.seconds a) (Absolute.blocks b) s = absurd (ground arith)

-- The values of 16 bits.
abbrev pub IsRelative : Relative.LockTime → Type 0
IsRelative (Relative.blocks h) = h < 2 ^ 16
IsRelative (Relative.time t) = t < 2 ^ 16

flags_blocks : (h : ℕ) → h < 2 ^ 16 → (bit_and h 0x8000_0000 ≡ 0) × (bit_and h 0x0040_0000 ≡ 0)
flags_blocks h k = (omega (arith, and_bit 31 h), omega (arith, and_bit 22 h))

flags_time :
    (t : ℕ)
    → t < 2 ^ 16
    → (bit_and (0x0040_0000 + t) 0x8000_0000 ≡ 0)
      × (bit_and (0x0040_0000 + t) 0x0040_0000 ≡ 0x0040_0000)
flags_time t k =
    (omega (arith, and_bit 31 (0x0040_0000 + t)), omega (arith, and_bit 22 (0x0040_0000 + t)))

-- A relative lock time of at most 16 bits, of blocks or of intervals, is read back from the
-- sequence number that it is written as.
pub relative_roundtrip :
    (lock : Relative.LockTime)
    → IsRelative lock
    → Relative.from_consensus (Relative.to_consensus_u32 lock) ≡ ok lock
unfolding Relative.from_consensus Relative.to_consensus_u32 Relative.or_disabled
    Relative.to_relative_lock_time Relative.is_relative_lock_time Relative.is_time_locked
relative_roundtrip (Relative.blocks h) k =
    let (a, b) = flags_blocks h k in let m : h % 2 ^ 16 ≡ h = omega arith in rw (a, b, m) refl
relative_roundtrip (Relative.time t) k =
    let o : bit_or 0x0040_0000 t ≡ 0x0040_0000 + t =
      omega (arith, or_disjoint 22 1 t (omega arith)) in
    let (a, b) = flags_time t k in
    let m : (0x0040_0000 + t) % 2 ^ 16 ≡ t = omega arith in rw (o, a, b, m) refl

-- On the values of 16 bits, where the larger bound is one of them.
leb_iff_16 :
    (a b : ℕ)
    → b < 2 ^ 16
    → (leb a b ≡ true) ↔ ((x : ℕ) → x < 2 ^ 16 → leb b x ≡ true → leb a x ≡ true)
leb_iff_16 a b h = (λ l x k m. (leb_iff a b).0 l x m, λ f. f b h (le→leb b b (omega arith)))

height_test : (a h t : ℕ) → Relative.is_satisfied_by (Relative.blocks a) h t ≡ leb a h
unfolding Relative.is_satisfied_by Relative.is_satisfied_by_height Relative.is_satisfied_by_time
    Relative.is_ok_true
height_test a h t = ground arith

time_test : (a h t : ℕ) → Relative.is_satisfied_by (Relative.time a) h t ≡ leb a t
unfolding Relative.is_satisfied_by Relative.is_satisfied_by_height Relative.is_satisfied_by_time
    Relative.is_ok_true
time_test a h t = refl

-- A relative lock time is implied by another, of at most 16 bits, exactly when the two have the
-- same unit and every height and time of 16 bits that satisfy the other satisfy it.
pub relative_implied :
    (this other : Relative.LockTime)
    → IsRelative other
    → (Relative.is_implied_by this other ≡ true) ↔ (
        (Relative.is_same_unit this other ≡ true)
        × ((height time : ℕ)
            → height < 2 ^ 16
            → time < 2 ^ 16
            → Relative.is_satisfied_by other height time ≡ true
            → Relative.is_satisfied_by this height time ≡ true))
unfolding Relative.is_implied_by Relative.is_same_unit
relative_implied (Relative.blocks a) (Relative.blocks b) k =
    let (to, back) = leb_iff_16 a b k in
    (
      λ l. (refl, λ h t hb tb m. height_test a h t ∙ to l h hb (sym (height_test b h t) ∙ m)),
      λ (u, f).
          back (λ x xb m. sym (height_test a x 0) ∙ f x 0 xb (omega arith) (height_test b x 0 ∙ m)),
    )
relative_implied (Relative.time a) (Relative.time b) k =
    let (to, back) = leb_iff_16 a b k in
    (
      λ l. (refl, λ h t hb tb m. time_test a h t ∙ to l t tb (sym (time_test b h t) ∙ m)),
      λ (u, f).
          back (λ x xb m. sym (time_test a 0 x) ∙ f 0 x (omega arith) xb (time_test b 0 x ∙ m)),
    )
relative_implied (Relative.blocks a) (Relative.time b) k = (λ l. absurd (ground arith), λ (u, f). u)
relative_implied (Relative.time a) (Relative.blocks b) k = (λ l. absurd (ground arith), λ (u, f). u)

-- The sum with 511 wraps for the last seconds of a `u32`.
wraps : (seconds : ℕ) → 2 ^ 32 - 511 ≤ seconds → seconds < 2 ^ 32 → from_seconds_ceil seconds ≡ ok 0
unfolding from_seconds_ceil
wraps seconds h k = let e : (seconds + 511) % 2 ^ 32 / 512 ≡ 0 = omega arith in rw e refl

unwrapped :
    (seconds : ℕ)
    → seconds < 2 ^ 32 - 511
    → from_seconds_ceil seconds ≡ (
        if leb ((seconds + 511) / 512) 0xffff
        then ok ((seconds + 511) / 512)
        else err (time_overflow seconds))
unfolding from_seconds_ceil
unwrapped seconds h =
    let m : (seconds + 511) % 2 ^ 32 ≡ seconds + 511 = omega (arith, h) in rw m refl

-- For seconds that fit a `u32`, the result is the least number of intervals of 512 seconds that
-- covers them, below 2^16; or an error, for more than 65535 intervals' worth but fewer than 2^32 -
-- 511 seconds; or no interval at all, from 2^32 - 511 seconds on.
pub from_seconds_ceil_lem :
    (seconds : ℕ)
    → seconds < 2 ^ 32
    → ((n : ℕ) × (from_seconds_ceil seconds ≡ ok n)
        × (n < 2 ^ 16)
        × (seconds ≤ 512 * n)
        × (512 * n < seconds + 512))
      ⊎ (((from_seconds_ceil seconds ≡ err (time_overflow seconds))
            × (512 * 65535 < seconds)
            × (seconds < 2 ^ 32 - 511))
          ⊎ ((from_seconds_ceil seconds ≡ ok 0) × (2 ^ 32 - 511 ≤ seconds)))
from_seconds_ceil_lem seconds h = elim (Bool-cases (ltb seconds (2 ^ 32 - 511))) [
  | inr wrapped ↦
      let l = ltb-false seconds (2 ^ 32 - 511) wrapped in inr (inr (wraps seconds l h, l))
  | inl fits ↦
      let u = unwrapped seconds (ltb→lt seconds (2 ^ 32 - 511) fits) in
      elim (Bool-cases (leb ((seconds + 511) / 512) 0xffff)) [
        | inl e ↦
            let l = leb→le ((seconds + 511) / 512) 0xffff e in
            inl ((seconds + 511) / 512, u ∙ rw e refl, omega (arith, l), omega arith, omega arith)
        | inr e ↦
            let l = leb-false ((seconds + 511) / 512) 0xffff e in
            inr (inl (u ∙ rw e refl, omega (arith, l), ltb→lt seconds (2 ^ 32 - 511) fits))
      ]
]
