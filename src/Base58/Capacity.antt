-- ===== src/Base58/Capacity.antt =====
-- The scratch space of `decode` in base58/src/lib.rs is large enough: 11 bytes hold 15 characters.
use rust_dogecoin.Common.{
  ℕ, zero, suc, ◌≡◌, ◌<◌, ◌≤◌, ◌+◌, ◌*◌, ◌/◌, ◌%◌, ◌^◌, Bool, true, leb, ◌&&◌, refl, arith, leb→le,
}
use native.Mathlib.Nat.{pow-suc, pow-zero}

power-add : (b j k : ℕ) → b ^ (j + k) ≡ b ^ j * b ^ k
power-add b zero k = let e : zero + k ≡ k = omega arith in rw (e, pow-zero b) (omega arith)
power-add b (suc j) k =
    let e : suc j + k ≡ suc (j + k) = omega arith in
    rw (e, pow-suc b (j + k), power-add b j k, pow-suc b j) (grind arith)

-- Every number below a bound passes a test.
unfoldable pub all_below : ℕ → (ℕ → Bool) → Bool
all_below zero p = true
all_below (suc n) p = p n && all_below n p

pub all_below_sound : (n : ℕ) (p : ℕ → Bool) (x : ℕ) → all_below n p ≡ true → x < n → p x ≡ true
unfolding all_below
all_below_sound zero p x h l = absurd (omega arith)
all_below_sound (suc n) p x h l = ground (arith, all_below_sound n p x)

few_characters : all_below 15 (λ r. leb (58 ^ r) (256 ^ (1 + r * 11 / 15))) ≡ true
unfolding all_below
few_characters = refl

multiply : (a b c d : ℕ) → a ≤ b → c ≤ d → a * c ≤ b * d
multiply a b c d h k = grind arith

blocks : (k r : ℕ) → r < 15 → 58 ^ (15 * k + r) ≤ 256 ^ (11 * k + (1 + r * 11 / 15))
blocks zero r h =
    let a : 15 * 0 + r ≡ r = omega arith in
    let b : 11 * 0 + (1 + r * 11 / 15) ≡ 1 + r * 11 / 15 = omega arith in
    rw (a, b) (leb→le _ _ (all_below_sound 15 _ r few_characters h))
blocks (suc k) r h =
    let a : 15 * suc k + r ≡ 15 + (15 * k + r) = omega arith in
    let b : 11 * suc k + (1 + r * 11 / 15) ≡ 11 + (11 * k + (1 + r * 11 / 15)) = omega arith in
    rw (a, b, power-add 58 15 (15 * k + r), power-add 256 11 (11 * k + (1 + r * 11 / 15)))
      (multiply (58 ^ 15) (256 ^ 11) _ _ (omega arith) (blocks k r h))

pub scratch_space : (n : ℕ) → 58 ^ n ≤ 256 ^ (1 + n * 11 / 15)
scratch_space n =
    let a : 15 * (n / 15) + n % 15 ≡ n = omega arith in
    let b : 11 * (n / 15) + (1 + n % 15 * 11 / 15) ≡ 1 + n * 11 / 15 = omega arith in
    rw (a, b) at (blocks (n / 15) (n % 15) (omega arith))
