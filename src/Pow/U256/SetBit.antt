-- ===== src/Pow/U256/SetBit.antt =====
-- Setting a bit in a `U256`, as the loop of `div_rem` does.
use rust_dogecoin.Common.{
  ℕ, suc, ◌+◌, ◌-◌, ◌*◌, ◌/◌, ◌%◌, ◌^◌, ◌≤◌, ◌<◌, ◌≡◌, arith, ltb, sym, ◌∙◌, inl, inr, Bool-cases,
  bit_or,
}
use rust_dogecoin.Common.Bits.{
  pow_double, pow_pos, pow_split, digit_room, div_lt, or_disjoint, mod_unique,
}
use rust_dogecoin.Pow.U256.{U256, IsU256, value, set_bit}
use native.Mathlib.Nat.{div-add-mod, mod-lt, mul_comm}

-- Setting bit `n` of a word whose bits from 0 to `n` are clear adds 2^n and stays in the word.
set_clear_bit :
    (w n x : ℕ)
    → n < w
    → x < 2 ^ w
    → x % 2 ^ suc n ≡ 0
    → (bit_or x (2 ^ n) ≡ x + 2 ^ n) × (x + 2 ^ n < 2 ^ w)
set_clear_bit w n x h b clear =
    (rw whole (or_disjoint (suc n) (x / 2 ^ suc n) (2 ^ n) small), rw whole fits)
  where
    small : 2 ^ n < 2 ^ suc n
    small = omega (arith, pow_double n, pow_pos n)

    whole : x ≡ x / 2 ^ suc n * 2 ^ suc n
    whole = omega (arith, div-add-mod x (2 ^ suc n))

    split : 2 ^ (w - suc n) * 2 ^ suc n ≡ 2 ^ w
    split = pow_split w (suc n) h

    below : x / 2 ^ suc n < 2 ^ (w - suc n)
    below = div_lt x (2 ^ suc n) (2 ^ (w - suc n)) (pow_pos (suc n)) (rw split b)

    fits : x / 2 ^ suc n * 2 ^ suc n + 2 ^ n < 2 ^ w
    fits = omega (
      arith,
      digit_room (x / 2 ^ suc n) (2 ^ n) _ (2 ^ suc n) below small (mul_comm (2 ^ suc n) _ ∙ split),
    )

-- The low word of a number with clear low bits has them clear.
low_clear : (h l k n : ℕ) → suc n ≤ 128 → h * 2 ^ 128 + l ≡ k * 2 ^ suc n → l % 2 ^ suc n ≡ 0
low_clear h l k n b e = sym here ∙ there
  where
    p : ℕ
    p = 2 ^ suc n

    here : (h * 2 ^ 128 + l) % p ≡ l % p
    here =
        mod_unique _ p (h * 2 ^ (128 - suc n) + l / p) (l % p)
          (rw (← pow_split 128 (suc n) b) (omega (arith, div-add-mod l p)))
          (mod-lt l (pow_pos (suc n)))

    there : (h * 2 ^ 128 + l) % p ≡ 0
    there = mod_unique _ p k 0 (omega (arith, e)) (pow_pos (suc n))

high_clear :
    (h l k n : ℕ)
    → 128 ≤ n
    → l < 2 ^ 128
    → h * 2 ^ 128 + l ≡ k * 2 ^ suc n
    → h % 2 ^ suc (n - 128) ≡ 0
high_clear h l k n b hl e =
    mod_unique h (2 ^ suc (n - 128)) k 0 (omega (arith, whole)) (pow_pos (suc (n - 128)))
  where
    whole : h * 2 ^ 128 + l ≡ k * 2 ^ suc (n - 128) * 2 ^ 128
    whole = e ∙ rw (pow_double n, pow_double (n - 128), ← pow_split n 128 b) (omega arith)

-- Setting bit `n` of a number whose bits from 0 to `n` are clear adds 2^n.
pub set_bit_lem :
    (r : U256) (k n : ℕ)
    → IsU256 r
    → n < 256
    → value r ≡ k * 2 ^ suc n
    → (value (set_bit r n) ≡ value r + 2 ^ n) × IsU256 (set_bit r n)
unfolding set_bit
set_bit_lem r k n (hh, hl) b e = elim (Bool-cases (ltb n 128)) [
  | inl low ↦
      let small : n < 128 = ground arith in
      let m : n % 128 ≡ n = omega arith in
      let (v, w) = set_clear_bit 128 n r.lo small hl (low_clear r.hi r.lo k n small e) in
      rw (low, m, v) (omega arith, (hh, w))
  | inr high ↦
      let large : 128 ≤ n = ground arith in
      let m : n % 128 ≡ n - 128 = omega arith in
      let (v, w) =
        set_clear_bit 128 (n - 128) r.hi (omega arith) hh (high_clear r.hi r.lo k n large hl e) in
      rw (high, m, v) (omega (arith, pow_split n 128 large), (w, hl))
]
