-- ===== src/Pow/U256/Rounds.antt =====
-- The rounds of the long division in `div_rem` of `U256`.
use rust_dogecoin.Common.{
  ℕ, zero, suc, ◌+◌, ◌-◌, ◌*◌, ◌/◌, ◌%◌, ◌^◌, ◌≤◌, ◌<◌, ◌≡◌, arith, ap, sym, ◌∙◌, inl, inr,
  Bool-cases, leb→le, leb-false,
}
use rust_dogecoin.Common.Bits.{pow_double, div_unique, mod_unique}
use rust_dogecoin.Pow.U256.{U256, IsU256, value, le, wrapping_sub, wrapping_shr, div_step, div_loop}
use rust_dogecoin.Pow.U256.Sum.{le-value, wrapping_sub_lem, value-lt}
use rust_dogecoin.Pow.U256.Shift.{wrapping_shr_lem}
use native.Mathlib.Nat.{div-add-mod, mod-lt}
use rust_dogecoin.Pow.U256.SetBit.{set_bit_lem}

-- What the loop leaves, given what it starts from: the dividend `s` still to divide and the
-- quotient `r` found so far.
pub record Divides (b s r : ℕ) (out : U256 × U256) : Type 0 where
  pub quotient : value out.0 ≡ r + s / b
  pub remainder : value out.1 ≡ s % b
  pub fits : IsU256 out.0
  pub left : IsU256 out.1

-- Taking out `p` times the divisor.
take_out :
    (b s p : ℕ) → 0 < b → p * b ≤ s → ((s - p * b) / b + p ≡ s / b) × ((s - p * b) % b ≡ s % b)
take_out b s p hb le = (
  sym (div_unique s b _ ((s - p * b) % b) whole (mod-lt _ hb)),
  sym (mod_unique s b ((s - p * b) / b + p) _ whole (mod-lt _ hb)),
)
  where
    whole : s ≡ ((s - p * b) / b + p) * b + (s - p * b) % b
    whole = omega (arith, div-add-mod (s - p * b) b)

-- One round: the divisor `c` is taken out once or not at all.
record Taken (n : ℕ) (c s r : ℕ) (out : U256 × U256) : Type 0 where
  times : ℕ
  rest : value out.0 + times * c ≡ s
  below : value out.0 < c
  quotient : value out.1 ≡ r + times * 2 ^ n
  left : IsU256 out.0
  fits : IsU256 out.1

div_step_lem :
    (n k : ℕ) (s c r : U256)
    → n < 256
    → IsU256 s
    → IsU256 c
    → IsU256 r
    → value s < 2 * value c
    → value r ≡ k * 2 ^ suc n
    → Taken n (value c) (value s) (value r) (div_step n s c r)
unfolding div_step
div_step_lem n k s c r hn hs hc hr bound er = elim (Bool-cases (le c s)) [
  | inl above ↦
      let le' : value c ≤ value s = leb→le _ _ (sym (le-value c s hc hs) ∙ above) in
      let (v, w) = wrapping_sub_lem s c hs hc in
      let (bv, bw) = set_bit_lem r k n hr hn er in
      let v' : value (wrapping_sub s c) ≡ value s - value c = omega (arith, v, value-lt s hs) in
      rw above (record {
        times = 1;
        rest = omega (arith, v', le');
        below = omega (arith, v', le');
        quotient = omega (arith, bv);
        left = w;
        fits = bw;
      })
  | inr less ↦
      let lt' : value s < value c = leb-false _ _ (sym (le-value c s hc hs) ∙ less) in
      rw less (record {
        times = 0;
        rest = omega arith;
        below = lt';
        quotient = omega arith;
        left = hs;
        fits = hr;
      })
]

module _ (b : ℕ) (hb : 0 < b) where
  -- After the last round.
  div_last :
      (c s r : ℕ) {out : U256 × U256} → c ≡ b → Taken 0 c s r out → Divides b s r (out.1, out.0)
  div_last c s r {out} e t = record {
    quotient = omega (arith, t.quotient, sym (div_unique s b t.times _ whole small));
    remainder = sym (mod_unique s b t.times _ whole small);
    fits = t.fits;
    left = t.left;
  }
    where
      whole : s ≡ t.times * b + value out.0
      whole = omega (arith, t.rest, ap (λ (x : ℕ). t.times * x) e)

      small : value out.0 < b
      small = rw (← e) t.below

  -- After a round before the last.
  div_more :
      (n c s r : ℕ) {out end : U256 × U256}
      → c ≡ 2 ^ n * b
      → Taken n c s r out
      → Divides b (value out.0) (value out.1) end
      → Divides b s r end
  div_more n c s r {out} e t d = record {
    quotient = omega (arith, d.quotient, t.quotient, all.0);
    remainder = d.remainder ∙ all.1;
    fits = d.fits;
    left = d.left;
  }
    where
      p : ℕ
      p = t.times * 2 ^ n

      taken : value out.0 + p * b ≡ s
      taken = omega (arith, t.rest, ap (λ (x : ℕ). t.times * x) e)

      less : s - p * b ≡ value out.0
      less = omega (arith, taken)

      all : (value out.0 / b + p ≡ s / b) × (value out.0 % b ≡ s % b)
      all = rw less at (take_out b s p hb (omega (arith, taken)))

  -- The shifted divisor is `b * 2^n`, what is left is below twice that, and the quotient's bits
  -- from 0 to `n` are clear.
  pub div_loop_lem :
      (n k : ℕ) (s c r : U256)
      → n < 256
      → IsU256 s
      → IsU256 c
      → IsU256 r
      → value c ≡ 2 ^ n * b
      → value s < 2 * (2 ^ n * b)
      → value r ≡ k * 2 ^ suc n
      → Divides b (value s) (value r) (div_loop n s c r)
  unfolding div_loop
  div_loop_lem zero k s c r hn hs hc hr ec bound er =
      div_last _ _ _ (omega (arith, ec)) (div_step_lem 0 k s c r hn hs hc hr (omega arith) er)
  div_loop_lem (suc n) k s c r hn hs hc hr ec bound er =
      let t = div_step_lem (suc n) k s c r hn hs hc hr (omega arith) er in
      let (cv, cw) = wrapping_shr_lem c 1 hc (omega arith) in
      let ec' : value (wrapping_shr c 1) ≡ 2 ^ n * b = omega (arith, cv, ec, double) in
      let rest =
        div_loop_lem n (2 * k + t.times) _ (wrapping_shr c 1) _ (omega arith) t.left cw t.fits ec'
          (omega (arith, t.below, ec, double))
          (t.quotient
            ∙ rw er
                (omega (arith, pow_double (suc n), ap (λ (x : ℕ). k * x) (pow_double (suc n))))) in
      div_more (suc n) _ _ _ ec t rest
    where
      double : 2 ^ suc n * b ≡ 2 * (2 ^ n * b)
      double = rw (pow_double n) (omega arith)
