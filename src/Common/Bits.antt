-- ===== src/Common/Bits.antt =====
-- Bit masks at every width as arithmetic: `x & (2^k - 1)`, `x & 2^k`, `|` of disjoint words, and
-- facts about powers of two that shifts need.
use Prim.Native.Nat.{
  ℕ, zero, suc, ◌+◌, ◌-◌, ◌*◌, ◌/◌, ◌%◌, ◌^◌, ◌≤◌, ◌<◌, min, max, bit_and, bit_or, digits,
  bit_and-bitwise, bit_or-bitwise,
}
use mathlib.Core.Path.{◌≡◌, refl, ap, ◌∙◌, sym}
use native.Mathlib.Omega.{arith}
use native.Mathlib.Nat.{pow-suc, one-le-pow, div-div-eq-div-mul, div-add-mod}

-- The fuel of the digit recursion does not matter once it covers the first number.
digits_stable :
    (z : ℕ → ℕ) (op : ℕ → ℕ → ℕ) (a b n m : ℕ)
    → a ≤ n
    → a ≤ m
    → digits z op n a b ≡ digits z op m a b
digits_stable z op zero b zero zero h k = refl
digits_stable z op zero b zero (suc m) h k = refl
digits_stable z op zero b (suc n) zero h k = refl
digits_stable z op zero b (suc n) (suc m) h k = refl
digits_stable z op (suc a) b zero m h k = absurd (omega arith)
digits_stable z op (suc a) b (suc n) zero h k = absurd (omega arith)
digits_stable z op (suc a) b (suc n) (suc m) h k =
    rw (digits_stable z op (suc a / 2) (b / 2) n m (omega arith) (omega arith))

and_zero_left : (b : ℕ) → bit_and 0 b ≡ 0
and_zero_left b = bit_and-bitwise 0 b

or_zero_left : (b : ℕ) → bit_or 0 b ≡ b
or_zero_left b = bit_or-bitwise 0 b

-- One binary digit at a time.
pub and_digit : (a b : ℕ) → bit_and a b ≡ bit_and (a / 2) (b / 2) * 2 + min (a % 2) (b % 2)
and_digit zero b = omega (arith, and_zero_left b, and_zero_left (b / 2))
and_digit (suc a) b = omega (
  arith,
  bit_and-bitwise (suc a) b,
  bit_and-bitwise (suc a / 2) (b / 2),
  digits_stable (λ _. 0) min (suc a / 2) (b / 2) a (suc a / 2) (omega arith) (omega arith),
)

pub or_digit : (a b : ℕ) → bit_or a b ≡ bit_or (a / 2) (b / 2) * 2 + max (a % 2) (b % 2)
or_digit zero b = omega (arith, or_zero_left b, or_zero_left (b / 2))
or_digit (suc a) b = omega (
  arith,
  bit_or-bitwise (suc a) b,
  bit_or-bitwise (suc a / 2) (b / 2),
  digits_stable (λ y. y) max (suc a / 2) (b / 2) a (suc a / 2) (omega arith) (omega arith),
)

and_zero_upto : (n a : ℕ) → a ≤ n → bit_and a 0 ≡ 0
and_zero_upto zero zero h = refl
and_zero_upto zero (suc a) h = absurd (omega arith)
and_zero_upto (suc n) zero h = refl
and_zero_upto (suc n) (suc a) h =
    omega (arith, and_digit (suc a) 0, and_zero_upto n (suc a / 2) (omega arith))

pub and_zero : (a : ℕ) → bit_and a 0 ≡ 0
and_zero a = and_zero_upto a a (omega arith)

or_comm_upto : (n a b : ℕ) → a ≤ n → b ≤ n → bit_or a b ≡ bit_or b a
or_comm_upto zero zero zero h k = refl
or_comm_upto zero zero (suc b) h k = absurd (omega arith)
or_comm_upto zero (suc a) b h k = absurd (omega arith)
or_comm_upto (suc n) a b h k =
    omega (
      arith,
      or_digit a b,
      or_digit b a,
      or_comm_upto n (a / 2) (b / 2) (omega arith) (omega arith),
    )

pub or_comm : (a b : ℕ) → bit_or a b ≡ bit_or b a
or_comm a b = or_comm_upto (a + b) a b (omega arith) (omega arith)

pub pow_pos : (k : ℕ) → 0 < 2 ^ k
pow_pos k = one-le-pow k 2 (omega arith)

pub pow_double : (k : ℕ) → 2 ^ suc k ≡ 2 * 2 ^ k
pow_double k = omega (arith, pow-suc 2 k)

pub pow-add : (j k : ℕ) → 2 ^ (j + k) ≡ 2 ^ j * 2 ^ k
pow-add zero k = let e : zero + k ≡ k = omega arith in rw e (omega arith)
pow-add (suc j) k =
    let e : suc j + k ≡ suc (j + k) = omega arith in
    rw (e, pow_double (j + k), pow-add j k, pow_double j) (omega arith)

-- `2 ^ s` and `2 ^ (w - s)` divide `2 ^ w` between them.
pub pow_split : (w s : ℕ) → s ≤ w → 2 ^ (w - s) * 2 ^ s ≡ 2 ^ w
pow_split w s h =
    let e : w - s + s ≡ w = omega arith in sym (pow-add (w - s) s) ∙ ap (λ (t : ℕ). 2 ^ t) e

times_double : (q k : ℕ) → q * 2 ^ suc k ≡ 2 * (q * 2 ^ k)
times_double q k = rw (pow_double k) (omega arith)

-- `(q << k) | r` where `r` fits in `k` bits.
pub or_disjoint : (k q r : ℕ) → r < 2 ^ k → bit_or (q * 2 ^ k) r ≡ q * 2 ^ k + r
or_disjoint zero q r h = let e : r ≡ 0 = omega arith in rw (e, or_comm, or_zero_left) (omega arith)
or_disjoint (suc k) q r h = omega (
  arith,
  or_digit (q * 2 ^ suc k) r,
  times_double q k,
  pow_double k,
  ap (λ (t : ℕ). bit_or t (r / 2)) half,
  or_disjoint k q (r / 2) (omega (arith, pow_double k)),
)
  where
    half : q * 2 ^ suc k / 2 ≡ q * 2 ^ k
    half = omega (arith, times_double q k)

pub or_disjoint_low : (k q r : ℕ) → r < 2 ^ k → bit_or r (q * 2 ^ k) ≡ q * 2 ^ k + r
or_disjoint_low k q r h = or_comm r (q * 2 ^ k) ∙ or_disjoint k q r h

-- The quotient and the remainder are determined by the division equation.
pub div_unique : (a m q r : ℕ) → a ≡ q * m + r → r < m → a / m ≡ q
div_unique a m q r e h = grind arith

pub mod_unique : (a m q r : ℕ) → a ≡ q * m + r → r < m → a % m ≡ r
mod_unique a m q r e h = grind arith

mod_double : (a m : ℕ) → 0 < m → a % (2 * m) ≡ a / 2 % m * 2 + a % 2
mod_double a m h =
    mod_unique a (2 * m) (a / 2 / m) _ (omega (arith, div-add-mod (a / 2) m)) (omega arith)

-- A mask of `k` low ones is the remainder by `2 ^ k`.
pub and_mask : (k a : ℕ) → bit_and a (2 ^ k - 1) ≡ a % 2 ^ k
and_mask zero a = omega (arith, and_zero a)
and_mask (suc k) a = omega (
  arith,
  and_digit a (2 ^ suc k - 1),
  pow_double k,
  pow_pos k,
  ap (λ (t : ℕ). bit_and (a / 2) t) half,
  and_mask k (a / 2),
  mod_double a (2 ^ k) (pow_pos k),
  ap (λ (t : ℕ). a % t) (pow_double k),
)
  where
    half : (2 ^ suc k - 1) / 2 ≡ 2 ^ k - 1
    half = omega (arith, pow_double k, pow_pos k)

-- The single bit `k`.
pub and_bit : (k a : ℕ) → bit_and a (2 ^ k) ≡ a / 2 ^ k % 2 * 2 ^ k
and_bit zero a = omega (arith, and_digit a 1, and_zero (a / 2))
and_bit (suc k) a = omega (
  arith,
  and_digit a (2 ^ suc k),
  pow_double k,
  ap (λ (t : ℕ). bit_and (a / 2) t) half,
  and_bit k (a / 2),
  div-div-eq-div-mul a 2 (2 ^ k),
  ap (λ (t : ℕ). a / t) (pow_double k),
  times_double (a / 2 ^ suc k % 2) k,
  ap (λ (t : ℕ). t % 2 * 2 ^ k) quotient,
)
  where
    half : 2 ^ suc k / 2 ≡ 2 ^ k
    half = omega (arith, pow_double k)

    quotient : a / 2 / 2 ^ k ≡ a / 2 ^ suc k
    quotient = rw pow_double (div-div-eq-div-mul a 2 (2 ^ k))

-- A two-digit number is below the product of the bases, and a quotient below its base.
pub digit_room : (x y p q : ℕ) → x < p → y < q → {m : ℕ} → q * p ≡ m → y + x * q < m
digit_room x y p q hx hy e = rw (← e) (grind arith)

pub div_lt : (x p q : ℕ) → 0 < p → x < q * p → x / p < q
div_lt x p q hp h = grind arith
