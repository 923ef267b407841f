-- ===== src/Pow/U256/Wire.antt =====
-- `from_le_bytes` and `to_le_bytes` of `U256`, bitcoin/src/pow.rs.
use rust_dogecoin.Common.{
  subst, ℕ, ◌≡◌, ◌<◌, ◌+◌, ◌*◌, ◌^◌, List, [], ◌∷◌, ◌++◌, length, take, drop, All, refl, arith, ap,
  sym, ◌∙◌, take-drop, length-take, length-drop, subst, take-append, drop-append,
}
use native.Mathlib.Nat.{pow-suc}
use rust_dogecoin.Common.Bytes.{
  from_le_bytes-to_le_bytes, length-to_le_bytes, All-drop, All-take, from_le_bytes-lt, IsByte,
  from_le_bytes, to_le_bytes,
}
use rust_dogecoin.Pow.U256.{
  U256, IsU256, value, split_in_half, u256_from_le_bytes, u256_to_le_bytes,
}

from_le_bytes_append :
    (xs ys : List ℕ)
    → from_le_bytes (xs ++ ys) ≡ from_le_bytes xs + 256 ^ length xs * from_le_bytes ys
unfolding from_le_bytes
from_le_bytes_append [] ys = omega arith
from_le_bytes_append (x ∷ xs) ys =
    rw (from_le_bytes_append xs ys, pow-suc 256 (length xs)) (grind arith)

-- The number that 32 bytes make is the number that the bytes stand for, least significant first.
pub u256_from_le_bytes_lem :
    (bs : List ℕ)
    → All IsByte bs
    → length bs ≡ 32
    → (value (u256_from_le_bytes bs) ≡ from_le_bytes bs) × IsU256 (u256_from_le_bytes bs)
unfolding u256_from_le_bytes split_in_half
u256_from_le_bytes_lem bs h k =
    let a : length (take 16 bs) ≡ 16 = omega (arith, length-take 16 bs) in
    let b : length (drop 16 bs) ≡ 16 = omega (arith, length-drop 16 bs) in
    let whole =
      ap from_le_bytes (sym (take-drop 16 bs))
      ∙ from_le_bytes_append (take 16 bs) (drop 16 bs)
      ∙ ap (λ n. from_le_bytes (take 16 bs) + 256 ^ n * from_le_bytes (drop 16 bs)) a in
    let low : from_le_bytes (take 16 bs) < 2 ^ 128 =
      subst (λ n. from_le_bytes (take 16 bs) < 256 ^ n) a
        (from_le_bytes-lt (take 16 bs) (All-take 16 bs h)) in
    let high : from_le_bytes (drop 16 bs) < 2 ^ 128 =
      subst (λ n. from_le_bytes (drop 16 bs) < 256 ^ n) b
        (from_le_bytes-lt (drop 16 bs) (All-drop 16 bs h)) in
    (omega (arith, whole), (high, low))

-- A 256-bit number written as 32 bytes, least significant first, and read again is the same number.
pub from_le-to_le : (u : U256) → IsU256 u → u256_from_le_bytes (u256_to_le_bytes u) ≡ u
unfolding u256_from_le_bytes split_in_half u256_to_le_bytes
from_le-to_le u (h, l) =
    let xs = to_le_bytes 16 u.lo in
    let ys = to_le_bytes 16 u.hi in
    let p : take 16 (xs ++ ys) ≡ xs =
      subst (λ n. take n (xs ++ ys) ≡ xs) (length-to_le_bytes 16 u.lo) (take-append xs ys) in
    let q : drop 16 (xs ++ ys) ≡ ys =
      subst (λ n. drop n (xs ++ ys) ≡ ys) (length-to_le_bytes 16 u.lo) (drop-append xs ys) in
    rw (p, q, from_le_bytes-to_le_bytes 16 u.hi h, from_le_bytes-to_le_bytes 16 u.lo l) refl
