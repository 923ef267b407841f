-- ===== src/Base58/Digits.antt =====
-- The numbers that the loops of base58/src/lib.rs compute on.
use rust_dogecoin.Common.{
  ℕ, suc, ◌≡◌, ◌<◌, ◌+◌, ◌*◌, ◌/◌, ◌^◌, List, [], ◌∷◌, ◌++◌, length, refl, arith, ap, sym, ◌∙◌, All,
  All-append, append-nil, subst,
}
use rust_dogecoin.Common.Bytes.{IsByte, from_le_bytes}
use rust_dogecoin.Base58.{times_58, times_256, push_carry, add_byte}
use native.Mathlib.Nat.{pow-suc}

abbrev pub IsDigit : ℕ → Type 0
IsDigit d = d < 58

-- The number of digits to the base 58, the lowest first.
unfoldable pub value : List ℕ → ℕ
value [] = 0
value (d ∷ ds) = d + 58 * value ds

pub times_58_lem :
    (carry : ℕ) (scratch : List ℕ)
    → (from_le_bytes (times_58 carry scratch).0 + 256 ^ length scratch * (times_58 carry scratch).1
        ≡ carry + 58 * from_le_bytes scratch)
      × (length (times_58 carry scratch).0 ≡ length scratch)
      × All IsByte (times_58 carry scratch).0
unfolding times_58 from_le_bytes
times_58_lem carry [] = (omega arith, refl, tt)
times_58_lem carry (d ∷ scratch) =
    let (v, l, b) = times_58_lem ((carry + d * 58) / 256) scratch in
    let p = pow-suc 256 (length scratch) in (rw p (omega (arith, v)), ap suc l, (omega arith, b))

times_256_lem :
    (carry : ℕ) (ret : List ℕ)
    → carry < 256
    → All IsDigit ret
    → (value (times_256 carry ret).0 + 58 ^ length ret * (times_256 carry ret).1
        ≡ carry + 256 * value ret)
      × ((times_256 carry ret).1 < 256)
      × All IsDigit (times_256 carry ret).0
unfolding times_256 value
times_256_lem carry [] c a = (omega arith, c, tt)
times_256_lem carry (d ∷ ret) c (h, a) =
    let (v, l, b) = times_256_lem ((d * 256 + carry) / 58) ret (omega arith) a in
    let p = pow-suc 58 (length ret) in (rw p (omega (arith, v)), l, (omega arith, b))

pub length-times_256 : (carry : ℕ) (ret : List ℕ) → length (times_256 carry ret).0 ≡ length ret
unfolding times_256
length-times_256 carry [] = refl
length-times_256 carry (d ∷ ret) = ap suc (length-times_256 ((d * 256 + carry) / 58) ret)

pub value-append : (xs ys : List ℕ) → value (xs ++ ys) ≡ value xs + 58 ^ length xs * value ys
unfolding value
value-append [] ys = omega arith
value-append (x ∷ xs) ys = rw (value-append xs ys, pow-suc 58 (length xs)) (omega arith)

-- The last digit is not zero.
abbrev pub IsTrimmed : List ℕ → Type 0
IsTrimmed [] = Unit {0}
IsTrimmed (d ∷ []) = 0 < d
IsTrimmed (d ∷ e ∷ ds) = IsTrimmed (e ∷ ds)

push_carry_lem :
    (carry : ℕ)
    → carry < 256
    → (value (push_carry 2 carry) ≡ carry)
      × All IsDigit (push_carry 2 carry)
      × IsTrimmed (push_carry 2 carry)
unfolding push_carry value
push_carry_lem carry h = ground arith

times_256-IsTrimmed :
    (carry : ℕ) (ret : List ℕ)
    → IsTrimmed ret
    → (times_256 carry ret).1 ≡ 0
    → IsTrimmed (times_256 carry ret).0
unfolding times_256
times_256-IsTrimmed carry [] t z = tt
times_256-IsTrimmed carry (d ∷ []) t z = omega (arith, z, t)
times_256-IsTrimmed carry (d ∷ e ∷ ds) t z =
    times_256-IsTrimmed ((d * 256 + carry) / 58) (e ∷ ds) t z

IsTrimmed-append :
    (xs : List ℕ) (y : ℕ) (ys : List ℕ) → IsTrimmed (y ∷ ys) → IsTrimmed (xs ++ y ∷ ys)
IsTrimmed-append [] y ys t = t
IsTrimmed-append (x ∷ []) y ys t = t
IsTrimmed-append (x ∷ x' ∷ xs) y ys t = IsTrimmed-append (x' ∷ xs) y ys t

value_empty : value [] ≡ 0
unfolding value
value_empty = refl

-- The carry after the digits.
digits_and_carry :
    (digits : List ℕ) (left : ℕ)
    → left < 256
    → (left ≡ 0 → IsTrimmed digits)
    → IsTrimmed (digits ++ push_carry 2 left)
digits_and_carry digits left h t = pushed (push_carry 2 left) refl
  where
    none_left : push_carry 2 left ≡ [] → left ≡ 0
    none_left e = sym (push_carry_lem left h).0 ∙ ap value e ∙ value_empty

    pushed : (ys : List ℕ) → ys ≡ push_carry 2 left → IsTrimmed (digits ++ ys)
    pushed [] e = subst IsTrimmed (sym (append-nil digits)) (t (none_left (sym e)))
    pushed (y ∷ ys) e =
        IsTrimmed-append digits y ys (subst IsTrimmed (sym e) (push_carry_lem left h).2)

-- One byte more.
pub add_byte_lem :
    (carry : ℕ) (ret : List ℕ)
    → carry < 256
    → All IsDigit ret
    → (value (add_byte carry ret) ≡ carry + 256 * value ret)
      × All IsDigit (add_byte carry ret)
      × (IsTrimmed ret → IsTrimmed (add_byte carry ret))
unfolding add_byte
add_byte_lem carry ret c a =
    let (v, l, b) = times_256_lem carry ret c a in
    let (p, q, _) = push_carry_lem (times_256 carry ret).1 l in
    (
      value-append (times_256 carry ret).0 (push_carry 2 (times_256 carry ret).1)
          ∙ rw (length-times_256 carry ret, p) v,
      All-append _ _ _ b q,
      λ t. digits_and_carry (times_256 carry ret).0 _ l (times_256-IsTrimmed carry ret t),
    )
