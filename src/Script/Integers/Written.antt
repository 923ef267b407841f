-- ===== src/Script/Integers/Written.antt =====
-- The bytes that `write_scriptint` of bitcoin/src/blockdata/script/mod.rs gives, and their number.
use rust_dogecoin.Common.{
  le→ltb-false, le→leb, lt→leb-false, leb-false, leb→le, ℕ, zero, suc, ◌≡◌, ◌<◌, ◌≤◌, ◌*◌, ◌^◌,
  List, [], ◌∷◌, some, true, false, length, leb, ltb, ◌==◌, refl, arith, ◌∙◌, ap, All, Bool-cases,
  inl, inr,
}
use rust_dogecoin.Common.Int.{ℤ, pos, negsuc}
use rust_dogecoin.Common.Results.{ok}
use native.Mathlib.Nat.{pow-suc, one-le-pow}
use rust_dogecoin.Common.Bytes.{IsByte}
use rust_dogecoin.Script.Integers.{
  read_from_last, read_scriptint, read_scriptint_non_minimal, write_scriptint, write_loop,
  unsigned_abs, is_negative,
}
use rust_dogecoin.Script.Integers.Reading.{
  signed, reading, reading_any, read_scriptint_lem, read_scriptint_non_minimal_lem,
}
use rust_dogecoin.Script.Integers.Magnitude.{
  Says, magnitude, negative, is_minimal, write_loop-Says, minimal_pos,
}

signed_self : (n : ℤ) → signed (is_negative n) (unsigned_abs n) ≡ n
unfolding signed unsigned_abs
signed_self (pos n) = refl
signed_self (negsuc n) = rw (lt→leb-false (suc n) 0 (omega arith)) (ap negsuc (omega arith))

-- Few bytes hold small numbers, and many bytes large ones.
pub short_is_small :
    (k : ℕ) (v : List ℕ) → All IsByte v → length v ≤ suc k → magnitude v < 128 * 256 ^ k
unfolding magnitude
short_is_small k [] y h = omega (arith, one-le-pow k 256 (omega arith))
short_is_small k (l ∷ []) (y, _) h = omega (arith, one-le-pow k 256 (omega arith))
short_is_small zero (b ∷ c ∷ v) y h = absurd (omega arith)
short_is_small (suc k) (b ∷ c ∷ v) (y, ys) h =
    omega (arith, pow-suc 256 k, short_is_small k (c ∷ v) ys (omega arith))

long_is_large :
    (k : ℕ) (v : List ℕ)
    → is_minimal v ≡ true
    → suc (suc k) ≤ length v
    → 128 * 256 ^ k ≤ magnitude v
unfolding magnitude is_minimal
long_is_large k [] m h = absurd (omega arith)
long_is_large k (l ∷ []) m h = absurd (omega arith)
long_is_large zero (b ∷ l ∷ []) m h = ground arith
long_is_large (suc k) (b ∷ l ∷ []) m h = absurd (omega arith)
long_is_large zero (b ∷ c ∷ d ∷ v) m h = omega (arith, minimal_pos (c ∷ d ∷ v) (omega arith) m)
long_is_large (suc k) (b ∷ c ∷ d ∷ v) m h =
    omega (arith, pow-suc 256 k, long_is_large k (c ∷ d ∷ v) m (omega arith))

pub pos-nonzero : (n : ℕ) → 0 < n → (n == 0) ≡ false
pos-nonzero n h = ground arith

pub read_empty : read_scriptint [] ≡ ok (pos 0)
unfolding read_scriptint read_from_last
read_empty = refl

abbrev pub written : ℤ → List ℕ
written n = write_loop 8 (is_negative n) (unsigned_abs n)

pub written-Says :
    (n : ℤ)
    → 0 < unsigned_abs n
    → unsigned_abs n ≤ 2 ^ 63
    → Says (is_negative n) (unsigned_abs n) (written n)
written-Says n p h = write_loop-Says 8 (is_negative n) (unsigned_abs n) p (omega (arith, h))

-- The written bytes are at most `k + 1` for magnitudes of so many bytes without the sign bit.
length-written :
    (k : ℕ) (n : ℤ)
    → 0 < unsigned_abs n
    → unsigned_abs n ≤ 2 ^ 63
    → unsigned_abs n < 128 * 256 ^ k
    → length (written n) ≤ suc k
length-written k n p h l = elim (Bool-cases (leb (length (written n)) (suc k))) [
  | inl e ↦ leb→le _ _ e
  | inr e ↦
      let (m, _, minimal, _) = written-Says n p h in
      absurd (omega (arith, l, m, long_is_large k (written n) minimal (leb-false _ _ e)))
]

pub write_nonzero :
    (n : ℤ) → 0 < unsigned_abs n → unsigned_abs n < 2 ^ 63 → write_scriptint n ≡ some (written n)
unfolding write_scriptint
write_nonzero n p h =
    rw
      (
        pos-nonzero (unsigned_abs n) p,
        le→leb _ 8 (length-written 7 n p (omega (arith, h)) (omega (arith, h))),
      )
      refl

pub write_zero : (n : ℤ) → unsigned_abs n ≡ 0 → write_scriptint n ≡ some []
unfolding write_scriptint
write_zero n e = rw e refl

pub zero_self : (n : ℤ) → unsigned_abs n ≡ 0 → n ≡ pos 0
unfolding unsigned_abs
zero_self (pos n) e = ap pos e
zero_self (negsuc n) e = absurd (omega (arith, e))

-- The bytes of a number other than zero, with all that is known of them.
pub written_number :
    (n : ℤ)
    → 0 < unsigned_abs n
    → unsigned_abs n < 2 ^ 31
    → (v : List ℕ) × (write_scriptint n ≡ some v)
      × (read_scriptint v ≡ ok n)
      × (read_scriptint_non_minimal v ≡ ok n)
      × (length v ≤ 4)
      × (magnitude v ≡ unsigned_abs n)
      × (negative v ≡ is_negative n)
unfolding reading reading_any
written_number n p h =
    let (m, s, minimal, bytes) = written-Says n p (omega (arith, h)) in
    let short = length-written 3 n p (omega (arith, h)) h in
    let few : ltb 4 (length (written n)) ≡ false = le→ltb-false 4 _ short in
    (
      written n,
      write_nonzero n p (omega (arith, h)),
      read_scriptint_lem (written n) bytes ∙ rw (few, minimal, m, s, signed_self n) refl,
      read_scriptint_non_minimal_lem (written n) bytes ∙ rw (few, m, s, signed_self n) refl,
      short,
      m,
      s,
    )
