-- ===== src/Script/Integers/RoundTrip.antt =====
-- Reading and writing the numbers of scripts, bitcoin/src/blockdata/script/mod.rs.
use rust_dogecoin.Common.{
  ◌↔◌, ltb-false, lt→leb-false, ltb→lt, ℕ, zero, suc, ◌≡◌, ◌<◌, ◌≤◌, ◌-◌, ◌^◌, List, [], ◌∷◌,
  Option, none, some, Bool, true, false, length, ltb, ◌⊎◌, refl, arith, sym, ◌∙◌, ap, All,
  Bool-cases, inl, inr,
}
use rust_dogecoin.Common.Int.{IsI64, ℤ, pos, negsuc}
use rust_dogecoin.Common.Results.{Result, ok, err}
use rust_dogecoin.Common.Bytes.{IsByte}
use rust_dogecoin.Script.Integers.{
  write_last, numeric_overflow, Error, read_scriptint, write_scriptint, write_loop, unsigned_abs,
  is_negative,
}
use rust_dogecoin.Script.Integers.Reading.{signed, reading, read_scriptint_lem}
use rust_dogecoin.Script.Integers.Magnitude.{
  magnitude, negative, is_minimal, minimal_pos, write_loop-magnitude,
}
use rust_dogecoin.Script.Integers.Written.{
  short_is_small, read_empty, written, written-Says, write_nonzero, write_zero, zero_self,
  written_number,
}

read_scriptint-write_scriptint :
    (n : ℤ)
    → unsigned_abs n < 2 ^ 31
    → (v : List ℕ) × (write_scriptint n ≡ some v) × (read_scriptint v ≡ ok n)
unfolding reading
read_scriptint-write_scriptint n h = elim (Bool-cases (ltb 0 (unsigned_abs n))) [
  | inl e ↦
      let p = ltb→lt 0 (unsigned_abs n) e in
      let (v, w, r, _, _, _, _) = written_number n p h in (v, w, r)
  | inr e ↦
      let z : unsigned_abs n ≡ 0 = omega (arith, ltb-false 0 _ e) in
      ([], write_zero n z, read_empty ∙ ap ok (sym (zero_self n z)))
]

read_scriptint-write_scriptint_large :
    (n : ℤ)
    → 2 ^ 31 ≤ unsigned_abs n
    → unsigned_abs n < 2 ^ 63
    → (v : List ℕ) × (write_scriptint n ≡ some v) × (read_scriptint v ≡ err numeric_overflow)
unfolding reading
read_scriptint-write_scriptint_large n l h =
    let (m, s, minimal, bytes) = written-Says n (omega (arith, l)) (omega (arith, h)) in
    let many : ltb 4 (length (written n)) ≡ true = elim (Bool-cases (ltb 4 (length (written n)))) [
      | inl e ↦ e
      | inr e ↦ absurd (omega (arith, m, l, short_is_small 3 (written n) bytes (ltb-false 4 _ e)))
    ] in
    (
      written n,
      write_nonzero n (omega (arith, l)) h,
      read_scriptint_lem (written n) bytes ∙ rw many refl,
    )

-- A number with an absolute value below 2^63 is written without a panic, and the bytes are read
-- back as the number when that value is below 2^31, and refused as an overflow when it is not.
pub write_scriptint_lem :
    (n : ℤ)
    → unsigned_abs n < 2 ^ 63
    → (v : List ℕ) × (write_scriptint n ≡ some v)
      × (((unsigned_abs n < 2 ^ 31) × (read_scriptint v ≡ ok n))
          ⊎ ((2 ^ 31 ≤ unsigned_abs n) × (read_scriptint v ≡ err numeric_overflow)))
write_scriptint_lem n h = elim (Bool-cases (ltb (unsigned_abs n) (2 ^ 31))) [
  | inl e ↦
      let l = ltb→lt _ (2 ^ 31) e in
      let (v, w, r) = read_scriptint-write_scriptint n l in (v, w, inl (l, r))
  | inr e ↦
      let l = ltb-false _ (2 ^ 31) e in
      let (v, w, r) = read_scriptint-write_scriptint_large n l h in (v, w, inr (l, r))
]

unsigned_abs-signed : (s : Bool) (m : ℕ) → unsigned_abs (signed s m) ≡ m
unfolding unsigned_abs signed
unsigned_abs-signed true zero = refl
unsigned_abs-signed true (suc m) = rw (lt→leb-false (suc m) 0 (omega arith)) (omega arith)
unsigned_abs-signed false m = refl

is_negative-signed : (s : Bool) (m : ℕ) → 0 < m → is_negative (signed s m) ≡ s
unfolding signed
is_negative-signed true zero h = absurd (omega arith)
is_negative-signed true (suc m) h = rw (lt→leb-false (suc m) 0 (omega arith)) refl
is_negative-signed false m h = refl

ok_inj : {x y : ℤ} → Path (Result ℤ Error) (ok x) (ok y) → x ≡ y
ok_inj {x = x} e = ap (λ r. elim r [ ok z ↦ z | err _ ↦ x ]) e

-- A number is read just from few bytes of least length.
reading_ok :
    (v : List ℕ) (n : ℤ)
    → reading v ≡ ok n
    → (length v ≤ 4) × (is_minimal v ≡ true) × (signed (negative v) (magnitude v) ≡ n)
unfolding reading
reading_ok v n e = elim (Bool-cases (ltb 4 (length v))) [
  | inl long ↦ let f = rw long at e in absurd (search arith)
  | inr few ↦ elim (Bool-cases (is_minimal v)) [
    | inl minimal ↦ (ltb-false 4 _ few, minimal, ok_inj (rw (few, minimal) at e))
    | inr loose ↦ let f = rw (few, loose) at e in absurd (search arith)
  ]
]

-- When bytes are read as a number, the absolute value is below 2^31 and the number is written as
-- these bytes.
pub write_scriptint-read_scriptint :
    (v : List ℕ) (n : ℤ)
    → All IsByte v
    → read_scriptint v ≡ ok n
    → (unsigned_abs n < 2 ^ 31) × (write_scriptint n ≡ some v)
unfolding unsigned_abs
write_scriptint-read_scriptint [] n y e =
    let z : pos 0 ≡ n = ok_inj (sym read_empty ∙ e) in
    rw (← z) (omega arith, write_zero (pos 0) refl)
write_scriptint-read_scriptint (b ∷ v) n y e =
    let (few, minimal, value) = reading_ok (b ∷ v) n (sym (read_scriptint_lem (b ∷ v) y) ∙ e) in
    let p : 0 < magnitude (b ∷ v) = minimal_pos (b ∷ v) (omega arith) minimal in
    let bound = short_is_small 3 (b ∷ v) y few in
    let m : unsigned_abs n ≡ magnitude (b ∷ v) =
      rw (← value) (unsigned_abs-signed (negative (b ∷ v)) (magnitude (b ∷ v))) in
    let s : is_negative n ≡ negative (b ∷ v) =
      rw (← value) (is_negative-signed (negative (b ∷ v)) (magnitude (b ∷ v)) p) in
    (
      omega (arith, m, bound),
      write_nonzero n (omega (arith, m, p)) (omega (arith, m, bound))
          ∙ rw (m, s)
              (ap some
                (write_loop-magnitude (b ∷ v) 8 (omega arith) (omega (arith, few)) minimal y)),
    )

lowest_panics : write_scriptint (negsuc (2 ^ 63 - 1)) ≡ none
unfolding write_scriptint write_loop write_last unsigned_abs
lowest_panics = refl

some_none {ℓ κ} : {A : Type ℓ} {P : Type κ} {x : A} (o : Option A) → o ≡ some x → o ≡ none → P
some_none o h k = absurd (ground arith)

panicking : (n : ℤ) → IsI64 n → write_scriptint n ≡ none → n ≡ negsuc (2 ^ 63 - 1)
unfolding unsigned_abs
panicking (pos zero) h e = some_none _ (write_zero (pos 0) refl) e
panicking (pos (suc n)) (low, high) e =
    some_none _ (write_nonzero (pos (suc n)) (omega arith) (omega (arith, high))) e
panicking (negsuc n) (low, high) e = elim (Bool-cases (ltb n (2 ^ 63 - 1))) [
  | inl less ↦
      let l = ltb→lt n (2 ^ 63 - 1) less in
      some_none _ (write_nonzero (negsuc n) (omega arith) (omega (arith, l))) e
  | inr at_least ↦ let l = ltb-false n (2 ^ 63 - 1) at_least in ap negsuc (omega (arith, low, l))
]

-- For a number of an `i64`, writing it panics just when it is -2^63.
pub write_scriptint_panics :
    (n : ℤ) → IsI64 n → (write_scriptint n ≡ none) ↔ (n ≡ negsuc (2 ^ 63 - 1))
write_scriptint_panics n h = (panicking n h, λ e. rw e lowest_panics)
