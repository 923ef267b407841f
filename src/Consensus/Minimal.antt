-- ===== src/Consensus/Minimal.antt =====
-- Integers of bitcoin/src/consensus/encode.rs have one form each.
use rust_dogecoin.Common.{
  append_assoc, ==_iff, take-drop, ltb-false, length-take, sym, ◌∙◌, leb→le, ap, subst, Bool-cases,
  ℕ, ◌≡◌, ◌<◌, ◌≤◌, ◌^◌, List, ◌++◌, length, All, take, drop, true, false, leb, ltb, ◌==◌, arith,
  inl, inr,
}
use rust_dogecoin.Common.Bytes.{
  All-drop, All-take, from_le_bytes-lt, to_le_bytes-from_le_bytes, IsByte, to_le_bytes,
  from_le_bytes,
}
use rust_dogecoin.Common.Results.{Result-cases, ok, err}
use rust_dogecoin.Consensus.Encode.{Read, Error, read_slice, read_uint, ◌>>=◌}
use rust_dogecoin.Consensus.Encode

abbrev ok_inj {ℓ} :
    {A : Type ℓ} {x y : A} {p q : List ℕ}
    → Path (Read A) (ok (x, p)) (ok (y, q))
    → (x ≡ y) × (p ≡ q)
ok_inj {x = x} {p = p} e =
    (ap (λ r. elim r [ ok z ↦ z.0 | err _ ↦ x ]) e, ap (λ r. elim r [ ok z ↦ z.1 | err _ ↦ p ]) e)

to_le_take :
    (n : ℕ) (bs : List ℕ)
    → n ≤ length bs
    → All IsByte bs
    → to_le_bytes n (from_le_bytes (take n bs)) ≡ take n bs
to_le_take n bs h k =
    subst (λ m. to_le_bytes m (from_le_bytes (take n bs)) ≡ take n bs)
      (omega (arith, length-take n bs)) (to_le_bytes-from_le_bytes (take n bs) (All-take n bs k))

from_le_take :
    (n : ℕ) (bs : List ℕ) → n ≤ length bs → All IsByte bs → from_le_bytes (take n bs) < 256 ^ n
from_le_take n bs h k =
    subst (λ m. from_le_bytes (take n bs) < 256 ^ m) (omega (arith, length-take n bs))
      (from_le_bytes-lt (take n bs) (All-take n bs k))

-- What an integer read from bytes is: those bytes in front, and it fits.
read_uint_back :
    (n v : ℕ) (bs left : List ℕ)
    → All IsByte bs
    → read_uint n bs ≡ ok (v, left)
    → (bs ≡ to_le_bytes n v ++ left) × ((v < 256 ^ n) × All IsByte left)
unfolding read_uint read_slice
read_uint_back n v bs left h e = elim (Bool-cases (leb n (length bs))) [
  | inl f ↦
      let (p, q) = ok_inj (rw f at e) in
      let k = leb→le n (length bs) f in
      (
        sym (take-drop n bs)
            ∙ ap (λ l. l ++ drop n bs) (sym (to_le_take n bs k h))
            ∙ ap (λ m. to_le_bytes n m ++ drop n bs) p
            ∙ ap (λ l. to_le_bytes n v ++ l) q,
        (
          subst (λ m. m < 256 ^ n) p (from_le_take n bs k h),
          subst (λ l. All IsByte l) q (All-drop n bs h),
        ),
      )
  | inr f ↦ let g = rw f at e in ground arith
]

read_at_least_back :
    (n least v : ℕ) (bs left : List ℕ)
    → All IsByte bs
    → Encode.read_at_least n least bs ≡ ok (v, left)
    → (bs ≡ to_le_bytes n v ++ left) × ((v < 256 ^ n) × (least ≤ v))
unfolding Encode.read_at_least
read_at_least_back n least v bs left h e = elim (Result-cases (read_uint n bs)) [
  | inl ((x, rest), f) ↦ elim (Bool-cases (ltb x least)) [
    | inl g ↦ let k = rw (f, g) at e in ground arith
    | inr g ↦
        let (p, q) = ok_inj (rw (f, g) at e) in
        let (a, (b, c)) = read_uint_back n x bs rest h f in
        (
          a ∙ ap (λ m. to_le_bytes n m ++ rest) p ∙ ap (λ l. to_le_bytes n v ++ l) q,
          (subst (λ m. m < 256 ^ n) p b, omega (arith, p, ltb-false x least g)),
        )
  ]
  | inr (x, f) ↦ let k = rw f at e in ground arith
]

-- A first byte and the integer behind it, put together.
form_back :
    (k x n v : ℕ) (bs rest left : List ℕ)
    → (x == k) ≡ true
    → bs ≡ to_le_bytes 1 x ++ rest
    → rest ≡ to_le_bytes n v ++ left
    → bs ≡ (to_le_bytes 1 k ++ to_le_bytes n v) ++ left
form_back k x n v bs rest left g a b =
    a
    ∙ ap (λ m. to_le_bytes 1 m ++ rest) ((==_iff x k).0 g)
    ∙ ap (λ l. to_le_bytes 1 k ++ l) b
    ∙ sym (append_assoc (to_le_bytes 1 k) (to_le_bytes n v) left)

-- Bytes that decode to an integer are the encoding of that integer, with what is left after it: no
-- integer has a second form, and it fits in 64 bits.
pub decode_var_int_unique :
    (v : ℕ) (bs left : List ℕ)
    → All IsByte bs
    → Encode.decode_var_int bs ≡ ok (v, left)
    → (bs ≡ Encode.encode_var_int v ++ left) × (v < 2 ^ 64)
unfolding Encode.decode_var_int Encode.encode_var_int Encode.encode_u8 Encode.encode_u32
    Encode.encode_u64
decode_var_int_unique v bs left h e = elim (Result-cases (read_uint 1 bs)) [
  | inl ((x, rest), f) ↦
      let (a, (b, c)) = read_uint_back 1 x bs rest h f in
      elim (Bool-cases (x == 0xff)) [
        | inl g ↦
            let (p, (q, r)) = read_at_least_back 8 0x1_0000_0000 v rest left c (rw (f, g) at e) in
            let u : leb v 0xfc ≡ false = ground arith in
            let w : leb v 0xffff ≡ false = ground arith in
            let z : leb v 0xffff_ffff ≡ false = ground arith in
            (rw (u, w, z) (form_back 0xff x 8 v bs rest left g a p), omega (arith, q))
        | inr g ↦ elim (Bool-cases (x == 0xfe)) [
          | inl t ↦
              let (p, (q, r)) = read_at_least_back 4 0x1_0000 v rest left c (rw (f, g, t) at e) in
              let u : leb v 0xfc ≡ false = ground arith in
              let w : leb v 0xffff ≡ false = ground arith in
              let z : leb v 0xffff_ffff ≡ true = ground arith in
              (rw (u, w, z) (form_back 0xfe x 4 v bs rest left t a p), omega (arith, q))
          | inr t ↦ elim (Bool-cases (x == 0xfd)) [
            | inl y ↦
                let (p, (q, r)) = read_at_least_back 2 0xfd v rest left c (rw (f, g, t, y) at e) in
                let u : leb v 0xfc ≡ false = ground arith in
                let w : leb v 0xffff ≡ true = ground arith in
                (rw (u, w) (form_back 0xfd x 2 v bs rest left y a p), omega (arith, q))
            | inr y ↦
                let (p, q) = ok_inj (rw (f, g, t, y) at e) in
                let u : leb v 0xfc ≡ true = ground arith in
                (
                  rw u (a ∙ ap (λ m. to_le_bytes 1 m ++ rest) p ∙ ap (λ l. to_le_bytes 1 v ++ l) q),
                  omega (arith, b, p),
                )
          ]
        ]
      ]
  | inr (x, f) ↦ let k = rw f at e in ground arith
]
