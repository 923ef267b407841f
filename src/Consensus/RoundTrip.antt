-- ===== src/Consensus/RoundTrip.antt =====
-- Round trips of the readers and encoders of bitcoin/src/consensus/encode.rs.
use rust_dogecoin.Common.{
  subst, append_assoc, leb-false, ◌∙◌, leb→le, Bool-cases, ◌==◌, if◌then◌else◌, ℕ, ◌≡◌, List, ◌++◌,
  length, refl, true, false, leb, ltb, length-append, take-append, drop-append, arith, ◌<◌, ◌≤◌,
  ◌^◌, inl, inr,
}
use rust_dogecoin.Common.Bytes.{length-to_le_bytes, from_le_bytes-to_le_bytes, to_le_bytes}
use rust_dogecoin.Common.Results.{ok}
use rust_dogecoin.Consensus.Encode.{Read, Error, read_slice, ◌>>=◌}
use rust_dogecoin.Consensus.Encode

pub read_slice_append : (xs left : List ℕ) → read_slice (length xs) (xs ++ left) ≡ ok (xs, left)
unfolding read_slice
read_slice_append xs left =
    let e : leb (length xs) (length (xs ++ left)) ≡ true = ground (arith, length-append xs left) in
    rw (e, take-append xs left, drop-append xs left) refl

pub read_slice-to_le_bytes :
    (n v : ℕ) (left : List ℕ) → read_slice n (to_le_bytes n v ++ left) ≡ ok (to_le_bytes n v, left)
read_slice-to_le_bytes n v left =
    subst (λ k. read_slice k (to_le_bytes n v ++ left) ≡ ok (to_le_bytes n v, left))
      (length-to_le_bytes n v) (read_slice_append (to_le_bytes n v) left)

pub read_uint_lem :
    (n v : ℕ) (left : List ℕ)
    → v < 256 ^ n
    → Encode.read_uint n (to_le_bytes n v ++ left) ≡ ok (v, left)
unfolding Encode.read_uint
read_uint_lem n v left h =
    rw (read_slice-to_le_bytes n v left, from_le_bytes-to_le_bytes n v h) refl

read_at_least_lem :
    (n least v : ℕ) (left : List ℕ)
    → v < 256 ^ n
    → least ≤ v
    → Encode.read_at_least n least (to_le_bytes n v ++ left) ≡ ok (v, left)
unfolding Encode.read_at_least
read_at_least_lem n least v left h k =
    let e : ltb v least ≡ false = ground arith in rw (read_uint_lem n v left h, e) refl

-- The first byte of an integer selects its form.
decode_form : ℕ → List ℕ → Read ℕ
decode_form n xs =
    if n == 0xff
    then Encode.read_at_least 8 0x1_0000_0000 xs
    else if n == 0xfe
    then Encode.read_at_least 4 0x1_0000 xs
    else if n == 0xfd
    then Encode.read_at_least 2 0xfd xs
    else ok (n, xs)

decode_form_lem :
    (n : ℕ) (xs ys : List ℕ)
    → n < 256
    → Encode.decode_var_int (Encode.encode_u8 n ++ xs ++ ys) ≡ decode_form n (xs ++ ys)
unfolding Encode.decode_var_int Encode.encode_u8 decode_form
decode_form_lem n xs ys h =
    rw (append_assoc (to_le_bytes 1 n) xs ys, read_uint_lem 1 n (xs ++ ys) (omega arith)) refl

decode_short :
    (n : ℕ) (ys : List ℕ) → n ≤ 0xfc → Encode.decode_var_int (Encode.encode_u8 n ++ ys) ≡ ok (n, ys)
unfolding Encode.decode_var_int Encode.encode_u8
decode_short n ys h =
    let a : (n == 0xff) ≡ false = ground arith in
    let b : (n == 0xfe) ≡ false = ground arith in
    let c : (n == 0xfd) ≡ false = ground arith in
    rw (read_uint_lem 1 n ys (omega arith), a, b, c) refl

-- For an integer below 2^64, decoding what was encoded gives the integer back, and leaves the bytes
-- that follow.
pub decode_var_int-encode_var_int :
    (v : ℕ) (left : List ℕ)
    → v < 2 ^ 64
    → Encode.decode_var_int (Encode.encode_var_int v ++ left) ≡ ok (v, left)
unfolding Encode.encode_var_int Encode.encode_u32 Encode.encode_u64 decode_form
decode_var_int-encode_var_int v left h = elim (Bool-cases (leb v 0xfc)) [
  | inl e ↦ rw e (decode_short v left (leb→le v 0xfc e))
  | inr e ↦ elim (Bool-cases (leb v 0xffff)) [
    | inl f ↦
        rw (e, f)
          (decode_form_lem 0xfd (to_le_bytes 2 v) left (omega arith)
            ∙ read_at_least_lem 2 0xfd v left (omega (arith, leb→le v 0xffff f))
                (leb-false v 0xfc e))
    | inr f ↦ elim (Bool-cases (leb v 0xffff_ffff)) [
      | inl g ↦
          rw (e, f, g)
            (decode_form_lem 0xfe (to_le_bytes 4 v) left (omega arith)
              ∙ read_at_least_lem 4 0x1_0000 v left (omega (arith, leb→le v 0xffff_ffff g))
                  (leb-false v 0xffff f))
      | inr g ↦
          rw (e, f, g)
            (decode_form_lem 0xff (to_le_bytes 8 v) left (omega arith)
              ∙ read_at_least_lem 8 0x1_0000_0000 v left h (leb-false v 0xffff_ffff g))
    ]
  ]
]

-- The encoding of an integer has as many bytes as `size` says.
pub length-encode_var_int : (v : ℕ) → length (Encode.encode_var_int v) ≡ Encode.size v
unfolding Encode.encode_var_int Encode.encode_u8 Encode.encode_u32 Encode.encode_u64 Encode.size
    to_le_bytes
length-encode_var_int v = ground arith
