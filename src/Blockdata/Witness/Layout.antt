-- ===== src/Blockdata/Witness/Layout.antt =====
-- The buffer of a witness of bitcoin/src/blockdata/witness.rs is determined by the elements: the elements
-- with their lengths, then the offset of each.
use rust_dogecoin.Common.{
  lt→ltb, true, ℕ, zero, suc, ◌≡◌, ◌<◌, ◌+◌, ◌-◌, ◌*◌, ◌^◌, List, [], ◌∷◌, ◌++◌, some, length, leb,
  refl, arith, ap, sym, ◌∙◌, append_assoc, length-append, take-append, drop-append, drop-drop,
  le→leb,
}
use rust_dogecoin.Common.Bytes.{to_le_bytes, length-to_le_bytes}
use rust_dogecoin.Consensus.Encode.{size, encode_var_int, encode_bytes, concat_map}
use rust_dogecoin.Consensus.RoundTrip.{length-encode_var_int}
use rust_dogecoin.Blockdata.Witness.{
  Witness, zeros, slice_range, copy_from_slice, rotate_right, encode_cursor,
}

-- Where each element begins.
abbrev pub offsets : ℕ → List (List ℕ) → List ℕ
offsets start [] = []
offsets start (e ∷ es) = start ∷ offsets (start + length (encode_bytes e)) es

abbrev pub elements : List (List ℕ) → List ℕ
elements es = concat_map encode_bytes es

abbrev pub index : ℕ → List (List ℕ) → List ℕ
index start es = concat_map (to_le_bytes 4) (offsets start es)

unfoldable pub layout : List (List ℕ) → Witness
layout es = record {
  content = elements es ++ index 0 es;
  witness_elements = length es;
  indices_start = length (elements es);
}

pub length-zeros : (n : ℕ) → length (zeros n) ≡ n
length-zeros zero = refl
length-zeros (suc n) = ap suc (length-zeros n)

pub zeros-add : (m n : ℕ) → zeros (m + n) ≡ zeros m ++ zeros n
zeros-add zero n = let e : 0 + n ≡ n = omega arith in rw e refl
zeros-add (suc m) n =
    let e : suc m + n ≡ suc (m + n) = omega arith in rw e (ap (λ l. 0 ∷ l) (zeros-add m n))

-- A write over as many bytes as it has.
pub copy_from_slice-append :
    (xs old ys bs : List ℕ)
    → length old ≡ length bs
    → copy_from_slice (xs ++ (old ++ ys)) (length xs) bs ≡ some (xs ++ (bs ++ ys))
unfolding copy_from_slice
copy_from_slice-append xs old ys bs h =
    let n : length (xs ++ (old ++ ys)) ≡ length xs + (length old + length ys) =
      omega (arith, length-append xs (old ++ ys), length-append old ys) in
    let fits : leb (length xs + length bs) (length (xs ++ (old ++ ys))) ≡ true =
      le→leb _ _ (omega (arith, n)) in
    rw (fits, take-append, ← h, ← drop-drop, drop-append xs (old ++ ys), drop-append old ys) refl

pub slice_range-append :
    (xs ys zs : List ℕ)
    → slice_range (xs ++ (ys ++ zs)) (length xs) (length xs + length ys) ≡ some ys
unfolding slice_range
slice_range-append xs ys zs =
    let n : length (xs ++ (ys ++ zs)) ≡ length xs + (length ys + length zs) =
      omega (arith, length-append xs (ys ++ zs), length-append ys zs) in
    let low : leb (length xs) (length xs + length ys) ≡ true = le→leb _ _ (omega arith) in
    let high : leb (length xs + length ys) (length (xs ++ (ys ++ zs))) ≡ true =
      le→leb _ _ (omega (arith, n)) in
    let d : length xs + length ys - length xs ≡ length ys = omega arith in
    rw (low, high, d, drop-append, take-append) refl

pub rotate_right-append : (xs ys : List ℕ) → rotate_right (xs ++ ys) (length ys) ≡ ys ++ xs
unfolding rotate_right
rotate_right-append xs ys =
    let e : length (xs ++ ys) - length ys ≡ length xs = omega (arith, length-append xs ys) in
    rw (e, take-append, drop-append) refl

pub encode_cursor-append :
    (xs old ys : List ℕ) (start i v : ℕ)
    → v < 2 ^ 32
    → length old ≡ 4
    → start + i * 4 ≡ length xs
    → encode_cursor (xs ++ (old ++ ys)) start i v ≡ some (xs ++ (to_le_bytes 4 v ++ ys))
unfolding encode_cursor
encode_cursor-append xs old ys start i v h k e =
    rw (lt→ltb v (2 ^ 32) h, e)
      (copy_from_slice-append xs old ys (to_le_bytes 4 v) (k ∙ sym (length-to_le_bytes 4 v)))

pub length-index : (start : ℕ) (es : List (List ℕ)) → length (index start es) ≡ length es * 4
length-index start [] = refl
length-index start (e ∷ es) = omega (
  arith,
  length-append (to_le_bytes 4 start) (index (start + length (encode_bytes e)) es),
  length-to_le_bytes 4 start,
  length-index (start + length (encode_bytes e)) es,
)

pub length-encode_bytes : (bs : List ℕ) → length (encode_bytes bs) ≡ size (length bs) + length bs
unfolding encode_bytes
length-encode_bytes bs =
    omega (arith, length-append (encode_var_int (length bs)) bs, length-encode_var_int (length bs))

pub elements-append : (es fs : List (List ℕ)) → elements (es ++ fs) ≡ elements es ++ elements fs
elements-append [] fs = refl
elements-append (e ∷ es) fs =
    rw (elements-append es fs) (sym (append_assoc (encode_bytes e) (elements es) (elements fs)))

pub index-append :
    (start : ℕ) (es fs : List (List ℕ))
    → index start (es ++ fs) ≡ index start es ++ index (start + length (elements es)) fs
index-append start [] fs = let e : start + 0 ≡ start = omega arith in rw e refl
index-append start (e ∷ es) fs =
    let l : start + length (encode_bytes e ++ elements es)
        ≡ start + length (encode_bytes e) + length (elements es) =
      omega (arith, length-append (encode_bytes e) (elements es)) in
    rw (l, index-append (start + length (encode_bytes e)) es fs)
      (sym (append_assoc (to_le_bytes 4 start) _ _))
