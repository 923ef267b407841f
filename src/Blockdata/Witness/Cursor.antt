-- ===== src/Blockdata/Witness/Cursor.antt =====
-- The cursors of bitcoin/src/blockdata/witness.rs, and the elements at their places.
use rust_dogecoin.Common.{
  le→ltb-false, lt→ltb, subst, ℕ, ◌≡◌, ◌<◌, ◌≤◌, ◌+◌, ◌*◌, ◌^◌, ◌%◌, List, [], ◌∷◌, ◌++◌, none,
  some, length, ltb, refl, arith, ap, append_assoc, append-nil, length-append, true, false,
}
use rust_dogecoin.Common.Bytes.{to_le_bytes, from_le_bytes-to_le_bytes}
use rust_dogecoin.Consensus.Encode.{size, encode_var_int, encode_bytes}
use rust_dogecoin.Consensus.RoundTrip.{length-encode_var_int, decode_var_int-encode_var_int}
use rust_dogecoin.Blockdata.Witness.{
  Witness, slice_range, decode_cursor, element_of, element_at, at_cursor, nth,
}
use rust_dogecoin.Blockdata.Witness.Layout.{
  layout, elements, index, slice_range-append, length-index, length-encode_bytes, elements-append,
  index-append,
}

to_the_end : (xs ys : List ℕ) → slice_range (xs ++ ys) (length xs) (length (xs ++ ys)) ≡ some ys
to_the_end xs ys = rw length-append (
    subst (λ l. slice_range (xs ++ l) (length xs) (length xs + length ys) ≡ some ys) (append-nil ys)
      (slice_range-append xs ys []))

-- An element read at its place.
element_at-layout :
    (before after : List ℕ) (e : List ℕ) (w : Witness)
    → length e < 2 ^ 64
    → w.content ≡ before ++ (encode_bytes e ++ after)
    → element_at w (length before) ≡ some (some e)
unfolding element_at element_of encode_bytes
element_at-layout before after e w h c =
    let v : List ℕ = encode_var_int (length e) in
    let place : length before + size (length e) ≡ length (before ++ v) =
      omega (arith, length-append before v, length-encode_var_int (length e)) in
    let body : slice_range (before ++ ((v ++ e) ++ after)) (length (before ++ v))
          (length (before ++ v) + length e)
        ≡ some e =
      rw (append_assoc v e after, ← append_assoc before v (e ++ after))
        (slice_range-append (before ++ v) e after) in
    rw
      (
        c,
        to_the_end before ((v ++ e) ++ after),
        append_assoc v e after,
        decode_var_int-encode_var_int (length e) (e ++ after) h,
        place,
        ← append_assoc v e after,
        body,
      )
      refl

-- The index around the cursor of one element.
index_split :
    (before : List (List ℕ)) (e : List ℕ) (after : List (List ℕ)) (xs : List ℕ)
    → xs ++ index 0 (before ++ e ∷ after)
      ≡ (xs ++ index 0 before)
        ++ (to_le_bytes 4 (length (elements before))
            ++ index (length (elements before) + length (encode_bytes e)) after)
index_split before e after xs =
    let z : 0 + length (elements before) ≡ length (elements before) = omega arith in
    rw (index-append 0 before (e ∷ after), z) (simp append_assoc refl)

cursor-layout :
    (before : List (List ℕ)) (e : List ℕ) (after : List (List ℕ))
    → length (elements (before ++ e ∷ after)) + length (before ++ e ∷ after) * 4 < 2 ^ 64
    → length (elements before) < 2 ^ 32
    → decode_cursor
        (layout (before ++ e ∷ after)).content
        (layout (before ++ e ∷ after)).indices_start
        (length before)
      ≡ some (some (length (elements before)))
unfolding decode_cursor layout to_le_bytes
cursor-layout before e after h k =
    let es : List (List ℕ) = before ++ e ∷ after in
    let front : List ℕ = elements es ++ index 0 before in
    let place : (length (elements es) + length before * 4) % 2 ^ 64 ≡ length front = omega (
      arith,
      length-append (elements es) (index 0 before),
      length-index 0 before,
      length-append before (e ∷ after),
    ) in
    let past : (length front + 4) % 2 ^ 64 ≡ length front + 4 = omega (
      arith,
      length-append (elements es) (index 0 before),
      length-index 0 before,
      length-append before (e ∷ after),
    ) in
    let inside : ltb (length (elements es ++ index 0 es)) (length front + 4) ≡ false =
      le→ltb-false _ _ (
        omega (
          arith,
          length-append (elements es) (index 0 es),
          length-index 0 es,
          length-append (elements es) (index 0 before),
          length-index 0 before,
          length-append before (e ∷ after),
        )) in
    let slice : slice_range
          (front
            ++ (to_le_bytes 4 (length (elements before))
                ++ index (length (elements before) + length (encode_bytes e)) after))
          (length front) (length front + 4)
        ≡ some (to_le_bytes 4 (length (elements before))) =
      slice_range-append front (to_le_bytes 4 (length (elements before))) _ in
    rw (place, past, inside, index_split before e after (elements es), slice)
      (ap (λ o. some (some o)) (from_le_bytes-to_le_bytes 4 _ k))

pub no_cursor :
    (es : List (List ℕ)) (i : ℕ)
    → length es ≤ i
    → length (elements es) + i * 4 + 4 < 2 ^ 64
    → decode_cursor (layout es).content (layout es).indices_start i ≡ some none
unfolding decode_cursor layout
no_cursor es i h k =
    let place : (length (elements es) + i * 4) % 2 ^ 64 ≡ length (elements es) + i * 4 =
      omega (arith, k) in
    let past : (length (elements es) + i * 4 + 4) % 2 ^ 64 ≡ length (elements es) + i * 4 + 4 =
      omega (arith, k) in
    let outside : ltb (length (elements es ++ index 0 es)) (length (elements es) + i * 4 + 4)
        ≡ true =
      lt→ltb _ _ (omega (arith, length-append (elements es) (index 0 es), length-index 0 es)) in
    rw (place, past, outside) refl

size_pos : (v : ℕ) → 0 < size v
unfolding size
size_pos v = ground arith

pub length-elements : (es : List (List ℕ)) → length es ≤ length (elements es)
length-elements [] = omega arith
length-elements (e ∷ es) = omega (
  arith,
  length-elements es,
  length-append (encode_bytes e) (elements es),
  length-encode_bytes e,
  size_pos (length e),
)

content-between :
    (before : List (List ℕ)) (e : List ℕ) (after : List (List ℕ))
    → (layout (before ++ e ∷ after)).content
      ≡ elements before ++ (encode_bytes e ++ (elements after ++ index 0 (before ++ e ∷ after)))
unfolding layout
content-between before e after = rw (elements-append before (e ∷ after)) (simp append_assoc refl)

-- The lookup of an element between others.
pub nth-between :
    (before : List (List ℕ)) (e : List ℕ) (after : List (List ℕ))
    → length (elements (before ++ e ∷ after)) < 2 ^ 32
    → nth (layout (before ++ e ∷ after)) (length before) ≡ some (some e)
unfolding nth at_cursor
nth-between before e after h =
    let l : length (elements (before ++ e ∷ after))
        ≡ length (elements before) + (length (encode_bytes e) + length (elements after)) =
      rw elements-append (
        omega (
          arith,
          length-append (elements before) (encode_bytes e ++ elements after),
          length-append (encode_bytes e) (elements after),
        )) in
    rw
      (cursor-layout before e after (omega (arith, h, length-elements (before ++ e ∷ after)))
        (omega (arith, h, l)))
      (element_at-layout (elements before) (elements after ++ index 0 (before ++ e ∷ after)) e
        (layout (before ++ e ∷ after)) (omega (arith, h, l, length-encode_bytes e))
        (content-between before e after))
