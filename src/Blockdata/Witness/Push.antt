-- ===== src/Blockdata/Witness/Push.antt =====
-- `push_slice` and `from_slice` of bitcoin/src/blockdata/witness.rs keep the layout of the buffer.
use rust_dogecoin.Common.{
  subst, ℕ, suc, ◌≡◌, ◌<◌, ◌+◌, ◌*◌, ◌^◌, List, [], ◌∷◌, ◌++◌, some, length, take, drop, refl,
  arith, ap, sym, ◌∙◌, append_assoc, append-nil, length-append, take-append, drop-append,
}
use rust_dogecoin.Common.Bytes.{to_le_bytes, length-to_le_bytes}
use rust_dogecoin.Consensus.Encode.{size, encode_var_int, encode_bytes}
use rust_dogecoin.Consensus.RoundTrip.{length-encode_var_int}
use rust_dogecoin.Blockdata.Witness.{
  sum_map, zeros, copy_from_slice, rotate_right, encode_cursor, push_slice, fill, from_slice,
}
use rust_dogecoin.Blockdata.Witness.Layout.{
  layout, elements, index, zeros-add, length-zeros, copy_from_slice-append, encode_cursor-append,
  rotate_right-append, length-index, length-encode_bytes, elements-append, index-append,
}

-- The old index moves behind the room for the element.
rotated :
    (xs ys : List ℕ) (n : ℕ)
    → take (length xs) ((xs ++ ys) ++ zeros (n + 4))
        ++ rotate_right (drop (length xs) ((xs ++ ys) ++ zeros (n + 4))) n
      ≡ (xs ++ (zeros n ++ ys)) ++ (zeros 4 ++ [])
rotated xs ys n =
    let c : n + 4 ≡ 4 + n = omega arith in
    let z : (xs ++ ys) ++ zeros (n + 4) ≡ xs ++ ((ys ++ zeros 4) ++ zeros n) =
      rw (c, zeros-add 4 n) (simp append_assoc refl) in
    let r : rotate_right ((ys ++ zeros 4) ++ zeros n) n ≡ zeros n ++ (ys ++ zeros 4) =
      ap (λ k. rotate_right ((ys ++ zeros 4) ++ zeros n) k) (sym (length-zeros n))
      ∙ rotate_right-append (ys ++ zeros 4) (zeros n) in
    rw (z, take-append, drop-append, r) (simp (append_assoc, append-nil) refl)

announced_lem :
    (xs e ys : List ℕ)
    → copy_from_slice
        (xs ++ (zeros (size (length e) + length e) ++ ys))
        (length xs)
        (encode_var_int (length e))
      ≡ some (xs ++ (encode_var_int (length e) ++ (zeros (length e) ++ ys)))
announced_lem xs e ys =
    rw (zeros-add (size (length e)) (length e), append_assoc)
      (copy_from_slice-append xs (zeros (size (length e))) (zeros (length e) ++ ys)
        (encode_var_int (length e))
        (length-zeros (size (length e)) ∙ sym (length-encode_var_int (length e))))

copied_lem :
    (xs e ys : List ℕ)
    → copy_from_slice
        (xs ++ (encode_var_int (length e) ++ (zeros (length e) ++ ys)))
        (length xs + size (length e))
        e
      ≡ some (xs ++ (encode_bytes e ++ ys))
unfolding encode_bytes
copied_lem xs e ys =
    let p : length xs + size (length e) ≡ length (xs ++ encode_var_int (length e)) =
      omega
        (arith, length-append xs (encode_var_int (length e)), length-encode_var_int (length e)) in
    rw
      (
        p,
        append_assoc (encode_var_int (length e)) e ys,
        ← append_assoc xs (encode_var_int (length e)) (zeros (length e) ++ ys),
        ← append_assoc xs (encode_var_int (length e)) (e ++ ys),
      )
      (copy_from_slice-append (xs ++ encode_var_int (length e)) (zeros (length e)) ys e
        (length-zeros (length e)))

layout_snoc :
    (es : List (List ℕ)) (e : List ℕ)
    → layout (es ++ e ∷ []) ≡ record {
      content =
          elements es
          ++ (encode_bytes e ++ (index 0 es ++ (to_le_bytes 4 (length (elements es)) ++ [])));
      witness_elements = suc (length es);
      indices_start = length (elements es) + (size (length e) + length e);
    }
unfolding layout
layout_snoc es e =
    let k : length (es ++ e ∷ []) ≡ suc (length es) = omega (arith, length-append es (e ∷ [])) in
    let b : length (elements es ++ encode_bytes e)
        ≡ length (elements es) + (size (length e) + length e) =
      omega (arith, length-append (elements es) (encode_bytes e), length-encode_bytes e) in
    rw
      (
        elements-append es (e ∷ []),
        index-append 0 es (e ∷ []),
        k,
        append-nil (encode_bytes e),
        b,
        append_assoc (elements es) (encode_bytes e) _,
      )
      (let z : 0 + length (elements es) ≡ length (elements es) = omega arith in rw z refl)

-- On the buffer of a list of elements that takes fewer than 2^32 bytes, the push of an element does
-- not panic and gives the buffer of the list with that element at the end.
pub push_slice-layout :
    (es : List (List ℕ)) (e : List ℕ)
    → length (elements es) < 2 ^ 32
    → push_slice (layout es) e ≡ some (layout (es ++ e ∷ []))
unfolding push_slice layout
push_slice-layout es e h =
    let n : ℕ = size (length e) + length e in
    let at_end : length (elements es) + n + length es * 4
        ≡ length (elements es ++ (zeros n ++ index 0 es)) =
      omega (
        arith,
        length-append (elements es) (zeros n ++ index 0 es),
        length-append (zeros n) (index 0 es),
        length-zeros n,
        length-index 0 es,
      ) in
    rw
      (
        rotated (elements es) (index 0 es) n,
        encode_cursor-append (elements es ++ (zeros n ++ index 0 es)) (zeros 4) [] _ (length es) _ h
            refl at_end,
        append_assoc (elements es) (zeros n ++ index 0 es) _,
        append_assoc (zeros n) (index 0 es) _,
        announced_lem (elements es) e _,
        copied_lem (elements es) e _,
      )
      (ap some (sym (layout_snoc es e)))

-- The cursor into the index of a buffer with room for the rest of the elements and of the index.
indexed_lem :
    (done idx : List ℕ) (room k i : ℕ)
    → length idx ≡ i * 4
    → length done < 2 ^ 32
    → encode_cursor
        (done ++ (zeros room ++ (idx ++ zeros (4 + k))))
        (length done + room)
        i
        (length done)
      ≡ some (done ++ (zeros room ++ (idx ++ (to_le_bytes 4 (length done) ++ zeros k))))
indexed_lem done idx room k i e h =
    let slot : length done + room + i * 4 ≡ length (done ++ (zeros room ++ idx)) = omega (
      arith,
      e,
      length-append done (zeros room ++ idx),
      length-append (zeros room) idx,
      length-zeros room,
    ) in
    let flat : (old : List ℕ)
        → done ++ (zeros room ++ (idx ++ (old ++ zeros k)))
          ≡ (done ++ (zeros room ++ idx)) ++ (old ++ zeros k) =
      λ old. simp append_assoc refl in
    rw (zeros-add 4 k, flat (zeros 4), flat (to_le_bytes 4 (length done)))
      (encode_cursor-append (done ++ (zeros room ++ idx)) (zeros 4) (zeros k) _ i _ h refl slot)

-- One element of the loop of `from_slice`.
fill_step :
    (e : List ℕ) (es : List (List ℕ)) (done idx : List ℕ) (i more k : ℕ)
    → length idx ≡ i * 4
    → length done < 2 ^ 32
    → fill
        (e ∷ es)
        i
        (length done)
        (length done + (size (length e) + length e + more))
        (done ++ (zeros (size (length e) + length e + more) ++ (idx ++ zeros (4 + k))))
      ≡ fill es (suc i) (length (done ++ encode_bytes e)) (length (done ++ encode_bytes e) + more) (
          (done ++ encode_bytes e)
          ++ (zeros more ++ ((idx ++ to_le_bytes 4 (length done)) ++ zeros k)))
unfolding fill
fill_step e es done idx i more k l h =
    let n : ℕ = size (length e) + length e in
    let next : length done + size (length e) + length e ≡ length (done ++ encode_bytes e) =
      omega (arith, length-append done (encode_bytes e), length-encode_bytes e) in
    let total : length done + (n + more) ≡ length (done ++ encode_bytes e) + more =
      omega (arith, length-append done (encode_bytes e), length-encode_bytes e) in
    rw
      (
        indexed_lem done idx (n + more) k i l h,
        zeros-add n more,
        append_assoc (zeros n) (zeros more) _,
        announced_lem done e _,
        copied_lem done e _,
        next,
        total,
        append_assoc idx (to_le_bytes 4 (length done)) (zeros k),
        append_assoc done (encode_bytes e) _,
      )
      refl

-- The loop of `from_slice`: the elements `es` are left to write, the buffer has room for them.
fill-layout :
    (es : List (List ℕ)) (done idx : List ℕ) (i : ℕ)
    → length idx ≡ i * 4
    → length done + length (elements es) < 2 ^ 32
    → fill es i
        (length done)
        (length done + length (elements es))
        (done ++ (zeros (length (elements es)) ++ (idx ++ zeros (length es * 4))))
      ≡ some (done ++ (elements es ++ (idx ++ index (length done) es)))
unfolding fill
fill-layout [] done idx i k h = refl
fill-layout (e ∷ es) done idx i k h =
    let room : length (encode_bytes e ++ elements es)
        ≡ size (length e) + length e + length (elements es) =
      omega (arith, length-append (encode_bytes e) (elements es), length-encode_bytes e) in
    let four : suc (length es) * 4 ≡ 4 + length es * 4 = omega arith in
    let l : length (idx ++ to_le_bytes 4 (length done)) ≡ suc i * 4 = omega (
      arith,
      k,
      length-append idx (to_le_bytes 4 (length done)),
      length-to_le_bytes 4 (length done),
    ) in
    let d : length (done ++ encode_bytes e) ≡ length done + length (encode_bytes e) =
      length-append done (encode_bytes e) in
    let fits : length (done ++ encode_bytes e) + length (elements es) < 2 ^ 32 =
      omega (arith, h, d, length-append (encode_bytes e) (elements es)) in
    rw (room, four)
      (fill_step e es done idx i (length (elements es)) (length es * 4) k (omega (arith, h))
        ∙ fill-layout es (done ++ encode_bytes e) (idx ++ to_le_bytes 4 (length done)) (suc i) l
            fits
        ∙ rw d (simp append_assoc refl))

content_size_lem :
    (es : List (List ℕ))
    → sum_map (λ (elem : List ℕ). length elem + size (length elem)) es ≡ length (elements es)
content_size_lem [] = refl
content_size_lem (e ∷ es) = omega (
  arith,
  content_size_lem es,
  length-append (encode_bytes e) (elements es),
  length-encode_bytes e,
)

pub from_slice-layout :
    (es : List (List ℕ)) → length (elements es) < 2 ^ 32 → from_slice es ≡ some (layout es)
unfolding from_slice layout
from_slice-layout es h =
    let z : length (elements es) ≡ 0 + length (elements es) = omega arith in
    let f : fill es 0 0 (length (elements es))
          (zeros (length (elements es)) ++ zeros (length es * 4))
        ≡ some (elements es ++ index 0 es) =
      subst
        (λ k.
          fill es 0 0 k (zeros (length (elements es)) ++ zeros (length es * 4))
          ≡ some (elements es ++ index 0 es))
        (sym z) (fill-layout es [] [] 0 refl (omega (arith, h))) in
    rw (content_size_lem es, zeros-add (length (elements es)) (length es * 4), f) refl
