-- ===== src/Blockdata/Witness/Lookup.antt =====
-- The lookups of bitcoin/src/blockdata/witness.rs find the elements that the buffer was made of.
use rust_dogecoin.Common.{
  get_elem?-append, ◌⊎◌, ℕ, zero, suc, ◌≡◌, ◌<◌, ◌≤◌, ◌+◌, ◌-◌, ◌*◌, ◌^◌, ◌%◌, List, [], ◌∷◌, ◌++◌,
  none, some, length, ◌>>=◌, get_elem?, if◌then◌else◌, ltb, refl, arith, ap, ◌∙◌, append_assoc,
  length-append, take-append, inl, inr, true, false,
}
use rust_dogecoin.Consensus.Encode.{encode_vec}
use rust_dogecoin.Blockdata.Witness.{
  Bool, Witness, decode_cursor, at_cursor, nth, from_slice, from_last, gather_elements, collect,
  to_vec, encode,
}
use rust_dogecoin.Blockdata.Transaction.{encode_witness}
use rust_dogecoin.Blockdata.Witness.Push.{from_slice-layout}
use rust_dogecoin.Blockdata.Witness.Layout.{layout, elements, index, length-index}
use rust_dogecoin.Blockdata.Witness.Cursor.{no_cursor, length-elements, nth-between}

-- The buffer of a list of elements is encoded as the list is: the number of elements, and each with
-- its length.
pub encode-layout : (es : List (List ℕ)) → encode (layout es) ≡ encode_witness es
unfolding encode layout encode_witness encode_vec
encode-layout es =
    let n : length (elements es ++ index 0 es) - length es * 4 ≡ length (elements es) =
      omega (arith, length-append (elements es) (index 0 es), length-index 0 es) in
    rw (n, take-append) refl

split_at :
    (es : List (List ℕ)) (i : ℕ)
    → (length es ≤ i)
      ⊎ ((before : List (List ℕ)) × (e : List ℕ) × (after : List (List ℕ)) × (es
            ≡ before ++ e ∷ after)
          × (length before ≡ i))
split_at [] i = inl (omega arith)
split_at (e ∷ es) zero = inr ([], e, es, refl, refl)
split_at (e ∷ es) (suc i) = elim (split_at es i) [
  | inl past ↦ inl (omega arith)
  | inr (before, x, after, p, q) ↦ inr (e ∷ before, x, after, ap (λ l. e ∷ l) p, ap suc q)
]

past_the_end : (es : List (List ℕ)) (i : ℕ) → length es ≤ i → get_elem? es i ≡ none
past_the_end [] i h = refl
past_the_end (e ∷ es) zero h = absurd (omega arith)
past_the_end (e ∷ es) (suc i) h = past_the_end es i (omega arith)

nth-within :
    (es : List (List ℕ)) (i : ℕ)
    → length (elements es) < 2 ^ 32
    → i < 2 ^ 61
    → nth (layout es) i ≡ some (get_elem? es i)
unfolding nth at_cursor
nth-within es i h k = elim (split_at es i) [
  | inl past ↦ rw (no_cursor es i past (omega (arith, h, k)), past_the_end es i past) refl
  | inr (before, e, after, p, q) ↦
      let z : length before + 0 ≡ length before = omega arith in
      let g : get_elem? (before ++ e ∷ after) (length before) ≡ some e =
        rw z at (get_elem?-append before (e ∷ after) 0) in
      rw (p, ← q, g) (nth-between before e after (rw p at h))
]

pub from_last-layout :
    (k : ℕ) (es : List (List ℕ))
    → length (elements es) < 2 ^ 32
    → from_last k (layout es)
      ≡ some (if ltb (length es) k then none else get_elem? es (length es - k))
unfolding from_last nth decode_cursor layout
from_last-layout k es h =
    rw (nth-within es (length es - k) h (omega (arith, h, length-elements es)))
      (pushed (ltb (length es) k))
  where
    pushed :
        (b : Bool)
        → (if b then some none else some (get_elem? es (length es - k)))
          ≡ some (if b then none else get_elem? es (length es - k))
    pushed true = refl
    pushed false = refl

-- Without overflow checks an index past the end may come round to an element.
nth_wraps : (w : Witness) (i : ℕ) → nth w (i + 2 ^ 62) ≡ nth w i
unfolding nth decode_cursor
nth_wraps w i =
    let e : (w.indices_start + (i + 2 ^ 62) * 4) % 2 ^ 64 ≡ (w.indices_start + i * 4) % 2 ^ 64 =
      omega arith in
    rw e refl

-- On the buffer of a list of elements that takes fewer than 2^32 bytes, and for an index below
-- 2^61, the lookup does not panic and gives the element of the list at the index, if any; since the
-- arithmetic wraps, 2^62 past the index gives the same.
pub nth-layout :
    (es : List (List ℕ)) (i : ℕ)
    → length (elements es) < 2 ^ 32
    → i < 2 ^ 61
    → (nth (layout es) i ≡ some (get_elem? es i))
      × (nth (layout es) (i + 2 ^ 62) ≡ some (get_elem? es i))
nth-layout es i h k = (nth-within es i h k, nth_wraps (layout es) i ∙ nth-within es i h k)

collect-layout :
    (before after : List (List ℕ))
    → length (elements (before ++ after)) < 2 ^ 32
    → collect (suc (length after)) (length before) (layout (before ++ after)) ≡ some after
unfolding collect gather_elements
collect-layout before [] h =
    let n : length (before ++ []) ≤ length before = omega (arith, length-append before []) in
    rw
      (
        nth-within (before ++ []) (length before) h
            (omega (arith, h, n, length-elements (before ++ []), length-append before [])),
        past_the_end (before ++ []) (length before) n,
      )
      refl
collect-layout before (e ∷ after) h =
    let a : (before ++ e ∷ []) ++ after ≡ before ++ e ∷ after =
      append_assoc before (e ∷ []) after in
    let n : length (before ++ e ∷ []) ≡ suc (length before) =
      omega (arith, length-append before (e ∷ [])) in
    let ih : collect (suc (length after)) (suc (length before)) (layout (before ++ e ∷ after))
        ≡ some after =
      rw (a, n) at (collect-layout (before ++ e ∷ []) after (rw a h)) in
    rw (nth-between before e after h, ih) refl

pub to_vec-layout :
    (es : List (List ℕ)) → length (elements es) < 2 ^ 32 → to_vec (layout es) ≡ some es
unfolding to_vec layout
to_vec-layout es h = collect-layout [] es h

-- For a list of elements that takes fewer than 2^32 bytes, the witness made from it is made without
-- a panic and iterates over the elements of the list.
pub to_vec-from_slice :
    (es : List (List ℕ))
    → length (elements es) < 2 ^ 32
    → (from_slice es >>= (λ w. to_vec w)) ≡ some es
to_vec-from_slice es h = rw (from_slice-layout es h) (to_vec-layout es h)
