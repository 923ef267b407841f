-- ===== src/Consensus/Vectors.antt =====
-- Byte vectors and vectors of bitcoin/src/consensus/encode.rs: reading in chunks, and round trips.
use rust_dogecoin.Common.{
  ◌*◌, fun_ext, ap, ◌∷◌, ◌∙◌, leb-false, ◌-◌, drop-drop, take-take, append_assoc, length-drop,
  Bool-cases, ◌+◌, append-nil, take, drop, suc, ℕ, ◌≡◌, List, ◌++◌, length, refl, true, false, leb,
  ltb, arith, ◌<◌, ◌≤◌, ◌^◌, inl, inr, [], zero, suc,
}
use rust_dogecoin.Common
use rust_dogecoin.Common.Results.{ok}
use rust_dogecoin.Consensus.Encode.{Read, Error, read_slice, ◌>>=◌, read_chunks}
use rust_dogecoin.Consensus.Encode
use rust_dogecoin.Consensus.RoundTrip.{read_slice_append, decode_var_int-encode_var_int}

chunk_end : (fuel c : ℕ) (ret bs : List ℕ) → 0 < fuel → read_chunks fuel c 0 ret bs ≡ ok (ret, bs)
unfolding read_chunks
chunk_end zero c ret bs h = ground arith
chunk_end (suc fuel) c ret bs h = refl

slice_more :
    (a b : ℕ) (ret bs : List ℕ)
    → leb a (length bs) ≡ true
    → (do (x, left) ← read_slice b (drop a bs); ok ((ret ++ take a bs) ++ x, left))
      ≡ (do (x, left) ← read_slice (a + b) bs; ok (ret ++ x, left))
unfolding read_slice
slice_more a b ret bs h = elim (Bool-cases (leb (a + b) (length bs))) [
  | inl e ↦
      let f : leb b (length (drop a bs)) ≡ true = ground (arith, length-drop a bs) in
      rw
        (
          e,
          f,
          append_assoc ret (take a bs) (take b (drop a bs)),
          take-take a b bs,
          drop-drop a b bs,
        )
        refl
  | inr e ↦
      let f : leb b (length (drop a bs)) ≡ false = ground (arith, length-drop a bs) in
      rw (e, f) refl
]

read_slice_eta :
    (len : ℕ) (bs : List ℕ)
    → (do (x, left) ← read_slice len bs; ok ([] ++ x, left)) ≡ read_slice len bs
unfolding read_slice
read_slice_eta len bs = elim (Bool-cases (leb len (length bs))) [
  | inl e ↦ rw e refl
  | inr e ↦ rw e refl
]

-- Reading in chunks is reading at once.
pub read_chunks_lem :
    (fuel c len : ℕ) (ret bs : List ℕ)
    → 0 < c
    → len < fuel
    → read_chunks fuel c len ret bs ≡ (do (x, left) ← read_slice len bs; ok (ret ++ x, left))
unfolding read_chunks read_slice
read_chunks_lem zero c len ret bs h k = ground arith
read_chunks_lem (suc fuel) c zero ret bs h k =
    let e : leb 0 (length bs) ≡ true = ground arith in rw (e, append-nil ret) refl
read_chunks_lem (suc fuel) c (suc n) ret bs h k = elim (Bool-cases (leb (suc n) c)) [
  | inl e ↦ elim (Bool-cases (leb (suc n) (length bs))) [
    | inl f ↦
        let z : suc n - suc n ≡ 0 = omega arith in
        rw (e, f, z) (chunk_end fuel c (ret ++ take (suc n) bs) (drop (suc n) bs) (omega arith))
    | inr f ↦ rw (e, f) refl
  ]
  | inr e ↦ elim (Bool-cases (leb c (length bs))) [
    | inl f ↦
        let z : c + (suc n - c) ≡ suc n = omega (arith, leb-false (suc n) c e) in
        rw (e, f)
          (read_chunks_lem fuel c (suc n - c) (ret ++ take c bs) (drop c bs) h
              (omega (arith, leb-false (suc n) c e))
            ∙ slice_more c (suc n - c) ret bs f
            ∙ ap (λ k. (do (x, left) ← read_slice k bs; ok (ret ++ x, left))) z)
    | inr f ↦
        let g : leb (suc n) (length bs) ≡ false =
          ground (arith, leb-false (suc n) c e, leb-false c (length bs) f) in
        rw (e, f, g) refl
  ]
]

-- A byte vector is read as its length and then that many bytes at once, errors included: the chunks
-- do not show.
pub decode_bytes_lem :
    (bs : List ℕ)
    → Encode.decode_bytes bs ≡ (do (len, left) ← Encode.decode_var_int bs; read_slice len left)
unfolding Encode.decode_bytes
decode_bytes_lem bs =
    ap (λ f. Encode.decode_var_int bs >>= f)
      (fun_ext λ (len, left).
        read_chunks_lem (suc len) (128 * 1024) len [] left (omega arith) (omega arith)
        ∙ read_slice_eta len left)

pub decode_bytes-encode_bytes :
    (xs left : List ℕ)
    → length xs < 2 ^ 64
    → Encode.decode_bytes (Encode.encode_bytes xs ++ left) ≡ ok (xs, left)
unfolding Encode.encode_bytes
decode_bytes-encode_bytes xs left h =
    decode_bytes_lem (Encode.encode_var_int (length xs) ++ xs ++ left)
    ∙ rw
        (
          append_assoc (Encode.encode_var_int (length xs)) xs left,
          decode_var_int-encode_var_int (length xs) (xs ++ left) h,
          read_slice_append xs left,
        )
        refl

module _ {ℓ} {A : Type ℓ} (f : List ℕ → Read A) (g : A → List ℕ) where
  -- The reader `f` gives back an element that `g` wrote.
  abbrev pub IsReadBack : A → Type ℓ
  IsReadBack x = (left : List ℕ) → f (g x ++ left) ≡ ok (x, left)

  read_elements-concat_map :
      (xs : List A) (left : List ℕ)
      → Common.All IsReadBack xs
      → Encode.read_elements f (length xs) (Encode.concat_map g xs ++ left) ≡ ok (xs, left)
  unfolding Encode.read_elements
  read_elements-concat_map [] left h = refl
  read_elements-concat_map (x ∷ xs) left (h, hs) =
      rw
        (
          append_assoc (g x) (Encode.concat_map g xs) left,
          h (Encode.concat_map g xs ++ left),
          read_elements-concat_map xs left hs,
        )
        refl

  -- A vector of fewer than 2^64 elements, each of which the element's reader gives back whatever
  -- follows it, is read back as it was written, and the bytes that follow are left.
  pub decode_vec-encode_vec :
      (xs : List A) (left : List ℕ)
      → length xs < 2 ^ 64
      → Common.All IsReadBack xs
      → Encode.decode_vec f (Encode.encode_vec g xs ++ left) ≡ ok (xs, left)
  unfolding Encode.decode_vec Encode.encode_vec
  decode_vec-encode_vec xs left h k =
      rw
        (
          append_assoc (Encode.encode_var_int (length xs)) (Encode.concat_map g xs) left,
          decode_var_int-encode_var_int (length xs) (Encode.concat_map g xs ++ left) h,
        )
        (read_elements-concat_map xs left k)
