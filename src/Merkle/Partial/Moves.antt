-- ===== src/Merkle/Partial/Moves.antt =====
-- How an extraction of bitcoin/src/merkle_tree/block.rs moves over flags and hashes, and how the leaves below
-- a node divide among its children.
use rust_dogecoin.Common.{
  ℕ, zero, suc, ◌≡◌, ◌≢◌, ◌<◌, ◌≤◌, ◌+◌, ◌*◌, ◌^◌, List, [], ◌∷◌, ◌++◌, Bool, true, false, some,
  length, take, drop, refl, arith, ap, sym, ◌∙◌, Bool-cases, inl, inr, get_elem?, append_assoc,
  append-nil, drop-drop, drop-append, length-append,
}
use rust_dogecoin.Common.Bytes.{bytes_eq, bytes_eq_sound}
use rust_dogecoin.Common.Bits.{pow_double}
use rust_dogecoin.Common.Results.{ok}
use rust_dogecoin.Merkle.Partial.{PartialMerkleTree, Extraction, next_bit, next_hash}
use rust_dogecoin.Merkle.Partial.Levels.{any, below, below_left, below_right, take_beyond}
use rust_dogecoin.Merkle.Partial.Shape.{flags-two, flags-alone, flags, selected, positions}

module _ {ℓ} {A : Type ℓ} where
  at_drop : (k : ℕ) (xs ys : List A) (y : A) → drop k xs ≡ y ∷ ys → get_elem? xs k ≡ some y
  at_drop zero [] ys y h = absurd (search arith)
  at_drop zero (x ∷ xs) ys y h = cc
  at_drop (suc k) [] ys y h = absurd (search arith)
  at_drop (suc k) (x ∷ xs) ys y h = at_drop k xs ys y h

  -- What is ahead after some elements.
  pub past : (k : ℕ) (xs ys zs : List A) → drop k xs ≡ ys ++ zs → drop (k + length ys) xs ≡ zs
  past k xs ys zs h =
      sym (drop-drop k (length ys) xs) ∙ ap (λ l. drop (length ys) l) h ∙ drop-append ys zs

-- An extraction after more flags, hashes, leaves found and positions.
abbrev pub moved : Extraction → List Bool → List (List ℕ) → List (List ℕ) → List ℕ → Extraction
moved x bs hs fs is = record {
  bits_used = x.bits_used + length bs;
  hash_used = x.hash_used + length hs;
  found = x.found ++ fs;
  indexes = x.indexes ++ is;
}

pub next_bit_lem :
    (t : PartialMerkleTree) (x : Extraction) (b : Bool) (bs : List Bool)
    → drop x.bits_used t.bits ≡ b ∷ bs
    → next_bit t x ≡ ok (b, moved x (b ∷ []) [] [] [])
unfolding next_bit
next_bit_lem t x b bs h =
    let z : x.hash_used + 0 ≡ x.hash_used = omega arith in
    rw (at_drop x.bits_used t.bits bs b h, next_bit, z, append-nil x.found, append-nil x.indexes)
      refl

pub next_hash_lem :
    (t : PartialMerkleTree) (x : Extraction) (b : List ℕ) (bs : List (List ℕ))
    → drop x.hash_used t.hashes ≡ b ∷ bs
    → next_hash t x ≡ ok (b, moved x [] (b ∷ []) [] [])
unfolding next_hash
next_hash_lem t x b bs h =
    let z : x.bits_used + 0 ≡ x.bits_used = omega arith in
    rw (at_drop x.hash_used t.hashes bs b h, next_hash, z, append-nil x.found, append-nil x.indexes)
      refl

pub moved_twice :
    (x : Extraction) (bs bs' : List Bool) (hs hs' fs fs' : List (List ℕ)) (is is' : List ℕ)
    → moved (moved x bs hs fs is) bs' hs' fs' is'
      ≡ moved x (bs ++ bs') (hs ++ hs') (fs ++ fs') (is ++ is')
moved_twice x bs bs' hs hs' fs fs' is is' =
    let b : x.bits_used + length bs + length bs' ≡ x.bits_used + length (bs ++ bs') =
      omega (arith, length-append bs bs') in
    let h : x.hash_used + length hs + length hs' ≡ x.hash_used + length (hs ++ hs') =
      omega (arith, length-append hs hs') in
    rw (b, h, append_assoc x.found fs fs', append_assoc x.indexes is is') refl

pub selected_none : (xs : List (List ℕ)) (ms : List Bool) → any ms ≡ false → selected xs ms ≡ []
unfolding selected
selected_none [] ms h = refl
selected_none (x ∷ xs) [] h = refl
selected_none (x ∷ xs) (true ∷ ms) h = absurd (search arith)
selected_none (x ∷ xs) (false ∷ ms) h = selected_none xs ms h

pub positions_none : (base : ℕ) (ms : List Bool) → any ms ≡ false → positions base ms ≡ []
unfolding positions
positions_none base [] h = refl
positions_none base (true ∷ ms) h = absurd (search arith)
positions_none base (false ∷ ms) h = positions_none (base + 1) ms h

selected_empty : (xs : List (List ℕ)) → selected xs [] ≡ []
unfolding selected
selected_empty [] = refl
selected_empty (x ∷ xs) = refl

selected_halves :
    (k : ℕ) (xs : List (List ℕ)) (ms : List Bool)
    → selected xs ms ≡ selected (take k xs) (take k ms) ++ selected (drop k xs) (drop k ms)
unfolding selected
selected_halves zero xs ms = refl
selected_halves (suc k) [] ms = refl
selected_halves (suc k) (x ∷ xs) [] = sym (selected_empty (drop k xs))
selected_halves (suc k) (x ∷ xs) (true ∷ ms) = ap (λ l. x ∷ l) (selected_halves k xs ms)
selected_halves (suc k) (x ∷ xs) (false ∷ ms) = selected_halves k xs ms

positions_halves :
    (k base : ℕ) (ms : List Bool)
    → positions base ms ≡ positions base (take k ms) ++ positions (base + k) (drop k ms)
unfolding positions
positions_halves zero base ms = let z : base + 0 ≡ base = omega arith in rw z refl
positions_halves (suc k) base [] = refl
positions_halves (suc k) base (true ∷ ms) =
    let e : base + suc k ≡ base + 1 + k = omega arith in
    rw e (ap (λ l. base ∷ l) (positions_halves k (base + 1) ms))
positions_halves (suc k) base (false ∷ ms) =
    let e : base + suc k ≡ base + 1 + k = omega arith in rw e (positions_halves k (base + 1) ms)

pub moved_thrice :
    (x : Extraction) (b : Bool) (bs bs' : List Bool) (hs hs' fs fs' : List (List ℕ))
    (is is' : List ℕ)
    → moved (moved (moved x (b ∷ []) [] [] []) bs hs fs is) bs' hs' fs' is'
      ≡ moved x (b ∷ (bs ++ bs')) (hs ++ hs') (fs ++ fs') (is ++ is')
moved_thrice x b bs bs' hs hs' fs fs' is is' =
    ap (λ y. moved y bs' hs' fs' is') (moved_twice x (b ∷ []) bs [] hs [] fs [] is)
    ∙ moved_twice x (b ∷ bs) bs' hs hs' fs fs' is is'

pub flags_left :
    (h pos : ℕ) (ms : List Bool)
    → any (below (suc h) pos ms) ≡ true
    → length (below (suc h) pos ms) ≤ 2 ^ h
    → flags (suc h) (below (suc h) pos ms) ≡ true ∷ flags h (below h (pos * 2) ms)
flags_left h pos ms a l =
    flags-alone h (below (suc h) pos ms) a l ∙ ap (λ k. true ∷ flags h k) (below_left h pos ms)

pub flags_both :
    (h pos : ℕ) (ms : List Bool)
    → any (below (suc h) pos ms) ≡ true
    → 2 ^ h < length (below (suc h) pos ms)
    → flags (suc h) (below (suc h) pos ms)
      ≡ true ∷ (flags h (below h (pos * 2) ms) ++ flags h (below h (pos * 2 + 1) ms))
flags_both h pos ms a l =
    flags-two h (below (suc h) pos ms) a l ∙ rw (below_left h pos ms, below_right h pos ms) refl

pub left_alone {ℓ} :
    {A : Type ℓ} (h pos : ℕ) (xs : List A)
    → length (below (suc h) pos xs) ≤ 2 ^ h
    → below (suc h) pos xs ≡ below h (pos * 2) xs
left_alone h pos xs l = sym (take_beyond (2 ^ h) (below (suc h) pos xs) l) ∙ below_left h pos xs

pub left_base : (h pos : ℕ) → pos * 2 ^ suc h ≡ pos * 2 * 2 ^ h
left_base h pos = rw (pow_double h) (omega arith)

pub selected_both :
    (h pos : ℕ) (xs : List (List ℕ)) (ms : List Bool)
    → selected (below (suc h) pos xs) (below (suc h) pos ms)
      ≡ selected (below h (pos * 2) xs) (below h (pos * 2) ms)
        ++ selected (below h (pos * 2 + 1) xs) (below h (pos * 2 + 1) ms)
selected_both h pos xs ms =
    selected_halves (2 ^ h) (below (suc h) pos xs) (below (suc h) pos ms)
    ∙ rw (below_left h pos xs, below_left h pos ms, below_right h pos xs, below_right h pos ms) refl

pub positions_both :
    (h pos : ℕ) (ms : List Bool)
    → positions (pos * 2 ^ suc h) (below (suc h) pos ms)
      ≡ positions (pos * 2 * 2 ^ h) (below h (pos * 2) ms)
        ++ positions ((pos * 2 + 1) * 2 ^ h) (below h (pos * 2 + 1) ms)
positions_both h pos ms =
    let e : pos * 2 * 2 ^ h + 2 ^ h ≡ (pos * 2 + 1) * 2 ^ h = omega arith in
    positions_halves (2 ^ h) (pos * 2 ^ suc h) (below (suc h) pos ms)
    ∙ rw (below_left h pos ms, below_right h pos ms, left_base h pos, e) refl

pub bytes_eq_ne : (xs ys : List ℕ) → xs ≢ ys → bytes_eq xs ys ≡ false
bytes_eq_ne xs ys h = elim (Bool-cases (bytes_eq xs ys)) [
  | inl e ↦ absurd (h (bytes_eq_sound xs ys e))
  | inr e ↦ e
]
