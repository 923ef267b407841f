-- ===== src/Merkle/Partial/Shape.antt =====
-- What the partial tree of bitcoin/src/merkle_tree/block.rs holds, described by the leaves: the flags and
-- the hashes in depth-first order.
use rust_dogecoin.Common.{
  ℕ, zero, suc, ◌≡◌, ◌<◌, ◌≤◌, ◌+◌, ◌^◌, List, [], ◌∷◌, ◌++◌, Bool, true, false, length, take, drop,
  leb, refl, arith, Bool-cases, inl, le→leb, lt→leb-false, inr, leb-false, length-take, length-drop,
  length-append, if◌then◌else◌,
}
use rust_dogecoin.Common.Bits.{pow_pos}
use rust_dogecoin.Merkle.{node}
use rust_dogecoin.Merkle.Tree.{tree_root}
use rust_dogecoin.Merkle.Partial.Levels.{any}

unfoldable pub flags : ℕ → List Bool → List Bool
flags zero ms = any ms ∷ []
flags (suc h) ms =
    let left = flags h (take (2 ^ h) ms) in
    let right = flags h (drop (2 ^ h) ms) in
    any ms ∷ (if any ms then (if leb (length ms) (2 ^ h) then left else left ++ right) else [])

pub flags-nothing : (h : ℕ) (ms : List Bool) → any ms ≡ false → flags (suc h) ms ≡ false ∷ []
unfolding flags
flags-nothing h ms a = rw a refl

pub flags-alone :
    (h : ℕ) (ms : List Bool)
    → any ms ≡ true
    → length ms ≤ 2 ^ h
    → flags (suc h) ms ≡ true ∷ flags h (take (2 ^ h) ms)
unfolding flags
flags-alone h ms a l = rw (a, le→leb _ _ l) refl

pub flags-two :
    (h : ℕ) (ms : List Bool)
    → any ms ≡ true
    → 2 ^ h < length ms
    → flags (suc h) ms ≡ true ∷ (flags h (take (2 ^ h) ms) ++ flags h (drop (2 ^ h) ms))
unfolding flags
flags-two h ms a l = rw (a, lt→leb-false _ _ l) refl

-- The leaves with their flags set, and the positions of these.
unfoldable pub selected : List (List ℕ) → List Bool → List (List ℕ)
selected [] ms = []
selected (x ∷ xs) [] = []
selected (x ∷ xs) (m ∷ ms) = if m then x ∷ selected xs ms else selected xs ms

unfoldable pub positions : ℕ → List Bool → List ℕ
positions base [] = []
positions base (m ∷ ms) = if m then base ∷ positions (base + 1) ms else positions (base + 1) ms

module _ (sha256d : List ℕ → List ℕ) where
  unfoldable pub kept : ℕ → List (List ℕ) → List Bool → List (List ℕ)
  kept zero xs ms = tree_root sha256d 0 xs ∷ []
  kept (suc h) xs ms =
      let left = kept h (take (2 ^ h) xs) (take (2 ^ h) ms) in
      let right = kept h (drop (2 ^ h) xs) (drop (2 ^ h) ms) in
      if any ms
      then (if leb (length ms) (2 ^ h) then left else left ++ right)
      else tree_root sha256d (suc h) xs ∷ []

  -- There are at most as many hashes as leaves, and as many as flags.
  pub length-kept :
      (h : ℕ) (xs : List (List ℕ)) (ms : List Bool)
      → length xs ≡ length ms
      → 0 < length xs
      → length (kept h xs ms) ≤ length xs
  unfolding kept
  length-kept zero xs ms e l = omega arith
  length-kept (suc h) xs ms e l =
      let p = pow_pos h in
      let left = length-kept h (take (2 ^ h) xs) (take (2 ^ h) ms) in
      let right = length-kept h (drop (2 ^ h) xs) (drop (2 ^ h) ms) in
      elim (Bool-cases (any ms)) [
        | inr none ↦ rw none (omega arith)
        | inl some ↦ elim (Bool-cases (leb (length ms) (2 ^ h))) [
          | inl small ↦
              let a = length-take (2 ^ h) xs in
              let b = length-take (2 ^ h) ms in
              rw (some, small)
                (omega (arith, left (omega (arith, a, b, e)) (omega (arith, a, l, p)), a))
          | inr big ↦
              let a = length-take (2 ^ h) xs in
              let b = length-take (2 ^ h) ms in
              let c = length-drop (2 ^ h) xs in
              let d = length-drop (2 ^ h) ms in
              let more = leb-false _ _ big in
              rw (some, big)
                (omega (
                  arith,
                  left (omega (arith, a, b, e)) (omega (arith, a, l, p)),
                  right (omega (arith, c, d, e)) (omega (arith, c, more, e)),
                  a,
                  c,
                  length-append {0},
                ))
        ]
      ]

  pub length-kept-flags :
      (h : ℕ) (xs : List (List ℕ)) (ms : List Bool) → length (kept h xs ms) ≤ length (flags h ms)
  unfolding kept flags
  length-kept-flags zero xs ms = omega arith
  length-kept-flags (suc h) xs ms =
      let left = length-kept-flags h (take (2 ^ h) xs) (take (2 ^ h) ms) in
      let right = length-kept-flags h (drop (2 ^ h) xs) (drop (2 ^ h) ms) in
      elim (Bool-cases (any ms)) [
        | inr none ↦ rw none (omega arith)
        | inl some ↦ elim (Bool-cases (leb (length ms) (2 ^ h))) [
          | inl small ↦ rw (some, small) (omega (arith, left))
          | inr big ↦ rw (some, big) (omega (arith, left, right, length-append {0}))
        ]
      ]

  pub kept-nothing :
      (h : ℕ) (xs : List (List ℕ)) (ms : List Bool)
      → any ms ≡ false
      → kept (suc h) xs ms ≡ tree_root sha256d (suc h) xs ∷ []
  unfolding kept
  kept-nothing h xs ms a = rw a refl

  pub kept-alone :
      (h : ℕ) (xs : List (List ℕ)) (ms : List Bool)
      → any ms ≡ true
      → length ms ≤ 2 ^ h
      → kept (suc h) xs ms ≡ kept h (take (2 ^ h) xs) (take (2 ^ h) ms)
  unfolding kept
  kept-alone h xs ms a l = rw (a, le→leb _ _ l) refl

  pub kept-two :
      (h : ℕ) (xs : List (List ℕ)) (ms : List Bool)
      → any ms ≡ true
      → 2 ^ h < length ms
      → kept (suc h) xs ms
        ≡ kept h (take (2 ^ h) xs) (take (2 ^ h) ms) ++ kept h (drop (2 ^ h) xs) (drop (2 ^ h) ms)
  unfolding kept
  kept-two h xs ms a l = rw (a, lt→leb-false _ _ l) refl

  pub tree_root-alone :
      (h : ℕ) (xs : List (List ℕ))
      → length xs ≤ 2 ^ h
      → tree_root sha256d (suc h) xs
        ≡ node sha256d
            (tree_root sha256d h (take (2 ^ h) xs))
            (tree_root sha256d h (take (2 ^ h) xs))
  unfolding tree_root
  tree_root-alone h xs l = rw (le→leb _ _ l) refl

  pub tree_root-two :
      (h : ℕ) (xs : List (List ℕ))
      → 2 ^ h < length xs
      → tree_root sha256d (suc h) xs
        ≡ node sha256d
            (tree_root sha256d h (take (2 ^ h) xs))
            (tree_root sha256d h (drop (2 ^ h) xs))
  unfolding tree_root
  tree_root-two h xs l = rw (lt→leb-false _ _ l) refl
