-- ===== src/Merkle/Tree.antt =====
-- The root of bitcoin/src/merkle_tree/mod.rs as the root of a binary tree, described from the top.
use rust_dogecoin.Common.{
  leb→le, leb-false, length-drop, false, length-take, inr, inl, Bool-cases, sym, ℕ, zero, suc, ◌≡◌,
  ◌<◌, ◌≤◌, ◌+◌, ◌*◌, ◌/◌, ◌^◌, List, [], ◌∷◌, some, length, take, drop, refl, arith, ◌∙◌, ap, leb,
  if◌then◌else◌,
}
use rust_dogecoin.Common.Bits.{pow_double, pow_pos}
use rust_dogecoin.Merkle.{node, pair_up, merkle_root_r, calculate_root, calculate_root_inline}
use rust_dogecoin.Merkle.InPlace.{length-pair_up, merkle_root_r-pair_up}

module _ (sha256d : List ℕ → List ℕ) where
  -- The root of a tree of the given height over the leaves: a right subtree without a leaf is a copy of
  -- the left one.
  unfoldable pub tree_root : ℕ → List (List ℕ) → List ℕ
  tree_root zero [] = []
  tree_root zero (x ∷ xs) = x
  tree_root (suc height) xs =
      let left = tree_root height (take (2 ^ height) xs) in
      let right = tree_root height (drop (2 ^ height) xs) in
      node sha256d left (if leb (length xs) (2 ^ height) then left else right)

  abbrev no_leaves : List (List ℕ)
  no_leaves = []

  take-none : (k : ℕ) → take k no_leaves ≡ []
  take-none zero = refl
  take-none (suc k) = refl

  drop-none : (k : ℕ) → drop k no_leaves ≡ []
  drop-none zero = refl
  drop-none (suc k) = refl

  take-pair_up :
      (k : ℕ) (xs : List (List ℕ)) → pair_up sha256d (take (2 * k) xs) ≡ take k (pair_up sha256d xs)
  unfolding pair_up
  take-pair_up zero xs = refl
  take-pair_up (suc k) [] = let e : 2 * suc k ≡ suc (suc (2 * k)) = omega arith in rw e refl
  take-pair_up (suc k) (x ∷ []) =
      let e : 2 * suc k ≡ suc (suc (2 * k)) = omega arith in
      rw e (ap (λ l. node sha256d x x ∷ l) (sym (take-none k)))
  take-pair_up (suc k) (x ∷ y ∷ xs) =
      let e : 2 * suc k ≡ suc (suc (2 * k)) = omega arith in
      rw e (ap (λ l. node sha256d x y ∷ l) (take-pair_up k xs))

  drop-pair_up :
      (k : ℕ) (xs : List (List ℕ)) → pair_up sha256d (drop (2 * k) xs) ≡ drop k (pair_up sha256d xs)
  unfolding pair_up
  drop-pair_up zero xs = refl
  drop-pair_up (suc k) [] = let e : 2 * suc k ≡ suc (suc (2 * k)) = omega arith in rw e refl
  drop-pair_up (suc k) (x ∷ []) =
      let e : 2 * suc k ≡ suc (suc (2 * k)) = omega arith in rw e (sym (drop-none k))
  drop-pair_up (suc k) (x ∷ y ∷ xs) =
      let e : 2 * suc k ≡ suc (suc (2 * k)) = omega arith in rw e (drop-pair_up k xs)

  tree_root_step :
      (height : ℕ) (xs : List (List ℕ))
      → tree_root (suc height) xs
        ≡ node sha256d (tree_root height (take (2 ^ height) xs)) (
            if leb (length xs) (2 ^ height)
            then tree_root height (take (2 ^ height) xs)
            else tree_root height (drop (2 ^ height) xs))
  unfolding tree_root
  tree_root_step height xs = refl

  same_test :
      (height : ℕ) (xs : List (List ℕ))
      → leb (length (pair_up sha256d xs)) (2 ^ height) ≡ leb (length xs) (2 ^ suc height)
  same_test height xs =
      let n = length-pair_up sha256d xs in let p = pow_double height in rw (n, p) (grind arith)

  lone_leaves :
      (xs : List (List ℕ))
      → 0 < length xs
      → length xs ≤ 2
      → tree_root 1 xs ≡ tree_root 0 (pair_up sha256d xs)
  unfolding tree_root pair_up
  lone_leaves [] h k = absurd (omega arith)
  lone_leaves (x ∷ []) h k = refl
  lone_leaves (x ∷ y ∷ []) h k = refl
  lone_leaves (x ∷ y ∷ z ∷ xs) h k = absurd (omega arith)

  -- One level of pairs takes one off the height.
  pub tree_root-pair_up :
      (height : ℕ) (xs : List (List ℕ))
      → 0 < length xs
      → length xs ≤ 2 ^ suc height
      → tree_root (suc height) xs ≡ tree_root height (pair_up sha256d xs)
  tree_root-pair_up zero xs h k = lone_leaves xs h k
  tree_root-pair_up (suc height) xs h k =
      rw
        (
          tree_root_step (suc height) xs,
          tree_root_step height (pair_up sha256d xs),
          same_test height xs,
          ← take-pair_up (2 ^ height) xs,
          ← drop-pair_up (2 ^ height) xs,
          ← pow_double height,
          tree_root-pair_up height (take (2 ^ suc height) xs) left_some left_few,
        )
        (elim (Bool-cases (leb (length xs) (2 ^ suc height))) [
          | inl small ↦ rw small refl
          | inr big ↦
              rw
                (
                  big,
                  tree_root-pair_up height (drop (2 ^ suc height) xs) (right_some big) right_few,
                )
                refl
        ])
    where
      left_some : 0 < length (take (2 ^ suc height) xs)
      left_some = omega (arith, length-take (2 ^ suc height) xs, pow_pos (suc height))

      left_few : length (take (2 ^ suc height) xs) ≤ 2 ^ suc height
      left_few = omega (arith, length-take (2 ^ suc height) xs)

      right_some : leb (length xs) (2 ^ suc height) ≡ false → 0 < length (drop (2 ^ suc height) xs)
      right_some big =
          omega (arith, length-drop (2 ^ suc height) xs, leb-false (length xs) (2 ^ suc height) big)

      right_few : length (drop (2 ^ suc height) xs) ≤ 2 ^ suc height
      right_few = omega (arith, length-drop (2 ^ suc height) xs, pow_double (suc height))

  -- Enough fuel, and the recursion gives the root of the tree.
  merkle_root_r_lem :
      (height fuel : ℕ) (xs : List (List ℕ))
      → length xs ≤ fuel
      → length xs ≤ 2 ^ height
      → 2 ^ height < 2 * length xs
      → merkle_root_r sha256d fuel xs ≡ some (tree_root height xs)
  unfolding merkle_root_r tree_root
  merkle_root_r_lem height fuel [] f k l = absurd (omega arith)
  merkle_root_r_lem zero zero (x ∷ xs) f k l = absurd (omega arith)
  merkle_root_r_lem zero (suc fuel) (x ∷ []) f k l = refl
  merkle_root_r_lem zero (suc fuel) (x ∷ y ∷ xs) f k l = absurd (omega arith)
  merkle_root_r_lem (suc height) zero (x ∷ xs) f k l = absurd (omega arith)
  merkle_root_r_lem (suc height) (suc fuel) (x ∷ []) f k l =
      absurd (omega (arith, pow_double height, pow_pos height))
  merkle_root_r_lem (suc height) (suc fuel) (x ∷ y ∷ xs) f k l =
      merkle_root_r-pair_up sha256d fuel x y xs
      ∙ merkle_root_r_lem height fuel (pair_up sha256d (x ∷ y ∷ xs)) (omega (arith, half))
          (omega (arith, half, pow_double height)) (omega (arith, half, pow_double height))
      ∙ ap some (sym (tree_root-pair_up height (x ∷ y ∷ xs) (omega arith) k))
    where
      half : length (pair_up sha256d (x ∷ y ∷ xs)) ≡ (length xs + 3) / 2
      half = omega (arith, length-pair_up sha256d (x ∷ y ∷ xs))

  pub calculate_root_inline_lem :
      (height : ℕ) (xs : List (List ℕ))
      → length xs ≤ 2 ^ height
      → 2 ^ height < 2 * length xs
      → calculate_root_inline sha256d xs ≡ some (tree_root height xs)
  unfolding calculate_root_inline merkle_root_r
  calculate_root_inline_lem height [] k l = absurd (omega arith)
  calculate_root_inline_lem height (x ∷ []) k l =
      merkle_root_r_lem height 1 (x ∷ []) (omega arith) k l
  calculate_root_inline_lem height (x ∷ y ∷ xs) k l =
      merkle_root_r_lem height (length (x ∷ y ∷ xs)) (x ∷ y ∷ xs) (omega arith) k l

  pub calculate_root_lem :
      (height : ℕ) (xs : List (List ℕ))
      → length xs ≤ 2 ^ height
      → 2 ^ height < 2 * length xs
      → calculate_root sha256d xs ≡ some (tree_root height xs)
  unfolding calculate_root merkle_root_r
  calculate_root_lem height [] k l = absurd (omega arith)
  calculate_root_lem height (x ∷ []) k l = merkle_root_r_lem height 1 (x ∷ []) (omega arith) k l
  calculate_root_lem zero (x ∷ y ∷ xs) k l = absurd (omega arith)
  calculate_root_lem (suc height) (x ∷ y ∷ xs) k l =
      merkle_root_r_lem height _ (pair_up sha256d (x ∷ y ∷ xs)) (omega arith)
        (omega (arith, half, pow_double height)) (omega (arith, half, pow_double height))
      ∙ ap some (sym (tree_root-pair_up height (x ∷ y ∷ xs) (omega arith) k))
    where
      half : length (pair_up sha256d (x ∷ y ∷ xs)) ≡ (length xs + 3) / 2
      half = omega (arith, length-pair_up sha256d (x ∷ y ∷ xs))

  higher : (height n : ℕ) → 1 < n → 2 ^ height < 2 * ((n + 1) / 2) → 2 ^ suc height < 2 * n
  higher zero n h k = omega arith
  higher (suc height) n h k = omega (arith, pow_double height, pow_double (suc height))

  -- The height of the tree over `n` leaves.
  height_of :
      (fuel n : ℕ) → n ≤ fuel → 0 < n → (height : ℕ) × ((n ≤ 2 ^ height) × (2 ^ height < 2 * n))
  height_of zero n f h = absurd (omega arith)
  height_of (suc fuel) n f h = elim (Bool-cases (leb n 1)) [
    | inl one ↦ let e = leb→le n 1 one in (0, (omega arith, omega arith))
    | inr more ↦
        let e = leb-false n 1 more in
        let (height, (low, high)) = height_of fuel ((n + 1) / 2) (omega arith) (omega arith) in
        (suc height, (omega (arith, pow_double height), higher height n (omega arith) high))
  ]

  -- For a list of hashes that is not empty, some height whose power of two is at least the number
  -- of hashes and less than twice it has this: both computations of the root, the one in place
  -- included, end with the root of the binary tree of that height over the hashes.
  pub calculate_root_total :
      (xs : List (List ℕ))
      → 0 < length xs
      → (height : ℕ) × (length xs ≤ 2 ^ height)
        × (2 ^ height < 2 * length xs)
        × (calculate_root sha256d xs ≡ some (tree_root height xs))
        × (calculate_root_inline sha256d xs ≡ some (tree_root height xs))
  calculate_root_total xs h =
      let (height, (low, high)) = height_of (length xs) (length xs) (omega arith) h in
      (
        height,
        low,
        high,
        calculate_root_lem height xs low high,
        calculate_root_inline_lem height xs low high,
      )
