-- ===== src/Merkle/Partial/Levels.antt =====
-- The widths and the height of the tree in bitcoin/src/merkle_tree/block.rs, and the leaves below a node.
use rust_dogecoin.Common.{
  ℕ, zero, suc, ◌≡◌, ◌<◌, ◌≤◌, ◌+◌, ◌-◌, ◌*◌, ◌/◌, ◌%◌, ◌^◌, List, [], ◌∷◌, Bool, false, not, ◌||◌,
  length, take, drop, ltb, leb, refl, arith, ap, ◌∙◌, Bool-cases, inl, inr, ltb→lt, ltb-false,
  leb→le, leb-false, length-take, length-drop, drop-drop, if◌then◌else◌,
}
use rust_dogecoin.Common.Bits.{pow_double, pow_pos}
use rust_dogecoin.Merkle.Partial.{calc_tree_width, height_loop, calc_tree_height}
use native.Mathlib.Nat.{pow-le-pow_right}

pub pow_le : (h k : ℕ) → h ≤ k → 2 ^ h ≤ 2 ^ k
pow_le h k e = pow-le-pow_right {n = 2} (omega arith) e

rounded_up : (n p k : ℕ) → 0 < p → ltb k ((n + p - 1) / p) ≡ ltb (k * p) n
rounded_up n p k h = grind arith

-- A position is within a level when its first leaf is there.
pub ltb-calc_tree_width :
    (n h k : ℕ) → n ≤ 2 ^ 31 → h ≤ 31 → ltb k (calc_tree_width n h) ≡ ltb (k * 2 ^ h) n
unfolding calc_tree_width
ltb-calc_tree_width n h k b c =
    let p = pow_le h 31 c in
    let q = pow_pos h in
    let e : (n + 2 ^ h + 2 ^ 32 - 1) % 2 ^ 32 ≡ n + 2 ^ h - 1 = omega (arith, p, q, b) in
    rw e (rounded_up n (2 ^ h) k q)

height_loop_lem :
    (fuel n h : ℕ)
    → fuel + h ≡ 32
    → n ≤ 2 ^ 31
    → 2 ^ h < 2 * n
    → (n ≤ 2 ^ height_loop fuel n h) × (2 ^ height_loop fuel n h < 2 * n)
unfolding height_loop
height_loop_lem zero n h e b low =
    let f : h ≡ 32 = omega arith in absurd (omega (arith, rw f at low))
height_loop_lem (suc fuel) n h e b low =
    let w = ltb-calc_tree_width n h 1 b (omega arith) in
    elim (Bool-cases (ltb (1 * 2 ^ h) n)) [
      | inl more ↦
          rw (w, more)
            (height_loop_lem fuel n (suc h) (omega arith) b
              (omega (arith, pow_double h, ltb→lt _ n more)))
      | inr done ↦ rw (w, done) (omega (arith, ltb-false _ n done), low)
    ]

pub calc_tree_height_lem :
    (n : ℕ) → 0 < n → n ≤ 2 ^ 31 → (n ≤ 2 ^ calc_tree_height n) × (2 ^ calc_tree_height n < 2 * n)
unfolding calc_tree_height
calc_tree_height_lem n h b = height_loop_lem 32 n 0 (omega arith) b (omega arith)

pub calc_tree_height-le : (n : ℕ) → 0 < n → n ≤ 2 ^ 31 → calc_tree_height n ≤ 31
calc_tree_height-le n h b = elim (Bool-cases (leb (calc_tree_height n) 31)) [
  | inl e ↦ leb→le _ 31 e
  | inr e ↦
      let (low, high) = calc_tree_height_lem n h b in
      absurd (omega (arith, high, pow_le 32 (calc_tree_height n) (omega (arith, leb-false _ 31 e))))
]

module _ {ℓ} {A : Type ℓ} where
  pub take_beyond : (k : ℕ) (xs : List A) → length xs ≤ k → take k xs ≡ xs
  take_beyond zero [] h = refl
  take_beyond zero (x ∷ xs) h = absurd (omega arith)
  take_beyond (suc k) [] h = refl
  take_beyond (suc k) (x ∷ xs) h = ap (λ l. x ∷ l) (take_beyond k xs (omega arith))

  take_first : (a b : ℕ) (xs : List A) → take a (take (a + b) xs) ≡ take a xs
  take_first zero b xs = refl
  take_first (suc a) b [] = let e : suc a + b ≡ suc (a + b) = omega arith in rw e refl
  take_first (suc a) b (x ∷ xs) =
      let e : suc a + b ≡ suc (a + b) = omega arith in rw e (ap (λ l. x ∷ l) (take_first a b xs))

  drop_first : (a b : ℕ) (xs : List A) → drop a (take (a + b) xs) ≡ take b (drop a xs)
  drop_first zero b xs = let e : 0 + b ≡ b = omega arith in rw e refl
  drop_first (suc a) zero [] = let e : suc a + 0 ≡ suc a = omega arith in rw e refl
  drop_first (suc a) (suc b) [] = let e : suc a + suc b ≡ suc (a + suc b) = omega arith in rw e refl
  drop_first (suc a) b (x ∷ xs) =
      let e : suc a + b ≡ suc (a + b) = omega arith in rw e (drop_first a b xs)

  -- The leaves below the node at a height and a position.
  abbrev pub below : ℕ → ℕ → List A → List A
  below h pos xs = take (2 ^ h) (drop (pos * 2 ^ h) xs)

  pub below_left :
      (h pos : ℕ) (xs : List A) → take (2 ^ h) (below (suc h) pos xs) ≡ below h (pos * 2) xs
  below_left h pos xs =
      let e : 2 ^ suc h ≡ 2 ^ h + 2 ^ h = omega (arith, pow_double h) in
      let s : pos * 2 ^ suc h ≡ pos * 2 * 2 ^ h = rw (pow_double h) (omega arith) in
      rw (s, e) (take_first (2 ^ h) (2 ^ h) (drop (pos * 2 * 2 ^ h) xs))

  pub below_right :
      (h pos : ℕ) (xs : List A) → drop (2 ^ h) (below (suc h) pos xs) ≡ below h (pos * 2 + 1) xs
  below_right h pos xs =
      let e : 2 ^ suc h ≡ 2 ^ h + 2 ^ h = omega (arith, pow_double h) in
      let s : pos * 2 ^ suc h ≡ pos * 2 * 2 ^ h = rw (pow_double h) (omega arith) in
      let t : pos * 2 * 2 ^ h + 2 ^ h ≡ (pos * 2 + 1) * 2 ^ h = omega arith in
      rw (s, e)
        (drop_first (2 ^ h) (2 ^ h) (drop (pos * 2 * 2 ^ h) xs)
          ∙ ap (λ l. take (2 ^ h) l) (drop-drop (pos * 2 * 2 ^ h) (2 ^ h) xs ∙ rw t refl))

  pub length-below :
      (h pos : ℕ) (xs : List A)
      → length (below h pos xs)
        ≡ (if ltb (2 ^ h) (length xs - pos * 2 ^ h) then 2 ^ h else length xs - pos * 2 ^ h)
  length-below h pos xs =
      ground (arith, length-take (2 ^ h) (drop (pos * 2 ^ h) xs), length-drop (pos * 2 ^ h) xs)

  pub below_root : (h : ℕ) (xs : List A) → length xs ≤ 2 ^ h → below h 0 xs ≡ xs
  below_root h xs e = let z : 0 * 2 ^ h ≡ 0 = omega arith in rw z (take_beyond (2 ^ h) xs e)

  -- The test for a right child, on the leaves below its parent.
  pub right_child :
      (h pos : ℕ) (xs : List A)
      → length xs ≤ 2 ^ 31
      → h ≤ 31
      → ltb (pos * 2 + 1) (calc_tree_width (length xs) h)
        ≡ not (leb (length (below (suc h) pos xs)) (2 ^ h))
  right_child h pos xs b c =
      let e : (pos * 2 + 1) * 2 ^ h ≡ pos * 2 ^ suc h + 2 ^ h = rw (pow_double h) (omega arith) in
      rw (ltb-calc_tree_width (length xs) h (pos * 2 + 1) b c, e)
        (ground (arith, length-below (suc h) pos xs, pow_double h, pow_pos h))

  pub second_leaves :
      (h pos : ℕ) (xs : List A)
      → 2 ^ h < length (below (suc h) pos xs)
      → (pos * 2 + 1) * 2 ^ h < length xs
  second_leaves h pos xs k =
      let f : (pos * 2 + 1) * 2 ^ h ≡ pos * 2 ^ suc h + 2 ^ h = rw (pow_double h) (omega arith) in
      rw f (ground (arith, length-below (suc h) pos xs))

abbrev pub any : List Bool → Bool
any [] = false
any (b ∷ bs) = b || any bs
