-- ===== src/Merkle/Partial/Build.antt =====
-- `traverse_and_build` of bitcoin/src/merkle_tree/block.rs stores the flags and the hashes of the leaves
-- below a node.
use rust_dogecoin.Common.{
  leb-false, ℕ, zero, suc, ◌≡◌, ◌<◌, ◌≤◌, ◌+◌, ◌-◌, ◌*◌, ◌%◌, ◌^◌, List, [], ◌∷◌, ◌++◌, ◌==◌, Bool,
  true, false, not, ◌||◌, some, length, take, drop, ltb, leb, refl, arith, ap, sym, ◌∙◌, Bool-cases,
  inl, inr, get_elem?, ltb→lt, ltb-false, length-drop, append_assoc,
}
use rust_dogecoin.Common.Bits.{pow_double}
use rust_dogecoin.Merkle.Tree.{tree_root}
use rust_dogecoin.Merkle.Partial.{
  PartialMerkleTree, calc_tree_width, calc_tree_height, match_loop, is_parent_of_match, calc_hash,
  push_bit, push_hash, store_hash, traverse_and_build, from_txids,
}
use rust_dogecoin.Merkle.Partial.Levels.{
  any, below, below_left, below_right, right_child, second_leaves, take_beyond, pow_le,
  calc_tree_height_lem, calc_tree_height-le, below_root, second_leaves,
}
use rust_dogecoin.Merkle.Partial.Shape.{flags, kept}

or_assoc : (a b c : Bool) → (a || b || c) ≡ (a || (b || c))
or_assoc true b c = refl
or_assoc false b c = refl

or_false : (a : Bool) → (a || false) ≡ a
or_false true = refl
or_false false = refl

match_loop_lem :
    (rounds p : ℕ) (acc : Bool) (ms : List Bool)
    → p + rounds ≤ length ms
    → match_loop rounds p acc ms ≡ some (acc || any (take rounds (drop p ms)))
unfolding match_loop
match_loop_lem zero p acc ms h = ap some (sym (or_false acc))
match_loop_lem (suc rounds) p acc ms h =
    let (m, e, d) = at_place p ms (omega arith) in
    rw (e, d)
      (match_loop_lem rounds (suc p) (acc || m) ms (omega arith)
        ∙ ap some (or_assoc acc m (any (take rounds (drop (suc p) ms)))))
  where
    at_place :
        (p : ℕ) (ms : List Bool)
        → p < length ms
        → (m : Bool) × (get_elem? ms p ≡ some m) × (drop p ms ≡ m ∷ drop (suc p) ms)
    at_place p [] h = absurd (omega arith)
    at_place zero (m ∷ ms) h = (m, refl, refl)
    at_place (suc p) (m ∷ ms) h = at_place p ms (omega arith)

is_parent_of_match_lem :
    (h pos : ℕ) (ms : List Bool)
    → length ms ≤ 2 ^ 31
    → h ≤ 31
    → pos * 2 ^ h < length ms
    → is_parent_of_match (length ms) h pos ms ≡ some (any (below h pos ms))
unfolding is_parent_of_match
is_parent_of_match_lem h pos ms b c l =
    let p = pow_le h 31 c in
    let s : pos * 2 ^ h % 2 ^ 32 ≡ pos * 2 ^ h = omega (arith, l, b) in
    let f : (pos + 1) * 2 ^ h ≡ pos * 2 ^ h + 2 ^ h = omega arith in
    let e : (pos * 2 ^ h + 2 ^ h) % 2 ^ 32 ≡ pos * 2 ^ h + 2 ^ h = omega (arith, l, b, p) in
    elim (Bool-cases (ltb (pos * 2 ^ h + 2 ^ h) (length ms))) [
      | inl inside ↦
          let r : pos * 2 ^ h + 2 ^ h - pos * 2 ^ h ≡ 2 ^ h = omega arith in
          rw (f, s, e, inside, r)
            (match_loop_lem (2 ^ h) (pos * 2 ^ h) false ms (omega (arith, ltb→lt _ _ inside)))
      | inr past ↦
          let few : length (drop (pos * 2 ^ h) ms) ≤ 2 ^ h =
            omega (arith, length-drop (pos * 2 ^ h) ms, ltb-false _ _ past) in
          let all : length (drop (pos * 2 ^ h) ms) ≤ length ms - pos * 2 ^ h =
            omega (arith, length-drop (pos * 2 ^ h) ms) in
          rw (f, s, e, past, take_beyond (2 ^ h) _ few)
            (match_loop_lem (length ms - pos * 2 ^ h) (pos * 2 ^ h) false ms (omega (arith, l))
              ∙ ap (λ l. some (any l)) (take_beyond _ _ all))
    ]

module _ (sha256d : List ℕ → List ℕ) where
  leaf :
      (pos : ℕ) (xs : List (List ℕ))
      → pos < length xs
      → get_elem? xs pos ≡ some (tree_root sha256d 0 (take 1 (drop pos xs)))
  unfolding tree_root
  leaf pos [] h = absurd (omega arith)
  leaf zero (x ∷ xs) h = refl
  leaf (suc pos) (x ∷ xs) h = leaf pos xs (omega arith)

  pub calc_hash_lem :
      (h pos : ℕ) (xs : List (List ℕ))
      → length xs ≤ 2 ^ 31
      → h ≤ 31
      → pos * 2 ^ h < length xs
      → calc_hash sha256d (length xs) h pos xs ≡ some (tree_root sha256d h (below h pos xs))
  unfolding calc_hash tree_root
  calc_hash_lem zero pos xs b c l =
      let e : pos * 1 ≡ pos = omega arith in rw e (leaf pos xs (omega arith))
  calc_hash_lem (suc h) pos xs b c l =
      let n = length xs in
      let q : pos * 2 * 2 ^ h < n = omega (arith, l, ap (λ (t : ℕ). pos * t) (pow_double h)) in
      let left = calc_hash_lem h (pos * 2) xs b (omega arith) q in
      let test = right_child h pos xs b (omega arith) in
      elim (Bool-cases (leb (length (below (suc h) pos xs)) (2 ^ h))) [
        | inl alone ↦ rw (left, test, alone, below_left h pos xs) refl
        | inr two ↦
            let n = leb-false _ _ two in
            let right =
              calc_hash_lem h (pos * 2 + 1) xs b (omega arith) (second_leaves h pos xs n) in
            rw (left, test, two, below_left h pos xs, below_right h pos xs, right) refl
      ]

  -- A tree with more flags and hashes.
  abbrev grown : PartialMerkleTree → List Bool → List (List ℕ) → PartialMerkleTree
  grown t bs hs = record t { bits = t.bits ++ bs; hashes = t.hashes ++ hs }

  store_hash_lem :
      (h pos : ℕ) (xs : List (List ℕ)) (t : PartialMerkleTree) (b : Bool)
      → t.num_transactions ≡ length xs
      → length xs ≤ 2 ^ 31
      → h ≤ 31
      → pos * 2 ^ h < length xs
      → store_hash sha256d h pos xs (push_bit t b)
        ≡ some (grown t (b ∷ []) (tree_root sha256d h (below h pos xs) ∷ []))
  unfolding store_hash push_bit push_hash
  store_hash_lem h pos xs t b e k c l = rw (e, calc_hash_lem h pos xs k c l) refl

  grown_twice :
      (t : PartialMerkleTree) (b : Bool) (bs bs' : List Bool) (hs hs' : List (List ℕ))
      → grown (grown (push_bit t b) bs hs) bs' hs' ≡ grown t (b ∷ (bs ++ bs')) (hs ++ hs')
  unfolding push_bit
  grown_twice t b bs bs' hs hs' = simp append_assoc refl

  grown_once :
      (t : PartialMerkleTree) (b : Bool) (bs : List Bool) (hs : List (List ℕ))
      → grown (push_bit t b) bs hs ≡ grown t (b ∷ bs) hs
  unfolding push_bit
  grown_once t b bs hs = simp append_assoc refl

  traverse_and_build_lem :
      (h pos : ℕ) (xs : List (List ℕ)) (ms : List Bool) (t : PartialMerkleTree)
      → length xs ≡ length ms
      → t.num_transactions ≡ length xs
      → length xs ≤ 2 ^ 31
      → h ≤ 31
      → pos * 2 ^ h < length xs
      → traverse_and_build sha256d h pos xs ms t
        ≡ some
            (grown t (flags h (below h pos ms)) (kept sha256d h (below h pos xs) (below h pos ms)))
  unfolding traverse_and_build flags kept push_bit
  traverse_and_build_lem zero pos xs ms t e n b c l =
      let m : is_parent_of_match t.num_transactions 0 pos ms ≡ some (any (below 0 pos ms)) =
        rw (n, e) (is_parent_of_match_lem 0 pos ms (omega (arith, e, b)) c (omega (arith, e, l))) in
      rw m (store_hash_lem 0 pos xs t _ n b c l)
  traverse_and_build_lem (suc h) pos xs ms t e n b c l =
      let m : is_parent_of_match t.num_transactions (suc h) pos ms
          ≡ some (any (below (suc h) pos ms)) =
        rw (n, e)
          (is_parent_of_match_lem (suc h) pos ms (omega (arith, e, b)) c (omega (arith, e, l))) in
      let q : pos * 2 * 2 ^ h < length xs =
        omega (arith, l, ap (λ (k : ℕ). pos * k) (pow_double h)) in
      let left = traverse_and_build_lem h (pos * 2) xs ms (push_bit t true) e n b (omega arith) q in
      let test : ltb (pos * 2 + 1) (calc_tree_width t.num_transactions h)
          ≡ not (leb (length (below (suc h) pos ms)) (2 ^ h)) =
        rw (n, e) (right_child h pos ms (omega (arith, e, b)) (omega arith)) in
      elim (Bool-cases (any (below (suc h) pos ms))) [
        | inr nothing ↦ rw (m, nothing) (store_hash_lem (suc h) pos xs t false n b c l)
        | inl some_match ↦ elim (Bool-cases (leb (length (below (suc h) pos ms)) (2 ^ h))) [
          | inl alone ↦
              rw (m, some_match, left, test, alone, below_left h pos ms, below_left h pos xs)
                (ap some (grown_once t true _ _))
          | inr two ↦
              let right =
                traverse_and_build_lem h (pos * 2 + 1) xs ms
                  (grown (push_bit t true) (flags h (below h (pos * 2) ms))
                    (kept sha256d h (below h (pos * 2) xs) (below h (pos * 2) ms)))
                  e n b (omega arith)
                  (omega (arith, e, second_leaves h pos ms (leb-false _ _ two))) in
              rw
                (
                  m,
                  some_match,
                  left,
                  test,
                  two,
                  right,
                  below_left h pos ms,
                  below_left h pos xs,
                  below_right h pos ms,
                  below_right h pos xs,
                )
                (ap some (grown_twice t true _ _ _ _))
        ]
      ]

  -- The tree that is built for the leaves and their flags.
  abbrev pub built : List (List ℕ) → List Bool → PartialMerkleTree
  built xs ms = record {
    num_transactions = length xs;
    bits = flags (calc_tree_height (length xs)) ms;
    hashes = kept sha256d (calc_tree_height (length xs)) xs ms;
  }

  pub from_txids-built :
      (xs : List (List ℕ)) (ms : List Bool)
      → 0 < length xs
      → length xs ≤ 2 ^ 31
      → length xs ≡ length ms
      → from_txids sha256d xs ms ≡ some (built xs ms)
  unfolding from_txids
  from_txids-built xs ms l b e =
      let n : length xs % 2 ^ 32 ≡ length xs = omega (arith, b) in
      let some_txids : (length xs == 0) ≡ false = ground arith in
      let same : (length xs == length ms) ≡ true = ground arith in
      let h = calc_tree_height (length xs) in
      let (low, high) = calc_tree_height_lem (length xs) l b in
      let z : 0 * 2 ^ h < length xs = omega (arith, l) in
      let start =
        traverse_and_build_lem h 0 xs ms
          (record { num_transactions = length xs; bits = []; hashes = [] }) e refl b
          (calc_tree_height-le (length xs) l b) z in
      rw (n, some_txids, same)
        (rw (below_root h xs low, below_root h ms (omega (arith, low, e))) at start)
