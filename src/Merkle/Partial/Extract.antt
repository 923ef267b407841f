-- ===== src/Merkle/Partial/Extract.antt =====
-- `traverse_and_extract` of bitcoin/src/merkle_tree/block.rs, on flags and hashes that were stored for the
-- leaves below a node, finds the leaves with their flags set.
use rust_dogecoin.Common.{
  ℕ, zero, suc, ◌≡◌, ◌≢◌, ◌<◌, ◌≤◌, ◌+◌, ◌*◌, ◌^◌, List, [], ◌∷◌, ◌++◌, Bool, true, false, not,
  length, drop, ltb, leb, refl, arith, ap, sym, ◌∙◌, Bool-cases, inl, inr, leb-false, leb→le,
  append_assoc,
}
use rust_dogecoin.Common.Bits.{pow_double}
use rust_dogecoin.Common.Results.{ok}
use rust_dogecoin.Merkle.Tree.{tree_root}
use rust_dogecoin.Merkle.{node}
use rust_dogecoin.Merkle.Partial.{
  PartialMerkleTree, Extraction, calc_tree_width, traverse_and_extract,
}
use rust_dogecoin.Merkle.Partial.Levels.{
  any, below, below_left, below_right, right_child, length-below, second_leaves,
}
use rust_dogecoin.Merkle.Partial.Shape.{
  tree_root-two, tree_root-alone, kept-nothing, flags-nothing, flags, kept, selected, positions,
}
use rust_dogecoin.Merkle.Partial.Moves.{
  past, moved, moved_twice, selected_none, positions_none, moved_thrice, flags_left, flags_both,
  left_alone, left_base, selected_both, positions_both,
}
use rust_dogecoin.Merkle.Partial.Steps.{
  IsDistinct, extracted, traverse_leaves, traverse_nothing, traverse_alone, traverse_two, kept_left,
  kept_both,
}

module _ (sha256d : List ℕ → List ℕ) where
  -- The traversal of a node whose leaves, some of them set, are all below its left child.
  extract_left :
      (h pos : ℕ) (xs : List (List ℕ)) (ms : List Bool) (t : PartialMerkleTree) (e : Extraction)
      (bs : List Bool)
      → any (below (suc h) pos ms) ≡ true
      → length (below (suc h) pos ms) ≤ 2 ^ h
      → length (below (suc h) pos xs) ≤ 2 ^ h
      → drop e.bits_used t.bits ≡ true ∷ bs
      → ltb (pos * 2 + 1) (calc_tree_width t.num_transactions h) ≡ false
      → traverse_and_extract sha256d t h (pos * 2) (moved e (true ∷ []) [] [] [])
        ≡ ok (
          tree_root sha256d h (below h (pos * 2) xs),
          extracted sha256d h
              (pos * 2)
              (below h (pos * 2) xs)
              (below h (pos * 2) ms)
              (moved e (true ∷ []) [] [] []),
        )
      → traverse_and_extract sha256d t (suc h) pos e
        ≡ ok (
          tree_root sha256d (suc h) (below (suc h) pos xs),
          extracted sha256d (suc h) pos (below (suc h) pos xs) (below (suc h) pos ms) e,
        )
  extract_left h pos xs ms t e bs a few few' p test left =
      rw
        (
          flags_left h pos ms a few,
          kept_left sha256d h pos xs ms a few,
          tree_root-alone sha256d h (below (suc h) pos xs) few',
          below_left h pos xs,
          left_alone h pos xs few',
          left_alone h pos ms few,
          left_base h pos,
        )
        (traverse_alone sha256d t h pos e _ _ bs p test left
          ∙ ap
              (λ x. ok (
                node sha256d (tree_root sha256d h (below h (pos * 2) xs))
                    (tree_root sha256d h (below h (pos * 2) xs)),
                x,
              ))
              (moved_twice e (true ∷ []) (flags h (below h (pos * 2) ms)) []
                (kept sha256d h (below h (pos * 2) xs) (below h (pos * 2) ms)) []
                (selected (below h (pos * 2) xs) (below h (pos * 2) ms)) []
                (positions (pos * 2 * 2 ^ h) (below h (pos * 2) ms))))

  -- The traversal of a node with two children and a leaf that is set.
  extract_both :
      (h pos : ℕ) (xs : List (List ℕ)) (ms : List Bool) (t : PartialMerkleTree) (e : Extraction)
      (bs : List Bool)
      → any (below (suc h) pos ms) ≡ true
      → 2 ^ h < length (below (suc h) pos ms)
      → 2 ^ h < length (below (suc h) pos xs)
      → tree_root sha256d h (below h (pos * 2 + 1) xs) ≢ tree_root sha256d h (below h (pos * 2) xs)
      → drop e.bits_used t.bits ≡ true ∷ bs
      → ltb (pos * 2 + 1) (calc_tree_width t.num_transactions h) ≡ true
      → traverse_and_extract sha256d t h (pos * 2) (moved e (true ∷ []) [] [] [])
        ≡ ok (
          tree_root sha256d h (below h (pos * 2) xs),
          extracted sha256d h
              (pos * 2)
              (below h (pos * 2) xs)
              (below h (pos * 2) ms)
              (moved e (true ∷ []) [] [] []),
        )
      → traverse_and_extract sha256d t h (pos * 2 + 1) (
          extracted sha256d h
            (pos * 2)
            (below h (pos * 2) xs)
            (below h (pos * 2) ms)
            (moved e (true ∷ []) [] [] []))
        ≡ ok (
          tree_root sha256d h (below h (pos * 2 + 1) xs),
          extracted sha256d h (pos * 2 + 1) (below h (pos * 2 + 1) xs) (below h (pos * 2 + 1) ms) (
              extracted sha256d h
                (pos * 2)
                (below h (pos * 2) xs)
                (below h (pos * 2) ms)
                (moved e (true ∷ []) [] [] [])),
        )
      → traverse_and_extract sha256d t (suc h) pos e
        ≡ ok (
          tree_root sha256d (suc h) (below (suc h) pos xs),
          extracted sha256d (suc h) pos (below (suc h) pos xs) (below (suc h) pos ms) e,
        )
  extract_both h pos xs ms t e bs a more more' differ p test left right =
      rw
        (
          flags_both h pos ms a more,
          kept_both sha256d h pos xs ms a more,
          tree_root-two sha256d h (below (suc h) pos xs) more',
          selected_both h pos xs ms,
          positions_both h pos ms,
          below_left h pos xs,
          below_right h pos xs,
        )
        (traverse_two sha256d t h pos e _ _ _ _ bs p test left right differ
          ∙ ap
              (λ x. ok (
                node sha256d (tree_root sha256d h (below h (pos * 2) xs))
                    (tree_root sha256d h (below h (pos * 2 + 1) xs)),
                x,
              ))
              (moved_thrice e true (flags h (below h (pos * 2) ms))
                (flags h (below h (pos * 2 + 1) ms))
                (kept sha256d h (below h (pos * 2) xs) (below h (pos * 2) ms))
                (kept sha256d h (below h (pos * 2 + 1) xs) (below h (pos * 2 + 1) ms))
                (selected (below h (pos * 2) xs) (below h (pos * 2) ms))
                (selected (below h (pos * 2 + 1) xs) (below h (pos * 2 + 1) ms))
                (positions (pos * 2 * 2 ^ h) (below h (pos * 2) ms))
                (positions ((pos * 2 + 1) * 2 ^ h) (below h (pos * 2 + 1) ms))))

  pub traverse_and_extract_lem :
      (h pos : ℕ) (xs : List (List ℕ)) (ms : List Bool) (t : PartialMerkleTree) (e : Extraction)
      (ba : List Bool) (ha : List (List ℕ))
      → length xs ≡ length ms
      → t.num_transactions ≡ length xs
      → length xs ≤ 2 ^ 31
      → h ≤ 31
      → pos * 2 ^ h < length xs
      → IsDistinct sha256d h (below h pos xs)
      → drop e.bits_used t.bits ≡ flags h (below h pos ms) ++ ba
      → drop e.hash_used t.hashes ≡ kept sha256d h (below h pos xs) (below h pos ms) ++ ha
      → traverse_and_extract sha256d t h pos e
        ≡ ok (
          tree_root sha256d h (below h pos xs),
          extracted sha256d h pos (below h pos xs) (below h pos ms) e,
        )
  traverse_and_extract_lem zero pos xs ms t e ba ha same n b c l d p q =
      let one : pos * 1 ≡ pos = omega arith in
      let lone : length (below 0 pos xs) ≡ 1 = ground (arith, length-below 0 pos xs) in
      let lone' : length (below 0 pos ms) ≡ 1 = ground (arith, length-below 0 pos ms) in
      let r =
        traverse_leaves sha256d t pos e (below 0 pos xs) (below 0 pos ms) ba ha lone lone' p q in
      r
      ∙ ap
          (λ k. ok (
            tree_root sha256d 0 (below 0 pos xs),
            moved e (flags 0 (below 0 pos ms)) (kept sha256d 0 (below 0 pos xs) (below 0 pos ms))
                (selected (below 0 pos xs) (below 0 pos ms)) (positions k (below 0 pos ms)),
          ))
          (sym one)
  traverse_and_extract_lem (suc h) pos xs ms t e ba ha same n b c l (dl, dr) p q =
      let test : ltb (pos * 2 + 1) (calc_tree_width t.num_transactions h)
          ≡ not (leb (length (below (suc h) pos ms)) (2 ^ h)) =
        rw (n, same) (right_child h pos ms (omega (arith, same, b)) (omega arith)) in
      let equal : length (below (suc h) pos xs) ≡ length (below (suc h) pos ms) =
        rw (length-below (suc h) pos xs, length-below (suc h) pos ms, same) refl in
      let q2 : pos * 2 * 2 ^ h < length xs =
        omega (arith, l, ap (λ (k : ℕ). pos * k) (pow_double h)) in
      elim (Bool-cases (any (below (suc h) pos ms))) [
        | inr nothing ↦
            let root = tree_root sha256d (suc h) (below (suc h) pos xs) in
            rw
              (
                flags-nothing h _ nothing,
                kept-nothing sha256d h (below (suc h) pos xs) _ nothing,
                selected_none (below (suc h) pos xs) _ nothing,
                positions_none (pos * 2 ^ suc h) _ nothing,
              )
              (traverse_nothing sha256d t h pos e root ba ha
                (p ∙ ap (λ l. l ++ ba) (flags-nothing h _ nothing))
                (q ∙ ap (λ l. l ++ ha) (kept-nothing sha256d h (below (suc h) pos xs) _ nothing)))
        | inl some_match ↦ elim (Bool-cases (leb (length (below (suc h) pos ms)) (2 ^ h))) [
          | inl alone ↦
              let few : length (below (suc h) pos ms) ≤ 2 ^ h = leb→le _ _ alone in
              let p' = p ∙ ap (λ l. l ++ ba) (flags_left h pos ms some_match few) in
              let q' = q ∙ ap (λ l. l ++ ha) (kept_left sha256d h pos xs ms some_match few) in
              extract_left h pos xs ms t e _ some_match few (omega (arith, equal, few)) p'
                (rw alone at test)
                (traverse_and_extract_lem h (pos * 2) xs ms t (moved e (true ∷ []) [] [] []) ba ha
                  same n b (omega arith) q2 (rw (below_left h pos xs) at dl)
                  (past e.bits_used t.bits (true ∷ []) _ p') (past e.hash_used t.hashes [] _ q'))
          | inr two ↦
              let more : 2 ^ h < length (below (suc h) pos ms) = leb-false _ _ two in
              let (differ, dr') = dr (omega (arith, equal, more)) in
              let p' = p ∙ ap (λ l. l ++ ba) (flags_both h pos ms some_match more) in
              let q' = q ∙ ap (λ l. l ++ ha) (kept_both sha256d h pos xs ms some_match more) in
              let pl =
                past e.bits_used t.bits (true ∷ []) _ p'
                ∙ append_assoc (flags h (below h (pos * 2) ms)) (flags h (below h (pos * 2 + 1) ms))
                    ba in
              let ql =
                past e.hash_used t.hashes [] _ q'
                ∙ append_assoc (kept sha256d h (below h (pos * 2) xs) (below h (pos * 2) ms))
                    (kept sha256d h (below h (pos * 2 + 1) xs) (below h (pos * 2 + 1) ms)) ha in
              extract_both h pos xs ms t e _ some_match more (omega (arith, equal, more))
                (rw (below_left h pos xs, below_right h pos xs) at differ) p' (rw two at test)
                (traverse_and_extract_lem h (pos * 2) xs ms t (moved e (true ∷ []) [] [] []) _ _
                  same n b (omega arith) q2 (rw (below_left h pos xs) at dl) pl ql)
                (traverse_and_extract_lem h (pos * 2 + 1) xs ms t
                  (extracted sha256d h (pos * 2) (below h (pos * 2) xs) (below h (pos * 2) ms)
                    (moved e (true ∷ []) [] [] []))
                  ba ha same n b (omega arith) (omega (arith, same, second_leaves h pos ms more))
                  (rw (below_right h pos xs) at dr') (past _ t.bits _ _ pl)
                  (past _ t.hashes _ _ ql))
        ]
      ]
