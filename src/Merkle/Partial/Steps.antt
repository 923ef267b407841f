-- ===== src/Merkle/Partial/Steps.antt =====
-- One node of `traverse_and_extract` in bitcoin/src/merkle_tree/block.rs.
use rust_dogecoin.Common.{
  ℕ, zero, suc, ◌≡◌, ◌≢◌, ◌<◌, ◌≤◌, ◌+◌, ◌*◌, ◌^◌, List, [], ◌∷◌, ◌++◌, Bool, true, false, length,
  take, drop, ltb, refl, arith, ap, ◌∙◌, append-nil,
}
use rust_dogecoin.Common.Results.{ok}
use rust_dogecoin.Merkle.Tree.{tree_root}
use rust_dogecoin.Merkle.{node}
use rust_dogecoin.Merkle.Partial.{
  PartialMerkleTree, Extraction, calc_tree_width, leaf_found, join_right, traverse_and_extract,
}
use rust_dogecoin.Merkle.Partial.Levels.{any, below, below_left, below_right}
use rust_dogecoin.Merkle.Partial.Shape.{kept-two, kept-alone, flags, kept, selected, positions}
use rust_dogecoin.Merkle.Partial.Moves.{
  past, moved, next_bit_lem, next_hash_lem, moved_twice, bytes_eq_ne,
}

module _ (sha256d : List ℕ → List ℕ) where
  -- No node of the tree has two children with one hash.
  abbrev pub IsDistinct : ℕ → List (List ℕ) → Type 0
  IsDistinct zero xs = Unit {0}
  IsDistinct (suc h) xs =
      IsDistinct h (take (2 ^ h) xs)
      × (2 ^ h < length xs
          → (tree_root sha256d h (drop (2 ^ h) xs) ≢ tree_root sha256d h (take (2 ^ h) xs))
            × IsDistinct h (drop (2 ^ h) xs))

  -- The extraction after the part of the tree below a node.
  abbrev pub extracted : ℕ → ℕ → List (List ℕ) → List Bool → Extraction → Extraction
  extracted h pos xs ms x =
      moved x (flags h ms) (kept sha256d h xs ms) (selected xs ms) (positions (pos * 2 ^ h) ms)

  leaf_found_lem :
      (pos : ℕ) (x : List ℕ) (b : Bool) (e : Extraction)
      → leaf_found b pos (x, moved e (b ∷ []) (x ∷ []) [] [])
        ≡ (x, moved e (b ∷ []) (x ∷ []) (selected (x ∷ []) (b ∷ [])) (positions pos (b ∷ [])))
  unfolding selected positions
  leaf_found_lem pos x true e = rw (append-nil e.found, append-nil e.indexes) refl
  leaf_found_lem pos x false e = refl

  traverse_leaf :
      (t : PartialMerkleTree) (pos : ℕ) (e : Extraction) (x : List ℕ) (b : Bool) (ba : List Bool)
      (ha : List (List ℕ))
      → drop e.bits_used t.bits ≡ b ∷ ba
      → drop e.hash_used t.hashes ≡ x ∷ ha
      → traverse_and_extract sha256d t 0 pos e
        ≡ ok (x, moved e (b ∷ []) (x ∷ []) (selected (x ∷ []) (b ∷ [])) (positions pos (b ∷ [])))
  unfolding traverse_and_extract
  traverse_leaf t pos e x b ba ha p q =
      let h = next_hash_lem t (moved e (b ∷ []) [] [] []) x ha (past e.hash_used t.hashes [] _ q) in
      rw (next_bit_lem t e b ba p, h, moved_twice e (b ∷ []) [] [] (x ∷ []) [] [] [] [])
        (ap ok (leaf_found_lem pos x b e))

  pub traverse_leaves :
      (t : PartialMerkleTree) (pos : ℕ) (e : Extraction) (xs : List (List ℕ)) (ms ba : List Bool)
      (ha : List (List ℕ))
      → length xs ≡ 1
      → length ms ≡ 1
      → drop e.bits_used t.bits ≡ flags 0 ms ++ ba
      → drop e.hash_used t.hashes ≡ kept sha256d 0 xs ms ++ ha
      → traverse_and_extract sha256d t 0 pos e
        ≡ ok (
          tree_root sha256d 0 xs,
          moved e (flags 0 ms) (kept sha256d 0 xs ms) (selected xs ms) (positions pos ms),
        )
  unfolding flags kept tree_root
  traverse_leaves t pos e [] ms ba ha l k p q = absurd (omega arith)
  traverse_leaves t pos e (x ∷ y ∷ xs) ms ba ha l k p q = absurd (omega arith)
  traverse_leaves t pos e (x ∷ []) [] ba ha l k p q = absurd (omega arith)
  traverse_leaves t pos e (x ∷ []) (m ∷ n ∷ ms) ba ha l k p q = absurd (omega arith)
  traverse_leaves t pos e (x ∷ []) (true ∷ []) ba ha l k p q =
      traverse_leaf t pos e x true ba ha p q
  traverse_leaves t pos e (x ∷ []) (false ∷ []) ba ha l k p q =
      traverse_leaf t pos e x false ba ha p q

  pub traverse_nothing :
      (t : PartialMerkleTree) (h pos : ℕ) (e : Extraction) (r : List ℕ) (ba : List Bool)
      (ha : List (List ℕ))
      → drop e.bits_used t.bits ≡ false ∷ ba
      → drop e.hash_used t.hashes ≡ r ∷ ha
      → traverse_and_extract sha256d t (suc h) pos e ≡ ok (r, moved e (false ∷ []) (r ∷ []) [] [])
  unfolding traverse_and_extract
  traverse_nothing t h pos e r ba ha p q =
      let f =
        next_hash_lem t (moved e (false ∷ []) [] [] []) r ha (past e.hash_used t.hashes [] _ q) in
      rw (next_bit_lem t e false ba p, f, moved_twice e (false ∷ []) [] [] (r ∷ []) [] [] [] [])
        refl

  pub traverse_alone :
      (t : PartialMerkleTree) (h pos : ℕ) (e x : Extraction) (r : List ℕ) (ba : List Bool)
      → drop e.bits_used t.bits ≡ true ∷ ba
      → ltb (pos * 2 + 1) (calc_tree_width t.num_transactions h) ≡ false
      → traverse_and_extract sha256d t h (pos * 2) (moved e (true ∷ []) [] [] []) ≡ ok (r, x)
      → traverse_and_extract sha256d t (suc h) pos e ≡ ok (node sha256d r r, x)
  unfolding traverse_and_extract
  traverse_alone t h pos e x r ba p test left = rw (next_bit_lem t e true ba p, left, test) refl

  pub traverse_two :
      (t : PartialMerkleTree) (h pos : ℕ) (e x x' : Extraction) (r r' : List ℕ) (ba : List Bool)
      → drop e.bits_used t.bits ≡ true ∷ ba
      → ltb (pos * 2 + 1) (calc_tree_width t.num_transactions h) ≡ true
      → traverse_and_extract sha256d t h (pos * 2) (moved e (true ∷ []) [] [] []) ≡ ok (r, x)
      → traverse_and_extract sha256d t h (pos * 2 + 1) x ≡ ok (r', x')
      → r' ≢ r
      → traverse_and_extract sha256d t (suc h) pos e ≡ ok (node sha256d r r', x')
  unfolding traverse_and_extract join_right
  traverse_two t h pos e x x' r r' ba p test left right d =
      rw (next_bit_lem t e true ba p, left, test, right, bytes_eq_ne r' r d) refl

  pub kept_left :
      (h pos : ℕ) (xs : List (List ℕ)) (ms : List Bool)
      → any (below (suc h) pos ms) ≡ true
      → length (below (suc h) pos ms) ≤ 2 ^ h
      → kept sha256d (suc h) (below (suc h) pos xs) (below (suc h) pos ms)
        ≡ kept sha256d h (below h (pos * 2) xs) (below h (pos * 2) ms)
  kept_left h pos xs ms a l =
      kept-alone sha256d h (below (suc h) pos xs) (below (suc h) pos ms) a l
      ∙ rw (below_left h pos xs, below_left h pos ms) refl

  pub kept_both :
      (h pos : ℕ) (xs : List (List ℕ)) (ms : List Bool)
      → any (below (suc h) pos ms) ≡ true
      → 2 ^ h < length (below (suc h) pos ms)
      → kept sha256d (suc h) (below (suc h) pos xs) (below (suc h) pos ms)
        ≡ kept sha256d h (below h (pos * 2) xs) (below h (pos * 2) ms)
          ++ kept sha256d h (below h (pos * 2 + 1) xs) (below h (pos * 2 + 1) ms)
  kept_both h pos xs ms a l =
      kept-two sha256d h (below (suc h) pos xs) (below (suc h) pos ms) a l
      ∙ rw (below_left h pos xs, below_left h pos ms, below_right h pos xs, below_right h pos ms)
          refl
