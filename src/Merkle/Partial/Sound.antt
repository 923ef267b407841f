-- ===== src/Merkle/Partial/Sound.antt =====
-- What an extraction of bitcoin/src/merkle_tree/block.rs finds is below its root, whatever the tree holds.
use rust_dogecoin.Common.{
  subst, ℕ, zero, suc, ◌≡◌, ◌<◌, ◌≤◌, ◌+◌, ◌*◌, ◌/◌, ◌%◌, ◌^◌, List, [], ◌∷◌, ◌++◌, Bool, true,
  false, length, ltb, ◌==◌, refl, arith, ap, sym, ◌∙◌, Bool-cases, inl, inr, append-nil,
  append_assoc, if◌then◌else◌, length-append, ltb→lt, ltb-false,
}
use rust_dogecoin.Common.Int.{pos}
use rust_dogecoin.Common.Bytes.{bytes_eq, bytes_eq_sound}
use rust_dogecoin.Common.Bits.{pow_double}
use rust_dogecoin.Common.Results.{ok}
use rust_dogecoin.Dogecoin.AuxPow.{compute_merkle_root}
use rust_dogecoin.Merkle.{node}
use rust_dogecoin.Merkle.Branch.{one_level}
use rust_dogecoin.Merkle.Partial.{
  PartialMerkleTree, MerkleBlock, Extraction, calc_tree_width, calc_tree_height, max_transactions,
  next_bit, next_hash, then_ok, leaf_found, join_right, traverse_and_extract, all_consumed,
  no_transactions, too_many_transactions, too_many_hashes, not_enough_bits, extract_matches,
  extract_block_matches,
}
use rust_dogecoin.Merkle.Partial.Levels.{
  ltb-calc_tree_width, calc_tree_height_lem, calc_tree_height-le,
}
use rust_dogecoin.Merkle.Partial.Found.{
  Paired, Paired-append, Paired-map, then_ok-ok, if_true, if_false, past_guard, Keeps, ok_inj,
  next_bit-Keeps, next_hash-Keeps, div_twice, div_half,
}

module _ (sha256d : List ℕ → List ℕ) where
  compute_merkle_root-append :
      (bs : List (List ℕ)) (s x : List ℕ) (i : ℕ)
      → compute_merkle_root sha256d x (bs ++ s ∷ []) (pos i) ≡ (
          if i / 2 ^ length bs % 2 == 1
          then node sha256d s (compute_merkle_root sha256d x bs (pos i))
          else node sha256d (compute_merkle_root sha256d x bs (pos i)) s)
  unfolding compute_merkle_root
  compute_merkle_root-append [] s x i =
      let e : i / 1 ≡ i = omega arith in rw e (one_level sha256d x s [] i)
  compute_merkle_root-append (b ∷ bs) s x i =
      one_level sha256d x b (bs ++ s ∷ []) i
      ∙ compute_merkle_root-append bs s _ (i / 2)
      ∙ rw (div_twice i (length bs), one_level sha256d x b bs i) refl

  -- A branch of `h` hashes leads from the leaf `f`, at position `i` of `num`, to `root`, the hash of the
  -- node at height `h` and position `pos`.
  abbrev Climbs : ℕ → ℕ → ℕ → List ℕ → List ℕ → ℕ → Type 0
  Climbs num h place root f i =
      (bs : List (List ℕ)) × (length bs ≡ h)
      × (compute_merkle_root sha256d f bs (pos i) ≡ root)
      × (i / 2 ^ h ≡ place)
      × (i < num)

  climb_left :
      (num h place : ℕ) (l r f : List ℕ) (i : ℕ)
      → Climbs num h (place * 2) l f i
      → Climbs num (suc h) place (node sha256d l r) f i
  climb_left num h place l r f i (bs, e, c, p, n) =
      let even : (i / 2 ^ length bs % 2 == 1) ≡ false = rw (e, p) (ground arith) in
      (
        bs ++ r ∷ [],
        omega (arith, length-append bs (r ∷ []), e),
        compute_merkle_root-append bs r f i ∙ rw (even, c) refl,
        div_half i h ∙ omega (arith, p),
        n,
      )

  climb_right :
      (num h place : ℕ) (l r f : List ℕ) (i : ℕ)
      → Climbs num h (place * 2 + 1) r f i
      → Climbs num (suc h) place (node sha256d l r) f i
  climb_right num h place l r f i (bs, e, c, p, n) =
      let odd : (i / 2 ^ length bs % 2 == 1) ≡ true = rw (e, p) (ground arith) in
      (
        bs ++ l ∷ [],
        omega (arith, length-append bs (l ∷ []), e),
        compute_merkle_root-append bs l f i ∙ rw (odd, c) refl,
        div_half i h ∙ omega (arith, p),
        n,
      )

  -- What an extraction finds below a node: each leaf climbs to the node's hash.
  abbrev Finds : ℕ → ℕ → ℕ → Extraction → List ℕ × Extraction → Type 0
  Finds num h place x (root, y) =
      (fs : List (List ℕ)) × (is : List ℕ) × (y.found ≡ x.found ++ fs)
      × (y.indexes ≡ x.indexes ++ is)
      × Paired (Climbs num h place root) fs is

  Finds-nothing :
      (num h place : ℕ) (x y : Extraction) (root : List ℕ)
      → Keeps x y
      → Finds num h place x (root, y)
  Finds-nothing num h place x y root (f, i) =
      ([], [], f ∙ sym (append-nil x.found), i ∙ sym (append-nil x.indexes), tt)

  leaf-Finds :
      (num place : ℕ) (x y : Extraction) (r : List ℕ) (b : Bool)
      → place < num
      → Keeps x y
      → Finds num 0 place x (leaf_found b place (r, y))
  unfolding compute_merkle_root
  leaf-Finds num place x y r false l k = Finds-nothing num 0 place x y r k
  leaf-Finds num place x y r true l (f, i) =
      (r ∷ [], place ∷ [], rw f refl, rw i refl, (([], refl, refl, omega arith, l), tt))

  Finds-after :
      (num h place : ℕ) (x x1 : Extraction) (out : List ℕ × Extraction)
      → Keeps x x1
      → Finds num h place x1 out
      → Finds num h place x out
  Finds-after num h place x x1 out (f, i) (fs, is, a, b, c) =
      (fs, is, a ∙ ap (λ l. l ++ fs) f, b ∙ ap (λ l. l ++ is) i, c)

  Finds-alone :
      (num h place : ℕ) (x y : Extraction) (r : List ℕ)
      → Finds num h (place * 2) x (r, y)
      → Finds num (suc h) place x (node sha256d r r, y)
  Finds-alone num h place x y r (fs, is, a, b, c) =
      (fs, is, a, b, Paired-map _ _ fs is (climb_left num h place r r) c)

  Finds-both :
      (num h place : ℕ) (x y z : Extraction) (l r : List ℕ)
      → Finds num h (place * 2) x (l, y)
      → Finds num h (place * 2 + 1) y (r, z)
      → Finds num (suc h) place x (node sha256d l r, z)
  Finds-both num h place x y z l r (fs, is, a, b, c) (gs, js, a', b', c') = (
    fs ++ gs,
    is ++ js,
    a' ∙ ap (λ k. k ++ gs) a ∙ append_assoc x.found fs gs,
    b' ∙ ap (λ k. k ++ js) b ∙ append_assoc x.indexes is js,
    Paired-append _ fs gs is js (Paired-map _ _ fs is (climb_left num h place l r) c)
        (Paired-map _ _ gs js (climb_right num h place l r) c'),
  )

  join_right_ok :
      (l : List ℕ) (r : List ℕ) (z : Extraction) (out : List ℕ × Extraction)
      → join_right sha256d l (r, z) ≡ ok out
      → (node sha256d l r, z) ≡ out
  unfolding join_right
  join_right_ok l r z out e = elim (Bool-cases (bytes_eq r l)) [
    | inl same ↦ let f = rw same at e in cc
    | inr other ↦ ok_inj (rw other at e)
  ]

  -- The children of a node, the right one by the recursion.
  children_find :
      (t : PartialMerkleTree) (h place : ℕ) (x y : Extraction) (l : List ℕ)
      (out : List ℕ × Extraction)
      → t.num_transactions ≤ 2 ^ 31
      → h ≤ 31
      → Finds t.num_transactions h (place * 2) x (l, y)
      → ((place * 2 + 1) * 2 ^ h < t.num_transactions
          → (z : List ℕ × Extraction) → traverse_and_extract sha256d t h (place * 2 + 1) y ≡ ok z
          → Finds t.num_transactions h (place * 2 + 1) y z)
      → (if ltb (place * 2 + 1) (calc_tree_width t.num_transactions h)
          then then_ok (traverse_and_extract sha256d t h (place * 2 + 1) y) (join_right sha256d l)
          else ok (node sha256d l l, y))
        ≡ ok out
      → Finds t.num_transactions (suc h) place x out
  children_find t h place x y l out b c left right e =
      elim (Bool-cases (ltb (place * 2 + 1) (calc_tree_width t.num_transactions h))) [
        | inr alone ↦
            subst (Finds t.num_transactions (suc h) place x) (ok_inj (if_false _ _ _ _ alone e))
              (Finds-alone t.num_transactions h place x y l left)
        | inl two ↦
            let inside = sym (ltb-calc_tree_width t.num_transactions h (place * 2 + 1) b c) ∙ two in
            let ((r, z), q, e1) =
              then_ok-ok (traverse_and_extract sha256d t h (place * 2 + 1) y) (join_right sha256d l)
                out (if_true _ _ _ _ two e) in
            subst (Finds t.num_transactions (suc h) place x) (join_right_ok l r z out e1) (
              Finds-both t.num_transactions h place x y z l r left
                (right (ltb→lt _ _ inside) (r, z) q))
      ]

  traverse_and_extract-Finds :
      (t : PartialMerkleTree) (h place : ℕ) (x : Extraction) (out : List ℕ × Extraction)
      → t.num_transactions ≤ 2 ^ 31
      → h ≤ 31
      → place * 2 ^ h < t.num_transactions
      → traverse_and_extract sha256d t h place x ≡ ok out
      → Finds t.num_transactions h place x out
  unfolding traverse_and_extract
  traverse_and_extract-Finds t zero place x out b c l e =
      let ((m, x1), p, e1) = then_ok-ok (next_bit t x) _ out e in
      let ((r, x2), q, e2) = then_ok-ok (next_hash t x1) _ out e1 in
      let (k1, k2) = next_bit-Keeps t x x1 m p in
      let (j1, j2) = next_hash-Keeps t x1 x2 r q in
      rw (← ok_inj e2)
        (leaf-Finds t.num_transactions place x x2 r m (omega (arith, l)) (j1 ∙ k1, j2 ∙ k2))
  traverse_and_extract-Finds t (suc h) place x out b c l e =
      let ((m, x1), p, e1) = then_ok-ok (next_bit t x) _ out e in
      let k = next_bit-Keeps t x x1 m p in
      elim (Bool-cases m) [
        | inr nothing ↦
            let q = next_hash-Keeps t x1 out.1 out.0 (rw nothing at e1) in
            Finds-after _ (suc h) place x x1 out k
              (Finds-nothing t.num_transactions (suc h) place x1 out.1 out.0 q)
        | inl some_match ↦
            let ((l', y), q, e2) =
              then_ok-ok (traverse_and_extract sha256d t h (place * 2) x1) _ out
                (rw some_match at e1) in
            let low : place * 2 * 2 ^ h < t.num_transactions =
              omega (arith, l, ap (λ (n : ℕ). place * n) (pow_double h)) in
            Finds-after _ (suc h) place x x1 out k (
              children_find t h place x1 y l' out b (omega arith)
                (traverse_and_extract-Finds t h (place * 2) x1 (l', y) b (omega arith) low q)
                (λ inside z g.
                  traverse_and_extract-Finds t h (place * 2 + 1) y z b (omega arith) inside g)
                e2)
      ]

  -- A branch of the tree's height leads from the leaf `f`, at position `i` of `num`, to `root`.
  abbrev pub IsProved : ℕ → List ℕ → List ℕ → ℕ → Type 0
  IsProved num root f i =
      (bs : List (List ℕ)) × (length bs ≡ calc_tree_height num)
      × (compute_merkle_root sha256d f bs (pos i) ≡ root)
      × (i < num)

  all_consumed_ok :
      (t : PartialMerkleTree) (a out : List ℕ × Extraction) → all_consumed t a ≡ ok out → a ≡ out
  unfolding all_consumed
  all_consumed_ok t a out e = ground arith

  nonzero : (n : ℕ) → (n == 0) ≡ false → 0 < n
  nonzero n h = ground arith

  extract_matches_ok :
      (t : PartialMerkleTree) (out : List ℕ × Extraction)
      → extract_matches sha256d t ≡ ok out
      → (0 < t.num_transactions)
        × (t.num_transactions ≤ max_transactions)
        × (traverse_and_extract sha256d t
              (calc_tree_height t.num_transactions)
              0
              (record { bits_used = 0; hash_used = 0; found = []; indexes = [] })
            ≡ ok out)
  unfolding extract_matches
  extract_matches_ok t out e =
      let (some_num, e1) = past_guard _ no_transactions _ out e in
      let (few, e2) = past_guard _ too_many_transactions _ out e1 in
      let (hashes, e3) = past_guard _ too_many_hashes _ out e2 in
      let (enough, e4) = past_guard _ not_enough_bits _ out e3 in
      let (found, run, e5) =
        then_ok-ok
          (traverse_and_extract sha256d t (calc_tree_height t.num_transactions) 0
            (record { bits_used = 0; hash_used = 0; found = []; indexes = [] }))
          (all_consumed t) out e4 in
      (
        nonzero t.num_transactions some_num,
        ltb-false _ _ few,
        run ∙ ap ok (all_consumed_ok t found out e5),
      )

  -- Whatever the partial tree holds, when the extraction from a Merkle block succeeds, the block
  -- has from 1 to 16666 transactions, and each identifier that was found, with its index, is
  -- proved: the index is below the number of transactions, and a branch of as many hashes as the
  -- tree is high leads from the identifier at that index to the header's Merkle root, as
  -- `AuxPow::compute_merkle_root` computes it.
  pub extract_block_matches_sound :
      (b : MerkleBlock) (x : Extraction)
      → extract_block_matches sha256d b ≡ ok x
      → (0 < b.txn.num_transactions)
        × (b.txn.num_transactions ≤ max_transactions)
        × Paired (IsProved b.txn.num_transactions b.header.merkle_root) x.found x.indexes
  unfolding extract_block_matches
  extract_block_matches_sound b x e =
      let (out, p, e1) = then_ok-ok (extract_matches sha256d b.txn) _ x e in
      let (l, m, run) = extract_matches_ok b.txn out p in
      let num = b.txn.num_transactions in
      let (low, high) = calc_tree_height_lem num l (omega (arith, m)) in
      let (fs, is, f, g, c) =
        traverse_and_extract-Finds b.txn (calc_tree_height num) 0 _ out (omega (arith, m))
          (calc_tree_height-le num l (omega (arith, m))) (omega (arith, l)) run in
      elim (Bool-cases (bytes_eq out.0 b.header.merkle_root)) [
        | inr other ↦ let absurd_end = if_false _ _ _ _ other e1 in cc
        | inl same ↦
            let root = bytes_eq_sound out.0 b.header.merkle_root same in
            let end : out.1 ≡ x = ok_inj (if_true _ _ _ _ same e1) in
            let found : x.found ≡ fs = ap (λ y. y.found) (sym end) ∙ f in
            let indexes : x.indexes ≡ is = ap (λ y. y.indexes) (sym end) ∙ g in
            (
              l,
              m,
              rw (found, indexes)
                  (Paired-map _ (IsProved num b.header.merkle_root) fs is
                    (λ k i (bs, n, climb, place, inside). (bs, n, climb ∙ root, inside)) c),
            )
      ]
