-- ===== src/Merkle/Partial/Complete.antt =====
-- Merkle blocks of bitcoin/src/merkle_tree/block.rs from the block to the receiver: what is built, sent
-- and extracted are the transactions asked for.
use rust_dogecoin.Common.{
  All-append, ℕ, zero, suc, ◌≡◌, ◌<◌, ◌≤◌, ◌+◌, ◌-◌, ◌*◌, ◌/◌, ◌%◌, ◌^◌, List, [], ◌∷◌, ◌++◌, none,
  Bool, true, false, some, length, take, drop, map, leb, ◌==◌, refl, arith, ap, sym, ◌∙◌,
  Bool-cases, inl, inr, All, append-nil, length-append, length-map, length-take, length-drop,
  le→ltb-false, leb-false,
}
use rust_dogecoin.Common.Bytes.{bytes_eq_refl}
use rust_dogecoin.Common.Bits.{pow_double, pow_pos}
use rust_dogecoin.Common.Results.{ok}
use rust_dogecoin.Merkle.Tree.{tree_root, calculate_root_lem}
use rust_dogecoin.Merkle.{calculate_root}
use rust_dogecoin.Blockdata.Header.{Header}
use rust_dogecoin.Blockdata.RoundTrip.{IsHeader}
use rust_dogecoin.Merkle.Partial.Codec.{encode_merkle_block, decode_merkle_block}
use rust_dogecoin.Merkle.Partial.Wire.{
  IsWritable, padded, padding, length-falses, decode_merkle_block-encode_merkle_block,
}
use rust_dogecoin.Merkle.Partial.{
  PartialMerkleTree, MerkleBlock, Extraction, calc_tree_height, max_transactions, all_consumed,
  traverse_and_extract, extract_matches, extract_block_matches, from_header_txids_with_predicate,
}
use rust_dogecoin.Merkle.Partial.Levels.{any, below_root, calc_tree_height_lem, calc_tree_height-le}
use rust_dogecoin.Merkle.Partial.Shape.{
  flags, kept, selected, positions, length-kept, length-kept-flags,
}
use rust_dogecoin.Merkle.Partial.Build.{built, from_txids-built}
use rust_dogecoin.Merkle.Partial.Steps.{IsDistinct}
use rust_dogecoin.Merkle.Partial.Extract.{traverse_and_extract_lem}

some_inj {ℓ} : {A : Type ℓ} {x y : A} → some x ≡ some y → x ≡ y
some_inj {x = x} e = ap (λ o. elim o [ none ↦ x | some z ↦ z ]) e

length-padding : (n : ℕ) → length (padding n) ≡ (n + 7) / 8 * 8 - n
unfolding padding
length-padding n = length-falses ((n + 7) / 8 * 8 - n)

-- A tree has fewer flags than twice its leaves' room.
length-flags : (h : ℕ) (ms : List Bool) → length (flags h ms) < 2 * 2 ^ h
unfolding flags
length-flags zero ms = omega arith
length-flags (suc h) ms =
    let left = length-flags h (take (2 ^ h) ms) in
    let right = length-flags h (drop (2 ^ h) ms) in
    let p = pow_double h in
    let q = pow_pos h in
    elim (Bool-cases (any ms)) [
      | inr nothing ↦ rw nothing (omega (arith, p, q))
      | inl some_match ↦ elim (Bool-cases (leb (length ms) (2 ^ h))) [
        | inl alone ↦ rw (some_match, alone) (omega (arith, left, p, q))
        | inr two ↦ rw (some_match, two) (omega (arith, left, right, p, q, length-append {0}))
      ]
    ]

all_consumed_lem :
    (t : PartialMerkleTree) (root : List ℕ) (x : Extraction)
    → x.bits_used ≤ length t.bits
    → length t.bits < 2 ^ 31
    → (x.bits_used + 7) / 8 ≡ (length t.bits + 7) / 8
    → x.hash_used ≡ length t.hashes
    → x.hash_used < 2 ^ 32
    → all_consumed t (root, x) ≡ ok (root, x)
unfolding all_consumed
all_consumed_lem t root x b l e h f =
    let bits : ((x.bits_used + 7) % 2 ^ 32 / 8 == (length t.bits % 2 ^ 32 + 7) % 2 ^ 32 / 8)
        ≡ true =
      ground arith in
    let hashes : (x.hash_used == length t.hashes % 2 ^ 32) ≡ true = ground arith in
    rw (bits, hashes) refl

module _ (sha256d : List ℕ → List ℕ) where
  -- The tree over the leaves with flags after its own.
  abbrev filled : List (List ℕ) → List Bool → List Bool → PartialMerkleTree
  filled xs ms pad = record (built sha256d xs ms) {
    bits = flags (calc_tree_height (length xs)) ms ++ pad;
  }

  abbrev answer : List (List ℕ) → List Bool → Extraction
  answer xs ms = record {
    bits_used = 0 + length (flags (calc_tree_height (length xs)) ms);
    hash_used = 0 + length (kept sha256d (calc_tree_height (length xs)) xs ms);
    found = selected xs ms;
    indexes = positions 0 ms;
  }

  -- A tree for at most 16666 transactions passes the checks, also with flags up to the end of a byte.
  extract_matches-filled :
      (xs : List (List ℕ)) (ms pad : List Bool)
      → 0 < length xs
      → length xs ≤ max_transactions
      → length xs ≡ length ms
      → IsDistinct sha256d (calc_tree_height (length xs)) xs
      → (length (flags (calc_tree_height (length xs)) ms) + 7) / 8
        ≡ (length (flags (calc_tree_height (length xs)) ms) + length pad + 7) / 8
      → extract_matches sha256d (filled xs ms pad)
        ≡ ok (tree_root sha256d (calc_tree_height (length xs)) xs, answer xs ms)
  unfolding extract_matches
  extract_matches-filled xs ms pad l b e d whole =
      let h = calc_tree_height (length xs) in
      let (low, high) = calc_tree_height_lem (length xs) l (omega arith) in
      let hs = length-kept sha256d h xs ms e l in
      let fs = length-kept-flags sha256d h xs ms in
      let bs = length-flags h ms in
      let both = length-append (flags h ms) pad in
      let a : (length xs == 0) ≡ false = ground arith in
      let c = le→ltb-false max_transactions (length xs) b in
      let f =
        le→ltb-false (length xs) (length (kept sha256d h xs ms) % 2 ^ 32) (omega (arith, hs)) in
      let g =
        le→ltb-false (length (flags h ms ++ pad)) (length (kept sha256d h xs ms))
          (omega (arith, fs, both)) in
      let start : Extraction = record { bits_used = 0; hash_used = 0; found = []; indexes = [] } in
      let rx = below_root h xs low in
      let rm = below_root h ms (omega (arith, low, e)) in
      let zero_base : 0 * 2 ^ h ≡ 0 = omega arith in
      let run : traverse_and_extract sha256d (filled xs ms pad) h 0 start
          ≡ ok (tree_root sha256d h xs, answer xs ms) =
        rw (rx, rm, zero_base) at
          (traverse_and_extract_lem sha256d h 0 xs ms (filled xs ms pad) start pad [] e refl
            (omega arith) (calc_tree_height-le (length xs) l (omega arith)) (omega (arith, l))
            (rw rx d) (rw rm refl) (rw (rx, rm) (sym (append-nil _)))) in
      rw (a, c, f, g, run)
        (all_consumed_lem (filled xs ms pad) _ (answer xs ms) (omega (arith, both))
          (omega (arith, both, bs, high, b, whole)) (omega (arith, both, whole)) (omega arith)
          (omega (arith, hs, b)))

  All-take_32 :
      (n : ℕ) (xs : List (List ℕ))
      → All (λ x. length x ≡ 32) xs
      → All (λ x. length x ≡ 32) (take n xs) × All (λ x. length x ≡ 32) (drop n xs)
  All-take_32 zero xs a = (tt, a)
  All-take_32 (suc n) [] a = (tt, tt)
  All-take_32 (suc n) (x ∷ xs) (e, a) = let (t, d) = All-take_32 n xs a in ((e, t), d)

  module _ (sizes : (x : List ℕ) → length (sha256d x) ≡ 32) where
    root_size :
        (h : ℕ) (xs : List (List ℕ))
        → 0 < length xs
        → All (λ x. length x ≡ 32) xs
        → length (tree_root sha256d h xs) ≡ 32
    unfolding tree_root
    root_size zero [] l a = absurd (omega arith)
    root_size zero (x ∷ xs) l (e, a) = e
    root_size (suc h) xs l a = sizes _

    kept_sizes :
        (h : ℕ) (xs : List (List ℕ)) (ms : List Bool)
        → length xs ≡ length ms
        → 0 < length xs
        → All (λ x. length x ≡ 32) xs
        → All (λ x. length x ≡ 32) (kept sha256d h xs ms)
    unfolding kept
    kept_sizes zero xs ms e l a = (root_size zero xs l a, tt)
    kept_sizes (suc h) xs ms e l a =
        let (at, ad) = All-take_32 (2 ^ h) xs a in
        let p = pow_pos h in
        let tx = length-take (2 ^ h) xs in
        let tm = length-take (2 ^ h) ms in
        let dx = length-drop (2 ^ h) xs in
        let dm = length-drop (2 ^ h) ms in
        let left =
          kept_sizes h (take (2 ^ h) xs) (take (2 ^ h) ms) (omega (arith, tx, tm, e))
            (omega (arith, tx, p, l)) at in
        elim (Bool-cases (any ms)) [
          | inr nothing ↦ rw nothing (root_size (suc h) xs l a, tt)
          | inl some_match ↦ elim (Bool-cases (leb (length ms) (2 ^ h))) [
            | inl alone ↦ rw (some_match, alone) left
            | inr two ↦
                let more = leb-false _ _ two in
                rw (some_match, two)
                  (All-append _ _ _ left (
                    kept_sizes h (drop (2 ^ h) xs) (drop (2 ^ h) ms) (omega (arith, dx, dm, e))
                      (omega (arith, dx, e, more)) ad))
          ]
        ]

    built-IsWritable :
        (xs : List (List ℕ)) (ms : List Bool)
        → 0 < length xs
        → length xs ≤ max_transactions
        → length xs ≡ length ms
        → All (λ x. length x ≡ 32) xs
        → IsWritable (built sha256d xs ms)
    built-IsWritable xs ms l b e a =
        let h = calc_tree_height (length xs) in
        let (low, high) = calc_tree_height_lem (length xs) l (omega arith) in
        record {
          num_fits = omega (arith, b);
          hashes_fit = omega (arith, length-kept sha256d h xs ms e l, b);
          hash_sizes = kept_sizes h xs ms e l a;
          bits_fit = omega (arith, length-flags h ms, high, b);
        }

    -- With a hash function of 32 bytes, for a header whose fields fit their types and whose Merkle
    -- root is that of the given transaction identifiers, from 1 to 16666 of 32 bytes each, such
    -- that no two children of a node of their tree have one hash: the Merkle block for a predicate
    -- is built without a panic, and from it, as from what a receiver of its bytes decodes, the
    -- extraction gives the identifiers of the predicate with their positions in the block, in
    -- order.
    pub merkle_block_lem :
        (header : Header) (txids : List (List ℕ)) (match_txids : List ℕ → Bool) (left : List ℕ)
        → IsHeader header
        → calculate_root sha256d txids ≡ some header.merkle_root
        → 0 < length txids
        → length txids ≤ max_transactions
        → All (λ x. length x ≡ 32) txids
        → IsDistinct sha256d (calc_tree_height (length txids)) txids
        → (sent : MerkleBlock) × (received : MerkleBlock) × (x : Extraction)
          × (from_header_txids_with_predicate sha256d header txids match_txids ≡ some sent)
          × (decode_merkle_block (encode_merkle_block sent ++ left) ≡ ok (received, left))
          × (extract_block_matches sha256d sent ≡ ok x)
          × (extract_block_matches sha256d received ≡ ok x)
          × (x.found ≡ selected txids (map match_txids txids))
          × (x.indexes ≡ positions 0 (map match_txids txids))
    unfolding from_header_txids_with_predicate extract_block_matches padded
    merkle_block_lem header txids match_txids left hd root l b a d =
        let ms = map match_txids txids in
        let e : length txids ≡ length ms = sym (length-map txids match_txids) in
        let h = calc_tree_height (length txids) in
        let (low, high) = calc_tree_height_lem (length txids) l (omega arith) in
        let same : tree_root sha256d h txids ≡ header.merkle_root =
          some_inj (sym (calculate_root_lem sha256d h txids low high) ∙ root) in
        let t = built sha256d txids ms in
        let k = length (flags h ms) in
        let plain : extract_matches sha256d t ≡ ok (tree_root sha256d h txids, answer txids ms) =
          rw (append-nil (flags h ms)) at
            (extract_matches-filled txids ms [] l b e d (omega arith)) in
        let full =
          extract_matches-filled txids ms (padding k) l b e d (omega (arith, length-padding k)) in
        let test = bytes_eq_refl header.merkle_root in
        (
          record { header = header; txn = t },
          record { header = header; txn = padded t },
          answer txids ms,
          rw (from_txids-built sha256d txids ms l (omega (arith, b)) e) refl,
          decode_merkle_block-encode_merkle_block (record { header = header; txn = t }) left hd
              (built-IsWritable txids ms l b e a),
          rw (plain, same, test) refl,
          rw (full, same, test) refl,
          refl,
          refl,
        )
