-- ===== src/Merkle/InPlace.antt =====
-- The in-place computation of a Merkle root of bitcoin/src/merkle_tree/mod.rs agrees with the
-- computation of one level after the other.
use rust_dogecoin.Common.{
  ℕ, suc, ◌≡◌, ◌+◌, ◌-◌, ◌*◌, ◌/◌, ◌%◌, List, [], ◌∷◌, ◌++◌, some, length, get_elem?, refl, arith,
  ◌∙◌, sym, ap, append_assoc, length-append, take-append,
}
use rust_dogecoin.Common.Lists.{set, get_elem?-append, set-append}
use rust_dogecoin.Merkle.{node, pair_up, level_loop, merkle_root_r}
use Prim.Native.Nat.{min}

module _ (sha256d : List ℕ → List ℕ) where
  pub length-pair_up : (xs : List (List ℕ)) → length (pair_up sha256d xs) ≡ (length xs + 1) / 2
  unfolding pair_up
  length-pair_up [] = omega arith
  length-pair_up (x ∷ []) = omega arith
  length-pair_up (x ∷ y ∷ rest) = omega (arith, length-pair_up rest)

  -- In the slice `done ++ (mid ++ rest)` as many slots are written as are read and not yet overwritten.
  -- A round reads the first two of `rest`, or the last one twice.
  left_operand :
      (done mid : List (List ℕ)) (x : List ℕ) (rest : List (List ℕ))
      → length mid ≡ length done
      → get_elem? (done ++ (mid ++ x ∷ rest)) (2 * length done) ≡ some x
  left_operand done mid x rest h =
      let e : 2 * length done ≡ length (done ++ mid) + 0 = omega (arith, length-append done mid) in
      rw (e, ← append_assoc) (get_elem?-append (done ++ mid) (x ∷ rest) 0)

  right_operand :
      (done mid : List (List ℕ)) (x y : List ℕ) (rest : List (List ℕ))
      → length mid ≡ length done
      → get_elem?
          (done ++ (mid ++ x ∷ y ∷ rest))
          (min (2 * length done + 1) (length (done ++ (mid ++ x ∷ y ∷ rest)) - 1))
        ≡ some y
  right_operand done mid x y rest h =
      let e : min (2 * length done + 1) (length (done ++ (mid ++ x ∷ y ∷ rest)) - 1)
          ≡ length (done ++ mid) + 1 =
        omega (
          arith,
          length-append done mid,
          length-append done (mid ++ x ∷ y ∷ rest),
          length-append mid (x ∷ y ∷ rest),
        ) in
      rw (e, ← append_assoc) (get_elem?-append (done ++ mid) (x ∷ y ∷ rest) 1)

  last_operand :
      (done mid : List (List ℕ)) (x : List ℕ)
      → length mid ≡ length done
      → get_elem?
          (done ++ (mid ++ x ∷ []))
          (min (2 * length done + 1) (length (done ++ (mid ++ x ∷ [])) - 1))
        ≡ some x
  last_operand done mid x h =
      let e : min (2 * length done + 1) (length (done ++ (mid ++ x ∷ [])) - 1)
          ≡ length (done ++ mid) + 0 =
        omega (
          arith,
          length-append done mid,
          length-append done (mid ++ x ∷ []),
          length-append mid (x ∷ []),
        ) in
      rw (e, ← append_assoc) (get_elem?-append (done ++ mid) (x ∷ []) 0)

  -- A write to the first slot after `done` uses up one overwritten slot.
  step_room :
      (mid : List (List ℕ)) (x y : List ℕ)
      → (h : List ℕ) × (mid_next : List (List ℕ)) × (length mid_next ≡ suc (length mid))
        × ((rest : List (List ℕ)) → mid ++ x ∷ y ∷ rest ≡ h ∷ (mid_next ++ rest))
  step_room [] x y = (x, y ∷ [], refl, λ rest. refl)
  step_room (m ∷ mid) x y =
      let e : length (mid ++ x ∷ y ∷ []) ≡ suc (suc (length mid)) =
        omega (arith, length-append mid (x ∷ y ∷ [])) in
      (m, mid ++ x ∷ y ∷ [], e, λ rest. ap (λ l. m ∷ l) (sym (append_assoc mid (x ∷ y ∷ []) rest)))

  length-snoc : (done : List (List ℕ)) (v : List ℕ) → length (done ++ v ∷ []) ≡ suc (length done)
  length-snoc done v = omega (arith, length-append done (v ∷ []))

  written_last :
      (done mid : List (List ℕ)) (x v : List ℕ)
      → (out : List (List ℕ)) × (set (done ++ (mid ++ x ∷ [])) (length done) v ≡ done ++ v ∷ out)
  written_last done [] x v = ([], set-append done [] x v)
  written_last done (m ∷ mid) x v = (mid ++ x ∷ [], set-append done (mid ++ x ∷ []) m v)

  round :
      (done mid : List (List ℕ)) (x y : List ℕ) (rest : List (List ℕ)) (r : ℕ)
      → length mid ≡ length done
      → level_loop sha256d (suc r) (length done) (done ++ (mid ++ x ∷ y ∷ rest))
        ≡ level_loop sha256d r
            (suc (length done))
            (set (done ++ (mid ++ x ∷ y ∷ rest)) (length done) (node sha256d x y))
  unfolding level_loop
  round done mid x y rest r h =
      rw (left_operand done mid x (y ∷ rest) h, right_operand done mid x y rest h) refl

  last_round :
      (done mid : List (List ℕ)) (x : List ℕ)
      → length mid ≡ length done
      → level_loop sha256d 1 (length done) (done ++ (mid ++ x ∷ []))
        ≡ some (set (done ++ (mid ++ x ∷ [])) (length done) (node sha256d x x))
  unfolding level_loop
  last_round done mid x h = rw (left_operand done mid x [] h, last_operand done mid x h) refl

  no_round : (hashes : List (List ℕ)) (idx : ℕ) → level_loop sha256d 0 idx hashes ≡ some hashes
  unfolding level_loop
  no_round hashes idx = refl

  -- The loop over the rest of the slice writes the pairs of it.
  level_loop_from :
      (rest done mid : List (List ℕ))
      → length mid ≡ length done
      → (out : List (List ℕ)) × (level_loop sha256d
            ((length rest + 1) / 2)
            (length done)
            (done ++ (mid ++ rest))
          ≡ some (done ++ (pair_up sha256d rest ++ out)))
  unfolding pair_up
  level_loop_from [] done mid h = (mid ++ [], no_round (done ++ (mid ++ [])) (length done))
  level_loop_from (x ∷ []) done mid h =
      let (out, e) = written_last done mid x (node sha256d x x) in
      (out, last_round done mid x h ∙ ap some e)
  level_loop_from (x ∷ y ∷ rest) done mid h =
      let (m, mid_next, e, room) = step_room mid x y in
      let v : List ℕ = node sha256d x y in
      let (out, ih) =
        level_loop_from rest (done ++ v ∷ []) mid_next (omega (arith, length-snoc done v)) in
      let n : (length (x ∷ y ∷ rest) + 1) / 2 ≡ suc ((length rest + 1) / 2) = omega arith in
      let write : set (done ++ (mid ++ x ∷ y ∷ rest)) (length done) v
          ≡ (done ++ v ∷ []) ++ (mid_next ++ rest) =
        rw (room rest, append_assoc done (v ∷ []) (mid_next ++ rest))
          (set-append done (mid_next ++ rest) m v) in
      (
        out,
        rw (n, round done mid x y rest ((length rest + 1) / 2) h, write, ← length-snoc done v)
            (ih ∙ ap some (append_assoc done (v ∷ []) (pair_up sha256d rest ++ out))),
      )

  -- A round of `merkle_root_r` is a level of the tree.
  pub merkle_root_r-pair_up :
      (fuel : ℕ) (x y : List ℕ) (rest : List (List ℕ))
      → merkle_root_r sha256d (suc fuel) (x ∷ y ∷ rest)
        ≡ merkle_root_r sha256d fuel (pair_up sha256d (x ∷ y ∷ rest))
  unfolding merkle_root_r
  merkle_root_r-pair_up fuel x y rest =
      let hashes : List (List ℕ) = x ∷ y ∷ rest in
      let (out, e) = level_loop_from hashes [] [] refl in
      let half : length hashes / 2 + length hashes % 2 ≡ length (pair_up sha256d hashes) =
        omega (arith, length-pair_up hashes) in
      rw (e, half, take-append) refl
