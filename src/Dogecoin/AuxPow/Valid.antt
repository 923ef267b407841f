-- ===== src/Dogecoin/AuxPow/Valid.antt =====
-- `check_merged_mining_coinbase_script` and `check` of bitcoin/src/dogecoin/auxpow.rs decide their
-- descriptions.
use rust_dogecoin.Common.Bytes.{bytes_eq, bytes_eq_sound, bytes_eq_refl}
use rust_dogecoin.Common.{
  length-reverse, ◌++◌, if◌then◌else◌, ◌%◌, ◌∙◌, sym, ◌↔◌, subst, ◌>>=◌, Bool-cases, List, [], ◌∷◌,
  reverse, not, ◌&&◌, ℕ, ◌≡◌, ◌≢◌, inl, inr, length, drop, Option, some, none, Bool, true, false,
  refl, arith, ◌+◌, ◌<◌, ◌≤◌, ltb, ◌==◌,
}
use rust_dogecoin.Common.Int.{ℤ, pos, to_word, shr_ℤ}
use rust_dogecoin.Common.Results.{Result, ok, err}
use rust_dogecoin.Dogecoin.AuxPow as Proof
use rust_dogecoin.Dogecoin.AuxPow.{
  ==_ℤ, compute_txid, extract_chain_id, AuxPow, AuxPowCoinbaseScriptValidationError,
  AuxPowValidationError, merged_mining_header, find_bytes, slice_from, header_place, size_and_nonce,
  check_merged_mining_coinbase_script,
}
use rust_dogecoin.Dogecoin.AuxPow.Search.{IsFound, find_bytes-IsFound, IsAt-bound}
use rust_dogecoin.Dogecoin.AuxPow.Script.{
  IsPlaced, IsSized, Decides, slice_from_lem, same_header, header_place_lem, size_and_nonce_lem,
  ==_ℤ_lem, true≢false,
}

-- The script holds the root; the header, the size and the nonce are where they should be.
abbrev pub IsMergedMined : AuxPow → List ℕ → List ℕ → ℤ → Type 0
IsMergedMined aux script root chain_id =
    (root_pos : ℕ) × (IsFound script root (some root_pos)
      × (IsPlaced script root_pos × IsSized aux chain_id (drop (root_pos + 32) script)))

check_placed_lem :
    (debug : Bool) (aux : AuxPow) (script root : List ℕ) (chain_id : ℤ) (i : ℕ)
    → length aux.blockchain_branch < 32
    → length root ≡ 32
    → IsFound script root (some i)
    → (o : Option (Option AuxPowCoinbaseScriptValidationError))
    → Decides {E = AuxPowCoinbaseScriptValidationError} o none some (IsPlaced script i)
    → Decides {E = AuxPowCoinbaseScriptValidationError}
        (do m ← o; Proof.check_placed debug aux script chain_id i m)
        (ok tt)
        err
        (IsMergedMined aux script root chain_id)
unfolding Proof.check_placed
check_placed_lem debug aux script root chain_id i h l f o (inr (e, (p, q))) = rw p (
    inr (
      e,
      (
        refl,
        λ (j, (a, (b, c))). q (subst (λ k. IsPlaced script k) (same_header script root j i a f) b),
      ),
    ))
check_placed_lem debug aux script root chain_id i h l f o (inl (p, q)) =
    rw
      (
        p,
        slice_from_lem (i + 32) script (omega (arith, IsAt-bound script root i f.0 (omega arith))),
      )
      (elim (size_and_nonce_lem debug aux chain_id (drop (i + 32) script) h) [
        | inl (a, b) ↦ inl (a, (i, (f, (q, b))))
        | inr (e, (a, b)) ↦ inr (
          e,
          (
            a,
            λ (j, (c, (d, g))). b (
                subst (λ k. IsSized aux chain_id (drop (k + 32) script))
                  (same_header script root j i c f) g),
          ),
        )
      ])

check_root_lem :
    (debug : Bool) (aux : AuxPow) (script root : List ℕ) (chain_id : ℤ) (o : Option ℕ)
    → length aux.blockchain_branch < 32
    → length root ≡ 32
    → IsFound script root o
    → Decides {E = AuxPowCoinbaseScriptValidationError}
        (Proof.check_root debug aux script chain_id o)
        (ok tt)
        err
        (IsMergedMined aux script root chain_id)
unfolding Proof.check_root
check_root_lem debug aux script root chain_id none h l f =
    inr (Proof.missing_merkle_root, (refl, λ (j, (a, (b, c))). f j a.0))
check_root_lem debug aux script root chain_id (some i) h l f =
    check_placed_lem debug aux script root chain_id i h l f _
      (header_place_lem script i _ (find_bytes-IsFound script merged_mining_header))

pub check_merged_mining_coinbase_script_lem :
    (debug : Bool) (aux : AuxPow) (script root : List ℕ) (chain_id : ℤ)
    → length aux.blockchain_branch < 32
    → length root ≡ 32
    → Decides {E = AuxPowCoinbaseScriptValidationError}
        (check_merged_mining_coinbase_script debug aux script root chain_id)
        (ok tt)
        err
        (IsMergedMined aux script root chain_id)
unfolding check_merged_mining_coinbase_script
check_merged_mining_coinbase_script_lem debug aux script root chain_id h l =
    check_root_lem debug aux script root chain_id _ h l (find_bytes-IsFound script root)

-- A guard that fails unless `T`, before a computation that decides `P`.
guard_lem :
    {T P : Type 0} (c : Bool) (e : AuxPowValidationError)
    (r : Option (Result (Unit {0}) AuxPowValidationError))
    → ((c ≡ false) ↔ T)
    → (T → Decides {E = AuxPowValidationError} r (ok tt) err P)
    → Decides {E = AuxPowValidationError} (if c then some (err e) else r) (ok tt) err (T × P)
guard_lem true e r h d = inr (e, (refl, λ p. true≢false (h.1 p.0)))
guard_lem false e r h d = elim (d (h.0 refl)) [
  | inl (a, p) ↦ inl (a, (h.0 refl, p))
  | inr (f, (a, n)) ↦ inr (f, (a, λ p. n p.1))
]

not_iff : {T : Type 0} (b : Bool) → ((b ≡ true) ↔ T) → ((not b ≡ false) ↔ T)
not_iff true h = (λ e. h.0 refl, λ t. refl)
not_iff false h = (λ e. elim (true≢false e) [ ], λ t. sym (h.1 t))

not_true : (b : Bool) → (¬ (b ≡ true)) → b ≡ false
not_true true h = elim (h refl) [ ]
not_true false h = refl

first_input_lem :
    (debug : Bool) (aux : AuxPow) (root : List ℕ) (chain_id : ℤ) (o : Option (List ℕ))
    → length aux.blockchain_branch < 32
    → length root ≡ 32
    → Decides {E = AuxPowValidationError}
        (Proof.check_first_input debug aux root chain_id o)
        (ok tt)
        err
        ((script : List ℕ) × ((o ≡ some script) × IsMergedMined aux script root chain_id))
unfolding Proof.check_first_input
first_input_lem debug aux root chain_id none h l =
    inr (Proof.coinbase_has_no_inputs, (refl, λ (script, (e, m)). ground arith))
first_input_lem debug aux root chain_id (some script) h l =
    elim (check_merged_mining_coinbase_script_lem debug aux script root chain_id h l) [
      | inl (a, m) ↦ rw a (inl (refl, (script, (refl, m))))
      | inr (e, (a, n)) ↦ rw a (
          inr (
            Proof.invalid_aux_pow_coinbase_script e,
            (
              refl,
              λ (other, (q, m)).
                  n (subst (λ z. IsMergedMined aux z root chain_id) (some_inj other script q) m),
            ),
          ))
    ]
  where
    some_inj : (xs ys : List ℕ) → some ys ≡ some xs → xs ≡ ys
    some_inj xs ys e = ground arith

strict_iff : (strict : Bool) (a b : ℤ) → ((strict && ==_ℤ a b) ≡ false) ↔ (strict ≡ true → a ≢ b)
strict_iff true a b = (
  λ e s q. true≢false (sym ((==_ℤ_lem a b).1 q) ∙ e),
  λ h. not_true (==_ℤ a b) λ e. h refl ((==_ℤ_lem a b).0 e),
)
strict_iff false a b = (λ e s. elim (true≢false (sym s)) [ ], λ h. refl)

leb_iff : (n : ℕ) → (ltb 30 n ≡ false) ↔ (n ≤ 30)
leb_iff n = ground arith

bytes_eq_iff : (xs ys : List ℕ) → (bytes_eq xs ys ≡ true) ↔ (xs ≡ ys)
bytes_eq_iff xs ys =
    (bytes_eq_sound xs ys, λ e. subst (λ z. bytes_eq xs z ≡ true) e (bytes_eq_refl xs))

module _ (sha256d : List ℕ → List ℕ) (size : (x : List ℕ) → length (sha256d x) ≡ 32) where
  root-length :
      (hash : List ℕ) (branch : List (List ℕ)) (index : ℤ)
      → length hash ≡ 32
      → length (Proof.compute_merkle_root sha256d hash branch index) ≡ 32
  unfolding Proof.compute_merkle_root Proof.parent_hash
  root-length hash [] index h = h
  root-length hash (b ∷ bs) index h = elim (Bool-cases (to_word 32 index % 2 == 1)) [
    | inl e ↦ rw e (root-length (sha256d (b ++ hash)) bs (shr_ℤ index 1) (size (b ++ hash)))
    | inr e ↦ rw e (root-length (sha256d (hash ++ b)) bs (shr_ℤ index 1) (size (hash ++ b)))
  ]

  -- What a merged-mining proof must have.
  abbrev pub IsValid : AuxPow → List ℕ → ℤ → Bool → Type 0
  IsValid aux aux_block_hash chain_id strict_chain_id =
      (aux.coinbase_index ≡ pos 0)
      × ((strict_chain_id ≡ true → extract_chain_id aux.parent_block_header ≢ chain_id)
          × ((length aux.blockchain_branch ≤ 30)
              × ((Proof.compute_merkle_root sha256d (compute_txid sha256d aux.coinbase_tx)
                      aux.coinbase_branch aux.coinbase_index
                    ≡ aux.parent_block_header.merkle_root)
                  × ((script : List ℕ) × ((Proof.first_script aux.coinbase_tx.input ≡ some script)
                        × IsMergedMined aux script
                            (reverse (
                              Proof.compute_merkle_root sha256d aux_block_hash aux.blockchain_branch
                                aux.blockchain_index))
                            chain_id)))))

  -- With a hash function of 32 bytes and an auxiliary block hash of 32 bytes, the check returns for
  -- every proof. It accepts exactly the proofs whose coinbase transaction is the first leaf of the
  -- parent block's Merkle tree and has an input, whose parent is of another chain when that is
  -- asked for, whose blockchain branch has at most 30 nodes, and whose first input's script commits
  -- to the root of that branch as the script check wants; every other proof gives an error.
  pub check_lem :
      (debug : Bool) (aux : AuxPow) (aux_block_hash : List ℕ) (chain_id : ℤ)
      (strict_chain_id : Bool)
      → length aux_block_hash ≡ 32
      → Decides {E = AuxPowValidationError}
          (Proof.check sha256d debug aux aux_block_hash chain_id strict_chain_id)
          (ok tt)
          err
          (IsValid aux aux_block_hash chain_id strict_chain_id)
  unfolding Proof.check
  check_lem debug aux hash chain_id strict l =
      guard_lem (not (==_ℤ aux.coinbase_index (pos 0))) _ _ (not_iff _ (==_ℤ_lem _ _)) (λ _.
        guard_lem (strict && ==_ℤ (extract_chain_id aux.parent_block_header) chain_id) _ _
          (strict_iff strict _ _)
          (λ _. guard_lem (ltb 30 (length aux.blockchain_branch)) _ _ (leb_iff _) (λ short.
            guard_lem _ _ _ (not_iff _ (bytes_eq_iff _ _)) (λ _.
              first_input_lem debug aux _ chain_id _ (omega (arith, short)) (
                length-reverse _
                ∙ root-length hash aux.blockchain_branch aux.blockchain_index l)))))
