-- ===== src/Dogecoin/AuxPow/Script.antt =====
-- The merged-mining data of a coinbase script: `check_merged_mining_coinbase_script` of
-- bitcoin/src/dogecoin/auxpow.rs decides a description of the script.
use rust_dogecoin.Common.{
  ◌∙◌, ◌↔◌, subst, sym, ==_iff, ℕ, ◌≡◌, ◌⊎◌, inl, inr, List, length, take, drop, Option, some, none,
  Bool, true, false, refl, arith, ◌+◌, ◌<◌, ◌≤◌, ◌^◌, ltb, leb, ◌==◌,
}
use rust_dogecoin.Common.{Bool-cases, ltb→lt, ltb-false}
use rust_dogecoin.Common.Bytes.{from_le_bytes}
use rust_dogecoin.Common.Int.{negsuc, ℤ, pos, to_word}
use rust_dogecoin.Common.Results.{ok, err}
use rust_dogecoin.Dogecoin.AuxPow as Proof
use rust_dogecoin.Dogecoin.AuxPow.{
  ==_ℤ, AuxPow, AuxPowCoinbaseScriptValidationError, merged_mining_header, find_bytes, slice_from,
  header_place, size_and_nonce, check_merged_mining_coinbase_script,
}
use rust_dogecoin.Dogecoin.AuxPow.Search.{IsFound, IsFound-unique, find_bytes-IsFound, IsAt-bound}
use rust_dogecoin.Dogecoin.AuxPow.Index.{slot, shl_one_lem, get_expected_index_lem}

-- A computation that decides `P`: it succeeds when `P` holds, fails with an error when it does not,
-- and never panics.
abbrev pub Decides {ℓ κ} :
    {A : Type ℓ} {E : Type κ} → Option A → A → (E → A) → Type 0 → Type (ℓ ⊔ κ)
Decides {E = E} r good bad P = ((r ≡ some good) × P) ⊎ ((e : E) × ((r ≡ some (bad e)) × (¬ P)))

pub slice_from_lem :
    (start : ℕ) (bytes : List ℕ)
    → start ≤ length bytes
    → slice_from start bytes ≡ some (drop start bytes)
unfolding slice_from
slice_from_lem start bytes h = let e : leb start (length bytes) ≡ true = ground arith in rw e refl

-- There is no header and the root starts in the first 20 bytes, or there is one header, just before
-- the root.
abbrev pub IsPlaced : List ℕ → ℕ → Type 0
IsPlaced script root_pos =
    (IsFound script merged_mining_header none × (root_pos ≤ 20))
    ⊎ ((header_pos : ℕ) × (IsFound script merged_mining_header (some header_pos)
          × (IsFound (drop (header_pos + 4) script) merged_mining_header none
              × (header_pos + 4 ≡ root_pos))))

none≢some {ℓ} : {A : Type ℓ} {o : Option A} {a : A} → o ≡ none → o ≡ some a → ⊥
none≢some e f = ground arith

abbrev IsHeader : List ℕ → Option ℕ → Type 0
IsHeader script o = IsFound script merged_mining_header o

pub true≢false : true ≡ false → ⊥
true≢false h = ground arith

no_header : (script : List ℕ) (h : ℕ) → IsHeader script none → IsHeader script (some h) → ⊥
no_header script h a b =
    none≢some (IsFound-unique script merged_mining_header none a)
      (IsFound-unique script merged_mining_header (some h) b)

pub same_header :
    (script needle : List ℕ) (h k : ℕ)
    → IsFound script needle (some h)
    → IsFound script needle (some k)
    → h ≡ k
same_header script needle h k a b =
    let e = IsFound-unique script needle (some h) a in
    let f = IsFound-unique script needle (some k) b in some_inj h k (sym e ∙ f)
  where
    some_inj : (m n : ℕ) → some m ≡ some n → m ≡ n
    some_inj m n e = ground arith

one_header_lem :
    (script : List ℕ) (root_pos h : ℕ) (o : Option ℕ)
    → IsHeader script (some h)
    → IsHeader (drop (h + 4) script) o
    → Decides {E = AuxPowCoinbaseScriptValidationError}
        (some (Proof.one_header h root_pos o))
        none
        some
        (IsPlaced script root_pos)
unfolding Proof.one_header
one_header_lem script root_pos h none f k = elim (Bool-cases (h + 4 == root_pos)) [
  | inl t ↦ rw t (inl (refl, inr (h, (f, (k, (==_iff (h + 4) root_pos).0 t)))))
  | inr t ↦ rw t (
      inr (
        Proof.header_not_adjacent,
        (
          refl,
          λ p. elim p [
            | inl (a, b) ↦ no_header script h a f
            | inr (hp, (a, (b, c))) ↦
                let q = same_header script merged_mining_header hp h a f in ground arith
          ],
        ),
      ))
]
one_header_lem script root_pos h (some i) f k = inr (
  Proof.multiple_headers,
  (
    refl,
    λ p. elim p [
      | inl (a, b) ↦ no_header script h a f
      | inr (hp, (a, (b, c))) ↦
          no_header (drop (h + 4) script) i
            (subst (λ m. IsHeader (drop (m + 4) script) none)
              (same_header script merged_mining_header hp h a f) b)
            k
    ],
  ),
)

pub header_place_lem :
    (script : List ℕ) (root_pos : ℕ) (o : Option ℕ)
    → IsHeader script o
    → Decides {E = AuxPowCoinbaseScriptValidationError}
        (header_place script root_pos o)
        none
        some
        (IsPlaced script root_pos)
unfolding header_place
header_place_lem script root_pos none f = elim (Bool-cases (ltb 20 root_pos)) [
  | inl g ↦ rw g (
      inr (
        Proof.legacy_root_too_far,
        (
          refl,
          λ p. elim p [
            | inl (a, b) ↦ omega (arith, ltb→lt 20 root_pos g)
            | inr (hp, (a, b)) ↦ no_header script hp f a
          ],
        ),
      ))
  | inr g ↦ rw g (inl (refl, inl (f, ltb-false 20 root_pos g)))
]
header_place_lem script root_pos (some h) f =
    rw (slice_from_lem (h + 4) script (IsAt-bound script merged_mining_header h f.0 (omega arith)))
      (one_header_lem script root_pos h _ f
        (find_bytes-IsFound (drop (h + 4) script) merged_mining_header))

-- The eight bytes behind the root are the tree's size and the nonce that gives the chain's slot.
abbrev pub IsSized : AuxPow → ℤ → List ℕ → Type 0
IsSized aux chain_id remaining =
    (8 ≤ length remaining)
    × ((from_le_bytes (take 4 remaining) ≡ 2 ^ length aux.blockchain_branch)
        × (aux.blockchain_index
            ≡ pos (
                slot (from_le_bytes (take 4 (drop 4 remaining))) (to_word 32 chain_id)
                  (length aux.blockchain_branch))))

pub ==_ℤ_lem : (a b : ℤ) → (==_ℤ a b ≡ true) ↔ (a ≡ b)
==_ℤ_lem (pos a) (pos b) = ground arith
==_ℤ_lem (pos a) (negsuc b) = ground arith
==_ℤ_lem (negsuc a) (pos b) = ground arith
==_ℤ_lem (negsuc a) (negsuc b) = ground arith

pub size_and_nonce_lem :
    (debug : Bool) (aux : AuxPow) (chain_id : ℤ) (remaining : List ℕ)
    → length aux.blockchain_branch < 32
    → Decides {E = AuxPowCoinbaseScriptValidationError}
        (size_and_nonce debug aux chain_id remaining)
        (ok tt)
        err
        (IsSized aux chain_id remaining)
unfolding size_and_nonce
size_and_nonce_lem debug aux chain_id remaining h = elim (Bool-cases (ltb (length remaining) 8)) [
  | inl e ↦ rw e (
      inr (
        Proof.missing_merkle_size_and_nonce,
        (refl, λ (a, b). omega (arith, ltb→lt (length remaining) 8 e)),
      ))
  | inr e ↦ elim (Bool-cases (from_le_bytes (take 4 remaining) == 2 ^ height)) [
    | inl f ↦ elim (Bool-cases (==_ℤ aux.blockchain_index expected)) [
      | inl g ↦
          rw (e, shl_one_lem debug height h, f, index, g)
            (inl (refl, (ltb-false (length remaining) 8 e, ((==_iff _ _).0 f, (==_ℤ_lem _ _).0 g))))
      | inr g ↦
          rw (e, shl_one_lem debug height h, f, index, g)
            (inr (
              Proof.invalid_chain_index,
              (refl, λ (a, (b, c)). true≢false (sym ((==_ℤ_lem _ _).1 c) ∙ g)),
            ))
    ]
    | inr f ↦
        rw (e, shl_one_lem debug height h, f)
          (inr (
            Proof.merkle_size_mismatch,
            (refl, λ (a, (b, c)). true≢false (sym ((==_iff _ _).1 b) ∙ f)),
          ))
  ]
]
  where
    height : ℕ
    height = length aux.blockchain_branch

    nonce : ℕ
    nonce = from_le_bytes (take 4 (drop 4 remaining))

    expected : ℤ
    expected = pos (slot nonce (to_word 32 chain_id) height)

    index : Proof.get_expected_index debug nonce chain_id height ≡ some expected
    index = (get_expected_index_lem debug nonce chain_id height h).0
