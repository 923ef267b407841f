-- ===== src/Dogecoin/AuxPow/Merkle.antt =====
-- `compute_merkle_root` of bitcoin/src/dogecoin/auxpow.rs binds the leaf and the branch.
use rust_dogecoin.Common.Bytes.{bytes_eq, bytes_eq_sound, bytes_eq-false}
use rust_dogecoin.Common.{
  drop, drop-append, take, take-append, ◌∙◌, ℕ, ◌≡◌, ◌≢◌, ◌⊎◌, List, [], ◌∷◌, ◌++◌, length, refl,
  true, false, arith, inl, inr, Bool, if◌then◌else◌, ap, sym, ◌%◌, Bool-cases,
}
use rust_dogecoin.Common
use rust_dogecoin.Common.{◌==◌}
use rust_dogecoin.Common.Int.{ℤ, to_word, shr_ℤ}
use rust_dogecoin.Dogecoin.AuxPow.{compute_merkle_root}
use rust_dogecoin.Dogecoin.AuxPow

-- Lists of the same length that agree after being joined agree piece by piece.
append_parts : (a b c d : List ℕ) → length a ≡ length c → a ++ b ≡ c ++ d → (a ≡ c) × (b ≡ d)
append_parts a b c d h e = (
  sym (take-append a b) ∙ ap (take (length a)) e ∙ ap (λ n. take n (c ++ d)) h ∙ take-append c d,
  sym (drop-append a b) ∙ ap (drop (length a)) e ∙ ap (λ n. drop n (c ++ d)) h ∙ drop-append c d,
)

cons_eq : {b c : List ℕ} {bs cs : List (List ℕ)} → b ≡ c → bs ≡ cs → (b ∷ bs) ≡ (c ∷ cs)
cons_eq p q = λ i. p i ∷ q i

module _ (sha256d : List ℕ → List ℕ) (size : (x : List ℕ) → length (sha256d x) ≡ 32) where
  -- Two different inputs with the same hash.
  abbrev pub Collision : Type 0
  Collision = (x : List ℕ) × (y : List ℕ) × ((x ≢ y) × (sha256d x ≡ sha256d y))

  abbrev pub IsHash : List ℕ → Type 0
  IsHash x = length x ≡ 32

  parent_hash_lem :
      (a b c d : List ℕ)
      → IsHash a
      → IsHash c
      → AuxPow.parent_hash sha256d a b ≡ AuxPow.parent_hash sha256d c d
      → ((a ≡ c) × (b ≡ d)) ⊎ Collision
  unfolding AuxPow.parent_hash
  parent_hash_lem a b c d h k e = elim (Bool-cases (bytes_eq (a ++ b) (c ++ d))) [
    | inl f ↦ inl (append_parts a b c d (h ∙ sym k) (bytes_eq_sound (a ++ b) (c ++ d) f))
    | inr f ↦ inr (a ++ b, c ++ d, (bytes_eq-false (a ++ b) (c ++ d) f, e))
  ]

  -- One level of the loop.
  step : Bool → List ℕ → List ℕ → List ℕ
  step right b x = if right then AuxPow.parent_hash sha256d b x else AuxPow.parent_hash sha256d x b

  step-IsHash : (right : Bool) (b x : List ℕ) → IsHash (step right b x)
  unfolding step AuxPow.parent_hash
  step-IsHash true b x = size (b ++ x)
  step-IsHash false b x = size (x ++ b)

  step_lem :
      (right : Bool) (b x c y : List ℕ)
      → IsHash b
      → IsHash x
      → IsHash c
      → IsHash y
      → step right b x ≡ step right c y
      → ((x ≡ y) × (b ≡ c)) ⊎ Collision
  unfolding step
  step_lem true b x c y hb hx hc hy e = elim (parent_hash_lem b x c y hb hc e) [
    | inl (p, q) ↦ inl (q, p)
    | inr z ↦ inr z
  ]
  step_lem false b x c y hb hx hc hy e = parent_hash_lem x b y c hx hy e

  -- With a hash function of 32 bytes, two leaves of 32 bytes with branches of the same length of
  -- 32-byte nodes that give the same root at the same index are the same leaf with the same branch,
  -- unless there are two different inputs with the same hash.
  pub compute_merkle_root-binds :
      (x y : List ℕ) (bs cs : List (List ℕ)) (index : ℤ)
      → IsHash x
      → IsHash y
      → Common.All IsHash bs
      → Common.All IsHash cs
      → length bs ≡ length cs
      → compute_merkle_root sha256d x bs index ≡ compute_merkle_root sha256d y cs index
      → ((x ≡ y) × (bs ≡ cs)) ⊎ Collision
  unfolding compute_merkle_root step
  compute_merkle_root-binds x y [] [] index h k hs ks l e = inl (e, refl)
  compute_merkle_root-binds x y [] (c ∷ cs) index h k hs ks l e = ground arith
  compute_merkle_root-binds x y (b ∷ bs) [] index h k hs ks l e = ground arith
  compute_merkle_root-binds x y (b ∷ bs) (c ∷ cs) index h k (hb, hs) (kc, ks) l e =
      let right = to_word 32 index % 2 == 1 in
      elim (compute_merkle_root-binds (step right b x) (step right c y) bs cs (shr_ℤ index 1)
        (step-IsHash right b x) (step-IsHash right c y) hs ks (omega arith) e) [
          | inl (p, q) ↦ elim (step_lem right b x c y hb h kc k p) [
            | inl (r, t) ↦ inl (r, cons_eq t q)
            | inr z ↦ inr z
          ]
          | inr z ↦ inr z
        ]
