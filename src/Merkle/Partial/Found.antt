-- ===== src/Merkle/Partial/Found.antt =====
-- Inversion of the steps of an extraction in bitcoin/src/merkle_tree/block.rs, and what holds of all that it
-- finds.
use native.Mathlib.Nat.{mul_comm, div-div-eq-div-mul}
use rust_dogecoin.Common.{
  ℕ, suc, ◌≡◌, ◌/◌, ◌^◌, List, [], ◌∷◌, ◌++◌, Bool, true, false, refl, arith, ap, sym, inl, inr,
  if◌then◌else◌, get_elem?, Option-cases,
}
use rust_dogecoin.Common.Bits.{pow_double, pow_pos}
use rust_dogecoin.Common.Results.{Result, ok, err}
use rust_dogecoin.Merkle.Partial.{
  PartialMerkleTree, Extraction, MerkleBlockError, next_bit, next_hash, then_ok,
}

-- A property of the leaves found with their positions, which are as many.
abbrev pub Paired : (List ℕ → ℕ → Type 0) → List (List ℕ) → List ℕ → Type 0
Paired P [] [] = Unit {0}
Paired P [] (i ∷ is) = ⊥
Paired P (f ∷ fs) [] = ⊥
Paired P (f ∷ fs) (i ∷ is) = P f i × Paired P fs is

pub Paired-append :
    (P : List ℕ → ℕ → Type 0) (fs gs : List (List ℕ)) (is js : List ℕ)
    → Paired P fs is
    → Paired P gs js
    → Paired P (fs ++ gs) (is ++ js)
Paired-append P [] gs [] js a b = b
Paired-append P [] gs (i ∷ is) js a b = absurd a
Paired-append P (f ∷ fs) gs [] js a b = absurd a
Paired-append P (f ∷ fs) gs (i ∷ is) js (p, a) b = (p, Paired-append P fs gs is js a b)

pub Paired-map :
    (P Q : List ℕ → ℕ → Type 0) (fs : List (List ℕ)) (is : List ℕ)
    → ((f : List ℕ) (i : ℕ) → P f i → Q f i)
    → Paired P fs is
    → Paired Q fs is
Paired-map P Q [] [] g a = tt
Paired-map P Q [] (i ∷ is) g a = absurd a
Paired-map P Q (f ∷ fs) [] g a = absurd a
Paired-map P Q (f ∷ fs) (i ∷ is) g (p, a) = (g f i p, Paired-map P Q fs is g a)

pub then_ok-ok {ℓ κ} :
    {A : Type ℓ} {B : Type κ} (m : Result A MerkleBlockError) (f : A → Result B MerkleBlockError)
    (b : B)
    → then_ok m f ≡ ok b
    → (a : A) × (m ≡ ok a) × (f a ≡ ok b)
then_ok-ok (ok a) f b h = (a, refl, h)
then_ok-ok (err e) f b h = cc

pub if_true {ℓ} : {A : Type ℓ} (b : Bool) (x y z : A) → b ≡ true → (if b then x else y) ≡ z → x ≡ z
if_true true x y z e h = h
if_true false x y z e h = absurd (search arith)

pub if_false {ℓ} :
    {A : Type ℓ} (b : Bool) (x y z : A) → b ≡ false → (if b then x else y) ≡ z → y ≡ z
if_false true x y z e h = absurd (search arith)
if_false false x y z e h = h

pub past_guard {ℓ} :
    {A : Type ℓ} (b : Bool) (e : MerkleBlockError) (m : Result A MerkleBlockError) (out : A)
    → (if b then err e else m) ≡ ok out
    → (b ≡ false) × (m ≡ ok out)
past_guard true e m out h = absurd (search arith)
past_guard false e m out h = (refl, h)

-- An extraction that has found nothing new.
abbrev pub Keeps : Extraction → Extraction → Type 0
Keeps x y = (y.found ≡ x.found) × (y.indexes ≡ x.indexes)

pub ok_inj {ℓ} : {A : Type ℓ} {x y : A} → Path (Result A MerkleBlockError) (ok x) (ok y) → x ≡ y
ok_inj {x = x} e = ap (λ o. elim o [ ok z ↦ z | err _ ↦ x ]) e

pub next_bit-Keeps :
    (t : PartialMerkleTree) (x y : Extraction) (b : Bool) → next_bit t x ≡ ok (b, y) → Keeps x y
unfolding next_bit
next_bit-Keeps t x y b h = elim (Option-cases (get_elem? t.bits x.bits_used)) [
  | inl e ↦ let f = rw (e, next_bit) at h in cc
  | inr (c, e) ↦
      let f = ok_inj (rw (e, next_bit) at h) in
      (ap (λ p. p.1.found) (sym f), ap (λ p. p.1.indexes) (sym f))
]

pub next_hash-Keeps :
    (t : PartialMerkleTree) (x y : Extraction) (b : List ℕ) → next_hash t x ≡ ok (b, y) → Keeps x y
unfolding next_hash
next_hash-Keeps t x y b h = elim (Option-cases (get_elem? t.hashes x.hash_used)) [
  | inl e ↦ let f = rw (e, next_hash) at h in cc
  | inr (c, e) ↦
      let f = ok_inj (rw (e, next_hash) at h) in
      (ap (λ p. p.1.found) (sym f), ap (λ p. p.1.indexes) (sym f))
]

pub div_twice : (i k : ℕ) → i / 2 / 2 ^ k ≡ i / 2 ^ suc k
div_twice i k = rw (pow_double k) (grind (arith, pow_pos k))

pub div_half : (i k : ℕ) → i / 2 ^ suc k ≡ i / 2 ^ k / 2
div_half i k = rw (pow_double k, mul_comm 2 (2 ^ k)) (sym (div-div-eq-div-mul i (2 ^ k) 2))
