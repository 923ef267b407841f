-- ===== src/Dogecoin/AuxPow/Search.antt =====
-- `find_bytes` of bitcoin/src/dogecoin/auxpow.rs finds the first occurrence.
use rust_dogecoin.Common.Bytes.{bytes_eq, bytes_eq_sound, bytes_eq-false}
use rust_dogecoin.Common.{◌⊎◌}
use rust_dogecoin.Common.{
  length-drop, leb-false, length-take, Bool-cases, ℕ, zero, suc, ◌≡◌, List, [], ◌∷◌, length, refl,
  leb, arith, ◌<◌, ◌≤◌, inl, inr, take, drop, Option, some, none, ap, ◌>>=◌, ◌+◌,
}
use rust_dogecoin.Dogecoin.AuxPow.{windows, position, find_bytes}

-- The bytes from `i` on begin with `needle`.
abbrev pub IsAt : List ℕ → List ℕ → ℕ → Type 0
IsAt haystack needle i = take (length needle) (drop i haystack) ≡ needle

-- `some i` is the place of the first occurrence, and `none` says that there is none.
abbrev pub IsFound : List ℕ → List ℕ → Option ℕ → Type 0
IsFound haystack needle (some i) =
    IsAt haystack needle i × ((j : ℕ) → j < i → ¬ (IsAt haystack needle j))
IsFound haystack needle none = (j : ℕ) → ¬ (IsAt haystack needle j)

-- An occurrence ends inside the haystack.
pub IsAt-bound :
    (haystack needle : List ℕ) (i : ℕ)
    → IsAt haystack needle i
    → 0 < length needle
    → i + length needle ≤ length haystack
IsAt-bound haystack needle i h k =
    let e = ap length h in
    omega (arith, e, length-take (length needle) (drop i haystack), length-drop i haystack)

IsFound-later :
    (x : ℕ) (xs needle : List ℕ) (o : Option ℕ)
    → ¬ (IsAt (x ∷ xs) needle 0)
    → IsFound xs needle o
    → IsFound (x ∷ xs) needle (do i ← o; some (suc i))
IsFound-later x xs needle (some i) h (a, b) = (a, go)
  where
    go : (j : ℕ) → j < suc i → ¬ (IsAt (x ∷ xs) needle j)
    go zero k = h
    go (suc j) k = b j (omega arith)
IsFound-later x xs needle none h b = go
  where
    go : (j : ℕ) → ¬ (IsAt (x ∷ xs) needle j)
    go zero = h
    go (suc j) = b j

scan-IsFound :
    (haystack needle : List ℕ)
    → 0 < length needle
    → IsFound haystack needle (position (λ w. bytes_eq w needle) (windows (length needle) haystack))
unfolding position windows
scan-IsFound [] needle h = λ j e. omega (arith, IsAt-bound [] needle j e h)
scan-IsFound (x ∷ xs) needle h = elim (Bool-cases (leb (length needle) (length (x ∷ xs)))) [
  | inl e ↦ elim (Bool-cases (bytes_eq (take (length needle) (x ∷ xs)) needle)) [
    | inl f ↦
        rw (e, f) (bytes_eq_sound (take (length needle) (x ∷ xs)) needle f, λ j k. ground arith)
    | inr f ↦
        rw (e, f)
          (IsFound-later x xs needle
            (position (λ w. bytes_eq w needle) (windows (length needle) xs))
            (bytes_eq-false (take (length needle) (x ∷ xs)) needle f) (scan-IsFound xs needle h))
  ]
  | inr e ↦ rw e (λ j k.
      omega
        (arith, IsAt-bound (x ∷ xs) needle j k h, leb-false (length needle) (length (x ∷ xs)) e))
]

-- The search returns the place of the first occurrence of the needle, or nothing when it does not
-- occur.
pub find_bytes-IsFound :
    (haystack needle : List ℕ) → IsFound haystack needle (find_bytes haystack needle)
unfolding find_bytes
find_bytes-IsFound haystack [] = (refl, λ j k. ground arith)
find_bytes-IsFound haystack (y ∷ ys) = scan-IsFound haystack (y ∷ ys) (omega arith)

compare_cases : (i j : ℕ) → (i < j) ⊎ ((j < i) ⊎ (i ≡ j))
compare_cases i j = omega arith

-- A search has one answer.
pub IsFound-unique :
    (haystack needle : List ℕ) (o : Option ℕ)
    → IsFound haystack needle o
    → find_bytes haystack needle ≡ o
IsFound-unique haystack needle o h =
    agree (find_bytes haystack needle) o (find_bytes-IsFound haystack needle) h
  where
    agree : (p q : Option ℕ) → IsFound haystack needle p → IsFound haystack needle q → p ≡ q
    agree none none a b = refl
    agree none (some j) a (b, c) = elim (a j b) [ ]
    agree (some i) none (a, c) b = elim (b i a) [ ]
    agree (some i) (some j) (a, c) (b, d) = elim (compare_cases i j) [
      | inl e ↦ elim (d i e a) [ ]
      | inr (inl e) ↦ elim (c j e b) [ ]
      | inr (inr e) ↦ ap some e
    ]
