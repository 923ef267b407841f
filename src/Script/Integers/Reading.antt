-- ===== src/Script/Integers/Reading.antt =====
-- Reading the numbers of scripts, bitcoin/src/blockdata/script/mod.rs.
use rust_dogecoin.Common.{
  lt→ltb, length-reverse, leb-false, leb→le, ℕ, ◌≡◌, ◌<◌, ◌≤◌, ◌+◌, ◌*◌, ◌%◌, List, [], ◌∷◌, some,
  Bool, true, false, not, ◌&&◌, ◌||◌, length, leb, ltb, ◌==◌, if◌then◌else◌, bit_and, refl, arith,
  sym, ◌∙◌, ap, All, Bool-cases, inl, inr, reverse,
}
use rust_dogecoin.Common.Int.{ℤ, pos, sub_ℕ}
use rust_dogecoin.Common.Results.{Result, ok, err}
use rust_dogecoin.Common.Bits.{and_mask}
use rust_dogecoin.Common.Bytes.{IsByte}
use rust_dogecoin.Script.Integers.{
  split_last, onto, bool_of, all_zero, read_scriptbool, split_last, bool_of, non_minimal_push,
  numeric_overflow, Error, parse_fold, scriptint_parse, no_conflict, read_from_last, read_scriptint,
  read_any, read_scriptint_non_minimal,
}
use rust_dogecoin.Script.Integers.Magnitude.{magnitude, negative, is_minimal, top_bit}

unfoldable pub signed : Bool → ℕ → ℤ
signed neg m = if neg then sub_ℕ 0 m else pos m

-- The masked number under a sign bit, the number itself without.
pick :
    (l ret mask m : ℕ)
    → (128 ≤ l → bit_and ret mask ≡ m)
    → (l < 128 → ret ≡ m)
    → (if not (not (leb 128 l)) then sub_ℕ 0 (bit_and ret mask) else pos ret) ≡ signed (leb 128 l) m
unfolding signed
pick l ret mask m f g = elim (Bool-cases (leb 128 l)) [
  | inl e ↦ rw (e, f (leb→le 128 l e)) refl
  | inr e ↦ rw (e, g (leb-false 128 l e)) refl
]

-- The parsed number, for one to four bytes.
parse_1 : (a : ℕ) → a < 256 → scriptint_parse (a ∷ []) a ≡ signed (leb 128 a) (a % 128)
unfolding scriptint_parse parse_fold
parse_1 a h = rw (top_bit a h) (
    pick a (0 + a * 1) 127 (a % 128) (λ u. omega (arith, and_mask 7 (0 + a * 1)))
      (λ u. omega arith))

parse_2 :
    (a b : ℕ)
    → a < 256
    → b < 256
    → scriptint_parse (a ∷ b ∷ []) b ≡ signed (leb 128 b) (a + 256 * (b % 128))
unfolding scriptint_parse parse_fold
parse_2 a b h i = rw (top_bit b i) (
    pick b (0 + a * 1 + b * 256) 32767 (a + 256 * (b % 128))
      (λ u. omega (arith, and_mask 15 (0 + a * 1 + b * 256))) (λ u. omega arith))

parse_3 :
    (a b c : ℕ)
    → a < 256
    → b < 256
    → c < 256
    → scriptint_parse (a ∷ b ∷ c ∷ []) c ≡ signed (leb 128 c) (a + 256 * (b + 256 * (c % 128)))
unfolding scriptint_parse parse_fold
parse_3 a b c h i j = rw (top_bit c j) (
    pick c (0 + a * 1 + b * 256 + c * 65536) 8388607 (a + 256 * (b + 256 * (c % 128)))
      (λ u. omega (arith, and_mask 23 (0 + a * 1 + b * 256 + c * 65536))) (λ u. omega arith))

parse_4 :
    (a b c d : ℕ)
    → a < 256
    → b < 256
    → c < 256
    → d < 256
    → scriptint_parse (a ∷ b ∷ c ∷ d ∷ []) d
      ≡ signed (leb 128 d) (a + 256 * (b + 256 * (c + 256 * (d % 128))))
unfolding scriptint_parse parse_fold
parse_4 a b c d h i j k = rw (top_bit d k) (
    pick d (0 + a * 1 + b * 256 + c * 65536 + d * 16777216) 2147483647
      (a + 256 * (b + 256 * (c + 256 * (d % 128))))
      (λ u. omega (arith, and_mask 31 (0 + a * 1 + b * 256 + c * 65536 + d * 16777216)))
      (λ u. omega arith))

zero_test : (n : ℕ) → (n == 0) ≡ not (ltb 0 n)
zero_test n = ground arith

low_bits : (l : ℕ) → (bit_and l 0x7f == 0) ≡ not (ltb 0 (l % 128))
low_bits l = let q : bit_and l 0x7f ≡ l % 128 = and_mask 7 l in rw q (zero_test (l % 128))

-- What reading gives: too long, or not of least length, or the number.
unfoldable pub reading : List ℕ → Result ℤ Error
reading v =
    if ltb 4 (length v)
    then err numeric_overflow
    else if is_minimal v
    then ok (signed (negative v) (magnitude v))
    else err non_minimal_push

flip {ℓ} : {A : Type ℓ} (b : Bool) (x y : A) → (if not b then x else y) ≡ (if b then y else x)
flip true x y = refl
flip false x y = refl

twice : (b : Bool) → not (not b) ≡ b
twice true = refl
twice false = refl

both : (a b : Bool) → (not a && not b) ≡ not (a || b)
both true b = refl
both false b = refl

and_true : (a : Bool) → (a && true) ≡ a
and_true true = refl
and_true false = refl

too_long :
    (v w : List ℕ) → length w ≡ length v → 4 < length v → read_from_last v w ≡ err numeric_overflow
unfolding read_from_last
too_long v [] e h = absurd (omega arith)
too_long v (l ∷ w) e h = rw (lt→ltb 4 (length v) h) refl

pub read_scriptint_lem : (v : List ℕ) → All IsByte v → read_scriptint v ≡ reading v
unfolding read_scriptint read_from_last no_conflict reading magnitude negative is_minimal signed
read_scriptint_lem [] y = refl
read_scriptint_lem (a ∷ []) (h, _) = rw (low_bits a, and_true, parse_1 a h, flip) refl
read_scriptint_lem (a ∷ b ∷ []) (h, (i, _)) =
    rw (low_bits b, top_bit a h, both, parse_2 a b h i, flip) refl
read_scriptint_lem (a ∷ b ∷ c ∷ []) (h, (i, (j, _))) =
    rw (low_bits c, top_bit b i, both, parse_3 a b c h i j, flip) refl
read_scriptint_lem (a ∷ b ∷ c ∷ d ∷ []) (h, (i, (j, (k, _)))) =
    rw (low_bits d, top_bit c j, both, parse_4 a b c d h i j k, flip) refl
read_scriptint_lem (a ∷ b ∷ c ∷ d ∷ e ∷ v) y =
    let n : 4 < length (a ∷ b ∷ c ∷ d ∷ e ∷ v) = omega arith in
    too_long (a ∷ b ∷ c ∷ d ∷ e ∷ v) (reverse (a ∷ b ∷ c ∷ d ∷ e ∷ v))
      (length-reverse (a ∷ b ∷ c ∷ d ∷ e ∷ v)) n
    ∙ rw (lt→ltb 4 (length (a ∷ b ∷ c ∷ d ∷ e ∷ v)) n) refl

unfoldable pub reading_any : List ℕ → Result ℤ Error
reading_any v =
    if ltb 4 (length v) then err numeric_overflow else ok (signed (negative v) (magnitude v))

any_too_long :
    (v w : List ℕ) → length w ≡ length v → 4 < length v → read_any v w ≡ err numeric_overflow
unfolding read_any
any_too_long v [] e h = absurd (omega arith)
any_too_long v (l ∷ w) e h = rw (lt→ltb 4 (length v) h) refl

pub read_scriptint_non_minimal_lem :
    (v : List ℕ) → All IsByte v → read_scriptint_non_minimal v ≡ reading_any v
unfolding read_scriptint_non_minimal read_any reading_any magnitude negative signed
read_scriptint_non_minimal_lem [] y = refl
read_scriptint_non_minimal_lem (a ∷ []) (h, _) = rw (parse_1 a h) refl
read_scriptint_non_minimal_lem (a ∷ b ∷ []) (h, (i, _)) = rw (parse_2 a b h i) refl
read_scriptint_non_minimal_lem (a ∷ b ∷ c ∷ []) (h, (i, (j, _))) = rw (parse_3 a b c h i j) refl
read_scriptint_non_minimal_lem (a ∷ b ∷ c ∷ d ∷ []) (h, (i, (j, (k, _)))) =
    rw (parse_4 a b c d h i j k) refl
read_scriptint_non_minimal_lem (a ∷ b ∷ c ∷ d ∷ e ∷ v) y =
    let w : List ℕ = a ∷ b ∷ c ∷ d ∷ e ∷ v in
    let n : 4 < length w = omega arith in
    any_too_long w (reverse w) (length-reverse w) n ∙ rw (lt→ltb 4 (length w) n) refl

split_last-some : (b : ℕ) (v : List ℕ) → (p : ℕ × List ℕ) × (split_last (b ∷ v) ≡ some p)
unfolding split_last
split_last-some b [] = ((b, []), refl)
split_last-some b (c ∷ v) =
    let ((last, rest), e) = split_last-some c v in ((last, b ∷ rest), rw e refl)

bool_of-onto :
    (b : ℕ) (p : ℕ × List ℕ) → bool_of (onto b (some p)) ≡ not (b == 0) || bool_of (some p)
unfolding bool_of
bool_of-onto b (last, rest) = move (b == 0) (bit_and last 0x7f == 0) (all_zero rest)
  where
    move : (x y z : Bool) → not (y && (x && z)) ≡ not x || not (y && z)
    move true y z = refl
    move false true z = refl
    move false false z = refl

some_byte : (b m : ℕ) → not (b == 0) || ltb 0 m ≡ ltb 0 (b + 256 * m)
some_byte b m = ground arith

-- The last byte and the ones before it tell a nonzero magnitude.
pub read_scriptbool_lem : (v : List ℕ) → read_scriptbool v ≡ ltb 0 (magnitude v)
unfolding read_scriptbool bool_of split_last magnitude
read_scriptbool_lem [] = refl
read_scriptbool_lem (l ∷ []) = rw (low_bits l, and_true) (twice (ltb 0 (l % 128)))
read_scriptbool_lem (b ∷ c ∷ v) =
    let (p, e) = split_last-some c v in
    let known : bool_of (split_last (c ∷ v)) ≡ ltb 0 (magnitude (c ∷ v)) =
      read_scriptbool_lem (c ∷ v) in
    let ih : bool_of (some p) ≡ ltb 0 (magnitude (c ∷ v)) = ap bool_of (sym e) ∙ known in
    ap (λ o. bool_of (onto b o)) e
    ∙ bool_of-onto b p
    ∙ ap (λ t. not (b == 0) || t) ih
    ∙ some_byte b (magnitude (c ∷ v))
