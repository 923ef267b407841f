-- ===== src/Script/Instructions/Parse.antt =====
-- The iterator of bitcoin/src/blockdata/script/instruction.rs reads the pushes of owned.rs and builder.rs.
use rust_dogecoin.Common.{
  ltb-false, inr, ltb→lt, inl, Bool-cases, drop-append, take-append, lt→ltb, length-append,
  le→ltb-false, le→leb, ℕ, ◌≡◌, ◌<◌, ◌≤◌, ◌/◌, ◌%◌, ◌^◌, List, [], ◌∷◌, ◌++◌, Bool, true, false,
  ◌&&◌, length, ltb, ◌==◌, if◌then◌else◌, some, refl, arith,
}
use rust_dogecoin.Common.Results.{Result, ok, err}
use rust_dogecoin.Script.Integers.{Error}
use rust_dogecoin.Script.Opcodes.{Class, classify, legacy}
use rust_dogecoin.Script.Instructions.{
  Instruction, push_bytes, uint_loop, read_uint_iter, take_slice_or_kill, push_of_len,
  next_push_data_len, has_opcode, next_of_class, next, push_header,
}

classify_short : (n : ℕ) → n ≤ 75 → classify legacy n ≡ Class.push_bytes n
unfolding classify
classify_short n h = ground arith

take_slice-append :
    (xs rest : List ℕ) → take_slice_or_kill (length xs) (xs ++ rest) ≡ (ok (push_bytes xs), rest)
unfolding take_slice_or_kill
take_slice-append xs rest =
    rw
      (
        le→leb (length xs) (length (xs ++ rest)) (omega (arith, length-append xs rest)),
        take-append,
        drop-append,
      )
      refl

-- The length bytes are little-endian.
uint_1 : (a : ℕ) → a < 256 → uint_loop 0 0 (a ∷ []) ≡ ok a
unfolding uint_loop
uint_1 a h = ground arith

uint_2 : (n : ℕ) → n < 0x10000 → uint_loop 0 0 (n % 0x100 ∷ n / 0x100 ∷ []) ≡ ok n
unfolding uint_loop
uint_2 n h = ground arith

uint_4 :
    (n : ℕ)
    → n < 0x1_0000_0000
    → uint_loop 0 0 (n % 0x100 ∷ n / 0x100 % 0x100 ∷ n / 0x10000 % 0x100 ∷ n / 0x100_0000 ∷ [])
      ≡ ok n
unfolding uint_loop
uint_4 n h = ground arith

-- A length that is long enough for its push.
push_of_len-append :
    (enforce : Bool) (least : ℕ) (xs rest : List ℕ)
    → least ≤ length xs
    → length xs < 2 ^ 32
    → push_of_len enforce least (ok (length xs), xs ++ rest) ≡ (ok (push_bytes xs), rest)
unfolding push_of_len
push_of_len-append enforce least xs rest h k =
    rw (le→ltb-false (length xs) least h, lt→ltb (length xs) (2 ^ 32) k, take_slice-append xs rest)
      (no_guard enforce)
  where
    no_guard :
        (b : Bool)
        → Path
            (Result Instruction Error × List ℕ)
            (if b && false then (err Error.non_minimal_push, []) else (ok (push_bytes xs), rest))
            (ok (push_bytes xs), rest)
    no_guard true = refl
    no_guard false = refl

-- The reading of as many length bytes as there are.
read_uint-append :
    (size : ℕ) (bytes left : List ℕ)
    → length bytes ≡ size
    → size ≤ 4
    → read_uint_iter (bytes ++ left) size ≡ (uint_loop 0 0 bytes, left)
unfolding read_uint_iter
read_uint-append size bytes left e h =
    rw
      (
        ← e,
        le→ltb-false (length (bytes ++ left)) (length bytes)
            (omega (arith, length-append bytes left)),
        le→ltb-false 8191 (length bytes) (omega (arith, e)),
        take-append,
        drop-append,
      )
      refl

one_byte_same :
    (pushed rest : List ℕ)
    → ((length pushed == 1) && has_opcode (pushed ++ rest))
      ≡ ((length pushed == 1) && has_opcode pushed)
one_byte_same [] rest = refl
one_byte_same (b ∷ pushed) rest = refl

classes :
    (classify legacy 0x4c ≡ Class.ordinary 0x4c)
    × (classify legacy 0x4d ≡ Class.ordinary 0x4d)
    × (classify legacy 0x4e ≡ Class.ordinary 0x4e)
unfolding classify
classes = (refl, refl, refl)

-- The bytes of a push.
abbrev pub Encodes : Bool → List ℕ → List ℕ → List ℕ → Type 0
Encodes enforce pushed header rest =
    (push_header (length pushed) ≡ some header)
    × (next enforce (header ++ (pushed ++ rest)) ≡ some (ok (push_bytes pushed), rest))

short_push :
    (enforce : Bool) (pushed rest : List ℕ)
    → length pushed < 0x4c
    → (enforce && ((length pushed == 1) && has_opcode pushed)) ≡ false
    → Encodes enforce pushed (length pushed ∷ []) rest
unfolding push_header next next_of_class
short_push enforce pushed rest h g = (
  rw (lt→ltb (length pushed) 0x4c h) refl,
  rw
      (
        classify_short (length pushed) (omega arith),
        one_byte_same pushed rest,
        g,
        take_slice-append pushed rest,
      )
      refl,
)

push_1 :
    (enforce : Bool) (pushed rest : List ℕ)
    → 0x4c ≤ length pushed
    → length pushed < 0x100
    → Encodes enforce pushed (0x4c ∷ length pushed ∷ []) rest
unfolding push_header next next_of_class next_push_data_len
push_1 enforce pushed rest l h = (
  rw (le→ltb-false (length pushed) 0x4c l, lt→ltb (length pushed) 0x100 h) refl,
  rw
      (
        classes.0,
        read_uint-append 1 (length pushed ∷ []) (pushed ++ rest) refl (omega arith),
        uint_1 (length pushed) h,
        push_of_len-append enforce 76 pushed rest l (omega (arith, h)),
      )
      refl,
)

push_2 :
    (enforce : Bool) (pushed rest : List ℕ)
    → 0x100 ≤ length pushed
    → length pushed < 0x10000
    → Encodes enforce pushed (0x4d ∷ length pushed % 0x100 ∷ length pushed / 0x100 ∷ []) rest
unfolding push_header next next_of_class next_push_data_len
push_2 enforce pushed rest l h = (
  rw
      (
        le→ltb-false (length pushed) 0x4c (omega (arith, l)),
        le→ltb-false (length pushed) 0x100 l,
        lt→ltb (length pushed) 0x10000 h,
      )
      refl,
  rw
      (
        classes.1,
        read_uint-append 2 (length pushed % 0x100 ∷ length pushed / 0x100 ∷ []) (pushed ++ rest)
            refl (omega arith),
        uint_2 (length pushed) h,
        push_of_len-append enforce 0x100 pushed rest l (omega (arith, h)),
      )
      refl,
)

push_4 :
    (enforce : Bool) (pushed rest : List ℕ)
    → 0x10000 ≤ length pushed
    → length pushed < 0x1_0000_0000
    → Encodes enforce pushed
        (0x4e
          ∷ length pushed % 0x100
          ∷ length pushed / 0x100 % 0x100
          ∷ length pushed / 0x10000 % 0x100
          ∷ length pushed / 0x100_0000
          ∷ [])
        rest
unfolding push_header next next_of_class next_push_data_len
push_4 enforce pushed rest l h = (
  rw
      (
        le→ltb-false (length pushed) 0x4c (omega (arith, l)),
        le→ltb-false (length pushed) 0x100 (omega (arith, l)),
        le→ltb-false (length pushed) 0x10000 l,
        lt→ltb (length pushed) 0x1_0000_0000 h,
      )
      refl,
  rw
      (
        classes.2,
        read_uint-append 4
            (length pushed % 0x100
              ∷ length pushed / 0x100 % 0x100
              ∷ length pushed / 0x10000 % 0x100
              ∷ length pushed / 0x100_0000
              ∷ [])
            (pushed ++ rest) refl (omega arith),
        uint_4 (length pushed) h,
        push_of_len-append enforce 0x10000 pushed rest l h,
      )
      refl,
)

pub next-push_header :
    (enforce : Bool) (pushed rest : List ℕ)
    → length pushed < 2 ^ 32
    → (enforce && ((length pushed == 1) && has_opcode pushed)) ≡ false
    → (header : List ℕ) × Encodes enforce pushed header rest
next-push_header enforce pushed rest h g = elim (Bool-cases (ltb (length pushed) 0x4c)) [
  | inl a ↦ (_, short_push enforce pushed rest (ltb→lt _ _ a) g)
  | inr a ↦ elim (Bool-cases (ltb (length pushed) 0x100)) [
    | inl b ↦ (_, push_1 enforce pushed rest (ltb-false _ _ a) (ltb→lt _ _ b))
    | inr b ↦ elim (Bool-cases (ltb (length pushed) 0x10000)) [
      | inl c ↦ (_, push_2 enforce pushed rest (ltb-false _ _ b) (ltb→lt _ _ c))
      | inr c ↦ (_, push_4 enforce pushed rest (ltb-false _ _ c) h)
    ]
  ]
]
