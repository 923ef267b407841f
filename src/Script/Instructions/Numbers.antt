-- ===== src/Script/Instructions/Numbers.antt =====
-- Numbers pushed by builder.rs in bitcoin/src/blockdata/script are read as such by the iterator and by
-- `Instruction::script_num`.
use rust_dogecoin.Common.{
  lt→leb-false, leb-false, inr, leb→le, inl, Bool-cases, le→leb, append_assoc, ℕ, zero, suc, ◌≡◌,
  ◌<◌, ◌≤◌, ◌+◌, ◌-◌, ◌^◌, List, [], ◌∷◌, ◌++◌, true, false, ◌&&◌, length, leb, ◌==◌, Option, some,
  refl, arith, ap,
}
use rust_dogecoin.Common.Int.{ℤ, pos, negsuc}
use rust_dogecoin.Common.Results.{ok}
use rust_dogecoin.Script.Integers.{
  read_scriptint, read_scriptint_non_minimal, read_any, unsigned_abs, is_negative,
}
use rust_dogecoin.Script.Integers.Magnitude.{magnitude, negative}
use rust_dogecoin.Script.Integers.Written.{written_number, pos-nonzero}
use rust_dogecoin.Script.Opcodes.{classify}
use rust_dogecoin.Script.Instructions.{
  Instruction, push_bytes, op, has_opcode, next_of_class, next, take_slice_or_kill, push_slice,
  push_opcode, push_int, push_int_non_minimal, script_num, success,
}
use rust_dogecoin.Script.Instructions.Parse.{next-push_header}
use rust_dogecoin.Script.Instructions.Whole.{op_lem}

-- Numbers without an opcode of their own.
abbrev pub HasNoOpcode : ℤ → Type 0
HasNoOpcode (pos n) = 16 < n
HasNoOpcode (negsuc n) = 0 < n

-- The bytes of such a number are no single byte that an opcode could push.
no_opcode :
    (n : ℤ) (v : List ℕ)
    → HasNoOpcode n
    → magnitude v ≡ unsigned_abs n
    → negative v ≡ is_negative n
    → ((length v == 1) && has_opcode v) ≡ false
unfolding magnitude negative unsigned_abs
no_opcode n [] h m s = refl
no_opcode (pos n) (b ∷ []) h m s = ground arith
no_opcode (negsuc n) (b ∷ []) h m s = ground arith
no_opcode n (b ∷ c ∷ v) h m s = ground arith

-- The whole of a pushed number: the script grows by it, and the iterator reads it.
abbrev pub Pushes : List ℕ → ℤ → Option (List ℕ) → List ℕ → Type 0
Pushes script n result rest =
    (code : List ℕ) × (i : Instruction) × (result ≡ some (script ++ code))
    × (next true (code ++ rest) ≡ some (ok i, rest))
    × (script_num i ≡ some n)

-- The push of a number's bytes.
pub number_push :
    (script : List ℕ) (n : ℤ) (rest : List ℕ)
    → HasNoOpcode n
    → unsigned_abs n < 2 ^ 31
    → 0 < unsigned_abs n
    → (v : List ℕ) × (code : List ℕ) × (push_int_non_minimal script n ≡ some (script ++ code))
      × (next true (code ++ rest) ≡ some (ok (push_bytes v), rest))
      × (read_scriptint v ≡ ok n)
      × (read_scriptint_non_minimal v ≡ ok n)
unfolding push_int_non_minimal push_slice
number_push script n rest h k p =
    let (v, w, read, r, few, m, s) = written_number n p k in
    let (header, (q, e)) =
      next-push_header true v rest (omega (arith, few)) (no_opcode n v h m s) in
    (v, header ++ v, rw (w, q) refl, rw (append_assoc header v rest) e, read, r)

with_bytes :
    (script : List ℕ) (n : ℤ) (rest : List ℕ)
    → HasNoOpcode n
    → unsigned_abs n < 2 ^ 31
    → 0 < unsigned_abs n
    → Pushes script n (push_int_non_minimal script n) rest
unfolding script_num
with_bytes script n rest h k p =
    let (v, code, e, f, _, r) = number_push script n rest h k p in
    (code, push_bytes v, e, f, ap success r)

zero_pushed : (rest : List ℕ) → next true (0 ∷ rest) ≡ some (ok (push_bytes []), rest)
unfolding next next_of_class classify take_slice_or_kill
zero_pushed rest = rw (le→leb 0 (length rest) (omega arith)) refl

empty_number : script_num (push_bytes []) ≡ some (pos 0)
unfolding script_num read_scriptint_non_minimal read_any
empty_number = refl

-- Numbers from 1 to 16.
small_number : (n : ℕ) → 1 ≤ n → n ≤ 16 → script_num (op (n - 1 + 0x51)) ≡ some (pos n)
unfolding script_num
small_number n h k =
    let e : n - 1 + 0x51 - 0x50 ≡ n = omega (arith, h) in
    rw
      (
        le→leb 0x51 (n - 1 + 0x51) (omega arith),
        le→leb (n - 1 + 0x51) 0x60 (omega (arith, h, k)),
        e,
      )
      refl

-- For a number with an absolute value below 2^31, `push_int` appends bytes to the script, and the
-- iterator with the minimal rules, on these bytes and whatever follows, gives one instruction,
-- leaves what follows, and the instruction's number is the pushed one.
pub push_int_lem :
    (script : List ℕ) (n : ℤ) (rest : List ℕ)
    → unsigned_abs n < 2 ^ 31
    → Pushes script n (push_int script n) rest
unfolding push_int push_opcode script_num unsigned_abs
push_int_lem script (negsuc zero) rest h =
    (0x4f ∷ [], op 0x4f, refl, op_lem true 0x4f rest (omega arith), refl)
push_int_lem script (negsuc (suc n)) rest h =
    with_bytes script (negsuc (suc n)) rest (omega arith) h (omega arith)
push_int_lem script (pos zero) rest h =
    (0 ∷ [], push_bytes [], refl, zero_pushed rest, empty_number)
push_int_lem script (pos (suc n)) rest h = elim (Bool-cases (leb (suc n) 16)) [
  | inl few ↦
      rw (le→leb 1 (suc n) (omega arith), few)
        (
          (suc n - 1 + 0x51) ∷ [],
          op (suc n - 1 + 0x51),
          refl,
          op_lem true (suc n - 1 + 0x51) rest (omega arith),
          small_number (suc n) (omega arith) (leb→le (suc n) 16 few),
        )
  | inr many ↦
      rw (le→leb 1 (suc n) (omega arith), many, pos-nonzero (suc n) (omega arith))
        (with_bytes script (pos (suc n)) rest (leb-false (suc n) 16 many) h (omega arith))
]

-- The opcode of a small number and the push of another one.
pub push_int_small : (n : ℕ) → 1 ≤ n → n ≤ 16 → push_int [] (pos n) ≡ some ((n - 1 + 0x51) ∷ [])
unfolding push_int push_opcode
push_int_small n h k = rw (le→leb 1 n h, le→leb n 16 k) refl

pub push_int_large : (n : ℕ) → 16 < n → push_int [] (pos n) ≡ push_int_non_minimal [] (pos n)
unfolding push_int
push_int_large n h =
    rw (le→leb 1 n (omega (arith, h)), lt→leb-false n 16 h, pos-nonzero n (omega (arith, h))) refl
