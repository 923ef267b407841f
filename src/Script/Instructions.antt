-- ===== src/Script/Instructions.antt =====
-- The iterator over the instructions of a script, bitcoin/src/blockdata/script/instruction.rs, and the
-- pushes of owned.rs and builder.rs in the same directory. The iterator's state is the bytes that are
-- left; `none` of a push is its panic on four gigabytes.
pub mod Parse
pub mod Whole
pub mod Numbers
use rust_dogecoin.Common.{
  ℕ, zero, suc, ◌+◌, ◌-◌, ◌*◌, ◌/◌, ◌%◌, ◌^◌, List, [], ◌∷◌, ◌++◌, Bool, true, false, not, ◌&&◌,
  ◌||◌, length, take, drop, leb, ltb, ◌==◌, if◌then◌else◌, Option, none, some, ◌>>=◌,
}
use rust_dogecoin.Common.Int.{ℤ, pos, negsuc}
use rust_dogecoin.Common.Results.{Result, ok, err}
use rust_dogecoin.Script.Integers.{Error, write_scriptint, read_scriptint_non_minimal}
use rust_dogecoin.Script.Opcodes.{Class, classify, legacy}

pub data Instruction : Type 0 where
  push_bytes : List ℕ → Instruction
  op : ℕ → Instruction

pub data UintError : Type 0 where
  early_end numeric : UintError

-- The loop over the taken bytes with `checked_shl` and `checked_add` of `usize`.
unfoldable pub uint_loop : ℕ → ℕ → List ℕ → Result ℕ UintError
uint_loop i ret [] = ok ret
uint_loop i ret (item ∷ items) =
    let sum = item * 2 ^ (i * 8) % 2 ^ 64 + ret in
    let rest = uint_loop (suc i) sum items in
    if leb 64 (i * 8) then err numeric else if leb (2 ^ 64) sum then err numeric else rest

-- The number with the bytes left.
unfoldable pub read_uint_iter : List ℕ → ℕ → Result ℕ UintError × List ℕ
read_uint_iter bytes size =
    if ltb (length bytes) size
    then (err early_end, bytes)
    else if ltb 8191 size
    then (err numeric, bytes)
    else (uint_loop 0 0 (take size bytes), drop size bytes)

-- A killed iterator has no bytes left.
unfoldable pub take_slice_or_kill : ℕ → List ℕ → Result Instruction Error × List ℕ
take_slice_or_kill len bytes =
    if leb len (length bytes)
    then (ok (push_bytes (take len bytes)), drop len bytes)
    else (err Error.early_end_of_script, [])

unfoldable pub push_of_len :
    Bool → ℕ → Result ℕ UintError × List ℕ → Result Instruction Error × List ℕ
push_of_len enforce_minimal min_push_len (err e, left) = (err Error.early_end_of_script, [])
push_of_len enforce_minimal min_push_len (ok n, left) =
    if enforce_minimal && ltb n min_push_len
    then (err Error.non_minimal_push, [])
    else if ltb n (2 ^ 32)
    then take_slice_or_kill n left
    else (err Error.numeric_overflow, left)

unfoldable pub next_push_data_len : Bool → ℕ → ℕ → List ℕ → Result Instruction Error × List ℕ
next_push_data_len enforce_minimal len min_push_len bytes =
    push_of_len enforce_minimal min_push_len (read_uint_iter bytes len)

-- A push of one byte that a dedicated opcode makes.
abbrev pub has_opcode : List ℕ → Bool
has_opcode [] = false
has_opcode (b ∷ bs) = (b == 0x81) || (ltb 0 b && leb b 16)

unfoldable pub next_of_class : Bool → ℕ → List ℕ → Class → Result Instruction Error × List ℕ
next_of_class enforce_minimal byte bytes (Class.push_bytes n) =
    if enforce_minimal && ((n == 1) && has_opcode bytes)
    then (err Error.non_minimal_push, [])
    else take_slice_or_kill n bytes
next_of_class enforce_minimal byte bytes (Class.ordinary code) =
    if code == 0x4c
    then next_push_data_len enforce_minimal 1 76 bytes
    else if code == 0x4d
    then next_push_data_len enforce_minimal 2 0x100 bytes
    else if code == 0x4e
    then next_push_data_len enforce_minimal 4 0x10000 bytes
    else (ok (op byte), bytes)
next_of_class enforce_minimal byte bytes (Class.push_num n) = (ok (op byte), bytes)
next_of_class enforce_minimal byte bytes Class.return_op = (ok (op byte), bytes)
next_of_class enforce_minimal byte bytes Class.success_op = (ok (op byte), bytes)
next_of_class enforce_minimal byte bytes Class.illegal_op = (ok (op byte), bytes)
next_of_class enforce_minimal byte bytes Class.no_op = (ok (op byte), bytes)

unfoldable pub next : Bool → List ℕ → Option (Result Instruction Error × List ℕ)
next enforce_minimal [] = none
next enforce_minimal (byte ∷ bytes) =
    some (next_of_class enforce_minimal byte bytes (classify legacy byte))

abbrev pub success : Result ℤ Error → Option ℤ
success (ok v) = some v
success (err e) = none

unfoldable pub script_num : Instruction → Option ℤ
script_num (op v) =
    if leb 0x51 v && leb v 0x60
    then some (pos (v - 0x50))
    else if v == 0x4f
    then some (negsuc 0)
    else none
script_num (push_bytes bytes) = success (read_scriptint_non_minimal bytes)

-- The push opcode and the length, ahead of the bytes.
unfoldable pub push_header : ℕ → Option (List ℕ)
push_header n =
    if ltb n 0x4c
    then some (n ∷ [])
    else if ltb n 0x100
    then some (0x4c ∷ n ∷ [])
    else if ltb n 0x10000
    then some (0x4d ∷ n % 0x100 ∷ n / 0x100 ∷ [])
    else if ltb n 0x1_0000_0000
    then some (0x4e ∷ n % 0x100 ∷ n / 0x100 % 0x100 ∷ n / 0x10000 % 0x100 ∷ n / 0x100_0000 ∷ [])
    else none

unfoldable pub push_slice : List ℕ → List ℕ → Option (List ℕ)
push_slice script bytes = do header ← push_header (length bytes); some (script ++ (header ++ bytes))

unfoldable pub push_opcode : List ℕ → ℕ → List ℕ
push_opcode script code = script ++ code ∷ []

unfoldable pub push_instruction : List ℕ → Instruction → Option (List ℕ)
push_instruction script (op code) = some (push_opcode script code)
push_instruction script (push_bytes bytes) = push_slice script bytes

unfoldable pub reserved_len_for_slice : ℕ → ℕ
reserved_len_for_slice len =
    len + (if leb len 0x4b then 1 else if leb len 0xff then 2 else if leb len 0xffff then 3 else 5)

unfoldable pub script_serialized_len : Instruction → ℕ
script_serialized_len (op code) = 1
script_serialized_len (push_bytes bytes) = reserved_len_for_slice (length bytes)

unfoldable pub push_int_non_minimal : List ℕ → ℤ → Option (List ℕ)
push_int_non_minimal script n = do bytes ← write_scriptint n; push_slice script bytes

unfoldable pub push_int : List ℕ → ℤ → Option (List ℕ)
push_int script (negsuc zero) = some (push_opcode script 0x4f)
push_int script (negsuc (suc n)) = push_int_non_minimal script (negsuc (suc n))
push_int script (pos n) =
    if leb 1 n && leb n 16
    then some (push_opcode script (n - 1 + 0x51))
    else if n == 0
    then some (push_opcode script 0)
    else push_int_non_minimal script (pos n)

-- An item ahead of what the iterator goes on to give on the bytes left.
abbrev pub gather :
    Option (Result Instruction Error × List ℕ)
    → (List ℕ → Option (List (Result Instruction Error)))
    → Option (List (Result Instruction Error))
gather none go_on = some []
gather (some (item, left)) go_on = do following ← go_on left; some (item ∷ following)

-- All that the iterator gives, on fuel for its calls; `none` when the fuel does not reach the end.
unfoldable pub items : ℕ → Bool → List ℕ → Option (List (Result Instruction Error))
items zero enforce_minimal bytes = none
items (suc fuel) enforce_minimal bytes =
    gather (next enforce_minimal bytes) (λ left. items fuel enforce_minimal left)

-- `from_iter` and `extend` of a script: the instructions pushed one after the other.
unfoldable pub extend : List ℕ → List Instruction → Option (List ℕ)
extend script [] = some script
extend script (i ∷ is) = do longer ← push_instruction script i; extend longer is
