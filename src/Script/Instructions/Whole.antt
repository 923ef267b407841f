-- ===== src/Script/Instructions/Whole.antt =====
-- Whole scripts: the iterator of bitcoin/src/blockdata/script/instruction.rs over what
-- `push_instruction` and `push_int` write.
use rust_dogecoin.Common.{
  subst, append_assoc, append-nil, inr, map, All, inl, Bool-cases, length-drop, ℕ, zero, suc, ◌≡◌,
  ◌<◌, ◌≤◌, ◌^◌, List, [], ◌∷◌, ◌++◌, Bool, true, false, ◌&&◌, length, ◌==◌, none, some, refl,
  arith, sym, ◌∙◌, ap,
}
use rust_dogecoin.Common.Results.{Result, ok, err}
use rust_dogecoin.Script.Integers.{Error}
use rust_dogecoin.Script.Opcodes.{Class, classify, legacy}
use rust_dogecoin.Script.Instructions.{
  push_opcode, Instruction, push_bytes, op, UintError, read_uint_iter, take_slice_or_kill,
  push_of_len, next_push_data_len, has_opcode, next_of_class, next, push_header, push_slice, items,
  push_instruction, extend,
}
use rust_dogecoin.Script.Instructions.Parse.{next-push_header}

-- The iterator passes everything but pushes on.
pub op_lem :
    (enforce : Bool) (code : ℕ) (bytes : List ℕ)
    → 0x4e < code
    → next enforce (code ∷ bytes) ≡ some (ok (op code), bytes)
unfolding next next_of_class classify
op_lem enforce code bytes h = ground arith

-- No byte is given twice.
take_slice-left : (n : ℕ) (bytes : List ℕ) → length (take_slice_or_kill n bytes).1 ≤ length bytes
unfolding take_slice_or_kill
take_slice-left n bytes = ground (arith, length-drop n bytes)

uint-left : (n : ℕ) (bytes : List ℕ) → length (read_uint_iter bytes n).1 ≤ length bytes
unfolding read_uint_iter
uint-left n bytes = ground (arith, length-drop n bytes)

push_of_len-left :
    (enforce : Bool) (least : ℕ) (r : Result ℕ UintError × List ℕ)
    → length (push_of_len enforce least r).1 ≤ length r.1
unfolding push_of_len
push_of_len-left enforce least (err e, left) = omega arith
push_of_len-left true least (ok n, left) = ground (arith, take_slice-left n left)
push_of_len-left false least (ok n, left) = ground (arith, take_slice-left n left)

next_push-left :
    (enforce : Bool) (len least : ℕ) (bytes : List ℕ)
    → length (next_push_data_len enforce len least bytes).1 ≤ length bytes
unfolding next_push_data_len
next_push-left enforce len least bytes =
    omega (arith, push_of_len-left enforce least (read_uint_iter bytes len), uint-left len bytes)

class-left :
    (enforce : Bool) (byte : ℕ) (bytes : List ℕ) (c : Class)
    → length (next_of_class enforce byte bytes c).1 ≤ length bytes
unfolding next_of_class
class-left enforce byte bytes (Class.push_bytes n) =
    elim (Bool-cases (enforce && ((n == 1) && has_opcode bytes))) [
      | inl e ↦ rw e (omega arith)
      | inr e ↦ rw e (take_slice-left n bytes)
    ]
class-left enforce byte bytes (Class.ordinary code) = ground (
  arith,
  next_push-left enforce 1 76 bytes,
  next_push-left enforce 2 0x100 bytes,
  next_push-left enforce 4 0x10000 bytes,
)
class-left enforce byte bytes (Class.push_num n) = omega arith
class-left enforce byte bytes Class.return_op = omega arith
class-left enforce byte bytes Class.success_op = omega arith
class-left enforce byte bytes Class.illegal_op = omega arith
class-left enforce byte bytes Class.no_op = omega arith

-- On fuel above the number of bytes of a script, the iterator ends, with the minimal rules or
-- without, and gives no more items than there are bytes.
pub items_total :
    (fuel : ℕ) (enforce : Bool) (bytes : List ℕ)
    → length bytes < fuel
    → (all : List (Result Instruction Error)) × (items fuel enforce bytes ≡ some all)
      × (length all ≤ length bytes)
unfolding items next
items_total zero enforce bytes h = absurd (omega arith)
items_total (suc fuel) enforce [] h = ([], refl, omega arith)
items_total (suc fuel) enforce (byte ∷ bytes) h =
    let left = class-left enforce byte bytes (classify legacy byte) in
    let (all, e, n) =
      items_total fuel enforce (next_of_class enforce byte bytes (classify legacy byte)).1
        (omega (arith, left)) in
    (
      (next_of_class enforce byte bytes (classify legacy byte)).0 ∷ all,
      rw e refl,
      omega (arith, n, left),
    )

-- An opcode that is not a push, and bytes that can be pushed.
abbrev pub IsInstruction : Instruction → Type 0
IsInstruction (op code) = 0x4e < code
IsInstruction (push_bytes pushed) = length pushed < 2 ^ 32

-- The header that was written is the one that is read.
after :
    (pushed left header : List ℕ)
    → push_header (length pushed) ≡ some header
    → length pushed < 2 ^ 32
    → next false (header ++ (pushed ++ left)) ≡ some (ok (push_bytes pushed), left)
after pushed left header p h =
    let (written, (q, n)) = next-push_header false pushed left h refl in
    let same : written ≡ header = some_inj (sym q ∙ p) in
    subst (λ w. next false (w ++ (pushed ++ left)) ≡ some (ok (push_bytes pushed), left)) same n
  where
    some_inj : {x y : List ℕ} → some x ≡ some y → x ≡ y
    some_inj {x = x} e = ap (λ o. elim o [ some z ↦ z | none ↦ x ]) e

-- One instruction in front of the ones that follow.
one_more :
    (i : Instruction) (n : ℕ) (bytes left : List ℕ) (all : List (Result Instruction Error))
    → next false bytes ≡ some (ok i, left)
    → ((fuel : ℕ) → n < fuel → items fuel false left ≡ some all)
    → (fuel : ℕ) → suc n < fuel
    → items fuel false bytes ≡ some (ok i ∷ all)
unfolding items
one_more i n bytes left all e f zero h = absurd (omega arith)
one_more i n bytes left all e f (suc fuel) h = rw (e, f fuel (omega arith)) refl

items_end : (fuel : ℕ) → 0 < fuel → items fuel false [] ≡ some []
unfolding items next
items_end zero h = absurd (omega arith)
items_end (suc fuel) h = refl

push_bytes_step :
    (script pushed header : List ℕ) (is : List Instruction)
    → push_header (length pushed) ≡ some header
    → extend script (push_bytes pushed ∷ is) ≡ extend (script ++ (header ++ pushed)) is
unfolding extend push_instruction push_slice
push_bytes_step script pushed header is e = rw e refl

pub items-extend :
    (script : List ℕ) (is : List Instruction)
    → All IsInstruction is
    → (code : List ℕ) × (extend script is ≡ some (script ++ code))
      × ((fuel : ℕ) → length is < fuel → items fuel false code ≡ some (map ok is))
unfolding extend push_instruction push_opcode
items-extend script [] h = ([], rw append-nil refl, items_end)
items-extend script (op code ∷ is) (h, hs) =
    let (left, e, f) = items-extend (script ++ code ∷ []) is hs in
    (
      code ∷ left,
      e ∙ ap some (append_assoc script (code ∷ []) left),
      one_more (op code) (length is) (code ∷ left) left (map ok is) (op_lem false code left h) f,
    )
items-extend script (push_bytes pushed ∷ is) (h, hs) =
    let (header, (p, _)) = next-push_header false pushed [] h refl in
    let (left, e, f) = items-extend (script ++ (header ++ pushed)) is hs in
    (
      header ++ (pushed ++ left),
      push_bytes_step script pushed header is p ∙ e ∙ ap some (simp append_assoc refl),
      one_more (push_bytes pushed) (length is) (header ++ (pushed ++ left)) left (map ok is)
          (after pushed left header p h) f,
    )

-- For instructions that are opcodes above OP_PUSHDATA4 or pushes of fewer than 2^32 bytes, and fuel
-- above their number, extending a script by them appends bytes over which the iterator without the
-- minimal rules gives these instructions and ends.
pub items_lem :
    (script : List ℕ) (is : List Instruction) (fuel : ℕ)
    → All IsInstruction is
    → length is < fuel
    → (code : List ℕ) × (extend script is ≡ some (script ++ code))
      × (items fuel false code ≡ some (map ok is))
items_lem script is fuel h k = let (code, e, f) = items-extend script is h in (code, e, f fuel k)
