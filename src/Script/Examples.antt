-- ===== src/Script/Examples.antt =====
-- The theorems on scripts at small numbers and scripts.
use rust_dogecoin.Common.{
  ◌-◌, length, ℕ, ◌≡◌, ◌↔◌, ◌⊎◌, ◌<◌, ◌≤◌, ◌^◌, List, [], ◌∷◌, ◌++◌, map, some, none, false, true,
  refl, arith,
}
use rust_dogecoin.Common.Int.{pos, negsuc}
use rust_dogecoin.Common.Results.{Result, ok, err}
use rust_dogecoin.Script.Integers.{
  parse_fold, scriptint_parse, no_conflict, read_from_last, Error, unsigned_abs, write_scriptint,
  read_scriptint,
}
use rust_dogecoin.Script.Integers.RoundTrip.{
  write_scriptint_lem, write_scriptint-read_scriptint, write_scriptint_panics,
}
use rust_dogecoin.Script.Instructions.{
  Instruction, push_bytes, op, items, extend, push_int, next, script_num,
}
use rust_dogecoin.Script.Instructions.Whole.{items_lem, items_total}
use rust_dogecoin.Script.Instructions.Numbers.{push_int_lem}

abs_31 : unsigned_abs (negsuc 254) < 2 ^ 31
unfolding unsigned_abs
abs_31 = omega arith

abs_63 : unsigned_abs (negsuc 254) < 2 ^ 63
unfolding unsigned_abs
abs_63 = omega arith

minus_255 : read_scriptint (0xff ∷ 0x80 ∷ []) ≡ ok (negsuc 254)
unfolding read_scriptint read_from_last no_conflict scriptint_parse parse_fold
minus_255 = refl

write_scriptint_lem_example :
    (v : List ℕ) × (write_scriptint (negsuc 254) ≡ some v)
    × (((unsigned_abs (negsuc 254) < 2 ^ 31) × (read_scriptint v ≡ ok (negsuc 254)))
        ⊎ ((2 ^ 31 ≤ unsigned_abs (negsuc 254)) × (read_scriptint v ≡ err Error.numeric_overflow)))
write_scriptint_lem_example = write_scriptint_lem (negsuc 254) abs_63

write_scriptint-read_scriptint_example :
    (unsigned_abs (negsuc 254) < 2 ^ 31) × (write_scriptint (negsuc 254) ≡ some (0xff ∷ 0x80 ∷ []))
write_scriptint-read_scriptint_example =
    write_scriptint-read_scriptint (0xff ∷ 0x80 ∷ []) (negsuc 254) (omega arith, (omega arith, tt))
      minus_255

write_scriptint_panics_example : (write_scriptint (pos 5) ≡ none) ↔ (pos 5 ≡ negsuc (2 ^ 63 - 1))
write_scriptint_panics_example = write_scriptint_panics (pos 5) (omega arith, omega arith)

-- OP_DUP OP_HASH160 and a push of two bytes.
abbrev some_instructions : List Instruction
some_instructions = op 0x76 ∷ op 0xa9 ∷ push_bytes (7 ∷ 8 ∷ []) ∷ []

items_lem_example :
    (code : List ℕ) × (extend (0x51 ∷ []) some_instructions ≡ some ((0x51 ∷ []) ++ code))
    × (items 4 false code ≡ some (map ok some_instructions))
items_lem_example =
    items_lem (0x51 ∷ []) some_instructions 4 (omega arith, (omega arith, (omega arith, tt)))
      (omega arith)

items_total_example :
    (all : List (Result Instruction Error)) × (items 4 true (0x02 ∷ 7 ∷ 8 ∷ []) ≡ some all)
    × (length all ≤ 3)
items_total_example = items_total 4 true (0x02 ∷ 7 ∷ 8 ∷ []) (omega arith)

push_int_lem_example :
    (code : List ℕ) × (i : Instruction) × (push_int (0x51 ∷ []) (negsuc 254)
      ≡ some ((0x51 ∷ []) ++ code))
    × (next true (code ++ (0x87 ∷ [])) ≡ some (ok i, 0x87 ∷ []))
    × (script_num i ≡ some (negsuc 254))
push_int_lem_example = push_int_lem (0x51 ∷ []) (negsuc 254) (0x87 ∷ []) abs_31
