-- ===== src/Script/Opcodes.antt =====
-- bitcoin/src/blockdata/opcodes.rs: the classes of opcodes. An opcode is its byte.
use rust_dogecoin.Common.{
  not, ℕ, ◌+◌, ◌-◌, List, [], ◌∷◌, Bool, true, false, ◌&&◌, ◌||◌, leb, ◌==◌, if◌then◌else◌, Option,
  none, some,
}
use rust_dogecoin.Common.Int.{ℤ, pos, negsuc}

pub data ClassifyContext : Type 0 where
  tap_script legacy : ClassifyContext

pub data Class : Type 0 where
  push_num : ℤ → Class
  push_bytes : ℕ → Class
  return_op success_op illegal_op no_op : Class
  ordinary : ℕ → Class

abbrev pub in_legacy : ClassifyContext → Bool
in_legacy tap_script = false
in_legacy legacy = true

abbrev pub one_of : ℕ → List ℕ → Bool
one_of code [] = false
one_of code (c ∷ cs) = (code == c) || one_of code cs

abbrev pub between : ℕ → ℕ → ℕ → Bool
between low high code = leb low code && leb code high

-- Opcodes that are disabled in legacy scripts.
abbrev pub disabled : List ℕ
disabled =
    0x7e ∷ 0x7f ∷ 0x80 ∷ 0x81 ∷ 0x83 ∷ 0x84 ∷ 0x85 ∷ 0x86 ∷ 0x8d ∷ 0x8e ∷ 0x95 ∷ 0x96 ∷ 0x97 ∷ 0x98
    ∷ 0x99 ∷ []

abbrev pub is_success : ℕ → Bool
is_success code =
    (code == 80)
    || ((code == 98)
        || (between 126 129 code
            || (between 131 134 code
                || (between 137 138 code
                    || (between 141 142 code || (between 149 153 code || between 187 254 code))))))

unfoldable pub classify : ClassifyContext → ℕ → Class
classify ctx code =
    if one_of code (0x65 ∷ 0x66 ∷ 0xff ∷ [])
    then illegal_op
    else if in_legacy ctx && one_of code disabled
    then illegal_op
    else if not (in_legacy ctx) && is_success code
    then success_op
    else if (code == 0x61) || between 0xb0 0xb9 code
    then no_op
    else if code == 0x6a
    then return_op
    else if in_legacy ctx && one_of code (0x50 ∷ 0x89 ∷ 0x8a ∷ 0x62 ∷ [])
    then return_op
    else if in_legacy ctx && leb 0xba code
    then return_op
    else if not (in_legacy ctx) && one_of code (0xae ∷ 0xaf ∷ [])
    then return_op
    else if code == 0x4f
    then push_num (negsuc 0)
    else if between 0x51 0x60 code
    then push_num (pos (1 + code - 0x51))
    else if leb code 75
    then push_bytes code
    else ordinary code

-- `opcode_to_verify` of bitcoin/src/blockdata/script/mod.rs, on an opcode that is there.
unfoldable pub opcode_to_verify : Option ℕ → Option ℕ
opcode_to_verify none = none
opcode_to_verify (some opcode) =
    if opcode == 0x87
    then some 0x88
    else if opcode == 0x9c
    then some 0x9d
    else if opcode == 0xac
    then some 0xad
    else if opcode == 0xae
    then some 0xaf
    else none
