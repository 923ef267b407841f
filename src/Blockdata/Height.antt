-- ===== src/Blockdata/Height.antt =====
-- The height in the coinbase of a block: `Block::bip34_block_height` of bitcoin/src/blockdata/block.rs.
use rust_dogecoin.Common.{
  leb-false, inr, leb→le, inl, ◌+◌, Bool-cases, sym, ◌-◌, leb, ℕ, ◌≡◌, ◌<◌, ◌≤◌, ◌^◌, List, [], ◌∷◌,
  ◌++◌, Option, none, some, true, false, if◌then◌else◌, refl, arith, ap, ◌∙◌,
}
use rust_dogecoin.Common.Int.{ℤ, pos, negsuc, ltb_ℤ}
use rust_dogecoin.Common.Results.{Result, ok, err}
use rust_dogecoin.Blockdata.Transaction.{OutPoint, TxIn, TxOut, Transaction}
use rust_dogecoin.Blockdata.Header.{Header}
use rust_dogecoin.Script.Instructions.Numbers.{number_push, push_int_small, push_int_large}
use rust_dogecoin.Script.Instructions.Whole.{op_lem}
use rust_dogecoin.Blockdata.Block.{Block, coinbase}
use rust_dogecoin.Script.Integers.{Error, read_scriptint, unsigned_abs}
use rust_dogecoin.Script.Instructions.{Instruction, push_bytes, op, next, push_int}

pub data Bip34Error : Type 0 where
  unsupported not_present : Bip34Error
  unexpected_push : List ℕ → Bip34Error
  negative_height : Bip34Error

unfoldable pub height_of : List ℕ → Result ℤ Error → Result ℕ Bip34Error
height_of bytes (ok (pos h)) = ok h
height_of bytes (ok (negsuc h)) = err negative_height
height_of bytes (err e) = err (unexpected_push bytes)

unfoldable pub height_of_push : Option (Result Instruction Error × List ℕ) → Result ℕ Bip34Error
height_of_push none = err not_present
height_of_push (some (err e, left)) = err not_present
height_of_push (some (ok (op code), left)) = err not_present
height_of_push (some (ok (push_bytes b), left)) = height_of b (read_scriptint b)

unfoldable pub height_of_inputs : List TxIn → Result ℕ Bip34Error
height_of_inputs [] = err not_present
height_of_inputs (i ∷ is) = height_of_push (next true i.script_sig)

unfoldable pub height_of_coinbase : Option Transaction → Result ℕ Bip34Error
height_of_coinbase none = err not_present
height_of_coinbase (some cb) = height_of_inputs cb.input

unfoldable pub bip34_block_height : Block → Result ℕ Bip34Error
bip34_block_height b =
    if ltb_ℤ b.header.version (pos 2) then err unsupported else height_of_coinbase (coinbase b)

-- A block whose coinbase begins with a push, and the instruction that is read from it.
first_push :
    (header : Header) (version : ℤ) (lock_time sequence : ℕ) (previous : OutPoint)
    (code rest : List ℕ) (witness : List (List ℕ)) (is : List TxIn) (output : List TxOut)
    (txs : List Transaction)
    → ltb_ℤ header.version (pos 2) ≡ false
    → bip34_block_height (record {
      header = header;
      txdata =
          record {
            version = version;
            lock_time = lock_time;
            input =
                record {
                  previous_output = previous;
                  script_sig = code ++ rest;
                  sequence = sequence;
                  witness = witness;
                }
                ∷ is;
            output = output;
          }
          ∷ txs;
    })
      ≡ height_of_push (next true (code ++ rest))
unfolding bip34_block_height coinbase height_of_coinbase height_of_inputs
first_push header version lock_time sequence previous code rest witness is output txs h = rw h refl

some_inj : {x y : List ℕ} → some x ≡ some y → x ≡ y
some_inj {x = x} e = ap (λ o. elim o [ some z ↦ z | none ↦ x ]) e

small :
    (n : ℕ) (code rest : List ℕ)
    → 1 ≤ n
    → n ≤ 16
    → push_int [] (pos n) ≡ some code
    → height_of_push (next true (code ++ rest)) ≡ err not_present
unfolding height_of_push
small n code rest l h e =
    let c : (n - 1 + 0x51) ∷ [] ≡ code = some_inj (sym (push_int_small n l h) ∙ e) in
    rw (← c, op_lem true (n - 1 + 0x51) rest (omega (arith, l))) refl

large :
    (n : ℕ) (code rest : List ℕ)
    → 16 < n
    → n < 2 ^ 31
    → push_int [] (pos n) ≡ some code
    → height_of_push (next true (code ++ rest)) ≡ ok n
unfolding height_of_push height_of unsigned_abs
large n code rest l h e =
    let (v, written, w, f, r, _) = number_push [] (pos n) rest l h (omega (arith, l)) in
    let c : written ≡ code = some_inj (sym w ∙ sym (push_int_large n l) ∙ e) in rw (← c, f, r) refl

-- For a block of version 2 or above whose coinbase input begins with the push of a number of at
-- least 1 and below 2^31, the height is that number, except for 1 to 16, where it is the error that
-- none is present.
pub bip34_block_height_lem :
    (header : Header) (version : ℤ) (lock_time sequence : ℕ) (previous : OutPoint)
    (code rest : List ℕ) (witness : List (List ℕ)) (is : List TxIn) (output : List TxOut)
    (txs : List Transaction) (n : ℕ)
    → ltb_ℤ header.version (pos 2) ≡ false
    → 1 ≤ n
    → n < 2 ^ 31
    → push_int [] (pos n) ≡ some code
    → bip34_block_height (record {
      header = header;
      txdata =
          record {
            version = version;
            lock_time = lock_time;
            input =
                record {
                  previous_output = previous;
                  script_sig = code ++ rest;
                  sequence = sequence;
                  witness = witness;
                }
                ∷ is;
            output = output;
          }
          ∷ txs;
    })
      ≡ (if leb n 16 then err not_present else ok n)
bip34_block_height_lem header version lock_time sequence previous code rest witness is output txs n
      v l h e =
    first_push header version lock_time sequence previous code rest witness is output txs v
    ∙ elim (Bool-cases (leb n 16)) [
      | inl few ↦ rw few (small n code rest l (leb→le n 16 few) e)
      | inr many ↦ rw many (large n code rest (leb-false n 16 many) h e)
    ]
