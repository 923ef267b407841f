-- ===== src/Dogecoin/AuxPow/Index.antt =====
-- The slot of a chain in the blockchain Merkle tree: `get_expected_index` of
-- bitcoin/src/dogecoin/auxpow.rs.
use rust_dogecoin.Common.{
  ◌-◌, ℕ, ◌≡◌, ◌<◌, ◌≤◌, ◌+◌, ◌*◌, ◌%◌, ◌^◌, Bool, some, refl, arith, true, ltb, lt→ltb,
}
use rust_dogecoin.Common.Int.{ℤ, pos, to_word, of_word}
use rust_dogecoin.Common.Bits.{pow_pos, pow_split}
use native.Mathlib.Nat.{mod-lt, mod-mod_of_dvd, pow-le-pow_right}
use rust_dogecoin.Dogecoin.AuxPow.{get_expected_index, shl_one, next_rand}

pub shl_one_lem : (debug : Bool) (h : ℕ) → h < 32 → shl_one debug h ≡ some (2 ^ h)
unfolding shl_one
shl_one_lem debug h k = rw (lt→ltb h 32 k) refl

-- The generator without the wrap-around between its steps.
unfoldable pub slot : ℕ → ℕ → ℕ → ℕ
slot nonce id height = ((nonce * 1103515245 + 12345 + id) * 1103515245 + 12345) % 2 ^ height

mod_pow : (y w h : ℕ) → h ≤ w → y % 2 ^ w % 2 ^ h ≡ y % 2 ^ h
mod_pow y w h k = mod-mod_of_dvd (2 ^ h) y ∣ (2 ^ (w - h), omega (arith, pow_split w h k)) ∣₁

-- For a tree of height below 32 the slot is computed without a panic and is a leaf of the tree, and
-- the wrap-around of the steps does not show: it is the polynomial of the nonce and the chain's
-- identifier, modulo the size.
pub get_expected_index_lem :
    (debug : Bool) (nonce : ℕ) (chain_id : ℤ) (height : ℕ)
    → height < 32
    → (get_expected_index debug nonce chain_id height
        ≡ some (pos (slot nonce (to_word 32 chain_id) height)))
      × (slot nonce (to_word 32 chain_id) height < 2 ^ height)
unfolding get_expected_index slot
get_expected_index_lem debug nonce chain_id height h =
    (rw (shl_one_lem debug height h, same, signed) refl, mod-lt y (pow_pos height))
  where
    y : ℕ
    y = (nonce * 1103515245 + 12345 + to_word 32 chain_id) * 1103515245 + 12345

    same :
        next_rand ((next_rand nonce + to_word 32 chain_id) % 2 ^ 32) % 2 ^ height ≡ y % 2 ^ height
    same =
        let e : next_rand ((next_rand nonce + to_word 32 chain_id) % 2 ^ 32) ≡ y % 2 ^ 32 =
          omega arith in
        rw e (mod_pow y 32 height (omega arith))

    signed : of_word 32 (y % 2 ^ height) ≡ pos (y % 2 ^ height)
    signed =
        let top : 2 ^ height ≤ 2 ^ 31 = pow-le-pow_right (omega arith) {j = 31} (omega arith) in
        let e : ltb (y % 2 ^ height) (2 ^ 31) ≡ true =
          lt→ltb _ _ (omega (arith, mod-lt y (pow_pos height))) in
        rw e refl
