-- ===== src/Pow/Target.antt =====
-- `Target`, `Work` and `CompactTarget` of bitcoin/src/pow.rs.
pub mod Compact
pub mod Lossy
use rust_dogecoin.Common.{
  ℕ, ◌+◌, ◌-◌, ◌*◌, ◌/◌, ◌%◌, ◌^◌, Bool, Option, none, some, List, ltb, leb, ◌==◌, if◌then◌else◌,
  not, bit_and, bit_or, ◌>>=◌,
}
use rust_dogecoin.Pow.U256
use rust_dogecoin.Pow.U256.{U256, u256, zero_value}

pub record Target : Type 0 where
  pub inner : U256

pub record Work : Type 0 where
  pub inner : U256

-- The bits of a block header: a base-256 floating point number.
pub record CompactTarget : Type 0 where
  pub consensus : ℕ

abbrev pub target : U256 → Target
target u = record { inner = u }

abbrev pub compact : ℕ → CompactTarget
compact c = record { consensus = c }

-- The proof of work limits.
abbrev pub max : Target
max = target (u256 (0xFFFF * 2 ^ (208 - 128)) 0)

abbrev pub max_attainable_mainnet : Target
max_attainable_mainnet = target (u256 (0xFFFF * 2 ^ (208 - 128)) 0)

abbrev pub max_attainable_testnet : Target
max_attainable_testnet = target (u256 (0xFFFF * 2 ^ (208 - 128)) 0)

abbrev pub max_attainable_regtest : Target
max_attainable_regtest = target (u256 (0x7FFF_FF00 * 2 ^ 96) 0)

abbrev pub max_attainable_signet : Target
max_attainable_signet = target (u256 (0x0377_ae00 * 2 ^ 80) 0)

abbrev pub max_attainable_mainnet_doge : Target
max_attainable_mainnet_doge = target (u256 (0xFFFF_F000 * 2 ^ (204 - 128)) 0)

abbrev pub max_attainable_testnet_doge : Target
max_attainable_testnet_doge = target (u256 (0xFFFF_F000 * 2 ^ (204 - 128)) 0)

abbrev pub max_attainable_regtest_doge : Target
max_attainable_regtest_doge = target (u256 (0x7FFF_FF00 * 2 ^ 96) 0)

-- The mantissa and the exponent that the bits stand for.
unfoldable pub mantissa_exponent : ℕ → ℕ × ℕ
mantissa_exponent bits =
    let unshifted_expt = bits / 2 ^ 24 in
    if leb unshifted_expt 3
    then (bit_and bits 0xFFFFFF / 2 ^ (8 * (3 - unshifted_expt)), 0)
    else (bit_and bits 0xFFFFFF, 8 * (bits / 2 ^ 24 - 3))

unfoldable pub from_compact : CompactTarget → Target
from_compact c =
    let (mant, expt) = mantissa_exponent c.consensus in
    if ltb 0x7F_FFFF mant
    then target zero_value
    else target (U256.wrapping_shl (U256.from_u128 mant) expt)

-- The size in bytes and the three leading bytes, before the sign bit is looked at.
unfoldable pub leading_bytes : U256 → ℕ × ℕ
leading_bytes u =
    let size = (U256.bits u + 7) / 8 in
    if leb size 3
    then (size, U256.low_u64 u * 2 ^ (8 * (3 - size)) % 2 ^ 64 % 2 ^ 32)
    else (size, U256.low_u32 (U256.wrapping_shr u (8 * (size - 3))))

unfoldable pub to_compact_lossy : Target → CompactTarget
to_compact_lossy t =
    let (size, mant) = leading_bytes t.inner in
    if bit_and mant 0x0080_0000 == 0
    then compact (bit_or mant (size * 2 ^ 24 % 2 ^ 32))
    else compact (bit_or (mant / 2 ^ 8) ((size + 1) * 2 ^ 24 % 2 ^ 32))

-- The hash is a list of 32 bytes.
unfoldable pub is_met_by : Target → List ℕ → Bool
is_met_by t hash = U256.le (U256.u256_from_le_bytes hash) t.inner

-- `to_work` of a target and `to_target` of a work; `none` is a panic, which never happens.
unfoldable pub to_work : Target → Option Work
to_work t = do w ← U256.inverse t.inner; some (record { inner = w })

unfoldable pub to_target : Work → Option Target
to_target w = do t ← U256.inverse w.inner; some (target t)

-- `Work + Work` and `Work - Work`
unfoldable pub add_work : Bool → Work → Work → Option Work
add_work debug a b = do w ← U256.add debug a.inner b.inner; some (record { inner = w })

unfoldable pub sub_work : Bool → Work → Work → Option Work
sub_work debug a b = do w ← U256.sub debug a.inner b.inner; some (record { inner = w })

-- The order of targets is that of their numbers.
abbrev pub min_target : Target → Target → Target
min_target a b = if U256.lt b.inner a.inner then b else a

-- `difficulty`, given the network's largest attainable target; `none` is the panic on a zero target.
unfoldable pub difficulty : Target → Target → Option ℕ
difficulty max_attainable t =
    if U256.is_zero t.inner
    then none
    else do d ← U256.div max_attainable.inner t.inner; some (U256.saturating_to_u128 d)

unfoldable pub min_transition_threshold : Target → Target
min_transition_threshold t = target (U256.wrapping_shr t.inner 2)

unfoldable pub max_transition_threshold_unchecked : Target → Target
max_transition_threshold_unchecked t = target (U256.wrapping_shl t.inner 2)
