-- ===== src/Dogecoin/Params.antt =====
-- bitcoin/src/dogecoin/params.rs and the networks of bitcoin/src/dogecoin/mod.rs.
use rust_dogecoin.Common.{ℕ, ◌*◌, Bool, true, false, not, List, [], ◌∷◌, ltb, leb, if◌then◌else◌}
use rust_dogecoin.Common.Int.{ℤ, pos}
use rust_dogecoin.Pow.Target
use rust_dogecoin.Pow.Target.{Target}

pub data Network : Type 0 where
  dogecoin testnet regtest : Network

abbrev pub one_second : ℤ
one_second = pos 1

abbrev pub one_minute : ℤ
one_minute = pos 60

abbrev pub four_hours : ℤ
four_hours = pos (4 * 60 * 60)

pub record Params : Type 0 where
  pub network : Network
  pub bip16_time : ℕ
  pub bip34_height : ℕ
  pub bip65_height : ℕ
  pub bip66_height : ℕ
  pub rule_change_activation_threshold : ℕ
  pub miner_confirmation_window : ℕ
  pub pow_limit : Target
  pub max_attainable_target : Target
  pub pow_target_spacing : ℤ
  pub no_pow_retargeting : Bool
  pub digishield_activation_height : ℕ
  pub auxpow_height : ℕ
  pub strict_chain_id : Bool
  pub auxpow_chain_id : ℕ

abbrev pub mainnet_params : Params
mainnet_params = record {
  network = dogecoin;
  bip16_time = 1333238400;
  bip34_height = 1034383;
  bip65_height = 3464751;
  bip66_height = 1034383;
  rule_change_activation_threshold = 9576;
  miner_confirmation_window = 10080;
  pow_limit = Target.max_attainable_mainnet_doge;
  max_attainable_target = Target.max_attainable_mainnet_doge;
  pow_target_spacing = one_minute;
  no_pow_retargeting = false;
  digishield_activation_height = 145000;
  auxpow_height = 371_337;
  strict_chain_id = true;
  auxpow_chain_id = 0x0062;
}

abbrev pub testnet_params : Params
testnet_params = record {
  network = testnet;
  bip16_time = 1333238400;
  bip34_height = 708658;
  bip65_height = 1854705;
  bip66_height = 708658;
  rule_change_activation_threshold = 2880;
  miner_confirmation_window = 10080;
  pow_limit = Target.max_attainable_testnet_doge;
  max_attainable_target = Target.max_attainable_testnet_doge;
  pow_target_spacing = one_minute;
  no_pow_retargeting = false;
  digishield_activation_height = 145000;
  auxpow_height = 158_100;
  strict_chain_id = false;
  auxpow_chain_id = 0x0062;
}

abbrev pub regtest_params : Params
regtest_params = record {
  network = regtest;
  bip16_time = 1333238400;
  bip34_height = 100000000;
  bip65_height = 1351;
  bip66_height = 1251;
  rule_change_activation_threshold = 540;
  miner_confirmation_window = 720;
  pow_limit = Target.max_attainable_regtest_doge;
  max_attainable_target = Target.max_attainable_regtest_doge;
  pow_target_spacing = one_second;
  no_pow_retargeting = true;
  digishield_activation_height = 10;
  auxpow_height = 20;
  strict_chain_id = true;
  auxpow_chain_id = 0x0062;
}

-- `Params::new`, and `Network::params`
unfoldable pub params : Network → Params
params dogecoin = mainnet_params
params testnet = testnet_params
params regtest = regtest_params

unfoldable pub is_digishield_activated : Params → ℕ → Bool
is_digishield_activated p height = leb p.digishield_activation_height height

abbrev pub digishield_timespan : Network → ℤ
digishield_timespan dogecoin = one_minute
digishield_timespan testnet = one_minute
digishield_timespan regtest = one_second

unfoldable pub pow_target_timespan : Params → ℕ → ℤ
pow_target_timespan p height =
    if not (is_digishield_activated p height) then four_hours else digishield_timespan p.network

abbrev pub min_difficulty_on : Network → ℕ → Bool
min_difficulty_on dogecoin height = false
min_difficulty_on testnet height =
    if leb height 144_999 then true else if leb height 157_499 then false else true
min_difficulty_on regtest height = true

unfoldable pub allow_min_difficulty_blocks : Params → ℕ → Bool
allow_min_difficulty_blocks p height = min_difficulty_on p.network height

unfoldable pub allow_legacy_blocks : Params → ℕ → Bool
allow_legacy_blocks p height = ltb height p.auxpow_height

-- The four bytes that start each network message.
unfoldable pub magic : Network → List ℕ
magic dogecoin = 0xC0 ∷ 0xC0 ∷ 0xC0 ∷ 0xC0 ∷ []
magic testnet = 0xFC ∷ 0xC1 ∷ 0xB7 ∷ 0xDC ∷ []
magic regtest = 0xFA ∷ 0xBF ∷ 0xB5 ∷ 0xDA ∷ []
