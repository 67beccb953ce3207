-- ===== src/Coin/Types.antt =====
-- The messages of proto/phi/coin that the module stores, and its constants (x/coin/types/params.go,
-- x/coin/types/keys.go). uint32 and uint64 fields are numbers, int64 fields are integers.
use phi_chain.Base.{ℕ, List, ℤ}
use phi_chain.Sdk.{Text}

pub record CoinLot : Type 0 where
  pub amount : Text
  pub acquired_at : ℤ

pub record FeeEntry : Type 0 where
  pub msg_type_url : Text
  pub fee : Text

pub record SplitEntry : Type 0 where
  pub msg_type_url : Text
  pub validator_bps : ℕ
  pub company_bps : ℕ

pub record Params : Type 0 where
  pub fees : List FeeEntry
  pub splits : List SplitEntry
  pub default_fee : Text
  pub micro_threshold : Text
  pub micro_daily_quota : ℕ
  pub coin_age_threshold_seconds : ℤ
  pub young_penalty_bps : ℕ
  pub old_penalty_bps : ℕ
  pub max_coin_age_lots : ℕ
  pub company_payout_address : Text
  pub agreement_extra_signer_fee : Text
  pub agreement_free_signers : ℕ

abbrev pub default_max_coin_age_lots : ℕ
default_max_coin_age_lots = 64

abbrev pub min_coin_age_lots : ℕ
min_coin_age_lots = 2

abbrev pub max_coin_age_lots_ceiling : ℕ
max_coin_age_lots_ceiling = 1024

abbrev pub max_micro_threshold_uphi : ℕ
max_micro_threshold_uphi = 1000000

abbrev pub max_micro_daily_quota : ℕ
max_micro_daily_quota = 1000

abbrev pub bps_denominator : ℕ
bps_denominator = 10000

abbrev pub max_protocol_fee_reserve_bps : ℕ
max_protocol_fee_reserve_bps = 1000

abbrev pub uphi_per_phi : ℕ
uphi_per_phi = 1000000
