-- ===== src/Institutions/Types.antt =====
-- The messages of proto/phi/institutions that the keeper reads, and the errors of
-- x/institutions/types/errors.go.
use phi_chain.Base.{ℕ, Bool, List, ℤ}
use phi_chain.Sdk.{Text}

pub data Status : Type 0 where
  status_unspecified healthy low_liq frozen : Status

pub data InstitutionType : Type 0 where
  type_unspecified financial fx : InstitutionType

pub data Role : Type 0 where
  role_unspecified admin operator finance compliance developer viewer : Role

pub record Caps : Type 0 where
  pub mint_daily : Text
  pub mint_per_tx : Text
  pub mint_per_user : Text
  pub redeem_daily : Text
  pub redeem_per_tx : Text
  pub redeem_per_user : Text

pub record KycTierLimit : Type 0 where
  pub tier : ℕ
  pub daily_limit_toman : Text

pub record InstitutionParams : Type 0 where
  pub caps : Caps
  pub kyc_tier_limits : List KycTierLimit
  pub max_vault_attestation_latency_s : ℕ
  pub sensitive_threshold : ℕ

pub record Institution : Type 0 where
  pub id : Text
  pub license : Text
  pub admin : Text
  pub vault_account : Text
  pub vault_api : Text
  pub bond : Text
  pub status : Status
  pub vault_balance : Text
  pub attested_reserve : Text
  pub paused_mint : Bool
  pub params : InstitutionParams
  pub institution_type : InstitutionType
  pub deposit_pubkey : Text
  pub last_attested_at : ℤ

-- `started_at` is a block time, which Validate keeps from being negative.
pub record EmergencyRedemption : Type 0 where
  pub active : Bool
  pub started_at : ℕ
  pub cap_before_day30 : Text
  pub cap_from_day30 : Text
  pub cap_from_day60 : Text

pub record Params : Type 0 where
  pub operator : Text
  pub phi_to_toman : ℕ
  pub redeem_floor_per_tx : Text
  pub emergency_redemption : EmergencyRedemption
  pub penalty_destination : Text
  pub large_mint_threshold_toman : Text
  pub mint_ceiling_per_tx : Text
  pub mint_ceiling_daily : Text
  pub redeem_daily_cap_per_did_uphi : Text
  pub protocol_fee_bps : ℕ
  pub max_attestation_staleness_seconds : ℕ

-- `panicked` is a panic of the handler, which fails the transaction too.
pub data Error : Type 0 where
  institution_exists institution_not_found institution_frozen invalid_amount : Error
  mint_exceeds_backing insufficient_vault unauthorized mint_paused vault_not_empty : Error
  invalid_params non_integral_mint solvency_broken role_not_authorized cap_exceeded : Error
  looser_than_floor duplicate_deposit id_too_long invalid_fx_metadata : Error
  invalid_institution_type invalid_deposit_proof kyc_tier_exceeded redemption_throttled : Error
  missing_ref nothing_redeemed attestation_stale too_few_admins attestor_is_minter : Error
  below_min_redeem removal_in_progress invalid_address bank_failed panicked : Error
