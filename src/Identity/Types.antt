-- ===== src/Identity/Types.antt =====
-- The messages of proto/phi/identity that the keeper reads, the errors of x/identity/types/errors.go,
-- and recovery.go of that folder.
use phi_chain.Base.{ℕ, Bool, true, false, List, ℤ}
use phi_chain.Sdk.{Text}

pub data DidStatus : Type 0 where
  status_unspecified active suspended revoked : DidStatus

pub data KeyType : Type 0 where
  key_type_unspecified secp256r1 secp256k1 key_type_other : KeyType

pub data RecoveryMethod : Type 0 where
  method_unspecified social reauth : RecoveryMethod

pub data RecoveryStatus : Type 0 where
  recovery_unspecified pending executed rejected expired superseded : RecoveryStatus

pub record DidDocument : Type 0 where
  pub did : Text
  pub controller : Text
  pub pub_key : Text
  pub uniqueness_hash : Text
  pub created_at : ℤ
  pub status : DidStatus
  pub key_type : KeyType

pub record TrustedIssuer : Type 0 where
  pub did : Text
  pub pub_key : Text
  pub is_active : Bool

pub record GuardianSet : Type 0 where
  pub did : Text
  pub commitments : List Text
  pub threshold : ℕ
  pub updated_at : ℤ

pub record RecoveryRequest : Type 0 where
  pub recovery_id : Text
  pub did : Text
  pub proposed_new_pub_key : Text
  pub proposed_new_controller : Text
  pub key_type : KeyType
  pub method : RecoveryMethod
  pub approvals : List Text
  pub nonce : Text
  pub initiated_at : ℤ
  pub execute_after : ℤ
  pub expires_at : ℤ
  pub deposit_uphi : Text
  pub attestor_did : Text
  pub fee_uphi : Text
  pub status : RecoveryStatus
  pub rejections : List Text
  pub frozen_at : ℤ

pub record Params : Type 0 where
  pub min_identity_age_seconds : ℤ
  pub bootstrap_threshold : ℕ
  pub bootstrap_phase : Bool
  pub webauthn_allowed_origins : List Text
  pub webauthn_rp_id : Text
  pub max_guardians : ℕ
  pub uv_sensitive_msg_type_urls : List Text
  pub uv_large_transfer_uphi : Text
  pub recovery_delay_seconds : ℤ
  pub recovery_request_ttl_seconds : ℤ
  pub max_open_recovery_requests : ℕ
  pub recovery_deposit_uphi : Text
  pub reauth_recovery_fee_uphi : Text

-- `invalid_address` and `bank_failed` are errors of the SDK.
pub data Error : Type 0 where
  identity_exists uniqueness_used identity_not_found invalid_did invalid_pub_key unauthorized
        invalid_params identity_revoked invalid_issuer_sig issuer_not_trusted invalid_pop
        issuer_not_found key_rotation nonce_reused invalid_status_transition invalid_guardians
        invalid_recovery recovery_not_found recovery_not_pending recovery_too_early
        recovery_below_quorum recovery_slots_full recovery_nonce_reused not_a_guardian
        guardian_not_eligible already_approved recovery_key_collision reauth_not_enabled
        invalid_reauth_attestation already_rejected invalid_signer invalid_address bank_failed :
      Error

abbrev pub is_active_status : DidStatus → Bool
is_active_status active = true
is_active_status suspended = false
is_active_status revoked = false
is_active_status status_unspecified = false

abbrev pub is_suspended : DidStatus → Bool
is_suspended active = false
is_suspended suspended = true
is_suspended revoked = false
is_suspended status_unspecified = false

abbrev pub is_revoked : DidStatus → Bool
is_revoked active = false
is_revoked suspended = false
is_revoked revoked = true
is_revoked status_unspecified = false

abbrev pub is_reauth : RecoveryMethod → Bool
is_reauth reauth = true
is_reauth social = false
is_reauth method_unspecified = false

abbrev pub is_terminal_recovery_status : RecoveryStatus → Bool
is_terminal_recovery_status pending = false
is_terminal_recovery_status executed = true
is_terminal_recovery_status rejected = true
is_terminal_recovery_status expired = true
is_terminal_recovery_status superseded = true
is_terminal_recovery_status recovery_unspecified = true
