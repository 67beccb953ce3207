-- ===== src/Credentials/Types.antt =====
-- The messages of proto/phi/credentials and the errors of x/credentials/types/errors.go.
use phi_chain.Base.{ℕ, Bool, true, false, Option, List, ℤ, Map}
use phi_chain.Sdk.{Text}

pub data TemplateStatus : Type 0 where
  template_unspecified template_active template_deprecated : TemplateStatus

pub data CredentialStatus : Type 0 where
  credential_unspecified credential_active credential_revoked : CredentialStatus

pub data AgreementStatus : Type 0 where
  agreement_unspecified agreement_pending agreement_completed agreement_cancelled
        agreement_expired :
      AgreementStatus

pub record CredentialTemplate : Type 0 where
  pub id : Text
  pub version : ℕ
  pub owner_did : Text
  pub schema_hash : Text
  pub issuer_bbs_pubkey : Text
  pub name : Text
  pub status : TemplateStatus
  pub created_at : ℤ
  pub updated_at : ℤ
  pub message_count : ℕ
  pub disclosable_indices : List ℕ
  pub disclosure_policy_hash : Text

pub record CredentialAnchor : Type 0 where
  pub credential_hash : Text
  pub template_id : Text
  pub template_version : ℕ
  pub issuer_did : Text
  pub subject_did : Text
  pub issued_at : ℤ
  pub status : CredentialStatus

pub record AgreementSignature : Type 0 where
  pub signer_did : Text
  pub signed_at : ℤ

pub record Agreement : Type 0 where
  pub hash : Text
  pub creator : Text
  pub required_signers : List Text
  pub signatures : List AgreementSignature
  pub deadline : ℤ
  pub status : AgreementStatus
  pub created_at : ℤ

pub record PersonalAnchor : Type 0 where
  pub owner_did : Text
  pub anchor_hash : Text
  pub anchored_at : ℤ

-- MsgRegisterCredentialTemplate and MsgUpdateCredentialTemplate. An update has neither an owner nor a
-- key.
pub record MsgRegisterTemplate : Type 0 where
  pub creator : Text
  pub id : Text
  pub owner_did : Text
  pub schema_hash : Text
  pub name : Text
  pub issuer_bbs_pubkey : Text
  pub message_count : ℕ
  pub disclosable_indices : List ℕ

pub record MsgUpdateTemplate : Type 0 where
  pub creator : Text
  pub id : Text
  pub schema_hash : Text
  pub name : Text
  pub message_count : ℕ
  pub disclosable_indices : List ℕ

pub record MsgAnchorCredential : Type 0 where
  pub issuer : Text
  pub issuer_did : Text
  pub subject_did : Text
  pub template_id : Text
  pub template_version : ℕ
  pub credential_hash : Text
  pub issuer_sig : Text

pub record MsgCreateAgreement : Type 0 where
  pub creator : Text
  pub hash : Text
  pub required_signers : List Text
  pub deadline : ℤ

pub record MsgSignAgreement : Type 0 where
  pub signer : Text
  pub hash : Text
  pub signer_did : Text
  pub signature : Text

pub record MsgAnchorPersonal : Type 0 where
  pub owner : Text
  pub owner_did : Text
  pub anchor_hash : Text
  pub signature : Text

-- `invalid_signer` is an error of the SDK.
pub data Error : Type 0 where
  template_exists template_not_found deprecated version_mismatch credential_exists
        credential_not_found already_revoked agreement_exists agreement_not_found agreement_closed
        deadline_passed not_required_signer already_signed personal_anchor_exists
        personal_anchor_not_found did_not_active unauthorized invalid_signature invalid_params
        invalid_request invalid_signer :
      Error

abbrev pub is_deprecated : TemplateStatus → Bool
is_deprecated template_deprecated = true
is_deprecated template_active = false
is_deprecated template_unspecified = false

abbrev pub is_active_template : TemplateStatus → Bool
is_active_template template_active = true
is_active_template template_deprecated = false
is_active_template template_unspecified = false

abbrev pub is_revoked_credential : CredentialStatus → Bool
is_revoked_credential credential_revoked = true
is_revoked_credential credential_active = false
is_revoked_credential credential_unspecified = false

abbrev pub is_pending : AgreementStatus → Bool
is_pending agreement_pending = true
is_pending agreement_completed = false
is_pending agreement_cancelled = false
is_pending agreement_expired = false
is_pending agreement_unspecified = false

-- The store of the keeper. The parameters are the largest number of signers of an agreement.
pub record CredentialStore : Type 0 where
  pub max_agreement_signers : Option ℕ
  pub templates : Map Text CredentialTemplate
  pub anchors : Map Text CredentialAnchor
  pub agreements : Map Text Agreement
  pub personal_anchors : Map (Text × Text) PersonalAnchor
