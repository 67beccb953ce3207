-- ===== src/Credentials/Handlers.antt =====
-- x/credentials/keeper: keeper.go and msg_server.go. Events are left out. The registry of x/identity is
-- an argument, which no message of this module changes.
use phi_chain.Base.{
  ℕ, ◌+◌, ◌%◌, ◌^◌, Bool, true, false, not, ◌&&◌, ◌||◌, Option, none, some, List, [], ◌∷◌, ◌++◌,
  length, ltb, ◌==◌, if◌then◌else◌, ℤ, pos, ltb_ℤ, int_eq, lookup, insert, nat_eq, pair_eq, Result,
  ok, fail_if, or_fail, ◌>>=◌, ◌>>◌,
}
use phi_chain.Sdk.{Text, empty_text, text_bytes, text_length}
use phi_chain.Identity.Types.{is_active_status}
use phi_chain.Identity.Store.{Host, IdentityStore, curve_r1, get_identity}
use phi_chain.Credentials.Types
use phi_chain.Credentials.Types.{
  CredentialTemplate, CredentialAnchor, AgreementSignature, Agreement, PersonalAnchor,
  MsgRegisterTemplate, MsgUpdateTemplate, MsgAnchorCredential, MsgCreateAgreement, MsgSignAgreement,
  MsgAnchorPersonal, Error, CredentialStore, is_deprecated, is_active_template,
  is_revoked_credential, is_pending,
}
use phi_chain.Credentials.Policy.{validate_disclosure_policy, policy_hash}

unfoldable pub get_max_signers : CredentialStore → ℕ
get_max_signers s = elim s.max_agreement_signers [ none ↦ 100 | some n ↦ n ]

unfoldable pub get_template : Text → CredentialStore → Option CredentialTemplate
get_template id s = lookup id s.templates

unfoldable pub set_template : CredentialTemplate → CredentialStore → CredentialStore
set_template t s = record s { templates = insert t.id t s.templates }

unfoldable pub get_anchor : Text → CredentialStore → Option CredentialAnchor
get_anchor hash s = lookup hash s.anchors

unfoldable pub set_anchor : CredentialAnchor → CredentialStore → CredentialStore
set_anchor a s = record s { anchors = insert a.credential_hash a s.anchors }

unfoldable pub get_agreement : Text → CredentialStore → Option Agreement
get_agreement hash s = lookup hash s.agreements

unfoldable pub set_agreement : Agreement → CredentialStore → CredentialStore
set_agreement a s = record s { agreements = insert a.hash a s.agreements }

unfoldable pub set_personal_anchor : PersonalAnchor → CredentialStore → CredentialStore
set_personal_anchor p s = record s {
  personal_anchors = insert (p.owner_did, p.anchor_hash) p s.personal_anchors;
}

abbrev holds {ℓ} : {A : Type ℓ} → Option A → Bool
holds none = false
holds (some a) = true

unfoldable pub contains_string : List Text → Text → Bool
contains_string [] t = false
contains_string (x ∷ xs) t = (x == t) || contains_string xs t

unfoldable pub has_signed : List AgreementSignature → Text → Bool
has_signed [] did = false
has_signed (x ∷ xs) did = (x.signer_did == did) || has_signed xs did

-- The key of an active identity that the signer controls.
unfoldable pub auth_did : Text → Text → IdentityStore → Result Error Text
auth_did did signer ids = do
  doc ← or_fail (get_identity did ids) Types.did_not_active
  fail_if (not (is_active_status doc.status)) Types.did_not_active
  fail_if (not (doc.controller == signer)) Types.unauthorized
  ok doc.pub_key

unfoldable pub require_active_did : Text → IdentityStore → Result Error (Unit {0})
require_active_did did ids = do
  doc ← or_fail (get_identity did ids) Types.did_not_active
  fail_if (not (is_active_status doc.status)) Types.did_not_active

unfoldable pub update_params :
    ⦃host : Host⦄ → Text → ℕ → CredentialStore → Result Error CredentialStore
update_params ⦃host⦄ authority max_signers s = do
  fail_if (not (authority == host.authority)) Types.invalid_signer
  fail_if (max_signers == 0) Types.invalid_params
  ok (record s { max_agreement_signers = some max_signers })

-- A template that its owner may change.
unfoldable pub owned_template :
    Text → Text → IdentityStore → CredentialStore → Result Error CredentialTemplate
owned_template creator id ids s = do
  t ← or_fail (get_template id s) Types.template_not_found
  key ← auth_did t.owner_did creator ids
  fail_if (is_deprecated t.status) Types.deprecated
  ok t

unfoldable pub deprecate_template :
    ℕ → Text → Text → IdentityStore → CredentialStore → Result Error CredentialStore
deprecate_template block_time creator id ids s = do
  t ← owned_template creator id ids s
  ok (set_template (record t { status = Types.template_deprecated; updated_at = pos block_time }) s)

unfoldable pub revoke_credential :
    Text → Text → IdentityStore → CredentialStore → Result Error CredentialStore
revoke_credential issuer hash ids s = do
  a ← or_fail (get_anchor hash s) Types.credential_not_found
  fail_if (is_revoked_credential a.status) Types.already_revoked
  key ← auth_did a.issuer_did issuer ids
  ok (set_anchor (record a { status = Types.credential_revoked }) s)

unfoldable pub create_agreement :
    ℕ → MsgCreateAgreement → CredentialStore → Result Error CredentialStore
create_agreement block_time m s = do
  fail_if (holds (get_agreement m.hash s)) Types.agreement_exists
  fail_if (ltb (get_max_signers s) (length m.required_signers % 2 ^ 32)) Types.invalid_request
  ok (
      set_agreement
        (record {
          hash = m.hash;
          creator = m.creator;
          required_signers = m.required_signers;
          signatures = [];
          deadline = m.deadline;
          status = Types.agreement_pending;
          created_at = pos block_time;
        })
        s)

unfoldable pub cancel_agreement : Text → Text → CredentialStore → Result Error CredentialStore
cancel_agreement creator hash s = do
  ag ← or_fail (get_agreement hash s) Types.agreement_not_found
  fail_if (not (is_pending ag.status)) Types.agreement_closed
  fail_if (not (ag.creator == creator)) Types.unauthorized
  ok (set_agreement (record ag { status = Types.agreement_cancelled }) s)

-- The agreement with one more signature, completed by the last one.
unfoldable pub signed : ℤ → Text → Agreement → Agreement
signed now did ag =
    let signatures = ag.signatures ++ (record { signer_did = did; signed_at = now } ∷ []) in
    record ag {
      signatures = signatures;
      status =
          (if length signatures == length ag.required_signers
            then Types.agreement_completed
            else ag.status);
    }

module _ ⦃host : Host⦄ where
  unfoldable pub verify_p256 : Text → Text → Text → Bool
  verify_p256 key message sig = host.verify_signature curve_r1 key (text_bytes message) sig

  unfoldable pub new_template : ℤ → MsgRegisterTemplate → CredentialTemplate
  new_template now m =
      let t : CredentialTemplate = record {
        id = m.id;
        version = 1;
        owner_did = m.owner_did;
        schema_hash = m.schema_hash;
        issuer_bbs_pubkey = m.issuer_bbs_pubkey;
        name = m.name;
        status = Types.template_active;
        created_at = now;
        updated_at = now;
        message_count = m.message_count;
        disclosable_indices = m.disclosable_indices;
        disclosure_policy_hash = empty_text;
      } in
      record t { disclosure_policy_hash = policy_hash t }

  unfoldable pub register_template :
      ℕ → MsgRegisterTemplate → IdentityStore → CredentialStore → Result Error CredentialStore
  register_template block_time m ids s = do
    fail_if (holds (get_template m.id s)) Types.template_exists
    key ← auth_did m.owner_did m.creator ids
    fail_if (text_length m.issuer_bbs_pubkey == 0) Types.invalid_request
    fail_if (ltb 256 (text_length m.issuer_bbs_pubkey)) Types.invalid_request
    validate_disclosure_policy m.message_count m.disclosable_indices
    ok (set_template (new_template (pos block_time) m) s)

  unfoldable pub updated : ℤ → MsgUpdateTemplate → CredentialTemplate → CredentialTemplate
  updated now m t =
      let u : CredentialTemplate = record t {
        version = (t.version + 1) % 2 ^ 32;
        schema_hash = m.schema_hash;
        name = m.name;
        updated_at = now;
        message_count = m.message_count;
        disclosable_indices = m.disclosable_indices;
      } in
      record u { disclosure_policy_hash = policy_hash u }

  unfoldable pub update_template :
      ℕ → MsgUpdateTemplate → IdentityStore → CredentialStore → Result Error CredentialStore
  update_template block_time m ids s = do
    t ← owned_template m.creator m.id ids s
    validate_disclosure_policy m.message_count m.disclosable_indices
    ok (set_template (updated (pos block_time) m t) s)

  unfoldable pub anchor_credential :
      ℕ → MsgAnchorCredential → IdentityStore → CredentialStore → Result Error CredentialStore
  anchor_credential block_time m ids s = do
    fail_if (holds (get_anchor m.credential_hash s)) Types.credential_exists
    key ← auth_did m.issuer_did m.issuer ids
    require_active_did m.subject_did ids
    t ← or_fail (get_template m.template_id s) Types.template_not_found
    fail_if (not (is_active_template t.status)) Types.deprecated
    fail_if (not (m.template_version == t.version)) Types.version_mismatch
    fail_if (not (verify_p256 key m.credential_hash m.issuer_sig)) Types.invalid_signature
    ok (
        set_anchor
          (record {
            credential_hash = m.credential_hash;
            template_id = m.template_id;
            template_version = m.template_version;
            issuer_did = m.issuer_did;
            subject_did = m.subject_did;
            issued_at = pos block_time;
            status = Types.credential_active;
          })
          s)

  unfoldable pub sign_agreement :
      ℕ → MsgSignAgreement → IdentityStore → CredentialStore → Result Error CredentialStore
  sign_agreement block_time m ids s = do
    ag ← or_fail (get_agreement m.hash s) Types.agreement_not_found
    fail_if (not (is_pending ag.status)) Types.agreement_closed
    fail_if (not (int_eq.matches ag.deadline (pos 0)) && ltb_ℤ ag.deadline (pos block_time))
        Types.deadline_passed
    fail_if (not (contains_string ag.required_signers m.signer_did)) Types.not_required_signer
    fail_if (has_signed ag.signatures m.signer_did) Types.already_signed
    key ← auth_did m.signer_did m.signer ids
    fail_if (not (verify_p256 key m.hash m.signature)) Types.invalid_signature
    ok (set_agreement (signed (pos block_time) m.signer_did ag) s)

  unfoldable pub anchor_personal :
      ℕ → MsgAnchorPersonal → IdentityStore → CredentialStore → Result Error CredentialStore
  anchor_personal block_time m ids s = do
    fail_if (holds (lookup (m.owner_did, m.anchor_hash) s.personal_anchors))
        Types.personal_anchor_exists
    key ← auth_did m.owner_did m.owner ids
    fail_if (not (verify_p256 key m.anchor_hash m.signature)) Types.invalid_signature
    ok (
        set_personal_anchor
          (record {
            owner_did = m.owner_did;
            anchor_hash = m.anchor_hash;
            anchored_at = pos block_time;
          })
          s)
