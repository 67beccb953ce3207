-- ===== src/Identity/Handlers.antt =====
-- x/identity/keeper/msg_server.go and the handlers of issuer.go. Events are left out.
use phi_chain.Base.{
  ℕ, ◌+◌, ◌%◌, ◌^◌, Bool, false, not, ◌&&◌, ◌||◌, some, List, [], ◌∷◌, map, ltb, leb, ◌==◌,
  if◌then◌else◌, pos, length, nat_eq, Result, ok, fail_if, or_fail, ◌>>=◌, ◌>>◌,
}
use phi_chain.Sdk.{Text, text, text_bytes, Sdk}
use phi_chain.Sdk.Bank.{Bank}
use phi_chain.Identity.Types
use phi_chain.Identity.Types.{
  DidDocument, DidStatus, KeyType, TrustedIssuer, GuardianSet, Params, Error, is_active_status,
  is_suspended, is_revoked,
}
use phi_chain.Identity.Canonical.{canonical_message}
use phi_chain.Identity.Store.{
  Host, IdentityStore, curve_r1, get_params, get_identity, has_identity, has_uniqueness,
  set_uniqueness, set_identity, get_trusted_issuer, set_trusted_issuer, has_issuer_nonce,
  mark_issuer_nonce, set_guardian_set, delete_guardian_set, bump_guardian_epoch, release_validator,
}
use phi_chain.Identity.Validate.{
  curve_for_key_type, derive_did_for_key_type, validate_guardian_set_basic, validate,
}
use phi_chain.Identity.Requests.{
  IdentityChain, freeze_live_recoveries, thaw_recoveries, terminate_recovery_requests_for_did,
}

pub record MsgRegisterIdentity : Type 0 where
  pub creator : Text
  pub did : Text
  pub pub_key : Text
  pub uniqueness_hash : Text
  pub issuer_did : Text
  pub issuer_sig : Text
  pub nonce : Text
  pub pop_sig : Text
  pub key_type : KeyType

pub record MsgRotateIdentityKey : Type 0 where
  pub creator : Text
  pub did : Text
  pub new_pub_key : Text
  pub pop_sig : Text

pub record MsgSetGuardians : Type 0 where
  pub controller : Text
  pub did : Text
  pub commitments : List Text
  pub threshold : ℕ

unfoldable pub attestation_message : Text → Text → Text → Text → Text → Text → List ℕ
attestation_message chain_id did key hash creator nonce =
    canonical_message (text_bytes (text "phi-issuer-attestation-v3"))
      (map text_bytes (chain_id ∷ did ∷ key ∷ hash ∷ creator ∷ nonce ∷ []))

unfoldable pub rotation_message : Text → Text → Text → Text → List ℕ
rotation_message chain_id did key creator =
    canonical_message (text_bytes (text "phi-key-rotation-v3"))
      (map text_bytes (chain_id ∷ did ∷ key ∷ creator ∷ []))

unfoldable pub set_params : ⦃sdk : Sdk⦄ → Params → IdentityStore → Result Error IdentityStore
set_params p s = do validate p; ok (record s { params = some p })

-- The count of a registration, and the bootstrap phase, which ends for good at its threshold.
unfoldable pub count_registration : ⦃sdk : Sdk⦄ → IdentityStore → Result Error IdentityStore
count_registration s =
    let count = (s.identity_count + 1) % 2 ^ 64 in
    let counted = record s { identity_count = count } in
    let p = get_params counted in
    let ended = set_params (record p { bootstrap_phase = false }) counted in
    if p.bootstrap_phase && leb p.bootstrap_threshold count then ended else ok counted

-- What a change of status does to the recovery requests.
unfoldable pub pause_or_resume :
    ⦃host : Host⦄ → ℕ → Text → DidStatus → DidStatus → IdentityStore → IdentityStore
pause_or_resume block_time did Types.active Types.suspended s =
    freeze_live_recoveries block_time did s
pause_or_resume block_time did Types.suspended Types.active s = thaw_recoveries block_time did s
pause_or_resume block_time did old new s = s

abbrev same_status : DidStatus → DidStatus → Bool
same_status a b =
    (is_active_status a && is_active_status b)
    || (is_suspended a && is_suspended b)
    || (is_revoked a && is_revoked b)

module _ ⦃host : Host⦄ where
  unfoldable pub verify_registration : MsgRegisterIdentity → IdentityStore → Result Error (Unit {0})
  verify_registration m s = do
    curve ← or_fail (curve_for_key_type m.key_type) Types.invalid_pub_key
    derived ← or_fail (derive_did_for_key_type m.key_type m.pub_key) Types.invalid_pub_key
    fail_if (not (m.did == derived)) Types.invalid_did
    issuer ← or_fail (get_trusted_issuer m.issuer_did s) Types.issuer_not_trusted
    fail_if (not issuer.is_active) Types.issuer_not_trusted
    fail_if (has_issuer_nonce m.issuer_did m.nonce s) Types.nonce_reused
    let signed =
        attestation_message host.chain_id m.did m.pub_key m.uniqueness_hash m.creator m.nonce
    fail_if (not (host.verify_signature curve_r1 issuer.pub_key signed m.issuer_sig))
        Types.invalid_issuer_sig
    fail_if (not (host.verify_signature curve m.pub_key signed m.pop_sig)) Types.invalid_pop

  unfoldable pub registered : ℕ → MsgRegisterIdentity → IdentityStore → IdentityStore
  registered block_time m s = mark_issuer_nonce m.issuer_did m.nonce (
      set_uniqueness m.uniqueness_hash m.did (
        set_identity block_time
          (record {
            did = m.did;
            controller = m.creator;
            pub_key = m.pub_key;
            uniqueness_hash = m.uniqueness_hash;
            created_at = pos block_time;
            status = Types.active;
            key_type = m.key_type;
          })
          s))

  unfoldable pub register_identity :
      ⦃sdk : Sdk⦄ → ℕ → MsgRegisterIdentity → IdentityStore → Result Error IdentityStore
  unfolding registered
  register_identity block_time m s = do
    fail_if (has_identity m.did s) Types.identity_exists
    fail_if (has_uniqueness m.uniqueness_hash s) Types.uniqueness_used
    verify_registration m s
    count_registration (registered block_time m s)

  unfoldable pub rotate_identity_key :
      ℕ → MsgRotateIdentityKey → IdentityStore → Result Error IdentityStore
  rotate_identity_key block_time m s = do
    doc ← or_fail (get_identity m.did s) Types.identity_not_found
    fail_if (not (m.creator == doc.controller)) Types.unauthorized
    fail_if (not (is_active_status doc.status)) Types.key_rotation
    curve ← or_fail (curve_for_key_type doc.key_type) Types.key_rotation
    fail_if
        (not (
          host.verify_signature curve m.new_pub_key
            (rotation_message host.chain_id m.did m.new_pub_key m.creator) m.pop_sig))
        Types.invalid_pop
    derived ← or_fail (derive_did_for_key_type doc.key_type m.new_pub_key) Types.invalid_pub_key
    fail_if (not (derived == doc.did) && has_identity derived s) Types.recovery_key_collision
    ok (set_identity block_time (record doc { pub_key = m.new_pub_key }) s)

  unfoldable pub update_status :
      ℕ → Text → Text → DidStatus → IdentityStore → Result Error IdentityStore
  update_status block_time authority did new_status s = do
    fail_if (not (authority == host.authority)) Types.invalid_signer
    fail_if (not (is_active_status new_status || is_suspended new_status))
        Types.invalid_status_transition
    doc ← or_fail (get_identity did s) Types.identity_not_found
    fail_if (is_revoked doc.status) Types.identity_revoked
    fail_if (same_status doc.status new_status) Types.invalid_status_transition
    ok (
        pause_or_resume block_time did doc.status new_status
          (set_identity block_time (record doc { status = new_status }) s))

  unfoldable pub set_guardians : ℕ → MsgSetGuardians → IdentityStore → Result Error IdentityStore
  set_guardians block_time m s = do
    doc ← or_fail (get_identity m.did s) Types.identity_not_found
    fail_if (not (m.controller == doc.controller)) Types.unauthorized
    fail_if (not (is_active_status doc.status)) Types.invalid_guardians
    validate_guardian_set_basic m.did m.commitments m.threshold
    fail_if (ltb (get_params s).max_guardians (length m.commitments)) Types.invalid_guardians
    ok (
        bump_guardian_epoch m.did (
          set_guardian_set
            (record {
              did = m.did;
              commitments = m.commitments;
              threshold = m.threshold;
              updated_at = pos block_time;
            })
            s))

  unfoldable pub update_params :
      ⦃sdk : Sdk⦄ → Text → Params → IdentityStore → Result Error IdentityStore
  update_params authority p s = do
    fail_if (not (authority == host.authority)) Types.invalid_signer
    set_params p s

  unfoldable pub register_trusted_issuer :
      Text → TrustedIssuer → IdentityStore → Result Error IdentityStore
  register_trusted_issuer authority issuer s = do
    fail_if (not (authority == host.authority)) Types.invalid_signer
    ok (set_trusted_issuer issuer s)

  unfoldable pub revoke_trusted_issuer : Text → Text → IdentityStore → Result Error IdentityStore
  revoke_trusted_issuer authority did s = do
    fail_if (not (authority == host.authority)) Types.invalid_signer
    ti ← or_fail (get_trusted_issuer did s) Types.issuer_not_found
    ok (set_trusted_issuer (record ti { is_active = false }) s)

  unfoldable pub revoke_identity :
      {B : Type 0}
      → Bank B
      → ⦃sdk : Sdk⦄ → ℕ
      → Text
      → Text
      → IdentityChain B
      → Result Error (IdentityChain B)
  revoke_identity bank block_time creator did c = do
    doc ← or_fail (get_identity did c.ids) Types.identity_not_found
    fail_if (not (creator == doc.controller) && not (creator == host.authority)) Types.unauthorized
    fail_if (is_revoked doc.status) Types.identity_revoked
    closed ←
        terminate_recovery_requests_for_did bank did
          (record c { ids = set_identity block_time (record doc { status = Types.revoked }) c.ids })
    ok (record closed {
      ids = bump_guardian_epoch did (release_validator did (delete_guardian_set did closed.ids));
    })
