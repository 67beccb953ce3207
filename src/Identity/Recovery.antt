-- ===== src/Identity/Recovery.antt =====
-- x/identity/keeper/msg_server_recovery.go with reauth_verify.go. Events are left out.
pub mod Execution
pub mod Veto
use phi_chain.Base.{
  ℕ, ◌+◌, Bool, true, false, not, Option, none, some, List, [], ◌∷◌, ◌++◌, map, ltb, leb, ◌==◌,
  if◌then◌else◌, ℤ, pos, negsuc, ltb_ℤ, add64, length, Result, ok, err, fail_if, or_fail, ◌>>=◌,
  ◌>>◌,
}
use phi_chain.Sdk.{Text, text, text_bytes, Sdk, Addr}
use phi_chain.Sdk.Bank.{Bank, Account, user}
use phi_chain.Identity.Types
use phi_chain.Identity.Types.{
  DidDocument, GuardianSet, RecoveryRequest, RecoveryMethod, KeyType, Params, Error,
  is_active_status, is_reauth,
}
use phi_chain.Identity.Canonical.{canonical_message}
use phi_chain.Identity.Store.{
  Host, IdentityStore, curve_r1, is_some, get_params, get_identity, get_guardians,
  get_trusted_issuer, set_identity,
}
use phi_chain.Identity.Validate.{
  derive_recovery_id, has_commitment, recovery_deposit, reauth_recovery_fee,
}
use phi_chain.Identity.Requests.{
  IdentityChain, fee_collector, set_recovery_request, delete_recovery_request, get_recovery_request,
  has_recovery_nonce, mark_recovery_nonce, effective_approvals, sync_tally_epoch,
  assert_no_key_collision, open_guardian_commitment, positive_part, move_uphi, escrow_deposit,
  refund_deposit, forfeit_deposit, reap_if_expired, count_open_requests, supersede_siblings,
}

pub record MsgInitiateRecovery : Type 0 where
  pub creator : Text
  pub did : Text
  pub proposed_new_pub_key : Text
  pub key_type : KeyType
  pub method : RecoveryMethod
  pub nonce : Text
  pub pop_sig : Text
  pub attestor_did : Text
  pub reauth_attestation : Text

-- MsgApproveRecovery and MsgRejectRecovery have the same fields.
pub record MsgGuardianVote : Type 0 where
  pub creator : Text
  pub recovery_id : Text
  pub guardian_did : Text
  pub salt : Text

unfoldable pub social_recovery_pop_message : Text → Text → Text → Text → Text → List ℕ
social_recovery_pop_message chain_id did key controller nonce =
    canonical_message (text_bytes (text "phi-social-recovery-v3"))
      (map text_bytes (chain_id ∷ did ∷ key ∷ controller ∷ nonce ∷ []))

unfoldable pub reauth_attestation_message : Text → Text → Text → Text → Text → Text → List ℕ
reauth_attestation_message chain_id did key controller hash nonce =
    canonical_message (text_bytes (text "phi-recovery-reauth-v3"))
      (map text_bytes (chain_id ∷ did ∷ key ∷ controller ∷ hash ∷ nonce ∷ []))

module _ ⦃host : Host⦄ where
  unfoldable pub verify_reauth_attestation :
      MsgInitiateRecovery → DidDocument → IdentityStore → Result Error (Unit {0})
  verify_reauth_attestation m doc s = do
    attestor ← or_fail (get_trusted_issuer m.attestor_did s) Types.issuer_not_trusted
    fail_if (not attestor.is_active) Types.issuer_not_trusted
    fail_if
        (not (
          host.verify_signature curve_r1 attestor.pub_key
            (reauth_attestation_message host.chain_id m.did m.proposed_new_pub_key m.creator
              doc.uniqueness_hash m.nonce)
            m.reauth_attestation))
        Types.invalid_reauth_attestation

  -- The checks of InitiateRecovery that come before it counts the open requests.
  unfoldable pub initiate_guards : MsgInitiateRecovery → IdentityStore → Result Error (Unit {0})
  initiate_guards m s = do
    fail_if (if is_reauth m.method then not host.reauth_enabled else false) Types.reauth_not_enabled
    doc ← or_fail (get_identity m.did s) Types.identity_not_found
    fail_if (not (is_active_status doc.status)) Types.invalid_recovery
    fail_if (if is_reauth m.method then false else not (is_some (get_guardians m.did s)))
        Types.invalid_guardians
    fail_if (m.proposed_new_pub_key == doc.pub_key) Types.invalid_recovery
    assert_no_key_collision m.key_type m.proposed_new_pub_key s
    fail_if (has_recovery_nonce m.did m.nonce s) Types.recovery_nonce_reused
    fail_if
        (not (
          host.verify_signature curve_r1 m.proposed_new_pub_key
            (social_recovery_pop_message host.chain_id m.did m.proposed_new_pub_key m.creator
              m.nonce)
            m.pop_sig))
        Types.invalid_pop
    if is_reauth m.method then verify_reauth_attestation m doc s else ok tt

module _ ⦃sdk : Sdk⦄ {B : Type 0} (bank : Bank B) ⦃host : Host⦄ where
  -- The fee or the deposit that an initiation takes, with the two amounts.
  unfoldable pub charge_initiation : RecoveryMethod → Params → Addr → B → Result Error (ℤ × ℤ × B)
  charge_initiation method p initiator b =
      let by_fee = do
        d ←
            move_uphi bank (user initiator) fee_collector
              (positive_part (some (reauth_recovery_fee p))) b
        ok (pos 0, reauth_recovery_fee p, d)
      in let by_deposit = do
        d ← escrow_deposit bank initiator (recovery_deposit p) b
        ok (recovery_deposit p, pos 0, d)
        in if is_reauth method then by_fee else by_deposit

  unfoldable pub new_request : ℤ → MsgInitiateRecovery → Params → ℤ → ℤ → RecoveryRequest
  new_request now m p deposit fee = record {
    recovery_id = derive_recovery_id m.did m.proposed_new_pub_key m.nonce;
    did = m.did;
    proposed_new_pub_key = m.proposed_new_pub_key;
    proposed_new_controller = m.creator;
    key_type = m.key_type;
    method = m.method;
    approvals = [];
    nonce = m.nonce;
    initiated_at = now;
    execute_after = add64 now p.recovery_delay_seconds;
    expires_at = add64 now p.recovery_request_ttl_seconds;
    deposit_uphi = sdk.int_string deposit;
    attestor_did = m.attestor_did;
    fee_uphi = sdk.int_string fee;
    status = Types.pending;
    rejections = [];
    frozen_at = pos 0;
  }

  unfoldable pub initiate_recovery :
      ℕ → MsgInitiateRecovery → IdentityChain B → Result Error (IdentityChain B)
  initiate_recovery block_time m c = do
    let p = get_params c.ids
    initiate_guards m c.ids
    (open_requests, d) ← count_open_requests bank (pos block_time) m.did c
    fail_if (leb p.max_open_recovery_requests open_requests) Types.recovery_slots_full
    let id = derive_recovery_id m.did m.proposed_new_pub_key m.nonce
    fail_if (is_some (get_recovery_request id d.ids)) Types.invalid_recovery
    initiator ← or_fail (sdk.acc_address_from_bech32 m.creator) Types.invalid_address
    (deposit, fee, b) ← charge_initiation m.method p initiator d.bank
    ok (record {
      bank = b;
      ids =
          mark_recovery_nonce m.did m.nonce
            (set_recovery_request (new_request (pos block_time) m p deposit fee) d.ids);
    })

  -- The request of an id, which must be open.
  unfoldable pub open_request :
      ℤ → Text → IdentityChain B → Result Error (RecoveryRequest × IdentityChain B)
  open_request now id c = do
    req ← or_fail (get_recovery_request id c.ids) Types.recovery_not_found
    (terminal, d) ← reap_if_expired bank now req c
    fail_if terminal Types.recovery_not_pending
    ok (req, d)

  -- The guards that an approval and a rejection share, and the request with its tally brought up to the
  -- guardian set in force.
  unfoldable pub open_vote :
      ℤ → MsgGuardianVote → IdentityChain B → Result Error (RecoveryRequest × IdentityChain B)
  open_vote now m c = do
    (req, d) ← open_request now m.recovery_id c
    fail_if (is_reauth req.method) Types.invalid_recovery
    open_guardian_commitment req.did m.guardian_did m.salt m.creator d.ids
    let synced = sync_tally_epoch req d.ids
    ok (synced.0, record d { ids = synced.1 })

  unfoldable pub approve_recovery :
      ℕ → MsgGuardianVote → IdentityChain B → Result Error (IdentityChain B)
  approve_recovery block_time m c = do
    (req, d) ← open_vote (pos block_time) m c
    fail_if (has_commitment m.guardian_did req.approvals) Types.already_approved
    ok (record d {
      ids =
          set_recovery_request (record req { approvals = req.approvals ++ (m.guardian_did ∷ []) })
            d.ids;
    })

  unfoldable pub reject_recovery :
      ℕ → MsgGuardianVote → IdentityChain B → Result Error (IdentityChain B)
  reject_recovery block_time m c = do
    (req, d) ← open_vote (pos block_time) m c
    fail_if (has_commitment m.guardian_did req.rejections) Types.already_rejected
    let r = record req { rejections = req.rejections ++ (m.guardian_did ∷ []) }
    gs ← or_fail (get_guardians req.did d.ids) Types.invalid_guardians
    let closed = do
      b ← forfeit_deposit bank r d.bank
      ok (record { bank = b; ids = delete_recovery_request r d.ids })
    if leb gs.threshold (length r.rejections)
        then closed
        else ok (record d { ids = set_recovery_request r d.ids })

  -- The authorisation of an execution: a request whose window has passed, with enough approvals that
  -- count.
  unfoldable pub authorise : ℤ → RecoveryRequest → IdentityStore → Result Error (Unit {0})
  authorise now req s =
      let by_guardians = do
        gs ← or_fail (get_guardians req.did s) Types.invalid_guardians
        fail_if (ltb (length (effective_approvals req s)) gs.threshold) Types.recovery_below_quorum
      in do
        fail_if (ltb_ℤ now req.execute_after) Types.recovery_too_early
        if is_reauth req.method then ok tt else by_guardians

  unfoldable pub execute_recovery : ℕ → Text → IdentityChain B → Result Error (IdentityChain B)
  execute_recovery block_time id c = do
    (req, d) ← open_request (pos block_time) id c
    authorise (pos block_time) req d.ids
    doc ← or_fail (get_identity req.did d.ids) Types.identity_not_found
    fail_if (not (is_active_status doc.status)) Types.invalid_recovery
    assert_no_key_collision req.key_type req.proposed_new_pub_key d.ids
    let s =
        set_identity block_time
          (record doc {
            pub_key = req.proposed_new_pub_key;
            key_type = req.key_type;
            controller = req.proposed_new_controller;
          })
          d.ids
    b ← refund_deposit bank req d.bank
    supersede_siblings bank req.did req.recovery_id
        (record { bank = b; ids = delete_recovery_request req s })

  unfoldable pub cancel_recovery :
      ℕ → Text → Text → IdentityChain B → Result Error (IdentityChain B)
  cancel_recovery block_time creator id c = do
    (req, d) ← open_request (pos block_time) id c
    doc ← or_fail (get_identity req.did d.ids) Types.identity_not_found
    fail_if (not (creator == doc.controller)) Types.unauthorized
    b ← forfeit_deposit bank req d.bank
    ok (record { bank = b; ids = delete_recovery_request req d.ids })
