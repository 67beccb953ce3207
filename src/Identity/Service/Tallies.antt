-- ===== src/Identity/Service/Tallies.antt =====
-- Proofs that every message keeps the tallies of the recovery requests orderly.
use phi_chain.Base.{
  ℕ, pos, ◌≡◌, refl, ap, subst, arith, inl, inr, nat_eq, ok, Option-cases, Result-cases,
}
use phi_chain.Sdk.{Text, Sdk}
use phi_chain.Sdk.Bank.{Bank}
use phi_chain.Identity.Types
use phi_chain.Identity.Types.{
  DidDocument, DidStatus, RecoveryRequest, GuardianSet, TrustedIssuer, Params, Error,
  is_terminal_recovery_status,
}
use phi_chain.Identity.Store.{
  Host, IdentityStore, get_identity, set_identity, set_uniqueness, mark_issuer_nonce,
  set_guardian_set, delete_guardian_set, bump_guardian_epoch, release_validator, set_trusted_issuer,
}
use phi_chain.Identity.Store.Frame.{SameRegistry, set_identity-SameRegistry}
use phi_chain.Identity.Requests.{IdentityChain, terminate_recovery_requests_for_did}
use phi_chain.Identity.Requests.Tally.{
  IsOrderly, SameTallies, same-IsOrderly, bump_guardian_epoch-IsOrderly,
}
use phi_chain.Identity.Requests.Loops.{
  freeze_live_recoveries-IsOrderly, thaw_recoveries-IsOrderly,
  terminate_recovery_requests_for_did-IsOrderly,
}
use phi_chain.Identity.Handlers.{
  MsgRegisterIdentity, MsgRotateIdentityKey, MsgSetGuardians, register_identity, registered,
  count_registration, set_params, revoke_identity, rotate_identity_key, update_status,
  pause_or_resume, set_guardians, update_params, register_trusted_issuer, revoke_trusted_issuer,
}

SameTallies-trans : (s t u : IdentityStore) → SameTallies s t → SameTallies t u → SameTallies s u
SameTallies-trans s t u h k = ground arith

release_validator-SameTallies :
    (did : Text) (s : IdentityStore) → SameTallies s (release_validator did s)
unfolding release_validator
release_validator-SameTallies did s = ground arith

module _ ⦃host : Host⦄ where
  pub set_identity-SameTallies :
      (block_time : ℕ) (d : DidDocument) (s : IdentityStore)
      → SameTallies s (set_identity block_time d s)
  unfolding SameRegistry
  set_identity-SameTallies block_time d s =
      let same = set_identity-SameRegistry block_time d s in
      record {
        recoveries = ap (λ x. x.recoveries) same;
        tally_epochs = ap (λ x. x.tally_epochs) same;
        guardian_epochs = ap (λ x. x.guardian_epochs) same;
      }

  pub rotate_identity_key-SameTallies :
      (block_time : ℕ) (m : MsgRotateIdentityKey) (s s' : IdentityStore)
      → rotate_identity_key block_time m s ≡ ok s'
      → SameTallies s s'
  unfolding rotate_identity_key
  rotate_identity_key-SameTallies block_time m s s' h = elim (Option-cases (get_identity m.did s)) [
    | inl e ↦ absurd (ground (arith, h, e))
    | inr (doc, e) ↦
        let new = record doc { pub_key = m.new_pub_key } in
        let same : set_identity block_time new s ≡ s' = ground (arith, h, e) in
        subst (SameTallies s) same (set_identity-SameTallies block_time new s)
  ]

  pause_or_resume-IsOrderly :
      (block_time : ℕ) (did : Text) (old new : DidStatus) (s : IdentityStore)
      → IsOrderly s
      → IsOrderly (pause_or_resume block_time did old new s)
  unfolding pause_or_resume
  pause_or_resume-IsOrderly block_time did Types.active Types.suspended s o =
      freeze_live_recoveries-IsOrderly block_time did s o
  pause_or_resume-IsOrderly block_time did Types.suspended Types.active s o =
      thaw_recoveries-IsOrderly block_time did s o
  pause_or_resume-IsOrderly block_time did old new s o = o

  pub update_status-IsOrderly :
      (block_time : ℕ) (authority did : Text) (status : DidStatus) (s s' : IdentityStore)
      → update_status block_time authority did status s ≡ ok s'
      → IsOrderly s
      → IsOrderly s'
  unfolding update_status
  update_status-IsOrderly block_time authority did status s s' h o =
      elim (Option-cases (get_identity did s)) [
        | inl e ↦ absurd (ground (arith, h, e))
        | inr (doc, e) ↦
            let t = set_identity block_time (record doc { status = status }) s in
            let ot =
              same-IsOrderly s t
                (set_identity-SameTallies block_time (record doc { status = status }) s) o in
            let same : pause_or_resume block_time did doc.status status t ≡ s' =
              ground (arith, h, e) in
            subst IsOrderly same (pause_or_resume-IsOrderly block_time did doc.status status t ot)
      ]

  pub set_guardians-IsOrderly :
      (block_time : ℕ) (m : MsgSetGuardians) (s s' : IdentityStore)
      → set_guardians block_time m s ≡ ok s'
      → IsOrderly s
      → IsOrderly s'
  unfolding set_guardians set_guardian_set
  set_guardians-IsOrderly block_time m s s' h o =
      let gs : GuardianSet = record {
        did = m.did;
        commitments = m.commitments;
        threshold = m.threshold;
        updated_at = pos block_time;
      } in
      let same : bump_guardian_epoch m.did (set_guardian_set gs s) ≡ s' = ground (arith, h) in
      subst IsOrderly same (
        bump_guardian_epoch-IsOrderly m.did (set_guardian_set gs s) (
          same-IsOrderly s (set_guardian_set gs s)
            (record { recoveries = refl; tally_epochs = refl; guardian_epochs = refl }) o))

  pub issuers-SameTallies :
      (authority did : Text) (issuer : TrustedIssuer) (s s' : IdentityStore)
      → (register_trusted_issuer authority issuer s ≡ ok s' → SameTallies s s')
        × (revoke_trusted_issuer authority did s ≡ ok s' → SameTallies s s')
  unfolding register_trusted_issuer revoke_trusted_issuer set_trusted_issuer
  issuers-SameTallies authority did issuer s s' = (λ h. ground (arith, h), λ h. ground (arith, h))

  module _ ⦃sdk : Sdk⦄ where
    pub register_identity-SameTallies :
        (block_time : ℕ) (m : MsgRegisterIdentity) (s s' : IdentityStore)
        → register_identity block_time m s ≡ ok s'
        → SameTallies s s'
    unfolding register_identity registered set_uniqueness mark_issuer_nonce count_registration
        set_params
    register_identity-SameTallies block_time m s s' h =
        let d : DidDocument = record {
          did = m.did;
          controller = m.creator;
          pub_key = m.pub_key;
          uniqueness_hash = m.uniqueness_hash;
          created_at = pos block_time;
          status = Types.active;
          key_type = m.key_type;
        } in
        SameTallies-trans s (set_identity block_time d s) s'
          (set_identity-SameTallies block_time d s) (ground (arith, h))

    pub params-SameTallies :
        (authority : Text) (p : Params) (s s' : IdentityStore)
        → update_params authority p s ≡ ok s'
        → SameTallies s s'
    unfolding update_params set_params
    params-SameTallies authority p s s' h = ground (arith, h)

    module _ {B : Type 0} (bank : Bank B) where
      pub revoke_identity-IsOrderly :
          (block_time : ℕ) (creator did : Text) (c d : IdentityChain B)
          → revoke_identity bank block_time creator did c ≡ ok d
          → IsOrderly c.ids
          → IsOrderly d.ids
      unfolding revoke_identity delete_guardian_set
      revoke_identity-IsOrderly block_time creator did c d h o =
          elim (Option-cases (get_identity did c.ids)) [
            | inl e ↦ absurd (ground (arith, h, e))
            | inr (doc, e) ↦
                let new = record doc { status = Types.revoked } in
                let t = set_identity block_time new c.ids in
                let ct : IdentityChain B = record c { ids = t } in
                let ot = same-IsOrderly c.ids t (set_identity-SameTallies block_time new c.ids) o in
                elim (Result-cases (terminate_recovery_requests_for_did bank did ct)) [
                  | inr (x, failed) ↦ absurd (ground (arith, h, e, failed))
                  | inl (closed, ended) ↦
                      let u = delete_guardian_set did closed.ids in
                      let v = release_validator did u in
                      let oc =
                        terminate_recovery_requests_for_did-IsOrderly bank did ct closed ended ot in
                      let ou =
                        same-IsOrderly closed.ids u
                          (record {
                            recoveries = refl;
                            tally_epochs = refl;
                            guardian_epochs = refl;
                          })
                          oc in
                      let ov = same-IsOrderly u v (release_validator-SameTallies did u) ou in
                      let last : bump_guardian_epoch did v ≡ d.ids = ground (arith, h, e, ended) in
                      subst IsOrderly last (bump_guardian_epoch-IsOrderly did v ov)
                ]
          ]
