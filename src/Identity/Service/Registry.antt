-- ===== src/Identity/Service/Registry.antt =====
-- Proofs of what registrations, revocations and the messages of governance do to the identities.
use phi_chain.Base.{
  ℕ, pos, ◌≡◌, refl, ap, arith, none, inl, inr, lookup, insert, nat_eq, ok, Option-cases,
  Result-cases,
}
use phi_chain.Sdk.{Text, Sdk}
use phi_chain.Sdk.Bank.{Bank}
use phi_chain.Identity.Types
use phi_chain.Identity.Types.{
  DidDocument, DidStatus, RecoveryRequest, TrustedIssuer, Params, Error, is_active_status,
  is_suspended, is_revoked,
}
use phi_chain.Identity.Store.{
  Host, IdentityStore, get_identity, has_uniqueness, set_identity, set_uniqueness,
  mark_issuer_nonce, delete_guardian_set, bump_guardian_epoch, release_validator,
  set_trusted_issuer,
}
use phi_chain.Identity.Store.Frame.{SameRegistry, set_identity-SameRegistry}
use phi_chain.Identity.Requests.{IdentityChain, terminate_recovery_requests_for_did}
use phi_chain.Identity.Requests.Frame.{
  SamePeople, SamePeople-trans, terminate_recovery_requests_for_did-SamePeople,
}
use phi_chain.Identity.Handlers.{
  MsgRegisterIdentity, register_identity, registered, count_registration, set_params,
  revoke_identity, update_params, register_trusted_issuer, revoke_trusted_issuer,
}
use phi_chain.Identity.Service.Change.{
  Successor, Change, added, Change-then, bump_guardian_epoch-SamePeople,
  release_validator-SamePeople, set_identity-edited,
}

module _ ⦃sdk : Sdk⦄ where
  count_registration-SamePeople :
      (s s' : IdentityStore) → count_registration s ≡ ok s' → SamePeople s s'
  unfolding count_registration set_params
  count_registration-SamePeople s s' h = ground (arith, h)

  module _ ⦃host : Host⦄ where
    registered-Change :
        (block_time : ℕ) (m : MsgRegisterIdentity) (s : IdentityStore)
        → lookup m.did s.identities ≡ none
        → lookup m.uniqueness_hash s.uniqueness ≡ none
        → Change s (registered block_time m s)
    unfolding registered set_uniqueness mark_issuer_nonce SameRegistry
    registered-Change block_time m s no_did no_hash =
        let new : DidDocument = record {
          did = m.did;
          controller = m.creator;
          pub_key = m.pub_key;
          uniqueness_hash = m.uniqueness_hash;
          created_at = pos block_time;
          status = Types.active;
          key_type = m.key_type;
        } in
        let same = set_identity-SameRegistry block_time new s in
        added new no_did no_hash (ap (λ x. x.identities) same)
          (ap (λ x. insert m.uniqueness_hash m.did x.uniqueness) same)

    pub register_identity-Change :
        (block_time : ℕ) (m : MsgRegisterIdentity) (s s' : IdentityStore)
        → register_identity block_time m s ≡ ok s'
        → Change s s'
    unfolding register_identity get_identity has_uniqueness
    register_identity-Change block_time m s s' h = elim (Option-cases (lookup m.did s.identities)) [
      | inr (d, e) ↦ absurd (ground (arith, h, e))
      | inl no_did ↦ elim (Option-cases (lookup m.uniqueness_hash s.uniqueness)) [
        | inr (d, e) ↦ absurd (ground (arith, h, no_did, e))
        | inl no_hash ↦
            let t = registered block_time m s in
            Change-then s t s' (registered-Change block_time m s no_did no_hash)
              (count_registration-SamePeople t s' (ground (arith, h, no_did, no_hash)))
      ]
    ]

    pub update_params-SamePeople :
        (authority : Text) (p : Params) (s s' : IdentityStore)
        → update_params authority p s ≡ ok s'
        → SamePeople s s'
    unfolding update_params set_params
    update_params-SamePeople authority p s s' h = ground (arith, h)

    pub issuer-SamePeople :
        (authority did : Text) (issuer : TrustedIssuer) (s s' : IdentityStore)
        → (register_trusted_issuer authority issuer s ≡ ok s' → SamePeople s s')
          × (revoke_trusted_issuer authority did s ≡ ok s' → SamePeople s s')
    unfolding register_trusted_issuer revoke_trusted_issuer set_trusted_issuer
    issuer-SamePeople authority did issuer s s' = (λ h. ground (arith, h), λ h. ground (arith, h))

    module _ {B : Type 0} (bank : Bank B) where
      pub revoke_identity-Change :
          (block_time : ℕ) (creator did : Text) (c d : IdentityChain B)
          → revoke_identity bank block_time creator did c ≡ ok d
          → Change c.ids d.ids
      unfolding revoke_identity delete_guardian_set
      revoke_identity-Change block_time creator did c d h =
          elim (Option-cases (get_identity did c.ids)) [
            | inl e ↦ absurd (ground (arith, h, e))
            | inr (doc, e) ↦
                let new = record doc { status = Types.revoked } in
                let t = set_identity block_time new c.ids in
                let succ : Successor doc new = record {
                  did = refl;
                  human = refl;
                  age = refl;
                  living = ground (arith, h, e);
                } in
                elim (Result-cases
                  (terminate_recovery_requests_for_did bank did (record c { ids = t }))) [
                    | inr (x, failed) ↦ absurd (ground (arith, h, e, failed))
                    | inl (closed, ended) ↦
                        let u = delete_guardian_set did closed.ids in
                        let v = release_validator did u in
                        let last : bump_guardian_epoch did v ≡ d.ids =
                          ground (arith, h, e, ended) in
                        Change-then c.ids t d.ids
                          (set_identity-edited block_time doc new did c.ids e succ)
                          (SamePeople-trans t closed.ids d.ids
                            (terminate_recovery_requests_for_did-SamePeople bank did
                              (record c { ids = t }) closed ended)
                            (rw (← last) (
                              SamePeople-trans closed.ids v (bump_guardian_epoch did v)
                                (SamePeople-trans closed.ids u v
                                  (record { identities = refl; uniqueness = refl })
                                  (release_validator-SamePeople did u))
                                (bump_guardian_epoch-SamePeople did v))))
                  ]
          ]
