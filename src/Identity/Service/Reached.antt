-- ===== src/Identity/Service/Reached.antt =====
-- Proofs about the states that the messages of x/identity reach.
use phi_chain.Base.{ℕ, ◌≡◌, refl, arith, true, some, lookup, nat_eq, Result, ok, err}
use phi_chain.Sdk.{Text, Sdk}
use phi_chain.Sdk.Bank.{Bank}
use phi_chain.Identity.Types.{DidDocument, Error}
use phi_chain.Identity.Store.{Host, IdentityStore}
use phi_chain.Identity.Requests.{IdentityChain}
use phi_chain.Identity.Handlers.{
  register_identity, rotate_identity_key, update_status, set_guardians, update_params,
  register_trusted_issuer, revoke_trusted_issuer,
}
use phi_chain.Identity.Service.{
  Msg, register, revoke, rotate, change_status, guard, set_rules, trust, distrust, initiate,
  approve, reject, execute, cancel, deliver, on_store, Reach, here, next,
}
use phi_chain.Identity.Service.Change.{
  Change, kept, rotate_identity_key-Change, update_status-Change, set_guardians-SamePeople,
}
use phi_chain.Identity.Service.Registry.{
  register_identity-Change, update_params-SamePeople, issuer-SamePeople, revoke_identity-Change,
}
use phi_chain.Identity.Service.Recoveries.{
  initiate_recovery-SamePeople, approve_recovery-SamePeople, reject_recovery-SamePeople,
  execute_recovery-Change, cancel_recovery-SamePeople,
}
use phi_chain.Identity.Service.People.{IsUnique, Lives, Change-IsUnique, Change-Lives}

module _ ⦃sdk : Sdk⦄ ⦃host : Host⦄ {B : Type 0} (bank : Bank B) where
  on_store-Change :
      (r : Result Error IdentityStore) (c d : IdentityChain B)
      → ((s : IdentityStore) → r ≡ ok s → Change c.ids s)
      → on_store bank r c ≡ ok d
      → Change c.ids d.ids
  on_store-Change (ok s) c d change h =
      let same : s ≡ d.ids = ground (arith, h) in rw (← same) (change s refl)
  on_store-Change (err e) c d change h = cc

  deliver-Change :
      (block_time : ℕ) (m : Msg) (c d : IdentityChain B)
      → deliver bank block_time m c ≡ ok d
      → Change c.ids d.ids
  unfolding deliver
  deliver-Change t (register m) c d h =
      on_store-Change (register_identity t m c.ids) c d (λ s. register_identity-Change t m c.ids s)
        h
  deliver-Change t (revoke creator did) c d h = revoke_identity-Change bank t creator did c d h
  deliver-Change t (rotate m) c d h =
      on_store-Change (rotate_identity_key t m c.ids) c d
        (λ s. rotate_identity_key-Change t m c.ids s) h
  deliver-Change t (change_status authority did status) c d h =
      on_store-Change (update_status t authority did status c.ids) c d
        (λ s. update_status-Change t authority did status c.ids s) h
  deliver-Change t (guard m) c d h =
      on_store-Change (set_guardians t m c.ids) c d
        (λ s e. kept (set_guardians-SamePeople t m c.ids s e)) h
  deliver-Change t (set_rules authority p) c d h =
      on_store-Change (update_params authority p c.ids) c d
        (λ s e. kept (update_params-SamePeople authority p c.ids s e)) h
  deliver-Change t (trust authority issuer) c d h =
      on_store-Change (register_trusted_issuer authority issuer c.ids) c d
        (λ s e. kept ((issuer-SamePeople authority authority issuer c.ids s).0 e)) h
  deliver-Change t (distrust authority did) c d h =
      on_store-Change (revoke_trusted_issuer authority did c.ids) c d
        (λ s e. kept (
          (issuer-SamePeople authority did (record { did = did; pub_key = did; is_active = true })
              c.ids s).1
            e))
        h
  deliver-Change t (initiate m) c d h = kept (initiate_recovery-SamePeople bank t m c d h)
  deliver-Change t (approve m) c d h = kept (approve_recovery-SamePeople bank t m c d h)
  deliver-Change t (reject m) c d h = kept (reject_recovery-SamePeople bank t m c d h)
  deliver-Change t (execute id) c d h = execute_recovery-Change bank t id c d h
  deliver-Change t (cancel creator id) c d h =
      kept (cancel_recovery-SamePeople bank t creator id c d h)

  -- One human, one identity: if the identities and the markers of uniqueness correspond one to one,
  -- they do in every state that messages of the module reach.
  pub Reach-IsUnique : {c d : IdentityChain B} → IsUnique c.ids → Reach bank c d → IsUnique d.ids
  Reach-IsUnique u here = u
  Reach-IsUnique {c} {d} u (next {d = x} t m r step) =
      Change-IsUnique x.ids d.ids (deliver-Change t m x d step) (Reach-IsUnique u r)

  Reach-Lives_from :
      {c d : IdentityChain B} (did : Text) (a : DidDocument)
      → IsUnique c.ids
      → Lives did a c.ids
      → Reach bank c d
      → Lives did a d.ids
  Reach-Lives_from did a u l here = l
  Reach-Lives_from {c} {d} did a u l (next {d = x} t m r step) =
      Change-Lives x.ids d.ids did a (Reach-IsUnique u r) (deliver-Change t m x d step)
        (Reach-Lives_from did a u l r)

  -- An identity is never deleted and never passed on to another human, and its age stays: from a
  -- state where identities and markers correspond, every state that messages reach has an identity
  -- under the same DID, of the same human and the same creation time. A revoked one never changes.
  pub Reach-Lives :
      {c d : IdentityChain B} (did : Text) (a : DidDocument)
      → IsUnique c.ids
      → lookup did c.ids.identities ≡ some a
      → Reach bank c d
      → Lives did a d.ids
  Reach-Lives did a u h r =
      Reach-Lives_from did a u
        (record { later = a; stored = h; human = refl; age = refl; terminal = λ gone. refl }) r
