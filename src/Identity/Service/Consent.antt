-- ===== src/Identity/Service/Consent.antt =====
-- Proofs that a guardian's consent counts once, and only under the guardian set that it was given to.
use phi_chain.Base.{
  ℕ, ◌+◌, ◌^◌, ◌-◌, ◌≡◌, ◌≤◌, ◌<◌, refl, ap, ◌∙◌, subst, arith, true, some, [], lookup, nat_eq,
  insert, lookup-insert, Result, ok, err, ==_iff,
}
use phi_chain.Sdk.{Text, Sdk}
use phi_chain.Sdk.Bank.{Bank}
use phi_chain.Identity.Types.{RecoveryRequest, Error}
use phi_chain.Identity.Store.{
  Host, IdentityStore, guardian_epoch, recovery_tally_epoch, bump_guardian_epoch, set_guardian_set,
  epoch_or_zero,
}
use phi_chain.Identity.Requests.{
  IdentityChain, get_recovery_request, effective_approvals, tally_is_current,
}
use phi_chain.Identity.Requests.Tally.{IsOrderly, same-IsOrderly}
use phi_chain.Identity.Handlers.{
  MsgSetGuardians, register_identity, rotate_identity_key, update_status, set_guardians,
  update_params, register_trusted_issuer, revoke_trusted_issuer,
}
use phi_chain.Identity.Service.{
  Msg, register, revoke, rotate, change_status, guard, set_rules, trust, distrust, initiate,
  approve, reject, execute, cancel, deliver, on_store, Reach, here, next,
}
use phi_chain.Identity.Service.Tallies.{
  register_identity-SameTallies, rotate_identity_key-SameTallies, update_status-IsOrderly,
  set_guardians-IsOrderly, params-SameTallies, issuers-SameTallies, revoke_identity-IsOrderly,
}
use phi_chain.Identity.Service.Ballots.{
  approve_recovery-IsOrderly, reject_recovery-IsOrderly, initiate_recovery-IsOrderly,
  execute_recovery-IsOrderly, cancel_recovery-IsOrderly,
}

module _ ⦃sdk : Sdk⦄ {B : Type 0} (bank : Bank B) ⦃host : Host⦄ where
  on_store-IsOrderly :
      (r : Result Error IdentityStore) (c d : IdentityChain B)
      → ((s : IdentityStore) → r ≡ ok s → IsOrderly s)
      → on_store bank r c ≡ ok d
      → IsOrderly d.ids
  on_store-IsOrderly (ok s) c d keep h =
      let same : s ≡ d.ids = ground (arith, h) in subst IsOrderly same (keep s refl)
  on_store-IsOrderly (err e) c d keep h = cc

  deliver-IsOrderly :
      (block_time : ℕ) (m : Msg) (c d : IdentityChain B)
      → deliver bank block_time m c ≡ ok d
      → IsOrderly c.ids
      → IsOrderly d.ids
  unfolding deliver
  deliver-IsOrderly t (register m) c d h o =
      on_store-IsOrderly (register_identity t m c.ids) c d
        (λ s e. same-IsOrderly c.ids s (register_identity-SameTallies t m c.ids s e) o) h
  deliver-IsOrderly t (revoke creator did) c d h o =
      revoke_identity-IsOrderly bank t creator did c d h o
  deliver-IsOrderly t (rotate m) c d h o =
      on_store-IsOrderly (rotate_identity_key t m c.ids) c d
        (λ s e. same-IsOrderly c.ids s (rotate_identity_key-SameTallies t m c.ids s e) o) h
  deliver-IsOrderly t (change_status authority did status) c d h o =
      on_store-IsOrderly (update_status t authority did status c.ids) c d
        (λ s e. update_status-IsOrderly t authority did status c.ids s e o) h
  deliver-IsOrderly t (guard m) c d h o =
      on_store-IsOrderly (set_guardians t m c.ids) c d
        (λ s e. set_guardians-IsOrderly t m c.ids s e o) h
  deliver-IsOrderly t (set_rules authority p) c d h o =
      on_store-IsOrderly (update_params authority p c.ids) c d
        (λ s e. same-IsOrderly c.ids s (params-SameTallies authority p c.ids s e) o) h
  deliver-IsOrderly t (trust authority issuer) c d h o =
      on_store-IsOrderly (register_trusted_issuer authority issuer c.ids) c d
        (λ s e.
          same-IsOrderly c.ids s ((issuers-SameTallies authority authority issuer c.ids s).0 e) o)
        h
  deliver-IsOrderly t (distrust authority did) c d h o =
      on_store-IsOrderly (revoke_trusted_issuer authority did c.ids) c d
        (λ s e.
          same-IsOrderly c.ids s
            ((issuers-SameTallies authority did
                (record { did = did; pub_key = did; is_active = true }) c.ids s).1
              e)
            o)
        h
  deliver-IsOrderly t (initiate m) c d h o = initiate_recovery-IsOrderly bank t m c d h o
  deliver-IsOrderly t (approve m) c d h o = approve_recovery-IsOrderly bank t m c d h o
  deliver-IsOrderly t (reject m) c d h o = reject_recovery-IsOrderly bank t m c d h o
  deliver-IsOrderly t (execute id) c d h o = execute_recovery-IsOrderly bank t id c d h o
  deliver-IsOrderly t (cancel creator id) c d h o =
      cancel_recovery-IsOrderly bank t creator id c d h o

  -- Messages keep the tallies orderly: in every state that they reach from an orderly one, each stored
  -- request is open and under its own id, no guardian stands twice among its approvals or among its
  -- rejections, and its tally is not ahead of the guardian set of its identity.
  pub Reach-IsOrderly : {c d : IdentityChain B} → IsOrderly c.ids → Reach bank c d → IsOrderly d.ids
  Reach-IsOrderly o here = o
  Reach-IsOrderly {c} {d} o (next {d = x} t m r step) =
      deliver-IsOrderly t m x d step (Reach-IsOrderly o r)

superseded :
    (r : RecoveryRequest) (s : IdentityStore)
    → recovery_tally_epoch r.recovery_id s < guardian_epoch r.did s
    → effective_approvals r s ≡ []
unfolding effective_approvals tally_is_current
superseded r s lt = ground arith

shut_lt : {a b c n : ℕ} → a ≡ b → n ≡ c + 1 → b ≤ c → a < n
shut_lt e f le = omega arith

module _ ⦃host : Host⦄ where
  -- A new guardian set withdraws the consent that was given to the old one: after SetGuardians, unless
  -- the epoch has reached its ceiling, no approval of any request of the identity counts.
  pub set_guardians-withdraws :
      (block_time : ℕ) (m : MsgSetGuardians) (s s' : IdentityStore) (id : Text)
      (r : RecoveryRequest)
      → IsOrderly s
      → guardian_epoch m.did s < 2 ^ 64 - 1
      → set_guardians block_time m s ≡ ok s'
      → get_recovery_request id s' ≡ some r
      → r.did ≡ m.did
      → effective_approvals r s' ≡ []
  unfolding set_guardians set_guardian_set bump_guardian_epoch get_recovery_request guardian_epoch
      recovery_tally_epoch
  set_guardians-withdraws block_time m s s' id r o room h found own =
      let before : lookup id s.recoveries ≡ some r = ground (arith, h, found) in
      let t = o.tallied id r before in
      let at : r.recovery_id ≡ id = t.own in
      let low : recovery_tally_epoch id s ≤ guardian_epoch r.did s = t.not_ahead in
      let cur = guardian_epoch m.did s in
      let epochs : s'.guardian_epochs ≡ insert m.did (cur + 1) s.guardian_epochs =
        ground (arith, h, room) in
      let tallies : s'.tally_epochs ≡ s.tally_epochs = ground (arith, h) in
      let next_epoch : guardian_epoch r.did s' ≡ cur + 1 =
        ap (λ g. epoch_or_zero (lookup r.did g)) epochs
        ∙ ap (λ j. epoch_or_zero (lookup j (insert m.did (cur + 1) s.guardian_epochs))) own
        ∙ ap epoch_or_zero (lookup-insert m.did m.did (cur + 1) s.guardian_epochs)
        ∙ ground (arith, ==_iff m.did m.did) in
      let same_tally : recovery_tally_epoch r.recovery_id s' ≡ recovery_tally_epoch id s =
        ap (λ g. epoch_or_zero (lookup r.recovery_id g)) tallies
        ∙ ap (λ j. epoch_or_zero (lookup j s.tally_epochs)) at in
      let below : recovery_tally_epoch id s ≤ cur =
        subst (λ j. recovery_tally_epoch id s ≤ guardian_epoch j s) own low in
      superseded r s' (shut_lt same_tally next_epoch below)
