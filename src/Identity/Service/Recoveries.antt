-- ===== src/Identity/Service/Recoveries.antt =====
-- Proofs of what the messages of a recovery do to the identities.
use phi_chain.Base.{ℕ, ℤ, pos, ◌≡◌, refl, arith, inl, inr, nat_eq, ok, Option-cases, Result-cases}
use phi_chain.Sdk.{Text, Sdk}
use phi_chain.Sdk.Bank.{Bank}
use phi_chain.Identity.Types.{RecoveryRequest}
use phi_chain.Identity.Store.{Host, get_identity, set_identity}
use phi_chain.Identity.Requests.{
  IdentityChain, set_recovery_request, delete_recovery_request, mark_recovery_nonce,
  get_recovery_request, sync_tally_epoch, count_open_requests, reap_if_expired, refund_deposit,
}
use phi_chain.Identity.Requests.Frame.{
  SamePeople, SamePeople-trans, sync_tally_epoch-SamePeople, reap_if_expired-SamePeople,
  count_open_requests-SamePeople, supersede_siblings-SamePeople,
}
use phi_chain.Identity.Recovery.{
  MsgInitiateRecovery, MsgGuardianVote, open_request, open_vote, initiate_recovery,
  approve_recovery, reject_recovery, execute_recovery, cancel_recovery,
}
use phi_chain.Identity.Service.Change.{
  Successor, Change, Change-then, then-Change, set_identity-edited,
}

module _ ⦃sdk : Sdk⦄ {B : Type 0} (bank : Bank B) ⦃host : Host⦄ where
  open_request-SamePeople :
      (now : ℤ) (id : Text) (c d : IdentityChain B) (req : RecoveryRequest)
      → open_request bank now id c ≡ ok (req, d)
      → SamePeople c.ids d.ids
  unfolding open_request
  open_request-SamePeople now id c d req h = elim (Option-cases (get_recovery_request id c.ids)) [
    | inl e ↦ absurd (ground (arith, h, e))
    | inr (r, e) ↦ elim (Result-cases (reap_if_expired bank now r c)) [
      | inr (x, failed) ↦ absurd (ground (arith, h, e, failed))
      | inl ((terminal, x), reaped) ↦
          let same : x ≡ d = ground (arith, h, e, reaped) in
          rw (← same) (reap_if_expired-SamePeople bank now r c x terminal reaped)
    ]
  ]

  open_vote-SamePeople :
      (now : ℤ) (m : MsgGuardianVote) (c d : IdentityChain B) (req : RecoveryRequest)
      → open_vote bank now m c ≡ ok (req, d)
      → SamePeople c.ids d.ids
  unfolding open_vote
  open_vote-SamePeople now m c d req h =
      elim (Result-cases (open_request bank now m.recovery_id c)) [
        | inr (e, failed) ↦ absurd (ground (arith, h, failed))
        | inl ((r, x), opened) ↦
            let same : (sync_tally_epoch r x.ids).1 ≡ d.ids = ground (arith, h, opened) in
            SamePeople-trans c.ids x.ids d.ids
              (open_request-SamePeople now m.recovery_id c x r opened)
              (rw (← same) (sync_tally_epoch-SamePeople r x.ids))
      ]

  pub approve_recovery-SamePeople :
      (block_time : ℕ) (m : MsgGuardianVote) (c d : IdentityChain B)
      → approve_recovery bank block_time m c ≡ ok d
      → SamePeople c.ids d.ids
  unfolding approve_recovery set_recovery_request
  approve_recovery-SamePeople block_time m c d h =
      elim (Result-cases (open_vote bank (pos block_time) m c)) [
        | inr (e, failed) ↦ absurd (ground (arith, h, failed))
        | inl ((r, x), opened) ↦
            let same = open_vote-SamePeople (pos block_time) m c x r opened in
            ground (arith, h, opened, same)
      ]

  pub reject_recovery-SamePeople :
      (block_time : ℕ) (m : MsgGuardianVote) (c d : IdentityChain B)
      → reject_recovery bank block_time m c ≡ ok d
      → SamePeople c.ids d.ids
  unfolding reject_recovery set_recovery_request delete_recovery_request
  reject_recovery-SamePeople block_time m c d h =
      elim (Result-cases (open_vote bank (pos block_time) m c)) [
        | inr (e, failed) ↦ absurd (ground (arith, h, failed))
        | inl ((r, x), opened) ↦
            let same = open_vote-SamePeople (pos block_time) m c x r opened in
            ground (arith, h, opened, same)
      ]

  pub cancel_recovery-SamePeople :
      (block_time : ℕ) (creator id : Text) (c d : IdentityChain B)
      → cancel_recovery bank block_time creator id c ≡ ok d
      → SamePeople c.ids d.ids
  unfolding cancel_recovery delete_recovery_request
  cancel_recovery-SamePeople block_time creator id c d h =
      elim (Result-cases (open_request bank (pos block_time) id c)) [
        | inr (e, failed) ↦ absurd (ground (arith, h, failed))
        | inl ((r, x), opened) ↦
            let same = open_request-SamePeople (pos block_time) id c x r opened in
            ground (arith, h, opened, same)
      ]

  pub initiate_recovery-SamePeople :
      (block_time : ℕ) (m : MsgInitiateRecovery) (c d : IdentityChain B)
      → initiate_recovery bank block_time m c ≡ ok d
      → SamePeople c.ids d.ids
  unfolding initiate_recovery set_recovery_request mark_recovery_nonce
  initiate_recovery-SamePeople block_time m c d h =
      elim (Result-cases (count_open_requests bank (pos block_time) m.did c)) [
        | inr (e, failed) ↦ absurd (ground (arith, h, failed))
        | inl ((n, x), counted) ↦
            let same = count_open_requests-SamePeople bank (pos block_time) m.did n c x counted in
            ground (arith, h, counted, same)
      ]

  -- The identity that an execution leaves, and everything else as it was.
  pub execute_recovery-Change :
      (block_time : ℕ) (id : Text) (c d : IdentityChain B)
      → execute_recovery bank block_time id c ≡ ok d
      → Change c.ids d.ids
  unfolding execute_recovery delete_recovery_request
  execute_recovery-Change block_time id c d h =
      elim (Result-cases (open_request bank (pos block_time) id c)) [
        | inr (e, failed) ↦ absurd (ground (arith, h, failed))
        | inl ((r, x), opened) ↦ elim (Option-cases (get_identity r.did x.ids)) [
          | inl e ↦ absurd (ground (arith, h, opened, e))
          | inr (doc, e) ↦
              let new = record doc {
                pub_key = r.proposed_new_pub_key;
                key_type = r.key_type;
                controller = r.proposed_new_controller;
              } in
              let s = set_identity block_time new x.ids in
              let succ : Successor doc new = record {
                did = refl;
                human = refl;
                age = refl;
                living = ground (arith, h, opened, e);
              } in
              elim (Result-cases (refund_deposit bank r x.bank)) [
                | inr (y, failed) ↦ absurd (ground (arith, h, opened, e, failed))
                | inl (b, paid) ↦
                    let t : IdentityChain B = record {
                      bank = b;
                      ids = delete_recovery_request r s;
                    } in
                    then-Change c.ids x.ids d.ids
                      (open_request-SamePeople (pos block_time) id c x r opened)
                      (Change-then x.ids t.ids d.ids
                        (Change-then x.ids s t.ids
                          (set_identity-edited block_time doc new r.did x.ids e succ)
                          (record { identities = refl; uniqueness = refl }))
                        (supersede_siblings-SamePeople bank r.did r.recovery_id t d
                          (ground (arith, h, opened, e, paid))))
              ]
        ]
      ]
