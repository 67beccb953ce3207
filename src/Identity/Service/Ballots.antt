-- ===== src/Identity/Service/Ballots.antt =====
-- x/identity/keeper/msg_server_recovery.go: what the messages about a recovery do to the tallies.
use phi_chain.Base.{
  ℕ, ℤ, pos, ◌≡◌, refl, sym, ap, ◌∙◌, subst, arith, false, some, [], ◌∷◌, ◌++◌, inl, inr, leb,
  lookup, nat_eq, ok, Bool-cases, Option-cases, Result-cases, length,
}
use phi_chain.Sdk.{Text, Sdk}
use phi_chain.Sdk.Bank.{Bank}
use phi_chain.Identity.Types.{RecoveryRequest}
use phi_chain.Identity.Store.{Host, get_identity, get_guardians, get_params, set_identity}
use phi_chain.Identity.Validate.{has_commitment, derive_recovery_id}
use phi_chain.Identity.Requests.{
  IdentityChain, set_recovery_request, delete_recovery_request, get_recovery_request,
  mark_recovery_nonce, sync_tally_epoch, count_open_requests, refund_deposit,
}
use phi_chain.Identity.Requests.Tally.{
  IsDistinct-snoc, IsTally, IsOrderly, same-IsOrderly, set_recovery_request-IsOrderly,
  delete_recovery_request-IsOrderly, sync_tally_epoch-IsOrderly,
}
use phi_chain.Identity.Requests.Loops.{count_open_requests-IsOrderly, supersede_siblings-IsOrderly}
use phi_chain.Identity.Recovery.{
  MsgInitiateRecovery, MsgGuardianVote, open_request, open_vote, new_request, charge_initiation,
  initiate_recovery, approve_recovery, reject_recovery, execute_recovery, cancel_recovery,
}
use phi_chain.Identity.Recovery.Execution.{open_request-IsOpen, recovered}
use phi_chain.Identity.Service.Tallies.{set_identity-SameTallies}

module _ ⦃sdk : Sdk⦄ {B : Type 0} (bank : Bank B) ⦃host : Host⦄ where
  -- The request that a vote opens, in its store.
  pub open_vote-IsOrderly :
      (now : ℤ) (m : MsgGuardianVote) (c d : IdentityChain B) (q : RecoveryRequest)
      → open_vote bank now m c ≡ ok (q, d)
      → IsOrderly c.ids
      → IsTally q.recovery_id q d.ids × IsOrderly d.ids
  unfolding open_vote get_recovery_request
  open_vote-IsOrderly now m c d q h o =
      elim (Result-cases (open_request bank now m.recovery_id c)) [
        | inr (e, failed) ↦ absurd (ground (arith, h, failed))
        | inl ((r, x), opened) ↦
            let (same, is_open) = open_request-IsOpen bank now m.recovery_id c x r opened in
            let ox : IsOrderly x.ids = subst (λ y. IsOrderly y.ids) (sym same) o in
            let t = o.tallied m.recovery_id r is_open.stored in
            let found : lookup r.recovery_id x.ids.recoveries ≡ some r =
              ap (λ y. lookup r.recovery_id y.ids.recoveries) same
              ∙ ap (λ j. lookup j c.ids.recoveries) t.own
              ∙ is_open.stored in
            let synced = sync_tally_epoch-IsOrderly r x.ids found ox in
            let is_q : (sync_tally_epoch r x.ids).0 ≡ q = ground (arith, h, opened) in
            let is_d : (sync_tally_epoch r x.ids).1 ≡ d.ids = ground (arith, h, opened) in
            let own : (sync_tally_epoch r x.ids).0.recovery_id ≡ r.recovery_id = synced.0.own in
            rw (← is_d, ← is_q)
              (
                subst (λ j. IsTally j (sync_tally_epoch r x.ids).0 (sync_tally_epoch r x.ids).1)
                    (sym own) synced.0,
                synced.1,
              )
      ]

  pub approve_recovery-IsOrderly :
      (block_time : ℕ) (m : MsgGuardianVote) (c d : IdentityChain B)
      → approve_recovery bank block_time m c ≡ ok d
      → IsOrderly c.ids
      → IsOrderly d.ids
  unfolding approve_recovery
  approve_recovery-IsOrderly block_time m c d h o =
      elim (Result-cases (open_vote bank (pos block_time) m c)) [
        | inr (e, failed) ↦ absurd (ground (arith, h, failed))
        | inl ((q, x), opened) ↦
            let (t, ox) = open_vote-IsOrderly (pos block_time) m c x q opened o in
            let q' = record q { approvals = q.approvals ++ (m.guardian_did ∷ []) } in
            let same : set_recovery_request q' x.ids ≡ d.ids = ground (arith, h, opened) in
            let once : has_commitment m.guardian_did q.approvals ≡ false =
              ground (arith, h, opened) in
            subst IsOrderly same (
              set_recovery_request-IsOrderly q' x.ids
                (record {
                  own = refl;
                  live = t.live;
                  approvals_once = IsDistinct-snoc m.guardian_did q.approvals once t.approvals_once;
                  rejections_once = t.rejections_once;
                  not_ahead = t.not_ahead;
                })
                ox)
      ]

  pub reject_recovery-IsOrderly :
      (block_time : ℕ) (m : MsgGuardianVote) (c d : IdentityChain B)
      → reject_recovery bank block_time m c ≡ ok d
      → IsOrderly c.ids
      → IsOrderly d.ids
  unfolding reject_recovery
  reject_recovery-IsOrderly block_time m c d h o =
      elim (Result-cases (open_vote bank (pos block_time) m c)) [
        | inr (e, failed) ↦ absurd (ground (arith, h, failed))
        | inl ((q, x), opened) ↦
            let (t, ox) = open_vote-IsOrderly (pos block_time) m c x q opened o in
            let q' = record q { rejections = q.rejections ++ (m.guardian_did ∷ []) } in
            let once : has_commitment m.guardian_did q.rejections ≡ false =
              ground (arith, h, opened) in
            elim (Option-cases (get_guardians q.did x.ids)) [
              | inl e ↦ absurd (ground (arith, h, opened, e))
              | inr (gs, e) ↦ elim (Bool-cases (leb gs.threshold (length q'.rejections))) [
                | inl reached ↦
                    let same : d.ids ≡ delete_recovery_request q' x.ids =
                      ground (arith, h, opened, e, reached) in
                    subst IsOrderly (sym same) (delete_recovery_request-IsOrderly q' x.ids ox)
                | inr more ↦
                    let same : d.ids ≡ set_recovery_request q' x.ids =
                      ground (arith, h, opened, e, more) in
                    subst IsOrderly (sym same) (
                      set_recovery_request-IsOrderly q' x.ids
                        (record {
                          own = refl;
                          live = t.live;
                          approvals_once = t.approvals_once;
                          rejections_once =
                              IsDistinct-snoc m.guardian_did q.rejections once t.rejections_once;
                          not_ahead = t.not_ahead;
                        })
                        ox)
              ]
            ]
      ]

  pub initiate_recovery-IsOrderly :
      (block_time : ℕ) (m : MsgInitiateRecovery) (c d : IdentityChain B)
      → initiate_recovery bank block_time m c ≡ ok d
      → IsOrderly c.ids
      → IsOrderly d.ids
  unfolding initiate_recovery mark_recovery_nonce get_recovery_request new_request
  initiate_recovery-IsOrderly block_time m c d h o =
      elim (Result-cases (count_open_requests bank (pos block_time) m.did c)) [
        | inr (e, failed) ↦ absurd (ground (arith, h, failed))
        | inl ((n, x), counted) ↦
            let id = derive_recovery_id m.did m.proposed_new_pub_key m.nonce in
            let ox = count_open_requests-IsOrderly bank (pos block_time) m.did n c x counted o in
            elim (Option-cases (lookup id x.ids.recoveries)) [
              | inr (r, e) ↦ absurd (ground (arith, h, counted, e))
              | inl e ↦ elim (Option-cases (sdk.acc_address_from_bech32 m.creator)) [
                | inl bad ↦ absurd (ground (arith, h, counted, e, bad))
                | inr (payer, good) ↦
                    let p = get_params c.ids in
                    elim (Result-cases (charge_initiation bank m.method p payer x.bank)) [
                      | inr (y, failed) ↦ absurd (ground (arith, h, counted, e, good, failed))
                      | inl ((deposit, fee, b), charged) ↦
                          let r = new_request bank (pos block_time) m p deposit fee in
                          let put = set_recovery_request r x.ids in
                          let last : mark_recovery_nonce m.did m.nonce put ≡ d.ids =
                            ground (arith, h, counted, e, good, charged) in
                          subst IsOrderly last (
                            same-IsOrderly put (mark_recovery_nonce m.did m.nonce put)
                              (record {
                                recoveries = refl;
                                tally_epochs = refl;
                                guardian_epochs = refl;
                              })
                              (set_recovery_request-IsOrderly r x.ids
                                (record {
                                  own = refl;
                                  live = refl;
                                  approvals_once = tt;
                                  rejections_once = tt;
                                  not_ahead = omega (arith, ox.fresh id e);
                                })
                                ox))
                    ]
              ]
            ]
      ]

  pub execute_recovery-IsOrderly :
      (block_time : ℕ) (id : Text) (c d : IdentityChain B)
      → execute_recovery bank block_time id c ≡ ok d
      → IsOrderly c.ids
      → IsOrderly d.ids
  unfolding execute_recovery
  execute_recovery-IsOrderly block_time id c d h o =
      elim (Result-cases (open_request bank (pos block_time) id c)) [
        | inr (e, failed) ↦ absurd (ground (arith, h, failed))
        | inl ((r, x), opened) ↦
            let (same, is_open) = open_request-IsOpen bank (pos block_time) id c x r opened in
            let ox : IsOrderly x.ids = subst (λ y. IsOrderly y.ids) (sym same) o in
            elim (Option-cases (get_identity r.did x.ids)) [
              | inl e ↦ absurd (ground (arith, h, opened, e))
              | inr (doc, e) ↦
                  let s = set_identity block_time (recovered r doc) x.ids in
                  let os =
                    same-IsOrderly x.ids s
                      (set_identity-SameTallies block_time (recovered r doc) x.ids) ox in
                  elim (Result-cases (refund_deposit bank r x.bank)) [
                    | inr (y, failed) ↦ absurd (ground (arith, h, opened, e, failed))
                    | inl (b, paid) ↦
                        let t : IdentityChain B = record {
                          bank = b;
                          ids = delete_recovery_request r s;
                        } in
                        supersede_siblings-IsOrderly bank r.did r.recovery_id t d
                          (ground (arith, h, opened, e, paid))
                          (delete_recovery_request-IsOrderly r s os)
                  ]
            ]
      ]

  pub cancel_recovery-IsOrderly :
      (block_time : ℕ) (creator id : Text) (c d : IdentityChain B)
      → cancel_recovery bank block_time creator id c ≡ ok d
      → IsOrderly c.ids
      → IsOrderly d.ids
  unfolding cancel_recovery
  cancel_recovery-IsOrderly block_time creator id c d h o =
      elim (Result-cases (open_request bank (pos block_time) id c)) [
        | inr (e, failed) ↦ absurd (ground (arith, h, failed))
        | inl ((r, x), opened) ↦
            let (same, is_open) = open_request-IsOpen bank (pos block_time) id c x r opened in
            let ox : IsOrderly x.ids = subst (λ y. IsOrderly y.ids) (sym same) o in
            let last : delete_recovery_request r x.ids ≡ d.ids = ground (arith, h, opened) in
            subst IsOrderly last (delete_recovery_request-IsOrderly r x.ids ox)
      ]
