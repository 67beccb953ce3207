-- ===== src/Identity/Recovery/Execution.antt =====
-- Proofs of what an execution of a recovery needs, and what it changes.
use phi_chain.Base.{
  ℕ, ℤ, pos, ◌≡◌, ◌≤◌, ap, ◌∙◌, arith, true, false, not, ◌&&◌, ◌||◌, some, inl, inr, leb_ℤ, ◌≤ℤ◌,
  insert, nat_eq, int_eq, ok, Option-cases, Result-cases, length,
}
use phi_chain.Sdk.{Text, Sdk}
use phi_chain.Sdk.Bank.{Bank}
use phi_chain.Identity.Types.{
  DidDocument, RecoveryRequest, GuardianSet, is_active_status, is_reauth,
  is_terminal_recovery_status,
}
use phi_chain.Identity.Store.{Host, IdentityStore, get_identity, set_identity, get_guardians}
use phi_chain.Identity.Store.Frame.{SameRegistry, set_identity-SameRegistry}
use phi_chain.Identity.Requests.{
  IdentityChain, get_recovery_request, delete_recovery_request, effective_approvals,
  recovery_frozen_by_suspension, reap_if_expired, refund_deposit,
}
use phi_chain.Identity.Requests.Frame.{supersede_siblings-SamePeople}
use phi_chain.Identity.Recovery.{open_request, authorise, execute_recovery}

-- An open request: stored, not closed, and within its life, or held by a suspension of its identity.
pub record IsOpen (now : ℤ) (id : Text) (s : IdentityStore) (r : RecoveryRequest) : Type 0 where
  pub stored : get_recovery_request id s ≡ some r
  pub live : is_terminal_recovery_status r.status ≡ false
  pub in_time :
      ((not (int_eq.matches r.frozen_at (pos 0)) && recovery_frozen_by_suspension r.did s)
        || leb_ℤ now r.expires_at)
      ≡ true

-- A recovery that may execute: its window for opposition has passed, its identity is active, and
-- unless an issuer re-authenticated the owner, as many guardians as the set in force demands have
-- approved under that set.
pub record IsAuthorised (now : ℤ) (s : IdentityStore) (r : RecoveryRequest) (doc : DidDocument)
    : Type 0 where
  pub waited : r.execute_after ≤ℤ now
  pub target : get_identity r.did s ≡ some doc
  pub owner_active : is_active_status doc.status ≡ true
  pub consent :
      is_reauth r.method ≡ false
      → (gs : GuardianSet) × (get_guardians r.did s ≡ some gs)
        × (gs.threshold ≤ length (effective_approvals r s))

abbrev pub recovered : RecoveryRequest → DidDocument → DidDocument
recovered r doc = record doc {
  pub_key = r.proposed_new_pub_key;
  key_type = r.key_type;
  controller = r.proposed_new_controller;
}

module _ ⦃sdk : Sdk⦄ {B : Type 0} (bank : Bank B) ⦃host : Host⦄ where
  -- A request that opens is open, and nothing was reaped.
  pub open_request-IsOpen :
      (now : ℤ) (id : Text) (c d : IdentityChain B) (r : RecoveryRequest)
      → open_request bank now id c ≡ ok (r, d)
      → (d ≡ c) × IsOpen now id c.ids r
  unfolding open_request reap_if_expired
  open_request-IsOpen now id c d r h = elim (Option-cases (get_recovery_request id c.ids)) [
    | inl e ↦ absurd (ground (arith, h, e))
    | inr (q, e) ↦
        let same : q ≡ r = ground (arith, h, e) in
        (
          ground (arith, h, e),
          record {
            stored = e ∙ ap some same;
            live = ground (arith, h, e);
            in_time = ground (arith, h, e);
          },
        )
  ]

  pub open_request-eq-ok :
      (now : ℤ) (id : Text) (c : IdentityChain B) (r : RecoveryRequest)
      → IsOpen now id c.ids r
      → open_request bank now id c ≡ ok (r, c)
  unfolding open_request reap_if_expired
  open_request-eq-ok now id c r o = ground (arith, o.stored, o.live, o.in_time)

  authorise-eq-ok :
      (now : ℤ) (r : RecoveryRequest) (s : IdentityStore)
      → authorise bank now r s ≡ ok tt
      → (r.execute_after ≤ℤ now)
        × (is_reauth r.method ≡ false
            → (gs : GuardianSet) × (get_guardians r.did s ≡ some gs)
              × (gs.threshold ≤ length (effective_approvals r s)))
  unfolding authorise
  authorise-eq-ok now r s h = (
    ground (arith, h),
    λ social. elim (Option-cases (get_guardians r.did s)) [
      | inl e ↦ absurd (ground (arith, h, social, e))
      | inr (gs, e) ↦ (gs, e, ground (arith, h, social, e))
    ],
  )

  -- A recovery that executes was open and authorised. It gives its identity the proposed key and
  -- controller and keeps its DID, its human, its age and its status; no other identity changes, and
  -- the uniqueness markers stay.
  pub execute_recovery-IsAuthorised :
      (block_time : ℕ) (id : Text) (c d : IdentityChain B)
      → execute_recovery bank block_time id c ≡ ok d
      → (r : RecoveryRequest) × (doc : DidDocument) × IsOpen (pos block_time) id c.ids r
        × IsAuthorised (pos block_time) c.ids r doc
        × (d.ids.identities ≡ insert doc.did (recovered r doc) c.ids.identities)
        × (d.ids.uniqueness ≡ c.ids.uniqueness)
  unfolding execute_recovery SameRegistry delete_recovery_request
  execute_recovery-IsAuthorised block_time id c d h =
      elim (Result-cases (open_request bank (pos block_time) id c)) [
        | inr (e, failed) ↦ absurd (ground (arith, h, failed))
        | inl ((r, x), opened) ↦
            let (same_chain, is_open) = open_request-IsOpen (pos block_time) id c x r opened in
            let opened' : open_request bank (pos block_time) id c ≡ ok (r, c) =
              opened ∙ ap (λ y. ok (r, y)) same_chain in
            elim (Result-cases (authorise bank (pos block_time) r c.ids)) [
              | inr (e, failed) ↦ absurd (ground (arith, h, opened', failed))
              | inl (_, allowed) ↦ elim (Option-cases (get_identity r.did c.ids)) [
                | inl e ↦ absurd (ground (arith, h, opened', allowed, e))
                | inr (doc, e) ↦
                    let (waited, consent) = authorise-eq-ok (pos block_time) r c.ids allowed in
                    let s = set_identity block_time (recovered r doc) c.ids in
                    let put = set_identity-SameRegistry block_time (recovered r doc) c.ids in
                    elim (Result-cases (refund_deposit bank r c.bank)) [
                      | inr (y, failed) ↦ absurd (ground (arith, h, opened', allowed, e, failed))
                      | inl (b, paid) ↦
                          let t : IdentityChain B = record {
                            bank = b;
                            ids = delete_recovery_request r s;
                          } in
                          let rest =
                            supersede_siblings-SamePeople bank r.did r.recovery_id t d
                              (ground (arith, h, opened', allowed, e, paid)) in
                          (
                            r,
                            doc,
                            is_open,
                            record {
                              waited = waited;
                              target = e;
                              owner_active = ground (arith, h, opened', allowed, e);
                              consent = consent;
                            },
                            rest.identities ∙ ap (λ y. y.identities) put,
                            rest.uniqueness ∙ ap (λ y. y.uniqueness) put,
                          )
                    ]
              ]
            ]
      ]
