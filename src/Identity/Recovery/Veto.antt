-- ===== src/Identity/Recovery/Veto.antt =====
-- Proofs that the owner can stop a recovery, and that whoever touches an expired one fails.
use phi_chain.Base.{
  ℕ, ℤ, pos, ◌≡◌, refl, sym, subst, arith, false, not, ◌&&◌, ◌||◌, none, some, leb_ℤ, lookup-erase,
  nat_eq, int_eq, ok, ==_iff,
}
use phi_chain.Sdk.{Text, Addr, Sdk}
use phi_chain.Sdk.Bank.{Bank}
use phi_chain.Ante.Status.{
  signed_by, IsInGoodStanding, identity_status_guard, identity_status_guard-IsInGoodStanding,
}
use phi_chain.Identity.Types
use phi_chain.Identity.Types.{DidDocument, RecoveryRequest, is_terminal_recovery_status}
use phi_chain.Identity.Store.{Host, IdentityStore, get_identity}
use phi_chain.Identity.Requests.{
  IdentityChain, get_recovery_request, delete_recovery_request, recovery_frozen_by_suspension,
  forfeit_deposit,
}
use phi_chain.Identity.Recovery.{cancel_recovery}
use phi_chain.Identity.Recovery.Execution.{IsOpen, open_request-eq-ok}

-- A request that is not closed, whose life has passed, and that no suspension holds.
pub record IsExpired (now : ℤ) (id : Text) (s : IdentityStore) (r : RecoveryRequest) : Type 0 where
  pub stored : get_recovery_request id s ≡ some r
  pub live : is_terminal_recovery_status r.status ≡ false
  pub late :
      ((not (int_eq.matches r.frozen_at (pos 0)) && recovery_frozen_by_suspension r.did s)
        || leb_ℤ now r.expires_at)
      ≡ false

module _ ⦃sdk : Sdk⦄ {B : Type 0} (bank : Bank B) ⦃host : Host⦄ where
  -- The veto: as long as a request is open, the controller of its identity can cancel it, whatever has
  -- been approved, if every identity that the index lists under the controller is active and x/bank can
  -- move the deposit. The identity status guard lets the controller's transaction through, the request
  -- is gone then, and all identities are as they were.
  pub cancel_recovery-succeeds :
      (block_time : ℕ) (id : Text) (c : IdentityChain B) (r : RecoveryRequest) (doc : DidDocument)
      (owner : Addr) (b : B)
      → IsOpen (pos block_time) id c.ids r
      → r.recovery_id ≡ id
      → get_identity r.did c.ids ≡ some doc
      → sdk.addr_string owner ≡ doc.controller
      → IsInGoodStanding doc.controller c.ids
      → forfeit_deposit bank r c.bank ≡ ok b
      → (identity_status_guard false false (signed_by owner) c.ids ≡ ok tt)
        × ((d : IdentityChain B) × (cancel_recovery bank block_time doc.controller id c ≡ ok d)
            × (get_recovery_request id d.ids ≡ none)
            × (d.ids.identities ≡ c.ids.identities))
  unfolding cancel_recovery delete_recovery_request get_recovery_request
  cancel_recovery-succeeds block_time id c r doc owner b o own found signs good paid =
      let opened = open_request-eq-ok bank (pos block_time) id c r o in
      (
        identity_status_guard-IsInGoodStanding false false owner c.ids
            (subst (λ a. IsInGoodStanding a c.ids) (sym signs) good),
        (
          record { bank = b; ids = delete_recovery_request r c.ids },
          ground (arith, opened, found, paid, ==_iff doc.controller doc.controller),
          ground
              (arith, own, lookup-erase r.recovery_id id c.ids.recoveries, ==_iff r.recovery_id id),
          refl,
        ),
      )
