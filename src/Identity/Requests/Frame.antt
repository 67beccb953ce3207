-- ===== src/Identity/Requests/Frame.antt =====
-- Proofs that the handling of recovery requests leaves the identities alone.
use phi_chain.Base.{
  ℕ, ◌≡◌, refl, arith, Bool, Option, none, some, List, [], ◌∷◌, inl, inr, ℤ, pos, ◌||◌, ok,
  Bool-cases, Result-cases,
}
use phi_chain.Sdk.{Text, Sdk}
use phi_chain.Sdk.Bank.{Bank}
use phi_chain.Identity.Types.{RecoveryRequest, is_terminal_recovery_status}
use phi_chain.Identity.Store.{Host, IdentityStore, get_params}
use phi_chain.Identity.Requests.{
  IdentityChain, set_recovery_request, delete_recovery_request, freeze, thaw, each,
  freeze_live_recoveries, thaw_recoveries, recovery_requests_for_did, forfeit_deposit,
  reap_if_expired, count_open, close_all, count_open_requests, supersede_siblings,
  terminate_recovery_requests_for_did, sync_tally_epoch, is_kept,
}

-- The identities and the markers of uniqueness are the same.
pub record SamePeople (s s' : IdentityStore) : Type 0 where
  pub identities : s'.identities ≡ s.identities
  pub uniqueness : s'.uniqueness ≡ s.uniqueness

pub SamePeople-refl : (s : IdentityStore) → SamePeople s s
SamePeople-refl s = record { identities = refl; uniqueness = refl }

pub SamePeople-trans : (s t u : IdentityStore) → SamePeople s t → SamePeople t u → SamePeople s u
SamePeople-trans s t u h k = ground arith

each-SamePeople :
    (f : RecoveryRequest → IdentityStore → IdentityStore)
    → ((r : RecoveryRequest) (s : IdentityStore) → SamePeople s (f r s))
    → (rs : List RecoveryRequest) (s : IdentityStore) → SamePeople s (each f rs s)
each-SamePeople f keep [] s = SamePeople-refl s
each-SamePeople f keep (r ∷ rs) s =
    SamePeople-trans s (f r s) (each f rs (f r s)) (keep r s) (each-SamePeople f keep rs (f r s))

freeze-SamePeople :
    (now : ℤ) (r : RecoveryRequest) (s : IdentityStore) → SamePeople s (freeze now r s)
unfolding freeze set_recovery_request
freeze-SamePeople now r s = ground arith

thaw-SamePeople :
    (now ttl : ℤ) (r : RecoveryRequest) (s : IdentityStore) → SamePeople s (thaw now ttl r s)
unfolding thaw set_recovery_request
thaw-SamePeople now ttl r s = ground arith

module _ ⦃host : Host⦄ where
  pub freeze_live_recoveries-SamePeople :
      (block_time : ℕ) (did : Text) (s : IdentityStore)
      → SamePeople s (freeze_live_recoveries block_time did s)
  unfolding freeze_live_recoveries
  freeze_live_recoveries-SamePeople block_time did s =
      each-SamePeople (freeze (pos block_time)) (freeze-SamePeople (pos block_time))
        (recovery_requests_for_did did s) s

  pub thaw_recoveries-SamePeople :
      (block_time : ℕ) (did : Text) (s : IdentityStore)
      → SamePeople s (thaw_recoveries block_time did s)
  unfolding thaw_recoveries
  thaw_recoveries-SamePeople block_time did s =
      let ttl = (get_params s).recovery_request_ttl_seconds in
      each-SamePeople (thaw (pos block_time) ttl) (thaw-SamePeople (pos block_time) ttl)
        (recovery_requests_for_did did s) s

pub sync_tally_epoch-SamePeople :
    (r : RecoveryRequest) (s : IdentityStore) → SamePeople s (sync_tally_epoch r s).1
unfolding sync_tally_epoch
sync_tally_epoch-SamePeople r s = ground arith

module _ ⦃sdk : Sdk⦄ {B : Type 0} (bank : Bank B) where
  pub reap_if_expired-SamePeople :
      (now : ℤ) (r : RecoveryRequest) (c d : IdentityChain B) (terminal : Bool)
      → reap_if_expired bank now r c ≡ ok (terminal, d)
      → SamePeople c.ids d.ids
  unfolding reap_if_expired delete_recovery_request
  reap_if_expired-SamePeople now r c d terminal h = ground arith

  count_open-SamePeople :
      (now : ℤ) (rs : List RecoveryRequest) (n m : ℕ) (c d : IdentityChain B)
      → count_open bank now rs n c ≡ ok (m, d)
      → SamePeople c.ids d.ids
  unfolding count_open
  count_open-SamePeople now [] n m c d h = ground arith
  count_open-SamePeople now (r ∷ rs) n m c d h =
      elim (Result-cases (reap_if_expired bank now r c)) [
        | inr (e, failed) ↦ absurd (ground (arith, h, failed))
        | inl ((terminal, x), reaped) ↦
            SamePeople-trans c.ids x.ids d.ids
              (reap_if_expired-SamePeople now r c x terminal reaped)
              (count_open-SamePeople now rs _ m x d (rw reaped at h))
      ]

  close_all-SamePeople :
      (kept : Option Text) (rs : List RecoveryRequest) (c d : IdentityChain B)
      → close_all bank kept rs c ≡ ok d
      → SamePeople c.ids d.ids
  unfolding close_all delete_recovery_request
  close_all-SamePeople kept [] c d h = ground arith
  close_all-SamePeople kept (r ∷ rs) c d h =
      elim (Bool-cases (is_kept kept r.recovery_id || is_terminal_recovery_status r.status)) [
        | inl skip ↦ close_all-SamePeople kept rs c d (rw skip at h)
        | inr closed ↦ elim (Result-cases (forfeit_deposit bank r c.bank)) [
          | inr (e, failed) ↦ absurd (ground (arith, h, closed, failed))
          | inl (b, moved) ↦
              let x : IdentityChain B = record {
                bank = b;
                ids = delete_recovery_request r c.ids;
              } in
              SamePeople-trans c.ids x.ids d.ids (record { identities = refl; uniqueness = refl })
                (close_all-SamePeople kept rs x d (ground (arith, h, closed, moved)))
        ]
      ]

  module _ ⦃host : Host⦄ where
    pub count_open_requests-SamePeople :
        (now : ℤ) (did : Text) (n : ℕ) (c d : IdentityChain B)
        → count_open_requests bank now did c ≡ ok (n, d)
        → SamePeople c.ids d.ids
    unfolding count_open_requests
    count_open_requests-SamePeople now did n c d h =
        count_open-SamePeople now (recovery_requests_for_did did c.ids) 0 n c d h

    pub supersede_siblings-SamePeople :
        (did executed : Text) (c d : IdentityChain B)
        → supersede_siblings bank did executed c ≡ ok d
        → SamePeople c.ids d.ids
    unfolding supersede_siblings
    supersede_siblings-SamePeople did executed c d h =
        close_all-SamePeople (some executed) (recovery_requests_for_did did c.ids) c d h

    pub terminate_recovery_requests_for_did-SamePeople :
        (did : Text) (c d : IdentityChain B)
        → terminate_recovery_requests_for_did bank did c ≡ ok d
        → SamePeople c.ids d.ids
    unfolding terminate_recovery_requests_for_did
    terminate_recovery_requests_for_did-SamePeople did c d h =
        close_all-SamePeople none (recovery_requests_for_did did c.ids) c d h
