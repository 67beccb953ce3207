-- ===== src/Identity/Requests/Loops.antt =====
-- Proofs that the loops over the recovery requests of an identity keep the Tallies orderly.
use phi_chain.Base.{
  ℕ, ℤ, pos, ◌≡◌, refl, sym, arith, Bool, not, ◌&&◌, ◌||◌, subst, leb_ℤ, Option, none, some, ◌⊎◌,
  List, [], ◌∷◌, inl, inr, ltb_ℤ, lookup, nat_eq, int_eq, All, ok, Bool-cases, Option-cases,
  Result-cases,
}
use phi_chain.Sdk.{Text, Sdk}
use phi_chain.Sdk.Bank.{Bank}
use phi_chain.Identity.Types.{RecoveryRequest, is_terminal_recovery_status}
use phi_chain.Identity.Store.{
  Host, IdentityStore, get_params, guardian_epoch, recovery_tally_epoch, scan,
}
use phi_chain.Identity.Requests.{
  IdentityChain, set_recovery_request, delete_recovery_request, freeze, thaw, thawed, each, stored,
  recovery_requests_for_did, freeze_live_recoveries, thaw_recoveries, forfeit_deposit,
  recovery_frozen_by_suspension, reap_if_expired, count_open, close_all, count_open_requests,
  supersede_siblings, terminate_recovery_requests_for_did, is_kept,
}
use phi_chain.Identity.Requests.Tally.{
  IsTally, IsOrderly, IsTally-grows, set_recovery_request-IsOrderly,
  delete_recovery_request-IsOrderly,
}

-- A request that changed, but for its times.
record Retimed (r q : RecoveryRequest) : Type 0 where
  own : q.recovery_id ≡ r.recovery_id
  did : q.did ≡ r.did
  status : q.status ≡ r.status
  approvals : q.approvals ≡ r.approvals
  rejections : q.rejections ≡ r.rejections

-- A step that changes the times of its request, or nothing.
Retimes : (RecoveryRequest → IdentityStore → IdentityStore) → Type 0
Retimes f =
    (r : RecoveryRequest) (s : IdentityStore)
    → (f r s ≡ s) ⊎ ((q : RecoveryRequest) × Retimed r q × (f r s ≡ set_recovery_request q s))

Tallies : IdentityStore → List RecoveryRequest → Type 0
Tallies s rs = All (λ r. IsTally r.recovery_id r s) rs

stored-Tallies :
    (s : IdentityStore) (ids : List Text) → IsOrderly s → Tallies s (stored ids s.recoveries)
unfolding Tallies stored
stored-Tallies s [] o = tt
stored-Tallies s (id ∷ ids) o = elim (Option-cases (lookup id s.recoveries)) [
  | inl e ↦ rw e (stored-Tallies s ids o)
  | inr (r, e) ↦
      let t = o.tallied id r e in
      rw e (subst (λ j. IsTally j r s) (sym t.own) t, stored-Tallies s ids o)
]

Retimed-IsTally :
    (r q : RecoveryRequest) (s : IdentityStore)
    → Retimed r q
    → IsTally r.recovery_id r s
    → IsTally q.recovery_id q s
unfolding guardian_epoch recovery_tally_epoch
Retimed-IsTally r q s k t = record {
  own = refl;
  live = rw (k.status) t.live;
  approvals_once = rw (k.approvals) t.approvals_once;
  rejections_once = rw (k.rejections) t.rejections_once;
  not_ahead = rw (k.own, k.did) t.not_ahead;
}

set_recovery_request-Tallies :
    (q : RecoveryRequest) (s : IdentityStore) (rs : List RecoveryRequest)
    → Tallies s rs
    → Tallies (set_recovery_request q s) rs
unfolding Tallies set_recovery_request guardian_epoch
set_recovery_request-Tallies q s [] h = tt
set_recovery_request-Tallies q s (r ∷ rs) h = (
  IsTally-grows r.recovery_id r s (set_recovery_request q s) refl (omega arith) h.0,
  set_recovery_request-Tallies q s rs h.1,
)

each-IsOrderly :
    (f : RecoveryRequest → IdentityStore → IdentityStore)
    → Retimes f
    → (rs : List RecoveryRequest) (s : IdentityStore) → Tallies s rs
    → IsOrderly s
    → IsOrderly (each f rs s)
unfolding Retimes Tallies
each-IsOrderly f k [] s t o = o
each-IsOrderly f k (r ∷ rs) s t o = elim (k r s) [
  | inl e ↦ rw e (each-IsOrderly f k rs s t.1 o)
  | inr (q, ret, e) ↦ rw e (
      each-IsOrderly f k rs (set_recovery_request q s) (set_recovery_request-Tallies q s rs t.1)
        (set_recovery_request-IsOrderly q s (Retimed-IsTally r q s ret t.0) o))
]

freeze-Retimes : (now : ℤ) → Retimes (freeze now)
unfolding Retimes freeze
freeze-Retimes now r s =
    elim (Bool-cases
      (is_terminal_recovery_status r.status || not (int_eq.matches r.frozen_at (pos 0)))) [
        | inl e ↦ inl (rw e refl)
        | inr e ↦ elim (Bool-cases (ltb_ℤ r.expires_at now)) [
          | inl late ↦ inl (rw (e, late) refl)
          | inr live ↦ inr (
            record r { frozen_at = now },
            record { own = refl; did = refl; status = refl; approvals = refl; rejections = refl },
            rw (e, live) refl,
          )
        ]
      ]

thaw-Retimes : (now ttl : ℤ) → Retimes (thaw now ttl)
unfolding Retimes thaw thawed
thaw-Retimes now ttl r s =
    elim (Bool-cases (int_eq.matches r.frozen_at (pos 0) || is_terminal_recovery_status r.status)) [
      | inl e ↦ inl (rw e refl)
      | inr e ↦ inr (
        thawed now ttl r,
        record { own = refl; did = refl; status = refl; approvals = refl; rejections = refl },
        rw e refl,
      )
    ]

module _ ⦃host : Host⦄ where
  pub freeze_live_recoveries-IsOrderly :
      (block_time : ℕ) (did : Text) (s : IdentityStore)
      → IsOrderly s
      → IsOrderly (freeze_live_recoveries block_time did s)
  unfolding freeze_live_recoveries recovery_requests_for_did
  freeze_live_recoveries-IsOrderly block_time did s o =
      each-IsOrderly (freeze (pos block_time)) (freeze-Retimes (pos block_time))
        (recovery_requests_for_did did s) s (stored-Tallies s (scan did s.recovery_by_did) o) o

  pub thaw_recoveries-IsOrderly :
      (block_time : ℕ) (did : Text) (s : IdentityStore)
      → IsOrderly s
      → IsOrderly (thaw_recoveries block_time did s)
  unfolding thaw_recoveries recovery_requests_for_did
  thaw_recoveries-IsOrderly block_time did s o =
      let ttl = (get_params s).recovery_request_ttl_seconds in
      each-IsOrderly (thaw (pos block_time) ttl) (thaw-Retimes (pos block_time) ttl)
        (recovery_requests_for_did did s) s (stored-Tallies s (scan did s.recovery_by_did) o) o

module _ ⦃sdk : Sdk⦄ {B : Type 0} (bank : Bank B) where
  reap_if_expired-cases :
      (now : ℤ) (r : RecoveryRequest) (c d : IdentityChain B) (terminal : Bool)
      → reap_if_expired bank now r c ≡ ok (terminal, d)
      → (d.ids ≡ c.ids) ⊎ (d.ids ≡ delete_recovery_request r c.ids)
  unfolding reap_if_expired
  reap_if_expired-cases now r c d terminal h =
      let held =
        not (int_eq.matches r.frozen_at (pos 0)) && recovery_frozen_by_suspension r.did c.ids in
      elim (Bool-cases (is_terminal_recovery_status r.status || (held || leb_ℤ now r.expires_at))) [
        | inl e ↦ inl (ground (arith, h, e))
        | inr e ↦ elim (Result-cases (forfeit_deposit bank r c.bank)) [
          | inr (x, failed) ↦ absurd (ground (arith, h, e, failed))
          | inl (b, moved) ↦ inr (ground (arith, h, e, moved))
        ]
      ]

  reap_if_expired-IsOrderly :
      (now : ℤ) (r : RecoveryRequest) (c d : IdentityChain B) (terminal : Bool)
      → reap_if_expired bank now r c ≡ ok (terminal, d)
      → IsOrderly c.ids
      → IsOrderly d.ids
  reap_if_expired-IsOrderly now r c d terminal h o =
      elim (reap_if_expired-cases now r c d terminal h) [
        | inl e ↦ subst IsOrderly (sym e) o
        | inr e ↦ subst IsOrderly (sym e) (delete_recovery_request-IsOrderly r c.ids o)
      ]

  count_open-IsOrderly :
      (now : ℤ) (rs : List RecoveryRequest) (n m : ℕ) (c d : IdentityChain B)
      → count_open bank now rs n c ≡ ok (m, d)
      → IsOrderly c.ids
      → IsOrderly d.ids
  unfolding count_open
  count_open-IsOrderly now [] n m c d h o = let same : c ≡ d = ground (arith, h) in rw (← same) o
  count_open-IsOrderly now (r ∷ rs) n m c d h o =
      elim (Result-cases (reap_if_expired bank now r c)) [
        | inr (e, failed) ↦ absurd (ground (arith, h, failed))
        | inl ((terminal, x), reaped) ↦
            count_open-IsOrderly now rs _ m x d (rw reaped at h)
              (reap_if_expired-IsOrderly now r c x terminal reaped o)
      ]

  close_all-IsOrderly :
      (kept : Option Text) (rs : List RecoveryRequest) (c d : IdentityChain B)
      → close_all bank kept rs c ≡ ok d
      → IsOrderly c.ids
      → IsOrderly d.ids
  unfolding close_all
  close_all-IsOrderly kept [] c d h o = let same : c ≡ d = ground (arith, h) in rw (← same) o
  close_all-IsOrderly kept (r ∷ rs) c d h o =
      elim (Bool-cases (is_kept kept r.recovery_id || is_terminal_recovery_status r.status)) [
        | inl skip ↦ close_all-IsOrderly kept rs c d (rw skip at h) o
        | inr closed ↦ elim (Result-cases (forfeit_deposit bank r c.bank)) [
          | inr (e, failed) ↦ absurd (ground (arith, h, closed, failed))
          | inl (b, moved) ↦
              let x : IdentityChain B = record {
                bank = b;
                ids = delete_recovery_request r c.ids;
              } in
              close_all-IsOrderly kept rs x d (ground (arith, h, closed, moved))
                (delete_recovery_request-IsOrderly r c.ids o)
        ]
      ]

  module _ ⦃host : Host⦄ where
    pub count_open_requests-IsOrderly :
        (now : ℤ) (did : Text) (n : ℕ) (c d : IdentityChain B)
        → count_open_requests bank now did c ≡ ok (n, d)
        → IsOrderly c.ids
        → IsOrderly d.ids
    unfolding count_open_requests
    count_open_requests-IsOrderly now did n c d h o =
        count_open-IsOrderly now (recovery_requests_for_did did c.ids) 0 n c d h o

    pub supersede_siblings-IsOrderly :
        (did executed : Text) (c d : IdentityChain B)
        → supersede_siblings bank did executed c ≡ ok d
        → IsOrderly c.ids
        → IsOrderly d.ids
    unfolding supersede_siblings
    supersede_siblings-IsOrderly did executed c d h o =
        close_all-IsOrderly (some executed) (recovery_requests_for_did did c.ids) c d h o

    pub terminate_recovery_requests_for_did-IsOrderly :
        (did : Text) (c d : IdentityChain B)
        → terminate_recovery_requests_for_did bank did c ≡ ok d
        → IsOrderly c.ids
        → IsOrderly d.ids
    unfolding terminate_recovery_requests_for_did
    terminate_recovery_requests_for_did-IsOrderly did c d h o =
        close_all-IsOrderly none (recovery_requests_for_did did c.ids) c d h o
