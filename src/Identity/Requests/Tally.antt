-- ===== src/Identity/Requests/Tally.antt =====
-- Proofs about the tallies of the recovery requests: no guardian counts twice, and none counts under a
-- guardian set that was replaced.
use phi_chain.Base.{
  ◌+◌, ◌≡◌, ◌≤◌, refl, sym, ap, ◌∙◌, arith, false, none, some, List, [], ◌∷◌, ◌++◌, inl, inr, ◌==◌,
  if◌then◌else◌, lookup, insert, erase, lookup-insert, lookup-erase, nat_eq, int_eq, Bool-cases,
  ==_iff,
}
use phi_chain.Sdk.{Text}
use phi_chain.Identity.Types.{RecoveryRequest, is_terminal_recovery_status}
use phi_chain.Identity.Store.{
  IdentityStore, guardian_epoch, recovery_tally_epoch, bump_guardian_epoch, epoch_or_zero,
}
use phi_chain.Identity.Validate.{has_commitment}
use phi_chain.Identity.Requests.{
  set_recovery_request, delete_recovery_request, sync_tally_epoch, tally_is_current,
}

-- No text stands twice.
abbrev pub IsDistinct : List Text → Type 0
IsDistinct [] = Unit
IsDistinct (t ∷ ts) = (has_commitment t ts ≡ false) × IsDistinct ts

has_commitment-snoc :
    (t g : Text) (ts : List Text)
    → has_commitment t ts ≡ false
    → (g == t) ≡ false
    → has_commitment t (ts ++ g ∷ []) ≡ false
unfolding has_commitment
has_commitment-snoc t g [] h e = ground arith
has_commitment-snoc t g (x ∷ ts) h e = ground (arith, has_commitment-snoc t g ts)

pub IsDistinct-snoc :
    (g : Text) (ts : List Text)
    → has_commitment g ts ≡ false
    → IsDistinct ts
    → IsDistinct (ts ++ g ∷ [])
unfolding has_commitment
IsDistinct-snoc g [] h d = (refl, tt)
IsDistinct-snoc g (t ∷ ts) h d = (
  has_commitment-snoc t g ts d.0 (ground (arith, h)),
  IsDistinct-snoc g ts (ground (arith, h)) d.1,
)

-- A request as it is stored: under its own id, not closed, each guardian at most once on each side,
-- its tally not ahead of the guardian set.
pub record IsTally (id : Text) (r : RecoveryRequest) (s : IdentityStore) : Type 0 where
  pub own : r.recovery_id ≡ id
  pub live : is_terminal_recovery_status r.status ≡ false
  pub approvals_once : IsDistinct r.approvals
  pub rejections_once : IsDistinct r.rejections
  pub not_ahead : recovery_tally_epoch id s ≤ guardian_epoch r.did s

pub record IsOrderly (s : IdentityStore) : Type 0 where
  pub tallied : (id : Text) (r : RecoveryRequest) → lookup id s.recoveries ≡ some r → IsTally id r s
  pub fresh : (id : Text) → lookup id s.recoveries ≡ none → recovery_tally_epoch id s ≡ 0

-- The same requests and epochs.
pub record SameTallies (s s' : IdentityStore) : Type 0 where
  pub recoveries : s'.recoveries ≡ s.recoveries
  pub tally_epochs : s'.tally_epochs ≡ s.tally_epochs
  pub guardian_epochs : s'.guardian_epochs ≡ s.guardian_epochs

-- A tally is one in any store with no less of an epoch for its set.
pub IsTally-grows :
    (id : Text) (r : RecoveryRequest) (s s' : IdentityStore)
    → s'.tally_epochs ≡ s.tally_epochs
    → guardian_epoch r.did s ≤ guardian_epoch r.did s'
    → IsTally id r s
    → IsTally id r s'
unfolding recovery_tally_epoch
IsTally-grows id r s s' e le t =
    let same : recovery_tally_epoch id s' ≡ recovery_tally_epoch id s =
      ap (λ m. epoch_or_zero (lookup id m)) e in
    record {
      own = t.own;
      live = t.live;
      approvals_once = t.approvals_once;
      rejections_once = t.rejections_once;
      not_ahead = omega (arith, t.not_ahead);
    }

pub grown-IsOrderly :
    (s s' : IdentityStore)
    → s'.recoveries ≡ s.recoveries
    → s'.tally_epochs ≡ s.tally_epochs
    → ((did : Text) → guardian_epoch did s ≤ guardian_epoch did s')
    → IsOrderly s
    → IsOrderly s'
unfolding recovery_tally_epoch
grown-IsOrderly s s' same e le o = record {
  tallied = λ id r h.
      IsTally-grows id r s s' e (le r.did) (o.tallied id r (ap (lookup id) (sym same) ∙ h));
  fresh = λ id h. rw e (o.fresh id (ap (lookup id) (sym same) ∙ h));
}

pub same-IsOrderly : (s s' : IdentityStore) → SameTallies s s' → IsOrderly s → IsOrderly s'
unfolding guardian_epoch
same-IsOrderly s s' k o =
    grown-IsOrderly s s' k.recoveries k.tally_epochs (λ did. rw k.guardian_epochs (omega arith)) o

bumped :
    (did j : Text) (s : IdentityStore)
    → guardian_epoch j s ≤ guardian_epoch j (bump_guardian_epoch did s)
unfolding bump_guardian_epoch guardian_epoch
bumped did j s = ground (
  arith,
  lookup-insert did j (epoch_or_zero (lookup did s.guardian_epochs) + 1) s.guardian_epochs,
  ==_iff did j,
)

pub bump_guardian_epoch-IsOrderly :
    (did : Text) (s : IdentityStore) → IsOrderly s → IsOrderly (bump_guardian_epoch did s)
unfolding bump_guardian_epoch
bump_guardian_epoch-IsOrderly did s o =
    grown-IsOrderly s (bump_guardian_epoch did s) (ground arith) (ground arith)
      (λ j. bumped did j s) o

pub set_recovery_request-IsOrderly :
    (r : RecoveryRequest) (s : IdentityStore)
    → IsTally r.recovery_id r s
    → IsOrderly s
    → IsOrderly (set_recovery_request r s)
unfolding set_recovery_request guardian_epoch recovery_tally_epoch
set_recovery_request-IsOrderly r s t o =
    let read : (id : Text)
        → lookup id (insert r.recovery_id r s.recoveries)
          ≡ (if r.recovery_id == id then some r else lookup id s.recoveries) =
      λ id. lookup-insert r.recovery_id id r s.recoveries in
    let s' = set_recovery_request r s in
    record {
      tallied = λ id q h. elim (Bool-cases (r.recovery_id == id)) [
        | inl e ↦
            let same : r ≡ q = ground (arith, read id, h, e) in
            let at : r.recovery_id ≡ id = ground (arith, e) in
            rw (← same, ← at) (IsTally-grows r.recovery_id r s s' refl (omega arith) t)
        | inr e ↦
            IsTally-grows id q s s' refl (omega arith)
              (o.tallied id q (ground (arith, read id, h, e)))
      ];
      fresh = λ id h. o.fresh id (ground (arith, read id, h));
    }

pub delete_recovery_request-IsOrderly :
    (r : RecoveryRequest) (s : IdentityStore)
    → IsOrderly s
    → IsOrderly (delete_recovery_request r s)
unfolding delete_recovery_request guardian_epoch recovery_tally_epoch
delete_recovery_request-IsOrderly r s o =
    let read : (id : Text)
        → lookup id (erase r.recovery_id s.recoveries)
          ≡ (if r.recovery_id == id then none else lookup id s.recoveries) =
      λ id. lookup-erase r.recovery_id id s.recoveries in
    let epoch : (id : Text)
        → lookup id (erase r.recovery_id s.tally_epochs)
          ≡ (if r.recovery_id == id then none else lookup id s.tally_epochs) =
      λ id. lookup-erase r.recovery_id id s.tally_epochs in
    record {
      tallied = λ id q h.
          let t = o.tallied id q (ground (arith, read id, h)) in
          record {
            own = t.own;
            live = t.live;
            approvals_once = t.approvals_once;
            rejections_once = t.rejections_once;
            not_ahead = ground (arith, epoch id, t.not_ahead);
          };
      fresh = λ id h. elim (Bool-cases (r.recovery_id == id)) [
        | inl e ↦ ground (arith, epoch id, e)
        | inr e ↦ ground (arith, epoch id, e, o.fresh id (ground (arith, read id, h, e)))
      ];
    }

-- The request brought up to the guardian set in force, in its store.
pub sync_tally_epoch-IsOrderly :
    (r : RecoveryRequest) (s : IdentityStore)
    → lookup r.recovery_id s.recoveries ≡ some r
    → IsOrderly s
    → IsTally r.recovery_id (sync_tally_epoch r s).0 (sync_tally_epoch r s).1
      × IsOrderly (sync_tally_epoch r s).1
unfolding sync_tally_epoch guardian_epoch recovery_tally_epoch
sync_tally_epoch-IsOrderly r s h o =
    let t = o.tallied r.recovery_id r h in
    let now = epoch_or_zero (lookup r.did s.guardian_epochs) in
    let read : (id : Text)
        → lookup id (insert r.recovery_id now s.tally_epochs)
          ≡ (if r.recovery_id == id then some now else lookup id s.tally_epochs) =
      λ id. lookup-insert r.recovery_id id now s.tally_epochs in
    elim (Bool-cases (tally_is_current r s)) [
      | inl e ↦ rw e (t, o)
      | inr e ↦ rw e (
        record {
          own = refl;
          live = t.live;
          approvals_once = tt;
          rejections_once = tt;
          not_ahead = ground (arith, read r.recovery_id, ==_iff r.recovery_id r.recovery_id);
        },
        record {
          tallied = λ id q k.
              let u = o.tallied id q k in
              record {
                own = u.own;
                live = u.live;
                approvals_once = u.approvals_once;
                rejections_once = u.rejections_once;
                not_ahead = elim (Bool-cases (r.recovery_id == id)) [
                  | inl at ↦
                      let is : r.recovery_id ≡ id = ground (arith, at) in
                      let same : r ≡ q = ground (arith, h, k, is) in
                      rw (← same) (ground (arith, read id, at))
                  | inr other ↦ ground (arith, read id, other, u.not_ahead)
                ];
              };
          fresh = λ id k.
              let apart : (r.recovery_id == id) ≡ false = ground (arith, h, k) in
              ground (arith, read id, apart, o.fresh id k);
        },
      )
    ]
