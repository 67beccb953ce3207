-- ===== src/Identity/Service/Change.antt =====
-- Proofs of what each message may do to the identities.
use phi_chain.Base.{
  ℕ, ◌≡◌, refl, sym, ap, ◌∙◌, arith, false, none, some, inl, inr, lookup, insert, nat_eq, ok,
  Option-cases,
}
use phi_chain.Sdk.{Text}
use phi_chain.Identity.Types.{DidDocument, DidStatus, is_revoked}
use phi_chain.Identity.Store.{
  Host, IdentityStore, get_identity, set_identity, set_guardian_set, bump_guardian_epoch,
  release_validator,
}
use phi_chain.Identity.Store.Frame.{SameRegistry, set_identity-SameRegistry}
use phi_chain.Identity.Requests.Frame.{
  SamePeople, SamePeople-trans, freeze_live_recoveries-SamePeople, thaw_recoveries-SamePeople,
}
use phi_chain.Identity.Handlers.{
  MsgRotateIdentityKey, MsgSetGuardians, rotate_identity_key, update_status, pause_or_resume,
  set_guardians,
}

-- The next document of a living identity: it keeps its DID, its human and its age.
pub record Successor (old new : DidDocument) : Type 0 where
  pub did : new.did ≡ old.did
  pub human : new.uniqueness_hash ≡ old.uniqueness_hash
  pub age : new.created_at ≡ old.created_at
  pub living : is_revoked old.status ≡ false

-- A change of the identities: none, one of a living identity, or one new identity of a new human.
pub data Change (s s' : IdentityStore) : Type 0 where
  kept : SamePeople s s' → Change s s'
  edited :
      (old new : DidDocument) (did : Text)
      → lookup did s.identities ≡ some old
      → Successor old new
      → s'.identities ≡ insert new.did new s.identities
      → s'.uniqueness ≡ s.uniqueness
      → Change s s'
  added :
      (new : DidDocument)
      → lookup new.did s.identities ≡ none
      → lookup new.uniqueness_hash s.uniqueness ≡ none
      → s'.identities ≡ insert new.did new s.identities
      → s'.uniqueness ≡ insert new.uniqueness_hash new.did s.uniqueness
      → Change s s'

pub Change-then : (s t u : IdentityStore) → Change s t → SamePeople t u → Change s u
Change-then s t u (kept h) k = kept (SamePeople-trans s t u h k)
Change-then s t u (edited old new did found succ i h) k =
    edited old new did found succ (k.identities ∙ i) (k.uniqueness ∙ h)
Change-then s t u (added new no_did no_hash i h) k =
    added new no_did no_hash (k.identities ∙ i) (k.uniqueness ∙ h)

pub then-Change : (s t u : IdentityStore) → SamePeople s t → Change t u → Change s u
then-Change s t u k (kept h) = kept (SamePeople-trans s t u k h)
then-Change s t u k (edited old new did found succ i h) =
    edited old new did (ap (lookup did) (sym k.identities) ∙ found) succ
      (i ∙ ap (insert new.did new) k.identities) (h ∙ k.uniqueness)
then-Change s t u k (added new no_did no_hash i h) =
    added new (ap (lookup new.did) (sym k.identities) ∙ no_did)
      (ap (lookup new.uniqueness_hash) (sym k.uniqueness) ∙ no_hash)
      (i ∙ ap (insert new.did new) k.identities)
      (h ∙ ap (insert new.uniqueness_hash new.did) k.uniqueness)

pub bump_guardian_epoch-SamePeople :
    (did : Text) (s : IdentityStore) → SamePeople s (bump_guardian_epoch did s)
unfolding bump_guardian_epoch
bump_guardian_epoch-SamePeople did s = ground arith

pub release_validator-SamePeople :
    (did : Text) (s : IdentityStore) → SamePeople s (release_validator did s)
unfolding release_validator
release_validator-SamePeople did s = ground arith

module _ ⦃host : Host⦄ where
  pub set_identity-edited :
      (block_time : ℕ) (old new : DidDocument) (did : Text) (s : IdentityStore)
      → get_identity did s ≡ some old
      → Successor old new
      → Change s (set_identity block_time new s)
  unfolding get_identity SameRegistry
  set_identity-edited block_time old new did s found succ =
      let same = set_identity-SameRegistry block_time new s in
      edited old new did found succ (ap (λ x. x.identities) same) (ap (λ x. x.uniqueness) same)

  pause_or_resume-SamePeople :
      (block_time : ℕ) (did : Text) (old new : DidStatus) (s : IdentityStore)
      → SamePeople s (pause_or_resume block_time did old new s)
  unfolding pause_or_resume
  pause_or_resume-SamePeople block_time did old new s = ground (
    arith,
    freeze_live_recoveries-SamePeople block_time did s,
    thaw_recoveries-SamePeople block_time did s,
  )

  pub rotate_identity_key-Change :
      (block_time : ℕ) (m : MsgRotateIdentityKey) (s s' : IdentityStore)
      → rotate_identity_key block_time m s ≡ ok s'
      → Change s s'
  unfolding rotate_identity_key
  rotate_identity_key-Change block_time m s s' h = elim (Option-cases (get_identity m.did s)) [
    | inl e ↦ absurd (ground (arith, h, e))
    | inr (doc, e) ↦
        let new = record doc { pub_key = m.new_pub_key } in
        let succ : Successor doc new = record {
          did = refl;
          human = refl;
          age = refl;
          living = ground (arith, h, e);
        } in
        let same : set_identity block_time new s ≡ s' = ground (arith, h, e) in
        rw (← same) (set_identity-edited block_time doc new m.did s e succ)
  ]

  pub update_status-Change :
      (block_time : ℕ) (authority did : Text) (status : DidStatus) (s s' : IdentityStore)
      → update_status block_time authority did status s ≡ ok s'
      → Change s s'
  unfolding update_status
  update_status-Change block_time authority did status s s' h =
      elim (Option-cases (get_identity did s)) [
        | inl e ↦ absurd (ground (arith, h, e))
        | inr (doc, e) ↦
            let new = record doc { status = status } in
            let t = set_identity block_time new s in
            let succ : Successor doc new = record {
              did = refl;
              human = refl;
              age = refl;
              living = ground (arith, h, e);
            } in
            let same : pause_or_resume block_time did doc.status status t ≡ s' =
              ground (arith, h, e) in
            rw (← same) (
              Change-then s t (pause_or_resume block_time did doc.status status t)
                (set_identity-edited block_time doc new did s e succ)
                (pause_or_resume-SamePeople block_time did doc.status status t))
      ]

  pub set_guardians-SamePeople :
      (block_time : ℕ) (m : MsgSetGuardians) (s s' : IdentityStore)
      → set_guardians block_time m s ≡ ok s'
      → SamePeople s s'
  unfolding set_guardians set_guardian_set bump_guardian_epoch
  set_guardians-SamePeople block_time m s s' h = ground (arith, h)
