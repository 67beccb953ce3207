-- ===== src/Identity/Store/Frame.antt =====
-- Proofs of what SetIdentity leaves alone.
use phi_chain.Base.{
  ℕ, pos, ◌≡◌, refl, ap, ◌∙◌, arith, Bool, Option, none, some, inl, inr, ◌==◌, ℤ, lookup, insert,
  nat_eq, Bool-cases,
}
use phi_chain.Sdk.{Text, empty_text}
use phi_chain.Identity.Types.{DidDocument}
use phi_chain.Identity.Store.{
  Host, IdentityStore, refresh_controller_eligibility, reconcile, oldest_standing, put_sweep,
  refresh, put_identity, set_identity, leave, get_identity,
}

-- The store with other indexes of eligibility.
abbrev reindexed : IdentityStore → IdentityStore → IdentityStore
reindexed s s' = record s {
  eligibility = s'.eligibility;
  eligibility_by_age = s'.eligibility_by_age;
  eligible_total = s'.eligible_total;
  sweep = s'.sweep;
}

-- A store that differs in these only.
unfoldable pub SameRegistry : IdentityStore → IdentityStore → Type 0
SameRegistry s s' = s' ≡ reindexed s s'

SameRegistry-trans :
    (s t u : IdentityStore) → SameRegistry s t → SameRegistry t u → SameRegistry s u
unfolding SameRegistry
SameRegistry-trans s t u h k = k ∙ ap (λ x. reindexed x u) h

reconcile-SameRegistry :
    (controller : Text) (now : ℤ) (was : Option (ℤ × ℤ)) (oldest : Option ℤ) (s : IdentityStore)
    → SameRegistry s (reconcile controller now was oldest s)
unfolding reconcile SameRegistry
reconcile-SameRegistry controller now (some (was, since)) none s = refl
reconcile-SameRegistry controller now none (some oldest) s = refl
reconcile-SameRegistry controller now (some (was, since)) (some oldest) s = ground arith
reconcile-SameRegistry controller now none none s = refl

put_sweep-SameRegistry :
    (controller : Text) (r : Option (Text × Bool × Bool)) (s : IdentityStore)
    → SameRegistry s (put_sweep controller r s)
unfolding SameRegistry
put_sweep-SameRegistry controller none s = refl
put_sweep-SameRegistry controller (some r) s = refl

module _ ⦃host : Host⦄ where
  refresh-SameRegistry :
      (controller : Text) (block_time : ℕ) (s : IdentityStore)
      → SameRegistry s (refresh controller block_time s)
  unfolding refresh
  refresh-SameRegistry controller block_time s =
      SameRegistry-trans s (refresh_controller_eligibility controller block_time s) _
        (reconcile-SameRegistry controller (pos block_time) (lookup controller s.eligibility)
          (oldest_standing controller s) s)
        (put_sweep-SameRegistry controller _ _)

  -- SetIdentity stores the document under its DID and touches indexes only.
  pub set_identity-SameRegistry :
      (block_time : ℕ) (d : DidDocument) (s : IdentityStore)
      → let s' = set_identity block_time d s in
        SameRegistry
          (record s {
            identities = insert d.did d s.identities;
            controller_index = s'.controller_index;
          })
          s'
  unfolding set_identity SameRegistry
  set_identity-SameRegistry block_time d s =
      let (index, prev) = leave d (get_identity d.did s) s.controller_index in
      let put = put_identity d index s in
      let once = refresh d.controller block_time put in
      let first = refresh-SameRegistry d.controller block_time put in
      elim (Bool-cases (prev == empty_text)) [
        | inl e ↦ rw e (ground (arith, first))
        | inr e ↦ rw e (
            ground (
              arith,
              SameRegistry-trans put once (refresh prev block_time once) first
                  (refresh-SameRegistry prev block_time once),
            ))
      ]
