-- ===== src/Identity/Store/Indexed.antt =====
-- Proofs that SetIdentity keeps the eligibility records and their indexes in step with the identities.
use phi_chain.Base.{
  ℕ, pos, ◌%◌, ◌^◌, ◌≡◌, ◌≢◌, refl, sym, ap, ◌∙◌, subst, arith, Bool, true, false, Option, none,
  some, List, [], ◌∷◌, foldl, inl, inr, ◌==◌, if◌then◌else◌, ℤ, ltb_ℤ, int_eq, int_matches_iff, Map,
  lookup, insert, erase, lookup-insert, lookup-erase, nat_eq, pair_eq, Bool-cases, ==_iff, IsNodup,
  total_of,
}
use phi_chain.Sdk.{Text, empty_text}
use phi_chain.Identity.Types.{DidDocument}
use phi_chain.Identity.Store.{
  mem, Host, IdentityStore, under, scan, older, oldest_standing, reconcile, move_record,
  refresh_controller_eligibility, refresh_controller_sweep_status, put_sweep, sweep_step, refresh,
}
use phi_chain.Identity.Store.Mirror.{IsMirrored, one, reconcile-IsMirrored}

abbrev pub first_of : Option (ℤ × ℤ) → Option ℤ
first_of none = none
first_of (some (oldest, since)) = some oldest

reconcile_record :
    (c : Text) (now : ℤ) (was : Option (ℤ × ℤ)) (oldest : Option ℤ) (s : IdentityStore)
    → lookup c s.eligibility ≡ was
    → first_of (lookup c (reconcile c now was oldest s).eligibility) ≡ oldest
unfolding reconcile move_record
reconcile_record c now (some (was, since)) none s h =
    ground (arith, lookup-erase c c s.eligibility, ==_iff c c)
reconcile_record c now none (some oldest) s h =
    ground (arith, lookup-insert c c (oldest, now) s.eligibility, ==_iff c c)
reconcile_record c now (some (was, since)) (some oldest) s h =
    let later = if ltb_ℤ oldest was then now else since in
    elim (Bool-cases (int_eq.matches was oldest)) [
      | inl e ↦ rw e (ap first_of h ∙ ap some ((int_matches_iff was oldest).0 e))
      | inr e ↦ rw e (
          ap first_of (lookup-insert c c (oldest, later) s.eligibility)
          ∙ rw ((==_iff c c).1 refl) refl)
    ]
reconcile_record c now none none s h = ground (arith, h)

reconcile_other :
    (c d : Text) (now : ℤ) (was : Option (ℤ × ℤ)) (oldest : Option ℤ) (s : IdentityStore)
    → (c == d) ≡ false
    → lookup d (reconcile c now was oldest s).eligibility ≡ lookup d s.eligibility
unfolding reconcile move_record
reconcile_other c d now (some (was, since)) none s e =
    ground (arith, lookup-erase c d s.eligibility, e)
reconcile_other c d now none (some oldest) s e =
    ground (arith, lookup-insert c d (oldest, now) s.eligibility, e)
reconcile_other c d now (some (was, since)) (some oldest) s e =
    let later = if ltb_ℤ oldest was then now else since in
    elim (Bool-cases (int_eq.matches was oldest)) [
      | inl same ↦ rw same refl
      | inr moved ↦ rw moved (lookup-insert c d (oldest, later) s.eligibility ∙ rw e refl)
    ]
reconcile_other c d now none none s e = refl

reconcile_same :
    (c : Text) (now : ℤ) (was : Option (ℤ × ℤ)) (oldest : Option ℤ) (s : IdentityStore)
    → ((reconcile c now was oldest s).identities ≡ s.identities)
      × ((reconcile c now was oldest s).controller_index ≡ s.controller_index)
unfolding reconcile
reconcile_same c now was oldest s = (ground arith, ground arith)

pub under-insert :
    (c k did : Text) (m : Map (Text × Text) Bool)
    → (k == c) ≡ false
    → under c (insert (k, did) true m) ≡ under c m
unfolding under insert
under-insert c k did [] e = ground (arith, e)
under-insert c k did (((a, b), mark) ∷ m) e =
    ground (arith, e, under-insert c k did m e, ==_iff a k, ==_iff a c, ==_iff k c)

pub under-erase :
    (c k did : Text) (m : Map (Text × Text) Bool)
    → (k == c) ≡ false
    → under c (erase (k, did) m) ≡ under c m
unfolding under erase
under-erase c k did [] e = refl
under-erase c k did (((a, b), mark) ∷ m) e =
    ground (arith, e, under-erase c k did m e, ==_iff a k, ==_iff a c, ==_iff k c)

pub under-mem :
    (c did : Text) (m : Map (Text × Text) Bool)
    → mem did (under c m) ≡ true
    → (mark : Bool) × (lookup (c, did) m ≡ some mark)
unfolding under lookup
under-mem c did [] h = cc
under-mem c did (((a, b), mark) ∷ m) h = elim (Bool-cases (pair_eq.matches (a, b) (c, did))) [
  | inl e ↦ (mark, rw e refl)
  | inr e ↦ let (other, found) = under-mem c did m (ground (arith, h, e)) in (other, rw e found)
]

pub scan_older :
    (m m' : Map Text DidDocument) (dids : List Text) (best : Option ℤ)
    → ((did : Text) → mem did dids ≡ true → lookup did m ≡ lookup did m')
    → foldl (λ best did. older best (lookup did m)) best dids
      ≡ foldl (λ best did. older best (lookup did m')) best dids
scan_older m m' [] best same = refl
scan_older m m' (did ∷ dids) best same =
    let first : lookup did m ≡ lookup did m' = same did (ground (arith, ==_iff did did)) in
    ap (λ o. foldl (λ best x. older best (lookup x m)) (older best o) dids) first
    ∙ scan_older m m' dids (older best (lookup did m')) (λ x h. same x (ground (arith, h)))

-- What the registry's invariants check: every identity is stored under its DID and in the index of its
-- controller, the index has nothing else, and the eligibility record of each controller is what a scan
-- of its identities gives, with the age index and the total beside it.
pub record IsIndexed ⦃host : Host⦄ (s : IdentityStore) : Type 0 where
  pub indexed :
      (did : Text) (d : DidDocument)
      → lookup did s.identities ≡ some d
      → (d.did ≡ did)
        × (d.controller ≢ empty_text)
        × (lookup (d.controller, did) s.controller_index ≡ some true)
  pub pointed :
      (c did : Text) (mark : Bool)
      → lookup (c, did) s.controller_index ≡ some mark
      → (d : DidDocument) × (lookup did s.identities ≡ some d) × (d.controller ≡ c)
  pub eligible : (c : Text) → first_of (lookup c s.eligibility) ≡ oldest_standing c s
  pub mirror : IsMirrored s

-- One refresh of a controller.
pub record Refreshed ⦃host : Host⦄ (k : Text) (s s' : IdentityStore) : Type 0 where
  pub same_ids : s'.identities ≡ s.identities
  pub same_index : s'.controller_index ≡ s.controller_index
  pub at : first_of (lookup k s'.eligibility) ≡ oldest_standing k s
  pub other : (c : Text) → (k == c) ≡ false → lookup c s'.eligibility ≡ lookup c s.eligibility
  pub mirror : IsMirrored s'

pub mirror_frame :
    (s s' : IdentityStore)
    → s'.eligibility ≡ s.eligibility
    → s'.eligibility_by_age ≡ s.eligibility_by_age
    → s'.eligible_total ≡ s.eligible_total
    → IsMirrored s
    → IsMirrored s'
mirror_frame s s' e f g i = record {
  distinct = subst IsNodup (sym e) i.distinct;
  distinct_ages = subst IsNodup (sym f) i.distinct_ages;
  mirrored = λ c t u h. ap (lookup (t, c)) f ∙ i.mirrored c t u (ap (lookup c) (sym e) ∙ h);
  recorded = λ c t mark h.
      let (u, r) = i.recorded c t mark (ap (lookup (t, c)) (sym f) ∙ h) in (u, ap (lookup c) e ∙ r);
  counted = λ cutoff. rw (e, f) (i.counted cutoff);
  total = g ∙ i.total ∙ ap (λ m. total_of one m % 2 ^ 64) (sym e);
}

module _ ⦃host : Host⦄ where
  put_sweep-Refreshed :
      (k : Text) (r : Option (Text × Bool × Bool)) (s t : IdentityStore)
      → Refreshed k s t
      → Refreshed k s (put_sweep k r t)
  put_sweep-Refreshed k none s t h = record {
    same_ids = h.same_ids;
    same_index = h.same_index;
    at = h.at;
    other = h.other;
    mirror = mirror_frame t (put_sweep k none t) refl refl refl h.mirror;
  }
  put_sweep-Refreshed k (some r) s t h = record {
    same_ids = h.same_ids;
    same_index = h.same_index;
    at = h.at;
    other = h.other;
    mirror = mirror_frame t (put_sweep k (some r) t) refl refl refl h.mirror;
  }

  pub refresh-Refreshed :
      (k : Text) (block_time : ℕ) (s : IdentityStore)
      → IsMirrored s
      → Refreshed k s (refresh k block_time s)
  unfolding refresh refresh_controller_eligibility refresh_controller_sweep_status
  refresh-Refreshed k block_time s i =
      let was = lookup k s.eligibility in
      let oldest = oldest_standing k s in
      let t = reconcile k (pos block_time) was oldest s in
      let same = reconcile_same k (pos block_time) was oldest s in
      let swept =
        foldl (λ found did. sweep_step found (lookup did t.identities)) none
          (scan k t.controller_index) in
      put_sweep-Refreshed k swept s t (record {
        same_ids = same.0;
        same_index = same.1;
        at = reconcile_record k (pos block_time) was oldest s refl;
        other = λ c e. reconcile_other k c (pos block_time) was oldest s e;
        mirror = reconcile-IsMirrored k (pos block_time) was oldest s refl i;
      })
