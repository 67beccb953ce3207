-- ===== src/Identity/Store/Electorate.antt =====
-- Proofs that the count of the electorate is that of the controllers with an identity old enough.
use phi_chain.Base.{
  ℕ, ◌+◌, ◌≡◌, ◌≢◌, ◌≤◌, refl, sym, ap, ◌∙◌, subst, arith, Bool, false, some, [], ◌∷◌, inl, inr,
  ◌==◌, if◌then◌else◌, ℤ, leb_ℤ, sub64, Map, lookup, erase, lookup-erase, nat_eq, pair_eq,
  Bool-cases, Option-cases, ==_iff, total_of,
}
use phi_chain.Sdk.{Text, empty_text}
use phi_chain.Identity.Types.{DidDocument}
use phi_chain.Identity.Store.{
  Host, IdentityStore, scan, oldest_of, oldest_standing, refresh, leave, put_identity, set_identity,
  get_identity, count_eligible_controllers_at, max_eligibility_tail_scan, newer_than,
}
use phi_chain.Identity.Store.Mirror.{IsMirrored, newer_record, one, newer_than-total_of}
use phi_chain.Identity.Store.Indexed.{
  first_of, IsIndexed, refresh-Refreshed, under-erase, mirror_frame,
}
use phi_chain.Identity.Store.Eligible.{put_standing, settled}

standing_frame :
    ⦃host : Host⦄ (c : Text) (s s' : IdentityStore)
    → s'.identities ≡ s.identities
    → s'.controller_index ≡ s.controller_index
    → oldest_standing c s' ≡ oldest_standing c s
unfolding oldest_standing
standing_frame c s s' e f =
    ap (λ m. oldest_of m (scan c s'.controller_index)) e
    ∙ ap (λ x. oldest_of s.identities (scan c x)) f

module _ ⦃host : Host⦄ (block_time : ℕ) (d : DidDocument) (s : IdentityStore) (i : IsIndexed s)
    (named : d.controller ≢ empty_text) where
  put_mirror : (index : Map (Text × Text) Bool) → IsMirrored (put_identity d index s)
  unfolding put_identity
  put_mirror index = mirror_frame s (put_identity d index s) refl refl refl i.mirror

  -- An identity that is new, or that stays with its controller.
  stays :
      ((e : DidDocument) → lookup d.did s.identities ≡ some e → e.controller ≡ d.controller)
      → IsIndexed (refresh d.controller block_time (put_identity d s.controller_index s))
  unfolding put_identity oldest_standing
  stays same =
      let index = s.controller_index in
      let put = put_identity d index s in
      let r = refresh-Refreshed d.controller block_time put (put_mirror index) in
      let elsewhere = λ (c did : Text) (e : (d.did == did) ≡ false). refl in
      let own = λ (c : Text) (mark : Bool) (h : lookup (c, d.did) index ≡ some mark).
        let (e, stored, is) = i.pointed c d.did mark h in sym is ∙ same e stored in
      settled d s index i named elsewhere own (refresh d.controller block_time put) r.same_ids
        r.same_index
        (λ c. elim (Bool-cases (d.controller == c)) [
          | inl at ↦
              subst
                (λ x.
                  first_of (lookup x (refresh d.controller block_time put).eligibility)
                  ≡ oldest_standing x put)
                ((==_iff d.controller c).0 at) r.at
          | inr apart ↦
              ap first_of (r.other c apart)
              ∙ i.eligible c
              ∙ sym (
                  put_standing d s index i named elsewhere own c apart refl
                    (λ e h is. ground (arith, same e h, is, apart)))
        ])
        r.mirror

  -- An identity that goes over to another controller.
  moves :
      (prev : DidDocument)
      → lookup d.did s.identities ≡ some prev
      → (prev.controller == d.controller) ≡ false
      → let index = erase (prev.controller, prev.did) s.controller_index in
        IsIndexed (
          refresh prev.controller block_time
            (refresh d.controller block_time (put_identity d index s)))
  unfolding put_identity oldest_standing
  moves prev found apart_prev =
      let index = erase (prev.controller, prev.did) s.controller_index in
      let put = put_identity d index s in
      let t = refresh d.controller block_time put in
      let r = refresh-Refreshed d.controller block_time put (put_mirror index) in
      let u = refresh prev.controller block_time t in
      let q = refresh-Refreshed prev.controller block_time t r.mirror in
      let keyed : prev.did ≡ d.did = (i.indexed d.did prev found).0 in
      let elsewhere : (c did : Text)
          → (d.did == did) ≡ false
          → lookup (c, did) index ≡ lookup (c, did) s.controller_index =
        λ c did e.
          lookup-erase (prev.controller, prev.did) (c, did) s.controller_index
          ∙ ground (arith, e, keyed) in
      let own : (c : Text) (mark : Bool) → lookup (c, d.did) index ≡ some mark → c ≡ d.controller =
        λ c mark h.
          let read = lookup-erase (prev.controller, prev.did) (c, d.did) s.controller_index in
          elim (Bool-cases (pair_eq.matches (prev.controller, prev.did) (c, d.did))) [
            | inl key ↦ absurd (ground (arith, read, h, key))
            | inr out ↦
                let (e, stored, is) = i.pointed c d.did mark (ground (arith, read, h, out)) in
                let same : prev ≡ e = ground (arith, found, stored) in
                absurd (ground (arith, same, is, out, keyed))
          ] in
      settled d s index i named elsewhere own u (q.same_ids ∙ r.same_ids)
        (q.same_index ∙ r.same_index)
        (λ c. elim (Bool-cases (prev.controller == c)) [
          | inl at ↦
              subst (λ x. first_of (lookup x u.eligibility) ≡ oldest_standing x put)
                ((==_iff prev.controller c).0 at)
                (q.at ∙ standing_frame prev.controller put t r.same_ids r.same_index)
          | inr far ↦ elim (Bool-cases (d.controller == c)) [
            | inl at ↦
                ap first_of (q.other c far)
                ∙ subst (λ x. first_of (lookup x t.eligibility) ≡ oldest_standing x put)
                    ((==_iff d.controller c).0 at) r.at
            | inr apart ↦
                ap first_of (q.other c far ∙ r.other c apart)
                ∙ i.eligible c
                ∙ sym (
                    put_standing d s index i named elsewhere own c apart
                      (under-erase c prev.controller prev.did s.controller_index far)
                      (λ e h is. ground (arith, found, h, is, far)))
          ]
        ])
        q.mirror

  -- SetIdentity keeps the registry in step: if every identity is in the index of its controller and the
  -- index has nothing else, if each eligibility record is what a scan of the controller's identities
  -- gives, and if the age index and the total agree with the records, all this holds after an identity
  -- with a controller has been stored, whether it is new, changed or passed to another controller.
  pub set_identity-IsIndexed : IsIndexed (set_identity block_time d s)
  unfolding set_identity leave get_identity
  set_identity-IsIndexed = elim (Option-cases (lookup d.did s.identities)) [
    | inl e ↦ rw e (stays (λ x h. absurd (ground (arith, e, h))))
    | inr (prev, e) ↦ elim (Bool-cases (prev.controller == d.controller)) [
      | inl same ↦ rw (e, same) (stays (λ x h. ground (arith, e, h, same)))
      | inr apart ↦
          let set : (prev.controller == empty_text) ≡ false =
            ground (arith, (i.indexed d.did prev e).1) in
          rw (e, apart, set) (moves prev e apart)
    ]
  ]

-- The controllers whose oldest identity that stands is no younger than the cutoff.
unfoldable pub old_enough : ℤ → Text → ℤ × ℤ → ℕ
old_enough cutoff controller r = if leb_ℤ r.0 cutoff then 1 else 0

old_or_new :
    (cutoff : ℤ) (m : Map Text (ℤ × ℤ))
    → total_of (old_enough cutoff) m + total_of (newer_record cutoff) m ≡ total_of one m
unfolding total_of old_enough
old_or_new cutoff [] = refl
old_or_new cutoff ((c, r) ∷ m) = ground (arith, old_or_new cutoff m)

-- The quorum denominator, which subtracts the tail of the age index from a running total, is the
-- number of controllers whose oldest identity that stands is no younger than the cutoff, in a registry
-- that is in step, with fewer controllers than the ceiling of the tail scan.
pub count_eligible_controllers_at-old_enough :
    ⦃host : Host⦄ (t min_age : ℤ) (s : IdentityStore)
    → IsIndexed s
    → total_of one s.eligibility ≤ max_eligibility_tail_scan
    → count_eligible_controllers_at t min_age s
      ≡ total_of (old_enough (sub64 t min_age)) s.eligibility
unfolding count_eligible_controllers_at
count_eligible_controllers_at-old_enough t min_age s i few =
    let cutoff = sub64 t min_age in
    let tail : newer_than cutoff s.eligibility_by_age
        ≡ total_of (newer_record cutoff) s.eligibility =
      newer_than-total_of cutoff s.eligibility_by_age ∙ i.mirror.counted cutoff in
    let both = old_or_new cutoff s.eligibility in
    let total : s.eligible_total ≡ total_of one s.eligibility = omega (arith, i.mirror.total) in
    ground (arith, tail, both, total)
