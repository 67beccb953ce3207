-- ===== src/Identity/Store/Eligible.antt =====
-- Proofs that SetIdentity keeps who may vote, and how many, in step with the identities.
use phi_chain.Base.{
  ◌≡◌, ◌≢◌, refl, sym, ap, ◌∙◌, arith, Bool, true, false, none, some, inl, inr, ◌==◌, if◌then◌else◌,
  Map, lookup, insert, lookup-insert, nat_eq, pair_eq, pair_matches_iff, Bool-cases, ==_iff,
}
use phi_chain.Sdk.{Text, empty_text}
use phi_chain.Identity.Types.{DidDocument}
use phi_chain.Identity.Store.{
  Host, IdentityStore, under, scan, oldest_of, oldest_standing, put_identity,
}
use phi_chain.Identity.Store.Mirror.{IsMirrored}
use phi_chain.Identity.Store.Indexed.{first_of, IsIndexed, under-insert, under-mem, scan_older}

module _ ⦃host : Host⦄ (d : DidDocument) (s : IdentityStore) (index : Map (Text × Text) Bool)
    (i : IsIndexed s) (named : d.controller ≢ empty_text)
    (elsewhere : (c did : Text)
      → (d.did == did) ≡ false
      → lookup (c, did) index ≡ lookup (c, did) s.controller_index)
    (own : (c : Text) (mark : Bool) → lookup (c, d.did) index ≡ some mark → c ≡ d.controller) where
  read_index :
      (c did : Text)
      → lookup (c, did) (put_identity d index s).controller_index ≡ (
          if pair_eq.matches (d.controller, d.did) (c, did)
          then some true
          else lookup (c, did) index)
  unfolding put_identity
  read_index c did = lookup-insert (d.controller, d.did) (c, did) true index

  read_identity :
      (did : Text)
      → lookup did (put_identity d index s).identities
        ≡ (if d.did == did then some d else lookup did s.identities)
  unfolding put_identity
  read_identity did = lookup-insert d.did did d s.identities

  put_indexed :
      (did : Text) (e : DidDocument)
      → lookup did (put_identity d index s).identities ≡ some e
      → (e.did ≡ did)
        × (e.controller ≢ empty_text)
        × (lookup (e.controller, did) (put_identity d index s).controller_index ≡ some true)
  put_indexed did e h = elim (Bool-cases (d.did == did)) [
    | inl same ↦
        let is : d ≡ e = ground (arith, read_identity did, h, same) in
        let at : d.did ≡ did = (==_iff d.did did).0 same in
        rw (← is, ← at)
          (
            refl,
            named,
            read_index d.controller d.did
                ∙ rw ((pair_matches_iff (d.controller, d.did) (d.controller, d.did)).1 refl) refl,
          )
    | inr other ↦
        let before = i.indexed did e (ground (arith, read_identity did, h, other)) in
        (
          before.0,
          before.1,
          read_index e.controller did
              ∙ ground (arith, other, elsewhere e.controller did other, before.2),
        )
  ]

  put_pointed :
      (c did : Text) (mark : Bool)
      → lookup (c, did) (put_identity d index s).controller_index ≡ some mark
      → (e : DidDocument) × (lookup did (put_identity d index s).identities ≡ some e)
        × (e.controller ≡ c)
  put_pointed c did mark h = elim (Bool-cases (d.did == did)) [
    | inl same ↦
        let at : d.did ≡ did = (==_iff d.did did).0 same in
        (
          d,
          read_identity did ∙ rw same refl,
          elim (Bool-cases (pair_eq.matches (d.controller, d.did) (c, did))) [
            | inl key ↦ ap (λ x. x.0) ((pair_matches_iff (d.controller, d.did) (c, did)).0 key)
            | inr out ↦
                let left : lookup (c, did) index ≡ some mark =
                  ground (arith, read_index c did, h, out) in
                sym (own c mark (rw at left))
          ],
        )
    | inr other ↦
        let left : lookup (c, did) index ≡ some mark = ground (arith, read_index c did, h, other) in
        let (e, stored, is) = i.pointed c did mark (sym (elsewhere c did other) ∙ left) in
        (e, read_identity did ∙ rw other stored, is)
  ]

  -- A controller that neither has the document nor had one under its DID.
  pub put_standing :
      (c : Text)
      → (d.controller == c) ≡ false
      → under c index ≡ under c s.controller_index
      → ((e : DidDocument) → lookup d.did s.identities ≡ some e → e.controller ≢ c)
      → oldest_standing c (put_identity d index s) ≡ oldest_standing c s
  unfolding oldest_standing oldest_of put_identity
  put_standing c apart same stranger =
      let keys : under c (insert (d.controller, d.did) true index) ≡ under c s.controller_index =
        under-insert c d.controller d.did index apart ∙ same in
      ap (λ ks. oldest_of (insert d.did d s.identities) (host.in_key_order ks)) keys
      ∙ scan_older (insert d.did d s.identities) s.identities
          (host.in_key_order (under c s.controller_index)) none
          (λ did h.
            let here = sym (host.in_key_order-mem did (under c s.controller_index)) ∙ h in
            let (mark, entry) = under-mem c did s.controller_index here in
            let (e, stored, is) = i.pointed c did mark entry in
            elim (Bool-cases (d.did == did)) [
              | inl at ↦
                  let there : lookup d.did s.identities ≡ some e =
                    ap (λ j. lookup j s.identities) ((==_iff d.did did).0 at) ∙ stored in
                  absurd (stranger e there is)
              | inr other ↦ lookup-insert d.did did d s.identities ∙ rw other refl
            ])

  pub settled :
      (s' : IdentityStore)
      → s'.identities ≡ (put_identity d index s).identities
      → s'.controller_index ≡ (put_identity d index s).controller_index
      → ((c : Text)
          → first_of (lookup c s'.eligibility) ≡ oldest_standing c (put_identity d index s))
      → IsMirrored s'
      → IsIndexed s'
  unfolding oldest_standing
  settled s' e f standing m = record {
    indexed = λ did x h.
        let (a, b, c) = put_indexed did x (ap (lookup did) (sym e) ∙ h) in
        (a, b, ap (lookup (x.controller, did)) f ∙ c);
    pointed = λ c did mark h.
        let (x, a, b) = put_pointed c did mark (ap (lookup (c, did)) (sym f) ∙ h) in
        (x, ap (lookup did) e ∙ a, b);
    eligible = λ c.
        standing c
        ∙ ap (λ m. oldest_of m (scan c (put_identity d index s).controller_index)) (sym e)
        ∙ ap (λ x. oldest_of s'.identities (scan c x)) (sym f);
    mirror = m;
  }
