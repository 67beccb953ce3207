-- ===== src/Identity/Service/People.antt =====
-- Proofs that one human has one identity, for good.
use phi_chain.Base.{
  ◌≡◌, sym, ap, ◌∙◌, arith, true, none, some, inl, inr, ◌==◌, if◌then◌else◌, lookup, insert,
  lookup-insert, nat_eq, Bool-cases,
}
use phi_chain.Sdk.{Text}
use phi_chain.Identity.Types.{DidDocument, is_revoked}
use phi_chain.Identity.Store.{IdentityStore}
use phi_chain.Identity.Requests.Frame.{SamePeople}
use phi_chain.Identity.Service.Change.{Change, kept, edited, added}

-- The marker of an identity is its own, and a marker is that of an identity: what
-- UniquenessBijectionInvariant checks.
pub record IsUnique (s : IdentityStore) : Type 0 where
  pub marked :
      (did : Text) (d : DidDocument)
      → lookup did s.identities ≡ some d
      → (d.did ≡ did) × (lookup d.uniqueness_hash s.uniqueness ≡ some did)
  pub owned :
      (hash did : Text)
      → lookup hash s.uniqueness ≡ some did
      → (d : DidDocument) × (lookup did s.identities ≡ some d) × (d.uniqueness_hash ≡ hash)

-- The identity that is stored under a DID later.
pub record Lives (did : Text) (a : DidDocument) (s : IdentityStore) : Type 0 where
  pub later : DidDocument
  pub stored : lookup did s.identities ≡ some later
  pub human : later.uniqueness_hash ≡ a.uniqueness_hash
  pub age : later.created_at ≡ a.created_at
  pub terminal : is_revoked a.status ≡ true → later ≡ a

same-IsUnique : (s s' : IdentityStore) → SamePeople s s' → IsUnique s → IsUnique s'
same-IsUnique s s' k u = record {
  marked = λ did d h.
      let (own, mark) = u.marked did d (ap (lookup did) (sym k.identities) ∙ h) in
      (own, ap (lookup d.uniqueness_hash) k.uniqueness ∙ mark);
  owned = λ hash did h.
      let (d, found, same) = u.owned hash did (ap (lookup hash) (sym k.uniqueness) ∙ h) in
      (d, ap (lookup did) k.identities ∙ found, same);
}

module _ (s s' : IdentityStore) (new : DidDocument)
    (put : s'.identities ≡ insert new.did new s.identities) where
  read_put :
      (did : Text)
      → lookup did s'.identities ≡ (if new.did == did then some new else lookup did s.identities)
  read_put did = ap (lookup did) put ∙ lookup-insert new.did did new s.identities

  edited-IsUnique :
      (old : DidDocument) (did : Text)
      → lookup did s.identities ≡ some old
      → new.did ≡ old.did
      → new.uniqueness_hash ≡ old.uniqueness_hash
      → s'.uniqueness ≡ s.uniqueness
      → IsUnique s
      → IsUnique s'
  edited-IsUnique old did found same_did same_hash markers u =
      let (own, mark) = u.marked did old found in
      record {
        marked = λ j d h. elim (Bool-cases (new.did == j)) [
          | inl e ↦
              let is_new : new ≡ d = ground (arith, read_put j, h, e) in
              let at : new.did ≡ j = ground (arith, e) in
              rw (← is_new, markers, same_hash) (at, mark ∙ ap some (ground arith))
          | inr e ↦
              let (own', mark') = u.marked j d (ground (arith, read_put j, h, e)) in
              (own', rw markers mark')
        ];
        owned = λ hash j h.
            let (d, stored, same) = u.owned hash j (rw (← markers) h) in
            elim (Bool-cases (new.did == j)) [
              | inl e ↦
                  let at : did ≡ j = ground (arith, e) in
                  let is_old : old ≡ d = ground (arith, found, stored, at) in
                  (
                    new,
                    ground (arith, read_put j, e),
                    same_hash ∙ ap (λ x. x.uniqueness_hash) is_old ∙ same,
                  )
              | inr e ↦ (d, ground (arith, read_put j, stored, e), same)
            ];
      }

  added-IsUnique :
      lookup new.did s.identities ≡ none
      → lookup new.uniqueness_hash s.uniqueness ≡ none
      → s'.uniqueness ≡ insert new.uniqueness_hash new.did s.uniqueness
      → IsUnique s
      → IsUnique s'
  added-IsUnique no_did no_hash markers u =
      let read : (hash : Text)
          → lookup hash s'.uniqueness
            ≡ (if new.uniqueness_hash == hash then some new.did else lookup hash s.uniqueness) =
        λ hash.
          ap (lookup hash) markers ∙ lookup-insert new.uniqueness_hash hash new.did s.uniqueness in
      record {
        marked = λ j d h. elim (Bool-cases (new.did == j)) [
          | inl e ↦
              let is_new : new ≡ d = ground (arith, read_put j, h, e) in
              rw (← is_new) (ground (arith, e), ground (arith, read new.uniqueness_hash, e))
          | inr e ↦
              let (own, mark) = u.marked j d (ground (arith, read_put j, h, e)) in
              (own, ground (arith, read d.uniqueness_hash, mark, no_hash))
        ];
        owned = λ hash j h. elim (Bool-cases (new.uniqueness_hash == hash)) [
          | inl e ↦
              let at : new.did ≡ j = ground (arith, read hash, h, e) in
              (new, ground (arith, read_put j, at), ground (arith, e))
          | inr e ↦
              let (d, stored, same) = u.owned hash j (ground (arith, read hash, h, e)) in
              (d, ground (arith, read_put j, stored, no_did), same)
        ];
      }

pub Change-IsUnique : (s s' : IdentityStore) → Change s s' → IsUnique s → IsUnique s'
Change-IsUnique s s' (kept k) u = same-IsUnique s s' k u
Change-IsUnique s s' (edited old new did found succ put markers) u =
    edited-IsUnique s s' new put old did found succ.did succ.human markers u
Change-IsUnique s s' (added new no_did no_hash put markers) u =
    added-IsUnique s s' new put no_did no_hash markers u

pub Change-Lives :
    (s s' : IdentityStore) (did : Text) (a : DidDocument)
    → IsUnique s
    → Change s s'
    → Lives did a s
    → Lives did a s'
Change-Lives s s' did a u (kept k) l = record {
  later = l.later;
  stored = ap (lookup did) k.identities ∙ l.stored;
  human = l.human;
  age = l.age;
  terminal = l.terminal;
}
Change-Lives s s' did a u (edited old new at found succ put markers) l =
    elim (Bool-cases (new.did == did)) [
      | inl e ↦
          let here_too : at ≡ did =
            sym (u.marked at old found).0 ∙ sym succ.did ∙ ground (arith, e) in
          let is_old : old ≡ l.later = ground (arith, found, l.stored, here_too) in
          record {
            later = new;
            stored = ground (arith, read_put s s' new put did, e);
            human = succ.human ∙ ap (λ x. x.uniqueness_hash) is_old ∙ l.human;
            age = succ.age ∙ ap (λ x. x.created_at) is_old ∙ l.age;
            terminal = λ gone.
                let dead : is_revoked old.status ≡ true =
                  ap (λ x. is_revoked x.status) (is_old ∙ l.terminal gone) ∙ gone in
                absurd (ground (arith, dead, succ.living));
          }
      | inr e ↦ record {
        later = l.later;
        stored = ground (arith, read_put s s' new put did, l.stored, e);
        human = l.human;
        age = l.age;
        terminal = l.terminal;
      }
    ]
Change-Lives s s' did a u (added new no_did no_hash put markers) l = record {
  later = l.later;
  stored = ground (arith, read_put s s' new put did, l.stored, no_did);
  human = l.human;
  age = l.age;
  terminal = l.terminal;
}
