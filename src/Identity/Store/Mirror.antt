-- ===== src/Identity/Store/Mirror.antt =====
-- Proofs that the age index and the total agree with the eligibility records.
use phi_chain.Base.{
  ℕ, ◌%◌, ◌^◌, ◌≡◌, refl, sym, ap, ◌∙◌, arith, Bool, true, false, Option, none, some, [], ◌∷◌, inl,
  inr, ◌==◌, if◌then◌else◌, ℤ, leb_ℤ, ltb_ℤ, int_eq, int_matches_iff, Map, lookup, insert, erase,
  lookup-insert, lookup-erase, nat_eq, pair_eq, pair_matches_iff, Bool-cases, Option-cases, ==_iff,
  IsNodup, total_of, insert-IsNodup, erase-IsNodup, total_of-insert_new, total_of-insert_old,
  total_of-erase,
}
use phi_chain.Sdk.{Text}
use phi_chain.Identity.Store.{
  IdentityStore, newer_than, drop_record, add_record, move_record, reconcile,
}

abbrev pub newer_entry : ℤ → ℤ × Text → Bool → ℕ
newer_entry cutoff k mark = if leb_ℤ k.0 cutoff then 0 else 1

abbrev pub newer_record : ℤ → Text → ℤ × ℤ → ℕ
newer_record cutoff controller r = if leb_ℤ r.0 cutoff then 0 else 1

abbrev pub one : Text → ℤ × ℤ → ℕ
one controller r = 1

pub newer_than-total_of :
    (cutoff : ℤ) (m : Map (ℤ × Text) Bool) → newer_than cutoff m ≡ total_of (newer_entry cutoff) m
unfolding newer_than total_of
newer_than-total_of cutoff [] = refl
newer_than-total_of cutoff ((k, mark) ∷ m) = omega (arith, newer_than-total_of cutoff m)

-- Each record stands in the age index once, under its time, and nothing else does; the total is the
-- number of records.
pub record IsMirrored (s : IdentityStore) : Type 0 where
  pub distinct : IsNodup s.eligibility
  pub distinct_ages : IsNodup s.eligibility_by_age
  pub mirrored :
      (c : Text) (t since : ℤ)
      → lookup c s.eligibility ≡ some (t, since)
      → lookup (t, c) s.eligibility_by_age ≡ some true
  pub recorded :
      (c : Text) (t : ℤ) (mark : Bool)
      → lookup (t, c) s.eligibility_by_age ≡ some mark
      → (since : ℤ) × (lookup c s.eligibility ≡ some (t, since))
  pub counted :
      (cutoff : ℤ)
      → total_of (newer_entry cutoff) s.eligibility_by_age
        ≡ total_of (newer_record cutoff) s.eligibility
  pub total : s.eligible_total ≡ total_of one s.eligibility % 2 ^ 64

key_apart : (t u : ℤ) (c d : Text) → (c == d) ≡ false → pair_eq.matches (t, c) (u, d) ≡ false
key_apart t u c d h = ground arith

time_apart :
    (t u : ℤ) (c d : Text) → int_eq.matches t u ≡ false → pair_eq.matches (t, c) (u, d) ≡ false
time_apart t u c d h = ground arith

module _ (c : Text) (was since : ℤ) (s : IdentityStore)
    (found : lookup c s.eligibility ≡ some (was, since)) (i : IsMirrored s) where
  age_read :
      (t : ℤ) (d : Text)
      → lookup (t, d) (erase (was, c) s.eligibility_by_age)
        ≡ (if pair_eq.matches (was, c) (t, d) then none else lookup (t, d) s.eligibility_by_age)
  age_read t d = lookup-erase (was, c) (t, d) s.eligibility_by_age

  record_read :
      (d : Text)
      → lookup d (erase c s.eligibility) ≡ (if c == d then none else lookup d s.eligibility)
  record_read d = lookup-erase c d s.eligibility

  drop_counted :
      (cutoff : ℤ)
      → total_of (newer_entry cutoff) (erase (was, c) s.eligibility_by_age)
        ≡ total_of (newer_record cutoff) (erase c s.eligibility)
  drop_counted cutoff =
      let a =
        total_of-erase (newer_entry cutoff) (was, c) true s.eligibility_by_age i.distinct_ages
          (i.mirrored c was since found) in
      let b = total_of-erase (newer_record cutoff) c (was, since) s.eligibility i.distinct found in
      omega (arith, i.counted cutoff)

  drop_record-IsMirrored : IsMirrored (drop_record c was s)
  unfolding drop_record
  drop_record-IsMirrored = record {
    distinct = erase-IsNodup c s.eligibility i.distinct;
    distinct_ages = erase-IsNodup (was, c) s.eligibility_by_age i.distinct_ages;
    mirrored = λ d t u h. elim (Bool-cases (c == d)) [
      | inl e ↦ absurd (ground (arith, record_read d, h, e))
      | inr e ↦
          let before = i.mirrored d t u (ground (arith, record_read d, h, e)) in
          age_read t d ∙ rw (key_apart was t c d e) before
    ];
    recorded = λ d t mark h. elim (Bool-cases (pair_eq.matches (was, c) (t, d))) [
      | inl e ↦ absurd (ground (arith, age_read t d, h, e))
      | inr e ↦
          let (u, before) = i.recorded d t mark (ground (arith, age_read t d, h, e)) in
          elim (Bool-cases (c == d)) [
            | inl same ↦
                absurd (ground (arith, found, before, same, e, int_matches_iff was t, ==_iff c d))
            | inr other ↦ (u, record_read d ∙ rw other before)
          ]
    ];
    counted = drop_counted;
    total =
        let b = total_of-erase one c (was, since) s.eligibility i.distinct found in
        let total = i.total in omega arith;
  }

module _ (c : Text) (oldest now : ℤ) (s : IdentityStore) (none_yet : lookup c s.eligibility ≡ none)
    (i : IsMirrored s) where
  add_record-IsMirrored : IsMirrored (add_record c oldest now s)
  unfolding add_record
  add_record-IsMirrored =
      let absent : lookup (oldest, c) s.eligibility_by_age ≡ none =
        elim (Option-cases (lookup (oldest, c) s.eligibility_by_age)) [
          | inl e ↦ e
          | inr (mark, e) ↦
              let (u, r) = i.recorded c oldest mark e in absurd (ground (arith, none_yet, r))
        ] in
      let age : (t : ℤ) (d : Text)
          → lookup (t, d) (insert (oldest, c) true s.eligibility_by_age) ≡ (
              if pair_eq.matches (oldest, c) (t, d)
              then some true
              else lookup (t, d) s.eligibility_by_age) =
        λ t d. lookup-insert (oldest, c) (t, d) true s.eligibility_by_age in
      let read : (d : Text)
          → lookup d (insert c (oldest, now) s.eligibility)
            ≡ (if c == d then some (oldest, now) else lookup d s.eligibility) =
        λ d. lookup-insert c d (oldest, now) s.eligibility in
      record {
        distinct = insert-IsNodup c (oldest, now) s.eligibility i.distinct;
        distinct_ages = insert-IsNodup (oldest, c) true s.eligibility_by_age i.distinct_ages;
        mirrored = λ d t u h. elim (Bool-cases (c == d)) [
          | inl e ↦
              let at : t ≡ oldest = ground (arith, read d, h, e) in
              let is : c ≡ d = (==_iff c d).0 e in
              age t d ∙ rw (at, ← is) (ground (arith, pair_matches_iff (oldest, c) (oldest, c)))
          | inr e ↦
              let before = i.mirrored d t u (ground (arith, read d, h, e)) in
              age t d ∙ rw (key_apart oldest t c d e) before
        ];
        recorded = λ d t mark h. elim (Bool-cases (pair_eq.matches (oldest, c) (t, d))) [
          | inl e ↦
              let both = (pair_matches_iff (oldest, c) (t, d)).0 e in
              let is : c ≡ d = ap (λ x. x.1) both in
              (now, read d ∙ rw ((==_iff c d).1 is) (ap (λ x. some (x.0, now)) both))
          | inr e ↦
              let (u, r) = i.recorded d t mark (ground (arith, age t d, h, e)) in
              elim (Bool-cases (c == d)) [
                | inl same ↦ absurd (ground (arith, none_yet, r, (==_iff c d).0 same))
                | inr other ↦ (u, read d ∙ rw other r)
              ]
        ];
        counted = λ cutoff.
            let a =
              total_of-insert_new (newer_entry cutoff) (oldest, c) true s.eligibility_by_age
                absent in
            let b =
              total_of-insert_new (newer_record cutoff) c (oldest, now) s.eligibility none_yet in
            let before = i.counted cutoff in omega arith;
        total =
            let b = total_of-insert_new one c (oldest, now) s.eligibility none_yet in
            let total = i.total in omega arith;
      }

move_total :
    (f : Text → ℤ × ℤ → ℕ) (c : Text) (v w : ℤ × ℤ) (m : Map Text (ℤ × ℤ))
    → IsNodup m
    → lookup c m ≡ some w
    → total_of f (insert c v m) ≡ total_of f (insert c v (erase c m))
move_total f c v w m distinct found =
    let gone : lookup c (erase c m) ≡ none = lookup-erase c c m ∙ rw ((==_iff c c).1 refl) refl in
    let a = total_of-insert_old f c v w m found in
    let b = total_of-erase f c w m distinct found in
    let d = total_of-insert_new f c v (erase c m) gone in omega arith

-- Records with the same entries in another order have the same index.
reordered-IsMirrored :
    (s t : IdentityStore)
    → t.eligibility_by_age ≡ s.eligibility_by_age
    → ((d : Text) → lookup d t.eligibility ≡ lookup d s.eligibility)
    → ((f : Text → ℤ × ℤ → ℕ) → total_of f t.eligibility ≡ total_of f s.eligibility)
    → IsNodup t.eligibility
    → t.eligible_total ≡ total_of one t.eligibility % 2 ^ 64
    → IsMirrored s
    → IsMirrored t
reordered-IsMirrored s t ages read sums distinct total i = record {
  distinct = distinct;
  distinct_ages = rw ages i.distinct_ages;
  mirrored = λ d u since h. rw ages (i.mirrored d u since (sym (read d) ∙ h));
  recorded =
      λ d u mark h. let (since, r) = i.recorded d u mark (rw (← ages) h) in (since, read d ∙ r);
  counted = λ cutoff. rw ages (i.counted cutoff ∙ sym (sums (newer_record cutoff)));
  total = total;
}

-- The record moves to another time: it is dropped, and added anew.
move_record-IsMirrored :
    (c : Text) (was since oldest now : ℤ) (s : IdentityStore)
    → lookup c s.eligibility ≡ some (was, since)
    → IsMirrored s
    → IsMirrored (move_record c oldest was since now s)
unfolding move_record drop_record add_record
move_record-IsMirrored c was since oldest now s found i =
    elim (Bool-cases (int_eq.matches was oldest)) [
      | inl e ↦ rw e i
      | inr moved ↦
          let later = if ltb_ℤ oldest was then now else since in
          let gone : lookup c (erase c s.eligibility) ≡ none =
            lookup-erase c c s.eligibility ∙ rw ((==_iff c c).1 refl) refl in
          let sums : (f : Text → ℤ × ℤ → ℕ)
              → total_of f (insert c (oldest, later) s.eligibility)
                ≡ total_of f (insert c (oldest, later) (erase c s.eligibility)) =
            λ f. move_total f c (oldest, later) (was, since) s.eligibility i.distinct found in
          rw moved (
            reordered-IsMirrored (add_record c oldest later (drop_record c was s))
              (record s {
                eligibility_by_age = insert (oldest, c) true (erase (was, c) s.eligibility_by_age);
                eligibility = insert c (oldest, later) s.eligibility;
              })
              refl
              (λ d. ground (
                arith,
                lookup-insert c d (oldest, later) s.eligibility,
                lookup-insert c d (oldest, later) (erase c s.eligibility),
                lookup-erase c d s.eligibility,
              ))
              sums (insert-IsNodup c (oldest, later) s.eligibility i.distinct)
              (let same : total_of one s.eligibility
                    ≡ total_of one (insert c (oldest, later) s.eligibility) =
                  omega (
                    arith,
                    total_of-insert_old one c (oldest, later) (was, since) s.eligibility found,
                  ) in
                i.total ∙ ap (λ x. x % 2 ^ 64) same)
              (add_record-IsMirrored c oldest later (drop_record c was s) gone
                (drop_record-IsMirrored c was since s found i)))
    ]

-- The record of a controller is brought up to date, and the indexes with it.
pub reconcile-IsMirrored :
    (c : Text) (now : ℤ) (was : Option (ℤ × ℤ)) (oldest : Option ℤ) (s : IdentityStore)
    → lookup c s.eligibility ≡ was
    → IsMirrored s
    → IsMirrored (reconcile c now was oldest s)
unfolding reconcile
reconcile-IsMirrored c now (some (was, since)) none s h i = drop_record-IsMirrored c was since s h i
reconcile-IsMirrored c now none (some oldest) s h i = add_record-IsMirrored c oldest now s h i
reconcile-IsMirrored c now (some (was, since)) (some oldest) s h i =
    move_record-IsMirrored c was since oldest now s h i
reconcile-IsMirrored c now none none s h i = i
