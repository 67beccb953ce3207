-- ===== src/Credentials/Service/Agreements.antt =====
-- x/credentials/keeper/msg_server.go: who has signed an agreement.
use phi_chain.Base.{
  ◌+◌, ◌≡◌, ◌≤◌, refl, arith, Bool, true, false, List, [], ◌∷◌, ◌++◌, inl, inr, ◌==◌, ◌||◌,
  if◌then◌else◌, ℤ, ◌∙◌, length, All, All-append, Bool-cases,
}
use phi_chain.Sdk.{Text}
use phi_chain.Credentials.Types
use phi_chain.Credentials.Types.{AgreementSignature, Agreement, AgreementStatus, is_pending}
use phi_chain.Credentials.Handlers.{contains_string, has_signed, signed}

-- No signer stands twice.
unfoldable pub AreDistinct : List AgreementSignature → Type 0
AreDistinct [] = Unit {0}
AreDistinct (x ∷ xs) = (has_signed xs x.signer_did ≡ false) × AreDistinct xs

abbrev pub is_completed : AgreementStatus → Bool
is_completed Types.agreement_completed = true
is_completed Types.agreement_pending = false
is_completed Types.agreement_cancelled = false
is_completed Types.agreement_expired = false
is_completed Types.agreement_unspecified = false

-- The signatures are of distinct parties, and as many as the parties once the agreement is completed.
pub record IsHonest (ag : Agreement) : Type 0 where
  pub distinct : AreDistinct ag.signatures
  pub listed : All (λ x. contains_string ag.required_signers x.signer_did ≡ true) ag.signatures
  pub whole : is_completed ag.status ≡ true → length ag.signatures ≡ length ag.required_signers

has_signed-append :
    (xs : List AgreementSignature) (y : AgreementSignature) (d : Text)
    → has_signed (xs ++ (y ∷ [])) d ≡ (has_signed xs d || (y.signer_did == d))
unfolding has_signed
has_signed-append [] y d = ground arith
has_signed-append (x ∷ xs) y d = ground (arith, has_signed-append xs y d)

AreDistinct-snoc :
    (xs : List AgreementSignature) (y : AgreementSignature)
    → AreDistinct xs
    → has_signed xs y.signer_did ≡ false
    → AreDistinct (xs ++ (y ∷ []))
unfolding AreDistinct has_signed
AreDistinct-snoc [] y h fresh = (refl, tt)
AreDistinct-snoc (x ∷ xs) y h fresh = (
  ground (arith, has_signed-append xs y x.signer_did, h.0, fresh),
  AreDistinct-snoc xs y h.1 (ground (arith, fresh)),
)

remove : Text → List Text → List Text
remove t [] = []
remove t (y ∷ ys) = if y == t then ys else y ∷ remove t ys

length-remove :
    (t : Text) (ys : List Text) → contains_string ys t ≡ true → length (remove t ys) + 1 ≡ length ys
unfolding remove contains_string
length-remove t [] h = absurd (ground (arith, h))
length-remove t (y ∷ ys) h = elim (Bool-cases (y == t)) [
  | inl e ↦ rw e (omega arith)
  | inr e ↦ let rest = length-remove t ys (ground (arith, h, e)) in rw e (omega (arith, rest))
]

contains_string-remove :
    (t d : Text) (ys : List Text)
    → (t == d) ≡ false
    → contains_string (remove t ys) d ≡ contains_string ys d
unfolding remove contains_string
contains_string-remove t d [] other = refl
contains_string-remove t d (y ∷ ys) other = elim (Bool-cases (y == t)) [
  | inl e ↦ rw e (ground (arith, e, other))
  | inr e ↦ rw e (ground (arith, contains_string-remove t d ys other))
]

-- Signers other than one that is removed stay listed.
still_listed :
    (t : Text) (xs : List AgreementSignature) (ys : List Text)
    → has_signed xs t ≡ false
    → All (λ x. contains_string ys x.signer_did ≡ true) xs
    → All (λ x. contains_string (remove t ys) x.signer_did ≡ true) xs
unfolding has_signed
still_listed t [] ys fresh h = tt
still_listed t (x ∷ xs) ys fresh h =
    let other : (t == x.signer_did) ≡ false = ground (arith, fresh) in
    (
      contains_string-remove t x.signer_did ys other ∙ h.0,
      still_listed t xs ys (ground (arith, fresh)) h.1,
    )

-- Distinct signers that are as many as the parties are all of them.
everyone_signed :
    (xs : List AgreementSignature) (ys : List Text)
    → AreDistinct xs
    → All (λ x. contains_string ys x.signer_did ≡ true) xs
    → length ys ≤ length xs
    → (d : Text) → contains_string ys d ≡ true
    → has_signed xs d ≡ true
unfolding AreDistinct has_signed contains_string
everyone_signed [] [] u h few d there = there
everyone_signed [] (y ∷ ys) u h few d there = absurd (omega (arith, few))
everyone_signed (x ∷ xs) ys u h few d there = elim (Bool-cases (x.signer_did == d)) [
  | inl e ↦ rw e refl
  | inr e ↦
      let shorter = length-remove x.signer_did ys h.0 in
      let less : length (remove x.signer_did ys) ≤ length xs = omega (arith, shorter, few) in
      let rest =
        everyone_signed xs (remove x.signer_did ys) u.1 (still_listed x.signer_did xs ys u.0 h.1)
          less d (contains_string-remove x.signer_did d ys e ∙ there) in
      rw e rest
]

pub completed-signed :
    (ag : Agreement)
    → IsHonest ag
    → is_completed ag.status ≡ true
    → (d : Text) → contains_string ag.required_signers d ≡ true
    → has_signed ag.signatures d ≡ true
completed-signed ag i done =
    let same = i.whole done in
    everyone_signed ag.signatures ag.required_signers i.distinct i.listed (omega (arith, same))

pending_open : (status : AgreementStatus) → is_pending status ≡ true → is_completed status ≡ false
pending_open Types.agreement_pending h = refl
pending_open Types.agreement_completed h = absurd (ground (arith, h))
pending_open Types.agreement_cancelled h = refl
pending_open Types.agreement_expired h = refl
pending_open Types.agreement_unspecified h = refl

pub signed-IsHonest :
    (now : ℤ) (d : Text) (ag : Agreement)
    → IsHonest ag
    → is_pending ag.status ≡ true
    → contains_string ag.required_signers d ≡ true
    → has_signed ag.signatures d ≡ false
    → IsHonest (signed now d ag)
unfolding signed
signed-IsHonest now d ag i pending member fresh =
    let y : AgreementSignature = record { signer_did = d; signed_at = now } in
    record {
      distinct = AreDistinct-snoc ag.signatures y i.distinct fresh;
      listed =
          All-append (λ x. contains_string ag.required_signers x.signer_did ≡ true) ag.signatures
            (y ∷ []) i.listed (member, tt);
      whole = λ done.
          elim (Bool-cases (length (ag.signatures ++ (y ∷ [])) == length ag.required_signers)) [
            | inl e ↦ ground (arith, e)
            | inr e ↦ absurd (ground (arith, done, e, pending_open ag.status pending))
          ];
    }
