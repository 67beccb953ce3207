-- ===== src/Tests/Papers.antt =====
-- Tests of the credentials.
use phi_chain.Identity.Store.{get_identity}
use phi_chain.Base.{
  some, List, true, ◌≡◌, refl, arith, none, [], ◌∷◌, pos, nat_eq, lookup, insert, ok,
}
use phi_chain.Credentials.Types
use phi_chain.Credentials.Types.{
  CredentialTemplate, CredentialStore, Agreement, AgreementSignature, AgreementStatus,
  MsgCreateAgreement, MsgSignAgreement,
}
use phi_chain.Credentials.Handlers.{
  signed, verify_p256, sign_agreement, set_agreement, get_max_signers, get_agreement,
  create_agreement, contains_string, has_signed, auth_did, get_template, owned_template,
  deprecate_template, set_template,
}
use phi_chain.Credentials.Service.{Trace, agree, sign, end_template, process, start, after}
use phi_chain.Credentials.Service.Evolution.{IsKeyed}
use phi_chain.Credentials.Service.Effects.{IsFiled}
use phi_chain.Credentials.Service.Reached.{Lasts, Trace-Lasts, Trace-signed}
use phi_chain.Tests.People.{town, sample_host, alice_did}

abbrev diploma : CredentialTemplate
diploma = record {
  id = 5;
  version = 1;
  owner_did = alice_did;
  schema_hash = 50;
  issuer_bbs_pubkey = 8;
  name = 51;
  status = Types.template_active;
  created_at = pos 1;
  updated_at = pos 1;
  message_count = 0;
  disclosable_indices = [];
  disclosure_policy_hash = 52;
}

abbrev papers : CredentialTemplate → CredentialStore
papers t = record {
  max_agreement_signers = none;
  templates = (5, t) ∷ [];
  anchors = [];
  agreements = [];
  personal_anchors = [];
}

abbrev retired : CredentialTemplate
retired = record diploma { status = Types.template_deprecated; updated_at = pos 900 }

retire_runs : process 900 (town []) (end_template 31 5) (papers diploma) ≡ ok (papers retired)
unfolding process deprecate_template owned_template get_template lookup auth_did get_identity
    set_template insert
retire_runs = refl

papers-IsFiled : IsFiled (papers diploma)
unfolding IsKeyed lookup
papers-IsFiled = record {
  templates = λ k v h. ground (arith, h);
  anchors = λ k v h. ground (arith, h);
  agreements = λ k v h. ground (arith, h);
}

Trace-Lasts_example : Lasts (papers diploma) (papers retired)
Trace-Lasts_example =
    Trace-Lasts papers-IsFiled (after 900 (town []) (end_template 31 5) start retire_runs)

abbrev deal : MsgCreateAgreement
deal = record { creator = 31; hash = 70; required_signers = alice_did ∷ []; deadline = pos 0 }

abbrev signature : MsgSignAgreement
signature = record { signer = 31; hash = 70; signer_did = alice_did; signature = 71 }

abbrev deal_at : List AgreementSignature → AgreementStatus → Agreement
deal_at signatures status = record {
  hash = 70;
  creator = 31;
  required_signers = alice_did ∷ [];
  signatures = signatures;
  deadline = pos 0;
  status = status;
  created_at = pos 900;
}

abbrev with_deal : Agreement → CredentialStore
with_deal ag = record (papers diploma) { agreements = (70, ag) ∷ [] }

abbrev offered : Agreement
offered = deal_at [] Types.agreement_pending

abbrev concluded : Agreement
concluded =
    deal_at (record { signer_did = alice_did; signed_at = pos 901 } ∷ []) Types.agreement_completed

offer_runs : process 900 (town []) (agree deal) (papers diploma) ≡ ok (with_deal offered)
unfolding process create_agreement get_agreement lookup get_max_signers set_agreement insert
offer_runs = refl

sign_runs : process 901 (town []) (sign signature) (with_deal offered) ≡ ok (with_deal concluded)
unfolding process sign_agreement get_agreement lookup contains_string has_signed auth_did
    get_identity verify_p256 set_agreement insert signed
sign_runs = refl

both_steps : Trace (papers diploma) (with_deal concluded)
both_steps =
    after 901 (town []) (sign signature) (after 900 (town []) (agree deal) start offer_runs)
      sign_runs

concluded_stored : lookup 70 (with_deal concluded).agreements ≡ some concluded
unfolding lookup
concluded_stored = refl

alice_is_required : contains_string concluded.required_signers alice_did ≡ true
unfolding contains_string
alice_is_required = refl

Trace-signed_example : has_signed concluded.signatures alice_did ≡ true
Trace-signed_example =
    Trace-signed 70 concluded alice_did papers-IsFiled refl both_steps concluded_stored refl
      alice_is_required
