-- ===== src/Tests/People.antt =====
-- Tests of the registry of identities.
use phi_chain.Base.{
  ℕ, ◌+◌, ◌-◌, ◌*◌, ◌%◌, ◌^◌, ◌≡◌, ◌≤◌, ◌<◌, refl, arith, true, false, none, some, List, [], ◌∷◌,
  pos, nat_eq, lookup, insert, erase, total_of, IsNodup, ok, sub64, ◌==◌, inl, inr, Bool-cases,
}
use phi_chain.Sdk.{text_length, Text, text, empty_text}
use phi_chain.Sdk.Sample.{sample_sdk, sample_bank, Ledger, state_after, amount_text}
use phi_chain.Ante.Status.{signed_by, IsInGoodStanding, identity_status_guard}
use phi_chain.Identity.Types
use phi_chain.Identity.Types.{DidDocument, RecoveryRequest, GuardianSet, TrustedIssuer}
use phi_chain.Identity.Store.{
  set_guardian_set, bump_guardian_epoch, default_params, get_params, recovery_tally_epoch,
  get_guardians, newer_than, get_identity, Host, IdentityStore, set_identity,
  count_eligible_controllers_at, under, oldest_of, oldest_standing, guardian_epoch,
  recovery_tally_epoch,
}
use phi_chain.Identity.Canonical.Injective.{IsShort, canonical_message-injective}
use phi_chain.Identity.Validate.{
  check_commitments, is_valid_did, validate_guardian_set_basic, has_commitment,
  derive_did_for_key_type, curve_for_key_type, guardian_commitment,
}
use phi_chain.Identity.Requests.{
  set_recovery_request, delete_recovery_request, stored, recovery_requests_for_did, close_all,
  supersede_siblings, deposit_of, refund_deposit, assert_no_key_collision, tally_is_current,
  sync_tally_epoch, open_guardian_commitment, reap_if_expired, IdentityChain, get_recovery_request,
  effective_approvals, forfeit_deposit,
}
use phi_chain.Identity.Handlers.{rotate_identity_key, MsgSetGuardians, set_guardians}
use phi_chain.Identity.Recovery.{
  authorise, open_request, open_vote, MsgGuardianVote, approve_recovery, execute_recovery,
  cancel_recovery,
}
use phi_chain.Identity.Recovery.Execution.{
  IsOpen, IsAuthorised, recovered, execute_recovery-IsAuthorised,
}
use phi_chain.Identity.Recovery.Veto.{cancel_recovery-succeeds}
use phi_chain.Identity.Requests.Tally.{IsOrderly}
use phi_chain.Identity.Service.{Msg, rotate, approve, deliver, Reach, here, next}
use phi_chain.Identity.Service.People.{IsUnique, Lives}
use phi_chain.Identity.Service.Reached.{Reach-IsUnique, Reach-Lives}
use phi_chain.Identity.Service.Consent.{Reach-IsOrderly, set_guardians-withdraws}
use phi_chain.Identity.Store.Mirror.{IsMirrored, one}
use phi_chain.Identity.Store.Indexed.{IsIndexed}
use phi_chain.Identity.Store.Electorate.{
  set_identity-IsIndexed, old_enough, count_eligible_controllers_at-old_enough,
}

abbrev sum : List ℕ → ℕ
sum [] = 0
sum (b ∷ bs) = b + sum bs

-- A digest of 32 bytes.
abbrev digest : List ℕ → Text
digest bytes = text "aaaaaaaaaaaaaaaaaaaaaaaaaaaaaaa" + 257 ^ 31 * (1 + sum bytes % 256)

instance abbrev pub sample_host : Host
sample_host = record {
  chain_id = 3;
  authority = 99;
  reauth_enabled = false;
  verify_signature = λ curve key message sig. true;
  derive_did = λ curve key. some (key + 1000);
  sha256 = digest;
  in_key_order = λ ts. ts;
  in_key_order-mem = λ t ts. refl;
}

abbrev pub alice_did : Text
alice_did = text "did:phi:a"

abbrev bob_did : Text
bob_did = text "did:phi:b"

abbrev salt : Text
salt = text "ssssssssssssssssssssssssssssssss"

abbrev alice : DidDocument
alice = record {
  did = alice_did;
  controller = 31;
  pub_key = 5;
  uniqueness_hash = 41;
  created_at = pos 100;
  status = Types.active;
  key_type = Types.secp256r1;
}

abbrev bob : DidDocument
bob = record alice {
  did = bob_did;
  controller = 32;
  pub_key = 6;
  uniqueness_hash = 42;
  created_at = pos 200;
}

abbrev request : List Text → RecoveryRequest
request approvals = record {
  recovery_id = 300;
  did = alice_did;
  proposed_new_pub_key = 8;
  proposed_new_controller = 33;
  key_type = Types.secp256r1;
  method = Types.social;
  approvals = approvals;
  nonce = 9;
  initiated_at = pos 400;
  execute_after = pos 500;
  expires_at = pos 2000000;
  deposit_uphi = amount_text 10;
  attestor_did = empty_text;
  fee_uphi = amount_text 0;
  status = Types.pending;
  rejections = [];
  frozen_at = pos 0;
}

-- Two people, and a recovery of the first with the second as guardian.
abbrev pub town : List Text → IdentityStore
town approvals = record {
  params = none;
  identity_count = 2;
  identities = (alice_did, alice) ∷ (bob_did, bob) ∷ [];
  uniqueness = (41, alice_did) ∷ (42, bob_did) ∷ [];
  controller_index = ((31, alice_did), true) ∷ ((32, bob_did), true) ∷ [];
  eligibility = (31, (pos 100, pos 100)) ∷ (32, (pos 200, pos 200)) ∷ [];
  eligibility_by_age = ((pos 100, 31), true) ∷ ((pos 200, 32), true) ∷ [];
  eligible_total = 2;
  sweep = [];
  issuers = [];
  issuer_nonces = [];
  did_to_validator = [];
  validator_to_did = [];
  guardians =
      (
        alice_did,
        record {
          did = alice_did;
          commitments = guardian_commitment bob_did salt ∷ [];
          threshold = 1;
          updated_at = pos 300;
        },
      )
      ∷ [];
  guardian_epochs = (alice_did, 1) ∷ [];
  recoveries = (300, request approvals) ∷ [];
  recovery_by_did = ((alice_did, 300), true) ∷ [];
  recovery_nonces = [];
  tally_epochs = (300, 1) ∷ [];
}

abbrev chain : List Text → IdentityChain Ledger
chain approvals = record { bank = record { held = λ a. 50; issued = 1000 }; ids = town approvals }

abbrev one_byte : List ℕ
one_byte = 1 ∷ []

canonical_message-injective_example : (one_byte ≡ one_byte) × ((one_byte ∷ []) ≡ (one_byte ∷ []))
unfolding IsShort
canonical_message-injective_example =
    canonical_message-injective one_byte one_byte (one_byte ∷ []) (one_byte ∷ [])
      (omega arith, (omega arith, tt)) (omega arith, (omega arith, tt)) refl

town-IsUnique : IsUnique (town [])
unfolding lookup
town-IsUnique = record {
  marked = λ did d h. ground arith;
  owned = λ hash did h. elim (Bool-cases (41 == hash)) [
    | inl e ↦ (alice, ground arith, ground arith)
    | inr e ↦ (bob, ground arith, ground arith)
  ];
}

town-IsMirrored : IsMirrored (town [])
unfolding lookup IsNodup total_of
town-IsMirrored = record {
  distinct = (refl, (refl, tt));
  distinct_ages = (refl, (refl, tt));
  mirrored = λ c t since h. ground arith;
  recorded = λ c t mark h. elim (Bool-cases (31 == c)) [
    | inl e ↦ (pos 100, ground arith)
    | inr e ↦ (pos 200, ground arith)
  ];
  counted = λ cutoff. refl;
  total = refl;
}

town-IsIndexed : IsIndexed (town [])
unfolding lookup under oldest_of oldest_standing
town-IsIndexed = record {
  indexed = λ did d h. ground arith;
  pointed = λ c did mark h. elim (Bool-cases (31 == c)) [
    | inl e ↦ (alice, ground arith, ground arith)
    | inr e ↦ (bob, ground arith, ground arith)
  ];
  eligible = λ c. ground arith;
  mirror = town-IsMirrored;
}

abbrev new_key : Msg
new_key = rotate (record { creator = 31; did = alice_did; new_pub_key = 55; pop_sig = 1 })

abbrev rotated : IdentityChain Ledger
rotated = state_after (chain []) (deliver sample_bank 1000 new_key (chain []))

rotate_runs : deliver sample_bank 1000 new_key (chain []) ≡ ok rotated
unfolding deliver rotate_identity_key get_identity lookup curve_for_key_type derive_did_for_key_type
rotate_runs = refl

one_step : Reach sample_bank (chain []) rotated
one_step = next 1000 new_key here rotate_runs

Reach-IsUnique_example : IsUnique rotated.ids
Reach-IsUnique_example = Reach-IsUnique sample_bank town-IsUnique one_step

alice_stored : lookup alice_did (town []).identities ≡ some alice
unfolding lookup
alice_stored = refl

Reach-Lives_example : Lives alice_did alice rotated.ids
Reach-Lives_example =
    Reach-Lives sample_bank {c = chain []} alice_did alice town-IsUnique alice_stored one_step

set_identity-IsIndexed_example :
    IsIndexed (set_identity 1000 (record alice { controller = 33 }) (town []))
set_identity-IsIndexed_example =
    set_identity-IsIndexed 1000 (record alice { controller = 33 }) (town []) town-IsIndexed
      (λ e. omega arith)

few : total_of one (town []).eligibility ≤ 5000000
unfolding total_of
few = omega arith

count_eligible_controllers_at-old_enough_example :
    count_eligible_controllers_at (pos 350) (pos 200) (town [])
    ≡ total_of (old_enough (sub64 (pos 350) (pos 200))) (town []).eligibility
count_eligible_controllers_at-old_enough_example =
    count_eligible_controllers_at-old_enough (pos 350) (pos 200) (town []) town-IsIndexed few

one_is_old : count_eligible_controllers_at (pos 350) (pos 200) (town []) ≡ 1
unfolding count_eligible_controllers_at newer_than sub64
one_is_old = refl

town-IsOrderly : IsOrderly (town [])
unfolding lookup guardian_epoch recovery_tally_epoch
town-IsOrderly = record {
  tallied = λ id r h.
      let same : request [] ≡ r = ground arith in
      let at : 300 ≡ id = ground arith in
      rw (← same, ← at)
        (record {
          own = refl;
          live = refl;
          approvals_once = tt;
          rejections_once = tt;
          not_ahead = omega arith;
        });
  fresh = λ id h. ground arith;
}

abbrev bob_votes : MsgGuardianVote
bob_votes = record { creator = 32; recovery_id = 300; guardian_did = bob_did; salt = salt }

abbrev approved : IdentityChain Ledger
approved = state_after (chain []) (deliver sample_bank 1000 (approve bob_votes) (chain []))

approve_runs : deliver sample_bank 1000 (approve bob_votes) (chain []) ≡ ok approved
unfolding deliver approve_recovery open_vote open_request get_recovery_request lookup
    reap_if_expired open_guardian_commitment text_length get_guardians has_commitment
    guardian_commitment get_identity sync_tally_epoch tally_is_current recovery_tally_epoch
    guardian_epoch
approve_runs = refl

Reach-IsOrderly_example : IsOrderly approved.ids
Reach-IsOrderly_example =
    Reach-IsOrderly sample_bank town-IsOrderly (next 1000 (approve bob_votes) here approve_runs)

abbrev executed : IdentityChain Ledger
executed =
    state_after (chain (bob_did ∷ []))
      (execute_recovery sample_bank 1000 300 (chain (bob_did ∷ [])))

execute_runs : execute_recovery sample_bank 1000 300 (chain (bob_did ∷ [])) ≡ ok executed
unfolding execute_recovery open_request get_recovery_request lookup reap_if_expired authorise
    get_guardians effective_approvals tally_is_current recovery_tally_epoch guardian_epoch
    get_identity assert_no_key_collision refund_deposit deposit_of sample_bank supersede_siblings
    close_all recovery_requests_for_did stored under delete_recovery_request erase set_identity
    oldest_standing oldest_of insert
execute_runs = refl

execute_recovery-IsAuthorised_example :
    (r : RecoveryRequest) × (doc : DidDocument) × IsOpen (pos 1000) 300 (town (bob_did ∷ [])) r
    × IsAuthorised (pos 1000) (town (bob_did ∷ [])) r doc
    × (executed.ids.identities ≡ insert doc.did (recovered r doc) (town (bob_did ∷ [])).identities)
    × (executed.ids.uniqueness ≡ (town (bob_did ∷ [])).uniqueness)
execute_recovery-IsAuthorised_example =
    execute_recovery-IsAuthorised sample_bank 1000 300 (chain (bob_did ∷ [])) executed execute_runs

abbrev forfeited : Ledger
forfeited = state_after (chain []).bank (forfeit_deposit sample_bank (request []) (chain []).bank)

forfeit_runs : forfeit_deposit sample_bank (request []) (chain []).bank ≡ ok forfeited
unfolding forfeit_deposit deposit_of sample_bank
forfeit_runs = refl

is_open : IsOpen (pos 1000) 300 (town []) (request [])
unfolding get_recovery_request lookup
is_open = record { stored = refl; live = refl; in_time = refl }

alice_found : get_identity (request []).did (town []) ≡ some alice
unfolding get_identity lookup
alice_found = refl

alice-IsInGoodStanding : IsInGoodStanding 31 (town [])
unfolding get_identity lookup
alice-IsInGoodStanding did mark d listed found = ground arith

cancel_recovery-succeeds_example :
    (identity_status_guard false false (signed_by 30) (town []) ≡ ok tt)
    × ((d : IdentityChain Ledger) × (cancel_recovery sample_bank 1000 31 300 (chain []) ≡ ok d)
        × (get_recovery_request 300 d.ids ≡ none)
        × (d.ids.identities ≡ (town []).identities))
cancel_recovery-succeeds_example =
    cancel_recovery-succeeds sample_bank 1000 300 (chain []) (request []) alice 30 forfeited is_open
      refl alice_found refl alice-IsInGoodStanding forfeit_runs

abbrev new_guardians : MsgSetGuardians
new_guardians = record { controller = 31; did = alice_did; commitments = salt ∷ []; threshold = 1 }

abbrev guarded : IdentityStore
guarded = state_after approved.ids (set_guardians 1000 new_guardians approved.ids)

guard_runs : set_guardians 1000 new_guardians approved.ids ≡ ok guarded
unfolding set_guardians get_identity lookup validate_guardian_set_basic is_valid_did
    check_commitments get_params default_params deliver approve_recovery open_vote open_request
    get_recovery_request reap_if_expired open_guardian_commitment text_length get_guardians
    has_commitment guardian_commitment sync_tally_epoch tally_is_current recovery_tally_epoch
    guardian_epoch set_recovery_request
guard_runs = refl

room : guardian_epoch alice_did approved.ids < 2 ^ 64 - 1
unfolding set_guardians get_identity lookup validate_guardian_set_basic is_valid_did
    check_commitments get_params default_params deliver approve_recovery open_vote open_request
    get_recovery_request reap_if_expired open_guardian_commitment text_length get_guardians
    has_commitment guardian_commitment sync_tally_epoch tally_is_current recovery_tally_epoch
    guardian_epoch bump_guardian_epoch set_guardian_set set_recovery_request
room = omega arith

still_there : get_recovery_request 300 guarded ≡ some (request (bob_did ∷ []))
unfolding set_guardians get_identity lookup validate_guardian_set_basic is_valid_did
    check_commitments get_params default_params deliver approve_recovery open_vote open_request
    get_recovery_request reap_if_expired open_guardian_commitment text_length get_guardians
    has_commitment guardian_commitment sync_tally_epoch tally_is_current recovery_tally_epoch
    guardian_epoch bump_guardian_epoch set_guardian_set set_recovery_request insert
still_there = refl

set_guardians-withdraws_example : effective_approvals (request (bob_did ∷ [])) guarded ≡ []
set_guardians-withdraws_example =
    set_guardians-withdraws 1000 new_guardians approved.ids guarded 300 (request (bob_did ∷ []))
      (Reach-IsOrderly sample_bank town-IsOrderly (next 1000 (approve bob_votes) here approve_runs))
      room guard_runs still_there refl
