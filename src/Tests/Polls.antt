-- ===== src/Tests/Polls.antt =====
-- Tests of the elections.
use phi_chain.Identity.Canonical.{u32_be}
use phi_chain.Voting.Validate.{
  validate_basic_params, validate_basic_end, validate_basic_create, validate, check_options,
  default_params, validate_basic_cast,
}
use phi_chain.Base.{
  sub64, int64, bits64, ◌-ℤ◌, check_all, ℕ, ◌≡◌, ◌≢◌, refl, arith, true, false, none, List, [], ◌∷◌,
  pos, nat_eq, pair_eq, Map, lookup, insert, total_of, Bool-cases, inl, inr, subst, ok, ◌==◌,
}
use phi_chain.Sdk.{text_bytes, text_length, Text}
use phi_chain.Sdk.Sample.{sample_sdk}
use phi_chain.Voting.Types
use phi_chain.Credentials.Types.{CredentialTemplate, template_active}
use phi_chain.Voting.Types.{Election, Ballot, MsgCastVote, VotingStore}
use phi_chain.Voting.Handlers.{
  zeros, update_params, set_params, new_election, has_election, ending, create_election,
  close_election, check_window, cancel_election, count_one, set_ballot, set_election, recorded,
  has_ballot, check_nullifier_shape, find_template, get_params, check_open, cast_guards,
  get_election, cast_vote, VotingKeeper, tally_at,
}
use phi_chain.Voting.Handlers.Tallies.{IsTallied, IsCounted, votes_for, votes_in}
use phi_chain.Voting.Service.{cast, handle, Run, stop, go}
use phi_chain.Voting.Service.Reached.{Keeps, Run-IsTallied, Run-Keeps, no_second_vote}

instance abbrev sample_keeper : VotingKeeper
sample_keeper = record {
  chain_id = 3;
  authority = 99;
  soundness_enforced = true;
  strict_nullifiers = false;
  verify_derivation_vote = λ proof key chain_id election_id nullifier signal. true;
}

abbrev template : CredentialTemplate
template = record {
  id = 5;
  version = 1;
  owner_did = 7;
  schema_hash = 50;
  issuer_bbs_pubkey = 8;
  name = 51;
  status = template_active;
  created_at = pos 1;
  updated_at = pos 1;
  message_count = 0;
  disclosable_indices = [];
  disclosure_policy_hash = 52;
}

abbrev templates : Map Text CredentialTemplate
templates = (5, template) ∷ []

abbrev election : List ℕ → ℕ → Election
election option_tallies total_votes = record {
  id = 11;
  creator = 31;
  title = 12;
  options = 13 ∷ 14 ∷ [];
  required_template_id = 5;
  required_issuer_did = 7;
  voting_start = pos 100;
  voting_end = pos 5000;
  status = Types.open_status;
  option_tallies = option_tallies;
  total_votes = total_votes;
  created_at = pos 100;
}

abbrev ballot : ℕ → ℕ → ℕ → Ballot
ballot nullifier option_index cast_at = record {
  election_id = 11;
  nullifier = nullifier;
  option_index = option_index;
  cast_at = pos cast_at;
}

-- An election with one ballot, and with two.
abbrev poll : VotingStore
poll = record {
  params = none;
  elections = (11, election (1 ∷ 0 ∷ []) 1) ∷ [];
  ballots = ((11, 21), ballot 21 0 900) ∷ [];
}

abbrev second_poll : VotingStore
second_poll = record {
  params = none;
  elections = (11, election (1 ∷ 1 ∷ []) 2) ∷ [];
  ballots = ((11, 21), ballot 21 0 900) ∷ ((11, 22), ballot 22 1 1000) ∷ [];
}

abbrev vote : ℕ → MsgCastVote
vote option_index = record {
  voter = 32;
  election_id = 11;
  option_index = option_index;
  nullifier = 22;
  eligibility_proof = 40;
}

vote_runs : handle 1000 templates (cast (vote 1)) poll ≡ ok second_poll
unfolding handle validate_basic_cast text_length cast_vote get_election lookup cast_guards
    check_open get_params default_params find_template check_nullifier_shape has_ballot tally_at
    recorded set_election set_ballot insert count_one check_all ◌-ℤ◌ bits64 int64 sub64 u32_be
    text_bytes cancel_election check_window close_election create_election ending has_election
    new_election set_params update_params zeros check_options validate validate_basic_create
    validate_basic_end validate_basic_params
vote_runs = refl

first_counted : IsCounted 11 (election (1 ∷ 0 ∷ []) 1) poll.ballots
unfolding tally_at total_of votes_for votes_in
first_counted = record {
  own = refl;
  by_option = λ i. ground arith;
  in_all = refl;
  bound = omega arith;
}

poll-IsTallied : IsTallied poll
unfolding lookup total_of votes_in
poll-IsTallied = record {
  counted = λ id e h. elim (Bool-cases (11 == id)) [
    | inl same ↦
        let key : 11 ≡ id = ground (arith, same) in
        let val : election (1 ∷ 0 ∷ []) 1 ≡ e = ground (arith, h, same) in
        subst (λ x. IsCounted id x poll.ballots) val
          (subst (λ x. IsCounted x (election (1 ∷ 0 ∷ []) 1) poll.ballots) key first_counted)
    | inr other ↦ absurd (ground (arith, h, other))
  ];
  known = λ id h. ground (arith, h);
}

one_vote : Run poll second_poll
one_vote = go 1000 templates (cast (vote 1)) stop vote_runs

Run-IsTallied_example : IsTallied second_poll
Run-IsTallied_example = Run-IsTallied poll-IsTallied one_vote

Run-Keeps_example : Keeps poll second_poll
Run-Keeps_example = Run-Keeps poll-IsTallied one_vote

no_second_vote_example : handle 1001 templates (cast (vote 0)) second_poll ≢ ok second_poll
no_second_vote_example =
    no_second_vote 1000 1001 templates templates (vote 1) (vote 0) second_poll poll-IsTallied
      vote_runs stop refl refl
