-- ===== src/Tests/Votes.antt =====
-- Tests of the redemption arithmetic and of the votes.
use phi_chain.Base.{
  ◌<◌, ◌≡◌, ◌≢◌, ◌↔◌, refl, arith, true, false, Option, some, List, [], ◌∷◌, if◌then◌else◌, All, ℤ,
  pos, Map, lookup, ok,
}
use phi_chain.Sdk.{Text}
use phi_chain.Sdk.Sample.{state_after}
use phi_chain.Institutions.Split.{minted_uphi_for_toman, uphi_per_toman, compute_redeem_split}
use phi_chain.Institutions.Split.Laws.{
  IsExact, compute_redeem_split-IsExact, compute_redeem_split-minted_uphi_for_toman,
}
use phi_chain.Governance.Routes.{
  VoteRoute, vote_route_technical, vote_route_public, route_for, classify_loop, classify,
  IsTechnical,
}
use phi_chain.Governance.Routes.Public.{classify-IsTechnical}
use phi_chain.Governance.Tally.{
  TallyStore, FrozenEligibility, get_counted_vote, record_vote, option_count, turnout,
  ineligible_vote_marker,
}
use phi_chain.Governance.Tally.Record.{IsTallied, record_vote-IsTallied, record_vote-stored}
use phi_chain.Governance.Tally.Recount.{recount}
use phi_chain.Governance.Hooks.{
  Sources, Proposal, WeightedVoteOption, compare_weight, best_from, dominant_option,
  freeze_eligibility_once, route_of, record_public, record_ballot,
}
use phi_chain.Governance.Hooks.Ballot.{Accepted, record_ballot-Accepted}

some_uphi : 0 < uphi_per_toman 100000
unfolding uphi_per_toman
some_uphi = omega arith

compute_redeem_split-IsExact_example :
    IsExact (uphi_per_toman 100000) 1000 5 12 (compute_redeem_split 1000 5 12 100000)
compute_redeem_split-IsExact_example = compute_redeem_split-IsExact 1000 5 12 100000 some_uphi

compute_redeem_split-minted_uphi_for_toman_example :
    let minted = minted_uphi_for_toman 70 100000 in
    let s = compute_redeem_split minted.0 0 0 100000 in
    (minted.1 ≡ true) × (s.toman_out ≡ 70) × (s.burned ≡ minted.0) × (s.dust ≡ 0)
compute_redeem_split-minted_uphi_for_toman_example =
    compute_redeem_split-minted_uphi_for_toman 70 100000 (omega arith) refl

abbrev sample_table : Map Text VoteRoute
sample_table = (5, vote_route_technical) ∷ (6, vote_route_public) ∷ []

abbrev two_urls : List Text
two_urls = 5 ∷ 6 ∷ []

classify-IsTechnical_example :
    ((classify two_urls sample_table ≡ vote_route_technical)
      ↔ ((two_urls ≢ []) × All (IsTechnical sample_table) two_urls))
    × (classify two_urls sample_table ≢ vote_route_technical
        → classify two_urls sample_table ≡ vote_route_public)
classify-IsTechnical_example = classify-IsTechnical two_urls sample_table

-- Two yes and one no on proposal 4, and a voter who was turned away.
abbrev four_voters : TallyStore
four_voters = record {
  tally_counts = ((4, 1), 2) ∷ ((4, 3), 1) ∷ [];
  tally_turnout = (4, 3) ∷ [];
  counted_votes = ((4, 100), 1) ∷ ((4, 101), 3) ∷ ((4, 102), 1) ∷ ((4, 103), 255) ∷ [];
  proposal_eligibility = [];
}

four_voters-IsTallied : IsTallied four_voters
unfolding option_count turnout get_counted_vote recount lookup
four_voters-IsTallied = record {
  options = λ p option k. ground arith;
  total = λ p. ground arith;
  bytes = λ p marker v e. ground arith;
}

record_vote-IsTallied_example : IsTallied (record_vote 4 101 1 true four_voters).1
record_vote-IsTallied_example =
    record_vote-IsTallied 4 101 1 four_voters four_voters-IsTallied (omega arith) (omega arith) true

record_vote-stored_example :
    let r = record_vote 4 103 1 true four_voters in
    (get_counted_vote 4 103 r.1 ≡ some (if r.0 then 1 else ineligible_vote_marker))
    × (get_counted_vote 4 103 four_voters ≡ some ineligible_vote_marker → r ≡ (false, four_voters))
record_vote-stored_example = record_vote-stored 4 103 1 true four_voters (omega arith)

abbrev sample_sources : Sources
sample_sources = record {
  min_identity_age = pos 0;
  count_eligible_controllers_at = λ t. 50;
  is_eligible_controller_since = λ a t since. true;
  is_active_validator_operator = λ a. false;
}

abbrev sample_proposal : Proposal
sample_proposal = record { id = 4; voting_start_time = some (pos 9000000000); msgs = some two_urls }

abbrev sample_read : Text → Option ℤ
sample_read t = some (pos t)

abbrev split_ballot : List WeightedVoteOption
split_ballot = record { option = 1; weight = 3 } ∷ record { option = 3; weight = 7 } ∷ []

abbrev after_ballot : TallyStore
after_ballot = state_after four_voters (
    record_ballot sample_read sample_sources sample_table (pos 9500000000) sample_proposal 104 104
      split_ballot four_voters)

ballot_runs :
    record_ballot sample_read sample_sources sample_table
      (pos 9500000000)
      sample_proposal
      104
      104
      split_ballot
      four_voters
    ≡ ok after_ballot
unfolding record_ballot record_public dominant_option best_from compare_weight
    freeze_eligibility_once route_of classify classify_loop route_for lookup
ballot_runs = refl

record_ballot-Accepted_example :
    (basis : FrozenEligibility) × Accepted sample_sources sample_table sample_proposal 104 104
      four_voters after_ballot basis
record_ballot-Accepted_example =
    record_ballot-Accepted sample_read sample_sources sample_proposal 104 104 split_ballot
      sample_table (pos 9500000000) four_voters after_ballot (omega arith, (omega arith, tt))
      (omega arith) four_voters-IsTallied ballot_runs
