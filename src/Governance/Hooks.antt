-- ===== src/Governance/Hooks.antt =====
-- x/governance/hooks.go, with dominantOption of x/governance/tally_live.go: what happens to the tally
-- when x/gov reports a vote. A time is in nanoseconds from 1970, a duration in nanoseconds.
pub mod Ballot
use phi_chain.Base.{
  ℕ, ◌/◌, Bool, true, false, not, ◌&&◌, ◌||◌, Option, none, some, List, [], ◌∷◌, ◌==◌,
  if◌then◌else◌, ℤ, pos, negsuc, ◌-ℤ◌, ltb_ℤ, Map, lookup, insert, nat_eq, Result, ok, err, fail_if,
  ◌>>=◌, ◌>>◌,
}
use phi_chain.Sdk.{Text, Addr}
use phi_chain.Governance.Routes.{
  VoteRoute, vote_route_public, vote_route_technical, vote_route_unspecified, classify,
}
use phi_chain.Governance.Tally.{FrozenEligibility, TallyStore, record_vote}

-- Time.Unix rounds down.
unfoldable pub unix : ℤ → ℤ
unix (pos n) = pos (n / 1000000000)
unix (negsuc n) = negsuc (n / 1000000000)

-- x/identity and x/staking as the hooks see them; times are in seconds here. The minimum ages that
-- the hooks pass are zero.
pub record Sources : Type 0 where
  pub min_identity_age : ℤ
  pub count_eligible_controllers_at : ℤ → ℕ
  pub is_eligible_controller_since : Text → ℤ → ℤ → Bool
  pub is_active_validator_operator : Addr → Bool

-- `msgs` are the type URLs, or `none` where GetMsgs fails.
pub record Proposal : Type 0 where
  pub id : ℕ
  pub voting_start_time : Option ℤ
  pub msgs : Option (List Text)

pub record WeightedVoteOption : Type 0 where
  pub option : ℕ
  pub weight : Text

pub data GovError : Type 0 where
  not_eligible_to_vote : GovError

abbrev pub option_abstain : ℕ
option_abstain = 2

-- The variables of the loop of dominantOption; a decimal is its number of 10 ^ -18.
pub record Best : Type 0 where
  pub best : ℕ
  pub best_w : ℤ
  pub tie : Bool

-- `parsed` is what LegacyNewDecFromStr reads.
unfoldable pub compare_weight : ℕ → Option ℤ → Best → Best
compare_weight option none b = b
compare_weight option (some w) b =
    if ltb_ℤ b.best_w w
    then record { best = option; best_w = w; tie = false }
    else if not (ltb_ℤ w b.best_w) && (ltb_ℤ (pos 0) b.best_w || ltb_ℤ b.best_w (pos 0))
    then record b { tie = true }
    else b

module _ (new_dec_from_str : Text → Option ℤ) where
  unfoldable pub best_from : List WeightedVoteOption → Best → Best
  best_from [] b = b
  best_from (o ∷ opts) b = best_from opts (compare_weight o.option (new_dec_from_str o.weight) b)

  unfoldable pub dominant_option : List WeightedVoteOption → ℕ
  unfolding best_from
  dominant_option opts =
      let b = best_from opts (record { best = option_abstain; best_w = pos 0; tie = false }) in
      if b.tie then option_abstain else b.best

abbrev pub cutoff_of : Sources → Proposal → ℤ
cutoff_of src p = elim p.voting_start_time [
  | none ↦ pos 0
  | some start ↦ unix (start -ℤ src.min_identity_age)
]

unfoldable pub freeze_eligibility_once :
    Sources → ℤ → Proposal → TallyStore → FrozenEligibility × TallyStore
freeze_eligibility_once src block_time p s = elim (lookup p.id s.proposal_eligibility) [
  | some basis ↦ (basis, s)
  | none ↦
      let cutoff = cutoff_of src p in
      let basis : FrozenEligibility = record {
        denominator = src.count_eligible_controllers_at cutoff;
        cutoff = cutoff;
        frozen_at = unix block_time;
      } in
      (basis, record s { proposal_eligibility = insert p.id basis s.proposal_eligibility })
]

unfoldable pub route_of : Map Text VoteRoute → Proposal → VoteRoute
route_of table p = elim p.msgs [ none ↦ vote_route_public | some msgs ↦ classify msgs table ]

-- The technical route: nothing is counted here.
unfoldable pub record_technical : Sources → Addr → TallyStore → Result GovError TallyStore
record_technical src voter_addr s = do
  fail_if (not (src.is_active_validator_operator voter_addr)) not_eligible_to_vote
  ok s

module _ (new_dec_from_str : Text → Option ℤ) (src : Sources) where
  -- The public route of `recordBallot`, against the basis that was frozen.
  unfoldable pub record_public :
      FrozenEligibility
      → Proposal
      → Text
      → Addr
      → List WeightedVoteOption
      → TallyStore
      → Result GovError TallyStore
  unfolding dominant_option
  record_public basis p voter voter_addr options s = do
    fail_if (not (src.is_eligible_controller_since voter basis.cutoff basis.frozen_at))
        not_eligible_to_vote
    ok (record_vote p.id voter_addr (dominant_option new_dec_from_str options) true s).1

  unfoldable pub record_ballot :
      Map Text VoteRoute
      → ℤ
      → Proposal
      → Text
      → Addr
      → List WeightedVoteOption
      → TallyStore
      → Result GovError TallyStore
  record_ballot table block_time p voter voter_addr options s =
      let (basis, s') = freeze_eligibility_once src block_time p s in
      elim (route_of table p) [
        | vote_route_technical ↦ record_technical src voter_addr s'
        | vote_route_public ↦ record_public basis p voter voter_addr options s'
        | vote_route_unspecified ↦ record_public basis p voter voter_addr options s'
      ]
