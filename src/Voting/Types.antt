-- ===== src/Voting/Types.antt =====
-- The messages of proto/phi/voting and the errors of x/voting/types/errors.go.
use phi_chain.Base.{ℕ, Bool, true, false, Option, List, ℤ, Map}
use phi_chain.Sdk.{Text}

pub data ElectionStatus : Type 0 where
  election_unspecified open_status closed cancelled : ElectionStatus

pub record Election : Type 0 where
  pub id : Text
  pub creator : Text
  pub title : Text
  pub options : List Text
  pub required_template_id : Text
  pub required_issuer_did : Text
  pub voting_start : ℤ
  pub voting_end : ℤ
  pub status : ElectionStatus
  pub option_tallies : List ℕ
  pub total_votes : ℕ
  pub created_at : ℤ

pub record Ballot : Type 0 where
  pub election_id : Text
  pub nullifier : Text
  pub option_index : ℕ
  pub cast_at : ℤ

pub record Params : Type 0 where
  pub max_options : ℕ
  pub min_voting_period_seconds : ℤ
  pub max_proof_size_bytes : ℕ
  pub max_voting_period_seconds : ℤ

pub record MsgCreateElection : Type 0 where
  pub creator : Text
  pub id : Text
  pub title : Text
  pub options : List Text
  pub required_template_id : Text
  pub required_issuer_did : Text
  pub voting_start : ℤ
  pub voting_end : ℤ

pub record MsgCastVote : Type 0 where
  pub voter : Text
  pub election_id : Text
  pub option_index : ℕ
  pub nullifier : Text
  pub eligibility_proof : Text

-- `invalid_address` and `invalid_signer` are errors of the SDK.
pub data Error : Type 0 where
  election_exists election_not_found election_not_open voting_not_started voting_ended
        invalid_option nullifier_used eligibility_failed template_missing_key unauthorized
        election_has_votes proof_too_large invalid_params invalid_request voting_not_sound
        invalid_nullifier invalid_address invalid_signer :
      Error

abbrev pub is_open_status : ElectionStatus → Bool
is_open_status open_status = true
is_open_status closed = false
is_open_status cancelled = false
is_open_status election_unspecified = false

-- The store of the keeper.
pub record VotingStore : Type 0 where
  pub params : Option Params
  pub elections : Map Text Election
  pub ballots : Map (Text × Text) Ballot
