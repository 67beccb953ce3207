-- ===== src/Voting/Service.antt =====
-- The message service of x/voting: each message passes its ValidateBasic and then its handler; and the
-- states that messages reach.
pub mod Effects
pub mod Reached
use phi_chain.Base.{ℕ, ◌≡◌, Map, Result, ok, ◌>>=◌, ◌>>◌}
use phi_chain.Sdk.{Text, Sdk}
use phi_chain.Credentials.Types.{CredentialTemplate}
use phi_chain.Voting.Types.{Params, MsgCreateElection, MsgCastVote, Error, VotingStore}
use phi_chain.Voting.Validate.{
  validate_basic_create, validate_basic_cast, validate_basic_end, validate_basic_params,
}
use phi_chain.Voting.Handlers.{
  VotingKeeper, create_election, cast_vote, close_election, cancel_election, update_params,
}

pub data VotingMsg : Type 0 where
  create : MsgCreateElection → VotingMsg
  cast : MsgCastVote → VotingMsg
  close_poll : (creator election_id : Text) → VotingMsg
  cancel_poll : (creator election_id : Text) → VotingMsg
  set_rules : (authority : Text) → Params → VotingMsg

module _ ⦃sdk : Sdk⦄ ⦃keeper : VotingKeeper⦄ where
  unfoldable pub handle :
      ℕ → Map Text CredentialTemplate → VotingMsg → VotingStore → Result Error VotingStore
  handle block_time templates (create m) s =
      validate_basic_create m >> create_election block_time templates m s
  handle block_time templates (cast m) s =
      validate_basic_cast m >> cast_vote block_time templates m s
  handle block_time templates (close_poll creator id) s =
      validate_basic_end creator id >> close_election creator id s
  handle block_time templates (cancel_poll creator id) s =
      validate_basic_end creator id >> cancel_election creator id s
  handle block_time templates (set_rules authority p) s =
      validate_basic_params authority p >> update_params authority p s

  -- The states that messages reach, at any times and whatever templates there are; a message that fails
  -- changes nothing.
  pub data Run (s : VotingStore) : VotingStore → Type 0 where
    stop : Run s s
    go :
        {t u : VotingStore} (block_time : ℕ) (templates : Map Text CredentialTemplate)
        (m : VotingMsg)
        → Run s t
        → handle block_time templates m t ≡ ok u
        → Run s u
