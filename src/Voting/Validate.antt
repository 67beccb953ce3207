-- ===== src/Voting/Validate.antt =====
-- x/voting/types: Params.Validate of params.go and the ValidateBasic methods of msgs.go.
use phi_chain.Base.{
  ◌^◌, Bool, true, false, ◌&&◌, Option, none, some, List, [], ◌∷◌, length, ltb, ◌==◌, pos, ltb_ℤ,
  leb_ℤ, Result, ok, fail_if, check_all, ◌>>◌,
}
use phi_chain.Sdk.{Text, empty_text, text_length, Sdk}
use phi_chain.Voting.Types
use phi_chain.Voting.Types.{Params, MsgCreateElection, MsgCastVote, Error}

unfoldable pub default_params : Params
default_params = record {
  max_options = 32;
  min_voting_period_seconds = pos 3600;
  max_proof_size_bytes = 16384;
  max_voting_period_seconds = pos 2592000;
}

unfoldable pub validate : Params → Result Error (Unit {0})
unfolding check_all
validate p = check_all (
    (ltb p.max_options 2, Types.invalid_params)
    ∷ (ltb_ℤ p.min_voting_period_seconds (pos 0), Types.invalid_params)
    ∷ (ltb_ℤ p.max_voting_period_seconds (pos 0), Types.invalid_params)
    ∷ (
      ltb_ℤ (pos 0) p.max_voting_period_seconds
          && ltb_ℤ p.max_voting_period_seconds p.min_voting_period_seconds,
      Types.invalid_params,
    )
    ∷ (p.max_proof_size_bytes == 0, Types.invalid_params)
    ∷ (ltb (2 ^ 20) p.max_proof_size_bytes, Types.invalid_params)
    ∷ [])

abbrev is_none {ℓ} : {A : Type ℓ} → Option A → Bool
is_none none = true
is_none (some a) = false

-- The loop over the options.
unfoldable pub check_options : List Text → Result Error (Unit {0})
unfolding text_length
check_options [] = ok tt
check_options (o ∷ options) =
    let rest = check_options options in
    do
      fail_if (o == empty_text) Types.invalid_request
      fail_if (ltb 128 (text_length o)) Types.invalid_request
      rest

module _ ⦃sdk : Sdk⦄ where
  unfoldable pub validate_basic_create : MsgCreateElection → Result Error (Unit {0})
  validate_basic_create m = do
    fail_if (is_none (sdk.acc_address_from_bech32 m.creator)) Types.invalid_address
    fail_if (m.id == empty_text) Types.invalid_request
    fail_if (ltb 255 (text_length m.id)) Types.invalid_request
    fail_if (m.title == empty_text) Types.invalid_request
    fail_if (ltb 256 (text_length m.title)) Types.invalid_request
    fail_if (ltb (length m.options) 2) Types.invalid_request
    check_options m.options
    fail_if (m.required_template_id == empty_text) Types.invalid_request
    fail_if (leb_ℤ m.voting_end m.voting_start) Types.invalid_request

  unfoldable pub validate_basic_cast : MsgCastVote → Result Error (Unit {0})
  validate_basic_cast m = do
    fail_if (is_none (sdk.acc_address_from_bech32 m.voter)) Types.invalid_address
    fail_if (m.election_id == empty_text) Types.invalid_request
    fail_if (text_length m.nullifier == 0) Types.invalid_request
    fail_if (ltb 64 (text_length m.nullifier)) Types.invalid_request
    fail_if (text_length m.eligibility_proof == 0) Types.invalid_request

  -- MsgCloseElection and MsgCancelElection.
  unfoldable pub validate_basic_end : (creator election_id : Text) → Result Error (Unit {0})
  validate_basic_end creator election_id = do
    fail_if (is_none (sdk.acc_address_from_bech32 creator)) Types.invalid_address
    fail_if (election_id == empty_text) Types.invalid_request

  unfoldable pub validate_basic_params : (authority : Text) → Params → Result Error (Unit {0})
  unfolding validate
  validate_basic_params authority p = do
    fail_if (is_none (sdk.acc_address_from_bech32 authority)) Types.invalid_address
    validate p
