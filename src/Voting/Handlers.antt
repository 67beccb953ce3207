-- ===== src/Voting/Handlers.antt =====
-- x/voting/keeper: keeper.go, msg_server.go and nullifier_shape.go. Events are left out. The templates
-- of x/credentials are an argument, since that module may change them between two messages.

pub mod Tallies
use phi_chain.Base.{
  ℕ, ◌+◌, ◌-◌, ◌%◌, ◌^◌, Bool, true, false, not, ◌&&◌, ◌||◌, Option, none, some, List, [], ◌∷◌, map,
  length, ltb, leb, ◌==◌, if◌then◌else◌, ℤ, pos, ltb_ℤ, leb_ℤ, sub64, int_eq, Map, lookup, insert,
  nat_eq, pair_eq, Result, ok, err, fail_if, or_fail, ◌>>=◌, ◌>>◌,
}
use phi_chain.Sdk.{Text, empty_text, text_bytes, text_length}
use phi_chain.Identity.Canonical.{u32_be}
use phi_chain.Voting.Types
use phi_chain.Credentials.Types.{CredentialTemplate}
use phi_chain.Voting.Types.{
  Election, Ballot, Params, MsgCreateElection, MsgCastVote, Error, VotingStore, is_open_status,
}
use phi_chain.Voting.Validate.{default_params, validate}

-- What the keeper is built with: the chain's id, governance's address, whether the build tallies and
-- whether it asks for the strict form of a nullifier, and phicrypto.
pub record VotingKeeper : Type 0 where
  pub chain_id : Text
  pub authority : Text
  pub soundness_enforced : Bool
  pub strict_nullifiers : Bool
  pub verify_derivation_vote : Text → Text → Text → Text → Text → List ℕ → Bool

abbrev params_or_default : Option Params → Params
params_or_default none = default_params
params_or_default (some p) = p

unfoldable pub get_params : VotingStore → Params
get_params s = params_or_default s.params

unfoldable pub set_params : Params → VotingStore → Result Error VotingStore
set_params p s = do validate p; ok (record s { params = some p })

unfoldable pub get_election : Text → VotingStore → Option Election
get_election id s = lookup id s.elections

unfoldable pub set_election : Election → VotingStore → VotingStore
set_election e s = record s { elections = insert e.id e s.elections }

unfoldable pub has_election : Text → VotingStore → Bool
has_election id s = elim (lookup id s.elections) [ none ↦ false | some e ↦ true ]

unfoldable pub set_ballot : Ballot → VotingStore → VotingStore
set_ballot b s = record s { ballots = insert (b.election_id, b.nullifier) b s.ballots }

unfoldable pub has_ballot : Text → Text → VotingStore → Bool
has_ballot id nullifier s = elim (lookup (id, nullifier) s.ballots) [ none ↦ false | some b ↦ true ]

unfoldable pub zeros : List Text → List ℕ
zeros options = map (λ o. 0) options

unfoldable pub tally_at : ℕ → List ℕ → ℕ
tally_at i [] = 0
tally_at i (n ∷ ns) = if i == 0 then n else tally_at (i - 1) ns

-- The increment of a uint64 at an index.
unfoldable pub count_one : ℕ → List ℕ → List ℕ
count_one i [] = []
count_one i (n ∷ ns) = if i == 0 then (n + 1) % 2 ^ 64 ∷ ns else n ∷ count_one (i - 1) ns

unfoldable pub find_template : Text → Map Text CredentialTemplate → Result Error CredentialTemplate
find_template id templates = do
  t ← or_fail (lookup id templates) Types.template_missing_key
  fail_if (t.issuer_bbs_pubkey == empty_text) Types.template_missing_key
  ok t

-- The window that a creation asks for.
unfoldable pub check_window : ℤ → ℤ → Params → Result Error (Unit {0})
check_window start end p = do
  fail_if (leb_ℤ end start) Types.invalid_request
  fail_if (ltb_ℤ (sub64 end start) p.min_voting_period_seconds) Types.invalid_request
  fail_if
      (ltb_ℤ (pos 0) p.max_voting_period_seconds
        && ltb_ℤ p.max_voting_period_seconds (sub64 end start))
      Types.invalid_request

unfoldable pub new_election : ℤ → ℤ → MsgCreateElection → CredentialTemplate → Election
new_election now start m t = record {
  id = m.id;
  creator = m.creator;
  title = m.title;
  options = m.options;
  required_template_id = m.required_template_id;
  required_issuer_did = t.owner_did;
  voting_start = start;
  voting_end = m.voting_end;
  status = Types.open_status;
  option_tallies = zeros m.options;
  total_votes = 0;
  created_at = now;
}

unfoldable pub create_election :
    ℕ → Map Text CredentialTemplate → MsgCreateElection → VotingStore → Result Error VotingStore
create_election block_time templates m s = do
  fail_if (has_election m.id s) Types.election_exists
  let p = get_params s
  fail_if (ltb p.max_options (length m.options % 2 ^ 32)) Types.invalid_request
  let start = if int_eq.matches m.voting_start (pos 0) then pos block_time else m.voting_start
  check_window start m.voting_end p
  t ← or_fail (lookup m.required_template_id templates) Types.invalid_request
  fail_if (t.issuer_bbs_pubkey == empty_text) Types.template_missing_key
  fail_if (not (m.required_issuer_did == empty_text) && not (m.required_issuer_did == t.owner_did))
      Types.invalid_request
  ok (set_election (new_election (pos block_time) start m t) s)

-- Whether an election takes an option at a time.
unfoldable pub check_open : ℤ → ℕ → Election → Result Error (Unit {0})
check_open now option e = do
  fail_if (not (is_open_status e.status)) Types.election_not_open
  fail_if (ltb_ℤ now e.voting_start) Types.voting_not_started
  fail_if (ltb_ℤ e.voting_end now) Types.voting_ended
  fail_if (leb (length e.options) option || leb (length e.option_tallies) option)
      Types.invalid_option

-- The ballot of a message, and the election with one more vote.
unfoldable pub recorded : ℤ → MsgCastVote → Election → VotingStore → VotingStore
recorded now m e s =
    set_election
      (record e {
        option_tallies = count_one m.option_index e.option_tallies;
        total_votes = (e.total_votes + 1) % 2 ^ 64;
      })
      (set_ballot
        (record {
          election_id = m.election_id;
          nullifier = m.nullifier;
          option_index = m.option_index;
          cast_at = now;
        })
        s)

-- The election that its creator may end.
unfoldable pub ending : Text → Text → VotingStore → Result Error Election
ending creator id s = do
  e ← or_fail (get_election id s) Types.election_not_found
  fail_if (not (e.creator == creator)) Types.unauthorized
  fail_if (not (is_open_status e.status)) Types.election_not_open
  ok e

unfoldable pub close_election : Text → Text → VotingStore → Result Error VotingStore
close_election creator id s = do
  e ← ending creator id s
  ok (set_election (record e { status = Types.closed }) s)

unfoldable pub cancel_election : Text → Text → VotingStore → Result Error VotingStore
cancel_election creator id s = do
  e ← ending creator id s
  fail_if (ltb 0 e.total_votes) Types.election_has_votes
  ok (set_election (record e { status = Types.cancelled }) s)

module _ ⦃keeper : VotingKeeper⦄ where
  unfoldable pub check_nullifier_shape : Text → Result Error (Unit {0})
  check_nullifier_shape nullifier =
      fail_if (keeper.strict_nullifiers && not (text_length nullifier == 48))
        Types.invalid_nullifier

  unfoldable pub cast_guards :
      ℤ
      → Map Text CredentialTemplate
      → MsgCastVote
      → Election
      → VotingStore
      → Result Error (Unit {0})
  cast_guards now templates m e s = do
    check_open now m.option_index e
    fail_if (ltb (get_params s).max_proof_size_bytes (text_length m.eligibility_proof % 2 ^ 32))
        Types.proof_too_large
    t ← find_template e.required_template_id templates
    check_nullifier_shape m.nullifier
    fail_if (has_ballot m.election_id m.nullifier s) Types.nullifier_used
    fail_if
        (not (
          keeper.verify_derivation_vote m.eligibility_proof t.issuer_bbs_pubkey keeper.chain_id
            m.election_id m.nullifier (u32_be m.option_index)))
        Types.eligibility_failed
    fail_if (e.total_votes == 2 ^ 64 - 1 || tally_at m.option_index e.option_tallies == 2 ^ 64 - 1)
        Types.invalid_request

  unfoldable pub cast_vote :
      ℕ → Map Text CredentialTemplate → MsgCastVote → VotingStore → Result Error VotingStore
  cast_vote block_time templates m s = do
    fail_if (not keeper.soundness_enforced) Types.voting_not_sound
    e ← or_fail (get_election m.election_id s) Types.election_not_found
    cast_guards (pos block_time) templates m e s
    ok (recorded (pos block_time) m e s)

  unfoldable pub update_params : Text → Params → VotingStore → Result Error VotingStore
  update_params authority p s = do
    fail_if (not (authority == keeper.authority)) Types.invalid_signer
    set_params p s
