-- ===== src/Voting/Service/Effects.antt =====
-- x/voting: what a message that goes through has done to the store.
use phi_chain.Base.{
  ℕ, ◌-◌, ◌^◌, ◌<◌, ◌≡◌, inl, inr, arith, true, false, none, some, length, ◌==◌, if◌then◌else◌, ℤ,
  pos, Map, lookup, int_eq, nat_eq, pair_eq, lookup-insert, Option-cases, ok, Result-cases,
}
use phi_chain.Sdk.{Text, Sdk}
use phi_chain.Voting.Types
use phi_chain.Credentials.Types.{CredentialTemplate}
use phi_chain.Voting.Types.{
  Election, Ballot, Params, MsgCreateElection, MsgCastVote, Error, VotingStore, is_open_status,
}
use phi_chain.Voting.Handlers.{
  VotingKeeper, get_election, has_election, set_election, set_ballot, has_ballot, set_params,
  new_election, create_election, check_open, find_template, cast_guards, recorded, cast_vote,
  ending, close_election, cancel_election, update_params,
}
use phi_chain.Voting.Service.{VotingMsg, create, cast, close_poll, cancel_poll, set_rules, handle}

-- What a message that goes through has done.
pub data Effect (s t : VotingStore) : Type 0 where
  ruled : t.elections ≡ s.elections → t.ballots ≡ s.ballots → Effect s t
  opened :
      (now start : ℤ) (m : MsgCreateElection) (template : CredentialTemplate)
      → lookup m.id s.elections ≡ none
      → t ≡ set_election (new_election now start m template) s
      → Effect s t
  ended :
      (id : Text) (e : Election) (status : Types.ElectionStatus)
      → lookup id s.elections ≡ some e
      → is_open_status e.status ≡ true
      → t ≡ set_election (record e { status = status }) s
      → Effect s t
  voted :
      (now : ℤ) (m : MsgCastVote) (e : Election)
      → lookup m.election_id s.elections ≡ some e
      → is_open_status e.status ≡ true
      → m.option_index < length e.option_tallies
      → (e.total_votes == 2 ^ 64 - 1) ≡ false
      → lookup (m.election_id, m.nullifier) s.ballots ≡ none
      → t ≡ recorded now m e s
      → Effect s t

create_election-Effect :
    (block_time : ℕ) (templates : Map Text CredentialTemplate) (m : MsgCreateElection)
    (s t : VotingStore)
    → create_election block_time templates m s ≡ ok t
    → Effect s t
unfolding create_election has_election
create_election-Effect block_time templates m s t h =
    elim (Option-cases (lookup m.required_template_id templates)) [
      | inl missing ↦ absurd (ground (arith, h, missing))
      | inr (template, e) ↦
          opened (pos block_time)
            (if int_eq.matches m.voting_start (pos 0) then pos block_time else m.voting_start) m
            template (ground (arith, h)) (ground (arith, h, e))
    ]

ending-eq-ok :
    (creator id : Text) (s : VotingStore) (e : Election)
    → ending creator id s ≡ ok e
    → (lookup id s.elections ≡ some e) × (e.creator ≡ creator) × (is_open_status e.status ≡ true)
unfolding ending get_election
ending-eq-ok creator id s e h = (ground (arith, h), ground (arith, h), ground (arith, h))

close_election-Effect :
    (creator id : Text) (s t : VotingStore) → close_election creator id s ≡ ok t → Effect s t
unfolding close_election
close_election-Effect creator id s t h = elim (Result-cases (ending creator id s)) [
  | inr (reason, failed) ↦ absurd (ground (arith, h, failed))
  | inl (e, found) ↦
      let g = ending-eq-ok creator id s e found in
      ended id e Types.closed g.0 g.2 (ground (arith, h, found))
]

cancel_election-Effect :
    (creator id : Text) (s t : VotingStore) → cancel_election creator id s ≡ ok t → Effect s t
unfolding cancel_election
cancel_election-Effect creator id s t h = elim (Result-cases (ending creator id s)) [
  | inr (reason, failed) ↦ absurd (ground (arith, h, failed))
  | inl (e, found) ↦
      let g = ending-eq-ok creator id s e found in
      ended id e Types.cancelled g.0 g.2 (ground (arith, h, found))
]

check_open-eq-ok :
    (now : ℤ) (option : ℕ) (e : Election)
    → check_open now option e ≡ ok tt
    → (is_open_status e.status ≡ true) × (option < length e.option_tallies)
unfolding check_open
check_open-eq-ok now option e h = (ground (arith, h), ground (arith, h))

ballot_of :
    (m : MsgCastVote) (s : VotingStore)
    → has_ballot m.election_id m.nullifier s ≡ false
    → lookup (m.election_id, m.nullifier) s.ballots ≡ none
unfolding has_ballot
ballot_of m s h = ground arith

module _ ⦃keeper : VotingKeeper⦄ where
  cast_guards-eq-ok :
      (now : ℤ) (templates : Map Text CredentialTemplate) (m : MsgCastVote) (e : Election)
      (s : VotingStore)
      → cast_guards now templates m e s ≡ ok tt
      → (check_open now m.option_index e ≡ ok tt)
        × (has_ballot m.election_id m.nullifier s ≡ false)
        × ((e.total_votes == 2 ^ 64 - 1) ≡ false)
  unfolding cast_guards
  cast_guards-eq-ok now templates m e s h =
      elim (Result-cases (find_template e.required_template_id templates)) [
        | inr (reason, failed) ↦ absurd (ground (arith, h, failed))
        | inl (t, found) ↦
            (ground (arith, h, found), ground (arith, h, found), ground (arith, h, found))
      ]

  pub cast_vote-eq-ok :
      (block_time : ℕ) (templates : Map Text CredentialTemplate) (m : MsgCastVote)
      (s t : VotingStore)
      → cast_vote block_time templates m s ≡ ok t
      → (e : Election) × (lookup m.election_id s.elections ≡ some e)
        × (cast_guards (pos block_time) templates m e s ≡ ok tt)
        × (t ≡ recorded (pos block_time) m e s)
  unfolding cast_vote get_election
  cast_vote-eq-ok block_time templates m s t h =
      elim (Option-cases (lookup m.election_id s.elections)) [
        | inl missing ↦ absurd (ground (arith, h, missing))
        | inr (e, found) ↦ (e, found, ground (arith, h, found), ground (arith, h, found))
      ]

  module _ ⦃sdk : Sdk⦄ where
    pub handle-Effect :
        (block_time : ℕ) (templates : Map Text CredentialTemplate) (m : VotingMsg)
        (s t : VotingStore)
        → handle block_time templates m s ≡ ok t
        → Effect s t
    unfolding handle update_params set_params
    handle-Effect block_time templates (create m) s t h =
        create_election-Effect block_time templates m s t (ground (arith, h))
    handle-Effect block_time templates (cast m) s t h =
        let (e, found, guards, new) =
          cast_vote-eq-ok block_time templates m s t (ground (arith, h)) in
        let (is_open, fresh, room) = cast_guards-eq-ok (pos block_time) templates m e s guards in
        let o = check_open-eq-ok (pos block_time) m.option_index e is_open in
        voted (pos block_time) m e found o.0 o.1 room (ballot_of m s fresh) new
    handle-Effect block_time templates (close_poll creator id) s t h =
        close_election-Effect creator id s t (ground (arith, h))
    handle-Effect block_time templates (cancel_poll creator id) s t h =
        cancel_election-Effect creator id s t (ground (arith, h))
    handle-Effect block_time templates (set_rules authority p) s t h =
        ruled (ground (arith, h)) (ground (arith, h))

    -- An accepted vote finds no ballot under its nullifier, and leaves one.
    pub handle-cast :
        (block_time : ℕ) (templates : Map Text CredentialTemplate) (m : MsgCastVote)
        (s t : VotingStore)
        → handle block_time templates (cast m) s ≡ ok t
        → (lookup (m.election_id, m.nullifier) s.ballots ≡ none)
          × (b : Ballot) × (lookup (m.election_id, m.nullifier) t.ballots ≡ some b)
    unfolding handle recorded set_ballot set_election
    handle-cast block_time templates m s t h =
        let (e, found, guards, new) =
          cast_vote-eq-ok block_time templates m s t (ground (arith, h)) in
        let g = cast_guards-eq-ok (pos block_time) templates m e s guards in
        let b : Ballot = record {
          election_id = m.election_id;
          nullifier = m.nullifier;
          option_index = m.option_index;
          cast_at = pos block_time;
        } in
        let key : Text × Text = (m.election_id, m.nullifier) in
        (ballot_of m s g.1, b, rw new (ground (arith, lookup-insert key key b s.ballots)))
