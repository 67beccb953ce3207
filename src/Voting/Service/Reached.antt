-- ===== src/Voting/Service/Reached.antt =====
-- x/voting: the tallies and the ballots in every state that messages reach.
use phi_chain.Base.{
  ℕ, ◌+◌, ◌-◌, ◌%◌, ◌^◌, ◌<◌, ◌≡◌, ◌≢◌, sym, ◌∙◌, ◌⊎◌, inl, inr, arith, true, false, none, some,
  length, ◌==◌, ℤ, Map, lookup, insert, int_eq, nat_eq, pair_eq, lookup-insert, subst, ok,
}
use phi_chain.Sdk.{Text, Sdk}
use phi_chain.Credentials.Types.{CredentialTemplate}
use phi_chain.Voting.Types.{Election, Ballot, MsgCastVote, VotingStore, is_open_status}
use phi_chain.Voting.Handlers.{
  VotingKeeper, set_election, set_ballot, new_election, recorded, count_one,
}
use phi_chain.Voting.Handlers.Tallies.{
  IsCounted, IsTallied, set_election-IsTallied, new_election-IsCounted, IsCounted-insert_other,
  IsCounted-insert, stored-IsTallied, votes_in-insert_other, IsCounted-status,
}
use phi_chain.Voting.Service.{cast, handle, Run, stop, go}
use phi_chain.Voting.Service.Effects.{
  Effect, ruled, opened, ended, voted, handle-Effect, handle-cast,
}

recorded-IsTallied :
    (now : ℤ) (m : MsgCastVote) (e : Election) (s : VotingStore)
    → lookup m.election_id s.elections ≡ some e
    → m.option_index < length e.option_tallies
    → (e.total_votes == 2 ^ 64 - 1) ≡ false
    → lookup (m.election_id, m.nullifier) s.ballots ≡ none
    → IsTallied s
    → IsTallied (recorded now m e s)
unfolding recorded set_election set_ballot
recorded-IsTallied now m e s found inside room fresh t =
    let c = t.counted m.election_id e found in
    let own : e.id ≡ m.election_id = c.own in
    let b : Ballot = record {
      election_id = m.election_id;
      nullifier = m.nullifier;
      option_index = m.option_index;
      cast_at = now;
    } in
    let few : e.total_votes < 2 ^ 64 - 1 = ground (arith, room, c.bound) in
    let now_counted = IsCounted-insert m.election_id m.nullifier b s.ballots fresh e c inside few in
    let f : Election = record e {
      option_tallies = count_one m.option_index e.option_tallies;
      total_votes = (e.total_votes + 1) % 2 ^ 64;
    } in
    let ballots = insert (m.election_id, m.nullifier) b s.ballots in
    stored-IsTallied f s ballots (subst (λ x. IsCounted x f ballots) (sym own) now_counted)
      (λ id d other h.
        IsCounted-insert_other m.election_id m.nullifier b s.ballots fresh id d
          (ground (arith, other, own)) (t.counted id d h))
      (λ id other h.
        votes_in-insert_other m.election_id m.nullifier b s.ballots fresh id
          (ground (arith, other, own))
        ∙ t.known id h)

pub Effect-IsTallied : (s t : VotingStore) → Effect s t → IsTallied s → IsTallied t
unfolding new_election
Effect-IsTallied s t (ruled same_elections same_ballots) i = record {
  counted = λ id e h. rw same_ballots (i.counted id e (rw (← same_elections) h));
  known = λ id h. rw same_ballots (i.known id (rw (← same_elections) h));
}
Effect-IsTallied s t (opened now start m template fresh new) i = rw new (
    set_election-IsTallied (new_election now start m template) s i
      (new_election-IsCounted now start m template s.ballots (i.known m.id fresh)))
Effect-IsTallied s t (ended id e status found is_open new) i = rw new (
    set_election-IsTallied (record e { status = status }) s i
      (IsCounted-status id e status s.ballots (i.counted id e found)))
Effect-IsTallied s t (voted now m e found is_open inside room fresh new) i =
    rw new (recorded-IsTallied now m e s found inside room fresh i)

-- What stays from one state to a later one.
pub record Keeps (s t : VotingStore) : Type 0 where
  pub ballots :
      (id nullifier : Text) (b : Ballot)
      → lookup (id, nullifier) s.ballots ≡ some b
      → lookup (id, nullifier) t.ballots ≡ some b
  pub elections :
      (id : Text) (e : Election)
      → lookup id s.elections ≡ some e
      → is_open_status e.status ≡ false
      → lookup id t.elections ≡ some e

set_election-Keeps :
    (e d : Election) (s : VotingStore)
    → ((lookup d.id s.elections ≡ none)
        ⊎ ((lookup d.id s.elections ≡ some e) × (is_open_status e.status ≡ true)))
    → Keeps s (set_election d s)
unfolding set_election
set_election-Keeps e d s was = record {
  ballots = λ id nullifier b h. h;
  elections = λ id f h final. ground (arith, h, final, was, lookup-insert d.id id d s.elections);
}

ballot_stays :
    (new key : Text × Text) (b old : Ballot) (ballots : Map (Text × Text) Ballot)
    → lookup new ballots ≡ none
    → lookup key ballots ≡ some old
    → lookup key (insert new b ballots) ≡ some old
ballot_stays new key b old ballots fresh h =
    ground (arith, fresh, h, lookup-insert new key b ballots, pair_eq.matches_iff new key)

recorded-Keeps :
    (now : ℤ) (m : MsgCastVote) (e : Election) (s : VotingStore)
    → lookup e.id s.elections ≡ some e
    → is_open_status e.status ≡ true
    → lookup (m.election_id, m.nullifier) s.ballots ≡ none
    → Keeps s (recorded now m e s)
unfolding recorded set_election set_ballot
recorded-Keeps now m e s was is_open fresh =
    let f : Election = record e {
      option_tallies = count_one m.option_index e.option_tallies;
      total_votes = (e.total_votes + 1) % 2 ^ 64;
    } in
    let b : Ballot = record {
      election_id = m.election_id;
      nullifier = m.nullifier;
      option_index = m.option_index;
      cast_at = now;
    } in
    record {
      ballots = λ id nullifier old h.
          ballot_stays (m.election_id, m.nullifier) (id, nullifier) b old s.ballots fresh h;
      elections = (set_election-Keeps e f s (inr (was, is_open))).elections;
    }

pub Effect-Keeps : (s t : VotingStore) → Effect s t → IsTallied s → Keeps s t
unfolding new_election
Effect-Keeps s t (ruled same_elections same_ballots) i = record {
  ballots = λ id nullifier b h. rw same_ballots h;
  elections = λ id e h final. rw same_elections h;
}
Effect-Keeps s t (opened now start m template fresh new) i =
    let e = new_election now start m template in rw new (set_election-Keeps e e s (inl fresh))
Effect-Keeps s t (ended id e status found is_open new) i =
    let own : e.id ≡ id = (i.counted id e found).own in
    rw new (
      set_election-Keeps e (record e { status = status }) s
        (inr (subst (λ x. lookup x s.elections ≡ some e) (sym own) found, is_open)))
Effect-Keeps s t (voted now m e found is_open inside room fresh new) i =
    let own : e.id ≡ m.election_id = (i.counted m.election_id e found).own in
    let was : lookup e.id s.elections ≡ some e =
      subst (λ x. lookup x s.elections ≡ some e) (sym own) found in
    rw new (recorded-Keeps now m e s was is_open fresh)

module _ ⦃sdk : Sdk⦄ ⦃keeper : VotingKeeper⦄ where
  -- The count is right: if the option tallies and the total of each election are the numbers of its
  -- stored ballots, for the option and in all, they are in every state that messages reach.
  pub Run-IsTallied : {s t : VotingStore} → IsTallied s → Run s t → IsTallied t
  Run-IsTallied i stop = i
  Run-IsTallied {s} {t} i (go {t = x} block_time templates m r step) =
      Effect-IsTallied x t (handle-Effect block_time templates m x t step) (Run-IsTallied i r)

  -- From a state whose tallies are right, no message changes or removes a ballot that is stored, nor
  -- anything of an election that is not open any more.
  pub Run-Keeps : {s t : VotingStore} → IsTallied s → Run s t → Keeps s t
  Run-Keeps i stop = record { ballots = λ id nullifier b h. h; elections = λ id e h final. h }
  Run-Keeps {s} {t} i (go {t = x} block_time templates m r step) =
      let before = Run-Keeps i r in
      let after =
        Effect-Keeps x t (handle-Effect block_time templates m x t step) (Run-IsTallied i r) in
      record {
        ballots =
            λ id nullifier b h. after.ballots id nullifier b (before.ballots id nullifier b h);
        elections = λ id e h final. after.elections id e (before.elections id e h final) final;
      }

  -- One credential, one vote: after a vote that was accepted, whatever messages follow, a vote in the
  -- same election with the same nullifier is refused.
  pub no_second_vote :
      (block_time later : ℕ) (templates others : Map Text CredentialTemplate) (m n : MsgCastVote)
      {s t u : VotingStore} (v : VotingStore)
      → IsTallied s
      → handle block_time templates (cast m) s ≡ ok t
      → Run t u
      → n.election_id ≡ m.election_id
      → n.nullifier ≡ m.nullifier
      → handle later others (cast n) u ≢ ok v
  no_second_vote block_time later templates others m n {s} {t} {u} v i first r same_election
        same_nullifier second =
      let (free, b, mine) = handle-cast block_time templates m s t first in
      let (unused, c, stored_later) = handle-cast later others n u v second in
      let tallied =
        Effect-IsTallied s t (handle-Effect block_time templates (cast m) s t first) i in
      let kept = (Run-Keeps tallied r).ballots m.election_id m.nullifier b mine in
      let again : lookup (m.election_id, m.nullifier) u.ballots ≡ none =
        rw (← same_election, ← same_nullifier) unused in
      ground (arith, kept, again)
