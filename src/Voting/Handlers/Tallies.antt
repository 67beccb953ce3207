-- ===== src/Voting/Handlers/Tallies.antt =====
-- x/voting/keeper/msg_server.go: what the handlers do to the tallies of the elections.
use phi_chain.Base.{
  ℕ, ◌+◌, ◌-◌, ◌%◌, ◌^◌, ◌≤◌, ◌<◌, ◌≡◌, refl, sym, inl, inr, arith, false, ◌&&◌, none, some, List,
  [], ◌∷◌, length, ◌==◌, if◌then◌else◌, ℤ, Map, lookup, insert, nat_eq, pair_eq, lookup-insert,
  total_of, total_of-insert_new, Bool-cases, subst,
}
use phi_chain.Sdk.{Text}
use phi_chain.Credentials.Types.{CredentialTemplate}
use phi_chain.Voting.Types.{Election, ElectionStatus, Ballot, MsgCreateElection, VotingStore}
use phi_chain.Voting.Handlers.{set_election, zeros, tally_at, count_one, new_election}

-- The votes of one stored ballot for an option of an election, and in that election.
unfoldable pub votes_for : Text → ℕ → Text × Text → Ballot → ℕ
votes_for id i key b = if (key.0 == id) && (b.option_index == i) then 1 else 0

unfoldable pub votes_in : Text → Text × Text → Ballot → ℕ
votes_in id key b = if key.0 == id then 1 else 0

-- The tallies of an election are the numbers of its stored ballots.
pub record IsCounted (id : Text) (e : Election) (ballots : Map (Text × Text) Ballot) : Type 0 where
  pub own : e.id ≡ id
  pub by_option : (i : ℕ) → tally_at i e.option_tallies ≡ total_of (votes_for id i) ballots
  pub in_all : e.total_votes ≡ total_of (votes_in id) ballots
  pub bound : e.total_votes < 2 ^ 64

pub record IsTallied (s : VotingStore) : Type 0 where
  pub counted :
      (id : Text) (e : Election) → lookup id s.elections ≡ some e → IsCounted id e s.ballots
  pub known : (id : Text) → lookup id s.elections ≡ none → total_of (votes_in id) s.ballots ≡ 0

pub votes_for-le :
    (id : Text) (i : ℕ) (ballots : Map (Text × Text) Ballot)
    → total_of (votes_for id i) ballots ≤ total_of (votes_in id) ballots
unfolding total_of votes_for votes_in
votes_for-le id i [] = omega arith
votes_for-le id i ((key, b) ∷ ballots) = ground (arith, votes_for-le id i ballots)

tally_at-zeros : (i : ℕ) (options : List Text) → tally_at i (zeros options) ≡ 0
unfolding tally_at zeros
tally_at-zeros i [] = refl
tally_at-zeros i (o ∷ options) = ground (arith, tally_at-zeros (i - 1) options)

-- The increment counts at its index, if it is one of the list and has room, and nowhere else.
tally_at-count_one :
    (i j : ℕ) (ns : List ℕ)
    → i < length ns
    → tally_at i ns < 2 ^ 64 - 1
    → tally_at j (count_one i ns) ≡ (if i == j then 1 else 0) + tally_at j ns
unfolding tally_at count_one
tally_at-count_one i j [] h room = absurd (omega (arith, h))
tally_at-count_one i j (n ∷ ns) h room = elim (Bool-cases (i == 0)) [
  | inl first ↦ elim (Bool-cases (j == 0)) [
    | inl same ↦ rw (first, same) (ground (arith, first, same, room))
    | inr other ↦ rw (first, other) (ground (arith, first, other))
  ]
  | inr later ↦ elim (Bool-cases (j == 0)) [
    | inl first ↦ rw (later, first) (ground (arith, later, first))
    | inr other ↦
        let inside : i - 1 < length ns = ground (arith, later, h) in
        let space : tally_at (i - 1) ns < 2 ^ 64 - 1 = ground (arith, later, room) in
        let rest = tally_at-count_one (i - 1) (j - 1) ns inside space in
        rw (later, other) (ground (arith, later, other, rest))
  ]
]

-- An election is stored, with the ballots that come with it.
pub stored-IsTallied :
    (e : Election) (s : VotingStore) (ballots : Map (Text × Text) Ballot)
    → IsCounted e.id e ballots
    → ((id : Text) (d : Election)
        → (e.id == id) ≡ false
        → lookup id s.elections ≡ some d
        → IsCounted id d ballots)
    → ((id : Text)
        → (e.id == id) ≡ false
        → lookup id s.elections ≡ none
        → total_of (votes_in id) ballots ≡ 0)
    → IsTallied (record s { elections = insert e.id e s.elections; ballots = ballots })
stored-IsTallied e s ballots c others unknown = record {
  counted = λ id d h. elim (Bool-cases (e.id == id)) [
    | inl same ↦
        let key : e.id ≡ id = ground (arith, same) in
        let val : e ≡ d = ground (arith, h, same, lookup-insert e.id id e s.elections) in
        subst (λ x. IsCounted id x ballots) val (subst (λ x. IsCounted x e ballots) key c)
    | inr other ↦ others id d other (ground (arith, h, other, lookup-insert e.id id e s.elections))
  ];
  known = λ id h. elim (Bool-cases (e.id == id)) [
    | inl same ↦ absurd (ground (arith, h, same, lookup-insert e.id id e s.elections))
    | inr other ↦ unknown id other (ground (arith, h, other, lookup-insert e.id id e s.elections))
  ];
}

pub set_election-IsTallied :
    (e : Election) (s : VotingStore)
    → IsTallied s
    → IsCounted e.id e s.ballots
    → IsTallied (set_election e s)
unfolding set_election
set_election-IsTallied e s t c =
    stored-IsTallied e s s.ballots c (λ id d other h. t.counted id d h) (λ id other h. t.known id h)

-- The status of an election is no part of its count.
pub IsCounted-status :
    (id : Text) (e : Election) (status : ElectionStatus) (ballots : Map (Text × Text) Ballot)
    → IsCounted id e ballots
    → IsCounted e.id (record e { status = status }) ballots
IsCounted-status id e status ballots c =
    let own : IsCounted e.id e ballots = subst (λ x. IsCounted x e ballots) (sym c.own) c in
    record { own = refl; by_option = own.by_option; in_all = own.in_all; bound = own.bound }

pub new_election-IsCounted :
    (now start : ℤ) (m : MsgCreateElection) (t : CredentialTemplate)
    (ballots : Map (Text × Text) Ballot)
    → total_of (votes_in m.id) ballots ≡ 0
    → IsCounted m.id (new_election now start m t) ballots
unfolding new_election
new_election-IsCounted now start m t ballots h = record {
  own = refl;
  by_option = λ i. omega (arith, h, votes_for-le m.id i ballots, tally_at-zeros i m.options);
  in_all = sym h;
  bound = omega arith;
}

module _ (id nullifier : Text) (b : Ballot) (ballots : Map (Text × Text) Ballot)
    (fresh : lookup (id, nullifier) ballots ≡ none) where
  pub votes_in-insert_other :
      (j : Text)
      → (id == j) ≡ false
      → total_of (votes_in j) (insert (id, nullifier) b ballots) ≡ total_of (votes_in j) ballots
  unfolding votes_in
  votes_in-insert_other j other =
      let step = total_of-insert_new (votes_in j) (id, nullifier) b ballots fresh in
      ground (arith, step, other)

  -- A ballot of another election changes no tally.
  pub IsCounted-insert_other :
      (j : Text) (e : Election)
      → (id == j) ≡ false
      → IsCounted j e ballots
      → IsCounted j e (insert (id, nullifier) b ballots)
  unfolding votes_for votes_in
  IsCounted-insert_other j e other c = record {
    own = c.own;
    by_option = λ i.
        let step = total_of-insert_new (votes_for j i) (id, nullifier) b ballots fresh in
        ground (arith, step, other, c.by_option i);
    in_all = ground (arith, votes_in-insert_other j other, c.in_all);
    bound = c.bound;
  }

  -- A ballot of the election counts once for its option.
  pub IsCounted-insert :
      (e : Election)
      → IsCounted id e ballots
      → b.option_index < length e.option_tallies
      → e.total_votes < 2 ^ 64 - 1
      → IsCounted id
          (record e {
            option_tallies = count_one b.option_index e.option_tallies;
            total_votes = (e.total_votes + 1) % 2 ^ 64;
          })
          (insert (id, nullifier) b ballots)
  unfolding votes_for votes_in
  IsCounted-insert e c inside room = record {
    own = c.own;
    by_option = λ i.
        let step = total_of-insert_new (votes_for id i) (id, nullifier) b ballots fresh in
        let few = votes_for-le id b.option_index ballots in
        let space : tally_at b.option_index e.option_tallies < 2 ^ 64 - 1 =
          omega (arith, few, room, c.in_all, c.by_option b.option_index) in
        let one = tally_at-count_one b.option_index i e.option_tallies inside space in
        ground (arith, step, one, c.by_option i);
    in_all =
        (let step = total_of-insert_new (votes_in id) (id, nullifier) b ballots fresh in
          ground (arith, step, room, c.in_all));
    bound = ground arith;
  }
