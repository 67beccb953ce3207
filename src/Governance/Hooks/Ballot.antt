-- ===== src/Governance/Hooks/Ballot.antt =====
-- Proofs about the ballots that x/gov reports.
use phi_chain.Base.{
  ℕ, ◌+◌, ◌<◌, ◌^◌, ◌≡◌, ◌==◌, ◌≢◌, refl, sym, ap, ◌∙◌, subst, inl, inr, arith, Bool, true, false,
  Option, some, List, [], ◌∷◌, ℤ, pos, Map, lookup, lookup-insert, nat_eq, All, length, ok,
  Option-cases, Bool-cases,
}
use phi_chain.Sdk.{Text, Addr}
use phi_chain.Governance.Routes.Public.{VoteRoute-cases}
use phi_chain.Governance.Routes.{VoteRoute, vote_route_technical}
use phi_chain.Governance.Tally.{
  FrozenEligibility, TallyStore, option_count, turnout, get_counted_vote, set_counted_vote,
  add_option_count, add_turnout, count_ballot, record_vote, ineligible_vote_marker,
}
use phi_chain.Governance.Tally.Record.{IsTallied, record_vote-IsTallied}
use phi_chain.Governance.Hooks.{
  Sources, Proposal, WeightedVoteOption, Best, option_abstain, compare_weight, best_from,
  dominant_option, freeze_eligibility_once, route_of, record_public, record_technical,
  record_ballot,
}

abbrev pub IsKnown : WeightedVoteOption → Type 0
IsKnown o = o.option < ineligible_vote_marker

best_from-known :
    (new_dec_from_str : Text → Option ℤ) (opts : List WeightedVoteOption) (b : Best)
    → All IsKnown opts
    → b.best < ineligible_vote_marker
    → (best_from new_dec_from_str opts b).best < ineligible_vote_marker
unfolding best_from compare_weight
best_from-known read [] b known h = h
best_from-known read (o ∷ opts) b known h =
    best_from-known read opts (compare_weight o.option (read o.weight) b) known.1
      (ground (arith, known.0))

pub dominant_option-known :
    (new_dec_from_str : Text → Option ℤ) (opts : List WeightedVoteOption)
    → All IsKnown opts
    → dominant_option new_dec_from_str opts < ineligible_vote_marker
unfolding dominant_option
dominant_option-known read opts known = ground (
  arith,
  best_from-known read opts (record { best = option_abstain; best_w = pos 0; tie = false }) known
      (omega arith),
)

-- The frozen basis of a proposal, as it is stored.
abbrev pub basis_of : Proposal → TallyStore → Option FrozenEligibility
basis_of p s = lookup p.id s.proposal_eligibility

IsTallied-with_basis :
    (s : TallyStore) (m : Map ℕ FrozenEligibility)
    → IsTallied s
    → IsTallied (record s { proposal_eligibility = m })
unfolding option_count turnout get_counted_vote
IsTallied-with_basis s m t = record { options = t.options; total = t.total; bytes = t.bytes }

record_vote-eligibility :
    (q : ℕ) (v : Addr) (option : ℕ) (eligible : Bool) (s : TallyStore)
    → (record_vote q v option eligible s).1.proposal_eligibility ≡ s.proposal_eligibility
unfolding record_vote count_ballot set_counted_vote add_option_count add_turnout
record_vote-eligibility q v option eligible s = elim (Option-cases (get_counted_vote q v s)) [
  | inl new ↦ elim (Bool-cases eligible) [
    | inl may ↦ rw (record_vote, new, may) refl
    | inr may_not ↦ rw (record_vote, new, may_not) refl
  ]
  | inr (prev, old) ↦ elim (Bool-cases (prev == ineligible_vote_marker)) [
    | inl barred ↦ rw (record_vote, old, barred) refl
    | inr free ↦ elim (Bool-cases (prev == option)) [
      | inl same ↦ rw (record_vote, old, free, same) refl
      | inr other ↦ rw (record_vote, old, free, other) refl
    ]
  ]
]

-- The basis is stored, a basis that was there before is kept, and no ballot changes.
record Frozen (p : Proposal) (s : TallyStore) (basis : FrozenEligibility) (s' : TallyStore)
    : Type 0 where
  stored : basis_of p s' ≡ some basis
  kept : (before : FrozenEligibility) → basis_of p s ≡ some before → basis ≡ before
  tallied : IsTallied s → IsTallied s'
  ballots : s'.counted_votes ≡ s.counted_votes

freeze_eligibility_once-Frozen :
    (src : Sources) (block_time : ℤ) (p : Proposal) (s : TallyStore)
    → let r = freeze_eligibility_once src block_time p s in Frozen p s r.0 r.1
unfolding freeze_eligibility_once
freeze_eligibility_once-Frozen src block_time p s =
    elim (Option-cases (lookup p.id s.proposal_eligibility)) [
      | inl new ↦
          rw (freeze_eligibility_once, new)
            (record {
              stored = rw (lookup-insert p.id p.id) (ground arith);
              kept = λ before e. absurd (ground arith);
              tallied = λ t. IsTallied-with_basis s _ t;
              ballots = refl;
            })
      | inr (basis, old) ↦
          rw (freeze_eligibility_once, old)
            (record {
              stored = old;
              kept = λ before e. ground (arith, old, e);
              tallied = λ t. t;
              ballots = refl;
            })
    ]

-- What a ballot that x/gov reports leads to where it is not refused: the proposal has a stored basis,
-- the one it had before if it had one, the tally is still the count of the ballots, and the voter was
-- eligible for the proposal's route.
pub record Accepted (src : Sources) (table : Map Text VoteRoute) (p : Proposal) (voter : Text)
    (voter_addr : Addr) (s s' : TallyStore) (basis : FrozenEligibility) : Type 0 where
  pub stored : basis_of p s' ≡ some basis
  pub kept : (before : FrozenEligibility) → basis_of p s ≡ some before → basis ≡ before
  pub tallied : IsTallied s'
  pub public_voter :
      route_of table p ≢ vote_route_technical
      → src.is_eligible_controller_since voter basis.cutoff basis.frozen_at ≡ true
  pub validator :
      route_of table p ≡ vote_route_technical
      → (src.is_active_validator_operator voter_addr ≡ true) × (s'.counted_votes ≡ s.counted_votes)

module _ (read : Text → Option ℤ) (src : Sources) (p : Proposal) (voter : Text) (voter_addr : Addr)
    (options : List WeightedVoteOption) where
  public_ballot :
      (basis : FrozenEligibility) (s s' : TallyStore)
      → All IsKnown options
      → length s.counted_votes + 1 < 2 ^ 64
      → IsTallied s
      → record_public read src basis p voter voter_addr options s ≡ ok s'
      → IsTallied s'
        × (s'.proposal_eligibility ≡ s.proposal_eligibility)
        × (src.is_eligible_controller_since voter basis.cutoff basis.frozen_at ≡ true)
  unfolding record_public dominant_option
  public_ballot basis s s' known room t h =
      let eligible : src.is_eligible_controller_since voter basis.cutoff basis.frozen_at ≡ true =
        ground arith in
      let option = dominant_option read options in
      let same : (record_vote p.id voter_addr option true s).1 ≡ s' = ground arith in
      rw (← same) (
        record_vote-IsTallied p.id voter_addr option s t (dominant_option-known read options known)
            room true,
        record_vote-eligibility p.id voter_addr option true s,
        eligible,
      )

  technical_ballot :
      (s s' : TallyStore)
      → record_technical src voter_addr s ≡ ok s'
      → (s' ≡ s) × (src.is_active_validator_operator voter_addr ≡ true)
  unfolding record_technical
  technical_ballot s s' h = (ground arith, ground arith)

  Accepted-public :
      (table : Map Text VoteRoute) (basis : FrozenEligibility) (s frozen s' : TallyStore)
      → Frozen p s basis frozen
      → route_of table p ≢ vote_route_technical
      → All IsKnown options
      → length s.counted_votes + 1 < 2 ^ 64
      → IsTallied s
      → record_public read src basis p voter voter_addr options frozen ≡ ok s'
      → Accepted src table p voter voter_addr s s' basis
  Accepted-public table basis s frozen s' f public known room t h =
      let room_frozen = subst (λ m. length m + 1 < 2 ^ 64) (sym f.ballots) room in
      let (tallied, same, eligible) =
        public_ballot basis frozen s' known room_frozen (f.tallied t) h in
      record {
        stored = ap (lookup p.id) same ∙ f.stored;
        kept = f.kept;
        tallied = tallied;
        public_voter = λ _. eligible;
        validator = λ technical. absurd (public technical);
      }

  Accepted-technical :
      (table : Map Text VoteRoute) (basis : FrozenEligibility) (s frozen s' : TallyStore)
      → Frozen p s basis frozen
      → route_of table p ≡ vote_route_technical
      → IsTallied s
      → record_technical src voter_addr frozen ≡ ok s'
      → Accepted src table p voter voter_addr s s' basis
  Accepted-technical table basis s frozen s' f technical t h =
      let (same, active) = technical_ballot frozen s' h in
      rw same (record {
        stored = f.stored;
        kept = f.kept;
        tallied = f.tallied t;
        public_voter = λ public. absurd (public technical);
        validator = λ _. (active, f.ballots);
      })

  -- A ballot that is not refused keeps the tally the count of the stored ballots, is judged against
  -- the basis that is stored for the proposal and never replaced, and comes from a voter of the
  -- proposal's route. (The options are x/gov's, and there is room for one more ballot below 2 ^ 64.)
  pub record_ballot-Accepted :
      (table : Map Text VoteRoute) (block_time : ℤ) (s s' : TallyStore)
      → All IsKnown options
      → length s.counted_votes + 1 < 2 ^ 64
      → IsTallied s
      → record_ballot read src table block_time p voter voter_addr options s ≡ ok s'
      → (basis : FrozenEligibility) × Accepted src table p voter voter_addr s s' basis
  unfolding record_ballot
  record_ballot-Accepted table block_time s s' known room t h =
      let (basis, frozen) = freeze_eligibility_once src block_time p s in
      let f = freeze_eligibility_once-Frozen src block_time p s in
      elim (VoteRoute-cases (route_of table p)) [
        | inl e ↦ (
          basis,
          Accepted-public table basis s frozen s' f (λ x. absurd (ground (arith, e, x))) known room
              t (ground (arith, e, h)),
        )
        | inr (inl e) ↦
            (basis, Accepted-technical table basis s frozen s' f e t (ground (arith, e, h)))
        | inr (inr e) ↦ (
          basis,
          Accepted-public table basis s frozen s' f (λ x. absurd (ground (arith, e, x))) known room
              t (ground (arith, e, h)),
        )
      ]
