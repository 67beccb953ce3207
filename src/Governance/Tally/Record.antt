-- ===== src/Governance/Tally/Record.antt =====
-- The running tally of a proposal is the count of its stored ballots.
use phi_chain.Base.{
  ℕ, ◌+◌, ◌%◌, ◌^◌, ◌<◌, ◌≡◌, ◌≢◌, refl, arith, Bool, false, not, ◌&&◌, none, some, ◌==◌,
  if◌then◌else◌, ℤ, pos, negsuc, lookup, insert, lookup-insert, nat_eq, pair_eq, length, Bool-cases,
  Option-cases, inl, inr,
}
use phi_chain.Sdk.{Addr}
use phi_chain.Governance.Tally.{
  TallyStore, ineligible_vote_marker, apply_delta, option_count, turnout, add_option_count,
  add_turnout, get_counted_vote, set_counted_vote, count_ballot, record_vote,
}
use phi_chain.Governance.Tally.Recount.{recount, recount-insert, recount-le-length}

abbrev pub under : ℕ → ℕ → Bool
under option marker = marker == option

abbrev pub is_counted : ℕ → Bool
is_counted marker = not (marker == ineligible_vote_marker)

-- Every count of an option, and every turnout, is the number of the stored ballots that it stands for.
pub record IsTallied (s : TallyStore) : Type 0 where
  pub options :
      (p option : ℕ)
      → option < ineligible_vote_marker
      → option_count p option s ≡ recount (under option) p s.counted_votes
  pub total : (p : ℕ) → turnout p s ≡ recount is_counted p s.counted_votes
  pub bytes : (p marker : ℕ) (v : Addr) → get_counted_vote p v s ≡ some marker → marker < 2 ^ 8

option_count-add_option_count :
    (p q option option' : ℕ) (delta : ℤ) (s : TallyStore)
    → option < 256
    → option' < 256
    → option_count p option' (add_option_count q option delta s) ≡ (
        if (q == p) && (option == option')
        then apply_delta (option_count q option s) delta
        else option_count p option' s)
unfolding option_count add_option_count
option_count-add_option_count p q option option' delta s h k = ground (
  arith,
  lookup-insert (q, option % 2 ^ 8) (p, option' % 2 ^ 8)
      (apply_delta (option_count q option s) delta) s.tally_counts,
)

turnout-add_turnout :
    (p q : ℕ) (delta : ℤ) (s : TallyStore)
    → turnout p (add_turnout q delta s)
      ≡ (if q == p then apply_delta (turnout q s) delta else turnout p s)
unfolding turnout add_turnout
turnout-add_turnout p q delta s =
    ground (arith, lookup-insert q p (apply_delta (turnout q s) delta) s.tally_turnout)

bytes-insert :
    (q p marker m : ℕ) (v w : Addr) (s : TallyStore)
    → IsTallied s
    → marker < 2 ^ 8
    → lookup (p, w) (insert (q, v) marker s.counted_votes) ≡ some m
    → m < 2 ^ 8
unfolding get_counted_vote
bytes-insert q p marker m v w s t h e =
    ground (arith, e, lookup-insert (q, v) (p, w) marker s.counted_votes, t.bytes p m w)

module _ (q : ℕ) (v : Addr) (option : ℕ) (s : TallyStore) (t : IsTallied s)
    (known : option < ineligible_vote_marker) (room : length s.counted_votes + 1 < 2 ^ 64) where
  first_ballot :
      get_counted_vote q v s ≡ none → IsTallied (count_ballot q v option (add_turnout q (pos 1) s))
  unfolding count_ballot set_counted_vote get_counted_vote apply_delta add_option_count add_turnout
      option_count turnout
  first_ballot new = record {
    options = λ p o k. ground (
      arith,
      option_count-add_option_count p q option o (pos 1) s (omega arith) (omega arith),
      t.options p o k,
      t.options q option known,
      recount-insert (under o) p q v (option % 2 ^ 8) s.counted_votes,
      recount-le-length (under option) q s.counted_votes,
    );
    total = λ p. ground (
      arith,
      turnout-add_turnout p q (pos 1) s,
      t.total p,
      recount-insert is_counted p q v (option % 2 ^ 8) s.counted_votes,
      recount-le-length is_counted p s.counted_votes,
    );
    bytes = λ p m w e. bytes-insert q p (option % 2 ^ 8) m v w s t (omega arith) e;
  }

  changed_ballot :
      (prev : ℕ)
      → get_counted_vote q v s ≡ some prev
      → prev ≢ ineligible_vote_marker
      → prev ≢ option
      → IsTallied (count_ballot q v option (add_option_count q prev (negsuc 0) s))
  unfolding count_ballot set_counted_vote get_counted_vote apply_delta add_option_count add_turnout
      option_count turnout
  changed_ballot prev old eligible other = record {
    options = λ p o k. ground (
      arith,
      option_count-add_option_count p q option o (pos 1) (add_option_count q prev (negsuc 0) s)
          (omega arith) (omega arith),
      option_count-add_option_count p q prev o (negsuc 0) s (t.bytes q prev v old) (omega arith),
      option_count-add_option_count q q prev option (negsuc 0) s (t.bytes q prev v old)
          (omega arith),
      t.options p o k,
      t.options q option known,
      t.options q prev,
      t.bytes q prev v old,
      recount-insert (under o) p q v (option % 2 ^ 8) s.counted_votes,
      recount-insert (under prev) q q v (option % 2 ^ 8) s.counted_votes,
      recount-le-length (under option) q s.counted_votes,
    );
    total = λ p. ground (
      arith,
      t.total p,
      t.bytes q prev v old,
      recount-insert is_counted p q v (option % 2 ^ 8) s.counted_votes,
    );
    bytes = λ p m w e. bytes-insert q p (option % 2 ^ 8) m v w s t (omega arith) e;
  }

  ineligible_ballot :
      get_counted_vote q v s ≡ none → IsTallied (set_counted_vote q v ineligible_vote_marker s)
  unfolding set_counted_vote get_counted_vote option_count turnout
  ineligible_ballot new = record {
    options = λ p o k. ground (
      arith,
      t.options p o k,
      recount-insert (under o) p q v ineligible_vote_marker s.counted_votes,
    );
    total = λ p.
        ground (
          arith,
          t.total p,
          recount-insert is_counted p q v ineligible_vote_marker s.counted_votes,
        );
    bytes = λ p m w e. bytes-insert q p ineligible_vote_marker m v w s t (omega arith) e;
  }

  -- Whatever ballot comes next, first or changed, eligible or not, with an option below the
  -- ineligible marker and with room for one more ballot below 2 ^ 64: every option's count and every
  -- turnout stay the number of the stored ballots that they stand for.
  pub record_vote-IsTallied : (eligible : Bool) → IsTallied (record_vote q v option eligible s).1
  unfolding record_vote
  record_vote-IsTallied eligible = elim (Option-cases (get_counted_vote q v s)) [
    | inl new ↦ elim (Bool-cases eligible) [
      | inl may ↦ rw (record_vote, new, may) (first_ballot new)
      | inr may_not ↦ rw (record_vote, new, may_not) (ineligible_ballot new)
    ]
    | inr (prev, old) ↦ elim (Bool-cases (prev == ineligible_vote_marker)) [
      | inl barred ↦ rw (record_vote, old, barred) t
      | inr free ↦ elim (Bool-cases (prev == option)) [
        | inl same ↦ rw (record_vote, old, free, same) t
        | inr other ↦
            rw (record_vote, old, free, other)
              (changed_ballot prev old (λ e. absurd (ground arith)) (λ e. absurd (ground arith)))
      ]
    ]
  ]

get_counted_vote-set_counted_vote :
    (q : ℕ) (v : Addr) (marker : ℕ) (s : TallyStore)
    → get_counted_vote q v (set_counted_vote q v marker s) ≡ some marker
unfolding set_counted_vote get_counted_vote
get_counted_vote-set_counted_vote q v marker s =
    ground (arith, lookup-insert (q, v) (q, v) marker s.counted_votes)

get_counted_vote-count_ballot :
    (q : ℕ) (v : Addr) (option : ℕ) (s : TallyStore)
    → option < ineligible_vote_marker
    → get_counted_vote q v (count_ballot q v option s) ≡ some option
unfolding count_ballot
get_counted_vote-count_ballot q v option s known = ground (
  arith,
  get_counted_vote-set_counted_vote q v (option % 2 ^ 8) (add_option_count q option (pos 1) s),
)

-- What is stored for the voter after a ballot is its option where it was counted, and the ineligible
-- marker where it was not; a voter whose first ballot was refused is never counted later.
pub record_vote-stored :
    (q : ℕ) (v : Addr) (option : ℕ) (eligible : Bool) (s : TallyStore)
    → option < ineligible_vote_marker
    → let r = record_vote q v option eligible s in
      (get_counted_vote q v r.1 ≡ some (if r.0 then option else ineligible_vote_marker))
      × (get_counted_vote q v s ≡ some ineligible_vote_marker → r ≡ (false, s))
unfolding record_vote
record_vote-stored q v option eligible s known = elim (Option-cases (get_counted_vote q v s)) [
  | inl new ↦ elim (Bool-cases eligible) [
    | inl may ↦
        rw (record_vote, new, may)
          (get_counted_vote-count_ballot q v option _ known, λ e. absurd (ground arith))
    | inr may_not ↦
        rw (record_vote, new, may_not)
          (
            get_counted_vote-set_counted_vote q v ineligible_vote_marker s,
            λ e. absurd (ground arith),
          )
  ]
  | inr (prev, old) ↦ elim (Bool-cases (prev == ineligible_vote_marker)) [
    | inl barred ↦ rw (record_vote, old, barred) (ground arith, λ e. refl)
    | inr free ↦ elim (Bool-cases (prev == option)) [
      | inl same ↦ rw (record_vote, old, free, same) (ground arith, λ e. absurd (ground arith))
      | inr other ↦
          rw (record_vote, old, free, other)
            (get_counted_vote-count_ballot q v option _ known, λ e. absurd (ground arith))
    ]
  ]
]
