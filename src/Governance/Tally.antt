-- ===== src/Governance/Tally.antt =====
-- x/governance/keeper/tally_state.go: the running tally of the public route, kept ballot by ballot. A
-- key is the proposal's id, of a fixed width, and an option's byte or the voter's address.
pub mod Recount
pub mod Record
use phi_chain.Base.{
  ℕ, ◌+◌, ◌-◌, ◌%◌, ◌^◌, Bool, true, false, not, ◌&&◌, Option, none, some, List, [], ◌∷◌, ◌==◌, ltb,
  if◌then◌else◌, ℤ, pos, negsuc, Map, lookup, insert, nat_eq, pair_eq,
}
use phi_chain.Sdk.{Addr}

pub record FrozenEligibility : Type 0 where
  pub denominator : ℕ
  pub cutoff : ℤ
  pub frozen_at : ℤ

pub record TallyStore : Type 0 where
  pub tally_counts : Map (ℕ × ℕ) ℕ
  pub tally_turnout : Map ℕ ℕ
  pub counted_votes : Map (ℕ × Addr) ℕ
  pub proposal_eligibility : Map ℕ FrozenEligibility

abbrev pub ineligible_vote_marker : ℕ
ineligible_vote_marker = 255

abbrev or_zero : Option ℕ → ℕ
or_zero none = 0
or_zero (some n) = n

-- uint64 arithmetic: a sum wraps, a difference stops at zero. (`delta` is +1 or -1.)
unfoldable pub apply_delta : ℕ → ℤ → ℕ
apply_delta cur (pos d) = (cur + d) % 2 ^ 64
apply_delta cur (negsuc d) = if ltb cur (d + 1) then 0 else cur - (d + 1)

unfoldable pub option_count : ℕ → ℕ → TallyStore → ℕ
option_count proposal_id option s = or_zero (lookup (proposal_id, option % 2 ^ 8) s.tally_counts)

unfoldable pub turnout : ℕ → TallyStore → ℕ
turnout proposal_id s = or_zero (lookup proposal_id s.tally_turnout)

unfoldable pub add_option_count : ℕ → ℕ → ℤ → TallyStore → TallyStore
add_option_count proposal_id option delta s = record s {
  tally_counts =
      insert (proposal_id, option % 2 ^ 8) (apply_delta (option_count proposal_id option s) delta)
        s.tally_counts;
}

unfoldable pub add_turnout : ℕ → ℤ → TallyStore → TallyStore
add_turnout proposal_id delta s = record s {
  tally_turnout = insert proposal_id (apply_delta (turnout proposal_id s) delta) s.tally_turnout;
}

unfoldable pub get_counted_vote : ℕ → Addr → TallyStore → Option ℕ
get_counted_vote proposal_id voter s = lookup (proposal_id, voter) s.counted_votes

unfoldable pub set_counted_vote : ℕ → Addr → ℕ → TallyStore → TallyStore
set_counted_vote proposal_id voter marker s = record s {
  counted_votes = insert (proposal_id, voter) marker s.counted_votes;
}

-- The ballot is added to its option and recorded.
unfoldable pub count_ballot : ℕ → Addr → ℕ → TallyStore → TallyStore
count_ballot proposal_id voter option s =
    set_counted_vote proposal_id voter (option % 2 ^ 8)
      (add_option_count proposal_id option (pos 1) s)

-- `RecordVote`: whether the ballot is counted, and the store after it. The option is not negative.
unfoldable pub record_vote : ℕ → Addr → ℕ → Bool → TallyStore → Bool × TallyStore
unfolding count_ballot
record_vote proposal_id voter option eligible s = elim (get_counted_vote proposal_id voter s) [
  | none ↦
      if eligible
      then (true, count_ballot proposal_id voter option (add_turnout proposal_id (pos 1) s))
      else (false, set_counted_vote proposal_id voter ineligible_vote_marker s)
  | some prev ↦
      if prev == ineligible_vote_marker then (false, s) else if prev == option then (true, s) else (
        true,
        count_ballot proposal_id voter option (add_option_count proposal_id prev (negsuc 0) s),
      )
]
