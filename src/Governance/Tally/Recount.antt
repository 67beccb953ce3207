-- ===== src/Governance/Tally/Recount.antt =====
-- Counting the stored ballots of a proposal again.
use phi_chain.Base.{
  ℕ, ◌+◌, ◌≤◌, ◌≡◌, arith, Bool, ◌&&◌, Option, none, some, [], ◌∷◌, ◌==◌, if◌then◌else◌, Map,
  lookup, insert, nat_eq, pair_eq, length, Bool-cases, inl, inr,
}
use phi_chain.Sdk.{Addr}

abbrev pub tick : Bool → ℕ
tick b = if b then 1 else 0

-- The ballots of a proposal whose marker passes a test.
unfoldable pub recount : (ℕ → Bool) → ℕ → Map (ℕ × Addr) ℕ → ℕ
recount counts p [] = 0
recount counts p (((q, v), marker) ∷ votes) =
    tick ((q == p) && counts marker) + recount counts p votes

abbrev pub counted : (ℕ → Bool) → Bool → Option ℕ → ℕ
counted counts same none = 0
counted counts same (some marker) = tick (same && counts marker)

-- Writing a ballot takes the voter's previous one out of the count and puts the new one in.
pub recount-insert :
    (counts : ℕ → Bool) (p q : ℕ) (v : Addr) (marker : ℕ) (votes : Map (ℕ × Addr) ℕ)
    → recount counts p (insert (q, v) marker votes) + counted counts (q == p) (lookup (q, v) votes)
      ≡ recount counts p votes + tick ((q == p) && counts marker)
unfolding recount insert lookup
recount-insert counts p q v marker [] = omega arith
recount-insert counts p q v marker (((r, w), m) ∷ votes) =
    elim (Bool-cases ((r == q) && (w == v))) [
      | inl e ↦ let same : r ≡ q = ground arith in rw (e, same) (omega arith)
      | inr e ↦ rw e (omega (arith, recount-insert counts p q v marker votes))
    ]

pub recount-le-length :
    (counts : ℕ → Bool) (p : ℕ) (votes : Map (ℕ × Addr) ℕ) → recount counts p votes ≤ length votes
unfolding recount
recount-le-length counts p [] = omega arith
recount-le-length counts p (((q, v), m) ∷ votes) = ground (arith, recount-le-length counts p votes)
