-- ===== src/Coin/Age/Penalty.antt =====
-- Proofs about PenaltyForLots.
use phi_chain.Base.{
  ℕ, ◌+◌, ◌-◌, ◌*◌, ◌/◌, ◌≤◌, ◌≡◌, ap, ◌∙◌, List, [], ◌∷◌, arith, Bool, true, false, not, ℤ, ◌+ℤ◌,
  ◌-ℤ◌, leb_ℤ, IsNear, sub64-near, length, if◌then◌else◌, Bool-cases, inl, inr,
}
use phi_chain.Sdk.{Sdk}
use phi_chain.Coin.Types.{CoinLot, Params, bps_denominator}
use phi_chain.Coin.Age.{is_old, lot_amount, penalty_for_lots}
use phi_chain.Coin.Age.Queue.{AllNear}

-- The threshold has passed since the lot was acquired, on unbounded integers.
abbrev pub has_aged : ℤ → Params → CoinLot → Bool
has_aged now p l = leb_ℤ (l.acquired_at +ℤ p.coin_age_threshold_seconds) now

leb-sub : (t a b : ℤ) → leb_ℤ t (b -ℤ a) ≡ leb_ℤ (a +ℤ t) b
unfolding ◌+ℤ◌ ◌-ℤ◌
leb-sub t a b = ground arith

is_old-has_aged :
    (l : CoinLot) (now : ℤ) (p : Params)
    → IsNear l.acquired_at
    → IsNear now
    → is_old l.acquired_at now p.coin_age_threshold_seconds ≡ has_aged now p l
unfolding is_old
is_old-has_aged l now p near at =
    ap (leb_ℤ p.coin_age_threshold_seconds) (sub64-near now l.acquired_at at near)
    ∙ leb-sub p.coin_age_threshold_seconds l.acquired_at now

times_sum : (a b k : ℕ) → (a + b) * k ≡ a * k + b * k
times_sum a b k = grind arith

share_bounds : (n : ℕ) → (n / 10000 * 10000 ≤ n) × (n ≤ n / 10000 * 10000 + 9999)
share_bounds n = (omega arith, omega arith)

module _ ⦃sdk : Sdk⦄ where
  -- The amounts of the lots that have aged, or of those that have not.
  unfoldable pub tier_total : Bool → List CoinLot → ℤ → Params → ℕ
  tier_total aged [] now p = 0
  tier_total aged (l ∷ lots) now p =
      let rest = tier_total aged lots now p in
      let same = if aged then has_aged now p l else not (has_aged now p l) in
      if same then lot_amount l + rest else rest

  -- Every lot pays the rate of its own tier: the penalty on lots is the young rate on the amounts that
  -- have not aged and the old rate on those that have, and rounds down by less than one uphi for each
  -- lot, with times within 2 ^ 62 of zero.
  pub penalty_for_lots-bounds :
      (lots : List CoinLot) (now : ℤ) (p : Params)
      → AllNear lots
      → IsNear now
      → let paid = penalty_for_lots lots now p * bps_denominator in
        let due =
          tier_total false lots now p * p.young_penalty_bps
          + tier_total true lots now p * p.old_penalty_bps in
        (paid ≤ due) × (due ≤ paid + (bps_denominator - 1) * length lots)
  unfolding penalty_for_lots tier_total
  penalty_for_lots-bounds [] now p near at = ground arith
  penalty_for_lots-bounds (l ∷ lots) now p near at =
      let rest = penalty_for_lots-bounds lots now p near.1 at in
      let tier = is_old-has_aged l now p near.0 at in
      let y = tier_total false lots now p in
      let o = tier_total true lots now p in
      elim (Bool-cases (has_aged now p l)) [
        | inl old ↦ ground (
          arith,
          rest,
          tier,
          old,
          share_bounds (lot_amount l * p.old_penalty_bps),
          times_sum (lot_amount l) o p.old_penalty_bps,
        )
        | inr young ↦ ground (
          arith,
          rest,
          tier,
          young,
          share_bounds (lot_amount l * p.young_penalty_bps),
          times_sum (lot_amount l) y p.young_penalty_bps,
        )
      ]
