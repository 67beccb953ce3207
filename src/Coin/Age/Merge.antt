-- ===== src/Coin/Age/Merge.antt =====
-- Proofs about mergedAcquiredAt and BoundLots.
use phi_chain.Base.{
  ℕ, ◌+◌, ◌-◌, ◌*◌, ◌/◌, ◌^◌, ◌≡◌, ap, ◌≤◌, ◌<◌, arith, inl, inr, ℤ, pos, pos_part, neg_part, ◌≤ℤ◌,
  ◌-ℤ◌, ◌+ℤ◌, sub64, add64, IsNear, sub64-near, add64-between, -ℤ_parts, ◌⊎◌,
}
use phi_chain.Sdk.{Sdk}
use phi_chain.Coin.Types.{CoinLot}
use phi_chain.Coin.Age.{lot_amount, merged_acquired_at}

-- A quotient rounded up, from both sides.
ceil_bounds : (x n : ℕ) → 0 < n → (x ≤ n * ((x + n - 1) / n)) × (n * ((x + n - 1) / n) < x + n)
ceil_bounds x n h = omega arith

mul-le_cancel : (n a b : ℕ) → n * a < n * b + n → a ≤ b
mul-le_cancel n a b h = grind arith

ceil-le : (a b d : ℕ) → 0 < a + b → (b * d + (a + b) - 1) / (a + b) ≤ d
ceil-le a b d h = mul-le_cancel (a + b) _ d (grind (arith, ceil_bounds (b * d) (a + b) h))

-- A time counted from 2 ^ 62 seconds before the epoch.
pub offset : ℤ → ℕ
offset t = pos_part t + 2 ^ 62 - neg_part t

offset_mono : (s t : ℤ) → s ≤ℤ t → offset s ≤ offset t
unfolding offset
offset_mono s t h = omega arith

offset-plus : (t : ℤ) (q : ℕ) → IsNear t → offset (t +ℤ pos q) ≡ offset t + q
unfolding offset ◌+ℤ◌
offset-plus t q near = ground arith

offset-delta : (s t : ℤ) → IsNear s → s ≤ℤ t → offset t ≡ offset s + pos_part (t -ℤ s)
unfolding offset ◌-ℤ◌
offset-delta s t near h = ground arith

pub split_amount :
    (amt left stamp rest : ℕ)
    → left ≤ amt
    → left * stamp + 0 + ((amt - left) * stamp + rest) ≡ amt * stamp + rest
split_amount amt left stamp rest h =
    let whole : amt ≡ left + (amt - left) = omega arith in
    omega (arith, ap (λ (n : ℕ). n * stamp) whole)

mean_flat : (a b x y : ℕ) → (y ≤ x) ⊎ (a + b ≡ 0) → a * x + b * y ≤ (a + b) * x
mean_flat a b x y (inl h) = grind arith
mean_flat a b x y (inr h) =
    let none_a : a ≡ 0 = omega arith in
    let none_b : b ≡ 0 = omega arith in rw (none_a, none_b) (omega arith)

mean_ceil : (a b x d q : ℕ) → b * d ≤ (a + b) * q → a * x + b * (x + d) ≤ (a + b) * (x + q)
mean_ceil a b x d q h = omega arith

-- The mathematical value of a merged time: between the two, at the weighted mean rounded up.
module _ ⦃sdk : Sdk⦄ (older newer : CoinLot) (near_older : IsNear older.acquired_at)
    (near_newer : IsNear newer.acquired_at) where
  delta-eq : sub64 newer.acquired_at older.acquired_at ≡ newer.acquired_at -ℤ older.acquired_at
  delta-eq = sub64-near newer.acquired_at older.acquired_at near_newer near_older

  abbrev quotient : ℕ
  quotient =
      let total = lot_amount older + lot_amount newer in
      (lot_amount newer * pos_part (newer.acquired_at -ℤ older.acquired_at) + total - 1) / total

  merged_cases :
      (merged_acquired_at older newer ≡ older.acquired_at)
        × ((newer.acquired_at ≤ℤ older.acquired_at) ⊎ (lot_amount older + lot_amount newer ≡ 0))
      ⊎ (merged_acquired_at older newer ≡ add64 older.acquired_at (pos quotient))
        × (older.acquired_at ≤ℤ newer.acquired_at)
        × (0 < lot_amount older + lot_amount newer)
  unfolding merged_acquired_at
  merged_cases = rw delta-eq (ground (arith, -ℤ_parts newer.acquired_at older.acquired_at))

  -- Where the two lots are in order, the quotient is added without a wrap.
  added :
      older.acquired_at ≤ℤ newer.acquired_at
      → 0 < lot_amount older + lot_amount newer
      → (add64 older.acquired_at (pos quotient) ≡ older.acquired_at +ℤ pos quotient)
        × (older.acquired_at ≤ℤ older.acquired_at +ℤ pos quotient)
        × (older.acquired_at +ℤ pos quotient ≤ℤ newer.acquired_at)
        × IsNear (older.acquired_at +ℤ pos quotient)
  added h total =
      add64-between older.acquired_at newer.acquired_at quotient near_older near_newer h (
        ceil-le (lot_amount older) (lot_amount newer)
          (pos_part (newer.acquired_at -ℤ older.acquired_at)) total)

  pub merged_between :
      older.acquired_at ≤ℤ newer.acquired_at
      → (older.acquired_at ≤ℤ merged_acquired_at older newer)
        × (merged_acquired_at older newer ≤ℤ newer.acquired_at)
        × IsNear (merged_acquired_at older newer)
  merged_between h = elim merged_cases [
    | inl (e, _) ↦ rw e (omega arith, h, near_older)
    | inr (e, _, total) ↦
        rw (e, (added h total).0) ((added h total).1, (added h total).2, (added h total).3)
  ]

  -- The stamps, weighted by the amounts, do not fall: the merged coin is on the whole no older.
  pub merged_weight :
      older.acquired_at ≤ℤ newer.acquired_at
      → lot_amount older * offset older.acquired_at + lot_amount newer * offset newer.acquired_at
        ≤ (lot_amount older + lot_amount newer) * offset (merged_acquired_at older newer)
  merged_weight h = elim merged_cases [
    | inl (e, inl back) ↦ rw e (
        mean_flat (lot_amount older) (lot_amount newer) _ _
          (inl (offset_mono newer.acquired_at older.acquired_at back)))
    | inl (e, inr empty) ↦ rw e (mean_flat (lot_amount older) (lot_amount newer) _ _ (inr empty))
    | inr (e, _, total) ↦
        let delta = pos_part (newer.acquired_at -ℤ older.acquired_at) in
        rw
          (
            e,
            (added h total).0,
            offset-plus older.acquired_at quotient near_older,
            offset-delta older.acquired_at newer.acquired_at near_older h,
          )
          (mean_ceil (lot_amount older) (lot_amount newer) (offset older.acquired_at) delta quotient
            (ceil_bounds (lot_amount newer * delta) (lot_amount older + lot_amount newer) total).0)
  ]
