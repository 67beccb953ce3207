-- ===== src/Coin/Age.antt =====
-- x/coin/types/coin_age.go: the FIFO queue of a holder's lots, oldest first. Every amount here has
-- passed `parseAmount` or `IsPositive`, so amounts are natural numbers; times are int64.

pub mod Order
pub mod Spend
pub mod Merge
pub mod Queue
pub mod Insert
pub mod Penalty
pub mod Move
use phi_chain.Base.{
  ℕ, ◌+◌, ◌-◌, ◌*◌, ◌/◌, ◌%◌, ◌^◌, Bool, true, false, ◌&&◌, Option, none, some, List, [], ◌∷◌, ◌++◌,
  ltb, leb, ◌==◌, if◌then◌else◌, length, ℤ, pos, negsuc, pos_part, ltb_ℤ, leb_ℤ, add64, sub64,
}
use phi_chain.Sdk.{Text, Sdk}
use phi_chain.Coin.Types.{CoinLot, Params, default_max_coin_age_lots, bps_denominator}

unfoldable pub is_old : ℤ → ℤ → ℤ → Bool
is_old acquired_at now threshold_seconds = leb_ℤ threshold_seconds (sub64 now acquired_at)

-- What a spending loop has consumed and kept, and what is left to spend after it.
pub record Spent : Type 0 where
  pub consumed : List CoinLot
  pub remaining : List CoinLot
  pub left : ℕ

-- The lot goes before the first one that is newer, or to the end.
unfoldable pub place_lot : CoinLot → List CoinLot → List CoinLot
place_lot lot [] = lot ∷ []
place_lot lot (l ∷ lots) =
    if ltb_ℤ lot.acquired_at l.acquired_at then lot ∷ l ∷ lots else l ∷ place_lot lot lots

module _ ⦃sdk : Sdk⦄ where
  abbrev non_negative : Option ℤ → ℕ
  non_negative none = 0
  non_negative (some (pos n)) = n
  non_negative (some (negsuc n)) = 0

  unfoldable pub parse_amount : Text → ℕ
  parse_amount s = non_negative (sdk.new_int_from_string s)

  unfoldable pub lot_amount : CoinLot → ℕ
  lot_amount l = parse_amount l.amount

  unfoldable pub total_lots : List CoinLot → ℕ
  total_lots [] = 0
  total_lots (l ∷ lots) = lot_amount l + total_lots lots

  -- A lot whose amount is written by Int.String.
  unfoldable pub lot_of : ℕ → ℤ → CoinLot
  lot_of n t = record { amount = sdk.int_string (pos n); acquired_at = t }

  -- The loop of SpendOldestFirst, with the rest of the lots kept once nothing is left to spend.
  unfoldable pub spend_loop : List CoinLot → ℕ → Spent
  spend_loop [] left = record { consumed = []; remaining = []; left = left }
  spend_loop (l ∷ lots) left =
      let amt = lot_amount l in
      let rest = spend_loop lots (left - amt) in
      if left == 0
      then record { consumed = []; remaining = l ∷ lots; left = 0 }
      else if leb amt left
      then record rest { consumed = lot_of amt l.acquired_at ∷ rest.consumed }
      else record {
        consumed = lot_of left l.acquired_at ∷ [];
        remaining = lot_of (amt - left) l.acquired_at ∷ lots;
        left = 0;
      }

  -- The untracked surplus is consumed last, as a lot that has just reached the old tier.
  unfoldable pub surplus : ℕ → ℤ → ℤ → List CoinLot
  surplus left now threshold_seconds =
      if left == 0 then [] else lot_of left (sub64 now threshold_seconds) ∷ []

  unfoldable pub spend_oldest_first : List CoinLot → ℕ → ℤ → ℤ → List CoinLot × List CoinLot
  unfolding spend_loop surplus
  spend_oldest_first lots amount now threshold_seconds =
      let s = spend_loop lots amount in
      (s.consumed ++ surplus s.left now threshold_seconds, s.remaining)

  unfoldable pub merged_acquired_at : CoinLot → CoinLot → ℤ
  merged_acquired_at older newer =
      let delta = sub64 newer.acquired_at older.acquired_at in
      let total = lot_amount older + lot_amount newer in
      if leb_ℤ delta (pos 0)
      then older.acquired_at
      else if total == 0
      then older.acquired_at
      else add64 older.acquired_at (pos ((lot_amount newer * pos_part delta + total - 1) / total))

  unfoldable pub merge_lots : CoinLot → CoinLot → CoinLot
  unfolding merged_acquired_at
  merge_lots older newer =
      lot_of (lot_amount older + lot_amount newer) (merged_acquired_at older newer)

  -- The loop of BoundLots: the two oldest lots merge while the queue is longer than the bound.
  unfoldable pub merge_loop : ℕ → List CoinLot → List CoinLot
  merge_loop max_lots [] = []
  merge_loop max_lots (x ∷ []) = x ∷ []
  merge_loop max_lots (x ∷ y ∷ lots) =
      let rest = merge_loop max_lots (merge_lots x y ∷ lots) in
      if ltb max_lots (length (x ∷ y ∷ lots) % 2 ^ 32) then rest else x ∷ y ∷ lots

  unfoldable pub bound_lots : List CoinLot → ℕ → List CoinLot
  unfolding merge_loop
  bound_lots lots max_lots =
      merge_loop (if max_lots == 0 then default_max_coin_age_lots else max_lots) lots

  unfoldable pub insert_lot : List CoinLot → CoinLot → ℕ → List CoinLot
  unfolding place_lot bound_lots
  insert_lot lots lot max_lots =
      if lot_amount lot == 0 then lots else bound_lots (place_lot lot lots) max_lots

  abbrev penalty_bps : CoinLot → ℤ → Params → ℕ
  penalty_bps l now p =
      if is_old l.acquired_at now p.coin_age_threshold_seconds
      then p.old_penalty_bps
      else p.young_penalty_bps

  unfoldable pub penalty_for_lots : List CoinLot → ℤ → Params → ℕ
  penalty_for_lots [] now p = 0
  penalty_for_lots (l ∷ lots) now p =
      lot_amount l * penalty_bps l now p / bps_denominator + penalty_for_lots lots now p
