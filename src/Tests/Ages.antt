-- ===== src/Tests/Ages.antt =====
-- Tests of the coin ages, the parameters and the fee split.
use phi_chain.Base.{
  ◌+◌, ◌-◌, ◌*◌, ◌≤◌, ◌≡◌, [], ◌∷◌, ◌++◌, true, false, pos, ◌≤ℤ◌, ◌<ℤ◌, IsNear, length, arith,
}
use phi_chain.Sdk.Sample.{sample_sdk}
use phi_chain.Tests.Values.{
  sample_params, sample_params-valid, lot, three_lots, transfer_msg, other_msg,
}
use phi_chain.Coin.Types.{bps_denominator}
use phi_chain.Coin.Age.{
  lot_amount, total_lots, spend_loop, spend_oldest_first, insert_lot, penalty_for_lots,
}
use phi_chain.Coin.Age.Order.{IsOldestFirst, amount_at}
use phi_chain.Coin.Age.Merge.{offset}
use phi_chain.Coin.Age.Queue.{IsQueue, weight}
use phi_chain.Coin.Age.Spend.{
  spend_oldest_first-total, spend_loop-IsOldestFirst, spend_loop-amount_at,
}
use phi_chain.Coin.Age.Insert.{insert_lot-IsQueue, insert_lot-weight, effective_bound}
use phi_chain.Coin.Age.Penalty.{tier_total, penalty_for_lots-bounds}
use phi_chain.Coin.Params.{fee_for_msg}
use phi_chain.Coin.Params.Valid.{fee_for_msg-nonneg, IsListed}
use phi_chain.Coin.Fee.{compute_fee_split}
use phi_chain.Coin.Fee.Split.{
  IsBalanced, owed, compute_fee_split-IsBalanced, compute_fee_split-total,
}

pub three_lots-IsQueue : IsQueue three_lots
three_lots-IsQueue = record {
  ordered = ((omega arith, (omega arith, tt)), ((omega arith, tt), (tt, tt)));
  near =
      ((omega arith, omega arith), ((omega arith, omega arith), ((omega arith, omega arith), tt)));
}

IsNear-150 : IsNear (pos 150)
IsNear-150 = (omega arith, omega arith)

spend_oldest_first-total_example :
    let (consumed, remaining) = spend_oldest_first three_lots 25 (pos 500) (pos 1000) in
    (total_lots consumed ≡ 25) × (total_lots remaining ≡ total_lots three_lots - 25)
spend_oldest_first-total_example = spend_oldest_first-total three_lots 25 (pos 500) (pos 1000)

spend_loop-amount_at_example :
    let s = spend_loop three_lots 25 in
    amount_at (pos 200) s.consumed + amount_at (pos 200) s.remaining
    ≡ amount_at (pos 200) three_lots
spend_loop-amount_at_example = spend_loop-amount_at (pos 200) three_lots 25

spend_loop-IsOldestFirst_example :
    let s = spend_loop three_lots 25 in IsOldestFirst (s.consumed ++ s.remaining)
spend_loop-IsOldestFirst_example = spend_loop-IsOldestFirst three_lots 25 three_lots-IsQueue.ordered

insert_lot-IsQueue_example :
    IsQueue (insert_lot three_lots (lot 40 150) 3)
    × (length (insert_lot three_lots (lot 40 150) 3) ≤ effective_bound 3)
insert_lot-IsQueue_example =
    insert_lot-IsQueue three_lots (lot 40 150) 3 three_lots-IsQueue IsNear-150 (omega arith)
      (omega arith)

insert_lot-weight_example :
    weight three_lots + lot_amount (lot 40 150) * offset (pos 150)
    ≤ weight (insert_lot three_lots (lot 40 150) 3)
insert_lot-weight_example =
    insert_lot-weight three_lots (lot 40 150) 3 three_lots-IsQueue IsNear-150

penalty_for_lots-bounds_example :
    let paid = penalty_for_lots three_lots (pos 1200) sample_params * bps_denominator in
    let due =
      tier_total false three_lots (pos 1200) sample_params * sample_params.young_penalty_bps
      + tier_total true three_lots (pos 1200) sample_params * sample_params.old_penalty_bps in
    (paid ≤ due) × (due ≤ paid + (bps_denominator - 1) * length three_lots)
penalty_for_lots-bounds_example =
    penalty_for_lots-bounds three_lots (pos 1200) sample_params three_lots-IsQueue.near
      (omega arith, omega arith)

fee_for_msg-nonneg_example :
    (pos 0 ≤ℤ fee_for_msg sample_params other_msg)
    × (¬ IsListed 8 sample_params.fees → pos 0 <ℤ fee_for_msg sample_params other_msg)
fee_for_msg-nonneg_example = fee_for_msg-nonneg sample_params other_msg sample_params-valid

compute_fee_split-IsBalanced_example :
    IsBalanced (compute_fee_split sample_params (transfer_msg ∷ other_msg ∷ []))
compute_fee_split-IsBalanced_example =
    compute_fee_split-IsBalanced sample_params (transfer_msg ∷ other_msg ∷ []) sample_params-valid

compute_fee_split-total_example :
    (compute_fee_split sample_params (transfer_msg ∷ other_msg ∷ [])).total
    ≡ owed sample_params (transfer_msg ∷ other_msg ∷ [])
compute_fee_split-total_example =
    compute_fee_split-total sample_params (transfer_msg ∷ other_msg ∷ [])
