-- ===== src/Coin/Age/Move.antt =====
-- Proofs that spending keeps the weighted stamps and the invariant of a queue.
use phi_chain.Base.{
  ℕ, ◌+◌, ◌-◌, ◌≤◌, ◌≡◌, List, [], ◌∷◌, arith, inl, inr, Bool-cases, leb, ◌==◌, ℤ, append-nil,
}
use phi_chain.Sdk.{Sdk}
use phi_chain.Coin.Types.{CoinLot}
use phi_chain.Coin.Age.{lot_amount, lot_of, total_lots, spend_loop, surplus, spend_oldest_first}
use phi_chain.Coin.Age.Order.{IsOldestFirst, lot_amount-lot_of, acquired_at-lot_of}
use phi_chain.Coin.Age.Merge.{offset, split_amount}
use phi_chain.Coin.Age.Queue.{AllNear, IsQueue, weight}
use phi_chain.Coin.Age.Spend.{spend_loop-total, spend_loop-rest}

module _ ⦃sdk : Sdk⦄ where
  spend_loop-weight :
      (lots : List CoinLot) (left : ℕ)
      → let s = spend_loop lots left in weight s.consumed + weight s.remaining ≡ weight lots
  unfolding spend_loop weight
  spend_loop-weight [] left = omega arith
  spend_loop-weight (l ∷ lots) left =
      let amt = lot_amount l in
      let ih = spend_loop-weight lots (left - amt) in
      elim (Bool-cases (left == 0)) [
        | inl done ↦ rw done (omega arith)
        | inr more ↦ elim (Bool-cases (leb amt left)) [
          | inl whole ↦
              rw
                (
                  more,
                  whole,
                  lot_amount-lot_of amt l.acquired_at,
                  acquired_at-lot_of amt l.acquired_at,
                )
                (omega (arith, ih))
          | inr part ↦
              rw
                (
                  more,
                  part,
                  lot_amount-lot_of left l.acquired_at,
                  acquired_at-lot_of left l.acquired_at,
                  lot_amount-lot_of (amt - left) l.acquired_at,
                  acquired_at-lot_of (amt - left) l.acquired_at,
                )
                (split_amount amt left (offset l.acquired_at) (weight lots) (ground arith))
        ]
      ]

  spend_loop-AllNear :
      (lots : List CoinLot) (left : ℕ)
      → AllNear lots
      → let s = spend_loop lots left in AllNear s.consumed × AllNear s.remaining
  unfolding spend_loop lot_of
  spend_loop-AllNear [] left h = ground arith
  spend_loop-AllNear (l ∷ lots) left h =
      ground (arith, spend_loop-AllNear lots (left - lot_amount l) h.1)

  spend_loop-remaining :
      (lots : List CoinLot) (left : ℕ)
      → IsOldestFirst lots
      → IsOldestFirst (spend_loop lots left).remaining
  unfolding spend_loop lot_of
  spend_loop-remaining [] left h = tt
  spend_loop-remaining (l ∷ lots) left h =
      ground (arith, spend_loop-remaining lots (left - lot_amount l) h.1)

  spend_loop-left :
      (lots : List CoinLot) (amount : ℕ)
      → amount ≤ total_lots lots
      → (spend_loop lots amount).left ≡ 0
  unfolding total_lots
  spend_loop-left lots amount h =
      ground (arith, spend_loop-total lots amount, spend_loop-rest lots amount)

  -- When the queue tracks the whole amount, nothing untracked is spent, the stamps of what is
  -- consumed and kept add up to those of the queue, and what is kept is a queue.
  pub spend_tracked :
      (lots : List CoinLot) (amount : ℕ) (now threshold : ℤ)
      → IsQueue lots
      → amount ≤ total_lots lots
      → let (consumed, remaining) = spend_oldest_first lots amount now threshold in
        (weight consumed + weight remaining ≡ weight lots) × AllNear consumed × IsQueue remaining
  unfolding spend_oldest_first surplus
  spend_tracked lots amount now threshold q enough =
      let s = spend_loop lots amount in
      let near = spend_loop-AllNear lots amount q.near in
      rw (spend_loop-left lots amount enough, append-nil s.consumed)
        (
          spend_loop-weight lots amount,
          near.0,
          record { ordered = spend_loop-remaining lots amount q.ordered; near = near.1 },
        )
