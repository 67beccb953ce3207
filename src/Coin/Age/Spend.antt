-- ===== src/Coin/Age/Spend.antt =====
-- Proofs about SpendOldestFirst.
use phi_chain.Base.{
  ℕ, ◌+◌, ◌-◌, ◌≡◌, ◌⊎◌, List, [], ◌∷◌, ◌++◌, arith, All-append, inl, inr, Bool-cases, leb, ◌==◌, ℤ,
  ◌≤ℤ◌, sub64,
}
use phi_chain.Sdk.{Sdk}
use phi_chain.Coin.Types.{CoinLot}
use phi_chain.Coin.Age.{lot_amount, lot_of, total_lots, spend_loop, surplus, spend_oldest_first}
use phi_chain.Coin.Age.Order.{
  NoneOlder, IsOldestFirst, lot_amount-lot_of, acquired_at-lot_of, total_lots-append, amount_at,
}

module _ ⦃sdk : Sdk⦄ where
  pub spend_loop-total :
      (lots : List CoinLot) (left : ℕ)
      → let s = spend_loop lots left in
        (total_lots s.consumed + s.left ≡ left)
        × (total_lots s.consumed + total_lots s.remaining ≡ total_lots lots)
  unfolding spend_loop total_lots
  spend_loop-total [] left = omega arith
  spend_loop-total (l ∷ lots) left = ground (
    arith,
    spend_loop-total lots (left - lot_amount l),
    lot_amount-lot_of (lot_amount l) l.acquired_at,
    lot_amount-lot_of left l.acquired_at,
    lot_amount-lot_of (lot_amount l - left) l.acquired_at,
  )

  pub spend_loop-rest :
      (lots : List CoinLot) (left : ℕ)
      → let s = spend_loop lots left in (s.left ≡ 0) ⊎ (s.remaining ≡ [])
  unfolding spend_loop
  spend_loop-rest [] left = ground arith
  spend_loop-rest (l ∷ lots) left = ground (arith, spend_loop-rest lots (left - lot_amount l))

  surplus-total : (left : ℕ) (now threshold : ℤ) → total_lots (surplus left now threshold) ≡ left
  unfolding surplus total_lots
  surplus-total left now threshold = ground (arith, lot_amount-lot_of left (sub64 now threshold))

  -- Spending consumes exactly the amount, whatever the queue tracks, and takes from the queue what
  -- it tracks of that amount, no more.
  pub spend_oldest_first-total :
      (lots : List CoinLot) (amount : ℕ) (now threshold : ℤ)
      → let (consumed, remaining) = spend_oldest_first lots amount now threshold in
        (total_lots consumed ≡ amount) × (total_lots remaining ≡ total_lots lots - amount)
  unfolding spend_oldest_first total_lots
  spend_oldest_first-total lots amount now threshold =
      let s = spend_loop lots amount in
      ground (
        arith,
        spend_loop-total lots amount,
        spend_loop-rest lots amount,
        total_lots-append s.consumed (surplus s.left now threshold),
        surplus-total s.left now threshold,
      )

  -- Spending keeps every coin's time: of each acquisition time, what is consumed and what is kept add
  -- up to what the queue held.
  pub spend_loop-amount_at :
      (t : ℤ) (lots : List CoinLot) (left : ℕ)
      → let s = spend_loop lots left in
        amount_at t s.consumed + amount_at t s.remaining ≡ amount_at t lots
  unfolding spend_loop amount_at
  spend_loop-amount_at t [] left = omega arith
  spend_loop-amount_at t (l ∷ lots) left = ground (
    arith,
    spend_loop-amount_at t lots (left - lot_amount l),
    lot_amount-lot_of (lot_amount l) l.acquired_at,
    lot_amount-lot_of left l.acquired_at,
    lot_amount-lot_of (lot_amount l - left) l.acquired_at,
    acquired_at-lot_of (lot_amount l) l.acquired_at,
    acquired_at-lot_of left l.acquired_at,
    acquired_at-lot_of (lot_amount l - left) l.acquired_at,
  )

  pub spend_loop-NoneOlder :
      (t : ℤ) (lots : List CoinLot) (left : ℕ)
      → NoneOlder t lots
      → let s = spend_loop lots left in NoneOlder t s.consumed × NoneOlder t s.remaining
  unfolding spend_loop lot_of
  spend_loop-NoneOlder t [] left h = ground arith
  spend_loop-NoneOlder t (l ∷ lots) left h =
      ground (arith, spend_loop-NoneOlder t lots (left - lot_amount l) h.1)

  -- A spent queue, consumed lots first, is still oldest first: no coin that stays is older than one
  -- that goes, and both lists are in order.
  pub spend_loop-IsOldestFirst :
      (lots : List CoinLot) (left : ℕ)
      → IsOldestFirst lots
      → let s = spend_loop lots left in IsOldestFirst (s.consumed ++ s.remaining)
  unfolding spend_loop lot_of
  spend_loop-IsOldestFirst [] left h = tt
  spend_loop-IsOldestFirst (l ∷ lots) left h =
      let amt = lot_amount l in
      let s = spend_loop lots (left - amt) in
      let older = spend_loop-NoneOlder l.acquired_at lots (left - amt) h.0 in
      elim (Bool-cases (left == 0)) [
        | inl done ↦ rw done h
        | inr more ↦ elim (Bool-cases (leb amt left)) [
          | inl whole ↦
              rw (more, whole)
                (
                  All-append (λ x. l.acquired_at ≤ℤ x.acquired_at) s.consumed s.remaining older.0
                      older.1,
                  spend_loop-IsOldestFirst lots (left - amt) h.1,
                )
          | inr part ↦ rw (more, part) ((omega arith, h.0), h)
        ]
      ]
