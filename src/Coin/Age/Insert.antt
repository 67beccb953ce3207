-- ===== src/Coin/Age/Insert.antt =====
-- Proofs about InsertLot: a lot enters the queue of a holder.
use phi_chain.Base.{
  ℕ, suc, ◌+◌, ◌*◌, ◌^◌, ◌≡◌, ◌≤◌, ◌<◌, refl, List, [], ◌∷◌, arith, inl, inr, Bool-cases, ◌==◌,
  if◌then◌else◌, ℤ, ltb_ℤ, ◌≤ℤ◌, IsNear, length,
}
use phi_chain.Sdk.{Sdk}
use phi_chain.Coin.Types.{CoinLot, default_max_coin_age_lots}
use phi_chain.Coin.Age.{lot_amount, total_lots, bound_lots, place_lot, insert_lot}
use phi_chain.Coin.Age.Order.{NoneOlder, NoneOlder-mono, IsOldestFirst}
use phi_chain.Coin.Age.Merge.{offset}
use phi_chain.Coin.Age.Queue.{
  AllNear, IsQueue, weight, merge_loop-total, merge_loop-length, merge_loop-IsQueue,
  merge_loop-weight,
}

-- The bound that BoundLots enforces: the governed one, or the default where that is zero.
abbrev pub effective_bound : ℕ → ℕ
effective_bound max_lots = if max_lots == 0 then default_max_coin_age_lots else max_lots

place_lot-NoneOlder :
    (t : ℤ) (lot : CoinLot) (lots : List CoinLot)
    → t ≤ℤ lot.acquired_at
    → NoneOlder t lots
    → NoneOlder t (place_lot lot lots)
unfolding place_lot
place_lot-NoneOlder t lot [] h n = (h, tt)
place_lot-NoneOlder t lot (l ∷ lots) h n = ground (arith, place_lot-NoneOlder t lot lots h n.1)

place_lot-IsOldestFirst :
    (lot : CoinLot) (lots : List CoinLot) → IsOldestFirst lots → IsOldestFirst (place_lot lot lots)
unfolding place_lot
place_lot-IsOldestFirst lot [] o = (tt, tt)
place_lot-IsOldestFirst lot (l ∷ lots) o = elim (Bool-cases (ltb_ℤ lot.acquired_at l.acquired_at)) [
  | inl older ↦
      let le : lot.acquired_at ≤ℤ l.acquired_at = ground arith in
      rw older ((le, NoneOlder-mono lot.acquired_at l.acquired_at lots le o.0), o)
  | inr newer ↦ rw newer (
    place_lot-NoneOlder l.acquired_at lot lots (ground arith) o.0,
    place_lot-IsOldestFirst lot lots o.1,
  )
]

place_lot-AllNear :
    (lot : CoinLot) (lots : List CoinLot)
    → IsNear lot.acquired_at
    → AllNear lots
    → AllNear (place_lot lot lots)
unfolding place_lot
place_lot-AllNear lot [] h n = (h, tt)
place_lot-AllNear lot (l ∷ lots) h n = ground (arith, place_lot-AllNear lot lots h n.1)

place_lot-IsQueue :
    (lot : CoinLot) (lots : List CoinLot)
    → IsNear lot.acquired_at
    → IsQueue lots
    → IsQueue (place_lot lot lots)
place_lot-IsQueue lot lots h q = record {
  ordered = place_lot-IsOldestFirst lot lots q.ordered;
  near = place_lot-AllNear lot lots h q.near;
}

length-place_lot :
    (lot : CoinLot) (lots : List CoinLot) → length (place_lot lot lots) ≡ suc (length lots)
unfolding place_lot
length-place_lot lot [] = refl
length-place_lot lot (l ∷ lots) = ground (arith, length-place_lot lot lots)

module _ ⦃sdk : Sdk⦄ where
  place_lot-total :
      (lot : CoinLot) (lots : List CoinLot)
      → total_lots (place_lot lot lots) ≡ total_lots lots + lot_amount lot
  unfolding place_lot total_lots
  place_lot-total lot [] = omega arith
  place_lot-total lot (l ∷ lots) = ground (arith, place_lot-total lot lots)

  place_lot-weight :
      (lot : CoinLot) (lots : List CoinLot)
      → weight (place_lot lot lots) ≡ weight lots + lot_amount lot * offset lot.acquired_at
  unfolding place_lot weight
  place_lot-weight lot [] = omega arith
  place_lot-weight lot (l ∷ lots) = ground (arith, place_lot-weight lot lots)

  -- A queue tracks the new amount on top of what it tracked, merged or not.
  pub insert_lot-total :
      (lots : List CoinLot) (lot : CoinLot) (max_lots : ℕ)
      → total_lots (insert_lot lots lot max_lots) ≡ total_lots lots + lot_amount lot
  unfolding insert_lot bound_lots
  insert_lot-total lots lot m =
      ground
        (arith, merge_loop-total (effective_bound m) (place_lot lot lots), place_lot-total lot lots)

  pub insert_lot-kept :
      (lots : List CoinLot) (lot : CoinLot) (max_lots : ℕ)
      → IsQueue lots
      → IsNear lot.acquired_at
      → IsQueue (insert_lot lots lot max_lots)
  unfolding insert_lot bound_lots
  insert_lot-kept lots lot m q near =
      let placed = place_lot-IsQueue lot lots near q in
      elim (Bool-cases (lot_amount lot == 0)) [
        | inl nothing ↦ rw nothing q
        | inr some_coin ↦
            rw some_coin (merge_loop-IsQueue (effective_bound m) (place_lot lot lots) placed)
      ]

  -- Inserting keeps the queue oldest first with times near enough, and within its bound.
  pub insert_lot-IsQueue :
      (lots : List CoinLot) (lot : CoinLot) (max_lots : ℕ)
      → IsQueue lots
      → IsNear lot.acquired_at
      → length lots ≤ effective_bound max_lots
      → effective_bound max_lots + 1 < 2 ^ 32
      → IsQueue (insert_lot lots lot max_lots)
        × (length (insert_lot lots lot max_lots) ≤ effective_bound max_lots)
  unfolding insert_lot bound_lots
  insert_lot-IsQueue lots lot m q near within small = (
    insert_lot-kept lots lot m q near,
    ground (
      arith,
      merge_loop-length (effective_bound m) (place_lot lot lots),
      length-place_lot lot lots,
    ),
  )

  -- Merging cannot launder age: the weighted stamps of a queue after an insertion are at least
  -- those of the queue before and of the new lot together, so no coin got older on the whole.
  pub insert_lot-weight :
      (lots : List CoinLot) (lot : CoinLot) (max_lots : ℕ)
      → IsQueue lots
      → IsNear lot.acquired_at
      → weight lots + lot_amount lot * offset lot.acquired_at
        ≤ weight (insert_lot lots lot max_lots)
  unfolding insert_lot bound_lots
  insert_lot-weight lots lot m q near = ground (
    arith,
    merge_loop-weight (effective_bound m) (place_lot lot lots) (place_lot-IsQueue lot lots near q),
    place_lot-weight lot lots,
  )
