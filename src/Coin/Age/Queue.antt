-- ===== src/Coin/Age/Queue.antt =====
-- Proofs about InsertLot and BoundLots on whole queues.
use phi_chain.Base.{
  ℕ, ◌+◌, ◌*◌, ◌%◌, ◌^◌, ◌≡◌, ◌≤◌, ◌<◌, refl, List, [], ◌∷◌, ◌++◌, arith, inl, inr, Bool-cases, ltb,
  IsNear, length, All,
}
use phi_chain.Sdk.{Sdk}
use phi_chain.Coin.Types.{CoinLot}
use phi_chain.Coin.Age.{lot_amount, total_lots, merged_acquired_at, merge_lots, merge_loop}
use phi_chain.Coin.Age.Order.{NoneOlder-mono, IsOldestFirst, lot_amount-lot_of, acquired_at-lot_of}
use phi_chain.Coin.Age.Merge.{offset, merged_between, merged_weight}

abbrev pub AllNear : List CoinLot → Type 0
AllNear lots = All (λ l. IsNear l.acquired_at) lots

-- A queue that the keeper may hold: in order, with times near enough not to wrap.
pub record IsQueue (lots : List CoinLot) : Type 0 where
  pub ordered : IsOldestFirst lots
  pub near : AllNear lots

module _ ⦃sdk : Sdk⦄ where
  -- The amount of each lot times its stamp, summed: the higher, the younger the coin.
  unfoldable pub weight : List CoinLot → ℕ
  weight [] = 0
  weight (l ∷ lots) = lot_amount l * offset l.acquired_at + weight lots

  pub weight-append : (xs ys : List CoinLot) → weight (xs ++ ys) ≡ weight xs + weight ys
  unfolding weight
  weight-append [] ys = omega arith
  weight-append (x ∷ xs) ys = omega (arith, weight-append xs ys)

  merge_lots-amount : (x y : CoinLot) → lot_amount (merge_lots x y) ≡ lot_amount x + lot_amount y
  unfolding merge_lots
  merge_lots-amount x y = lot_amount-lot_of (lot_amount x + lot_amount y) (merged_acquired_at x y)

  merge_lots-acquired_at : (x y : CoinLot) → (merge_lots x y).acquired_at ≡ merged_acquired_at x y
  unfolding merge_lots
  merge_lots-acquired_at x y =
      acquired_at-lot_of (lot_amount x + lot_amount y) (merged_acquired_at x y)

  merge_lots-IsQueue :
      (x y : CoinLot) (lots : List CoinLot)
      → IsQueue (x ∷ y ∷ lots)
      → IsQueue (merge_lots x y ∷ lots)
  merge_lots-IsQueue x y lots q =
      let between = merged_between x y q.near.0 q.near.1.0 q.ordered.0.0 in
      record {
        ordered = rw merge_lots-acquired_at (
          NoneOlder-mono (merged_acquired_at x y) y.acquired_at lots between.1 q.ordered.1.0,
          q.ordered.1.1,
        );
        near = rw merge_lots-acquired_at (between.2, q.near.1.1);
      }

  pub merge_loop-total :
      (m : ℕ) (lots : List CoinLot) → total_lots (merge_loop m lots) ≡ total_lots lots
  unfolding merge_loop total_lots
  merge_loop-total m [] = refl
  merge_loop-total m (x ∷ []) = refl
  merge_loop-total m (x ∷ y ∷ lots) =
      ground (arith, merge_loop-total m (merge_lots x y ∷ lots), merge_lots-amount x y)

  -- Merging stops at the bound; the count of lots is read as a uint32.
  pub merge_loop-length :
      (m : ℕ) (lots : List CoinLot) → 0 < m → length lots < 2 ^ 32 → length (merge_loop m lots) ≤ m
  unfolding merge_loop
  merge_loop-length m [] h k = omega arith
  merge_loop-length m (x ∷ []) h k = omega arith
  merge_loop-length m (x ∷ y ∷ lots) h k =
      ground (arith, merge_loop-length m (merge_lots x y ∷ lots))

  pub merge_loop-IsQueue :
      (m : ℕ) (lots : List CoinLot) → IsQueue lots → IsQueue (merge_loop m lots)
  unfolding merge_loop
  merge_loop-IsQueue m [] q = q
  merge_loop-IsQueue m (x ∷ []) q = q
  merge_loop-IsQueue m (x ∷ y ∷ lots) q =
      let rest = merge_loop-IsQueue m (merge_lots x y ∷ lots) (merge_lots-IsQueue x y lots q) in
      elim (Bool-cases (ltb m (length (x ∷ y ∷ lots) % 2 ^ 32))) [
        | inl more ↦ rw more rest
        | inr done ↦ rw done q
      ]

  pub merge_loop-weight :
      (m : ℕ) (lots : List CoinLot) → IsQueue lots → weight lots ≤ weight (merge_loop m lots)
  unfolding merge_loop weight
  merge_loop-weight m [] q = omega arith
  merge_loop-weight m (x ∷ []) q = omega arith
  merge_loop-weight m (x ∷ y ∷ lots) q = ground (
    arith,
    merge_loop-weight m (merge_lots x y ∷ lots) (merge_lots-IsQueue x y lots q),
    merged_weight x y q.near.0 q.near.1.0 q.ordered.0.0,
    merge_lots-amount x y,
    merge_lots-acquired_at x y,
  )
