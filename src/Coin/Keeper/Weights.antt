-- ===== src/Coin/Keeper/Weights.antt =====
-- Proofs that moving coin between addresses does not make it older.
use phi_chain.Base.{
  ℕ, ◌+◌, ◌*◌, ◌≤◌, ◌≡◌, ◌≢◌, refl, sym, ◌∙◌, List, [], ◌∷◌, arith, ℤ, pos, IsNear,
}
use phi_chain.Sdk.{Text, Sdk}
use phi_chain.Coin.Types.{CoinLot}
use phi_chain.Coin.Age.{lot_amount, lot_of, spend_oldest_first, insert_lot}
use phi_chain.Coin.Age.Order.{lot_amount-lot_of, acquired_at-lot_of}
use phi_chain.Coin.Age.Merge.{offset}
use phi_chain.Coin.Age.Queue.{AllNear, IsQueue, weight}
use phi_chain.Coin.Age.Insert.{insert_lot-kept, insert_lot-weight}
use phi_chain.Coin.Age.Move.{spend_tracked}
use phi_chain.Coin.Keeper.{
  CoinStore, Ctx, get_params, get_coin_age, set_coin_age, add_coins, spend, credit_lots, move_age,
}
use phi_chain.Coin.Keeper.Ages.{tracked, get_coin_age-set_coin_age}

module _ ⦃sdk : Sdk⦄ where
  -- The weighted stamps of an address: the higher, the younger its coin.
  pub weight_of : Text → CoinStore → ℕ
  weight_of a s = weight (get_coin_age a s)

  insert_lot-nothing :
      (lots : List CoinLot) (lot : CoinLot) (m : ℕ)
      → lot_amount lot ≡ 0
      → insert_lot lots lot m ≡ lots
  unfolding insert_lot
  insert_lot-nothing lots lot m h = rw h

  get_coin_age-add_coins :
      (a : Text) (n : ℕ) (t : ℤ) (s : CoinStore)
      → get_coin_age a (add_coins a n t s)
        ≡ insert_lot (get_coin_age a s) (lot_of n t) (get_params s).max_coin_age_lots
  unfolding add_coins
  get_coin_age-add_coins a n t s =
      let m = (get_params s).max_coin_age_lots in
      let lots = insert_lot (get_coin_age a s) (lot_of n t) m in
      ground (
        arith,
        insert_lot-nothing (get_coin_age a s) (lot_of n t) m,
        lot_amount-lot_of n t,
        get_coin_age-set_coin_age a a lots s,
      )

  get_coin_age-add_coins_ne :
      (a j : Text) (n : ℕ) (t : ℤ) (s : CoinStore)
      → a ≢ j
      → get_coin_age j (add_coins a n t s) ≡ get_coin_age j s
  unfolding add_coins
  get_coin_age-add_coins_ne a j n t s h =
      let m = (get_params s).max_coin_age_lots in
      let lots = insert_lot (get_coin_age a s) (lot_of n t) m in
      ground (arith, get_coin_age-set_coin_age a j lots s)

  get_coin_age-credit_lots_ne :
      (to j : Text) (lots : List CoinLot) (s : CoinStore)
      → to ≢ j
      → get_coin_age j (credit_lots to lots s) ≡ get_coin_age j s
  unfolding credit_lots
  get_coin_age-credit_lots_ne to j [] s h = refl
  get_coin_age-credit_lots_ne to j (l ∷ lots) s h = ground (
    arith,
    get_coin_age-credit_lots_ne to j lots (add_coins to (lot_amount l) l.acquired_at s) h,
    get_coin_age-add_coins_ne to j (lot_amount l) l.acquired_at s h,
  )

  add_coins-IsQueue :
      (a : Text) (n : ℕ) (t : ℤ) (s : CoinStore)
      → IsNear t
      → IsQueue (get_coin_age a s)
      → IsQueue (get_coin_age a (add_coins a n t s))
        × (weight_of a s + n * offset t ≤ weight_of a (add_coins a n t s))
  unfolding weight_of lot_of
  add_coins-IsQueue a n t s near q =
      let m = (get_params s).max_coin_age_lots in
      let near_lot : IsNear (lot_of n t).acquired_at = rw (acquired_at-lot_of n t) near in
      let grown = insert_lot-weight (get_coin_age a s) (lot_of n t) m q near_lot in
      rw (get_coin_age-add_coins a n t s) (
        insert_lot-kept (get_coin_age a s) (lot_of n t) m q near_lot,
        rw (lot_amount-lot_of n t, acquired_at-lot_of n t) at grown,
      )

  credit_lots-IsQueue :
      (to : Text) (lots : List CoinLot) (s : CoinStore)
      → AllNear lots
      → IsQueue (get_coin_age to s)
      → IsQueue (get_coin_age to (credit_lots to lots s))
        × (weight_of to s + weight lots ≤ weight_of to (credit_lots to lots s))
  unfolding credit_lots weight
  credit_lots-IsQueue to [] s near q = (q, omega arith)
  credit_lots-IsQueue to (l ∷ lots) s near q =
      let first = add_coins-IsQueue to (lot_amount l) l.acquired_at s near.0 q in
      let rest =
        credit_lots-IsQueue to lots (add_coins to (lot_amount l) l.acquired_at s) near.1 first.0 in
      (rest.0, omega (arith, first.1, rest.1))

  -- No laundering by transfer: where the payer's queue tracks the whole amount, the two queues stay
  -- in order, and their weighted stamps together do not fall, so no coin gets older on the whole.
  pub move_age-weight :
      (ctx : Ctx) (from to : Text) (n : ℕ) (s : CoinStore)
      → from ≢ to
      → IsQueue (get_coin_age from s)
      → IsQueue (get_coin_age to s)
      → n ≤ tracked from s
      → let s' = move_age ctx from to n s in
        IsQueue (get_coin_age from s')
        × IsQueue (get_coin_age to s')
        × (weight_of from s + weight_of to s ≤ weight_of from s' + weight_of to s')
  unfolding move_age spend tracked weight_of
  move_age-weight ctx from to n s apart qf qt enough =
      let now = pos ctx.block_time in
      let threshold = (get_params s).coin_age_threshold_seconds in
      let (consumed, remaining) = spend_oldest_first (get_coin_age from s) n now threshold in
      let spent = spend_tracked (get_coin_age from s) n now threshold qf enough in
      let s' = set_coin_age from remaining s in
      let at_from : get_coin_age from s' ≡ remaining =
        ground (arith, get_coin_age-set_coin_age from from remaining s) in
      let at_to : get_coin_age to s' ≡ get_coin_age to s =
        ground (arith, get_coin_age-set_coin_age from to remaining s) in
      let queue_to : IsQueue (get_coin_age to s') = rw at_to qt in
      let credited = credit_lots-IsQueue to consumed s' spent.1 queue_to in
      let kept : get_coin_age from (credit_lots to consumed s') ≡ remaining =
        get_coin_age-credit_lots_ne to from consumed s' (λ e. apart (sym e)) ∙ at_from in
      let grown : weight (get_coin_age to s) + weight consumed
          ≤ weight (get_coin_age to (credit_lots to consumed s')) =
        rw at_to at credited.1 in
      (rw kept spent.2, credited.0, rw kept (omega (arith, spent.0, grown)))
