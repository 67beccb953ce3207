-- ===== src/Coin/Keeper/Ages.antt =====
-- Proofs about the coin ages of the store.
use phi_chain.Base.{
  ℕ, ◌+◌, ◌-◌, ◌≡◌, ◌≢◌, ap, List, [], ◌∷◌, arith, ◌==◌, ==_iff, if◌then◌else◌, ℤ, pos, nat_eq,
  lookup-insert, lookup-erase,
}
use phi_chain.Sdk.{Text, Sdk}
use phi_chain.Coin.Types.{CoinLot}
use phi_chain.Coin.Age.{lot_amount, total_lots, spend_oldest_first, insert_lot, lot_of}
use phi_chain.Coin.Age.Order.{lot_amount-lot_of}
use phi_chain.Coin.Age.Spend.{spend_oldest_first-total}
use phi_chain.Coin.Age.Insert.{insert_lot-total}
use phi_chain.Coin.Keeper.{
  CoinStore, Ctx, get_params, get_coin_age, set_coin_age, add_coins, spend, credit_lots, move_age,
}

pub get_coin_age-set_coin_age :
    (a j : Text) (lots : List CoinLot) (s : CoinStore)
    → get_coin_age j (set_coin_age a lots s) ≡ (if a == j then lots else get_coin_age j s)
unfolding get_coin_age set_coin_age
get_coin_age-set_coin_age a j [] s = ground (arith, lookup-erase a j s.coin_ages)
get_coin_age-set_coin_age a j (l ∷ ls) s = ground (arith, lookup-insert a j (l ∷ ls) s.coin_ages)

module _ ⦃sdk : Sdk⦄ where
  -- The amount that the store tracks for an address.
  unfoldable pub tracked : Text → CoinStore → ℕ
  tracked a s = total_lots (get_coin_age a s)

  tracked-add_coins :
      (a j : Text) (n : ℕ) (t : ℤ) (s : CoinStore)
      → tracked j (add_coins a n t s) ≡ tracked j s + (if a == j then n else 0)
  unfolding tracked add_coins
  tracked-add_coins a j n t s =
      let lot = lot_of n t in
      let m = (get_params s).max_coin_age_lots in
      let lots = insert_lot (get_coin_age a s) lot m in
      let e = get_coin_age-set_coin_age a j lots s in
      ground (
        arith,
        ==_iff a j,
        ap total_lots e,
        insert_lot-total (get_coin_age a s) lot m,
        lot_amount-lot_of n t,
      )

  tracked-spend :
      (ctx : Ctx) (a j : Text) (n : ℕ) (s : CoinStore)
      → let (lots, s') = spend ctx a n s in
        (total_lots lots ≡ n) × (tracked j s' ≡ (if a == j then tracked j s - n else tracked j s))
  unfolding tracked spend
  tracked-spend ctx a j n s =
      let now = pos ctx.block_time in
      let threshold = (get_params s).coin_age_threshold_seconds in
      let (consumed, remaining) = spend_oldest_first (get_coin_age a s) n now threshold in
      ground (
        arith,
        ==_iff a j,
        spend_oldest_first-total (get_coin_age a s) n now threshold,
        ap total_lots (get_coin_age-set_coin_age a j remaining s),
      )

  tracked-credit_lots :
      (to j : Text) (lots : List CoinLot) (s : CoinStore)
      → tracked j (credit_lots to lots s) ≡ tracked j s + (if to == j then total_lots lots else 0)
  unfolding credit_lots total_lots
  tracked-credit_lots to j [] s = ground arith
  tracked-credit_lots to j (l ∷ lots) s = ground (
    arith,
    tracked-credit_lots to j lots (add_coins to (lot_amount l) l.acquired_at s),
    tracked-add_coins to j (lot_amount l) l.acquired_at s,
  )

  -- Between two addresses the tracked amounts move: the payee gains the amount, the payer loses it
  -- as far as it was tracked, and every other address keeps what it had.
  pub tracked-move_age :
      (ctx : Ctx) (from to : Text) (n : ℕ) (s : CoinStore)
      → from ≢ to
      → let s' = move_age ctx from to n s in
        (tracked to s' ≡ tracked to s + n)
        × (tracked from s' ≡ tracked from s - n)
        × ((j : Text) → j ≢ from → j ≢ to → tracked j s' ≡ tracked j s)
  unfolding move_age
  tracked-move_age ctx from to n s apart =
      let (lots, s') = spend ctx from n s in
      (
        ground (arith, tracked-spend ctx from to n s, tracked-credit_lots to to lots s'),
        ground (arith, tracked-spend ctx from from n s, tracked-credit_lots to from lots s'),
        λ j not_from not_to.
            ground (arith, tracked-spend ctx from j n s, tracked-credit_lots to j lots s'),
      )
