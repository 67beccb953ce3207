-- ===== src/Coin/Age/Order.antt =====
-- The order of a queue of lots, and what a queue holds of each acquisition time.
use phi_chain.Base.{
  ℕ, ◌+◌, ◌≡◌, refl, List, [], ◌∷◌, ◌++◌, arith, All, ℤ, ◌≤ℤ◌, pos, leb_ℤ, ◌&&◌, Bool,
  if◌then◌else◌,
}
use phi_chain.Sdk.{Sdk}
use phi_chain.Coin.Types.{CoinLot}
use phi_chain.Coin.Age.{lot_amount, lot_of, parse_amount, total_lots}

-- No lot is older than `t`.
abbrev pub NoneOlder : ℤ → List CoinLot → Type 0
NoneOlder t lots = All (λ l. t ≤ℤ l.acquired_at) lots

-- Oldest first: the invariant that genesis validates and every FIFO operation relies on.
abbrev pub IsOldestFirst : List CoinLot → Type 0
IsOldestFirst [] = Unit
IsOldestFirst (l ∷ lots) = NoneOlder l.acquired_at lots × IsOldestFirst lots

pub NoneOlder-mono : (s t : ℤ) (lots : List CoinLot) → s ≤ℤ t → NoneOlder t lots → NoneOlder s lots
NoneOlder-mono s t [] h n = tt
NoneOlder-mono s t (l ∷ lots) h n = (omega (arith, n.0), NoneOlder-mono s t lots h n.1)

module _ ⦃sdk : Sdk⦄ where
  pub parse_amount-int_string : (n : ℕ) → parse_amount (sdk.int_string (pos n)) ≡ n
  unfolding parse_amount
  parse_amount-int_string n = rw (sdk.parse-string (pos n))

  -- A lot that is written is read back.
  pub lot_amount-lot_of : (n : ℕ) (t : ℤ) → lot_amount (lot_of n t) ≡ n
  unfolding lot_amount lot_of
  lot_amount-lot_of n t = parse_amount-int_string n

  pub acquired_at-lot_of : (n : ℕ) (t : ℤ) → (lot_of n t).acquired_at ≡ t
  unfolding lot_of
  acquired_at-lot_of n t = refl

  pub total_lots-append :
      (xs ys : List CoinLot) → total_lots (xs ++ ys) ≡ total_lots xs + total_lots ys
  unfolding total_lots
  total_lots-append [] ys = omega arith
  total_lots-append (x ∷ xs) ys = omega (arith, total_lots-append xs ys)

  abbrev is_at : ℤ → CoinLot → Bool
  is_at t l = leb_ℤ t l.acquired_at && leb_ℤ l.acquired_at t

  -- The amount of the queue that was acquired at exactly `t`.
  unfoldable pub amount_at : ℤ → List CoinLot → ℕ
  amount_at t [] = 0
  amount_at t (l ∷ lots) = (if is_at t l then lot_amount l else 0) + amount_at t lots
