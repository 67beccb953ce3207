-- ===== src/Coin/Messages.antt =====
-- x/coin/keeper/msg_server.go, with ValidateBasic of MsgTransfer (x/coin/types/msgs.go). A handler
-- returns the new state or an error; on an error the transaction's writes are discarded.
pub mod Transfer
use phi_chain.Base.{
  ℕ, zero, suc, ◌<◌, ◌≡◌, refl, ◌⊎◌, inl, inr, arith, Bool, true, false, not, ◌||◌, Option, none,
  some, List, [], ◌∷◌, ◌==◌, ltb, if◌then◌else◌, ℤ, pos, negsuc, pos_part, Result, ok, err, fail_if,
  or_fail, ◌>>=◌, ◌>>◌,
}
use phi_chain.Sdk.{Text, text, empty_text, Sdk}
use phi_chain.Sdk.Bank.{Bank, Account, user, module_account}
use phi_chain.Coin.Types.{CoinLot, Params}
use phi_chain.Coin.Params.{MsgTransfer, ParamsError, is_positive, validate}
use phi_chain.Coin.Age.{lot_amount}
use phi_chain.Coin.Keeper.{CoinStore, Ctx, get_params, set_params, move_age}

pub data CoinError : Type 0 where
  invalid_address same_account invalid_amount send_failed invalid_signer no_payout_address :
      CoinError
  insufficient_funds : CoinError
  invalid_params : ParamsError → CoinError

-- The bank's state beside the module's.
pub record CoinChain (B : Type 0) : Type 0 where
  pub bank : B
  pub coin : CoinStore

abbrev pub revenue_account : Account
revenue_account = module_account (text "phi_revenue")

-- The code's test `!ok || !amount.IsPositive()`, and the amount that passes it.
unfoldable pub positive_amount {κ} : {E : Type κ} → Option ℤ → E → Result E ℕ
positive_amount none e = err e
positive_amount (some z) e = if is_positive z then ok (pos_part z) else err e

pub positive-cases {κ} :
    {E : Type κ} (o : Option ℤ) (e : E)
    → (positive_amount o e ≡ err e) ⊎ ((n : ℕ) × (o ≡ some (pos n)) × (0 < n))
unfolding positive_amount
positive-cases none e = inl refl
positive-cases (some (pos zero)) e = inl refl
positive-cases (some (pos (suc n))) e = inr (suc n, refl, omega arith)
positive-cases (some (negsuc n)) e = inl (ground arith)

abbrev pub lift_params {ℓ} : {A : Type ℓ} → Result ParamsError A → Result CoinError A
lift_params (ok a) = ok a
lift_params (err e) = err (invalid_params e)

module _ ⦃sdk : Sdk⦄ where
  unfoldable pub validate_basic_transfer : MsgTransfer → Result CoinError (Unit {0})
  unfolding positive_amount
  validate_basic_transfer m = do
    _ ← or_fail (sdk.acc_address_from_bech32 m.from) invalid_address
    _ ← or_fail (sdk.acc_address_from_bech32 m.to) invalid_address
    fail_if (m.from == m.to) same_account
    _ ← positive_amount (sdk.new_int_from_string m.amount) invalid_amount
    ok tt

  module _ {B : Type 0} (bank : Bank B) where
    unfoldable pub transfer : Ctx → MsgTransfer → CoinChain B → Result CoinError (CoinChain B)
    unfolding positive_amount
    transfer ctx m c = do
      from ← or_fail (sdk.acc_address_from_bech32 m.from) invalid_address
      to ← or_fail (sdk.acc_address_from_bech32 m.to) invalid_address
      amount ← positive_amount (sdk.new_int_from_string m.amount) invalid_amount
      b ← or_fail (bank.send (user from) (user to) amount c.bank) send_failed
      ok (record { bank = b; coin = move_age ctx m.from m.to amount c.coin })

    -- `authority` is the governance account that the keeper was built with.
    unfoldable pub withdraw_revenue :
        Text → Text → Text → CoinChain B → Result CoinError (CoinChain B)
    unfolding positive_amount get_params
    withdraw_revenue authority signer amount_text c = do
      fail_if (not (signer == authority)) invalid_signer
      amount ← positive_amount (sdk.new_int_from_string amount_text) invalid_amount
      let dest = (get_params c.coin).company_payout_address
      fail_if (dest == empty_text) no_payout_address
      to ← or_fail (sdk.acc_address_from_bech32 dest) invalid_address
      b ← or_fail (bank.send revenue_account (user to) amount c.bank) insufficient_funds
      ok (record c { bank = b })

    unfoldable pub update_params :
        Text → Text → Params → CoinChain B → Result CoinError (CoinChain B)
    unfolding set_params
    update_params authority signer p c = do
      fail_if (not (signer == authority)) invalid_signer
      s ← lift_params (set_params p c.coin)
      ok (record c { coin = s })
