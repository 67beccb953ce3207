-- ===== src/Ante/Fee.antt =====
-- app/ante/fee.go: the gas ceiling and the fixed fee. A decorator returns the state that it hands to
-- the next one, or an error.
use phi_chain.Base.{
  ℕ, Bool, not, ◌&&◌, Option, none, some, List, ◌==◌, ltb, if◌then◌else◌, ℤ, pos_part, Result, ok,
  err, fail_if, or_fail, ◌>>=◌, ◌>>◌,
}
use phi_chain.Sdk.{text, Addr, Sdk}
use phi_chain.Sdk.Bank.{Bank, Account, user, module_account}
use phi_chain.Coin.Params.{Msg, is_positive}
use phi_chain.Coin.Fee.{FeeSplit, new_fee_split, compute_fee_split}
use phi_chain.Coin.Keeper.{
  CoinStore, Ctx, SubjectDid, get_params, is_micro_exempt, consume_micro_exemption,
}
use phi_chain.Coin.Messages.{revenue_account}

pub data AnteError : Type 0 where
  tx_decode invalid_gas_limit no_fee_collector fee_grants_disabled fee_grant_refused : AnteError
  unknown_address insufficient_funds : AnteError

-- What the decorators read of a transaction.
pub record Tx : Type 0 where
  pub is_fee_tx : Bool
  pub gas : ℕ
  pub fee_payer : Addr
  pub fee_granter : Option Addr
  pub msgs : List Msg

abbrev pub max_tx_gas : ℕ
max_tx_gas = 2000000

unfoldable pub max_gas : Bool → Tx → Result AnteError (Unit {0})
max_gas simulate tx = do
  fail_if (not tx.is_fee_tx) tx_decode
  fail_if (not simulate && ltb max_tx_gas tx.gas) invalid_gas_limit

abbrev pub fee_collector : Account
fee_collector = module_account (text "fee_collector")

-- x/auth and x/feegrant: whether the fee collector and an account exist, and the use of a grant by a
-- granter for a grantee, over the grants' own state.
pub record Auth (G : Type 0) : Type 0 where
  pub fee_collector_set : Bool
  pub has_account : Addr → Bool
  pub use_granted_fees : Option (Addr → Addr → ℕ → List Msg → G → Option G)

pub record FeeChain (B G : Type 0) : Type 0 where
  pub bank : B
  pub grants : G
  pub coin : CoinStore

module _ {G : Type 0} (auth : Auth G) where
  -- The account that pays `required`, and the grants after it.
  unfoldable pub deduct_from : Tx → ℕ → G → Result AnteError (Addr × G)
  deduct_from tx required g = elim tx.fee_granter [
    | none ↦ ok (tx.fee_payer, g)
    | some granter ↦ if required == 0 then ok (tx.fee_payer, g) else elim auth.use_granted_fees [
      | none ↦ err fee_grants_disabled
      | some use_granted ↦ if granter == tx.fee_payer then ok (granter, g) else do
        g' ← or_fail (use_granted granter tx.fee_payer required tx.msgs g) fee_grant_refused
        ok (granter, g')
    ]
  ]

unfoldable pub split_or_exempt : ⦃sdk : Sdk⦄ → Bool → List Msg → CoinStore → FeeSplit
split_or_exempt exempt msgs s =
    if exempt then new_fee_split else compute_fee_split (get_params s) msgs

module _ {B : Type 0} (bank : Bank B) where
  -- `if amount.IsPositive() { send }`
  unfoldable pub send_share : Addr → Account → ℤ → B → Result AnteError B
  send_share payer to amount b =
      if is_positive amount
      then or_fail (bank.send (user payer) to (pos_part amount) b) insufficient_funds
      else ok b

  unfoldable pub route_fee : Addr → FeeSplit → B → Result AnteError B
  unfolding send_share
  route_fee payer split b =
      if is_positive split.total
      then (send_share payer fee_collector split.validator b >>= λ b'.
          send_share payer revenue_account split.company b')
      else ok b

  module _ ⦃sdk : Sdk⦄ {G : Type 0} (auth : Auth G) (did : SubjectDid) where
    unfoldable pub fixed_fee : Ctx → Bool → Tx → FeeChain B G → Result AnteError (FeeChain B G)
    fixed_fee ctx simulate tx c = do
      fail_if (not tx.is_fee_tx) tx_decode
      fail_if (not auth.fee_collector_set) no_fee_collector
      let payer = sdk.addr_string tx.fee_payer
      let exempt = is_micro_exempt ctx did payer tx.msgs c.coin
      let split = split_or_exempt exempt tx.msgs c.coin
      paid ← deduct_from auth tx (pos_part split.total) c.grants
      fail_if (not (auth.has_account paid.0)) unknown_address
      b ← route_fee paid.0 split c.bank
      ok (record {
        bank = b;
        grants = paid.1;
        coin =
            if exempt && not simulate && not ctx.is_check_tx
            then consume_micro_exemption ctx did payer c.coin
            else c.coin;
      })
