-- ===== src/Tests/Handlers.antt =====
-- Tests of the coin keeper, its handlers and the fee decorator.
use phi_chain.Base.{
  ℕ, ◌+◌, ◌-◌, ◌/◌, ◌≤◌, ◌<◌, ◌≡◌, ◌≢◌, refl, ◌⊎◌, arith, true, false, none, some, [], ◌∷◌, length,
  lookup, ◌+ℤ◌, ◌^◌, ok,
}
use phi_chain.Sdk.{Text, Addr}
use phi_chain.Sdk.Sample.{sample_sdk, sample_bank, Ledger, rich_ledger, state_after}
use phi_chain.Tests.Values.{
  sample_params-valid, alice, bob, sample_store, sample_ctx, pay_bob, transfer_msg, other_msg,
  sample_did, sample_chain,
}
use phi_chain.Tests.Ages.{three_lots-IsQueue}
use phi_chain.Coin.Age.{parse_amount, lot_amount, total_lots}
use phi_chain.Coin.Params.{
  micro_threshold_int, fee_for_msg, fee_for, agreement_surcharge, company_share, split_for,
  validate,
}
use phi_chain.Coin.Fee.{compute_fee_split, add_msg, add_fee, new_fee_split}
use phi_chain.Coin.Age.Queue.{IsQueue}
use phi_chain.Coin.Keeper.{
  get_params, get_coin_age, move_age, get_micro_used, is_micro_exempt, consume_micro_exemption,
  prune_micro_quota, seconds_per_day, micro_quota_retention_days, micro_quota_prune_budget,
  micro_exemption_subject,
}
use phi_chain.Coin.Keeper.Ages.{tracked, tracked-move_age}
use phi_chain.Coin.Keeper.Weights.{weight_of, move_age-weight}
use phi_chain.Coin.Keeper.Quota.{consume-within_quota, prune_micro_quota-live}
use phi_chain.Coin.Messages.{CoinChain, transfer, positive_amount}
use phi_chain.Coin.Messages.Transfer.{Transferred, transfer-Transferred}
use phi_chain.Ante.Fee.{
  Tx, Auth, FeeChain, deduct_from, route_fee, send_share, split_or_exempt, fixed_fee,
}
use phi_chain.Ante.Charge.{Charged, fixed_fee-Charged}

tracked-move_age_example :
    let s' = move_age sample_ctx alice bob 25 sample_store in
    (tracked bob s' ≡ tracked bob sample_store + 25)
    × (tracked alice s' ≡ tracked alice sample_store - 25)
    × ((j : Text) → j ≢ alice → j ≢ bob → tracked j s' ≡ tracked j sample_store)
tracked-move_age_example =
    tracked-move_age sample_ctx alice bob 25 sample_store (λ e. absurd (ground arith))

alice-IsQueue : IsQueue (get_coin_age alice sample_store)
unfolding get_coin_age lookup
alice-IsQueue = three_lots-IsQueue

bob-IsQueue : IsQueue (get_coin_age bob sample_store)
unfolding get_coin_age lookup
bob-IsQueue = record {
  ordered = ((omega arith, tt), (tt, tt));
  near = ((omega arith, omega arith), ((omega arith, omega arith), tt));
}

alice-enough : 25 ≤ tracked alice sample_store
unfolding tracked get_coin_age lookup total_lots lot_amount parse_amount
alice-enough = omega arith

move_age-weight_example :
    let s' = move_age sample_ctx alice bob 25 sample_store in
    IsQueue (get_coin_age alice s')
    × IsQueue (get_coin_age bob s')
    × (weight_of alice sample_store + weight_of bob sample_store
        ≤ weight_of alice s' + weight_of bob s')
move_age-weight_example =
    move_age-weight sample_ctx alice bob 25 sample_store (λ e. absurd (ground arith)) alice-IsQueue
      bob-IsQueue alice-enough

sample-exempt : is_micro_exempt sample_ctx sample_did alice (transfer_msg ∷ []) sample_store ≡ true
unfolding is_micro_exempt micro_exemption_subject get_micro_used get_params lookup
    micro_threshold_int
sample-exempt = refl

small : (get_params sample_store).micro_daily_quota < 2 ^ 64
unfolding get_params
small = omega arith

consume-within_quota_example :
    let s' = consume_micro_exemption sample_ctx sample_did alice sample_store in
    let day = sample_ctx.block_time / seconds_per_day in
    (subject : Text) × (micro_exemption_subject sample_did alice ≡ some subject)
    × (get_micro_used day subject s' ≡ get_micro_used day subject sample_store + 1)
    × (get_micro_used day subject s' ≤ (get_params s').micro_daily_quota)
    × ((e : ℕ) (b : Text)
        → (e ≢ day) ⊎ (b ≢ subject)
        → get_micro_used e b s' ≡ get_micro_used e b sample_store)
consume-within_quota_example =
    consume-within_quota sample_ctx sample_did alice (transfer_msg ∷ []) sample_store small
      sample-exempt

prune_micro_quota-live_example :
    let s' = prune_micro_quota sample_ctx sample_store in
    ((day : ℕ) (a : Text)
      → sample_ctx.block_time / seconds_per_day ≤ day + micro_quota_retention_days
      → get_micro_used day a s' ≡ get_micro_used day a sample_store)
    × (length sample_store.micro_quota ≤ length s'.micro_quota + micro_quota_prune_budget)
prune_micro_quota-live_example = prune_micro_quota-live sample_ctx sample_store

abbrev after_transfer : CoinChain Ledger
after_transfer = state_after sample_chain (transfer sample_bank sample_ctx pay_bob sample_chain)

transfer_runs : transfer sample_bank sample_ctx pay_bob sample_chain ≡ ok after_transfer
unfolding transfer positive_amount sample_bank
transfer_runs = refl

transfer-Transferred_example :
    (amount : ℕ) × Transferred sample_bank pay_bob 10 11 sample_chain after_transfer amount
transfer-Transferred_example =
    transfer-Transferred sample_bank sample_ctx pay_bob 10 11 sample_chain after_transfer refl refl
      (λ e. absurd (ground (arith, e))) transfer_runs

-- Every account exists, and no fee grant is in use.
abbrev sample_auth : Auth ℕ
sample_auth = record { fee_collector_set = true; has_account = λ a. true; use_granted_fees = none }

abbrev two_msgs : Tx
two_msgs = record {
  is_fee_tx = true;
  gas = 100000;
  fee_payer = 10;
  fee_granter = none;
  msgs = transfer_msg ∷ other_msg ∷ [];
}

abbrev sample_fee_chain : FeeChain Ledger ℕ
sample_fee_chain = record { bank = rich_ledger; grants = 0; coin = sample_store }

abbrev after_fee : FeeChain Ledger ℕ
after_fee =
    state_after sample_fee_chain
      (fixed_fee sample_bank sample_auth sample_did sample_ctx false two_msgs sample_fee_chain)

fee_runs :
    fixed_fee sample_bank sample_auth sample_did sample_ctx false two_msgs sample_fee_chain
    ≡ ok after_fee
unfolding fixed_fee deduct_from route_fee send_share split_or_exempt compute_fee_split add_msg
    add_fee new_fee_split fee_for_msg fee_for agreement_surcharge company_share split_for
    is_micro_exempt get_params sample_bank ◌+ℤ◌
fee_runs = refl

sample-valid : validate (get_params sample_fee_chain.coin) ≡ ok tt
unfolding get_params
sample-valid = sample_params-valid

fixed_fee-Charged_example :
    let exempt = is_micro_exempt sample_ctx sample_did 11 two_msgs.msgs sample_store in
    let split = split_or_exempt exempt two_msgs.msgs sample_store in
    (payer : Addr) × (sample_auth.has_account payer ≡ true)
    × ((payer ≡ two_msgs.fee_payer) ⊎ (two_msgs.fee_granter ≡ some payer))
    × Charged sample_bank payer split sample_fee_chain.bank after_fee.bank
    × (exempt ≡ true → after_fee.bank ≡ sample_fee_chain.bank)
fixed_fee-Charged_example =
    fixed_fee-Charged sample_bank sample_auth sample_did sample_ctx false two_msgs sample_fee_chain
      after_fee sample-valid fee_runs
