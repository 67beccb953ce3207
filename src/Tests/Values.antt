-- ===== src/Tests/Values.antt =====
-- Inputs for the tests: a parameter set, a queue of three lots, and a chain.
use phi_chain.Base.{ℕ, ◌≡◌, refl, none, some, List, [], ◌∷◌, pos, ok, ◌+◌, false}
use phi_chain.Sdk.{Text, empty_text}
use phi_chain.Sdk.Sample.{sample_sdk, amount_text, Ledger, rich_ledger}
use phi_chain.Coin.Types.{Params, CoinLot}
use phi_chain.Coin.Params.{Msg, MsgTransfer, validate, check_fees, check_splits}
use phi_chain.Coin.Keeper.{CoinStore, Ctx, SubjectDid}
use phi_chain.Coin.Messages.{CoinChain}

abbrev pub sample_params : Params
sample_params = record {
  fees = record { msg_type_url = 7; fee = amount_text 30 } ∷ [];
  splits = record { msg_type_url = 7; validator_bps = 9000; company_bps = 1000 } ∷ [];
  default_fee = amount_text 50;
  micro_threshold = amount_text 100;
  micro_daily_quota = 10;
  coin_age_threshold_seconds = pos 1000;
  young_penalty_bps = 100;
  old_penalty_bps = 20;
  max_coin_age_lots = 3;
  company_payout_address = empty_text;
  agreement_extra_signer_fee = amount_text 5;
  agreement_free_signers = 5;
}

pub sample_params-valid : validate sample_params ≡ ok tt
unfolding validate check_fees check_splits
sample_params-valid = refl

abbrev pub lot : ℕ → ℕ → CoinLot
lot n t = record { amount = amount_text n; acquired_at = pos t }

abbrev pub three_lots : List CoinLot
three_lots = lot 10 100 ∷ lot 20 200 ∷ lot 30 300 ∷ []

abbrev pub alice : Text
alice = 11

abbrev pub bob : Text
bob = 12

abbrev pub sample_store : CoinStore
sample_store = record {
  params = some sample_params;
  coin_ages = (alice, three_lots) ∷ (bob, lot 5 50 ∷ lot 6 250 ∷ []) ∷ [];
  micro_quota = ((3, alice), 2) ∷ ((9, 21), 4) ∷ [];
}

abbrev pub sample_ctx : Ctx
sample_ctx = record { block_time = 864000; is_check_tx = false }

abbrev pub pay_bob : MsgTransfer
pay_bob = record { from = alice; to = bob; amount = amount_text 25 }

abbrev pub transfer_msg : Msg
transfer_msg = record { type_url = 7; required_signers = none; transfer = some pay_bob }

abbrev pub other_msg : Msg
other_msg = record { type_url = 8; required_signers = none; transfer = none }

-- Everybody's identity is the address and ten.
abbrev pub sample_did : SubjectDid
sample_did = some (λ a. some (a + 10))

abbrev pub sample_chain : CoinChain Ledger
sample_chain = record { bank = rich_ledger; coin = sample_store }
