-- ===== src/Coin/Keeper.antt =====
-- x/coin/keeper/keeper.go and the micro-exemption of x/coin/keeper/fee.go. A store prefix is a map;
-- a block time is in seconds from 1970 on.

pub mod Ages
pub mod Weights
pub mod Quota
use phi_chain.Base.{
  ℕ, ◌+◌, ◌-◌, ◌*◌, ◌/◌, ◌%◌, ◌^◌, Bool, true, false, Option, none, some, List, [], ◌∷◌, ◌++◌, ltb,
  leb, ◌==◌, if◌then◌else◌, not, ◌&&◌, ℤ, pos, leb_ℤ, Map, lookup, insert, erase, Result, ok, err,
  fail_if, ◌>>=◌, ◌>>◌,
}
use phi_chain.Base.{nat_eq, pair_eq}
use phi_chain.Sdk.{Text, text, empty_text, Sdk}
use phi_chain.Coin.Types.{Params, CoinLot, FeeEntry, SplitEntry, bps_denominator}
use phi_chain.Coin.Params.{
  Msg, MsgTransfer, ParamsError, validate, micro_threshold_int, msg_transfer_type_url,
  msg_anchor_personal_type_url, msg_create_agreement_type_url,
}
use phi_chain.Coin.Age.{spend_oldest_first, insert_lot, lot_of, lot_amount, penalty_for_lots}

pub record CoinStore : Type 0 where
  pub params : Option Params
  -- address → the lots of its CoinAge
  pub coin_ages : Map Text (List CoinLot)
  -- (day, subject) → uses of the micro-exemption
  pub micro_quota : Map (ℕ × Text) ℕ

pub record Ctx : Type 0 where
  pub block_time : ℕ
  pub is_check_tx : Bool

unfoldable pub default_params : Params
default_params = record {
  fees =
      record { msg_type_url = msg_transfer_type_url; fee = text "5000" }
      ∷ record { msg_type_url = msg_anchor_personal_type_url; fee = text "120000" }
      ∷ record { msg_type_url = msg_create_agreement_type_url; fee = text "50000" }
      ∷ [];
  splits =
      record { msg_type_url = msg_transfer_type_url; validator_bps = 9000; company_bps = 1000 }
      ∷ record {
        msg_type_url = msg_anchor_personal_type_url;
        validator_bps = 0;
        company_bps = bps_denominator;
      }
      ∷ [];
  default_fee = text "5000";
  micro_threshold = text "50000";
  micro_daily_quota = 10;
  coin_age_threshold_seconds = pos 604800;
  young_penalty_bps = 100;
  old_penalty_bps = 20;
  max_coin_age_lots = 64;
  company_payout_address = empty_text;
  agreement_extra_signer_fee = text "5000";
  agreement_free_signers = 5;
}

unfoldable pub get_params : CoinStore → Params
get_params s = elim s.params [ none ↦ default_params | some p ↦ p ]

abbrev or_empty : Option (List CoinLot) → List CoinLot
or_empty none = []
or_empty (some lots) = lots

-- The lots of an address; none if it has no entry.
unfoldable pub get_coin_age : Text → CoinStore → List CoinLot
get_coin_age a s = or_empty (lookup a s.coin_ages)

-- An empty queue is deleted.
unfoldable pub set_coin_age : Text → List CoinLot → CoinStore → CoinStore
set_coin_age a lots s = elim lots [
  | [] ↦ record s { coin_ages = erase a s.coin_ages }
  | l ∷ ls ↦ record s { coin_ages = insert a (l ∷ ls) s.coin_ages }
]

abbrev or_zero : Option ℕ → ℕ
or_zero none = 0
or_zero (some n) = n

abbrev pub seconds_per_day : ℕ
seconds_per_day = 86400

abbrev pub micro_quota_retention_days : ℕ
micro_quota_retention_days = 7

abbrev pub micro_quota_prune_budget : ℕ
micro_quota_prune_budget = 256

unfoldable pub get_micro_used : ℕ → Text → CoinStore → ℕ
get_micro_used day a s = or_zero (lookup (day, a) s.micro_quota)

unfoldable pub incr_micro_used : ℕ → Text → CoinStore → CoinStore
unfolding get_micro_used
incr_micro_used day a s = record s {
  micro_quota = insert (day, a) ((get_micro_used day a s + 1) % 2 ^ 64) s.micro_quota;
}

-- The iterator from the prefix up to the bound of `cutoff` yields the keys of the days before it;
-- the first `budget` of them are deleted. (The map is in no order, so which come first is open.)
unfoldable pub prune_before : ℕ → ℕ → Map (ℕ × Text) ℕ → Map (ℕ × Text) ℕ
prune_before cutoff budget [] = []
prune_before cutoff budget (e ∷ m) =
    let stale = ltb e.0.0 cutoff && ltb 0 budget in
    let rest = prune_before cutoff (if stale then budget - 1 else budget) m in
    if stale then rest else e ∷ rest

unfoldable pub prune_micro_quota : Ctx → CoinStore → CoinStore
unfolding prune_before
prune_micro_quota ctx s =
    let day = ctx.block_time / seconds_per_day in
    if leb day micro_quota_retention_days then s else record s {
      micro_quota =
          prune_before (day - micro_quota_retention_days) micro_quota_prune_budget s.micro_quota;
    }

module _ ⦃sdk : Sdk⦄ where
  unfoldable pub set_params : Params → CoinStore → Result ParamsError CoinStore
  set_params p s = do validate p; ok (record s { params = some p })

  unfoldable pub add_coins : Text → ℕ → ℤ → CoinStore → CoinStore
  add_coins a amount acquired_at s =
      if amount == 0
      then s
      else set_coin_age a
          (insert_lot (get_coin_age a s) (lot_of amount acquired_at)
            (get_params s).max_coin_age_lots)
          s

  -- `Keeper.SpendOldestFirst`: the lots that were consumed, and the store with the rest.
  unfoldable pub spend : Ctx → Text → ℕ → CoinStore → List CoinLot × CoinStore
  spend ctx a amount s =
      let (consumed, remaining) =
        spend_oldest_first (get_coin_age a s) amount (pos ctx.block_time)
          (get_params s).coin_age_threshold_seconds in
      (consumed, set_coin_age a remaining s)

  -- Step 2 of `Transfer`: each consumed lot is credited with its own time.
  unfoldable pub credit_lots : Text → List CoinLot → CoinStore → CoinStore
  credit_lots to [] s = s
  credit_lots to (l ∷ lots) s = credit_lots to lots (add_coins to (lot_amount l) l.acquired_at s)

  -- The age of `amount` moves from one address to the other.
  unfoldable pub move_age : Ctx → Text → Text → ℕ → CoinStore → CoinStore
  unfolding spend credit_lots
  move_age ctx from to amount s = let (lots, s') = spend ctx from amount s in credit_lots to lots s'

  unfoldable pub early_redeem_penalty : Ctx → Text → ℕ → CoinStore → ℕ × CoinStore
  unfolding spend get_params
  early_redeem_penalty ctx a redeem_uphi s =
      if redeem_uphi == 0
      then (0, s)
      else let (consumed, s') = spend ctx a redeem_uphi s in
        (penalty_for_lots consumed (pos ctx.block_time) (get_params s'), s')

-- x/identity as the coin module sees it: `none` if no identity keeper is wired.
abbrev pub SubjectDid : Type 0
SubjectDid = Option (Text → Option Text)

unfoldable pub micro_exemption_subject : SubjectDid → Text → Option Text
micro_exemption_subject none a = none
micro_exemption_subject (some subject_did) a = elim (subject_did a) [
  | none ↦ none
  | some did ↦ if did == empty_text then none else some did
]

abbrev single_transfer : List Msg → Option MsgTransfer
single_transfer [] = none
single_transfer (m ∷ []) = m.transfer
single_transfer (m ∷ n ∷ msgs) = none

module _ ⦃sdk : Sdk⦄ where
  abbrev below_threshold : Params → Option ℤ → Bool
  below_threshold p none = false
  below_threshold p (some amt) = not (leb_ℤ (micro_threshold_int p) amt)

  abbrev within_quota : Ctx → SubjectDid → Text → Text → CoinStore → Bool
  within_quota ctx did payer to s = elim (micro_exemption_subject did payer) [
    | none ↦ false
    | some subject ↦ elim (micro_exemption_subject did to) [
      | none ↦ false
      | some _ ↦
          ltb (get_micro_used (ctx.block_time / seconds_per_day) subject s)
            (get_params s).micro_daily_quota
    ]
  ]

  unfoldable pub is_micro_exempt : Ctx → SubjectDid → Text → List Msg → CoinStore → Bool
  unfolding micro_exemption_subject
  is_micro_exempt ctx did payer msgs s =
      if (get_params s).micro_daily_quota == 0 then false else elim (single_transfer msgs) [
        | none ↦ false
        | some t ↦
            below_threshold (get_params s) (sdk.new_int_from_string t.amount)
            && within_quota ctx did payer t.to s
      ]

unfoldable pub consume_micro_exemption : Ctx → SubjectDid → Text → CoinStore → CoinStore
unfolding micro_exemption_subject incr_micro_used
consume_micro_exemption ctx did payer s = elim (micro_exemption_subject did payer) [
  | none ↦ s
  | some subject ↦ incr_micro_used (ctx.block_time / seconds_per_day) subject s
]
