-- ===== src/Coin/Params.antt =====
-- x/coin/types/params.go: the governed parameters, their validation, and the fee of a message.

pub mod Valid
use phi_chain.Base.{
  ℕ, ◌+◌, ◌-◌, ◌*◌, ◌/◌, Bool, true, false, not, ◌&&◌, ◌||◌, Option, none, some, List, [], ◌∷◌, ltb,
  leb, ◌==◌, if◌then◌else◌, ℤ, pos, negsuc, pos_part, ltb_ℤ, ◌+ℤ◌, sub_ℕ, Result, ok, err, fail_if,
  or_fail, ◌>>=◌, ◌>>◌,
}
use phi_chain.Sdk.{Text, text, empty_text, Sdk}
use phi_chain.Coin.Types.{
  Params, FeeEntry, SplitEntry, default_max_coin_age_lots, min_coin_age_lots,
  max_coin_age_lots_ceiling, max_micro_threshold_uphi, max_micro_daily_quota, bps_denominator,
  max_protocol_fee_reserve_bps,
}

abbrev pub msg_transfer_type_url : Text
msg_transfer_type_url = text "/phi.coin.MsgTransfer"

abbrev pub msg_anchor_personal_type_url : Text
msg_anchor_personal_type_url = text "/phi.credentials.MsgAnchorPersonal"

abbrev pub msg_create_agreement_type_url : Text
msg_create_agreement_type_url = text "/phi.credentials.MsgCreateAgreement"

pub record MsgTransfer : Type 0 where
  pub from : Text
  pub to : Text
  pub amount : Text

-- What the fee path reads of a message: its type URL, the count of GetRequiredSigners where it has
-- that method, and its fields where it is a MsgTransfer.
pub record Msg : Type 0 where
  pub type_url : Text
  pub required_signers : Option ℕ
  pub transfer : Option MsgTransfer

pub data ParamsError : Type 0 where
  invalid_default_fee default_fee_not_positive invalid_micro_threshold : ParamsError
  negative_micro_threshold micro_threshold_above_cap micro_quota_above_cap : ParamsError
  fee_without_url invalid_fee invalid_surcharge negative_coin_age_threshold : ParamsError
  penalties_too_high lots_out_of_range split_without_url duplicate_split : ParamsError
  split_above_whole invalid_payout_address : ParamsError

abbrev pub is_positive : ℤ → Bool
is_positive z = ltb_ℤ (pos 0) z

abbrev pub is_negative : ℤ → Bool
is_negative z = ltb_ℤ z (pos 0)

abbrev pub contains : Text → List Text → Bool
contains t [] = false
contains t (s ∷ ts) = (s == t) || contains t ts

module _ ⦃sdk : Sdk⦄ where
  abbrev fee_of : Text → Result ParamsError (Unit {0})
  fee_of s = do
    v ← or_fail (sdk.new_int_from_string s) invalid_fee
    fail_if (is_negative v) invalid_fee

  unfoldable pub check_fees : List FeeEntry → Result ParamsError (Unit {0})
  check_fees [] = ok tt
  check_fees (f ∷ fs) = do
    fail_if (f.msg_type_url == empty_text) fee_without_url
    fee_of f.fee
    check_fees fs

  abbrev check_surcharge : Text → Result ParamsError (Unit {0})
  check_surcharge s = if s == empty_text then ok tt else do
    v ← or_fail (sdk.new_int_from_string s) invalid_surcharge
    fail_if (is_negative v) invalid_surcharge

  -- `seen` is the set of the URLs before.
  unfoldable pub check_splits : List Text → List SplitEntry → Result ParamsError (Unit {0})
  check_splits seen [] = ok tt
  check_splits seen (s ∷ ss) = do
    fail_if (s.msg_type_url == empty_text) split_without_url
    fail_if (contains s.msg_type_url seen) duplicate_split
    fail_if (ltb bps_denominator (s.validator_bps + s.company_bps)) split_above_whole
    check_splits (s.msg_type_url ∷ seen) ss

  abbrev check_payout : Text → Result ParamsError (Unit {0})
  check_payout a =
      if a == empty_text
      then ok tt
      else do _ ← or_fail (sdk.acc_address_from_bech32 a) invalid_payout_address; ok tt

  -- `Params.Validate`
  unfoldable pub validate : Params → Result ParamsError (Unit {0})
  validate p = do
    fee ← or_fail (sdk.new_int_from_string p.default_fee) invalid_default_fee
    fail_if (not (is_positive fee)) default_fee_not_positive
    mt ← or_fail (sdk.new_int_from_string p.micro_threshold) invalid_micro_threshold
    fail_if (is_negative mt) negative_micro_threshold
    fail_if (ltb_ℤ (pos max_micro_threshold_uphi) mt) micro_threshold_above_cap
    fail_if (ltb max_micro_daily_quota p.micro_daily_quota) micro_quota_above_cap
    check_fees p.fees
    check_surcharge p.agreement_extra_signer_fee
    fail_if (is_negative p.coin_age_threshold_seconds) negative_coin_age_threshold
    fail_if
        (leb (bps_denominator - max_protocol_fee_reserve_bps)
          (p.young_penalty_bps + p.old_penalty_bps))
        penalties_too_high
    fail_if
        (ltb p.max_coin_age_lots min_coin_age_lots
          || ltb max_coin_age_lots_ceiling p.max_coin_age_lots)
        lots_out_of_range
    check_splits [] p.splits
    check_payout p.company_payout_address

  -- The first entry for the URL whose fee can be read.
  unfoldable pub fee_entry : List FeeEntry → Text → Option ℤ
  fee_entry [] url = none
  fee_entry (f ∷ fs) url =
      let rest = fee_entry fs url in
      if f.msg_type_url == url
      then elim (sdk.new_int_from_string f.fee) [ some v ↦ some v | none ↦ rest ]
      else rest

  abbrev or_zero : Option ℤ → ℤ
  or_zero (some v) = v
  or_zero none = pos 0

  unfoldable pub fee_for : Params → Text → ℤ
  unfolding fee_entry
  fee_for p url = elim (fee_entry p.fees url) [
    | some v ↦ v
    | none ↦ or_zero (sdk.new_int_from_string p.default_fee)
  ]

  -- The surcharge for `signers` required signers.
  abbrev extra_signers : Params → ℕ → ℕ
  extra_signers p signers =
      if leb signers p.agreement_free_signers
      then 0
      else elim (sdk.new_int_from_string p.agreement_extra_signer_fee) [
        | some extra ↦
            if is_positive extra then pos_part extra * (signers - p.agreement_free_signers) else 0
        | none ↦ 0
      ]

  unfoldable pub agreement_surcharge : Params → Msg → ℕ
  agreement_surcharge p msg =
      if msg.type_url == msg_create_agreement_type_url
      then elim msg.required_signers [ some n ↦ extra_signers p n | none ↦ 0 ]
      else 0

  unfoldable pub fee_for_msg : Params → Msg → ℤ
  fee_for_msg p msg = fee_for p msg.type_url +ℤ pos (agreement_surcharge p msg)

  unfoldable pub micro_threshold_int : Params → ℤ
  micro_threshold_int p = or_zero (sdk.new_int_from_string p.micro_threshold)

unfoldable pub split_for : List SplitEntry → Text → SplitEntry
split_for [] url = record { msg_type_url = url; validator_bps = bps_denominator; company_bps = 0 }
split_for (s ∷ ss) url = if s.msg_type_url == url then s else split_for ss url

-- The company's share of a positive fee, and the validator's as the remainder.
unfoldable pub company_share : SplitEntry → ℕ → ℕ × ℤ
company_share s fee =
    let company = fee * s.company_bps / bps_denominator in (company, sub_ℕ fee company)
