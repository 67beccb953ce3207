-- ===== src/Coin/Fee.antt =====
-- x/coin/types/fee_split.go and ComputeFeeSplit of x/coin/keeper/fee.go: the fee of a transaction
-- and where it goes.
pub mod Split
use phi_chain.Base.{
  ℕ, Bool, true, false, List, [], ◌∷◌, ◌++◌, if◌then◌else◌, ℤ, pos, pos_part, ltb_ℤ, ◌+ℤ◌,
}
use phi_chain.Sdk.{Text, Sdk}
use phi_chain.Coin.Types.{Params}
use phi_chain.Coin.Params.{Msg, is_positive, fee_for_msg, split_for, company_share}

pub data Stream : Type 0 where
  stream_validator stream_company : Stream

pub record RevenueLeg : Type 0 where
  pub msg_type_url : Text
  pub stream : Stream
  pub amount : ℤ

pub record FeeSplit : Type 0 where
  pub total : ℤ
  pub validator : ℤ
  pub company : ℤ
  pub legs : List RevenueLeg

unfoldable pub new_fee_split : FeeSplit
new_fee_split = record { total = pos 0; validator = pos 0; company = pos 0; legs = [] }

-- `if amount.IsPositive() { append }`
unfoldable pub leg_of : Text → Stream → ℤ → List RevenueLeg
leg_of url s amount =
    if is_positive amount
    then record { msg_type_url = url; stream = s; amount = amount } ∷ []
    else []

-- The split with a positive fee added to it.
unfoldable pub add_fee : Params → Text → ℕ → FeeSplit → FeeSplit
add_fee p url fee out =
    let (company, validator) = company_share (split_for p.splits url) fee in
    record {
      total = out.total +ℤ pos fee;
      company = out.company +ℤ pos company;
      validator = out.validator +ℤ validator;
      legs =
          out.legs
          ++ (leg_of url Stream.stream_validator validator
              ++ leg_of url Stream.stream_company (pos company));
    }

module _ ⦃sdk : Sdk⦄ where
  unfoldable pub add_msg : Params → Msg → FeeSplit → FeeSplit
  add_msg p m out =
      let fee = fee_for_msg p m in
      if is_positive fee then add_fee p m.type_url (pos_part fee) out else out

  unfoldable pub split_from : Params → List Msg → FeeSplit → FeeSplit
  split_from p [] out = out
  split_from p (m ∷ msgs) out = split_from p msgs (add_msg p m out)

  unfoldable pub compute_fee_split : Params → List Msg → FeeSplit
  unfolding split_from new_fee_split
  compute_fee_split p msgs = split_from p msgs new_fee_split
