-- ===== src/Coin/Fee/Split.antt =====
-- Proofs about ComputeFeeSplit.
use phi_chain.Base.{
  ℕ, ◌*◌, ◌/◌, ◌≤◌, ◌≡◌, List, [], ◌∷◌, ◌++◌, arith, ℤ, pos, pos_part, ◌+ℤ◌, ◌≤ℤ◌, int_laws, ok,
  inl, inr, Bool-cases,
}
use phi_chain.Sdk.{Text, Sdk}
use phi_chain.Coin.Types.{Params, SplitEntry, bps_denominator}
use phi_chain.Coin.Params.{Msg, is_positive, fee_for_msg, split_for, company_share, validate}
use phi_chain.Coin.Params.Valid.{SharesWithinWhole, validate-IsSound}
use phi_chain.Coin.Fee.{
  Stream, RevenueLeg, FeeSplit, new_fee_split, leg_of, add_fee, add_msg, split_from,
  compute_fee_split,
}

pub sum_legs : List RevenueLeg → ℤ
sum_legs [] = pos 0
sum_legs (l ∷ ls) = l.amount +ℤ sum_legs ls

sum_legs-append : (xs ys : List RevenueLeg) → sum_legs (xs ++ ys) ≡ sum_legs xs +ℤ sum_legs ys
unfolding sum_legs
sum_legs-append [] ys = omega int_laws
sum_legs-append (x ∷ xs) ys = rw (sum_legs-append xs ys) (omega int_laws)

-- No part of a split is negative, the two shares make up the total, and so do the legs.
pub record IsBalanced (s : FeeSplit) : Type 0 where
  pub shares : s.validator +ℤ s.company ≡ s.total
  pub validator_nonneg : pos 0 ≤ℤ s.validator
  pub company_nonneg : pos 0 ≤ℤ s.company
  pub legs : sum_legs s.legs ≡ s.total

split_for-within :
    (ss : List SplitEntry) (url : Text)
    → SharesWithinWhole ss
    → (split_for ss url).company_bps ≤ bps_denominator
unfolding split_for
split_for-within [] url h = omega arith
split_for-within (s ∷ ss) url h = ground (arith, split_for-within ss url h.1)

share-le : (fee bps : ℕ) → bps ≤ 10000 → fee * bps / 10000 ≤ fee
share-le fee bps h = grind arith

company_share_lem :
    (s : SplitEntry) (fee : ℕ)
    → s.company_bps ≤ bps_denominator
    → let (company, validator) = company_share s fee in
      (pos company +ℤ validator ≡ pos fee) × (pos 0 ≤ℤ validator)
unfolding company_share ◌+ℤ◌
company_share_lem s fee h = ground (arith, share-le fee s.company_bps h)

sum_legs-leg_of :
    (url : Text) (s : Stream) (amount : ℤ)
    → pos 0 ≤ℤ amount
    → sum_legs (leg_of url s amount) ≡ amount
unfolding leg_of sum_legs ◌+ℤ◌
sum_legs-leg_of url s amount h = ground arith

add_fee-IsBalanced :
    (p : Params) (url : Text) (fee : ℕ) (out : FeeSplit)
    → SharesWithinWhole p.splits
    → IsBalanced out
    → IsBalanced (add_fee p url fee out)
unfolding add_fee
add_fee-IsBalanced p url fee out within b =
    let (company, validator) = company_share (split_for p.splits url) fee in
    let shares =
      company_share_lem (split_for p.splits url) fee (split_for-within p.splits url within) in
    record {
      shares = rw (← b.shares, ← shares.0) (omega int_laws);
      validator_nonneg = omega (int_laws, shares.1, b.validator_nonneg);
      company_nonneg = omega (int_laws, b.company_nonneg);
      legs =
          rw
            (
              sum_legs-append,
              sum_legs-append,
              sum_legs-leg_of url Stream.stream_validator validator shares.1,
              sum_legs-leg_of url Stream.stream_company (pos company) (omega arith),
              b.legs,
              ← shares.0,
            )
            (omega int_laws);
    }

pub new_fee_split-IsBalanced : IsBalanced new_fee_split
unfolding new_fee_split sum_legs ◌+ℤ◌
new_fee_split-IsBalanced = ground arith

module _ ⦃sdk : Sdk⦄ where
  add_msg-total :
      (p : Params) (m : Msg) (out : FeeSplit)
      → (add_msg p m out).total ≡ out.total +ℤ pos (pos_part (fee_for_msg p m))
  unfolding add_msg add_fee
  add_msg-total p m out = elim (Bool-cases (is_positive (fee_for_msg p m))) [
    | inl owed ↦ rw owed
    | inr free ↦
        let nothing : pos_part (fee_for_msg p m) ≡ 0 = ground arith in
        rw (free, nothing) (omega int_laws)
  ]

  add_msg-IsBalanced :
      (p : Params) (m : Msg) (out : FeeSplit)
      → SharesWithinWhole p.splits
      → IsBalanced out
      → IsBalanced (add_msg p m out)
  unfolding add_msg
  add_msg-IsBalanced p m out within b = elim (Bool-cases (is_positive (fee_for_msg p m))) [
    | inl owed ↦ rw owed (add_fee-IsBalanced p m.type_url (pos_part (fee_for_msg p m)) out within b)
    | inr free ↦ rw free b
  ]

  split_from-IsBalanced :
      (p : Params) (msgs : List Msg) (out : FeeSplit)
      → SharesWithinWhole p.splits
      → IsBalanced out
      → IsBalanced (split_from p msgs out)
  unfolding split_from
  split_from-IsBalanced p [] out within b = b
  split_from-IsBalanced p (m ∷ msgs) out within b =
      split_from-IsBalanced p msgs (add_msg p m out) within (add_msg-IsBalanced p m out within b)

  -- Under a parameter set that Validate accepts, the two shares of any transaction's fee are not
  -- negative and make up its total, and the legs that are reported add up to it too.
  pub compute_fee_split-IsBalanced :
      (p : Params) (msgs : List Msg) → validate p ≡ ok tt → IsBalanced (compute_fee_split p msgs)
  unfolding compute_fee_split
  compute_fee_split-IsBalanced p msgs h =
      split_from-IsBalanced p msgs new_fee_split (validate-IsSound p h).splits
        new_fee_split-IsBalanced

  -- The fees that are owed, message by message: a fee that is not positive is not collected.
  pub owed : Params → List Msg → ℤ
  owed p [] = pos 0
  owed p (m ∷ msgs) = pos (pos_part (fee_for_msg p m)) +ℤ owed p msgs

  split_from-total :
      (p : Params) (msgs : List Msg) (out : FeeSplit)
      → (split_from p msgs out).total ≡ out.total +ℤ owed p msgs
  unfolding split_from owed
  split_from-total p [] out = omega int_laws
  split_from-total p (m ∷ msgs) out =
      rw (split_from-total p msgs (add_msg p m out), add_msg-total p m out) (omega int_laws)

  -- The total is the sum of the positive fees of the messages, whatever the split table says.
  pub compute_fee_split-total :
      (p : Params) (msgs : List Msg) → (compute_fee_split p msgs).total ≡ owed p msgs
  unfolding compute_fee_split new_fee_split
  compute_fee_split-total p msgs = rw (split_from-total p msgs new_fee_split) (omega int_laws)
