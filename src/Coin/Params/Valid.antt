-- ===== src/Coin/Params/Valid.antt =====
-- What a parameter set that Validate accepts guarantees to the code that reads it.
use phi_chain.Base.{
  ◌+◌, ◌≤◌, ◌<◌, ◌≡◌, ◌≢◌, ◌⊎◌, inl, inr, refl, none, some, List, [], ◌∷◌, arith, Option-cases, ℤ,
  pos, ◌≤ℤ◌, ◌<ℤ◌, +ℤ_parts, All, ok,
}
use phi_chain.Sdk.{Text, Sdk}
use phi_chain.Coin.Types.{Params, FeeEntry, SplitEntry, bps_denominator}
use phi_chain.Coin.Params.{
  Msg, check_fees, check_splits, validate, fee_entry, fee_for, agreement_surcharge, fee_for_msg,
}

-- No entry gives the company more than the whole.
abbrev pub SharesWithinWhole : List SplitEntry → Type 0
SharesWithinWhole ss = All (λ s. s.company_bps ≤ bps_denominator) ss

abbrev pub IsListed : Text → List FeeEntry → Type 0
IsListed url [] = ⊥
IsListed url (f ∷ fs) = (f.msg_type_url ≡ url) ⊎ IsListed url fs

check_splits-within :
    ⦃sdk : Sdk⦄ (seen : List Text) (ss : List SplitEntry)
    → check_splits seen ss ≡ ok tt
    → SharesWithinWhole ss
unfolding check_splits
check_splits-within seen [] h = tt
check_splits-within seen (s ∷ ss) h = ground (arith, check_splits-within (s.msg_type_url ∷ seen) ss)

module _ ⦃sdk : Sdk⦄ where
  fee_entry-nonneg :
      (fs : List FeeEntry) (url : Text) (v : ℤ)
      → check_fees fs ≡ ok tt
      → fee_entry fs url ≡ some v
      → pos 0 ≤ℤ v
  unfolding check_fees fee_entry
  fee_entry-nonneg [] url v h e = cc
  fee_entry-nonneg (f ∷ fs) url v h e = ground (arith, fee_entry-nonneg fs url v)

  fee_entry-unlisted :
      (fs : List FeeEntry) (url : Text) → ¬ IsListed url fs → fee_entry fs url ≡ none
  unfolding fee_entry
  fee_entry-unlisted [] url h = refl
  fee_entry-unlisted (f ∷ fs) url h =
      let miss : f.msg_type_url ≢ url = λ e. h (inl e) in
      ground (arith, fee_entry-unlisted fs url (λ l. h (inr l)))

  -- The bounds of an accepted parameter set that other code relies on.
  pub record IsSound (p : Params) : Type 0 where
    pub default_fee : (v : ℤ) × (sdk.new_int_from_string p.default_fee ≡ some v) × (pos 0 <ℤ v)
    pub fees : check_fees p.fees ≡ ok tt
    pub threshold : pos 0 ≤ℤ p.coin_age_threshold_seconds
    pub penalties : p.young_penalty_bps + p.old_penalty_bps < 9000
    pub lots : (2 ≤ p.max_coin_age_lots) × (p.max_coin_age_lots ≤ 1024)
    pub quota : p.micro_daily_quota ≤ 1000
    pub splits : SharesWithinWhole p.splits

  pub validate-IsSound : (p : Params) → validate p ≡ ok tt → IsSound p
  unfolding validate
  validate-IsSound p h = elim (Option-cases (sdk.new_int_from_string p.default_fee)) [
    | inl e ↦ ground arith
    | inr (v, e) ↦ record {
      default_fee = (v, e, ground arith);
      fees = ground arith;
      threshold = ground arith;
      penalties = ground arith;
      lots = (ground arith, ground arith);
      quota = ground arith;
      splits = check_splits-within [] p.splits (ground arith);
    }
  ]

  fee_for-nonneg : (p : Params) (url : Text) → IsSound p → pos 0 ≤ℤ fee_for p url
  unfolding fee_for
  fee_for-nonneg p url s = elim (Option-cases (fee_entry p.fees url)) [
    | inl e ↦ ground (arith, s.default_fee)
    | inr (v, e) ↦ ground (arith, fee_entry-nonneg p.fees url v s.fees e)
  ]

  fee_for-unlisted :
      (p : Params) (url : Text) → IsSound p → ¬ IsListed url p.fees → pos 0 <ℤ fee_for p url
  unfolding fee_for
  fee_for-unlisted p url s absent =
      ground (arith, s.default_fee, fee_entry-unlisted p.fees url absent)

  -- Under an accepted parameter set no message has a negative fee, and a message that the fee table
  -- does not list has a positive one: nothing is free by omission.
  pub fee_for_msg-nonneg :
      (p : Params) (m : Msg)
      → validate p ≡ ok tt
      → (pos 0 ≤ℤ fee_for_msg p m) × (¬ IsListed m.type_url p.fees → pos 0 <ℤ fee_for_msg p m)
  unfolding fee_for_msg
  fee_for_msg-nonneg p m h =
      let s = validate-IsSound p h in
      let plus = +ℤ_parts (fee_for p m.type_url) (pos (agreement_surcharge p m)) in
      (
        omega (arith, fee_for-nonneg p m.type_url s, plus),
        λ absent. omega (arith, fee_for-unlisted p m.type_url s absent, plus),
      )
