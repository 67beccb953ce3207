-- ===== src/Institutions/Caps.antt =====
-- The caps and counters of x/institutions/keeper/rbac.go.
use phi_chain.Base.{
  ℕ, ◌+◌, ◌/◌, Bool, true, false, not, ◌&&◌, Option, none, some, [], ◌∷◌, ltb, leb, ◌==◌,
  if◌then◌else◌, ℤ, sub_ℕ, lookup, insert, nat_eq, pair_eq, Result, check_all,
}
use phi_chain.Sdk.{Text, text, empty_text, Addr, Sdk}
use phi_chain.Institutions.Types.{
  Params, Institution, Error, cap_exceeded, kyc_tier_exceeded, redemption_throttled,
}
use phi_chain.Institutions.Split.{minted_uphi_for_toman}
use phi_chain.Institutions.Limits.{
  cap_int, at_least_floor, redeem_floor_uphi, effective_mint_kyc_daily_limit,
  effective_kyc_daily_limit, emergency_cap_for_elapsed,
}
use phi_chain.Institutions.Store.{InstStore, get_params}

abbrev pub seconds_per_day : ℕ
seconds_per_day = 86400

abbrev or_zero : Option ℕ → ℕ
or_zero none = 0
or_zero (some n) = n

unfoldable pub get_counter_total : Text → Text → ℕ → InstStore → ℕ
get_counter_total id kind day s = or_zero (lookup ((id, kind), day) s.counter_totals)

unfoldable pub get_counter_user : Text → Text → ℕ → Addr → InstStore → ℕ
get_counter_user id kind day a s = or_zero (lookup (((id, kind), day), a) s.counter_users)

unfoldable pub add_counter_total : Text → Text → ℕ → ℕ → InstStore → InstStore
unfolding get_counter_total
add_counter_total id kind day n s = record s {
  counter_totals = insert ((id, kind), day) (get_counter_total id kind day s + n) s.counter_totals;
}

unfoldable pub add_counter_user : Text → Text → ℕ → Addr → ℕ → InstStore → InstStore
unfolding get_counter_user
add_counter_user id kind day a n s = record s {
  counter_users =
      insert (((id, kind), day), a) (get_counter_user id kind day a s + n) s.counter_users;
}

-- A limit of zero is no limit.
abbrev pub exceeds : ℕ → ℕ → Bool
exceeds amount lim = ltb 0 lim && ltb lim amount

abbrev pub mint_daily_kind : Text
mint_daily_kind = text "md"

abbrev pub mint_user_kind : Text
mint_user_kind = text "mu"

abbrev pub redeem_daily_kind : Text
redeem_daily_kind = text "rd"

abbrev pub redeem_user_kind : Text
redeem_user_kind = text "ru"

abbrev pub emergency_kind : Text
emergency_kind = text "er"

-- x/identity as this module sees it.
pub record Identity : Type 0 where
  pub subject_did : Text → Option Text
  pub bootstrap_phase : Bool

unfoldable pub add_mint_counters : ℕ → Institution → Addr → ℕ → InstStore → InstStore
add_mint_counters block_time inst recipient toman s =
    let day = block_time / seconds_per_day in
    add_counter_user inst.id mint_user_kind day recipient toman
      (add_counter_total inst.id mint_daily_kind day toman s)

unfoldable pub get_redeem_subject_total : ℕ → ℕ → Text → InstStore → ℕ
get_redeem_subject_total day kind subject s =
    or_zero (lookup (day, (kind, subject)) s.redeem_subjects)

unfoldable pub add_redeem_subject_total : ℕ → ℕ → Text → ℕ → InstStore → InstStore
unfolding get_redeem_subject_total
add_redeem_subject_total day kind subject uphi s = record s {
  redeem_subjects =
      insert (day, (kind, subject)) (get_redeem_subject_total day kind subject s + uphi)
        s.redeem_subjects;
}

abbrev unidentified : ℕ × Text
unidentified = (2, text "unidentified")

abbrev elapsed : ℕ → Params → ℤ
elapsed block_time p = sub_ℕ block_time p.emergency_redemption.started_at

module _ ⦃sdk : Sdk⦄ where
  unfoldable pub enforce_mint_caps :
      ℕ → Institution → Addr → ℕ → ℕ → InstStore → Result Error (Unit {0})
  enforce_mint_caps block_time inst recipient toman kyc_tier s = do
    let day = block_time / seconds_per_day
    let mp = get_params s
    let c = inst.params.caps
    let daily = get_counter_total inst.id mint_daily_kind day s + toman
    let own = get_counter_user inst.id mint_user_kind day recipient s + toman
    let recorded = lookup (inst.id, recipient) s.holder_kyc_tiers
    check_all (
        (exceeds toman (cap_int mp.mint_ceiling_per_tx), cap_exceeded)
        ∷ (exceeds daily (cap_int mp.mint_ceiling_daily), cap_exceeded)
        ∷ (exceeds toman (cap_int c.mint_per_tx), cap_exceeded)
        ∷ (exceeds daily (cap_int c.mint_daily), cap_exceeded)
        ∷ (exceeds own (cap_int c.mint_per_user), cap_exceeded)
        ∷ (
          exceeds own (effective_mint_kyc_daily_limit inst.params recorded kyc_tier),
          kyc_tier_exceeded,
        )
        ∷ [])

  unfoldable pub redeem_subject : Identity → Addr → ℕ × Text
  redeem_subject idk holder = elim (idk.subject_did (sdk.addr_string holder)) [
    | none ↦ unidentified
    | some did ↦ if did == empty_text then unidentified else (1, did)
  ]

  -- A rate of zero has been refused before this is asked.
  unfoldable pub within_floor_reservation : Identity → ℕ → Addr → ℕ → InstStore → Bool
  within_floor_reservation idk block_time holder uphi s =
      let mp = get_params s in
      let floor_toman = cap_int mp.redeem_floor_per_tx in
      let (floor_uphi, integral) = minted_uphi_for_toman floor_toman mp.phi_to_toman in
      let (kind, subject) = redeem_subject idk holder in
      let day = block_time / seconds_per_day in
      ltb 0 floor_toman
      && integral
      && ltb 0 floor_uphi
      && leb (get_redeem_subject_total day kind subject s + uphi) floor_uphi

  abbrev pub throttled : ℕ → ℕ → Option ℕ → Bool
  throttled already toman none = false
  throttled already toman (some cap_toman) = ltb cap_toman (already + toman)

  unfoldable pub enforce_redeem_caps :
      Identity → ℕ → Institution → Addr → ℕ → ℕ → InstStore → Result Error (Unit {0})
  enforce_redeem_caps idk block_time inst holder toman uphi s = do
    let day = block_time / seconds_per_day
    let mp = get_params s
    let c = inst.params.caps
    let floor = cap_int mp.redeem_floor_per_tx
    let daily = get_counter_total inst.id redeem_daily_kind day s + toman
    let own = get_counter_user inst.id redeem_user_kind day holder s + toman
    let recorded = lookup (inst.id, holder) s.holder_kyc_tiers
    let subject = redeem_subject idk holder
    let em = mp.emergency_redemption
    let already = get_counter_user inst.id emergency_kind em.started_at holder s
    check_all (
        (exceeds toman (at_least_floor (cap_int c.redeem_per_tx) floor), cap_exceeded)
        ∷ (
          exceeds daily (at_least_floor (cap_int c.redeem_daily) floor)
              && not (within_floor_reservation idk block_time holder uphi s),
          cap_exceeded,
        )
        ∷ (exceeds own (at_least_floor (cap_int c.redeem_per_user) floor), cap_exceeded)
        ∷ (
          exceeds own (at_least_floor (effective_kyc_daily_limit inst.params recorded) floor),
          kyc_tier_exceeded,
        )
        ∷ (
          exceeds (get_redeem_subject_total day subject.0 subject.1 s + uphi)
              (at_least_floor (cap_int mp.redeem_daily_cap_per_did_uphi) (redeem_floor_uphi mp)),
          cap_exceeded,
        )
        ∷ (
          em.active
              && throttled already toman (emergency_cap_for_elapsed em (elapsed block_time mp)),
          redemption_throttled,
        )
        ∷ [])

  abbrev is_capped : Option ℕ → Bool
  is_capped none = false
  is_capped (some n) = true

  unfoldable pub add_redeem_counters :
      Identity → ℕ → Institution → Addr → ℕ → ℕ → InstStore → InstStore
  add_redeem_counters idk block_time inst holder toman uphi s =
      let day = block_time / seconds_per_day in
      let mp = get_params s in
      let em = mp.emergency_redemption in
      let (kind, subject) = redeem_subject idk holder in
      let s' = add_redeem_subject_total day kind subject uphi (
        add_counter_user inst.id redeem_user_kind day holder toman
          (add_counter_total inst.id redeem_daily_kind day toman s)) in
      if em.active && is_capped (emergency_cap_for_elapsed em (elapsed block_time mp))
      then add_counter_user inst.id emergency_kind em.started_at holder toman s'
      else s'
