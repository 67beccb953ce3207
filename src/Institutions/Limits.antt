-- ===== src/Institutions/Limits.antt =====
-- The limits of x/institutions/types/params.go and staleness.go, with the KYC limits of
-- keeper/kyc_tier.go and keeper/rbac.go and the emergency steps of keeper/emergency.go. A limit is
-- zero where there is none.
use phi_chain.Base.{
  ℕ, ◌+◌, ◌*◌, ◌/◌, ◌%◌, ◌^◌, Bool, false, not, ◌&&◌, Option, none, some, List, [], ◌∷◌, ltb, ◌==◌,
  if◌then◌else◌, ℤ, pos, negsuc,
}
use phi_chain.Sdk.{Text, text, empty_text, Sdk}
use phi_chain.Coin.Types.{uphi_per_phi}
use phi_chain.Institutions.Types.{
  Params, InstitutionParams, Institution, KycTierLimit, EmergencyRedemption,
}

unfoldable pub at_least_floor : ℕ → ℕ → ℕ
at_least_floor cap floor = if ltb 0 cap && ltb 0 floor && ltb cap floor then floor else cap

unfoldable pub effective_staleness : ℕ → ℕ → ℕ
effective_staleness floor_seconds inst_latency_seconds =
    if inst_latency_seconds == 0
    then floor_seconds
    else if floor_seconds == 0
    then inst_latency_seconds
    else if ltb inst_latency_seconds floor_seconds
    then inst_latency_seconds
    else floor_seconds

-- A block time is not negative; the sum wraps as a uint64.
unfoldable pub is_attestation_stale : ℤ → ℕ → ℕ → Bool
is_attestation_stale (pos last_attested_at) block_time threshold =
    if threshold == 0 then false else ltb ((last_attested_at + threshold) % 2 ^ 64) block_time
is_attestation_stale (negsuc n) block_time threshold = not (threshold == 0)

unfoldable pub is_stale_at : Institution → ℕ → ℕ → Bool
unfolding is_attestation_stale effective_staleness
is_stale_at inst block_time floor_seconds =
    is_attestation_stale inst.last_attested_at block_time
      (effective_staleness floor_seconds inst.params.max_vault_attestation_latency_s)

abbrev pub emergency_day30 : ℕ
emergency_day30 = 2592000

abbrev pub emergency_day60 : ℕ
emergency_day60 = 5184000

abbrev pub emergency_day90 : ℕ
emergency_day90 = 7776000

module _ ⦃sdk : Sdk⦄ where
  abbrev non_negative : Option ℤ → ℕ
  non_negative (some (pos n)) = n
  non_negative (some (negsuc n)) = 0
  non_negative none = 0

  unfoldable pub cap_int : Text → ℕ
  cap_int s = if s == empty_text then 0 else non_negative (sdk.new_int_from_string s)

  unfoldable pub redeem_floor_uphi : Params → ℕ
  redeem_floor_uphi p =
      let toman = cap_int p.redeem_floor_per_tx in
      if toman == 0
      then 0
      else if p.phi_to_toman == 0
      then 0
      else if toman * uphi_per_phi % p.phi_to_toman == 0
      then toman * uphi_per_phi / p.phi_to_toman
      else 0

  -- The limit of the first entry for the tier.
  unfoldable pub kyc_tier_daily_limit : List KycTierLimit → ℕ → ℕ
  kyc_tier_daily_limit [] tier = 0
  kyc_tier_daily_limit (kt ∷ limits) tier =
      if kt.tier == tier then cap_int kt.daily_limit_toman else kyc_tier_daily_limit limits tier

  -- The smallest positive limit, or zero if there is none.
  unfoldable pub strictest_from : ℕ → List KycTierLimit → ℕ
  strictest_from strictest [] = strictest
  strictest_from strictest (kt ∷ limits) =
      let lim = cap_int kt.daily_limit_toman in
      strictest_from
        (if lim == 0
          then strictest
          else (if strictest == 0 then lim else (if ltb lim strictest then lim else strictest)))
        limits

  unfoldable pub strictest_kyc_limit : List KycTierLimit → ℕ
  unfolding strictest_from
  strictest_kyc_limit limits = strictest_from 0 limits

  -- `recorded` is the tier that the institution has assigned to the recipient.
  unfoldable pub effective_mint_kyc_daily_limit : InstitutionParams → Option ℕ → ℕ → ℕ
  effective_mint_kyc_daily_limit p recorded asserted =
      let own = kyc_tier_daily_limit p.kyc_tier_limits asserted in
      let limit = if own == 0 then strictest_kyc_limit p.kyc_tier_limits else own in
      if limit == 0 then 0 else elim recorded [
        | none ↦ limit
        | some tier ↦
            let rl = kyc_tier_daily_limit p.kyc_tier_limits tier in
            if ltb 0 rl && ltb rl limit then rl else limit
      ]

  unfoldable pub effective_kyc_daily_limit : InstitutionParams → Option ℕ → ℕ
  effective_kyc_daily_limit p recorded = elim recorded [
    | none ↦ strictest_kyc_limit p.kyc_tier_limits
    | some tier ↦
        let lim = kyc_tier_daily_limit p.kyc_tier_limits tier in
        if lim == 0 then strictest_kyc_limit p.kyc_tier_limits else lim
  ]

  abbrev emergency_cap_or_default : Text → Text → ℕ
  emergency_cap_or_default v default = if v == empty_text then cap_int default else cap_int v

  -- `none` where the emergency no longer caps anything.
  unfoldable pub emergency_cap_for_elapsed : EmergencyRedemption → ℤ → Option ℕ
  emergency_cap_for_elapsed em (negsuc n) = some (cap_int em.cap_before_day30)
  emergency_cap_for_elapsed em (pos elapsed) =
      if ltb elapsed emergency_day30
      then some (cap_int em.cap_before_day30)
      else if ltb elapsed emergency_day60
      then some (emergency_cap_or_default em.cap_from_day30 (text "20000000"))
      else if ltb elapsed emergency_day90
      then some (emergency_cap_or_default em.cap_from_day60 (text "200000000"))
      else none
