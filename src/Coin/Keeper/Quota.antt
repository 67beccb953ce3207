-- ===== src/Coin/Keeper/Quota.antt =====
-- Proofs about the micro-exemption's daily quota and its pruning.
use phi_chain.Base.{
  ℕ, ◌+◌, ◌-◌, ◌/◌, ◌%◌, ◌^◌, ◌≤◌, ◌<◌, ◌≡◌, ◌≢◌, refl, sym, ap, ◌∙◌, ◌⊎◌, inl, inr, true, some,
  List, [], ◌∷◌, arith, Option-cases, leb, ◌==◌, ◌&&◌, if◌then◌else◌, Map, lookup, nat_eq, pair_eq,
  lookup-insert, length,
}
use phi_chain.Sdk.{Text, Sdk}
use phi_chain.Coin.Params.{Msg}
use phi_chain.Coin.Keeper.{
  CoinStore, Ctx, SubjectDid, get_params, get_micro_used, incr_micro_used, prune_before,
  prune_micro_quota, is_micro_exempt, consume_micro_exemption, micro_exemption_subject,
  seconds_per_day, micro_quota_retention_days, micro_quota_prune_budget,
}

get_micro_used-incr_micro_used :
    (day : ℕ) (a : Text) (e : ℕ) (b : Text) (s : CoinStore)
    → get_micro_used e b (incr_micro_used day a s) ≡ (
        if (day == e) && (a == b)
        then (get_micro_used day a s + 1) % 2 ^ 64
        else get_micro_used e b s)
unfolding get_micro_used incr_micro_used
get_micro_used-incr_micro_used day a e b s =
    ground
      (arith, lookup-insert (day, a) (e, b) ((get_micro_used day a s + 1) % 2 ^ 64) s.micro_quota)

get_params-incr_micro_used :
    (day : ℕ) (a : Text) (s : CoinStore) → get_params (incr_micro_used day a s) ≡ get_params s
unfolding get_params incr_micro_used
get_params-incr_micro_used day a s = refl

consume_known :
    (ctx : Ctx) (did : SubjectDid) (payer subject : Text) (s : CoinStore)
    → micro_exemption_subject did payer ≡ some subject
    → consume_micro_exemption ctx did payer s
      ≡ incr_micro_used (ctx.block_time / seconds_per_day) subject s
unfolding consume_micro_exemption
consume_known ctx did payer subject s known = rw (known, consume_micro_exemption)

-- Nobody has used more than the quota on any day.
unfoldable pub QuotaRespected : CoinStore → Type 0
QuotaRespected s =
    (day : ℕ) (subject : Text) → get_micro_used day subject s ≤ (get_params s).micro_daily_quota

module _ ⦃sdk : Sdk⦄ where
  -- A transaction that is exempt has a payer with an identity whose uses today are below the quota.
  exempt_subject :
      (ctx : Ctx) (did : SubjectDid) (payer : Text) (msgs : List Msg) (s : CoinStore)
      → is_micro_exempt ctx did payer msgs s ≡ true
      → (subject : Text) × (micro_exemption_subject did payer ≡ some subject)
        × (get_micro_used (ctx.block_time / seconds_per_day) subject s
            < (get_params s).micro_daily_quota)
  unfolding is_micro_exempt
  exempt_subject ctx did payer msgs s h = elim (Option-cases (micro_exemption_subject did payer)) [
    | inl e ↦ ground arith
    | inr (subject, e) ↦ (subject, e, ground arith)
  ]

  -- An exempt transaction is counted, for a quota below 2 ^ 64: whatever anybody has used, its payer
  -- has an identity, one more of the quota of the day is used under it and no more than the quota, and
  -- no other count changes.
  pub consume-within_quota :
      (ctx : Ctx) (did : SubjectDid) (payer : Text) (msgs : List Msg) (s : CoinStore)
      → (get_params s).micro_daily_quota < 2 ^ 64
      → is_micro_exempt ctx did payer msgs s ≡ true
      → let s' = consume_micro_exemption ctx did payer s in
        let day = ctx.block_time / seconds_per_day in
        (subject : Text) × (micro_exemption_subject did payer ≡ some subject)
        × (get_micro_used day subject s' ≡ get_micro_used day subject s + 1)
        × (get_micro_used day subject s' ≤ (get_params s').micro_daily_quota)
        × ((e : ℕ) (b : Text)
            → (e ≢ day) ⊎ (b ≢ subject)
            → get_micro_used e b s' ≡ get_micro_used e b s)
  consume-within_quota ctx did payer msgs s word exempt =
      let day = ctx.block_time / seconds_per_day in
      let (subject, known, below) = exempt_subject ctx did payer msgs s exempt in
      let own = get_micro_used-incr_micro_used day subject day subject s in
      rw (consume_known ctx did payer subject s known) (
        subject,
        known,
        ground (arith, own),
        ground (arith, own, get_params-incr_micro_used day subject s),
        λ e b other. ground (arith, get_micro_used-incr_micro_used day subject e b s),
      )

  -- Where nobody is over the quota, nobody is after an exempt transaction.
  pub consume_micro_exemption-QuotaRespected :
      (ctx : Ctx) (did : SubjectDid) (payer : Text) (msgs : List Msg) (s : CoinStore)
      → (get_params s).micro_daily_quota < 2 ^ 64
      → is_micro_exempt ctx did payer msgs s ≡ true
      → QuotaRespected s
      → QuotaRespected (consume_micro_exemption ctx did payer s)
  unfolding QuotaRespected
  consume_micro_exemption-QuotaRespected ctx did payer msgs s word exempt respected =
      let day = ctx.block_time / seconds_per_day in
      let (subject, known, below) = exempt_subject ctx did payer msgs s exempt in
      rw (consume_known ctx did payer subject s known) (λ e b. ground (
        arith,
        get_micro_used-incr_micro_used day subject e b s,
        respected e b,
        get_params-incr_micro_used day subject s,
      ))

-- Entries of a day that is kept, from `cutoff` on, are never deleted.
kept_days : ℕ → Map (ℕ × Text) ℕ → Map (ℕ × Text) ℕ
kept_days cutoff [] = []
kept_days cutoff (e ∷ m) = if leb cutoff e.0.0 then e ∷ kept_days cutoff m else kept_days cutoff m

prune_before-kept :
    (cutoff budget : ℕ) (m : Map (ℕ × Text) ℕ)
    → (kept_days cutoff (prune_before cutoff budget m) ≡ kept_days cutoff m)
      × (length m ≤ length (prune_before cutoff budget m) + budget)
unfolding kept_days prune_before
prune_before-kept cutoff budget [] = ground arith
prune_before-kept cutoff budget (e ∷ m) =
    ground (arith, prune_before-kept cutoff budget m, prune_before-kept cutoff (budget - 1) m)

lookup-kept_days :
    (cutoff day : ℕ) (a : Text) (m : Map (ℕ × Text) ℕ)
    → cutoff ≤ day
    → lookup (day, a) (kept_days cutoff m) ≡ lookup (day, a) m
unfolding kept_days lookup
lookup-kept_days cutoff day a [] h = refl
lookup-kept_days cutoff day a (((d, b), n) ∷ m) h = ground (arith, lookup-kept_days cutoff day a m)

prune_before-lookup :
    (cutoff budget day : ℕ) (a : Text) (m : Map (ℕ × Text) ℕ)
    → cutoff ≤ day
    → lookup (day, a) (prune_before cutoff budget m) ≡ lookup (day, a) m
prune_before-lookup cutoff budget day a m h =
    sym (lookup-kept_days cutoff day a (prune_before cutoff budget m) h)
    ∙ ap (lookup (day, a)) (prune_before-kept cutoff budget m).0
    ∙ lookup-kept_days cutoff day a m h

-- Pruning never resets a live count: today's and the last seven days' uses stay what they were, and
-- at most the budget of entries goes in one block.
pub prune_micro_quota-live :
    (ctx : Ctx) (s : CoinStore)
    → let s' = prune_micro_quota ctx s in
      ((day : ℕ) (a : Text)
        → ctx.block_time / seconds_per_day ≤ day + micro_quota_retention_days
        → get_micro_used day a s' ≡ get_micro_used day a s)
      × (length s.micro_quota ≤ length s'.micro_quota + micro_quota_prune_budget)
unfolding prune_micro_quota get_micro_used
prune_micro_quota-live ctx s =
    let cutoff = ctx.block_time / seconds_per_day - micro_quota_retention_days in
    (
      λ day a recent.
          ground (arith, prune_before-lookup cutoff micro_quota_prune_budget day a s.micro_quota),
      ground (arith, prune_before-kept cutoff micro_quota_prune_budget s.micro_quota),
    )
