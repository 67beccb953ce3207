-- ===== src/Institutions/Handlers/MintGuards.antt =====
-- What the guards of InstitutionMint have made sure of.
use phi_chain.Base.{
  ℕ, ◌<◌, ◌≡◌, ◌≢◌, ap, ◌∙◌, inl, inr, arith, Bool, false, Option, some, ℤ, pos, ◌+ℤ◌, ◌≤ℤ◌, ok,
  err, Option-cases, Result-cases, check_all, check_all-other,
}
use phi_chain.Sdk.{Text, Addr, Sdk}
use phi_chain.Coin.Keeper.{Ctx}
use phi_chain.Coin.Messages.{positive_amount, positive-cases}
use phi_chain.Institutions.Types
use phi_chain.Institutions.Types.{Institution, InstitutionType, Role, Error}
use phi_chain.Institutions.Limits.{is_stale_at}
use phi_chain.Institutions.Store.{
  InstStore, get_params, get_institution, deposit_seen, must_int, require_role,
  require_mint_separation, is_operator_or_admin,
}
use phi_chain.Institutions.Caps.{enforce_mint_caps}
use phi_chain.Institutions.Handlers.{
  MsgInstitutionMint, FxMetadata, Crypto, mint_direction, is_frozen, check_deposit_proof,
  validate_fx_metadata, convert, mint_authority, mint_open, mint_amounts, mint_guards,
}

module _ ⦃sdk : Sdk⦄ where
  pub require_role-error :
      (inst : Institution) (signer : Text) (allowed : Role → Bool) (s : InstStore)
      → require_role inst signer allowed s ≢ err Types.solvency_broken
  unfolding require_role
  require_role-error inst signer allowed s h = ground arith

  pub validate_fx_metadata-error :
      (type : InstitutionType) (m : FxMetadata)
      → validate_fx_metadata type m ≢ err Types.solvency_broken
  unfolding validate_fx_metadata
  validate_fx_metadata-error type m h = ground arith

  require_mint_separation-error :
      (inst : Institution) (minter : Text) (s : InstStore)
      → require_mint_separation inst minter s ≢ err Types.solvency_broken
  unfolding require_mint_separation
  require_mint_separation-error inst minter s h = ground arith

  positive_amount-error :
      (o : Option ℤ) → positive_amount o Types.invalid_amount ≢ err Types.solvency_broken
  unfolding positive_amount
  positive_amount-error o h = ground arith

  check_deposit_proof-error :
      (crypto : Crypto) (inst : Institution) (m : MsgInstitutionMint)
      → check_deposit_proof crypto inst m ≢ err Types.solvency_broken
  unfolding check_deposit_proof
  check_deposit_proof-error crypto inst m h = ground arith

  pub convert-error : (toman rate : ℕ) → convert toman rate ≢ err Types.solvency_broken
  unfolding convert
  convert-error toman rate h = ground arith

  enforce_mint_caps-error :
      (block_time : ℕ) (inst : Institution) (recipient : Addr) (toman tier : ℕ) (s : InstStore)
      → enforce_mint_caps block_time inst recipient toman tier s ≢ err Types.solvency_broken
  unfolding enforce_mint_caps
  enforce_mint_caps-error block_time inst recipient toman tier s =
      check_all-other Types.solvency_broken _
        ((λ e. cc), ((λ e. cc), ((λ e. cc), ((λ e. cc), ((λ e. cc), ((λ e. cc), tt))))))

  mint_open-error :
      (ctx : Ctx) (m : MsgInstitutionMint) (inst : Institution) (s : InstStore)
      → mint_open ctx m inst s ≢ err Types.solvency_broken
  unfolding mint_open
  mint_open-error ctx m inst s =
      check_all-other Types.solvency_broken _
        ((λ e. cc), ((λ e. cc), ((λ e. cc), ((λ e. cc), ((λ e. cc), tt)))))

  mint_authority-error :
      (m : MsgInstitutionMint) (s : InstStore) → mint_authority m s ≢ err Types.solvency_broken
  unfolding mint_authority
  mint_authority-error m s h = elim (Option-cases (get_institution m.institution s)) [
    | inl e ↦ ground (arith, h, e)
    | inr (inst, e) ↦ ground (
      arith,
      h,
      e,
      require_role-error inst m.admin is_operator_or_admin s,
      validate_fx_metadata-error inst.institution_type m.fx,
    )
  ]

  mint_amounts-error :
      (crypto : Crypto) (m : MsgInstitutionMint) (inst : Institution) (s : InstStore)
      → mint_amounts crypto m inst s ≢ err Types.solvency_broken
  unfolding mint_amounts
  mint_amounts-error crypto m inst s h =
      elim (positive-cases (sdk.new_int_from_string m.amount_toman) Types.invalid_amount) [
        | inl bad ↦ ground (arith, h, bad)
        | inr (n, parsed, gt) ↦ ground (
          arith,
          h,
          parsed,
          check_deposit_proof-error crypto inst m,
          convert-error n (get_params s).phi_to_toman,
        )
      ]

module _ ⦃sdk : Sdk⦄ (crypto : Crypto) (ctx : Ctx) (m : MsgInstitutionMint) (s : InstStore) where
  pub record Passed (inst : Institution) (recipient : Addr) (toman uphi : ℕ) : Type 0 where
    pub found : get_institution m.institution s ≡ some inst
    pub role : require_role inst m.admin is_operator_or_admin s ≡ ok tt
    pub fresh : deposit_seen inst.id mint_direction m.deposit_ref s ≡ false
    pub healthy : (is_frozen inst.status ≡ false) × (inst.paused_mint ≡ false)
    pub attested :
        is_stale_at inst ctx.block_time (get_params s).max_attestation_staleness_seconds ≡ false
    pub separated : require_mint_separation inst m.admin s ≡ ok tt
    pub proof : check_deposit_proof crypto inst m ≡ ok tt
    pub positive : 0 < toman
    pub converted : convert toman (get_params s).phi_to_toman ≡ ok uphi
    pub backed : must_int inst.vault_balance +ℤ pos toman ≤ℤ must_int inst.attested_reserve
    pub addressed : sdk.acc_address_from_bech32 m.recipient ≡ some recipient
    pub capped : enforce_mint_caps ctx.block_time inst recipient toman m.kyc_tier s ≡ ok tt

  pub mint_guards-error : mint_guards crypto ctx m s ≢ err Types.solvency_broken
  unfolding mint_guards
  mint_guards-error h = elim (Result-cases (mint_authority m s)) [
    | inr (e, failed) ↦ mint_authority-error m s (ground (arith, h, failed))
    | inl (inst, a) ↦ elim (Result-cases (mint_amounts crypto m inst s)) [
      | inr (e, failed) ↦ ground (
        arith,
        h,
        a,
        failed,
        mint_open-error ctx m inst s,
        require_mint_separation-error inst m.admin s,
        mint_amounts-error crypto m inst s,
      )
      | inl (amounts, b) ↦ elim (Option-cases (sdk.acc_address_from_bech32 m.recipient)) [
        | inl e ↦ ground (
          arith,
          h,
          a,
          b,
          e,
          mint_open-error ctx m inst s,
          require_mint_separation-error inst m.admin s,
        )
        | inr (recipient, e) ↦ ground (
          arith,
          h,
          a,
          b,
          e,
          mint_open-error ctx m inst s,
          require_mint_separation-error inst m.admin s,
          enforce_mint_caps-error ctx.block_time inst recipient amounts.0 m.kyc_tier s,
        )
      ]
    ]
  ]

  mint_open-eq-ok :
      (inst : Institution)
      → mint_open ctx m inst s ≡ ok tt
      → (deposit_seen inst.id mint_direction m.deposit_ref s ≡ false)
        × (is_frozen inst.status ≡ false)
        × (inst.paused_mint ≡ false)
        × (is_stale_at inst ctx.block_time (get_params s).max_attestation_staleness_seconds ≡ false)
  unfolding mint_open check_all
  mint_open-eq-ok inst h =
      (ground (arith, h), ground (arith, h), ground (arith, h), ground (arith, h))

  mint_authority-eq-ok :
      (inst : Institution)
      → mint_authority m s ≡ ok inst
      → (get_institution m.institution s ≡ some inst)
        × (require_role inst m.admin is_operator_or_admin s ≡ ok tt)
  unfolding mint_authority
  mint_authority-eq-ok inst h = elim (Option-cases (get_institution m.institution s)) [
    | inl e ↦ absurd (ground (arith, h, e))
    | inr (i, e) ↦
        let same : i ≡ inst = ground (arith, h, e) in rw (← same) (e, ground (arith, h, e))
  ]

  mint_amounts-eq-ok :
      (inst : Institution) (toman uphi : ℕ)
      → mint_amounts crypto m inst s ≡ ok (toman, uphi)
      → (check_deposit_proof crypto inst m ≡ ok tt)
        × (0 < toman)
        × (convert toman (get_params s).phi_to_toman ≡ ok uphi)
        × (must_int inst.vault_balance +ℤ pos toman ≤ℤ must_int inst.attested_reserve)
  unfolding mint_amounts
  mint_amounts-eq-ok inst toman uphi h =
      elim (positive-cases (sdk.new_int_from_string m.amount_toman) Types.invalid_amount) [
        | inl bad ↦ absurd (ground (arith, h, bad))
        | inr (n, parsed, gt) ↦ elim (Result-cases (convert n (get_params s).phi_to_toman)) [
          | inr (e, failed) ↦ absurd (ground (arith, h, parsed, failed))
          | inl (u, converted) ↦
              let same : n ≡ toman = ground (arith, h, parsed, converted) in
              let also : u ≡ uphi = ground (arith, h, parsed, converted) in
              (
                ground (arith, h, parsed, converted),
                rw (← same) gt,
                rw (← same, ← also) converted,
                ground (arith, h, parsed, converted),
              )
        ]
      ]

  Passed-intro :
      (inst : Institution) (recipient : Addr) (toman uphi : ℕ)
      → mint_authority m s ≡ ok inst
      → mint_open ctx m inst s ≡ ok tt
      → require_mint_separation inst m.admin s ≡ ok tt
      → mint_amounts crypto m inst s ≡ ok (toman, uphi)
      → sdk.acc_address_from_bech32 m.recipient ≡ some recipient
      → enforce_mint_caps ctx.block_time inst recipient toman m.kyc_tier s ≡ ok tt
      → Passed inst recipient toman uphi
  Passed-intro inst recipient toman uphi a o p q addressed capped =
      let (found, role) = mint_authority-eq-ok inst a in
      let (fresh, thawed, unpaused, attested) = mint_open-eq-ok inst o in
      let (proof, positive, converted, backed) = mint_amounts-eq-ok inst toman uphi q in
      record {
        found = found;
        role = role;
        fresh = fresh;
        healthy = (thawed, unpaused);
        attested = attested;
        separated = p;
        proof = proof;
        positive = positive;
        converted = converted;
        backed = backed;
        addressed = addressed;
        capped = capped;
      }

  pub mint_guards-eq-ok :
      (inst : Institution) (recipient : Addr) (toman uphi : ℕ)
      → mint_guards crypto ctx m s ≡ ok (inst, recipient, toman, uphi)
      → Passed inst recipient toman uphi
  unfolding mint_guards
  mint_guards-eq-ok inst recipient toman uphi h = elim (Result-cases (mint_authority m s)) [
    | inr (e, failed) ↦ absurd (ground (arith, h, failed))
    | inl (i, a) ↦ elim (Result-cases (mint_amounts crypto m i s)) [
      | inr (e, failed) ↦ absurd (ground (arith, h, a, failed))
      | inl (amounts, b) ↦ elim (Option-cases (sdk.acc_address_from_bech32 m.recipient)) [
        | inl e ↦ absurd (ground (arith, h, a, b, e))
        | inr (to, e) ↦
            let same : i ≡ inst = ground (arith, h, a, b, e) in
            let sums : amounts ≡ (toman, uphi) = ground (arith, h, a, b, e) in
            let payee : to ≡ recipient = ground (arith, h, a, b, e) in
            let open_for : mint_open ctx m i s ≡ ok tt = ground (arith, h, a) in
            let apart : require_mint_separation i m.admin s ≡ ok tt = ground (arith, h, a) in
            let caps : enforce_mint_caps ctx.block_time i to amounts.0 m.kyc_tier s ≡ ok tt =
              ground (arith, h, a, b, e) in
            Passed-intro inst recipient toman uphi (rw same at a) (rw same at open_for)
              (rw same at apart) (rw (same, sums) at b) (e ∙ ap some payee)
              (rw (same, sums, payee) at caps)
      ]
    ]
  ]
