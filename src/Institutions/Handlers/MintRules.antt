-- ===== src/Institutions/Handlers/MintRules.antt =====
-- What a mint that passed its guards says of the institution, the signer and the amounts.
use phi_chain.Base.{
  ℕ, ◌+◌, ◌*◌, ◌/◌, ◌%◌, ◌^◌, ◌<◌, ◌≤◌, ◌≡◌, ◌≢◌, refl, ◌⊎◌, inl, inr, arith, true, false, none,
  some, ◌==◌, ℤ, pos, negsuc, ◌+ℤ◌, ◌≤ℤ◌, lookup, nat_eq, pair_eq, ok, Bool-cases, Option-cases,
  check_all,
}
use phi_chain.Sdk.{Text, empty_text, Addr, Sdk}
use phi_chain.Coin.Types.{uphi_per_phi}
use phi_chain.Coin.Keeper.{Ctx}
use phi_chain.Institutions.Types
use phi_chain.Institutions.Types.{Institution, Role, Status}
use phi_chain.Institutions.Limits.{
  cap_int, effective_staleness, is_attestation_stale, is_stale_at, effective_mint_kyc_daily_limit,
}
use phi_chain.Institutions.Store.{
  InstStore, get_params, get_institution, get_role, deposit_seen, must_int, effective_role,
  require_role, require_mint_separation, count_admins, last_attestor, is_operator_or_admin,
}
use phi_chain.Institutions.Caps.{
  enforce_mint_caps, get_counter_total, get_counter_user, exceeds, seconds_per_day, mint_daily_kind,
  mint_user_kind,
}
use phi_chain.Institutions.Handlers.{
  MsgInstitutionMint, Crypto, mint_direction, deposit_message, check_deposit_proof,
}
use phi_chain.Institutions.Handlers.MintGuards.{Passed}
use phi_chain.Institutions.Handlers.Solvency.{convert-eq-ok}

-- A limit of zero is no limit.
abbrev pub Within : ℕ → ℕ → Type 0
Within amount lim = (lim ≡ 0) ⊎ (amount ≤ lim)

Within-intro : (amount lim : ℕ) → exceeds amount lim ≡ false → Within amount lim
Within-intro amount lim h = elim (Bool-cases (lim == 0)) [
  | inl e ↦ inl (ground (arith, e))
  | inr e ↦ inr (ground (arith, e, h))
]

minting_role : (r : Role) → is_operator_or_admin r ≡ true → (r ≡ Types.admin) ⊎ (r ≡ Types.operator)
minting_role Types.admin h = inl refl
minting_role Types.operator h = inr refl
minting_role Types.finance h = cc
minting_role Types.compliance h = cc
minting_role Types.developer h = cc
minting_role Types.viewer h = cc
minting_role Types.role_unspecified h = cc

-- An attestation that is not stale: there is no window, or the block is within it.
fresh_stamp :
    (stamp : ℤ) (block_time window : ℕ)
    → is_attestation_stale stamp block_time window ≡ false
    → (window ≡ 0) ⊎ ((at : ℕ) × (stamp ≡ pos at) × (block_time ≤ (at + window) % 2 ^ 64))
unfolding is_attestation_stale
fresh_stamp (pos at) block_time window h = elim (Bool-cases (window == 0)) [
  | inl e ↦ inl (ground (arith, e))
  | inr e ↦ inr (at, refl, ground (arith, h, e))
]
fresh_stamp (negsuc n) block_time window h = inl (ground (arith, h))

module _ ⦃sdk : Sdk⦄ where
  -- A signer that may mint: the root admin, or one with the role of an admin or an operator. The
  -- institution has two admin keys, and another key than the signer's attested its reserve.
  pub record MayMint (inst : Institution) (signer : Addr) (s : InstStore) : Type 0 where
    pub role :
        (sdk.addr_string signer ≡ inst.admin)
        ⊎ (get_role inst.id signer s ≡ Types.admin)
        ⊎ (get_role inst.id signer s ≡ Types.operator)
    pub admins : 2 ≤ count_admins inst s
    pub attestor : Addr
    pub attested : lookup inst.id s.last_attestors ≡ some attestor
    pub separate : attestor ≢ signer

  -- The amount, with what was minted before on the day, keeps within the protocol's ceilings, the
  -- institution's caps and the recipient's limit.
  pub record MintCapped (block_time : ℕ) (inst : Institution) (recipient : Addr) (toman tier : ℕ)
      (s : InstStore) : Type 0 where
    pub ceiling : Within toman (cap_int (get_params s).mint_ceiling_per_tx)
    pub daily_ceiling :
        Within
          (get_counter_total inst.id mint_daily_kind (block_time / seconds_per_day) s + toman)
          (cap_int (get_params s).mint_ceiling_daily)
    pub per_tx : Within toman (cap_int inst.params.caps.mint_per_tx)
    pub daily :
        Within
          (get_counter_total inst.id mint_daily_kind (block_time / seconds_per_day) s + toman)
          (cap_int inst.params.caps.mint_daily)
    pub per_user :
        Within
          (get_counter_user inst.id mint_user_kind (block_time / seconds_per_day) recipient s
            + toman)
          (cap_int inst.params.caps.mint_per_user)
    pub known_customer :
        Within
          (get_counter_user inst.id mint_user_kind (block_time / seconds_per_day) recipient s
            + toman)
          (effective_mint_kyc_daily_limit inst.params
            (lookup (inst.id, recipient) s.holder_kyc_tiers)
            tier)

  enforce_mint_caps-eq-ok :
      (block_time : ℕ) (inst : Institution) (recipient : Addr) (toman tier : ℕ) (s : InstStore)
      → enforce_mint_caps block_time inst recipient toman tier s ≡ ok tt
      → MintCapped block_time inst recipient toman tier s
  unfolding enforce_mint_caps check_all
  enforce_mint_caps-eq-ok block_time inst recipient toman tier s h =
      let day = block_time / seconds_per_day in
      let total = get_counter_total inst.id mint_daily_kind day s + toman in
      let own = get_counter_user inst.id mint_user_kind day recipient s + toman in
      let p = get_params s in
      let c = inst.params.caps in
      let tiers = lookup (inst.id, recipient) s.holder_kyc_tiers in
      record {
        ceiling = Within-intro toman (cap_int p.mint_ceiling_per_tx) (ground (arith, h));
        daily_ceiling = Within-intro total (cap_int p.mint_ceiling_daily) (ground (arith, h));
        per_tx = Within-intro toman (cap_int c.mint_per_tx) (ground (arith, h));
        daily = Within-intro total (cap_int c.mint_daily) (ground (arith, h));
        per_user = Within-intro own (cap_int c.mint_per_user) (ground (arith, h));
        known_customer =
            Within-intro own (effective_mint_kyc_daily_limit inst.params tiers tier)
              (ground (arith, h));
      }

  role_of :
      (inst : Institution) (signer : Addr) (s : InstStore)
      → is_operator_or_admin (effective_role inst signer s) ≡ true
      → (sdk.addr_string signer ≡ inst.admin)
        ⊎ (get_role inst.id signer s ≡ Types.admin)
        ⊎ (get_role inst.id signer s ≡ Types.operator)
  unfolding effective_role
  role_of inst signer s h = elim (Bool-cases (sdk.addr_string signer == inst.admin)) [
    | inl root ↦ inl (ground (arith, root))
    | inr other ↦ inr (minting_role (get_role inst.id signer s) (ground (arith, h, other)))
  ]

  may_mint :
      (inst : Institution) (signer_text : Text) (s : InstStore)
      → require_role inst signer_text is_operator_or_admin s ≡ ok tt
      → require_mint_separation inst signer_text s ≡ ok tt
      → (signer : Addr) × (sdk.acc_address_from_bech32 signer_text ≡ some signer)
        × MayMint inst signer s
  unfolding require_role require_mint_separation last_attestor
  may_mint inst signer_text s r p = elim (Option-cases (sdk.acc_address_from_bech32 signer_text)) [
    | inl e ↦ absurd (ground (arith, r, e))
    | inr (signer, e) ↦ elim (Option-cases (lookup inst.id s.last_attestors)) [
      | inl no_one ↦ absurd (ground (arith, p, e, no_one))
      | inr (attestor, by) ↦ (
        signer,
        e,
        record {
          role = role_of inst signer s (ground (arith, r, e));
          admins = ground (arith, p, e, by);
          attestor = attestor;
          attested = by;
          separate = λ same. ground (arith, p, e, by, same);
        },
      )
    ]
  ]

  -- The attestation of the reserve is within the window, or there is none.
  unfoldable pub Attested : Institution → ℕ → ℕ → Type 0
  Attested inst block_time floor =
      let window = effective_staleness floor inst.params.max_vault_attestation_latency_s in
      (window ≡ 0)
      ⊎ ((at : ℕ) × (inst.last_attested_at ≡ pos at) × (block_time ≤ (at + window) % 2 ^ 64))

  Attested-intro :
      (inst : Institution) (block_time floor : ℕ)
      → is_stale_at inst block_time floor ≡ false
      → Attested inst block_time floor
  unfolding is_stale_at Attested
  Attested-intro inst block_time floor h =
      fresh_stamp inst.last_attested_at block_time
        (effective_staleness floor inst.params.max_vault_attestation_latency_s) h

module _ ⦃sdk : Sdk⦄ (crypto : Crypto) (ctx : Ctx) (m : MsgInstitutionMint) (s : InstStore) where
  -- A mint of `uphi` for a deposit of `toman` that the rules allow.
  pub record Guarded (inst : Institution) (recipient : Addr) (toman uphi : ℕ) : Type 0 where
    pub found : get_institution m.institution s ≡ some inst
    pub signer : Addr
    pub signed : sdk.acc_address_from_bech32 m.admin ≡ some signer
    pub may : MayMint inst signer s
    pub fresh : lookup ((inst.id, mint_direction), m.deposit_ref) s.deposits ≡ none
    pub thawed : inst.status ≢ Types.frozen
    pub unpaused : inst.paused_mint ≡ false
    pub attested : Attested inst ctx.block_time (get_params s).max_attestation_staleness_seconds
    pub proof :
        (inst.deposit_pubkey ≡ empty_text)
        ⊎ (crypto.verify_signature inst.deposit_pubkey (deposit_message inst m) m.deposit_proof
            ≡ true)
    pub positive : 0 < toman
    pub exact : uphi * (get_params s).phi_to_toman ≡ toman * uphi_per_phi
    pub backed : must_int inst.vault_balance +ℤ pos toman ≤ℤ must_int inst.attested_reserve
    pub addressed : sdk.acc_address_from_bech32 m.recipient ≡ some recipient
    pub capped : MintCapped ctx.block_time inst recipient toman m.kyc_tier s

  proven :
      (inst : Institution)
      → check_deposit_proof crypto inst m ≡ ok tt
      → (inst.deposit_pubkey ≡ empty_text)
        ⊎ (crypto.verify_signature inst.deposit_pubkey (deposit_message inst m) m.deposit_proof
            ≡ true)
  unfolding check_deposit_proof
  proven inst h = elim (Bool-cases (inst.deposit_pubkey == empty_text)) [
    | inl e ↦ inl (ground (arith, e))
    | inr e ↦ inr (ground (arith, h, e))
  ]

  pub Passed-Guarded :
      (inst : Institution) (recipient : Addr) (toman uphi : ℕ)
      → Passed crypto ctx m s inst recipient toman uphi
      → Guarded inst recipient toman uphi
  unfolding deposit_seen
  Passed-Guarded inst recipient toman uphi p =
      let (signer, signed, may) = may_mint inst m.admin s p.role p.separated in
      record {
        found = p.found;
        signer = signer;
        signed = signed;
        may = may;
        fresh = elim (Option-cases (lookup ((inst.id, mint_direction), m.deposit_ref) s.deposits)) [
          | inl e ↦ e
          | inr (mark, e) ↦ absurd (ground (arith, p.fresh, e))
        ];
        thawed = λ e. ground (arith, p.healthy, e);
        unpaused = p.healthy.1;
        attested =
            Attested-intro inst ctx.block_time (get_params s).max_attestation_staleness_seconds
              p.attested;
        proof = proven inst p.proof;
        positive = p.positive;
        exact = convert-eq-ok toman (get_params s).phi_to_toman uphi p.converted;
        backed = p.backed;
        addressed = p.addressed;
        capped = enforce_mint_caps-eq-ok ctx.block_time inst recipient toman m.kyc_tier s p.capped;
      }
