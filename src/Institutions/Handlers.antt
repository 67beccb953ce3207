-- ===== src/Institutions/Handlers.antt =====
-- x/institutions/keeper/msg_server.go: minting against a deposit and redeeming, with the solvency
-- check of invariants.go. Events and telemetry are left out.
pub mod Solvency
pub mod Mint
pub mod MintGuards
pub mod MintRules
pub mod Redeem
pub mod RedeemSolvency
use phi_chain.Base.{
  ℕ, ◌+◌, ◌-◌, ◌*◌, ◌/◌, ◌%◌, Bool, true, false, not, ◌&&◌, ◌||◌, Option, none, some, List, [], ◌∷◌,
  ◌++◌, ltb, leb, ◌==◌, if◌then◌else◌, ℤ, pos, negsuc, ltb_ℤ, ◌+ℤ◌, ◌-ℤ◌, Map, lookup, insert,
  nat_eq, Result, ok, err, fail_if, check_all, or_fail, ◌>>=◌, ◌>>◌,
}
use phi_chain.Sdk.{Text, text, empty_text, Addr, Sdk}
use phi_chain.Sdk.Bank.{Bank, Account, user, module_account}
use phi_chain.Coin.Types.{uphi_per_phi}
use phi_chain.Coin.Keeper.{CoinStore, Ctx, add_coins, early_redeem_penalty}
use phi_chain.Coin.Messages.{revenue_account, positive_amount}
use phi_chain.Institutions.Types
use phi_chain.Institutions.Types.{Params, Institution, InstitutionType, Status, Error}
use phi_chain.Institutions.Split.{
  RedeemSplit, minted_uphi_for_toman, uphi_per_toman, protocol_fee, compute_redeem_split,
}
use phi_chain.Institutions.Limits.{cap_int, is_stale_at}
use phi_chain.Institutions.Store.{
  InstStore, get_params, get_institution, set_institution, deposit_seen, mark_deposit, require_role,
  is_operator_or_admin, is_compliance, require_mint_separation, try_sensitive, clear_approvals,
  must_int, sum_vaults,
}
use phi_chain.Institutions.Caps.{
  Identity, enforce_mint_caps, add_mint_counters, enforce_redeem_caps, add_redeem_counters,
}

pub record InstChain (B : Type 0) : Type 0 where
  pub bank : B
  pub coin : CoinStore
  pub inst : InstStore

pub record FxMetadata : Type 0 where
  pub fx_currency : Text
  pub fx_amount : Text
  pub fx_tx_ref : Text

pub record MsgInstitutionMint : Type 0 where
  pub admin : Text
  pub institution : Text
  pub recipient : Text
  pub amount_toman : Text
  pub deposit_proof : Text
  pub deposit_ref : Text
  pub fx : FxMetadata
  pub kyc_tier : ℕ

pub record MsgInstitutionRedeem : Type 0 where
  pub admin : Text
  pub institution : Text
  pub holder : Text
  pub amount_toman : Text
  pub redeem_ref : Text
  pub fx : FxMetadata

-- The signature check of the deposit proof, over the parts of the message that are signed, and the
-- hash of the parts of an action.
pub record Crypto : Type 0 where
  pub verify_signature : Text → List Text → Text → Bool
  pub content_hash : List Text → ℕ

abbrev pub institutions_account : Account
institutions_account = module_account (text "institutions")

abbrev pub is_fx : InstitutionType → Bool
is_fx Types.fx = true
is_fx Types.financial = false
is_fx Types.type_unspecified = false

abbrev pub is_frozen : Status → Bool
is_frozen Types.frozen = true
is_frozen Types.healthy = false
is_frozen Types.low_liq = false
is_frozen Types.status_unspecified = false

unfoldable pub validate_fx_metadata : InstitutionType → FxMetadata → Result Error (Unit {0})
validate_fx_metadata type m = do
  let currency = not (m.fx_currency == empty_text)
  let amount = not (m.fx_amount == empty_text)
  let tx_ref = not (m.fx_tx_ref == empty_text)
  fail_if (is_fx type && not (currency && amount && tx_ref)) Types.invalid_fx_metadata
  fail_if (not (is_fx type) && (currency || amount || tx_ref)) Types.invalid_fx_metadata

abbrev fx_parts : InstitutionType → FxMetadata → List Text
fx_parts type m = if is_fx type then m.fx_currency ∷ m.fx_amount ∷ m.fx_tx_ref ∷ [] else []

unfoldable pub deposit_message : Institution → MsgInstitutionMint → List Text
deposit_message inst m =
    text "phi-deposit-attestation-v2"
    ∷ inst.id
    ∷ m.recipient
    ∷ m.amount_toman
    ∷ m.deposit_ref
    ∷ fx_parts inst.institution_type m.fx

unfoldable pub check_deposit_proof :
    Crypto → Institution → MsgInstitutionMint → Result Error (Unit {0})
unfolding deposit_message
check_deposit_proof crypto inst m =
    if inst.deposit_pubkey == empty_text
    then ok tt
    else fail_if
        (not (crypto.verify_signature inst.deposit_pubkey (deposit_message inst m) m.deposit_proof))
        Types.invalid_deposit_proof

abbrev pub mint_direction : Text
mint_direction = text "mint"

abbrev pub redeem_direction : Text
redeem_direction = text "redeem"

unfoldable pub convert : ℕ → ℕ → Result Error ℕ
convert toman rate = do
  fail_if (rate == 0) Types.panicked
  fail_if (not ((minted_uphi_for_toman toman rate).1 && ltb 0 (minted_uphi_for_toman toman rate).0))
      Types.non_integral_mint
  ok (minted_uphi_for_toman toman rate).0

abbrev pub balances : ℕ → ℕ → ℤ → Bool
balances supply rate (pos sum) = supply * rate == sum * uphi_per_phi
balances supply rate (negsuc n) = false

module _ ⦃sdk : Sdk⦄ where
  -- `SolvencyInvariant`: an unreadable vault panics.
  unfoldable pub assert_solvency : ℕ → InstStore → Result Error (Unit {0})
  assert_solvency supply s = do
    sum ← or_fail (sum_vaults s.institutions) Types.panicked
    fail_if (not (balances supply (get_params s).phi_to_toman sum)) Types.solvency_broken

  -- Whether a mint may go on, and the store with the approval that it records or uses up.
  unfoldable pub approve_large_mint :
      Crypto → Institution → MsgInstitutionMint → ℕ → InstStore → Result Error (Bool × InstStore)
  approve_large_mint crypto inst m toman s =
      let lim = cap_int (get_params s).large_mint_threshold_toman in
      let hash = crypto.content_hash (
        mint_direction ∷ inst.id ∷ m.recipient ∷ m.amount_toman ∷ m.deposit_ref ∷ m.fx.fx_currency
        ∷ m.fx.fx_amount ∷ m.fx.fx_tx_ref ∷ []) in
      if ltb 0 lim && leb lim toman
      then (try_sensitive inst m.admin hash s >>= λ r.
          ok (r.0, if r.0 then clear_approvals inst.id hash r.1 else r.1))
      else ok (true, s)

  -- The guards of InstitutionMint, in order: who asks, whether minting is open, how much is minted,
  -- and for whom.
  unfoldable pub mint_authority : MsgInstitutionMint → InstStore → Result Error Institution
  mint_authority m s = do
    inst ← or_fail (get_institution m.institution s) Types.institution_not_found
    require_role inst m.admin is_operator_or_admin s
    validate_fx_metadata inst.institution_type m.fx
    ok inst

  unfoldable pub mint_open :
      Ctx → MsgInstitutionMint → Institution → InstStore → Result Error (Unit {0})
  mint_open ctx m inst s = check_all (
      (m.deposit_ref == empty_text, Types.missing_ref)
      ∷ (deposit_seen inst.id mint_direction m.deposit_ref s, Types.duplicate_deposit)
      ∷ (is_frozen inst.status, Types.institution_frozen)
      ∷ (inst.paused_mint, Types.mint_paused)
      ∷ (
        is_stale_at inst ctx.block_time (get_params s).max_attestation_staleness_seconds,
        Types.attestation_stale,
      )
      ∷ [])

  unfoldable pub mint_amounts :
      Crypto → MsgInstitutionMint → Institution → InstStore → Result Error (ℕ × ℕ)
  unfolding positive_amount
  mint_amounts crypto m inst s = do
    toman ← positive_amount (sdk.new_int_from_string m.amount_toman) Types.invalid_amount
    check_deposit_proof crypto inst m
    uphi ← convert toman (get_params s).phi_to_toman
    fail_if (ltb_ℤ (must_int inst.attested_reserve) (must_int inst.vault_balance +ℤ pos toman))
        Types.mint_exceeds_backing
    ok (toman, uphi)

  unfoldable pub mint_guards :
      Crypto → Ctx → MsgInstitutionMint → InstStore → Result Error (Institution × Addr × ℕ × ℕ)
  mint_guards crypto ctx m s = do
    inst ← mint_authority m s
    mint_open ctx m inst s
    require_mint_separation inst m.admin s
    amounts ← mint_amounts crypto m inst s
    recipient ← or_fail (sdk.acc_address_from_bech32 m.recipient) Types.invalid_address
    enforce_mint_caps ctx.block_time inst recipient amounts.0 m.kyc_tier s
    ok (inst, recipient, amounts.0, amounts.1)

  -- The guards of InstitutionRedeem before the carve, in order: the institution, the holder and the
  -- two amounts.
  unfoldable pub redeem_guards :
      Identity → Ctx → MsgInstitutionRedeem → InstStore → Result Error (Institution × Addr × ℕ × ℕ)
  unfolding positive_amount validate_fx_metadata
  redeem_guards idk ctx m s = do
    inst ← or_fail (get_institution m.institution s) Types.institution_not_found
    fail_if (not (m.admin == m.holder)) Types.unauthorized
    validate_fx_metadata inst.institution_type m.fx
    fail_if (m.redeem_ref == empty_text) Types.missing_ref
    fail_if (deposit_seen inst.id redeem_direction m.redeem_ref s) Types.duplicate_deposit
    toman ← positive_amount (sdk.new_int_from_string m.amount_toman) Types.invalid_amount
    fail_if (ltb_ℤ (must_int inst.vault_balance) (pos toman)) Types.insufficient_vault
    uphi ← convert toman (get_params s).phi_to_toman
    holder ← or_fail (sdk.acc_address_from_bech32 m.holder) Types.invalid_address
    enforce_redeem_caps idk ctx.block_time inst holder toman uphi s
    ok (inst, holder, toman, uphi)

  -- The split of the surrendered uphi. (A rate above the uphi of a phi makes Mod panic.)
  unfoldable pub redeem_split : Params → ℕ → ℕ → Result Error RedeemSplit
  redeem_split p uphi penalty = do
    fail_if (ltb uphi (uphi_per_toman p.phi_to_toman)) Types.below_min_redeem
    fail_if (uphi_per_toman p.phi_to_toman == 0) Types.panicked
    let split = compute_redeem_split uphi (protocol_fee p uphi) penalty p.phi_to_toman
    fail_if (split.burned == 0) Types.nothing_redeemed
    ok split

  module _ {B : Type 0} (bank : Bank B) where
    unfoldable pub send_positive : Account → Account → ℕ → B → Result Error B
    send_positive from to n b =
        if n == 0 then ok b else or_fail (bank.send from to n b) Types.bank_failed

    -- What the bank does for a mint: the whole amount is minted and shared out.
    unfoldable pub distribute : Addr → ℕ → ℕ → B → Result Error B
    unfolding send_positive
    distribute recipient uphi fee b = do
      fail_if (ltb uphi fee) Types.panicked
      minted ← or_fail (bank.mint_coins institutions_account uphi b) Types.bank_failed
      given ←
          or_fail (bank.send institutions_account (user recipient) (uphi - fee) minted)
            Types.bank_failed
      send_positive institutions_account revenue_account fee given

    unfoldable pub execute_mint :
        Ctx
        → MsgInstitutionMint
        → Institution
        → Addr
        → ℕ
        → ℕ
        → InstChain B
        → Result Error (InstChain B)
    execute_mint ctx m inst recipient toman uphi c = do
      let fee = protocol_fee (get_params c.inst) uphi
      let paid = record inst {
        vault_balance = sdk.int_string (must_int inst.vault_balance +ℤ pos toman);
      }
      b ← distribute recipient uphi fee c.bank
      let coin = add_coins m.recipient (uphi - fee) (pos ctx.block_time) c.coin
      let counted =
          add_mint_counters ctx.block_time paid recipient toman (set_institution paid c.inst)
      let s = mark_deposit inst.id mint_direction m.deposit_ref counted
      assert_solvency (bank.supply b) s
      ok (record { bank = b; coin = coin; inst = s })

    unfoldable pub institution_mint :
        Crypto → Ctx → MsgInstitutionMint → InstChain B → Result Error (InstChain B)
    institution_mint crypto ctx m c = do
      g ← mint_guards crypto ctx m c.inst
      gate ← approve_large_mint crypto g.0 m g.2 c.inst
      let c' = record c { inst = gate.1 }
      if gate.0 then execute_mint ctx m g.0 g.1 g.2 g.3 c' else ok c'

    -- What the bank does for a redemption: the uphi is surrendered, carved and burned.
    unfoldable pub settle : Addr → ℕ → RedeemSplit → B → Result Error B
    unfolding send_positive
    settle holder uphi split b = do
      surrendered ← or_fail (bank.send (user holder) institutions_account uphi b) Types.bank_failed
      carved ← send_positive institutions_account revenue_account split.carved surrendered
      or_fail (bank.burn_coins institutions_account split.burned carved) Types.bank_failed

    unfoldable pub institution_redeem :
        Identity → Ctx → MsgInstitutionRedeem → InstChain B → Result Error (InstChain B)
    institution_redeem idk ctx m c = do
      g ← redeem_guards idk ctx m c.inst
      let aged = early_redeem_penalty ctx m.holder g.3 c.coin
      split ← redeem_split (get_params c.inst) g.3 aged.0
      b ← settle g.1 g.3 split c.bank
      let paid = record g.0 {
        vault_balance = sdk.int_string (must_int (g.0).vault_balance -ℤ pos split.toman_out);
      }
      let counted =
          add_redeem_counters idk ctx.block_time paid g.1 g.2 g.3 (set_institution paid c.inst)
      let s = mark_deposit paid.id redeem_direction m.redeem_ref counted
      assert_solvency (bank.supply b) s
      ok (record { bank = b; coin = aged.1; inst = s })
