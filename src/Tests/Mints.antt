-- ===== src/Tests/Mints.antt =====
-- Tests of minting and redeeming.
use phi_chain.Base.{
  ◌-ℤ◌, erase, bits64, int64, sub64, ◌≡◌, ◌≢◌, refl, arith, true, false, none, some, [], ◌∷◌, pos,
  lookup, insert, ◌+ℤ◌, ok, err, check_all,
}
use phi_chain.Sdk.{empty_text}
use phi_chain.Sdk.Sample.{sample_sdk, sample_bank, Ledger, amount_text, state_after}
use phi_chain.Tests.Values.{sample_store, sample_ctx}
use phi_chain.Coin.Age.{
  is_old, lot_amount, lot_of, parse_amount, penalty_for_lots, spend_loop, spend_oldest_first,
  surplus,
}
use phi_chain.Coin.Keeper.{early_redeem_penalty, get_coin_age, set_coin_age, spend}
use phi_chain.Coin.Messages.{positive_amount}
use phi_chain.Institutions.Types
use phi_chain.Institutions.Types.{Params, Institution}
use phi_chain.Institutions.Store.{
  InstStore, get_params, get_institution, must_int, sum_vaults, deposit_seen, mark_deposit,
  set_institution,
}
use phi_chain.Institutions.Caps.{
  enforce_redeem_caps, add_redeem_counters, add_redeem_subject_total, get_counter_user,
  get_redeem_subject_total, redeem_subject, within_floor_reservation, Identity, get_counter_total,
  add_counter_user, add_counter_total,
}
use phi_chain.Institutions.Split.{
  uphi_per_toman, compute_redeem_split, clamp_carve, finish_split, split_carved, protocol_fee,
  minted_uphi_for_toman,
}
use phi_chain.Institutions.Limits.{
  at_least_floor, effective_kyc_daily_limit, emergency_cap_for_elapsed, redeem_floor_uphi,
  strictest_from, cap_int, kyc_tier_daily_limit, strictest_kyc_limit,
}
use phi_chain.Institutions.Handlers.{
  redeem_guards, redeem_split, send_positive, settle, InstChain, MsgInstitutionMint,
  MsgInstitutionRedeem, institution_redeem, Crypto, validate_fx_metadata, convert, assert_solvency,
  institution_mint,
}
use phi_chain.Institutions.Handlers.Solvency.{IsKeyed, IsSolvent}
use phi_chain.Institutions.Handlers.RedeemSolvency.{institution_redeem-IsSolvent}
use phi_chain.Institutions.Handlers.Mint.{institution_mint-IsSolvent}

abbrev sample_institution : Institution
sample_institution = record {
  id = 5;
  license = 1;
  admin = 21;
  vault_account = 1;
  vault_api = 1;
  bond = 1;
  status = Types.healthy;
  vault_balance = amount_text 70;
  attested_reserve = amount_text 1000;
  paused_mint = false;
  params = record {
    caps = record {
      mint_daily = amount_text 500;
      mint_per_tx = empty_text;
      mint_per_user = empty_text;
      redeem_daily = empty_text;
      redeem_per_tx = empty_text;
      redeem_per_user = empty_text;
    };
    kyc_tier_limits = [];
    max_vault_attestation_latency_s = 0;
    sensitive_threshold = 0;
  };
  institution_type = Types.financial;
  deposit_pubkey = empty_text;
  last_attested_at = pos 863000;
}

abbrev rates : Params
rates = record {
  operator = empty_text;
  phi_to_toman = 100000;
  redeem_floor_per_tx = empty_text;
  emergency_redemption = record {
    active = false;
    started_at = 0;
    cap_before_day30 = empty_text;
    cap_from_day30 = empty_text;
    cap_from_day60 = empty_text;
  };
  penalty_destination = empty_text;
  large_mint_threshold_toman = empty_text;
  mint_ceiling_per_tx = empty_text;
  mint_ceiling_daily = empty_text;
  redeem_daily_cap_per_did_uphi = empty_text;
  protocol_fee_bps = 1000;
  max_attestation_staleness_seconds = 86400;
}

abbrev one_institution : InstStore
one_institution = record {
  params = some rates;
  institutions = (5, sample_institution) ∷ [];
  roles = ((5, 30), Types.admin) ∷ ((5, 40), Types.compliance) ∷ [];
  admin_epochs = [];
  approvals = [];
  counter_totals = [];
  counter_users = [];
  redeem_subjects = [];
  deposits = [];
  holder_kyc_tiers = [];
  last_attestors = (5, 40) ∷ [];
}

-- The vault's 70 toman are 700 uphi.
abbrev backed_chain : InstChain Ledger
backed_chain = record {
  bank = record { held = λ a. 0; issued = 700 };
  coin = sample_store;
  inst = one_institution;
}

abbrev no_crypto : Crypto
no_crypto = record { verify_signature = λ k m p. false; content_hash = λ parts. 0 }

abbrev mint_thirty : MsgInstitutionMint
mint_thirty = record {
  admin = 31;
  institution = 5;
  recipient = 12;
  amount_toman = amount_text 30;
  deposit_proof = empty_text;
  deposit_ref = 77;
  fx = record { fx_currency = empty_text; fx_amount = empty_text; fx_tx_ref = empty_text };
  kyc_tier = 0;
}

one_institution-IsKeyed : IsKeyed one_institution
unfolding IsKeyed get_institution lookup
one_institution-IsKeyed id inst h = ground arith

backed_chain-IsSolvent : IsSolvent 700 one_institution
unfolding IsSolvent sum_vaults get_params ◌+ℤ◌
backed_chain-IsSolvent = (pos 70, refl, refl)

backed : IsSolvent (sample_bank.supply backed_chain.bank) backed_chain.inst
unfolding sample_bank
backed = backed_chain-IsSolvent

institution_mint-IsSolvent_example :
    (institution_mint sample_bank no_crypto sample_ctx mint_thirty backed_chain
      ≢ err Types.solvency_broken)
    × ((d : InstChain Ledger)
        → institution_mint sample_bank no_crypto sample_ctx mint_thirty backed_chain ≡ ok d
        → IsSolvent (sample_bank.supply d.bank) d.inst)
institution_mint-IsSolvent_example =
    institution_mint-IsSolvent sample_bank no_crypto sample_ctx mint_thirty backed_chain
      one_institution-IsKeyed backed

abbrev after_mint : InstChain Ledger
after_mint =
    state_after backed_chain
      (institution_mint sample_bank no_crypto sample_ctx mint_thirty backed_chain)

abbrev unnamed : Identity
unnamed = record { bootstrap_phase = true; subject_did = λ t. none }

abbrev redeem_twenty : MsgInstitutionRedeem
redeem_twenty = record {
  admin = 12;
  holder = 12;
  institution = 5;
  amount_toman = amount_text 20;
  redeem_ref = 78;
  fx = record { fx_currency = empty_text; fx_amount = empty_text; fx_tx_ref = empty_text };
}

abbrev held_chain : InstChain Ledger
held_chain = record backed_chain { bank = record { held = λ a. 700; issued = 700 } }

held : IsSolvent (sample_bank.supply held_chain.bank) held_chain.inst
unfolding sample_bank
held = backed_chain-IsSolvent

institution_redeem-IsSolvent_example :
    (institution_redeem sample_bank unnamed sample_ctx redeem_twenty held_chain
      ≢ err Types.solvency_broken)
    × ((d : InstChain Ledger)
        → institution_redeem sample_bank unnamed sample_ctx redeem_twenty held_chain ≡ ok d
        → IsSolvent (sample_bank.supply d.bank) d.inst)
unfolding get_params
institution_redeem-IsSolvent_example =
    institution_redeem-IsSolvent sample_bank unnamed sample_ctx redeem_twenty held_chain
      one_institution-IsKeyed refl held

abbrev after_redeem : InstChain Ledger
after_redeem =
    state_after held_chain
      (institution_redeem sample_bank unnamed sample_ctx redeem_twenty held_chain)

redeem_runs :
    institution_redeem sample_bank unnamed sample_ctx redeem_twenty held_chain ≡ ok after_redeem
unfolding institution_redeem sample_bank redeem_guards get_institution lookup deposit_seen must_int
    convert get_params minted_uphi_for_toman enforce_redeem_caps check_all at_least_floor cap_int
    effective_kyc_daily_limit strictest_kyc_limit redeem_split uphi_per_toman compute_redeem_split
    ◌+ℤ◌ ◌-ℤ◌ erase insert bits64 int64 sub64 is_old lot_amount lot_of parse_amount penalty_for_lots
    spend_loop spend_oldest_first surplus early_redeem_penalty get_coin_age set_coin_age spend
    positive_amount add_counter_total add_counter_user add_redeem_counters add_redeem_subject_total
    get_counter_total get_counter_user get_redeem_subject_total redeem_subject
    within_floor_reservation assert_solvency send_positive settle validate_fx_metadata
    emergency_cap_for_elapsed kyc_tier_daily_limit redeem_floor_uphi strictest_from clamp_carve
    finish_split protocol_fee split_carved mark_deposit set_institution sum_vaults
redeem_runs = refl
