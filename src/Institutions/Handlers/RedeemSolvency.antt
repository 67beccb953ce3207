-- ===== src/Institutions/Handlers/RedeemSolvency.antt =====
-- Proofs that a redemption keeps the supply backed.
use phi_chain.Base.{ℕ, ◌%◌, ◌≡◌, ◌≢◌, refl, ap, ◌∙◌, inl, inr, arith, some, ok, err, Result-cases}
use phi_chain.Sdk.{Addr, Sdk}
use phi_chain.Sdk.Bank.{Bank}
use phi_chain.Coin.Types.{uphi_per_phi}
use phi_chain.Coin.Keeper.{Ctx, early_redeem_penalty}
use phi_chain.Institutions.Types
use phi_chain.Institutions.Types.{Params, Institution, Error}
use phi_chain.Institutions.Split.{RedeemSplit, uphi_per_toman}
use phi_chain.Institutions.Store.{InstStore, get_params, get_institution}
use phi_chain.Institutions.Caps.{Identity}
use phi_chain.Institutions.Handlers.{
  InstChain, MsgInstitutionRedeem, redeem_guards, redeem_split, settle, send_positive,
  institution_redeem,
}
use phi_chain.Institutions.Handlers.Solvency.{
  IsKeyed, IsSolvent, assert_solvency-IsSolvent, shrunk-IsSolvent,
}
use phi_chain.Institutions.Handlers.Redeem.{
  redeem_split-IsExact, redeemed_store, redeemed_store-Moved, less_supply, whole_rate,
  redeem_guards-found, redeem_guards-error, settle-supply,
}

module _ ⦃sdk : Sdk⦄ where
  redeem_split-error :
      (p : Params) (uphi penalty : ℕ) → redeem_split p uphi penalty ≢ err Types.solvency_broken
  unfolding redeem_split
  redeem_split-error p uphi penalty h = ground (arith, h)

  module _ {B : Type 0} (bank : Bank B) where
    settle-error :
        (holder : Addr) (uphi : ℕ) (split : RedeemSplit) (b : B)
        → settle bank holder uphi split b ≢ err Types.solvency_broken
    unfolding settle send_positive
    settle-error holder uphi split b h = ground (arith, h)

    settled-IsSolvent :
        (idk : Identity) (ctx : Ctx) (m : MsgInstitutionRedeem) (inst : Institution) (holder : Addr)
        (toman uphi penalty : ℕ) (split : RedeemSplit) (b : B) (c : InstChain B)
        → get_institution inst.id c.inst ≡ some inst
        → uphi_per_phi % (get_params c.inst).phi_to_toman ≡ 0
        → redeem_split (get_params c.inst) uphi penalty ≡ ok split
        → settle bank holder uphi split c.bank ≡ ok b
        → IsSolvent (bank.supply c.bank) c.inst
        → IsSolvent
            (bank.supply b)
            (redeemed_store idk ctx m inst holder toman uphi split.toman_out c.inst)
    settled-IsSolvent idk ctx m inst holder toman uphi penalty split b c found whole cut paid
          solvent =
        let rate = (get_params c.inst).phi_to_toman in
        let exact = redeem_split-IsExact (get_params c.inst) uphi penalty split cut in
        shrunk-IsSolvent (bank.supply c.bank) (bank.supply b) split.toman_out inst c.inst
          (redeemed_store idk ctx m inst holder toman uphi split.toman_out c.inst)
          (redeemed_store-Moved idk ctx m inst holder toman uphi split.toman_out c.inst found)
          (less_supply (bank.supply c.bank) (bank.supply b) (uphi_per_toman rate) split.toman_out
            rate split.burned (settle-supply bank holder uphi split c.bank b paid) exact.payout
            (whole_rate rate whole))
          solvent

    own_institution :
        (idk : Identity) (ctx : Ctx) (m : MsgInstitutionRedeem) (s : InstStore) (inst : Institution)
        (holder : Addr) (toman uphi : ℕ)
        → IsKeyed s
        → redeem_guards idk ctx m s ≡ ok (inst, holder, toman, uphi)
        → get_institution inst.id s ≡ some inst
    unfolding IsKeyed
    own_institution idk ctx m s inst holder toman uphi keyed g =
        let found = redeem_guards-found idk ctx m s inst holder toman uphi g in
        ap (λ id. get_institution id s) (keyed m.institution inst found) ∙ found

    -- From a solvent state, with every institution under its own id and a rate that divides the uphi
    -- of one phi, a redemption never fails for breaking solvency, and after a redemption that succeeds
    -- the state is solvent.
    pub institution_redeem-IsSolvent :
        (idk : Identity) (ctx : Ctx) (m : MsgInstitutionRedeem) (c : InstChain B)
        → IsKeyed c.inst
        → uphi_per_phi % (get_params c.inst).phi_to_toman ≡ 0
        → IsSolvent (bank.supply c.bank) c.inst
        → (institution_redeem bank idk ctx m c ≢ err Types.solvency_broken)
          × ((d : InstChain B)
              → institution_redeem bank idk ctx m c ≡ ok d
              → IsSolvent (bank.supply d.bank) d.inst)
    unfolding institution_redeem redeemed_store
    institution_redeem-IsSolvent idk ctx m c keyed whole solvent =
        elim (Result-cases (redeem_guards idk ctx m c.inst)) [
          | inr (e, failed) ↦ (
            λ h. redeem_guards-error idk ctx m c.inst (ground (arith, h, failed)),
            λ d h. absurd (ground (arith, h, failed)),
          )
          | inl ((inst, holder, toman, uphi), g) ↦
              let aged = early_redeem_penalty ctx m.holder uphi c.coin in
              elim (Result-cases (redeem_split (get_params c.inst) uphi aged.0)) [
                | inr (e, failed) ↦ (
                  λ h.
                      redeem_split-error (get_params c.inst) uphi aged.0
                        (ground (arith, h, g, failed)),
                  λ d h. absurd (ground (arith, h, g, failed)),
                )
                | inl (split, cut) ↦ elim (Result-cases (settle bank holder uphi split c.bank)) [
                  | inr (e, failed) ↦ (
                    λ h. settle-error holder uphi split c.bank (ground (arith, h, g, cut, failed)),
                    λ d h. absurd (ground (arith, h, g, cut, failed)),
                  )
                  | inl (b, paid) ↦
                      let s =
                        redeemed_store idk ctx m inst holder toman uphi split.toman_out c.inst in
                      let after : IsSolvent (bank.supply b) s =
                        settled-IsSolvent idk ctx m inst holder toman uphi aged.0 split b c
                          (own_institution idk ctx m c.inst inst holder toman uphi keyed g) whole
                          cut paid solvent in
                      let holds = assert_solvency-IsSolvent (bank.supply b) s after in
                      let d' : InstChain B = record { bank = b; coin = aged.1; inst = s } in
                      let runs : institution_redeem bank idk ctx m c ≡ ok d' =
                        rw (institution_redeem, g, cut, paid, holds) refl in
                      (
                        λ h. ground (arith, h, runs),
                        λ d h.
                            let at_bank : d.bank ≡ b = ground (arith, h, runs) in
                            let at_inst : d.inst ≡ s = ground (arith, h, runs) in
                            rw (at_bank, at_inst) after,
                      )
                ]
              ]
        ]
