-- ===== src/Institutions/Handlers/Mint.antt =====
-- Proofs about InstitutionMint.
use phi_chain.Base.{
  ℕ, ◌+◌, ◌-◌, ◌*◌, ◌≡◌, ◌≢◌, refl, sym, ap, ◌∙◌, inl, inr, arith, Bool, true, some, ◌==◌,
  if◌then◌else◌, pos, ◌+ℤ◌, lookup, lookup-insert, nat_eq, pair_eq, Result, ok, err, Bool-cases,
  Option-cases, Result-cases,
}
use phi_chain.Sdk.{Text, Addr, Sdk}
use phi_chain.Sdk.Bank.{Bank, Account, user}
use phi_chain.Coin.Types.{uphi_per_phi}
use phi_chain.Coin.Keeper.{Ctx, add_coins}
use phi_chain.Coin.Messages.{revenue_account}
use phi_chain.Institutions.Types
use phi_chain.Institutions.Types.{Params, Institution, Error}
use phi_chain.Institutions.Split.{protocol_fee}
use phi_chain.Institutions.Store.{
  InstStore, get_params, get_institution, set_institution, mark_deposit, deposit_seen, must_int,
  try_sensitive, record_approval, clear_approvals, is_admin, sum_vaults,
}
use phi_chain.Institutions.Caps.{add_mint_counters, add_counter_total, add_counter_user}
use phi_chain.Institutions.Handlers.{
  InstChain, MsgInstitutionMint, Crypto, institutions_account, mint_direction, send_positive,
  distribute, execute_mint, mint_guards, approve_large_mint, institution_mint,
}
use phi_chain.Institutions.Handlers.MintGuards.{
  Passed, require_role-error, mint_guards-error, mint_guards-eq-ok,
}
use phi_chain.Institutions.Handlers.Solvency.{
  IsKeyed, IsSolvent, Moved, assert_solvency-IsSolvent, grown-IsSolvent, convert-eq-ok,
}

module _ ⦃sdk : Sdk⦄ {B : Type 0} (bank : Bank B) where
  pub send_positive-supply :
      (a b : Account) (n : ℕ) (s t : B)
      → send_positive bank a b n s ≡ ok t
      → bank.supply t ≡ bank.supply s
  unfolding send_positive
  send_positive-supply a b n s t h = elim (Bool-cases (n == 0)) [
    | inl nothing ↦ let same : s ≡ t = ground (arith, h, nothing) in ap bank.supply (sym same)
    | inr more ↦ bank.send-supply a b n s t (ground (arith, h, more))
  ]

  distribute-supply :
      (recipient : Addr) (uphi fee : ℕ) (b d : B)
      → distribute bank recipient uphi fee b ≡ ok d
      → bank.supply d ≡ bank.supply b + uphi
  unfolding distribute
  distribute-supply recipient uphi fee b d h =
      elim (Option-cases (bank.mint_coins institutions_account uphi b)) [
        | inl e ↦ ground (arith, h, e)
        | inr (minted, em) ↦
            elim (Option-cases
              (bank.send institutions_account (user recipient) (uphi - fee) minted)) [
                | inl e ↦ ground (arith, h, em, e)
                | inr (given, eg) ↦
                    let last : send_positive bank institutions_account revenue_account fee given
                        ≡ ok d =
                      ground (arith, h, em, eg) in
                    send_positive-supply institutions_account revenue_account fee given d last
                    ∙ bank.send-supply institutions_account (user recipient) (uphi - fee) minted
                        given eg
                    ∙ bank.mint-supply institutions_account uphi b minted em
              ]
      ]

  deposit_seen-mark_deposit :
      (id direction ref : Text) (s : InstStore)
      → deposit_seen id direction ref (mark_deposit id direction ref s) ≡ true
  unfolding deposit_seen mark_deposit
  deposit_seen-mark_deposit id direction ref s =
      ground (arith, lookup-insert ((id, direction), ref) ((id, direction), ref) true s.deposits)

  -- The store after a mint.
  minted_store : Ctx → MsgInstitutionMint → Institution → Addr → ℕ → InstStore → InstStore
  minted_store ctx m inst recipient toman s =
      let paid = record inst {
        vault_balance = sdk.int_string (must_int inst.vault_balance +ℤ pos toman);
      } in
      mark_deposit inst.id mint_direction m.deposit_ref
        (add_mint_counters ctx.block_time paid recipient toman (set_institution paid s))

  minted_store-Moved :
      (ctx : Ctx) (m : MsgInstitutionMint) (inst : Institution) (recipient : Addr) (toman : ℕ)
      (s : InstStore)
      → get_institution inst.id s ≡ some inst
      → Moved (pos toman) inst s (minted_store ctx m inst recipient toman s)
  unfolding minted_store mark_deposit add_mint_counters add_counter_total add_counter_user
      set_institution get_institution get_params
  minted_store-Moved ctx m inst recipient toman s h = record {
    new = record inst { vault_balance = sdk.int_string (must_int inst.vault_balance +ℤ pos toman) };
    found = h;
    stored = refl;
    vault = sdk.parse-string (must_int inst.vault_balance +ℤ pos toman);
    params = refl;
  }

  distribute-error :
      (recipient : Addr) (uphi fee : ℕ) (b : B)
      → distribute bank recipient uphi fee b ≢ err Types.solvency_broken
  unfolding distribute send_positive
  distribute-error recipient uphi fee b h = ground arith

  more_supply : (a b c n rate : ℕ) → b ≡ a + n → n * rate ≡ c → b * rate ≡ a * rate + c
  more_supply a b c n rate e f = rw e (grind arith)

  execute_mint-IsSolvent :
      (ctx : Ctx) (m : MsgInstitutionMint) (inst : Institution) (recipient : Addr) (toman uphi : ℕ)
      (c : InstChain B)
      → get_institution inst.id c.inst ≡ some inst
      → uphi * (get_params c.inst).phi_to_toman ≡ toman * uphi_per_phi
      → IsSolvent (bank.supply c.bank) c.inst
      → (execute_mint bank ctx m inst recipient toman uphi c ≢ err Types.solvency_broken)
        × ((d : InstChain B)
            → execute_mint bank ctx m inst recipient toman uphi c ≡ ok d
            → IsSolvent (bank.supply d.bank) d.inst
              × (deposit_seen inst.id mint_direction m.deposit_ref d.inst ≡ true))
  unfolding execute_mint minted_store
  execute_mint-IsSolvent ctx m inst recipient toman uphi c found exact solvent =
      let fee = protocol_fee (get_params c.inst) uphi in
      elim (Result-cases (distribute bank recipient uphi fee c.bank)) [
        | inr (e, failed) ↦ (
          λ h. distribute-error recipient uphi fee c.bank (ground (arith, h, failed)),
          λ d h. absurd (ground (arith, h, failed)),
        )
        | inl (b, paid) ↦
            let s = minted_store ctx m inst recipient toman c.inst in
            let after : IsSolvent (bank.supply b) s =
              grown-IsSolvent (bank.supply c.bank) (bank.supply b) toman inst c.inst s
                (minted_store-Moved ctx m inst recipient toman c.inst found)
                (more_supply (bank.supply c.bank) (bank.supply b) (toman * uphi_per_phi) uphi
                  (get_params c.inst).phi_to_toman
                  (distribute-supply recipient uphi fee c.bank b paid) exact)
                solvent in
            let holds = assert_solvency-IsSolvent (bank.supply b) s after in
            let d' : InstChain B = record {
              bank = b;
              coin = add_coins m.recipient (uphi - fee) (pos ctx.block_time) c.coin;
              inst = s;
            } in
            let runs : execute_mint bank ctx m inst recipient toman uphi c ≡ ok d' =
              ground (arith, paid, holds) in
            (
              λ h. ground (arith, h, runs),
              λ d h.
                  let at_bank : d.bank ≡ b = ground (arith, h, runs) in
                  let at_inst : d.inst ≡ s = ground (arith, h, runs) in
                  rw (at_bank, at_inst)
                    (after, deposit_seen-mark_deposit inst.id mint_direction m.deposit_ref _),
            )
      ]

  approved_store :
      (crypto : Crypto) (inst : Institution) (m : MsgInstitutionMint) (toman : ℕ) (s s' : InstStore)
      (may : Bool)
      → approve_large_mint crypto inst m toman s ≡ ok (may, s')
      → (s'.institutions ≡ s.institutions) × (s'.params ≡ s.params)
  unfolding approve_large_mint try_sensitive record_approval clear_approvals
  approved_store crypto inst m toman s s' may h = (ground (arith, h), ground (arith, h))

  approve_large_mint-error :
      (crypto : Crypto) (inst : Institution) (m : MsgInstitutionMint) (toman : ℕ) (s : InstStore)
      → approve_large_mint crypto inst m toman s ≢ err Types.solvency_broken
  unfolding approve_large_mint try_sensitive
  approve_large_mint-error crypto inst m toman s h =
      ground (arith, h, require_role-error inst m.admin is_admin s)

  get_params_cong :
      (uphi n : ℕ) (s s' : InstStore)
      → s'.params ≡ s.params
      → uphi * (get_params s).phi_to_toman ≡ n
      → uphi * (get_params s').phi_to_toman ≡ n
  unfolding get_params
  get_params_cong uphi n s s' f e = rw f e

  same_solvency :
      (supply : ℕ) (s s' : InstStore)
      → s'.institutions ≡ s.institutions
      → s'.params ≡ s.params
      → IsSolvent supply s
      → IsSolvent supply s'
  unfolding IsSolvent get_params
  same_solvency supply s s' e f (sum, total, holds) = (sum, ap sum_vaults e ∙ total, rw f holds)

  -- A mint whose guards have passed, executed or left pending by the gate.
  gated_mint :
      (crypto : Crypto) (ctx : Ctx) (m : MsgInstitutionMint) (inst : Institution) (recipient : Addr)
      (toman uphi : ℕ) (may : Bool) (s : InstStore) (c : InstChain B)
      → IsKeyed c.inst
      → Passed crypto ctx m c.inst inst recipient toman uphi
      → approve_large_mint crypto inst m toman c.inst ≡ ok (may, s)
      → IsSolvent (bank.supply c.bank) c.inst
      → let c' = record c { inst = s } in
        let r : Result Error (InstChain B) =
          if may then execute_mint bank ctx m inst recipient toman uphi c' else ok c' in
        (r ≢ err Types.solvency_broken)
        × ((d : InstChain B) → r ≡ ok d → IsSolvent (bank.supply d.bank) d.inst)
  unfolding IsKeyed get_institution
  gated_mint crypto ctx m inst recipient toman uphi may s c keyed gd approved solvent =
      let c' = record c { inst = s } in
      let (e, f) = approved_store crypto inst m toman c.inst s may approved in
      let kept = same_solvency (bank.supply c.bank) c.inst s e f solvent in
      let own : inst.id ≡ m.institution = keyed m.institution inst gd.found in
      let found : get_institution inst.id s ≡ some inst =
        ap (λ id. get_institution id s) own ∙ ap (lookup m.institution) e ∙ gd.found in
      let exact = convert-eq-ok toman (get_params c.inst).phi_to_toman uphi gd.converted in
      let exact' : uphi * (get_params s).phi_to_toman ≡ toman * uphi_per_phi =
        get_params_cong uphi (toman * uphi_per_phi) c.inst s f exact in
      let run = execute_mint-IsSolvent ctx m inst recipient toman uphi c' found exact' kept in
      elim (Bool-cases may) [
        | inl go ↦ rw go (run.0, λ d h. (run.1 d h).0)
        | inr wait ↦ rw wait (
          λ h. absurd (ground (arith, h)),
          λ d h. let same : d ≡ c' = ground (arith, h) in rw same kept,
        )
      ]

  -- From a solvent state, with every institution under its own id, a mint never fails for breaking
  -- solvency, and after a mint that succeeds, executed or left pending, the state is solvent.
  pub institution_mint-IsSolvent :
      (crypto : Crypto) (ctx : Ctx) (m : MsgInstitutionMint) (c : InstChain B)
      → IsKeyed c.inst
      → IsSolvent (bank.supply c.bank) c.inst
      → (institution_mint bank crypto ctx m c ≢ err Types.solvency_broken)
        × ((d : InstChain B)
            → institution_mint bank crypto ctx m c ≡ ok d
            → IsSolvent (bank.supply d.bank) d.inst)
  unfolding institution_mint
  institution_mint-IsSolvent crypto ctx m c keyed solvent =
      elim (Result-cases (mint_guards crypto ctx m c.inst)) [
        | inr (e, failed) ↦ (
          λ h. mint_guards-error crypto ctx m c.inst (ground (arith, h, failed)),
          λ d h. absurd (ground (arith, h, failed)),
        )
        | inl ((inst, recipient, toman, uphi), g) ↦
            elim (Result-cases (approve_large_mint crypto inst m toman c.inst)) [
              | inr (e, failed) ↦ (
                λ h.
                    approve_large_mint-error crypto inst m toman c.inst
                      (ground (arith, h, g, failed)),
                λ d h. absurd (ground (arith, h, g, failed)),
              )
              | inl ((may, s), approved) ↦
                  let gd = mint_guards-eq-ok crypto ctx m c.inst inst recipient toman uphi g in
                  let after =
                    gated_mint crypto ctx m inst recipient toman uphi may s c keyed gd approved
                      solvent in
                  (
                    λ h. after.0 (ground (arith, h, g, approved)),
                    λ d h. after.1 d (ground (arith, h, g, approved)),
                  )
            ]
      ]
