-- ===== src/Institutions/Handlers/Redeem.antt =====
-- Proofs about InstitutionRedeem.
use phi_chain.Base.{
  ℕ, ◌+◌, ◌*◌, ◌%◌, ◌≡◌, ◌≢◌, refl, ap, ◌∙◌, inl, inr, arith, some, pos, ◌-ℤ◌, sub_ℕ, nat_eq, ok,
  err, check_all-other, Option-cases, Result-cases,
}
use phi_chain.Sdk.{Addr, Sdk}
use phi_chain.Sdk.Bank.{Bank, user}
use phi_chain.Coin.Types.{uphi_per_phi}
use phi_chain.Coin.Keeper.{Ctx}
use phi_chain.Coin.Messages.{revenue_account, positive-cases}
use phi_chain.Institutions.Types
use phi_chain.Institutions.Types.{Institution, Params, Error}
use phi_chain.Institutions.Split.{RedeemSplit, uphi_per_toman, protocol_fee, compute_redeem_split}
use phi_chain.Institutions.Split.Laws.{IsExact, compute_redeem_split-IsExact}
use phi_chain.Institutions.Store.{
  InstStore, get_institution, get_params, must_int, set_institution, mark_deposit,
}
use phi_chain.Institutions.Caps.{
  Identity, enforce_redeem_caps, add_redeem_counters, add_redeem_subject_total, add_counter_user,
  add_counter_total,
}
use phi_chain.Institutions.Handlers.{
  MsgInstitutionRedeem, institutions_account, redeem_direction, redeem_guards, redeem_split, settle,
  send_positive, convert,
}
use phi_chain.Institutions.Handlers.Solvency.{Moved, minus_sub}
use phi_chain.Institutions.Handlers.MintGuards.{validate_fx_metadata-error, convert-error}
use phi_chain.Institutions.Handlers.Mint.{send_positive-supply}

module _ ⦃sdk : Sdk⦄ where
  -- The split of a redemption that goes on is exact, at a positive rate per toman.
  pub redeem_split-IsExact :
      (p : Params) (uphi penalty : ℕ) (split : RedeemSplit)
      → redeem_split p uphi penalty ≡ ok split
      → IsExact (uphi_per_toman p.phi_to_toman) uphi (protocol_fee p uphi) penalty split
  unfolding redeem_split
  redeem_split-IsExact p uphi penalty split h =
      let same : compute_redeem_split uphi (protocol_fee p uphi) penalty p.phi_to_toman ≡ split =
        ground (arith, h) in
      rw (← same) (
        compute_redeem_split-IsExact uphi (protocol_fee p uphi) penalty p.phi_to_toman
          (ground (arith, h)))

  unfoldable pub redeemed_store :
      Identity → Ctx → MsgInstitutionRedeem → Institution → Addr → ℕ → ℕ → ℕ → InstStore → InstStore
  redeemed_store idk ctx m inst holder toman uphi toman_out s =
      let paid = record inst {
        vault_balance = sdk.int_string (must_int inst.vault_balance -ℤ pos toman_out);
      } in
      mark_deposit paid.id redeem_direction m.redeem_ref
        (add_redeem_counters idk ctx.block_time paid holder toman uphi (set_institution paid s))

  counted_institutions :
      (idk : Identity) (block_time : ℕ) (inst : Institution) (holder : Addr) (toman uphi : ℕ)
      (s : InstStore)
      → ((add_redeem_counters idk block_time inst holder toman uphi s).institutions
          ≡ s.institutions)
        × ((add_redeem_counters idk block_time inst holder toman uphi s).params ≡ s.params)
  unfolding add_redeem_counters add_redeem_subject_total add_counter_user add_counter_total
  counted_institutions idk block_time inst holder toman uphi s = (ground arith, ground arith)

  module _ {B : Type 0} (bank : Bank B) where
    pub settle-supply :
        (holder : Addr) (uphi : ℕ) (split : RedeemSplit) (b d : B)
        → settle bank holder uphi split b ≡ ok d
        → bank.supply d + split.burned ≡ bank.supply b
    unfolding settle
    settle-supply holder uphi split b d h =
        elim (Option-cases (bank.send (user holder) institutions_account uphi b)) [
          | inl e ↦ absurd (ground (arith, h, e))
          | inr (t, sent) ↦
              elim (Result-cases
                (send_positive bank institutions_account revenue_account split.carved t)) [
                  | inr (e, failed) ↦ absurd (ground (arith, h, sent, failed))
                  | inl (u, carved) ↦
                      bank.burn-supply institutions_account split.burned u d
                        (ground (arith, h, sent, carved))
                      ∙ send_positive-supply bank institutions_account revenue_account split.carved
                          t u carved
                      ∙ bank.send-supply (user holder) institutions_account uphi b t sent
                ]
        ]

  pub redeemed_store-Moved :
      (idk : Identity) (ctx : Ctx) (m : MsgInstitutionRedeem) (inst : Institution) (holder : Addr)
      (toman uphi toman_out : ℕ) (s : InstStore)
      → get_institution inst.id s ≡ some inst
      → Moved
          (sub_ℕ 0 toman_out)
          inst
          s
          (redeemed_store idk ctx m inst holder toman uphi toman_out s)
  unfolding redeemed_store mark_deposit set_institution get_institution get_params
  redeemed_store-Moved idk ctx m inst holder toman uphi toman_out s found =
      let paid = record inst {
        vault_balance = sdk.int_string (must_int inst.vault_balance -ℤ pos toman_out);
      } in
      let same =
        counted_institutions idk ctx.block_time paid holder toman uphi (set_institution paid s) in
      record {
        new = paid;
        found = found;
        stored = same.0;
        vault =
            sdk.parse-string (must_int inst.vault_balance -ℤ pos toman_out)
            ∙ ap some (minus_sub (must_int inst.vault_balance) toman_out);
        params = rw same.1 refl;
      }

  pub less_supply :
      (a b k n rate burned : ℕ)
      → b + burned ≡ a
      → burned ≡ k * n
      → k * rate ≡ uphi_per_phi
      → b * rate + n * uphi_per_phi ≡ a * rate
  less_supply a b k n rate burned e f g = rw (← e, f, ← g) (grind arith)

  pub whole_rate : (rate : ℕ) → uphi_per_phi % rate ≡ 0 → uphi_per_toman rate * rate ≡ uphi_per_phi
  unfolding uphi_per_toman
  whole_rate rate e = grind arith

  pub redeem_guards-found :
      (idk : Identity) (ctx : Ctx) (m : MsgInstitutionRedeem) (s : InstStore) (inst : Institution)
      (holder : Addr) (toman uphi : ℕ)
      → redeem_guards idk ctx m s ≡ ok (inst, holder, toman, uphi)
      → get_institution m.institution s ≡ some inst
  unfolding redeem_guards
  redeem_guards-found idk ctx m s inst holder toman uphi h =
      elim (Option-cases (get_institution m.institution s)) [
        | inl e ↦ absurd (ground (arith, h, e))
        | inr (i, e) ↦
            elim (positive-cases (sdk.new_int_from_string m.amount_toman) Types.invalid_amount) [
              | inl bad ↦ absurd (ground (arith, h, e, bad))
              | inr (n, parsed, gt) ↦ elim (Result-cases (convert n (get_params s).phi_to_toman)) [
                | inr (x, failed) ↦ absurd (ground (arith, h, e, parsed, failed))
                | inl (u, converted) ↦
                    let same : i ≡ inst = ground (arith, h, e, parsed, converted) in
                    e ∙ ap some same
              ]
            ]
      ]

  enforce_redeem_caps-error :
      (idk : Identity) (block_time : ℕ) (inst : Institution) (holder : Addr) (toman uphi : ℕ)
      (s : InstStore)
      → enforce_redeem_caps idk block_time inst holder toman uphi s ≢ err Types.solvency_broken
  unfolding enforce_redeem_caps
  enforce_redeem_caps-error idk block_time inst holder toman uphi s =
      check_all-other Types.solvency_broken _
        ((λ e. cc), ((λ e. cc), ((λ e. cc), ((λ e. cc), ((λ e. cc), ((λ e. cc), tt))))))

  pub redeem_guards-error :
      (idk : Identity) (ctx : Ctx) (m : MsgInstitutionRedeem) (s : InstStore)
      → redeem_guards idk ctx m s ≢ err Types.solvency_broken
  unfolding redeem_guards
  redeem_guards-error idk ctx m s h = elim (Option-cases (get_institution m.institution s)) [
    | inl e ↦ ground (arith, h, e)
    | inr (i, e) ↦
        elim (positive-cases (sdk.new_int_from_string m.amount_toman) Types.invalid_amount) [
          | inl bad ↦ ground (arith, h, e, bad, validate_fx_metadata-error i.institution_type m.fx)
          | inr (n, parsed, gt) ↦ elim (Result-cases (convert n (get_params s).phi_to_toman)) [
            | inr (x, failed) ↦ ground (
              arith,
              h,
              e,
              parsed,
              failed,
              validate_fx_metadata-error i.institution_type m.fx,
              convert-error n (get_params s).phi_to_toman,
            )
            | inl (u, converted) ↦ elim (Option-cases (sdk.acc_address_from_bech32 m.holder)) [
              | inl missing ↦ ground (
                arith,
                h,
                e,
                parsed,
                converted,
                missing,
                validate_fx_metadata-error i.institution_type m.fx,
              )
              | inr (holder, yes_holder) ↦ ground (
                arith,
                h,
                e,
                parsed,
                converted,
                yes_holder,
                validate_fx_metadata-error i.institution_type m.fx,
                enforce_redeem_caps-error idk ctx.block_time i holder n u s,
              )
            ]
          ]
        ]
  ]
