-- ===== src/Ante/Charge.antt =====
-- Proofs about the fixed fee decorator.
use phi_chain.Base.{
  ℕ, ◌+◌, ◌≡◌, ◌≢◌, refl, sym, ap, ◌⊎◌, if◌then◌else◌, ◌∙◌, Bool, true, false, some, List, arith, ℤ,
  pos_part, ok, Bool-cases, inl, inr, pos_part-+ℤ, Result-cases, not, ◌&&◌,
}
use phi_chain.Sdk.{Addr, Sdk}
use phi_chain.Sdk.Bank.{Bank, Account, user, module_account}
use phi_chain.Coin.Params.{Msg, is_positive, validate}
use phi_chain.Coin.Fee.{FeeSplit, new_fee_split}
use phi_chain.Coin.Fee.Split.{IsBalanced, new_fee_split-IsBalanced, compute_fee_split-IsBalanced}
use phi_chain.Coin.Keeper.{
  CoinStore, Ctx, SubjectDid, get_params, is_micro_exempt, consume_micro_exemption,
}
use phi_chain.Coin.Messages.{revenue_account}
use phi_chain.Ante.Fee.{
  Tx, Auth, FeeChain, fee_collector, deduct_from, send_share, route_fee, split_or_exempt, fixed_fee,
}

module _ {B : Type 0} (bank : Bank B) where
  -- An account pays the whole fee, its two shares go to the two module accounts, and nobody else's
  -- balance moves.
  pub record Charged (payer : Addr) (split : FeeSplit) (b d : B) : Type 0 where
    pub paid : bank.balance (user payer) d + pos_part split.total ≡ bank.balance (user payer) b
    pub validators :
        bank.balance fee_collector d ≡ bank.balance fee_collector b + pos_part split.validator
    pub company :
        bank.balance revenue_account d ≡ bank.balance revenue_account b + pos_part split.company
    pub supply : bank.supply d ≡ bank.supply b
    pub others :
        (a : Account)
        → a ≢ user payer
        → a ≢ fee_collector
        → a ≢ revenue_account
        → bank.balance a d ≡ bank.balance a b

  record Shared (payer : Addr) (to : Account) (amount : ℤ) (b d : B) : Type 0 where
    paid : bank.balance (user payer) d + pos_part amount ≡ bank.balance (user payer) b
    received : bank.balance to d ≡ bank.balance to b + pos_part amount
    supply : bank.supply d ≡ bank.supply b
    others : (a : Account) → a ≢ user payer → a ≢ to → bank.balance a d ≡ bank.balance a b

  send_share-Shared :
      (payer : Addr) (to : Account) (amount : ℤ) (b d : B)
      → user payer ≢ to
      → send_share bank payer to amount b ≡ ok d
      → Shared payer to amount b d
  unfolding send_share
  send_share-Shared payer to amount b d apart h = elim (Bool-cases (is_positive amount)) [
    | inl owed ↦
        let sent : bank.send (user payer) to (pos_part amount) b ≡ some d = ground arith in
        record {
          paid = bank.send-from (user payer) to (pos_part amount) b d apart sent;
          received = bank.send-to (user payer) to (pos_part amount) b d apart sent;
          supply = bank.send-supply (user payer) to (pos_part amount) b d sent;
          others = λ a x y. bank.send-other (user payer) to a (pos_part amount) b d x y sent;
        }
    | inr free ↦
        let same : b ≡ d = ground arith in
        let nothing : pos_part amount ≡ 0 = ground arith in
        rw (← same) (record {
          paid = omega arith;
          received = omega arith;
          supply = refl;
          others = λ a x y. refl;
        })
  ]

  -- The distinct accounts of the route.
  collector_apart : fee_collector ≢ revenue_account
  collector_apart e = absurd (ground arith)

  user_apart : (payer name : ℕ) → user payer ≢ module_account name
  user_apart payer name e = cc

  parts_of_total :
      (split : FeeSplit)
      → IsBalanced split
      → pos_part split.validator + pos_part split.company ≡ pos_part split.total
  parts_of_total split h =
      sym (pos_part-+ℤ split.validator split.company h.validator_nonneg h.company_nonneg)
      ∙ ap pos_part h.shares

  two_shares :
      (payer : Addr) (split : FeeSplit) (b c d : B)
      → IsBalanced split
      → Shared payer fee_collector split.validator b c
      → Shared payer revenue_account split.company c d
      → Charged payer split b d
  two_shares payer split b c d h v w = record {
    paid = omega (arith, parts_of_total split h, v.paid, w.paid);
    validators =
        w.others fee_collector (λ e. user_apart payer _ (sym e)) collector_apart ∙ v.received;
    company =
        w.received
        ∙ ap (λ n. n + pos_part split.company)
            (v.others revenue_account (λ e. user_apart payer _ (sym e))
              (λ e. collector_apart (sym e)));
    supply = w.supply ∙ v.supply;
    others = λ a x y z. w.others a x z ∙ v.others a x y;
  }

  nothing-Charged :
      (payer : Addr) (split : FeeSplit) (b : B)
      → IsBalanced split
      → pos_part split.total ≡ 0
      → Charged payer split b b
  nothing-Charged payer split b h e = record {
    paid = omega arith;
    validators = omega (arith, parts_of_total split h);
    company = omega (arith, parts_of_total split h);
    supply = refl;
    others = λ a x y z. refl;
  }

  route_fee-Charged :
      (payer : Addr) (split : FeeSplit) (b d : B)
      → IsBalanced split
      → route_fee bank payer split b ≡ ok d
      → Charged payer split b d
  unfolding route_fee
  route_fee-Charged payer split b d h e = elim (Bool-cases (is_positive split.total)) [
    | inl owed ↦ elim (Result-cases (send_share bank payer fee_collector split.validator b)) [
      | inr (_, failed) ↦ ground arith
      | inl (c, first) ↦
          two_shares payer split b c d h
            (send_share-Shared payer fee_collector split.validator b c (user_apart payer _) first)
            (send_share-Shared payer revenue_account split.company c d (user_apart payer _)
              (ground arith))
    ]
    | inr free ↦
        let same : b ≡ d = ground arith in
        let none_owed : pos_part split.total ≡ 0 = ground arith in
        rw (← same) (nothing-Charged payer split b h none_owed)
  ]

  route_fee-exempt : (payer : Addr) (b : B) → route_fee bank payer new_fee_split b ≡ ok b
  unfolding route_fee new_fee_split
  route_fee-exempt payer b = refl

  module _ ⦃sdk : Sdk⦄ {G : Type 0} (auth : Auth G) (did : SubjectDid) where
    -- The account that pays is the fee payer, or the granter that the transaction names.
    deduct_from-payer :
        (tx : Tx) (required : ℕ) (g g' : G) (payer : Addr)
        → deduct_from auth tx required g ≡ ok (payer, g')
        → (payer ≡ tx.fee_payer) ⊎ (tx.fee_granter ≡ some payer)
    unfolding deduct_from
    deduct_from-payer tx required g g' payer h = ground arith

    split_or_exempt-IsBalanced :
        (exempt : Bool) (msgs : List Msg) (s : CoinStore)
        → validate (get_params s) ≡ ok tt
        → IsBalanced (split_or_exempt exempt msgs s)
    unfolding split_or_exempt
    split_or_exempt-IsBalanced true msgs s sound = new_fee_split-IsBalanced
    split_or_exempt-IsBalanced false msgs s sound =
        compute_fee_split-IsBalanced (get_params s) msgs sound

    -- The two fallible steps of a call that succeeds, and the coin store after it.
    record Passed (ctx : Ctx) (simulate : Bool) (tx : Tx) (c d : FeeChain B G) (payer : Addr)
        : Type 0 where
      exists : auth.has_account payer ≡ true
      named : (payer ≡ tx.fee_payer) ⊎ (tx.fee_granter ≡ some payer)
      routed :
          route_fee bank payer
            (split_or_exempt
              (is_micro_exempt ctx did (sdk.addr_string tx.fee_payer) tx.msgs c.coin)
              tx.msgs
              c.coin)
            c.bank
          ≡ ok d.bank
      coin : d.coin ≡ (
          if is_micro_exempt ctx did (sdk.addr_string tx.fee_payer) tx.msgs c.coin
            && not simulate
            && not ctx.is_check_tx
          then consume_micro_exemption ctx did (sdk.addr_string tx.fee_payer) c.coin
          else c.coin)

    fixed_fee-eq-ok :
        (ctx : Ctx) (simulate : Bool) (tx : Tx) (c d : FeeChain B G)
        → fixed_fee bank auth did ctx simulate tx c ≡ ok d
        → (payer : Addr) × Passed ctx simulate tx c d payer
    unfolding fixed_fee
    fixed_fee-eq-ok ctx simulate tx c d h =
        let exempt = is_micro_exempt ctx did (sdk.addr_string tx.fee_payer) tx.msgs c.coin in
        let split = split_or_exempt exempt tx.msgs c.coin in
        elim (Result-cases (deduct_from auth tx (pos_part split.total) c.grants)) [
          | inr (_, refused) ↦ ground arith
          | inl ((payer, g), paid) ↦ elim (Result-cases (route_fee bank payer split c.bank)) [
            | inr (_, poor) ↦ ground arith
            | inl (b, routed) ↦ (
              payer,
              record {
                exists = ground arith;
                named = deduct_from-payer tx (pos_part split.total) c.grants g payer paid;
                routed = ground arith;
                coin = ground arith;
              },
            )
          ]
        ]

    -- Under an accepted parameter set, a transaction that passes the decorator has exactly its fee
    -- taken from one existing account, the fee payer's or the granter's, in two shares that make it
    -- up, with the supply and every other balance unchanged; an exempt one moves no coin.
    pub fixed_fee-Charged :
        (ctx : Ctx) (simulate : Bool) (tx : Tx) (c d : FeeChain B G)
        → validate (get_params c.coin) ≡ ok tt
        → fixed_fee bank auth did ctx simulate tx c ≡ ok d
        → let exempt = is_micro_exempt ctx did (sdk.addr_string tx.fee_payer) tx.msgs c.coin in
          let split = split_or_exempt exempt tx.msgs c.coin in
          (payer : Addr) × (auth.has_account payer ≡ true)
          × ((payer ≡ tx.fee_payer) ⊎ (tx.fee_granter ≡ some payer))
          × Charged payer split c.bank d.bank
          × (exempt ≡ true → d.bank ≡ c.bank)
    unfolding split_or_exempt
    fixed_fee-Charged ctx simulate tx c d sound h =
        let exempt = is_micro_exempt ctx did (sdk.addr_string tx.fee_payer) tx.msgs c.coin in
        let (payer, p) = fixed_fee-eq-ok ctx simulate tx c d h in
        (
          payer,
          p.exists,
          p.named,
          route_fee-Charged payer (split_or_exempt exempt tx.msgs c.coin) c.bank d.bank
              (split_or_exempt-IsBalanced exempt tx.msgs c.coin sound) p.routed,
          λ free. ground (arith, p.routed, route_fee-exempt payer c.bank),
        )
