-- ===== src/Coin/Messages/Transfer.antt =====
-- Proofs about the Transfer handler.
use phi_chain.Base.{ℕ, ◌+◌, ◌-◌, ◌<◌, ◌≡◌, ◌≢◌, sym, ap, ◌∙◌, some, arith, pos, ok, inl, inr}
use phi_chain.Sdk.{Text, Addr, Sdk}
use phi_chain.Sdk.Bank.{Bank, Account, user}
use phi_chain.Coin.Params.{MsgTransfer}
use phi_chain.Coin.Keeper.{Ctx, move_age}
use phi_chain.Coin.Keeper.Ages.{tracked, tracked-move_age}
use phi_chain.Coin.Messages.{CoinChain, transfer, positive-cases, invalid_amount}

module _ ⦃sdk : Sdk⦄ {B : Type 0} (bank : Bank B) where
  -- What a transfer of `amount` between the accounts of the two addresses has done to the chain.
  pub record Transferred (m : MsgTransfer) (from to : Addr) (c d : CoinChain B) (amount : ℕ)
      : Type 0 where
    pub parsed : sdk.new_int_from_string m.amount ≡ some (pos amount)
    pub positive : 0 < amount
    pub supply : bank.supply d.bank ≡ bank.supply c.bank
    pub paid : bank.balance (user from) d.bank + amount ≡ bank.balance (user from) c.bank
    pub received : bank.balance (user to) d.bank ≡ bank.balance (user to) c.bank + amount
    pub kept :
        (a : Account) → a ≢ user from → a ≢ user to → bank.balance a d.bank ≡ bank.balance a c.bank
    pub payee : tracked m.to d.coin ≡ tracked m.to c.coin + amount
    pub payer : tracked m.from d.coin ≡ tracked m.from c.coin - amount
    pub others : (j : Text) → j ≢ m.from → j ≢ m.to → tracked j d.coin ≡ tracked j c.coin

  -- What a successful call between two addresses has gone through.
  transfer-eq-ok :
      (ctx : Ctx) (m : MsgTransfer) (from to : Addr) (c d : CoinChain B)
      → sdk.acc_address_from_bech32 m.from ≡ some from
      → sdk.acc_address_from_bech32 m.to ≡ some to
      → transfer bank ctx m c ≡ ok d
      → (n : ℕ) × (sdk.new_int_from_string m.amount ≡ some (pos n))
        × (0 < n)
        × (bank.send (user from) (user to) n c.bank ≡ some d.bank)
        × (d.coin ≡ move_age ctx m.from m.to n c.coin)
  unfolding transfer
  transfer-eq-ok ctx m from to c d ef et h =
      elim (positive-cases (sdk.new_int_from_string m.amount) invalid_amount) [
        | inl e ↦ ground arith
        | inr (n, ez, gt) ↦ (n, ez, gt, ground arith, ground arith)
      ]

  -- A transfer between two different addresses that succeeds has a positive amount, and moves the coin
  -- and its tracked age together. The payer's account loses the amount, the payee's gains it, every
  -- other balance and the supply stay; the payee's queue gains the amount, the payer's loses it as far
  -- as it tracked it, and no other queue's amount changes.
  pub transfer-Transferred :
      (ctx : Ctx) (m : MsgTransfer) (from to : Addr) (c d : CoinChain B)
      → sdk.acc_address_from_bech32 m.from ≡ some from
      → sdk.acc_address_from_bech32 m.to ≡ some to
      → from ≢ to
      → transfer bank ctx m c ≡ ok d
      → (amount : ℕ) × Transferred m from to c d amount
  transfer-Transferred ctx m from to c d ef et apart h =
      let (n, parsed, positive, sent, done) = transfer-eq-ok ctx m from to c d ef et h in
      let two : user from ≢ user to = λ e. apart (ground (arith, e)) in
      let moved =
        tracked-move_age ctx m.from m.to n c.coin
          (λ e. let found = rw (sym e) at et in apart (ground (arith, ef, found))) in
      (
        n,
        record {
          parsed = parsed;
          positive = positive;
          supply = bank.send-supply (user from) (user to) n c.bank d.bank sent;
          paid = bank.send-from (user from) (user to) n c.bank d.bank two sent;
          received = bank.send-to (user from) (user to) n c.bank d.bank two sent;
          kept = λ a not_from not_to.
              bank.send-other (user from) (user to) a n c.bank d.bank not_from not_to sent;
          payee = ap (tracked m.to) done ∙ moved.0;
          payer = ap (tracked m.from) done ∙ moved.1;
          others = λ j not_from not_to. ap (tracked j) done ∙ moved.2 j not_from not_to;
        },
      )
