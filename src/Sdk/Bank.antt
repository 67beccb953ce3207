-- ===== src/Sdk/Bank.antt =====
-- The methods of x/bank that the keepers call, on the one denomination uphi.
use phi_chain.Base.{ℕ, ◌+◌, ◌≡◌, ◌≢◌, Option, some}

-- A user's account by its address, or a module account by its name.
pub data Account : Type 0 where
  user : ℕ → Account
  module_account : ℕ → Account

-- `none` is the error of a method; the amounts are those of sdk.Coins, so they are not negative.
pub record Bank (S : Type 0) : Type 0 where
  pub balance : Account → S → ℕ
  pub supply : S → ℕ
  pub send : Account → Account → ℕ → S → Option S
  pub mint_coins : Account → ℕ → S → Option S
  pub burn_coins : Account → ℕ → S → Option S
  -- A send moves no coin in or out of the supply; a mint and a burn change it by their amount.
  pub send-supply : (a b : Account) (n : ℕ) (s t : S) → send a b n s ≡ some t → supply t ≡ supply s
  pub mint-supply :
      (a : Account) (n : ℕ) (s t : S) → mint_coins a n s ≡ some t → supply t ≡ supply s + n
  pub burn-supply :
      (a : Account) (n : ℕ) (s t : S) → burn_coins a n s ≡ some t → supply t + n ≡ supply s
  -- The payer loses the amount, the payee gains it, and no third account changes.
  pub send-from :
      (a b : Account) (n : ℕ) (s t : S)
      → a ≢ b
      → send a b n s ≡ some t
      → balance a t + n ≡ balance a s
  pub send-to :
      (a b : Account) (n : ℕ) (s t : S)
      → a ≢ b
      → send a b n s ≡ some t
      → balance b t ≡ balance b s + n
  pub send-other :
      (a b c : Account) (n : ℕ) (s t : S)
      → c ≢ a
      → c ≢ b
      → send a b n s ≡ some t
      → balance c t ≡ balance c s
