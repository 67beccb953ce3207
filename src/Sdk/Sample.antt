-- ===== src/Sdk/Sample.antt =====
-- Values of the interfaces, for tests: a text is a coded integer, an address is its own text, and a
-- bank is the balances beside the supply.
use phi_chain.Base.{
  ℕ, ◌+◌, ◌-◌, ◌*◌, ◌/◌, ◌%◌, ◌≤◌, ◌≡◌, ◌≢◌, ◌↔◌, refl, arith, Bool, true, false, ◌==◌, ltb,
  if◌then◌else◌, Option, none, some, ℤ, pos, negsuc, Result, ok, err, Bool-cases, inl, inr,
}
use phi_chain.Sdk.{Text, Sdk}
use phi_chain.Sdk.Bank.{Bank, Account, user, module_account}

abbrev pub print_int : ℤ → Text
print_int (pos n) = 2 * n + 2
print_int (negsuc n) = 2 * n + 3

abbrev read_int : Text → Option ℤ
read_int t =
    if ltb t 2
    then none
    else (if t % 2 == 0 then some (pos ((t - 2) / 2)) else some (negsuc ((t - 3) / 2)))

pub read_int-print_int : (z : ℤ) → read_int (print_int z) ≡ some z
read_int-print_int (pos n) = ground arith
read_int-print_int (negsuc n) = ground arith

-- The empty text is no address.
abbrev read_addr : Text → Option ℕ
read_addr t = if t == 0 then none else some (t - 1)

pub read_addr-print : (a : ℕ) → read_addr (a + 1) ≡ some a
read_addr-print a = ground arith

instance abbrev pub sample_sdk : Sdk
sample_sdk = record {
  new_int_from_string = read_int;
  int_string = print_int;
  parse-string = read_int-print_int;
  acc_address_from_bech32 = read_addr;
  addr_string = λ a. a + 1;
  parse-addr_string = read_addr-print;
}

-- The text of an amount, and of an address.
abbrev pub amount_text : ℕ → Text
amount_text n = 2 * n + 2

abbrev account_eq : Account → Account → Bool
account_eq (user a) (user b) = a == b
account_eq (module_account a) (module_account b) = a == b
account_eq (user a) (module_account b) = false
account_eq (module_account a) (user b) = false

account_eq_iff : (a b : Account) → (account_eq a b ≡ true) ↔ (a ≡ b)
account_eq_iff (user a) (user b) = ground arith
account_eq_iff (module_account a) (module_account b) = ground arith
account_eq_iff (user a) (module_account b) = ground arith
account_eq_iff (module_account a) (user b) = ground arith

pub record Ledger : Type 0 where
  pub held : Account → ℕ
  pub issued : ℕ

abbrev take_from : Account → ℕ → (Account → ℕ) → Account → ℕ
take_from a n held c = if account_eq a c then held c - n else held c

abbrev give_to : Account → ℕ → (Account → ℕ) → Account → ℕ
give_to a n held c = if account_eq a c then held c + n else held c

abbrev send_ledger : Account → Account → ℕ → Ledger → Option Ledger
send_ledger a b n s =
    if ltb (s.held a) n then none else some (record s { held = give_to b n (take_from a n s.held) })

abbrev mint_ledger : Account → ℕ → Ledger → Option Ledger
mint_ledger a n s = some (record { held = give_to a n s.held; issued = s.issued + n })

abbrev burn_ledger : Account → ℕ → Ledger → Option Ledger
burn_ledger a n s =
    if ltb (s.held a) n
    then none
    else if ltb s.issued n
    then none
    else some (record { held = take_from a n s.held; issued = s.issued - n })

sent_ledger :
    (a b : Account) (n : ℕ) (s t : Ledger)
    → send_ledger a b n s ≡ some t
    → (n ≤ s.held a) × (record s { held = give_to b n (take_from a n s.held) } ≡ t)
sent_ledger a b n s t h = elim (Bool-cases (ltb (s.held a) n)) [
  | inl poor ↦ ground arith
  | inr rich ↦ (ground arith, ground arith)
]

pub burnt_ledger :
    (a : Account) (n : ℕ) (s t : Ledger) → burn_ledger a n s ≡ some t → t.issued + n ≡ s.issued
burnt_ledger a n s t h = ground arith

pub send_ledger-supply :
    (a b : Account) (n : ℕ) (s t : Ledger) → send_ledger a b n s ≡ some t → t.issued ≡ s.issued
send_ledger-supply a b n s t h = rw (← (sent_ledger a b n s t h).1) refl

pub send_ledger-from :
    (a b : Account) (n : ℕ) (s t : Ledger)
    → a ≢ b
    → send_ledger a b n s ≡ some t
    → t.held a + n ≡ s.held a
send_ledger-from a b n s t apart h =
    let (enough, e) = sent_ledger a b n s t h in
    rw (← e) (ground (arith, account_eq_iff b a, account_eq_iff a a))

pub send_ledger-to :
    (a b : Account) (n : ℕ) (s t : Ledger)
    → a ≢ b
    → send_ledger a b n s ≡ some t
    → t.held b ≡ s.held b + n
send_ledger-to a b n s t apart h =
    let (enough, e) = sent_ledger a b n s t h in
    rw (← e) (ground (arith, account_eq_iff a b, account_eq_iff b b))

pub send_ledger-other :
    (a b c : Account) (n : ℕ) (s t : Ledger)
    → c ≢ a
    → c ≢ b
    → send_ledger a b n s ≡ some t
    → t.held c ≡ s.held c
send_ledger-other a b c n s t not_a not_b h =
    let (enough, e) = sent_ledger a b n s t h in
    rw (← e) (ground (arith, account_eq_iff a c, account_eq_iff b c))

pub mint_ledger-supply :
    (a : Account) (n : ℕ) (s t : Ledger) → mint_ledger a n s ≡ some t → t.issued ≡ s.issued + n
mint_ledger-supply a n s t h = ground arith

unfoldable pub sample_bank : Bank Ledger
sample_bank = record {
  balance = λ a s. s.held a;
  supply = λ s. s.issued;
  send = send_ledger;
  mint_coins = mint_ledger;
  burn_coins = burn_ledger;
  send-supply = send_ledger-supply;
  mint-supply = mint_ledger-supply;
  burn-supply = burnt_ledger;
  send-from = send_ledger-from;
  send-to = send_ledger-to;
  send-other = send_ledger-other;
}

-- Every account holds a million.
abbrev pub rich_ledger : Ledger
rich_ledger = record { held = λ a. 1000000; issued = 100000000 }

-- The state after a run, or the given one after an error.
abbrev pub state_after {ℓ κ} : {E : Type ℓ} {A : Type κ} → A → Result E A → A
state_after s (ok t) = t
state_after s (err e) = s
