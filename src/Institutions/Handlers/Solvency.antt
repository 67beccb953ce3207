-- ===== src/Institutions/Handlers/Solvency.antt =====
-- Proofs that the vaults of all institutions together back the supply.
use phi_chain.Base.{
  ℕ, ◌+◌, ◌*◌, ◌/◌, ◌%◌, ◌≡◌, refl, ap, ◌∙◌, inl, inr, arith, true, Option, none, some, [], ◌∷◌,
  ◌==◌, ℤ, pos, negsuc, ◌+ℤ◌, ◌-ℤ◌, sub_ℕ, int_laws, Map, lookup, insert, nat_eq, ok, Bool-cases,
}
use phi_chain.Sdk.{Text, Sdk}
use phi_chain.Coin.Types.{uphi_per_phi}
use phi_chain.Institutions.Types.{Institution}
use phi_chain.Institutions.Store.{
  InstStore, get_institution, get_params, must_int, sum_vaults, add_vault,
}
use phi_chain.Institutions.Split.{minted_uphi_for_toman}
use phi_chain.Institutions.Handlers.{balances, assert_solvency, convert}

-- Every institution is stored under its own id.
unfoldable pub IsKeyed : InstStore → Type 0
IsKeyed s = (id : Text) (inst : Institution) → get_institution id s ≡ some inst → inst.id ≡ id

module _ ⦃sdk : Sdk⦄ where
  -- Every vault can be read, and the supply at the rate is what the vaults hold together.
  unfoldable pub IsSolvent : ℕ → InstStore → Type 0
  IsSolvent supply s =
      (sum : ℤ) × (sum_vaults s.institutions ≡ some sum)
      × (balances supply (get_params s).phi_to_toman sum ≡ true)

  head_vault :
      (o r : Option ℤ) (sum : ℤ)
      → add_vault o r ≡ some sum
      → (x : ℤ) × (y : ℤ) × (o ≡ some x) × (r ≡ some y) × (sum ≡ x +ℤ y)
  head_vault none r sum h = cc
  head_vault (some x) none sum h = cc
  head_vault (some x) (some y) sum h = (x, y, refl, refl, ground arith)

  must_int-read : (t : Text) (x : ℤ) → sdk.new_int_from_string t ≡ some x → must_int t ≡ x
  unfolding must_int
  must_int-read t x h = rw (must_int, h) refl

  plus_swap : (x y d : ℤ) → (x +ℤ d) +ℤ y ≡ (x +ℤ y) +ℤ d
  plus_swap x y d = omega int_laws

  plus_assoc : (x y d : ℤ) → x +ℤ (y +ℤ d) ≡ (x +ℤ y) +ℤ d
  plus_assoc x y d = omega int_laws

  sum_vaults-insert_cons :
      (id j : Text) (old new i : Institution) (m : Map Text Institution) (x y d : ℤ)
      → sdk.new_int_from_string i.vault_balance ≡ some x
      → lookup id ((j, i) ∷ m) ≡ some old
      → sdk.new_int_from_string new.vault_balance ≡ some (must_int old.vault_balance +ℤ d)
      → sum_vaults m ≡ some y
      → (lookup id m ≡ some old → sum_vaults (insert id new m) ≡ some (y +ℤ d))
      → sum_vaults (insert id new ((j, i) ∷ m)) ≡ some ((x +ℤ y) +ℤ d)
  unfolding sum_vaults insert lookup
  sum_vaults-insert_cons id j old new i m x y d ex h e ey later = elim (Bool-cases (j == id)) [
    | inl here ↦
        let same : i ≡ old = ground (arith, h, here) in
        let was : must_int old.vault_balance ≡ x =
          must_int-read old.vault_balance x (rw (← same) ex) in
        rw (here, e, ey, was) (ap some (plus_swap x y d))
    | inr there ↦
        let rest = later (ground (arith, h, there)) in
        rw (there, rest, ex) (ap some (plus_assoc x y d))
  ]

  -- A vault that changes by `d` changes the sum of all by `d`.
  pub sum_vaults-insert :
      (id : Text) (old new : Institution) (m : Map Text Institution) (sum d : ℤ)
      → lookup id m ≡ some old
      → sum_vaults m ≡ some sum
      → sdk.new_int_from_string new.vault_balance ≡ some (must_int old.vault_balance +ℤ d)
      → sum_vaults (insert id new m) ≡ some (sum +ℤ d)
  unfolding sum_vaults lookup
  sum_vaults-insert id old new [] sum d h k e = cc
  sum_vaults-insert id old new ((j, i) ∷ m) sum d h k e =
      let (x, y, ex, ey, total) =
        head_vault (sdk.new_int_from_string i.vault_balance) (sum_vaults m) sum k in
      rw total (
        sum_vaults-insert_cons id j old new i m x y d ex h e ey
          (λ l. sum_vaults-insert id old new m y d l ey e))

  pub assert_solvency-IsSolvent :
      (supply : ℕ) (s : InstStore) → IsSolvent supply s → assert_solvency supply s ≡ ok tt
  unfolding assert_solvency IsSolvent
  assert_solvency-IsSolvent supply s h = rw (h.1) (ground (arith, h.2))

  balances_up :
      (supply supply' rate n : ℕ) (sum : ℤ)
      → balances supply rate sum ≡ true
      → supply' * rate ≡ supply * rate + n * uphi_per_phi
      → balances supply' rate (sum +ℤ pos n) ≡ true
  unfolding ◌+ℤ◌
  balances_up supply supply' rate n (pos sum) h e = ground arith
  balances_up supply supply' rate n (negsuc sum) h e = ground arith

  balances_down :
      (supply supply' rate n : ℕ) (sum : ℤ)
      → balances supply rate sum ≡ true
      → supply' * rate + n * uphi_per_phi ≡ supply * rate
      → balances supply' rate (sum +ℤ sub_ℕ 0 n) ≡ true
  unfolding ◌+ℤ◌
  balances_down supply supply' rate n (pos sum) h e = ground arith
  balances_down supply supply' rate n (negsuc sum) h e = ground arith

  pub minus_sub : (x : ℤ) (n : ℕ) → x -ℤ pos n ≡ x +ℤ sub_ℕ 0 n
  unfolding ◌+ℤ◌ ◌-ℤ◌
  minus_sub x n = ground arith

  -- A store in which one vault has grown by `n`, or shrunk by it.
  pub record Moved (d : ℤ) (old : Institution) (s s' : InstStore) : Type 0 where
    pub new : Institution
    pub found : lookup old.id s.institutions ≡ some old
    pub stored : s'.institutions ≡ insert old.id new s.institutions
    pub vault : sdk.new_int_from_string new.vault_balance ≡ some (must_int old.vault_balance +ℤ d)
    pub params : get_params s' ≡ get_params s

  pub grown-IsSolvent :
      (supply supply' n : ℕ) (old : Institution) (s s' : InstStore)
      → Moved (pos n) old s s'
      → supply' * (get_params s).phi_to_toman
        ≡ supply * (get_params s).phi_to_toman + n * uphi_per_phi
      → IsSolvent supply s
      → IsSolvent supply' s'
  unfolding IsSolvent
  grown-IsSolvent supply supply' n old s s' mv e (sum, total, holds) = (
    sum +ℤ pos n,
    ap sum_vaults mv.stored
        ∙ sum_vaults-insert old.id old mv.new s.institutions sum (pos n) mv.found total mv.vault,
    rw mv.params (balances_up supply supply' (get_params s).phi_to_toman n sum holds e),
  )

  pub shrunk-IsSolvent :
      (supply supply' n : ℕ) (old : Institution) (s s' : InstStore)
      → Moved (sub_ℕ 0 n) old s s'
      → supply' * (get_params s).phi_to_toman + n * uphi_per_phi
        ≡ supply * (get_params s).phi_to_toman
      → IsSolvent supply s
      → IsSolvent supply' s'
  unfolding IsSolvent
  shrunk-IsSolvent supply supply' n old s s' mv e (sum, total, holds) = (
    sum +ℤ sub_ℕ 0 n,
    ap sum_vaults mv.stored
        ∙ sum_vaults-insert old.id old mv.new s.institutions sum (sub_ℕ 0 n) mv.found total
            mv.vault,
    rw mv.params (balances_down supply supply' (get_params s).phi_to_toman n sum holds e),
  )

  pub convert-eq-ok :
      (toman rate uphi : ℕ) → convert toman rate ≡ ok uphi → uphi * rate ≡ toman * uphi_per_phi
  unfolding convert minted_uphi_for_toman
  convert-eq-ok toman rate uphi h =
      let quotient : uphi ≡ toman * uphi_per_phi / rate = ground arith in
      let whole : toman * uphi_per_phi % rate ≡ 0 = ground arith in rw quotient (grind arith)
