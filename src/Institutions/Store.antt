-- ===== src/Institutions/Store.antt =====
-- x/institutions/keeper/rbac.go, mint_separation.go and keeper.go: the module's store, roles and
-- approvals. A counter is written by Int.String and read back, so it is the number itself; the
-- amounts that are added to it are positive.
use phi_chain.Base.{
  ℕ, ◌+◌, Bool, true, false, not, ◌&&◌, Option, none, some, List, [], ◌∷◌, ltb, leb, ◌==◌,
  if◌then◌else◌, ℤ, pos, ◌+ℤ◌, Map, lookup, insert, nat_eq, pair_eq, Result, ok, fail_if, or_fail,
  ◌>>=◌, ◌>>◌,
}
use phi_chain.Sdk.{Text, text, empty_text, Addr, Sdk}
use phi_chain.Institutions.Types.{
  Params, Institution, Role, role_unspecified, admin, operator, finance, compliance, developer,
  viewer, Error, role_not_authorized, invalid_address, too_few_admins, attestor_is_minter,
}

pub record InstStore : Type 0 where
  pub params : Option Params
  pub institutions : Map Text Institution
  -- (institution, address) → role
  pub roles : Map (Text × Addr) Role
  pub admin_epochs : Map Text ℕ
  -- ((institution, content hash), signer) → the epoch of the approval
  pub approvals : Map ((Text × ℕ) × Addr) ℕ
  -- ((institution, kind), day) → amount
  pub counter_totals : Map ((Text × Text) × ℕ) ℕ
  -- (((institution, kind), day), address) → amount
  pub counter_users : Map (((Text × Text) × ℕ) × Addr) ℕ
  -- (day, (kind, subject)) → uphi
  pub redeem_subjects : Map (ℕ × (ℕ × Text)) ℕ
  -- ((institution, direction), ref)
  pub deposits : Map ((Text × Text) × Text) Bool
  pub holder_kyc_tiers : Map (Text × Addr) ℕ
  pub last_attestors : Map Text Addr

unfoldable pub get_institution : Text → InstStore → Option Institution
get_institution id s = lookup id s.institutions

unfoldable pub set_institution : Institution → InstStore → InstStore
set_institution inst s = record s { institutions = insert inst.id inst s.institutions }

abbrev or_unspecified : Option Role → Role
or_unspecified none = role_unspecified
or_unspecified (some r) = r

abbrev or_zero : Option ℕ → ℕ
or_zero none = 0
or_zero (some n) = n

unfoldable pub get_role : Text → Addr → InstStore → Role
get_role id a s = or_unspecified (lookup (id, a) s.roles)

abbrev pub is_admin : Role → Bool
is_admin admin = true
is_admin operator = false
is_admin finance = false
is_admin compliance = false
is_admin developer = false
is_admin viewer = false
is_admin role_unspecified = false

abbrev pub is_operator_or_admin : Role → Bool
is_operator_or_admin operator = true
is_operator_or_admin admin = true
is_operator_or_admin finance = false
is_operator_or_admin compliance = false
is_operator_or_admin developer = false
is_operator_or_admin viewer = false
is_operator_or_admin role_unspecified = false

abbrev pub is_compliance : Role → Bool
is_compliance compliance = true
is_compliance admin = false
is_compliance operator = false
is_compliance finance = false
is_compliance developer = false
is_compliance viewer = false
is_compliance role_unspecified = false

-- The addresses that hold the admin role of an institution, each of them once.
abbrev collect_admins : Text → Map (Text × Addr) Role → List Addr
collect_admins id [] = []
collect_admins id (((i, a), r) ∷ roles) =
    let rest = collect_admins id roles in if (i == id) && is_admin r then a ∷ rest else rest

abbrev count_other : (Addr → Bool) → List Addr → ℕ
count_other is_root [] = 0
count_other is_root (a ∷ others) =
    let rest = count_other is_root others in if is_root a then rest else rest + 1

unfoldable pub admin_epoch : Text → InstStore → ℕ
admin_epoch id s = or_zero (lookup id s.admin_epochs)

unfoldable pub deposit_seen : Text → Text → Text → InstStore → Bool
deposit_seen id direction ref s = elim (lookup ((id, direction), ref) s.deposits) [
  | none ↦ false
  | some _ ↦ true
]

unfoldable pub mark_deposit : Text → Text → Text → InstStore → InstStore
mark_deposit id direction ref s = record s {
  deposits = insert ((id, direction), ref) true s.deposits;
}

unfoldable pub last_attestor : Text → InstStore → Option Addr
last_attestor id s = lookup id s.last_attestors

abbrev pub add_vault : Option ℤ → Option ℤ → Option ℤ
add_vault none rest = none
add_vault (some v) none = none
add_vault (some v) (some sum) = some (v +ℤ sum)

unfoldable pub default_params : Params
default_params = record {
  operator = empty_text;
  phi_to_toman = 100000;
  redeem_floor_per_tx = text "100000";
  emergency_redemption = record {
    active = false;
    started_at = 0;
    cap_before_day30 = empty_text;
    cap_from_day30 = empty_text;
    cap_from_day60 = empty_text;
  };
  penalty_destination = empty_text;
  large_mint_threshold_toman = empty_text;
  mint_ceiling_per_tx = empty_text;
  mint_ceiling_daily = empty_text;
  redeem_daily_cap_per_did_uphi = text "200000000";
  protocol_fee_bps = 20;
  max_attestation_staleness_seconds = 86400;
}

unfoldable pub get_params : InstStore → Params
get_params s = elim s.params [ none ↦ default_params | some p ↦ p ]

module _ ⦃sdk : Sdk⦄ where
  unfoldable pub effective_role : Institution → Addr → InstStore → Role
  effective_role inst signer s =
      if sdk.addr_string signer == inst.admin then admin else get_role inst.id signer s

  -- `allowed` is the test of the listed roles.
  unfoldable pub require_role :
      Institution → Text → (Role → Bool) → InstStore → Result Error (Unit {0})
  require_role inst signer_bech allowed s = do
    signer ← or_fail (sdk.acc_address_from_bech32 signer_bech) invalid_address
    fail_if (not (allowed (effective_role inst signer s))) role_not_authorized

  -- The root admin counts if it is an address, and every other admin grant counts once: the keys of
  -- the roles are different addresses, and their texts are too.
  unfoldable pub count_admins : Institution → InstStore → ℕ
  count_admins inst s =
      (elim (sdk.acc_address_from_bech32 inst.admin) [ none ↦ 0 | some _ ↦ 1 ])
      + count_other (λ a. sdk.addr_string a == inst.admin) (collect_admins inst.id s.roles)

  unfoldable pub effective_threshold : Institution → InstStore → ℕ
  effective_threshold inst s =
      let t = if inst.params.sensitive_threshold == 0 then 2 else inst.params.sensitive_threshold in
      let count = count_admins inst s in
      let admins = if count == 0 then 1 else count in if ltb admins t then admins else t

  abbrev is_live : Institution → ℕ → ((Text × ℕ) × Addr) × ℕ → InstStore → Bool
  is_live inst hash entry s =
      (entry.0.0.0 == inst.id)
      && (entry.0.0.1 == hash)
      && (entry.1 == admin_epoch inst.id s)
      && is_admin (effective_role inst entry.0.1 s)

  unfoldable pub count_from : Institution → ℕ → Map ((Text × ℕ) × Addr) ℕ → InstStore → ℕ
  count_from inst hash [] s = 0
  count_from inst hash (e ∷ entries) s =
      let rest = count_from inst hash entries s in if is_live inst hash e s then rest + 1 else rest

  unfoldable pub count_approvals : Institution → ℕ → InstStore → ℕ
  unfolding count_from
  count_approvals inst hash s = count_from inst hash s.approvals s

  unfoldable pub record_approval : Institution → ℕ → Addr → InstStore → InstStore
  record_approval inst hash signer s = record s {
    approvals = insert ((inst.id, hash), signer) (admin_epoch inst.id s) s.approvals;
  }

  -- Whether the action may execute, and the store with the signer's approval.
  unfoldable pub try_sensitive :
      Institution → Text → ℕ → InstStore → Result Error (Bool × InstStore)
  unfolding count_approvals record_approval
  try_sensitive inst signer_bech hash s = do
    require_role inst signer_bech is_admin s
    signer ← or_fail (sdk.acc_address_from_bech32 signer_bech) invalid_address
    let s' = record_approval inst hash signer s
    ok (leb (effective_threshold inst s') (count_approvals inst hash s'), s')

  unfoldable pub require_mint_separation : Institution → Text → InstStore → Result Error (Unit {0})
  require_mint_separation inst minter_bech s = do
    fail_if (ltb (count_admins inst s) 2) too_few_admins
    minter ← or_fail (sdk.acc_address_from_bech32 minter_bech) invalid_address
    attestor ← or_fail (last_attestor inst.id s) attestor_is_minter
    fail_if (attestor == minter) attestor_is_minter

  unfoldable pub must_int : Text → ℤ
  must_int t = elim (sdk.new_int_from_string t) [ none ↦ pos 0 | some v ↦ v ]

  -- `none` is the panic on a value that cannot be read.
  unfoldable pub sum_vaults : Map Text Institution → Option ℤ
  sum_vaults [] = some (pos 0)
  sum_vaults ((id, inst) ∷ m) =
      add_vault (sdk.new_int_from_string inst.vault_balance) (sum_vaults m)

-- The approvals of one action are deleted.
unfoldable pub clear_from : Text → ℕ → Map ((Text × ℕ) × Addr) ℕ → Map ((Text × ℕ) × Addr) ℕ
clear_from id hash [] = []
clear_from id hash (e ∷ entries) =
    let rest = clear_from id hash entries in
    if (e.0.0.0 == id) && (e.0.0.1 == hash) then rest else e ∷ rest

unfoldable pub clear_approvals : Text → ℕ → InstStore → InstStore
unfolding clear_from
clear_approvals id hash s = record s { approvals = clear_from id hash s.approvals }
