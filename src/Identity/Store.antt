-- ===== src/Identity/Store.antt =====
-- x/identity/keeper/keeper.go, guardians.go, issuer.go, recovery_epoch.go and validator_binding.go: the
-- store of the registry and the indexes that are derived from it.
pub mod Frame
pub mod Mirror
pub mod Indexed
pub mod Eligible
pub mod Electorate
use phi_chain.Base.{
  ℕ, ◌≡◌, ◌+◌, ◌-◌, ◌*◌, ◌%◌, ◌^◌, Bool, true, false, not, ◌&&◌, ◌||◌, Option, none, some, List, [],
  ◌∷◌, ltb, leb, ◌==◌, if◌then◌else◌, ℤ, pos, ltb_ℤ, leb_ℤ, sub64, int_eq, Map, lookup, insert,
  erase, nat_eq, pair_eq, foldl, length,
}
use phi_chain.Sdk.{Text, text, empty_text}
use phi_chain.Identity.Types
use phi_chain.Identity.Types.{
  DidDocument, DidStatus, KeyType, TrustedIssuer, GuardianSet, RecoveryRequest, Params, Error,
  is_active_status, is_suspended, is_revoked,
}

abbrev pub mem : Text → List Text → Bool
mem t [] = false
mem t (x ∷ xs) = (x == t) || mem t xs

pub data Curve : Type 0 where
  curve_r1 curve_k1 : Curve

-- What the keeper is built with, and what it calls outside the repository's modules: the chain's id,
-- governance's address, whether the build has the re-authentication path, phicrypto, SHA-256, and the
-- order in which an iterator of the store yields the keys under a prefix, which are all of these.
pub record Host : Type 0 where
  pub chain_id : Text
  pub authority : Text
  pub reauth_enabled : Bool
  pub verify_signature : Curve → Text → List ℕ → Text → Bool
  pub derive_did : Curve → Text → Option Text
  pub sha256 : List ℕ → Text
  pub in_key_order : List Text → List Text
  pub in_key_order-mem : (t : Text) (ts : List Text) → mem t (in_key_order ts) ≡ mem t ts

-- Times are Unix seconds. An eligibility record is the creation time of the controller's oldest
-- identity that stands, and the time since when it counts; a sweep record the controller's first active
-- identity, and whether it has a suspended and a revoked one.
pub record IdentityStore : Type 0 where
  pub params : Option Params
  pub identity_count : ℕ
  pub identities : Map Text DidDocument
  pub uniqueness : Map Text Text
  pub controller_index : Map (Text × Text) Bool
  pub eligibility : Map Text (ℤ × ℤ)
  pub eligibility_by_age : Map (ℤ × Text) Bool
  pub eligible_total : ℕ
  pub sweep : Map Text (Text × Bool × Bool)
  pub issuers : Map Text TrustedIssuer
  pub issuer_nonces : Map (Text × Text) Bool
  pub did_to_validator : Map Text Text
  pub validator_to_did : Map Text Text
  pub guardians : Map Text GuardianSet
  pub guardian_epochs : Map Text ℕ
  pub recoveries : Map Text RecoveryRequest
  pub recovery_by_did : Map (Text × Text) Bool
  pub recovery_nonces : Map (Text × Text) Bool
  pub tally_epochs : Map Text ℕ

unfoldable pub default_params : Params
default_params = record {
  min_identity_age_seconds = pos 604800;
  bootstrap_threshold = 10000;
  bootstrap_phase = true;
  webauthn_allowed_origins = text "https://portphi.com" ∷ [];
  webauthn_rp_id = text "portphi.com";
  max_guardians = 10;
  uv_sensitive_msg_type_urls =
      text "/phi.identity.MsgRotateIdentityKey"
      ∷ text "/phi.identity.MsgSetGuardians"
      ∷ text "/phi.identity.MsgInitiateRecovery"
      ∷ text "/phi.identity.MsgApproveRecovery"
      ∷ text "/phi.identity.MsgRejectRecovery"
      ∷ text "/phi.identity.MsgCancelRecovery"
      ∷ text "/phi.institutions.MsgInstitutionRedeem"
      ∷ [];
  uv_large_transfer_uphi = text "100000000";
  recovery_delay_seconds = pos 259200;
  recovery_request_ttl_seconds = pos 1209600;
  max_open_recovery_requests = 5;
  recovery_deposit_uphi = text "1000000";
  reauth_recovery_fee_uphi = text "4000000";
}

abbrev params_or_default : Option Params → Params
params_or_default none = default_params
params_or_default (some p) = p

unfoldable pub get_params : IdentityStore → Params
get_params s = params_or_default s.params

abbrev pub is_some {ℓ} : {A : Type ℓ} → Option A → Bool
is_some none = false
is_some (some a) = true

unfoldable pub get_identity : Text → IdentityStore → Option DidDocument
get_identity did s = lookup did s.identities

abbrev pub has_identity : Text → IdentityStore → Bool
has_identity did s = is_some (get_identity did s)

unfoldable pub has_uniqueness : Text → IdentityStore → Bool
has_uniqueness hash s = is_some (lookup hash s.uniqueness)

unfoldable pub set_uniqueness : Text → Text → IdentityStore → IdentityStore
set_uniqueness hash did s = record s { uniqueness = insert hash did s.uniqueness }

-- The second parts of the keys of an index with a first part, before they are put in order.
unfoldable pub under : Text → Map (Text × Text) Bool → List Text
under key [] = []
under key (((first, second), mark) ∷ m) =
    let rest = under key m in if first == key then second ∷ rest else rest

abbrev pub scan : ⦃host : Host⦄ → Text → Map (Text × Text) Bool → List Text
scan ⦃host⦄ key m = host.in_key_order (under key m)

abbrev earlier : ℤ → Option ℤ → Option ℤ
earlier t none = some t
earlier t (some best) = if ltb_ℤ t best then some t else some best

abbrev pub older : Option ℤ → Option DidDocument → Option ℤ
older best none = best
older best (some d) = if is_revoked d.status then best else earlier d.created_at best

unfoldable pub oldest_of : Map Text DidDocument → List Text → Option ℤ
oldest_of identities dids = foldl (λ best did. older best (lookup did identities)) none dids

drop_record : Text → ℤ → IdentityStore → IdentityStore
drop_record controller was s = record s {
  eligibility_by_age = erase (was, controller) s.eligibility_by_age;
  eligibility = erase controller s.eligibility;
  eligible_total = (s.eligible_total + 2 ^ 64 - 1) % 2 ^ 64;
}

add_record : Text → ℤ → ℤ → IdentityStore → IdentityStore
add_record controller oldest now s = record s {
  eligibility = insert controller (oldest, now) s.eligibility;
  eligibility_by_age = insert (oldest, controller) true s.eligibility_by_age;
  eligible_total = (s.eligible_total + 1) % 2 ^ 64;
}

-- A record whose oldest identity is now an older one counts from now on only.
move_record : Text → ℤ → ℤ → ℤ → ℤ → IdentityStore → IdentityStore
move_record controller oldest was since now s = if int_eq.matches was oldest then s else (record s {
  eligibility_by_age =
      insert (oldest, controller) true (erase (was, controller) s.eligibility_by_age);
  eligibility = insert controller (oldest, (if ltb_ℤ oldest was then now else since)) s.eligibility;
})

pub reconcile : Text → ℤ → Option (ℤ × ℤ) → Option ℤ → IdentityStore → IdentityStore
unfolding drop_record add_record move_record
reconcile controller now (some (was, since)) none s = drop_record controller was s
reconcile controller now none (some oldest) s = add_record controller oldest now s
reconcile controller now (some (was, since)) (some oldest) s =
    move_record controller oldest was since now s
reconcile controller now none none s = s

module _ ⦃host : Host⦄ where
  unfoldable pub oldest_standing : Text → IdentityStore → Option ℤ
  oldest_standing controller s = oldest_of s.identities (scan controller s.controller_index)

  unfoldable pub refresh_controller_eligibility : Text → ℕ → IdentityStore → IdentityStore
  unfolding reconcile
  refresh_controller_eligibility controller block_time s =
      reconcile controller (pos block_time) (lookup controller s.eligibility)
        (oldest_standing controller s) s

-- The scan of refreshControllerSweepStatus: `none` as long as no identity was found.
abbrev first_active : Text → DidDocument → Text
first_active first d =
    if is_active_status d.status then (if first == empty_text then d.did else first) else first

abbrev swept : Option (Text × Bool × Bool) → DidDocument → Text × Bool × Bool
swept none d = (first_active empty_text d, is_suspended d.status, is_revoked d.status)
swept (some (first, has_suspended, has_revoked)) d = (
  first_active first d,
  has_suspended || is_suspended d.status,
  has_revoked || is_revoked d.status,
)

abbrev sweep_step : Option (Text × Bool × Bool) → Option DidDocument → Option (Text × Bool × Bool)
sweep_step found none = found
sweep_step found (some d) = some (swept found d)

abbrev put_sweep : Text → Option (Text × Bool × Bool) → IdentityStore → IdentityStore
put_sweep controller none s = record s { sweep = erase controller s.sweep }
put_sweep controller (some r) s = record s { sweep = insert controller r s.sweep }

module _ ⦃host : Host⦄ where
  unfoldable pub refresh_controller_sweep_status : Text → IdentityStore → IdentityStore
  refresh_controller_sweep_status controller s =
      put_sweep controller
        (foldl (λ found did. sweep_step found (lookup did s.identities)) none
          (scan controller s.controller_index))
        s

  pub refresh : Text → ℕ → IdentityStore → IdentityStore
  unfolding refresh_controller_eligibility refresh_controller_sweep_status
  refresh controller block_time s =
      refresh_controller_sweep_status controller
        (refresh_controller_eligibility controller block_time s)

  -- The index without the entry of a controller that is left, and that controller.
  leave : DidDocument → Option DidDocument → Map (Text × Text) Bool → Map (Text × Text) Bool × Text
  leave d none index = (index, empty_text)
  leave d (some prev) index =
      if prev.controller == d.controller
      then (index, empty_text)
      else (erase (prev.controller, prev.did) index, prev.controller)

  pub put_identity : DidDocument → Map (Text × Text) Bool → IdentityStore → IdentityStore
  put_identity d index s = record s {
    identities = insert d.did d s.identities;
    controller_index = insert (d.controller, d.did) true index;
  }

  unfoldable pub set_identity : ℕ → DidDocument → IdentityStore → IdentityStore
  unfolding leave put_identity refresh
  set_identity block_time d s =
      let (index, prev) = leave d (get_identity d.did s) s.controller_index in
      let stored = refresh d.controller block_time (put_identity d index s) in
      if prev == empty_text then stored else refresh prev block_time stored

-- An int64 product; the tail scan stops at its ceiling.
unfoldable pub newer_than : ℤ → Map (ℤ × Text) Bool → ℕ
newer_than cutoff [] = 0
newer_than cutoff (((created_at, controller), mark) ∷ m) =
    (if leb_ℤ created_at cutoff then 0 else 1) + newer_than cutoff m

unfoldable pub is_eligible_controller_at : Text → ℤ → ℤ → IdentityStore → Bool
is_eligible_controller_at controller t min_age s = elim (lookup controller s.eligibility) [
  | none ↦ false
  | some (oldest, since) ↦ leb_ℤ oldest (sub64 t min_age)
]

unfoldable pub is_eligible_controller_since : Text → ℤ → ℤ → ℤ → IdentityStore → Bool
is_eligible_controller_since controller t min_age since s = elim (lookup controller s.eligibility) [
  | none ↦ false
  | some (oldest, eligible_since) ↦
      if ltb_ℤ (sub64 t min_age) oldest
      then false
      else (int_eq.matches since (pos 0) || leb_ℤ eligible_since since)
]

abbrev pub max_eligibility_tail_scan : ℕ
max_eligibility_tail_scan = 5000000

-- The reverse iterator meets the newest entries first, so that it counts all newer ones up to the
-- ceiling.
unfoldable pub count_eligible_controllers_at : ℤ → ℤ → IdentityStore → ℕ
count_eligible_controllers_at t min_age s =
    let newer = newer_than (sub64 t min_age) s.eligibility_by_age in
    let tail = if ltb max_eligibility_tail_scan newer then max_eligibility_tail_scan else newer in
    if ltb s.eligible_total tail then s.eligible_total else s.eligible_total - tail

unfoldable pub get_trusted_issuer : Text → IdentityStore → Option TrustedIssuer
get_trusted_issuer did s = lookup did s.issuers

unfoldable pub set_trusted_issuer : TrustedIssuer → IdentityStore → IdentityStore
set_trusted_issuer ti s = record s { issuers = insert ti.did ti s.issuers }

unfoldable pub has_issuer_nonce : Text → Text → IdentityStore → Bool
has_issuer_nonce issuer nonce s = is_some (lookup (issuer, nonce) s.issuer_nonces)

unfoldable pub mark_issuer_nonce : Text → Text → IdentityStore → IdentityStore
mark_issuer_nonce issuer nonce s = record s {
  issuer_nonces = insert (issuer, nonce) true s.issuer_nonces;
}

unfoldable pub get_guardians : Text → IdentityStore → Option GuardianSet
get_guardians did s = lookup did s.guardians

unfoldable pub set_guardian_set : GuardianSet → IdentityStore → IdentityStore
set_guardian_set gs s = record s { guardians = insert gs.did gs s.guardians }

unfoldable pub delete_guardian_set : Text → IdentityStore → IdentityStore
delete_guardian_set did s = record s { guardians = erase did s.guardians }

abbrev pub epoch_or_zero : Option ℕ → ℕ
epoch_or_zero none = 0
epoch_or_zero (some n) = n

unfoldable pub guardian_epoch : Text → IdentityStore → ℕ
guardian_epoch did s = epoch_or_zero (lookup did s.guardian_epochs)

unfoldable pub bump_guardian_epoch : Text → IdentityStore → IdentityStore
bump_guardian_epoch did s =
    let cur = guardian_epoch did s in
    if cur == 2 ^ 64 - 1
    then s
    else (record s { guardian_epochs = insert did (cur + 1) s.guardian_epochs })

unfoldable pub recovery_tally_epoch : Text → IdentityStore → ℕ
recovery_tally_epoch id s = epoch_or_zero (lookup id s.tally_epochs)

-- UnbindValidator of the validator of an identity.
unfoldable pub unbind_validator : Text → IdentityStore → IdentityStore
unbind_validator valoper s = elim (lookup valoper s.validator_to_did) [
  | none ↦ record s { validator_to_did = erase valoper s.validator_to_did }
  | some did ↦ record s {
    did_to_validator = erase did s.did_to_validator;
    validator_to_did = erase valoper s.validator_to_did;
  }
]

unfoldable pub release_validator : Text → IdentityStore → IdentityStore
unfolding unbind_validator
release_validator did s = elim (lookup did s.did_to_validator) [
  | none ↦ s
  | some valoper ↦ unbind_validator valoper s
]
