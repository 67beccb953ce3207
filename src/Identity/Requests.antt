-- ===== src/Identity/Requests.antt =====
-- x/identity/keeper/recovery.go and recovery_epoch.go: the recovery requests, their deposits and the
-- epochs of their tallies; with openGuardianCommitment of guardians.go.
pub mod Frame
pub mod Tally
pub mod Loops
use phi_chain.Base.{
  ℕ, Bool, true, false, not, ◌&&◌, ◌||◌, Option, none, some, List, [], ◌∷◌, leb, ltb, ◌+◌, ◌==◌,
  if◌then◌else◌, ℤ, pos, negsuc, ltb_ℤ, leb_ℤ, add64, sub64, int_eq, Map, lookup, insert, erase,
  nat_eq, pair_eq, Result, ok, err, fail_if, or_fail, ◌>>=◌, ◌>>◌,
}
use phi_chain.Sdk.{Text, text, text_length, Sdk}
use phi_chain.Sdk.Bank.{Bank, Account, user, module_account}
use phi_chain.Identity.Types
use phi_chain.Identity.Types.{
  DidDocument, GuardianSet, RecoveryRequest, Params, Error, KeyType, is_active_status, is_suspended,
  is_terminal_recovery_status,
}
use phi_chain.Identity.Store.{
  Host, IdentityStore, curve_r1, scan, get_params, get_identity, has_identity, get_guardians,
  guardian_epoch, recovery_tally_epoch,
}
use phi_chain.Identity.Validate.{guardian_commitment, has_commitment}

-- The state of a handler: x/bank beside the module's store.
pub record IdentityChain (B : Type 0) : Type 0 where
  pub bank : B
  pub ids : IdentityStore

abbrev pub identity_account : Account
identity_account = module_account (text "identity")

abbrev pub fee_collector : Account
fee_collector = module_account (text "fee_collector")

unfoldable pub set_recovery_request : RecoveryRequest → IdentityStore → IdentityStore
set_recovery_request r s = record s {
  recoveries = insert r.recovery_id r s.recoveries;
  recovery_by_did = insert (r.did, r.recovery_id) true s.recovery_by_did;
}

unfoldable pub delete_recovery_request : RecoveryRequest → IdentityStore → IdentityStore
delete_recovery_request r s = record s {
  recoveries = erase r.recovery_id s.recoveries;
  recovery_by_did = erase (r.did, r.recovery_id) s.recovery_by_did;
  tally_epochs = erase r.recovery_id s.tally_epochs;
}

unfoldable pub get_recovery_request : Text → IdentityStore → Option RecoveryRequest
get_recovery_request id s = lookup id s.recoveries

abbrev pub prepend {ℓ} : {A : Type ℓ} → Option A → List A → List A
prepend none xs = xs
prepend (some x) xs = x ∷ xs

unfoldable pub stored : List Text → Map Text RecoveryRequest → List RecoveryRequest
stored [] m = []
stored (id ∷ ids) m = prepend (lookup id m) (stored ids m)

unfoldable pub recovery_requests_for_did :
    ⦃host : Host⦄ → Text → IdentityStore → List RecoveryRequest
recovery_requests_for_did did s = stored (scan did s.recovery_by_did) s.recoveries

unfoldable pub has_recovery_nonce : Text → Text → IdentityStore → Bool
has_recovery_nonce did nonce s = elim (lookup (did, nonce) s.recovery_nonces) [
  | none ↦ false
  | some mark ↦ true
]

unfoldable pub mark_recovery_nonce : Text → Text → IdentityStore → IdentityStore
mark_recovery_nonce did nonce s = record s {
  recovery_nonces = insert (did, nonce) true s.recovery_nonces;
}

unfoldable pub recovery_frozen_by_suspension : Text → IdentityStore → Bool
recovery_frozen_by_suspension did s = elim (get_identity did s) [
  | none ↦ false
  | some doc ↦ is_suspended doc.status
]

-- The approvals that count, and the request with the tally that a replaced guardian set left cleared.
unfoldable pub tally_is_current : RecoveryRequest → IdentityStore → Bool
tally_is_current r s = recovery_tally_epoch r.recovery_id s == guardian_epoch r.did s

unfoldable pub effective_approvals : RecoveryRequest → IdentityStore → List Text
effective_approvals r s = if tally_is_current r s then r.approvals else []

unfoldable pub effective_rejections : RecoveryRequest → IdentityStore → List Text
effective_rejections r s = if tally_is_current r s then r.rejections else []

unfoldable pub sync_tally_epoch : RecoveryRequest → IdentityStore → RecoveryRequest × IdentityStore
sync_tally_epoch r s = if tally_is_current r s then (r, s) else (
  record r { approvals = []; rejections = [] },
  record s { tally_epochs = insert r.recovery_id (guardian_epoch r.did s) s.tally_epochs },
)

unfoldable pub freeze : ℤ → RecoveryRequest → IdentityStore → IdentityStore
freeze now r s =
    if is_terminal_recovery_status r.status || not (int_eq.matches r.frozen_at (pos 0))
    then s
    else if ltb_ℤ r.expires_at now
    then s
    else set_recovery_request (record r { frozen_at = now }) s

-- The request regains the time for opposition that it had left when the freeze began, and its life.
unfoldable pub thawed : ℤ → ℤ → RecoveryRequest → RecoveryRequest
thawed now ttl r = record r {
  execute_after =
      (if ltb_ℤ r.frozen_at r.execute_after
        then add64 now (sub64 r.execute_after r.frozen_at)
        else r.execute_after);
  frozen_at = pos 0;
  expires_at = add64 now ttl;
}

unfoldable pub thaw : ℤ → ℤ → RecoveryRequest → IdentityStore → IdentityStore
thaw now ttl r s =
    if int_eq.matches r.frozen_at (pos 0) || is_terminal_recovery_status r.status
    then s
    else set_recovery_request (thawed now ttl r) s

abbrev each {ℓ κ} : {A : Type ℓ} {S : Type κ} → (A → S → S) → List A → S → S
each f [] s = s
each f (x ∷ xs) s = each f xs (f x s)

module _ ⦃host : Host⦄ where
  unfoldable pub freeze_live_recoveries : ℕ → Text → IdentityStore → IdentityStore
  freeze_live_recoveries block_time did s =
      each (freeze (pos block_time)) (recovery_requests_for_did did s) s

  unfoldable pub thaw_recoveries : ℕ → Text → IdentityStore → IdentityStore
  thaw_recoveries block_time did s =
      each (thaw (pos block_time) (get_params s).recovery_request_ttl_seconds)
        (recovery_requests_for_did did s) s

  unfoldable pub assert_no_key_collision : KeyType → Text → IdentityStore → Result Error (Unit {0})
  assert_no_key_collision Types.secp256r1 key s = do
    derived ← or_fail (host.derive_did curve_r1 key) Types.invalid_pub_key
    fail_if (has_identity derived s) Types.recovery_key_collision
  assert_no_key_collision Types.secp256k1 key s = err Types.invalid_recovery
  assert_no_key_collision Types.key_type_unspecified key s = err Types.invalid_recovery
  assert_no_key_collision Types.key_type_other key s = err Types.invalid_recovery

  -- A guardian opens a commitment of the set: the salt, and an active identity that signs.
  unfoldable pub open_guardian_commitment :
      Text → Text → Text → Text → IdentityStore → Result Error (Unit {0})
  open_guardian_commitment protected guardian salt signer s = do
    fail_if (not (text_length salt == 32)) Types.invalid_guardians
    gs ← or_fail (get_guardians protected s) Types.invalid_guardians
    fail_if (not (has_commitment (guardian_commitment guardian salt) gs.commitments))
        Types.not_a_guardian
    fail_if (guardian == protected) Types.invalid_guardians
    doc ← or_fail (get_identity guardian s) Types.guardian_not_eligible
    fail_if (not (is_active_status doc.status)) Types.guardian_not_eligible
    fail_if (not (doc.controller == signer)) Types.unauthorized

-- The amount of a text that is a positive integer, and 0 of any other.
abbrev pub positive_part : Option ℤ → ℕ
positive_part none = 0
positive_part (some (pos n)) = n
positive_part (some (negsuc n)) = 0

abbrev pub is_kept : Option Text → Text → Bool
is_kept none id = false
is_kept (some kept) id = id == kept

module _ ⦃sdk : Sdk⦄ where
  unfoldable pub deposit_of : RecoveryRequest → ℕ
  deposit_of r = positive_part (sdk.new_int_from_string r.deposit_uphi)

  module _ {B : Type 0} (bank : Bank B) where
    -- A movement of nothing is not made.
    unfoldable pub move_uphi : Account → Account → ℕ → B → Result Error B
    move_uphi from to n b =
        if n == 0 then ok b else or_fail (bank.send from to n b) Types.bank_failed

    unfoldable pub escrow_deposit : Text → ℤ → B → Result Error B
    unfolding move_uphi
    escrow_deposit from amount b =
        move_uphi (user from) identity_account (positive_part (some amount)) b

    unfoldable pub refund_deposit : RecoveryRequest → B → Result Error B
    unfolding move_uphi
    refund_deposit r b =
        let paid = do
          to ← or_fail (sdk.acc_address_from_bech32 r.proposed_new_controller) Types.invalid_address
          move_uphi identity_account (user to) (deposit_of r) b
        in if deposit_of r == 0 then ok b else paid

    unfoldable pub forfeit_deposit : RecoveryRequest → B → Result Error B
    unfolding move_uphi
    forfeit_deposit r b = move_uphi identity_account fee_collector (deposit_of r) b

    -- Whether a request is closed already, or has expired and is closed now.
    unfoldable pub reap_if_expired :
        ℤ → RecoveryRequest → IdentityChain B → Result Error (Bool × IdentityChain B)
    reap_if_expired now r c =
        if is_terminal_recovery_status r.status
        then ok (true, c)
        else if not (int_eq.matches r.frozen_at (pos 0))
            && recovery_frozen_by_suspension r.did c.ids
        then ok (false, c)
        else if leb_ℤ now r.expires_at
        then ok (false, c)
        else (do
          b ← forfeit_deposit r c.bank
          ok (true, record { bank = b; ids = delete_recovery_request r c.ids }))

    -- The loop of countOpenRequests.
    unfoldable pub count_open :
        ℤ → List RecoveryRequest → ℕ → IdentityChain B → Result Error (ℕ × IdentityChain B)
    unfolding reap_if_expired
    count_open now [] open_requests c = ok (open_requests, c)
    count_open now (r ∷ rs) open_requests c = do
      (terminal, d) ← reap_if_expired now r c
      count_open now rs (if terminal then open_requests else open_requests + 1) d

    -- Closes every request of the list that is open, but the one with the given id.
    unfoldable pub close_all :
        Option Text → List RecoveryRequest → IdentityChain B → Result Error (IdentityChain B)
    unfolding forfeit_deposit
    close_all kept [] c = ok c
    close_all kept (r ∷ rs) c =
        let next = do
          b ← forfeit_deposit r c.bank
          close_all kept rs (record { bank = b; ids = delete_recovery_request r c.ids })
        in let skip = close_all kept rs c in
          if is_kept kept r.recovery_id || is_terminal_recovery_status r.status then skip else next

    module _ ⦃host : Host⦄ where
      unfoldable pub count_open_requests :
          ℤ → Text → IdentityChain B → Result Error (ℕ × IdentityChain B)
      count_open_requests now did c = count_open now (recovery_requests_for_did did c.ids) 0 c

      unfoldable pub supersede_siblings :
          Text → Text → IdentityChain B → Result Error (IdentityChain B)
      supersede_siblings did executed c =
          close_all (some executed) (recovery_requests_for_did did c.ids) c

      unfoldable pub terminate_recovery_requests_for_did :
          Text → IdentityChain B → Result Error (IdentityChain B)
      terminate_recovery_requests_for_did did c =
          close_all none (recovery_requests_for_did did c.ids) c
