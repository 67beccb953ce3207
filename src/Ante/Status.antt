-- ===== src/Ante/Status.antt =====
-- app/ante/identity_status.go, and HasNonActiveDID of x/identity/keeper/keeper.go: the decorator that
-- refuses a signer with an identity that is not active.
use phi_chain.Base.{
  Bool, true, false, not, ◌||◌, Option, none, some, List, [], ◌∷◌, ◌≡◌, refl, ◌∙◌, arith,
  if◌then◌else◌, Map, lookup, nat_eq, pair_eq, Option-cases, inl, inr, ==_iff, Result, ok, err,
  fail_if, or_fail, ◌>>=◌, ◌>>◌, sym,
}
use phi_chain.Sdk.{Text, Addr, Sdk}
use phi_chain.Identity.Types.{DidDocument, is_active_status}
use phi_chain.Identity.Store.{mem, Host, IdentityStore, get_identity, scan}
use phi_chain.Identity.Store.Indexed.{under-mem}

pub data StatusError : Type 0 where
  tx_decode bad_signers signer_not_active : StatusError

-- What the guard reads of a transaction: whether it is a SigVerifiableTx, and what GetSigners returns,
-- `none` for its error.
pub record SigTx : Type 0 where
  pub is_sig_verifiable : Bool
  pub signers : Option (List Addr)

-- A transaction that one account has signed.
abbrev pub signed_by : Addr → SigTx
signed_by signer = record { is_sig_verifiable = true; signers = some (signer ∷ []) }

abbrev is_non_active : Option DidDocument → Bool
is_non_active none = false
is_non_active (some d) = not (is_active_status d.status)

unfoldable pub any_non_active : Map Text DidDocument → List Text → Bool
any_non_active identities [] = false
any_non_active identities (did ∷ dids) =
    is_non_active (lookup did identities) || any_non_active identities dids

module _ ⦃host : Host⦄ where
  unfoldable pub has_non_active_did : Text → IdentityStore → Bool
  unfolding any_non_active
  has_non_active_did controller s = any_non_active s.identities (scan controller s.controller_index)

  -- Every identity that the index lists under the controller is active.
  abbrev pub IsInGoodStanding : Text → IdentityStore → Type 0
  IsInGoodStanding controller s =
      (did : Text) (mark : Bool) (d : DidDocument)
      → lookup (controller, did) s.controller_index ≡ some mark
      → get_identity did s ≡ some d
      → is_active_status d.status ≡ true

  any_non_active-false :
      (identities : Map Text DidDocument) (dids : List Text)
      → ((did : Text) (d : DidDocument)
          → mem did dids ≡ true
          → lookup did identities ≡ some d
          → is_active_status d.status ≡ true)
      → any_non_active identities dids ≡ false
  unfolding any_non_active
  any_non_active-false identities [] h = refl
  any_non_active-false identities (did ∷ dids) h =
      let rest =
        any_non_active-false identities dids (λ x d listed. h x d (ground (arith, listed))) in
      elim (Option-cases (lookup did identities)) [
        | inl e ↦ ground (arith, rest, e)
        | inr (d, e) ↦ ground (arith, rest, e, h did d (ground (arith, ==_iff did did)) e)
      ]

  has_non_active_did-IsInGoodStanding :
      (controller : Text) (s : IdentityStore)
      → IsInGoodStanding controller s
      → has_non_active_did controller s ≡ false
  unfolding has_non_active_did get_identity
  has_non_active_did-IsInGoodStanding controller s good =
      any_non_active-false s.identities (scan controller s.controller_index) (λ did d listed found.
        let (mark, indexed) =
          under-mem controller did s.controller_index
            (sym (host.in_key_order-mem did _) ∙ listed) in
        good did mark d indexed found)

  module _ ⦃sdk : Sdk⦄ where
    unfoldable pub refuse_non_active : List Addr → IdentityStore → Result StatusError (Unit {0})
    refuse_non_active [] s = ok tt
    refuse_non_active (a ∷ signers) s =
        let rest = refuse_non_active signers s in
        if has_non_active_did (sdk.addr_string a) s then err signer_not_active else rest

    -- The guard's AnteHandle, up to the call of the next decorator.
    unfoldable pub identity_status_guard :
        Bool → Bool → SigTx → IdentityStore → Result StatusError (Unit {0})
    unfolding refuse_non_active
    identity_status_guard simulate is_recheck_tx tx s =
        let checked = do
          fail_if (not tx.is_sig_verifiable) tx_decode
          signers ← or_fail tx.signers bad_signers
          refuse_non_active signers s
        in if simulate || is_recheck_tx then ok tt else checked

    -- Whatever the mode, the guard lets through what one signer in good standing has signed.
    pub identity_status_guard-IsInGoodStanding :
        (simulate is_recheck_tx : Bool) (signer : Addr) (s : IdentityStore)
        → IsInGoodStanding (sdk.addr_string signer) s
        → identity_status_guard simulate is_recheck_tx (signed_by signer) s ≡ ok tt
    unfolding identity_status_guard
    identity_status_guard-IsInGoodStanding simulate is_recheck_tx signer s good =
        ground (arith, has_non_active_did-IsInGoodStanding (sdk.addr_string signer) s good)
