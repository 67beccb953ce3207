-- ===== src/Credentials/Service.antt =====
-- The message service of x/credentials, and the states that messages reach.
pub mod Agreements
pub mod Evolution
pub mod Effects
pub mod Reached
use phi_chain.Base.{ℕ, ◌≡◌, Result, ok}
use phi_chain.Sdk.{Text}
use phi_chain.Identity.Store.{Host, IdentityStore}
use phi_chain.Credentials.Types.{
  MsgRegisterTemplate, MsgUpdateTemplate, MsgAnchorCredential, MsgCreateAgreement, MsgSignAgreement,
  MsgAnchorPersonal, Error, CredentialStore,
}
use phi_chain.Credentials.Handlers.{
  update_params, deprecate_template, revoke_credential, create_agreement, cancel_agreement,
  register_template, update_template, anchor_credential, sign_agreement, anchor_personal,
}

pub data CredentialMsg : Type 0 where
  add_template : MsgRegisterTemplate → CredentialMsg
  change_template : MsgUpdateTemplate → CredentialMsg
  end_template : (creator id : Text) → CredentialMsg
  anchor : MsgAnchorCredential → CredentialMsg
  revoke_anchor : (issuer hash : Text) → CredentialMsg
  agree : MsgCreateAgreement → CredentialMsg
  sign : MsgSignAgreement → CredentialMsg
  end_agreement : (creator hash : Text) → CredentialMsg
  keep_personal : MsgAnchorPersonal → CredentialMsg
  set_limit : (authority : Text) → ℕ → CredentialMsg

module _ ⦃host : Host⦄ where
  unfoldable pub process :
      ℕ → IdentityStore → CredentialMsg → CredentialStore → Result Error CredentialStore
  process block_time ids (add_template m) s = register_template block_time m ids s
  process block_time ids (change_template m) s = update_template block_time m ids s
  process block_time ids (end_template creator id) s =
      deprecate_template block_time creator id ids s
  process block_time ids (anchor m) s = anchor_credential block_time m ids s
  process block_time ids (revoke_anchor issuer hash) s = revoke_credential issuer hash ids s
  process block_time ids (agree m) s = create_agreement block_time m s
  process block_time ids (sign m) s = sign_agreement block_time m ids s
  process block_time ids (end_agreement creator hash) s = cancel_agreement creator hash s
  process block_time ids (keep_personal m) s = anchor_personal block_time m ids s
  process block_time ids (set_limit authority n) s = update_params authority n s

  -- The states that messages reach, at any times and whatever x/identity holds then.
  pub data Trace (s : CredentialStore) : CredentialStore → Type 0 where
    start : Trace s s
    after :
        {t u : CredentialStore} (block_time : ℕ) (ids : IdentityStore) (m : CredentialMsg)
        → Trace s t
        → process block_time ids m t ≡ ok u
        → Trace s u
