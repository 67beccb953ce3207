-- ===== src/Identity/Service.antt =====
-- The message service of x/identity: the handlers of msg_server.go, issuer.go and
-- msg_server_recovery.go behind one message type, and the states that they reach.
pub mod Change
pub mod Registry
pub mod Recoveries
pub mod People
pub mod Reached
pub mod Tallies
pub mod Ballots
pub mod Consent
use phi_chain.Base.{ℕ, ◌≡◌, Result, ok, ◌>>=◌}
use phi_chain.Sdk.{Text, Sdk}
use phi_chain.Sdk.Bank.{Bank}
use phi_chain.Identity.Types.{DidStatus, TrustedIssuer, Params, Error}
use phi_chain.Identity.Store.{Host, IdentityStore}
use phi_chain.Identity.Requests.{IdentityChain}
use phi_chain.Identity.Handlers.{
  MsgRegisterIdentity, MsgRotateIdentityKey, MsgSetGuardians, register_identity, revoke_identity,
  rotate_identity_key, update_status, set_guardians, update_params, register_trusted_issuer,
  revoke_trusted_issuer,
}
use phi_chain.Identity.Recovery.{
  MsgInitiateRecovery, MsgGuardianVote, initiate_recovery, approve_recovery, reject_recovery,
  execute_recovery, cancel_recovery,
}

pub data Msg : Type 0 where
  register : MsgRegisterIdentity → Msg
  revoke : (creator did : Text) → Msg
  rotate : MsgRotateIdentityKey → Msg
  change_status : (authority did : Text) → DidStatus → Msg
  guard : MsgSetGuardians → Msg
  set_rules : (authority : Text) → Params → Msg
  trust : (authority : Text) → TrustedIssuer → Msg
  distrust : (authority did : Text) → Msg
  initiate : MsgInitiateRecovery → Msg
  approve : MsgGuardianVote → Msg
  reject : MsgGuardianVote → Msg
  execute : (recovery_id : Text) → Msg
  cancel : (creator recovery_id : Text) → Msg

module _ ⦃sdk : Sdk⦄ ⦃host : Host⦄ {B : Type 0} (bank : Bank B) where
  -- A handler of the store alone.
  abbrev pub on_store :
      Result Error IdentityStore → IdentityChain B → Result Error (IdentityChain B)
  on_store r c = do s ← r; ok (record c { ids = s })

  unfoldable pub deliver : ℕ → Msg → IdentityChain B → Result Error (IdentityChain B)
  deliver block_time (register m) c = on_store (register_identity block_time m c.ids) c
  deliver block_time (revoke creator did) c = revoke_identity bank block_time creator did c
  deliver block_time (rotate m) c = on_store (rotate_identity_key block_time m c.ids) c
  deliver block_time (change_status authority did status) c =
      on_store (update_status block_time authority did status c.ids) c
  deliver block_time (guard m) c = on_store (set_guardians block_time m c.ids) c
  deliver block_time (set_rules authority p) c = on_store (update_params authority p c.ids) c
  deliver block_time (trust authority issuer) c =
      on_store (register_trusted_issuer authority issuer c.ids) c
  deliver block_time (distrust authority did) c =
      on_store (revoke_trusted_issuer authority did c.ids) c
  deliver block_time (initiate m) c = initiate_recovery bank block_time m c
  deliver block_time (approve m) c = approve_recovery bank block_time m c
  deliver block_time (reject m) c = reject_recovery bank block_time m c
  deliver block_time (execute id) c = execute_recovery bank block_time id c
  deliver block_time (cancel creator id) c = cancel_recovery bank block_time creator id c

  -- The states that messages reach, at any times; a message that fails changes nothing.
  pub data Reach (c : IdentityChain B) : IdentityChain B → Type 0 where
    here : Reach c c
    next :
        {d e : IdentityChain B} (block_time : ℕ) (m : Msg)
        → Reach c d
        → deliver block_time m d ≡ ok e
        → Reach c e
