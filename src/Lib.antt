-- ===== src/Lib.antt =====
-- Verification of phi-chain: a coin with an age, its fees, the institutions that mint and redeem it, the
-- votes on its parameters, the identities behind them with their recovery, credentials, and elections.
--
-- The program is a Cosmos SDK application in Go. A transaction passes the decorators of app/ante, which
-- charge its fee, and then the handlers of the modules under x/. A handler reads and writes the
-- key-value store of its module and calls x/bank; a handler that fails leaves no trace, since the SDK
-- discards its writes. Accordingly a handler is here a function from the state to an error or the next
-- state, in a monad of results (Base.Errors), and a store prefix is a map (Base.Store). Events are left
-- out.
--
--   - Base: shared names, integers (math.Int and int64 with its wrap-around), maps and results.
--   - Sdk: the interfaces of code that the repository calls and does not contain, as records of
--     operations and of the laws that the callers rely on: math.Int's text form, the address codec, and
--     x/bank on the one denomination. Sdk.Sample has values of them that satisfy the laws.
--   - Coin.Types, Coin.Age: x/coin/types/coin_age.go. A holder's coin is a queue of lots, oldest first.
--   - Coin.Params, Coin.Fee: x/coin/types/params.go and ComputeFeeSplit of x/coin/keeper/fee.go.
--   - Coin.Keeper: x/coin/keeper/keeper.go with the micro-exemption of fee.go.
--   - Coin.Messages: x/coin/keeper/msg_server.go.
--   - Ante: app/ante/fee.go, the gas ceiling and the fixed fee, and identity_status.go, the refusal of
--     signers with an identity that is not active.
--   - Institutions.Split: x/institutions/keeper/redeem_split.go, the arithmetic of a redemption, and
--     MintedUphiForToman of keeper.go, that of a mint.
--   - Institutions.Limits, Institutions.Store, Institutions.Caps: the limits of x/institutions/types,
--     and the roles, approvals, vaults and counters of x/institutions/keeper (rbac.go, kyc_tier.go,
--     mint_separation.go, keeper.go).
--   - Institutions.Handlers: InstitutionMint and InstitutionRedeem of msg_server.go, with the solvency
--     check of invariants.go.
--   - Governance.Routes: the classification of x/governance/types/params.go.
--   - Governance.Tally: x/governance/keeper/tally_state.go, the running tally.
--   - Governance.Hooks: x/governance/hooks.go, with dominantOption of tally_live.go.
--   - Identity.Types, Identity.Validate, Identity.Canonical: x/identity/types, that is the messages, the
--     parameters, the digests and the bytes that are signed.
--   - Identity.Store: the registry of x/identity/keeper (keeper.go, validator_binding.go, guardians.go,
--     issuer.go, recovery_epoch.go) and the indexes that are derived from it.
--   - Identity.Requests: recovery.go and recovery_epoch.go, the recovery requests and their deposits.
--   - Identity.Handlers, Identity.Recovery: msg_server.go, issuer.go and msg_server_recovery.go.
--   - Identity.Service: all messages of the module, and the states that they reach.
--   - Credentials: x/credentials, that is policy.go, the keeper and msg_server.go over the registry of
--     identities, and the states that messages reach.
--   - Voting: x/voting, the elections with their messages (msgs.go, msg_server.go), the keeper and the
--     parameters, and the states that messages reach. The templates of x/credentials are an argument of
--     each message.
--   - Tests: the theorems at concrete inputs.
--
-- A child of a module holds proofs about it and is named for what they are about.
--
-- Amounts that the code has checked not to be negative are natural numbers; a fee, a share and a
-- parsed text are integers. Texts and addresses are numbers under a one-to-one coding of byte strings.
-- uint64 counters wrap at 2 ^ 64 and int64 differences by two's complement; the theorems about times
-- ask that these lie within 2 ^ 62 of 1970, and those about counters that they are below their word.
-- Every loop is structural recursion on its list, so no fuel is needed: the merge loop of BoundLots
-- drops one lot in each round. Identity's times are Unix seconds, not negative for a block, and the
-- minimal age is in seconds. A key of two parts is a pair, which asks that no controller and no DID
-- has a zero byte. The signatures, the derivation of a DID, SHA-256 and the order of the store's iterator
-- are parameters of x/identity (Identity.Store.Host). A panic of a handler fails the transaction, so it is
-- one of its errors.
--
-- Not modelled: genesis and queries, the pruning of a finished vote, the registry, the granting of
-- roles and the sweeps of institutions, the validator hook and the validator sweep of x/identity, the
-- stateless checks of the messages of x/identity and x/credentials, and the module x/disclosure. The
-- coin module sees x/identity as the function from an address to its subject, and the governance module
-- as the record of the questions that its hooks ask. app, cmd and the generated code are wiring.
pub mod Base
pub mod Sdk
pub mod Coin
pub mod Ante
pub mod Governance
pub mod Institutions
pub mod Identity
pub mod Tests
pub mod Voting
pub mod Credentials
