-- ===== src/Identity.antt =====
-- x/identity: the registry of identities, the recovery of their keys, and who is eligible to vote.
pub mod Types
pub mod Canonical
pub mod Store
pub mod Validate
pub mod Requests
pub mod Handlers
pub mod Recovery
pub mod Service
