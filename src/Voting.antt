-- ===== src/Voting.antt =====
-- x/voting: anonymous elections, gated by a credential and deduplicated by nullifiers.
pub mod Types
pub mod Validate
pub mod Handlers
pub mod Service
