-- ===== src/Governance.antt =====
-- x/governance: the route of a proposal, and the running tally of one human, one vote.
pub mod Routes
pub mod Tally
pub mod Hooks
