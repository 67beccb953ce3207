-- ===== src/Institutions.antt =====
-- x/institutions: the institutions that mint against an attested reserve and redeem.
pub mod Types
pub mod Split
pub mod Limits
pub mod Store
pub mod Caps
pub mod Handlers
