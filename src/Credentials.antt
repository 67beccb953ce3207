-- ===== src/Credentials.antt =====
-- x/credentials: templates of credentials, their anchors, agreements and personal anchors.
pub mod Types
pub mod Policy
pub mod Handlers
pub mod Service
