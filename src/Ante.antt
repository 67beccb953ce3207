-- ===== src/Ante.antt =====
-- app/ante: the decorators that run before a transaction.
pub mod Fee
pub mod Status
pub mod Charge
