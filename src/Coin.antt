-- ===== src/Coin.antt =====
-- x/coin: coin age, parameters and fees, and the message handlers.
pub mod Types
pub mod Age
pub mod Params
pub mod Fee
pub mod Keeper
pub mod Messages
