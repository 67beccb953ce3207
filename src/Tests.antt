-- ===== src/Tests.antt =====
-- The theorems at concrete inputs, over the sample values of the interfaces.
mod Values
mod Ages
mod Handlers
mod Mints
mod People
mod Papers
mod Polls
mod Votes
