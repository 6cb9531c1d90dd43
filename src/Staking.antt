-- ===== src/Staking.antt =====
-- src/engine/staking/mod.rs: the relay rounds, the elections for the next one and the rewards.
pub mod Rounds
pub mod Events
pub mod Startup
pub mod Rewards
pub mod Requests
pub mod Parsers
pub mod Verification
pub mod Tasks
pub mod Elections
mod Examples
