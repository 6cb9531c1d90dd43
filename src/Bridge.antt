-- ===== src/Bridge.antt =====
-- src/engine/bridge/mod.rs: the relay's votes for the events of the bridge.
pub mod Action
pub mod Events
pub mod Handlers
pub mod Configurations
pub mod Voting
pub mod Parsers
pub mod Scan
pub mod Start
mod Examples
