-- ===== src/Bridge/Configurations.antt =====
-- src/engine/bridge/mod.rs: the connectors and event configurations that the bridge knows. Every
-- method holds the write lock of `state` while it changes it, so it is one step; a method that fails
-- keeps what it changed before.
pub mod Monad
pub mod Methods
pub mod Startup
pub mod Invariant
pub mod Adding
pub mod Changing
pub mod History
pub mod Expiry
