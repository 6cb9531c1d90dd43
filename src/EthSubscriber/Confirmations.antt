-- ===== src/EthSubscriber/Confirmations.antt =====
-- src/engine/eth_subscriber/mod.rs, `EthSubscriber`: the confirmations that wait for an EVM event.
pub mod Pending
pub mod Verdicts
pub mod Update
pub mod Ranges
pub mod History
