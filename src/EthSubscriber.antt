-- ===== src/EthSubscriber.antt =====
-- src/engine/eth_subscriber: the logs of an EVM chain, and the confirmations that wait for them.
pub mod Models
pub mod Topics
pub mod Confirmations
pub mod Registry
pub mod Verification
mod Examples
