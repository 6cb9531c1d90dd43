-- ===== src/TonSubscriber.antt =====
-- src/engine/ton_subscriber/mod.rs: the blocks of the TON chain. A masterchain block wakes those that
-- wait for the current shards; a block of a shard goes to the subscribed accounts of the shard.
pub mod Subscriptions
pub mod Blocks
pub mod Accounts
pub mod Calls
pub mod Entries
pub mod Delivery
pub mod History
pub mod Masterchain
pub mod Process
pub mod Waiting
pub mod Views
pub mod Answers
pub mod Contracts
pub mod Observers
mod Examples
