-- ===== src/Lib.antt =====
-- The relay of the ETH-TON bridge: it watches the contracts of the bridge on TON and the logs of
-- the EVM chains, and votes for the events that it finds on both.
--
-- The parts, and the files that model them (paths are from the repository's root):
--
-- - Base and its modules have the shared lists, hash maps, results and tests; Errors has the errors
--   of the relay's own error enums. Contracts has the data of src/engine/ton_contracts/models.rs,
--   and Contracts.Views what the getters of src/engine/ton_contracts/mod.rs return at one state of
--   an account: a getter runs a contract's method with the TON virtual machine, so it is a
--   parameter.
-- - Messages models src/utils/pending_messages_queue.rs, the messages that wait for their
--   transaction; Shards has `account_prefix`, `contains_account` and `find_account` of
--   src/utils/shard_utils.rs. `add_message`, `deliver_message` and `update` are functions on the
--   queue's state; oneshot channels are numbered, and what is sent on them is listed.
-- - Engine models `send_ton_message` and `deliver_message` of src/engine/mod.rs, the retries of a
--   message; what the libraries answer to an attempt is a parameter (`Attempt`). Engine.Start
--   models the order in which the parts are started. Keystore models the messages of
--   src/engine/keystore/mod.rs with their headers and expiry.
-- - Transactions models src/utils/tx_context.rs, a transaction of a block and the iteration over
--   its events. TonSubscriber models src/engine/ton_subscriber/mod.rs: Subscriptions and Blocks the
--   subscribed accounts and the handling of a block of a shard, which delivers and expires the
--   messages of the queue, Masterchain the wait for the current shards, Process a subscriber with
--   all the calls that change it, Contracts the wait for the state of a contract, Observers the way
--   of a transaction to the service that handles it.
-- - EthSubscriber models src/engine/eth_subscriber: Models the events read from logs, Topics the
--   filter (`TopicsMap`), Confirmations the pending confirmations (`verify`, `update`,
--   `find_event`), Registry the subscribers by chain, Verification the transaction that confirms
--   the relay's address, over restarts. The answers of the network are a parameter of an update
--   (`Network`), and so is the order in which parallel look-ups are answered.
-- - Bridge models src/engine/bridge/mod.rs: Action the decision `EventBaseContract::process`,
--   Events the maps of pending events with their counters, Handlers the transactions of event
--   contracts, Configurations the connectors and event configurations, Voting the background tasks
--   that vote, Parsers the events that are read from transactions, Scan the search for events in
--   all accounts, Start the start of the bridge. Pending events are shared by tasks:
--   Events.Interleaving splits each method where its lock is released, and Voting takes what other
--   tasks do at each `await` as a parameter.
-- - Tristate models src/utils/tristate.rs. Staking models src/engine/staking/mod.rs: Rounds the
--   state of a relay round and the plan of the elections, Events the handlers of the staking and
--   user data contracts, Startup the initial state, Rewards the collection at the start, Parsers
--   the events that are read from transactions, Verification the confirmation of the relay's keys,
--   Tasks the messages that are sent, Requests the wait for the deposit and the request to become a
--   relay, Elections a round of the loop that manages the elections.
--
-- The bridge asks an EthSubscriber to verify an event and hands its vote to the engine, which sends
-- it through the pending messages; the staking reads contracts as the bridge does. There each
-- client takes the other's answer as a value. A TON subscriber holds the queue of the messages
-- itself, the search for events and the parsers lead to the bridge's own pending events, and the
-- confirmation of the keys runs the engine's delivery and the subscriber's verification.
--
-- Numbers: addresses, keys and hashes are natural numbers; counters of type usize wrap at 2^64,
-- times of type u32 at 2^32. A sum of u64 block numbers wraps too. Loops over a finite list or a
-- bounded range are structural recursion, so no fuel is needed; an endless loop is one of its
-- rounds, or a run over the list of what happens: a wait that such a list does not end has no
-- result yet. Timeouts and delays are the outcomes they lead to.
--
-- Not modelled: the construction of the engine from the configuration and its metrics (the rest of
-- src/engine/mod.rs), the key derivation and the signatures (src/engine/keystore), the metrics
-- exporter, the configuration files and the command line: they call libraries or the system.
pub mod Base
pub mod Errors
pub mod Shards
pub mod Tristate
pub mod Messages
pub mod Engine
pub mod Keystore
pub mod Contracts
pub mod Transactions
pub mod TonSubscriber
pub mod EthSubscriber
pub mod Bridge
pub mod Staking
