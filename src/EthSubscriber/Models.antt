-- ===== src/EthSubscriber/Models.antt =====
-- src/engine/eth_subscriber/models.rs: the events that are read from the logs of an EVM chain. `Log`
-- is a type of the `web3` crate; `topics` and `data` are its lists, and its numbers are taken to fit
-- the types that `as_u32` and `as_u64` read them into.
use ton_eth_bridge_relay.Base.{
  ℕ, Bool, true, false, Option, none, some, List, [], ◌∷◌, ok, err, ok_or, ◌>>=◌,
}
use ton_eth_bridge_relay.Errors.{Fallible, not_found}
use ton_eth_bridge_relay.Shards.{UInt256}
use ton_eth_bridge_relay.Contracts.{EthAddress}

pub record Log : Type 0 where
  pub address : EthAddress
  pub topics : List UInt256
  pub log_data : List ℕ
  pub block_hash : Option UInt256
  pub block_number : Option ℕ
  pub transaction_hash : Option UInt256
  pub log_index : Option ℕ
  pub removed : Option Bool

pub record RemovedEthEvent : Type 0 where
  pub address : EthAddress
  pub transaction_hash : UInt256
  pub event_index : ℕ

pub record ReceivedEthEvent : Type 0 where
  pub address : EthAddress
  pub topic_hash : UInt256
  pub transaction_hash : UInt256
  pub event_index : ℕ
  pub block_number : ℕ
  pub block_hash : UInt256
  pub event_data : List ℕ

pub data ParsedEthEvent : Type 0 where
  removed : RemovedEthEvent → ParsedEthEvent
  received : ReceivedEthEvent → ParsedEthEvent

-- A transaction and the index of a log.
pub record EventId : Type 0 where
  pub transaction : UInt256
  pub index : ℕ

unfoldable pub event_id : ParsedEthEvent → EventId
event_id (removed e) = record { transaction = e.transaction_hash; index = e.event_index }
event_id (received e) = record { transaction = e.transaction_hash; index = e.event_index }

unfoldable pub transaction_hash : ParsedEthEvent → UInt256
transaction_hash (removed e) = e.transaction_hash
transaction_hash (received e) = e.transaction_hash

unfoldable pub event_index : ParsedEthEvent → ℕ
event_index (removed e) = e.event_index
event_index (received e) = e.event_index

abbrev first : List UInt256 → Option UInt256
first [] = none
first (t ∷ ts) = some t

abbrev is_removed : Option Bool → Bool
is_removed (some true) = true
is_removed _ = false

parse_received : Log → UInt256 → ℕ → Fallible ParsedEthEvent
parse_received log hash index = do
  topic_hash ← ok_or (first log.topics) not_found
  block_number ← ok_or log.block_number not_found
  block_hash ← ok_or log.block_hash not_found
  ok (
      received (record {
        address = log.address;
        topic_hash = topic_hash;
        transaction_hash = hash;
        event_index = index;
        block_number = block_number;
        block_hash = block_hash;
        event_data = log.log_data;
      }))

-- `TryFrom<Log>`.
unfoldable pub try_from : Log → Fallible ParsedEthEvent
unfolding parse_received
try_from log = do
  hash ← ok_or log.transaction_hash not_found
  index ← ok_or log.log_index not_found
  elim (is_removed log.removed) [
    | true ↦
        ok
          (removed (record { address = log.address; transaction_hash = hash; event_index = index }))
    | false ↦ parse_received log hash index
  ]

-- `parse_transaction_logs`: a log that is no event is skipped.
unfoldable pub parse_transaction_logs : List Log → List ParsedEthEvent
unfolding try_from
parse_transaction_logs [] = []
parse_transaction_logs (log ∷ logs) =
    let rest = parse_transaction_logs logs in elim (try_from log) [ ok e ↦ e ∷ rest | err _ ↦ rest ]

pub data VerificationStatus : Type 0 where
  exists not_exists : VerificationStatus
