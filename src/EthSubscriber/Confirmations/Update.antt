-- ===== src/EthSubscriber/Confirmations/Update.antt =====
-- src/engine/eth_subscriber/mod.rs, `EthSubscriber::new`, `verify`, `update` and `process_blocks`. The
-- subscriber's lock is held while the confirmations are changed; what the network and the other tasks
-- do while `update` waits is given by a `Network`.
use ton_eth_bridge_relay.Base.{
  ℕ, suc, ◌+◌, ◌%◌, Option, none, some, List, [], Map, get, insert, length, ok, err, ltb, leb,
  if◌then◌else◌, u64_mod, nat_eq,
}
use ton_eth_bridge_relay.Errors.{Error, Fallible}
use ton_eth_bridge_relay.Shards.{UInt256}
use ton_eth_bridge_relay.Contracts.{EthAddress, EthEventVoteData}
use ton_eth_bridge_relay.Bridge.Configurations.Monad.{EthEventAbi}
use ton_eth_bridge_relay.EthSubscriber.Models.{Log, ParsedEthEvent, EventId, parse_transaction_logs}
use ton_eth_bridge_relay.EthSubscriber.Topics.{TopicsMap, Filter, make_filter}
use ton_eth_bridge_relay.EthSubscriber.Topics as Topics
use ton_eth_bridge_relay.EthSubscriber.Confirmations.Pending.{
  id_eq, PendingConfirmation, in_process, Confirmations, Sent, mark_all, retain_loop,
  TransactionReceipt, find_event, answer_loop,
}

-- `told` lists what was sent on the channels, the newest first.
pub record EthSubscriber : Type 0 where
  pub chain_id : ℕ
  pub max_block_range : Option ℕ
  pub topics : TopicsMap
  pub last_processed_block : ℕ
  pub last_block_numbers : Map ℕ ℕ
  pub pending_confirmations : Confirmations
  pub pending_confirmation_count : ℕ
  pub next_channel : ℕ
  pub told : Sent

-- `EthSubscriber::new` at the current block of the chain; the other chains of the registry have
-- their numbers already.
unfoldable pub new : ℕ → Option ℕ → Map ℕ ℕ → ℕ → EthSubscriber
new chain_id max_block_range last_block_numbers current_block = record {
  chain_id = chain_id;
  max_block_range = max_block_range;
  topics = Topics.new;
  last_processed_block = current_block;
  last_block_numbers = insert last_block_numbers chain_id current_block;
  pending_confirmations = [];
  pending_confirmation_count = 0;
  next_channel = 0;
  told = [];
}

-- `verify` up to `rx.await`, and the channel that it waits on. An older confirmation of the same event
-- is dropped with its sender.
unfoldable pub verify :
    EthSubscriber → EthEventVoteData → EthAddress → EthEventAbi → ℕ → EthSubscriber × ℕ
verify s vote_data event_emitter event_abi blocks_to_confirm =
    let id : EventId = record {
      transaction = vote_data.event_transaction;
      index = vote_data.event_index;
    } in
    let confirmation : PendingConfirmation = record {
      vote_data = vote_data;
      status_tx = some s.next_channel;
      event_emitter = event_emitter;
      event_abi = event_abi;
      target_block = vote_data.event_block_number + blocks_to_confirm;
      status = in_process;
    } in
    let pending = insert s.pending_confirmations id confirmation in
    (
      record s {
        pending_confirmations = pending;
        pending_confirmation_count = length pending;
        next_channel = suc s.next_channel;
      },
      s.next_channel,
    )

-- `get_current_block_number` after the retries.
pub data Height : Type 0 where
  height : ℕ → Height
  incomplete_message : Height
  height_failed : Error → Height

-- `eth_getLogs` after the retries, within the time limit.
pub data Scan : Type 0 where
  logs : List Log → Scan
  scan_failed : Error → Scan
  timed_out : Scan

pub record Network : Type 0 where
  pub current_height : Height
  pub get_logs : Filter → Scan
  pub receipts : UInt256 → Fallible (Option TransactionReceipt)
  -- The order in which the look-ups of some events are answered.
  pub arrivals : List EventId → List EventId
  -- What other tasks do until `update` has the lock.
  pub others_before_lock : EthSubscriber → EthSubscriber

-- The last block to scan: at most `max_block_range` blocks.
unfoldable pub cap_range : Option ℕ → ℕ → ℕ → ℕ
cap_range none last_processed_block current_block = current_block
cap_range (some max_block_range) last_processed_block current_block =
    let limit = (last_processed_block + max_block_range) % u64_mod in
    if ltb limit current_block then limit else current_block

-- What `update` knows when it takes the lock, or how it ends before.
pub data Progress : Type 0 where
  stops : Fallible (Unit {0}) → Progress
  scanned : ℕ → List ParsedEthEvent → Progress

unfoldable pub after_scan : ℕ → Scan → Progress
after_scan current_block (logs ls) = scanned current_block (parse_transaction_logs ls)
after_scan current_block (scan_failed e) = stops (err e)
after_scan current_block timed_out = stops (ok tt)

-- `process_blocks`: without topics the network is not asked.
unfoldable pub process_blocks : Network → TopicsMap → ℕ → ℕ → Progress
unfolding after_scan make_filter
process_blocks net topics from to = elim (make_filter topics from to) [
  | none ↦ scanned to []
  | some filter ↦ after_scan to (net.get_logs filter)
]

unfoldable pub at_height : Network → EthSubscriber → ℕ → Progress
unfolding process_blocks cap_range
at_height net s current_block =
    if leb current_block s.last_processed_block
    then stops (ok tt)
    else process_blocks net s.topics s.last_processed_block
        (cap_range s.max_block_range s.last_processed_block current_block)

-- `update` up to the lock.
unfoldable pub scan : Network → EthSubscriber → Progress
unfolding at_height
scan net s = elim net.current_height [
  | height current_block ↦ at_height net s current_block
  | incomplete_message ↦ stops (ok tt)
  | height_failed e ↦ stops (err e)
]

-- The three passes under the lock.
unfoldable pub resolve :
    Network → ℕ → List ParsedEthEvent → Confirmations → Sent → Confirmations × Sent
unfolding mark_all retain_loop answer_loop find_event
resolve net current_block events pending told =
    let retained = retain_loop current_block (mark_all pending events) told in
    answer_loop (find_event net.receipts) (net.arrivals retained.events_to_check)
      (retained.kept, retained.sent)

-- "Update last processed block".
unfoldable pub store_block : ℕ → EthSubscriber → EthSubscriber
store_block current_block s = elim (get s.last_block_numbers s.chain_id) [
  | none ↦ s
  | some _ ↦ record s {
    last_block_numbers = insert s.last_block_numbers s.chain_id current_block;
    last_processed_block = current_block;
  }
]

-- `update` from the lock on.
unfoldable pub finish : Network → ℕ → List ParsedEthEvent → EthSubscriber → EthSubscriber
unfolding resolve store_block
finish net current_block events s =
    let (pending, told) = resolve net current_block events s.pending_confirmations s.told in
    store_block current_block (record s {
      pending_confirmations = pending;
      pending_confirmation_count = length pending;
      told = told;
    })

unfoldable pub proceed : Network → EthSubscriber → Progress → EthSubscriber × Fallible (Unit {0})
unfolding finish
proceed net s (stops r) = (net.others_before_lock s, r)
proceed net s (scanned current_block events) =
    (finish net current_block events (net.others_before_lock s), ok tt)

unfoldable pub update : Network → EthSubscriber → EthSubscriber × Fallible (Unit {0})
unfolding scan proceed
update net s = proceed net s (scan net s)
