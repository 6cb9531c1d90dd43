-- ===== src/TonSubscriber/Process.antt =====
-- src/engine/ton_subscriber/mod.rs: `ton_indexer::Subscriber for TonSubscriber`, and the calls that
-- change a subscriber.
use ton_eth_bridge_relay.Base.{ℕ, Bool, true, false, Option, List, [], ◌∷◌, if◌then◌else◌, ok, err}
use ton_eth_bridge_relay.Errors.{Fallible}
use ton_eth_bridge_relay.Shards.{UInt256}
use ton_eth_bridge_relay.Messages as Messages
use ton_eth_bridge_relay.Messages.{PendingMessageId}
use ton_eth_bridge_relay.TonSubscriber.Subscriptions.{ShardBlock}
use ton_eth_bridge_relay.TonSubscriber.Masterchain.{
  ShardId, MasterchainBlock, wait_shards, notify_awaiters,
}
use ton_eth_bridge_relay.TonSubscriber.Blocks.{
  TonSubscriber, add_transactions_subscription, start_waiting, stop_waiting, handle_shard_block,
}

-- A block with what is read from it: of the masterchain, with the time of its `BriefBlockMeta`, or of
-- a shard.
pub data Block : Type 0 where
  masterchain_block : ℕ → Fallible MasterchainBlock → Block
  shard_block : Fallible ShardBlock → Block

pub data EngineStatus : Type 0 where
  synced other_status : EngineStatus

unfoldable pub new : Messages.State → TonSubscriber
new queue = record {
  ready = false;
  current_utime = 0;
  state_subscriptions = [];
  awaiters = record { mc_block_awaiters = []; next_id = 0; next_channel = 0; told = [] };
  world = record { queue = queue; handled = [] };
}

pub record TonSubscriberMetrics : Type 0 where
  pub ready : Bool
  pub current_utime : ℕ
  pub pending_message_count : ℕ

unfoldable pub metrics : TonSubscriber → TonSubscriberMetrics
metrics t = record {
  ready = t.ready;
  current_utime = t.current_utime;
  pending_message_count = t.queue.entry_count;
}

unfoldable pub engine_status_changed : EngineStatus → TonSubscriber → TonSubscriber
engine_status_changed synced t = record t { ready = true }
engine_status_changed other_status t = t

module _ (with_prefix_slice : ℕ → ℕ → Fallible ShardId) where
  unfoldable pub handle_masterchain_block :
      ℕ → Fallible MasterchainBlock → TonSubscriber → TonSubscriber × Fallible (Unit {0})
  unfolding notify_awaiters
  handle_masterchain_block gen_utime read t =
      let stored = record t { current_utime = gen_utime } in
      if t.ready
      then elim read [
        | err e ↦ (stored, err e)
        | ok block ↦
            (record stored { awaiters = notify_awaiters with_prefix_slice block t.awaiters }, ok tt)
      ]
      else (stored, ok tt)

  -- `alive` tells which observers are held at the time of the block.
  unfoldable pub process_block :
      (ℕ → Bool) → Block → TonSubscriber → TonSubscriber × Fallible (Unit {0})
  unfolding handle_masterchain_block handle_shard_block
  process_block alive (masterchain_block gen_utime read) t =
      handle_masterchain_block gen_utime read t
  process_block alive (shard_block read) t = handle_shard_block alive t read

  -- What others do with a subscriber, the queue that it shares included.
  pub data Event : Type 0 where
    status_changed : EngineStatus → Event
    processed : (ℕ → Bool) → Block → Event
    waits_shards : Option ℕ → Event
    subscribes : List UInt256 → ℕ → Event
    starts_waiting stops_waiting : UInt256 → Event
    adds_message : PendingMessageId → ℕ → Event

  unfoldable pub step : TonSubscriber → Event → TonSubscriber
  unfolding engine_status_changed process_block wait_shards add_transactions_subscription
      start_waiting stop_waiting Messages.add_message
  step t (status_changed status) = engine_status_changed status t
  step t (processed alive block) = (process_block alive block t).0
  step t (waits_shards since) = record t { awaiters = (wait_shards since t.awaiters).0 }
  step t (subscribes accounts observer) = record t {
    state_subscriptions = add_transactions_subscription accounts observer t.state_subscriptions;
  }
  step t (starts_waiting account) = record t {
    state_subscriptions = (start_waiting account t.state_subscriptions).0;
  }
  step t (stops_waiting account) = record t {
    state_subscriptions = stop_waiting account t.state_subscriptions;
  }
  step t (adds_message id expire_at) = record t {
    world = record t.world { queue = (Messages.add_message t.queue id expire_at).0 };
  }

  unfoldable pub run : TonSubscriber → List Event → TonSubscriber
  unfolding step
  run t [] = t
  run t (e ∷ es) = run (step t e) es
