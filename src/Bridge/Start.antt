-- ===== src/Bridge/Start.antt =====
-- src/engine/bridge/mod.rs, `Bridge::new`: the configurations are loaded, then all events that belong
-- to them are searched; and the bridge's metrics.
use ton_eth_bridge_relay.Base.{ℕ, Bool, true, false, List, [], ◌∷◌, Map, ok, err}
use ton_eth_bridge_relay.Errors.{Fallible}
use ton_eth_bridge_relay.Shards.{UInt256}
use ton_eth_bridge_relay.Contracts.{eth, ton}
use ton_eth_bridge_relay.Bridge.Configurations.Monad.{BridgeState, Bridge, M}
use ton_eth_bridge_relay.Bridge.Events as Events
use ton_eth_bridge_relay.Bridge.Scan.{Reader, ShardAccount, Known, Pending, get_all_events}

-- The keys of a map.
abbrev keys {ℓ} : {V : Type ℓ} → Map UInt256 V → List UInt256
keys [] = []
keys ((k, v) ∷ m) = k ∷ keys m

unfoldable pub unique_eth_event_configurations : BridgeState → List UInt256
unique_eth_event_configurations state = keys state.eth_event_configurations

unfoldable pub unique_ton_event_configurations : BridgeState → List UInt256
unique_ton_event_configurations state = keys state.ton_event_configurations

-- The context of the search: the configurations that are known when it starts.
unfoldable pub search_context : UInt256 → BridgeState → Known
unfolding unique_eth_event_configurations unique_ton_event_configurations
search_context our_public_key state = record {
  our_public_key = our_public_key;
  event_code_hashes = state.event_code_hashes;
  configurations = λ kind. elim kind [
    | eth ↦ unique_eth_event_configurations state
    | ton ↦ unique_ton_event_configurations state
  ];
}

pub record Started : Type 0 where
  pub bridge : Bridge
  pub pending : Pending
  pub collects_garbage : Bool

pub record BridgeMetrics : Type 0 where
  pub pending_eth_event_count : ℕ
  pub pending_ton_event_count : ℕ
  pub total_active_eth_event_configurations : ℕ
  pub total_active_ton_event_configurations : ℕ

unfoldable pub metrics : Started → BridgeMetrics
metrics s = record {
  pending_eth_event_count = s.pending.eth_events.count;
  pending_ton_event_count = s.pending.ton_events.count;
  total_active_eth_event_configurations = s.bridge.total_active_eth_event_configurations;
  total_active_ton_event_configurations = s.bridge.total_active_ton_event_configurations;
}

abbrev pub no_events : Pending
no_events = record { eth_events = Events.new; ton_events = Events.new; tasks = [] }

-- The results of the two calls of `new`, nothing else being handled in between.
unfoldable pub after_search : Bridge → Pending × Fallible (Unit {0}) → Started × Fallible (Unit {0})
after_search b (pending, err e) =
    (record { bridge = b; pending = pending; collects_garbage = false }, err e)
after_search b (pending, ok _) =
    (record { bridge = b; pending = pending; collects_garbage = true }, ok tt)

module _ {ℓ} {Slice : Type ℓ} (reader : Reader Slice) where
  unfoldable pub after_configurations :
      UInt256
      → Fallible (List (List (UInt256 × ShardAccount Slice)))
      → Bridge × Fallible (Unit {0})
      → Started × Fallible (Unit {0})
  unfolding after_search get_all_events search_context
  after_configurations our_public_key shards (b, err e) =
      (record { bridge = b; pending = no_events; collects_garbage = false }, err e)
  after_configurations our_public_key shards (b, ok _) =
      after_search b
        (get_all_events reader (search_context our_public_key b.state) shards no_events)

  -- `load` is `get_all_configurations` with the contracts that it finds.
  unfoldable pub initialize :
      M (Unit {0})
      → UInt256
      → Fallible (List (List (UInt256 × ShardAccount Slice)))
      → Bridge
      → Started × Fallible (Unit {0})
  unfolding after_configurations
  initialize load our_public_key shards b = after_configurations our_public_key shards (load b)
