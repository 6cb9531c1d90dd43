-- ===== src/Bridge/Configurations/Methods.antt =====
-- src/engine/bridge/mod.rs: the methods that add, change and drop configurations.
use ton_eth_bridge_relay.Base.{
  ℕ, ◌+◌, ◌-◌, ◌%◌, Bool, true, false, not, ◌&&◌, Option, none, some, List, [], ◌∷◌, Map, get,
  insert, adjust, retain, contains_key, length, any, ltb, leb, if◌then◌else◌, u64_mod, inc, nat_eq,
  ok, err,
}
use ton_eth_bridge_relay.Errors.{
  Fallible, unknown_chain_id, unknown_connector, unknown_configuration, invalid_event_configuration,
  event_configuration_already_exists,
}
use ton_eth_bridge_relay.Shards.{UInt256}
use ton_eth_bridge_relay.Contracts.{
  Cell, EventType, eth, ton, ConnectorDetails, ConnectorDeployedEvent, TonEventConfigurationDetails,
}
use ton_eth_bridge_relay.Contracts.Views.{ConfigurationContract}
use ton_eth_bridge_relay.Bridge.Handlers.{Task, check_connector}
use ton_eth_bridge_relay.Bridge.Configurations.Monad.{
  Services, EthEventConfigurationState, TonEventConfigurationState, connectors_tx,
  eth_event_configurations_tx, ton_event_configurations_tx, BridgeState, EthSubscription, Bridge, M,
  bind_result, ◌>>=◌, ◌>>◌, lift, ensure, done, modify, subscribe_transactions,
}

-- `(1..current_timestamp).contains(&end_timestamp)`.
unfoldable pub is_expired : TonEventConfigurationDetails → ℕ → Bool
is_expired details current_timestamp =
    leb 1 details.network_configuration.end_timestamp
    && ltb details.network_configuration.end_timestamp current_timestamp

abbrev pub same_type : EventType → EventType → Bool
same_type eth eth = true
same_type ton ton = true
same_type _ _ = false

unfoldable pub add_event_code_hash :
    Map UInt256 EventType → Cell → EventType → Fallible (Map UInt256 EventType)
add_event_code_hash hashes code event_type = elim (get hashes code) [
  | none ↦ ok (insert hashes code event_type)
  | some known ↦ if same_type known event_type then ok hashes else err invalid_event_configuration
]

abbrev pub set_code_hashes : Map UInt256 EventType → Bridge → Bridge
set_code_hashes hashes b = record b { state = record b.state { event_code_hashes = hashes } }

-- `add_event_code_hash(&mut state.event_code_hashes, …)?`.
unfoldable pub register_code : Cell → EventType → M (Unit {0})
unfolding add_event_code_hash
register_code code event_type b =
    bind_result (b, add_event_code_hash b.event_code_hashes code event_type)
      (λ hashes. modify (set_code_hashes hashes))

abbrev pub put_eth : UInt256 → EthEventConfigurationState → Bridge → Bridge
put_eth account c b = record b {
  state = record b.state { eth_event_configurations = insert b.eth_event_configurations account c };
  total_active_eth_event_configurations = inc b.total_active_eth_event_configurations;
}

abbrev pub put_ton : UInt256 → TonEventConfigurationState → Bridge → Bridge
put_ton account c b = record b {
  state = record b.state { ton_event_configurations = insert b.ton_event_configurations account c };
  total_active_ton_event_configurations = inc b.total_active_ton_event_configurations;
}

-- The two `match state.….entry(*account)`: an occupied entry is an error.
unfoldable pub enter_eth : UInt256 → EthEventConfigurationState → M (Unit {0})
enter_eth account c b = elim (get b.eth_event_configurations account) [
  | none ↦ (put_eth account c b, ok tt)
  | some _ ↦ (b, err event_configuration_already_exists)
]

unfoldable pub enter_ton : UInt256 → TonEventConfigurationState → M (Unit {0})
enter_ton account c b = elim (get b.ton_event_configurations account) [
  | none ↦ (put_ton account c b, ok tt)
  | some _ ↦ (b, err event_configuration_already_exists)
]

abbrev pub subscribe_eth : EthSubscription → Bridge → Bridge
subscribe_eth s b = record b { eth_subscriptions = s ∷ b.eth_subscriptions }

unfoldable pub add_eth_event_configuration :
    Services → UInt256 → ConfigurationContract → M (Unit {0})
unfolding register_code enter_eth
add_eth_event_configuration services account contract = do
  details ← lift contract.eth_details
  event_abi ← lift (services.parse_eth_abi details.basic_configuration.event_abi)
  ensure (services.has_subscriber details.network_configuration.chain_id) unknown_chain_id
  register_code details.basic_configuration.event_code eth
  enter_eth account (record { details = details; event_abi = event_abi })
  modify (
      subscribe_eth (record {
        chain_id = details.network_configuration.chain_id;
        address = details.network_configuration.event_emitter;
        topic_hash = event_abi.topic_hash;
        configuration_account = account;
      }))
  modify (subscribe_transactions account eth_event_configurations_tx)

-- `current_timestamp` is the time of the last masterchain block.
unfoldable pub add_ton_event_configuration :
    Services → ℕ → UInt256 → ConfigurationContract → M (Unit {0})
unfolding register_code enter_ton is_expired
add_ton_event_configuration services current_timestamp account contract = do
  details ← lift contract.ton_details
  if is_expired details current_timestamp then done else (do
    event_abi ← lift (services.parse_ton_abi details.basic_configuration.event_abi)
    register_code details.basic_configuration.event_code ton
    enter_ton account (record { details = details; event_abi = event_abi })
    modify (subscribe_transactions account ton_event_configurations_tx))

abbrev pub add_by_type : EventType → Services → ℕ → UInt256 → ConfigurationContract → M (Unit {0})
add_by_type eth services current_timestamp account contract =
    add_eth_event_configuration services account contract
add_by_type ton services current_timestamp account contract =
    add_ton_event_configuration services current_timestamp account contract

-- `if !state.connectors.contains_key(connector_account)`.
abbrev pub check_known : UInt256 → M (Unit {0})
check_known connector b = ensure (contains_key b.connectors connector) unknown_connector b

unfoldable pub process_event_configuration :
    Services → ℕ → UInt256 → UInt256 → ConfigurationContract → M (Unit {0})
unfolding add_eth_event_configuration add_ton_event_configuration
process_event_configuration services current_timestamp connector account contract = do
  event_type ← lift contract.get_type
  check_known connector
  add_by_type event_type services current_timestamp account contract

-- `check_connector_contract`, once the states of both contracts are there.
unfoldable pub check_connector_contract :
    Services → ℕ → UInt256 → Fallible ConnectorDetails → ConfigurationContract → M (Unit {0})
unfolding process_event_configuration
check_connector_contract services current_timestamp connector connector_details contract = do
  details ← lift connector_details
  if details.enabled
      then process_event_configuration services current_timestamp connector
          details.event_configuration contract
      else done

abbrev pub put_connector : UInt256 → Bridge → Bridge
put_connector connector b = subscribe_transactions connector connectors_tx (record b {
  state = record b.state { connectors = insert b.connectors connector connectors_tx };
})

-- A second deployment event of a connector is ignored.
unfoldable pub process_bridge_event : ConnectorDeployedEvent → Bridge → Bridge × List Task
process_bridge_event event b = elim (get b.connectors event.connector) [
  | none ↦ (put_connector event.connector b, check_connector event.connector ∷ [])
  | some _ ↦ (b, [])
]

abbrev pub with_end_block : ℕ → EthEventConfigurationState → EthEventConfigurationState
with_end_block end c = record c {
  details = record d { network_configuration = record n { end_block_number = end } };
}
  where
    open c use {details as d}
    open d use {network_configuration as n}

abbrev pub with_end_timestamp : ℕ → TonEventConfigurationState → TonEventConfigurationState
with_end_timestamp end c = record c {
  details = record d { network_configuration = record n { end_timestamp = end } };
}
  where
    open c use {details as d}
    open d use {network_configuration as n}

unfoldable pub set_end_block_number : UInt256 → ℕ → M (Unit {0})
set_end_block_number account end b = elim (get b.eth_event_configurations account) [
  | none ↦ (b, err unknown_configuration)
  | some _ ↦ (
    record b {
      state = record b.state {
        eth_event_configurations = adjust b.eth_event_configurations account (with_end_block end);
      };
    },
    ok tt,
  )
]

unfoldable pub set_end_timestamp : UInt256 → ℕ → M (Unit {0})
set_end_timestamp account end b = elim (get b.ton_event_configurations account) [
  | none ↦ (b, err unknown_configuration)
  | some _ ↦ (
    record b {
      state = record b.state {
        ton_event_configurations =
            adjust b.ton_event_configurations account (with_end_timestamp end);
      };
    },
    ok tt,
  )
]

unfoldable pub has_expired_ton_event_configurations : BridgeState → ℕ → Bool
unfolding is_expired
has_expired_ton_event_configurations s current_timestamp =
    any (λ x. is_expired x.1.details current_timestamp) s.ton_event_configurations

abbrev pub expired : ℕ → UInt256 → TonEventConfigurationState → Bool
expired current_utime account c = is_expired c.details current_utime

abbrev pub alive : ℕ → UInt256 → TonEventConfigurationState → Bool
alive current_utime account c = not (expired current_utime account c)

-- The removal at the end of a round of `start_ton_event_configurations_gc`: `retain`, whose closure
-- counts what it drops.
unfoldable pub collect_expired : ℕ → Bridge → Bridge
collect_expired current_utime b =
    let total_removed = length (retain (expired current_utime) b.ton_event_configurations) in
    record b {
      state = record b.state {
        ton_event_configurations = retain (alive current_utime) b.ton_event_configurations;
      };
      total_active_ton_event_configurations =
          (b.total_active_ton_event_configurations + u64_mod - total_removed % u64_mod) % u64_mod;
    }

-- One round: the test with the time of the last masterchain block, then, if it passes and all shards
-- have been waited for (`shards_utime` is then their time), the removal.
unfoldable pub gc_round : ℕ → Option ℕ → Bridge → Bridge
unfolding has_expired_ton_event_configurations collect_expired
gc_round current_utime shards_utime b =
    if has_expired_ton_event_configurations b.state current_utime
    then elim shards_utime [ none ↦ b | some utime ↦ collect_expired utime b ]
    else b
