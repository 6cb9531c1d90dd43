-- ===== src/Bridge/Configurations/Startup.antt =====
-- src/engine/bridge/mod.rs, `get_all_configurations`: the connectors of the bridge contract and their
-- configurations, read from the shard states when the relay starts.
use ton_eth_bridge_relay.Base.{
  ℕ, zero, suc, ◌+◌, Option, none, some, ok, err, ok_or, if◌then◌else◌, nat_eq,
}
use ton_eth_bridge_relay.Errors.{Fallible, bridge_account_not_found}
use ton_eth_bridge_relay.Shards.{UInt256}
use ton_eth_bridge_relay.Contracts.{ConnectorDetails}
use ton_eth_bridge_relay.Contracts.Views.{ConfigurationContract}
use ton_eth_bridge_relay.Bridge.Configurations.Monad.{Services, M, ◌>>=◌, ◌>>◌, lift, done, modify}
use ton_eth_bridge_relay.Bridge.Configurations.Methods.{put_connector, process_event_configuration}

-- `BridgeContract`.
pub record BridgeContract : Type 0 where
  pub connector_counter : Fallible ℕ
  pub derive_connector_address : ℕ → Fallible UInt256

-- What `shard_accounts.find_account` returns for the three kinds of contract: a failure, no account,
-- or the account, with what its getters return.
pub record ShardAccounts : Type 0 where
  pub find_bridge : Fallible (Option BridgeContract)
  pub find_connector : UInt256 → Fallible (Option (Fallible ConnectorDetails))
  pub find_configuration : UInt256 → Fallible (Option ConfigurationContract)

-- An error is logged.
abbrev pub attempt : M (Unit {0}) → M (Unit {0})
attempt m b = ((m b).0, ok tt)

module _ (services : Services) (current_timestamp : ℕ) (accounts : ShardAccounts) where
  -- The end of the loop's body, for an enabled connector.
  unfoldable pub add_configuration : UInt256 → ConnectorDetails → M (Unit {0})
  add_configuration connector details = do
    contract ← lift (accounts.find_configuration details.event_configuration)
    elim contract [
      | none ↦ done
      | some c ↦ attempt (
          process_event_configuration services current_timestamp connector
            details.event_configuration c)
    ]

  -- The loop's body, from the details on.
  unfoldable pub add_connector : UInt256 → ConnectorDetails → M (Unit {0})
  unfolding add_configuration
  add_connector connector details = do
    modify (put_connector connector)
    if details.enabled then add_configuration connector details else done

  -- A connector that is not found, or whose details cannot be read, is passed over.
  unfoldable pub visit_connector : UInt256 → M (Unit {0})
  unfolding add_connector
  visit_connector connector = do
    found ← lift (accounts.find_connector connector)
    elim found [
      | none ↦ done
      | some (err e) ↦ done
      | some (ok details) ↦ add_connector connector details
    ]

  -- `for id in 0..connector_count`: `n` rounds are left.
  unfoldable pub visit_all : BridgeContract → ℕ → ℕ → M (Unit {0})
  unfolding visit_connector
  visit_all bridge zero id = done
  visit_all bridge (suc n) id = do
    connector ← lift (bridge.derive_connector_address id)
    visit_connector connector
    visit_all bridge n (id + 1)

  unfoldable pub get_all_configurations : M (Unit {0})
  unfolding visit_all
  get_all_configurations = do
    found ← lift accounts.find_bridge
    bridge ← lift (ok_or found bridge_account_not_found)
    connector_count ← lift bridge.connector_counter
    visit_all bridge connector_count 0
