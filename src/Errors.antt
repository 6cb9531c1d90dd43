-- ===== src/Errors.antt =====
-- `anyhow::Error` as the relay uses it: the errors that its own files declare, and `external` for
-- what a library call returns. The messages and the context lines of an error are left out.
use ton_eth_bridge_relay.Base.{Result}

pub data Error : Type 0 where
  external : Error
  -- src/engine/bridge/mod.rs, BridgeError; `bridge_account_not_found` is an EngineError too
  unknown_chain_id unknown_connector unknown_configuration bridge_account_not_found
        invalid_event_configuration event_configuration_already_exists :
      Error
  -- src/engine/ton_subscriber/mod.rs, TonSubscriberError
  account_is_frozen : Error
  -- src/engine/mod.rs, EngineError
  external_ton_message_expected : Error
  -- src/engine/staking/mod.rs, StakingError
  required_eth_network_not_found user_data_eth_address_mismatch user_data_ton_public_key_mismatch :
      Error
  -- src/utils/shard_utils.rs, ShardUtilsError
  invalid_contract_address : Error
  -- src/utils/pending_messages_queue.rs, PendingMessagesQueueError
  already_exists : Error
  -- A `context(…)` on a missing value.
  not_found : Error

abbrev pub Fallible {ℓ} : Type ℓ → Type ℓ
Fallible A = Result Error A
