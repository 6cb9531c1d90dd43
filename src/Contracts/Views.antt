-- ===== src/Contracts/Views.antt =====
-- src/engine/ton_contracts/mod.rs: the getters of the contracts. Each runs a method of the contract
-- with the TON virtual machine, which is not part of the relay: the records hold what the getters
-- return at one state of the contract's account.
use ton_eth_bridge_relay.Base.{ℕ, Bool, List}
use ton_eth_bridge_relay.Errors.{Fallible}
use ton_eth_bridge_relay.Shards.{UInt256}
use ton_eth_bridge_relay.Contracts.{
  EventStatus, EventVote, EventType, EthEventInitData, TonEventInitData,
  EthEventConfigurationDetails, TonEventConfigurationDetails, RelayConfigDetails,
  RelayRoundsDetails, RelayRoundDetails,
}

-- `EventBaseContract`, and the balance of the account that it wraps.
pub record EventBaseContract : Type 0 where
  pub status : Fallible EventStatus
  pub round_number : Fallible ℕ
  pub get_voters : EventVote → Fallible (List UInt256)
  pub get_api_version : Fallible ℕ
  pub balance : ℕ

-- An event contract: the base, and the init data of the two kinds.
pub record EventContract : Type 0 where
  pub base : EventBaseContract
  pub eth_event_init_data : Fallible EthEventInitData
  pub ton_event_init_data : Fallible TonEventInitData

-- A configuration contract.
pub record ConfigurationContract : Type 0 where
  pub get_type : Fallible EventType
  pub eth_details : Fallible EthEventConfigurationDetails
  pub ton_details : Fallible TonEventConfigurationDetails

-- `StakingContract`, as far as the rounds are concerned.
pub record StakingContract : Type 0 where
  pub get_relay_config : Fallible RelayConfigDetails
  pub get_relay_rounds_details : Fallible RelayRoundsDetails
  pub get_election_address : ℕ → Fallible UInt256
  pub get_relay_round_address : ℕ → Fallible UInt256
  pub get_user_data_address : UInt256 → Fallible UInt256

pub record RelayRoundContract : Type 0 where
  pub get_details : Fallible RelayRoundDetails
  pub has_unclaimed_reward : UInt256 → Fallible Bool
  pub end_time : Fallible ℕ
