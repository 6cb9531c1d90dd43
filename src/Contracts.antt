-- ===== src/Contracts.antt =====
-- src/engine/ton_contracts/models.rs: the data that the relay reads from contracts. Addresses, keys
-- and hashes are numbers (`UInt256`, 20-byte addresses); a cell is known by its representation hash.
pub mod Views
use Prim.Native.String.{String}
use ton_eth_bridge_relay.Base.{ℕ, Bool, List}
use ton_eth_bridge_relay.Shards.{UInt256}

abbrev pub Cell : Type 0
Cell = UInt256

-- `[u8; 20]`.
abbrev pub EthAddress : Type 0
EthAddress = ℕ

pub record EthEventVoteData : Type 0 where
  pub event_transaction : UInt256
  pub event_index : ℕ
  pub event_data : Cell
  pub event_block_number : ℕ
  pub event_block : UInt256

pub record EthEventInitData : Type 0 where
  pub vote_data : EthEventVoteData
  pub configuration : UInt256
  pub staking : UInt256
  pub chain_id : ℕ

pub record TonEventVoteData : Type 0 where
  pub event_transaction_lt : ℕ
  pub event_timestamp : ℕ
  pub event_data : Cell

pub record TonEventInitData : Type 0 where
  pub vote_data : TonEventVoteData
  pub configuration : UInt256
  pub staking : UInt256

pub data EventStatus : Type 0 where
  initializing pending confirmed rejected : EventStatus

pub data EventVote : Type 0 where
  reserved empty confirm reject : EventVote

pub record BasicConfiguration : Type 0 where
  pub event_abi : String
  pub staking : UInt256
  pub event_initial_balance : ℕ
  pub event_code : Cell

pub record EthEventConfiguration : Type 0 where
  pub chain_id : ℕ
  pub event_emitter : EthAddress
  pub event_blocks_to_confirm : ℕ
  pub proxy : UInt256
  pub start_block_number : ℕ
  pub end_block_number : ℕ

pub record TonEventConfiguration : Type 0 where
  pub event_emitter : UInt256
  pub proxy : EthAddress
  pub start_timestamp : ℕ
  pub end_timestamp : ℕ

pub record EthEventConfigurationDetails : Type 0 where
  pub basic_configuration : BasicConfiguration
  pub network_configuration : EthEventConfiguration
  pub meta : Cell

pub record TonEventConfigurationDetails : Type 0 where
  pub basic_configuration : BasicConfiguration
  pub network_configuration : TonEventConfiguration
  pub meta : Cell

pub data EventType : Type 0 where
  eth ton : EventType

pub record ConnectorDetails : Type 0 where
  pub id : ℕ
  pub event_configuration : UInt256
  pub enabled : Bool

pub record ConnectorDeployedEvent : Type 0 where
  pub id : ℕ
  pub connector : UInt256
  pub event_configuration : UInt256

pub record RelayConfigDetails : Type 0 where
  pub relay_lock_time : ℕ
  pub relay_round_time : ℕ
  pub election_time : ℕ
  pub time_before_election : ℕ
  pub min_round_gap_time : ℕ
  pub relays_count : ℕ
  pub min_relay_count : ℕ
  pub min_relay_deposit : ℕ
  pub relay_initial_ton_deposit : ℕ
  pub relay_reward_per_second : ℕ
  pub user_reward_per_second : ℕ

pub record RelayRoundsDetails : Type 0 where
  pub current_relay_round : ℕ
  pub current_relay_round_start_time : ℕ
  pub current_relay_round_end_time : ℕ
  pub current_election_start_time : ℕ
  pub current_election_ended : Bool

pub record RelayRoundDetails : Type 0 where
  pub root : UInt256
  pub round_num : ℕ
  pub ton_keys : List UInt256
  pub eth_addrs : List EthAddress
  pub staker_addrs : List UInt256
  pub staked_tokens : List ℕ
  pub relays_installed : Bool
  pub code_version : ℕ

pub record RelayRoundInitializedEvent : Type 0 where
  pub round_num : ℕ
  pub round_start_time : ℕ
  pub round_end_time : ℕ
  pub round_addr : UInt256
  pub relays_count : ℕ
  pub duplicate : Bool

pub record RelayKeysUpdatedEvent : Type 0 where
  pub ton_pubkey : UInt256
  pub eth_address : EthAddress

pub record RelayMembershipRequestedEvent : Type 0 where
  pub round_num : ℕ
  pub tokens : ℕ
  pub ton_pubkey : UInt256
  pub eth_address : EthAddress
  pub lock_until : ℕ

pub record DepositProcessedEvent : Type 0 where
  pub tokens_deposited : ℕ
  pub new_balance : ℕ

pub record TonPubkeyConfirmedEvent : Type 0 where
  pub ton_pubkey : UInt256

pub record EthAddressConfirmedEvent : Type 0 where
  pub eth_addr : EthAddress

pub record UserDataRewardRound : Type 0 where
  pub reward_balance : ℕ
  pub reward_debt : ℕ

pub record UserDataDetails : Type 0 where
  pub token_balance : ℕ
  pub relay_lock_until : ℕ
  pub reward_rounds : List UserDataRewardRound
  pub relay_eth_address : EthAddress
  pub eth_address_confirmed : Bool
  pub relay_ton_pubkey : UInt256
  pub ton_pubkey_confirmed : Bool
  pub slashed : Bool
  pub root : UInt256
  pub user : UInt256
  pub dao_root : UInt256

pub record RewardRound : Type 0 where
  pub account_reward_per_share : UInt256
  pub reward_tokens : ℕ
  pub total_reward : ℕ
  pub start_time : ℕ

pub record StakingDetails : Type 0 where
  pub dao_root : UInt256
  pub bridge_event_config_eth_ton : UInt256
  pub bridge_event_config_ton_eth : UInt256
  pub token_root : UInt256
  pub token_wallet : UInt256
  pub admin : UInt256
  pub rescuer : UInt256
  pub rewarder : UInt256
  pub token_balance : ℕ
  pub reward_token_balance : ℕ
  pub last_reward_time : ℕ
  pub reward_rounds : List RewardRound
  pub emergency : Bool
