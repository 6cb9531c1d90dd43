-- ===== src/Bridge/Configurations/Monad.antt =====
-- src/engine/bridge/mod.rs, `BridgeState` and the fields of `Bridge` that its methods change, and the
-- monad of a method: the new state and `Result`.
use Prim.Native.String.{String}
use ton_eth_bridge_relay.Base.{ℕ, Bool, true, false, List, ◌∷◌, Map, ok, err}
use ton_eth_bridge_relay.Errors.{Error, Fallible}
use ton_eth_bridge_relay.Shards.{UInt256}
use ton_eth_bridge_relay.Contracts.{
  Cell, EthAddress, EventType, EthEventConfigurationDetails, TonEventConfigurationDetails,
}

-- `eth_ton_abi_converter::EthEventAbi`, a library type: its topic and its decoder.
pub record EthEventAbi : Type 0 where
  pub topic_hash : UInt256
  pub decode_and_map : List ℕ → Fallible Cell

-- The parsed `eventData` ABI of a TON configuration: the library decodes a cell by it
-- (`TokenValue::decode_params`) and maps the tokens (`map_ton_tokens_to_eth_bytes`).
pub record TonEventAbi : Type 0 where
  pub decode_and_map : Cell → Fallible (List ℕ)

-- What the bridge takes from libraries and from the registry of EVM subscribers.
pub record Services : Type 0 where
  pub parse_eth_abi : String → Fallible EthEventAbi
  pub parse_ton_abi : String → Fallible TonEventAbi
  pub has_subscriber : ℕ → Bool

pub record EthEventConfigurationState : Type 0 where
  pub details : EthEventConfigurationDetails
  pub event_abi : EthEventAbi

pub record TonEventConfigurationState : Type 0 where
  pub details : TonEventConfigurationDetails
  pub event_abi : TonEventAbi

-- The channel that an account observer sends to.
pub data Observer : Type 0 where
  connectors_tx eth_event_configurations_tx ton_event_configurations_tx : Observer

pub record BridgeState : Type 0 where
  pub connectors : Map UInt256 Observer
  pub eth_event_configurations : Map UInt256 EthEventConfigurationState
  pub ton_event_configurations : Map UInt256 TonEventConfigurationState
  pub event_code_hashes : Map UInt256 EventType

-- A call of `eth_subscriber.subscribe`: chain id, contract, topic, configuration.
pub record EthSubscription : Type 0 where
  pub chain_id : ℕ
  pub address : EthAddress
  pub topic_hash : UInt256
  pub configuration_account : UInt256

pub record Bridge : Type 0 where
  pub state : BridgeState
  pub open state use *
  pub total_active_eth_event_configurations : ℕ
  pub total_active_ton_event_configurations : ℕ
  pub eth_subscriptions : List EthSubscription
  pub transactions_subscriptions : List (UInt256 × Observer)

abbrev pub M : Type 0 → Type 0
M A = Bridge → Bridge × Fallible A

abbrev pub bind_result : {A B : Type 0} → Bridge × Fallible A → (A → M B) → Bridge × Fallible B
bind_result (b, ok a) f = f a b
bind_result (b, err e) f = (b, err e)

infixl 5 ◌>>=◌ ◌>>◌
abbrev pub ◌>>=◌ : {A B : Type 0} → M A → (A → M B) → M B
◌>>=◌ m f b = bind_result (m b) f

abbrev pub ◌>>◌ : {B : Type 0} → M (Unit {0}) → M B → M B
m >> k = m >>= λ _. k

-- `result?`.
abbrev pub lift : {A : Type 0} → Fallible A → M A
lift r b = (b, r)

-- `return Err(e)` unless the test holds.
abbrev pub ensure : Bool → Error → M (Unit {0})
ensure true e b = (b, ok tt)
ensure false e b = (b, err e)

abbrev pub done : M (Unit {0})
done b = (b, ok tt)

abbrev pub modify : (Bridge → Bridge) → M (Unit {0})
modify f b = (f b, ok tt)

-- `add_transactions_subscription([account], &observer)`.
abbrev pub subscribe_transactions : UInt256 → Observer → Bridge → Bridge
subscribe_transactions account observer b = record b {
  transactions_subscriptions = (account, observer) ∷ b.transactions_subscriptions;
}
