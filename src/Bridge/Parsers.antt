-- ===== src/Bridge/Parsers.antt =====
-- src/engine/bridge/mod.rs: the events that the bridge reads from transactions (the implementations of
-- `ReadFromTransaction`). The ids of functions and events and the decoding of bodies come from the
-- contracts' ABIs (`Abi`); `read_function_id` and `unpack_headers` are functions of the ABI libraries.
-- An address is known by its account hash.
pub mod Votes
mod Examples
use mathlib.Core.Option
use ton_eth_bridge_relay.Base.{
  ℕ, Bool, true, false, Option, none, some, List, [], ◌∷◌, Result, ok, err, ltb, ◌==◌,
  if◌then◌else◌,
}
use ton_eth_bridge_relay.Errors.{Fallible}
use ton_eth_bridge_relay.Shards.{UInt256}
use ton_eth_bridge_relay.Contracts.{Cell, EventStatus, ConnectorDeployedEvent}
use ton_eth_bridge_relay.Contracts.Views.{EventBaseContract}
use ton_eth_bridge_relay.Transactions.{
  Message, ext_in, int_msg, ext_out, TxContext, in_msg_internal, get_account_state, iterate_events,
}
use ton_eth_bridge_relay.Transactions.Events.{EventAbi, decode_event, last_event}
use ton_eth_bridge_relay.Bridge.Action.{min_event_balance}
use ton_eth_bridge_relay.Bridge.Handlers.{EthEvent, TonEvent}

pub data BridgeEvent : Type 0 where
  connector_deployed : ConnectorDeployedEvent → BridgeEvent

pub data ConnectorEvent : Type 0 where
  enable : ConnectorEvent

pub data TonEventConfigurationEvent : Type 0 where
  event_deployed set_end_timestamp : ℕ → TonEventConfigurationEvent

pub data EthEventConfigurationEvent : Type 0 where
  event_deployed set_end_block_number : ℕ → EthEventConfigurationEvent

-- `ton_abi::Function` with the unpacking of its tokens.
pub record FunctionAbi {ℓ} (A : Type ℓ) : Type ℓ where
  pub input_id : ℕ
  pub decode_input : Cell → Fallible A

pub record Abi : Type 0 where
  pub read_function_id : Cell → Fallible ℕ
  -- The public key of the headers, if there is one, and the rest of the body.
  pub unpack_headers : Cell → Fallible (Option UInt256 × Cell)
  pub connector_deployed_event : EventAbi ConnectorDeployedEvent
  pub enabled_id : ℕ
  pub new_event_contract : EventAbi UInt256
  pub ton_deploy_event : ℕ
  pub set_end_timestamp_function : FunctionAbi ℕ
  pub eth_deploy_event : ℕ
  pub set_end_block_number_function : FunctionAbi ℕ
  pub eth_confirm : ℕ
  pub eth_reject : ℕ
  pub ton_confirm : ℕ
  pub ton_reject : ℕ
  pub receive_round_relays_function : FunctionAbi (List UInt256)

-- `result.ok()`.
abbrev pub result_ok {ℓ} : {A : Type ℓ} → Fallible A → Option A
result_ok (ok a) = some a
result_ok (err e) = none

-- `option?` in a function that returns an option.
infixl 5 ◌>>=◌
abbrev pub ◌>>=◌ {ℓ κ} : {A : Type ℓ} {B : Type κ} → Option A → (A → Option B) → Option B
none >>= f = none
some a >>= f = f a

-- `impl ReadFromTransaction for (T, U)`.
abbrev pub read_both {ℓ κ μ} :
    {C : Type μ} {T : Type ℓ} {U : Type κ} → (C → Option T) → (C → Option U) → C → Option (T × U)
read_both first second ctx = do t ← first ctx; u ← second ctx; some (t, u)

module _ (abi : Abi) where
  unfoldable pub decode_bridge_event : ℕ → Cell → Option BridgeEvent
  decode_bridge_event id body =
      Option.map connector_deployed (decode_event abi.connector_deployed_event id body)

  unfoldable pub read_bridge_event : TxContext EventBaseContract → Option BridgeEvent
  unfolding last_event decode_bridge_event
  read_bridge_event ctx = last_event abi.read_function_id decode_bridge_event ctx.out_msgs

  unfoldable pub decode_connector_event : ℕ → Cell → Option ConnectorEvent
  decode_connector_event id body = if id == abi.enabled_id then some enable else none

  unfoldable pub read_connector_event : TxContext EventBaseContract → Option ConnectorEvent
  unfolding last_event decode_connector_event
  read_connector_event ctx = last_event abi.read_function_id decode_connector_event ctx.out_msgs

  unfoldable pub find_new_event_contract_address : TxContext EventBaseContract → Option UInt256
  unfolding last_event
  find_new_event_contract_address ctx =
      last_event abi.read_function_id (decode_event abi.new_event_contract) ctx.out_msgs

  -- The body of an internal message and its function id.
  abbrev pub internal_call : TxContext EventBaseContract → Option (ℕ × Cell)
  internal_call ctx = do
    message ← in_msg_internal ctx
    body ← message.body
    id ← result_ok (abi.read_function_id body)
    some (id, body)

  unfoldable pub read_ton_configuration_event :
      TxContext EventBaseContract → Option TonEventConfigurationEvent
  unfolding in_msg_internal find_new_event_contract_address
  read_ton_configuration_event ctx = do
    call ← internal_call ctx
    (if call.0 == abi.ton_deploy_event
        then Option.map TonEventConfigurationEvent.event_deployed
            (find_new_event_contract_address ctx)
        else (if call.0 == abi.set_end_timestamp_function.input_id
            then Option.map set_end_timestamp
                (result_ok (abi.set_end_timestamp_function.decode_input call.1))
            else none))

  unfoldable pub read_eth_configuration_event :
      TxContext EventBaseContract → Option EthEventConfigurationEvent
  unfolding in_msg_internal find_new_event_contract_address
  read_eth_configuration_event ctx = do
    call ← internal_call ctx
    (if call.0 == abi.eth_deploy_event
        then Option.map EthEventConfigurationEvent.event_deployed
            (find_new_event_contract_address ctx)
        else (if call.0 == abi.set_end_block_number_function.input_id
            then Option.map set_end_block_number
                (result_ok (abi.set_end_block_number_function.decode_input call.1))
            else none))

  unfoldable pub read_event_status : TxContext EventBaseContract → Option EventStatus
  unfolding get_account_state
  read_event_status ctx = do contract ← result_ok (get_account_state ctx); result_ok contract.status

  unfoldable pub read_external_in_msg : Cell → Option (UInt256 × Cell)
  read_external_in_msg body = elim (abi.unpack_headers body) [
    | ok (some public_key, rest) ↦ some (public_key, rest)
    | _ ↦ none
  ]

  -- A vote in the rest of an external message's body.
  unfoldable pub eth_vote : UInt256 → Cell → Option EthEvent
  eth_vote public_key body = elim (abi.read_function_id body) [
    | err e ↦ none
    | ok id ↦
        if id == abi.eth_confirm
        then some (EthEvent.confirm public_key)
        else (if id == abi.eth_reject then some (EthEvent.reject public_key) else none)
  ]

  unfoldable pub read_eth_event : TxContext EventBaseContract → Option EthEvent
  unfolding read_external_in_msg eth_vote
  read_eth_event ctx = elim ctx.in_msg.header [
    | ext_in ↦ do
      body ← ctx.in_msg.body
      signed ← read_external_in_msg body
      eth_vote signed.0 signed.1
    | int_msg ↦ do
      body ← ctx.in_msg.body
      id ← result_ok (abi.read_function_id body)
      (if id == abi.receive_round_relays_function.input_id
          then Option.map EthEvent.receive_round_relays
              (result_ok (abi.receive_round_relays_function.decode_input body))
          else none)
    | ext_out ↦ none
  ]

  unfoldable pub ton_vote : UInt256 → Cell → Option TonEvent
  ton_vote public_key body = elim (abi.read_function_id body) [
    | err e ↦ none
    | ok id ↦
        if id == abi.ton_confirm
        then some (TonEvent.confirm public_key)
        else (if id == abi.ton_reject then some (TonEvent.reject public_key) else none)
  ]

  -- The first part of the parser of TON events: none if it returns early, else the event that it has
  -- found so far.
  unfoldable pub ton_message_event : TxContext EventBaseContract → Option (Option TonEvent)
  unfolding read_external_in_msg ton_vote
  ton_message_event ctx = elim ctx.in_msg.header [
    | ext_in ↦ do
      body ← ctx.in_msg.body
      signed ← read_external_in_msg body
      some (ton_vote signed.0 signed.1)
    | int_msg ↦ do
      body ← ctx.in_msg.body
      elim (abi.read_function_id body) [
        | err e ↦ some none
        | ok id ↦
            if id == abi.receive_round_relays_function.input_id
            then Option.map (λ keys. some (TonEvent.receive_round_relays keys))
                (result_ok (abi.receive_round_relays_function.decode_input body))
            else some none
      ]
    | ext_out ↦ some none
  ]

  unfoldable pub close_if_poor : TxContext EventBaseContract → Option TonEvent
  unfolding get_account_state
  close_if_poor ctx = do
    contract ← result_ok (get_account_state ctx)
    if ltb contract.balance min_event_balance then some TonEvent.closed else none

  unfoldable pub read_ton_event : TxContext EventBaseContract → Option TonEvent
  unfolding ton_message_event close_if_poor
  read_ton_event ctx = do
    event ← ton_message_event ctx
    elim event [ none ↦ close_if_poor ctx | some e ↦ some e ]
