-- ===== src/Staking/Parsers.antt =====
-- src/engine/staking/mod.rs: the events that the relay reads from the transactions of the staking
-- contract and of its user data (the implementations of `ReadFromTransaction`). Ids and decoders of
-- the events come from the contracts' ABIs.
use ton_eth_bridge_relay.Base.{ℕ, Option, none, some, ok, err, ◌==◌, if◌then◌else◌}
use ton_eth_bridge_relay.Errors.{Fallible}
use ton_eth_bridge_relay.Contracts.{
  Cell, RelayRoundInitializedEvent, RelayKeysUpdatedEvent, RelayMembershipRequestedEvent,
  DepositProcessedEvent, TonPubkeyConfirmedEvent, EthAddressConfirmedEvent,
}
use ton_eth_bridge_relay.Contracts.Views.{StakingContract}
use ton_eth_bridge_relay.Transactions.{TxContext, get_account_state}
use ton_eth_bridge_relay.Transactions.Events.{EventAbi, last_event}
use ton_eth_bridge_relay.Staking.Rounds.{RoundState, get_round_state}
use ton_eth_bridge_relay.Staking.Events.{
  StakingEvent, election_started, election_ended, relay_config_updated, relay_round_initialized,
  UserDataEvent, relay_keys_updated, ton_pubkey_confirmed, eth_address_confirmed,
  relay_membership_requested, deposit_processed,
}

-- The events whose contents no handler reads decode to nothing.
pub record Abi : Type 0 where
  pub read_function_id : Cell → Fallible ℕ
  pub election_started_event : EventAbi (Unit {0})
  pub election_ended_event : EventAbi (Unit {0})
  pub relay_round_initialized_event : EventAbi RelayRoundInitializedEvent
  pub relay_config_updated_event : EventAbi (Unit {0})
  pub relay_keys_updated_event : EventAbi RelayKeysUpdatedEvent
  pub ton_pubkey_confirmed_event : EventAbi TonPubkeyConfirmedEvent
  pub eth_address_confirmed_event : EventAbi EthAddressConfirmedEvent
  pub relay_membership_requested_event : EventAbi RelayMembershipRequestedEvent
  pub deposit_processed_event : EventAbi DepositProcessedEvent

-- `parse_tokens!`.
abbrev parse_tokens {ℓ κ} : {A : Type ℓ} {B : Type κ} → EventAbi A → Cell → (A → B) → Option B
parse_tokens fun body matched = elim (fun.decode_input body) [
  | ok parsed ↦ some (matched parsed)
  | err e ↦ none
]

module _ (abi : Abi) where
  unfoldable pub decode_staking_event : ℕ → Cell → Option StakingEvent
  decode_staking_event id body =
      if id == abi.election_started_event.id
      then parse_tokens abi.election_started_event body (λ _. election_started)
      else (if id == abi.election_ended_event.id
          then parse_tokens abi.election_ended_event body (λ _. election_ended)
          else (if id == abi.relay_round_initialized_event.id
              then parse_tokens abi.relay_round_initialized_event body relay_round_initialized
              else (if id == abi.relay_config_updated_event.id
                  then parse_tokens abi.relay_config_updated_event body (λ _. relay_config_updated)
                  else none)))

  unfoldable pub read_staking_event : TxContext StakingContract → Option (RoundState × StakingEvent)
  unfolding last_event decode_staking_event get_account_state get_round_state
  read_staking_event ctx =
      elim (last_event abi.read_function_id decode_staking_event ctx.out_msgs) [
        | none ↦ none
        | some event ↦ elim (get_account_state ctx) [
          | err e ↦ none
          | ok contract ↦ elim (get_round_state contract) [
            | err e ↦ none
            | ok state ↦ some (state, event)
          ]
        ]
      ]

  unfoldable pub decode_user_data_event : ℕ → Cell → Option UserDataEvent
  decode_user_data_event id body =
      if id == abi.relay_keys_updated_event.id
      then parse_tokens abi.relay_keys_updated_event body relay_keys_updated
      else (if id == abi.ton_pubkey_confirmed_event.id
          then parse_tokens abi.ton_pubkey_confirmed_event body ton_pubkey_confirmed
          else (if id == abi.eth_address_confirmed_event.id
              then parse_tokens abi.eth_address_confirmed_event body eth_address_confirmed
              else (if id == abi.relay_membership_requested_event.id
                  then parse_tokens abi.relay_membership_requested_event body
                      relay_membership_requested
                  else (if id == abi.deposit_processed_event.id
                      then parse_tokens abi.deposit_processed_event body deposit_processed
                      else none))))

  unfoldable pub read_user_data_event {ℓ} :
      {Account : Type ℓ} → TxContext Account → Option UserDataEvent
  unfolding last_event decode_user_data_event
  read_user_data_event ctx = last_event abi.read_function_id decode_user_data_event ctx.out_msgs
