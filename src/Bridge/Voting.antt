-- ===== src/Bridge/Voting.antt =====
-- src/engine/bridge/mod.rs, `update_eth_event` and `update_ton_event`: a background task that votes
-- for one event. At each `await` other tasks change the pending events: the environment gives what
-- they do, and what is awaited.
pub mod Soundness
pub mod Signing
use ton_eth_bridge_relay.Base.{
  ℕ, Bool, true, false, Option, none, some, List, Map, get, contains_key, nat_eq, Result, ok, err,
  if◌then◌else◌,
}
use ton_eth_bridge_relay.Errors.{Error, Fallible}
use ton_eth_bridge_relay.Shards.{UInt256}
use ton_eth_bridge_relay.Contracts.{
  EthAddress, EthEventVoteData, EthEventInitData, TonEventInitData, eth, ton,
}
use ton_eth_bridge_relay.Contracts.Views.{EventContract}
use ton_eth_bridge_relay.EthSubscriber.Models.{VerificationStatus, exists, not_exists}
use ton_eth_bridge_relay.Bridge.Action.{EventAction, nop, vote, process}
use ton_eth_bridge_relay.Bridge.Events.{EventsState, remove_event, start_processing}
use ton_eth_bridge_relay.Bridge.Handlers.{require_all_signatures}
use ton_eth_bridge_relay.Bridge.Configurations.Monad.{
  EthEventAbi, EthEventConfigurationState, TonEventConfigurationState,
}

-- `UnsignedMessage`, by the contract's method.
pub data Message : Type 0 where
  confirm_eth reject_eth reject_ton : UInt256 → Message
  -- With the signature of the event's data.
  confirm_ton : UInt256 → List ℕ → Message

pub data Outcome : Type 0 where
  finished : Outcome
  failed : Error → Outcome
  -- The message is handed to `deliver_message`.
  delivers : Message → Outcome

-- What the task meets until it knows that it may vote.
pub record Arrival : Type 0 where
  pub others_before_contract : EventsState → EventsState
  pub contract : Fallible EventContract

pub record EthEnvironment : Type 0 where
  pub arrival : Arrival
  pub open arrival use *
  pub configurations : Map UInt256 EthEventConfigurationState
  pub has_subscriber : ℕ → Bool
  -- `verify` of the subscriber with the chain id: vote data, emitter, ABI, blocks to confirm.
  pub verify : ℕ → EthEventVoteData → EthAddress → EthEventAbi → ℕ → Fallible VerificationStatus
  pub others_before_status : EventsState → EventsState

-- The message is delivered only for an event that is still pending.
abbrev deliver_pending : EventsState → UInt256 → Message → EventsState × Outcome
deliver_pending s account message = elim (get s.pending account) [
  | some _ ↦ (s, delivers message)
  | none ↦ (s, finished)
]

abbrev pub eth_message : VerificationStatus → UInt256 → Message
eth_message exists account = confirm_eth account
eth_message not_exists account = reject_eth account

-- From the answer of `verify` on.
unfoldable pub eth_answer :
    EventsState → UInt256 → Fallible VerificationStatus → EventsState × Outcome
eth_answer s account (ok status) = deliver_pending s account (eth_message status account)
eth_answer s account (err e) = (remove_event s account, finished)

-- The configuration and the subscriber of the event.
unfoldable pub eth_verify :
    EthEnvironment → EventsState → UInt256 → EthEventInitData → EventsState × Outcome
unfolding eth_answer
eth_verify env s account d = elim (get env.configurations d.configuration) [
  | none ↦ (remove_event s account, finished)
  | some c ↦
      (let n = c.details.network_configuration in
        if env.has_subscriber n.chain_id
        then eth_answer (env.others_before_status s) account (
            env.verify n.chain_id d.vote_data n.event_emitter c.event_abi n.event_blocks_to_confirm)
        else (remove_event s account, finished))
]

unfoldable pub eth_vote :
    EthEnvironment → EventsState → UInt256 → EventContract → EventsState × Outcome
unfolding eth_verify
eth_vote env s account contract = elim contract.eth_event_init_data [
  | err e ↦ (s, failed e)
  | ok d ↦ eth_verify env s account d
]

-- `match EventBaseContract(&contract).process(…)?`, with the vote as `k`.
unfoldable pub by_action :
    Fallible EventAction → EventsState → UInt256 → EventsState × Outcome → EventsState × Outcome
by_action (err e) s account k = (s, failed e)
by_action (ok nop) s account k = (s, finished)
by_action (ok EventAction.remove) s account k = (remove_event s account, finished)
by_action (ok vote) s account k = k

unfoldable pub eth_contract :
    EthEnvironment
    → EventsState
    → UInt256
    → UInt256
    → Fallible EventContract
    → EventsState × Outcome
unfolding by_action eth_vote
eth_contract env s our_public_key account (err e) = (s, failed e)
eth_contract env s our_public_key account (ok contract) =
    by_action (process contract.base our_public_key false) s account
      (eth_vote env s account contract)

unfoldable pub update_eth_event :
    EthEnvironment → EventsState → UInt256 → UInt256 → EventsState × Outcome
unfolding eth_contract
update_eth_event env s our_public_key account =
    let (s', first) = start_processing s account in
    if first
    then eth_contract env (env.others_before_contract s') our_public_key account env.contract
    else (s', finished)

pub record TonEnvironment : Type 0 where
  pub arrival : Arrival
  pub open arrival use *
  pub configurations : Map UInt256 TonEventConfigurationState
  -- `make_mapped_ton_event`, a library function: lt, timestamp, event data, configuration, event
  -- account, proxy, round.
  pub make_mapped_ton_event : ℕ → ℕ → List ℕ → UInt256 → UInt256 → EthAddress → ℕ → List ℕ
  -- `keystore.eth.sign`.
  pub sign : List ℕ → List ℕ

abbrev pub ton_message : (List ℕ → List ℕ) → UInt256 → Fallible (List ℕ) → Message
ton_message sign account (ok event) = confirm_ton account (sign event)
ton_message sign account (err e) = reject_ton account

-- The bytes to sign: the event data of the contract, decoded by the configuration's ABI.
unfoldable pub ton_event :
    TonEnvironment → UInt256 → ℕ → TonEventInitData → TonEventConfigurationState → Fallible (List ℕ)
ton_event env account round_number d c = elim (c.event_abi.decode_and_map d.vote_data.event_data) [
  | err e ↦ err e
  | ok bytes ↦ ok (
      env.make_mapped_ton_event d.vote_data.event_transaction_lt d.vote_data.event_timestamp bytes
        d.configuration account c.details.network_configuration.proxy round_number)
]

unfoldable pub ton_decode :
    TonEnvironment → EventsState → UInt256 → ℕ → TonEventInitData → EventsState × Outcome
unfolding ton_event
ton_decode env s account round_number d = elim (get env.configurations d.configuration) [
  | none ↦ (remove_event s account, finished)
  | some c ↦
      deliver_pending s account
        (ton_message env.sign account (ton_event env account round_number d c))
]

unfoldable pub ton_vote :
    TonEnvironment → EventsState → UInt256 → EventContract → EventsState × Outcome
unfolding ton_decode
ton_vote env s account contract = elim contract.base.round_number [
  | err e ↦ (s, failed e)
  | ok round_number ↦ elim contract.ton_event_init_data [
    | err e ↦ (s, failed e)
    | ok d ↦ ton_decode env s account round_number d
  ]
]

unfoldable pub ton_contract :
    TonEnvironment
    → EventsState
    → UInt256
    → UInt256
    → Fallible EventContract
    → EventsState × Outcome
unfolding by_action ton_vote
ton_contract env s our_public_key account (err e) = (s, failed e)
ton_contract env s our_public_key account (ok contract) =
    by_action (process contract.base our_public_key true) s account
      (ton_vote env s account contract)

unfoldable pub update_ton_event :
    TonEnvironment → EventsState → UInt256 → UInt256 → EventsState × Outcome
unfolding ton_contract
update_ton_event env s our_public_key account =
    let (s', first) = start_processing s account in
    if first
    then ton_contract env (env.others_before_contract s') our_public_key account env.contract
    else (s', finished)
