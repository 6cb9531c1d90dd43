-- ===== src/Bridge/Handlers.antt =====
-- src/engine/bridge/mod.rs: what the bridge does with a transaction of an event contract
-- (`process_eth_event`, `process_ton_event`), with a newly deployed one (`preprocess_event` and the
-- `EventDeployed` branch of the configurations' handlers) and with an enabled connector.
pub mod Removal
pub mod Deployment
use ton_eth_bridge_relay.Base.{
  ℕ, Bool, true, false, none, some, List, [], ◌∷◌, ok, err, get, contains, ◌==◌, if◌then◌else◌,
  nat_eq,
}
use ton_eth_bridge_relay.Errors.{Fallible}
use ton_eth_bridge_relay.Shards.{UInt256}
use ton_eth_bridge_relay.Contracts.{EventStatus, confirmed, rejected, EventType, eth, ton}
use ton_eth_bridge_relay.Contracts.Views.{EventBaseContract}
use ton_eth_bridge_relay.Bridge.Action.{EventAction, nop, vote, process}
use ton_eth_bridge_relay.Bridge.Events.{EventsState, remove_event, add_pending_event}

pub data EthEvent : Type 0 where
  receive_round_relays : List UInt256 → EthEvent
  confirm reject : UInt256 → EthEvent

pub data TonEvent : Type 0 where
  receive_round_relays : List UInt256 → TonEvent
  confirm reject : UInt256 → TonEvent
  closed : TonEvent

-- What the bridge starts in the background.
pub data Task : Type 0 where
  update_event : EventType → UInt256 → Task
  preprocess : EventType → UInt256 → Task
  check_connector : UInt256 → Task

pub data Verdict : Type 0 where
  remove_entry start_voting ignore_event : Verdict

unfoldable pub eth_verdict : UInt256 → EthEvent → EventStatus → Verdict
eth_verdict our_public_key event confirmed = remove_entry
eth_verdict our_public_key event rejected = remove_entry
eth_verdict our_public_key (EthEvent.receive_round_relays keys) status =
    if contains keys our_public_key then start_voting else remove_entry
eth_verdict our_public_key (EthEvent.confirm public_key) status =
    if public_key == our_public_key then remove_entry else ignore_event
eth_verdict our_public_key (EthEvent.reject public_key) status =
    if public_key == our_public_key then remove_entry else ignore_event

-- A confirmed TON event goes on collecting signatures until its contract is closed.
unfoldable pub ton_verdict : UInt256 → TonEvent → EventStatus → Verdict
ton_verdict our_public_key TonEvent.closed confirmed = remove_entry
ton_verdict our_public_key event rejected = remove_entry
ton_verdict our_public_key (TonEvent.receive_round_relays keys) status =
    if contains keys our_public_key then start_voting else remove_entry
ton_verdict our_public_key (TonEvent.confirm public_key) status =
    if public_key == our_public_key then remove_entry else ignore_event
ton_verdict our_public_key (TonEvent.reject public_key) status =
    if public_key == our_public_key then remove_entry else ignore_event
ton_verdict our_public_key TonEvent.closed status = ignore_event

-- Only known events are handled.
unfoldable pub settle : EventsState → UInt256 → EventType → Verdict → EventsState × List Task
settle s account kind verdict = elim (get s.pending account) [
  | none ↦ (s, [])
  | some _ ↦ elim verdict [
    | remove_entry ↦ (remove_event s account, [])
    | start_voting ↦ (s, update_event kind account ∷ [])
    | ignore_event ↦ (s, [])
  ]
]

unfoldable pub process_eth_event :
    EventsState → UInt256 → UInt256 → EthEvent → EventStatus → EventsState × List Task
unfolding settle eth_verdict
process_eth_event s our_public_key account event status =
    settle s account eth (eth_verdict our_public_key event status)

unfoldable pub process_ton_event :
    EventsState → UInt256 → UInt256 → TonEvent → EventStatus → EventsState × List Task
unfolding settle ton_verdict
process_ton_event s our_public_key account event status =
    settle s account ton (ton_verdict our_public_key event status)

-- The `EventDeployed` branch of `process_eth_event_configuration_event` and of
-- `process_ton_event_configuration_event`: a new event is preprocessed in the background.
unfoldable pub event_deployed : EventsState → EventType → UInt256 → EventsState × List Task
unfolding add_pending_event
event_deployed s kind address =
    let (s', new_event) = add_pending_event s address in
    (s', if new_event then preprocess kind address ∷ [] else [])

-- The connector was enabled: the handler goes on with `check_connector_contract`.
unfoldable pub process_connector_event : UInt256 → List Task
process_connector_event connector = check_connector connector ∷ []

-- `EventExt::REQUIRE_ALL_SIGNATURES`.
abbrev pub require_all_signatures : EventType → Bool
require_all_signatures eth = false
require_all_signatures ton = true

-- `preprocess_event` once the state of the contract is there; its vote goes on in `update_event`.
unfoldable pub preprocess_event :
    EventsState
    → UInt256
    → UInt256
    → EventType
    → EventBaseContract
    → EventsState × Fallible (List Task)
preprocess_event s our_public_key account kind contract =
    elim (process contract our_public_key (require_all_signatures kind)) [
      | err e ↦ (s, err e)
      | ok action ↦ elim action [
        | nop ↦ (s, ok [])
        | EventAction.remove ↦ (remove_event s account, ok [])
        | vote ↦ (s, ok (update_event kind account ∷ []))
      ]
    ]
