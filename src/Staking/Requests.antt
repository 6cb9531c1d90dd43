-- ===== src/Staking/Requests.antt =====
-- src/engine/staking/mod.rs, `become_relay_next_round`: the task waits until the balance of the user
-- covers the deposit, and delivers its request to the user data contract. Between two points at which
-- the task runs, the handlers of events change the state under its lock and wake the task if it is
-- registered. The caller drops the task when the elections end: its history ends there.
pub mod Wakeups
use ton_eth_bridge_relay.Base.{Bool, true, false, leb, List, [], ◌∷◌, map, any, if◌then◌else◌}
use ton_eth_bridge_relay.Shards.{UInt256}
use ton_eth_bridge_relay.Messages.{State}
use ton_eth_bridge_relay.Engine.{Attempt, Delivery, waiting, deliver_message}
use ton_eth_bridge_relay.Staking.Events.{
  Effect, relay_config_updated_notify, user_data_balance_changed_notify, Context, Staking,
  process_staking_event, process_user_data_event, Call, staking_event, user_data_event, step,
}
use ton_eth_bridge_relay.Staking.Tasks.{Message, become_relay_next_round_function}

-- An event is handled, or the task runs until it waits.
pub data Happening : Type 0 where
  handled : Call → Happening
  scheduled : Happening

-- Where the loop stands: about to look at the balance, registered for the two notifications, or left.
pub data Phase : Type 0 where
  looking registered left : Phase

-- The body of the loop, under the lock.
unfoldable look : Staking → Phase
look s = if leb s.round_state.min_relay_deposit s.user_data_balance then left else registered

-- What the handler of an event notifies, spawns and sends.
unfoldable effects : Context → Staking → Call → List Effect
unfolding process_staking_event process_user_data_event
effects ctx s (staking_event round_state event) = (process_staking_event ctx s round_state event).1
effects ctx s (user_data_event event) = (process_user_data_event ctx s event).1

-- The notifications of the `select!`.
abbrev pub wakes : Effect → Bool
wakes user_data_balance_changed_notify = true
wakes relay_config_updated_notify = true
wakes _ = false

unfoldable advance : Context → Phase → Staking → Happening → Phase
unfolding look effects
advance ctx looking s scheduled = look s
advance ctx registered s (handled c) = if any wakes (effects ctx s c) then looking else registered
advance ctx phase s happening = phase

abbrev pub after : Context → Staking → Happening → Staking
after ctx s (handled c) = step ctx s c
after ctx s scheduled = s

unfoldable pub wait_balance : Context → Phase → Staking → List Happening → Phase
unfolding advance
wait_balance ctx phase s [] = phase
wait_balance ctx phase s (h ∷ hs) = wait_balance ctx (advance ctx phase s h) (after ctx s h) hs

-- `becomeRelayNextRound` to the account of the user data.
unfoldable request : UInt256 → Message
request user_data_account = record {
  function = become_relay_next_round_function;
  account = user_data_account;
  args = [];
}

-- `deliver_message` with the condition that is always true; the attempts answer for the message that is
-- signed.
unfoldable pub deliver_always : List (Message → Attempt) → Message → State → State × Delivery
deliver_always attempts message queue =
    deliver_message (map (λ a. record (a message) { condition = true }) attempts) queue

-- The whole method: the queue is that of the time when the loop is left.
unfoldable pub become_relay_next_round :
    Context
    → UInt256
    → Staking
    → List Happening
    → List (Message → Attempt)
    → State
    → State × Delivery
unfolding wait_balance deliver_always request
become_relay_next_round ctx user_data_account s happenings attempts queue =
    elim (wait_balance ctx looking s happenings) [
      | left ↦ deliver_always attempts (request user_data_account) queue
      | looking ↦ (queue, waiting)
      | registered ↦ (queue, waiting)
    ]
