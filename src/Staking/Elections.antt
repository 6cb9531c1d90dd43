-- ===== src/Staking/Elections.antt =====
-- src/engine/staking/mod.rs, `start_managing_elections`: one round of its loop. The round waits for
-- signals: the end of the delay, the answer to the message that is sent then, and the notifications
-- that cancel it. A signal that a round does not wait for is passed over.
use ton_eth_bridge_relay.Base.{
  ℕ, ◌≤◌, Bool, true, false, List, [], ◌∷◌, ◌++◌, length, if◌then◌else◌, arith,
}
use ton_eth_bridge_relay.Errors.{Fallible}
use ton_eth_bridge_relay.Shards.{UInt256}
use ton_eth_bridge_relay.Staking.Rounds.{ElectionsState, not_started, started, finished}
use ton_eth_bridge_relay.Staking.Tasks.{Message, start_election, end_election}

pub data Signal : Type 0 where
  delay_passed : Signal
  answered : Fallible (Unit {0}) → Signal
  elections_started elections_ended round_started config_updated : Signal

-- Where the round stands; `over` when the loop goes on with the next one.
pub data Phase : Type 0 where
  delayed sending awaiting over : Phase

-- The two pending actions: the message, and the notification that is awaited and cancels.
pub record Action : Type 0 where
  pub message : Message
  pub is_done : Signal → Bool

abbrev starts_elections : Signal → Bool
starts_elections elections_started = true
starts_elections _ = false

abbrev ends_elections : Signal → Bool
ends_elections elections_ended = true
ends_elections _ = false

-- The action against the notification and a change of the configuration; an error of the message is
-- only logged.
unfoldable pub cancel : Action → Phase → Signal → Phase
cancel action phase config_updated = over
cancel action phase signal = if action.is_done signal then over else phase

unfoldable pub act : Action → Phase → Signal → Phase
unfolding cancel
act action over signal = over
act action delayed delay_passed = sending
act action sending (answered result) = awaiting
act action phase signal = cancel action phase signal

-- What is sent when a signal comes.
unfoldable pub emitted : Action → Phase → Signal → List Message
emitted action delayed delay_passed = action.message ∷ []
emitted action phase signal = []

unfoldable pub run : Action → Phase → List Signal → Phase × List Message
unfolding act emitted
run action phase [] = (phase, [])
run action phase (signal ∷ signals) =
    let rest = run action (act action phase signal) signals in
    (rest.0, emitted action phase signal ++ rest.1)

-- The wait for the next round, after the elections.
unfoldable pub await_round : List Signal → Phase
await_round [] = awaiting
await_round (round_started ∷ signals) = over
await_round (signal ∷ signals) = await_round signals

-- One round of the loop, by the state of the elections at its start; its delay is that of `plan`.
unfoldable pub manage : UInt256 → ElectionsState → List Signal → Phase × List Message
unfolding run await_round start_election end_election
manage staking_account (not_started start_time) signals =
    run (record { message = start_election staking_account; is_done = starts_elections }) delayed
      signals
manage staking_account (started start_time end_time) signals =
    run (record { message = end_election staking_account; is_done = ends_elections }) delayed
      signals
manage staking_account finished signals = (await_round signals, [])

-- What a phase can still send.
abbrev left : Phase → ℕ
left delayed = 1
left _ = 0

run-le :
    (action : Action) (phase : Phase) (signals : List Signal)
    → length (run action phase signals).1 ≤ left phase
unfolding run act emitted cancel
run-le action phase [] = omega arith
run-le action over (signal ∷ signals) = run-le action over signals
run-le action delayed (delay_passed ∷ signals) = ground (arith, run-le action sending signals)
run-le action delayed (signal ∷ signals) =
    ground (arith, run-le action delayed signals, run-le action over signals)
run-le action sending (signal ∷ signals) = ground (
  arith,
  run-le action sending signals,
  run-le action awaiting signals,
  run-le action over signals,
)
run-le action awaiting (signal ∷ signals) =
    ground (arith, run-le action awaiting signals, run-le action over signals)

-- A round sends at most one message, whatever signals come.
manage-le :
    (staking_account : UInt256) (state : ElectionsState) (signals : List Signal)
    → length (manage staking_account state signals).1 ≤ 1
unfolding manage
manage-le a (not_started start_time) signals =
    run-le (record { message = start_election a; is_done = starts_elections }) delayed signals
manage-le a (started start_time end_time) signals =
    run-le (record { message = end_election a; is_done = ends_elections }) delayed signals
manage-le a finished signals = omega arith
