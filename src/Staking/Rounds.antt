-- ===== src/Staking/Rounds.antt =====
-- src/engine/staking/mod.rs, `RoundState`, `get_round_state` and the decisions of the loop that manages
-- the elections. Times are u32 seconds.
use ton_eth_bridge_relay.Base.{
  ℕ, zero, suc, ◌+◌, ◌-◌, ◌%◌, ◌≤◌, ◌≡◌, false, ok, ◌>>=◌, if◌then◌else◌, u32_mod, arith,
  Result-cases, inl, inr, sym,
}
use ton_eth_bridge_relay.Errors.{Fallible}
use ton_eth_bridge_relay.Shards.{UInt256}
use ton_eth_bridge_relay.Contracts.{RelayConfigDetails, RelayRoundsDetails}
use ton_eth_bridge_relay.Contracts.Views.{StakingContract}

pub data ElectionsState : Type 0 where
  not_started : ℕ → ElectionsState
  started : ℕ → ℕ → ElectionsState
  finished : ElectionsState

pub record RoundState : Type 0 where
  pub number : ℕ
  pub elections_state : ElectionsState
  pub next_elections_account : UInt256
  pub min_relay_deposit : ℕ

-- `+` on u32.
abbrev pub add_u32 : ℕ → ℕ → ℕ
add_u32 a b = (a + b) % u32_mod

-- The `match` on the start of the elections; 0 stands for none.
unfoldable pub elections_state_of : RelayConfigDetails → RelayRoundsDetails → ElectionsState
elections_state_of config rounds = elim rounds.current_election_start_time [
  | zero ↦
      if rounds.current_election_ended
      then finished
      else not_started (add_u32 rounds.current_relay_round_start_time config.time_before_election)
  | suc t ↦ started (suc t) (add_u32 (suc t) config.election_time)
]

unfoldable pub get_round_state : StakingContract → Fallible RoundState
unfolding elections_state_of
get_round_state contract = do
  config ← contract.get_relay_config
  rounds ← contract.get_relay_rounds_details
  next_elections_account ← contract.get_election_address (add_u32 rounds.current_relay_round 1)
  ok (record {
    number = rounds.current_relay_round;
    elections_state = elections_state_of config rounds;
    next_elections_account = next_elections_account;
    min_relay_deposit = config.min_relay_deposit;
  })

-- What a round of the loop of `start_managing_elections` is to do: after some seconds it sends
-- `startElectionOnNewRound` or `endElection`, unless a notification comes first.
pub data Plan : Type 0 where
  start_election end_election : ℕ → Plan
  await_new_round : Plan

-- `saturating_sub` is the subtraction of ℕ.
unfoldable pub plan : ElectionsState → ℕ → Plan
plan (not_started start_time) now = start_election (start_time - now)
plan (started start_time end_time) now = end_election (end_time - now)
plan finished now = await_new_round

-- The time at which the plan sends its message is not before the time that the contract announces.
pub record Timely (contract : StakingContract) (now : ℕ) (state : RoundState) : Type 0 where
  pub at_start :
      (delay : ℕ)
      → plan state.elections_state now ≡ start_election delay
      → (config : RelayConfigDetails) × (rounds : RelayRoundsDetails) × (contract.get_relay_config
          ≡ ok config)
        × (contract.get_relay_rounds_details ≡ ok rounds)
        × (rounds.current_election_ended ≡ false)
        × (add_u32 rounds.current_relay_round_start_time config.time_before_election ≤ now + delay)
  pub at_end :
      (delay : ℕ)
      → plan state.elections_state now ≡ end_election delay
      → (config : RelayConfigDetails) × (rounds : RelayRoundsDetails) × (contract.get_relay_config
          ≡ ok config)
        × (contract.get_relay_rounds_details ≡ ok rounds)
        × (1 ≤ rounds.current_election_start_time)
        × (add_u32 rounds.current_election_start_time config.election_time ≤ now + delay)

plan_start :
    (config : RelayConfigDetails) (rounds : RelayRoundsDetails) (now delay : ℕ)
    → plan (elections_state_of config rounds) now ≡ start_election delay
    → (rounds.current_election_ended ≡ false)
      × (add_u32 rounds.current_relay_round_start_time config.time_before_election ≤ now + delay)
unfolding plan elections_state_of
plan_start config rounds now delay h = ground arith

plan_end :
    (config : RelayConfigDetails) (rounds : RelayRoundsDetails) (now delay : ℕ)
    → plan (elections_state_of config rounds) now ≡ end_election delay
    → (1 ≤ rounds.current_election_start_time)
      × (add_u32 rounds.current_election_start_time config.election_time ≤ now + delay)
unfolding plan elections_state_of
plan_end config rounds now delay h = ground arith

-- When the state of a round is read from the staking contract, the loop starts the elections only if
-- they are not over, and neither that nor their end is sent before the time that the contract's data
-- give for it (sums of times wrap at 32 bits).
pub get_round_state-Timely :
    (contract : StakingContract) (now : ℕ) (state : RoundState)
    → get_round_state contract ≡ ok state
    → Timely contract now state
unfolding get_round_state
get_round_state-Timely contract now state h = elim (Result-cases contract.get_relay_config) [
  | inr (e, bad) ↦ absurd (ground (arith, bad))
  | inl (config, c) ↦ elim (Result-cases contract.get_relay_rounds_details) [
    | inr (e, bad) ↦ absurd (ground (arith, c, bad))
    | inl (rounds, r) ↦
        (let same : state.elections_state ≡ elections_state_of config rounds =
            ground (arith, c, r, h) in
          record {
            at_start = λ delay p.
                let q = plan_start config rounds now delay (rw (sym same) p) in
                (config, rounds, c, r, q.0, q.1);
            at_end = λ delay p.
                let q = plan_end config rounds now delay (rw (sym same) p) in
                (config, rounds, c, r, q.0, q.1);
          })
  ]
]
