-- ===== src/Staking/Tasks.antt =====
-- src/engine/staking/mod.rs: the messages that the staking sends, the wait before a reward is
-- collected, and the metrics.
use ton_eth_bridge_relay.Base.{ℕ, ◌+◌, ◌-◌, Bool, Option, List, [], ◌∷◌}
use ton_eth_bridge_relay.Shards.{UInt256}
use ton_eth_bridge_relay.Tristate.{load}
use ton_eth_bridge_relay.Staking.Rounds.{ElectionsState}
use ton_eth_bridge_relay.Staking.Events.{Context, Staking}

-- The functions of the contracts that are called, and a call: the account and the arguments. Its
-- condition in `deliver_message` is always true.
pub data Function : Type 0 where
  become_relay_next_round_function get_reward_for_relay_round_function
        start_election_on_new_round_function end_election_function :
      Function

pub record Message : Type 0 where
  pub function : Function
  pub account : UInt256
  pub args : List ℕ

unfoldable pub start_election : UInt256 → Message
start_election staking_account = record {
  function = start_election_on_new_round_function;
  account = staking_account;
  args = [];
}

unfoldable pub end_election : UInt256 → Message
end_election staking_account = record {
  function = end_election_function;
  account = staking_account;
  args = [];
}

-- `get_reward_for_relay_round`: the seconds that are waited, and the message; `saturating_sub` is the
-- subtraction of ℕ.
unfoldable pub get_reward_for_relay_round : UInt256 → ℕ → ℕ → ℕ → ℕ × Message
get_reward_for_relay_round user_data_account relay_round end_time now = (
  (end_time - now) + 10,
  record {
    function = get_reward_for_relay_round_function;
    account = user_data_account;
    args = relay_round ∷ [];
  },
)

pub record StakingMetrics : Type 0 where
  pub current_relay_round : ℕ
  pub user_data_tokens_balance : ℕ
  pub elections_state : ElectionsState
  pub ignore_elections : Bool
  pub participates_in_round : Option Bool
  pub elected : Option Bool

unfoldable pub metrics : Context → Staking → StakingMetrics
unfolding load
metrics ctx s = record {
  current_relay_round = s.round_state.number;
  user_data_tokens_balance = s.user_data_balance;
  elections_state = s.round_state.elections_state;
  ignore_elections = ctx.ignore_elections;
  participates_in_round = load s.participates_in_round;
  elected = load s.elected;
}
