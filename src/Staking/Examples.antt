-- ===== src/Staking/Examples.antt =====
-- The staking at concrete inputs: round 5, whose relays are the stakers 8 and 9; this relay's staker is 8.
use mathlib.Core.List.{Memᴰ}
use ton_eth_bridge_relay.Base.{
  ◌+◌, ◌≤◌, ◌≡◌, refl, ◌↔◌, true, false, none, some, List, [], ◌∷◌, ok, ◌||◌, ◌&&◌, contains, inl,
  ◌⊎◌, get,
}
use ton_eth_bridge_relay.Contracts.{RelayConfigDetails, RelayRoundsDetails, RelayRoundDetails}
use ton_eth_bridge_relay.Contracts.Views.{StakingContract, RelayRoundContract}
use ton_eth_bridge_relay.Tristate as Tristate
use ton_eth_bridge_relay.Tristate.{
  Tristate, store, store_if_empty, load, load-store, load-store_if_empty, or_else,
}
use ton_eth_bridge_relay.Staking.Rounds.{
  started, RoundState, get_round_state, Timely, get_round_state-Timely, elections_state_of,
}
use ton_eth_bridge_relay.Staking.Events.{
  Context, Staking, Call, user_data_event, staking_event, relay_membership_requested,
  election_ended, deposit_processed, step, process_user_data_event, run, requested, no_reset,
  is_set, run_elected,
}
use ton_eth_bridge_relay.Staking.Startup.{
  ShardAccounts, Loaded, check_elected, VotesNow, new_staking, new_staking_lem,
  update_participates_in_round_status, current_round_details, participation_differs,
  should_vote_elected,
}
use ton_eth_bridge_relay.Staking.Rewards.{
  collect_all_unclaimed_reward, Collectable, collect_all_unclaimed_reward_lem,
}
use ton_eth_bridge_relay.Messages
use ton_eth_bridge_relay.Messages.{delivered}
use ton_eth_bridge_relay.Engine.{Attempt, Delivered, done, stopped, waiting, deliver_message}
use ton_eth_bridge_relay.Staking.Tasks.{Message}
use ton_eth_bridge_relay.Staking.Requests.{
  Happening, handled, scheduled, become_relay_next_round, wait_balance, deliver_always,
}
use ton_eth_bridge_relay.Staking.Requests.Wakeups.{
  covered, attempts_for, become_relay_next_round_lem,
}

abbrev config : RelayConfigDetails
config = record {
  relay_lock_time = 1;
  relay_round_time = 1000;
  election_time = 100;
  time_before_election = 500;
  min_round_gap_time = 1;
  relays_count = 2;
  min_relay_count = 1;
  min_relay_deposit = 10;
  relay_initial_ton_deposit = 1;
  relay_reward_per_second = 1;
  user_reward_per_second = 1;
}

abbrev rounds : RelayRoundsDetails
rounds = record {
  current_relay_round = 5;
  current_relay_round_start_time = 2000;
  current_relay_round_end_time = 3000;
  current_election_start_time = 2500;
  current_election_ended = false;
}

abbrev contract : StakingContract
contract = record {
  get_relay_config = ok config;
  get_relay_rounds_details = ok rounds;
  get_election_address = λ n. ok (100 + n);
  get_relay_round_address = λ n. ok (200 + n);
  get_user_data_address = λ a. ok 300;
}

abbrev details : RelayRoundDetails
details = record {
  root = 0;
  round_num = 5;
  ton_keys = [];
  eth_addrs = [];
  staker_addrs = 8 ∷ 9 ∷ [];
  staked_tokens = [];
  relays_installed = true;
  code_version = 1;
}

abbrev relay_round : RelayRoundContract
relay_round = record {
  get_details = ok details;
  has_unclaimed_reward = λ a. ok true;
  end_time = ok 3000;
}

abbrev accounts : ShardAccounts
accounts = record {
  find_staking = λ a. ok (some contract);
  find_relay_round = λ a. ok (some relay_round);
  elections = λ a. ok (some (ok (9 ∷ [])));
  user_data = λ a. ok (some (ok 50));
}

abbrev state : RoundState
state = record {
  number = 5;
  elections_state = started 2500 2600;
  next_elections_account = 106;
  min_relay_deposit = 10;
}

abbrev loaded : Loaded
loaded = record {
  shard_accounts = accounts;
  relay_round_details = details;
  relay_round_state = state;
  user_data_account = 300;
}

abbrev object : Staking
object = record {
  user_data_balance = 50;
  round_state = state;
  participates_in_round = record { value = 1 };
  elected = record { value = 0 };
}

get_round_state-Timely_example : Timely contract 2550 state
unfolding get_round_state elections_state_of
get_round_state-Timely_example = get_round_state-Timely contract 2550 state refl

abbrev ctx : Context
ctx = record { ton_public_key = 7; eth_address = 70; ignore_elections = false }

abbrev poor : Staking
poor = record object { user_data_balance = 5 }

-- The task finds too little, a deposit of 50 wakes it, and it runs again.
abbrev happenings : List Happening
happenings =
    scheduled
    ∷ handled
        (user_data_event (deposit_processed (record { tokens_deposited = 45; new_balance = 50 })))
    ∷ scheduled
    ∷ []

-- The libraries sign and send the message at once, and it is delivered.
abbrev attempts : List (Message → Attempt)
attempts =
    (λ m. record {
      condition = true;
      sign =
          ok
            (record { account = m.account; message_hash = 1; expire_at = 60; destination = ok tt });
      broadcast = ok tt;
      others = λ s. s;
      answer = ok delivered;
    })
    ∷ []

become_relay_next_round_example :
    let result = become_relay_next_round ctx 300 poor happenings attempts Messages.init in
    ((result.1 ≡ done)
      ↔ ((covered 10 5 happenings ≡ true) × Delivered (attempts_for 300 attempts) Messages.init))
    × (¬ (result.1 ≡ stopped))
    × ((covered 10 5 happenings ≡ true) ⊎ (result ≡ (Messages.init, waiting)))
unfolding step process_user_data_event
become_relay_next_round_example =
    become_relay_next_round_lem ctx 300 poor happenings attempts Messages.init refl

-- The request is delivered after the deposit, and not before.
become_relay_next_round_test :
    ((become_relay_next_round ctx 300 poor happenings attempts Messages.init).1 ≡ done)
    × (become_relay_next_round ctx 300 poor (scheduled ∷ scheduled ∷ []) attempts Messages.init
        ≡ (Messages.init, waiting))
unfolding become_relay_next_round wait_balance step process_user_data_event deliver_always
    deliver_message Messages.add_message Messages.init get
become_relay_next_round_test = (refl, refl)

abbrev calls : List Call
calls =
    staking_event state election_ended
    ∷ user_data_event (
        relay_membership_requested (record {
          round_num = 6;
          tokens = 20;
          ton_pubkey = 7;
          eth_address = 70;
          lock_until = 9000;
        }))
    ∷ []

run_elected_example :
    is_set (load (run ctx object calls).elected)
    ≡ (requested calls || (is_set (load object.elected) && no_reset calls))
run_elected_example = run_elected ctx object calls (inl refl)

new_staking_example :
    ((true ≡ true) ↔ VotesNow accounts 8 false state state.elections_state)
    × (load object.participates_in_round ≡ some (contains details.staker_addrs 8))
unfolding new_staking Tristate.new check_elected should_vote_elected
new_staking_example = new_staking_lem 8 false loaded object true refl

participation_differs_example :
    let emptied = record object {
      participates_in_round = store object.participates_in_round none;
    } in
    (load (update_participates_in_round_status 1 accounts emptied).0.participates_in_round
      ≡ some false)
    × (load object.participates_in_round ≡ some true)
unfolding new_staking Tristate.new check_elected should_vote_elected current_round_details
participation_differs_example =
    participation_differs 1 8 false accounts loaded object object true refl refl refl refl

collect_all_unclaimed_reward_example :
    Memᴰ (4, 3000) (collect_all_unclaimed_reward 8 contract (λ a. ok (some relay_round))).0
    ↔ ((5 ≤ 4 + 2) × (4 ≤ 5) × Collectable 8 contract (λ a. ok (some relay_round)) (4, 3000))
collect_all_unclaimed_reward_example =
    collect_all_unclaimed_reward_lem 8 contract (λ a. ok (some relay_round)) 5 (4, 3000)
      (λ r. (200 + r, refl)) refl
