-- ===== src/Staking/Startup/Loading.antt =====
-- src/engine/staking/mod.rs, the first loop of `Staking::new`: the current round is read from the
-- shard states until its relays are installed.
use ton_eth_bridge_relay.Base.{
  ℕ, Option, none, some, List, [], ◌∷◌, ok, err, ◌>>=◌, ok_or, if◌then◌else◌,
}
use ton_eth_bridge_relay.Errors.{Fallible, not_found}
use ton_eth_bridge_relay.Shards.{UInt256}
use ton_eth_bridge_relay.Contracts.{RelayRoundDetails}
use ton_eth_bridge_relay.Contracts.Views.{StakingContract, RelayRoundContract}
use ton_eth_bridge_relay.Staking.Rounds.{RoundState, get_round_state}

-- `ShardAccountsMap`, as `find_account` sees it for the contracts of the staking; `elections` gives the
-- staker addresses of an elections contract and `user_data` the balance of a user data contract.
pub record ShardAccounts : Type 0 where
  pub find_staking : UInt256 → Fallible (Option StakingContract)
  pub find_relay_round : UInt256 → Fallible (Option RelayRoundContract)
  pub elections : UInt256 → Fallible (Option (Fallible (List UInt256)))
  pub user_data : UInt256 → Fallible (Option (Fallible ℕ))

pub record Loaded : Type 0 where
  pub shard_accounts : ShardAccounts
  pub relay_round_details : RelayRoundDetails
  pub relay_round_state : RoundState
  pub user_data_account : UInt256

-- The end of a round of the first loop: `none` means `continue`.
unfoldable pub loaded_if_installed :
    ShardAccounts
    → UInt256
    → StakingContract
    → RoundState
    → RelayRoundDetails
    → Fallible (Option Loaded)
loaded_if_installed accounts staker contract state details =
    if details.relays_installed
    then (do
      user_data_account ← contract.get_user_data_address staker
      ok (
          some (record {
            shard_accounts = accounts;
            relay_round_details = details;
            relay_round_state = state;
            user_data_account = user_data_account;
          })))
    else ok none

-- One round of the first loop of `new`.
unfoldable pub load_round : UInt256 → UInt256 → ShardAccounts → Fallible (Option Loaded)
unfolding get_round_state loaded_if_installed
load_round staking_account staker accounts = do
  found ← accounts.find_staking staking_account
  contract ← ok_or found not_found
  state ← get_round_state contract
  address ← contract.get_relay_round_address state.number
  round ← accounts.find_relay_round address
  elim round [
    | none ↦ ok none
    | some r ↦ (do
      details ← r.get_details
      loaded_if_installed accounts staker contract state details)
  ]

-- The loop over the shard states, as they come; `none` while it still waits.
unfoldable pub wait_round :
    UInt256 → UInt256 → List (Fallible ShardAccounts) → Option (Fallible Loaded)
unfolding load_round
wait_round staking_account staker [] = none
wait_round staking_account staker (err e ∷ states) = some (err e)
wait_round staking_account staker (ok accounts ∷ states) =
    let rest = wait_round staking_account staker states in
    elim (load_round staking_account staker accounts) [
      | err e ↦ some (err e)
      | ok none ↦ rest
      | ok (some l) ↦ some (ok l)
    ]
