-- ===== src/TonSubscriber/Contracts.antt =====
-- src/engine/ton_subscriber/mod.rs: the wait for the state of a contract, and the contract that
-- src/utils/existing_contract.rs reads from a state. A state of an account is known by its hash;
-- `read` is what the libraries read from it. The changes of the watch channel that the waiting task
-- sees are a list: an error when the sender is gone, else the value that the channel then holds.
use mathlib.Core.Option
use ton_eth_bridge_relay.Base.{
  ℕ, ◌≡◌, ◌↔◌, refl, ◌++◌, Bool, true, false, ◌&&◌, Option, none, some, List, [], ◌∷◌, ok, err,
  ◌>>=◌, if◌then◌else◌, arith,
}
use ton_eth_bridge_relay.Errors.{Fallible, account_is_frozen}
use ton_eth_bridge_relay.Shards.{UInt256}

-- `ton_block::AccountState` and `AccountStuff`.
pub data AccountState : Type 0 where
  account_active account_frozen account_uninit : AccountState

pub record AccountStuff : Type 0 where
  pub address : UInt256
  pub balance : ℕ
  pub state : AccountState

-- `ton_block::ShardAccount`: the account, none for `AccountNone`, and its last transaction.
pub record ShardAccount : Type 0 where
  pub read_account : Fallible (Option AccountStuff)
  pub last_trans_lt : ℕ
  pub last_trans_hash : UInt256

pub record ExistingContract : Type 0 where
  pub account : AccountStuff
  pub lt : ℕ
  pub hash : UInt256

unfoldable pub from_shard_account : ShardAccount → Fallible (Option ExistingContract)
from_shard_account shard_account = do
  account ← shard_account.read_account
  ok (
      Option.map
        (λ (a : AccountStuff). record {
          account = a;
          lt = shard_account.last_trans_lt;
          hash = shard_account.last_trans_hash;
        })
        account)

unfoldable pub from_shard_account_opt : Option ShardAccount → Fallible (Option ExistingContract)
unfolding from_shard_account
from_shard_account_opt (some shard_account) = from_shard_account shard_account
from_shard_account_opt none = ok none

abbrev pub Change : Type 0
Change = Fallible (Option ShardAccount)

-- The result, none while the task still waits.
unfoldable pub get_contract_state : List Change → Option (Fallible (Option ExistingContract))
unfolding from_shard_account_opt
get_contract_state [] = none
get_contract_state (change ∷ changes) = some (change >>= from_shard_account_opt)

-- The match on the account in the loop: none to continue.
unfoldable pub by_state : ExistingContract → Option (Fallible ExistingContract)
by_state contract = elim contract.account.state [
  | account_active ↦ some (ok contract)
  | account_frozen ↦ some (err account_is_frozen)
  | account_uninit ↦ none
]

-- One round of the loop.
unfoldable pub round : Change → Option (Fallible ExistingContract)
unfolding from_shard_account by_state
round (err e) = some (err e)
round (ok none) = none
round (ok (some shard_account)) = elim (from_shard_account shard_account) [
  | err e ↦ some (err e)
  | ok none ↦ none
  | ok (some contract) ↦ by_state contract
]

unfoldable pub wait_contract_state : List Change → Option (Fallible ExistingContract)
unfolding round
wait_contract_state [] = none
wait_contract_state (change ∷ changes) =
    let rest = wait_contract_state changes in
    elim (round change) [ some result ↦ some result | none ↦ rest ]

-- The change says no more than that there is no account yet, or one that is not initialised.
pub is_undecided : Change → Bool
is_undecided (err e) = false
is_undecided (ok none) = true
is_undecided (ok (some shard_account)) = elim shard_account.read_account [
  | err e ↦ false
  | ok none ↦ true
  | ok (some a) ↦ elim a.state [ account_uninit ↦ true | _ ↦ false ]
]

abbrev pub all_undecided : List Change → Bool
all_undecided [] = true
all_undecided (change ∷ changes) = is_undecided change && all_undecided changes

round-is_undecided : (change : Change) → (round change ≡ none) ↔ (is_undecided change ≡ true)
unfolding round from_shard_account by_state is_undecided
round-is_undecided (err e) = ground arith
round-is_undecided (ok none) = ground arith
round-is_undecided (ok (some s)) = ground arith

-- The result, if it is a contract, is active.
abbrev pub is_active_result : Option (Fallible ExistingContract) → Bool
is_active_result none = true
is_active_result (some (err e)) = true
is_active_result (some (ok c)) = elim c.account.state [ account_active ↦ true | _ ↦ false ]

round-active : (change : Change) → is_active_result (round change) ≡ true
unfolding round from_shard_account by_state
round-active (err e) = refl
round-active (ok none) = refl
round-active (ok (some s)) = ground arith

wait-none :
    (changes : List Change) → (wait_contract_state changes ≡ none) ↔ (all_undecided changes ≡ true)
unfolding wait_contract_state
wait-none [] = ground arith
wait-none (change ∷ changes) = ground (arith, round-is_undecided change, wait-none changes)

wait-active : (changes : List Change) → is_active_result (wait_contract_state changes) ≡ true
unfolding wait_contract_state
wait-active [] = refl
wait-active (change ∷ changes) = ground (arith, round-active change, wait-active changes)

wait-++ :
    (past later : List Change)
    → wait_contract_state (past ++ later)
      ≡ (if all_undecided past then wait_contract_state later else wait_contract_state past)
unfolding wait_contract_state
wait-++ [] later = refl
wait-++ (change ∷ past) later = ground (arith, round-is_undecided change, wait-++ past later)

-- The wait for a contract's state goes on exactly as long as every change shows no account or one
-- that is not initialised; a contract that it returns is active; and once it has returned, with a
-- contract or an error, later changes do not matter.
pub wait_contract_state_ends :
    (past later : List Change)
    → ((wait_contract_state past ≡ none) ↔ (all_undecided past ≡ true))
      × (is_active_result (wait_contract_state past) ≡ true)
      × (wait_contract_state (past ++ later)
          ≡ (if all_undecided past then wait_contract_state later else wait_contract_state past))
wait_contract_state_ends past later = (wait-none past, wait-active past, wait-++ past later)
