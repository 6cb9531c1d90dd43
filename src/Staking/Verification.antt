-- ===== src/Staking/Verification.antt =====
-- src/engine/staking/mod.rs, `ensure_user_data_confirmed` and `UserDataContract::ensure_verified`: at the
-- start the relay makes sure that its keys are those of its user data contract and are confirmed. The
-- sending of the message is that of Engine, the transaction on the EVM chain that of EthSubscriber.
pub mod Success
mod Examples
use ton_eth_bridge_relay.Base.{
  ℕ, ◌≡◌, ◌↔◌, refl, inl, inr, Bool, true, false, not, ◌&&◌, ◌||◌, Option, none, some, List, [],
  ◌∷◌, ok, err, ok_or, ◌>>=◌, ◌==◌, if◌then◌else◌, arith, Bool-cases, Option-cases, Result-cases,
}
use ton_eth_bridge_relay.Errors.{
  Error, Fallible, not_found, required_eth_network_not_found, user_data_eth_address_mismatch,
  user_data_ton_public_key_mismatch,
}
use ton_eth_bridge_relay.Shards.{UInt256}
use ton_eth_bridge_relay.Messages as Messages
use ton_eth_bridge_relay.Engine.{Attempt, Delivery, done, stopped, waiting, failed, deliver_message}
use ton_eth_bridge_relay.Contracts.{
  EthAddress, UserDataDetails, StakingDetails, EthEventConfigurationDetails,
  TonPubkeyConfirmedEvent, EthAddressConfirmedEvent,
}
use ton_eth_bridge_relay.EthSubscriber.Registry.{EthSubscriberRegistry, get_subscriber}
use ton_eth_bridge_relay.EthSubscriber.Verification.{Files, Answers, verify_relay_staker_address}
use ton_eth_bridge_relay.Staking.Events.{
  UserDataEvent, relay_keys_updated, ton_pubkey_confirmed, eth_address_confirmed,
  relay_membership_requested, deposit_processed,
}

-- The keys of the relay and the settings of the verification.
pub record Keys : Type 0 where
  pub ton_public_key : UInt256
  pub eth_address : EthAddress
  pub min_balance_gwei : ℕ

-- The two notifications of `ensure_verified`: both are awaited from its start.
pub record Confirmed : Type 0 where
  pub ton : Bool
  pub eth : Bool

-- The body of the loop of the spawned task.
unfoldable pub on_event : Keys → UserDataEvent → Confirmed → Confirmed
on_event keys (relay_keys_updated event) c = c
on_event keys (ton_pubkey_confirmed event) c =
    if event.ton_pubkey == keys.ton_public_key then record c { ton = true } else c
on_event keys (eth_address_confirmed event) c =
    if event.eth_addr == keys.eth_address then record c { eth = true } else c
on_event keys (relay_membership_requested event) c = c
on_event keys (deposit_processed event) c = c

unfoldable pub on_events : Keys → List UserDataEvent → Confirmed → Confirmed
unfolding on_event
on_events keys [] c = c
on_events keys (event ∷ events) c = on_events keys events (on_event keys event c)

unfoldable pub check_keys : Keys → UserDataDetails → Fallible (Unit {0})
check_keys keys details =
    if details.relay_eth_address == keys.eth_address
    then (if details.relay_ton_pubkey == keys.ton_public_key
        then ok tt
        else err user_data_ton_public_key_mismatch)
    else err user_data_eth_address_mismatch

-- The state that outlives the call, and what the call meets: the attempts of the message, the answers
-- to the verification, and the events of the user data contract while the call runs.
pub record World : Type 0 where
  pub queue : Messages.State
  pub files : Files

pub record Meets : Type 0 where
  pub attempts : List Attempt
  pub answers : Answers
  pub events : List UserDataEvent

-- A result, none while the call waits.
abbrev pub Outcome : Type 0
Outcome = World × Option (Fallible (Unit {0}))

abbrev pub of_delivery : Delivery → Option (Fallible (Unit {0}))
of_delivery done = some (ok tt)
of_delivery stopped = some (ok tt)
of_delivery waiting = none
of_delivery (failed e) = some (err e)

-- `confirm_ton_account` is sent unless the key is confirmed.
unfoldable pub confirm_ton : UserDataDetails → Meets → World → Outcome
unfolding deliver_message
confirm_ton details m w =
    let sent = deliver_message m.attempts w.queue in
    if details.ton_pubkey_confirmed
    then (w, some (ok tt))
    else (record w { queue = sent.0 }, of_delivery sent.1)

unfoldable pub confirm_eth :
    Keys → EthSubscriberRegistry → ℕ → UserDataDetails → Meets → World → Outcome
unfolding get_subscriber verify_relay_staker_address
confirm_eth keys registry chain_id details m w =
    if details.eth_address_confirmed
    then (w, some (ok tt))
    else elim (get_subscriber registry chain_id) [
      | none ↦ (w, some (err required_eth_network_not_found))
      | some _ ↦
          (let verified =
              verify_relay_staker_address m.answers keys.min_balance_gwei keys.eth_address
                w.files in
            (record w { files = verified.0 }, verified.1))
    ]

-- `futures::future::join(ton_notified, eth_notified)`.
unfoldable pub join : Keys → UserDataDetails → Meets → Option (Fallible (Unit {0}))
unfolding on_events
join keys details m =
    let c : Confirmed =
      on_events keys m.events
        (record { ton = details.ton_pubkey_confirmed; eth = details.eth_address_confirmed }) in
    if c.ton && c.eth then some (ok tt) else none

-- A step after one that succeeded.
abbrev pub and_then : Outcome → (World → Outcome) → Outcome
and_then (w, none) next = (w, none)
and_then (w, some (err e)) next = (w, some (err e))
and_then (w, some (ok _)) next = next w

unfoldable pub confirm :
    Keys → EthSubscriberRegistry → ℕ → UserDataDetails → Meets → World → Outcome
unfolding confirm_ton confirm_eth join
confirm keys registry chain_id details m w = and_then (confirm_ton details m w) (λ w'.
    and_then (confirm_eth keys registry chain_id details m w') (λ w''. (w'', join keys details m)))

unfoldable pub ensure_verified :
    Keys → EthSubscriberRegistry → ℕ → Fallible UserDataDetails → Meets → World → Outcome
unfolding check_keys confirm
ensure_verified keys registry chain_id (err e) m w = (w, some (err e))
ensure_verified keys registry chain_id (ok details) m w = elim (check_keys keys details) [
  | err e ↦ (w, some (err e))
  | ok _ ↦ confirm keys registry chain_id details m w
]

-- The staking contract as it is read here, and the accounts that are found by their addresses.
pub record StakingView : Type 0 where
  pub get_details : Fallible StakingDetails
  pub get_user_data_address : UInt256 → Fallible UInt256

pub record Accounts : Type 0 where
  pub find_staking : UInt256 → Fallible (Option StakingView)
  pub find_configuration : UInt256 → Fallible (Option (Fallible EthEventConfigurationDetails))
  pub find_user_data : UInt256 → Fallible (Option (Fallible UserDataDetails))

unfoldable pub get_eth_bridge_configuration_details :
    Accounts → StakingView → Fallible EthEventConfigurationDetails
get_eth_bridge_configuration_details accounts staking = do
  details ← staking.get_details
  found ← accounts.find_configuration details.bridge_event_config_eth_ton
  contract ← ok_or found not_found
  contract

-- What `ensure_verified` is called with: the chain of the bridge's configuration and the user data.
unfoldable pub prepare :
    UInt256 → UInt256 → Fallible Accounts → Fallible (ℕ × Fallible UserDataDetails)
unfolding get_eth_bridge_configuration_details
prepare staking_account staker_account loaded = do
  accounts ← loaded
  found ← accounts.find_staking staking_account
  staking ← ok_or found not_found
  configuration ← get_eth_bridge_configuration_details accounts staking
  user_data_account ← staking.get_user_data_address staker_account
  user_data ← accounts.find_user_data user_data_account
  contract ← ok_or user_data not_found
  ok (configuration.network_configuration.chain_id, contract)

unfoldable pub ensure_user_data_confirmed :
    Keys → EthSubscriberRegistry → UInt256 → UInt256 → Fallible Accounts → Meets → World → Outcome
unfolding prepare ensure_verified
ensure_user_data_confirmed keys registry staking_account staker_account loaded m w =
    elim (prepare staking_account staker_account loaded) [
      | err e ↦ (w, some (err e))
      | ok (chain_id, details) ↦ ensure_verified keys registry chain_id details m w
    ]
