-- ===== src/Staking/Verification/Examples.antt =====
-- The confirmation of the relay's keys at concrete contracts.
use ton_eth_bridge_relay.Base.{
  ◌≡◌, refl, true, false, ◌&&◌, none, some, [], ◌∷◌, ok, err, get, insert,
}
use ton_eth_bridge_relay.Errors.{
  external, required_eth_network_not_found, user_data_ton_public_key_mismatch,
}
use ton_eth_bridge_relay.Messages as Messages
use ton_eth_bridge_relay.Messages.{delivered}
use ton_eth_bridge_relay.Engine.{Attempt}
use ton_eth_bridge_relay.Contracts.{UserDataDetails}
use ton_eth_bridge_relay.EthSubscriber.Registry.{EthSubscriberRegistry}
use ton_eth_bridge_relay.EthSubscriber.Verification.{Answers}
use ton_eth_bridge_relay.Staking.Events.{ton_pubkey_confirmed}
use ton_eth_bridge_relay.Staking.Verification.{Keys, World, Meets, ensure_verified}
use ton_eth_bridge_relay.Staking.Verification.Success.{
  succeeded, own_keys, ton_asked, eth_asked, ton_seen, eth_seen, ensure_verified_lem,
}

abbrev keys : Keys
keys = record { ton_public_key = 3; eth_address = 4; min_balance_gwei = 1 }

-- The address on the EVM chain is confirmed, the key on TON is not.
abbrev details : UserDataDetails
details = record {
  token_balance = 10;
  relay_lock_until = 0;
  reward_rounds = [];
  relay_eth_address = 4;
  eth_address_confirmed = true;
  relay_ton_pubkey = 3;
  ton_pubkey_confirmed = false;
  slashed = false;
  root = 1;
  user = 2;
  dao_root = 5;
}

abbrev attempt : Attempt
attempt = record {
  condition = true;
  sign = ok (record { account = 8; message_hash = 9; expire_at = 60; destination = ok tt });
  broadcast = ok tt;
  others = λ s. s;
  answer = ok delivered;
}

abbrev answers : Answers
answers = record {
  try_load = ok tt;
  removes = true;
  save = ok tt;
  polls = [];
  staking_contract = ok tt;
  balances = [];
  encode_input = ok tt;
  sign_transaction = err external;
  send_raw_transaction = ok tt;
}

-- The message is delivered, and then the contract says that the key is confirmed.
abbrev meets : Meets
meets = record {
  attempts = attempt ∷ [];
  answers = answers;
  events = ton_pubkey_confirmed (record { ton_pubkey = 3 }) ∷ [];
}

abbrev world : World
world = record { queue = Messages.init; files = record { file = none; sent = [] } }

abbrev no_networks : EthSubscriberRegistry
no_networks = record { subscribers = []; last_block_numbers = [] }

ensure_verified_example :
    succeeded (ensure_verified keys no_networks 1 (ok details) meets world).1 ≡ (
      own_keys keys details meets
      && (ton_asked keys details meets world
          && (eth_asked keys details meets no_networks 1 world
              && (ton_seen keys details meets && eth_seen keys details meets))))
ensure_verified_example = ensure_verified_lem keys details meets no_networks 1 world

all_confirmed : (ensure_verified keys no_networks 1 (ok details) meets world).1 ≡ some (ok tt)
unfolding ensure_verified Messages.init get insert Messages.new Messages.add_message
all_confirmed = refl

-- Without the event the call waits; without a network for the chain it fails; another key is refused.
not_yet :
    (ensure_verified keys no_networks 1 (ok details) (record meets { events = [] }) world).1 ≡ none
unfolding ensure_verified Messages.init get insert Messages.new Messages.add_message
not_yet = refl

no_network :
    (ensure_verified keys no_networks 1
      (ok (record details { eth_address_confirmed = false }))
      meets
      world).1
    ≡ some (err required_eth_network_not_found)
unfolding ensure_verified Messages.init get insert Messages.new Messages.add_message
no_network = refl

other_key :
    ensure_verified (record keys { ton_public_key = 7 }) no_networks 1 (ok details) meets world
    ≡ (world, some (err user_data_ton_public_key_mismatch))
unfolding ensure_verified
other_key = refl
