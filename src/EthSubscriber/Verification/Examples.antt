-- ===== src/EthSubscriber/Verification/Examples.antt =====
-- The confirmation of the relay's address over two starts.
use ton_eth_bridge_relay.Base.{
  ℕ, suc, ◌≤◌, ◌≡◌, refl, true, none, some, List, [], ◌∷◌, length, ok, err, ◌>>=◌, ◌++◌, get,
  insert, nat_eq,
}
use ton_eth_bridge_relay.Errors.{Fallible, external, unknown_chain_id}
use ton_eth_bridge_relay.EthSubscriber.Registry as Registry
use ton_eth_bridge_relay.EthSubscriber.Registry.{EthConfig, get_last_block_number}
use ton_eth_bridge_relay.EthSubscriber.Verification.{Files, Answers, verify_relay_staker_address}
use ton_eth_bridge_relay.EthSubscriber.Verification.Restarts.{run, found, run_sends}

-- The balance is too low at first; the signed transaction is 55.
abbrev first_start : Answers
first_start = record {
  try_load = ok tt;
  removes = true;
  save = ok tt;
  polls = [];
  staking_contract = ok tt;
  balances = ok 3 ∷ ok 5000000000 ∷ [];
  encode_input = ok tt;
  sign_transaction = ok 55;
  send_raw_transaction = err external;
}

-- After a restart it is pending, and then in block 9.
abbrev second_start : Answers
second_start = record first_start { polls = ok (some none) ∷ ok (some (some 9)) ∷ [] }

abbrev empty_files : Files
empty_files = record { file = none; sent = [] }

-- The call to send fails, but the state is saved; the second start finds the transaction.
found_after_restart :
    let s = verify_relay_staker_address first_start 5 1 empty_files in
    let s' = verify_relay_staker_address second_start 5 1 s.0 in
    (s.1 ≡ some (err external))
    × (s.0.sent ≡ 55 ∷ [])
    × (s'.0 ≡ record { file = none; sent = 55 ∷ [] })
    × (s'.1 ≡ some (ok tt))
unfolding verify_relay_staker_address
found_after_restart = (refl, refl, refl, refl)

run_sends_example :
    length (run 5 1 empty_files (first_start ∷ second_start ∷ [])).sent
    ≤ suc (found 5 1 empty_files (first_start ∷ second_start ∷ []))
run_sends_example = run_sends 5 1 (first_start ∷ second_start ∷ []) refl

-- Two networks with their current blocks; with a third that does not answer the registry fails.
abbrev networks : List (EthConfig × Fallible ℕ)
networks =
    (record { chain_id = 1; max_block_range = none }, ok 100)
    ∷ (record { chain_id = 56; max_block_range = some 8 }, ok 200)
    ∷ []

registry :
    ((Registry.new networks >>= λ r. get_last_block_number r 56) ≡ ok 200)
    × ((Registry.new networks >>= λ r. get_last_block_number r 3) ≡ err unknown_chain_id)
    × (Registry.new
          (networks ++ ((record { chain_id = 3; max_block_range = none }, err external) ∷ []))
        ≡ err external)
unfolding Registry.new get_last_block_number get insert
registry = (refl, refl, refl)
