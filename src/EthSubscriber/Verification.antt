-- ===== src/EthSubscriber/Verification.antt =====
-- src/engine/eth_subscriber/mod.rs, `verify_relay_staker_address`, with the file of
-- src/config/verification_state.rs: the relay's address is confirmed by a transaction on the EVM
-- chain. The file survives a restart. What the network, the signer and the file system answer to one
-- call are a parameter (`Answers`); a transaction is known by its hash.
pub mod Restarts
mod Examples
use ton_eth_bridge_relay.Base.{
  ℕ, ◌+◌, ◌*◌, ◌%◌, ◌≡◌, ◌⊎◌, refl, inl, inr, Bool, true, false, not, ◌&&◌, Option, none, some,
  List, [], ◌∷◌, ok, err, ◌>>=◌, ltb, ◌==◌, if◌then◌else◌, u64_mod, arith, Bool-cases, Option-cases,
  Result-cases,
}
use ton_eth_bridge_relay.Errors.{Error, Fallible}
use ton_eth_bridge_relay.Shards.{UInt256}
use ton_eth_bridge_relay.Contracts.{EthAddress}

pub record AddressVerificationState : Type 0 where
  pub transaction_hash : UInt256
  pub address : EthAddress

-- The file at `state_path`, and the transactions that were sent, the last first.
pub record Files : Type 0 where
  pub file : Option AddressVerificationState
  pub sent : List UInt256

-- An answer to `api.transaction`: the transaction with the block that holds it.
abbrev pub Poll : Type 0
Poll = Fallible (Option (Option UInt256))

pub record Answers : Type 0 where
  -- The reading of the file, its removal, and its writing.
  pub try_load : Fallible (Unit {0})
  pub removes : Bool
  pub save : Fallible (Unit {0})
  pub polls : List Poll
  pub staking_contract : Fallible (Unit {0})
  -- The balances that are read; the retries are those of a library.
  pub balances : List (Fallible ℕ)
  pub encode_input : Fallible (Unit {0})
  pub sign_transaction : Fallible UInt256
  pub send_raw_transaction : Fallible (Unit {0})

-- What the search for the saved transaction leads to.
pub data Search : Type 0 where
  included missing searching : Search
  search_failed : Error → Search

unfoldable pub poll_loop : List Poll → Search
poll_loop [] = searching
poll_loop (err e ∷ polls) = search_failed e
poll_loop (ok none ∷ polls) = missing
poll_loop (ok (some (some block)) ∷ polls) = included
poll_loop (ok (some none) ∷ polls) = poll_loop polls

unfoldable pub clear_state : Bool → Files → Files
clear_state removes s = if removes then record s { file = none } else s

-- The wait for the minimal balance: none while it goes on.
unfoldable pub balance_loop : ℕ → List (Fallible ℕ) → Option (Fallible (Unit {0}))
balance_loop min_balance [] = none
balance_loop min_balance (err e ∷ balances) = some (err e)
balance_loop min_balance (ok balance ∷ balances) =
    let rest = balance_loop min_balance balances in
    if ltb balance min_balance then rest else some (ok tt)

-- The result of a call, none while it waits.
abbrev pub Outcome : Type 0
Outcome = Files × Option (Fallible (Unit {0}))

unfoldable pub send : Answers → Files → Outcome
send a s = elim a.send_raw_transaction [ err e ↦ (s, some (err e)) | ok _ ↦ (s, some (ok tt)) ]

-- The state is saved before the transaction is sent; an attempt to send counts as sent, since the
-- network may have the transaction also when the call fails.
unfoldable pub save_and_send : Answers → EthAddress → UInt256 → Files → Outcome
unfolding send
save_and_send a address hash s = elim a.save [
  | err e ↦ (s, some (err e))
  | ok _ ↦ send a (record {
    file = some (record { transaction_hash = hash; address = address });
    sent = hash ∷ s.sent;
  })
]

-- After the balance: the transaction is prepared and signed.
unfoldable pub prepare : Answers → EthAddress → Files → Outcome
unfolding save_and_send
prepare a address s = elim (a.encode_input >>= λ _. a.sign_transaction) [
  | err e ↦ (s, some (err e))
  | ok hash ↦ save_and_send a address hash s
]

abbrev pub gwei : ℕ
gwei = 1000000000

-- The product of u64 numbers wraps.
unfoldable pub submit : Answers → ℕ → EthAddress → Files → Outcome
unfolding prepare balance_loop
submit a min_balance_gwei address s = elim a.staking_contract [
  | err e ↦ (s, some (err e))
  | ok _ ↦ elim (balance_loop ((min_balance_gwei * gwei) % u64_mod) a.balances) [
    | none ↦ (s, none)
    | some (err e) ↦ (s, some (err e))
    | some (ok _) ↦ prepare a address s
  ]
]

-- After the search for the transaction of the saved state.
unfoldable pub resume : Answers → ℕ → EthAddress → Files → Search → Outcome
unfolding submit clear_state
resume a min_balance_gwei address s included = (clear_state a.removes s, some (ok tt))
resume a min_balance_gwei address s missing =
    submit a min_balance_gwei address (clear_state a.removes s)
resume a min_balance_gwei address s searching = (s, none)
resume a min_balance_gwei address s (search_failed e) = (s, some (err e))

unfoldable pub with_state :
    Answers → ℕ → EthAddress → Files → Option AddressVerificationState → Outcome
unfolding resume poll_loop
with_state a min_balance_gwei address s none = submit a min_balance_gwei address s
with_state a min_balance_gwei address s (some state) =
    if state.address == address
    then resume a min_balance_gwei address s (poll_loop a.polls)
    else submit a min_balance_gwei address (clear_state a.removes s)

unfoldable pub verify_relay_staker_address : Answers → ℕ → EthAddress → Files → Outcome
unfolding with_state
verify_relay_staker_address a min_balance_gwei address s = elim a.try_load [
  | err e ↦ (s, some (err e))
  | ok _ ↦ with_state a min_balance_gwei address s s.file
]
