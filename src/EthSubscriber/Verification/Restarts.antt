-- ===== src/EthSubscriber/Verification/Restarts.antt =====
-- The transactions that are sent to confirm the relay's address, over restarts of the relay.
use ton_eth_bridge_relay.Base.{
  ℕ, suc, ◌+◌, ◌≤◌, ◌≡◌, refl, inl, inr, Bool, true, false, ◌&&◌, Option, none, some, List, [], ◌∷◌,
  ok, err, length, ◌==◌, arith, Bool-cases, Option-cases, Result-cases,
}
use ton_eth_bridge_relay.Contracts.{EthAddress}
use ton_eth_bridge_relay.EthSubscriber.Verification.{
  AddressVerificationState, Files, Poll, Answers, Search, included, missing, searching,
  search_failed, poll_loop, clear_state, send, save_and_send, prepare, submit, resume, with_state,
  verify_relay_staker_address,
}

abbrev one_if : Bool → ℕ
one_if true = 1
one_if false = 0

-- The saved state is that of the relay's address.
abbrev is_own : EthAddress → Option AddressVerificationState → Bool
is_own address none = false
is_own address (some state) = state.address == address

abbrev own : EthAddress → Files → ℕ
own address s = one_if (is_own address s.file)

-- The network never says that it does not know the transaction that it is asked for.
abbrev pub is_remembered : List Poll → Bool
is_remembered [] = true
is_remembered (ok none ∷ polls) = false
is_remembered (ok (some block) ∷ polls) = is_remembered polls
is_remembered (err e ∷ polls) = is_remembered polls

abbrev is_included : Search → Bool
is_included included = true
is_included missing = false
is_included searching = false
is_included (search_failed e) = false

-- The call asks for the transaction of the saved state and finds it in a block.
abbrev pub finds : EthAddress → Files → Answers → Bool
finds address s a = is_own address s.file && is_included (poll_loop a.polls)

abbrev is_missing : Search → Bool
is_missing included = false
is_missing missing = true
is_missing searching = false
is_missing (search_failed e) = false

poll_loop-found :
    (polls : List Poll) → is_remembered polls ≡ true → is_missing (poll_loop polls) ≡ false
unfolding poll_loop
poll_loop-found [] h = refl
poll_loop-found (err e ∷ polls) h = refl
poll_loop-found (ok none ∷ polls) h = ground (arith, h)
poll_loop-found (ok (some (some block)) ∷ polls) h = refl
poll_loop-found (ok (some none) ∷ polls) h = poll_loop-found polls h

-- A step of the count: what is sent, the saved state before, and the one after.
Counts : EthAddress → Files → Files → ℕ → Type 0
Counts address s s' found = length s'.sent + own address s ≤ length s.sent + own address s' + found

submit-Counts :
    (a : Answers) (min_balance_gwei : ℕ) (address : EthAddress) (s : Files) (found : ℕ)
    → is_own address s.file ≡ false
    → Counts address s (submit a min_balance_gwei address s).0 found
unfolding Counts submit prepare save_and_send send
submit-Counts a min_balance_gwei address s found h = ground (arith, h)

resume-Counts :
    (a : Answers) (min_balance_gwei : ℕ) (address : EthAddress) (s : Files) (search : Search)
    → is_missing search ≡ false
    → Counts address s (resume a min_balance_gwei address s search).0 (one_if (is_included search))
unfolding Counts resume clear_state
resume-Counts a min_balance_gwei address s included h = ground arith
resume-Counts a min_balance_gwei address s missing h = ground (arith, h)
resume-Counts a min_balance_gwei address s searching h = ground arith
resume-Counts a min_balance_gwei address s (search_failed e) h = ground arith

cleared-own :
    (removes : Bool) (address : EthAddress) (s : Files)
    → is_own address s.file ≡ false
    → is_own address (clear_state removes s).file ≡ false
unfolding clear_state
cleared-own removes address s h = ground (arith, h)

verify-Counts :
    (a : Answers) (min_balance_gwei : ℕ) (address : EthAddress) (s : Files)
    → is_remembered a.polls ≡ true
    → Counts address s
        (verify_relay_staker_address a min_balance_gwei address s).0
        (one_if (finds address s a))
unfolding Counts verify_relay_staker_address with_state clear_state
verify-Counts a min_balance_gwei address s h = elim (Result-cases a.try_load) [
  | inr (e, r) ↦ rw (r, verify_relay_staker_address) (ground arith)
  | inl (_, r) ↦ elim (Option-cases s.file) [
    | inl f ↦
        let c = submit-Counts a min_balance_gwei address s 0 (ground (arith, f)) in
        rw (r, f, verify_relay_staker_address) (ground (arith, c, f))
    | inr (state, f) ↦ elim (Bool-cases (state.address == address)) [
      | inl same ↦
          let c =
            resume-Counts a min_balance_gwei address s (poll_loop a.polls)
              (poll_loop-found a.polls h) in
          rw (r, f, same, verify_relay_staker_address, with_state) (ground (arith, c, f, same))
      | inr other ↦
          let free = cleared-own a.removes address s (ground (arith, f, other)) in
          let c = submit-Counts a min_balance_gwei address (clear_state a.removes s) 0 free in
          rw (r, f, other, verify_relay_staker_address, with_state) (ground (arith, c, f, other))
    ]
  ]
]

-- The calls after each start of the relay, for one address; and how many of them find the
-- transaction of the saved state in a block.
module _ (min_balance_gwei : ℕ) (address : EthAddress) where
  unfoldable pub run : Files → List Answers → Files
  unfolding verify_relay_staker_address
  run s [] = s
  run s (a ∷ calls) = run (verify_relay_staker_address a min_balance_gwei address s).0 calls

  unfoldable pub found : Files → List Answers → ℕ
  unfolding verify_relay_staker_address
  found s [] = 0
  found s (a ∷ calls) =
      one_if (finds address s a)
      + found (verify_relay_staker_address a min_balance_gwei address s).0 calls

  abbrev pub all_remembered : List Answers → Bool
  all_remembered [] = true
  all_remembered (a ∷ calls) = is_remembered a.polls && all_remembered calls

  run-Counts :
      (s : Files) (calls : List Answers)
      → all_remembered calls ≡ true
      → Counts address s (run s calls) (found s calls)
  unfolding run found Counts
  run-Counts s [] h = omega arith
  run-Counts s (a ∷ calls) h =
      let c = verify-Counts a min_balance_gwei address s (ground (arith, h)) in
      let rest =
        run-Counts (verify_relay_staker_address a min_balance_gwei address s).0 calls
          (ground (arith, h)) in
      omega (arith, c, rest)

  own-le : (s : Files) → own address s ≤ 1
  own-le s = ground arith

  -- Over any number of starts from an empty state file, with every combination of failures and of
  -- interrupted waits, the number of transactions that are sent is at most one more than the number
  -- of calls that find the saved transaction in a block, if the network remembers each transaction
  -- that it is asked for.
  pub run_sends :
      (calls : List Answers)
      → all_remembered calls ≡ true
      → let s : Files = record { file = none; sent = [] } in
        length (run s calls).sent ≤ suc (found s calls)
  unfolding Counts
  run_sends calls h =
      let s : Files = record { file = none; sent = [] } in
      omega (arith, run-Counts s calls h, own-le (run s calls))
