-- ===== src/Staking/Startup.antt =====
-- src/engine/staking/mod.rs, `Staking::new` from the check of the elections up to the object, and
-- `update_participates_in_round_status`.
pub mod Loading
pub use ton_eth_bridge_relay.Staking.Startup.Loading.{
  ShardAccounts, Loaded, loaded_if_installed, load_round, wait_round,
}
use ton_eth_bridge_relay.Base.{
  ℕ, ◌≡◌, refl, ap, ◌∙◌, ◌↔◌, inl, inr, Bool, true, false, not, ◌&&◌, Option, none, some, List, [],
  ◌∷◌, ok, err, ◌>>=◌, ok_or, contains, if◌then◌else◌, arith, Result-cases,
}
use ton_eth_bridge_relay.Errors.{Fallible, not_found}
use ton_eth_bridge_relay.Shards.{UInt256}
use ton_eth_bridge_relay.Contracts.{RelayRoundDetails}
use ton_eth_bridge_relay.Tristate as Tristate
use ton_eth_bridge_relay.Tristate.{
  Tristate, new, store, store_if_empty, load, load-store, load-store_if_empty, store-IsFlag,
  or_else,
}
use ton_eth_bridge_relay.Staking.Rounds.{ElectionsState, not_started, started, finished, RoundState}
use ton_eth_bridge_relay.Staking.Events.{Staking}

-- `check_elected`.
unfoldable pub check_elected : ShardAccounts → UInt256 → UInt256 → Fallible Bool
check_elected accounts staker elections_account = do
  found ← accounts.elections elections_account
  contract ← ok_or found not_found
  staker_addrs ← contract
  ok (contains staker_addrs staker)

-- `(should_vote, elected)`.
unfoldable pub should_vote_elected :
    ShardAccounts → UInt256 → Bool → RoundState → ElectionsState → Fallible (Bool × Option Bool)
unfolding check_elected
should_vote_elected accounts staker ignore_elections state (not_started _) = ok (false, none)
should_vote_elected accounts staker ignore_elections state (started _ _) = do
  elected ← check_elected accounts staker state.next_elections_account
  ok (not ignore_elections && not elected, some elected)
should_vote_elected accounts staker ignore_elections state finished = do
  elected ← check_elected accounts staker state.next_elections_account
  ok (false, some elected)

-- The object, and whether it is to take part in the elections at once.
unfoldable pub new_staking : UInt256 → Bool → Loaded → Fallible (Staking × Bool)
unfolding should_vote_elected Tristate.new
new_staking staker ignore_elections l = do
  found ← l.shard_accounts.user_data l.user_data_account
  user_data ← ok_or found not_found
  user_data_balance ← user_data
  flags ←
      should_vote_elected l.shard_accounts staker ignore_elections l.relay_round_state
        l.relay_round_state.elections_state
  ok (
    record {
      user_data_balance = user_data_balance;
      round_state = l.relay_round_state;
      participates_in_round =
          Tristate.new (some (contains l.relay_round_details.staker_addrs staker));
      elected = Tristate.new flags.1;
    },
    flags.0,
  )

load-new : (flag : Bool) → load (Tristate.new (some flag)) ≡ some flag
unfolding Tristate.new
load-new flag = load-store (record { value = 0 }) (some flag)

abbrev pub VotesNow : ShardAccounts → UInt256 → Bool → RoundState → ElectionsState → Type 0
VotesNow accounts staker ignore_elections state elections =
    (start : ℕ) × (end : ℕ) × (elections ≡ started start end)
    × (ignore_elections ≡ false)
    × (staker_addrs : List UInt256) × (accounts.elections state.next_elections_account
        ≡ ok (some (ok staker_addrs)))
    × (contains staker_addrs staker ≡ false)

-- The staker is not among those that the elections contract gives.
not_elected :
    (accounts : ShardAccounts) (staker account : UInt256)
    → check_elected accounts staker account ≡ ok false
    → (staker_addrs : List UInt256) × (accounts.elections account ≡ ok (some (ok staker_addrs)))
      × (contains staker_addrs staker ≡ false)
unfolding check_elected
not_elected accounts staker account h = elim (Result-cases (accounts.elections account)) [
  | inr (e, bad) ↦ absurd (ground (arith, bad, h))
  | inl (none, e) ↦ absurd (ground (arith, e, h))
  | inl (some (err bad), e) ↦ absurd (ground (arith, e, h))
  | inl (some (ok addrs), e) ↦ (addrs, e, ground (arith, e, h))
]

elected_of :
    (accounts : ShardAccounts) (staker account : UInt256) (elected : Bool) (addrs : List UInt256)
    → check_elected accounts staker account ≡ ok elected
    → accounts.elections account ≡ ok (some (ok addrs))
    → contains addrs staker ≡ false
    → elected ≡ false
unfolding check_elected
elected_of accounts staker account elected addrs found read absent =
    ground (arith, found, read, absent)

flags_started :
    (ignore elected flag : Bool)
    → (not ignore && not elected) ≡ flag
    → (flag ≡ true) ↔ ((ignore ≡ false) × (elected ≡ false))
flags_started ignore elected flag h = ground (arith, h)

should_vote_iff :
    (accounts : ShardAccounts) (staker : UInt256) (ignore : Bool) (state : RoundState)
    (elections : ElectionsState) (flags : Bool × Option Bool)
    → should_vote_elected accounts staker ignore state elections ≡ ok flags
    → (flags.0 ≡ true) ↔ VotesNow accounts staker ignore state elections
unfolding should_vote_elected
should_vote_iff accounts staker ignore state (not_started t) flags h =
    (λ e. absurd (ground (arith, h, e)), λ v. absurd (cc v.2))
should_vote_iff accounts staker ignore state (started a b) flags h =
    elim (Result-cases (check_elected accounts staker state.next_elections_account)) [
      | inr (e, bad) ↦ absurd (ground (arith, bad, h))
      | inl (elected, found) ↦
          (let same = flags_started ignore elected flags.0 (ground (arith, found, h)) in
            (
              λ e.
                  let (listens, absent) = same.0 e in
                  let (addrs, read, out) =
                    not_elected accounts staker state.next_elections_account
                      (found ∙ ap ok absent) in
                  (a, b, refl, listens, addrs, read, out),
              λ v. same.1 (
                v.3,
                elected_of accounts staker state.next_elections_account elected v.4 found v.5 v.6,
              ),
            ))
    ]
should_vote_iff accounts staker ignore state finished flags h =
    (λ e. absurd (ground (arith, h, e)), λ v. absurd (cc v.2))

-- The relay is to vote at the start exactly if the elections are on, it does not ignore them, and its
-- staker is not among those of the next elections contract; the object then says that it takes part
-- in the round exactly if its staker is one of the round's.
pub new_staking_lem :
    (staker : UInt256) (ignore_elections : Bool) (l : Loaded) (s : Staking) (should_vote : Bool)
    → new_staking staker ignore_elections l ≡ ok (s, should_vote)
    → ((should_vote ≡ true)
        ↔ VotesNow l.shard_accounts staker ignore_elections l.relay_round_state
            l.relay_round_state.elections_state)
      × (load s.participates_in_round ≡ some (contains l.relay_round_details.staker_addrs staker))
unfolding new_staking
new_staking_lem staker ignore l s v h =
    elim (Result-cases (
      should_vote_elected l.shard_accounts staker ignore l.relay_round_state
        l.relay_round_state.elections_state)) [
          | inr (e, bad) ↦ absurd (ground (arith, bad, h))
          | inl (flags, e) ↦
              (let votes =
                  should_vote_iff l.shard_accounts staker ignore l.relay_round_state
                    l.relay_round_state.elections_state flags e in
                let same : v ≡ flags.0 = ground (arith, e, h) in
                let takes_part : s.participates_in_round
                    ≡ Tristate.new (some (contains l.relay_round_details.staker_addrs staker)) =
                  ground (arith, e, h) in
                (
                  rw same votes,
                  rw takes_part (load-new (contains l.relay_round_details.staker_addrs staker)),
                ))
        ]

-- The details of the current round's contract, on the way of `update_participates_in_round_status`.
unfoldable pub current_round_details : UInt256 → ShardAccounts → Fallible RelayRoundDetails
current_round_details staking_account accounts = do
  found ← accounts.find_staking staking_account
  contract ← ok_or found not_found
  rounds ← contract.get_relay_rounds_details
  address ← contract.get_relay_round_address rounds.current_relay_round
  round ← accounts.find_relay_round address
  relay_round ← ok_or round not_found
  relay_round.get_details

unfoldable pub update_participates_in_round_status :
    UInt256 → ShardAccounts → Staking → Staking × Fallible (Unit {0})
unfolding current_round_details Tristate.store_if_empty
update_participates_in_round_status staking_account accounts s =
    elim (current_round_details staking_account accounts) [
      | err e ↦ (s, err e)
      | ok details ↦ (
        record s {
          participates_in_round =
              store_if_empty s.participates_in_round
                (contains details.staker_addrs staking_account);
        },
        ok tt,
      )
    ]

-- After a new round has emptied the flag, the update sets it by the address of the staking contract,
-- while a relay that starts in the same round sets it by its staker's address: where only the staker
-- is in the round, the one says that the relay does not take part, and the other that it does.
pub participation_differs :
    (staking_account staker : UInt256) (ignore_elections : Bool) (accounts : ShardAccounts)
    (l : Loaded) (s object : Staking) (should_vote : Bool)
    → current_round_details staking_account accounts ≡ ok l.relay_round_details
    → contains l.relay_round_details.staker_addrs staker ≡ true
    → contains l.relay_round_details.staker_addrs staking_account ≡ false
    → new_staking staker ignore_elections l ≡ ok (object, should_vote)
    → let emptied = record s { participates_in_round = store s.participates_in_round none } in
      (load
          (update_participates_in_round_status staking_account accounts
            emptied).0.participates_in_round
        ≡ some false)
      × (load object.participates_in_round ≡ some true)
unfolding update_participates_in_round_status
participation_differs staking_account staker ignore accounts l s object v current in_round other h =
    let flag = store s.participates_in_round none in
    rw (current, other, update_participates_in_round_status)
      (
        ground (
          arith,
          load-store_if_empty flag false (store-IsFlag s.participates_in_round none),
          load-store s.participates_in_round none,
        ),
        ground (arith, in_round, (new_staking_lem staker ignore l object v h).1),
      )
