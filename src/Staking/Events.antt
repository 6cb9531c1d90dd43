-- ===== src/Staking/Events.antt =====
-- src/engine/staking/mod.rs, `process_staking_event` and `process_user_data_event`: what the events of
-- the staking contract and of the staker's user data change. Each handler holds the lock of the
-- current round while it changes the flags, so it is one step.
use ton_eth_bridge_relay.Base.{
  ℕ, ◌≡◌, ◌∙◌, inl, inr, Bool, true, false, not, ◌&&◌, ◌||◌, Option, none, some, List, [], ◌∷◌,
  ◌==◌, if◌then◌else◌, arith, Bool-cases,
}
use ton_eth_bridge_relay.Shards.{UInt256}
use ton_eth_bridge_relay.Contracts.{
  EthAddress, RelayRoundInitializedEvent, RelayKeysUpdatedEvent, RelayMembershipRequestedEvent,
  DepositProcessedEvent, TonPubkeyConfirmedEvent, EthAddressConfirmedEvent,
}
use ton_eth_bridge_relay.Tristate.{
  Tristate, store, store_if_empty, load, IsFlag, load-store, load-store_if_empty, store-IsFlag,
  store_if_empty-IsFlag,
}
use ton_eth_bridge_relay.Staking.Rounds.{ElectionsState, not_started, started, finished, RoundState}

pub data StakingEvent : Type 0 where
  election_started election_ended relay_config_updated : StakingEvent
  relay_round_initialized : RelayRoundInitializedEvent → StakingEvent

pub data UserDataEvent : Type 0 where
  relay_keys_updated : RelayKeysUpdatedEvent → UserDataEvent
  ton_pubkey_confirmed : TonPubkeyConfirmedEvent → UserDataEvent
  eth_address_confirmed : EthAddressConfirmedEvent → UserDataEvent
  relay_membership_requested : RelayMembershipRequestedEvent → UserDataEvent
  deposit_processed : DepositProcessedEvent → UserDataEvent

-- What a handler notifies, spawns or sends.
pub data Effect : Type 0 where
  elections_start_notify elections_end_notify relay_round_started_notify relay_config_updated_notify
        user_data_balance_changed_notify :
      Effect
  become_relay_next_round update_participates_in_round_status request_shutdown : Effect
  -- `get_reward_for_relay_round` of a round with its end.
  get_reward_for_relay_round : ℕ → ℕ → Effect

-- The keys of the relay and the settings that the handlers read.
pub record Context : Type 0 where
  pub ton_public_key : UInt256
  pub eth_address : EthAddress
  pub ignore_elections : Bool

pub record Staking : Type 0 where
  pub user_data_balance : ℕ
  pub round_state : RoundState
  pub participates_in_round : Tristate
  pub elected : Tristate

abbrev pub is_not_started : ElectionsState → Bool
is_not_started (not_started _) = true
is_not_started (started _ _) = false
is_not_started finished = false

-- The state of the round, and the reset of `elected` before the elections.
unfoldable pub enter_state : Staking → RoundState → Staking
unfolding store
enter_state s round_state = record s {
  round_state = round_state;
  elected = if is_not_started round_state.elections_state then store s.elected none else s.elected;
}

unfoldable pub process_staking_event :
    Context → Staking → RoundState → StakingEvent → Staking × List Effect
unfolding enter_state store_if_empty store
process_staking_event ctx s round_state election_started =
    let s' = enter_state s round_state in
    (
      record s' { elected = store_if_empty s'.elected false },
      elections_start_notify ∷ (if ctx.ignore_elections then [] else become_relay_next_round ∷ []),
    )
process_staking_event ctx s round_state election_ended =
    (enter_state s round_state, elections_end_notify ∷ [])
process_staking_event ctx s round_state relay_config_updated =
    (enter_state s round_state, relay_config_updated_notify ∷ [])
process_staking_event ctx s round_state (relay_round_initialized event) =
    let s' = enter_state s round_state in
    (
      record s' { participates_in_round = store s'.participates_in_round none },
      relay_round_started_notify
          ∷ update_participates_in_round_status
          ∷ get_reward_for_relay_round event.round_num event.round_end_time
          ∷ [],
    )

unfoldable pub process_user_data_event : Context → Staking → UserDataEvent → Staking × List Effect
unfolding store
process_user_data_event ctx s (relay_keys_updated event) = (
  s,
  if (event.ton_pubkey == ctx.ton_public_key) && (event.eth_address == ctx.eth_address)
      then []
      else request_shutdown ∷ [],
)
process_user_data_event ctx s (relay_membership_requested event) =
    (record s { elected = store s.elected (some true) }, [])
process_user_data_event ctx s (deposit_processed event) =
    (record s { user_data_balance = event.new_balance }, user_data_balance_changed_notify ∷ [])
process_user_data_event ctx s (ton_pubkey_confirmed event) = (s, [])
process_user_data_event ctx s (eth_address_confirmed event) = (s, [])

pub data Call : Type 0 where
  staking_event : RoundState → StakingEvent → Call
  user_data_event : UserDataEvent → Call

unfoldable pub step : Context → Staking → Call → Staking
unfolding process_staking_event process_user_data_event
step ctx s (staking_event round_state event) = (process_staking_event ctx s round_state event).0
step ctx s (user_data_event event) = (process_user_data_event ctx s event).0

unfoldable pub run : Context → Staking → List Call → Staking
run ctx s [] = s
run ctx s (c ∷ cs) = run ctx (step ctx s c) cs

-- An event of the staking contract in a state before the elections forgets the last ones.
abbrev pub resets : Call → Bool
resets (staking_event round_state event) = is_not_started round_state.elections_state
resets (user_data_event event) = false

abbrev pub requests : Call → Bool
requests (user_data_event (relay_membership_requested event)) = true
requests _ = false

-- No event of the history resets the flag.
abbrev pub no_reset : List Call → Bool
no_reset [] = true
no_reset (c ∷ cs) = not (resets c) && no_reset cs

-- Some event of the history requests the membership, and none after it resets the flag.
abbrev pub requested : List Call → Bool
requested [] = false
requested (c ∷ cs) = requested cs || (requests c && no_reset cs)

abbrev pub is_set : Option Bool → Bool
is_set (some true) = true
is_set _ = false

enter_state_elected :
    (s : Staking) (r : RoundState)
    → IsFlag s.elected
    → IsFlag (enter_state s r).elected
      × (is_set (load (enter_state s r).elected)
          ≡ (is_set (load s.elected) && not (is_not_started r.elections_state)))
unfolding enter_state
enter_state_elected s r h = elim (Bool-cases (is_not_started r.elections_state)) [
  | inl e ↦
      rw (e, enter_state) (store-IsFlag s.elected none, ground (arith, load-store s.elected none))
  | inr e ↦ rw (e, enter_state) (h, ground arith)
]

step_elected :
    (ctx : Context) (s : Staking) (c : Call)
    → IsFlag s.elected
    → IsFlag (step ctx s c).elected
      × (is_set (load (step ctx s c).elected)
          ≡ (requests c || (is_set (load s.elected) && not (resets c))))
unfolding step process_staking_event process_user_data_event
step_elected ctx s (staking_event r election_started) h =
    let (flag, same) = enter_state_elected s r h in
    (
      store_if_empty-IsFlag (enter_state s r).elected false flag,
      ground (arith, same, load-store_if_empty (enter_state s r).elected false flag),
    )
step_elected ctx s (staking_event r election_ended) h = enter_state_elected s r h
step_elected ctx s (staking_event r relay_config_updated) h = enter_state_elected s r h
step_elected ctx s (staking_event r (relay_round_initialized e)) h = enter_state_elected s r h
step_elected ctx s (user_data_event (relay_keys_updated e)) h = (h, ground arith)
step_elected ctx s (user_data_event (ton_pubkey_confirmed event)) h = (h, ground arith)
step_elected ctx s (user_data_event (eth_address_confirmed event)) h = (h, ground arith)
step_elected ctx s (user_data_event (deposit_processed e)) h = (h, ground arith)
step_elected ctx s (user_data_event (relay_membership_requested e)) h =
    (store-IsFlag s.elected (some true), ground (arith, load-store s.elected (some true)))

-- After any events, the relay counts as elected exactly if a membership request came after the last
-- event in a state before the elections, or it counted as elected at first and there was no such
-- event.
pub run_elected :
    (ctx : Context) (s : Staking) (cs : List Call)
    → IsFlag s.elected
    → is_set (load (run ctx s cs).elected)
      ≡ (requested cs || (is_set (load s.elected) && no_reset cs))
unfolding run
run_elected ctx s [] h = ground arith
run_elected ctx s (c ∷ cs) h =
    run_elected ctx (step ctx s c) cs (step_elected ctx s c h).0
    ∙ ground (arith, (step_elected ctx s c h).1)
