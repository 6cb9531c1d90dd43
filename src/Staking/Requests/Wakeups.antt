-- ===== src/Staking/Requests/Wakeups.antt =====
-- The task of `become_relay_next_round` and its notifications: that it misses no chance to send its
-- request, and what becomes of the request.
use ton_eth_bridge_relay.Base.{
  ℕ, ◌≡◌, refl, ◌∙◌, ◌↔◌, ◌⊎◌, inl, inr, Bool, true, false, ◌&&◌, ◌||◌, ◌==◌, leb, ltb, List, [],
  ◌∷◌, map, arith, Bool-cases, Result-cases,
}
use ton_eth_bridge_relay.Shards.{UInt256}
use ton_eth_bridge_relay.Messages.{State, delivered, expired}
use ton_eth_bridge_relay.Engine.{
  Attempt, attempt, done, stopped, waiting, deliver_message, Delivered, deliver_message_iff,
}
use ton_eth_bridge_relay.Staking.Events.{
  election_started, election_ended, relay_config_updated, relay_round_initialized,
  relay_keys_updated, ton_pubkey_confirmed, eth_address_confirmed, relay_membership_requested,
  deposit_processed, Context, Staking, enter_state, process_staking_event, process_user_data_event,
  Call, staking_event, user_data_event, step,
}
use ton_eth_bridge_relay.Staking.Tasks.{Message, become_relay_next_round_function}
use ton_eth_bridge_relay.Staking.Requests.{
  Happening, handled, scheduled, Phase, looking, registered, left, look, effects, advance,
  wait_balance, request, deliver_always, become_relay_next_round,
}

-- The deposit is that of the last event of the staking contract.
abbrev pub deposit_after : ℕ → Call → ℕ
deposit_after deposit (staking_event round_state event) = round_state.min_relay_deposit
deposit_after deposit (user_data_event event) = deposit

-- The balance is that of the last deposit.
abbrev pub balance_after : ℕ → Call → ℕ
balance_after balance (user_data_event (deposit_processed event)) = event.new_balance
balance_after balance _ = balance

-- At some point at which the task can run, the balance covers the deposit.
abbrev pub covered : ℕ → ℕ → List Happening → Bool
covered deposit balance [] = false
covered deposit balance (scheduled ∷ hs) = leb deposit balance || covered deposit balance hs
covered deposit balance (handled c ∷ hs) =
    covered (deposit_after deposit c) (balance_after balance c) hs

-- The deposit changes only with the event that announces it.
abbrev pub announced : ℕ → Call → Bool
announced deposit (staking_event r relay_config_updated) = true
announced deposit (staking_event r _) = r.min_relay_deposit == deposit
announced deposit (user_data_event event) = true

abbrev pub all_announced : ℕ → List Happening → Bool
all_announced deposit [] = true
all_announced deposit (scheduled ∷ hs) = all_announced deposit hs
all_announced deposit (handled c ∷ hs) =
    announced deposit c && all_announced (deposit_after deposit c) hs

abbrev deposit_of : Staking → ℕ
deposit_of s = s.round_state.min_relay_deposit

-- The handlers store the deposit and the balance of the events.
step-amounts :
    (ctx : Context) (s : Staking) (c : Call)
    → (deposit_of (step ctx s c) ≡ deposit_after (deposit_of s) c)
      × ((step ctx s c).user_data_balance ≡ balance_after s.user_data_balance c)
unfolding step process_staking_event process_user_data_event enter_state
step-amounts ctx s (staking_event r election_started) = (refl, refl)
step-amounts ctx s (staking_event r election_ended) = (refl, refl)
step-amounts ctx s (staking_event r relay_config_updated) = (refl, refl)
step-amounts ctx s (staking_event r (relay_round_initialized e)) = (refl, refl)
step-amounts ctx s (user_data_event (relay_keys_updated e)) = (refl, refl)
step-amounts ctx s (user_data_event (ton_pubkey_confirmed e)) = (refl, refl)
step-amounts ctx s (user_data_event (eth_address_confirmed e)) = (refl, refl)
step-amounts ctx s (user_data_event (relay_membership_requested e)) = (refl, refl)
step-amounts ctx s (user_data_event (deposit_processed e)) = (refl, refl)

abbrev is_left : Phase → Bool
is_left left = true
is_left _ = false

-- A task that waits for a notification waits rightly.
abbrev rightly : Phase → Staking → Bool
rightly registered s = ltb s.user_data_balance s.round_state.min_relay_deposit
rightly phase s = true

advance-rightly :
    (ctx : Context) (phase : Phase) (s : Staking) (c : Call)
    → announced (deposit_of s) c ≡ true
    → rightly phase s ≡ true
    → (rightly (advance ctx phase s (handled c)) (step ctx s c) ≡ true)
      × (is_left (advance ctx phase s (handled c)) ≡ is_left phase)
unfolding advance effects process_staking_event process_user_data_event enter_state step
advance-rightly ctx looking s c a h = (refl, refl)
advance-rightly ctx left s c a h = (refl, refl)
advance-rightly ctx registered s (staking_event r election_started) a h = ground (arith, a, h)
advance-rightly ctx registered s (staking_event r election_ended) a h = ground (arith, a, h)
advance-rightly ctx registered s (staking_event r relay_config_updated) a h = ground (arith, a, h)
advance-rightly ctx registered s (staking_event r (relay_round_initialized e)) a h =
    ground (arith, a, h)
advance-rightly ctx registered s (user_data_event (relay_keys_updated e)) a h = ground (arith, a, h)
advance-rightly ctx registered s (user_data_event (ton_pubkey_confirmed e)) a h =
    ground (arith, a, h)
advance-rightly ctx registered s (user_data_event (eth_address_confirmed e)) a h =
    ground (arith, a, h)
advance-rightly ctx registered s (user_data_event (relay_membership_requested e)) a h =
    ground (arith, a, h)
advance-rightly ctx registered s (user_data_event (deposit_processed e)) a h = ground (arith, a, h)

wait_balance-left :
    (ctx : Context) (s : Staking) (hs : List Happening) → wait_balance ctx left s hs ≡ left
unfolding wait_balance advance
wait_balance-left ctx s [] = refl
wait_balance-left ctx s (scheduled ∷ hs) = wait_balance-left ctx s hs
wait_balance-left ctx s (handled c ∷ hs) = wait_balance-left ctx (step ctx s c) hs

-- The loop misses no chance: it is left exactly if at some point the balance covers the deposit.
wait_balance_lem :
    (ctx : Context) (phase : Phase) (s : Staking) (hs : List Happening)
    → all_announced (deposit_of s) hs ≡ true
    → rightly phase s ≡ true
    → is_left (wait_balance ctx phase s hs)
      ≡ (is_left phase || covered (deposit_of s) s.user_data_balance hs)
unfolding wait_balance advance look
wait_balance_lem ctx phase s [] a h = ground arith
wait_balance_lem ctx left s (scheduled ∷ hs) a h = ground (arith, wait_balance-left ctx s hs)
wait_balance_lem ctx registered s (scheduled ∷ hs) a h =
    ground (arith, wait_balance_lem ctx registered s hs a h, h)
wait_balance_lem ctx looking s (scheduled ∷ hs) a h =
    elim (Bool-cases (leb s.round_state.min_relay_deposit s.user_data_balance)) [
      | inl enough ↦ rw enough (ground (arith, wait_balance-left ctx s hs))
      | inr short ↦ rw short (wait_balance_lem ctx registered s hs a (ground (arith, short)))
    ]
wait_balance_lem ctx phase s (handled c ∷ hs) a h =
    let now : announced (deposit_of s) c ≡ true = ground (arith, a) in
    let (deposit, balance) = step-amounts ctx s c in
    let later : all_announced (deposit_after (deposit_of s) c) hs ≡ true = ground (arith, a) in
    let next = advance-rightly ctx phase s c now h in
    wait_balance_lem ctx (advance ctx phase s (handled c)) (step ctx s c) hs (rw deposit later)
      next.0
    ∙ rw (deposit, balance, next.1) refl

never_stopped :
    (attempts : List (Message → Attempt)) (message : Message) (queue : State)
    → ¬ ((deliver_always attempts message queue).1 ≡ stopped)
unfolding deliver_always deliver_message
never_stopped [] message queue h = cc h
never_stopped (a ∷ rest) message queue h =
    elim (Result-cases (attempt (record (a message) { condition = true }) queue).1) [
      | inr (e, r) ↦ absurd (ground (arith, r, h))
      | inl (delivered, r) ↦ absurd (ground (arith, r, h))
      | inl (expired, r) ↦
          never_stopped rest message (attempt (record (a message) { condition = true }) queue).0
            (ground (arith, r, h))
    ]

-- The attempts to deliver `becomeRelayNextRound` to an account, none of which is called off.
abbrev pub attempts_for : UInt256 → List (Message → Attempt) → List Attempt
attempts_for account attempts =
    map
      (λ a.
        record (a
          (record { function = become_relay_next_round_function; account = account; args = [] })) {
            condition = true;
          })
      attempts

Phase-cases :
    (phase : Phase)
    → (phase ≡ left) ⊎ ((is_left phase ≡ false) × ((phase ≡ looking) ⊎ (phase ≡ registered)))
Phase-cases left = inl refl
Phase-cases looking = inr (refl, inl refl)
Phase-cases registered = inr (refl, inr refl)

waits :
    (ctx : Context) (account : UInt256) (s : Staking) (hs : List Happening)
    (attempts : List (Message → Attempt)) (queue : State)
    → (wait_balance ctx looking s hs ≡ looking) ⊎ (wait_balance ctx looking s hs ≡ registered)
    → become_relay_next_round ctx account s hs attempts queue ≡ (queue, waiting)
unfolding become_relay_next_round
waits ctx account s hs attempts queue h = elim h [
  | inl e ↦ rw (e, become_relay_next_round) refl
  | inr e ↦ rw (e, become_relay_next_round) refl
]

-- The deposit is that of the last event of the staking contract, the balance that of the last
-- deposit, and before such an event they are those of the state at the start. If the deposit
-- changes only with the events that announce it, then for any order of the events and of the
-- points at which the task runs: the request to become a relay is delivered to the account of the
-- user data exactly if at one of these points the balance covers the deposit and an attempt is
-- answered as delivered after all before it expired; the delivery is never called off; and if
-- there is no such point, the task waits and has left the queue as it was.
pub become_relay_next_round_lem :
    (ctx : Context) (account : UInt256) (s : Staking) (hs : List Happening)
    (attempts : List (Message → Attempt)) (queue : State)
    → all_announced s.round_state.min_relay_deposit hs ≡ true
    → let result = become_relay_next_round ctx account s hs attempts queue in
      ((result.1 ≡ done) ↔ (
        (covered s.round_state.min_relay_deposit s.user_data_balance hs ≡ true)
        × Delivered (attempts_for account attempts) queue))
      × (¬ (result.1 ≡ stopped))
      × ((covered s.round_state.min_relay_deposit s.user_data_balance hs ≡ true)
          ⊎ (result ≡ (queue, waiting)))
unfolding become_relay_next_round request deliver_always
become_relay_next_round_lem ctx account s hs attempts queue announced =
    let leaves = wait_balance_lem ctx looking s hs announced refl in
    elim (Phase-cases (wait_balance ctx looking s hs)) [
      | inl e ↦
          (let here : covered s.round_state.min_relay_deposit s.user_data_balance hs ≡ true =
              ground (arith, leaves, e) in
            let delivers = deliver_message_iff (attempts_for account attempts) queue in
            rw (e, become_relay_next_round)
              (
                (λ h. (here, delivers.0 h), λ h. delivers.1 h.1),
                never_stopped attempts (request account) queue,
                inl here,
              ))
      | inr short ↦
          (let never : covered s.round_state.min_relay_deposit s.user_data_balance hs ≡ false =
              ground (arith, leaves, short.0) in
            let stays = waits ctx account s hs attempts queue short.1 in
            rw stays ((λ h. absurd (cc h), λ h. absurd (cc (h.0, never))), λ h. cc h, inr refl))
    ]
