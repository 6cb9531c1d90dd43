-- ===== src/TonSubscriber/Blocks.antt =====
-- src/engine/ton_subscriber/mod.rs, `TonSubscriber`: its state, the registration of subscriptions and
-- the handling of a block of a shard. The parts of a block can fail to be read before anything is
-- changed: such a block is the error that the handler returns.
use ton_eth_bridge_relay.Base.{
  ℕ, suc, ◌-◌, Bool, true, false, Option, none, some, List, [], ◌∷◌, ◌++◌, Map, get, insert, adjust,
  ltb, if◌then◌else◌, ok, err, nat_eq,
}
use ton_eth_bridge_relay.Errors.{Fallible}
use ton_eth_bridge_relay.Shards.{UInt256, contains_account}
use ton_eth_bridge_relay.Messages as Messages
use ton_eth_bridge_relay.TonSubscriber.Subscriptions.{
  StateSubscription, StateSubscriptionStatus, status_alive, partly_alive, status_stopped,
  new_subscription, update_status, World, ShardBlock, handle_block, receiver_count,
}
use ton_eth_bridge_relay.TonSubscriber.Masterchain.{Awaiters}

abbrev pub Subscriptions : Type 0
Subscriptions = Map UInt256 StateSubscription

-- One account of `add_transactions_subscription`.
unfoldable pub add_one : UInt256 → ℕ → Subscriptions → Subscriptions
unfolding new_subscription
add_one account observer m = elim (get m account) [
  | none ↦ insert m account (new_subscription (observer ∷ []))
  | some _ ↦
      adjust m account (λ s. record s {
        transaction_subscriptions = s.transaction_subscriptions ++ (observer ∷ []);
      })
]

unfoldable pub add_transactions_subscription : List UInt256 → ℕ → Subscriptions → Subscriptions
unfolding add_one
add_transactions_subscription [] observer m = m
add_transactions_subscription (account ∷ accounts) observer m =
    add_transactions_subscription accounts observer (add_one account observer m)

abbrev pub join : StateSubscription → StateSubscription
join s = record s { waiters = suc s.waiters }

-- The first part of `get_contract_state` and `wait_contract_state`: a clone of `state_rx`, which has
-- seen what the original has.
unfoldable pub start_waiting : UInt256 → Subscriptions → Subscriptions × ℕ
unfolding new_subscription
start_waiting account m = elim (get m account) [
  | none ↦ (insert m account (join (new_subscription [])), 0)
  | some s ↦ (adjust m account join, s.seen)
]

-- The clone is dropped at the end.
unfoldable pub stop_waiting : UInt256 → Subscriptions → Subscriptions
stop_waiting account m = adjust m account (λ s. record s { waiters = s.waiters - 1 })

-- `state_tx.send(account)`: it fails if there is no receiver.
unfoldable pub send : StateSubscription → Option UInt256 → StateSubscription × Bool
send s value =
    if ltb 0 (receiver_count s)
    then (record s { value = value; version = suc s.version }, true)
    else (s, false)

-- The subscription after the state is sent, and whether it is kept.
unfoldable pub send_state :
    ShardBlock → UInt256 → StateSubscription → StateSubscriptionStatus → StateSubscription × Bool
unfolding send
send_state block account s status_alive = elim (block.shard_accounts account) [
  | err e ↦ (s, true)
  | ok value ↦ send s value
]
-- `state_rx.borrow_and_update()`.
send_state block account s partly_alive = (record s { seen = s.version }, true)
send_state block account s status_stopped = (record s { seen = s.version }, true)

-- What the closure of the `retain` returns and changes.
pub record Visit : Type 0 where
  pub keep : Bool
  pub subscription : StateSubscription
  pub world : World

unfoldable pub visit_shard :
    (ℕ → Bool) → ShardBlock → UInt256 → StateSubscription → StateSubscriptionStatus → World → Visit
unfolding send_state handle_block
visit_shard alive block account s status w =
    let sent = send_state block account s status in
    record {
      keep = sent.1;
      subscription = sent.0;
      world = handle_block alive block account sent.0 w;
    }

unfoldable pub visit : (ℕ → Bool) → ShardBlock → UInt256 → StateSubscription → World → Visit
unfolding update_status visit_shard
visit alive block account s w =
    let updated = update_status alive s in
    elim updated.1 [
      | status_stopped ↦ record { keep = false; subscription = updated.0; world = w }
      | status ↦
          if contains_account block.shard account
          then visit_shard alive block account updated.0 status w
          else record { keep = true; subscription = updated.0; world = w }
    ]

unfoldable pub retain_loop : (ℕ → Bool) → ShardBlock → Subscriptions → World → Subscriptions × World
unfolding visit
retain_loop alive block [] w = ([], w)
retain_loop alive block ((account, s) ∷ m) w =
    let v = visit alive block account s w in
    let rest = retain_loop alive block m v.world in
    (if v.keep then (account, v.subscription) ∷ rest.0 else rest.0, rest.1)

pub record TonSubscriber : Type 0 where
  pub ready : Bool
  pub current_utime : ℕ
  pub state_subscriptions : Subscriptions
  pub awaiters : Awaiters
  pub world : World
  pub open world use *

unfoldable pub handle_shard_block :
    (ℕ → Bool) → TonSubscriber → Fallible ShardBlock → TonSubscriber × Fallible (Unit {0})
unfolding retain_loop
handle_shard_block alive t read =
    if t.ready
    then elim read [
      | err e ↦ (t, err e)
      | ok block ↦
          let (subscriptions, w) = retain_loop alive block t.state_subscriptions t.world in
          (
            record t {
              state_subscriptions = subscriptions;
              world = record w { queue = Messages.update w.queue block.shard block.gen_utime };
            },
            ok tt,
          )
    ]
    else (t, ok tt)
