-- ===== src/TonSubscriber/Subscriptions.antt =====
-- src/engine/ton_subscriber/mod.rs, `StateSubscription`: what is kept for a subscribed account, and how
-- its transactions in a block are handled. Observers are numbered; `alive` tells which of them are
-- still held by somebody (`Weak::strong_count`).
use ton_eth_bridge_relay.Base.{
  ℕ, suc, Bool, true, false, Option, none, some, List, [], ◌∷◌, keep_if, ltb, if◌then◌else◌, ok,
  err, nat_eq,
}
use ton_eth_bridge_relay.Errors.{Fallible}
use ton_eth_bridge_relay.Shards.{UInt256, ShardIdent}
use ton_eth_bridge_relay.Messages as Messages
use ton_eth_bridge_relay.Messages.{PendingMessageId}
use ton_eth_bridge_relay.Transactions.{
  Header, ext_in, int_msg, ext_out, Message, ordinary, Transaction,
}

-- The watch channel holds the value that was sent last; `version` counts what was sent, `seen` is the
-- version that `state_rx` has seen, `waiters` the number of its clones, which the tasks hold that wait
-- for a state. A state is known by the hash of its cell.
pub record StateSubscription : Type 0 where
  pub value : Option UInt256
  pub version : ℕ
  pub seen : ℕ
  pub waiters : ℕ
  pub transaction_subscriptions : List ℕ

pub data StateSubscriptionStatus : Type 0 where
  status_alive partly_alive status_stopped : StateSubscriptionStatus

abbrev pub is_empty : List ℕ → Bool
is_empty [] = true
is_empty (x ∷ xs) = false

-- `watch::channel(None)` with the subscriptions; the receiver has seen the first value.
unfoldable pub new_subscription : List ℕ → StateSubscription
new_subscription subscriptions = record {
  value = none;
  version = 0;
  seen = 0;
  waiters = 0;
  transaction_subscriptions = subscriptions;
}

-- `receiver_count`: `state_rx` and its clones.
abbrev pub receiver_count : StateSubscription → ℕ
receiver_count s = suc s.waiters

unfoldable pub update_status :
    (ℕ → Bool) → StateSubscription → StateSubscription × StateSubscriptionStatus
update_status alive s =
    let left = keep_if alive s.transaction_subscriptions in
    (
      record s { transaction_subscriptions = left },
      if ltb 1 (receiver_count s)
          then status_alive
          else (if is_empty left then status_stopped else partly_alive),
    )

-- A transaction that an observer was given.
pub record Handled : Type 0 where
  pub observer : ℕ
  pub account : UInt256
  pub transaction : UInt256

-- What the handling of blocks changes besides the subscriptions: the queue of pending messages, and
-- what the observers were given, the last first.
pub record World : Type 0 where
  pub queue : Messages.State
  pub handled : List Handled

-- The result of the two tests on a transaction: the message that it executed, with its hash.
unfoldable pub executed : Transaction → Option (UInt256 × Message)
executed t = elim t.description [
  | ok (ordinary false) ↦ elim t.in_msg [
    | some (hash, ok message) ↦ some (hash, message)
    | _ ↦ none
  ]
  | _ ↦ none
]

abbrev pub is_external : Header → Bool
is_external ext_in = true
is_external int_msg = false
is_external ext_out = false

-- `messages_queue.deliver_message(*account, message_cell.hash())`.
unfoldable pub deliver : UInt256 → UInt256 → Messages.State → Messages.State
deliver account hash queue =
    Messages.deliver_message queue (record { account = account; message_hash = hash })

-- The loop over the subscriptions that are alive.
unfoldable pub hand_over : (ℕ → Bool) → UInt256 → UInt256 → List ℕ → List Handled → List Handled
hand_over alive account transaction [] handled = handled
hand_over alive account transaction (o ∷ os) handled = hand_over alive account transaction os (
    if alive o
    then record { observer = o; account = account; transaction = transaction } ∷ handled
    else handled)

-- The body of the loop over the transactions of an account.
unfoldable pub handle_transaction : (ℕ → Bool) → UInt256 → List ℕ → Transaction → World → World
unfolding executed deliver hand_over
handle_transaction alive account subscriptions t w = elim (executed t) [
  | none ↦ w
  | some (hash, message) ↦ record {
    queue = if is_external message.header then deliver account hash w.queue else w.queue;
    handled = hand_over alive account t.hash subscriptions w.handled;
  }
]

-- A transaction that cannot be parsed is skipped.
unfoldable pub handle_transactions :
    (ℕ → Bool) → UInt256 → List ℕ → List (Fallible Transaction) → World → World
unfolding handle_transaction
handle_transactions alive account subscriptions [] w = w
handle_transactions alive account subscriptions (err e ∷ ts) w =
    handle_transactions alive account subscriptions ts w
handle_transactions alive account subscriptions (ok t ∷ ts) w =
    handle_transactions alive account subscriptions ts
      (handle_transaction alive account subscriptions t w)

-- A block of a shard: its parts, as far as they are read.
pub record ShardBlock : Type 0 where
  pub shard : ShardIdent
  pub gen_utime : ℕ
  pub shard_accounts : UInt256 → Fallible (Option UInt256)
  pub account_blocks : UInt256 → Fallible (Option (List (Fallible Transaction)))

-- `StateSubscription::handle_block`; its errors are only logged.
unfoldable pub handle_account_block :
    (ℕ → Bool) → UInt256 → List ℕ → Fallible (Option (List (Fallible Transaction))) → World → World
unfolding handle_transactions
handle_account_block alive account subscriptions (err e) w = w
handle_account_block alive account subscriptions (ok none) w = w
handle_account_block alive account subscriptions (ok (some ts)) w =
    handle_transactions alive account subscriptions ts w

unfoldable pub handle_block : (ℕ → Bool) → ShardBlock → UInt256 → StateSubscription → World → World
unfolding handle_account_block
handle_block alive block account s w =
    if is_empty s.transaction_subscriptions
    then w
    else handle_account_block alive account s.transaction_subscriptions
        (block.account_blocks account) w
