-- ===== src/TonSubscriber/Calls.antt =====
-- The calls of the queue of pending messages that a block of a shard leads to.
use ton_eth_bridge_relay.Base.{
  ℕ, ◌≡◌, refl, ◌∙◌, sym, ap, inl, inr, Bool, false, not, Option, none, some, List, [], ◌∷◌, ◌++◌,
  keep_if, if◌then◌else◌, ok, err, arith, Option-cases, Bool-cases,
}
use ton_eth_bridge_relay.Errors.{Fallible}
use ton_eth_bridge_relay.Shards.{UInt256, contains_account}
use ton_eth_bridge_relay.Messages as Messages
use ton_eth_bridge_relay.Messages.{Call, delivers, updates}
use ton_eth_bridge_relay.Transactions.{
  ext_in, int_msg, ext_out, Message, Description, ordinary, other_description, Transaction,
}
use ton_eth_bridge_relay.TonSubscriber.Subscriptions.{
  StateSubscription, is_empty, update_status, World, ShardBlock, executed, deliver,
  handle_transaction, handle_transactions, handle_account_block, handle_block,
}
use ton_eth_bridge_relay.TonSubscriber.Blocks.{
  Subscriptions, send_state, send, visit_shard, visit, retain_loop, TonSubscriber,
  handle_shard_block,
}

-- The transaction is an ordinary one that was not aborted.
abbrev pub succeeds : Fallible Description → Bool
succeeds (ok (ordinary aborted)) = not aborted
succeeds (ok other_description) = false
succeeds (err e) = false

-- The hash of the external message that a transaction executed, if there is one that can be read.
abbrev pub external_in : Option (UInt256 × Fallible Message) → Option UInt256
external_in none = none
external_in (some (hash, err e)) = none
external_in (some (hash, ok message)) = elim message.header [
  | ext_in ↦ some hash
  | int_msg ↦ none
  | ext_out ↦ none
]

abbrev pub delivered_by : Transaction → Option UInt256
delivered_by t = if succeeds t.description then external_in t.in_msg else none

-- An ordinary, not aborted transaction that executed an external message delivers it.
pub transaction_calls : UInt256 → Transaction → List Call
transaction_calls account t = elim (delivered_by t) [
  | none ↦ []
  | some hash ↦ delivers (record { account = account; message_hash = hash }) ∷ []
]

abbrev pub transactions_calls : UInt256 → List (Fallible Transaction) → List Call
transactions_calls account [] = []
transactions_calls account (err e ∷ ts) = transactions_calls account ts
transactions_calls account (ok t ∷ ts) =
    transaction_calls account t ++ transactions_calls account ts

abbrev pub account_calls : UInt256 → Fallible (Option (List (Fallible Transaction))) → List Call
account_calls account (ok (some ts)) = transactions_calls account ts
account_calls account (ok none) = []
account_calls account (err e) = []

-- Those of one subscription: none without an observer or outside of the shard.
abbrev pub subscription_calls : (ℕ → Bool) → ShardBlock → UInt256 → StateSubscription → List Call
subscription_calls alive block account s =
    if is_empty (keep_if alive s.transaction_subscriptions)
    then []
    else (if contains_account block.shard account
        then account_calls account (block.account_blocks account)
        else [])

pub deliveries : (ℕ → Bool) → ShardBlock → Subscriptions → List Call
deliveries alive block [] = []
deliveries alive block ((account, s) ∷ m) =
    subscription_calls alive block account s ++ deliveries alive block m

pub run-++ :
    (q : Messages.State) (cs ds : List Call)
    → Messages.run q (cs ++ ds) ≡ Messages.run (Messages.run q cs) ds
unfolding Messages.run
run-++ q [] ds = refl
run-++ q (c ∷ cs) ds = run-++ (Messages.step q c) cs ds

module _ (alive : ℕ → Bool) where
  pub queue-transaction :
      (account : UInt256) (os : List ℕ) (t : Transaction) (w : World)
      → (handle_transaction alive account os t w).queue
        ≡ elim (delivered_by t) [ none ↦ w.queue | some hash ↦ deliver account hash w.queue ]
  unfolding handle_transaction executed
  queue-transaction account os t w = ground arith

  run-transaction :
      (account : UInt256) (os : List ℕ) (t : Transaction) (w : World)
      → (handle_transaction alive account os t w).queue
        ≡ Messages.run w.queue (transaction_calls account t)
  unfolding transaction_calls Messages.run Messages.step deliver
  run-transaction account os t w = elim (Option-cases (delivered_by t)) [
    | inl e ↦ queue-transaction account os t w ∙ rw (e, transaction_calls) refl
    | inr (hash, e) ↦ queue-transaction account os t w ∙ rw (e, transaction_calls) refl
  ]

  queue-transactions :
      (account : UInt256) (os : List ℕ) (ts : List (Fallible Transaction)) (w : World)
      → (handle_transactions alive account os ts w).queue
        ≡ Messages.run w.queue (transactions_calls account ts)
  unfolding handle_transactions Messages.run
  queue-transactions account os [] w = refl
  queue-transactions account os (err e ∷ ts) w = queue-transactions account os ts w
  queue-transactions account os (ok t ∷ ts) w =
      queue-transactions account os ts (handle_transaction alive account os t w)
      ∙ ap (λ q. Messages.run q (transactions_calls account ts)) (run-transaction account os t w)
      ∙ sym (run-++ w.queue (transaction_calls account t) (transactions_calls account ts))

  queue-account_block :
      (account : UInt256) (os : List ℕ) (r : Fallible (Option (List (Fallible Transaction))))
      (w : World)
      → (handle_account_block alive account os r w).queue
        ≡ Messages.run w.queue (account_calls account r)
  unfolding handle_account_block Messages.run
  queue-account_block account os (ok none) w = refl
  queue-account_block account os (ok (some ts)) w = queue-transactions account os ts w
  queue-account_block account os (err e) w = refl

  queue-visit :
      (block : ShardBlock) (account : UInt256) (s : StateSubscription) (w : World)
      → (visit alive block account s w).world.queue
        ≡ Messages.run w.queue (subscription_calls alive block account s)
  unfolding visit update_status visit_shard handle_block Messages.run send_state send
  queue-visit block account s w = ground (
    arith,
    queue-account_block account (keep_if alive s.transaction_subscriptions)
        (block.account_blocks account) w,
  )

  pub queue-retain_loop :
      (block : ShardBlock) (m : Subscriptions) (w : World)
      → (retain_loop alive block m w).1.queue ≡ Messages.run w.queue (deliveries alive block m)
  unfolding retain_loop deliveries Messages.run
  queue-retain_loop block [] w = refl
  queue-retain_loop block ((account, s) ∷ m) w =
      queue-retain_loop block m (visit alive block account s w).world
      ∙ ap (λ q. Messages.run q (deliveries alive block m)) (queue-visit block account s w)
      ∙ sym (run-++ w.queue (subscription_calls alive block account s) (deliveries alive block m))

-- The calls of a block: the deliveries of the subscriptions in turn, then the expiry.
pub block_calls : (ℕ → Bool) → TonSubscriber → Fallible ShardBlock → List Call
block_calls alive t (err e) = []
block_calls alive t (ok block) =
    if t.ready
    then deliveries alive block t.state_subscriptions ++ (updates block.shard block.gen_utime ∷ [])
    else []

-- The queue after a block of a shard is what a run of the calls of that block makes of it: one
-- delivery for each external message that an ordinary, not aborted transaction of a subscribed
-- account with an observer executed, in the order of the subscriptions and transactions, and then
-- one expiry at the time of the block. A block that is not read, or comes before the subscriber is
-- ready, makes no call.
pub handle_shard_block-run :
    (alive : ℕ → Bool) (t : TonSubscriber) (read : Fallible ShardBlock)
    → (handle_shard_block alive t read).0.queue ≡ Messages.run t.queue (block_calls alive t read)
unfolding handle_shard_block block_calls Messages.run Messages.step
handle_shard_block-run alive t (err e) = ground arith
handle_shard_block-run alive t (ok block) = elim (Bool-cases t.ready) [
  | inr r ↦ rw (r, handle_shard_block, block_calls) refl
  | inl r ↦
      rw
        (
          r,
          handle_shard_block,
          block_calls,
          queue-retain_loop alive block t.state_subscriptions t.world,
          run-++ t.queue (deliveries alive block t.state_subscriptions)
              (updates block.shard block.gen_utime ∷ []),
        )
        refl
]
