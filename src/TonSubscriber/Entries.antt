-- ===== src/TonSubscriber/Entries.antt =====
-- What the subscriptions do to the entry of a message that waits for its transaction.
use ton_eth_bridge_relay.Base.{
  ℕ, ◌≡◌, refl, ◌∙◌, ap, inl, inr, Bool, true, false, not, ◌&&◌, ◌||◌, Option, none, some, List, [],
  ◌∷◌, Unique, get, keep_if, ok, err, arith, nat_eq, Option-cases, Bool-cases, Result-cases, ◌==◌,
  get-remove, only_if,
}
use ton_eth_bridge_relay.Errors.{Fallible}
use ton_eth_bridge_relay.Shards.{UInt256, contains_account}
use ton_eth_bridge_relay.Messages as Messages
use ton_eth_bridge_relay.Messages.{
  PendingMessageId, PendingMessage, id_beq, id_beq_iff, id_eq, keeps,
}
use ton_eth_bridge_relay.Transactions.{Transaction}
use ton_eth_bridge_relay.TonSubscriber.Subscriptions.{
  StateSubscription, StateSubscriptionStatus, status_alive, partly_alive, status_stopped, is_empty,
  update_status, World, ShardBlock, deliver, handle_transaction, handle_transactions,
  handle_account_block, handle_block,
}
use ton_eth_bridge_relay.TonSubscriber.Calls.{delivered_by, queue-transaction}
use ton_eth_bridge_relay.TonSubscriber.Blocks.{
  Subscriptions, send_state, send, visit_shard, visit, retain_loop,
}

-- The transaction is ordinary, not aborted, and executed the external message with the hash.
abbrev pub executes : UInt256 → Transaction → Bool
executes hash t = elim (delivered_by t) [ none ↦ false | some h ↦ h == hash ]

abbrev pub any_executes : UInt256 → List (Fallible Transaction) → Bool
any_executes hash [] = false
any_executes hash (err e ∷ ts) = any_executes hash ts
any_executes hash (ok t ∷ ts) = executes hash t || any_executes hash ts

abbrev pub block_executes : UInt256 → Fallible (Option (List (Fallible Transaction))) → Bool
block_executes hash (ok (some ts)) = any_executes hash ts
block_executes hash (ok none) = false
block_executes hash (err e) = false

-- A subscription with an observer sees that the block executed the message.
pub sees : (ℕ → Bool) → ShardBlock → PendingMessageId → Option StateSubscription → Bool
sees alive block id none = false
sees alive block id (some s) =
    not (is_empty (keep_if alive s.transaction_subscriptions))
    && contains_account block.shard id.account
    && block_executes id.message_hash (block.account_blocks id.account)

-- The entry of a message in the queue of a world.
abbrev entry : World → PendingMessageId → Option PendingMessage
entry w id = get w.queue.entries id

abbrev pub unless {ℓ} : {A : Type ℓ} → Bool → Option A → Option A
unless true o = none
unless false o = o

pub only_if-unless {ℓ} :
    {A : Type ℓ} (p : A → Bool) (b : Bool) (o : Option A)
    → only_if p (unless b o) ≡ unless b (only_if p o)
only_if-unless p true o = refl
only_if-unless p false o = refl

get-deliver :
    (account hash : UInt256) (q : Messages.State) (id : PendingMessageId)
    → get (deliver account hash q).entries id
      ≡ unless ((account == id.account) && (hash == id.message_hash)) (get q.entries id)
unfolding deliver Messages.deliver_message
get-deliver account hash q id =
    let sent : PendingMessageId = record { account = account; message_hash = hash } in
    elim (Option-cases (get q.entries sent)) [
      | inl e ↦ rw (e, deliver, Messages.deliver_message) (ground (arith, e, id_beq_iff sent id))
      | inr (v, e) ↦
          rw (e, deliver, Messages.deliver_message) (ground (arith, get-remove q.entries sent id))
    ]

module _ (alive : ℕ → Bool) where
  entry-transaction :
      (account : UInt256) (os : List ℕ) (t : Transaction) (w : World) (id : PendingMessageId)
      → entry (handle_transaction alive account os t w) id
        ≡ unless ((account == id.account) && executes id.message_hash t) (entry w id)
  entry-transaction account os t w id = elim (Option-cases (delivered_by t)) [
    | inl e ↦ rw (queue-transaction alive account os t w, e) (ground arith)
    | inr (hash, e) ↦
        rw (queue-transaction alive account os t w, e)
          (ground (arith, get-deliver account hash w.queue id))
  ]

  entry-transactions :
      (account : UInt256) (os : List ℕ) (ts : List (Fallible Transaction)) (w : World)
      (id : PendingMessageId)
      → entry (handle_transactions alive account os ts w) id
        ≡ unless ((account == id.account) && any_executes id.message_hash ts) (entry w id)
  unfolding handle_transactions
  entry-transactions account os [] w id = ground arith
  entry-transactions account os (err e ∷ ts) w id = entry-transactions account os ts w id
  entry-transactions account os (ok t ∷ ts) w id =
      entry-transactions account os ts (handle_transaction alive account os t w) id
      ∙ ground (arith, entry-transaction account os t w id)

  entry-handle_block :
      (block : ShardBlock) (account : UInt256) (s : StateSubscription) (w : World)
      (id : PendingMessageId)
      → entry (handle_block alive block account s w) id
        ≡ unless
            ((account == id.account)
              && not (is_empty s.transaction_subscriptions)
              && block_executes id.message_hash (block.account_blocks account))
            (entry w id)
  unfolding handle_block handle_account_block
  entry-handle_block block account s w id = elim (Result-cases (block.account_blocks account)) [
    | inr (e, r) ↦ rw (r, handle_block, handle_account_block) (ground arith)
    | inl (o, r) ↦ elim (Option-cases o) [
      | inl e ↦ rw (r, e, handle_block, handle_account_block) (ground arith)
      | inr (ts, e) ↦
          rw (r, e, handle_block, handle_account_block)
            (ground (arith, entry-transactions account s.transaction_subscriptions ts w id))
    ]
  ]

  -- What a block does to the entry of a message, by the subscription that is visited.
  abbrev seen_by : ShardBlock → UInt256 → StateSubscription → PendingMessageId → Bool
  seen_by block account s id = (account == id.account) && sees alive block id (some s)

  send_state-observers :
      (block : ShardBlock) (account : UInt256) (s : StateSubscription)
      (status : StateSubscriptionStatus)
      → (send_state block account s status).0.transaction_subscriptions
        ≡ s.transaction_subscriptions
  unfolding send_state send
  send_state-observers block account s status_alive = ground arith
  send_state-observers block account s partly_alive = refl
  send_state-observers block account s status_stopped = refl

  entry-visit_shard :
      (block : ShardBlock) (account : UInt256) (s : StateSubscription)
      (status : StateSubscriptionStatus) (w : World) (id : PendingMessageId)
      → entry (visit_shard alive block account s status w).world id
        ≡ unless
            ((account == id.account)
              && not (is_empty s.transaction_subscriptions)
              && block_executes id.message_hash (block.account_blocks account))
            (entry w id)
  unfolding visit_shard
  entry-visit_shard block account s status w id =
      let sent = send_state block account s status in
      entry-handle_block block account sent.0 w id
      ∙ ap
          (λ (os : List ℕ).
            unless
              ((account == id.account)
                && not (is_empty os)
                && block_executes id.message_hash (block.account_blocks account))
              (entry w id))
          (send_state-observers block account s status)

  entry-visit :
      (block : ShardBlock) (account : UInt256) (s : StateSubscription) (w : World)
      (id : PendingMessageId)
      → entry (visit alive block account s w).world id
        ≡ unless (seen_by block account s id) (entry w id)
  unfolding visit update_status sees
  entry-visit block account s w id =
      let os = (update_status alive s).0 in
      ground (
        arith,
        entry-visit_shard block account os status_alive w id,
        entry-visit_shard block account os partly_alive w id,
      )

  entry-retain_loop-none :
      (block : ShardBlock) (m : Subscriptions) (w : World) (id : PendingMessageId)
      → get m id.account ≡ none
      → entry (retain_loop alive block m w).1 id ≡ entry w id
  unfolding get retain_loop
  entry-retain_loop-none block [] w id h = refl
  entry-retain_loop-none block ((b, s) ∷ m) w id h = ground (
    arith,
    entry-visit block b s w id,
    entry-retain_loop-none block m (visit alive block b s w).world id,
  )

  pub entry-retain_loop :
      (block : ShardBlock) (m : Subscriptions) (w : World) (id : PendingMessageId)
      → Unique m
      → entry (retain_loop alive block m w).1 id
        ≡ unless (sees alive block id (get m id.account)) (entry w id)
  unfolding get retain_loop sees
  entry-retain_loop block [] w id u = refl
  entry-retain_loop block ((b, s) ∷ m) w id u = elim (Bool-cases (b == id.account)) [
    | inl same ↦
        let absent : get m id.account ≡ none = ground (arith, same, u.0) in
        rw (same) (
          ground (
            arith,
            same,
            entry-visit block b s w id,
            entry-retain_loop-none block m (visit alive block b s w).world id absent,
          ))
    | inr other ↦ rw (other) (
        ground (
          arith,
          other,
          entry-visit block b s w id,
          entry-retain_loop block m (visit alive block b s w).world id u.1,
        ))
  ]
