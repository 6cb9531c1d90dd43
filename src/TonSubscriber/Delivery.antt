-- ===== src/TonSubscriber/Delivery.antt =====
-- What a block of a shard does to the messages that wait for their transactions.
use ton_eth_bridge_relay.Base.{
  ℕ, ◌≡◌, ◌∙◌, sym, ap, subst, Bool, true, Unique, get, ok, nat_eq, only_if,
}
use ton_eth_bridge_relay.Messages.{PendingMessageId, id_eq}
use ton_eth_bridge_relay.Messages.Invariant.{Inv, run-Inv}
use ton_eth_bridge_relay.Messages.Expiry.{outlives, entry-update}
use ton_eth_bridge_relay.TonSubscriber.Subscriptions.{ShardBlock}
use ton_eth_bridge_relay.TonSubscriber.Calls.{
  deliveries, block_calls, queue-retain_loop, handle_shard_block-run,
}
use ton_eth_bridge_relay.TonSubscriber.Blocks.{retain_loop, TonSubscriber, handle_shard_block}
use ton_eth_bridge_relay.TonSubscriber.Entries.{unless, only_if-unless, sees, entry-retain_loop}

-- A block of a shard that is read when the subscriber is ready, with a queue whose invariant holds
-- and one subscription for each account: the entry of a message leaves the queue if its account is
-- in the shard, an observer of the account is left and the block has an ordinary, not aborted
-- transaction of the account that executed the message; any other entry stays as it was, unless it
-- expired before the time of the block and its account is in the shard. The invariant holds again.
pub handle_shard_block_delivers :
    (alive : ℕ → Bool) (t : TonSubscriber) (block : ShardBlock) (id : PendingMessageId)
    → t.ready ≡ true
    → Inv t.queue
    → Unique t.state_subscriptions
    → (get (handle_shard_block alive t (ok block)).0.queue.entries id
        ≡ unless
            (sees alive block id (get t.state_subscriptions id.account))
            (only_if (outlives block.shard block.gen_utime id) (get t.queue.entries id)))
      × Inv (handle_shard_block alive t (ok block)).0.queue
unfolding handle_shard_block
handle_shard_block_delivers alive t block id ready inv u =
    let inv' : Inv (retain_loop alive block t.state_subscriptions t.world).1.queue =
      subst Inv (sym (queue-retain_loop alive block t.state_subscriptions t.world))
        (run-Inv t.queue (deliveries alive block t.state_subscriptions) inv) in
    (
      rw (ready, handle_shard_block)
          (entry-update (retain_loop alive block t.state_subscriptions t.world).1.queue block.shard
              block.gen_utime id inv'
            ∙ ap (only_if (outlives block.shard block.gen_utime id))
                (entry-retain_loop alive block t.state_subscriptions t.world id u)
            ∙ only_if-unless (outlives block.shard block.gen_utime id)
                (sees alive block id (get t.state_subscriptions id.account))
                (get t.queue.entries id)),
      subst Inv (sym (handle_shard_block-run alive t (ok block)))
          (run-Inv t.queue (block_calls alive t (ok block)) inv),
    )
