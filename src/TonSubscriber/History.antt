-- ===== src/TonSubscriber/History.antt =====
-- What holds of a TON subscriber between two calls, over any history.
use ton_eth_bridge_relay.Base.{
  ltb, ◌+◌, if◌then◌else◌, ℕ, ◌≡◌, refl, ◌∙◌, sym, ap, subst, inl, inr, Bool, List, [], ◌∷◌, ◌++◌,
  Unique, get, ok, err, arith, nat_eq, Option-cases, insert-Unique, adjust-Unique,
}
use ton_eth_bridge_relay.Errors.{Fallible}
use ton_eth_bridge_relay.Shards.{UInt256}
use ton_eth_bridge_relay.Messages as Messages
use ton_eth_bridge_relay.Messages.{Call, adds}
use ton_eth_bridge_relay.Messages.Invariant.{Inv, run-Inv, init-Inv}
use ton_eth_bridge_relay.Messages.Notification.{waiting, told, run-init-Notified}
use ton_eth_bridge_relay.TonSubscriber.Subscriptions.{World, ShardBlock}
use ton_eth_bridge_relay.TonSubscriber.Masterchain.{ShardId, MasterchainBlock}
use ton_eth_bridge_relay.TonSubscriber.Blocks.{
  Subscriptions, TonSubscriber, add_one, add_transactions_subscription, start_waiting, stop_waiting,
  handle_shard_block, retain_loop, visit, join,
}
use ton_eth_bridge_relay.TonSubscriber.Accounts.{get-retain_loop-none}
use ton_eth_bridge_relay.TonSubscriber.Calls.{run-++, block_calls, handle_shard_block-run}
use ton_eth_bridge_relay.TonSubscriber.Process.{
  masterchain_block, shard_block, synced, other_status, engine_status_changed,
  handle_masterchain_block, process_block, Event, status_changed, processed, waits_shards,
  subscribes, starts_waiting, stops_waiting, adds_message, step, run, new,
}

add_one-Unique :
    (account : UInt256) (observer : ℕ) (m : Subscriptions)
    → Unique m
    → Unique (add_one account observer m)
unfolding add_one
add_one-Unique account observer m u = elim (Option-cases (get m account)) [
  | inl e ↦ rw (e, add_one) (insert-Unique m account _ u)
  | inr (s, e) ↦ rw (e, add_one) (adjust-Unique m account _ u)
]

subscription-Unique :
    (accounts : List UInt256) (observer : ℕ) (m : Subscriptions)
    → Unique m
    → Unique (add_transactions_subscription accounts observer m)
unfolding add_transactions_subscription
subscription-Unique [] observer m u = u
subscription-Unique (account ∷ accounts) observer m u =
    subscription-Unique accounts observer (add_one account observer m)
      (add_one-Unique account observer m u)

start_waiting-Unique :
    (account : UInt256) (m : Subscriptions) → Unique m → Unique (start_waiting account m).0
unfolding start_waiting
start_waiting-Unique account m u = elim (Option-cases (get m account)) [
  | inl e ↦ rw (e, start_waiting) (insert-Unique m account _ u)
  | inr (s, e) ↦ rw (e, start_waiting) (adjust-Unique m account join u)
]

retain_loop-Unique :
    (alive : ℕ → Bool) (block : ShardBlock) (m : Subscriptions) (w : World)
    → Unique m
    → Unique (retain_loop alive block m w).0
unfolding retain_loop
retain_loop-Unique alive block [] w u = tt
retain_loop-Unique alive block ((a, s) ∷ m) w u = ground (
  arith,
  get-retain_loop-none alive block m (visit alive block a s w).world a u.0,
  retain_loop-Unique alive block m (visit alive block a s w).world u.1,
)

handle_shard_block-Unique :
    (alive : ℕ → Bool) (t : TonSubscriber) (read : Fallible ShardBlock)
    → Unique t.state_subscriptions
    → Unique (handle_shard_block alive t read).0.state_subscriptions
unfolding handle_shard_block
handle_shard_block-Unique alive t (err e) u = ground arith
handle_shard_block-Unique alive t (ok block) u =
    ground (arith, retain_loop-Unique alive block t.state_subscriptions t.world u)

module _ (with_prefix_slice : ℕ → ℕ → Fallible ShardId) where
  -- The calls of the queue that an event leads to.
  pub calls : TonSubscriber → Event with_prefix_slice → List Call
  calls t (processed alive (shard_block read)) = block_calls alive t read
  calls t (adds_message id expire_at) = adds id expire_at ∷ []
  calls t _ = []

  pub run_calls : TonSubscriber → List (Event with_prefix_slice) → List Call
  run_calls t [] = []
  run_calls t (e ∷ es) = calls t e ++ run_calls (step with_prefix_slice t e) es

  masterchain-keeps :
      (t : TonSubscriber) (gen_utime : ℕ) (read : Fallible MasterchainBlock)
      → let t' = (handle_masterchain_block with_prefix_slice gen_utime read t).0 in
        (t'.queue ≡ t.queue) × (t'.state_subscriptions ≡ t.state_subscriptions)
  unfolding handle_masterchain_block
  masterchain-keeps t gen_utime (ok block) = ground arith
  masterchain-keeps t gen_utime (err e) = ground arith

  step-queue :
      (t : TonSubscriber) (e : Event with_prefix_slice)
      → (step with_prefix_slice t e).queue ≡ Messages.run t.queue (calls t e)
  unfolding step engine_status_changed process_block calls Messages.run Messages.step
  step-queue t (status_changed synced) = refl
  step-queue t (status_changed other_status) = refl
  step-queue t (processed alive (masterchain_block gen_utime read)) =
      (masterchain-keeps t gen_utime read).0
  step-queue t (processed alive (shard_block read)) = handle_shard_block-run alive t read
  step-queue t (waits_shards since) = refl
  step-queue t (subscribes accounts observer) = refl
  step-queue t (starts_waiting account) = refl
  step-queue t (stops_waiting account) = refl
  step-queue t (adds_message id expire_at) = refl

  step-Unique :
      (t : TonSubscriber) (e : Event with_prefix_slice)
      → Unique t.state_subscriptions
      → Unique (step with_prefix_slice t e).state_subscriptions
  unfolding step engine_status_changed process_block stop_waiting
  step-Unique t (status_changed synced) u = u
  step-Unique t (status_changed other_status) u = u
  step-Unique t (processed alive (masterchain_block gen_utime read)) u =
      rw ((masterchain-keeps t gen_utime read).1) u
  step-Unique t (processed alive (shard_block read)) u = handle_shard_block-Unique alive t read u
  step-Unique t (waits_shards since) u = u
  step-Unique t (subscribes accounts observer) u =
      subscription-Unique accounts observer t.state_subscriptions u
  step-Unique t (starts_waiting account) u = start_waiting-Unique account t.state_subscriptions u
  step-Unique t (stops_waiting account) u = adjust-Unique t.state_subscriptions account _ u
  step-Unique t (adds_message id expire_at) u = u

  -- Over any history of a subscriber, blocks that cannot be read and blocks before it is ready
  -- included, its queue is what a run of the queue's own calls gives, the calls of each event in turn:
  -- the added messages, and for each block of a shard its deliveries and its expiry.
  pub run-queue :
      (t : TonSubscriber) (es : List (Event with_prefix_slice))
      → (run with_prefix_slice t es).queue ≡ Messages.run t.queue (run_calls t es)
  unfolding run run_calls Messages.run
  run-queue t [] = refl
  run-queue t (e ∷ es) =
      run-queue (step with_prefix_slice t e) es
      ∙ ap (λ q. Messages.run q (run_calls (step with_prefix_slice t e) es)) (step-queue t e)
      ∙ sym (run-++ t.queue (calls t e) (run_calls (step with_prefix_slice t e) es))

  -- Every history keeps one subscription for each account and the invariant of the queue, whatever
  -- blocks are processed and whatever is subscribed, awaited and sent between them.
  pub run-Unique :
      (t : TonSubscriber) (es : List (Event with_prefix_slice))
      → Unique t.state_subscriptions
      → Inv t.queue
      → Unique (run with_prefix_slice t es).state_subscriptions
        × Inv (run with_prefix_slice t es).queue
  unfolding run
  run-Unique t [] u v = (u, v)
  run-Unique t (e ∷ es) u v =
      run-Unique (step with_prefix_slice t e) es (step-Unique t e u)
        (subst Inv (sym (step-queue t e)) (run-Inv t.queue (calls t e) v))

  -- After any history of a new subscriber with an empty queue, each account has one subscription, the
  -- queue's invariant holds, and each receiver that the queue gave out either still waits in exactly
  -- one entry or was sent exactly one status, while no other channel is held or sent to.
  pub run-new-Told :
      (es : List (Event with_prefix_slice)) (c : ℕ)
      → let t = run with_prefix_slice (new Messages.init) es in
        Unique t.state_subscriptions
        × Inv t.queue
        × (waiting t.queue.entries c + told t.queue.sent c ≡ (if ltb c t.queue.next then 1 else 0))
  unfolding new
  run-new-Told es c =
      let t = run with_prefix_slice (new Messages.init) es in
      let holds = run-Unique (new Messages.init) es tt init-Inv in
      (
        holds.0,
        holds.1,
        subst
            (λ (q : Messages.State).
              waiting q.entries c + told q.sent c ≡ (if ltb c q.next then 1 else 0))
            (sym (run-queue (new Messages.init) es))
            (run-init-Notified (run_calls (new Messages.init) es) c),
      )
