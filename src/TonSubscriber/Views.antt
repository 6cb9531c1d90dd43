-- ===== src/TonSubscriber/Views.antt =====
-- What each event does to those that wait for the current shards: to their invariant, and to one
-- channel.
use ton_eth_bridge_relay.Base.{
  ℕ, suc, ◌+◌, ◌≤◌, ◌<◌, ◌≡◌, refl, ◌∙◌, ap, Bool, true, false, Option, some, List, [], ◌∷◌, length,
  ok, err, nat_eq, inc, u64_mod, arith,
}
use ton_eth_bridge_relay.Errors.{Fallible}
use ton_eth_bridge_relay.TonSubscriber.Subscriptions.{ShardBlock}
use ton_eth_bridge_relay.TonSubscriber.Masterchain.{
  ShardId, LatestShardBlocks, MasterchainBlock, Awaiters, wait_shards, notify_awaiters,
}
use ton_eth_bridge_relay.TonSubscriber.Blocks.{TonSubscriber, handle_shard_block}
use ton_eth_bridge_relay.TonSubscriber.Process.{
  masterchain_block, shard_block, synced, other_status, engine_status_changed,
  handle_masterchain_block, process_block, Event, status_changed, processed, waits_shards,
  subscribes, starts_waiting, stops_waiting, adds_message, step, run,
}
use ton_eth_bridge_relay.TonSubscriber.Waiting.{
  awaiting, answers, awaiting-insert, left, tell, loop-awaiting, loop-answers, Fresh,
  wait_shards-Fresh, notify_awaiters-Fresh,
}

-- A channel: what its holders wait for, and what it was sent.
abbrev pub View : Type 0
View = List (Option ℕ) × List (Fallible LatestShardBlocks)

abbrev pub view : ℕ → Awaiters → View
view c a = (awaiting c a.mc_block_awaiters, answers c a.told)

handle_shard_block-keeps :
    (alive : ℕ → Bool) (t : TonSubscriber) (read : Fallible ShardBlock)
    → ((handle_shard_block alive t read).0.ready ≡ t.ready)
      × ((handle_shard_block alive t read).0.awaiters ≡ t.awaiters)
unfolding handle_shard_block
handle_shard_block-keeps alive t (err e) = ground arith
handle_shard_block-keeps alive t (ok block) = ground arith

module _ (with_prefix_slice : ℕ → ℕ → Fallible ShardId) where
  -- The subscriber is ready from the first `Synced` on.
  abbrev pub next_ready : Bool → Event with_prefix_slice → Bool
  next_ready ready (status_changed synced) = true
  next_ready ready _ = ready

  -- What an event does to a channel that is given out.
  abbrev pub see : Bool → Event with_prefix_slice → View → View
  see true (processed alive (masterchain_block gen_utime (ok block))) (l, rs) =
      (left with_prefix_slice block l, tell with_prefix_slice block l rs)
  see _ _ v = v

  step-ready :
      (t : TonSubscriber) (e : Event with_prefix_slice)
      → (step with_prefix_slice t e).ready ≡ next_ready t.ready e
  unfolding step engine_status_changed process_block handle_masterchain_block
  step-ready t (status_changed synced) = refl
  step-ready t (status_changed other_status) = refl
  step-ready t (processed alive (masterchain_block gen_utime (ok block))) = ground arith
  step-ready t (processed alive (masterchain_block gen_utime (err e))) = ground arith
  step-ready t (processed alive (shard_block read)) = (handle_shard_block-keeps alive t read).0
  step-ready t (waits_shards since) = refl
  step-ready t (subscribes accounts observer) = refl
  step-ready t (starts_waiting account) = refl
  step-ready t (stops_waiting account) = refl
  step-ready t (adds_message id expire_at) = refl

  -- The awaiters of a subscriber change in two ways.
  abbrev next_awaiters : Bool → Event with_prefix_slice → Awaiters → Awaiters
  next_awaiters ready (waits_shards since) a = (wait_shards since a).0
  next_awaiters true (processed alive (masterchain_block gen_utime (ok block))) a =
      notify_awaiters with_prefix_slice block a
  next_awaiters _ _ a = a

  step-awaiters :
      (t : TonSubscriber) (e : Event with_prefix_slice)
      → (step with_prefix_slice t e).awaiters ≡ next_awaiters t.ready e t.awaiters
  unfolding step engine_status_changed process_block handle_masterchain_block
  step-awaiters t (status_changed synced) = ground arith
  step-awaiters t (status_changed other_status) = ground arith
  step-awaiters t (processed alive (masterchain_block gen_utime (ok block))) = ground arith
  step-awaiters t (processed alive (masterchain_block gen_utime (err e))) = ground arith
  step-awaiters t (processed alive (shard_block read)) =
      ground (arith, (handle_shard_block-keeps alive t read).1)
  step-awaiters t (waits_shards since) = ground arith
  step-awaiters t (subscribes accounts observer) = ground arith
  step-awaiters t (starts_waiting account) = ground arith
  step-awaiters t (stops_waiting account) = ground arith
  step-awaiters t (adds_message id expire_at) = ground arith

  -- What is kept of an awaiters' state and a channel by an event: the counters grow by at most one.
  abbrev Next : ℕ → Awaiters → Awaiters → View → Type 0
  Next c a b v =
      Fresh b
      × (b.next_id ≤ suc a.next_id)
      × (a.next_channel ≤ b.next_channel)
      × (c < a.next_channel → view c b ≡ v)

  stays : (c : ℕ) (a : Awaiters) → Fresh a → Next c a a (view c a)
  stays c a f = (f, omega arith, omega arith, λ given. refl)

  inc-le : (n : ℕ) → inc n ≤ suc n
  inc-le n = omega arith

  waits-Next :
      (c : ℕ) (since : Option ℕ) (a : Awaiters)
      → suc a.next_id < u64_mod
      → Fresh a
      → Next c a (wait_shards since a).0 (view c a)
  unfolding wait_shards
  waits-Next c since a small f = (
    wait_shards-Fresh since a small f,
    inc-le a.next_id,
    omega arith,
    λ given.
        ap (λ l. (l, answers c a.told))
          (awaiting-insert a.mc_block_awaiters a.next_id c
            (record { since = since; tx = some a.next_channel }) (f.ids a.next_id (omega arith))
            (ground arith)),
  )

  notify-Next :
      (c : ℕ) (gen_utime : ℕ) (alive : ℕ → Bool) (block : MasterchainBlock) (a : Awaiters)
      → Fresh a
      → Next c a
          (notify_awaiters with_prefix_slice block a)
          (see true (processed alive (masterchain_block gen_utime (ok block))) (view c a))
  unfolding notify_awaiters
  notify-Next c gen_utime alive block a f = (
    notify_awaiters-Fresh with_prefix_slice block a f,
    omega arith,
    omega arith,
    λ given.
        rw
          (
            loop-awaiting with_prefix_slice block a.mc_block_awaiters a.told c,
            loop-answers with_prefix_slice block a.mc_block_awaiters a.told c,
          )
          refl,
  )

  next_awaiters-Next :
      (ready : Bool) (e : Event with_prefix_slice) (c : ℕ) (a : Awaiters)
      → suc a.next_id < u64_mod
      → Fresh a
      → Next c a (next_awaiters ready e a) (see ready e (view c a))
  next_awaiters-Next true (waits_shards since) c a small f = waits-Next c since a small f
  next_awaiters-Next false (waits_shards since) c a small f = waits-Next c since a small f
  next_awaiters-Next true (processed alive (masterchain_block gen_utime (ok block))) c a small f =
      notify-Next c gen_utime alive block a f
  next_awaiters-Next true (processed alive (masterchain_block gen_utime (err error))) c a small f =
      stays c a f
  next_awaiters-Next true (processed alive (shard_block read)) c a small f = stays c a f
  next_awaiters-Next false (processed alive block) c a small f = stays c a f
  next_awaiters-Next true (status_changed status) c a small f = stays c a f
  next_awaiters-Next false (status_changed status) c a small f = stays c a f
  next_awaiters-Next true (subscribes accounts observer) c a small f = stays c a f
  next_awaiters-Next false (subscribes accounts observer) c a small f = stays c a f
  next_awaiters-Next true (starts_waiting account) c a small f = stays c a f
  next_awaiters-Next false (starts_waiting account) c a small f = stays c a f
  next_awaiters-Next true (stops_waiting account) c a small f = stays c a f
  next_awaiters-Next false (stops_waiting account) c a small f = stays c a f
  next_awaiters-Next true (adds_message id expire_at) c a small f = stays c a f
  next_awaiters-Next false (adds_message id expire_at) c a small f = stays c a f

  unfoldable pub see_all : Bool → List (Event with_prefix_slice) → View → View
  see_all ready [] v = v
  see_all ready (e ∷ es) v = see_all (next_ready ready e) es (see ready e v)

  pub run-view :
      (t : TonSubscriber) (es : List (Event with_prefix_slice)) (c : ℕ)
      → t.awaiters.next_id + length es < u64_mod
      → c < t.awaiters.next_channel
      → Fresh t.awaiters
      → view c (run with_prefix_slice t es).awaiters ≡ see_all t.ready es (view c t.awaiters)
  unfolding run see_all
  run-view t [] c small given f = refl
  run-view t (e ∷ es) c small given f =
      let next : Next c t.awaiters (step with_prefix_slice t e).awaiters
          (see t.ready e (view c t.awaiters)) =
        rw (step-awaiters t e) (next_awaiters-Next t.ready e c t.awaiters (omega arith) f) in
      run-view (step with_prefix_slice t e) es c (omega (arith, next.1)) (omega (arith, next.2))
        next.0
      ∙ rw (next.3 given, step-ready t e) refl

  pub run-Fresh :
      (t : TonSubscriber) (es : List (Event with_prefix_slice))
      → t.awaiters.next_id + length es < u64_mod
      → Fresh t.awaiters
      → Fresh (run with_prefix_slice t es).awaiters
        × ((run with_prefix_slice t es).awaiters.next_id ≤ t.awaiters.next_id + length es)
  unfolding run
  run-Fresh t [] small f = (f, omega arith)
  run-Fresh t (e ∷ es) small f =
      let next : Next 0 t.awaiters (step with_prefix_slice t e).awaiters
          (see t.ready e (view 0 t.awaiters)) =
        rw (step-awaiters t e) (next_awaiters-Next t.ready e 0 t.awaiters (omega arith) f) in
      let later = run-Fresh (step with_prefix_slice t e) es (omega (arith, next.1)) next.0 in
      (later.0, omega (arith, later.1, next.1))
