-- ===== src/TonSubscriber/Accounts.antt =====
-- What a block of a shard does to each subscription.
use ton_eth_bridge_relay.Base.{
  ℕ, suc, ◌≡◌, refl, inl, inr, Bool, true, not, ◌&&◌, Option, none, some, [], ◌∷◌, Unique, get,
  keep_if, ltb, if◌then◌else◌, ok, err, arith, nat_eq, Bool-cases, ==_iff,
}
use ton_eth_bridge_relay.Errors.{Fallible}
use ton_eth_bridge_relay.Shards.{UInt256, contains_account}
use ton_eth_bridge_relay.TonSubscriber.Subscriptions.{
  StateSubscription, is_empty, update_status, World, ShardBlock,
}
use ton_eth_bridge_relay.TonSubscriber.Blocks.{
  Subscriptions, Visit, send, send_state, visit_shard, visit, retain_loop, TonSubscriber,
  handle_shard_block,
}

-- The subscription with the observers that are left.
abbrev pub pruned : (ℕ → Bool) → StateSubscription → StateSubscription
pruned alive s = record s { transaction_subscriptions = keep_if alive s.transaction_subscriptions }

-- A task waits for a state of the account.
abbrev pub is_awaited : StateSubscription → Bool
is_awaited s = ltb 0 s.waiters

-- What those who wait are sent: the state in the block, unless it cannot be read.
abbrev pub with_state : Fallible (Option UInt256) → StateSubscription → StateSubscription
with_state (ok value) s = record s { value = value; version = suc s.version }
with_state (err e) s = s

-- What is left of a subscription after a block.
pub after_block : (ℕ → Bool) → ShardBlock → UInt256 → StateSubscription → Option StateSubscription
after_block alive block account s =
    if not (is_awaited s) && is_empty (keep_if alive s.transaction_subscriptions)
    then none
    else some (
        if contains_account block.shard account
        then (if is_awaited s
            then with_state (block.shard_accounts account) (pruned alive s)
            else record (pruned alive s) { seen = s.version })
        else pruned alive s)

abbrev pub kept_of : Visit → Option StateSubscription
kept_of v = if v.keep then some v.subscription else none

module _ (alive : ℕ → Bool) (block : ShardBlock) where
  visit-after_block :
      (account : UInt256) (s : StateSubscription) (w : World)
      → kept_of (visit alive block account s w) ≡ after_block alive block account s
  unfolding visit after_block update_status visit_shard send_state send
  visit-after_block account s w = elim (Bool-cases (is_awaited s)) [
    | inl awaited ↦ ground (arith, awaited)
    | inr idle ↦ ground (arith, idle)
  ]

  pub get-retain_loop-none :
      (m : Subscriptions) (w : World) (a : UInt256)
      → get m a ≡ none
      → get (retain_loop alive block m w).0 a ≡ none
  unfolding get retain_loop
  get-retain_loop-none [] w a h = refl
  get-retain_loop-none ((b, s) ∷ m) w a h =
      ground (arith, get-retain_loop-none m (visit alive block b s w).world a)

  -- What is left of an optional subscription.
  abbrev pub left_of : UInt256 → Option StateSubscription → Option StateSubscription
  left_of a none = none
  left_of a (some s) = after_block alive block a s

  get-retain_loop :
      (m : Subscriptions) (w : World) (a : UInt256)
      → Unique m
      → get (retain_loop alive block m w).0 a ≡ left_of a (get m a)
  unfolding get retain_loop
  get-retain_loop [] w a u = refl
  get-retain_loop ((b, s) ∷ m) w a u = ground (
    arith,
    ==_iff b a,
    get-retain_loop m (visit alive block b s w).world a u.1,
    get-retain_loop-none m (visit alive block b s w).world b u.0,
    visit-after_block b s w,
  )

-- A block of a shard that is read when the subscriber is ready: a subscription goes exactly if nobody
-- waits for its account and no observer is left, also outside the shard; in the shard those who wait
-- are sent the state in the block, and when nobody waits the channel's value counts as seen, so that
-- later ones wait for a newer block; nothing else of it changes but the observers that are gone.
pub handle_shard_block_accounts :
    (alive : ℕ → Bool) (t : TonSubscriber) (block : ShardBlock) (a : UInt256)
    → t.ready ≡ true
    → Unique t.state_subscriptions
    → get (handle_shard_block alive t (ok block)).0.state_subscriptions a
      ≡ left_of alive block a (get t.state_subscriptions a)
unfolding handle_shard_block
handle_shard_block_accounts alive t block a ready u =
    rw (ready, handle_shard_block) (get-retain_loop alive block t.state_subscriptions t.world a u)
