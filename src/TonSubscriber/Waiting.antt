-- ===== src/TonSubscriber/Waiting.antt =====
-- Those that wait for the current shards, channel by channel.
use ton_eth_bridge_relay.Base.{
  ℕ, suc, ◌≤◌, ◌<◌, ◌≡◌, refl, ◌∙◌, ap, Bool, false, Option, none, some, List, [], ◌∷◌, Map, get,
  insert, if◌then◌else◌, ◌==◌, nat_eq, u64_mod, arith, get-insert,
}
use ton_eth_bridge_relay.Errors.{Fallible}
use ton_eth_bridge_relay.TonSubscriber.Masterchain.{
  ShardId, LatestShardBlocks, MasterchainBlock, Handler, Awaiters, wait_shards, is_early,
  extract_shards, handle_awaited, awaiters_loop, notify_awaiters,
}

abbrev holds : ℕ → Option ℕ → Bool
holds c none = false
holds c (some tx) = tx == c

-- What the holders of a channel wait for.
unfoldable pub awaiting : ℕ → Map ℕ Handler → List (Option ℕ)
awaiting c [] = []
awaiting c ((id, h) ∷ m) = if holds c h.tx then h.since ∷ awaiting c m else awaiting c m

-- What a channel was sent, the last first.
unfoldable pub answers :
    ℕ → List (ℕ × Fallible LatestShardBlocks) → List (Fallible LatestShardBlocks)
answers c [] = []
answers c ((tx, r) ∷ told) = if tx == c then r ∷ answers c told else answers c told

pub awaiting-insert :
    (m : Map ℕ Handler) (id c : ℕ) (h : Handler)
    → get m id ≡ none
    → holds c h.tx ≡ false
    → awaiting c (insert m id h) ≡ awaiting c m
unfolding awaiting get insert
awaiting-insert [] id c h n o = ground (arith, o)
awaiting-insert ((j, g) ∷ m) id c h n o = ground (arith, awaiting-insert m id c h)

pub awaiting-insert_own :
    (m : Map ℕ Handler) (id c : ℕ) (since : Option ℕ)
    → get m id ≡ none
    → awaiting c m ≡ []
    → awaiting c (insert m id (record { since = since; tx = some c })) ≡ since ∷ []
unfolding awaiting get insert
awaiting-insert_own [] id c since n e = ground arith
awaiting-insert_own ((j, g) ∷ m) id c since n e = ground (arith, awaiting-insert_own m id c since)

module _ (with_prefix_slice : ℕ → ℕ → Fallible ShardId) where
  -- One channel under a block: what is left to wait for, and what is told.
  abbrev pub left : MasterchainBlock → List (Option ℕ) → List (Option ℕ)
  left block [] = []
  left block (since ∷ l) =
      if is_early since block.gen_utime then since ∷ left block l else left block l

  abbrev pub tell :
      MasterchainBlock
      → List (Option ℕ)
      → List (Fallible LatestShardBlocks)
      → List (Fallible LatestShardBlocks)
  tell block [] acc = acc
  tell block (since ∷ l) acc =
      tell block l (
        if is_early since block.gen_utime
        then acc
        else extract_shards with_prefix_slice block ∷ acc)

  pub loop-awaiting :
      (block : MasterchainBlock) (m : Map ℕ Handler) (told : List (ℕ × Fallible LatestShardBlocks))
      (c : ℕ)
      → awaiting c (awaiters_loop with_prefix_slice block m told).0 ≡ left block (awaiting c m)
  unfolding awaiters_loop awaiting handle_awaited
  loop-awaiting block [] told c = refl
  loop-awaiting block ((id, h) ∷ m) told c =
      ground (arith, loop-awaiting block m (handle_awaited with_prefix_slice h block told).1 c)

  pub loop-answers :
      (block : MasterchainBlock) (m : Map ℕ Handler) (told : List (ℕ × Fallible LatestShardBlocks))
      (c : ℕ)
      → answers c (awaiters_loop with_prefix_slice block m told).1
        ≡ tell block (awaiting c m) (answers c told)
  unfolding awaiters_loop awaiting handle_awaited answers
  loop-answers block [] told c = refl
  loop-answers block ((id, h) ∷ m) told c =
      ground (arith, loop-answers block m (handle_awaited with_prefix_slice h block told).1 c)

  get-loop-none :
      (block : MasterchainBlock) (m : Map ℕ Handler) (told : List (ℕ × Fallible LatestShardBlocks))
      (j : ℕ)
      → get m j ≡ none
      → get (awaiters_loop with_prefix_slice block m told).0 j ≡ none
  unfolding awaiters_loop get handle_awaited
  get-loop-none block [] told j h = refl
  get-loop-none block ((id, g) ∷ m) told j h =
      ground (arith, get-loop-none block m (handle_awaited with_prefix_slice g block told).1 j)

-- Ids and channels that are not yet given out are not used.
pub record Fresh (a : Awaiters) : Type 0 where
  pub ids : (j : ℕ) → a.next_id ≤ j → get a.mc_block_awaiters j ≡ none
  pub channels :
      (c : ℕ) → a.next_channel ≤ c → (awaiting c a.mc_block_awaiters ≡ []) × (answers c a.told ≡ [])

pub wait_shards-Fresh :
    (since : Option ℕ) (a : Awaiters)
    → suc a.next_id < u64_mod
    → Fresh a
    → Fresh (wait_shards since a).0
unfolding wait_shards
wait_shards-Fresh since a small f =
    let h : Handler = record { since = since; tx = some a.next_channel } in
    record {
      ids = λ j later. rw (get-insert a.mc_block_awaiters a.next_id j h) (ground (arith, f.ids j));
      channels = λ c later. (
        awaiting-insert a.mc_block_awaiters a.next_id c h (f.ids a.next_id (omega arith))
              (ground arith)
            ∙ (f.channels c (omega arith)).0,
        (f.channels c (omega arith)).1,
      );
    }

module _ (with_prefix_slice : ℕ → ℕ → Fallible ShardId) where
  pub notify_awaiters-Fresh :
      (block : MasterchainBlock) (a : Awaiters)
      → Fresh a
      → Fresh (notify_awaiters with_prefix_slice block a)
  unfolding notify_awaiters
  notify_awaiters-Fresh block a f = record {
    ids = λ j later.
        get-loop-none with_prefix_slice block a.mc_block_awaiters a.told j (f.ids j later);
    channels = λ c later. (
      loop-awaiting with_prefix_slice block a.mc_block_awaiters a.told c
          ∙ ap (left with_prefix_slice block) (f.channels c later).0,
      loop-answers with_prefix_slice block a.mc_block_awaiters a.told c
          ∙ rw ((f.channels c later).0, (f.channels c later).1) refl,
    );
  }
