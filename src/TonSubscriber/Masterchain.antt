-- ===== src/TonSubscriber/Masterchain.antt =====
-- src/engine/ton_subscriber/mod.rs: the wait for the current shards. A `oneshot` channel is a number;
-- `told` lists what was sent, the last first. A block of the masterchain has the parts that are read
-- from it; `with_prefix_slice` is the function of `ton_block::ShardIdent`.
use ton_eth_bridge_relay.Base.{
  ℕ, suc, ◌≡◌, ◌↔◌, Bool, true, false, ◌&&◌, Option, none, some, List, [], ◌∷◌, Map, insert, ltb,
  if◌then◌else◌, ok, ◌>>=◌, ◌==◌, Eq, nat_eq, inc, arith,
}
use ton_eth_bridge_relay.Errors.{Fallible}
use ton_eth_bridge_relay.Shards.{UInt256}

-- `ton_block::ShardIdent` as a key: the id of the workchain (of type i32, by its bits) and the prefix.
pub record ShardId : Type 0 where
  pub workchain_id : ℕ
  pub prefix : ℕ

abbrev pub shard_beq : ShardId → ShardId → Bool
shard_beq a b = (a.workchain_id == b.workchain_id) && (a.prefix == b.prefix)

pub shard_beq_iff : (a b : ShardId) → (shard_beq a b ≡ true) ↔ (a ≡ b)
shard_beq_iff a b = ground arith

instance abbrev pub shard_eq : Eq ShardId
shard_eq = record { beq = shard_beq; beq_iff = shard_beq_iff }

-- `ton_block::MASTERCHAIN_ID`, -1.
abbrev pub masterchain_id : ℕ
masterchain_id = 4294967295

-- `ton_block::BlockIdExt` and `ShardDescr`.
pub record BlockIdExt : Type 0 where
  pub shard_id : ShardId
  pub seq_no : ℕ
  pub root_hash : UInt256
  pub file_hash : UInt256

pub record ShardDescr : Type 0 where
  pub seq_no : ℕ
  pub root_hash : UInt256
  pub file_hash : UInt256

pub record LatestShardBlocks : Type 0 where
  pub current_utime : ℕ
  pub block_ids : Map ShardId BlockIdExt

-- The leaves of the trees of shards, by workchain; a prefix is known by a number. `custom` is what
-- the reading of the extra data and of its custom part gives.
abbrev pub Trees : Type 0
Trees = List (ℕ × List (ℕ × ShardDescr))

pub record MasterchainBlock : Type 0 where
  pub gen_utime : ℕ
  pub custom : Fallible (Option Trees)

pub data BlockAwaiterAction : Type 0 where
  retain_awaiter remove_awaiter : BlockAwaiterAction

pub record Handler : Type 0 where
  pub since : Option ℕ
  pub tx : Option ℕ

-- `BLOCK_AWAITER_ID` is `next_id`.
pub record Awaiters : Type 0 where
  pub mc_block_awaiters : Map ℕ Handler
  pub next_id : ℕ
  pub next_channel : ℕ
  pub told : List (ℕ × Fallible LatestShardBlocks)

-- The registration in `wait_shards`; its result is the receiver.
unfoldable pub wait_shards : Option ℕ → Awaiters → Awaiters × ℕ
wait_shards since a = (
  record a {
    mc_block_awaiters =
        insert a.mc_block_awaiters a.next_id (record { since = since; tx = some a.next_channel });
    next_id = inc a.next_id;
    next_channel = suc a.next_channel;
  },
  a.next_channel,
)

-- The test at the start of `Handler::handle_block`.
abbrev pub is_early : Option ℕ → ℕ → Bool
is_early none gen_utime = false
is_early (some since) gen_utime = ltb gen_utime since

module _ (with_prefix_slice : ℕ → ℕ → Fallible ShardId) where
  -- The closures of `extract_shards`.
  unfoldable pub add_shards :
      ℕ → List (ℕ × ShardDescr) → Map ShardId BlockIdExt → Fallible (Map ShardId BlockIdExt)
  add_shards wc_id [] block_ids = ok block_ids
  add_shards wc_id ((prefix, descr) ∷ leaves) block_ids = do
    shard_id ← with_prefix_slice wc_id prefix
    add_shards wc_id leaves (
        insert block_ids shard_id (record {
          shard_id = shard_id;
          seq_no = descr.seq_no;
          root_hash = descr.root_hash;
          file_hash = descr.file_hash;
        }))

  unfoldable pub add_workchains : Trees → Map ShardId BlockIdExt → Fallible (Map ShardId BlockIdExt)
  unfolding add_shards
  add_workchains [] block_ids = ok block_ids
  add_workchains ((wc_id, leaves) ∷ trees) block_ids = do
    added ← if wc_id == masterchain_id then ok block_ids else add_shards wc_id leaves block_ids
    add_workchains trees added

  unfoldable pub shards_of : ℕ → Option Trees → Fallible LatestShardBlocks
  unfolding add_workchains
  shards_of current_utime none = ok (record { current_utime = current_utime; block_ids = [] })
  shards_of current_utime (some trees) = do
    block_ids ← add_workchains trees []
    ok (record { current_utime = current_utime; block_ids = block_ids })

  unfoldable pub extract_shards : MasterchainBlock → Fallible LatestShardBlocks
  unfolding shards_of
  extract_shards block = do custom ← block.custom; shards_of block.gen_utime custom

  abbrev pub send_shards :
      Option ℕ
      → MasterchainBlock
      → List (ℕ × Fallible LatestShardBlocks)
      → List (ℕ × Fallible LatestShardBlocks)
  send_shards none block told = told
  send_shards (some tx) block told = (tx, extract_shards block) ∷ told

  -- `Handler::handle_block`: the handler after it, what is sent, and the action; it never fails.
  unfoldable pub handle_awaited :
      Handler
      → MasterchainBlock
      → List (ℕ × Fallible LatestShardBlocks)
      → Handler × List (ℕ × Fallible LatestShardBlocks) × BlockAwaiterAction
  unfolding extract_shards
  handle_awaited h block told =
      if is_early h.since block.gen_utime
      then (h, told, retain_awaiter)
      else (record h { tx = none }, send_shards h.tx block told, remove_awaiter)

  -- The `retain` of `handle_masterchain_block`.
  unfoldable pub awaiters_loop :
      MasterchainBlock
      → Map ℕ Handler
      → List (ℕ × Fallible LatestShardBlocks)
      → Map ℕ Handler × List (ℕ × Fallible LatestShardBlocks)
  unfolding handle_awaited
  awaiters_loop block [] told = ([], told)
  awaiters_loop block ((id, h) ∷ m) told =
      let (h', told', action) = handle_awaited h block told in
      let rest = awaiters_loop block m told' in
      (elim action [ retain_awaiter ↦ (id, h') ∷ rest.0 | remove_awaiter ↦ rest.0 ], rest.1)

  unfoldable pub notify_awaiters : MasterchainBlock → Awaiters → Awaiters
  unfolding awaiters_loop
  notify_awaiters block a =
      let (awaiters, told) = awaiters_loop block a.mc_block_awaiters a.told in
      record a { mc_block_awaiters = awaiters; told = told }
