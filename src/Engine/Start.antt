-- ===== src/Engine/Start.antt =====
-- src/engine/mod.rs, `Engine::start` and `EngineContext::get_all_shard_accounts`. The parts that are
-- started are modelled in modules of their own: here they are the results of their starts.
use ton_eth_bridge_relay.Base.{
  Bool, true, Option, some, List, [], ◌∷◌, Map, insert, ok, err, ok_or, ◌>>=◌,
}
use ton_eth_bridge_relay.Errors.{Fallible, bridge_account_not_found}
use ton_eth_bridge_relay.Shards.{UInt256}
use ton_eth_bridge_relay.TonSubscriber.Masterchain.{
  ShardId, shard_eq, BlockIdExt, LatestShardBlocks,
}

-- What the parts answer when they are started, in turn.
pub record Stages {ℓ κ} (Bridge : Type ℓ) (Staking : Type κ) : Type (ℓ ⊔ κ) where
  -- The node, and the subscriber.
  pub ton_engine : Fallible (Unit {0})
  pub ton_subscriber : Fallible (Unit {0})
  -- The state of the bridge contract, with the staking address of its details.
  pub bridge_contract : Fallible (Option (Fallible UInt256))
  pub new_bridge : Fallible Bridge
  pub new_staking : UInt256 → Fallible Staking

pub record Engine {ℓ κ} (Bridge : Type ℓ) (Staking : Type κ) : Type (ℓ ⊔ κ) where
  pub exports_metrics : Bool
  pub bridge : Option Bridge
  pub staking : Option Staking
  pub eth_subscribers_started : Bool

module _ {ℓ κ} {Bridge : Type ℓ} {Staking : Type κ} where
  unfoldable pub start_context : Stages Bridge Staking → Fallible (Unit {0})
  start_context stages = do started ← stages.ton_engine; stages.ton_subscriber

  -- The details of the bridge, before anything is started for it.
  unfoldable pub staking_address : Stages Bridge Staking → Fallible UInt256
  unfolding start_context
  staking_address stages = do
    started ← start_context stages
    found ← stages.bridge_contract
    contract ← ok_or found bridge_account_not_found
    contract

  unfoldable pub start_staking :
      Stages Bridge Staking
      → UInt256
      → Engine Bridge Staking
      → Engine Bridge Staking × Fallible (Unit {0})
  start_staking stages address e = elim (stages.new_staking address) [
    | err error ↦ (e, err error)
    | ok staking ↦ (record e { staking = some staking; eth_subscribers_started = true }, ok tt)
  ]

  unfoldable pub start_bridge :
      Stages Bridge Staking
      → UInt256
      → Engine Bridge Staking
      → Engine Bridge Staking × Fallible (Unit {0})
  unfolding start_staking
  start_bridge stages address e = elim stages.new_bridge [
    | err error ↦ (e, err error)
    | ok bridge ↦ start_staking stages address (record e { bridge = some bridge })
  ]

  unfoldable pub start :
      Stages Bridge Staking → Engine Bridge Staking → Engine Bridge Staking × Fallible (Unit {0})
  unfolding staking_address start_bridge
  start stages e =
      let exporting = record e { exports_metrics = true } in
      elim (staking_address stages) [
        | err error ↦ (exporting, err error)
        | ok address ↦ start_bridge stages address exporting
      ]

-- `wait_state` and `read_accounts` for each block.
module _ {ℓ} {Accounts : Type ℓ} (read_accounts : BlockIdExt → Fallible Accounts) where
  unfoldable pub add_accounts :
      List (ShardId × BlockIdExt) → Map ShardId Accounts → Fallible (Map ShardId Accounts)
  add_accounts [] shard_accounts = ok shard_accounts
  add_accounts ((shard_ident, block_id) ∷ blocks) shard_accounts = do
    accounts ← read_accounts block_id
    add_accounts blocks (insert shard_accounts shard_ident accounts)

  -- The result of `wait_shards(None)` is given.
  unfoldable pub get_all_shard_accounts :
      Fallible LatestShardBlocks → Fallible (Map ShardId Accounts)
  unfolding add_accounts
  get_all_shard_accounts shards = do latest ← shards; add_accounts latest.block_ids []
