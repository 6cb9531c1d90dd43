-- ===== src/EthSubscriber/Registry.antt =====
-- src/engine/eth_subscriber/mod.rs, `EthSubscriberRegistry`: the subscribers by chain, and the map of
-- the last block numbers, which they share.
use ton_eth_bridge_relay.Base.{ℕ, Option, List, [], ◌∷◌, Map, get, insert, ok, ok_or, ◌>>=◌, nat_eq}
use ton_eth_bridge_relay.Errors.{Fallible, unknown_chain_id}
use ton_eth_bridge_relay.EthSubscriber.Confirmations.Update.{EthSubscriber}
use ton_eth_bridge_relay.EthSubscriber.Confirmations.Update as Update

pub record EthSubscriberRegistry : Type 0 where
  pub subscribers : Map ℕ EthSubscriber
  pub last_block_numbers : Map ℕ ℕ

pub record EthConfig : Type 0 where
  pub chain_id : ℕ
  pub max_block_range : Option ℕ

-- The current block is what the network answers, or the error of the connection or of the answer.
unfoldable pub new_subscriber :
    EthConfig → Fallible ℕ → EthSubscriberRegistry → Fallible EthSubscriberRegistry
unfolding Update.new
new_subscriber config current_block registry = do
  block ← current_block
  let subscriber =
      Update.new config.chain_id config.max_block_range registry.last_block_numbers block
  ok (record {
    subscribers = insert registry.subscribers config.chain_id subscriber;
    last_block_numbers = subscriber.last_block_numbers;
  })

unfoldable pub add_all :
    List (EthConfig × Fallible ℕ) → EthSubscriberRegistry → Fallible EthSubscriberRegistry
unfolding new_subscriber
add_all [] registry = ok registry
add_all ((config, current_block) ∷ networks) registry = do
  registry' ← new_subscriber config current_block registry
  add_all networks registry'

unfoldable pub new : List (EthConfig × Fallible ℕ) → Fallible EthSubscriberRegistry
unfolding add_all
new networks = add_all networks (record { subscribers = []; last_block_numbers = [] })

unfoldable pub get_subscriber : EthSubscriberRegistry → ℕ → Option EthSubscriber
get_subscriber registry chain_id = get registry.subscribers chain_id

unfoldable pub get_last_block_number : EthSubscriberRegistry → ℕ → Fallible ℕ
get_last_block_number registry chain_id =
    ok_or (get registry.last_block_numbers chain_id) unknown_chain_id
