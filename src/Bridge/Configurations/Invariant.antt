-- ===== src/Bridge/Configurations/Invariant.antt =====
-- What holds of the configurations between two methods.
use mathlib.Core.List.{Memᴰ}
use ton_eth_bridge_relay.Base.{
  ◌%◌, ◌≡◌, refl, subst, ◌⊎◌, inl, inr, none, some, Map, Unique, get, insert, length, u64_mod,
  nat_eq, ok, ◌==◌, arith, Bool-cases, Option-cases, insert-Unique, length-insert_new, get-insert,
  ==_iff, ==_refl,
}
use ton_eth_bridge_relay.Shards.{UInt256}
use ton_eth_bridge_relay.Contracts.{Cell, EventType, eth, ton}
use ton_eth_bridge_relay.Bridge.Configurations.Monad.{
  EthEventConfigurationState, TonEventConfigurationState, eth_event_configurations_tx,
  ton_event_configurations_tx, EthSubscription, Bridge, subscribe_transactions,
}
use ton_eth_bridge_relay.Bridge.Configurations.Methods.{
  add_event_code_hash, set_code_hashes, put_eth, put_ton, subscribe_eth,
}

abbrev pub eth_code : EthEventConfigurationState → Cell
eth_code c = c.details.basic_configuration.event_code

abbrev pub ton_code : TonEventConfigurationState → Cell
ton_code c = c.details.basic_configuration.event_code

abbrev pub eth_topic : UInt256 → EthEventConfigurationState → EthSubscription
eth_topic account c = record {
  chain_id = c.details.network_configuration.chain_id;
  address = c.details.network_configuration.event_emitter;
  topic_hash = c.event_abi.topic_hash;
  configuration_account = account;
}

pub record Inv (b : Bridge) : Type 0 where
  pub eth_unique : Unique b.eth_event_configurations
  pub ton_unique : Unique b.ton_event_configurations
  pub eth_counted :
      b.total_active_eth_event_configurations ≡ length b.eth_event_configurations % u64_mod
  pub ton_counted :
      b.total_active_ton_event_configurations ≡ length b.ton_event_configurations % u64_mod
  -- The code of each configuration's events is registered, with its kind.
  pub eth_hashed :
      (a : UInt256) (c : EthEventConfigurationState)
      → get b.eth_event_configurations a ≡ some c
      → get b.event_code_hashes (eth_code c) ≡ some eth
  pub ton_hashed :
      (a : UInt256) (c : TonEventConfigurationState)
      → get b.ton_event_configurations a ≡ some c
      → get b.event_code_hashes (ton_code c) ≡ some ton
  -- The relay listens to the EVM events and to the transactions of each configuration.
  pub eth_topics :
      (a : UInt256) (c : EthEventConfigurationState)
      → get b.eth_event_configurations a ≡ some c
      → Memᴰ (eth_topic a c) b.eth_subscriptions
  pub eth_heard :
      (a : UInt256) (c : EthEventConfigurationState)
      → get b.eth_event_configurations a ≡ some c
      → Memᴰ (a, eth_event_configurations_tx) b.transactions_subscriptions
  pub ton_heard :
      (a : UInt256) (c : TonEventConfigurationState)
      → get b.ton_event_configurations a ≡ some c
      → Memᴰ (a, ton_event_configurations_tx) b.transactions_subscriptions

-- A code that is registered stays so, and the new one is.
pub add_event_code_hash_lem :
    (h h' : Map UInt256 EventType) (code : Cell) (t : EventType)
    → add_event_code_hash h code t ≡ ok h'
    → ((x : Cell) (u : EventType) → get h x ≡ some u → get h' x ≡ some u) × (get h' code ≡ some t)
unfolding add_event_code_hash
add_event_code_hash_lem h h' code t e = elim (Option-cases (get h code)) [
  | inl absent ↦
      let same : insert h code t ≡ h' = ground (arith, absent) in
      rw (← same) (
        λ x u there. ground (arith, get-insert h code x t, ==_iff code x, absent),
        ground (arith, get-insert h code code t, ==_refl code),
      )
  | inr (known, there) ↦ (λ x u p. ground (arith, there), ground (arith, there))
]

pub set_code_hashes-Inv :
    (b : Bridge) (h : Map UInt256 EventType)
    → ((x : Cell) (u : EventType) → get b.event_code_hashes x ≡ some u → get h x ≡ some u)
    → Inv b
    → Inv (set_code_hashes h b)
set_code_hashes-Inv b h grows v = record {
  eth_unique = v.eth_unique;
  ton_unique = v.ton_unique;
  eth_counted = v.eth_counted;
  ton_counted = v.ton_counted;
  eth_hashed = λ a c e. grows (eth_code c) eth (v.eth_hashed a c e);
  ton_hashed = λ a c e. grows (ton_code c) ton (v.ton_hashed a c e);
  eth_topics = v.eth_topics;
  eth_heard = v.eth_heard;
  ton_heard = v.ton_heard;
}

-- A new entry of a map, or an old one.
insert_cases {ℓ} :
    {V : Type ℓ} (m : Map UInt256 V) (k a : UInt256) (v c : V)
    → get (insert m k v) a ≡ some c
    → ((k ≡ a) × (v ≡ c)) ⊎ (get m a ≡ some c)
insert_cases m k a v c e = elim (Bool-cases (k == a)) [
  | inl same ↦ inl (ground arith, ground (arith, get-insert m k a v))
  | inr other ↦ inr (ground (arith, get-insert m k a v))
]

-- A new ETH configuration, with its two subscriptions.
pub put_eth-Inv :
    (b : Bridge) (account : UInt256) (c : EthEventConfigurationState)
    → get b.eth_event_configurations account ≡ none
    → get b.event_code_hashes (eth_code c) ≡ some eth
    → Inv b
    → Inv (
        subscribe_transactions account eth_event_configurations_tx
          (subscribe_eth (eth_topic account c) (put_eth account c b)))
put_eth-Inv b account c absent known v = record {
  eth_unique = insert-Unique b.eth_event_configurations account c v.eth_unique;
  ton_unique = v.ton_unique;
  eth_counted =
      omega (arith, v.eth_counted, length-insert_new b.eth_event_configurations account c absent);
  ton_counted = v.ton_counted;
  eth_hashed = λ a d e. elim (insert_cases b.eth_event_configurations account a c d e) [
    | inl (p, q) ↦ subst (λ x. get b.event_code_hashes (eth_code x) ≡ some eth) q known
    | inr old ↦ v.eth_hashed a d old
  ];
  ton_hashed = v.ton_hashed;
  eth_topics = λ a d e. elim (insert_cases b.eth_event_configurations account a c d e) [
    | inl (p, q) ↦ Memᴰ.head (rw (p, q) refl)
    | inr old ↦ Memᴰ.tail (v.eth_topics a d old)
  ];
  eth_heard = λ a d e. elim (insert_cases b.eth_event_configurations account a c d e) [
    | inl (p, q) ↦ Memᴰ.head (rw p refl)
    | inr old ↦ Memᴰ.tail (v.eth_heard a d old)
  ];
  ton_heard = λ a d e. Memᴰ.tail (v.ton_heard a d e);
}

pub put_ton-Inv :
    (b : Bridge) (account : UInt256) (c : TonEventConfigurationState)
    → get b.ton_event_configurations account ≡ none
    → get b.event_code_hashes (ton_code c) ≡ some ton
    → Inv b
    → Inv (subscribe_transactions account ton_event_configurations_tx (put_ton account c b))
put_ton-Inv b account c absent known v = record {
  eth_unique = v.eth_unique;
  ton_unique = insert-Unique b.ton_event_configurations account c v.ton_unique;
  eth_counted = v.eth_counted;
  ton_counted =
      omega (arith, v.ton_counted, length-insert_new b.ton_event_configurations account c absent);
  eth_hashed = v.eth_hashed;
  ton_hashed = λ a d e. elim (insert_cases b.ton_event_configurations account a c d e) [
    | inl (p, q) ↦ subst (λ x. get b.event_code_hashes (ton_code x) ≡ some ton) q known
    | inr old ↦ v.ton_hashed a d old
  ];
  eth_topics = v.eth_topics;
  eth_heard = λ a d e. Memᴰ.tail (v.eth_heard a d e);
  ton_heard = λ a d e. elim (insert_cases b.ton_event_configurations account a c d e) [
    | inl (p, q) ↦ Memᴰ.head (rw p refl)
    | inr old ↦ Memᴰ.tail (v.ton_heard a d old)
  ];
}
