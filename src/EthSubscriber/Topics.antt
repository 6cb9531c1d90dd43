-- ===== src/EthSubscriber/Topics.antt =====
-- src/engine/eth_subscriber/mod.rs, `TopicsMap`: what the subscriber asks the chain's logs for.
pub mod Coverage
use ton_eth_bridge_relay.Base.{
  ℕ, ◌≡◌, ◌↔◌, Bool, true, false, not, ◌&&◌, ◌||◌, Option, none, some, List, [], ◌∷◌, Eq, ◌==◌,
  if◌then◌else◌, contains, any, keep_if, arith,
}
use ton_eth_bridge_relay.Shards.{UInt256}
use ton_eth_bridge_relay.Contracts.{EthAddress}

pub record TopicsMapEntry : Type 0 where
  pub address : EthAddress
  pub topic_hash : UInt256
  pub configuration_account : UInt256

abbrev pub same_entry : TopicsMapEntry → TopicsMapEntry → Bool
same_entry a b =
    (a.address == b.address)
    && (a.topic_hash == b.topic_hash)
    && (a.configuration_account == b.configuration_account)

-- `entries` is a hash set; the two vectors come from hash sets.
pub record TopicsMap : Type 0 where
  pub entries : List TopicsMapEntry
  pub unique_addresses : List EthAddress
  pub unique_topics : List UInt256

pub record Filter : Type 0 where
  pub address : List EthAddress
  pub topics : List UInt256
  pub from_block : ℕ
  pub to_block : ℕ

abbrev pub is_empty : List ℕ → Bool
is_empty [] = true
is_empty (x ∷ xs) = false

unfoldable pub make_filter : TopicsMap → ℕ → ℕ → Option Filter
make_filter t from to =
    if is_empty t.unique_addresses || is_empty t.unique_topics
    then none
    else some (record {
      address = t.unique_addresses;
      topics = t.unique_topics;
      from_block = from;
      to_block = to;
    })

-- `insert` of a hash set of numbers.
abbrev pub set_insert : List ℕ → ℕ → List ℕ
set_insert xs x = if contains xs x then xs else x ∷ xs

-- The loop of `update`, for one of the two sets: `field` is the part of the entry.
unfoldable pub collect : (TopicsMapEntry → ℕ) → List ℕ → List TopicsMapEntry → List ℕ
collect field acc [] = acc
collect field acc (e ∷ es) = collect field (set_insert acc (field e)) es

unfoldable pub update : TopicsMap → TopicsMap
unfolding collect
update t = record {
  entries = t.entries;
  unique_addresses = collect (λ e. e.address) [] t.entries;
  unique_topics = collect (λ e. e.topic_hash) [] t.entries;
}

abbrev pub has_entry : List TopicsMapEntry → TopicsMapEntry → Bool
has_entry es e = any (λ x. same_entry x e) es

unfoldable pub add_entry : TopicsMap → TopicsMapEntry → TopicsMap
unfolding update
add_entry t e = if has_entry t.entries e then t else update (record t { entries = e ∷ t.entries })

-- The loop of `remove_entries`: the entries that are left, and whether one was removed.
unfoldable pub remove_loop :
    List TopicsMapEntry → List TopicsMapEntry → Bool → List TopicsMapEntry × Bool
remove_loop es [] should_update = (es, should_update)
remove_loop es (r ∷ rs) should_update =
    remove_loop (keep_if (λ x. not (same_entry x r)) es) rs (should_update || has_entry es r)

unfoldable pub remove_entries : TopicsMap → List TopicsMapEntry → TopicsMap
unfolding update remove_loop
remove_entries t rs =
    let (es, should_update) = remove_loop t.entries rs false in
    if should_update then update (record t { entries = es }) else record t { entries = es }

pub data Call : Type 0 where
  subscribes : TopicsMapEntry → Call
  unsubscribes : List TopicsMapEntry → Call

unfoldable pub step : TopicsMap → Call → TopicsMap
step t (subscribes e) = add_entry t e
step t (unsubscribes rs) = remove_entries t rs

unfoldable pub run : TopicsMap → List Call → TopicsMap
run t [] = t
run t (c ∷ cs) = run (step t c) cs

unfoldable pub new : TopicsMap
new = record { entries = []; unique_addresses = []; unique_topics = [] }
