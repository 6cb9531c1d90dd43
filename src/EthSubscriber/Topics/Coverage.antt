-- ===== src/EthSubscriber/Topics/Coverage.antt =====
-- The filter asks for exactly what the entries name.
use ton_eth_bridge_relay.Base.{
  ℕ, ◌≤◌, ◌≡◌, refl, ◌∙◌, inl, inr, Bool, false, not, ◌||◌, List, [], ◌∷◌, ◌==◌, contains, any,
  keep_if, count, arith, Bool-cases,
}
use ton_eth_bridge_relay.Shards.{UInt256}
use ton_eth_bridge_relay.Contracts.{EthAddress}
use ton_eth_bridge_relay.EthSubscriber.Topics.{
  TopicsMapEntry, TopicsMap, same_entry, set_insert, collect, update, has_entry, add_entry,
  remove_loop, remove_entries, Call, subscribes, unsubscribes, step, run, new,
}

-- The addresses and the topics of the map are those of its entries, each once.
pub record Covers (t : TopicsMap) : Type 0 where
  pub addresses :
      (a : EthAddress) → contains t.unique_addresses a ≡ any (λ e. e.address == a) t.entries
  pub topics : (h : UInt256) → contains t.unique_topics h ≡ any (λ e. e.topic_hash == h) t.entries
  pub address_once : (a : EthAddress) → count a t.unique_addresses ≤ 1
  pub topic_once : (h : UInt256) → count h t.unique_topics ≤ 1

contains-collect :
    (field : TopicsMapEntry → ℕ) (acc : List ℕ) (es : List TopicsMapEntry) (a : ℕ)
    → contains (collect field acc es) a ≡ (contains acc a || any (λ e. field e == a) es)
unfolding collect
contains-collect field acc [] a = ground arith
contains-collect field acc (e ∷ es) a =
    ground (arith, contains-collect field (set_insert acc (field e)) es a)

count_zero : (xs : List ℕ) (a : ℕ) → contains xs a ≡ false → count a xs ≡ 0
count_zero [] a h = refl
count_zero (x ∷ xs) a h = ground (arith, count_zero xs a)

set_insert_once :
    (xs : List ℕ) (x : ℕ) → ((a : ℕ) → count a xs ≤ 1) → (a : ℕ) → count a (set_insert xs x) ≤ 1
set_insert_once xs x h a = ground (arith, h a, count_zero xs x)

collect_once :
    (field : TopicsMapEntry → ℕ) (acc : List ℕ) (es : List TopicsMapEntry)
    → ((a : ℕ) → count a acc ≤ 1)
    → (a : ℕ) → count a (collect field acc es) ≤ 1
unfolding collect
collect_once field acc [] h = h
collect_once field acc (e ∷ es) h =
    collect_once field (set_insert acc (field e)) es (set_insert_once acc (field e) h)

update-Covers : (t : TopicsMap) → Covers (update t)
unfolding update
update-Covers t = record {
  addresses = contains-collect (λ e. e.address) [] t.entries;
  topics = contains-collect (λ e. e.topic_hash) [] t.entries;
  address_once = collect_once (λ e. e.address) [] t.entries (λ a. omega arith);
  topic_once = collect_once (λ e. e.topic_hash) [] t.entries (λ a. omega arith);
}

-- A removal that finds nothing changes nothing.
keep_if_all :
    (es : List TopicsMapEntry) (r : TopicsMapEntry)
    → has_entry es r ≡ false
    → keep_if (λ x. not (same_entry x r)) es ≡ es
keep_if_all [] r h = refl
keep_if_all (e ∷ es) r h = ground (arith, keep_if_all es r)

remove_loop_flag :
    (es rs : List TopicsMapEntry) (flag : Bool)
    → (remove_loop es rs flag).1 ≡ false
    → (flag ≡ false) × ((remove_loop es rs flag).0 ≡ es)
unfolding remove_loop
remove_loop_flag es [] flag h = (h, refl)
remove_loop_flag es (r ∷ rs) flag h =
    let (neither, rest) =
      remove_loop_flag (keep_if (λ x. not (same_entry x r)) es) rs (flag || has_entry es r) h in
    (ground (arith, neither), rest ∙ keep_if_all es r (ground (arith, neither)))

step-Covers : (t : TopicsMap) (c : Call) → Covers t → Covers (step t c)
unfolding step add_entry remove_entries
step-Covers t (subscribes e) v = elim (Bool-cases (has_entry t.entries e)) [
  | inl old ↦ rw (old, add_entry) v
  | inr new_entry ↦ rw (new_entry, add_entry) (update-Covers (record t { entries = e ∷ t.entries }))
]
step-Covers t (unsubscribes rs) v = elim (Bool-cases (remove_loop t.entries rs false).1) [
  | inl some_removed ↦
      rw (some_removed, remove_entries)
        (update-Covers (record t { entries = (remove_loop t.entries rs false).0 }))
  | inr none_removed ↦
      rw (none_removed, remove_entries, (remove_loop_flag t.entries rs false none_removed).1) v
]

run-Covers : (t : TopicsMap) (cs : List Call) → Covers t → Covers (run t cs)
unfolding run
run-Covers t [] v = v
run-Covers t (c ∷ cs) v = run-Covers (step t c) cs (step-Covers t c v)

new-Covers : Covers new
unfolding new
new-Covers = record {
  addresses = λ a. refl;
  topics = λ h. refl;
  address_once = λ a. omega arith;
  topic_once = λ h. omega arith;
}

-- After any subscriptions and removals on a new map, the addresses and topics that the subscriber
-- asks for are exactly those of the entries that are left, each once: an address that two entries
-- share stays until the last of them is removed.
pub run-new-Covers : (cs : List Call) → Covers (run new cs)
run-new-Covers cs = run-Covers new cs new-Covers
