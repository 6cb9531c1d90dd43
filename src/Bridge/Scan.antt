-- ===== src/Bridge/Scan.antt =====
-- src/engine/bridge/mod.rs, `get_all_events` and `read_code_hash`: the search for event contracts in
-- all accounts at the start. A cell is read through the `SliceData` of the TON libraries (`Reader`).
pub mod Visits
pub mod Found
mod Examples
use ton_eth_bridge_relay.Base.{
  ℕ, ◌+◌, Bool, true, false, not, Option, none, some, List, [], ◌∷◌, ◌++◌, map, Map, get,
  contains_key, ok, err, ◌>>=◌, ◌==◌, if◌then◌else◌, nat_eq, contains,
}
use ton_eth_bridge_relay.Errors.{Error, Fallible}
use ton_eth_bridge_relay.Shards.{UInt256}
use ton_eth_bridge_relay.Contracts.{Cell, EventType, eth, ton, EthEventInitData, TonEventInitData}
use ton_eth_bridge_relay.Contracts.Views.{EventBaseContract, EventContract}
use ton_eth_bridge_relay.Bridge.Action.{EventAction, nop, vote, process}
use ton_eth_bridge_relay.Bridge.Events.{EventsState, add_pending_event}
use ton_eth_bridge_relay.Bridge.Handlers.{Task, update_event}

-- `*event_type == EventType::Ton`.
abbrev pub is_ton : EventType → Bool
is_ton eth = false
is_ton ton = true

-- The operations of a `SliceData`: each gives what it reads and the rest, or fails.
pub record Reader {ℓ} (Slice : Type ℓ) : Type ℓ where
  pub get_next_bit : Slice → Fallible (Bool × Slice)
  pub get_next_int : ℕ → Slice → Fallible (ℕ × Slice)
  pub move_by : ℕ → Slice → Fallible Slice
  pub skip_storage_used : Slice → Fallible Slice
  pub skip_grams : Slice → Fallible Slice
  pub skip_currency_collection : Slice → Fallible Slice
  -- The hash of the first reference.
  pub checked_drain_reference : Slice → Fallible Cell

module _ {ℓ} {Slice : Type ℓ} (reader : Reader Slice) where
  -- From the account state on.
  unfoldable pub read_state : Slice → Fallible (Option Cell)
  read_state s = do
    active ← reader.get_next_bit s
    (if not active.0 then ok none else (do
      split_depth ← reader.get_next_bit active.1
      s' ← (if split_depth.0 then reader.move_by 5 split_depth.1 else ok split_depth.1)
      ticktock ← reader.get_next_bit s'
      s'' ← (if ticktock.0 then reader.move_by 2 ticktock.1 else ok ticktock.1)
      code ← reader.get_next_bit s''
      (if not code.0
          then ok none
          else (do hash ← reader.checked_drain_reference code.1; ok (some hash)))))

  -- From the rest of the address to the balance.
  unfoldable pub skip_storage : Slice → Fallible Slice
  skip_storage s = do
    address ← reader.move_by (8 + 256) s
    used ← reader.skip_storage_used address
    last_paid ← reader.move_by 32 used
    due ← reader.get_next_bit last_paid
    due_payment ← (if due.0 then reader.skip_grams due.1 else ok due.1)
    last_lt ← reader.move_by 64 due_payment
    reader.skip_currency_collection last_lt

  unfoldable pub read_code_hash : Slice → Fallible (Option Cell)
  unfolding read_state skip_storage
  read_code_hash s = do
    account ← reader.get_next_bit s
    (if not account.0 then ok none else (do
      kind ← reader.get_next_int 2 account.1
      (if not (kind.0 == 2) then ok none else (do
        anycast ← reader.get_next_bit kind.1
        (if anycast.0 then ok none else (do s' ← skip_storage anycast.1; read_state s'))))))

-- `ton_block::ShardAccount`: its account's cell, and the contract that is read from it.
pub record ShardAccount {ℓ} (Slice : Type ℓ) : Type ℓ where
  pub cell : Slice
  pub read_account : Fallible (Option EventContract)

-- What a task reads: the key, the known code hashes, and the configurations.
pub record Known : Type 0 where
  pub our_public_key : UInt256
  pub event_code_hashes : Map Cell EventType
  pub configurations : EventType → List UInt256

pub record Pending : Type 0 where
  pub eth_events : EventsState
  pub ton_events : EventsState
  pub tasks : List Task

unfoldable pub init_configuration : EventType → EventContract → Fallible UInt256
init_configuration eth contract = do data' ← contract.eth_event_init_data; ok data'.configuration
init_configuration ton contract = do data' ← contract.ton_event_init_data; ok data'.configuration

-- `add_pending_event` on the map of a kind, and the background task for a new event.
unfoldable pub add_event : EventType → UInt256 → Pending → Pending
unfolding add_pending_event
add_event eth hash p =
    let (events, new_event) = add_pending_event p.eth_events hash in
    record p {
      eth_events = events;
      tasks = if new_event then p.tasks ++ (update_event eth hash ∷ []) else p.tasks;
    }
add_event ton hash p =
    let (events, new_event) = add_pending_event p.ton_events hash in
    record p {
      ton_events = events;
      tasks = if new_event then p.tasks ++ (update_event ton hash ∷ []) else p.tasks;
    }

-- An event that waits for the relay or for its initialisation: it is added if its configuration, which
-- is read from the contract, is known.
unfoldable pub check_configuration :
    Known → EventType → UInt256 → Fallible UInt256 → Pending → Pending
unfolding add_event
check_configuration known kind hash (err e) p = p
check_configuration known kind hash (ok configuration) p =
    if contains (known.configurations kind) configuration then add_event kind hash p else p

-- The `match` on the action.
unfoldable pub by_action :
    Known → EventType → UInt256 → Fallible UInt256 → Fallible EventAction → Pending → Pending
unfolding check_configuration
by_action known kind hash configuration (err e) p = p
by_action known kind hash configuration (ok EventAction.remove) p = p
by_action known kind hash configuration (ok nop) p =
    check_configuration known kind hash configuration p
by_action known kind hash configuration (ok vote) p =
    check_configuration known kind hash configuration p

unfoldable pub process_found : Known → EventType → UInt256 → EventContract → Pending → Pending
unfolding by_action init_configuration
process_found known kind hash contract p =
    by_action known kind hash (init_configuration kind contract)
      (process contract.base known.our_public_key (is_ton kind)) p

-- An account whose code is that of an event.
unfoldable pub visit_event :
    Known
    → EventType
    → UInt256
    → Fallible (Option EventContract)
    → Pending
    → Pending × Fallible (Unit {0})
unfolding process_found
visit_event known kind hash (err e) p = (p, err e)
visit_event known kind hash (ok none) p = (p, ok tt)
visit_event known kind hash (ok (some contract)) p =
    (process_found known kind hash contract p, ok tt)

-- The known kind of a code.
abbrev pub kind_of : Known → Option Cell → Option EventType
kind_of known none = none
kind_of known (some code_hash) = get known.event_code_hashes code_hash

abbrev pub visit_kind :
    Known
    → UInt256
    → Fallible (Option EventContract)
    → Option EventType
    → Pending
    → Pending × Fallible (Unit {0})
visit_kind known hash read none p = (p, ok tt)
visit_kind known hash read (some kind) p = visit_event known kind hash read p

abbrev pub visit_code :
    Known
    → UInt256
    → Fallible (Option EventContract)
    → Fallible (Option Cell)
    → Pending
    → Pending × Fallible (Unit {0})
visit_code known hash read (err e) p = (p, err e)
visit_code known hash read (ok code) p = visit_kind known hash read (kind_of known code) p

module _ {ℓ} {Slice : Type ℓ} (reader : Reader Slice) where
  -- The closure of `iterate_events`; an error ends the iteration.
  unfoldable pub visit_account :
      Known → UInt256 → ShardAccount Slice → Pending → Pending × Fallible (Unit {0})
  unfolding read_code_hash visit_event
  visit_account known hash account p =
      visit_code known hash account.read_account (read_code_hash reader account.cell) p

  unfoldable pub iterate_events :
      Known → List (UInt256 × ShardAccount Slice) → Pending → Pending × Fallible (Unit {0})
  unfolding visit_account
  iterate_events known [] p = (p, ok tt)
  iterate_events known ((hash, account) ∷ accounts) p =
      let visited = visit_account known hash account p in
      let rest = iterate_events known accounts visited.0 in
      elim visited.1 [ err e ↦ (visited.0, err e) | ok _ ↦ rest ]

  -- The tasks of the shards, which handle different accounts, in the order in which they are run; the
  -- result is the first error.
  unfoldable pub process_shards :
      Known → List (List (UInt256 × ShardAccount Slice)) → Pending → Pending × Fallible (Unit {0})
  unfolding iterate_events
  process_shards known [] p = (p, ok tt)
  process_shards known (accounts ∷ shards) p =
      let first = iterate_events known accounts p in
      let rest = process_shards known shards first.0 in
      (rest.0, elim first.1 [ err e ↦ err e | ok _ ↦ rest.1 ])

  -- The accounts of all shards are awaited first.
  unfoldable pub get_all_events :
      Known
      → Fallible (List (List (UInt256 × ShardAccount Slice)))
      → Pending
      → Pending × Fallible (Unit {0})
  unfolding process_shards
  get_all_events known (err e) p = (p, err e)
  get_all_events known (ok shards) p = process_shards known shards p
