-- ===== src/Bridge/Events.antt =====
-- src/engine/bridge/mod.rs, `EventsState` and `Bridge::add_pending_event`: the events that wait for
-- this relay's vote. The map and the counter are changed one after the other, with the map's lock
-- released between: each method is given by its two atomic parts. An observer is subscribed to the
-- account in the same part that puts the event into the map.
pub mod Interleaving
pub mod Once
use ton_eth_bridge_relay.Base.{
  ℕ, ◌≡◌, Bool, true, false, not, [], none, some, Map, get, insert, remove, adjust, if◌then◌else◌,
  inc, dec, nat_eq,
}
use ton_eth_bridge_relay.Shards.{UInt256}

pub record PendingEventState : Type 0 where
  pub processing_started : Bool

pub record EventsState : Type 0 where
  pub pending : Map UInt256 PendingEventState
  pub count : ℕ

unfoldable pub new : EventsState
new = record { pending = []; count = 0 }

-- `count.fetch_add(1)` and `count.fetch_sub(1)`.
abbrev pub count_add : EventsState → EventsState
count_add s = record s { count = inc s.count }

abbrev pub count_sub : EventsState → EventsState
count_sub s = record s { count = dec s.count }

-- `add_pending_event` up to the update of the counter, and whether the event is new.
unfoldable pub enter : EventsState → UInt256 → EventsState × Bool
enter s account = elim (get s.pending account) [
  | some _ ↦ (s, false)
  | none ↦ (
    record s { pending = insert s.pending account (record { processing_started = false }) },
    true,
  )
]

unfoldable pub add_pending_event : EventsState → UInt256 → EventsState × Bool
unfolding enter
add_pending_event s account =
    let (s', new_event) = enter s account in (if new_event then count_add s' else s', new_event)

-- `pending.remove(account)`, and whether it was there.
unfoldable pub leave : EventsState → UInt256 → EventsState × Bool
leave s account = elim (get s.pending account) [
  | some _ ↦ (record s { pending = remove s.pending account }, true)
  | none ↦ (s, false)
]

unfoldable pub remove_event : EventsState → UInt256 → EventsState
unfolding leave
remove_event s account = let (s', removed) = leave s account in if removed then count_sub s' else s'

abbrev start : PendingEventState → PendingEventState
start e = record { processing_started = true }

-- True if this call is the one that starts the processing: the event is pending and was not started.
unfoldable pub start_processing : EventsState → UInt256 → EventsState × Bool
start_processing s account = elim (get s.pending account) [
  | some entry ↦
      (record s { pending = adjust s.pending account start }, not entry.processing_started)
  | none ↦ (s, false)
]
