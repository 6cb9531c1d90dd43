-- ===== src/Bridge/Events/Once.antt =====
-- An event that enters the map is processed at most once, however the background tasks that want to
-- process it are ordered.
use ton_eth_bridge_relay.Base.{
  ℕ, ◌+◌, ◌≤◌, ◌≡◌, inl, inr, Bool, true, false, not, Option, none, some, List, [], ◌∷◌, get, ◌==◌,
  if◌then◌else◌, arith, nat_eq, Option-cases, get-insert, get-remove, get-adjust, ◌&&◌,
}
use ton_eth_bridge_relay.Shards.{UInt256}
use ton_eth_bridge_relay.Bridge.Events.{
  EventsState, PendingEventState, enter, leave, add_pending_event, remove_event, start_processing,
  start,
}

pub get-remove_event :
    (s : EventsState) (account j : UInt256)
    → get (remove_event s account).pending j ≡ (if account == j then none else get s.pending j)
unfolding remove_event
get-remove_event s account j = elim (Option-cases (get s.pending account)) [
  | inl e ↦ rw (e, remove_event, leave) (ground (arith, e))
  | inr (v, e) ↦ rw (e, remove_event, leave) (get-remove s.pending account j)
]

pub data Call : Type 0 where
  adds removes starts : UInt256 → Call

abbrev one_if : Bool → ℕ
one_if true = 1
one_if false = 0

-- How often a call for the account succeeded: an event was new, or its processing was started here.
pub entered : EventsState → List Call → UInt256 → ℕ
entered s [] a = 0
entered s (adds account ∷ cs) a =
    let (s', new_event) = add_pending_event s account in
    one_if ((account == a) && new_event) + entered s' cs a
entered s (removes account ∷ cs) a = entered (remove_event s account) cs a
entered s (starts account ∷ cs) a = entered (start_processing s account).0 cs a

pub started : EventsState → List Call → UInt256 → ℕ
started s [] a = 0
started s (adds account ∷ cs) a = started (add_pending_event s account).0 cs a
started s (removes account ∷ cs) a = started (remove_event s account) cs a
started s (starts account ∷ cs) a =
    let (s', first) = start_processing s account in
    one_if ((account == a) && first) + started s' cs a

-- 1 while the event is pending and not started.
abbrev pub waits : Option PendingEventState → ℕ
waits none = 0
waits (some e) = one_if (not e.processing_started)

add-waits :
    (s : EventsState) (account a : UInt256)
    → waits (get (add_pending_event s account).0.pending a)
      ≡ waits (get s.pending a) + one_if ((account == a) && (add_pending_event s account).1)
unfolding add_pending_event
add-waits s account a = elim (Option-cases (get s.pending account)) [
  | inl e ↦
      rw (e, add_pending_event, enter)
        (ground (arith, e, get-insert s.pending account a (record { processing_started = false })))
  | inr (v, e) ↦ rw (e, add_pending_event, enter) (ground arith)
]

remove-waits :
    (s : EventsState) (account a : UInt256)
    → waits (get (remove_event s account).pending a) ≤ waits (get s.pending a)
remove-waits s account a = ground (arith, get-remove_event s account a)

start-waits :
    (s : EventsState) (account a : UInt256)
    → waits (get (start_processing s account).0.pending a)
        + one_if ((account == a) && (start_processing s account).1)
      ≡ waits (get s.pending a)
unfolding start_processing
start-waits s account a = elim (Option-cases (get s.pending account)) [
  | inl e ↦ rw (e, start_processing) (ground arith)
  | inr (v, e) ↦ rw (e, start_processing) (ground (arith, e, get-adjust s.pending account a start))
]

-- For each account, processing is started at most as often as an event was entered, plus once if the
-- event was already pending and not started: no two tasks process the same entry.
pub started-le-entered :
    (s : EventsState) (cs : List Call) (a : UInt256)
    → started s cs a ≤ waits (get s.pending a) + entered s cs a
unfolding started entered
started-le-entered s [] a = omega arith
started-le-entered s (adds account ∷ cs) a =
    omega (arith, add-waits s account a, started-le-entered (add_pending_event s account).0 cs a)
started-le-entered s (removes account ∷ cs) a =
    omega (arith, remove-waits s account a, started-le-entered (remove_event s account) cs a)
started-le-entered s (starts account ∷ cs) a =
    omega (arith, start-waits s account a, started-le-entered (start_processing s account).0 cs a)
