-- ===== src/Bridge/Scan/Visits.antt =====
-- src/engine/bridge/mod.rs, `get_all_events`: what the visit of one account makes pending.
use ton_eth_bridge_relay.Base.{
  ◌≡◌, refl, Bool, true, false, not, ◌&&◌, ◌||◌, Option, none, some, contains, contains_key, ok,
  err, ◌==◌, ==_iff, nat_eq, arith, get-insert,
}
use ton_eth_bridge_relay.Errors.{Fallible}
use ton_eth_bridge_relay.Shards.{UInt256}
use ton_eth_bridge_relay.Contracts.{Cell, EventType, eth, ton}
use ton_eth_bridge_relay.Contracts.Views.{EventContract}
use ton_eth_bridge_relay.Bridge.Action.{EventAction, nop, vote, process}
use ton_eth_bridge_relay.Bridge.Events.{EventsState, enter, add_pending_event}
use ton_eth_bridge_relay.Bridge.Scan.{
  is_ton, Known, Pending, init_configuration, add_event, check_configuration, by_action,
  process_found, visit_event, kind_of, visit_kind, visit_code,
}

pub same_kind : EventType → EventType → Bool
same_kind eth eth = true
same_kind ton ton = true
same_kind _ _ = false

-- The pending events of a kind.
abbrev pub events_of : EventType → Pending → EventsState
events_of eth p = p.eth_events
events_of ton p = p.ton_events

abbrev pub is_pending : EventType → UInt256 → Pending → Bool
is_pending kind a p = contains_key (events_of kind p).pending a

-- A contract whose event is open: it is not to be removed, and its configuration is known.
abbrev pub is_left : Fallible EventAction → Bool
is_left (err e) = false
is_left (ok EventAction.remove) = false
is_left (ok nop) = true
is_left (ok vote) = true

abbrev pub is_known : Known → EventType → Fallible UInt256 → Bool
is_known known kind (err e) = false
is_known known kind (ok configuration) = contains (known.configurations kind) configuration

pub is_open : Known → EventType → EventContract → Bool
is_open known kind contract =
    is_left (process contract.base known.our_public_key (is_ton kind))
    && is_known known kind (init_configuration kind contract)

-- A contract with the code of an event of kind `k`, as it is read.
abbrev pub is_open_event : Known → EventType → EventType → Fallible (Option EventContract) → Bool
is_open_event known kind k (err e) = false
is_open_event known kind k (ok none) = false
is_open_event known kind k (ok (some contract)) = same_kind k kind && is_open known k contract

abbrev pub is_event_of_kind :
    Known → EventType → Fallible (Option EventContract) → Option EventType → Bool
is_event_of_kind known kind read none = false
is_event_of_kind known kind read (some k) = is_open_event known kind k read

abbrev pub is_event_of_code :
    Known → EventType → Fallible (Option EventContract) → Fallible (Option Cell) → Bool
is_event_of_code known kind read (err e) = false
is_event_of_code known kind read (ok code) = is_event_of_kind known kind read (kind_of known code)

-- What cannot be read ends the iteration.
abbrev pub fails_event : Fallible (Option EventContract) → Option EventType → Bool
fails_event read none = false
fails_event (err e) (some k) = true
fails_event (ok contract) (some k) = false

abbrev pub fails_code : Known → Fallible (Option EventContract) → Fallible (Option Cell) → Bool
fails_code known read (err e) = true
fails_code known read (ok code) = fails_event read (kind_of known code)

abbrev pub is_ok : Fallible (Unit {0}) → Bool
is_ok (ok _) = true
is_ok (err e) = false

pending-add_event :
    (k kind : EventType) (hash a : UInt256) (p : Pending)
    → is_pending kind a (add_event k hash p)
      ≡ (is_pending kind a p || (same_kind k kind && (hash == a)))
unfolding add_event add_pending_event enter same_kind
pending-add_event eth eth hash a p = ground (
  arith,
  ==_iff hash a,
  get-insert p.eth_events.pending hash a (record { processing_started = false }),
)
pending-add_event ton ton hash a p = ground (
  arith,
  ==_iff hash a,
  get-insert p.ton_events.pending hash a (record { processing_started = false }),
)
pending-add_event eth ton hash a p = ground arith
pending-add_event ton eth hash a p = ground arith

pending-check_configuration :
    (known : Known) (k kind : EventType) (hash a : UInt256) (configuration : Fallible UInt256)
    (p : Pending)
    → is_pending kind a (check_configuration known k hash configuration p) ≡ (
        is_pending kind a p
        || ((hash == a) && (same_kind k kind && is_known known k configuration)))
unfolding check_configuration
pending-check_configuration known k kind hash a (err e) p = ground arith
pending-check_configuration known k kind hash a (ok configuration) p =
    ground (arith, pending-add_event k kind hash a p)

pending-by_action :
    (known : Known) (k kind : EventType) (hash a : UInt256) (configuration : Fallible UInt256)
    (action : Fallible EventAction) (p : Pending)
    → is_pending kind a (by_action known k hash configuration action p) ≡ (
        is_pending kind a p
        || ((hash == a)
            && (same_kind k kind && (is_left action && is_known known k configuration))))
unfolding by_action
pending-by_action known k kind hash a configuration (err e) p = ground arith
pending-by_action known k kind hash a configuration (ok EventAction.remove) p = ground arith
pending-by_action known k kind hash a configuration (ok nop) p =
    pending-check_configuration known k kind hash a configuration p
pending-by_action known k kind hash a configuration (ok vote) p =
    pending-check_configuration known k kind hash a configuration p

pending-visit_event :
    (known : Known) (k kind : EventType) (hash a : UInt256) (read : Fallible (Option EventContract))
    (p : Pending)
    → is_pending kind a (visit_event known k hash read p).0
      ≡ (is_pending kind a p || ((hash == a) && is_open_event known kind k read))
unfolding visit_event process_found is_open
pending-visit_event known k kind hash a (err e) p = ground arith
pending-visit_event known k kind hash a (ok none) p = ground arith
pending-visit_event known k kind hash a (ok (some contract)) p =
    pending-by_action known k kind hash a (init_configuration k contract)
      (process contract.base known.our_public_key (is_ton k)) p

pending-visit_kind :
    (known : Known) (kind : EventType) (hash a : UInt256) (read : Fallible (Option EventContract))
    (o : Option EventType) (p : Pending)
    → is_pending kind a (visit_kind known hash read o p).0
      ≡ (is_pending kind a p || ((hash == a) && is_event_of_kind known kind read o))
pending-visit_kind known kind hash a read none p = ground arith
pending-visit_kind known kind hash a read (some k) p =
    pending-visit_event known k kind hash a read p

pub pending-visit_code :
    (known : Known) (kind : EventType) (hash a : UInt256) (read : Fallible (Option EventContract))
    (code : Fallible (Option Cell)) (p : Pending)
    → is_pending kind a (visit_code known hash read code p).0
      ≡ (is_pending kind a p || ((hash == a) && is_event_of_code known kind read code))
pending-visit_code known kind hash a read (err e) p = ground arith
pending-visit_code known kind hash a read (ok code) p =
    pending-visit_kind known kind hash a read (kind_of known code) p

fails-visit_kind :
    (known : Known) (hash : UInt256) (read : Fallible (Option EventContract)) (o : Option EventType)
    (p : Pending)
    → is_ok (visit_kind known hash read o p).1 ≡ not (fails_event read o)
unfolding visit_event
fails-visit_kind known hash read none p = refl
fails-visit_kind known hash (err e) (some k) p = refl
fails-visit_kind known hash (ok none) (some k) p = refl
fails-visit_kind known hash (ok (some contract)) (some k) p = refl

pub fails-visit_code :
    (known : Known) (hash : UInt256) (read : Fallible (Option EventContract))
    (code : Fallible (Option Cell)) (p : Pending)
    → is_ok (visit_code known hash read code p).1 ≡ not (fails_code known read code)
fails-visit_code known hash read (err e) p = refl
fails-visit_code known hash read (ok code) p =
    fails-visit_kind known hash read (kind_of known code) p

event-fails_kind :
    (known : Known) (kind : EventType) (read : Fallible (Option EventContract))
    (o : Option EventType)
    → fails_event read o ≡ true
    → is_event_of_kind known kind read o ≡ false
event-fails_kind known kind read none h = refl
event-fails_kind known kind (err e) (some k) h = refl
event-fails_kind known kind (ok contract) (some k) h = ground (arith, h)

pub event-fails_code :
    (known : Known) (kind : EventType) (read : Fallible (Option EventContract))
    (code : Fallible (Option Cell))
    → fails_code known read code ≡ true
    → is_event_of_code known kind read code ≡ false
event-fails_code known kind read (err e) h = refl
event-fails_code known kind read (ok code) h =
    event-fails_kind known kind read (kind_of known code) h
