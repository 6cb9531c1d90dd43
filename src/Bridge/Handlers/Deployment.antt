-- ===== src/Bridge/Handlers/Deployment.antt =====
-- Deployment messages that come more than once.
use ton_eth_bridge_relay.Base.{
  ◌≡◌, refl, ◌∙◌, inl, inr, false, none, some, [], ◌∷◌, get, nat_eq, Option-cases, get-insert,
  ==_refl, arith,
}
use ton_eth_bridge_relay.Shards.{UInt256}
use ton_eth_bridge_relay.Contracts.{EventType}
use ton_eth_bridge_relay.Bridge.Events.{
  EventsState, PendingEventState, enter, add_pending_event, remove_event,
}
use ton_eth_bridge_relay.Bridge.Events.Once.{get-remove_event}
use ton_eth_bridge_relay.Bridge.Handlers.{preprocess, event_deployed}

event_deployed_known :
    (s : EventsState) (kind : EventType) (account : UInt256) (v : PendingEventState)
    → get s.pending account ≡ some v
    → event_deployed s kind account ≡ (s, [])
unfolding event_deployed add_pending_event enter
event_deployed_known s kind account v e = ground (arith, e)

event_deployed_new :
    (s : EventsState) (kind : EventType) (account : UInt256)
    → get s.pending account ≡ none
    → ((event_deployed s kind account).1 ≡ preprocess kind account ∷ [])
      × (get (event_deployed s kind account).0.pending account
          ≡ some (record { processing_started = false }))
unfolding event_deployed
event_deployed_new s kind account e =
    let added = get-insert s.pending account account (record { processing_started = false }) in
    rw (e, event_deployed, add_pending_event, enter) (refl, ground (arith, added))

event_deployed_twice :
    (s : EventsState) (kind : EventType) (account : UInt256)
    → let once = (event_deployed s kind account).0 in event_deployed once kind account ≡ (once, [])
event_deployed_twice s kind account = elim (Option-cases (get s.pending account)) [
  | inl e ↦ event_deployed_known _ kind account _ (event_deployed_new s kind account e).1
  | inr (v, e) ↦ (let same = event_deployed_known s kind account v e in rw (same, same) refl)
]

-- A second deployment message of a pending event changes nothing and starts nothing; once the event is
-- removed, the next one starts its preprocessing and puts it in again, not started.
pub event_deployed_again :
    (s : EventsState) (kind : EventType) (account : UInt256)
    → let once = (event_deployed s kind account).0 in
      let again = event_deployed (remove_event once account) kind account in
      (event_deployed once kind account ≡ (once, []))
      × (again.1 ≡ preprocess kind account ∷ [])
      × (get again.0.pending account ≡ some (record { processing_started = false }))
event_deployed_again s kind account =
    let once = (event_deployed s kind account).0 in
    let gone : get (remove_event once account).pending account ≡ none =
      get-remove_event once account account ∙ rw (==_refl account) refl in
    let fresh = event_deployed_new (remove_event once account) kind account gone in
    (event_deployed_twice s kind account, fresh.0, fresh.1)
