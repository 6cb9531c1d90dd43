-- ===== src/Bridge/Handlers/Removal.antt =====
-- When a transaction of an event contract ends the relay's interest in the event.
use ton_eth_bridge_relay.Base.{
  ◌≡◌, refl, ◌↔◌, true, false, none, List, get, contains_key, contains, ◌==◌, nat_eq, arith,
  ==_refl,
}
use ton_eth_bridge_relay.Shards.{UInt256}
use ton_eth_bridge_relay.Contracts.{
  EventStatus, initializing, pending, confirmed, rejected, EventType, eth, ton,
}
use ton_eth_bridge_relay.Bridge.Events.{EventsState}
use ton_eth_bridge_relay.Bridge.Events.Once.{get-remove_event}
use ton_eth_bridge_relay.Bridge.Handlers.{
  EthEvent, TonEvent, Verdict, remove_entry, start_voting, ignore_event, eth_verdict, ton_verdict,
  settle, process_eth_event, process_ton_event,
}

-- An ETH event is over for the relay: the vote is decided, the relay has no part in it, or the relay
-- has voted.
pub data EthDone (our_key : UInt256) : EthEvent → EventStatus → Type 0 where
  eth_confirmed : {event : EthEvent} → EthDone our_key event confirmed
  eth_rejected : {event : EthEvent} → EthDone our_key event rejected
  eth_no_relay :
      {keys : List UInt256} {status : EventStatus}
      → contains keys our_key ≡ false
      → EthDone our_key (EthEvent.receive_round_relays keys) status
  eth_we_confirmed :
      {key : UInt256} {status : EventStatus}
      → key ≡ our_key
      → EthDone our_key (EthEvent.confirm key) status
  eth_we_rejected :
      {key : UInt256} {status : EventStatus}
      → key ≡ our_key
      → EthDone our_key (EthEvent.reject key) status

-- A TON event is over: as above, but a confirmed one only when its contract is closed.
pub data TonDone (our_key : UInt256) : TonEvent → EventStatus → Type 0 where
  ton_closed : TonDone our_key TonEvent.closed confirmed
  ton_rejected : {event : TonEvent} → TonDone our_key event rejected
  ton_no_relay :
      {keys : List UInt256} {status : EventStatus}
      → contains keys our_key ≡ false
      → TonDone our_key (TonEvent.receive_round_relays keys) status
  ton_we_confirmed :
      {key : UInt256} {status : EventStatus}
      → key ≡ our_key
      → TonDone our_key (TonEvent.confirm key) status
  ton_we_rejected :
      {key : UInt256} {status : EventStatus}
      → key ≡ our_key
      → TonDone our_key (TonEvent.reject key) status

eth_verdict-EthDone :
    (our_key : UInt256) (event : EthEvent) (status : EventStatus)
    → eth_verdict our_key event status ≡ remove_entry
    → EthDone our_key event status
unfolding eth_verdict
eth_verdict-EthDone k event confirmed h = eth_confirmed
eth_verdict-EthDone k event rejected h = eth_rejected
eth_verdict-EthDone k (EthEvent.receive_round_relays keys) _ h = eth_no_relay (ground arith)
eth_verdict-EthDone k (EthEvent.confirm key) _ h = eth_we_confirmed (ground arith)
eth_verdict-EthDone k (EthEvent.reject key) _ h = eth_we_rejected (ground arith)

EthDone-eth_verdict :
    {our_key : UInt256} {event : EthEvent} {status : EventStatus}
    → EthDone our_key event status
    → eth_verdict our_key event status ≡ remove_entry
unfolding eth_verdict
EthDone-eth_verdict eth_confirmed = refl
EthDone-eth_verdict eth_rejected = refl
EthDone-eth_verdict {status = confirmed} (eth_no_relay h) = refl
EthDone-eth_verdict {status = rejected} (eth_no_relay h) = refl
EthDone-eth_verdict {status = _} (eth_no_relay h) = ground arith
EthDone-eth_verdict {status = confirmed} (eth_we_confirmed h) = refl
EthDone-eth_verdict {status = rejected} (eth_we_confirmed h) = refl
EthDone-eth_verdict {status = _} (eth_we_confirmed h) = ground arith
EthDone-eth_verdict {status = confirmed} (eth_we_rejected h) = refl
EthDone-eth_verdict {status = rejected} (eth_we_rejected h) = refl
EthDone-eth_verdict {status = _} (eth_we_rejected h) = ground arith

ton_verdict-TonDone :
    (our_key : UInt256) (event : TonEvent) (status : EventStatus)
    → ton_verdict our_key event status ≡ remove_entry
    → TonDone our_key event status
unfolding ton_verdict
ton_verdict-TonDone k TonEvent.closed confirmed h = ton_closed
ton_verdict-TonDone k event rejected h = ton_rejected
ton_verdict-TonDone k TonEvent.closed initializing h = absurd (ground arith)
ton_verdict-TonDone k TonEvent.closed pending h = absurd (ground arith)
ton_verdict-TonDone k (TonEvent.receive_round_relays keys) _ h = ton_no_relay (ground arith)
ton_verdict-TonDone k (TonEvent.confirm key) _ h = ton_we_confirmed (ground arith)
ton_verdict-TonDone k (TonEvent.reject key) _ h = ton_we_rejected (ground arith)

TonDone-ton_verdict :
    {our_key : UInt256} {event : TonEvent} {status : EventStatus}
    → TonDone our_key event status
    → ton_verdict our_key event status ≡ remove_entry
unfolding ton_verdict
TonDone-ton_verdict ton_closed = refl
TonDone-ton_verdict {event = TonEvent.closed} ton_rejected = refl
TonDone-ton_verdict {event = _} ton_rejected = refl
TonDone-ton_verdict {status = rejected} (ton_no_relay h) = refl
TonDone-ton_verdict {status = _} (ton_no_relay h) = ground arith
TonDone-ton_verdict {status = rejected} (ton_we_confirmed h) = refl
TonDone-ton_verdict {status = _} (ton_we_confirmed h) = ground arith
TonDone-ton_verdict {status = rejected} (ton_we_rejected h) = refl
TonDone-ton_verdict {status = _} (ton_we_rejected h) = ground arith

-- What `settle` does to a pending event.
module _ (s : EventsState) (account : UInt256) (kind : EventType)
    (known : contains_key s.pending account ≡ true) where
  settle_removes :
      (verdict : Verdict)
      → (get (settle s account kind verdict).0.pending account ≡ none) ↔ (verdict ≡ remove_entry)
  unfolding settle
  settle_removes remove_entry =
      (λ h. refl, λ h. ground (arith, get-remove_event s account account, ==_refl account))
  settle_removes start_voting = (λ h. ground arith, λ h. ground arith)
  settle_removes ignore_event = (λ h. ground arith, λ h. ground arith)

  settle_others :
      (verdict : Verdict) (j : UInt256)
      → (account == j) ≡ false
      → get (settle s account kind verdict).0.pending j ≡ get s.pending j
  unfolding settle
  settle_others remove_entry j h = ground (arith, get-remove_event s account j)
  settle_others start_voting j h = ground arith
  settle_others ignore_event j h = ground arith

-- A pending ETH event is dropped exactly when it is over for the relay, and no other event is
-- touched.
pub process_eth_event_removal :
    (s : EventsState) (our_key account : UInt256) (event : EthEvent) (status : EventStatus)
    → contains_key s.pending account ≡ true
    → let after = (process_eth_event s our_key account event status).0 in
      ((get after.pending account ≡ none) ↔ EthDone our_key event status)
      × ((j : UInt256) → (account == j) ≡ false → get after.pending j ≡ get s.pending j)
unfolding process_eth_event
process_eth_event_removal s k account event status known =
    let verdict = eth_verdict k event status in
    let removes = settle_removes s account eth known verdict in
    (
      (
        λ h. eth_verdict-EthDone k event status (removes.0 h),
        λ h. removes.1 (EthDone-eth_verdict h),
      ),
      settle_others s account eth known verdict,
    )

-- The same for a pending TON event: a confirmed one stays until its contract is closed.
pub process_ton_event_removal :
    (s : EventsState) (our_key account : UInt256) (event : TonEvent) (status : EventStatus)
    → contains_key s.pending account ≡ true
    → let after = (process_ton_event s our_key account event status).0 in
      ((get after.pending account ≡ none) ↔ TonDone our_key event status)
      × ((j : UInt256) → (account == j) ≡ false → get after.pending j ≡ get s.pending j)
unfolding process_ton_event
process_ton_event_removal s k account event status known =
    let verdict = ton_verdict k event status in
    let removes = settle_removes s account ton known verdict in
    (
      (
        λ h. ton_verdict-TonDone k event status (removes.0 h),
        λ h. removes.1 (TonDone-ton_verdict h),
      ),
      settle_others s account ton known verdict,
    )
