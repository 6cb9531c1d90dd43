-- ===== src/Bridge/Parsers/Votes.antt =====
-- src/engine/bridge/mod.rs: the votes that the bridge sees in transactions of event contracts, from the
-- message to the pending events.
use ton_eth_bridge_relay.Base.{
  ℕ, ◌≡◌, ◌≢◌, ◌⊎◌, ◌∙◌, inl, inr, none, some, List, [], ok, get, ◌==◌, if◌then◌else◌, arith,
  nat_eq, Option-cases,
}
use ton_eth_bridge_relay.Shards.{UInt256}
use ton_eth_bridge_relay.Contracts.{Cell, EventStatus, rejected, EventType, eth, ton}
use ton_eth_bridge_relay.Contracts.Views.{EventBaseContract}
use ton_eth_bridge_relay.Transactions.{ext_in, TxContext}
use ton_eth_bridge_relay.Bridge.Events.{EventsState}
use ton_eth_bridge_relay.Bridge.Events.Once.{get-remove_event}
use ton_eth_bridge_relay.Bridge.Handlers.{
  EthEvent, TonEvent, remove_entry, eth_verdict, ton_verdict, settle, Task, process_eth_event,
  process_ton_event,
}
use ton_eth_bridge_relay.Bridge.Parsers.{
  Abi, read_both, read_external_in_msg, eth_vote, ton_vote, read_eth_event, ton_message_event,
  read_ton_event, read_event_status,
}

module _ (abi : Abi) where
  -- A transaction of an event contract: what the observer of its account reads from it, and the
  -- handling of that.
  unfoldable pub on_transaction :
      EventType → EventsState → UInt256 → TxContext EventBaseContract → EventsState × List Task
  unfolding process_eth_event process_ton_event read_eth_event read_ton_event read_event_status
  on_transaction eth s our_public_key ctx =
      elim (read_both (read_eth_event abi) (read_event_status abi) ctx) [
        | none ↦ (s, [])
        | some (event, status) ↦ process_eth_event s our_public_key ctx.account event status
      ]
  on_transaction ton s our_public_key ctx =
      elim (read_both (read_ton_event abi) (read_event_status abi) ctx) [
        | none ↦ (s, [])
        | some (event, status) ↦ process_ton_event s our_public_key ctx.account event status
      ]

  -- The transaction executes an external message that a key has signed, a call of a function.
  pub record SignedCall (ctx : TxContext EventBaseContract) (key id : ℕ) : Type 0 where
    pub body : Cell
    pub rest : Cell
    pub external : ctx.in_msg.header ≡ ext_in
    pub has_body : ctx.in_msg.body ≡ some body
    pub signed : abi.unpack_headers body ≡ ok (some key, rest)
    pub calls : abi.read_function_id rest ≡ ok id

  abbrev pub confirm_id : EventType → ℕ
  confirm_id eth = abi.eth_confirm
  confirm_id ton = abi.ton_confirm

  abbrev pub reject_id : EventType → ℕ
  reject_id eth = abi.eth_reject
  reject_id ton = abi.ton_reject

  read_eth_event-SignedCall :
      (ctx : TxContext EventBaseContract) (key id : ℕ)
      → SignedCall ctx key id
      → read_eth_event abi ctx ≡ (
          if id == abi.eth_confirm
          then some (EthEvent.confirm key)
          else (if id == abi.eth_reject then some (EthEvent.reject key) else none))
  unfolding read_eth_event read_external_in_msg eth_vote
  read_eth_event-SignedCall ctx key id c = ground (arith, c.external, c.has_body, c.signed, c.calls)

  read_ton_event-SignedCall :
      (ctx : TxContext EventBaseContract) (key id : ℕ)
      → SignedCall ctx key id
      → (id ≡ abi.ton_confirm) ⊎ (id ≡ abi.ton_reject)
      → read_ton_event abi ctx
        ≡ some (if id == abi.ton_confirm then TonEvent.confirm key else TonEvent.reject key)
  unfolding read_ton_event ton_message_event read_external_in_msg ton_vote
  read_ton_event-SignedCall ctx key id c votes =
      ground (arith, c.external, c.has_body, c.signed, c.calls)

  get-settle_remove :
      (s : EventsState) (account : UInt256) (kind : EventType)
      → get (settle s account kind remove_entry).0.pending account ≡ none
  unfolding settle
  get-settle_remove s account kind = elim (Option-cases (get s.pending account)) [
    | inl e ↦ rw (e, settle) e
    | inr (v, e) ↦ rw (e, settle) (ground (arith, get-remove_event s account account))
  ]

  eth_verdict-own :
      (key : UInt256) (event : EthEvent) (status : EventStatus)
      → (event ≡ EthEvent.confirm key) ⊎ (event ≡ EthEvent.reject key)
      → eth_verdict key event status ≡ remove_entry
  unfolding eth_verdict
  eth_verdict-own key event status h = ground (arith, h)

  ton_verdict-own :
      (key : UInt256) (event : TonEvent) (status : EventStatus)
      → (event ≡ TonEvent.confirm key) ⊎ (event ≡ TonEvent.reject key)
      → ton_verdict key event status ≡ remove_entry
  unfolding ton_verdict
  ton_verdict-own key event status h = ground (arith, h)

  -- A transaction of an event contract that executes the relay's own `confirm` or `reject`, whose
  -- contract's status can be read after it, leaves no pending event of the contract, for ETH and for
  -- TON events alike.
  pub own_vote_ends :
      (kind : EventType) (s : EventsState) (our_key : UInt256) (ctx : TxContext EventBaseContract)
      (id : ℕ) (status : EventStatus)
      → SignedCall ctx our_key id
      → (id ≡ confirm_id kind) ⊎ (id ≡ reject_id kind)
      → read_event_status abi ctx ≡ some status
      → get (on_transaction kind s our_key ctx).0.pending ctx.account ≡ none
  unfolding on_transaction process_eth_event process_ton_event
  own_vote_ends eth s our_key ctx id status c votes st =
      let event =
        if id == abi.eth_confirm then EthEvent.confirm our_key else EthEvent.reject our_key in
      let read : read_eth_event abi ctx ≡ some event =
        read_eth_event-SignedCall ctx our_key id c ∙ ground (arith, votes) in
      rw (read, st, on_transaction, eth_verdict-own our_key event status (ground arith))
        (get-settle_remove s ctx.account eth)
  own_vote_ends ton s our_key ctx id status c votes st =
      let event =
        if id == abi.ton_confirm then TonEvent.confirm our_key else TonEvent.reject our_key in
      rw
        (
          read_ton_event-SignedCall ctx our_key id c votes,
          st,
          on_transaction,
          ton_verdict-own our_key event status (ground arith),
        )
        (get-settle_remove s ctx.account ton)

  -- The vote of another relay for a TON event that is not rejected changes no pending event and starts
  -- nothing, whatever the balance of the contract is, also after the event is confirmed.
  pub other_ton_vote_keeps :
      (s : EventsState) (our_key key : UInt256) (ctx : TxContext EventBaseContract) (id : ℕ)
      (status : EventStatus)
      → SignedCall ctx key id
      → (id ≡ abi.ton_confirm) ⊎ (id ≡ abi.ton_reject)
      → read_event_status abi ctx ≡ some status
      → key ≢ our_key
      → status ≢ rejected
      → on_transaction ton s our_key ctx ≡ (s, [])
  unfolding on_transaction process_ton_event ton_verdict settle
  other_ton_vote_keeps s our_key key ctx id status c votes st other alive =
      rw (read_ton_event-SignedCall ctx key id c votes, st, on_transaction)
        (ground (arith, other, alive))
