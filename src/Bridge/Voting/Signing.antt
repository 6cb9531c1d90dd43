-- ===== src/Bridge/Voting/Signing.antt =====
-- When the relay signs a TON event, and what it signs.
use ton_eth_bridge_relay.Base.{
  ℕ, ◌≡◌, refl, ◌↔◌, ◌⊎◌, inl, inr, true, some, List, get, contains_key, nat_eq, ok, err, arith,
  Bool-cases, Option-cases, Result-cases,
}
use ton_eth_bridge_relay.Errors.{Error, Fallible}
use ton_eth_bridge_relay.Shards.{UInt256}
use ton_eth_bridge_relay.Contracts.{TonEventInitData}
use ton_eth_bridge_relay.Contracts.Views.{EventContract}
use ton_eth_bridge_relay.Bridge.Action.{vote, process}
use ton_eth_bridge_relay.Bridge.Events.{EventsState, start_processing}
use ton_eth_bridge_relay.Bridge.Configurations.Monad.{TonEventConfigurationState}
use ton_eth_bridge_relay.Bridge.Voting.{
  Message, confirm_ton, reject_ton, delivers, TonEnvironment, by_action, ton_message, ton_event,
  ton_decode, ton_vote, ton_contract, update_ton_event,
}
use ton_eth_bridge_relay.Bridge.Voting.Soundness.{by_action_delivers}

-- The relay is due to send its vote for a TON event, whose data is decoded with this result.
pub record TonVotes (env : TonEnvironment) (s : EventsState) (our_key account : UInt256)
    (decoded : Fallible (List ℕ)) : Type 0 where
  pub first : (start_processing s account).1 ≡ true
  pub contract : EventContract
  pub arrived : env.contract ≡ ok contract
  pub open_vote : process contract.base our_key true ≡ ok vote
  pub round_number : ℕ
  pub in_round : contract.base.round_number ≡ ok round_number
  pub init_data : TonEventInitData
  pub read : contract.ton_event_init_data ≡ ok init_data
  pub configuration : TonEventConfigurationState
  pub known : get env.configurations init_data.configuration ≡ some configuration
  pub decodes : configuration.event_abi.decode_and_map init_data.vote_data.event_data ≡ decoded
  pub still_pending :
      contains_key (env.others_before_contract (start_processing s account).0).pending account
      ≡ true

ton_decode_votes :
    (env : TonEnvironment) (s : EventsState) (account : UInt256) (n : ℕ) (d : TonEventInitData)
    (m : Message)
    → (ton_decode env s account n d).1 ≡ delivers m
    → (c : TonEventConfigurationState) × (get env.configurations d.configuration ≡ some c)
      × (contains_key s.pending account ≡ true)
      × (m ≡ ton_message env.sign account (ton_event env account n d c))
unfolding ton_decode
ton_decode_votes env s account n d m h =
    elim (Option-cases (get env.configurations d.configuration)) [
      | inl e ↦ absurd (ground (arith, e))
      | inr (c, e) ↦ (c, e, ground (arith, e), ground (arith, e))
    ]

ton_vote_votes :
    (env : TonEnvironment) (s : EventsState) (account : UInt256) (contract : EventContract)
    (m : Message)
    → (ton_vote env s account contract).1 ≡ delivers m
    → (n : ℕ) × (d : TonEventInitData) × (c : TonEventConfigurationState)
      × (contract.base.round_number ≡ ok n)
      × (contract.ton_event_init_data ≡ ok d)
      × (get env.configurations d.configuration ≡ some c)
      × (contains_key s.pending account ≡ true)
      × (m ≡ ton_message env.sign account (ton_event env account n d c))
unfolding ton_vote
ton_vote_votes env s account contract m h = elim (Result-cases contract.base.round_number) [
  | inr (e, r) ↦ absurd (ground (arith, r))
  | inl (n, r) ↦ elim (Result-cases contract.ton_event_init_data) [
    | inr (e, q) ↦ absurd (ground (arith, r, q))
    | inl (d, q) ↦
        let (c, known, there, message) =
          ton_decode_votes env s account n d m (ground (arith, r, q)) in
        (n, d, c, r, q, known, there, message)
  ]
]

-- The bytes that the relay signs when it confirms the event: the decoded data, mapped with the lt
-- and the time of the event's transaction, the configuration, the event's account, the proxy of the
-- configuration and the round.
abbrev pub mapped :
    (env : TonEnvironment) (s : EventsState) (our_key account : UInt256) (bytes : List ℕ)
    → TonVotes env s our_key account (ok bytes)
    → List ℕ
mapped env s our_key account bytes v =
    env.make_mapped_ton_event v.init_data.vote_data.event_transaction_lt
      v.init_data.vote_data.event_timestamp bytes v.init_data.configuration account
      v.configuration.details.network_configuration.proxy v.round_number

-- A confirmation with the signature of the mapped event.
pub record Confirms (env : TonEnvironment) (s : EventsState) (our_key account : UInt256)
    (m : Message) : Type 0 where
  pub bytes : List ℕ
  pub votes : TonVotes env s our_key account (ok bytes)
  pub message : m ≡ confirm_ton account (env.sign (mapped env s our_key account bytes votes))

-- A rejection, of an event whose data cannot be decoded.
pub record Rejects (env : TonEnvironment) (s : EventsState) (our_key account : UInt256)
    (m : Message) : Type 0 where
  pub error : Error
  pub votes : TonVotes env s our_key account (err error)
  pub message : m ≡ reject_ton account

by_decoded :
    (env : TonEnvironment) (s : EventsState) (our_key account : UInt256) (m : Message)
    (decoded : Fallible (List ℕ)) (v : TonVotes env s our_key account decoded)
    → m
      ≡ ton_message env.sign account
          (ton_event env account v.round_number v.init_data v.configuration)
    → Confirms env s our_key account m ⊎ Rejects env s our_key account m
unfolding ton_event
by_decoded env s our_key account m (ok bytes) v h =
    inl (record { bytes = bytes; votes = v; message = ground (arith, h, v.decodes) })
by_decoded env s our_key account m (err e) v h =
    inr (record { error = e; votes = v; message = ground (arith, h, v.decodes) })

TonVotes-of_message :
    (env : TonEnvironment) (s : EventsState) (our_key account : UInt256) (m : Message)
    → (update_ton_event env s our_key account).1 ≡ delivers m
    → Confirms env s our_key account m ⊎ Rejects env s our_key account m
unfolding update_ton_event
TonVotes-of_message env s our_key account m h = elim (Bool-cases (start_processing s account).1) [
  | inr later ↦ absurd (ground (arith, later))
  | inl first ↦ elim (Result-cases env.contract) [
    | inr (e, r) ↦ absurd (ground (arith, first, r))
    | inl (contract, r) ↦
        let arrived = env.others_before_contract (start_processing s account).0 in
        let (open_vote, voted) =
          by_action_delivers (process contract.base our_key true) arrived account
            (ton_vote env arrived account contract) m (ground (arith, first, r)) in
        let (n, d, c, in_round, read, known, there, message) =
          ton_vote_votes env arrived account contract m voted in
        by_decoded env s our_key account m (c.event_abi.decode_and_map d.vote_data.event_data)
          (record {
            first = first;
            contract = contract;
            arrived = r;
            open_vote = open_vote;
            round_number = n;
            in_round = in_round;
            init_data = d;
            read = read;
            configuration = c;
            known = known;
            decodes = refl;
            still_pending = there;
          })
          message
  ]
]

ton_message_of_votes :
    (env : TonEnvironment) (s : EventsState) (our_key account : UInt256)
    (decoded : Fallible (List ℕ)) (v : TonVotes env s our_key account decoded)
    → (update_ton_event env s our_key account).1
      ≡ delivers (
          ton_message env.sign account
            (ton_event env account v.round_number v.init_data v.configuration))
unfolding update_ton_event
ton_message_of_votes env s our_key account decoded v =
    simp
      (
        v.first, v.arrived, v.open_vote, v.in_round, v.read, v.known, by_action, ton_vote,
        ton_decode, ton_contract,
      )
      (ground (arith, v.still_pending))

-- The task sends a message for a TON event exactly when it is the first to process the pending event,
-- the contract takes the relay's vote (a confirmed one too), its round and init data can be read, the
-- event's configuration is known, and the event is still pending; and it sends a confirmation with the
-- signature of the mapped event exactly if the data can be decoded by the configuration's ABI, a
-- rejection exactly if it cannot, and no other message.
pub update_ton_event_votes :
    (env : TonEnvironment) (s : EventsState) (our_key account : UInt256) (m : Message)
    → ((update_ton_event env s our_key account).1 ≡ delivers m)
      ↔ (Confirms env s our_key account m ⊎ Rejects env s our_key account m)
unfolding ton_event
update_ton_event_votes env s our_key account m = (
  TonVotes-of_message env s our_key account m,
  λ h. elim h [
    | inl c ↦ ground (
      arith,
      ton_message_of_votes env s our_key account (ok c.bytes) c.votes,
      c.votes.decodes,
      c.message,
    )
    | inr r ↦ ground (
      arith,
      ton_message_of_votes env s our_key account (err r.error) r.votes,
      r.votes.decodes,
      r.message,
    )
  ],
)
