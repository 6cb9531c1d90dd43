-- ===== src/Bridge/Voting/Soundness.antt =====
-- When the relay votes, and what for.
use ton_eth_bridge_relay.Base.{
  ◌≡◌, refl, ◌↔◌, ◌⊎◌, inl, inr, true, false, some, get, contains_key, nat_eq, ok, err, arith,
  Bool-cases, Option-cases, Result-cases,
}
use ton_eth_bridge_relay.Errors.{Fallible}
use ton_eth_bridge_relay.Shards.{UInt256}
use ton_eth_bridge_relay.Contracts.{EthEventInitData}
use ton_eth_bridge_relay.Contracts.Views.{EventContract}
use ton_eth_bridge_relay.EthSubscriber.Models.{VerificationStatus, exists, not_exists}
use ton_eth_bridge_relay.Bridge.Action.{EventAction, nop, vote, process}
use ton_eth_bridge_relay.Bridge.Events.{EventsState, start_processing}
use ton_eth_bridge_relay.Bridge.Configurations.Monad.{EthEventConfigurationState}
use ton_eth_bridge_relay.Bridge.Voting.{
  Message, confirm_eth, reject_eth, Outcome, delivers, EthEnvironment, eth_message, eth_answer,
  eth_verify, eth_vote, by_action, eth_contract, update_eth_event,
}

-- The state in which the contract of the event arrives.
abbrev pub eth_arrived : EthEnvironment → EventsState → UInt256 → EventsState
eth_arrived env s account = env.others_before_contract (start_processing s account).0

-- The answer of the EVM chain about the event of a contract.
pub record EthVerified (env : EthEnvironment) (contract : EventContract)
    (status : VerificationStatus) : Type 0 where
  pub init_data : EthEventInitData
  pub read : contract.eth_event_init_data ≡ ok init_data
  pub configuration : EthEventConfigurationState
  pub known : get env.configurations init_data.configuration ≡ some configuration
  pub subscribed : env.has_subscriber configuration.details.network_configuration.chain_id ≡ true
  pub answer :
      env.verify configuration.details.network_configuration.chain_id init_data.vote_data
        configuration.details.network_configuration.event_emitter configuration.event_abi
        configuration.details.network_configuration.event_blocks_to_confirm
      ≡ ok status

-- The relay is due to send its vote for an ETH event.
pub record EthVotes (env : EthEnvironment) (s : EventsState) (our_key account : UInt256)
    (status : VerificationStatus) : Type 0 where
  pub first : (start_processing s account).1 ≡ true
  pub contract : EventContract
  pub arrived : env.contract ≡ ok contract
  pub open_vote : process contract.base our_key false ≡ ok vote
  pub verified : EthVerified env contract status
  pub still_pending :
      contains_key (env.others_before_status (eth_arrived env s account)).pending account ≡ true

eth_answer_votes :
    (s : EventsState) (account : UInt256) (r : Fallible VerificationStatus) (m : Message)
    → (eth_answer s account r).1 ≡ delivers m
    → (status : VerificationStatus) × (r ≡ ok status)
      × (m ≡ eth_message status account)
      × (contains_key s.pending account ≡ true)
unfolding eth_answer
eth_answer_votes s account (ok status) m h = (status, refl, ground arith, ground arith)
eth_answer_votes s account (err e) m h = absurd (ground arith)

eth_verify_votes :
    (env : EthEnvironment) (s : EventsState) (account : UInt256) (d : EthEventInitData)
    (m : Message)
    → (eth_verify env s account d).1 ≡ delivers m
    → (c : EthEventConfigurationState) × (get env.configurations d.configuration ≡ some c)
      × (env.has_subscriber c.details.network_configuration.chain_id ≡ true)
      × ((eth_answer (env.others_before_status s) account (
            env.verify c.details.network_configuration.chain_id d.vote_data
              c.details.network_configuration.event_emitter c.event_abi
              c.details.network_configuration.event_blocks_to_confirm)).1
          ≡ delivers m)
unfolding eth_verify
eth_verify_votes env s account d m h =
    elim (Option-cases (get env.configurations d.configuration)) [
      | inl e ↦ absurd (ground (arith, e))
      | inr (c, e) ↦ (c, e, ground (arith, e), ground (arith, e))
    ]

eth_vote_votes :
    (env : EthEnvironment) (s : EventsState) (account : UInt256) (contract : EventContract)
    (m : Message)
    → (eth_vote env s account contract).1 ≡ delivers m
    → (status : VerificationStatus) × EthVerified env contract status
      × (m ≡ eth_message status account)
      × (contains_key (env.others_before_status s).pending account ≡ true)
unfolding eth_vote
eth_vote_votes env s account contract m h = elim (Result-cases contract.eth_event_init_data) [
  | inr (e, r) ↦ absurd (ground (arith, r))
  | inl (d, r) ↦
      let (c, known, subscribed, answered) =
        eth_verify_votes env s account d m (ground (arith, r)) in
      let (status, answer, message, there) =
        eth_answer_votes (env.others_before_status s) account
          (env.verify c.details.network_configuration.chain_id d.vote_data
            c.details.network_configuration.event_emitter c.event_abi
            c.details.network_configuration.event_blocks_to_confirm)
          m answered in
      (
        status,
        record {
          init_data = d;
          read = r;
          configuration = c;
          known = known;
          subscribed = subscribed;
          answer = answer;
        },
        message,
        there,
      )
]

pub by_action_delivers :
    (r : Fallible EventAction) (s : EventsState) (account : UInt256) (k : EventsState × Outcome)
    (m : Message)
    → (by_action r s account k).1 ≡ delivers m
    → (r ≡ ok vote) × (k.1 ≡ delivers m)
unfolding by_action
by_action_delivers (err e) s account k m h = absurd (ground arith)
by_action_delivers (ok nop) s account k m h = absurd (ground arith)
by_action_delivers (ok EventAction.remove) s account k m h = absurd (ground arith)
by_action_delivers (ok vote) s account k m h = (refl, h)

EthVotes-of_message :
    (env : EthEnvironment) (s : EventsState) (our_key account : UInt256) (m : Message)
    → (update_eth_event env s our_key account).1 ≡ delivers m
    → (status : VerificationStatus) × EthVotes env s our_key account status
      × (m ≡ eth_message status account)
unfolding update_eth_event
EthVotes-of_message env s our_key account m h = elim (Bool-cases (start_processing s account).1) [
  | inr later ↦ absurd (ground (arith, later))
  | inl first ↦ elim (Result-cases env.contract) [
    | inr (e, r) ↦ absurd (ground (arith, first, r))
    | inl (contract, r) ↦
        let arrived = eth_arrived env s account in
        let (open_vote, voted) =
          by_action_delivers (process contract.base our_key false) arrived account
            (eth_vote env arrived account contract) m (ground (arith, first, r)) in
        let (status, verified, message, there) =
          eth_vote_votes env arrived account contract m voted in
        (
          status,
          record {
            first = first;
            contract = contract;
            arrived = r;
            open_vote = open_vote;
            verified = verified;
            still_pending = there;
          },
          message,
        )
  ]
]

eth_message_of_votes :
    (env : EthEnvironment) (s : EventsState) (our_key account : UInt256)
    (status : VerificationStatus)
    → EthVotes env s our_key account status
    → (update_eth_event env s our_key account).1 ≡ delivers (eth_message status account)
unfolding update_eth_event eth_answer by_action eth_vote eth_verify eth_contract
eth_message_of_votes env s our_key account status v =
    simp
      (
        v.first, v.arrived, v.open_vote, v.verified.read, v.verified.known, v.verified.subscribed,
        v.verified.answer, by_action, eth_vote, eth_verify, eth_contract,
      )
      (ground (arith, v.still_pending))

by_status :
    (env : EthEnvironment) (s : EventsState) (our_key account : UInt256) (m : Message)
    (status : VerificationStatus)
    → EthVotes env s our_key account status
    → m ≡ eth_message status account
    → (EthVotes env s our_key account exists × (m ≡ confirm_eth account))
      ⊎ (EthVotes env s our_key account not_exists × (m ≡ reject_eth account))
by_status env s our_key account m exists v h = inl (v, h)
by_status env s our_key account m not_exists v h = inr (v, h)

-- The task sends a message for an ETH event exactly when it is the first to process the pending
-- event, the contract takes the relay's vote, the event's configuration and an EVM subscriber for its
-- chain are known, the subscriber has answered, and the event is still pending then; and it sends a
-- confirmation to the event's account exactly if the answer is that the EVM event exists, a rejection
-- exactly if the answer is that it does not, and no other message.
pub update_eth_event_votes :
    (env : EthEnvironment) (s : EventsState) (our_key account : UInt256) (m : Message)
    → ((update_eth_event env s our_key account).1 ≡ delivers m) ↔ (
        (EthVotes env s our_key account exists × (m ≡ confirm_eth account))
        ⊎ (EthVotes env s our_key account not_exists × (m ≡ reject_eth account)))
update_eth_event_votes env s our_key account m = (
  λ h.
      (let (status, votes, message) = EthVotes-of_message env s our_key account m h in
        by_status env s our_key account m status votes message),
  λ h. elim h [
    | inl v ↦ rw v.1 (eth_message_of_votes env s our_key account exists v.0)
    | inr v ↦ rw v.1 (eth_message_of_votes env s our_key account not_exists v.0)
  ],
)
