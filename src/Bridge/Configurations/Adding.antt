-- ===== src/Bridge/Configurations/Adding.antt =====
-- The methods that add connectors and configurations keep the invariant, whatever they return.
use mathlib.Core.List.{Memᴰ}
use ton_eth_bridge_relay.Base.{
  ℕ, ◌≡◌, inl, inr, Bool, true, false, some, get, nat_eq, ok, err, if◌then◌else◌, Bool-cases,
  Option-cases, Result-cases, contains_key,
}
use ton_eth_bridge_relay.Errors.{Error, Fallible, unknown_connector}
use ton_eth_bridge_relay.Shards.{UInt256}
use ton_eth_bridge_relay.Contracts.{
  Cell, EventType, eth, ton, ConnectorDetails, ConnectorDeployedEvent,
}
use ton_eth_bridge_relay.Contracts.Views.{ConfigurationContract}
use ton_eth_bridge_relay.Bridge.Configurations.Monad.{
  Services, EthEventConfigurationState, TonEventConfigurationState, eth_event_configurations_tx,
  ton_event_configurations_tx, Bridge, M, bind_result, ◌>>=◌, ◌>>◌, ensure, done, modify,
  subscribe_transactions,
}
use ton_eth_bridge_relay.Bridge.Configurations.Methods.{
  add_event_code_hash, set_code_hashes, subscribe_eth, put_connector, register_code, enter_eth,
  enter_ton, process_bridge_event, is_expired, add_eth_event_configuration,
  add_ton_event_configuration, add_by_type, process_event_configuration, check_connector_contract,
  check_known,
}
use ton_eth_bridge_relay.Bridge.Configurations.Invariant.{
  Inv, eth_code, ton_code, eth_topic, add_event_code_hash_lem, set_code_hashes-Inv, put_eth-Inv,
  put_ton-Inv,
}

abbrev pub Keeps : {A : Type 0} → M A → Type 0
Keeps m = (b : Bridge) → Inv b → Inv (m b).0

-- A method that begins with a step that returns `r` and leaves the state `b`.
pub then_Inv :
    {A B : Type 0} (b : Bridge) (r : Fallible A) (f : A → M B)
    → Inv b
    → ((a : A) → Inv (f a b).0)
    → Inv (bind_result (b, r) f).0
then_Inv b (ok a) f v k = k a
then_Inv b (err e) f v k = v

pub Keeps-bind :
    {A B : Type 0} (m : M A) (f : A → M B) → Keeps m → ((a : A) → Keeps (f a)) → Keeps (m >>= f)
Keeps-bind m f h k b v = then_Inv (m b).0 (m b).1 f (h b v) (λ a. k a (m b).0 (h b v))

pub Keeps-if : {A : Type 0} (t : Bool) (m n : M A) → Keeps m → Keeps n → Keeps (if t then m else n)
Keeps-if true m n h k = h
Keeps-if false m n h k = k

-- A registration and what follows it, which may use that the code is registered.
after_register :
    (code : Cell) (t : EventType) (m : M (Unit {0})) (b : Bridge)
    → Inv b
    → ((b' : Bridge) → Inv b' → get b'.event_code_hashes code ≡ some t → Inv (m b').0)
    → Inv ((register_code code t >> m) b).0
unfolding register_code
after_register code t m b v next =
    elim (Result-cases (add_event_code_hash b.event_code_hashes code t)) [
      | inl (h, e) ↦
          let (grows, there) = add_event_code_hash_lem b.event_code_hashes h code t e in
          rw (e, register_code) (next (set_code_hashes h b) (set_code_hashes-Inv b h grows v) there)
      | inr (error, e) ↦ rw (e, register_code) v
    ]

-- From a registered code on: the entry and the subscriptions.
add_eth_tail :
    (account : UInt256) (c : EthEventConfigurationState) (b : Bridge)
    → Inv b
    → get b.event_code_hashes (eth_code c) ≡ some eth
    → Inv
        ((do
          enter_eth account c
          modify (subscribe_eth (eth_topic account c))
          modify (subscribe_transactions account eth_event_configurations_tx))
          b).0
unfolding enter_eth
add_eth_tail account c b v known = elim (Option-cases (get b.eth_event_configurations account)) [
  | inl absent ↦ rw (absent, enter_eth) (put_eth-Inv b account c absent known v)
  | inr (old, there) ↦ rw (there, enter_eth) v
]

add_ton_tail :
    (account : UInt256) (c : TonEventConfigurationState) (b : Bridge)
    → Inv b
    → get b.event_code_hashes (ton_code c) ≡ some ton
    → Inv
        ((do
          enter_ton account c
          modify (subscribe_transactions account ton_event_configurations_tx))
          b).0
unfolding enter_ton
add_ton_tail account c b v known = elim (Option-cases (get b.ton_event_configurations account)) [
  | inl absent ↦ rw (absent, enter_ton) (put_ton-Inv b account c absent known v)
  | inr (old, there) ↦ rw (there, enter_ton) v
]

add_eth-Inv :
    (services : Services) (account : UInt256) (contract : ConfigurationContract)
    → Keeps (add_eth_event_configuration services account contract)
unfolding add_eth_event_configuration
add_eth-Inv services account contract b v = then_Inv b contract.eth_details _ v λ details.
    then_Inv b (services.parse_eth_abi details.basic_configuration.event_abi) _ v λ event_abi.
      let c : EthEventConfigurationState = record { details = details; event_abi = event_abi } in
      elim (Bool-cases (services.has_subscriber details.network_configuration.chain_id)) [
        | inl found ↦ rw found (after_register (eth_code c) eth _ b v (add_eth_tail account c))
        | inr missing ↦ rw missing v
      ]

add_ton-Inv :
    (services : Services) (now : ℕ) (account : UInt256) (contract : ConfigurationContract)
    → Keeps (add_ton_event_configuration services now account contract)
unfolding add_ton_event_configuration
add_ton-Inv services now account contract b v = then_Inv b contract.ton_details _ v λ details.
    elim (Bool-cases (is_expired details now)) [
      | inl old ↦ rw old v
      | inr current ↦ rw current (
          then_Inv b (services.parse_ton_abi details.basic_configuration.event_abi) _ v λ event_abi.
            let c : TonEventConfigurationState = record {
              details = details;
              event_abi = event_abi;
            } in
            after_register (ton_code c) ton _ b v (add_ton_tail account c))
    ]

add_by_type-Inv :
    (t : EventType) (services : Services) (now : ℕ) (account : UInt256)
    (contract : ConfigurationContract)
    → Keeps (add_by_type t services now account contract)
add_by_type-Inv eth services now account contract = add_eth-Inv services account contract
add_by_type-Inv ton services now account contract = add_ton-Inv services now account contract

Keeps-ensure : (t : Bool) (e : Error) → Keeps (ensure t e)
Keeps-ensure true e b v = v
Keeps-ensure false e b v = v

check_known-Inv : (connector : UInt256) → Keeps (check_known connector)
check_known-Inv connector b v =
    Keeps-ensure (contains_key b.connectors connector) unknown_connector b v

pub process_event_configuration-Inv :
    (services : Services) (now : ℕ) (connector account : UInt256) (contract : ConfigurationContract)
    → Keeps (process_event_configuration services now connector account contract)
unfolding process_event_configuration
process_event_configuration-Inv services now connector account contract b v =
    then_Inv b contract.get_type _ v λ t.
      Keeps-bind (check_known connector) (λ _. add_by_type t services now account contract)
        (check_known-Inv connector) (λ _. add_by_type-Inv t services now account contract) b v

pub check_connector_contract-Inv :
    (services : Services) (now : ℕ) (connector : UInt256) (details : Fallible ConnectorDetails)
    (contract : ConfigurationContract)
    → Keeps (check_connector_contract services now connector details contract)
unfolding check_connector_contract
check_connector_contract-Inv services now connector details contract b v =
    then_Inv b details _ v λ d.
      Keeps-if d.enabled _ done
        (process_event_configuration-Inv services now connector d.event_configuration contract)
        (λ b v. v) b v

pub put_connector-Inv : (connector : UInt256) (b : Bridge) → Inv b → Inv (put_connector connector b)
put_connector-Inv connector b v = record {
  eth_unique = v.eth_unique;
  ton_unique = v.ton_unique;
  eth_counted = v.eth_counted;
  ton_counted = v.ton_counted;
  eth_hashed = v.eth_hashed;
  ton_hashed = v.ton_hashed;
  eth_topics = v.eth_topics;
  eth_heard = λ a c e. Memᴰ.tail (v.eth_heard a c e);
  ton_heard = λ a c e. Memᴰ.tail (v.ton_heard a c e);
}

pub process_bridge_event-Inv :
    (event : ConnectorDeployedEvent) (b : Bridge) → Inv b → Inv (process_bridge_event event b).0
unfolding process_bridge_event
process_bridge_event-Inv event b v = elim (Option-cases (get b.connectors event.connector)) [
  | inl e ↦ rw (e, process_bridge_event) (put_connector-Inv event.connector b v)
  | inr (o, e) ↦ rw (e, process_bridge_event) v
]
