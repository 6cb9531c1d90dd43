-- ===== src/Bridge/Configurations/History.antt =====
-- The configurations through the life of the relay: the start-up and every sequence of methods.
use ton_eth_bridge_relay.Base.{
  ℕ, zero, suc, ◌+◌, Option, none, some, List, [], ◌∷◌, get, nat_eq, ok, err, ok_or, arith,
}
use ton_eth_bridge_relay.Errors.{Fallible, bridge_account_not_found}
use ton_eth_bridge_relay.Shards.{UInt256}
use ton_eth_bridge_relay.Contracts.{ConnectorDetails, ConnectorDeployedEvent}
use ton_eth_bridge_relay.Contracts.Views.{ConfigurationContract}
use ton_eth_bridge_relay.Bridge.Configurations.Monad.{Services, Bridge, done}
use ton_eth_bridge_relay.Bridge.Configurations.Methods.{
  put_connector, process_bridge_event, set_end_block_number, set_end_timestamp, gc_round,
  check_connector_contract,
}
use ton_eth_bridge_relay.Bridge.Configurations.Startup.{
  ShardAccounts, BridgeContract, add_configuration, add_connector, visit_connector, visit_all,
  get_all_configurations,
}
use ton_eth_bridge_relay.Bridge.Configurations.Invariant.{Inv}
use ton_eth_bridge_relay.Bridge.Configurations.Adding.{
  Keeps, then_Inv, Keeps-bind, Keeps-if, process_event_configuration-Inv,
  check_connector_contract-Inv, put_connector-Inv, process_bridge_event-Inv,
}
use ton_eth_bridge_relay.Bridge.Configurations.Changing.{
  set_end_block_number-Inv, set_end_timestamp-Inv, gc_round-Inv,
}

module _ (services : Services) (now : ℕ) (accounts : ShardAccounts) where
  add_configuration-Inv :
      (connector : UInt256) (details : ConnectorDetails)
      → Keeps (add_configuration services now accounts connector details)
  unfolding add_configuration
  add_configuration-Inv connector details b v =
      then_Inv b (accounts.find_configuration details.event_configuration) _ v (elim [
        | none ↦ v
        | some c ↦
            process_event_configuration-Inv services now connector details.event_configuration c b v
      ])

  add_connector-Inv :
      (connector : UInt256) (details : ConnectorDetails)
      → Keeps (add_connector services now accounts connector details)
  unfolding add_connector
  add_connector-Inv connector details b v =
      Keeps-if details.enabled _ done (add_configuration-Inv connector details) (λ _ v. v)
        (put_connector connector b) (put_connector-Inv connector b v)

  visit_connector-Inv :
      (connector : UInt256) → Keeps (visit_connector services now accounts connector)
  unfolding visit_connector
  visit_connector-Inv connector b v = then_Inv b (accounts.find_connector connector) _ v (elim [
    | none ↦ v
    | some (err e) ↦ v
    | some (ok details) ↦ add_connector-Inv connector details b v
  ])

  visit_all-Inv :
      (bridge : BridgeContract) (n id : ℕ) → Keeps (visit_all services now accounts bridge n id)
  unfolding visit_all
  visit_all-Inv bridge zero id b v = v
  visit_all-Inv bridge (suc n) id b v =
      then_Inv b (bridge.derive_connector_address id) _ v λ connector.
        Keeps-bind (visit_connector services now accounts connector)
          (λ _. visit_all services now accounts bridge n (id + 1)) (visit_connector-Inv connector)
          (λ _. visit_all-Inv bridge n (id + 1)) b v

  get_all_configurations-Inv : Keeps (get_all_configurations services now accounts)
  unfolding get_all_configurations
  get_all_configurations-Inv b v = then_Inv b accounts.find_bridge _ v λ found.
      then_Inv b (ok_or found bridge_account_not_found) _ v
        λ bridge. then_Inv b bridge.connector_counter _ v λ n. visit_all-Inv bridge n 0 b v

-- The methods that reach the state, with what each reads from outside.
pub data Call : Type 0 where
  starts : Services → ℕ → ShardAccounts → Call
  deploys : ConnectorDeployedEvent → Call
  checks : Services → ℕ → UInt256 → Fallible ConnectorDetails → ConfigurationContract → Call
  ends_block : UInt256 → ℕ → Call
  ends_timestamp : UInt256 → ℕ → Call
  collects : ℕ → Option ℕ → Call

unfoldable pub step : Bridge → Call → Bridge
step b (starts services now accounts) = (get_all_configurations services now accounts b).0
step b (deploys event) = (process_bridge_event event b).0
step b (checks services now connector details contract) =
    (check_connector_contract services now connector details contract b).0
step b (ends_block account end) = (set_end_block_number account end b).0
step b (ends_timestamp account end) = (set_end_timestamp account end b).0
step b (collects now shards) = gc_round now shards b

unfoldable pub run : Bridge → List Call → Bridge
run b [] = b
run b (c ∷ cs) = run (step b c) cs

unfoldable pub new : Bridge
new = record {
  state = record {
    connectors = [];
    eth_event_configurations = [];
    ton_event_configurations = [];
    event_code_hashes = [];
  };
  total_active_eth_event_configurations = 0;
  total_active_ton_event_configurations = 0;
  eth_subscriptions = [];
  transactions_subscriptions = [];
}

step-Inv : (b : Bridge) (c : Call) → Inv b → Inv (step b c)
unfolding step
step-Inv b (starts services now accounts) v = get_all_configurations-Inv services now accounts b v
step-Inv b (deploys event) v = process_bridge_event-Inv event b v
step-Inv b (checks services now connector details contract) v =
    check_connector_contract-Inv services now connector details contract b v
step-Inv b (ends_block account end) v = set_end_block_number-Inv account end b v
step-Inv b (ends_timestamp account end) v = set_end_timestamp-Inv account end b v
step-Inv b (collects now shards) v = gc_round-Inv now shards b v

run-Inv : (b : Bridge) (cs : List Call) → Inv b → Inv (run b cs)
unfolding run
run-Inv b [] v = v
run-Inv b (c ∷ cs) v = run-Inv (step b c) cs (step-Inv b c v)

new-Inv : Inv new
unfolding new get
new-Inv = record {
  eth_unique = tt;
  ton_unique = tt;
  eth_counted = omega arith;
  ton_counted = omega arith;
  eth_hashed = λ a c e. absurd (cc e);
  ton_hashed = λ a c e. absurd (cc e);
  eth_topics = λ a c e. absurd (cc e);
  eth_heard = λ a c e. absurd (cc e);
  ton_heard = λ a c e. absurd (cc e);
}

-- After any methods, failed ones included, on a new bridge: each configuration stands once, the two
-- counters are the numbers of configurations, the code hash of each configuration is registered
-- under its own kind, and the relay is subscribed to what each configuration announces.
pub run-new-Inv : (cs : List Call) → Inv (run new cs)
run-new-Inv cs = run-Inv new cs new-Inv
