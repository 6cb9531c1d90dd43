-- ===== src/Bridge/Examples.antt =====
-- The bridge at concrete inputs: one EVM and one TON configuration behind one connector, one event.
use ton_eth_bridge_relay.Base.{
  ℕ, ◌+◌, ◌%◌, ◌≤◌, ◌<◌, ◌≡◌, refl, ◌↔◌, ◌⊎◌, true, false, none, some, List, [], ◌∷◌, Unique, get,
  ◌==◌, length, ok, err, u64_mod, ◌-◌, nat_eq, adjust,
}
use ton_eth_bridge_relay.Bridge.Events.{remove_event}
use ton_eth_bridge_relay.Errors.{not_found}
use ton_eth_bridge_relay.Shards.{UInt256}
use ton_eth_bridge_relay.Contracts.{
  confirmed, pending, initializing, eth, ton, EthEventConfigurationDetails,
  TonEventConfigurationDetails, BasicConfiguration, ConnectorDetails,
}
use ton_eth_bridge_relay.Contracts.Views.{EventBaseContract, EventContract, ConfigurationContract}
use ton_eth_bridge_relay.EthSubscriber.Models.{exists, not_exists}
use ton_eth_bridge_relay.Bridge.Action.{vote, nop, process, TakesVote, process_iff}
use ton_eth_bridge_relay.Bridge.Events.{
  EventsState, new, count_sub, add_pending_event, start_processing,
}
use ton_eth_bridge_relay.Bridge.Events.Interleaving.{
  Threads, enters, leaves, enter_step, add_step, leave_step, Reach, here, next, idle,
  quiescent_count, count_wraps,
}
use ton_eth_bridge_relay.Bridge.Events.Once.{
  Call, adds, removes, starts, entered, started, waits, started-le-entered,
}
use ton_eth_bridge_relay.Bridge.Handlers.Deployment.{event_deployed_again}
use ton_eth_bridge_relay.Bridge.Handlers.{
  EthEvent, TonEvent, preprocess, event_deployed, process_eth_event, process_ton_event,
}
use ton_eth_bridge_relay.Bridge.Handlers.Removal.{
  EthDone, TonDone, process_eth_event_removal, process_ton_event_removal,
}
use ton_eth_bridge_relay.Bridge.Configurations.Monad.{Services, EthEventAbi, TonEventAbi}
use ton_eth_bridge_relay.Bridge.Configurations.Methods.{
  collect_expired, has_expired_ton_event_configurations,
}
use ton_eth_bridge_relay.Bridge.Configurations.Invariant.{Inv}
use ton_eth_bridge_relay.Bridge.Configurations.History
use ton_eth_bridge_relay.Bridge.Configurations.Expiry.{collect_expired_lem}
use ton_eth_bridge_relay.Bridge.Voting.{
  delivers, EthEnvironment, TonEnvironment, update_eth_event, update_ton_event, confirm_eth,
  reject_eth, confirm_ton,
}
use ton_eth_bridge_relay.Bridge.Voting.Soundness.{EthVotes, update_eth_event_votes}
use ton_eth_bridge_relay.Bridge.Voting.Signing.{Confirms, Rejects, update_ton_event_votes}

-- The relay's key is 7; nobody has voted.
abbrev open_event : EventBaseContract
open_event = record {
  status = ok pending;
  round_number = ok 3;
  get_voters = λ v. ok (5 ∷ 7 ∷ []);
  get_api_version = ok 2;
  balance = 100;
}

abbrev event_contract : EventContract
event_contract = record {
  base = open_event;
  eth_event_init_data = ok (record {
    vote_data = record {
      event_transaction = 11;
      event_index = 2;
      event_data = 21;
      event_block_number = 100;
      event_block = 31;
    };
    configuration = 50;
    staking = 9;
    chain_id = 1;
  });
  ton_event_init_data = ok (record {
    vote_data = record { event_transaction_lt = 4; event_timestamp = 5; event_data = 21 };
    configuration = 60;
    staking = 9;
  });
}

abbrev basic : ℕ → BasicConfiguration
basic code = record { event_abi = ""; staking = 9; event_initial_balance = 1; event_code = code }

abbrev eth_details : EthEventConfigurationDetails
eth_details = record {
  basic_configuration = basic 500;
  network_configuration = record {
    chain_id = 1;
    event_emitter = 77;
    event_blocks_to_confirm = 3;
    proxy = 78;
    start_block_number = 0;
    end_block_number = 0;
  };
  meta = 0;
}

abbrev ton_details : TonEventConfigurationDetails
ton_details = record {
  basic_configuration = basic 600;
  network_configuration = record {
    event_emitter = 79;
    proxy = 80;
    start_timestamp = 0;
    end_timestamp = 1000;
  };
  meta = 0;
}

abbrev eth_abi : EthEventAbi
eth_abi = record { topic_hash = 90; decode_and_map = λ bytes. ok 21 }

abbrev ton_abi : TonEventAbi
ton_abi = record { decode_and_map = λ cell. ok (cell ∷ []) }

abbrev services : Services
services = record {
  parse_eth_abi = λ s. ok eth_abi;
  parse_ton_abi = λ s. ok ton_abi;
  has_subscriber = λ n. true;
}

abbrev configuration : ConfigurationContract
configuration = record {
  get_type = ok ton;
  eth_details = err not_found;
  ton_details = ok ton_details;
}

abbrev eth_configuration : ConfigurationContract
eth_configuration = record {
  get_type = ok eth;
  eth_details = ok eth_details;
  ton_details = err not_found;
}

abbrev connector : ℕ → ConnectorDetails
connector account = record { id = 0; event_configuration = account; enabled = true }

-- A connector is deployed twice and leads to both configurations.
abbrev history : List History.Call
history =
    History.deploys (record { id = 0; connector = 40; event_configuration = 60 })
    ∷ History.checks services 10 40 (ok (connector 60)) configuration
    ∷ History.checks services 10 40 (ok (connector 50)) eth_configuration
    ∷ History.checks services 10 40 (ok (connector 50)) eth_configuration
    ∷ []

run-new-Inv_example : Inv (History.run History.new history)
run-new-Inv_example = History.run-new-Inv history

collect_expired_lem_example :
    let before = History.run History.new history in
    let after = collect_expired 2000 before in
    (has_expired_ton_event_configurations after.state 2000 ≡ false)
    × ((a : UInt256) (c : _)
        → (get after.ton_event_configurations a ≡ some c) ↔ (
            (get before.ton_event_configurations a ≡ some c)
            × ¬ (
                (1 ≤ c.details.network_configuration.end_timestamp)
                × (c.details.network_configuration.end_timestamp < 2000))))
collect_expired_lem_example =
    collect_expired_lem 2000 (History.run History.new history) (History.run-new-Inv history)

process_iff_example :
    ((process open_event 7 false ≡ ok vote) ↔ TakesVote open_event 7 false)
    × ((process open_event 7 false ≡ ok nop) ↔ (open_event.status ≡ ok initializing))
process_iff_example = process_iff open_event 7 false

-- Two threads: one has put event 1 into the map and counted it, the other has taken it out.
abbrev two_threads : Threads
two_threads =
    leaves (record (enters (idle new) 1) { state = (add_pending_event new 1).0; entered = 0 }) 1

two_threads-Reach : Reach (idle new) two_threads
unfolding enters add_pending_event new get
two_threads-Reach =
    next (next (next here (enter_step (idle new) 1)) (add_step (enters (idle new) 1) 0 refl))
      (leave_step _ 1)

quiescent_count_example :
    Unique two_threads.pending
    × ((two_threads.count + two_threads.entered) % u64_mod
        ≡ (length two_threads.pending + two_threads.left) % u64_mod)
    × (two_threads.entered ≡ 0
        → two_threads.left ≡ 0
        → two_threads.count % u64_mod ≡ length two_threads.pending % u64_mod)
quiescent_count_example = quiescent_count two_threads-Reach

count_wraps_example :
    let t = leaves (enters (idle new) 1) 1 in
    (t.entered ≡ 1) × (t.left ≡ 1) × ((count_sub t.state).count ≡ u64_mod - 1)
unfolding new get
count_wraps_example = count_wraps new 1 refl refl

abbrev calls : List Call
calls = adds 1 ∷ starts 1 ∷ starts 1 ∷ adds 1 ∷ removes 1 ∷ adds 1 ∷ starts 1 ∷ []

started-le-entered_example : started new calls 1 ≤ waits (get new.pending 1) + entered new calls 1
started-le-entered_example = started-le-entered new calls 1

-- Event 1 is pending, not started.
abbrev one_event : EventsState
one_event = record { pending = (1, record { processing_started = false }) ∷ []; count = 1 }

process_eth_event_removal_example :
    let after = (process_eth_event one_event 7 1 (EthEvent.confirm 7) pending).0 in
    ((get after.pending 1 ≡ none) ↔ EthDone 7 (EthEvent.confirm 7) pending)
    × ((j : UInt256) → (1 == j) ≡ false → get after.pending j ≡ get one_event.pending j)
unfolding get
process_eth_event_removal_example =
    process_eth_event_removal one_event 7 1 (EthEvent.confirm 7) pending refl

process_ton_event_removal_example :
    let after = (process_ton_event one_event 7 1 TonEvent.closed confirmed).0 in
    ((get after.pending 1 ≡ none) ↔ TonDone 7 TonEvent.closed confirmed)
    × ((j : UInt256) → (1 == j) ≡ false → get after.pending j ≡ get one_event.pending j)
unfolding get
process_ton_event_removal_example =
    process_ton_event_removal one_event 7 1 TonEvent.closed confirmed refl

abbrev eth_environment : EthEnvironment
eth_environment = record {
  arrival = record { others_before_contract = λ s. s; contract = ok event_contract };
  configurations = (50, record { details = eth_details; event_abi = eth_abi }) ∷ [];
  has_subscriber = λ n. true;
  verify = λ chain d emitter abi blocks. ok exists;
  others_before_status = λ s. s;
}

abbrev ton_environment : TonEnvironment
ton_environment = record {
  arrival = record { others_before_contract = λ s. s; contract = ok event_contract };
  configurations = (60, record { details = ton_details; event_abi = ton_abi }) ∷ [];
  make_mapped_ton_event = λ lt t bytes c a p r. bytes;
  sign = λ bytes. bytes;
}

update_eth_event_votes_example :
    ((update_eth_event eth_environment one_event 7 1).1 ≡ delivers (confirm_eth 1)) ↔ (
      (EthVotes eth_environment one_event 7 1 exists × (confirm_eth 1 ≡ confirm_eth 1))
      ⊎ (EthVotes eth_environment one_event 7 1 not_exists × (confirm_eth 1 ≡ reject_eth 1)))
update_eth_event_votes_example =
    update_eth_event_votes eth_environment one_event 7 1 (confirm_eth 1)

update_ton_event_votes_example :
    ((update_ton_event ton_environment one_event 7 1).1 ≡ delivers (confirm_ton 1 (21 ∷ []))) ↔ (
      Confirms ton_environment one_event 7 1 (confirm_ton 1 (21 ∷ []))
      ⊎ Rejects ton_environment one_event 7 1 (confirm_ton 1 (21 ∷ [])))
update_ton_event_votes_example =
    update_ton_event_votes ton_environment one_event 7 1 (confirm_ton 1 (21 ∷ []))

-- The votes are really sent at these inputs.
eth_vote_test : (update_eth_event eth_environment one_event 7 1).1 ≡ delivers (confirm_eth 1)
unfolding update_eth_event get start_processing process adjust
eth_vote_test = refl

ton_vote_test :
    (update_ton_event ton_environment one_event 7 1).1 ≡ delivers (confirm_ton 1 (21 ∷ []))
unfolding update_ton_event get start_processing process adjust
ton_vote_test = refl

event_deployed_again_example :
    let once = (event_deployed new eth 1).0 in
    let again = event_deployed (remove_event once 1) eth 1 in
    (event_deployed once eth 1 ≡ (once, []))
    × (again.1 ≡ preprocess eth 1 ∷ [])
    × (get again.0.pending 1 ≡ some (record { processing_started = false }))
event_deployed_again_example = event_deployed_again new eth 1
