-- ===== src/EthSubscriber/Examples.antt =====
-- The subscriber at concrete inputs.
use mathlib.Core.List.{Memᴰ}
use mathlib.Core.Option
use ton_eth_bridge_relay.Base.{
  ℕ, ◌≡◌, refl, ◌↔◌, ◌⊎◌, none, some, List, [], ◌∷◌, ok, get, insert, arith,
}
use ton_eth_bridge_relay.Contracts.{EthEventVoteData}
use ton_eth_bridge_relay.Bridge.Configurations.Monad.{EthEventAbi}
use ton_eth_bridge_relay.EthSubscriber.Models.{Log, EventId, VerificationStatus, exists}
use ton_eth_bridge_relay.EthSubscriber.Confirmations.Pending.{
  id_eq, PendingConfirmation, in_process, Confirmations, find_event,
}
use ton_eth_bridge_relay.EthSubscriber.Confirmations.Update.{
  EthSubscriber, height, logs, Network, new, resolve,
}
use ton_eth_bridge_relay.EthSubscriber.Confirmations.Verdicts.{
  marked, verdict, left_of, resolve_pending,
}
use ton_eth_bridge_relay.EthSubscriber.Confirmations.Verdicts.Told.{Due}
use ton_eth_bridge_relay.EthSubscriber.Confirmations.Verdicts.Channels.{resolve_told}
use ton_eth_bridge_relay.EthSubscriber.Confirmations.Ranges.{
  Steady, Shared, updates, updates_reach_head,
}
use ton_eth_bridge_relay.EthSubscriber.Confirmations.History as History
use ton_eth_bridge_relay.EthSubscriber.Confirmations.History.{Accounted, run-new-Accounted}
use ton_eth_bridge_relay.EthSubscriber.Topics
use ton_eth_bridge_relay.EthSubscriber.Topics.{TopicsMapEntry}
use ton_eth_bridge_relay.EthSubscriber.Topics.Coverage.{Covers, run-new-Covers}

abbrev entry : ℕ → ℕ → TopicsMapEntry
entry a t = record { address = a; topic_hash = t; configuration_account = t }

-- Two configurations share address 1; one of them goes.
abbrev shared_address : List Topics.Call
shared_address =
    Topics.subscribes (entry 1 2)
    ∷ Topics.subscribes (entry 1 3)
    ∷ Topics.unsubscribes (entry 1 2 ∷ [])
    ∷ []

run-new-Covers_example : Covers (Topics.run Topics.new shared_address)
run-new-Covers_example = run-new-Covers shared_address

-- An event of transaction 11 in block 100, whose data is the cell 21, and the log of it.
abbrev vote_data : EthEventVoteData
vote_data = record {
  event_transaction = 11;
  event_index = 2;
  event_data = 21;
  event_block_number = 100;
  event_block = 31;
}

abbrev abi : EthEventAbi
abi = record { topic_hash = 90; decode_and_map = λ bytes. ok 21 }

abbrev log : Log
log = record {
  address = 77;
  topics = 90 ∷ [];
  log_data = [];
  block_hash = some 31;
  block_number = some 100;
  transaction_hash = some 11;
  log_index = some 2;
  removed = none;
}

abbrev id : EventId
id = record { transaction = 11; index = 2 }

abbrev confirmation : PendingConfirmation
confirmation = record {
  vote_data = vote_data;
  status_tx = some 0;
  event_emitter = 77;
  event_abi = abi;
  target_block = 103;
  status = in_process;
}

abbrev pending : Confirmations
pending = (id, confirmation) ∷ []

-- The head of the chain is block 120; the receipt has the log.
abbrev network : Network
network = record {
  current_height = height 120;
  get_logs = λ f. logs [];
  receipts = λ h. ok (some (record { status = some 1; logs = log ∷ [] }));
  arrivals = λ ids. ids;
  others_before_lock = λ s. s;
}

resolve_pending_example :
    get (resolve network 110 [] pending []).0 id
    ≡ left_of 110 (find_event network.receipts id) (Option.map (marked [] id) (get pending id))
unfolding get
resolve_pending_example = resolve_pending network 110 [] pending [] id (refl, tt) (λ ids i. refl)

resolve_told_example :
    Memᴰ {A = ℕ × VerificationStatus} (0, exists) (resolve network 110 [] pending []).1 ↔ (
      Memᴰ {A = ℕ × VerificationStatus} (0, exists) []
      ⊎ Due pending
          (λ i c. verdict 110 (find_event network.receipts i) (marked [] i c))
          (0, exists))
unfolding get
resolve_told_example = resolve_told network 110 [] pending [] (0, exists) (refl, tt) (λ ids i. refl)

-- The subscriber starts at block 90 and queries at most 8 blocks at once.
abbrev subscriber : EthSubscriber
subscriber = new 1 (some 8) [] 90

network-Steady : Steady network 120
network-Steady = record {
  head = refl;
  answered = λ f. ([], refl);
  same_block = λ s. refl;
  same_numbers = λ s. refl;
  same_chain = λ s. refl;
  same_range = λ s. refl;
}

updates_reach_head_example :
    ((updates 30 network subscriber).last_processed_block ≡ 120)
    × Shared (updates 30 network subscriber)
unfolding new get insert
updates_reach_head_example =
    updates_reach_head network 120 30 subscriber network-Steady refl (omega arith, omega arith)
      (omega arith) (omega arith)

-- The event is verified twice before the chain is deep enough, then answered.
abbrev calls : List History.Call
calls =
    History.verifies vote_data 77 abi 3
    ∷ History.verifies vote_data 77 abi 3
    ∷ History.finishes network 101 []
    ∷ History.finishes network 110 []
    ∷ []

run-new-Accounted_example : Accounted (History.run (new 1 (some 8) [] 90) calls)
run-new-Accounted_example = run-new-Accounted 1 (some 8) [] 90 calls
