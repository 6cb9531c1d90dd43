-- ===== src/EthSubscriber/Confirmations/Pending.antt =====
-- src/engine/eth_subscriber/mod.rs, `PendingConfirmation` and the three passes of `update` over the
-- pending confirmations, which hold their lock. The oneshot channels are numbered; a pass gives what
-- it sends on them.
use ton_eth_bridge_relay.Base.{
  ℕ, ◌≡◌, ◌↔◌, Bool, true, false, ◌&&◌, Option, none, some, List, [], ◌∷◌, Map, get, adjust, remove,
  Eq, ◌==◌, ok, err, ltb, if◌then◌else◌, arith,
}
use ton_eth_bridge_relay.Errors.{Fallible}
use ton_eth_bridge_relay.Shards.{UInt256}
use ton_eth_bridge_relay.Contracts.{EthAddress, EthEventVoteData}
use ton_eth_bridge_relay.Bridge.Configurations.Monad.{EthEventAbi}
use ton_eth_bridge_relay.EthSubscriber.Models.{
  Log, ReceivedEthEvent, ParsedEthEvent, removed, received, EventId, event_id, transaction_hash,
  event_index, parse_transaction_logs, VerificationStatus, exists, not_exists,
}

abbrev pub same_id : EventId → EventId → Bool
same_id i j = (i.transaction == j.transaction) && (i.index == j.index)

pub same_id_iff : (i j : EventId) → (same_id i j ≡ true) ↔ (i ≡ j)
same_id_iff i j = ground arith

instance abbrev pub id_eq : Eq EventId
id_eq = record { beq = same_id; beq_iff = same_id_iff }

pub data PendingConfirmationStatus : Type 0 where
  in_process valid invalid : PendingConfirmationStatus

pub record PendingConfirmation : Type 0 where
  pub vote_data : EthEventVoteData
  pub status_tx : Option ℕ
  pub event_emitter : EthAddress
  pub event_abi : EthEventAbi
  pub target_block : ℕ
  pub status : PendingConfirmationStatus

-- `data.repr_hash() == vote_data.event_data.repr_hash()`.
abbrev pub same_data : Fallible UInt256 → UInt256 → Bool
same_data (ok cell) expected = cell == expected
same_data (err e) expected = false

-- The tests of `check`, the event's data last.
unfoldable pub matches : PendingConfirmation → ReceivedEthEvent → Bool
matches c event =
    (event.address == c.event_emitter)
    && (event.topic_hash == c.event_abi.topic_hash)
    && (event.event_index == c.vote_data.event_index)
    && (event.transaction_hash == c.vote_data.event_transaction)
    && (event.block_number == c.vote_data.event_block_number)
    && (event.block_hash == c.vote_data.event_block)
    && same_data (c.event_abi.decode_and_map event.event_data) c.vote_data.event_data

unfoldable pub check : PendingConfirmation → ReceivedEthEvent → VerificationStatus
unfolding matches
check c event = if matches c event then exists else not_exists

-- `impl From<VerificationStatus>`.
unfoldable pub from : VerificationStatus → PendingConfirmationStatus
from exists = valid
from not_exists = invalid

abbrev pub Confirmations : Type 0
Confirmations = Map EventId PendingConfirmation

-- What a log of the scanned blocks does to the confirmation of its event.
unfoldable pub mark : ParsedEthEvent → PendingConfirmation → PendingConfirmation
unfolding check from
mark (removed _) c = record c { status = invalid }
mark (received event) c = record c { status = from (check c event) }

unfoldable pub mark_all : Confirmations → List ParsedEthEvent → Confirmations
unfolding mark event_id
mark_all m [] = m
mark_all m (event ∷ events) = mark_all (adjust m (event_id event) (mark event)) events

-- What was sent on which channel.
abbrev pub Sent : Type 0
Sent = List (ℕ × VerificationStatus)

-- `if let Some(tx) = confirmation.status_tx.take() { tx.send(status) }` for a confirmation that goes.
abbrev pub send : PendingConfirmation → VerificationStatus → Sent → Sent
send c status sent = elim c.status_tx [ none ↦ sent | some tx ↦ (tx, status) ∷ sent ]

abbrev pub is_invalid : PendingConfirmationStatus → Bool
is_invalid in_process = false
is_invalid valid = false
is_invalid invalid = true

-- The outcome of the `retain`: what is left, the events to look up, and all that was sent.
-- The entries are visited from the end of the list; a hash map has no order of its own.
pub record Retained : Type 0 where
  pub kept : Confirmations
  pub events_to_check : List EventId
  pub sent : Sent

unfoldable pub retain_loop : ℕ → Confirmations → Sent → Retained
retain_loop current_block [] told = record { kept = []; events_to_check = []; sent = told }
retain_loop current_block ((id, c) ∷ m) told =
    let r = retain_loop current_block m told in
    if ltb current_block c.target_block
    then record r { kept = (id, c) ∷ r.kept }
    else (if is_invalid c.status
        then record r { sent = send c not_exists r.sent }
        else record r { kept = (id, c) ∷ r.kept; events_to_check = id ∷ r.events_to_check })

-- `web3::types::TransactionReceipt`, as far as it is read.
pub record TransactionReceipt : Type 0 where
  pub status : Option ℕ
  pub logs : List Log

abbrev pub is_success : Option ℕ → Bool
is_success none = false
is_success (some status) = status == 1

-- `parse_transaction_logs(…).rev().find(…)`: the last log of the event.
unfoldable pub find_last : List ParsedEthEvent → EventId → Option ParsedEthEvent
unfolding transaction_hash event_index
find_last [] id = none
find_last (event ∷ events) id = elim (find_last events id) [
  | some later ↦ some later
  | none ↦
      if (transaction_hash event == id.transaction) && (event_index event == id.index)
      then some event
      else none
]

-- `receipts` is the chain's answer for a transaction, after the retries.
unfoldable pub find_event :
    (UInt256 → Fallible (Option TransactionReceipt)) → EventId → Fallible (Option ParsedEthEvent)
unfolding find_last parse_transaction_logs
find_event receipts id = elim (receipts id.transaction) [
  | err e ↦ err e
  | ok none ↦ ok none
  | ok (some receipt) ↦
      if is_success receipt.status
      then ok (find_last (parse_transaction_logs receipt.logs) id)
      else ok none
]

-- The status that the answer about an event gives; a failed look-up gives none.
unfoldable pub found_status :
    PendingConfirmation → Fallible (Option ParsedEthEvent) → Option VerificationStatus
unfolding check
found_status c (ok (some (received event))) = some (check c event)
found_status c (ok (some (removed _))) = some not_exists
found_status c (ok none) = some not_exists
found_status c (err e) = none

-- One round of the loop over the answers.
abbrev pub answer_one :
    Confirmations × Sent
    → EventId
    → Option VerificationStatus
    → PendingConfirmation
    → Confirmations × Sent
answer_one (m, sent) id none c = (m, sent)
answer_one (m, sent) id (some status) c = (remove m id, send c status sent)

-- The loop over the answers, in the order in which they come.
unfoldable pub answer_loop :
    (EventId → Fallible (Option ParsedEthEvent))
    → List EventId
    → Confirmations × Sent
    → Confirmations × Sent
unfolding found_status
answer_loop found [] state = state
answer_loop found (id ∷ ids) state = elim (get state.0 id) [
  | none ↦ answer_loop found ids state
  | some c ↦ answer_loop found ids (answer_one state id (found_status c (found id)) c)
]
