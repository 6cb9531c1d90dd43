-- ===== src/Bridge/Action.antt =====
-- src/engine/bridge/mod.rs, `EventBaseContract::process`: what is to be done about an event contract.
use ton_eth_bridge_relay.Base.{
  ℕ, ◌≤◌, ◌≡◌, ◌↔◌, ◌⊎◌, inl, inr, Bool, true, false, ◌&&◌, List, ok, err, ◌>>=◌, contains, leb,
  ◌==◌, if◌then◌else◌, arith, Result-cases,
}
use ton_eth_bridge_relay.Errors.{Fallible}
use ton_eth_bridge_relay.Shards.{UInt256}
use ton_eth_bridge_relay.Contracts.{EventStatus, initializing, pending, confirmed, rejected, empty}
use ton_eth_bridge_relay.Contracts.Views.{EventBaseContract}

pub data EventAction : Type 0 where
  nop remove vote : EventAction

-- 0.1 TON.
abbrev pub min_event_balance : ℕ
min_event_balance = 100_000_000

abbrev pub supported_api_version : ℕ
supported_api_version = 2

abbrev unwrap_or_default : Fallible ℕ → ℕ
unwrap_or_default (ok n) = n
unwrap_or_default (err e) = 0

-- The part of the guards that both voting statuses share.
unfoldable pub awaits_vote : EventBaseContract → UInt256 → Fallible Bool
awaits_vote c public_key = do
  voters ← c.get_voters empty
  ok (contains voters public_key && unwrap_or_default c.get_api_version == supported_api_version)

abbrev vote_if : Bool → EventAction
vote_if true = vote
vote_if false = remove

unfoldable pub by_status : EventStatus → EventBaseContract → UInt256 → Bool → Fallible EventAction
unfolding awaits_vote
by_status initializing c public_key require_all_signatures = ok nop
by_status pending c public_key require_all_signatures = do
  open_vote ← awaits_vote c public_key
  ok (vote_if open_vote)
by_status confirmed c public_key require_all_signatures =
    if require_all_signatures && leb min_event_balance c.balance
    then (do open_vote ← awaits_vote c public_key; ok (vote_if open_vote))
    else ok remove
by_status rejected c public_key require_all_signatures = ok remove

unfoldable pub process : EventBaseContract → UInt256 → Bool → Fallible EventAction
unfolding by_status
process c public_key require_all_signatures = do
  status ← c.status
  by_status status c public_key require_all_signatures

-- The contract still takes this relay's vote: it is pending, or it is confirmed, all signatures are
-- collected and its balance is at least 0.1 TON; the relay has not voted; the version is supported.
pub record TakesVote (c : EventBaseContract) (public_key : UInt256) (all_signatures : Bool)
    : Type 0 where
  pub phase :
      (c.status ≡ ok pending)
      ⊎ ((c.status ≡ ok confirmed) × (all_signatures ≡ true) × (min_event_balance ≤ c.balance))
  pub not_voted :
      (voters : List UInt256) × (c.get_voters empty ≡ ok voters)
      × (contains voters public_key ≡ true)
  pub version : c.get_api_version ≡ ok supported_api_version

by_status-TakesVote :
    (status : EventStatus) (c : EventBaseContract) (public_key : UInt256) (all_signatures : Bool)
    → c.status ≡ ok status
    → by_status status c public_key all_signatures ≡ ok vote
    → TakesVote c public_key all_signatures
unfolding by_status
by_status-TakesVote initializing c public_key all_signatures e h = absurd (ground arith)
by_status-TakesVote pending c public_key all_signatures e h = record {
  phase = inl e;
  not_voted = ground arith;
  version = ground arith;
}
by_status-TakesVote confirmed c public_key all_signatures e h = record {
  phase = inr (e, ground arith, ground arith);
  not_voted = ground arith;
  version = ground arith;
}
by_status-TakesVote rejected c public_key all_signatures e h = absurd (ground arith)

process-TakesVote :
    (c : EventBaseContract) (public_key : UInt256) (all_signatures : Bool)
    → process c public_key all_signatures ≡ ok vote
    → TakesVote c public_key all_signatures
unfolding process
process-TakesVote c public_key all_signatures h = elim (Result-cases c.status) [
  | inl (status, e) ↦ by_status-TakesVote status c public_key all_signatures e (ground (arith, e))
  | inr (error, e) ↦ absurd (ground (arith, e))
]

-- The relay votes exactly when the contract takes its vote, and waits exactly when the contract is
-- still initializing; with `require_all_signatures` a confirmed contract counts too.
pub process_iff :
    (c : EventBaseContract) (public_key : UInt256) (all_signatures : Bool)
    → ((process c public_key all_signatures ≡ ok vote) ↔ TakesVote c public_key all_signatures)
      × ((process c public_key all_signatures ≡ ok nop) ↔ (c.status ≡ ok initializing))
unfolding process awaits_vote
process_iff c public_key all_signatures = (
  (process-TakesVote c public_key all_signatures, λ h. ground arith),
  (λ h. ground arith, λ h. ground arith),
)
