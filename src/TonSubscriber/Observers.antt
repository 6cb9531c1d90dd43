-- ===== src/TonSubscriber/Observers.antt =====
-- src/engine/ton_subscriber/mod.rs, `AccountObserver` and `start_listening_events`: how a transaction
-- of an account becomes an event that a service handles. The channel between them is a list, the
-- first to be received first.
use ton_eth_bridge_relay.Base.{Bool, Option, none, some, List, [], ◌∷◌, ◌++◌, if◌then◌else◌}
use ton_eth_bridge_relay.Errors.{Fallible}
use ton_eth_bridge_relay.Shards.{UInt256}
use ton_eth_bridge_relay.Transactions.{TxContext}

-- `AccountObserver::handle_transaction` with the parser of its events; `is_open` tells whether the
-- receiver is still there.
unfoldable pub handle_transaction {ℓ κ} :
    {Account : Type κ} {E : Type ℓ}
    → (TxContext Account → Option E)
    → Bool
    → TxContext Account
    → List (UInt256 × E)
    → List (UInt256 × E)
handle_transaction read is_open ctx sent = elim (read ctx) [
  | none ↦ sent
  | some event ↦ if is_open then sent ++ ((ctx.account, event) ∷ []) else sent
]

-- The loop of `start_listening_events`: what is received, each with whether the service is still held
-- then. An error of the handler is only logged; when the service is gone the rest is dropped.
unfoldable pub listen {ℓ κ} :
    {S : Type κ} {E : Type ℓ} → (S → E → S × Fallible (Unit {0})) → List (Bool × E) → S → S
listen handler [] service = service
listen handler ((is_held, event) ∷ events) service =
    let rest = listen handler events (handler service event).0 in if is_held then rest else service
