-- ===== src/Transactions/Events.antt =====
-- The events that the relay reads from the transactions of the contracts (`ReadFromTransaction` in
-- src/engine/bridge/mod.rs and src/engine/staking/mod.rs). Ids and decoders are those of the contracts'
-- ABIs, which the libraries hold.
use ton_eth_bridge_relay.Base.{
  ℕ, ◌≡◌, refl, Option, none, some, List, [], ◌∷◌, ok, err, ◌==◌, if◌then◌else◌, arith,
  Result-cases, inl, inr, ◌∙◌,
}
use ton_eth_bridge_relay.Errors.{Fallible}
use ton_eth_bridge_relay.Contracts.{Cell}
use ton_eth_bridge_relay.Transactions.{Message, iterate_events, on_event, out_body}

-- `ton_abi::Event` and the unpacking of its tokens.
pub record EventAbi {ℓ} (A : Type ℓ) : Type ℓ where
  pub id : ℕ
  pub decode_input : Cell → Fallible A

-- An event is kept if it has the id and can be decoded.
abbrev pub decode_event {ℓ} : {A : Type ℓ} → EventAbi A → ℕ → Cell → Option A
decode_event event id body =
    if id == event.id
    then (elim (event.decode_input body) [ ok a ↦ some a | err e ↦ none ])
    else none

-- `res = Some(…)` for an event that is decoded, else no change.
abbrev pub or_keep {ℓ} : {A : Type ℓ} → Option A → Option A → Option A
or_keep none old = old
or_keep (some new) old = some new

-- The messages that can be read before the first that cannot.
pub readable : List (Fallible Message) → List Message
readable [] = []
readable (err e ∷ messages) = []
readable (ok m ∷ messages) = m ∷ readable messages

-- `decode` is what the closure of a parser does with an event of its ids.
module _ {ℓ} {A : Type ℓ} (read_function_id : Cell → Fallible ℕ)
    (decode : ℕ → Cell → Option A) where
  abbrev keep_last : Option A → ℕ → Cell → Option A
  keep_last acc id body = or_keep (decode id body) acc

  -- The common shape of the parsers: the last event that is decoded.
  unfoldable pub last_event : List (Fallible Message) → Option A
  unfolding iterate_events
  last_event messages = iterate_events read_function_id keep_last none messages

  -- The event of one message.
  abbrev event_in : Option Cell → Option A
  event_in none = none
  event_in (some body) = elim (read_function_id body) [ err e ↦ none | ok id ↦ decode id body ]

  abbrev event_of : Message → Option A
  event_of m = event_in (out_body m)

  on_event-event_in :
      (acc : Option A) (o : Option Cell)
      → on_event read_function_id keep_last acc o ≡ or_keep (event_in o) acc
  on_event-event_in acc none = refl
  on_event-event_in acc (some body) = elim (Result-cases (read_function_id body)) [
    | inl (id, r) ↦ ground (arith, r)
    | inr (error, r) ↦ ground (arith, r)
  ]

  -- The last of some messages that has an event.
  pub last_of : List Message → Option A
  last_of [] = none
  last_of (m ∷ messages) = or_keep (last_of messages) (event_of m)

  or_keep-none : (x : Option A) → or_keep x none ≡ x
  or_keep-none none = refl
  or_keep-none (some x) = refl

  or_keep_assoc : (x y z : Option A) → or_keep x (or_keep y z) ≡ or_keep (or_keep x y) z
  or_keep_assoc none y z = refl
  or_keep_assoc (some x) y z = refl

  iterate-last_of :
      (acc : Option A) (messages : List (Fallible Message))
      → iterate_events read_function_id keep_last acc messages
        ≡ or_keep (last_of (readable messages)) acc
  unfolding iterate_events last_of readable
  iterate-last_of acc [] = refl
  iterate-last_of acc (err e ∷ messages) = refl
  iterate-last_of acc (ok m ∷ messages) =
      rw (on_event-event_in acc (out_body m), iterate-last_of (or_keep (event_of m) acc) messages)
        (or_keep_assoc (last_of (readable messages)) (event_of m) acc)

  -- A parser gives the event of the last message that has one, among those before the first message
  -- that cannot be read.
  pub last_event-last_of :
      (messages : List (Fallible Message)) → last_event messages ≡ last_of (readable messages)
  unfolding last_event
  last_event-last_of messages =
      iterate-last_of none messages ∙ or_keep-none (last_of (readable messages))
