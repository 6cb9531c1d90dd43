-- ===== src/Transactions/Examples.antt =====
-- Events that are read from concrete messages. The function id of a body is its remainder by 10.
use ton_eth_bridge_relay.Base.{ℕ, ◌%◌, ◌≡◌, refl, Option, some, List, [], ◌∷◌, ok, err}
use ton_eth_bridge_relay.Errors.{Fallible, external}
use ton_eth_bridge_relay.Contracts.{Cell}
use ton_eth_bridge_relay.Transactions.{Message, ext_out, int_msg, find_function_output}
use ton_eth_bridge_relay.Transactions.Events.{decode_event, last_event}

abbrev function_id : Cell → Fallible ℕ
function_id body = ok (body % 10)

abbrev decode : ℕ → Cell → Option Cell
decode = decode_event (record { id = 3; decode_input = ok })

abbrev event : Cell → Fallible Message
event body = ok (record { header = ext_out; body = some body })

-- Two events, a message of another kind, an event with another id, a message that cannot be read, and
-- one more event.
abbrev messages : List (Fallible Message)
messages =
    event 13
    ∷ event 23
    ∷ ok (record { header = int_msg; body = some 33 })
    ∷ event 44
    ∷ err external
    ∷ event 53
    ∷ []

second_event : last_event function_id decode messages ≡ some 23
unfolding last_event
second_event = refl

-- A search for an output takes the first.
first_output : find_function_output function_id 3 ok messages ≡ some 13
unfolding find_function_output
first_output = refl
