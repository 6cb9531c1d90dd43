-- ===== src/Bridge/Parsers/Examples.antt =====
-- Transactions of event contracts at concrete messages. The ABI is small: the body of a message is a
-- number of which the remainder by 10 is the function id, the rest is the signer's key.
use ton_eth_bridge_relay.Base.{
  ℕ, ◌+◌, ◌*◌, ◌/◌, ◌%◌, ◌≡◌, refl, inl, none, some, [], ◌∷◌, ok, err, get, arith, nat_eq,
}
use ton_eth_bridge_relay.Errors.{external}
use ton_eth_bridge_relay.Contracts.{confirmed, ton}
use ton_eth_bridge_relay.Contracts.Views.{EventBaseContract}
use ton_eth_bridge_relay.Transactions.{ext_in, int_msg, TxContext}
use ton_eth_bridge_relay.Bridge.Events.{EventsState, add_pending_event, new}
use ton_eth_bridge_relay.Bridge.Handlers.{TonEvent}
use ton_eth_bridge_relay.Bridge.Parsers.{Abi, read_event_status, read_ton_event}
use ton_eth_bridge_relay.Bridge.Parsers.Votes.{
  SignedCall, on_transaction, own_vote_ends, other_ton_vote_keeps,
}

abbrev abi : Abi
abi = record {
  read_function_id = λ body. ok (body % 10);
  unpack_headers = λ body. ok (some (body / 10), body % 10);
  connector_deployed_event = record { id = 1; decode_input = λ body. err external };
  enabled_id = 2;
  new_event_contract = record { id = 3; decode_input = ok };
  ton_deploy_event = 4;
  set_end_timestamp_function = record { input_id = 5; decode_input = ok };
  eth_deploy_event = 4;
  set_end_block_number_function = record { input_id = 5; decode_input = ok };
  eth_confirm = 6;
  eth_reject = 7;
  ton_confirm = 6;
  ton_reject = 7;
  receive_round_relays_function = record { input_id = 8; decode_input = λ body. ok (body ∷ []) };
}

-- A contract that is confirmed and has almost no balance.
abbrev contract : EventBaseContract
contract = record {
  status = ok confirmed;
  round_number = ok 1;
  get_voters = λ vote. ok [];
  get_api_version = ok 2;
  balance = 5;
}

-- The key confirms the event of account 9.
abbrev confirmation : ℕ → TxContext EventBaseContract
confirmation key = record {
  account = 9;
  transaction_hash = 100;
  in_msg = record { header = ext_in; body = some (10 * key + 6) };
  out_msgs = [];
  find_account = λ a. ok (some contract);
}

signed_by_3 : SignedCall abi (confirmation 3) 3 6
signed_by_3 = record {
  body = 36;
  rest = 6;
  external = refl;
  has_body = refl;
  signed = refl;
  calls = refl;
}

abbrev one_event : EventsState
one_event = (add_pending_event new 9).0

is_confirmed : read_event_status abi (confirmation 3) ≡ some confirmed
unfolding read_event_status
is_confirmed = refl

own_vote_ends_example : get (on_transaction abi ton one_event 3 (confirmation 3)).0.pending 9 ≡ none
own_vote_ends_example =
    own_vote_ends abi ton one_event 3 (confirmation 3) 6 confirmed signed_by_3 (inl refl)
      is_confirmed

other_ton_vote_keeps_example : on_transaction abi ton one_event 4 (confirmation 3) ≡ (one_event, [])
other_ton_vote_keeps_example =
    other_ton_vote_keeps abi one_event 4 3 (confirmation 3) 6 confirmed signed_by_3 (inl refl)
      is_confirmed (ground arith) (ground arith)

-- A message without a function of the contract closes the event, as its balance is low.
closed :
    read_ton_event abi
      (record (confirmation 3) { in_msg = record { header = int_msg; body = some 0 } })
    ≡ some TonEvent.closed
unfolding read_ton_event
closed = refl
