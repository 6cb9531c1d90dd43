-- ===== src/Bridge/Scan/Examples.antt =====
-- The search at concrete accounts. A cell is a list of bits with the hash of its code; what the
-- library skips in it has no bits here.
use ton_eth_bridge_relay.Base.{
  ℕ, ◌+◌, ◌≡◌, refl, Bool, true, false, ◌||◌, none, some, List, [], ◌∷◌, ok, err, get, insert,
  nat_eq, if◌then◌else◌,
}
use ton_eth_bridge_relay.Errors.{Fallible, external}
use ton_eth_bridge_relay.Contracts.{Cell, eth, pending}
use ton_eth_bridge_relay.Contracts.Views.{EventContract}
use ton_eth_bridge_relay.Bridge.Action.{process}
use ton_eth_bridge_relay.Bridge.Events.{new}
use ton_eth_bridge_relay.Bridge.Scan.{
  Reader, read_code_hash, ShardAccount, Known, Pending, get_all_events,
}
use ton_eth_bridge_relay.Bridge.Scan.Visits.{is_pending, is_ok}
use ton_eth_bridge_relay.Bridge.Scan.Found.{found_in, all_shards_read, get_all_events_lem}

abbrev Slice : Type 0
Slice = List Bool × Cell

abbrev next_bit : Slice → Fallible (Bool × Slice)
next_bit ([], code) = err external
next_bit (b ∷ bits, code) = ok (b, (bits, code))

abbrev two_bits : Slice → Fallible (ℕ × Slice)
two_bits (x ∷ y ∷ bits, code) = ok ((if x then 2 else 0) + (if y then 1 else 0), (bits, code))
two_bits s = err external

abbrev reader : Reader Slice
reader = record {
  get_next_bit = next_bit;
  get_next_int = λ n. two_bits;
  move_by = λ n. ok;
  skip_storage_used = ok;
  skip_grams = ok;
  skip_currency_collection = ok;
  checked_drain_reference = λ s. ok s.1;
}

-- An account with a standard address, without due payment, active, and with code 77.
abbrev cell : Slice
cell = (true ∷ true ∷ false ∷ false ∷ false ∷ true ∷ false ∷ false ∷ true ∷ [], 77)

code_77 : read_code_hash reader cell ≡ ok (some 77)
unfolding read_code_hash
code_77 = refl

-- The account does not exist; the cell ends too early.
no_code : read_code_hash reader (false ∷ [], 77) ≡ ok none
unfolding read_code_hash
no_code = refl

too_short : read_code_hash reader (true ∷ true ∷ [], 77) ≡ err external
unfolding read_code_hash
too_short = refl

-- An ETH event of configuration 5.
abbrev contract : EventContract
contract = record {
  base = record {
    status = ok pending;
    round_number = ok 1;
    get_voters = λ v. ok (3 ∷ []);
    get_api_version = ok 2;
    balance = 1;
  };
  eth_event_init_data = ok (record {
    vote_data = record {
      event_transaction = 1;
      event_index = 0;
      event_data = 2;
      event_block_number = 10;
      event_block = 4;
    };
    configuration = 5;
    staking = 6;
    chain_id = 1;
  });
  ton_event_init_data = err external;
}

abbrev known : Known
known = record {
  our_public_key = 3;
  event_code_hashes = (77, eth) ∷ [];
  configurations = λ kind. 5 ∷ [];
}

abbrev accounts : List (ℕ × ShardAccount Slice)
accounts =
    (9, record { cell = cell; read_account = ok (some contract) })
    ∷ (10, record { cell = (false ∷ [], 1); read_account = err external })
    ∷ (11, record { cell = cell; read_account = err external })
    ∷ (12, record { cell = cell; read_account = ok (some contract) })
    ∷ []

abbrev nothing : Pending
nothing = record { eth_events = new; ton_events = new; tasks = [] }

get_all_events_example :
    (is_pending eth 9 (get_all_events reader known (ok (accounts ∷ [])) nothing).0
      ≡ (is_pending eth 9 nothing || found_in reader known eth 9 (accounts ∷ [])))
    × (is_ok (get_all_events reader known (ok (accounts ∷ [])) nothing).1
        ≡ all_shards_read reader known (accounts ∷ []))
get_all_events_example = get_all_events_lem reader known eth 9 (accounts ∷ []) nothing

-- The search finds event 9 and fails at account 11, so it does not reach event 12.
partly_found :
    let r = get_all_events reader known (ok (accounts ∷ [])) nothing in
    (is_pending eth 9 r.0 ≡ true) × (is_pending eth 12 r.0 ≡ false) × (r.1 ≡ err external)
unfolding get_all_events new get insert process
partly_found = (refl, refl, refl)
