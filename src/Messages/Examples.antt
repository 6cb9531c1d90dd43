-- ===== src/Messages/Examples.antt =====
-- Runs of the queue at concrete inputs, after the tests of src/utils/pending_messages_queue.rs.
use ton_eth_bridge_relay.Base.{
  ℕ, ◌≡◌, refl, some, List, [], ◌∷◌, get, insert, ltb, if◌then◌else◌, u32_max, ◌+◌, remove, false,
  ◌≤◌, ◌↔◌, ◌⊎◌,
}
use mathlib.Core.List.{Memᴰ}
use ton_eth_bridge_relay.Shards.{ShardIdent, shard_full, contains_account}
use ton_eth_bridge_relay.Messages.Invariant.{Inv, init-Inv, run-Inv}
use ton_eth_bridge_relay.Messages.Notification.{waiting, told, run-init-Notified}
use ton_eth_bridge_relay.Messages.Told.{Expires}
use ton_eth_bridge_relay.Messages.Expiry.{update_always, update-eq-always, get-update, deliver-add}
use ton_eth_bridge_relay.Messages.{
  PendingMessageId, PendingMessage, Call, adds, delivers, updates, delivered, expired, id_eq,
  add_message, deliver_message, update, sweep, step, run, init,
}

abbrev masterchain : ShardIdent
masterchain = record { shard_prefix_with_tag = shard_full; prefix_len = 0 }

abbrev id : ℕ → PendingMessageId
id n = record { account = n; message_hash = n }

abbrev two : List Call
two = adds (id 1) 20 ∷ adds (id 0) 10 ∷ []

-- `multiple_messages_deplivery_flow`: message 1 is delivered, message 0 expires.
mixed_flow :
    let s =
      run (run init two) (updates masterchain 5 ∷ delivers (id 1) ∷ updates masterchain 15 ∷ []) in
    (s.min_expire_at ≡ u32_max) × (s.sent ≡ (1, expired) ∷ (0, delivered) ∷ [])
unfolding run init step add_message update sweep deliver_message get insert remove contains_account
mixed_flow = (refl, refl)

run-Inv_example : Inv (run init two)
run-Inv_example = run-Inv init two init-Inv

run-init-Notified_example :
    waiting (run init two).entries 1 + told (run init two).sent 1
    ≡ (if ltb 1 (run init two).next then 1 else 0)
run-init-Notified_example = run-init-Notified two 1

update-eq-always_example :
    update (run init two) masterchain 15 ≡ update_always (run init two) masterchain 15
update-eq-always_example =
    update-eq-always (run init two) masterchain 15 (run-Inv init two init-Inv)

abbrev kept : PendingMessage
kept = record { tx = some 0; expire_at = 20 }

get-update_example :
    let after = update (run init two) masterchain 15 in
    ((get after.entries (id 1) ≡ some kept) ↔ (
      (get (run init two).entries (id 1) ≡ some kept)
      × ((15 ≤ 20) ⊎ (contains_account masterchain 1 ≡ false))))
    × (Memᴰ (1, expired) after.sent ↔ (
        Memᴰ (1, expired) (run init two).sent
        ⊎ Expires masterchain 15 (run init two).entries (1, expired)))
get-update_example =
    get-update (run init two) masterchain 15 (id 1) kept (1, expired) (run-Inv init two init-Inv)

-- The message is there, before and after.
get-update_test :
    (get (run init two).entries (id 1) ≡ some kept)
    × (get (update (run init two) masterchain 15).entries (id 1) ≡ some kept)
unfolding run init step add_message update sweep get insert contains_account
get-update_test = (refl, refl)

deliver-add_example :
    ((deliver_message (add_message init (id 3) 7).0 (id 3)).sent ≡ (0, delivered) ∷ [])
    × ((j : PendingMessageId)
        → get (deliver_message (add_message init (id 3) 7).0 (id 3)).entries j ≡ get init.entries j)
unfolding init add_message get insert
deliver-add_example = deliver-add init _ (id 3) 7 0 refl
