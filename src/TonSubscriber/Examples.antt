-- ===== src/TonSubscriber/Examples.antt =====
-- A TON subscriber at concrete blocks.
use mathlib.Core.Option
use ton_eth_bridge_relay.Base.{
  ltb, ◌+◌, if◌then◌else◌, ℕ, ◌≡◌, ◌↔◌, refl, Bool, true, false, none, some, List, [], ◌∷◌, ◌++◌,
  Unique, get, ok, err, arith, nat_eq, only_if, if◌then◌else◌, remove, insert,
}
use ton_eth_bridge_relay.Errors.{Fallible, account_is_frozen}
use ton_eth_bridge_relay.Shards.{shard_full, contains_account}
use ton_eth_bridge_relay.Messages as Messages
use ton_eth_bridge_relay.Messages.{PendingMessageId, id_eq}
use ton_eth_bridge_relay.Messages.Expiry.{outlives}
use ton_eth_bridge_relay.Messages.Invariant.{Inv, init-Inv}
use ton_eth_bridge_relay.Messages.Notification.{waiting, told}
use ton_eth_bridge_relay.Transactions.{ext_in, ordinary, Transaction}
use ton_eth_bridge_relay.TonSubscriber.Subscriptions.{ShardBlock, StateSubscription}
use ton_eth_bridge_relay.TonSubscriber.Blocks.{TonSubscriber, handle_shard_block}
use ton_eth_bridge_relay.TonSubscriber.Masterchain.{
  ShardId, MasterchainBlock, extract_shards, wait_shards, masterchain_id,
}
use ton_eth_bridge_relay.TonSubscriber.Process.{
  Event, status_changed, synced, processed, shard_block, masterchain_block, subscribes,
  adds_message, starts_waiting, run, new,
}
use ton_eth_bridge_relay.TonSubscriber.Accounts.{left_of, handle_shard_block_accounts}
use ton_eth_bridge_relay.TonSubscriber.Entries.{sees, unless}
use ton_eth_bridge_relay.TonSubscriber.Delivery.{handle_shard_block_delivers}
use ton_eth_bridge_relay.TonSubscriber.History.{run_calls, run-queue, run-Unique, run-new-Told}
use ton_eth_bridge_relay.TonSubscriber.Waiting.{answers}
use ton_eth_bridge_relay.TonSubscriber.Answers.{answer_of, to_list, wait_shards_told}
use ton_eth_bridge_relay.TonSubscriber.Contracts.{
  Change, AccountState, account_active, account_uninit, account_frozen, wait_contract_state,
  is_active_result, all_undecided, wait_contract_state_ends,
}

-- `with_prefix_slice` of a library that reads every prefix.
abbrev slice : ℕ → ℕ → Fallible ShardId
slice workchain_id prefix = ok (record { workchain_id = workchain_id; prefix = prefix })

abbrev everyone : ℕ → Bool
everyone o = true

abbrev message : Transaction
message = record {
  hash = 100;
  description = ok (ordinary false);
  in_msg = some (7, ok (record { header = ext_in; body = none }));
  out_msgs = [];
}

-- A block of the whole workchain, in which account 1 executes message 7.
abbrev block : ShardBlock
block = record {
  shard = record { shard_prefix_with_tag = shard_full; prefix_len = 0 };
  gen_utime = 50;
  shard_accounts = λ a. ok (some a);
  account_blocks = λ a. ok (some (ok message ∷ []));
}

abbrev id : PendingMessageId
id = record { account = 1; message_hash = 7 }

-- Observer 0 watches account 1, a task waits for account 2, and a message to account 1 is pending.
abbrev past : List (Event slice)
past = status_changed synced ∷ subscribes (1 ∷ []) 0 ∷ starts_waiting 2 ∷ adds_message id 60 ∷ []

abbrev t : TonSubscriber
t = run slice (new Messages.init) past

run-new-Told_example :
    Unique t.state_subscriptions
    × Inv t.queue
    × (waiting t.queue.entries 0 + told t.queue.sent 0 ≡ (if ltb 0 t.queue.next then 1 else 0))
run-new-Told_example = run-new-Told slice past 0

run-queue_example : t.queue ≡ Messages.run Messages.init (run_calls slice (new Messages.init) past)
unfolding new
run-queue_example = run-queue slice (new Messages.init) past

t_holds : Unique t.state_subscriptions × Inv t.queue
unfolding new
t_holds = run-Unique slice (new Messages.init) past tt init-Inv

t_ready : t.ready ≡ true
unfolding run new
t_ready = refl

handle_shard_block_accounts_example :
    get (handle_shard_block everyone t (ok block)).0.state_subscriptions 2
    ≡ left_of everyone block 2 (get t.state_subscriptions 2)
handle_shard_block_accounts_example =
    handle_shard_block_accounts everyone t block 2 t_ready t_holds.0

handle_shard_block_delivers_example :
    (get (handle_shard_block everyone t (ok block)).0.queue.entries id
      ≡ unless
          (sees everyone block id (get t.state_subscriptions 1))
          (only_if (outlives block.shard 50 id) (get t.queue.entries id)))
    × Inv (handle_shard_block everyone t (ok block)).0.queue
handle_shard_block_delivers_example =
    handle_shard_block_delivers everyone t block id t_ready t_holds.1 t_holds.0

-- After the block nobody waits for message 7, and those that wait for account 2 have its state.
delivered_here :
    let t' = (handle_shard_block everyone t (ok block)).0 in
    (get t'.queue.entries id ≡ none)
    × (Option.map (λ (s : StateSubscription). s.value) (get t'.state_subscriptions 2)
        ≡ some (some 2))
unfolding run new handle_shard_block get insert contains_account Messages.init Messages.update
    Messages.deliver_message remove
delivered_here = (refl, refl)

abbrev mc_block : ℕ → MasterchainBlock
mc_block gen_utime = record {
  gen_utime = gen_utime;
  custom = ok (
      some (
        (masterchain_id, [])
        ∷ (0, (5, record { seq_no = 1; root_hash = 2; file_hash = 3 }) ∷ [])
        ∷ []));
}

-- A block that is too old, one of a shard, and two that are new enough.
abbrev future : List (Event slice)
future =
    processed everyone (masterchain_block 40 (ok (mc_block 40)))
    ∷ processed everyone (shard_block (ok block))
    ∷ processed everyone (masterchain_block 60 (ok (mc_block 60)))
    ∷ processed everyone (masterchain_block 70 (ok (mc_block 70)))
    ∷ []

wait_shards_told_example :
    let (awaiters, rx) = wait_shards (some 50) t.awaiters in
    answers rx (run slice (record t { awaiters = awaiters }) future).awaiters.told
    ≡ to_list (answer_of slice t.ready (some 50) future)
wait_shards_told_example = wait_shards_told slice Messages.init past (some 50) future (omega arith)

first_new_enough :
    answer_of slice t.ready (some 50) future ≡ some (extract_shards slice (mc_block 60))
unfolding run new answer_of
first_new_enough = refl

abbrev account : AccountState → Change
account state = ok (
    some (record {
      read_account = ok (some (record { address = 1; balance = 10; state = state }));
      last_trans_lt = 5;
      last_trans_hash = 9;
    }))

wait_contract_state_ends_example :
    ((wait_contract_state (ok none ∷ account account_uninit ∷ []) ≡ none)
      ↔ (all_undecided (ok none ∷ account account_uninit ∷ []) ≡ true))
    × (is_active_result (wait_contract_state (ok none ∷ account account_uninit ∷ [])) ≡ true)
    × (wait_contract_state
          ((ok none ∷ account account_uninit ∷ []) ++ (account account_active ∷ []))
        ≡ (if all_undecided (ok none ∷ account account_uninit ∷ [])
            then wait_contract_state (account account_active ∷ [])
            else wait_contract_state (ok none ∷ account account_uninit ∷ [])))
wait_contract_state_ends_example =
    wait_contract_state_ends (ok none ∷ account account_uninit ∷ []) (account account_active ∷ [])

-- A frozen account ends the wait with an error.
frozen :
    wait_contract_state (ok none ∷ account account_frozen ∷ account account_active ∷ [])
    ≡ some (err account_is_frozen)
unfolding wait_contract_state
frozen = refl
