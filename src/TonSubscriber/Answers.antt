-- ===== src/TonSubscriber/Answers.antt =====
-- What those are told that wait for the current shards, over a history of the subscriber.
use ton_eth_bridge_relay.Base.{
  ℕ, suc, ◌+◌, ◌<◌, ◌≡◌, refl, ◌∙◌, ap, inl, inr, Bool, true, false, Option, none, some, List, [],
  ◌∷◌, get, length, if◌then◌else◌, ok, err, nat_eq, u64_mod, arith, Bool-cases,
}
use ton_eth_bridge_relay.Errors.{Fallible}
use ton_eth_bridge_relay.Messages as Messages
use ton_eth_bridge_relay.TonSubscriber.Masterchain.{
  ShardId, LatestShardBlocks, wait_shards, is_early, extract_shards,
}
use ton_eth_bridge_relay.TonSubscriber.Process.{
  masterchain_block, shard_block, synced, other_status, Event, status_changed, processed,
  waits_shards, subscribes, starts_waiting, stops_waiting, adds_message, run, new,
}
use ton_eth_bridge_relay.TonSubscriber.Waiting.{
  awaiting, answers, awaiting-insert_own, wait_shards-Fresh,
}
use ton_eth_bridge_relay.TonSubscriber.Views.{View, next_ready, see, see_all, run-view, run-Fresh}

abbrev pub to_list {ℓ} : {A : Type ℓ} → Option A → List A
to_list none = []
to_list (some a) = a ∷ []

module _ (with_prefix_slice : ℕ → ℕ → Fallible ShardId) where
  -- The shards that one who waits since a time is told: those of the first block of the masterchain
  -- that is read after the subscriber is ready and is not before that time.
  unfoldable pub answer_of :
      Bool → Option ℕ → List (Event with_prefix_slice) → Option (Fallible LatestShardBlocks)
  answer_of ready since [] = none
  answer_of true since (processed alive (masterchain_block gen_utime (ok block)) ∷ es) =
      if is_early since block.gen_utime
      then answer_of true since es
      else some (extract_shards with_prefix_slice block)
  answer_of ready since (e ∷ es) = answer_of (next_ready with_prefix_slice ready e) since es

  see-done :
      (ready : Bool) (e : Event with_prefix_slice) (rs : List (Fallible LatestShardBlocks))
      → see with_prefix_slice ready e ([], rs) ≡ ([], rs)
  see-done true (processed alive (masterchain_block gen_utime (ok block))) rs = refl
  see-done true (processed alive (masterchain_block gen_utime (err error))) rs = refl
  see-done true (processed alive (shard_block read)) rs = refl
  see-done false e rs = refl
  see-done true (status_changed status) rs = refl
  see-done true (waits_shards since) rs = refl
  see-done true (subscribes accounts observer) rs = refl
  see-done true (starts_waiting account) rs = refl
  see-done true (stops_waiting account) rs = refl
  see-done true (adds_message id expire_at) rs = refl

  see_all-done :
      (ready : Bool) (es : List (Event with_prefix_slice)) (rs : List (Fallible LatestShardBlocks))
      → see_all with_prefix_slice ready es ([], rs) ≡ ([], rs)
  unfolding see_all
  see_all-done ready [] rs = refl
  see_all-done ready (e ∷ es) rs =
      ap (see_all with_prefix_slice (next_ready with_prefix_slice ready e) es) (see-done ready e rs)
      ∙ see_all-done (next_ready with_prefix_slice ready e) es rs

  see_all-answer_of :
      (ready : Bool) (es : List (Event with_prefix_slice)) (since : Option ℕ)
      → (see_all with_prefix_slice ready es (since ∷ [], [])).1 ≡ to_list (answer_of ready since es)
  unfolding see_all answer_of
  see_all-answer_of ready [] since = refl
  see_all-answer_of true (processed alive (masterchain_block gen_utime (ok block)) ∷ es) since =
      elim (Bool-cases (is_early since block.gen_utime)) [
        | inl early ↦ rw (early, see_all) (see_all-answer_of true es since)
        | inr due ↦
            rw (due, see_all)
              (ap (λ (v : View). v.1)
                (see_all-done true es (extract_shards with_prefix_slice block ∷ [])))
      ]
  see_all-answer_of true (processed alive (masterchain_block gen_utime (err error)) ∷ es) since =
      see_all-answer_of true es since
  see_all-answer_of true (processed alive (shard_block read) ∷ es) since =
      see_all-answer_of true es since
  see_all-answer_of false (processed alive block ∷ es) since = see_all-answer_of false es since
  see_all-answer_of true (status_changed synced ∷ es) since = see_all-answer_of true es since
  see_all-answer_of true (status_changed other_status ∷ es) since = see_all-answer_of true es since
  see_all-answer_of false (status_changed synced ∷ es) since = see_all-answer_of true es since
  see_all-answer_of false (status_changed other_status ∷ es) since =
      see_all-answer_of false es since
  see_all-answer_of true (waits_shards s ∷ es) since = see_all-answer_of true es since
  see_all-answer_of false (waits_shards s ∷ es) since = see_all-answer_of false es since
  see_all-answer_of true (subscribes accounts observer ∷ es) since = see_all-answer_of true es since
  see_all-answer_of false (subscribes accounts observer ∷ es) since =
      see_all-answer_of false es since
  see_all-answer_of true (starts_waiting account ∷ es) since = see_all-answer_of true es since
  see_all-answer_of false (starts_waiting account ∷ es) since = see_all-answer_of false es since
  see_all-answer_of true (stops_waiting account ∷ es) since = see_all-answer_of true es since
  see_all-answer_of false (stops_waiting account ∷ es) since = see_all-answer_of false es since
  see_all-answer_of true (adds_message id expire_at ∷ es) since = see_all-answer_of true es since
  see_all-answer_of false (adds_message id expire_at ∷ es) since = see_all-answer_of false es since

  -- One who calls `wait_shards`, after any history of a new subscriber, is told at most once in what
  -- follows, if fewer than 2^64 events happen in all: when the subscriber is ready and the first
  -- block of the masterchain after the call is read that is not before the given time, the shards of
  -- that block or the error of their reading.
  pub wait_shards_told :
      (queue : Messages.State) (past : List (Event with_prefix_slice)) (since : Option ℕ)
      (es : List (Event with_prefix_slice))
      → suc (length past + length es) < u64_mod
      → let t = run with_prefix_slice (new queue) past in
        let (awaiters, rx) = wait_shards since t.awaiters in
        answers rx (run with_prefix_slice (record t { awaiters = awaiters }) es).awaiters.told
        ≡ to_list (answer_of t.ready since es)
  unfolding wait_shards new awaiting answers get
  wait_shards_told queue past since es small =
      let t = run with_prefix_slice (new queue) past in
      let f =
        run-Fresh with_prefix_slice (new queue) past (omega arith)
          (record { ids = λ j later. refl; channels = λ c later. (refl, refl) }) in
      let c = t.awaiters.next_channel in
      let h : get t.awaiters.mc_block_awaiters t.awaiters.next_id ≡ none =
        f.0.ids t.awaiters.next_id (omega arith) in
      let own = f.0.channels c (omega arith) in
      ap (λ (v : View). v.1)
        (run-view with_prefix_slice (record t { awaiters = (wait_shards since t.awaiters).0 }) es c
          (omega (arith, f.1)) (omega arith)
          (wait_shards-Fresh since t.awaiters (omega (arith, f.1)) f.0))
      ∙ rw
          (
            awaiting-insert_own t.awaiters.mc_block_awaiters t.awaiters.next_id c since h own.0,
            own.1,
          )
          (see_all-answer_of t.ready es since)
