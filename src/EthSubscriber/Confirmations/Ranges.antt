-- ===== src/EthSubscriber/Confirmations/Ranges.antt =====
-- Which blocks the updates scan, and that they reach the head of the chain.
use ton_eth_bridge_relay.Base.{
  ℕ, zero, suc, ◌+◌, ◌≤◌, ◌<◌, ◌≡◌, refl, ◌∙◌, inl, inr, true, false, Option, none, some, List, [],
  get, ltb, leb, u64_mod, nat_eq, arith, Option-cases, Bool-cases, get-insert, ==_refl, min,
}
use ton_eth_bridge_relay.EthSubscriber.Models.{Log, ParsedEthEvent}
use ton_eth_bridge_relay.EthSubscriber.Topics.{Filter, TopicsMap, make_filter}
use ton_eth_bridge_relay.EthSubscriber.Confirmations.Update.{
  EthSubscriber, height, logs, Network, cap_range, scanned, after_scan, process_blocks, at_height,
  scan, store_block, finish, proceed, update,
}

-- The configured range allows progress, and the sum of a block number and it stays in 64 bits.
abbrev pub AllowsProgress : Option ℕ → ℕ → Type 0
AllowsProgress none last = Unit
AllowsProgress (some max_block_range) last =
    (1 ≤ max_block_range) × (last + max_block_range < u64_mod)

-- The blocks after `last` that may be scanned at once.
abbrev pub window : Option ℕ → ℕ → ℕ → ℕ
window none last target = target
window (some max_block_range) last target = min (last + max_block_range) target

cap_range-window :
    (o : Option ℕ) (last target : ℕ)
    → AllowsProgress o last
    → cap_range o last target ≡ window o last target
unfolding cap_range
cap_range-window none last target p = refl
cap_range-window (some r) last target p = ground (arith, p)

-- No other task changes the subscriber's block numbers or its configuration.
pub record Steady (net : Network) (target : ℕ) : Type 0 where
  pub head : net.current_height ≡ height target
  pub answered : (f : Filter) → (ls : List Log) × (net.get_logs f ≡ logs ls)
  pub same_block :
      (s : EthSubscriber) → (net.others_before_lock s).last_processed_block ≡ s.last_processed_block
  pub same_numbers :
      (s : EthSubscriber) → (net.others_before_lock s).last_block_numbers ≡ s.last_block_numbers
  pub same_chain : (s : EthSubscriber) → (net.others_before_lock s).chain_id ≡ s.chain_id
  pub same_range :
      (s : EthSubscriber) → (net.others_before_lock s).max_block_range ≡ s.max_block_range

-- The number that the registry shares is the subscriber's own.
abbrev pub Shared : EthSubscriber → Type 0
Shared s = get s.last_block_numbers s.chain_id ≡ some s.last_processed_block

process_blocks_scanned :
    (net : Network) (target : ℕ) (topics : TopicsMap) (from to : ℕ)
    → Steady net target
    → (events : List ParsedEthEvent) × (process_blocks net topics from to ≡ scanned to events)
unfolding process_blocks
process_blocks_scanned net target topics from to st =
    elim (Option-cases (make_filter topics from to)) [
      | inl e ↦ rw (e, process_blocks) ([], refl)
      | inr (f, e) ↦
          (let (ls, answered) = st.answered f in
            rw (e, answered, process_blocks, after_scan) (_, refl))
    ]

scan_scanned :
    (net : Network) (target : ℕ) (s : EthSubscriber)
    → Steady net target
    → s.last_processed_block < target
    → (events : List ParsedEthEvent) × (scan net s
        ≡ scanned (cap_range s.max_block_range s.last_processed_block target) events)
unfolding scan at_height
scan_scanned net target s st behind =
    let later : leb target s.last_processed_block ≡ false = ground (arith, behind) in
    rw (st.head, later, scan, at_height)
      (process_blocks_scanned net target s.topics s.last_processed_block _ st)

-- What an update that gets through leaves.
record Advanced (s after : EthSubscriber) (block : ℕ) : Type 0 where
  block_stored : after.last_processed_block ≡ block
  shared : Shared after
  range_kept : after.max_block_range ≡ s.max_block_range

finish-Advanced :
    (net : Network) (target : ℕ) (s : EthSubscriber) (block : ℕ) (events : List ParsedEthEvent)
    → Steady net target
    → Shared s
    → Advanced s (finish net block events (net.others_before_lock s)) block
unfolding finish
finish-Advanced net target s block events st shared =
    let t = net.others_before_lock s in
    let there : get t.last_block_numbers t.chain_id ≡ some s.last_processed_block =
      rw (st.same_numbers s, st.same_chain s) shared in
    rw (there, finish, store_block)
      (record {
        block_stored = refl;
        shared =
            get-insert t.last_block_numbers t.chain_id t.chain_id block
            ∙ rw (==_refl t.chain_id) refl;
        range_kept = st.same_range s;
      })

-- One update below the head of the chain scans up to the window's end; at the head it waits.
update-Advanced :
    (net : Network) (target : ℕ) (s : EthSubscriber)
    → Steady net target
    → Shared s
    → AllowsProgress s.max_block_range target
    → s.last_processed_block < target
    → Advanced s (update net s).0 (window s.max_block_range s.last_processed_block target)
unfolding update proceed
update-Advanced net target s st shared p behind =
    let (events, found) = scan_scanned net target s st behind in
    let capped =
      cap_range-window s.max_block_range s.last_processed_block target
        (narrow s.max_block_range p) in
    rw (found, update, proceed, capped) (finish-Advanced net target s _ events st shared)
  where
    narrow : (o : Option ℕ) → AllowsProgress o target → AllowsProgress o s.last_processed_block
    narrow none q = tt
    narrow (some r) q = (q.0, omega (arith, q.1, behind))

update_waits :
    (net : Network) (target : ℕ) (s : EthSubscriber)
    → Steady net target
    → Shared s
    → target ≤ s.last_processed_block
    → Advanced s (update net s).0 s.last_processed_block
unfolding update scan at_height proceed
update_waits net target s st shared reached =
    let there : leb target s.last_processed_block ≡ true = ground (arith, reached) in
    rw (st.head, there, update, scan, at_height, proceed)
      (record {
        block_stored = st.same_block s;
        shared = rw (st.same_numbers s, st.same_chain s, st.same_block s) shared;
        range_kept = st.same_range s;
      })

pub updates : ℕ → Network → EthSubscriber → EthSubscriber
updates zero net s = s
updates (suc k) net s = updates k net (update net s).0

window_advances :
    (o : Option ℕ) (last target : ℕ)
    → AllowsProgress o target
    → last < target
    → (last < window o last target) × (window o last target ≤ target)
window_advances none last target p h = (h, omega arith)
window_advances (some r) last target p h = (ground (arith, p.0, h), ground arith)

-- While the network answers and the head of the chain stays where it is, the subscriber reaches it: as
-- many updates are enough as there are blocks to go, whatever number of blocks it may query at once,
-- if that is at least 1 and block numbers with it stay in 64 bits. It never goes past the head, and the
-- shared block number is its own.
pub updates_reach_head :
    (net : Network) (target k : ℕ) (s : EthSubscriber)
    → Steady net target
    → Shared s
    → AllowsProgress s.max_block_range target
    → s.last_processed_block ≤ target
    → target ≤ s.last_processed_block + k
    → ((updates k net s).last_processed_block ≡ target) × Shared (updates k net s)
unfolding updates
updates_reach_head net target zero s st shared p below enough =
    (omega (arith, below, enough), shared)
updates_reach_head net target (suc k) s st shared p below enough =
    elim (Bool-cases (ltb s.last_processed_block target)) [
      | inl e ↦
          (let behind : s.last_processed_block < target = ground (arith, e) in
            let a = update-Advanced net target s st shared p behind in
            let w = window_advances s.max_block_range s.last_processed_block target p behind in
            updates_reach_head net target k (update net s).0 st a.shared (rw a.range_kept p)
              (omega (arith, a.block_stored, w.1)) (omega (arith, a.block_stored, w.0, enough)))
      | inr e ↦
          (let reached : target ≤ s.last_processed_block = ground (arith, e) in
            let a = update_waits net target s st shared reached in
            updates_reach_head net target k (update net s).0 st a.shared (rw a.range_kept p)
              (omega (arith, a.block_stored, below)) (omega (arith, a.block_stored, reached)))
    ]
