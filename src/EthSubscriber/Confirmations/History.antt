-- ===== src/EthSubscriber/Confirmations/History.antt =====
-- Any interleaving of `verify` calls and of the passes of `update`: `finish` is the part of `update`
-- that changes the confirmations, here with any scan before it and any answers of the network.
use ton_eth_bridge_relay.Base.{
  ℕ, ◌+◌, ◌≤◌, ◌≡◌, refl, ◌∙◌, inl, inr, Option, none, some, List, [], ◌∷◌, Map, Unique, get,
  insert, adjust, remove, length, ltb, if◌then◌else◌, ◌==◌, arith, Option-cases, insert-Unique,
  remove-Unique, nat_eq, remove_absent,
}
use ton_eth_bridge_relay.Errors.{Fallible}
use ton_eth_bridge_relay.Contracts.{EthAddress, EthEventVoteData}
use ton_eth_bridge_relay.Bridge.Configurations.Monad.{EthEventAbi}
use ton_eth_bridge_relay.EthSubscriber.Models.{
  ParsedEthEvent, EventId, event_id, VerificationStatus, removed, received,
}
use ton_eth_bridge_relay.EthSubscriber.Confirmations.Pending.{
  id_eq, same_id_iff, in_process, PendingConfirmation, Confirmations, Sent, mark, mark_all, send,
  retain_loop, find_event, found_status, answer_loop,
}
use ton_eth_bridge_relay.EthSubscriber.Confirmations.Update.{
  EthSubscriber, Network, new, verify, resolve, store_block, finish,
}
use ton_eth_bridge_relay.EthSubscriber.Confirmations.Verdicts.{mark_all-Unique, kept-Unique}

pub data Call : Type 0 where
  verifies : EthEventVoteData → EthAddress → EthEventAbi → ℕ → Call
  finishes : Network → ℕ → List ParsedEthEvent → Call

unfoldable pub step : EthSubscriber → Call → EthSubscriber
step s (verifies d emitter abi n) = (verify s d emitter abi n).0
step s (finishes net block events) = finish net block events s

unfoldable pub run : EthSubscriber → List Call → EthSubscriber
run s [] = s
run s (c ∷ cs) = run (step s c) cs

-- How often a channel is held, and how often it was sent to.
abbrev pub holds : ℕ → Option ℕ → ℕ
holds ch none = 0
holds ch (some tx) = if tx == ch then 1 else 0

abbrev pub waiting : Confirmations → ℕ → ℕ
waiting [] ch = 0
waiting ((id, c) ∷ m) ch = holds ch c.status_tx + waiting m ch

abbrev pub times_told : Sent → ℕ → ℕ
times_told [] ch = 0
times_told (p ∷ sent) ch = holds ch (some p.0) + times_told sent ch

pub record Accounted (s : EthSubscriber) : Type 0 where
  pub unique : Unique s.pending_confirmations
  pub counted : s.pending_confirmation_count ≡ length s.pending_confirmations
  pub once :
      (ch : ℕ)
      → waiting s.pending_confirmations ch + times_told s.told ch
        ≤ (if ltb ch s.next_channel then 1 else 0)

waiting-insert :
    (m : Confirmations) (id : EventId) (c : PendingConfirmation) (ch : ℕ)
    → waiting (insert m id c) ch ≤ waiting m ch + holds ch c.status_tx
unfolding insert
waiting-insert [] id c ch = omega arith
waiting-insert ((i, d) ∷ m) id c ch = ground (arith, waiting-insert m id c ch)

waiting-mark :
    (m : Confirmations) (id : EventId) (event : ParsedEthEvent) (ch : ℕ)
    → waiting (adjust m id (mark event)) ch ≡ waiting m ch
unfolding adjust mark
waiting-mark [] id event ch = refl
waiting-mark ((i, d) ∷ m) id (removed e) ch = ground (arith, waiting-mark m id (removed e) ch)
waiting-mark ((i, d) ∷ m) id (received e) ch = ground (arith, waiting-mark m id (received e) ch)

waiting-mark_all :
    (m : Confirmations) (events : List ParsedEthEvent) (ch : ℕ)
    → waiting (mark_all m events) ch ≡ waiting m ch
unfolding mark_all
waiting-mark_all m [] ch = refl
waiting-mark_all m (event ∷ events) ch =
    waiting-mark_all (adjust m (event_id event) (mark event)) events ch
    ∙ waiting-mark m (event_id event) event ch

told-send :
    (c : PendingConfirmation) (status : VerificationStatus) (sent : Sent) (ch : ℕ)
    → times_told (send c status sent) ch ≡ holds ch c.status_tx + times_told sent ch
told-send c status sent ch = ground arith

retain_balance :
    (n : ℕ) (m : Confirmations) (told : Sent) (ch : ℕ)
    → waiting (retain_loop n m told).kept ch + times_told (retain_loop n m told).sent ch
      ≡ waiting m ch + times_told told ch
unfolding retain_loop
retain_balance n [] told ch = refl
retain_balance n ((i, c) ∷ m) told ch = ground (arith, retain_balance n m told ch)

waiting-remove :
    (m : Confirmations) (id : EventId) (c : PendingConfirmation) (ch : ℕ)
    → Unique m
    → get m id ≡ some c
    → waiting m ch ≡ holds ch c.status_tx + waiting (remove m id) ch
unfolding get remove
waiting-remove [] id c ch u e = absurd (cc e)
waiting-remove ((i, d) ∷ m) id c ch u e =
    ground (arith, e, same_id_iff i id, remove_absent m i u.0, waiting-remove m id c ch u.1)

-- The loop over the answers keeps each channel's balance.
answer_balance :
    (found : EventId → Fallible (Option ParsedEthEvent)) (ids : List EventId)
    (st : Confirmations × Sent) (ch : ℕ)
    → Unique st.0
    → (waiting (answer_loop found ids st).0 ch + times_told (answer_loop found ids st).1 ch
        ≡ waiting st.0 ch + times_told st.1 ch)
      × Unique (answer_loop found ids st).0
unfolding answer_loop
answer_balance found [] st ch u = (refl, u)
answer_balance found (i ∷ ids) st ch u = elim (Option-cases (get st.0 i)) [
  | inl e ↦ rw (e, answer_loop) (answer_balance found ids st ch u)
  | inr (c, e) ↦ elim (Option-cases (found_status c (found i))) [
    | inl f ↦ rw (e, f, answer_loop) (answer_balance found ids st ch u)
    | inr (status, f) ↦
        (let rest =
            answer_balance found ids (remove st.0 i, send c status st.1) ch
              (remove-Unique st.0 i u) in
          rw (e, f, answer_loop)
            (
              omega (arith, rest.0, waiting-remove st.0 i c ch u e, told-send c status st.1 ch),
              rest.1,
            ))
  ]
]

resolve_balance :
    (net : Network) (n : ℕ) (events : List ParsedEthEvent) (m : Confirmations) (told : Sent)
    (ch : ℕ)
    → Unique m
    → (waiting (resolve net n events m told).0 ch + times_told (resolve net n events m told).1 ch
        ≡ waiting m ch + times_told told ch)
      × Unique (resolve net n events m told).0
unfolding resolve
resolve_balance net n events m told ch u =
    let marks = mark_all m events in
    let r = retain_loop n marks told in
    let answers =
      answer_balance (find_event net.receipts) (net.arrivals r.events_to_check) (r.kept, r.sent) ch
        (kept-Unique n marks told (mark_all-Unique m events u)) in
    (
      omega (arith, answers.0, retain_balance n marks told ch, waiting-mark_all m events ch),
      answers.1,
    )

store_block-Accounted : (n : ℕ) (s : EthSubscriber) → Accounted s → Accounted (store_block n s)
unfolding store_block
store_block-Accounted n s v = elim (Option-cases (get s.last_block_numbers s.chain_id)) [
  | inl e ↦ rw (e, store_block) v
  | inr (b, e) ↦
      rw (e, store_block) (record { unique = v.unique; counted = v.counted; once = v.once })
]

step-Accounted : (s : EthSubscriber) (c : Call) → Accounted s → Accounted (step s c)
unfolding step finish verify
step-Accounted s (verifies d emitter abi n) v = record {
  unique = insert-Unique s.pending_confirmations _ _ v.unique;
  counted = refl;
  once = λ ch. ground (
    arith,
    v.once ch,
    waiting-insert s.pending_confirmations
        (record { transaction = d.event_transaction; index = d.event_index })
        (record {
          vote_data = d;
          status_tx = some s.next_channel;
          event_emitter = emitter;
          event_abi = abi;
          target_block = d.event_block_number + n;
          status = in_process;
        })
        ch,
  );
}
step-Accounted s (finishes net block events) v =
    let balance =
      λ (ch : ℕ). resolve_balance net block events s.pending_confirmations s.told ch v.unique in
    store_block-Accounted block _ (record {
      unique = (balance 0).1;
      counted = refl;
      once = λ ch. omega (arith, v.once ch, (balance ch).0);
    })

run-Accounted : (s : EthSubscriber) (cs : List Call) → Accounted s → Accounted (run s cs)
unfolding run
run-Accounted s [] v = v
run-Accounted s (c ∷ cs) v = run-Accounted (step s c) cs (step-Accounted s c v)

new-Accounted :
    (chain : ℕ) (range : Option ℕ) (numbers : Map ℕ ℕ) (block : ℕ)
    → Accounted (new chain range numbers block)
unfolding new
new-Accounted chain range numbers block = record {
  unique = tt;
  counted = refl;
  once = λ ch. omega arith;
}

-- However `verify` calls and updates interleave on a new subscriber: each event has one confirmation,
-- the counter is their number, and each channel is held by at most one of them, was sent to at most
-- once, and never both; a channel that was not handed out is neither.
pub run-new-Accounted :
    (chain : ℕ) (range : Option ℕ) (numbers : Map ℕ ℕ) (block : ℕ) (cs : List Call)
    → Accounted (run (new chain range numbers block) cs)
run-new-Accounted chain range numbers block cs =
    run-Accounted (new chain range numbers block) cs (new-Accounted chain range numbers block)
