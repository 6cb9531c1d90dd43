-- ===== src/EthSubscriber/Confirmations/Verdicts.antt =====
-- What the three passes of `update` do to each confirmation, one entry at a time: a confirmation
-- whose block is not deep enough waits, one that the scan marked invalid is answered with no look-up,
-- and any other is answered by what the look-up of its event says, if it says anything.
pub mod Told
pub mod Channels
use ton_eth_bridge_relay.Base.{
  ℕ, ◌≡◌, refl, ◌∙◌, sym, ap, inl, inr, Bool, true, false, not, ◌&&◌, ◌||◌, Option, none, some,
  List, [], ◌∷◌, Unique, get, adjust, remove, only_if, any, ltb, if◌then◌else◌, arith, Option-cases,
  Bool-cases, get-adjust, get-remove, adjust-Unique, remove-Unique, ok, err,
}
use mathlib.Core.Option
use ton_eth_bridge_relay.Errors.{Fallible}
use ton_eth_bridge_relay.EthSubscriber.Models.{
  ParsedEthEvent, EventId, event_id, VerificationStatus, not_exists,
}
use ton_eth_bridge_relay.EthSubscriber.Confirmations.Pending.{
  same_id, same_id_iff, id_eq, PendingConfirmation, Confirmations, Sent, mark, mark_all, is_invalid,
  retain_loop, found_status, answer_one, answer_loop, find_event,
}
use ton_eth_bridge_relay.EthSubscriber.Confirmations.Update.{Network, resolve}

-- A confirmation after the marks of the events with its id, in the order of the events.
pub marked : List ParsedEthEvent → EventId → PendingConfirmation → PendingConfirmation
marked [] id c = c
marked (event ∷ events) id c =
    marked events id (if same_id (event_id event) id then mark event c else c)

-- The answer that a marked confirmation gets at a block.
pub verdict : ℕ → Fallible (Option ParsedEthEvent) → PendingConfirmation → Option VerificationStatus
verdict current_block answer c =
    if ltb current_block c.target_block
    then none
    else (if is_invalid c.status then some not_exists else found_status c answer)

-- What is left of a confirmation.
abbrev pub unless {ℓ} : {A : Type ℓ} → Option A → PendingConfirmation → Option PendingConfirmation
unless none c = some c
unless (some status) c = none

abbrev pub has_id : List EventId → EventId → Bool
has_id ids id = any (λ i. same_id i id) ids

pub get-mark_all :
    (m : Confirmations) (events : List ParsedEthEvent) (id : EventId)
    → get (mark_all m events) id ≡ Option.map (marked events id) (get m id)
unfolding mark_all marked
get-mark_all m [] id = elim (Option-cases (get m id)) [ inl e ↦ rw e refl | inr (c, e) ↦ rw e refl ]
get-mark_all m (event ∷ events) id =
    get-mark_all (adjust m (event_id event) (mark event)) events id
    ∙ ground (arith, get-adjust m (event_id event) id (mark event))

pub mark_all-Unique :
    (m : Confirmations) (events : List ParsedEthEvent) → Unique m → Unique (mark_all m events)
unfolding mark_all
mark_all-Unique m [] u = u
mark_all-Unique m (event ∷ events) u =
    mark_all-Unique (adjust m (event_id event) (mark event)) events
      (adjust-Unique m (event_id event) (mark event) u)

-- The `retain` keeps what waits or is to be looked up.
abbrev pub keeps : ℕ → PendingConfirmation → Bool
keeps current_block c = ltb current_block c.target_block || not (is_invalid c.status)

abbrev pub looks_up : ℕ → Option PendingConfirmation → Bool
looks_up current_block none = false
looks_up current_block (some c) =
    not (ltb current_block c.target_block) && not (is_invalid c.status)

get-kept_none :
    (n : ℕ) (m : Confirmations) (told : Sent) (id : EventId)
    → get m id ≡ none
    → get (retain_loop n m told).kept id ≡ none
unfolding get retain_loop
get-kept_none n [] told id h = refl
get-kept_none n ((i, c) ∷ m) told id h = ground (arith, get-kept_none n m told id)

pub get-kept :
    (n : ℕ) (m : Confirmations) (told : Sent) (id : EventId)
    → Unique m
    → get (retain_loop n m told).kept id ≡ only_if (keeps n) (get m id)
unfolding get retain_loop
get-kept n [] told id u = refl
get-kept n ((i, c) ∷ m) told id u =
    ground (arith, same_id_iff i id, get-kept n m told id u.1, get-kept_none n m told i u.0)

pub kept-Unique :
    (n : ℕ) (m : Confirmations) (told : Sent) → Unique m → Unique (retain_loop n m told).kept
unfolding retain_loop
kept-Unique n [] told u = tt
kept-Unique n ((i, c) ∷ m) told u =
    ground (arith, get-kept_none n m told i u.0, kept-Unique n m told u.1)

pub has_id-events_to_check :
    (n : ℕ) (m : Confirmations) (told : Sent) (id : EventId)
    → Unique m
    → has_id (retain_loop n m told).events_to_check id ≡ looks_up n (get m id)
unfolding get retain_loop
has_id-events_to_check n [] told id u = refl
has_id-events_to_check n ((i, c) ∷ m) told id u =
    ground (arith, same_id_iff i id, has_id-events_to_check n m told id u.1)

-- What is left of an entry after its look-up.
abbrev after_answer :
    Fallible (Option ParsedEthEvent) → Option PendingConfirmation → Option PendingConfirmation
after_answer answer none = none
after_answer answer (some c) = unless (found_status c answer) c

get-answer_loop :
    (found : EventId → Fallible (Option ParsedEthEvent)) (ids : List EventId)
    (st : Confirmations × Sent) (id : EventId)
    → get (answer_loop found ids st).0 id
      ≡ (if has_id ids id then after_answer (found id) (get st.0 id) else get st.0 id)
unfolding answer_loop
get-answer_loop found [] st id = refl
get-answer_loop found (i ∷ ids) st id = elim (Option-cases (get st.0 i)) [
  | inl e ↦
      rw (e, answer_loop) (get-answer_loop found ids st id ∙ ground (arith, same_id_iff i id, e))
  | inr (c, e) ↦ elim (Option-cases (found_status c (found i))) [
    | inl f ↦
        rw (e, f, answer_loop)
          (get-answer_loop found ids st id ∙ ground (arith, same_id_iff i id, e, f))
    | inr (status, f) ↦
        rw (e, f, answer_loop)
          (get-answer_loop found ids _ id
            ∙ ground (arith, same_id_iff i id, e, f, get-remove st.0 i id))
  ]
]

-- What is left of an entry after all passes.
abbrev pub left_of :
    ℕ → Fallible (Option ParsedEthEvent) → Option PendingConfirmation → Option PendingConfirmation
left_of current_block answer none = none
left_of current_block answer (some c) = unless (verdict current_block answer c) c

-- After the passes, in whatever order the look-ups are answered, a confirmation is left with its
-- marks if its block is deeper than the scan or if it was looked up in vain, and is gone otherwise;
-- none is new.
pub resolve_pending :
    (net : Network) (current_block : ℕ) (events : List ParsedEthEvent) (m : Confirmations)
    (told : Sent) (id : EventId)
    → Unique m
    → ((ids : List EventId) (i : EventId) → has_id (net.arrivals ids) i ≡ has_id ids i)
    → get (resolve net current_block events m told).0 id
      ≡ left_of current_block
          (find_event net.receipts id)
          (Option.map (marked events id) (get m id))
unfolding resolve verdict
resolve_pending net n events m told id u order =
    let marks = mark_all m events in
    let marks_Unique = mark_all-Unique m events u in
    let r = retain_loop n marks told in
    get-answer_loop (find_event net.receipts) (net.arrivals r.events_to_check) (r.kept, r.sent) id
    ∙ ground (
      arith,
      order r.events_to_check id,
      has_id-events_to_check n marks told id marks_Unique,
      get-kept n marks told id marks_Unique,
      get-mark_all m events id,
    )
