-- ===== src/EthSubscriber/Confirmations/Verdicts/Channels.antt =====
-- Who is told what by `update`: the passes together.
use mathlib.Core.List.{Memᴰ}
use ton_eth_bridge_relay.Base.{
  ℕ, ◌≡◌, refl, ◌∙◌, ◌↔◌, ◌⊎◌, inl, inr, Option, some, List, [], ◌∷◌, Unique, get, arith,
  Option-cases,
}
use ton_eth_bridge_relay.Errors.{Fallible}
use ton_eth_bridge_relay.EthSubscriber.Models.{
  ParsedEthEvent, EventId, VerificationStatus, removed, received,
}
use ton_eth_bridge_relay.EthSubscriber.Confirmations.Pending.{
  id_eq, PendingConfirmation, Confirmations, Sent, mark, mark_all, retain_loop, find_event,
}
use ton_eth_bridge_relay.EthSubscriber.Confirmations.Update.{Network, resolve}
use ton_eth_bridge_relay.EthSubscriber.Confirmations.Verdicts.{
  marked, verdict, has_id, mark_all-Unique, get-mark_all, get-kept, has_id-events_to_check,
}
use ton_eth_bridge_relay.EthSubscriber.Confirmations.Verdicts.Told.{
  Due, first_answer, second_answer, retain_told, answer_told,
}

mark-status_tx :
    (event : ParsedEthEvent) (c : PendingConfirmation) → (mark event c).status_tx ≡ c.status_tx
unfolding mark
mark-status_tx (removed e) c = refl
mark-status_tx (received e) c = refl

marked-status_tx :
    (events : List ParsedEthEvent) (id : EventId) (c : PendingConfirmation)
    → (marked events id c).status_tx ≡ c.status_tx
unfolding marked
marked-status_tx [] id c = refl
marked-status_tx (event ∷ events) id c =
    marked-status_tx events id _ ∙ ground (arith, mark-status_tx event c)

-- The answers of both passes to the entries of the marked map.
module _ (n : ℕ) (found : EventId → Fallible (Option ParsedEthEvent)) (order : List EventId)
    (m : Confirmations) (told : Sent) (p : ℕ × VerificationStatus) (u : Unique m)
    (asked : (i : EventId) → has_id order i ≡ has_id (retain_loop n m told).events_to_check i) where
  abbrev both_answers : EventId → PendingConfirmation → Option VerificationStatus
  both_answers id c = verdict n (found id) c

  Due-both :
      Due m (first_answer n) p ⊎ Due (retain_loop n m told).kept (second_answer found order) p
      → Due m both_answers p
  unfolding verdict
  Due-both (inl d) = record {
    id = d.id;
    confirmation = d.confirmation;
    there = d.there;
    channel = d.channel;
    status = ground (arith, d.status);
  }
  Due-both (inr d) =
      let there : get m d.id ≡ some d.confirmation =
        ground (arith, d.there, get-kept n m told d.id u) in
      record {
        id = d.id;
        confirmation = d.confirmation;
        there = there;
        channel = d.channel;
        status =
            ground (arith, d.status, there, asked d.id, has_id-events_to_check n m told d.id u);
      }

  Due-split :
      Due m both_answers p
      → Due m (first_answer n) p ⊎ Due (retain_loop n m told).kept (second_answer found order) p
  unfolding verdict
  Due-split d = elim (Option-cases (first_answer n d.id d.confirmation)) [
    | inr (status, e) ↦ inl (record {
      id = d.id;
      confirmation = d.confirmation;
      there = d.there;
      channel = d.channel;
      status = ground (arith, d.status, e);
    })
    | inl e ↦ inr (record {
      id = d.id;
      confirmation = d.confirmation;
      there = ground (arith, d.there, d.status, e, get-kept n m told d.id u);
      channel = d.channel;
      status =
          ground (arith, d.status, d.there, e, asked d.id, has_id-events_to_check n m told d.id u);
    })
  ]

-- A status that is due after the marks.
Due-marked :
    (m : Confirmations) (events : List ParsedEthEvent)
    (answer : EventId → PendingConfirmation → Option VerificationStatus)
    (p : ℕ × VerificationStatus)
    → Due (mark_all m events) answer p ↔ Due m (λ id c. answer id (marked events id c)) p
Due-marked m events answer p = (
  λ d. elim (Option-cases (get m d.id)) [
    | inl e ↦ absurd (ground (arith, e, d.there, get-mark_all m events d.id))
    | inr (c, e) ↦
        (let same : some (marked events d.id c) ≡ some d.confirmation =
            ground (arith, e, d.there, get-mark_all m events d.id) in
          record {
            id = d.id;
            confirmation = c;
            there = e;
            channel = ground (arith, same, d.channel, marked-status_tx events d.id c);
            status = ground (arith, same, d.status);
          })
  ],
  λ d. record {
    id = d.id;
    confirmation = marked events d.id d.confirmation;
    there = ground (arith, d.there, get-mark_all m events d.id);
    channel = marked-status_tx events d.id d.confirmation ∙ d.channel;
    status = d.status;
  },
)

-- A status is sent on a channel by the passes exactly when a pending confirmation holds the channel,
-- its block is deep enough and the status is its answer: `NotExists` if the last log of its event in
-- the scan does not match it or takes it back, else what the look-up of its event says.
pub resolve_told :
    (net : Network) (current_block : ℕ) (events : List ParsedEthEvent) (m : Confirmations)
    (told : Sent) (p : ℕ × VerificationStatus)
    → Unique m
    → ((ids : List EventId) (i : EventId) → has_id (net.arrivals ids) i ≡ has_id ids i)
    → Memᴰ p (resolve net current_block events m told).1 ↔ (
        Memᴰ p told
        ⊎ Due m (λ id c. verdict current_block (find_event net.receipts id) (marked events id c)) p)
unfolding resolve
resolve_told net n events m told p u order =
    let marks = mark_all m events in
    let r = retain_loop n marks told in
    let found = find_event net.receipts in
    let ids = net.arrivals r.events_to_check in
    let first = retain_told n marks told p (mark_all-Unique m events u) in
    let second = answer_told found ids (r.kept, r.sent) p in
    let marks_due = Due-marked m events (λ id c. verdict n (found id) c) p in
    let both =
      Due-both n found ids marks told p (mark_all-Unique m events u) (order r.events_to_check) in
    let split =
      Due-split n found ids marks told p (mark_all-Unique m events u) (order r.events_to_check) in
    (
      λ h. elim (second.0 h) [
        | inl earlier ↦ elim (first.0 earlier) [
          | inl old ↦ inl old
          | inr d ↦ inr (marks_due.0 (both (inl d)))
        ]
        | inr d ↦ inr (marks_due.0 (both (inr d)))
      ],
      λ h. second.1 (elim h [
        | inl old ↦ inl (first.1 (inl old))
        | inr d ↦ elim (split (marks_due.1 d)) [
          | inl now ↦ inl (first.1 (inr now))
          | inr later ↦ inr later
        ]
      ]),
    )
