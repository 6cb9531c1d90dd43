-- ===== src/EthSubscriber/Confirmations/Verdicts/Told.antt =====
-- What the passes of `update` send on the channels of the confirmations.
use mathlib.Core.List.{Memᴰ}
use ton_eth_bridge_relay.Base.{
  ℕ, ◌≡◌, sym, ap, ◌↔◌, ◌⊎◌, inl, inr, false, Option, none, some, List, [], ◌∷◌, Unique, get, ltb,
  if◌then◌else◌, arith, Option-cases, Bool-cases, get-remove,
}
use ton_eth_bridge_relay.Errors.{Fallible}
use ton_eth_bridge_relay.EthSubscriber.Models.{
  ParsedEthEvent, EventId, VerificationStatus, not_exists,
}
use ton_eth_bridge_relay.EthSubscriber.Confirmations.Pending.{
  same_id, same_id_iff, id_eq, PendingConfirmation, Confirmations, Sent, send, is_invalid,
  retain_loop, found_status, answer_one, answer_loop,
}
use ton_eth_bridge_relay.EthSubscriber.Confirmations.Verdicts.{has_id}

-- A status is due on a channel: `answer` gives it for a confirmation that holds the channel.
pub record Due (m : Confirmations)
    (answer : EventId → PendingConfirmation → Option VerificationStatus)
    (p : ℕ × VerificationStatus) : Type 0 where
  pub id : EventId
  pub confirmation : PendingConfirmation
  pub there : get m id ≡ some confirmation
  pub channel : confirmation.status_tx ≡ some p.0
  pub status : answer id confirmation ≡ some p.1

send_iff :
    (c : PendingConfirmation) (status : VerificationStatus) (sent : Sent)
    (p : ℕ × VerificationStatus)
    → Memᴰ p (send c status sent) ↔ (Memᴰ p sent ⊎ ((c.status_tx ≡ some p.0) × (status ≡ p.1)))
send_iff c status sent p = elim (Option-cases c.status_tx) [
  | inl e ↦ rw e (inl, λ h. elim h [ inl old ↦ old | inr due ↦ absurd (cc due.0) ])
  | inr (tx, e) ↦ rw e (
    λ h. elim h [
      | Memᴰ.head q ↦ inr (ap some (sym (ap (λ x. x.0) q)), sym (ap (λ x. x.1) q))
      | Memᴰ.tail old ↦ inl old
    ],
    λ h. elim h [ inl old ↦ Memᴰ.tail old | inr due ↦ Memᴰ.head (ground (arith, due.0, due.1)) ],
  )
]

-- The answers of the `retain`.
abbrev pub first_answer : ℕ → EventId → PendingConfirmation → Option VerificationStatus
first_answer n id c =
    if ltb n c.target_block then none else (if is_invalid c.status then some not_exists else none)

module _ (answer : EventId → PendingConfirmation → Option VerificationStatus)
    (p : ℕ × VerificationStatus) where
  Due-later :
      (i : EventId) (c : PendingConfirmation) (m : Confirmations)
      → get m i ≡ none
      → Due m answer p
      → Due ((i, c) ∷ m) answer p
  unfolding get
  Due-later i c m absent d = record {
    id = d.id;
    confirmation = d.confirmation;
    there = ground (arith, same_id_iff i d.id, d.there);
    channel = d.channel;
    status = d.status;
  }

  Due-here :
      (i : EventId) (c : PendingConfirmation) (m : Confirmations)
      → c.status_tx ≡ some p.0
      → answer i c ≡ some p.1
      → Due ((i, c) ∷ m) answer p
  unfolding get
  Due-here i c m channel status = record {
    id = i;
    confirmation = c;
    there = ground (arith, same_id_iff i i);
    channel = channel;
    status = status;
  }

  Due-cases :
      (i : EventId) (c : PendingConfirmation) (m : Confirmations)
      → Due ((i, c) ∷ m) answer p
      → ((c.status_tx ≡ some p.0) × (answer i c ≡ some p.1)) ⊎ Due m answer p
  unfolding get
  Due-cases i c m d = elim (Bool-cases (same_id i d.id)) [
    | inl same ↦ inl (
      ground (arith, same, same_id_iff i d.id, d.there, d.channel),
      ground (arith, same, same_id_iff i d.id, d.there, d.status),
    )
    | inr other ↦ inr (record {
      id = d.id;
      confirmation = d.confirmation;
      there = ground (arith, other, d.there);
      channel = d.channel;
      status = d.status;
    })
  ]

-- A status that may be missing is sent.
abbrev send_if : PendingConfirmation → Option VerificationStatus → Sent → Sent
send_if c none sent = sent
send_if c (some status) sent = send c status sent

send_if_iff :
    (c : PendingConfirmation) (o : Option VerificationStatus) (sent : Sent)
    (p : ℕ × VerificationStatus)
    → Memᴰ p (send_if c o sent) ↔ (Memᴰ p sent ⊎ ((c.status_tx ≡ some p.0) × (o ≡ some p.1)))
send_if_iff c none sent p = (inl, λ h. elim h [ inl old ↦ old | inr due ↦ absurd (cc due.1) ])
send_if_iff c (some status) sent p =
    let both = send_iff c status sent p in
    (
      λ h. elim (both.0 h) [ inl old ↦ inl old | inr due ↦ inr (due.0, ap some due.1) ],
      λ h. both.1 (elim h [ inl old ↦ inl old | inr due ↦ inr (due.0, cc due.1) ]),
    )

sent-retain_loop :
    (n : ℕ) (i : EventId) (c : PendingConfirmation) (m : Confirmations) (told : Sent)
    → (retain_loop n ((i, c) ∷ m) told).sent
      ≡ send_if c (first_answer n i c) (retain_loop n m told).sent
unfolding retain_loop
sent-retain_loop n i c m told = ground arith

pub retain_told :
    (n : ℕ) (m : Confirmations) (told : Sent) (p : ℕ × VerificationStatus)
    → Unique m
    → Memᴰ p (retain_loop n m told).sent ↔ (Memᴰ p told ⊎ Due m (first_answer n) p)
unfolding retain_loop get
retain_told n [] told p u = (inl, λ h. elim h [ inl old ↦ old | inr d ↦ absurd (cc d.there) ])
retain_told n ((i, c) ∷ m) told p u =
    let rest = retain_told n m told p u.1 in
    let here = send_if_iff c (first_answer n i c) (retain_loop n m told).sent p in
    rw (sent-retain_loop n i c m told) (
      λ h. elim (here.0 h) [
        | inl old ↦ elim (rest.0 old) [
          | inl older ↦ inl older
          | inr d ↦ inr (Due-later (first_answer n) p i c m u.0 d)
        ]
        | inr due ↦ inr (Due-here (first_answer n) p i c m due.0 due.1)
      ],
      λ h. here.1 (elim h [
        | inl old ↦ inl (rest.1 (inl old))
        | inr d ↦ elim (Due-cases (first_answer n) p i c m d) [
          | inl due ↦ inr due
          | inr later ↦ inl (rest.1 (inr later))
        ]
      ]),
    )

-- The answers of the loop over the look-ups.
abbrev pub second_answer :
    (EventId → Fallible (Option ParsedEthEvent))
    → List EventId
    → EventId
    → PendingConfirmation
    → Option VerificationStatus
second_answer found ids id c = if has_id ids id then found_status c (found id) else none

module _ (found : EventId → Fallible (Option ParsedEthEvent)) (i : EventId) (ids : List EventId)
    (m : Confirmations) (p : ℕ × VerificationStatus) where
  Due-absent :
      get m i ≡ none → Due m (second_answer found (i ∷ ids)) p ↔ Due m (second_answer found ids) p
  Due-absent absent = (
    λ d. record {
      id = d.id;
      confirmation = d.confirmation;
      there = d.there;
      channel = d.channel;
      status = ground (arith, d.status, d.there, same_id_iff i d.id, absent);
    },
    λ d. record {
      id = d.id;
      confirmation = d.confirmation;
      there = d.there;
      channel = d.channel;
      status = ground (arith, d.status);
    },
  )

  get_rest :
      (c : PendingConfirmation) (sent : Sent) (id : EventId) (d : PendingConfirmation)
      → same_id i id ≡ false
      → get m id ≡ some d
      → get (answer_one (m, sent) i (found_status c (found i)) c).0 id ≡ some d
  get_rest c sent id d other e = elim (Option-cases (found_status c (found i))) [
    | inl f ↦ rw f e
    | inr (status, f) ↦ rw f (ground (arith, get-remove m i id, other, e))
  ]

  get_before :
      (c : PendingConfirmation) (sent : Sent) (id : EventId) (d : PendingConfirmation)
      → get (answer_one (m, sent) i (found_status c (found i)) c).0 id ≡ some d
      → get m id ≡ some d
  get_before c sent id d e = elim (Option-cases (found_status c (found i))) [
    | inl f ↦ ground (arith, f, e)
    | inr (status, f) ↦ ground (arith, f, e, get-remove m i id)
  ]

  -- The look-up of an entry, then the others.
  Due-first :
      (c : PendingConfirmation) (sent : Sent)
      → get m i ≡ some c
      → Due m (second_answer found (i ∷ ids)) p
      → ((c.status_tx ≡ some p.0) × (found_status c (found i) ≡ some p.1))
        ⊎ Due (answer_one (m, sent) i (found_status c (found i)) c).0 (second_answer found ids) p
  Due-first c sent e d = elim (Bool-cases (same_id i d.id)) [
    | inl same ↦ inl (
      ground (arith, same, same_id_iff i d.id, d.there, d.channel, e),
      ground (arith, same, same_id_iff i d.id, d.there, d.status, e),
    )
    | inr other ↦ inr (record {
      id = d.id;
      confirmation = d.confirmation;
      there = get_rest c sent d.id d.confirmation other d.there;
      channel = d.channel;
      status = ground (arith, d.status, other);
    })
  ]

  Due-rest :
      (c : PendingConfirmation) (sent : Sent)
      → get m i ≡ some c
      → Due (answer_one (m, sent) i (found_status c (found i)) c).0 (second_answer found ids) p
      → Due m (second_answer found (i ∷ ids)) p
  Due-rest c sent e d = record {
    id = d.id;
    confirmation = d.confirmation;
    there = get_before c sent d.id d.confirmation d.there;
    channel = d.channel;
    status = ground (arith, d.status);
  }

  Due-found :
      (c : PendingConfirmation)
      → get m i ≡ some c
      → c.status_tx ≡ some p.0
      → found_status c (found i) ≡ some p.1
      → Due m (second_answer found (i ∷ ids)) p
  Due-found c e channel status = record {
    id = i;
    confirmation = c;
    there = e;
    channel = channel;
    status = ground (arith, status, same_id_iff i i);
  }

answer_one_sent :
    (c : PendingConfirmation) (o : Option VerificationStatus) (i : EventId)
    (st : Confirmations × Sent) (p : ℕ × VerificationStatus)
    → Memᴰ p (answer_one st i o c).1 ↔ (Memᴰ p st.1 ⊎ ((c.status_tx ≡ some p.0) × (o ≡ some p.1)))
answer_one_sent c none i st p = send_if_iff c none st.1 p
answer_one_sent c (some status) i st p = send_if_iff c (some status) st.1 p

pub answer_told :
    (found : EventId → Fallible (Option ParsedEthEvent)) (ids : List EventId)
    (st : Confirmations × Sent) (p : ℕ × VerificationStatus)
    → Memᴰ p (answer_loop found ids st).1 ↔ (Memᴰ p st.1 ⊎ Due st.0 (second_answer found ids) p)
unfolding answer_loop
answer_told found [] st p = (inl, λ h. elim h [ inl old ↦ old | inr d ↦ absurd (cc d.status) ])
answer_told found (i ∷ ids) st p = elim (Option-cases (get st.0 i)) [
  | inl e ↦
      (let rest = answer_told found ids st p in
        let dues = Due-absent found i ids st.0 p e in
        rw (e, answer_loop)
          (
            λ h. elim (rest.0 h) [ inl old ↦ inl old | inr d ↦ inr (dues.1 d) ],
            λ h. rest.1 (elim h [ inl old ↦ inl old | inr d ↦ inr (dues.0 d) ]),
          ))
  | inr (c, e) ↦
      (let o = found_status c (found i) in
        let rest = answer_told found ids (answer_one st i o c) p in
        let here : Memᴰ p (answer_one st i o c).1
            ↔ (Memᴰ p st.1 ⊎ ((c.status_tx ≡ some p.0) × (o ≡ some p.1))) =
          answer_one_sent c o i st p in
        rw (e, answer_loop)
          (
            λ h. elim (rest.0 h) [
              | inl old ↦ elim (here.0 old) [
                | inl older ↦ inl older
                | inr due ↦ inr (Due-found found i ids st.0 p c e due.0 due.1)
              ]
              | inr d ↦ inr (Due-rest found i ids st.0 p c st.1 e d)
            ],
            λ h. rest.1 (elim h [
              | inl old ↦ inl (here.1 (inl old))
              | inr d ↦ elim (Due-first found i ids st.0 p c st.1 e d) [
                | inl due ↦ inl (here.1 (inr due))
                | inr later ↦ inr later
              ]
            ]),
          ))
]
