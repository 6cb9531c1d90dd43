-- ===== src/Engine.antt =====
-- src/engine/mod.rs, `send_ton_message` and `deliver_message`: a message to a contract is signed and
-- sent again until it is delivered. What the libraries answer to each attempt is an `Attempt`.
pub mod Start
mod Examples
use ton_eth_bridge_relay.Base.{
  ℕ, ◌≡◌, refl, sym, ap, ◌∙◌, ◌↔◌, inl, inr, Bool, true, false, List, [], ◌∷◌, ◌++◌, Result, ok,
  err, if◌then◌else◌, arith, Bool-cases, Result-cases,
}
use ton_eth_bridge_relay.Errors.{Error, Fallible, already_exists}
use ton_eth_bridge_relay.Messages.{
  State, PendingMessageId, MessageStatus, delivered, expired, PendingMessagesQueueError,
  add_message,
}

-- `SignedMessage`, by the hash of its cells and the result of reading its destination
-- (`AccountIdPrefixFull::prefix`, or the error for a message that is no external one).
pub record SignedMessage : Type 0 where
  pub account : ℕ
  pub message_hash : ℕ
  pub expire_at : ℕ
  pub destination : Fallible (Unit {0})

-- A round of the loop: the condition, the signing, the broadcast, what other tasks do to the queue
-- until the receiver has its answer, and that answer.
pub record Attempt : Type 0 where
  pub condition : Bool
  pub sign : Fallible SignedMessage
  pub broadcast : Fallible (Unit {0})
  pub others : State → State
  pub answer : Fallible MessageStatus

-- After the message stands in the queue; a failed broadcast leaves it there until it expires.
unfoldable pub after_add : Attempt → State → State × Fallible MessageStatus
after_add a s = elim a.broadcast [ err e ↦ (s, err e) | ok _ ↦ (a.others s, a.answer) ]

unfoldable pub send_ton_message : Attempt → SignedMessage → State → State × Fallible MessageStatus
unfolding after_add
send_ton_message a m s = elim m.destination [
  | err e ↦ (s, err e)
  | ok _ ↦
      (let added =
          add_message s (record { account = m.account; message_hash = m.message_hash })
            m.expire_at in
        elim added.1 [ err e ↦ (added.0, err already_exists) | ok rx ↦ after_add a added.0 ])
]

-- The body of the loop.
unfoldable pub attempt : Attempt → State → State × Fallible MessageStatus
unfolding send_ton_message
attempt a s = elim a.sign [ err e ↦ (s, err e) | ok m ↦ send_ton_message a m s ]

-- How the loop ends; `waiting` if the attempts that are given do not end it.
pub data Delivery : Type 0 where
  done stopped waiting : Delivery
  failed : Error → Delivery

unfoldable pub deliver_message : List Attempt → State → State × Delivery
unfolding attempt
deliver_message [] s = (s, waiting)
deliver_message (a ∷ rest) s =
    let tried = attempt a s in
    let again = deliver_message rest tried.0 in
    if a.condition
    then elim tried.1 [
      | err e ↦ (tried.0, failed e)
      | ok delivered ↦ (tried.0, done)
      | ok expired ↦ again
    ]
    else (s, stopped)

-- Attempts that are made and whose messages all expire, between two states of the queue.
pub data Expire : State → List Attempt → State → Type 0 where
  no_attempt : {s : State} → Expire s [] s
  next_attempt :
      {s t : State} (a : Attempt) (rest : List Attempt)
      → a.condition ≡ true
      → (attempt a s).1 ≡ ok expired
      → Expire (attempt a s).0 rest t
      → Expire s (a ∷ rest) t

-- One of the attempts is made after all earlier ones expired, and its message is delivered.
pub record Delivered (rest : List Attempt) (s : State) : Type 0 where
  pub before : List Attempt
  pub last : Attempt
  pub after : List Attempt
  pub split : rest ≡ before ++ (last ∷ after)
  pub arrived : State
  pub expire : Expire s before arrived
  pub wanted : last.condition ≡ true
  pub answered : (attempt last arrived).1 ≡ ok delivered

Delivered-later :
    (a : Attempt) (rest : List Attempt) (s : State)
    → a.condition ≡ true
    → (attempt a s).1 ≡ ok expired
    → Delivered rest (attempt a s).0
    → Delivered (a ∷ rest) s
Delivered-later a rest s c e d = record {
  before = a ∷ d.before;
  last = d.last;
  after = d.after;
  split = ap (λ xs. a ∷ xs) d.split;
  arrived = d.arrived;
  expire = next_attempt a d.before c e d.expire;
  wanted = d.wanted;
  answered = d.answered;
}

Delivered-of_done :
    (rest : List Attempt) (s : State) → (deliver_message rest s).1 ≡ done → Delivered rest s
unfolding deliver_message
Delivered-of_done [] s h = absurd (cc h)
Delivered-of_done (a ∷ rest) s h = elim (Bool-cases a.condition) [
  | inr c ↦ absurd (ground (arith, c, h))
  | inl c ↦ elim (Result-cases (attempt a s).1) [
    | inr (e, r) ↦ absurd (ground (arith, c, r, h))
    | inl (delivered, r) ↦ record {
      before = [];
      last = a;
      after = rest;
      split = refl;
      arrived = s;
      expire = no_attempt;
      wanted = c;
      answered = r;
    }
    | inl (expired, r) ↦
        Delivered-later a rest s c r
          (Delivered-of_done rest (attempt a s).0 (ground (arith, c, r, h)))
  ]
]

done_of_split :
    (before after : List Attempt) (last : Attempt) (s t : State)
    → Expire s before t
    → last.condition ≡ true
    → (attempt last t).1 ≡ ok delivered
    → (deliver_message (before ++ (last ∷ after)) s).1 ≡ done
unfolding deliver_message
done_of_split before after last s t no_attempt c r = ground (arith, c, r)
done_of_split before after last s t (next_attempt a rest wanted e x) c r =
    ground (arith, wanted, e, done_of_split rest after last (attempt a s).0 t x c r)

-- The delivery ends with a delivered message exactly when some attempt is made after all earlier ones
-- were made and expired, and its message is delivered.
pub deliver_message_iff :
    (rest : List Attempt) (s : State) → ((deliver_message rest s).1 ≡ done) ↔ Delivered rest s
deliver_message_iff rest s = (
  Delivered-of_done rest s,
  λ d. rw d.split (done_of_split d.before d.after d.last s d.arrived d.expire d.wanted d.answered),
)
