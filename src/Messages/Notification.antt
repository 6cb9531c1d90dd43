-- ===== src/Messages/Notification.antt =====
-- Each receiver that `add_message` handed out either waits in the queue or has been told once.
use ton_eth_bridge_relay.Base.{
  ℕ, ◌+◌, ◌≡◌, refl, ◌∙◌, inl, inr, Option, none, some, List, [], ◌∷◌, Unique, get, insert, remove,
  count, map, ltb, if◌then◌else◌, u32_max, arith, Option-cases, Bool-cases, remove_absent, subst,
  leb,
}
use ton_eth_bridge_relay.Shards.{ShardIdent}
use ton_eth_bridge_relay.Messages.Invariant.{Inv, init-Inv, step-Inv}
use ton_eth_bridge_relay.Messages.{
  MessageStatus, PendingMessageId, PendingMessage, Entries, Channels, State, Call, adds, delivers,
  updates, delivered, expired, id_beq, id_eq, id_beq_iff, notify, keeps, add_message,
  deliver_message, sweep, update, step, run, init,
}

abbrev pub sender : Option ℕ → List ℕ
sender none = []
sender (some tx) = tx ∷ []

-- The channels that the entries still hold.
pub waiting : Entries → ℕ → ℕ
waiting [] c = 0
waiting ((id, item) ∷ m) c = count c (sender item.tx) + waiting m c

-- How often a channel was sent to.
abbrev pub told : List (ℕ × MessageStatus) → ℕ → ℕ
told sent c = count c (map (λ x. x.0) sent)

-- A channel that was handed out waits or was told, once in all; another does neither.
abbrev pub Notified : State → Type 0
Notified s = (c : ℕ) → waiting s.entries c + told s.sent c ≡ (if ltb c s.next then 1 else 0)

waiting-insert :
    (m : Entries) (id : PendingMessageId) (v : PendingMessage) (c : ℕ)
    → get m id ≡ none
    → waiting (insert m id v) c ≡ count c (sender v.tx) + waiting m c
unfolding waiting get insert
waiting-insert [] id v c h = refl
waiting-insert ((j, w) ∷ m) id v c h = ground (arith, waiting-insert m id v c)

waiting-remove :
    (m : Entries) (id : PendingMessageId) (v : PendingMessage) (c : ℕ)
    → Unique m
    → get m id ≡ some v
    → waiting m c ≡ count c (sender v.tx) + waiting (remove m id) c
unfolding waiting get remove
waiting-remove [] id v c u h = cc
waiting-remove ((j, w) ∷ m) id v c u h = elim (Bool-cases (id_beq j id)) [
  | inl same ↦
      let absent : get m id ≡ none = subst (λ x. get m x ≡ none) ((id_beq_iff j id).0 same) u.0 in
      ground (arith, same, remove_absent m id absent)
  | inr other ↦ ground (arith, other, waiting-remove m id v c u.1)
]

told-notify :
    (tx : Option ℕ) (status : MessageStatus) (ch : Channels) (c : ℕ)
    → told (notify tx status ch).sent c ≡ count c (sender tx) + told ch.sent c
told-notify none status ch c = omega arith
told-notify (some tx) status ch c = ground arith

next-notify :
    (tx : Option ℕ) (status : MessageStatus) (ch : Channels) → (notify tx status ch).next ≡ ch.next
next-notify none status ch = refl
next-notify (some tx) status ch = refl

next-sweep :
    (shard : ShardIdent) (now acc : ℕ) (ch : Channels) (m : Entries)
    → (sweep shard now acc ch m).channels.next ≡ ch.next
unfolding sweep
next-sweep shard now acc ch [] = refl
next-sweep shard now acc ch ((id, item) ∷ m) = elim (Bool-cases (keeps shard now id item)) [
  | inl stay ↦
      rw (stay, sweep)
        (next-sweep shard now (if ltb item.expire_at acc then item.expire_at else acc) ch m)
  | inr drop ↦
      rw (drop, sweep)
        (next-sweep shard now acc (notify item.tx expired ch) m ∙ next-notify item.tx expired ch)
]

sweep-conserves :
    (shard : ShardIdent) (now acc : ℕ) (ch : Channels) (m : Entries) (c : ℕ)
    → let r = sweep shard now acc ch m in
      waiting r.kept c + told r.channels.sent c ≡ waiting m c + told ch.sent c
unfolding sweep waiting
sweep-conserves shard now acc ch [] c = refl
sweep-conserves shard now acc ch ((id, item) ∷ m) c = elim (Bool-cases (keeps shard now id item)) [
  | inl stay ↦
      rw (stay, sweep)
        (ground (
          arith,
          sweep-conserves shard now (if ltb item.expire_at acc then item.expire_at else acc) ch m c,
        ))
  | inr drop ↦
      rw (drop, sweep)
        (omega (
          arith,
          sweep-conserves shard now acc (notify item.tx expired ch) m c,
          told-notify item.tx expired ch c,
        ))
]

add_message-Notified :
    (s : State) (id : PendingMessageId) (expire_at : ℕ)
    → Notified s
    → Notified (add_message s id expire_at).0
unfolding add_message
add_message-Notified s id expire_at h c = elim (Option-cases (get s.entries id)) [
  | inl e ↦
      rw (e, add_message)
        (ground (
          arith,
          h c,
          waiting-insert s.entries id (record { tx = some s.next; expire_at = expire_at }) c e,
        ))
  | inr (m, e) ↦ rw (e, add_message) (h c)
]

deliver_message-Notified :
    (s : State) (id : PendingMessageId) → Inv s → Notified s → Notified (deliver_message s id)
unfolding deliver_message
deliver_message-Notified s id v h c = elim (Option-cases (get s.entries id)) [
  | inl e ↦ rw (e, deliver_message) (h c)
  | inr (m, e) ↦
      rw (e, deliver_message, next-notify m.tx delivered s.channels)
        (omega (
          arith,
          h c,
          told-notify m.tx delivered s.channels c,
          waiting-remove s.entries id m c v.unique e,
        ))
]

update-Notified :
    (s : State) (shard : ShardIdent) (now : ℕ) → Notified s → Notified (update s shard now)
unfolding update
update-Notified s shard now h c = elim (Bool-cases (leb now s.min_expire_at)) [
  | inl early ↦ rw (early, update) (h c)
  | inr late ↦
      rw (late, update, next-sweep shard now u32_max s.channels s.entries)
        (omega (arith, h c, sweep-conserves shard now u32_max s.channels s.entries c))
]

step-Notified : (s : State) (c : Call) → Inv s → Notified s → Notified (step s c)
unfolding step
step-Notified s (adds id expire_at) v h = add_message-Notified s id expire_at h
step-Notified s (delivers id) v h = deliver_message-Notified s id v h
step-Notified s (updates shard now) v h = update-Notified s shard now h

run-Notified : (s : State) (cs : List Call) → Inv s → Notified s → Notified (run s cs)
unfolding run
run-Notified s [] v h = h
run-Notified s (c ∷ cs) v h = run-Notified (step s c) cs (step-Inv s c v) (step-Notified s c v h)

init-Notified : Notified init
unfolding init waiting
init-Notified c = ground arith

-- After any calls on a new queue, each receiver that `add_message` returned either still waits in
-- exactly one entry or was sent exactly one status, and no other channel is held or sent to.
pub run-init-Notified : (cs : List Call) → Notified (run init cs)
run-init-Notified cs = run-Notified init cs init-Inv init-Notified
