-- ===== src/Messages/Told.antt =====
-- Which receivers the loop of `update` tells.
use mathlib.Core.List.{Memᴰ}
use ton_eth_bridge_relay.Base.{
  ℕ, ◌<◌, ◌≡◌, refl, sym, ap, ◌∙◌, ◌↔◌, ◌⊎◌, inl, inr, true, false, Option, none, some, [], ◌∷◌,
  get, Unique, ltb, if◌then◌else◌, arith, Bool-cases,
}
use ton_eth_bridge_relay.Shards.{ShardIdent, contains_account}
use ton_eth_bridge_relay.Messages.{
  MessageStatus, PendingMessageId, PendingMessage, Entries, Channels, expired, id_beq, id_eq,
  id_beq_iff, notify, keeps, sweep,
}

told-notify :
    (tx : Option ℕ) (status : MessageStatus) (c : Channels) (x : ℕ × MessageStatus)
    → Memᴰ x c.sent
    → Memᴰ x (notify tx status c).sent
told-notify none status c x h = h
told-notify (some tx) status c x h = Memᴰ.tail h

told-sweep :
    (shard : ShardIdent) (now acc : ℕ) (c : Channels) (m : Entries) (x : ℕ × MessageStatus)
    → Memᴰ x c.sent
    → Memᴰ x (sweep shard now acc c m).channels.sent
unfolding sweep
told-sweep shard now acc c [] x h = h
told-sweep shard now acc c ((id, item) ∷ m) x h = elim (Bool-cases (keeps shard now id item)) [
  | inl stay ↦
      rw (stay, sweep)
        (told-sweep shard now (if ltb item.expire_at acc then item.expire_at else acc) c m x h)
  | inr drop ↦
      rw (drop, sweep)
        (told-sweep shard now acc (notify item.tx expired c) m x
          (told-notify item.tx expired c x h))
]

pub told_expired :
    (shard : ShardIdent) (now acc tx : ℕ) (c : Channels) (m : Entries) (id : PendingMessageId)
    (v : PendingMessage)
    → get m id ≡ some v
    → v.tx ≡ some tx
    → keeps shard now id v ≡ false
    → Memᴰ (tx, expired) (sweep shard now acc c m).channels.sent
unfolding sweep get
told_expired shard now acc tx c [] id v h e k = cc
told_expired shard now acc tx c ((j, w) ∷ m) id v h e k = elim (Bool-cases (id_beq j id)) [
  | inl same ↦
      let p : w ≡ v = ground (arith, same) in
      let q : j ≡ id = (id_beq_iff j id).0 same in
      let drop : keeps shard now j w ≡ false = rw (p, q) k in
      let first : Memᴰ (tx, expired) (notify w.tx expired c).sent =
        rw (ap (λ (x : PendingMessage). x.tx) p, e) (Memᴰ.head refl) in
      rw (drop, sweep) (told-sweep shard now acc (notify w.tx expired c) m (tx, expired) first)
  | inr other ↦
      let later : get m id ≡ some v = ground (arith, other) in
      elim (Bool-cases (keeps shard now j w)) [
        | inl stay ↦
            rw (stay, sweep)
              (told_expired shard now (if ltb w.expire_at acc then w.expire_at else acc) tx c m id v
                later e k)
        | inr drop ↦
            rw (drop, sweep)
              (told_expired shard now acc tx (notify w.tx expired c) m id v later e k)
      ]
]

-- A status is `Expired` for the receiver of an entry of the shard that expired before `now`.
pub record Expires (shard : ShardIdent) (now : ℕ) (m : Entries) (x : ℕ × MessageStatus)
    : Type 0 where
  pub id : PendingMessageId
  pub message : PendingMessage
  pub entry : get m id ≡ some message
  pub receiver : message.tx ≡ some x.0
  pub status : x.1 ≡ expired
  pub late : message.expire_at < now
  pub in_shard : contains_account shard id.account ≡ true

Expires-later :
    (shard : ShardIdent) (now : ℕ) (j : PendingMessageId) (w : PendingMessage) (m : Entries)
    (x : ℕ × MessageStatus)
    → get m j ≡ none
    → Expires shard now m x
    → Expires shard now ((j, w) ∷ m) x
unfolding get
Expires-later shard now j w m x new e = record {
  id = e.id;
  message = e.message;
  entry = elim (Bool-cases (id_beq j e.id)) [
    | inl same ↦
        let p : j ≡ e.id = (id_beq_iff j e.id).0 same in
        absurd (cc (sym new ∙ ap (get m) p ∙ e.entry))
    | inr other ↦ ground (arith, other, e.entry)
  ];
  receiver = e.receiver;
  status = e.status;
  late = e.late;
  in_shard = e.in_shard;
}

notify-told :
    (tx : Option ℕ) (c : Channels) (x : ℕ × MessageStatus)
    → Memᴰ x (notify tx expired c).sent
    → Memᴰ x c.sent ⊎ ((tx ≡ some x.0) × (x.1 ≡ expired))
notify-told none c x h = inl h
notify-told (some tx) c x (Memᴰ.head q) = inr (ap some (sym (ap (λ y. y.0) q)), ap (λ y. y.1) q)
notify-told (some tx) c x (Memᴰ.tail h) = inl h

sweep-told :
    (shard : ShardIdent) (now acc : ℕ) (c : Channels) (m : Entries) (x : ℕ × MessageStatus)
    → Unique m
    → Memᴰ x (sweep shard now acc c m).channels.sent
    → Memᴰ x c.sent ⊎ Expires shard now m x
unfolding sweep get
sweep-told shard now acc c [] x u h = inl h
sweep-told shard now acc c ((j, w) ∷ m) x u h = elim (Bool-cases (keeps shard now j w)) [
  | inl stay ↦
      let acc' = if ltb w.expire_at acc then w.expire_at else acc in
      elim (sweep-told shard now acc' c m x u.1 (rw (stay, sweep) at h)) [
        | inl before ↦ inl before
        | inr e ↦ inr (Expires-later shard now j w m x u.0 e)
      ]
  | inr drop ↦
      elim (sweep-told shard now acc (notify w.tx expired c) m x u.1 (rw (drop, sweep) at h)) [
        | inr e ↦ inr (Expires-later shard now j w m x u.0 e)
        | inl early ↦ elim (notify-told w.tx c x early) [
          | inl before ↦ inl before
          | inr here ↦ inr (record {
            id = j;
            message = w;
            entry = ground (arith, (id_beq_iff j j).1 refl);
            receiver = here.0;
            status = here.1;
            late = ground (arith, drop);
            in_shard = ground (arith, drop);
          })
        ]
      ]
]

-- What the loop sends, over entries that stand once each.
pub sent-sweep_iff :
    (shard : ShardIdent) (now acc : ℕ) (c : Channels) (m : Entries) (x : ℕ × MessageStatus)
    → Unique m
    → Memᴰ x (sweep shard now acc c m).channels.sent ↔ (Memᴰ x c.sent ⊎ Expires shard now m x)
sent-sweep_iff shard now acc c m x u = (
  sweep-told shard now acc c m x u,
  λ h. elim h [
    | inl before ↦ told-sweep shard now acc c m x before
    | inr e ↦
        let drop : keeps shard now e.id e.message ≡ false = ground (arith, e.late, e.in_shard) in
        let same : (x.0, expired) ≡ x = ap (λ (t : MessageStatus). (x.0, t)) (sym e.status) in
        rw (← same) (told_expired shard now acc x.0 c m e.id e.message e.entry e.receiver drop)
  ],
)
