-- ===== src/Messages/Invariant.antt =====
-- What holds of the queue between two calls: `entry_count` and `min_expire_at`, which are read without
-- the lock, agree with the entries.
use ton_eth_bridge_relay.Base.{
  ℕ, ◌%◌, ◌≤◌, ◌≡◌, refl, ap, subst, ◌≢◌, inl, inr, none, some, List, [], ◌∷◌, Unique, get, insert,
  remove, retain, length, u32_max, u64_mod, ltb, leb, if◌then◌else◌, min, arith, Option-cases,
  Bool-cases, insert-Unique, remove-Unique, retain-Unique, length-insert_new, length-remove,
  remove_absent,
}
use ton_eth_bridge_relay.Shards.{ShardIdent}
use ton_eth_bridge_relay.Messages.{
  PendingMessageId, PendingMessage, Entries, Channels, State, Call, adds, delivers, updates, id_beq,
  id_eq, id_beq_iff, keeps, add_message, min_loop, deliver_message, sweep, update, step, run, init,
  notify, expired,
}

-- The earliest expiry, `u32::MAX` if there is no entry.
unfoldable pub min_of : Entries → ℕ
min_of [] = u32_max
min_of ((id, item) ∷ m) = min item.expire_at (min_of m)

pub record Inv (s : State) : Type 0 where
  pub unique : Unique s.entries
  pub counted : s.entry_count ≡ length s.entries % u64_mod
  pub earliest : s.min_expire_at ≡ min_of s.entries

pub min_of-le : (m : Entries) → min_of m ≤ u32_max
unfolding min_of
min_of-le [] = omega arith
min_of-le ((id, item) ∷ m) = omega (arith, min_of-le m)

min_loop-min_of : (acc : ℕ) (m : Entries) → acc ≤ u32_max → min_loop acc m ≡ min acc (min_of m)
unfolding min_loop min_of
min_loop-min_of acc [] h = omega arith
min_loop-min_of acc ((id, item) ∷ m) h = ground (
  arith,
  min_loop-min_of acc m h,
  λ (k : item.expire_at ≤ u32_max). min_loop-min_of item.expire_at m k,
)

min_of-insert :
    (m : Entries) (id : PendingMessageId) (v : PendingMessage)
    → get m id ≡ none
    → min_of (insert m id v) ≡ min v.expire_at (min_of m)
unfolding min_of get insert
min_of-insert [] id v h = refl
min_of-insert ((j, w) ∷ m) id v h = ground (arith, min_of-insert m id v)

min_of-le_entry :
    (m : Entries) (id : PendingMessageId) (v : PendingMessage)
    → get m id ≡ some v
    → min_of m ≤ v.expire_at
unfolding min_of get
min_of-le_entry [] id v h = cc
min_of-le_entry ((j, w) ∷ m) id v h = ground (arith, min_of-le_entry m id v)

min_of-le-remove : (m : Entries) (id : PendingMessageId) → min_of m ≤ min_of (remove m id)
unfolding min_of remove
min_of-le-remove [] id = omega arith
min_of-le-remove ((j, w) ∷ m) id = ground (arith, min_of-le-remove m id)

-- Taking out an entry that is not the earliest leaves the earliest expiry.
min_of-remove :
    (m : Entries) (id : PendingMessageId) (v : PendingMessage)
    → Unique m
    → get m id ≡ some v
    → v.expire_at ≢ min_of m
    → min_of (remove m id) ≡ min_of m
unfolding min_of get remove
min_of-remove [] id v u h d = cc
min_of-remove ((j, w) ∷ m) id v u h d = elim (Bool-cases (id_beq j id)) [
  | inl same ↦
      let absent : get m id ≡ none = subst (λ x. get m x ≡ none) ((id_beq_iff j id).0 same) u.0 in
      ground (arith, same, remove_absent m id absent)
  | inr other ↦
      ground (arith, other, min_of-remove m id v u.1, min_of-le-remove m id, min_of-le_entry m id v)
]

pub add_message-Inv :
    (s : State) (id : PendingMessageId) (expire_at : ℕ) → Inv s → Inv (add_message s id expire_at).0
unfolding add_message
add_message-Inv s id expire_at v = elim (Option-cases (get s.entries id)) [
  | inl e ↦
      rw (e, add_message)
        (record {
          unique = insert-Unique s.entries id _ v.unique;
          counted = omega (
            arith,
            length-insert_new s.entries id (record { tx = some s.next; expire_at = expire_at }) e,
            v.counted,
          );
          earliest = omega (
            arith,
            min_of-insert s.entries id (record { tx = some s.next; expire_at = expire_at }) e,
            v.earliest,
          );
        })
  | inr (m, e) ↦ rw (e, add_message) v
]

pub deliver_message-Inv : (s : State) (id : PendingMessageId) → Inv s → Inv (deliver_message s id)
unfolding deliver_message
deliver_message-Inv s id v = elim (Option-cases (get s.entries id)) [
  | inl e ↦ rw (e, deliver_message) v
  | inr (m, e) ↦
      rw (e, deliver_message)
        (record {
          unique = remove-Unique s.entries id v.unique;
          counted = omega (arith, length-remove s.entries id m v.unique e, v.counted);
          earliest = ground (
            arith,
            v.earliest,
            min_loop-min_of u32_max (remove s.entries id),
            min_of-le (remove s.entries id),
            min_of-remove s.entries id m v.unique e,
          );
        })
]

-- What the loop of `update` keeps, and the expiry that it computes.
pub sweep-kept :
    (shard : ShardIdent) (now acc : ℕ) (c : Channels) (m : Entries)
    → (sweep shard now acc c m).kept ≡ retain (keeps shard now) m
unfolding sweep retain
sweep-kept shard now acc c [] = refl
sweep-kept shard now acc c ((id, item) ∷ m) = elim (Bool-cases (keeps shard now id item)) [
  | inl stay ↦
      rw (stay, sweep, retain)
        (ap (◌∷◌ (id, item))
          (sweep-kept shard now (if ltb item.expire_at acc then item.expire_at else acc) c m))
  | inr drop ↦ rw (drop, sweep, retain) (sweep-kept shard now acc (notify item.tx expired c) m)
]

pub sweep-min_expire_at :
    (shard : ShardIdent) (now acc : ℕ) (c : Channels) (m : Entries)
    → acc ≤ u32_max
    → (sweep shard now acc c m).min_expire_at ≡ min acc (min_of (retain (keeps shard now) m))
unfolding sweep retain min_of
sweep-min_expire_at shard now acc c [] h = omega arith
sweep-min_expire_at shard now acc c ((id, item) ∷ m) h =
    elim (Bool-cases (keeps shard now id item)) [
      | inl stay ↦
          rw (stay, sweep, retain)
            (ground (
              arith,
              sweep-min_expire_at shard now (if ltb item.expire_at acc then item.expire_at else acc)
                  c m,
            ))
      | inr drop ↦
          rw (drop, sweep, retain)
            (sweep-min_expire_at shard now acc (notify item.tx expired c) m h)
    ]

pub update-Inv : (s : State) (shard : ShardIdent) (now : ℕ) → Inv s → Inv (update s shard now)
unfolding update
update-Inv s shard now v = elim (Bool-cases (leb now s.min_expire_at)) [
  | inl early ↦ rw (early, update) v
  | inr late ↦
      let kept = sweep-kept shard now u32_max s.channels s.entries in
      rw (late, update)
        (record {
          unique = rw kept (retain-Unique (keeps shard now) s.entries v.unique);
          counted = refl;
          earliest = rw kept (
              omega (
                arith,
                sweep-min_expire_at shard now u32_max s.channels s.entries (omega arith),
                min_of-le (retain (keeps shard now) s.entries),
              ));
        })
]

pub step-Inv : (s : State) (c : Call) → Inv s → Inv (step s c)
unfolding step
step-Inv s (adds id expire_at) v = add_message-Inv s id expire_at v
step-Inv s (delivers id) v = deliver_message-Inv s id v
step-Inv s (updates shard now) v = update-Inv s shard now v

-- Every sequence of calls keeps the invariant: each id stands once, the counter that `len` reads is
-- the number of entries, and `min_expire_at` is the earliest expiry (`u32::MAX` if there is none).
pub run-Inv : (s : State) (cs : List Call) → Inv s → Inv (run s cs)
unfolding run
run-Inv s [] v = v
run-Inv s (c ∷ cs) v = run-Inv (step s c) cs (step-Inv s c v)

pub init-Inv : Inv init
unfolding init min_of
init-Inv = record { unique = tt; counted = omega arith; earliest = refl }
