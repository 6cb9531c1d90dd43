-- ===== src/Messages/Expiry.antt =====
-- What each call does to the entries and to the receivers.
use mathlib.Core.List.{Memᴰ}
use ton_eth_bridge_relay.Base.{
  ℕ, ◌≤◌, ◌≡◌, refl, ap, ◌∙◌, ◌↔◌, ◌⊎◌, inl, inr, Bool, true, false, not, ◌&&◌, Option, none, some,
  [], ◌∷◌, get, length, ltb, leb, if◌then◌else◌, u32_max, u64_mod, arith, Option-cases, Bool-cases,
  get-insert, get-remove, get-retain, only_if, ok, min, ◌%◌,
}
use ton_eth_bridge_relay.Shards.{ShardIdent, contains_account}
use ton_eth_bridge_relay.Messages.Invariant.{Inv, min_of, min_of-le, sweep-kept}
use ton_eth_bridge_relay.Messages.Told.{Expires, sent-sweep_iff}
use ton_eth_bridge_relay.Messages.{
  MessageStatus, PendingMessageId, PendingMessage, Entries, Channels, State, delivered, id_beq,
  id_eq, id_beq_iff, keeps, add_message, deliver_message, sweep, update,
}

-- `update` without its early return.
pub update_always : State → ShardIdent → ℕ → State
update_always s shard now =
    let r = sweep shard now u32_max s.channels s.entries in
    record {
      queue = record {
        min_expire_at = r.min_expire_at;
        entries = r.kept;
        entry_count = length r.kept % u64_mod;
      };
      channels = r.channels;
    }

-- Before the earliest expiry nothing is dropped.
sweep_early :
    (shard : ShardIdent) (now acc : ℕ) (c : Channels) (m : Entries)
    → now ≤ min_of m
    → acc ≤ u32_max
    → sweep shard now acc c m
      ≡ record { min_expire_at = min acc (min_of m); kept = m; channels = c }
unfolding sweep min_of
sweep_early shard now acc c [] h k = ground arith
sweep_early shard now acc c ((id, item) ∷ m) h k =
    let stay : keeps shard now id item ≡ true = ground arith in
    rw (stay, sweep)
      (rw
        (sweep_early shard now (if ltb item.expire_at acc then item.expire_at else acc) c m
          (omega arith) (ground arith))
        (ground arith))

-- The early return of `update`, which reads `min_expire_at` alone, only skips work: under the
-- invariant the result is that of the full sweep over the entries.
pub update-eq-always :
    (s : State) (shard : ShardIdent) (now : ℕ)
    → Inv s
    → update s shard now ≡ update_always s shard now
unfolding update update_always
update-eq-always s shard now v = elim (Bool-cases (leb now s.min_expire_at)) [
  | inl early ↦
      let same =
        sweep_early shard now u32_max s.channels s.entries (ground (arith, v.earliest))
          (omega arith) in
      rw (early, update, same) (ground (arith, v.earliest, v.counted, min_of-le s.entries))
  | inr late ↦ rw (late, update)
]

-- The message did not expire before `now`, or its account is not in the shard.
abbrev pub outlives : ShardIdent → ℕ → PendingMessageId → PendingMessage → Bool
outlives shard now id v = not (contains_account shard id.account && ltb v.expire_at now)

only_if-outlives :
    (shard : ShardIdent) (now : ℕ) (id : PendingMessageId) (o : Option PendingMessage)
    → only_if (keeps shard now id) o ≡ only_if (outlives shard now id) o
only_if-outlives shard now id none = refl
only_if-outlives shard now id (some v) = ground arith

-- The entry of an id after `update`.
pub entry-update :
    (s : State) (shard : ShardIdent) (now : ℕ) (id : PendingMessageId)
    → Inv s
    → get (update s shard now).entries id ≡ only_if (outlives shard now id) (get s.entries id)
unfolding update_always
entry-update s shard now id v =
    rw
      (
        update-eq-always s shard now v,
        update_always,
        sweep-kept shard now u32_max s.channels s.entries,
      )
      (get-retain (keeps shard now) s.entries id v.unique
        ∙ only_if-outlives shard now id (get s.entries id))

only_if-some :
    (shard : ShardIdent) (now : ℕ) (id : PendingMessageId) (o : Option PendingMessage)
    (v : PendingMessage)
    → (only_if (outlives shard now id) o ≡ some v)
      ↔ ((o ≡ some v) × ((now ≤ v.expire_at) ⊎ (contains_account shard id.account ≡ false)))
only_if-some shard now id none v = (λ h. absurd (cc h), λ h. absurd (cc h.0))
only_if-some shard now id (some w) v = elim (Bool-cases (contains_account shard id.account)) [
  | inr out ↦ (λ h. (ground (arith, h, out), inr out), λ h. ground (arith, h.0, out))
  | inl in_shard ↦ elim (Bool-cases (ltb w.expire_at now)) [
    | inl late ↦ (
      λ h. absurd (ground (arith, h, in_shard, late)),
      λ h. absurd (ground (arith, h, in_shard, late)),
    )
    | inr early ↦ (
      λ h.
          let same : w ≡ v = ground (arith, h, in_shard, early) in
          (ap some same, inl (ground (arith, same, early))),
      λ h. ground (arith, h.0, in_shard, early),
    )
  ]
]

-- After `update` at time `now` an id has an entry exactly if it had the same entry before, and that
-- message did not expire before `now` or its account is not in the shard; and a status stands among
-- those that were sent exactly if it was sent before, or it is `Expired` for the receiver of an entry
-- of the shard that expired before `now`.
pub get-update :
    (s : State) (shard : ShardIdent) (now : ℕ) (id : PendingMessageId) (v : PendingMessage)
    (x : ℕ × MessageStatus)
    → Inv s
    → ((get (update s shard now).entries id ≡ some v) ↔ (
        (get s.entries id ≡ some v)
        × ((now ≤ v.expire_at) ⊎ (contains_account shard id.account ≡ false))))
      × (Memᴰ x (update s shard now).sent ↔ (Memᴰ x s.sent ⊎ Expires shard now s.entries x))
unfolding update_always
get-update s shard now id v x inv = (
  rw (entry-update s shard now id inv) (only_if-some shard now id (get s.entries id) v),
  rw (update-eq-always s shard now inv, update_always)
      (sent-sweep_iff shard now u32_max s.channels s.entries x inv.unique),
)

module _ (s : State) (id : PendingMessageId) (expire_at : ℕ) (new : get s.entries id ≡ none) where
  added : State
  added = (add_message s id expire_at).0

  entry : PendingMessage
  entry = record { tx = some s.next; expire_at = expire_at }

  get-added :
      (j : PendingMessageId)
      → get added.entries j ≡ (if id_beq id j then some entry else get s.entries j)
  unfolding added add_message entry
  get-added j = rw (new, added, add_message) (get-insert s.entries id j entry)

  deliver_added :
      ((deliver_message added id).sent ≡ (s.next, delivered) ∷ s.sent)
      × ((j : PendingMessageId) → get (deliver_message added id).entries j ≡ get s.entries j)
  unfolding deliver_message entry
  deliver_added =
      let here : get added.entries id ≡ some entry =
        ground (arith, get-added id, (id_beq_iff id id).1 refl) in
      (
        rw (here, deliver_message) (unfold added add_message in rw (new, added, add_message)),
        λ j.
            rw (here, deliver_message)
              (ground (arith, get-remove added.entries id j, get-added j, id_beq_iff id j, new)),
      )

-- A message that was added and then delivered: its own receiver is sent `Delivered`, nothing else is
-- sent, and every id has the entry that it had before.
pub deliver-add :
    (s t : State) (id : PendingMessageId) (expire_at rx : ℕ)
    → add_message s id expire_at ≡ (t, ok rx)
    → ((deliver_message t id).sent ≡ (rx, delivered) ∷ s.sent)
      × ((j : PendingMessageId) → get (deliver_message t id).entries j ≡ get s.entries j)
unfolding add_message added
deliver-add s t id expire_at rx h = elim (Option-cases (get s.entries id)) [
  | inr (m, e) ↦ absurd (ground (arith, e))
  | inl e ↦
      let same : added s id expire_at e ≡ t = ground (arith, e) in
      let number : s.next ≡ rx = ground (arith, e) in
      rw (← same, ← number) (deliver_added s id expire_at e)
]
