-- ===== src/Messages.antt =====
-- src/utils/pending_messages_queue.rs: the messages that were sent to the network and wait for their
-- delivery or their expiry. A `oneshot` channel is a number; `Channels` holds the next number and
-- what was sent, the last first. Each method runs under the lock of `entries`, so it is one step.
pub mod Invariant
pub mod Notification
pub mod Told
pub mod Expiry
mod Examples
use ton_eth_bridge_relay.Base.{
  ℕ, suc, ◌%◌, ◌≡◌, ◌↔◌, Bool, true, ◌&&◌, ◌||◌, not, Option, none, some, List, [], ◌∷◌, Map, get,
  insert, remove, length, ltb, leb, ◌==◌, ==_iff, if◌then◌else◌, Eq, Result, ok, err, u32_max,
  u64_mod, inc, dec, min, arith,
}
use ton_eth_bridge_relay.Shards.{UInt256, ShardIdent, contains_account}

pub data MessageStatus : Type 0 where
  delivered expired : MessageStatus

pub record PendingMessageId : Type 0 where
  pub account : UInt256
  pub message_hash : UInt256

abbrev pub id_beq : PendingMessageId → PendingMessageId → Bool
id_beq a b = (a.account == b.account) && (a.message_hash == b.message_hash)

pub id_beq_iff : (a b : PendingMessageId) → (id_beq a b ≡ true) ↔ (a ≡ b)
id_beq_iff a b = ground arith

instance abbrev pub id_eq : Eq PendingMessageId
id_eq = record { beq = id_beq; beq_iff = id_beq_iff }

pub record PendingMessage : Type 0 where
  pub tx : Option ℕ
  pub expire_at : ℕ

abbrev pub Entries : Type 0
Entries = Map PendingMessageId PendingMessage

pub record PendingMessagesQueue : Type 0 where
  pub min_expire_at : ℕ
  pub entries : Entries
  pub entry_count : ℕ

pub record Channels : Type 0 where
  pub next : ℕ
  pub sent : List (ℕ × MessageStatus)

pub record State : Type 0 where
  pub queue : PendingMessagesQueue
  pub open queue use *
  pub channels : Channels
  pub open channels use *

pub data PendingMessagesQueueError : Type 0 where
  already_exists : PendingMessagesQueueError

unfoldable pub new : PendingMessagesQueue
new = record { min_expire_at = u32_max; entries = []; entry_count = 0 }

-- `if let Some(tx) = message.tx.take() { tx.send(status).ok() }`.
abbrev pub notify : Option ℕ → MessageStatus → Channels → Channels
notify none status c = c
notify (some tx) status c = record c { sent = (tx, status) ∷ c.sent }

-- A new channel: its number is the receiver.
unfoldable pub add_message :
    State → PendingMessageId → ℕ → State × Result PendingMessagesQueueError ℕ
add_message s id expire_at = elim (get s.entries id) [
  | some _ ↦ (s, err already_exists)
  | none ↦ (
    record {
      queue = record {
        min_expire_at = min s.min_expire_at expire_at;
        entries = insert s.entries id (record { tx = some s.next; expire_at = expire_at });
        entry_count = inc s.entry_count;
      };
      channels = record { next = suc s.next; sent = s.sent };
    },
    ok s.next,
  )
]

-- `entries.iter().for_each(…)` in `deliver_message`.
unfoldable pub min_loop : ℕ → Entries → ℕ
min_loop acc [] = acc
min_loop acc ((id, item) ∷ m) = min_loop (if ltb item.expire_at acc then item.expire_at else acc) m

unfoldable pub deliver_message : State → PendingMessageId → State
unfolding min_loop
deliver_message s id = elim (get s.entries id) [
  | none ↦ s
  | some message ↦
      let entries = remove s.entries id in
      record {
        queue = record {
          min_expire_at =
              if s.min_expire_at == message.expire_at
              then min_loop u32_max entries
              else s.min_expire_at;
          entries = entries;
          entry_count = dec s.entry_count;
        };
        channels = notify message.tx delivered s.channels;
      }
]

-- The test of the closure that `update` gives to `retain`.
abbrev pub keeps : ShardIdent → ℕ → PendingMessageId → PendingMessage → Bool
keeps shard now id item = leb now item.expire_at || not (contains_account shard id.account)

pub record Sweep : Type 0 where
  pub min_expire_at : ℕ
  pub kept : Entries
  pub channels : Channels

abbrev pub keep_entry : PendingMessageId → PendingMessage → Sweep → Sweep
keep_entry id item r = record r { kept = (id, item) ∷ r.kept }

-- The `retain` of `update`: its closure lowers `min_expire_at` and notifies the receivers.
unfoldable pub sweep : ShardIdent → ℕ → ℕ → Channels → Entries → Sweep
sweep shard now acc c [] = record { min_expire_at = acc; kept = []; channels = c }
sweep shard now acc c ((id, item) ∷ m) =
    let stay =
      keep_entry id item
        (sweep shard now (if ltb item.expire_at acc then item.expire_at else acc) c m) in
    let drop = sweep shard now acc (notify item.tx expired c) m in
    if keeps shard now id item then stay else drop

unfoldable pub update : State → ShardIdent → ℕ → State
unfolding sweep
update s shard now =
    if leb now s.min_expire_at
    then s
    else (let r = sweep shard now u32_max s.channels s.entries in
        record {
          queue = record {
            min_expire_at = r.min_expire_at;
            entries = r.kept;
            entry_count = length r.kept % u64_mod;
          };
          channels = r.channels;
        })

pub data Call : Type 0 where
  adds : PendingMessageId → ℕ → Call
  delivers : PendingMessageId → Call
  updates : ShardIdent → ℕ → Call

unfoldable pub step : State → Call → State
step s (adds id expire_at) = (add_message s id expire_at).0
step s (delivers id) = deliver_message s id
step s (updates shard now) = update s shard now

unfoldable pub run : State → List Call → State
run s [] = s
run s (c ∷ cs) = run (step s c) cs

unfoldable pub init : State
unfolding new
init = record { queue = new; channels = record { next = 0; sent = [] } }
