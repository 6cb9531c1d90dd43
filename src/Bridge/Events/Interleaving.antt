-- ===== src/Bridge/Events/Interleaving.antt =====
-- The counter of pending events against the map, when threads stop between the two parts of a method.
use ton_eth_bridge_relay.Base.{
  ℕ, suc, ◌+◌, ◌-◌, ◌%◌, ◌≡◌, inl, inr, false, none, some, Unique, get, insert, length, u64_mod,
  if◌then◌else◌, arith, nat_eq, Option-cases, insert-Unique, remove-Unique, adjust-Unique,
  length-insert_new, length-remove, length-adjust, refl, ◌∙◌, get-insert, ==_refl,
}
use ton_eth_bridge_relay.Shards.{UInt256}
use ton_eth_bridge_relay.Bridge.Events.{
  EventsState, PendingEventState, new, enter, leave, count_add, count_sub, start_processing, start,
}

-- `entered` threads have put an event into the map and not counted it yet; `left` threads have taken
-- one out and not counted that yet.
pub record Threads : Type 0 where
  pub state : EventsState
  pub open state use *
  pub entered : ℕ
  pub left : ℕ

unfoldable pub enters : Threads → UInt256 → Threads
unfolding enter
enters t account =
    let (s, new_event) = enter t.state account in
    record t { state = s; entered = if new_event then suc t.entered else t.entered }

unfoldable pub leaves : Threads → UInt256 → Threads
unfolding leave
leaves t account =
    let (s, removed) = leave t.state account in
    record t { state = s; left = if removed then suc t.left else t.left }

pub data Step : Threads → Threads → Type 0 where
  enter_step : (t : Threads) (account : UInt256) → Step t (enters t account)
  add_step :
      (t : Threads) (n : ℕ)
      → t.entered ≡ suc n
      → Step t (record t { state = count_add t.state; entered = n })
  leave_step : (t : Threads) (account : UInt256) → Step t (leaves t account)
  sub_step :
      (t : Threads) (n : ℕ)
      → t.left ≡ suc n
      → Step t (record t { state = count_sub t.state; left = n })
  start_step :
      (t : Threads) (account : UInt256)
      → Step t (record t { state = (start_processing t.state account).0 })

pub data Reach (s : Threads) : Threads → Type 0 where
  here : Reach s s
  next : {t u : Threads} → Reach s t → Step t u → Reach s u

abbrev pub idle : EventsState → Threads
idle s = record { state = s; entered = 0; left = 0 }

pub record Balanced (t : Threads) : Type 0 where
  pub unique : Unique t.pending
  pub counted : (t.count + t.entered) % u64_mod ≡ (length t.pending + t.left) % u64_mod

enters-Balanced : (t : Threads) (account : UInt256) → Balanced t → Balanced (enters t account)
unfolding enters
enters-Balanced t account b = elim (Option-cases (get t.pending account)) [
  | inl e ↦
      rw (e, enters, enter)
        (record {
          unique = insert-Unique t.pending account _ b.unique;
          counted = omega (
            arith,
            b.counted,
            length-insert_new t.pending account (record { processing_started = false }) e,
          );
        })
  | inr (v, e) ↦ rw (e, enters, enter) b
]

leaves-Balanced : (t : Threads) (account : UInt256) → Balanced t → Balanced (leaves t account)
unfolding leaves
leaves-Balanced t account b = elim (Option-cases (get t.pending account)) [
  | inl e ↦ rw (e, leaves, leave) b
  | inr (v, e) ↦
      rw (e, leaves, leave)
        (record {
          unique = remove-Unique t.pending account b.unique;
          counted = omega (arith, b.counted, length-remove t.pending account v b.unique e);
        })
]

starts-Balanced :
    (t : Threads) (account : UInt256)
    → Balanced t
    → Balanced (record t { state = (start_processing t.state account).0 })
unfolding start_processing
starts-Balanced t account b = elim (Option-cases (get t.pending account)) [
  | inl e ↦ rw (e, start_processing) b
  | inr (v, e) ↦
      rw (e, start_processing)
        (record {
          unique = adjust-Unique t.pending account start b.unique;
          counted = rw (length-adjust t.pending account start) b.counted;
        })
]

Step-Balanced : {t u : Threads} → Step t u → Balanced t → Balanced u
Step-Balanced (enter_step t account) b = enters-Balanced t account b
Step-Balanced (add_step t n e) b = record {
  unique = b.unique;
  counted = omega (arith, b.counted, e);
}
Step-Balanced (leave_step t account) b = leaves-Balanced t account b
Step-Balanced (sub_step t n e) b = record {
  unique = b.unique;
  counted = omega (arith, b.counted, e);
}
Step-Balanced (start_step t account) b = starts-Balanced t account b

pub Reach-Balanced : {s t : Threads} → Balanced s → Reach s t → Balanced t
Reach-Balanced b here = b
Reach-Balanced b (next r st) = Step-Balanced st (Reach-Balanced b r)

new-Balanced : Balanced (idle new)
unfolding new
new-Balanced = record { unique = tt; counted = omega arith }

-- However the threads interleave, the counter and the threads that are still to count balance the
-- map, modulo 2^64; so when no thread is between its two parts, the counter is the number of pending
-- events.
pub quiescent_count :
    {t : Threads}
    → Reach (idle new) t
    → Unique t.pending
      × ((t.count + t.entered) % u64_mod ≡ (length t.pending + t.left) % u64_mod)
      × (t.entered ≡ 0 → t.left ≡ 0 → t.count % u64_mod ≡ length t.pending % u64_mod)
quiescent_count r =
    let b = Reach-Balanced new-Balanced r in (b.unique, b.counted, λ e l. omega (arith, b.counted))

-- Between the parts it need not be: if a thread adds an event while the counter is 0 and another
-- removes the event and counts that first, the counter reads `usize::MAX` until the first one counts.
pub count_wraps :
    (s : EventsState) (account : UInt256)
    → get s.pending account ≡ none
    → s.count ≡ 0
    → let t = leaves (enters (idle s) account) account in
      (t.entered ≡ 1) × (t.left ≡ 1) × ((count_sub t.state).count ≡ u64_mod - 1)
unfolding enters leaves
count_wraps s account e z =
    let event : PendingEventState = record { processing_started = false } in
    let there : get (insert s.pending account event) account ≡ some event =
      get-insert s.pending account account event ∙ rw (==_refl account) in
    rw (e, enters, enter) (rw (there, leaves, leave) (refl, refl, ground (arith, z)))
