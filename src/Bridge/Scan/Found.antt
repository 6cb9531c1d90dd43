-- ===== src/Bridge/Scan/Found.antt =====
-- src/engine/bridge/mod.rs, `get_all_events`: which events the search makes pending.
use ton_eth_bridge_relay.Base.{
  ◌≡◌, refl, ◌∙◌, inl, inr, Bool, true, false, not, ◌&&◌, ◌||◌, List, [], ◌∷◌, any, ok, ◌==◌,
  if◌then◌else◌, nat_eq, arith, Result-cases,
}
use ton_eth_bridge_relay.Shards.{UInt256}
use ton_eth_bridge_relay.Contracts.{EventType, eth}
use ton_eth_bridge_relay.Bridge.Scan.{
  Reader, read_code_hash, ShardAccount, Known, Pending, visit_account, iterate_events,
  process_shards, get_all_events,
}
use ton_eth_bridge_relay.Bridge.Scan.Visits.{
  is_pending, is_event_of_code, fails_code, is_ok, pending-visit_code, fails-visit_code,
  event-fails_code,
}

module _ {ℓ} {Slice : Type ℓ} (reader : Reader Slice) where
  -- The account has the code of an event of a kind, and its event is open.
  pub is_event : Known → EventType → ShardAccount Slice → Bool
  is_event known kind account =
      is_event_of_code known kind account.read_account (read_code_hash reader account.cell)

  -- The account's code cannot be read, or it is that of an event and the account cannot be read.
  pub fails : Known → ShardAccount Slice → Bool
  fails known account = fails_code known account.read_account (read_code_hash reader account.cell)

  -- The accounts before the first that cannot be read.
  pub reached : Known → List (UInt256 × ShardAccount Slice) → List (UInt256 × ShardAccount Slice)
  reached known [] = []
  reached known ((hash, account) ∷ accounts) =
      if fails known account then [] else (hash, account) ∷ reached known accounts

  abbrev pub is_found : Known → EventType → UInt256 → UInt256 × ShardAccount Slice → Bool
  is_found known kind a x = (x.0 == a) && is_event known kind x.1

  abbrev pub all_read : Known → List (UInt256 × ShardAccount Slice) → Bool
  all_read known [] = true
  all_read known (x ∷ xs) = not (fails known x.1) && all_read known xs

  abbrev pub all_shards_read : Known → List (List (UInt256 × ShardAccount Slice)) → Bool
  all_shards_read known [] = true
  all_shards_read known (xs ∷ shards) = all_read known xs && all_shards_read known shards

  abbrev pub found_in :
      Known → EventType → UInt256 → List (List (UInt256 × ShardAccount Slice)) → Bool
  found_in known kind a [] = false
  found_in known kind a (xs ∷ shards) =
      any (is_found known kind a) (reached known xs) || found_in known kind a shards

  Visited : Known → EventType → UInt256 → UInt256 → ShardAccount Slice → Pending → Type 0
  Visited known kind a hash account p =
      let r = visit_account reader known hash account p in
      (is_pending kind a r.0
        ≡ (is_pending kind a p || ((hash == a) && is_event known kind account)))
      × (is_ok r.1 ≡ not (fails known account))

  visit-Visited :
      (known : Known) (kind : EventType) (a hash : UInt256) (account : ShardAccount Slice)
      (p : Pending)
      → Visited known kind a hash account p
  unfolding visit_account is_event fails Visited
  visit-Visited known kind a hash account p = (
    pending-visit_code known kind hash a account.read_account (read_code_hash reader account.cell)
        p,
    fails-visit_code known hash account.read_account (read_code_hash reader account.cell) p,
  )

  iterate-pending :
      (known : Known) (kind : EventType) (a : UInt256)
      (accounts : List (UInt256 × ShardAccount Slice)) (p : Pending)
      → is_pending kind a (iterate_events reader known accounts p).0
        ≡ (is_pending kind a p || any (is_found known kind a) (reached known accounts))
  unfolding iterate_events reached Visited fails is_event
  iterate-pending known kind a [] p = ground arith
  iterate-pending known kind a ((hash, account) ∷ accounts) p =
      let visited = visit_account reader known hash account p in
      let v = visit-Visited known kind a hash account p in
      elim (Result-cases visited.1) [
        | inr (e, r) ↦
            let f : fails known account ≡ true = ground (arith, r, v.1) in
            rw (r, f, iterate_events, reached)
              (v.0
                ∙ rw
                    (event-fails_code known kind account.read_account
                      (read_code_hash reader account.cell) f)
                    (ground arith))
        | inl (_, r) ↦
            let f : fails known account ≡ false = ground (arith, r, v.1) in
            rw (r, f, iterate_events, reached)
              (iterate-pending known kind a accounts visited.0 ∙ ground (arith, v.0))
      ]

  iterate-read :
      (known : Known) (accounts : List (UInt256 × ShardAccount Slice)) (p : Pending)
      → is_ok (iterate_events reader known accounts p).1 ≡ all_read known accounts
  unfolding iterate_events Visited
  iterate-read known [] p = refl
  iterate-read known ((hash, account) ∷ accounts) p =
      let visited = visit_account reader known hash account p in
      let v = (visit-Visited known eth 0 hash account p).1 in
      elim (Result-cases visited.1) [
        | inr (e, r) ↦ rw (r, iterate_events) (ground (arith, r, v))
        | inl (_, r) ↦
            rw (r, iterate_events) (ground (arith, r, v, iterate-read known accounts visited.0))
      ]

  shards-pending :
      (known : Known) (kind : EventType) (a : UInt256)
      (shards : List (List (UInt256 × ShardAccount Slice))) (p : Pending)
      → is_pending kind a (process_shards reader known shards p).0
        ≡ (is_pending kind a p || found_in known kind a shards)
  unfolding process_shards
  shards-pending known kind a [] p = ground arith
  shards-pending known kind a (accounts ∷ shards) p =
      shards-pending known kind a shards (iterate_events reader known accounts p).0
      ∙ ground (arith, iterate-pending known kind a accounts p)

  shards-read :
      (known : Known) (shards : List (List (UInt256 × ShardAccount Slice))) (p : Pending)
      → is_ok (process_shards reader known shards p).1 ≡ all_shards_read known shards
  unfolding process_shards
  shards-read known [] p = refl
  shards-read known (accounts ∷ shards) p = ground (
    arith,
    iterate-read known accounts p,
    shards-read known shards (iterate_events reader known accounts p).0,
  )

  -- The search for events in all accounts: afterwards an account is a pending event of a kind exactly
  -- if it was one before, or stands before the first unreadable account of its shard, has the code of
  -- an event of that kind, the decision about it is not to remove it, and its configuration is known.
  -- The search succeeds exactly if every account of every shard can be read.
  pub get_all_events_lem :
      (known : Known) (kind : EventType) (a : UInt256)
      (shards : List (List (UInt256 × ShardAccount Slice))) (p : Pending)
      → (is_pending kind a (get_all_events reader known (ok shards) p).0
          ≡ (is_pending kind a p || found_in known kind a shards))
        × (is_ok (get_all_events reader known (ok shards) p).1 ≡ all_shards_read known shards)
  unfolding get_all_events
  get_all_events_lem known kind a shards p =
      (shards-pending known kind a shards p, shards-read known shards p)
