-- ===== src/Bridge/Configurations/Changing.antt =====
-- Changing a configuration and dropping the expired ones keep the invariant.
use mathlib.Core.List.{Memᴰ}
use ton_eth_bridge_relay.Base.{
  ℕ, ◌≡◌, sym, subst, ◌⊎◌, inl, inr, Option, none, some, Map, get, adjust, retain, nat_eq, ◌==◌,
  arith, Bool-cases, Option-cases, adjust-Unique, retain-Unique, length-adjust, get-adjust,
  get-retain, length-retain,
}
use ton_eth_bridge_relay.Shards.{UInt256}
use ton_eth_bridge_relay.Contracts.{eth, ton}
use ton_eth_bridge_relay.Bridge.Configurations.Monad.{
  EthEventConfigurationState, TonEventConfigurationState, Bridge,
}
use ton_eth_bridge_relay.Bridge.Configurations.Methods.{
  with_end_block, with_end_timestamp, set_end_block_number, set_end_timestamp, alive, expired,
  collect_expired, gc_round, has_expired_ton_event_configurations,
}
use ton_eth_bridge_relay.Bridge.Configurations.Invariant.{Inv, eth_code, ton_code, eth_topic}
use ton_eth_bridge_relay.Bridge.Configurations.Adding.{Keeps}

-- An entry after a write through `get_mut`.
adjust_cases {ℓ} :
    {V : Type ℓ} (m : Map UInt256 V) (k a : UInt256) (f : V → V) (c : V)
    → get (adjust m k f) a ≡ some c
    → (d : V) × (get m a ≡ some d) × ((c ≡ d) ⊎ (c ≡ f d))
adjust_cases m k a f c e = elim (Option-cases (get m a)) [
  | inl none_there ↦ absurd (ground (arith, none_there, get-adjust m k a f))
  | inr (d, there) ↦ (
    d,
    there,
    elim (Bool-cases (k == a)) [
      | inl same ↦ inr (ground (arith, same, there, get-adjust m k a f))
      | inr other ↦ inl (ground (arith, other, there, get-adjust m k a f))
    ],
  )
]

-- What `with_end_block` and `with_end_timestamp` leave alone.
module _ (end : ℕ) where
  eth_stays {κ} :
      (P : EthEventConfigurationState → Type κ)
      → ((d : EthEventConfigurationState) → P d → P (with_end_block end d))
      → (c d : EthEventConfigurationState) → (c ≡ d) ⊎ (c ≡ with_end_block end d)
      → P d
      → P c
  eth_stays P keep c d (inl e) p = subst P (sym e) p
  eth_stays P keep c d (inr e) p = subst P (sym e) (keep d p)

  ton_stays {κ} :
      (P : TonEventConfigurationState → Type κ)
      → ((d : TonEventConfigurationState) → P d → P (with_end_timestamp end d))
      → (c d : TonEventConfigurationState) → (c ≡ d) ⊎ (c ≡ with_end_timestamp end d)
      → P d
      → P c
  ton_stays P keep c d (inl e) p = subst P (sym e) p
  ton_stays P keep c d (inr e) p = subst P (sym e) (keep d p)

pub set_end_block_number-Inv :
    (account : UInt256) (end : ℕ) → Keeps (set_end_block_number account end)
unfolding set_end_block_number
set_end_block_number-Inv account end b v =
    elim (Option-cases (get b.eth_event_configurations account)) [
      | inl e ↦ rw (e, set_end_block_number) v
      | inr (o, e) ↦
          rw (e, set_end_block_number)
            (record {
              eth_unique =
                  adjust-Unique b.eth_event_configurations account (with_end_block end)
                    v.eth_unique;
              ton_unique = v.ton_unique;
              eth_counted =
                  rw (length-adjust b.eth_event_configurations account (with_end_block end))
                    v.eth_counted;
              ton_counted = v.ton_counted;
              eth_hashed = λ a c g.
                  let (d, there, which) =
                    adjust_cases b.eth_event_configurations account a (with_end_block end) c g in
                  eth_stays end (λ x. get b.event_code_hashes (eth_code x) ≡ some eth) (λ _ p. p) c
                    d which (v.eth_hashed a d there);
              ton_hashed = v.ton_hashed;
              eth_topics = λ a c g.
                  let (d, there, which) =
                    adjust_cases b.eth_event_configurations account a (with_end_block end) c g in
                  eth_stays end (λ x. Memᴰ (eth_topic a x) b.eth_subscriptions) (λ _ p. p) c d which
                    (v.eth_topics a d there);
              eth_heard = λ a c g.
                  let (d, there, which) =
                    adjust_cases b.eth_event_configurations account a (with_end_block end) c g in
                  v.eth_heard a d there;
              ton_heard = v.ton_heard;
            })
    ]

pub set_end_timestamp-Inv : (account : UInt256) (end : ℕ) → Keeps (set_end_timestamp account end)
unfolding set_end_timestamp
set_end_timestamp-Inv account end b v =
    elim (Option-cases (get b.ton_event_configurations account)) [
      | inl e ↦ rw (e, set_end_timestamp) v
      | inr (o, e) ↦
          rw (e, set_end_timestamp)
            (record {
              eth_unique = v.eth_unique;
              ton_unique =
                  adjust-Unique b.ton_event_configurations account (with_end_timestamp end)
                    v.ton_unique;
              eth_counted = v.eth_counted;
              ton_counted =
                  rw (length-adjust b.ton_event_configurations account (with_end_timestamp end))
                    v.ton_counted;
              eth_hashed = v.eth_hashed;
              ton_hashed = λ a c g.
                  let (d, there, which) =
                    adjust_cases b.ton_event_configurations account a (with_end_timestamp end) c
                      g in
                  ton_stays end (λ x. get b.event_code_hashes (ton_code x) ≡ some ton) (λ _ p. p) c
                    d which (v.ton_hashed a d there);
              eth_topics = v.eth_topics;
              eth_heard = v.eth_heard;
              ton_heard = λ a c g.
                  let (d, there, which) =
                    adjust_cases b.ton_event_configurations account a (with_end_timestamp end) c
                      g in
                  v.ton_heard a d there;
            })
    ]

kept_entry :
    (b : Bridge) (now : ℕ) (a : UInt256) (c : TonEventConfigurationState)
    → Inv b
    → get (retain (alive now) b.ton_event_configurations) a ≡ some c
    → get b.ton_event_configurations a ≡ some c
kept_entry b now a c v e =
    ground (arith, get-retain (alive now) b.ton_event_configurations a v.ton_unique)

pub collect_expired-Inv : (now : ℕ) (b : Bridge) → Inv b → Inv (collect_expired now b)
unfolding collect_expired
collect_expired-Inv now b v = record {
  eth_unique = v.eth_unique;
  ton_unique = retain-Unique (alive now) b.ton_event_configurations v.ton_unique;
  eth_counted = v.eth_counted;
  ton_counted =
      omega (arith, v.ton_counted, length-retain (expired now) b.ton_event_configurations);
  eth_hashed = v.eth_hashed;
  ton_hashed = λ a c e. v.ton_hashed a c (kept_entry b now a c v e);
  eth_topics = v.eth_topics;
  eth_heard = v.eth_heard;
  ton_heard = λ a c e. v.ton_heard a c (kept_entry b now a c v e);
}

pub gc_round-Inv : (now : ℕ) (shards : Option ℕ) (b : Bridge) → Inv b → Inv (gc_round now shards b)
unfolding gc_round
gc_round-Inv now none b v = ground arith
gc_round-Inv now (some utime) b v =
    elim (Bool-cases (has_expired_ton_event_configurations b.state now)) [
      | inl some_expired ↦ rw some_expired (collect_expired-Inv utime b v)
      | inr none_expired ↦ rw none_expired v
    ]
