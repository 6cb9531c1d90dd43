-- ===== src/Bridge/Configurations/Expiry.antt =====
-- What the collection of expired TON configurations removes.
use ton_eth_bridge_relay.Base.{
  ℕ, ◌≤◌, ◌<◌, ◌≡◌, refl, ◌↔◌, true, false, some, [], ◌∷◌, get, retain, any, nat_eq, arith,
  get-retain, Map,
}
use ton_eth_bridge_relay.Shards.{UInt256}
use ton_eth_bridge_relay.Contracts.{TonEventConfigurationDetails}
use ton_eth_bridge_relay.Bridge.Configurations.Monad.{TonEventConfigurationState, Bridge}
use ton_eth_bridge_relay.Bridge.Configurations.Methods.{
  is_expired, alive, collect_expired, has_expired_ton_event_configurations,
}
use ton_eth_bridge_relay.Bridge.Configurations.Invariant.{Inv}

-- A configuration expires strictly after its end; an end of 0 means that it has none.
is_expired_iff :
    (d : TonEventConfigurationDetails) (now : ℕ)
    → (is_expired d now ≡ true) ↔ (
        (1 ≤ d.network_configuration.end_timestamp) × (d.network_configuration.end_timestamp < now))
unfolding is_expired
is_expired_iff d now = ground arith

no_expired :
    (now : ℕ) (m : Map UInt256 TonEventConfigurationState)
    → any (λ x. is_expired x.1.details now) (retain (alive now) m) ≡ false
unfolding retain
no_expired now [] = refl
no_expired now ((a, c) ∷ m) = ground (arith, no_expired now m)

-- A collection at time `now` removes exactly the configurations with an end before `now` (an end of
-- 0 is none): the others stay as they were, and the next test at that time finds nothing to collect.
pub collect_expired_lem :
    (now : ℕ) (b : Bridge)
    → Inv b
    → let after = collect_expired now b in
      (has_expired_ton_event_configurations after.state now ≡ false)
      × ((a : UInt256) (c : TonEventConfigurationState)
          → (get after.ton_event_configurations a ≡ some c) ↔ (
              (get b.ton_event_configurations a ≡ some c)
              × ¬ (
                  (1 ≤ c.details.network_configuration.end_timestamp)
                  × (c.details.network_configuration.end_timestamp < now))))
unfolding collect_expired has_expired_ton_event_configurations
collect_expired_lem now b v = (
  no_expired now b.ton_event_configurations,
  λ a c.
      let found = get-retain (alive now) b.ton_event_configurations a v.ton_unique in
      let ended = is_expired_iff c.details now in
      (λ e. ground (arith, found, ended, e), λ p. ground (arith, found, ended, p.0, p.1)),
)
