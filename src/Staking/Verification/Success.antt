-- ===== src/Staking/Verification/Success.antt =====
-- When the confirmation of the relay's keys succeeds.
use ton_eth_bridge_relay.Base.{
  ℕ, ◌≡◌, refl, ◌∙◌, ap, inl, inr, Bool, true, false, ◌&&◌, ◌||◌, Option, none, some, List, [], ◌∷◌,
  ok, err, any, ◌==◌, arith, Bool-cases,
}
use ton_eth_bridge_relay.Errors.{Fallible}
use ton_eth_bridge_relay.Engine.{deliver_message}
use ton_eth_bridge_relay.Contracts.{UserDataDetails}
use ton_eth_bridge_relay.EthSubscriber.Registry.{EthSubscriberRegistry, get_subscriber}
use ton_eth_bridge_relay.EthSubscriber.Verification.{verify_relay_staker_address}
use ton_eth_bridge_relay.Staking.Events.{
  UserDataEvent, relay_keys_updated, ton_pubkey_confirmed, eth_address_confirmed,
  relay_membership_requested, deposit_processed,
}
use ton_eth_bridge_relay.Staking.Verification.{
  Keys, Confirmed, on_event, on_events, check_keys, World, Meets, Outcome, of_delivery, confirm_ton,
  confirm_eth, join, and_then, confirm, ensure_verified,
}

abbrev pub succeeded : Option (Fallible (Unit {0})) → Bool
succeeded none = false
succeeded (some (err e)) = false
succeeded (some (ok _)) = true

-- The events that confirm the relay's own keys.
abbrev pub confirms_ton : Keys → UserDataEvent → Bool
confirms_ton keys (ton_pubkey_confirmed event) = event.ton_pubkey == keys.ton_public_key
confirms_ton keys _ = false

abbrev pub confirms_eth : Keys → UserDataEvent → Bool
confirms_eth keys (eth_address_confirmed event) = event.eth_addr == keys.eth_address
confirms_eth keys _ = false

on_events-ton :
    (keys : Keys) (events : List UserDataEvent) (c : Confirmed)
    → (on_events keys events c).ton ≡ (c.ton || any (confirms_ton keys) events)
unfolding on_events on_event
on_events-ton keys [] c = ground arith
on_events-ton keys (relay_keys_updated event ∷ events) c = on_events-ton keys events c
on_events-ton keys (ton_pubkey_confirmed event ∷ events) c =
    on_events-ton keys events (on_event keys (ton_pubkey_confirmed event) c) ∙ ground arith
on_events-ton keys (eth_address_confirmed event ∷ events) c =
    on_events-ton keys events (on_event keys (eth_address_confirmed event) c) ∙ ground arith
on_events-ton keys (relay_membership_requested event ∷ events) c = on_events-ton keys events c
on_events-ton keys (deposit_processed event ∷ events) c = on_events-ton keys events c

on_events-eth :
    (keys : Keys) (events : List UserDataEvent) (c : Confirmed)
    → (on_events keys events c).eth ≡ (c.eth || any (confirms_eth keys) events)
unfolding on_events on_event
on_events-eth keys [] c = ground arith
on_events-eth keys (relay_keys_updated event ∷ events) c = on_events-eth keys events c
on_events-eth keys (ton_pubkey_confirmed event ∷ events) c =
    on_events-eth keys events (on_event keys (ton_pubkey_confirmed event) c) ∙ ground arith
on_events-eth keys (eth_address_confirmed event ∷ events) c =
    on_events-eth keys events (on_event keys (eth_address_confirmed event) c) ∙ ground arith
on_events-eth keys (relay_membership_requested event ∷ events) c = on_events-eth keys events c
on_events-eth keys (deposit_processed event ∷ events) c = on_events-eth keys events c

module _ (keys : Keys) (details : UserDataDetails) (m : Meets) where
  -- The keys of the contract are those of the relay.
  abbrev pub own_keys : Bool
  own_keys =
      (details.relay_eth_address == keys.eth_address)
      && (details.relay_ton_pubkey == keys.ton_public_key)

  -- The key is confirmed in the contract at first, or by an event.
  abbrev pub ton_seen : Bool
  ton_seen = details.ton_pubkey_confirmed || any (confirms_ton keys) m.events

  abbrev pub eth_seen : Bool
  eth_seen = details.eth_address_confirmed || any (confirms_eth keys) m.events

  join-seen : succeeded (join keys details m) ≡ (ton_seen && eth_seen)
  unfolding join
  join-seen =
      let first : Confirmed = record {
        ton = details.ton_pubkey_confirmed;
        eth = details.eth_address_confirmed;
      } in
      rw (on_events-ton keys m.events first, on_events-eth keys m.events first) (ground arith)

  -- The message that confirms the key on TON is not needed, or its sending ends without an error.
  abbrev pub ton_asked : World → Bool
  ton_asked w =
      details.ton_pubkey_confirmed || succeeded (of_delivery (deliver_message m.attempts w.queue).1)

  -- The transaction on the EVM chain is not needed, or the chain has a subscriber and the verification
  -- succeeds.
  abbrev pub has_subscriber : EthSubscriberRegistry → ℕ → Bool
  has_subscriber registry chain_id = elim (get_subscriber registry chain_id) [
    | none ↦ false
    | some _ ↦ true
  ]

  abbrev pub eth_asked : EthSubscriberRegistry → ℕ → World → Bool
  eth_asked registry chain_id w =
      details.eth_address_confirmed
      || (has_subscriber registry chain_id
          && succeeded
              (verify_relay_staker_address m.answers keys.min_balance_gwei keys.eth_address
                w.files).1)

  confirm_ton-asked :
      (w : World)
      → (succeeded (confirm_ton details m w).1 ≡ ton_asked w)
        × ((confirm_ton details m w).0.files ≡ w.files)
  unfolding confirm_ton
  confirm_ton-asked w = ground arith

  confirm_eth-asked :
      (registry : EthSubscriberRegistry) (chain_id : ℕ) (w : World)
      → succeeded (confirm_eth keys registry chain_id details m w).1 ≡ eth_asked registry chain_id w
  unfolding confirm_eth
  confirm_eth-asked registry chain_id w = ground arith

  and_then-succeeded :
      (o : Outcome) (next : World → Outcome)
      → succeeded (and_then o next).1 ≡ (succeeded o.1 && succeeded (next o.0).1)
  and_then-succeeded (w, none) next = refl
  and_then-succeeded (w, some (err e)) next = refl
  and_then-succeeded (w, some (ok _)) next = refl

  confirm-succeeded :
      (registry : EthSubscriberRegistry) (chain_id : ℕ) (w : World)
      → succeeded (confirm keys registry chain_id details m w).1
        ≡ (ton_asked w && (eth_asked registry chain_id w && (ton_seen && eth_seen)))
  unfolding confirm
  confirm-succeeded registry chain_id w =
      let next_eth : World → Outcome = λ w''. (w'', join keys details m) in
      let asked = confirm_ton-asked w in
      let w' = (confirm_ton details m w).0 in
      let same : eth_asked registry chain_id w' ≡ eth_asked registry chain_id w =
        ap
          (λ files.
            details.eth_address_confirmed
            || (has_subscriber registry chain_id
                && succeeded
                    (verify_relay_staker_address m.answers keys.min_balance_gwei keys.eth_address
                      files).1))
          asked.1 in
      and_then-succeeded (confirm_ton details m w)
        (λ w'. and_then (confirm_eth keys registry chain_id details m w') next_eth)
      ∙ rw
          (
            asked.0,
            and_then-succeeded (confirm_eth keys registry chain_id details m w') next_eth,
            confirm_eth-asked registry chain_id w',
            same,
            join-seen,
          )
          refl

  -- With the details of the user data contract the confirmation of the relay's keys succeeds exactly
  -- if both keys are the relay's own, what has to be sent for each is sent without an error, and each
  -- key is confirmed at first or by an event while the call waits.
  pub ensure_verified_lem :
      (registry : EthSubscriberRegistry) (chain_id : ℕ) (w : World)
      → succeeded (ensure_verified keys registry chain_id (ok details) m w).1
        ≡ (own_keys && (ton_asked w && (eth_asked registry chain_id w && (ton_seen && eth_seen))))
  unfolding ensure_verified check_keys
  ensure_verified_lem registry chain_id w =
      elim (Bool-cases (details.relay_eth_address == keys.eth_address)) [
        | inr other ↦ rw (other, ensure_verified, check_keys) refl
        | inl same ↦ elim (Bool-cases (details.relay_ton_pubkey == keys.ton_public_key)) [
          | inr other ↦ rw (same, other, ensure_verified, check_keys) refl
          | inl same' ↦
              rw (same, same', ensure_verified, check_keys) (confirm-succeeded registry chain_id w)
        ]
      ]
