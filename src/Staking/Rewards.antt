-- ===== src/Staking/Rewards.antt =====
-- src/engine/staking/mod.rs, `collect_all_unclaimed_reward` and the delay of a reward.
use mathlib.Core.List.{Memᴰ}
use mathlib.Core.List.Memᴰ
use ton_eth_bridge_relay.Base.{
  ℕ, zero, suc, ◌+◌, ◌-◌, ◌≤◌, ◌<◌, ◌≡◌, refl, ap, sym, ◌↔◌, ◌⊎◌, inl, inr, Bool, true, false,
  Option, none, some, List, [], ◌∷◌, ok, err, if◌then◌else◌, arith, Result-cases, Bool-cases, ◌==◌,
}
use ton_eth_bridge_relay.Errors.{Error, Fallible}
use ton_eth_bridge_relay.Shards.{UInt256}
use ton_eth_bridge_relay.Contracts.{RelayRoundsDetails}
use ton_eth_bridge_relay.Contracts.Views.{StakingContract, RelayRoundContract}

-- A failed check counts as unclaimed.
abbrev pub may_collect : Fallible Bool → Bool
may_collect (ok unclaimed) = unclaimed
may_collect (err e) = true

-- The end of a round whose reward is to be collected.
unfoldable pub end_to_collect : UInt256 → Fallible (Option RelayRoundContract) → Option ℕ
end_to_collect staker (err e) = none
end_to_collect staker (ok none) = none
end_to_collect staker (ok (some round)) =
    if may_collect (round.has_unclaimed_reward staker)
    then (elim round.end_time [ ok end ↦ some end | err e ↦ none ])
    else none

-- A spawned `get_reward_for_relay_round`: the round and its end.
abbrev pub Rewards : Type 0
Rewards = List (ℕ × ℕ)

abbrev pub spawn_if : ℕ → Option ℕ → Rewards → Rewards
spawn_if round none rest = rest
spawn_if round (some end) rest = (round, end) ∷ rest

-- The parameters: the relay's staker, the staking contract and the accounts of the relay rounds.
module _ (staker : UInt256) (contract : StakingContract)
    (find_account : UInt256 → Fallible (Option RelayRoundContract)) where
  -- `(oldest..=current).rev()`: `n` rounds are left, of which `oldest + n - 1` is the next. An address that
  -- cannot be computed ends the loop; what was spawned before goes on.
  unfoldable pub collect_loop : ℕ → ℕ → Rewards × Fallible (Unit {0})
  unfolding end_to_collect
  collect_loop oldest zero = ([], ok tt)
  collect_loop oldest (suc n) =
      let (rest, result) = collect_loop oldest n in
      elim (contract.get_relay_round_address (oldest + n)) [
        | err e ↦ ([], err e)
        | ok address ↦
            (spawn_if (oldest + n) (end_to_collect staker (find_account address)) rest, result)
      ]

  -- `current_round.saturating_sub(2)..=current_round`.
  unfoldable pub collect_all_unclaimed_reward : Rewards × Fallible (Unit {0})
  unfolding collect_loop
  collect_all_unclaimed_reward = elim contract.get_relay_rounds_details [
    | err e ↦ ([], err e)
    | ok rounds ↦
        (let current = rounds.current_relay_round in
          let oldest = current - 2 in collect_loop oldest (suc (current - oldest)))
  ]

  abbrev pub current_round : Fallible ℕ
  current_round = elim contract.get_relay_rounds_details [
    | ok rounds ↦ ok rounds.current_relay_round
    | err e ↦ err e
  ]

  -- The contract of a round is found, it does not say that nothing is unclaimed (the check says that
  -- something is, or fails), and it gives the end of the round.
  pub record Unclaimed (found : Fallible (Option RelayRoundContract)) (end : ℕ) : Type 0 where
    pub round : RelayRoundContract
    pub is_found : found ≡ ok (some round)
    pub check :
        (round.has_unclaimed_reward staker ≡ ok true)
        ⊎ ((e : Error) × (round.has_unclaimed_reward staker ≡ err e))
    pub ends : round.end_time ≡ ok end

  -- The reward of a round is to be collected at its end.
  pub record Collectable (p : ℕ × ℕ) : Type 0 where
    pub address : UInt256
    pub at : contract.get_relay_round_address p.0 ≡ ok address
    pub unclaimed : Unclaimed (find_account address) p.1

  end_of :
      (r : RelayRoundContract) (end : ℕ)
      → end_to_collect staker (ok (some r)) ≡ some end
      → r.end_time ≡ ok end
  unfolding end_to_collect
  end_of r end h = elim (Result-cases r.end_time) [
    | inr (e, bad) ↦ absurd (ground (arith, bad, h))
    | inl (t, ends) ↦ ground (arith, ends, h)
  ]

  Unclaimed-of_some :
      (found : Fallible (Option RelayRoundContract)) (end : ℕ)
      → end_to_collect staker found ≡ some end
      → Unclaimed found end
  unfolding end_to_collect
  Unclaimed-of_some (err e) end h = absurd (cc h)
  Unclaimed-of_some (ok none) end h = absurd (cc h)
  Unclaimed-of_some (ok (some r)) end h = elim (Result-cases (r.has_unclaimed_reward staker)) [
    | inl (true, says) ↦ record {
      round = r;
      is_found = refl;
      check = inl says;
      ends = end_of r end h;
    }
    | inl (false, denies) ↦ absurd (ground (arith, denies, h))
    | inr (e, failed) ↦ record {
      round = r;
      is_found = refl;
      check = inr (e, failed);
      ends = end_of r end h;
    }
  ]

  some_of_Unclaimed :
      (found : Fallible (Option RelayRoundContract)) (end : ℕ)
      → Unclaimed found end
      → end_to_collect staker found ≡ some end
  unfolding end_to_collect
  some_of_Unclaimed found end u = elim u.check [
    | inl says ↦ rw (u.is_found, end_to_collect) (ground (arith, says, u.ends))
    | inr (e, failed) ↦ rw (u.is_found, end_to_collect) (ground (arith, failed, u.ends))
  ]

  spawn_if_iff :
      (round : ℕ) (o : Option ℕ) (rest : Rewards) (p : ℕ × ℕ)
      → Memᴰ p (spawn_if round o rest) ↔ (((p.0 ≡ round) × (o ≡ some p.1)) ⊎ Memᴰ p rest)
  spawn_if_iff round none rest p =
      (inr, λ h. elim h [ inl new ↦ absurd (cc new.1) | inr old ↦ old ])
  spawn_if_iff round (some end) rest p = (
    λ h. elim h [
      | Memᴰ.head q ↦ inl (ap (λ x. x.0) q, ap some (sym (ap (λ x. x.1) q)))
      | Memᴰ.tail old ↦ inr old
    ],
    λ h. elim h [ inl new ↦ Memᴰ.head (ground (arith, new.0, new.1)) | inr old ↦ Memᴰ.tail old ],
  )

  ends_at :
      (r : ℕ) (address : UInt256) (p : ℕ × ℕ)
      → contract.get_relay_round_address r ≡ ok address
      → p.0 ≡ r
      → Collectable p
      → end_to_collect staker (find_account address) ≡ some p.1
  ends_at r address p at same c =
      let one : address ≡ c.address = ground (arith, at, c.at, same) in
      rw one (some_of_Unclaimed (find_account c.address) p.1 c.unclaimed)

  collect_loop_lem :
      (oldest n : ℕ) (p : ℕ × ℕ)
      → ((r : ℕ) → (a : UInt256) × (contract.get_relay_round_address r ≡ ok a))
      → Memᴰ p (collect_loop oldest n).0 ↔ ((oldest ≤ p.0) × (p.0 < oldest + n) × Collectable p)
  unfolding collect_loop
  collect_loop_lem oldest zero p known =
      (λ h. absurd (Memᴰ.not-nil h), λ h. absurd (omega (arith, h.0, h.1)))
  collect_loop_lem oldest (suc n) p known =
      let (address, at) = known (oldest + n) in
      let rest = collect_loop_lem oldest n p known in
      let here =
        spawn_if_iff (oldest + n) (end_to_collect staker (find_account address))
          (collect_loop oldest n).0 p in
      rw (at, collect_loop)
        (
          λ h. elim (here.0 h) [
            | inl new ↦ (
              omega (arith, new.0),
              omega (arith, new.0),
              record {
                address = address;
                at = rw new.0 at;
                unclaimed = Unclaimed-of_some (find_account address) p.1 new.1;
              },
            )
            | inr old ↦ (let older = rest.0 old in (older.0, omega (arith, older.1), older.2))
          ],
          λ h. here.1 (elim (Bool-cases (p.0 == oldest + n)) [
            | inl e ↦
                (let last : p.0 ≡ oldest + n = ground (arith, e) in
                  inl (last, ends_at (oldest + n) address p at last h.2))
            | inr e ↦ inr (rest.1 (h.0, ground (arith, e, h.1), h.2))
          ]),
        )

  -- When every address can be computed, the rewards that are collected at the start are exactly those of
  -- the current round and the two before it whose contract is found, has an end, and does not say that
  -- nothing is unclaimed (a failed check counts as unclaimed).
  pub collect_all_unclaimed_reward_lem :
      (current : ℕ) (p : ℕ × ℕ)
      → ((r : ℕ) → (a : UInt256) × (contract.get_relay_round_address r ≡ ok a))
      → current_round ≡ ok current
      → Memᴰ p collect_all_unclaimed_reward.0
        ↔ ((current ≤ p.0 + 2) × (p.0 ≤ current) × Collectable p)
  unfolding collect_all_unclaimed_reward
  collect_all_unclaimed_reward_lem current p known now =
      elim (Result-cases contract.get_relay_rounds_details) [
        | inr (e, bad) ↦ absurd (ground (arith, bad, now))
        | inl (rounds, e) ↦
            (let same : rounds.current_relay_round ≡ current = ground (arith, e, now) in
              let all = collect_loop_lem (current - 2) (suc (current - (current - 2))) p known in
              let loop : collect_all_unclaimed_reward
                  ≡ collect_loop (current - 2) (suc (current - (current - 2))) =
                collect_all e same in
              rw loop (
                λ h. (let m = all.0 h in (omega (arith, m.0), omega (arith, m.1), m.2)),
                λ h. all.1 (omega (arith, h.0), omega (arith, h.0, h.1), h.2),
              ))
      ]
    where
      collect_all :
          {rounds : RelayRoundsDetails}
          → contract.get_relay_rounds_details ≡ ok rounds
          → rounds.current_relay_round ≡ current
          → collect_all_unclaimed_reward
            ≡ collect_loop (current - 2) (suc (current - (current - 2)))
      collect_all e same = ground (arith, e, same)
