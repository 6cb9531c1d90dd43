-- ===== src/Tristate.antt =====
-- src/utils/tristate.rs: an optional flag in one atomic byte. Each method is one atomic operation.
use ton_eth_bridge_relay.Base.{
  ℕ, ◌≡◌, refl, ◌⊎◌, inl, inr, Bool, true, false, Option, none, some, ◌==◌, if◌then◌else◌, arith,
}

pub record Tristate : Type 0 where
  pub value : ℕ

unfoldable pub store : Tristate → Option Bool → Tristate
store t (some false) = record { value = 0 }
store t (some true) = record { value = 1 }
store t none = record { value = 2 }

-- `Tristate::default` holds 0.
unfoldable pub new : Option Bool → Tristate
unfolding store
new flag = store (record { value = 0 }) flag

-- `data as u8`.
abbrev as_u8 : Bool → ℕ
as_u8 false = 0
as_u8 true = 1

-- `compare_exchange(2, …)`.
unfoldable pub store_if_empty : Tristate → Bool → Tristate
store_if_empty t flag = if t.value == 2 then record { value = as_u8 flag } else t

unfoldable pub load : Tristate → Option Bool
load t = if t.value == 0 then some false else (if t.value == 1 then some true else none)

-- A byte that the methods write.
abbrev pub IsFlag : Tristate → Type 0
IsFlag t = (t.value ≡ 0) ⊎ ((t.value ≡ 1) ⊎ (t.value ≡ 2))

-- What is stored is what is loaded.
pub load-store : (t : Tristate) (flag : Option Bool) → load (store t flag) ≡ flag
unfolding load store
load-store t none = refl
load-store t (some true) = refl
load-store t (some false) = refl

abbrev pub or_else : Option Bool → Bool → Option Bool
or_else none flag = some flag
or_else (some old) flag = some old

-- A flag that is set stays; an empty one takes the value.
pub load-store_if_empty :
    (t : Tristate) (flag : Bool) → IsFlag t → load (store_if_empty t flag) ≡ or_else (load t) flag
unfolding load store_if_empty
load-store_if_empty t true h = ground (arith, h)
load-store_if_empty t false h = ground (arith, h)

pub store-IsFlag : (t : Tristate) (flag : Option Bool) → IsFlag (store t flag)
unfolding store
store-IsFlag t none = inr (inr refl)
store-IsFlag t (some true) = inr (inl refl)
store-IsFlag t (some false) = inl refl

pub store_if_empty-IsFlag : (t : Tristate) (flag : Bool) → IsFlag t → IsFlag (store_if_empty t flag)
unfolding store_if_empty
store_if_empty-IsFlag t true h = ground (arith, h)
store_if_empty-IsFlag t false h = ground (arith, h)
