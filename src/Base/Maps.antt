-- ===== src/Base/Maps.antt =====
-- Hash maps as association lists. The programs never see the order of the entries; each key stands
-- once, which is the invariant `Unique`.
use Prim.Native.Nat.{suc, ◌+◌}
use mathlib.Core.Path.{◌≡◌, refl}
use mathlib.Core.Bool.{Bool, true, false, not}
use mathlib.Core.Option
use mathlib.Core.Option.{Option, none, some}
use mathlib.Core.List.{List, [], ◌∷◌}
use native.Mathlib.Omega.{arith}
use ton_eth_bridge_relay.Base.Tests.{Eq, if◌then◌else◌}
use ton_eth_bridge_relay.Base.Lists.{length}

abbrev pub Map {ℓ κ} : Type ℓ → Type κ → Type (ℓ ⊔ κ)
Map K V = List (K × V)

-- What a filter leaves of a value.
abbrev pub only_if {ℓ} : {A : Type ℓ} → (A → Bool) → Option A → Option A
only_if p none = none
only_if p (some v) = if p v then some v else none

module _ {ℓ κ} {K : Type ℓ} {V : Type κ} ⦃e : Eq K⦄ where
  unfoldable pub get : Map K V → K → Option V
  get [] k = none
  get ((j, v) ∷ m) k = if e.beq j k then some v else get m k

  unfoldable pub insert : Map K V → K → V → Map K V
  insert [] k v = (k, v) ∷ []
  insert ((j, w) ∷ m) k v = if e.beq j k then (j, v) ∷ m else (j, w) ∷ insert m k v

  unfoldable pub remove : Map K V → K → Map K V
  remove [] k = []
  remove ((j, w) ∷ m) k = if e.beq j k then remove m k else (j, w) ∷ remove m k

  -- `get_mut(&k)` and a write through it: a missing key changes nothing.
  unfoldable pub adjust : Map K V → K → (V → V) → Map K V
  adjust [] k f = []
  adjust ((j, w) ∷ m) k f = if e.beq j k then (j, f w) ∷ m else (j, w) ∷ adjust m k f

  abbrev pub contains_key : Map K V → K → Bool
  contains_key m k = elim (get m k) [ none ↦ false | some _ ↦ true ]

  -- Every key stands once.
  abbrev pub Unique : Map K V → Type κ
  Unique [] = Unit
  Unique ((k, v) ∷ m) = (get m k ≡ none) × Unique m

  pub get-insert :
      (m : Map K V) (k j : K) (v : V)
      → get (insert m k v) j ≡ (if e.beq k j then some v else get m j)
  unfolding get insert
  get-insert [] k j v = refl
  get-insert ((i, w) ∷ m) k j v =
      ground (arith, e.beq_iff k j, e.beq_iff i k, e.beq_iff i j, get-insert m k j v)

  pub get-remove :
      (m : Map K V) (k j : K) → get (remove m k) j ≡ (if e.beq k j then none else get m j)
  unfolding get remove
  get-remove [] k j = ground arith
  get-remove ((i, w) ∷ m) k j =
      ground (arith, e.beq_iff k j, e.beq_iff i k, e.beq_iff i j, get-remove m k j)

  pub get-adjust :
      (m : Map K V) (k j : K) (f : V → V)
      → get (adjust m k f) j ≡ (if e.beq k j then Option.map f (get m j) else get m j)
  unfolding get adjust
  get-adjust [] k j f = ground arith
  get-adjust ((i, w) ∷ m) k j f =
      ground (arith, e.beq_iff k j, e.beq_iff i k, e.beq_iff i j, get-adjust m k j f)

  -- `retain`.
  unfoldable pub retain : (K → V → Bool) → Map K V → Map K V
  retain p [] = []
  retain p ((j, w) ∷ m) = if p j w then (j, w) ∷ retain p m else retain p m

  pub get-retain-none :
      (p : K → V → Bool) (m : Map K V) (k : K) → get m k ≡ none → get (retain p m) k ≡ none
  unfolding get retain
  get-retain-none p [] k h = refl
  get-retain-none p ((i, w) ∷ m) k h = ground (arith, get-retain-none p m k)

  pub get-retain :
      (p : K → V → Bool) (m : Map K V) (k : K)
      → Unique m
      → get (retain p m) k ≡ only_if (p k) (get m k)
  unfolding get retain
  get-retain p [] k u = refl
  get-retain p ((i, w) ∷ m) k u =
      ground (arith, e.beq_iff i k, get-retain p m k u.1, get-retain-none p m i u.0)

  pub insert-Unique : (m : Map K V) (k : K) (v : V) → Unique m → Unique (insert m k v)
  unfolding insert get
  insert-Unique [] k v u = ground arith
  insert-Unique ((i, w) ∷ m) k v u =
      ground (arith, e.beq_iff i k, e.beq_iff k i, get-insert m k i v, insert-Unique m k v u.1)

  pub remove-Unique : (m : Map K V) (k : K) → Unique m → Unique (remove m k)
  unfolding remove
  remove-Unique [] k u = tt
  remove-Unique ((i, w) ∷ m) k u = ground (arith, get-remove m k i, remove-Unique m k u.1)

  pub adjust-Unique : (m : Map K V) (k : K) (f : V → V) → Unique m → Unique (adjust m k f)
  unfolding adjust
  adjust-Unique [] k f u = tt
  adjust-Unique ((i, w) ∷ m) k f u =
      ground (arith, e.beq_iff k i, get-adjust m k i f, adjust-Unique m k f u.1)

  pub retain-Unique : (p : K → V → Bool) (m : Map K V) → Unique m → Unique (retain p m)
  unfolding retain
  retain-Unique p [] u = tt
  retain-Unique p ((i, w) ∷ m) u = ground (arith, get-retain-none p m i u.0, retain-Unique p m u.1)

  pub length-insert_new :
      (m : Map K V) (k : K) (v : V) → get m k ≡ none → length (insert m k v) ≡ suc (length m)
  unfolding get insert
  length-insert_new [] k v h = refl
  length-insert_new ((i, w) ∷ m) k v h = ground (arith, length-insert_new m k v)

  pub remove_absent : (m : Map K V) (k : K) → get m k ≡ none → remove m k ≡ m
  unfolding get remove
  remove_absent [] k h = refl
  remove_absent ((i, w) ∷ m) k h = ground (arith, remove_absent m k)

  pub length-remove :
      (m : Map K V) (k : K) (v : V)
      → Unique m
      → get m k ≡ some v
      → length m ≡ suc (length (remove m k))
  unfolding get remove
  length-remove [] k v u h = cc
  length-remove ((i, w) ∷ m) k v u h =
      ground (arith, e.beq_iff i k, remove_absent m i u.0, length-remove m k v u.1)

  pub length-adjust : (m : Map K V) (k : K) (f : V → V) → length (adjust m k f) ≡ length m
  unfolding adjust
  length-adjust [] k f = refl
  length-adjust ((i, w) ∷ m) k f = ground (arith, length-adjust m k f)

  -- A filter and its complement split a map.
  pub length-retain :
      (p : K → V → Bool) (m : Map K V)
      → length m ≡ length (retain (λ k v. not (p k v)) m) + length (retain p m)
  unfolding retain
  length-retain p [] = omega arith
  length-retain p ((j, w) ∷ m) = ground (arith, length-retain p m)
