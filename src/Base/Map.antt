-- ===== src/Base/Map.antt =====
-- `BTreeMap` and `BTreeSet`: entries in the order of their keys.
use mathlib.Core.Path.{◌≡◌, refl}
use mathlib.Core.Bool.{Bool, ◌&&◌, ◌||◌, not}
use mathlib.Core.List.{List, [], ◌∷◌}
use mathlib.Core.Option.{Option, none, some}
use native.Mathlib.Omega.{arith}
use ferrum_edge_git_forge_op.Base.Tests.{if◌then◌else◌, is_some}
use ferrum_edge_git_forge_op.Base.Equality.{Key, ◌==◌, contains}

abbrev pub Map {ℓ κ} : Type ℓ → Type κ → Type (ℓ ⊔ κ)
Map K V = List (K × V)

-- A set is a map to the unit type.
abbrev pub Keys {ℓ} : Type ℓ → Type ℓ
Keys K = Map K (Unit {0})

abbrev pub keys {ℓ κ} : {K : Type ℓ} {V : Type κ} → Map K V → List K
keys [] = []
keys ((k, _) ∷ m) = k ∷ keys m

module _ {ℓ κ} {K : Type ℓ} {V : Type κ} ⦃o : Key K⦄ where
  unfoldable pub get : Map K V → K → Option V
  get [] k = none
  get ((j, v) ∷ m) k = if ◌==◌ ⦃e = o.eq⦄ j k then some v else get m k

  unfoldable pub contains_key : Map K V → K → Bool
  contains_key m k = is_some (get m k)

  -- The entry of an equal key is replaced.
  unfoldable pub insert : Map K V → K → V → Map K V
  insert [] k v = (k, v) ∷ []
  insert ((j, w) ∷ m) k v =
      if ◌==◌ ⦃e = o.eq⦄ j k
      then (k, v) ∷ m
      else if o.lt k j
      then (k, v) ∷ (j, w) ∷ m
      else (j, w) ∷ insert m k v

  unfoldable pub remove : Map K V → K → Map K V
  remove [] k = []
  remove ((j, w) ∷ m) k =
      let rest = remove m k in if ◌==◌ ⦃e = o.eq⦄ j k then rest else (j, w) ∷ rest

  -- `retain` with a test of the key.
  unfoldable pub retain : (K → Bool) → Map K V → Map K V
  retain p [] = []
  retain p ((j, w) ∷ m) = let rest = retain p m in if p j then (j, w) ∷ rest else rest

  pub get-insert :
      (m : Map K V) (k j : K) (v : V)
      → get (insert m k v) j ≡ (if ◌==◌ ⦃e = o.eq⦄ k j then some v else get m j)
  unfolding get insert
  get-insert [] k j v = refl
  get-insert ((i, w) ∷ m) k j v = ground (arith, get-insert m k j v)

  pub get-remove :
      (m : Map K V) (k j : K) → get (remove m k) j ≡ (if ◌==◌ ⦃e = o.eq⦄ k j then none else get m j)
  unfolding get remove
  get-remove [] k j = ground arith
  get-remove ((i, w) ∷ m) k j = ground (arith, get-remove m k j)

  pub get-retain :
      (p : K → Bool) (m : Map K V) (j : K) → get (retain p m) j ≡ (if p j then get m j else none)
  unfolding get retain
  get-retain p [] j = ground arith
  get-retain p ((i, w) ∷ m) j = ground (arith, get-retain p m j)

  pub contains_key-insert :
      (m : Map K V) (k j : K) (v : V)
      → contains_key (insert m k v) j ≡ (◌==◌ ⦃e = o.eq⦄ k j || contains_key m j)
  unfolding contains_key
  contains_key-insert m k j v = ground (arith, get-insert m k j v)

  pub contains_key-remove :
      (m : Map K V) (k j : K)
      → contains_key (remove m k) j ≡ (not (◌==◌ ⦃e = o.eq⦄ k j) && contains_key m j)
  unfolding contains_key
  contains_key-remove m k j = ground (arith, get-remove m k j)

  pub contains_key-retain :
      (p : K → Bool) (m : Map K V) (j : K) → contains_key (retain p m) j ≡ (p j && contains_key m j)
  unfolding contains_key
  contains_key-retain p m j = ground (arith, get-retain p m j)

  pub contains-keys : (m : Map K V) (j : K) → contains ⦃e = o.eq⦄ (keys m) j ≡ contains_key m j
  unfolding contains_key get
  contains-keys [] j = refl
  contains-keys ((i, w) ∷ m) j = ground (arith, contains-keys m j)
