-- ===== src/Base/HashMap.antt =====
-- `HashMap` collected from pairs: one entry for each key, and the last pair of a key wins. The order
-- of the entries is that of their first insertion; Rust leaves it open.
use mathlib.Core.Path.{◌≡◌, refl}
use mathlib.Core.Bool.{Bool, false, ◌&&◌, ◌||◌}
use mathlib.Core.List.{List, [], ◌∷◌, ◌++◌}
use mathlib.Core.Option.{Option, none, some}
use native.Mathlib.Omega.{arith}
use ferrum_edge_git_forge_op.Base.Tests.{if◌then◌else◌}
use ferrum_edge_git_forge_op.Base.Equality.{Eq, ◌==◌}

abbrev pub HashMap {ℓ κ} : Type ℓ → Type κ → Type (ℓ ⊔ κ)
HashMap K V = List (K × V)

unfoldable pub any {ℓ} : {A : Type ℓ} → (A → Bool) → List A → Bool
any p [] = false
any p (x ∷ xs) = p x || any p xs

pub any-append {ℓ} :
    {A : Type ℓ} (p : A → Bool) (xs ys : List A) → any p (xs ++ ys) ≡ (any p xs || any p ys)
unfolding any
any-append p [] ys = refl
any-append p (x ∷ xs) ys = ground (arith, any-append p xs ys)

pub any-one {ℓ} : {A : Type ℓ} (p : A → Bool) (x : A) → any p (x ∷ []) ≡ p x
unfolding any
any-one p x = ground arith

abbrev pub holds {ℓ} : {A : Type ℓ} → (A → Bool) → Option A → Bool
holds p none = false
holds p (some a) = p a

module _ {ℓ κ} {K : Type ℓ} {V : Type κ} ⦃e : Eq K⦄ where
  unfoldable pub lookup : HashMap K V → K → Option V
  lookup [] k = none
  lookup ((j, v) ∷ m) k = if j == k then some v else lookup m k

  unfoldable pub put : HashMap K V → K → V → HashMap K V
  put [] k v = (k, v) ∷ []
  put ((j, w) ∷ m) k v = if j == k then (j, v) ∷ m else (j, w) ∷ put m k v

  unfoldable pub collect : HashMap K V → List (K × V) → HashMap K V
  unfolding put
  collect m [] = m
  collect m ((k, v) ∷ pairs) = collect (put m k v) pairs

  abbrev pub NodupKeys : HashMap K V → Type κ
  NodupKeys [] = Unit
  NodupKeys ((k, _) ∷ m) = (lookup m k ≡ none) × NodupKeys m

  pub lookup-put :
      (m : HashMap K V) (k j : K) (v : V)
      → lookup (put m k v) j ≡ (if k == j then some v else lookup m j)
  unfolding lookup put
  lookup-put [] k j v = refl
  lookup-put ((i, w) ∷ m) k j v = ground (arith, lookup-put m k j v)

  put-NodupKeys : (m : HashMap K V) (k : K) (v : V) → NodupKeys m → NodupKeys (put m k v)
  unfolding put
  put-NodupKeys [] k v u = (unfold lookup in refl, tt)
  put-NodupKeys ((j, w) ∷ m) k v (fresh, u) =
      ground (arith, put-NodupKeys m k v u, lookup-put m k j v)

  pub collect-NodupKeys :
      (m : HashMap K V) (pairs : List (K × V)) → NodupKeys m → NodupKeys (collect m pairs)
  unfolding collect
  collect-NodupKeys m [] u = u
  collect-NodupKeys m ((k, v) ∷ pairs) u =
      collect-NodupKeys (put m k v) pairs (put-NodupKeys m k v u)

  none_elsewhere :
      (m : HashMap K V) (j : K) (p : V → Bool)
      → lookup m j ≡ none
      → any (λ entry. entry.0 == j && p entry.1) m ≡ false
  unfolding any lookup
  none_elsewhere [] j p h = refl
  none_elsewhere ((k, v) ∷ m) j p h = ground (arith, none_elsewhere m j p)

  -- Some entry of a key passes a test exactly if the entry found does.
  pub any-lookup :
      (m : HashMap K V) (j : K) (p : V → Bool)
      → NodupKeys m
      → any (λ entry. entry.0 == j && p entry.1) m ≡ holds p (lookup m j)
  unfolding any lookup
  any-lookup [] j p u = refl
  any-lookup ((k, v) ∷ m) j p (fresh, u) = ground (arith, any-lookup m j p u, none_elsewhere m j p)
