-- ===== src/Base/Sort/Laws.antt =====
-- A sort by a total and transitive test is sorted by it, and by a key it keeps the order of the
-- elements of each key.
use ferrum_edge_git_forge_op.Base.Tests.{if◌then◌else◌, leb, eqb}
use ferrum_edge_git_forge_op.Base.HashMap.{any}
use ferrum_edge_git_forge_op.Base.Sort.{place, sort_by, any-place}
use ferrum_edge_git_forge_op.Base.Lists.{select}
use Prim.Native.Nat.{ℕ}
use mathlib.Core.Path.{◌≡◌, refl, ◌∙◌}
use mathlib.Core.Bool.{Bool, true, false, not}
use mathlib.Core.List.{List, [], ◌∷◌}
use native.Mathlib.Omega.{arith}

module _ {A : Type 0} (before : A → A → Bool) where
  -- Every element may stand before each one after it.
  abbrev pub Sorted : List A → Type 0
  Sorted [] = Unit
  Sorted (x ∷ xs) = (any (λ y. not (before x y)) xs ≡ false) × Sorted xs

  module _ (transitive : (x y z : A) → before x y ≡ true → before y z ≡ true → before x z ≡ true)
      (total : (x y : A) → before x y ≡ false → before y x ≡ true) where
    weaker :
        (x y : A) (xs : List A)
        → before x y ≡ true
        → any (λ z. not (before y z)) xs ≡ false
        → any (λ z. not (before x z)) xs ≡ false
    unfolding any
    weaker x y [] h s = refl
    weaker x y (z ∷ xs) h s = ground (arith, transitive x y z, weaker x y xs)

    if_before :
        (x y : A) (ys : List A) (b : Bool)
        → before x y ≡ b
        → Sorted (y ∷ ys)
        → Sorted (place before x ys)
        → Sorted (if b then x ∷ y ∷ ys else y ∷ place before x ys)
    unfolding any
    if_before x y ys true e (s, more) placed = (ground (arith, weaker x y ys), (s, more))
    if_before x y ys false e (s, more) placed =
        (any-place before (λ z. not (before y z)) x ys ∙ ground (arith, total x y), placed)

    place-Sorted : (x : A) (xs : List A) → Sorted xs → Sorted (place before x xs)
    unfolding place
    place-Sorted x [] s = (unfold any in refl, tt)
    place-Sorted x (y ∷ ys) (s, more) =
        if_before x y ys (before x y) refl (s, more) (place-Sorted x ys more)

    pub sort_by-Sorted : (xs : List A) → Sorted (sort_by before xs)
    unfolding sort_by
    sort_by-Sorted [] = tt
    sort_by-Sorted (x ∷ xs) = place-Sorted x (sort_by before xs) (sort_by-Sorted xs)

module _ {A : Type 0} (key : A → ℕ) where
  abbrev pub by_key : A → A → Bool
  by_key x y = leb (key x) (key y)

  select-place :
      (x : A) (xs : List A) (k : ℕ)
      → select (λ y. eqb (key y) k) (place by_key x xs) ≡ select (λ y. eqb (key y) k) (x ∷ xs)
  unfolding place select
  select-place x [] k = refl
  select-place x (y ∷ ys) k = ground (arith, select-place x ys k)

  -- The elements of one key, in their order.
  pub select-sort_by :
      (xs : List A) (k : ℕ)
      → select (λ y. eqb (key y) k) (sort_by by_key xs) ≡ select (λ y. eqb (key y) k) xs
  unfolding sort_by select
  select-sort_by [] k = refl
  select-sort_by (x ∷ xs) k =
      ground (arith, select-place x (sort_by by_key xs) k, select-sort_by xs k)
