-- ===== src/Base/Equality.antt =====
-- Equality and order of keys as instances, and membership in a list.
use Prim.Native.Nat.{ℕ}
use mathlib.Core.Path.{◌≡◌, refl, ap}
use mathlib.Core.Logic.{◌≢◌, ite, dite, if_pos, if_neg}
use mathlib.Core.Bool.{Bool, true, false, ◌&&◌, ◌||◌}
use mathlib.Core.List.{List, [], ◌∷◌, ◌++◌}
use mathlib.Core.Option.{Option, none, some, none-ne-some, some-ne-none, some-injective}
use native.Mathlib.Omega.{arith}
use native.Mathlib.Decide.{ℕ_discrete}

pub record Eq {ℓ} (A : Type ℓ) : Type ℓ where
  pub dec : Discrete A

-- Keys of an ordered collection.
pub record Key {ℓ} (A : Type ℓ) : Type ℓ where
  pub eq : Eq A
  pub lt : A → A → Bool

infix 50 ◌==◌
abbrev pub ◌==◌ {ℓ} : {A : Type ℓ} ⦃e : Eq A⦄ → A → A → Bool
◌==◌ ⦃e⦄ a b = ite (e.dec a b) true false

module _ {ℓ} {A : Type ℓ} ⦃e : Eq A⦄ where
  pub eq→path : (a b : A) → (a == b) ≡ true → a ≡ b
  eq→path a b h = ground arith

  pub ==_refl : (a : A) → (a == a) ≡ true
  ==_refl a = if_pos (e.dec a a) refl _ _

  pub path→eq : (a b : A) → a ≡ b → (a == b) ≡ true
  path→eq a b h = if_pos (e.dec a b) h _ _

  pub ne→eq : (a b : A) → a ≢ b → (a == b) ≡ false
  ne→eq a b h = if_neg (e.dec a b) h _ _

  -- Behind a test for equality, a test of one key is a test of the other.
  pub same_at : (k j : A) (q : A → Bool) → (k == j && q k) ≡ (k == j && q j)
  same_at k j q = elim (e.dec k j) [
    | yes same ↦ ap (λ (a : A). k == j && q a) same
    | no differ ↦ rw (ne→eq k j differ)
  ]

  abbrev pub contains : List A → A → Bool
  contains [] a = false
  contains (x ∷ xs) a = x == a || contains xs a

  pub contains-append :
      (xs ys : List A) (a : A) → contains (xs ++ ys) a ≡ (contains xs a || contains ys a)
  contains-append [] ys a = refl
  contains-append (x ∷ xs) ys a = ground (arith, contains-append xs ys a)

  option_dec : Discrete (Option A)
  option_dec none none = yes refl
  option_dec none (some b) = no (none-ne-some b)
  option_dec (some a) none = no (some-ne-none a)
  option_dec (some a) (some b) =
      dite (e.dec a b) (λ p. yes (ap some p)) (λ n. no (λ p. n (some-injective a b p)))

  instance unfoldable pub option_eq : Eq (Option A)
  unfolding option_dec
  option_eq = record { dec = option_dec }

instance unfoldable pub nat_eq : Eq ℕ
unfolding ℕ_discrete
nat_eq = record { dec = ℕ_discrete }
