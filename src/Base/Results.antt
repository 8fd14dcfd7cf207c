-- ===== src/Base/Results.antt =====
-- Rust's `Result`, with the error as its first parameter, and the operator `?` as a bind.
use mathlib.Core.Path.{◌≡◌, refl}

pub data Result {e a} (E : Type e) (A : Type a) : Type (e ⊔ a) where
  err : E → Result E A
  ok : A → Result E A

module _ {e a b} {E : Type e} {A : Type a} {B : Type b} where
  infixl 5 ◌>>=◌
  abbrev pub ◌>>=◌ : Result E A → (A → Result E B) → Result E B
  err failure >>= next = err failure
  ok value >>= next = next value

  -- A chain succeeds only if its first step does.
  pub >>=-eq-ok :
      (first : Result E A) (next : A → Result E B) {value : B}
      → (first >>= next) ≡ ok value
      → (found : A) × (first ≡ ok found) × (next found ≡ ok value)
  >>=-eq-ok (err failure) next done = cc
  >>=-eq-ok (ok value) next done = (value, refl, done)

pub ok-injective {e a} :
    {E : Type e} {A : Type a} (x y : A) → Path (Result E A) (ok x) (ok y) → x ≡ y
ok-injective x y h = cc
