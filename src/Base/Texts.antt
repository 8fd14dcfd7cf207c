-- ===== src/Base/Texts.antt =====
-- Texts as lists of code points. The order of code points is the byte order of UTF-8, by which
-- Rust compares strings.
use Prim.Native.Nat.{ℕ}
use Prim.Native.Char.{code}
use Prim.Native.String.{String}
use mathlib.Core.Path.{◌≡◌, refl}
use mathlib.Core.Logic.{dite}
use mathlib.Core.Bool.{Bool, true, false, ◌&&◌, ◌||◌, Bool-discrete}
use mathlib.Core.List.{List, [], ◌∷◌}
use native.Mathlib.Omega.{arith}
use ferrum_edge_git_forge_op.Base.Tests.{ltb, eqb}
use ferrum_edge_git_forge_op.Base.Equality.{Eq, Key, nat_eq}

abbrev pub Text : Type 0
Text = List ℕ

abbrev pub is_empty {ℓ} : {A : Type ℓ} → List A → Bool
is_empty [] = true
is_empty (x ∷ s) = false

-- The code points of a literal.
abbrev pub codes : String → Text
codes String.[] = []
codes (String.◌∷◌ c s) = code c ∷ codes s

pub text_same : Text → Text → Bool
text_same [] [] = true
text_same (x ∷ xs) (y ∷ ys) = eqb x y && text_same xs ys
text_same _ _ = false

pub text_same_sound : (s t : Text) → text_same s t ≡ true → s ≡ t
unfolding text_same
text_same_sound [] [] h = refl
text_same_sound (x ∷ xs) (y ∷ ys) h = ground (arith, text_same_sound xs ys)
text_same_sound (x ∷ xs) [] h = ground arith
text_same_sound [] (y ∷ ys) h = ground arith

text_same_refl : (s : Text) → text_same s s ≡ true
unfolding text_same
text_same_refl [] = refl
text_same_refl (x ∷ xs) = ground (arith, text_same_refl xs)

pub text_same_complete : (s t : Text) → s ≡ t → text_same s t ≡ true
text_same_complete s t h = ground (arith, text_same_refl s)

instance unfoldable pub text_eq : Eq Text
unfolding text_same
text_eq = record {
  dec = λ s t.
      dite (Bool-discrete (text_same s t) true) (λ same. yes (text_same_sound s t same))
        (λ differ. no (λ p. differ (text_same_complete s t p)));
}

unfoldable pub text_lt : Text → Text → Bool
text_lt [] [] = false
text_lt [] (y ∷ ys) = true
text_lt (x ∷ xs) [] = false
text_lt (x ∷ xs) (y ∷ ys) = ltb x y || (eqb x y && text_lt xs ys)

instance abbrev pub text_key : Key Text
text_key = record { eq = text_eq; lt = text_lt }

instance abbrev pub nat_key : Key ℕ
nat_key = record { eq = nat_eq; lt = ltb }
