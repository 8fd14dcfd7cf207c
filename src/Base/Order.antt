-- ===== src/Base/Order.antt =====
-- The order of texts is total and transitive.
use mathlib.Core.Path.{◌≡◌, refl}
use mathlib.Core.Bool.{Bool, true, false, not}
use mathlib.Core.List.{[], ◌∷◌}
use native.Mathlib.Omega.{arith}
use ferrum_edge_git_forge_op.Base.Texts.{Text, text_lt}

abbrev pub text_le : Text → Text → Bool
text_le s t = not (text_lt t s)

pub text_le-transitive :
    (s t u : Text) → text_le s t ≡ true → text_le t u ≡ true → text_le s u ≡ true
unfolding text_lt
text_le-transitive [] t [] p q = refl
text_le-transitive [] t (z ∷ u) p q = refl
text_le-transitive (x ∷ s) [] u p q = ground arith
text_le-transitive (x ∷ s) (y ∷ t) [] p q = ground arith
text_le-transitive (x ∷ s) (y ∷ t) (z ∷ u) p q = ground (arith, text_le-transitive s t u)

pub text_le-total : (s t : Text) → text_le s t ≡ false → text_le t s ≡ true
unfolding text_lt
text_le-total [] t p = ground arith
text_le-total (x ∷ s) [] p = refl
text_le-total (x ∷ s) (y ∷ t) p = ground (arith, text_le-total s t)

pub text_le-antisym : (s t : Text) → text_le s t ≡ true → text_le t s ≡ true → s ≡ t
unfolding text_lt
text_le-antisym [] [] p q = refl
text_le-antisym [] (y ∷ t) p q = ground arith
text_le-antisym (x ∷ s) [] p q = ground arith
text_le-antisym (x ∷ s) (y ∷ t) p q = ground (arith, text_le-antisym s t)
