-- ===== src/Placeholder/Laws.antt =====
-- secrets/placeholder.rs: the length that a placeholder asks for is in range.
use mathlib.Core.Option.{some-injective}
use ferrum_edge_git_forge_op.Base.{
  ℕ, ◌≤◌, arith, Text, codes, List, [], ◌∷◌, ◌≡◌, refl, Bool, true, false, Option, none, some,
  text_eq, ◌==◌, is_empty, if◌then◌else◌, Result, ok, err,
}
use ferrum_edge_git_forge_op.StateKey.{split_once}
use ferrum_edge_git_forge_op.Bundle.{strip_prefix}
use ferrum_edge_git_forge_op.Slots.{PlaceholderAlloc}
use ferrum_edge_git_forge_op.Placeholder.{
  SecretPlaceholder, PlaceholderError, in_range, with_alloc, with_length, set_piece, read_piece,
  read_pieces, default_placeholder, read_inner, stripped, behind_prefix, parse_placeholder,
  parse_alloc, parse_usize, trim, strip_last, split,
}

-- What a result says of the length: a placeholder's is in range.
abbrev IsSized : Result PlaceholderError SecretPlaceholder → Type 0
IsSized (ok p) = in_range p.length_bytes ≡ true
IsSized (err e) = Unit {0}

with_alloc-IsSized :
    (p : SecretPlaceholder) (alloc : Result PlaceholderError PlaceholderAlloc)
    → in_range p.length_bytes ≡ true
    → IsSized (with_alloc p alloc)
with_alloc-IsSized p (ok alloc) h = h
with_alloc-IsSized p (err e) h = tt

length_set :
    (p : SecretPlaceholder) (n : ℕ) (fits : Bool)
    → in_range n ≡ fits
    → IsSized
        (if fits then ok (record p { length_bytes = n }) else err PlaceholderError.out_of_range)
length_set p n true h = h
length_set p n false h = tt

with_length-IsSized : (p : SecretPlaceholder) (read : Option ℕ) → IsSized (with_length p read)
with_length-IsSized p none = tt
with_length-IsSized p (some n) = length_set p n (in_range n) refl

either :
    (test : Bool) (x y : Result PlaceholderError SecretPlaceholder)
    → IsSized x
    → IsSized y
    → IsSized (if test then x else y)
either true x y hx hy = hx
either false x y hx hy = hy

set_piece-IsSized :
    (piece : Text × Option Text) (p : SecretPlaceholder)
    → in_range p.length_bytes ≡ true
    → IsSized (set_piece piece p)
set_piece-IsSized (key, none) p h = tt
set_piece-IsSized (key, some value) p h =
    either (trim key == codes "alloc") _ _ (with_alloc-IsSized p (parse_alloc (trim value)) h)
      (either (trim key == codes "len") _ _ (with_length-IsSized p (parse_usize (trim value))) tt)

read_piece-IsSized :
    (piece : Text) (p : SecretPlaceholder)
    → in_range p.length_bytes ≡ true
    → IsSized (read_piece piece p)
unfolding read_piece
read_piece-IsSized piece p h =
    either (is_empty piece) (ok p) _ h (set_piece-IsSized (split_once b'=' piece) p h)

next-IsSized :
    (continue_with : SecretPlaceholder → Result PlaceholderError SecretPlaceholder)
    (read : Result PlaceholderError SecretPlaceholder)
    → IsSized read
    → ((p : SecretPlaceholder) → in_range p.length_bytes ≡ true → IsSized (continue_with p))
    → IsSized (elim read [ ok p ↦ continue_with p | err e ↦ err e ])
next-IsSized continue_with (ok p) sized more = more p sized
next-IsSized continue_with (err e) sized more = tt

read_pieces-IsSized :
    (pieces : List Text) (p : SecretPlaceholder)
    → in_range p.length_bytes ≡ true
    → IsSized (read_pieces pieces p)
unfolding read_pieces
read_pieces-IsSized [] p h = h
read_pieces-IsSized (piece ∷ pieces) p h =
    next-IsSized (read_pieces pieces) (read_piece (trim piece) p)
      (read_piece-IsSized (trim piece) p h) (read_pieces-IsSized pieces)

read_inner-IsSized : (inner : Text) → IsSized (read_inner inner)
read_inner-IsSized inner =
    either (is_empty inner) (ok default_placeholder) _ refl
      (read_pieces-IsSized (split b'|' inner) default_placeholder refl)

sized :
    (read : Result PlaceholderError SecretPlaceholder) (p : SecretPlaceholder)
    → IsSized read
    → read ≡ ok p
    → in_range p.length_bytes ≡ true
sized read p h same = coe 0 1 (i. IsSized (same i)) h

inner_sized :
    (inner : Option Text) (p : SecretPlaceholder)
    → stripped inner ≡ some (ok p)
    → in_range p.length_bytes ≡ true
inner_sized none p h = cc
inner_sized (some inner) p h =
    sized (read_inner inner) p (read_inner-IsSized inner)
      (some-injective (read_inner inner) (ok p) h)

rest_sized :
    (rest : Option Text) (p : SecretPlaceholder)
    → behind_prefix rest ≡ some (ok p)
    → in_range p.length_bytes ≡ true
rest_sized none p h = cc
rest_sized (some rest) p h = inner_sized (strip_last b'}' rest) p h

in_range_lem : (n : ℕ) → in_range n ≡ true → (16 ≤ n) × (n ≤ 256)
in_range_lem n h = (ground arith, ground arith)

-- A placeholder that parses asks for at least 16 and at most 256 bytes, whatever its pieces say and
-- also if they say nothing.
pub parse_placeholder-bounds :
    (raw : Text) (p : SecretPlaceholder)
    → parse_placeholder raw ≡ some (ok p)
    → (16 ≤ p.length_bytes) × (p.length_bytes ≤ 256)
unfolding parse_placeholder
parse_placeholder-bounds raw p h =
    in_range_lem p.length_bytes (rest_sized (strip_prefix (codes "${gh-env-secret:") raw) p h)
