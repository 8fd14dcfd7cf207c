-- ===== src/Placeholder.antt =====
-- secrets/placeholder.rs: the placeholder `${gh-env-secret:alloc=...|len=...}`.
pub mod Laws
use ferrum_edge_git_forge_op.Base.{
  ℕ, zero, suc, ◌+◌, ◌*◌, ◌-◌, Text, codes, List, [], ◌∷◌, ◌++◌, Bool, true, false, not, ◌&&◌, ◌||◌,
  Option, none, some, eqb, leb, text_eq, ◌==◌, is_empty, if◌then◌else◌, Result, ok, err,
}
use ferrum_edge_git_forge_op.StateKey.{split_once}
use ferrum_edge_git_forge_op.Diff.Redact.{trim_matches}
use ferrum_edge_git_forge_op.Slots.{PlaceholderAlloc}
use ferrum_edge_git_forge_op.Bundle.{strip_prefix, is_digit}

pub record SecretPlaceholder : Type 0 where
  pub alloc : PlaceholderAlloc
  pub length_bytes : ℕ

pub data PlaceholderError : Type 0 where
  unknown_mode malformed_piece out_of_range not_an_integer unknown_key : PlaceholderError

abbrev between : ℕ → ℕ → ℕ → Bool
between low high c = leb low c && leb c high

-- The characters with the property White_Space, which `str::trim` removes.
abbrev is_whitespace : ℕ → Bool
is_whitespace c =
    between 9 13 c
    || eqb c 32
    || eqb c 133
    || eqb c 160
    || eqb c 5760
    || between 8192 8202 c
    || between 8232 8233 c
    || eqb c 8239
    || eqb c 8287
    || eqb c 12288

unfoldable pub trim : Text → Text
unfolding trim_matches
trim s = trim_matches is_whitespace s

-- `usize::MAX` on a 64-bit target.
abbrev usize_max : ℕ
usize_max = 18446744073709551615

unfoldable pub read_usize : Text → ℕ → Option ℕ
read_usize [] n = some n
read_usize (c ∷ s) n =
    let rest = read_usize s (n * 10 + (c - 48)) in
    if is_digit c && leb (n * 10 + (c - 48)) usize_max then rest else none

abbrev unsigned_usize : Text → Option ℕ
unsigned_usize [] = none
unsigned_usize (c ∷ s) = read_usize (c ∷ s) 0

unfoldable pub parse_usize : Text → Option ℕ
unfolding read_usize
parse_usize [] = none
parse_usize (c ∷ s) = if eqb c b'+' then unsigned_usize s else unsigned_usize (c ∷ s)

-- `PlaceholderAlloc::parse`.
unfoldable pub parse_alloc : Text → Result PlaceholderError PlaceholderAlloc
unfolding text_eq
parse_alloc s =
    if s == codes "generate"
    then ok PlaceholderAlloc.generate
    else if s == codes "require"
    then ok PlaceholderAlloc.require
    else if s == codes "rotate"
    then ok PlaceholderAlloc.rotate
    else err unknown_mode

unfoldable pub split : ℕ → Text → List Text
split c [] = [] ∷ []
split c (x ∷ s) =
    let rest = split c s in
    if eqb x c
    then [] ∷ rest
    else elim rest [ [] ↦ (x ∷ []) ∷ [] | first ∷ more ↦ (x ∷ first) ∷ more ]

unfoldable pub strip_last : ℕ → Text → Option Text
strip_last c [] = none
strip_last c (x ∷ s) = elim s [
  | [] ↦ if eqb x c then some [] else none
  | _ ∷ _ ↦ elim (strip_last c s) [ none ↦ none | some kept ↦ some (x ∷ kept) ]
]

abbrev pub in_range : ℕ → Bool
in_range n = leb 16 n && leb n 256

abbrev pub with_alloc :
    SecretPlaceholder
    → Result PlaceholderError PlaceholderAlloc
    → Result PlaceholderError SecretPlaceholder
with_alloc p (ok alloc) = ok (record p { alloc = alloc })
with_alloc p (err e) = err e

abbrev pub with_length : SecretPlaceholder → Option ℕ → Result PlaceholderError SecretPlaceholder
with_length p none = err not_an_integer
with_length p (some n) = if in_range n then ok (record p { length_bytes = n }) else err out_of_range

abbrev pub set_key : Text → Text → SecretPlaceholder → Result PlaceholderError SecretPlaceholder
set_key key value p =
    if key == codes "alloc"
    then with_alloc p (parse_alloc value)
    else if key == codes "len"
    then with_length p (parse_usize value)
    else err unknown_key

abbrev pub set_piece :
    Text × Option Text → SecretPlaceholder → Result PlaceholderError SecretPlaceholder
set_piece (key, none) p = err malformed_piece
set_piece (key, some value) p = set_key (trim key) (trim value) p

-- One piece of the list; an empty one is skipped.
unfoldable pub read_piece : Text → SecretPlaceholder → Result PlaceholderError SecretPlaceholder
unfolding parse_alloc parse_usize split_once trim
read_piece piece p = if is_empty piece then ok p else set_piece (split_once b'=' piece) p

unfoldable pub read_pieces :
    List Text → SecretPlaceholder → Result PlaceholderError SecretPlaceholder
unfolding read_piece
read_pieces [] p = ok p
read_pieces (piece ∷ pieces) p = elim (read_piece (trim piece) p) [
  | ok next ↦ read_pieces pieces next
  | err e ↦ err e
]

abbrev pub default_placeholder : SecretPlaceholder
default_placeholder = record { alloc = PlaceholderAlloc.require; length_bytes = 32 }

abbrev pub read_inner : Text → Result PlaceholderError SecretPlaceholder
read_inner inner =
    if is_empty inner
    then ok default_placeholder
    else read_pieces (split b'|' inner) default_placeholder

abbrev pub stripped : Option Text → Option (Result PlaceholderError SecretPlaceholder)
stripped none = none
stripped (some inner) = some (read_inner inner)

abbrev pub behind_prefix : Option Text → Option (Result PlaceholderError SecretPlaceholder)
behind_prefix none = none
behind_prefix (some rest) = stripped (strip_last b'}' rest)

unfoldable pub parse_placeholder : Text → Option (Result PlaceholderError SecretPlaceholder)
unfolding strip_prefix strip_last split read_pieces
parse_placeholder raw = behind_prefix (strip_prefix (codes "${gh-env-secret:") raw)
