-- ===== src/Samples/Placeholders.antt =====
-- Placeholders as they stand in documents.
use ferrum_edge_git_forge_op.Base.{◌≤◌, codes, ◌≡◌, refl, none, some, ok, err, text_eq}
use ferrum_edge_git_forge_op.Slots.{PlaceholderAlloc}
use ferrum_edge_git_forge_op.Placeholder.{SecretPlaceholder, PlaceholderError, parse_placeholder}
use ferrum_edge_git_forge_op.Placeholder.Laws.{parse_placeholder-bounds}

abbrev rotated : SecretPlaceholder
rotated = record { alloc = PlaceholderAlloc.rotate; length_bytes = 48 }

rotated_parses :
    parse_placeholder (codes "${gh-env-secret: alloc = rotate||len=48}") ≡ some (ok rotated)
unfolding parse_placeholder text_eq
rotated_parses = refl

default_parses :
    parse_placeholder (codes "${gh-env-secret:}")
    ≡ some (ok (record { alloc = PlaceholderAlloc.require; length_bytes = 32 }))
unfolding parse_placeholder text_eq
default_parses = refl

short_refused :
    parse_placeholder (codes "${gh-env-secret:len=15}") ≡ some (err PlaceholderError.out_of_range)
unfolding parse_placeholder text_eq
short_refused = refl

plain_text : parse_placeholder (codes "secret") ≡ none
unfolding parse_placeholder
plain_text = refl

parse_placeholder-bounds_example : (16 ≤ 48) × (48 ≤ 256)
parse_placeholder-bounds_example =
    parse_placeholder-bounds (codes "${gh-env-secret: alloc = rotate||len=48}") rotated
      rotated_parses
