-- ===== src/Samples/Bundles.antt =====
-- Shards of credentials.
use ferrum_edge_git_forge_op.Base.{
  ℕ, Text, codes, [], ◌∷◌, ◌≡◌, refl, none, some, Result, ok, err, text_eq, arith, text_key, nat_eq,
}
use ferrum_edge_git_forge_op.Base.Map
use ferrum_edge_git_forge_op.Base.Map.{get}
use ferrum_edge_git_forge_op.Bundle.{
  Shards, Sizing, BundleError, shard_secret_name, parse_shard_index, reserve_shard, holder,
  merge_bundles, fits, projected_shard_size,
}
use ferrum_edge_git_forge_op.Bundle.Names.{parse_shard_index-shard_secret_name}
use ferrum_edge_git_forge_op.Bundle.Capacity.{IsReserved, reserve_shard-ends}
use ferrum_edge_git_forge_op.Bundle.Merge.{AreNodup, last_value, merge_bundles_lem}

name_of_twelve : shard_secret_name 12 ≡ codes "FERRUM_CREDS_BUNDLE_12"
unfolding shard_secret_name
name_of_twelve = refl

shard_of_three : parse_shard_index (codes "FERRUM_CREDS_BUNDLE_3") ≡ ok (some 3)
unfolding parse_shard_index
shard_of_three = refl

leading_zero_refused :
    parse_shard_index (codes "FERRUM_CREDS_BUNDLE_03")
    ≡ err (BundleError.not_canonical (codes "FERRUM_CREDS_BUNDLE_03"))
unfolding parse_shard_index
leading_zero_refused = refl

other_key_ignored : parse_shard_index (codes "FERRUM_X") ≡ ok none
unfolding parse_shard_index
other_key_ignored = refl

parse_shard_index-shard_secret_name_example :
    parse_shard_index (shard_secret_name 12) ≡ ok (some 12)
parse_shard_index-shard_secret_name_example = parse_shard_index-shard_secret_name 12 (omega arith)

abbrev slot_a : Text
slot_a = codes "b/x/a"

abbrev slot_b : Text
slot_b = codes "b/x/b"

abbrev shards : Shards
shards =
    (0, (slot_a, codes "old") ∷ []) ∷ (1, (slot_a, codes "new") ∷ (slot_b, codes "v") ∷ []) ∷ []

shards-AreNodup : AreNodup shards
unfolding get text_eq
shards-AreNodup = ((refl, tt), ((refl, (refl, tt)), tt))

merge_bundles_lem_example : get (merge_bundles shards) slot_a ≡ last_value shards slot_a
merge_bundles_lem_example = merge_bundles_lem shards slot_a shards-AreNodup

-- A sizing by which the two shards are full.
abbrev full_sizing : Sizing
full_sizing = record { digest = λ slot. 7; json_bytes = λ bundle. 40960 }

grown : reserve_shard full_sizing (codes "b/x/c") 32 shards 2 (codes "allocating") ≡ some (ok 2, 3)
unfolding reserve_shard Map.contains_key get text_eq fits projected_shard_size nat_eq
grown = refl

reserve_shard-ends_example :
    (outcome : Result BundleError ℕ × ℕ) × (reserve_shard full_sizing
        (codes "b/x/c")
        32
        shards
        2
        (codes "allocating")
      ≡ some outcome)
    × IsReserved full_sizing
        (codes "b/x/c")
        32
        shards
        (holder full_sizing (codes "b/x/c") 32 shards shards)
        2
        outcome
reserve_shard-ends_example =
    reserve_shard-ends full_sizing (codes "b/x/c") 32 shards 2 (codes "allocating")
