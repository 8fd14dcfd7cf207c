-- ===== src/Apply/Compare.antt =====
-- apply/api_target.rs: when a live row has the desired content.
use ferrum_edge_git_forge_op.Base.{
  Text, codes, Bool, true, false, ◌&&◌, none, some, text_eq, ◌==◌, if◌then◌else◌,
}
use ferrum_edge_git_forge_op.Json.{Value, object, Members, end, member, same_value, member_of}
use ferrum_edge_git_forge_op.Diff.{row_eq}
use ferrum_edge_git_forge_op.Diff.Fields.{Resource, normalize_associations_for_comparison}

-- `Map::remove`
unfoldable pub without_member : Members → Text → Members
without_member end key = end
without_member (member k v m) key = if k == key then m else member k v (without_member m key)

abbrev without_timestamps : Value → Value
without_timestamps (object m) =
    object (without_member (without_member m (codes "created_at")) (codes "updated_at"))
without_timestamps value = value

unfoldable mutual
  pub json_contains : Value → Value → Bool
  json_contains (object desired) (object live) = members_contained desired live
  json_contains desired live = same_value desired live

  pub members_contained : Members → Members → Bool
  members_contained end live = true
  members_contained (member key value m) live = elim (member_of live key) [
    | none ↦ false
    | some found ↦ json_contains value found && members_contained m live
  ]

module _ {T : Type 0} (R : Resource T) (kind : Text) where
  unfoldable pub comparison_value : T → Value
  unfolding without_member normalize_associations_for_comparison
  comparison_value resource =
      normalize_associations_for_comparison kind (without_timestamps (R.to_value resource))

  unfoldable pub resource_values_match : T → T → Bool
  unfolding comparison_value json_contains
  resource_values_match desired live =
      json_contains (comparison_value desired) (comparison_value live)

  unfoldable pub resource_values_equal : T → T → Bool
  unfolding comparison_value same_value
  resource_values_equal desired live = same_value (comparison_value desired) (comparison_value live)
