-- ===== src/Diff/Fields.antt =====
-- diff/resource_diff.rs: the fields in which a desired and a live resource differ.
use ferrum_edge_git_forge_op.Base.{
  Text, codes, List, [], ◌∷◌, ◌++◌, Bool, true, false, not, ◌&&◌, ◌||◌, Option, none, some, text_eq,
  text_lt, ◌==◌, if◌then◌else◌, is_some,
}
use ferrum_edge_git_forge_op.Json.{
  Value, string, array, object, Items, nil, item, Members, end, member, same_value, value_at,
  member_of, with_member, or_null,
}
use ferrum_edge_git_forge_op.StateKey.{proxy}
use ferrum_edge_git_forge_op.Change.{FieldChange}
use ferrum_edge_git_forge_op.Diff.Redact.{Serde}

-- What the diff asks of a resource: its identity, its API-spec tag, its serialization and its
-- unmodelled fields.
pub record Resource (T : Type 0) : Type 0 where
  pub id : T → Text
  pub namespace : T → Text
  pub api_spec_id : T → Option Text
  pub to_value : T → Value
  pub passthrough : T → Members

-- `Option<&str>` orders `None` first.
abbrev id_le : Option Text → Option Text → Bool
id_le none b = true
id_le (some s) none = false
id_le (some s) (some t) = not (text_lt t s)

abbrev pub as_str : Option Value → Option Text
as_str (some (string s)) = some s
as_str _ = none

unfoldable pub association_id : Value → Option Text
unfolding value_at
association_id value = as_str (value_at value (codes "plugin_config_id"))

unfoldable pub place_association : Value → Items → Items
unfolding association_id text_lt
place_association x nil = item x nil
place_association x (item y ys) =
    if id_le (association_id x) (association_id y)
    then item x (item y ys)
    else item y (place_association x ys)

unfoldable pub sort_associations : Items → Items
unfolding place_association
sort_associations nil = nil
sort_associations (item x xs) = place_association x (sort_associations xs)

abbrev sort_plugins : Members → Option Value → Members
sort_plugins m (some (array plugins)) =
    with_member m (codes "plugins") (array (sort_associations plugins))
sort_plugins m _ = m

unfoldable pub normalize_associations_for_comparison : Text → Value → Value
unfolding sort_associations member_of with_member
normalize_associations_for_comparison kind (object m) =
    if kind == proxy then object (sort_plugins m (member_of m (codes "plugins"))) else object m
normalize_associations_for_comparison kind value = value

abbrev pub is_timestamp : Text → Bool
is_timestamp key = key == codes "created_at" || key == codes "updated_at"

module _ (serde : Serde) where
  -- The first loop, over the desired fields. `originals` holds the associations in wire order.
  unfoldable pub desired_changes : Option (Value × Value) → Members → Members → List FieldChange
  unfolding same_value member_of
  desired_changes originals end live = []
  desired_changes originals (member key d_val m) live =
      let rest = desired_changes originals m live in
      let a_val = or_null (member_of live key) in
      let shown : Value × Value = elim originals [
        | none ↦ (d_val, a_val)
        | some (d, a) ↦ if key == codes "plugins" then (d, a) else (d_val, a_val)
      ] in
      if is_timestamp key || same_value d_val a_val
      then rest
      else record {
        field = key;
        old_value = serde.to_string shown.1;
        new_value = serde.to_string shown.0;
      }
        ∷ rest

  -- The second loop, over the live fields.
  unfoldable pub live_changes : Members → Members → Members → Members → List FieldChange
  unfolding member_of
  live_changes end desired live_extra desired_extra = []
  live_changes (member key a_val m) desired live_extra desired_extra =
      let rest = live_changes m desired live_extra desired_extra in
      if is_timestamp key
        || ((is_some (member_of live_extra key) && not (is_some (member_of desired_extra key)))
            || is_some (member_of desired key))
      then rest
      else record { field = key; old_value = serde.to_string a_val; new_value = codes "null" }
        ∷ rest

  abbrev changes_of : Option (Value × Value) → Members → Members → Value → Value → List FieldChange
  changes_of originals live_extra desired_extra (object d) (object a) =
      desired_changes originals d a ++ live_changes a d live_extra desired_extra
  changes_of originals live_extra desired_extra _ _ = []

  module _ {T : Type 0} (R : Resource T) where
    unfoldable pub compare_fields : Text → T → T → List FieldChange
    unfolding desired_changes live_changes normalize_associations_for_comparison value_at
    compare_fields kind desired actual =
        let d = R.to_value desired in
        let a = R.to_value actual in
        let originals =
          if kind == proxy
          then some (or_null (value_at d (codes "plugins")), or_null (value_at a (codes "plugins")))
          else none in
        let d' = normalize_associations_for_comparison kind d in
        let a' = normalize_associations_for_comparison kind a in
        let changes = changes_of originals (R.passthrough actual) (R.passthrough desired) d' a' in
        if same_value d' a' then [] else changes
