-- ===== src/Apply/Order/Renames.antt =====
-- apply/api_target.rs: the `access_control` plugin configs that a rename of a consumer waits for.
use ferrum_edge_git_forge_op.Base.{
  Text, codes, List, [], ◌∷◌, ◌++◌, map, select, Bool, false, not, ◌&&◌, ◌||◌, Option, none, some,
  text_eq, ◌==◌, if◌then◌else◌, is_empty,
}
use ferrum_edge_git_forge_op.Base.HashMap
use ferrum_edge_git_forge_op.Base.HashMap.{any, holds}
use ferrum_edge_git_forge_op.Json.{Value, array, Items, nil, item, member_of, value_at, or_null}
use ferrum_edge_git_forge_op.StateKey.{consumer, plugin_config}
use ferrum_edge_git_forge_op.Config.{PluginConfig}
use ferrum_edge_git_forge_op.Change.{modify, ResourceDiff, FieldChange}
use ferrum_edge_git_forge_op.Diff.{row_eq}
use ferrum_edge_git_forge_op.Diff.Redact.{Serde}
use ferrum_edge_git_forge_op.Diff.Fields.{as_str}
use ferrum_edge_git_forge_op.Apply.Changes.{key_of, is_change}
use ferrum_edge_git_forge_op.Apply.Index.{ResourceIndex, at, plugin_name}

abbrev pub access_control_plugin : Text
access_control_plugin = codes "access_control"

unfoldable pub any_string : Text → Items → Bool
any_string name nil = false
any_string name (item entry rest) =
    holds (λ s. s == name) (as_str (some entry)) || any_string name rest

abbrev lists : Text → Option Value → Bool
lists name (some (array entries)) = any_string name entries
lists name _ = false

unfoldable pub access_control_names : Value → Text → Bool
unfolding value_at any_string
access_control_names config username =
    lists username (value_at config (codes "allowed_consumers"))
    || lists username (value_at config (codes "disallowed_consumers"))

-- The first change of a field.
unfoldable pub changed_field : Text → List FieldChange → Option FieldChange
changed_field field [] = none
changed_field field (change ∷ details) =
    if change.field == field then some change else changed_field field details

module _ (serde : Serde) where
  abbrev read_back : Option FieldChange → Option Value
  read_back none = none
  read_back (some change) = serde.from_str change.old_value

  unfoldable pub live_field : ResourceDiff → Text → Option Value
  unfolding changed_field
  live_field diff field = read_back (changed_field field diff.details)

  abbrev renamed_from : Text → Option Text → List (Text × Text)
  renamed_from namespace none = []
  renamed_from namespace (some old) = (namespace, old) ∷ []

  -- The set of pairs is a list here.
  unfoldable pub consumer_renames : List ResourceDiff → List (Text × Text)
  unfolding live_field
  consumer_renames [] = []
  consumer_renames (d ∷ diffs) =
      let rest = consumer_renames diffs in
      if is_change modify consumer d
      then renamed_from d.namespace (as_str (live_field d (codes "username"))) ++ rest
      else rest

  -- Whether the live config names a renamed consumer's previous username that the desired one drops.
  abbrev gives_way : List (Text × Text) → Text → Option PluginConfig → Option Value → Bool
  gives_way renames namespace (some plugin) (some live) =
      holds (λ name. name == access_control_plugin) (plugin_name plugin)
      && any
          (λ rename.
            rename.0 == namespace
            && (access_control_names live rename.1
                && not (
                    access_control_names (or_null (member_of plugin.fields (codes "config")))
                      rename.1)))
          renames
  gives_way renames namespace _ _ = false

  unfoldable pub unblocks : List (Text × Text) → ResourceIndex → ResourceDiff → Bool
  unfolding any live_field access_control_names plugin_name HashMap.lookup member_of
  unblocks renames index d =
      is_change modify plugin_config d
      && (not (any (λ change. change.field == codes "plugin_name") d.details)
          && gives_way renames d.namespace
              (HashMap.lookup index.plugin_configs (at d.namespace d.id))
              (live_field d (codes "config")))

  unfoldable pub rename_unblocking_keys : List ResourceDiff → ResourceIndex → List Text
  unfolding consumer_renames unblocks
  rename_unblocking_keys diffs index =
      let renames = consumer_renames diffs in
      let found = map key_of (select (unblocks renames index) diffs) in
      if is_empty renames then [] else found
