-- ===== src/Apply/Withhold.antt =====
-- apply/api_target.rs: creates and proxy writes that wait for plugin configs whose write failed.
use ferrum_edge_git_forge_op.Base.{
  Text, List, [], ◌∷◌, ◌++◌, map, select, Bool, not, contains, text_eq, text_key, if◌then◌else◌,
  is_empty,
}
use ferrum_edge_git_forge_op.Base.Map
use ferrum_edge_git_forge_op.Base.Map.{Keys}
use ferrum_edge_git_forge_op.Base.HashMap.{any}
use ferrum_edge_git_forge_op.StateKey.{state_key, proxy, plugin_config}
use ferrum_edge_git_forge_op.Config.{Proxy, PluginConfig}
use ferrum_edge_git_forge_op.Change.{ResourceDiff}
use ferrum_edge_git_forge_op.Apply.Changes.{key_of}
use ferrum_edge_git_forge_op.Apply.Index.{ResourceIndex, plugins}
use ferrum_edge_git_forge_op.Apply.Groups.{
  BatchCreate, empty_batch, collect_batch, batch_dependency_groups,
}
use ferrum_edge_git_forge_op.Apply.Outcome.{
  Error, failed_plugin_dependency, Message, group_withheld,
}

-- The set of failed plugin configs is a list here.
unfoldable pub proxy_has_failed_plugin : Proxy → List Text → Bool
unfolding any plugins
proxy_has_failed_plugin p failed_plugins = any (λ id. contains failed_plugins id) (plugins p)

unfoldable pub insert_all : List Text → Keys Text → Keys Text
insert_all [] set = set
insert_all (id ∷ ids) set = insert_all ids (Map.insert set id tt)

abbrev failed_of : List Text → Proxy → List Text
failed_of failed_plugins p = select (λ id. contains failed_plugins id) (plugins p)

unfoldable pub failed_plugin_references : Proxy → List Text → List Text
unfolding insert_all select plugins
failed_plugin_references p failed_plugins = Map.keys (insert_all (failed_of failed_plugins p) [])

unfoldable pub dependency_error : Proxy → List Text → Error
unfolding failed_plugin_references
dependency_error p failed_plugins =
    failed_plugin_dependency (failed_plugin_references p failed_plugins)

pub record BlockedCreateGroup : Type 0 where
  pub message : Message
  pub withheld_plugins : List Text

unfoldable pub failed_of_group : List Proxy → List Text → Keys Text → Keys Text
unfolding insert_all select plugins
failed_of_group [] failed_plugins set = set
failed_of_group (p ∷ proxies) failed_plugins set =
    failed_of_group proxies failed_plugins (insert_all (failed_of failed_plugins p) set)

abbrev ids_of : List PluginConfig → List Text
ids_of = map (λ (p : PluginConfig). p.id)

abbrev group_keys : BatchCreate → List Text
group_keys group =
    map (λ (p : Proxy). state_key p.namespace proxy p.id) group.proxies
    ++ map (λ (p : PluginConfig). state_key p.namespace plugin_config p.id) group.plugin_configs

abbrev blocked_group : BatchCreate → List Text → BlockedCreateGroup
blocked_group group failed = record {
  message =
      group_withheld (map (λ (p : Proxy). p.id) group.proxies) failed (ids_of group.plugin_configs);
  withheld_plugins = ids_of group.plugin_configs;
}

-- The blocked groups, and the keys that they withhold.
unfoldable pub block_groups : List Text → List BatchCreate → List BlockedCreateGroup × List Text
unfolding failed_of_group
block_groups failed_plugins [] = ([], [])
block_groups failed_plugins (group ∷ groups) =
    let failed = Map.keys (failed_of_group group.proxies failed_plugins []) in
    let (blocked, withheld) = block_groups failed_plugins groups in
    if is_empty failed
    then (blocked, withheld)
    else (blocked_group group failed ∷ blocked, group_keys group ++ withheld)

unfoldable pub partition_cyclic_creates :
    List ResourceDiff → ResourceIndex → List Text → List BlockedCreateGroup × List ResourceDiff
unfolding block_groups collect_batch batch_dependency_groups
partition_cyclic_creates cyclic_creates index failed_plugins =
    let (blocked, withheld) =
      block_groups failed_plugins
        (batch_dependency_groups (collect_batch cyclic_creates index empty_batch)) in
    if is_empty failed_plugins
    then ([], cyclic_creates)
    else (blocked, select (λ d. not (contains withheld (key_of d))) cyclic_creates)
