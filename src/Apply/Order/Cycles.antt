-- ===== src/Apply/Order/Cycles.antt =====
-- apply/api_target.rs: the creates of new proxies and of their new scoped plugin configs.
use ferrum_edge_git_forge_op.Base.{
  Text, List, [], ◌∷◌, ◌++◌, map, select, Option, none, some, contains, text_eq, if◌then◌else◌,
}
use ferrum_edge_git_forge_op.Base.HashMap
use ferrum_edge_git_forge_op.StateKey.{state_key, proxy, plugin_config}
use ferrum_edge_git_forge_op.Config.{PluginConfig}
use ferrum_edge_git_forge_op.Change.{add, ResourceDiff}
use ferrum_edge_git_forge_op.Diff.{Row, row_eq}
use ferrum_edge_git_forge_op.Apply.Changes.{key_of, is_change}
use ferrum_edge_git_forge_op.Apply.Index.{ResourceIndex, at, has_proxy_scope, proxy_id}

abbrev pub diff_row : ResourceDiff → Row
diff_row d = at d.namespace d.id

unfoldable pub new_proxies : List ResourceDiff → List Row
new_proxies diffs = map diff_row (select (is_change add proxy) diffs)

-- The proxy that a plugin config is scoped to.
abbrev pub scoped_to : Option PluginConfig → Option Text
scoped_to none = none
scoped_to (some plugin) = if has_proxy_scope plugin then proxy_id plugin else none

abbrev pub cycle_keys : List Row → Text → Text → Option Text → List Text
cycle_keys fresh namespace id none = []
cycle_keys fresh namespace id (some owner) =
    if contains fresh (at namespace owner)
    then state_key namespace plugin_config id ∷ state_key namespace proxy owner ∷ []
    else []

-- The loop over the added plugin configs. The set of keys is a list here.
unfoldable pub cyclic_keys : List Row → ResourceIndex → List ResourceDiff → List Text
unfolding has_proxy_scope proxy_id HashMap.lookup
cyclic_keys fresh index [] = []
cyclic_keys fresh index (d ∷ diffs) =
    let rest = cyclic_keys fresh index diffs in
    if is_change add plugin_config d
    then cycle_keys fresh d.namespace d.id
        (scoped_to (HashMap.lookup index.plugin_configs (diff_row d)))
      ++ rest
    else rest

unfoldable pub cyclic_create_diffs : List ResourceDiff → ResourceIndex → List ResourceDiff
unfolding new_proxies cyclic_keys
cyclic_create_diffs diffs index =
    let keys = cyclic_keys (new_proxies diffs) index diffs in
    select (λ d. contains keys (key_of d)) diffs
