-- ===== src/Apply/Index.antt =====
-- apply/api_target.rs: the rows of a gateway document by namespace and id, `ResourceIndex`, and the
-- fields of proxies and plugin configs that the apply reads.
pub mod Laws
use ferrum_edge_git_forge_op.Base.{
  Text, codes, List, [], ◌∷◌, ◌++◌, ◌≡◌, refl, ◌∙◌, Bool, true, false, ◌&&◌, Option, none, some,
  contains, text_eq, text_key, ◌==◌, if◌then◌else◌, is_some, arith,
}
use ferrum_edge_git_forge_op.Base.Map
use ferrum_edge_git_forge_op.Base.Map.{Keys}
use ferrum_edge_git_forge_op.Base.HashMap
use ferrum_edge_git_forge_op.Base.HashMap.{HashMap, any, holds, lookup}
use ferrum_edge_git_forge_op.Json.{Value, string, array, Items, nil, item, member_of, value_at}
use ferrum_edge_git_forge_op.StateKey.{proxy, upstream, plugin_config}
use ferrum_edge_git_forge_op.Config.{Proxy, Consumer, Upstream, PluginConfig, GatewayConfig}
use ferrum_edge_git_forge_op.Diff.{Row, row_eq}
use ferrum_edge_git_forge_op.Diff.Fields.{as_str, association_id}

-- The references of a list of associations. Serde refuses an association without an id.
unfoldable pub reference_ids : Items → List Text
unfolding association_id
reference_ids nil = []
reference_ids (item association rest) = elim (association_id association) [
  | none ↦ reference_ids rest
  | some id ↦ id ∷ reference_ids rest
]

abbrev references_of : Option Value → List Text
references_of (some (array associations)) = reference_ids associations
references_of _ = []

-- `proxy.plugins`, each as its `plugin_config_id`.
unfoldable pub plugins : Proxy → List Text
unfolding member_of reference_ids
plugins p = references_of (member_of p.fields (codes "plugins"))

unfoldable pub plugin_name : PluginConfig → Option Text
unfolding member_of
plugin_name p = as_str (member_of p.fields (codes "plugin_name"))

unfoldable pub proxy_id : PluginConfig → Option Text
unfolding member_of
proxy_id p = as_str (member_of p.fields (codes "proxy_id"))

-- `plugin.scope == PluginScope::Proxy`
unfoldable pub has_proxy_scope : PluginConfig → Bool
unfolding member_of
has_proxy_scope p =
    holds (λ scope. scope == codes "proxy") (as_str (member_of p.fields (codes "scope")))

abbrev pub at : Text → Text → Row
at namespace id = record { namespace = namespace; id = id }

abbrev pub proxy_row : Proxy → Row
proxy_row p = at p.namespace p.id

abbrev pub consumer_row : Consumer → Row
consumer_row c = at c.namespace c.id

abbrev pub upstream_row : Upstream → Row
upstream_row u = at u.namespace u.id

abbrev pub plugin_row : PluginConfig → Row
plugin_row p = at p.namespace p.id

pub record ResourceIndex : Type 0 where
  pub proxies : HashMap Row Proxy
  pub consumers : HashMap Row Consumer
  pub upstreams : HashMap Row Upstream
  pub plugin_configs : HashMap Row PluginConfig

module _ {T : Type 0} (key : T → Row) where
  -- `entry(key).or_insert(row)`, over the rows.
  unfoldable pub index_rows : HashMap Row T → List T → HashMap Row T
  unfolding HashMap.lookup
  index_rows map [] = map
  index_rows map (row ∷ rows) =
      index_rows
        (if is_some (HashMap.lookup map (key row)) then map else map ++ (key row, row) ∷ []) rows

unfoldable pub build : GatewayConfig → ResourceIndex
unfolding index_rows
build config = record {
  proxies = index_rows proxy_row [] config.proxies;
  consumers = index_rows consumer_row [] config.consumers;
  upstreams = index_rows upstream_row [] config.upstreams;
  plugin_configs = index_rows plugin_row [] config.plugin_configs;
}

-- The ids of the proxies that pass a test, put into the set.
unfoldable pub insert_ids : (Proxy → Bool) → HashMap Row Proxy → Keys Text → Keys Text
insert_ids p [] set = set
insert_ids p ((_, proxy_) ∷ rows) set =
    insert_ids p rows (if p proxy_ then Map.insert set proxy_.id tt else set)

unfoldable pub referencing_proxy_ids : ResourceIndex → Text → Text → List Text
unfolding insert_ids plugins
referencing_proxy_ids index namespace plugin_id =
    Map.keys (
      insert_ids (λ p. p.namespace == namespace && contains (plugins p) plugin_id) index.proxies [])

unfoldable pub is_spec_owned : ResourceIndex → Text → Text → Text → Bool
unfolding HashMap.lookup
is_spec_owned index kind namespace id =
    if kind == proxy
    then holds (λ r. is_some r.api_spec_id) (HashMap.lookup index.proxies (at namespace id))
    else if kind == upstream
    then holds (λ r. is_some r.api_spec_id) (HashMap.lookup index.upstreams (at namespace id))
    else if kind == plugin_config
    then holds (λ r. is_some r.api_spec_id) (HashMap.lookup index.plugin_configs (at namespace id))
    else false
