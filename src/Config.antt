-- ===== src/Config.antt =====
-- config/schema.rs and config/mod.rs: the gateway document, its selection by namespace and the
-- refusal of duplicate identities.
pub mod Identity
use ferrum_edge_git_forge_op.Base.{
  Text, codes, List, [], ◌∷◌, ◌++◌, map, select, Bool, true, false, Option, none, some, contains,
  text_eq, text_key, ◌==◌, if◌then◌else◌, Result, ok, err, ◌>>=◌, Eq,
}
use ferrum_edge_git_forge_op.Base.Map
use ferrum_edge_git_forge_op.Base.Map.{Keys}
use ferrum_edge_git_forge_op.Json.{Members}
use ferrum_edge_git_forge_op.StateKey.{proxy, consumer, upstream, plugin_config, state_key}

-- `fields` holds the modelled fields but the named ones, as serde writes them, and `extra` the
-- unmodelled fields of the document.
pub record Proxy : Type 0 where
  pub id : Text
  pub namespace : Text
  pub api_spec_id : Option Text
  pub fields : Members
  pub extra : Members

pub record Consumer : Type 0 where
  pub id : Text
  pub namespace : Text
  pub fields : Members
  pub extra : Members

pub record Upstream : Type 0 where
  pub id : Text
  pub namespace : Text
  pub api_spec_id : Option Text
  pub fields : Members
  pub extra : Members

pub record PluginConfig : Type 0 where
  pub id : Text
  pub namespace : Text
  pub api_spec_id : Option Text
  pub fields : Members
  pub extra : Members

pub record GatewayConfig : Type 0 where
  pub version : Text
  pub proxies : List Proxy
  pub consumers : List Consumer
  pub plugin_configs : List PluginConfig
  pub upstreams : List Upstream

unfoldable pub filter_config_by_namespace : GatewayConfig → Text → GatewayConfig
filter_config_by_namespace config namespace = record {
  version = config.version;
  proxies = select (λ p. p.namespace == namespace) config.proxies;
  consumers = select (λ c. c.namespace == namespace) config.consumers;
  plugin_configs = select (λ p. p.namespace == namespace) config.plugin_configs;
  upstreams = select (λ u. u.namespace == namespace) config.upstreams;
}

unfoldable pub select_config_namespace : GatewayConfig → Option Text → GatewayConfig
select_config_namespace config (some namespace) = filter_config_by_namespace config namespace
select_config_namespace config none = config

-- The namespaces of one collection, put into the set.
unfoldable pub insert_namespaces : List Text → Keys Text → Keys Text
insert_namespaces [] set = set
insert_namespaces (namespace ∷ rest) set = insert_namespaces rest (Map.insert set namespace tt)

unfoldable pub collect_namespaces : GatewayConfig → List Text
unfolding insert_namespaces
collect_namespaces config =
    let with_proxies = insert_namespaces (map (λ (p : Proxy). p.namespace) config.proxies) [] in
    let with_consumers =
      insert_namespaces (map (λ (c : Consumer). c.namespace) config.consumers) with_proxies in
    let with_upstreams =
      insert_namespaces (map (λ (u : Upstream). u.namespace) config.upstreams) with_consumers in
    Map.keys (
      insert_namespaces (map (λ (p : PluginConfig). p.namespace) config.plugin_configs)
        with_upstreams)

unfoldable pub split_config_by_namespace : GatewayConfig → Option Text → List (Text × GatewayConfig)
split_config_by_namespace config (some namespace) =
    (namespace, filter_config_by_namespace config namespace) ∷ []
split_config_by_namespace config none =
    map (λ (namespace : Text). (namespace, filter_config_by_namespace config namespace))
      (collect_namespaces config)
