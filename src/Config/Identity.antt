-- ===== src/Config/Identity.antt =====
-- config/mod.rs: the identity (namespace, kind, id) of a resource, and the check that no two
-- resources of a document share one. state.rs: the set of the state keys of a document.
pub mod Laws
use mathlib.Core.Logic.{dite}
use mathlib.Core.Bool.{Bool-discrete}
use ferrum_edge_git_forge_op.Base.{
  ℕ, ◌+◌, Text, codes, List, [], ◌∷◌, ◌++◌, map, Bool, true, false, ◌&&◌, ◌≡◌, contains, text_eq,
  text_key, ◌==◌, if◌then◌else◌, Result, ok, err, ◌>>=◌, Eq, arith, ==_refl,
}
use ferrum_edge_git_forge_op.StateKey.{proxy, consumer, upstream, plugin_config, state_key}
use ferrum_edge_git_forge_op.Config.{Proxy, Consumer, Upstream, PluginConfig, GatewayConfig}

pub data ConfigError : Type 0 where
  duplicate_resource_key : Text → Text → Text → ConfigError

pub record Identity : Type 0 where
  pub namespace : Text
  pub kind : Text
  pub id : Text

pub same_identity : Identity → Identity → Bool
same_identity a b = a.namespace == b.namespace && (a.kind == b.kind && a.id == b.id)

pub same_identity_sound : (a b : Identity) → same_identity a b ≡ true → a ≡ b
unfolding same_identity
same_identity_sound a b h = ground arith

pub same_identity_complete : (a b : Identity) → a ≡ b → same_identity a b ≡ true
unfolding same_identity
same_identity_complete a b h = ground (arith, ==_refl a.namespace, ==_refl a.kind, ==_refl a.id)

instance unfoldable pub identity_eq : Eq Identity
unfolding same_identity text_eq
identity_eq = record {
  dec = λ s t.
      dite (Bool-discrete (same_identity s t) true) (λ same. yes (same_identity_sound s t same))
        (λ differ. no (λ p. differ (same_identity_complete s t p)));
}

abbrev pub key_of : Identity → Text
key_of a = state_key a.namespace a.kind a.id

-- The identities of one collection.
abbrev pub proxy_identity : Proxy → Identity
proxy_identity r = record { namespace = r.namespace; kind = proxy; id = r.id }

abbrev pub consumer_identity : Consumer → Identity
consumer_identity r = record { namespace = r.namespace; kind = consumer; id = r.id }

abbrev pub upstream_identity : Upstream → Identity
upstream_identity r = record { namespace = r.namespace; kind = upstream; id = r.id }

abbrev pub plugin_identity : PluginConfig → Identity
plugin_identity r = record { namespace = r.namespace; kind = plugin_config; id = r.id }

-- Every identity that a document declares, proxies first.
abbrev pub identities : GatewayConfig → List Identity
identities config =
    map proxy_identity config.proxies
    ++ (map consumer_identity config.consumers
        ++ (map upstream_identity config.upstreams ++ map plugin_identity config.plugin_configs))

unfoldable pub insert_resource_key : List Identity → Identity → Result ConfigError (List Identity)
insert_resource_key seen key =
    if contains seen key
    then err (duplicate_resource_key key.namespace key.kind key.id)
    else ok (key ∷ seen)

-- One loop of the check.
unfoldable pub insert_resource_keys :
    List Identity → List Identity → Result ConfigError (List Identity)
unfolding insert_resource_key
insert_resource_keys seen [] = ok seen
insert_resource_keys seen (key ∷ keys) =
    insert_resource_key seen key >>= λ seen'. insert_resource_keys seen' keys

unfoldable pub validate_unique_resource_keys : GatewayConfig → Result ConfigError (Unit {0})
unfolding insert_resource_keys
validate_unique_resource_keys config = do
  proxies ← insert_resource_keys [] (map proxy_identity config.proxies)
  consumers ← insert_resource_keys proxies (map consumer_identity config.consumers)
  upstreams ← insert_resource_keys consumers (map upstream_identity config.upstreams)
  plugins ← insert_resource_keys upstreams (map plugin_identity config.plugin_configs)
  ok tt

-- `ResourceKeys`, whose set is only asked for membership.
abbrev pub ResourceKeys : Type 0
ResourceKeys = List Text

unfoldable pub from_config : GatewayConfig → ResourceKeys
from_config config =
    map (λ (r : Proxy). state_key r.namespace proxy r.id) config.proxies
    ++ (map (λ (r : Consumer). state_key r.namespace consumer r.id) config.consumers
        ++ (map (λ (r : Upstream). state_key r.namespace upstream r.id) config.upstreams
            ++ map (λ (r : PluginConfig). state_key r.namespace plugin_config r.id)
                config.plugin_configs))
