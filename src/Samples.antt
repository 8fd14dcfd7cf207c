-- ===== src/Samples.antt =====
-- Concrete documents, ledgers and runs, and the theorems at them.
mod Keys
mod Ledgers
mod Allocations
mod Allocators
mod Bundles
mod Placeholders
mod SpecOwned
mod Diffs
mod Applies
mod Runs
mod Reconciles
mod Adoptions
mod Batches
use ferrum_edge_git_forge_op.Base.{Text, codes, List, [], ◌∷◌, Option, none, some, ℕ}
use ferrum_edge_git_forge_op.Json.{Value, string, object, Members, end, member}
use ferrum_edge_git_forge_op.Config.{Proxy, Consumer, Upstream, PluginConfig, GatewayConfig}
use ferrum_edge_git_forge_op.StateKey.{state_key, proxy, consumer}
use ferrum_edge_git_forge_op.Ledger.{StateFile, default_state, managed_resource_marker}

abbrev pub route : Text → Text → Option Text → Text → Proxy
route namespace id spec path = record {
  id = id;
  namespace = namespace;
  api_spec_id = spec;
  fields = member (codes "listen_path") (string path) end;
  extra = end;
}

abbrev pub client : Text → Text → Consumer
client namespace id = record {
  id = id;
  namespace = namespace;
  fields = member (codes "username") (string id) end;
  extra = end;
}

abbrev pub ns : Text
ns = codes "team:a"

abbrev pub other_ns : Text
other_ns = codes "b"

abbrev pub empty_config : GatewayConfig
empty_config = record {
  version = codes "1";
  proxies = [];
  consumers = [];
  plugin_configs = [];
  upstreams = [];
}

-- The repository declares one proxy and one consumer.
abbrev pub repository : GatewayConfig
repository = record empty_config {
  proxies = route ns (codes "p") none (codes "/new") ∷ [];
  consumers = client ns (codes "c") ∷ [];
}

-- The gateway has an older proxy, a proxy that the repository dropped, and one that it never had.
abbrev pub gateway : GatewayConfig
gateway = record empty_config {
  proxies =
      route ns (codes "p") none (codes "/old")
      ∷ route ns (codes "gone") none (codes "/g")
      ∷ route ns (codes "admin") none (codes "/a")
      ∷ [];
}

abbrev pub key_p : Text
key_p = codes "__gitforgeops_state_key_v2:team%3Aa:Proxy:p"

abbrev pub key_gone : Text
key_gone = codes "__gitforgeops_state_key_v2:team%3Aa:Proxy:gone"

abbrev pub key_c : Text
key_c = codes "__gitforgeops_state_key_v2:team%3Aa:Consumer:c"

abbrev pub key_x : Text
key_x = codes "__gitforgeops_state_key_v2:b:Proxy:x"

abbrev pub ledger : StateFile
ledger = record default_state {
  environment = codes "staging";
  resources =
      (key_x, managed_resource_marker)
      ∷ (key_gone, managed_resource_marker)
      ∷ (key_p, managed_resource_marker)
      ∷ [];
  pending_creates = (key_c, tt) ∷ [];
}
