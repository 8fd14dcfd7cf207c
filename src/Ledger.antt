-- ===== src/Ledger.antt =====
-- state.rs: the ownership ledger `.state/<env>.json` and the operations that record an apply in it.
pub mod Journal
pub mod Allocation
pub mod Ownership
pub mod Replacement
pub mod Recording
pub mod Disjoint
use ferrum_edge_git_forge_op.Base.{
  ℕ, ◌+◌, Text, codes, List, [], ◌∷◌, ◌++◌, map, select, Bool, true, false, not, ◌&&◌, Option, none,
  some, contains, text_eq, text_key, ◌==◌, if◌then◌else◌, Result, ok, err,
}
use ferrum_edge_git_forge_op.Base.Map
use ferrum_edge_git_forge_op.Base.Map.{Map, Keys}
use ferrum_edge_git_forge_op.StateKey.{state_key, state_key_namespace}
use ferrum_edge_git_forge_op.Config.{Proxy, Consumer, Upstream, PluginConfig, GatewayConfig}
use ferrum_edge_git_forge_op.Config.Identity.{
  Identity, key_of, proxy_identity, consumer_identity, upstream_identity, plugin_identity,
  ResourceKeys,
}
use ferrum_edge_git_forge_op.Change.{DiffAction, add, modify, delete, AppliedOp}

pub record CredentialMetadata : Type 0 where
  pub slot : Text
  pub shard : ℕ
  pub last_rotated : Text
  pub delivered_to : Option Text
  pub delivered_run_id : Option Text
  pub allocation_commit : Option Text
  pub allocation_recipient : Option Text

pub record OverrideRecord : Type 0 where
  pub rule_id : Text
  pub commit : Text
  pub approver : Text
  pub recorded_at : Text
  pub pr_number : Option ℕ
  pub authorized_head : Option Text
  pub review_id : Option ℕ

pub record StateFile : Type 0 where
  pub version : ℕ
  pub environment : Text
  pub last_applied_at : Option Text
  pub last_applied_commit : Option Text
  pub resources : Map Text Text
  pub pending_creates : Keys Text
  pub credentials : Map Text CredentialMetadata
  pub credential_shard_count : ℕ
  pub overrides : List OverrideRecord
  pub mesh_document_path : Option Text

abbrev pub state_version : ℕ
state_version = 3

abbrev pub min_supported_state_version : ℕ
min_supported_state_version = 2

abbrev pub default_shard_count : ℕ
default_shard_count = 1

abbrev pub default_state : StateFile
default_state = record {
  version = state_version;
  environment = codes "default";
  last_applied_at = none;
  last_applied_commit = none;
  resources = [];
  pending_creates = [];
  credentials = [];
  credential_shard_count = default_shard_count;
  overrides = [];
  mesh_document_path = none;
}

abbrev pub managed_resource_marker : Text
managed_resource_marker = codes "managed:v1"

-- The test by which `record` retains an entry: its key parses, to a namespace outside the scope.
unfoldable pub outside : List Text → Text → Bool
outside scope key = elim (state_key_namespace key) [
  | none ↦ false
  | some ns ↦ not (contains scope ns)
]

-- One loop of `record` over a collection: the rows within the scope get a marker.
unfoldable pub insert_rows : List Text → List Identity → Map Text Text → Map Text Text
insert_rows scope [] resources = resources
insert_rows scope (row ∷ rows) resources = insert_rows scope rows (
    if contains scope row.namespace
    then Map.insert resources (key_of row) managed_resource_marker
    else resources)

-- The clock and `git rev-parse HEAD` are read when the ledger is stamped.
unfoldable pub stamp_last_applied : Text → Option Text → StateFile → StateFile
stamp_last_applied now head state = record state {
  last_applied_at = some now;
  last_applied_commit = head;
}

unfoldable pub stamp_last_applied_if_clean : Bool → Text → Option Text → StateFile → StateFile
unfolding stamp_last_applied
stamp_last_applied_if_clean apply_succeeded now head state =
    if apply_succeeded then stamp_last_applied now head state else state

unfoldable pub record_config :
    GatewayConfig → List Text → Text → Option Text → StateFile → StateFile
unfolding outside insert_rows
record_config config scope now head state = record state {
  resources = insert_rows scope (map plugin_identity config.plugin_configs) (
      insert_rows scope (map upstream_identity config.upstreams) (
        insert_rows scope (map consumer_identity config.consumers) (
          insert_rows scope (map proxy_identity config.proxies)
            (Map.retain (outside scope) state.resources))));
  pending_creates = Map.retain (outside scope) state.pending_creates;
  last_applied_at = some now;
  last_applied_commit = head;
}

-- The test by which `record_full_replace` retains an entry.
unfoldable pub elsewhere : Text → Text → Bool
elsewhere namespace key = elim (state_key_namespace key) [
  | none ↦ false
  | some ns ↦ not (ns == namespace)
]

-- One loop of `record_full_replace`, over the rows of the namespace.
unfoldable pub mark_rows : List Identity → Map Text Text → Map Text Text
mark_rows [] resources = resources
mark_rows (row ∷ rows) resources =
    mark_rows rows (Map.insert resources (key_of row) managed_resource_marker)

unfoldable pub record_full_replace : Text → GatewayConfig → StateFile → StateFile
unfolding elsewhere mark_rows select
record_full_replace namespace desired state =
    let proxies = select (λ (r : Proxy). r.namespace == namespace) desired.proxies in
    let consumers = select (λ (r : Consumer). r.namespace == namespace) desired.consumers in
    let upstreams = select (λ (r : Upstream). r.namespace == namespace) desired.upstreams in
    let plugins = select (λ (r : PluginConfig). r.namespace == namespace) desired.plugin_configs in
    record state {
      resources = mark_rows (map plugin_identity plugins) (
          mark_rows (map upstream_identity upstreams) (
            mark_rows (map consumer_identity consumers) (
              mark_rows (map proxy_identity proxies)
                (Map.retain (elsewhere namespace) state.resources))));
      pending_creates = Map.retain (elsewhere namespace) state.pending_creates;
    }

-- `record_op` by the action.
abbrev record_action : DiffAction → Text → ResourceKeys → StateFile → StateFile
record_action DiffAction.delete key desired state = record state {
  resources = Map.remove state.resources key;
  pending_creates = Map.remove state.pending_creates key;
}
record_action _ key desired state =
    if contains desired key
    then record state {
      resources = Map.insert state.resources key managed_resource_marker;
      pending_creates = Map.remove state.pending_creates key;
    }
    else state

unfoldable pub record_op : AppliedOp → ResourceKeys → StateFile → StateFile
record_op op desired state =
    record_action op.action (state_key op.namespace op.kind op.id) desired state

unfoldable pub publishes_mesh_document : StateFile → Text → Bool
publishes_mesh_document state output_path = elim state.mesh_document_path [
  | none ↦ false
  | some path ↦ path == output_path
]

unfoldable pub record_mesh_publication : Text → StateFile → StateFile
record_mesh_publication output_path state = record state { mesh_document_path = some output_path }

unfoldable pub previously_managed_keys : StateFile → List Text
previously_managed_keys state = Map.keys state.resources

unfoldable pub record_override : Text → Text → Text → Text → StateFile → StateFile
record_override rule_id commit approver now state = record state {
  overrides =
      state.overrides
      ++ record {
        rule_id = rule_id;
        commit = commit;
        approver = approver;
        recorded_at = now;
        pr_number = none;
        authorized_head = none;
        review_id = none;
      }
        ∷ [];
}
