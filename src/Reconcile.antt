-- ===== src/Reconcile.antt =====
-- reconcile.rs: the namespaces that a command looks at, and the keys that it may delete.
pub mod Laws
use ferrum_edge_git_forge_op.Base.{Text, List, [], ◌∷◌, ◌++◌, Option, none, some, text_key}
use ferrum_edge_git_forge_op.Base.Map
use ferrum_edge_git_forge_op.Base.Map.{Keys}
use ferrum_edge_git_forge_op.StateKey.{state_key_namespace}
use ferrum_edge_git_forge_op.Config.{GatewayConfig, collect_namespaces, insert_namespaces}
use ferrum_edge_git_forge_op.Ledger.{StateFile, previously_managed_keys}

pub data OwnershipMode : Type 0 where
  exclusive shared : OwnershipMode

pub record OwnershipConfig : Type 0 where
  pub mode : OwnershipMode
  pub namespaces : Option (List Text)

-- The fields of an environment that the choice of namespaces reads.
pub record ResolvedEnv : Type 0 where
  pub name : Text
  pub namespace_filter : Option Text
  pub ownership : OwnershipConfig

abbrev pub insert_parsed : Option Text → Keys Text → Keys Text
insert_parsed none set = set
insert_parsed (some namespace) set = Map.insert set namespace tt

-- The namespaces of state keys, put into the set.
unfoldable pub insert_key_namespaces : List Text → Keys Text → Keys Text
insert_key_namespaces [] set = set
insert_key_namespaces (key ∷ rest) set =
    insert_key_namespaces rest (insert_parsed (state_key_namespace key) set)

abbrev pub ledger_keys : StateFile → List Text
ledger_keys state = Map.keys state.resources ++ Map.keys state.pending_creates

unfoldable pub shared_namespaces : GatewayConfig → StateFile → List Text
unfolding insert_namespaces insert_key_namespaces
shared_namespaces desired state =
    Map.keys (
      insert_key_namespaces (ledger_keys state) (insert_namespaces (collect_namespaces desired) []))

abbrev owned_or_empty : Option (List Text) → List Text
owned_or_empty none = []
owned_or_empty (some owned) = owned

abbrev pub namespaces_by :
    OwnershipMode → Option Text → Option (List Text) → GatewayConfig → StateFile → List Text
namespaces_by exclusive (some namespace) owned desired state = namespace ∷ []
namespaces_by exclusive none owned desired state = owned_or_empty owned
namespaces_by shared (some namespace) owned desired state = namespace ∷ []
namespaces_by shared none owned desired state = shared_namespaces desired state

unfoldable pub resolved_namespaces : ResolvedEnv → GatewayConfig → StateFile → List Text
resolved_namespaces resolved desired state =
    namespaces_by resolved.ownership.mode resolved.namespace_filter resolved.ownership.namespaces
      desired state

abbrev managed_by : OwnershipMode → StateFile → Option (List Text)
managed_by shared state = some (previously_managed_keys state)
managed_by exclusive state = none

unfoldable pub previously_managed : ResolvedEnv → StateFile → Option (List Text)
previously_managed resolved state = managed_by resolved.ownership.mode state
