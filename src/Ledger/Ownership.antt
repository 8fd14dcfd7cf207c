-- ===== src/Ledger/Ownership.antt =====
-- What recording an apply does to the ledger: which keys it manages afterwards.
use ferrum_edge_git_forge_op.Base.{
  Text, ◌≡◌, Bool, true, false, not, ◌&&◌, ◌||◌, some, contains, text_eq, text_key, ◌==◌,
  if◌then◌else◌, arith, is_empty,
}
use ferrum_edge_git_forge_op.Base.Map
use ferrum_edge_git_forge_op.Base.Map.{Map, Keys}
use ferrum_edge_git_forge_op.StateKey.{state_key, state_key_namespace, is_state_key_kind}
use ferrum_edge_git_forge_op.StateKey.Laws.{kind-Free, state_key_namespace-state_key}
use ferrum_edge_git_forge_op.Config.Identity.{Identity, identity_eq, key_of, ResourceKeys}
use ferrum_edge_git_forge_op.Change.{DiffAction, AppliedOp}
use ferrum_edge_git_forge_op.Ledger.{StateFile, record_op, record_action, managed_resource_marker}

-- The identity of a row that the gateway can name: a known kind, a namespace and an id.
pub record IsNamed (a : Identity) : Type 0 where
  pub kind : is_state_key_kind a.kind ≡ true
  pub namespace : is_empty a.namespace ≡ false
  pub id : is_empty a.id ≡ false

pub namespace-key_of :
    (a : Identity) → IsNamed a → state_key_namespace (key_of a) ≡ some a.namespace
namespace-key_of a named =
    ground
      (arith, state_key_namespace-state_key a.namespace a.kind a.id (kind-Free a.kind named.kind))

abbrev pub op_key : AppliedOp → Text
op_key op = state_key op.namespace op.kind op.id

-- Whether the key of a recorded operation is managed, and journalled, afterwards.
abbrev pub managed_after : DiffAction → Bool → Bool → Bool
managed_after DiffAction.delete declared before = false
managed_after _ declared before = declared || before

abbrev pub pending_after : DiffAction → Bool → Bool → Bool
pending_after DiffAction.delete declared before = false
pending_after _ declared before = not declared && before

module _ (op : AppliedOp) (desired : ResourceKeys) (state : StateFile) (key : Text) where
  abbrev managed_before : Bool
  managed_before = Map.contains_key state.resources key

  abbrev pending_before : Bool
  pending_before = Map.contains_key state.pending_creates key

  abbrev after : StateFile
  after = record_op op desired state

  record_action_lem :
      (action : DiffAction)
      → (Map.contains_key (record_action action (op_key op) desired state).resources key ≡ (
          if op_key op == key
          then managed_after action (contains desired key) managed_before
          else managed_before))
        × (Map.contains_key (record_action action (op_key op) desired state).pending_creates key ≡ (
            if op_key op == key
            then pending_after action (contains desired key) pending_before
            else pending_before))
  record_action_lem DiffAction.delete = ground (
    arith,
    Map.contains_key-remove state.resources (op_key op) key,
    Map.contains_key-remove state.pending_creates (op_key op) key,
  )
  record_action_lem _ = ground (
    arith,
    Map.contains_key-insert state.resources (op_key op) key managed_resource_marker,
    Map.contains_key-remove state.pending_creates (op_key op) key,
  )

  -- Recording an operation changes nothing at the keys of other resources. At its own key, a delete
  -- ends both ownership and the journal entry; an add or modify claims the key and clears the
  -- journal entry if the desired document declares it, and changes nothing if not.
  pub record_op_lem :
      (Map.contains_key after.resources key ≡ (
        if op_key op == key
        then managed_after op.action (contains desired key) managed_before
        else managed_before))
      × (Map.contains_key after.pending_creates key ≡ (
          if op_key op == key
          then pending_after op.action (contains desired key) pending_before
          else pending_before))
  unfolding record_op
  record_op_lem = record_action_lem op.action
