-- ===== src/Ledger/Disjoint.antt =====
-- state.rs: the steps by which an incremental apply changes the ledger, and that no key is managed
-- and pending at once.
use ferrum_edge_git_forge_op.Base.{
  Text, List, ◌≡◌, ap, Bool, true, false, ◌&&◌, text_eq, text_key, ◌==◌, contains, if◌then◌else◌,
  arith,
}
use ferrum_edge_git_forge_op.Base.Map
use ferrum_edge_git_forge_op.Base.Map.{Map, contains_key-retain}
use ferrum_edge_git_forge_op.Config.{GatewayConfig}
use ferrum_edge_git_forge_op.Config.Identity.{ResourceKeys, from_config}
use ferrum_edge_git_forge_op.Change.{DiffAction, AppliedOp, ResourceDiff}
use ferrum_edge_git_forge_op.Ledger.{StateFile, record_op}
use ferrum_edge_git_forge_op.Ledger.Ownership.{op_key, managed_after, pending_after, record_op_lem}
use ferrum_edge_git_forge_op.Ledger.Journal.{
  PendingCreateScope, reserve_adds, reconcile_pending_creates, reconcile_absent_managed_resources,
  retained,
}
use ferrum_edge_git_forge_op.Ledger.Journal.Laws.{
  declares_adds, reserve_adds_frame, reserve_adds-journal, reconcile_pending_creates_lem,
}

-- The ledger's steps in an incremental apply: the two reconciliations with what was read, the
-- reservation of the adds, which aborts the apply if it fails, and the record of an operation.
pub data Step : StateFile → StateFile → Type 0 where
  reconcile_pending :
      (desired : GatewayConfig) (actuals : Map Text GatewayConfig) (scope : PendingCreateScope)
      (state : StateFile)
      → Step state (reconcile_pending_creates desired actuals scope state).0
  reconcile_absent :
      (desired : GatewayConfig) (actuals : Map Text GatewayConfig) (state : StateFile)
      → Step state (reconcile_absent_managed_resources desired actuals state).0
  reserve :
      (diffs : List ResourceDiff) (desired : GatewayConfig) (state : StateFile)
      → declares_adds diffs (from_config desired) ≡ true
      → Step state (reserve_adds diffs desired state).1
  applied :
      (op : AppliedOp) (desired : ResourceKeys) (state : StateFile)
      → Step state (record_op op desired state)

pub data Steps : StateFile → StateFile → Type 0 where
  done : (state : StateFile) → Steps state state
  more :
      {before between after : StateFile}
      → Step before between
      → Steps between after
      → Steps before after

abbrev pub IsDisjoint : StateFile → Type 0
IsDisjoint state =
    (key : Text)
    → (Map.contains_key state.resources key && Map.contains_key state.pending_creates key) ≡ false

op_apart :
    (same declared managed pending : Bool) (action : DiffAction)
    → (managed && pending) ≡ false
    → ((if same then managed_after action declared managed else managed)
        && (if same then pending_after action declared pending else pending))
      ≡ false
op_apart same declared managed pending DiffAction.add h = ground arith
op_apart same declared managed pending DiffAction.modify h = ground arith
op_apart same declared managed pending DiffAction.delete h = ground arith

fewer :
    (kept managed pending : Bool)
    → (managed && pending) ≡ false
    → ((kept && managed) && pending) ≡ false
fewer kept managed pending h = ground arith

absent_apart :
    (desired : GatewayConfig) (actuals : Map Text GatewayConfig) (state : StateFile)
    → IsDisjoint state
    → IsDisjoint (reconcile_absent_managed_resources desired actuals state).0
unfolding reconcile_absent_managed_resources
absent_apart desired actuals state h key =
    let kept = retained (from_config desired) actuals in
    rw (contains_key-retain kept state.resources key) (fewer (kept key) _ _ (h key))

Step-IsDisjoint :
    {before after : StateFile} → Step before after → IsDisjoint before → IsDisjoint after
Step-IsDisjoint (applied op desired state) h key =
    let (managed, pending) = record_op_lem op desired state key in
    rw (managed, pending) (op_apart (op_key op == key) (contains desired key) _ _ op.action (h key))
Step-IsDisjoint (reserve diffs desired state declared) h key =
    let after = (reserve_adds diffs desired state).1 in
    let frame : after.resources ≡ state.resources =
      ap (λ (s : StateFile). s.resources) (reserve_adds_frame diffs desired state).0 in
    rw (frame, reserve_adds-journal diffs desired state key declared) (ground (arith, h key))
Step-IsDisjoint (reconcile_pending desired actuals scope state) h key =
    let (frame, journal) = reconcile_pending_creates_lem desired actuals scope state key in
    let same = ap (λ (s : StateFile). s.resources) frame in
    rw (same, journal) (ground (arith, h key))
Step-IsDisjoint (reconcile_absent desired actuals state) h key =
    absent_apart desired actuals state h key

-- Whatever the order and number of the ledger's steps in an incremental apply (reconciliations,
-- successful reservations, recorded operations), if no key was managed and pending at once, none
-- is.
pub Steps-IsDisjoint :
    {before after : StateFile} → Steps before after → IsDisjoint before → IsDisjoint after
Steps-IsDisjoint (done state) h = h
Steps-IsDisjoint (more step steps) h = Steps-IsDisjoint steps (Step-IsDisjoint step h)
