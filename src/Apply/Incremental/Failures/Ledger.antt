-- ===== src/Apply/Incremental/Failures/Ledger.antt =====
-- apply/api_target.rs, state.rs and main.rs: the ledger after a run in which a write failed.
use ferrum_edge_git_forge_op.Base.{
  Text, List, [], ◌∷◌, ◌≡◌, sym, ◌∙◌, ap, Bool, true, false, some, contains, text_eq, text_key,
  arith,
}
use ferrum_edge_git_forge_op.Base.HashMap.{any}
use ferrum_edge_git_forge_op.Base.Map
use ferrum_edge_git_forge_op.Config.{GatewayConfig}
use ferrum_edge_git_forge_op.Config.Identity.{ResourceKeys}
use ferrum_edge_git_forge_op.Change.{DiffAction, delete, AppliedOp, ResourceDiff}
use ferrum_edge_git_forge_op.Diff.Collection.{same_action}
use ferrum_edge_git_forge_op.Ledger.{StateFile, record_op}
use ferrum_edge_git_forge_op.Ledger.Ownership.{record_op_lem, managed_after}
use ferrum_edge_git_forge_op.Ledger.Recording.{record_ops}
use ferrum_edge_git_forge_op.Apply.Order.Deletes.{DeletesLast}
use ferrum_edge_git_forge_op.Apply.Outcome.{ApplyResult, default_result}
use ferrum_edge_git_forge_op.Apply.Run.{Request, Gateway, first_run}
use ferrum_edge_git_forge_op.Apply.Incremental.{apply_entries}
use ferrum_edge_git_forge_op.Apply.Incremental.Failures.{
  is_delete_op, deleted_any, write_failed_any, creates_only, apart,
}
use ferrum_edge_git_forge_op.Apply.Incremental.Failures.Loop.{
  result_of, no_delete_beside_failure, apply_entries-failures,
}

managed_kept :
    (action : DiffAction) (declared before : Bool)
    → same_action action delete ≡ false
    → before ≡ true
    → managed_after action declared before ≡ true
managed_kept DiffAction.add declared before h b = ground arith
managed_kept DiffAction.modify declared before h b = ground arith
managed_kept DiffAction.delete declared before h b = cc

record_op-keeps :
    (op : AppliedOp) (desired : ResourceKeys) (state : StateFile) (key : Text)
    → is_delete_op op ≡ false
    → Map.contains_key state.resources key ≡ true
    → Map.contains_key (record_op op desired state).resources key ≡ true
record_op-keeps op desired state key h b = ground (
  arith,
  (record_op_lem op desired state key).0,
  managed_kept op.action (contains desired key) (Map.contains_key state.resources key),
)

pub record_ops-keeps :
    (ops : List AppliedOp) (desired : ResourceKeys) (state : StateFile) (key : Text)
    → any is_delete_op ops ≡ false
    → Map.contains_key state.resources key ≡ true
    → Map.contains_key (record_ops ops desired state).resources key ≡ true
unfolding record_ops any
record_ops-keeps [] desired state key h b = b
record_ops-keeps (op ∷ ops) desired state key h b =
    record_ops-keeps ops desired (record_op op desired state) key (ground arith)
      (record_op-keeps op desired state key (ground arith) b)

no_delete :
    (result : ApplyResult)
    → apart result ≡ true
    → write_failed_any result ≡ true
    → deleted_any result ≡ false
no_delete result h failed = ground arith

-- If a batch reports creates only, no delete stands before a write of its namespace, and an add or a
-- modify failed or was withheld, then recording the operations that the loop applied loses no key
-- that the ledger managed, whatever the gateway answers.
pub record_ops-failed_write :
    (gateway : Gateway) (namespace : Text) (desired actual : GatewayConfig)
    (managed_ledger : List Text) (cyclic_creates : List ResourceDiff)
    (adds : (requests : List Request) (attempt : List ResourceDiff)
      → creates_only (gateway.try_batch_create requests attempt) ≡ true)
    (ds : List ResourceDiff) (requests : List Request) (result : ApplyResult)
    (declared : ResourceKeys) (state : StateFile) (key : Text)
    → DeletesLast ds
    → result_of (
        apply_entries gateway namespace desired actual managed_ledger cyclic_creates ds
          (first_run default_result cyclic_creates requests))
      ≡ some result
    → write_failed_any result ≡ true
    → Map.contains_key state.resources key ≡ true
    → Map.contains_key (record_ops result.applied_incremental declared state).resources key ≡ true
record_ops-failed_write gateway namespace desired actual managed_ledger cyclic_creates adds ds
      requests result declared state key last returned failed managed =
    record_ops-keeps result.applied_incremental declared state key
      (no_delete result
        (sym (ap no_delete_beside_failure returned)
          ∙ apply_entries-failures gateway namespace desired actual managed_ledger cyclic_creates
              adds ds requests last)
        failed)
      managed
