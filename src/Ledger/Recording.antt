-- ===== src/Ledger/Recording.antt =====
-- main.rs: the ledger after an incremental apply.
use ferrum_edge_git_forge_op.Base.{Text, List, [], ◌∷◌, Bool, Option, text_eq, text_key}
use ferrum_edge_git_forge_op.Config.Identity.{ResourceKeys}
use ferrum_edge_git_forge_op.Change.{AppliedOp}
use ferrum_edge_git_forge_op.Ledger.{StateFile, record_op, stamp_last_applied_if_clean}

unfoldable pub record_ops : List AppliedOp → ResourceKeys → StateFile → StateFile
unfolding record_op
record_ops [] desired state = state
record_ops (op ∷ ops) desired state = record_ops ops desired (record_op op desired state)

-- The operations, then the adoptions, then the stamp.
unfoldable pub record_apply :
    List AppliedOp
    → List AppliedOp
    → ResourceKeys
    → Bool
    → Text
    → Option Text
    → StateFile
    → StateFile
unfolding record_ops stamp_last_applied_if_clean
record_apply successful adopted desired succeeded now head state =
    stamp_last_applied_if_clean succeeded now head
      (record_ops adopted desired (record_ops successful desired state))
