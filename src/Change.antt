-- ===== src/Change.antt =====
-- diff/resource_diff.rs and apply/api_target.rs: the entries of a diff, and the record of an
-- operation that succeeded.
use ferrum_edge_git_forge_op.Base.{Text, List, Bool, true, false}

pub data DiffAction : Type 0 where
  add modify delete : DiffAction

pub record FieldChange : Type 0 where
  pub field : Text
  pub old_value : Text
  pub new_value : Text

pub record ResourceDiff : Type 0 where
  pub action : DiffAction
  pub kind : Text
  pub id : Text
  pub namespace : Text
  pub details : List FieldChange

pub record AppliedOp : Type 0 where
  pub kind : Text
  pub namespace : Text
  pub id : Text
  pub action : DiffAction

abbrev pub is_add : DiffAction → Bool
is_add DiffAction.add = true
is_add DiffAction.modify = false
is_add DiffAction.delete = false
