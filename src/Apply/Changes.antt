-- ===== src/Apply/Changes.antt =====
-- apply/api_target.rs: tests of the entries of a diff that several steps of the apply share.
use ferrum_edge_git_forge_op.Base.{Text, Bool, ◌&&◌, text_eq, ◌==◌}
use ferrum_edge_git_forge_op.StateKey.{state_key}
use ferrum_edge_git_forge_op.Change.{DiffAction, delete, ResourceDiff}
use ferrum_edge_git_forge_op.Diff.Collection.{same_action}

abbrev pub key_of : ResourceDiff → Text
key_of d = state_key d.namespace d.kind d.id

-- An action on a kind.
abbrev pub is_change : DiffAction → Text → ResourceDiff → Bool
is_change action kind d = same_action d.action action && d.kind == kind

abbrev pub is_delete : ResourceDiff → Bool
is_delete d = same_action d.action delete
