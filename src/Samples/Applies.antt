-- ===== src/Samples/Applies.antt =====
-- Applies of the repository against its gateway.
use ferrum_edge_git_forge_op.Base.{
  ap, ◌∙◌, codes, [], ◌≡◌, refl, true, false, none, text_eq, text_lt, text_key, Result, ok, err,
}
use ferrum_edge_git_forge_op.Base.HashMap
use ferrum_edge_git_forge_op.Base.HashMap.{any}
use ferrum_edge_git_forge_op.Base.Map
use ferrum_edge_git_forge_op.StateKey.{state_key, proxy, encode_state_key_component}
use ferrum_edge_git_forge_op.Config.Identity.{identity_eq}
use ferrum_edge_git_forge_op.Diff.{Row, row_eq, shared, compute_diff_with_options}
use ferrum_edge_git_forge_op.Diff.Redact.{redact_sensitive_leaves}
use ferrum_edge_git_forge_op.Diff.Fields.{compare_fields}
use ferrum_edge_git_forge_op.Json.{with_members}
use ferrum_edge_git_forge_op.Apply.Order.{operation_rank}
use ferrum_edge_git_forge_op.Apply.Adopt.{pending_create_assertion_diffs}
use ferrum_edge_git_forge_op.Diff.Safety.{context}
use ferrum_edge_git_forge_op.Diff.SpecOwned.{is_spec_owned}
use ferrum_edge_git_forge_op.Ledger.{previously_managed_keys}
use ferrum_edge_git_forge_op.Apply.Outcome.{other, default_result}
use ferrum_edge_git_forge_op.Apply.Run.{Gateway, deleted}
use ferrum_edge_git_forge_op.Apply.Claim.{Confirmation}
use ferrum_edge_git_forge_op.Apply.Namespace.{
  ApplyOptions, RunError, asked, Applied, apply_incremental, planned, apply_planned,
}
use ferrum_edge_git_forge_op.Apply.Namespace.Fence.{apply_incremental-fence}
use ferrum_edge_git_forge_op.Apply.Incremental.Sent.{removes}
use ferrum_edge_git_forge_op.Samples.{ns, ledger, repository, gateway}
use ferrum_edge_git_forge_op.Samples.SpecOwned.{serde}

-- A gateway that does what it is asked.
abbrev pub willing : Gateway
willing = record {
  preconditions = λ rs. ok tt;
  create = λ rs kind row. ok tt;
  update = λ rs kind row. ok tt;
  update_proxy_after_plugins = λ rs row. ok true;
  delete = λ rs kind row. ok deleted;
  try_batch_create = λ rs attempt. ok none;
}

abbrev pub silent : Confirmation
silent = record {
  served_from_cache = false;
  backup = λ rs. err (other (codes "timeout"));
  read = λ rs kind row. ok none;
  update_if_match = λ rs kind row etag expected. ok tt;
}

abbrev options : ApplyOptions
options = record {
  pending_create_assertions = [];
  managed_ledger = previously_managed_keys ledger;
  confirm_api_spec_deletion = false;
}

abbrev value_of : Result RunError Applied → Applied
value_of (ok applied) = applied
value_of (err e) = (default_result, [])

abbrev run : Result RunError Applied
run =
    apply_incremental serde willing silent repository gateway ns
      (shared (previously_managed_keys ledger)) options

abbrev row_gone : Row
row_gone = record { namespace = ns; id = codes "gone" }

applied : Applied
unfolding apply_incremental compute_diff_with_options identity_eq pending_create_assertion_diffs
    apply_planned planned HashMap.collect row_eq previously_managed_keys state_key
    encode_state_key_component redact_sensitive_leaves compare_fields with_members operation_rank
    text_eq text_lt HashMap.lookup any
applied = value_of run

computes : run ≡ ok applied
unfolding applied
computes = refl

removes_gone : removes proxy row_gone applied.1 ≡ true
unfolding applied
removes_gone = refl

keeps_admin : removes proxy (record { namespace = ns; id = codes "admin" }) applied.1 ≡ false
unfolding applied
keeps_admin = refl

apply_incremental-fence_example :
    (Map.contains_key ledger.resources (state_key ns proxy (codes "gone")) ≡ true)
    × (is_spec_owned serde
          (context (shared (previously_managed_keys ledger)) (record { prune_spec_owned = false }))
          row_gone
          gateway
          proxy
        ≡ false)
apply_incremental-fence_example =
    apply_incremental-fence serde willing silent repository gateway ns ledger options proxy row_gone
      (ap (λ r. removes proxy row_gone (asked r)) computes ∙ removes_gone)
