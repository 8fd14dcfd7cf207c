-- ===== src/Samples/Runs.antt =====
-- A run in which a write fails, and the order of its entries.
use ferrum_edge_git_forge_op.Base.{
  Text, codes, List, [], ◌∷◌, ◌≡◌, refl, true, false, Option, none, some, text_eq, text_lt,
  text_key, select, err,
}
use ferrum_edge_git_forge_op.Base.HashMap
use ferrum_edge_git_forge_op.Base.HashMap.{any}
use ferrum_edge_git_forge_op.Base.Map
use ferrum_edge_git_forge_op.Base.Sort.Laws.{Sorted}
use ferrum_edge_git_forge_op.StateKey.{state_key, encode_state_key_component, proxy, consumer}
use ferrum_edge_git_forge_op.Diff.{row_eq}
use ferrum_edge_git_forge_op.Config.Identity.{from_config}
use ferrum_edge_git_forge_op.Change.{DiffAction, add, modify, delete, ResourceDiff}
use ferrum_edge_git_forge_op.Ledger.Recording.{record_ops}
use ferrum_edge_git_forge_op.Apply.Outcome.{other, ApplyResult, default_result}
use ferrum_edge_git_forge_op.Apply.Run.{Gateway, first_run}
use ferrum_edge_git_forge_op.Apply.Order.{operation_rank, order_diffs, order_incremental_diffs}
use ferrum_edge_git_forge_op.Apply.Order.Laws.{allowed, unrelated, order_diffs_lem}
use ferrum_edge_git_forge_op.Apply.Order.Deletes.{
  DeletesLast, clashing, order_incremental_diffs-DeletesLast,
}
use ferrum_edge_git_forge_op.Apply.Incremental.{apply_entries}
use ferrum_edge_git_forge_op.Apply.Incremental.Failures.{write_failed_any}
use ferrum_edge_git_forge_op.Apply.Incremental.Failures.Loop.{
  result_of, no_delete_beside_failure, apply_entries-failures,
}
use ferrum_edge_git_forge_op.Apply.Incremental.Failures.Ledger.{record_ops-failed_write}
use ferrum_edge_git_forge_op.Samples.{ns, ledger, repository, gateway, key_gone}
use ferrum_edge_git_forge_op.Samples.SpecOwned.{serde}
use ferrum_edge_git_forge_op.Samples.Applies.{willing}

-- A gateway that refuses every update.
abbrev refusing : Gateway
refusing = record willing { update = λ rs kind row. err (other (codes "409")) }

abbrev entry : DiffAction → Text → Text → ResourceDiff
entry action kind id = record {
  action = action;
  kind = kind;
  id = id;
  namespace = ns;
  details = [];
}

abbrev unordered : List ResourceDiff
unordered =
    entry delete proxy (codes "gone")
    ∷ entry modify proxy (codes "p")
    ∷ entry add consumer (codes "c")
    ∷ []

order_diffs_lem_example :
    Sorted allowed (order_diffs unordered)
    × ((d : ResourceDiff)
        → select (unrelated d) (order_diffs unordered) ≡ select (unrelated d) unordered)
order_diffs_lem_example = order_diffs_lem unordered

no_clash : clashing unordered ≡ false
unfolding any state_key text_eq encode_state_key_component
no_clash = refl

order_incremental_diffs-DeletesLast_example :
    DeletesLast (order_incremental_diffs serde unordered repository)
order_incremental_diffs-DeletesLast_example =
    order_incremental_diffs-DeletesLast serde unordered repository no_clash

entries : List ResourceDiff
unfolding order_incremental_diffs operation_rank text_eq text_lt state_key HashMap.lookup any
entries = order_incremental_diffs serde unordered repository

entries-DeletesLast : DeletesLast entries
unfolding entries
entries-DeletesLast = order_incremental_diffs-DeletesLast serde unordered repository no_clash

apply_entries-failures_example :
    no_delete_beside_failure (
      result_of (
        apply_entries refusing ns repository gateway [] [] entries
          (first_run default_result [] [])))
    ≡ true
apply_entries-failures_example =
    apply_entries-failures refusing ns repository gateway [] [] (λ rs attempt. refl) entries []
      entries-DeletesLast

abbrev or_default : Option ApplyResult → ApplyResult
or_default none = default_result
or_default (some result) = result

failed : ApplyResult
unfolding apply_entries entries row_eq
failed = or_default (
    result_of
      (apply_entries refusing ns repository gateway [] [] entries (first_run default_result [] [])))

returns :
    result_of
      (apply_entries refusing ns repository gateway [] [] entries (first_run default_result [] []))
    ≡ some failed
unfolding failed
returns = refl

fails : write_failed_any failed ≡ true
unfolding failed
fails = refl

gone_managed : Map.contains_key ledger.resources key_gone ≡ true
unfolding Map.contains_key Map.get text_eq
gone_managed = refl

record_ops-failed_write_example :
    Map.contains_key
      (record_ops failed.applied_incremental (from_config repository) ledger).resources
      key_gone
    ≡ true
record_ops-failed_write_example =
    record_ops-failed_write refusing ns repository gateway [] [] (λ rs attempt. refl) entries []
      failed (from_config repository) ledger key_gone entries-DeletesLast returns fails gone_managed
