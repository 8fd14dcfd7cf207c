-- ===== src/Apply/Incremental/Failures.antt =====
-- apply/api_target.rs: no delete beside a failed write.
pub mod Sends
pub mod Batches
pub mod Loop
pub mod Ledger
use ferrum_edge_git_forge_op.Base.{
  ℕ, Text, List, [], ◌∷◌, ◌++◌, ◌≡◌, refl, sym, ◌∙◌, ap, map, Bool, true, false, not, ◌&&◌, ◌||◌,
  Option, none, some, contains, text_eq, ◌==◌, if◌then◌else◌, is_empty, is_some, leb, Result, ok,
  err, arith,
}
use ferrum_edge_git_forge_op.Base.HashMap
use ferrum_edge_git_forge_op.Base.HashMap.{any, any-append, any-one}
use ferrum_edge_git_forge_op.StateKey.{proxy, consumer, upstream, plugin_config}
use ferrum_edge_git_forge_op.Config.{Proxy, Consumer, Upstream, PluginConfig, GatewayConfig}
use ferrum_edge_git_forge_op.Change.{DiffAction, add, modify, delete, AppliedOp, ResourceDiff}
use ferrum_edge_git_forge_op.Diff.{Row, row_eq}
use ferrum_edge_git_forge_op.Diff.Collection.{same_action}
use ferrum_edge_git_forge_op.Apply.Changes.{is_delete}
use ferrum_edge_git_forge_op.Apply.Index.{at, build}
use ferrum_edge_git_forge_op.Apply.Order.{rank, operation_rank}
use ferrum_edge_git_forge_op.Apply.Order.Deletes.{DeletesLast, writes_beside, rank_of_delete}
use ferrum_edge_git_forge_op.Apply.Outcome.{
  Error, Message, not_sent, group_withheld, batch_unsupported, batch_failed, op_failed,
  adopt_failed, chunk_failed, ApplyResult, default_result,
}
use ferrum_edge_git_forge_op.Apply.Withhold.{
  BlockedCreateGroup, partition_cyclic_creates, dependency_error, proxy_has_failed_plugin,
}
use ferrum_edge_git_forge_op.Apply.Run.{
  OpOutcome, applied, unchanged, already_gone, Request, batch, Gateway, Run, Step, continue, stop,
  fail, op_of, count, note_applied, note_unchanged, note_failed, settle, withhold_after_stale_plan,
  defer_delete,
}
use ferrum_edge_git_forge_op.Apply.Incremental.{
  note_blocked, settle_batch, unless_fatal, merge_batched, then_stale, create_cycles, send_batch,
  cycles_first, after_cycles, in_cycle, ask, send_create, send_update, send_update_after,
  send_delete, write_proxy, update_proxy, write, write_found, perform, send_op, send_or_defer,
  held_back, unless_stale, entry_step, apply_entry, and_then, apply_entries,
}

abbrev pub is_delete_op : AppliedOp → Bool
is_delete_op op = same_action op.action delete

-- Whether a message reports an add or a modify that failed or was withheld.
abbrev pub is_write_failure : Message → Bool
is_write_failure (op_failed action kind id e) = not (same_action action delete)
is_write_failure (adopt_failed kind id e) = false
is_write_failure (not_sent action kind id) = true
is_write_failure (group_withheld ps failed scoped) = true
is_write_failure batch_unsupported = true
is_write_failure (batch_failed e) = true
is_write_failure (chunk_failed m) = true

abbrev pub deleted_any : ApplyResult → Bool
deleted_any result = any is_delete_op result.applied_incremental

abbrev pub write_failed_any : ApplyResult → Bool
write_failed_any result = any is_write_failure result.errors

-- A batch reports creates only.
abbrev pub creates_only : Result Error (Option ApplyResult) → Bool
creates_only (ok (some result)) = not (deleted_any result)
creates_only (ok none) = true
creates_only (err e) = true

-- What holds between two entries, where `left` is whether writes are left: a delete has been applied
-- only if no write failed, is left or is pending, and a failed write is on record.
abbrev fits : Bool → Bool → Bool → Bool → Bool → Bool → Bool
fits deletes fails recorded stale pending left =
    (not deletes || (not fails && (not left && not pending))) && (not fails || (recorded || stale))

abbrev pub run_fits : Bool → Run → Bool
run_fits left run =
    fits (deleted_any run.result) (write_failed_any run.result) run.writes_failed
      (is_some run.plan_stale) run.cyclic_pending left

abbrev pub apart : ApplyResult → Bool
apart result = not (deleted_any result && write_failed_any result)

unfoldable pub step_fits : Bool → Step → Bool
step_fits left (continue run) = run_fits left run
step_fits left (stop run) = apart run.result
step_fits left (fail requests e) = true

pub append-failure :
    (result : ApplyResult) (m : Message)
    → any is_write_failure (result.errors ++ m ∷ [])
      ≡ (write_failed_any result || is_write_failure m)
append-failure result m =
    any-append is_write_failure result.errors (m ∷ [])
    ∙ ap (λ b. write_failed_any result || b) (any-one is_write_failure m)

pub append-delete :
    (result : ApplyResult) (op : AppliedOp)
    → any is_delete_op (result.applied_incremental ++ op ∷ [])
      ≡ (deleted_any result || is_delete_op op)
append-delete result op =
    any-append is_delete_op result.applied_incremental (op ∷ [])
    ∙ ap (λ b. deleted_any result || b) (any-one is_delete_op op)

module _ (left : Bool) where
  pub withhold_fits :
      (d : ResourceDiff) (run : Run)
      → run_fits (not (is_delete d) || left) run ≡ true
      → is_some run.plan_stale ≡ true
      → run_fits left (withhold_after_stale_plan d run) ≡ true
  unfolding withhold_after_stale_plan
  withhold_fits d run h stale =
      ground (arith, append-failure run.result (not_sent d.action d.kind d.id))

  pub defer_fits :
      (d : ResourceDiff) (run : Run)
      → run_fits (not (is_delete d) || left) run ≡ true
      → run_fits left (defer_delete run) ≡ true
  unfolding defer_delete
  defer_fits d run h = ground arith

  count-errors :
      (action : DiffAction) (op : OpOutcome) (result : ApplyResult)
      → (count action op result).errors ≡ result.errors
  count-errors DiffAction.add op result = refl
  count-errors DiffAction.modify op result = refl
  count-errors DiffAction.delete applied result = refl
  count-errors DiffAction.delete unchanged result = refl
  count-errors DiffAction.delete already_gone result = refl

  module _ (gateway : Gateway) (namespace : Text) (desired actual : GatewayConfig)
      (managed_ledger : List Text) where
    -- Whether an entry may be sent: a delete only if no write failed, is left or is pending.
    abbrev pub ready : ResourceDiff → Run → Bool
    ready d run =
        not (is_delete d)
        || not (run.writes_failed || (is_some run.plan_stale || (run.cyclic_pending || left)))

    -- What holds before an entry.
    abbrev pub before : ResourceDiff → Run → Bool
    before d run = run_fits (not (is_delete d) || left) run

    pub note_applied_fits :
        (d : ResourceDiff) (op : OpOutcome) (run : Run)
        → run_fits (not (is_delete d) || left) run ≡ true
        → ready d run ≡ true
        → run_fits left (note_applied actual (build desired) managed_ledger d op run) ≡ true
    unfolding note_applied
    note_applied_fits d op run h may = ground (
      arith,
      append-delete run.result (op_of d d.action),
      ap (any is_write_failure) (count-errors d.action op run.result),
    )

    pub note_unchanged_fits :
        (d : ResourceDiff) (run : Run)
        → run_fits (not (is_delete d) || left) run ≡ true
        → run_fits left (note_unchanged actual (build desired) managed_ledger d run) ≡ true
    unfolding note_unchanged
    note_unchanged_fits d run h = ground arith

    pub note_failed_fits :
        (d : ResourceDiff) (e : Error) (run : Run)
        → run_fits (not (is_delete d) || left) run ≡ true
        → run_fits left (note_failed actual (build desired) managed_ledger d e run) ≡ true
    unfolding note_failed
    note_failed_fits d e run h =
        ground (arith, append-failure run.result (op_failed d.action d.kind d.id e))

    pub settle_fits :
        (d : ResourceDiff) (run : Run) (answer : Result Error OpOutcome)
        → before d run ≡ true
        → ready d run ≡ true
        → step_fits left (settle actual (build desired) managed_ledger d run answer) ≡ true
    unfolding settle step_fits
    settle_fits d run (ok applied) h may = note_applied_fits d applied run h may
    settle_fits d run (ok already_gone) h may = note_applied_fits d already_gone run h may
    settle_fits d run (ok unchanged) h may = note_unchanged_fits d run h
    settle_fits d run (err e) h may = ground (arith, note_failed_fits d e run h)
