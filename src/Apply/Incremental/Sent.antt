-- ===== src/Apply/Incremental/Sent.antt =====
-- apply/api_target.rs: a run deletes only what its diff deletes.
pub mod Writes
pub mod Loop
use ferrum_edge_git_forge_op.Base.{
  Text, List, [], ◌∷◌, ◌++◌, Bool, true, false, ◌&&◌, ◌||◌, Option, none, some, contains, text_eq,
  ◌==◌, if◌then◌else◌, Result, ok, err,
}
use ferrum_edge_git_forge_op.Base.HashMap
use ferrum_edge_git_forge_op.Base.HashMap.{any}
use ferrum_edge_git_forge_op.StateKey.{proxy, consumer, upstream, plugin_config}
use ferrum_edge_git_forge_op.Config.{Proxy, GatewayConfig}
use ferrum_edge_git_forge_op.Change.{DiffAction, delete, ResourceDiff}
use ferrum_edge_git_forge_op.Diff.{Row, row_eq}
use ferrum_edge_git_forge_op.Apply.Index.{at, build}
use ferrum_edge_git_forge_op.Apply.Outcome.{Error, ApplyResult, default_result}
use ferrum_edge_git_forge_op.Apply.Withhold.{
  dependency_error, BlockedCreateGroup, partition_cyclic_creates,
}
use ferrum_edge_git_forge_op.Apply.Run.{
  OpOutcome, applied, unchanged, Request, remove, already_gone, note_applied, note_unchanged,
  note_failed, batch, Gateway, Run, Step, continue, stop, fail, defer_delete,
  withhold_after_stale_plan, settle,
}
use ferrum_edge_git_forge_op.Base.{◌≡◌, refl, sym, ◌∙◌, ap, arith}
use ferrum_edge_git_forge_op.Base.HashMap.{any-append, any-one}
use ferrum_edge_git_forge_op.Diff.Collection.{same_action, matches, listed, row_of}
use ferrum_edge_git_forge_op.Apply.Incremental.{
  note_blocked, settle_batch, create_cycles, send_op, apply_entry, apply_entries, unless_fatal,
  cycles_first, entry_step, after_cycles, send_or_defer, ask, send_create, send_update,
  send_update_after, send_delete, write_proxy, update_proxy, write, perform, write_found,
  unless_stale, and_then, send_batch,
}

module _ (k : Text) (row : Row) where
  -- The request to delete the resource.
  abbrev pub is_removal : Request → Bool
  is_removal (remove kind at_row) = kind == k && at_row == row
  is_removal _ = false

  abbrev pub removes : List Request → Bool
  removes requests = any is_removal requests

  abbrev pub removed : Step → Bool
  removed (continue run) = removes run.requests
  removed (stop run) = removes run.requests
  removed (fail requests e) = removes requests

  pub removes-append :
      (rs : List Request) (r : Request) → removes (rs ++ r ∷ []) ≡ (removes rs || is_removal r)
  removes-append rs r =
      any-append is_removal rs (r ∷ []) ∙ ap (λ b. removes rs || b) (any-one is_removal r)

  pub note_blocked-requests :
      (blocked : List BlockedCreateGroup) (run : Run)
      → (note_blocked blocked run).requests ≡ run.requests
  unfolding note_blocked
  note_blocked-requests [] run = refl
  note_blocked-requests (group ∷ blocked) run = note_blocked-requests blocked _

  unless_fatal-removed :
      (fatal : Option Error) (run : Run) (stale : Option (Text × Text))
      → removed (unless_fatal fatal run stale) ≡ removes run.requests
  unless_fatal-removed none run stale = refl
  unless_fatal-removed (some e) run stale = refl

  pub settle_batch-removed :
      (attempt : List ResourceDiff) (run : Run) (answer : Result Error (Option ApplyResult))
      → removed (settle_batch attempt run answer) ≡ removes run.requests
  unfolding settle_batch
  settle_batch-removed attempt run (ok none) = refl
  settle_batch-removed attempt run (ok (some batched)) =
      unless_fatal-removed batched.fatal_error _ _
  settle_batch-removed attempt run (err e) = ground arith

  module _ (gateway : Gateway) (namespace : Text) (desired actual : GatewayConfig)
      (managed_ledger : List Text) where
    pub settle-removed :
        (d : ResourceDiff) (run : Run) (answer : Result Error OpOutcome)
        → removed (settle actual (build desired) managed_ledger d run answer) ≡ removes run.requests
    unfolding settle note_applied note_unchanged note_failed
    settle-removed d run (ok applied) = refl
    settle-removed d run (ok unchanged) = ground arith
    settle-removed d run (ok already_gone) = refl
    settle-removed d run (err e) = ground arith
