-- ===== src/Apply/Namespace.antt =====
-- apply/api_target.rs: `apply_incremental`, the apply of one namespace.
pub mod Planned
pub mod Fence
use ferrum_edge_git_forge_op.Base.{
  ℕ, Text, codes, List, [], ◌∷◌, ◌++◌, select, Bool, true, false, not, ◌&&◌, ◌||◌, Option, none,
  some, if◌then◌else◌, is_empty, length, Result, ok, err, ◌>>=◌,
}
use ferrum_edge_git_forge_op.Base.HashMap.{any}
use ferrum_edge_git_forge_op.Config.{GatewayConfig}
use ferrum_edge_git_forge_op.Config.Identity.{ConfigError}
use ferrum_edge_git_forge_op.Change.{DiffAction, add, is_add, ResourceDiff}
use ferrum_edge_git_forge_op.Diff.{
  OwnershipScope, DiffOptions, DiffResult, SpecOwnedResource, compute_diff_with_options,
}
use ferrum_edge_git_forge_op.Diff.Redact.{Serde}
use ferrum_edge_git_forge_op.Apply.Index.{ResourceIndex, build}
use ferrum_edge_git_forge_op.Apply.Order.{order_incremental_diffs}
use ferrum_edge_git_forge_op.Apply.Order.Cycles.{cyclic_create_diffs}
use ferrum_edge_git_forge_op.Apply.Outcome.{Error, stale_gateway_view, ApplyResult, default_result}
use ferrum_edge_git_forge_op.Apply.Run.{
  Request, batch, Gateway, Run, Step, continue, stop, fail, first_run,
}
use ferrum_edge_git_forge_op.Apply.Incremental.{apply_entries}
use ferrum_edge_git_forge_op.Apply.Adopt.{pending_create_assertion_diffs, dedupe_pending_assertions}
use ferrum_edge_git_forge_op.Apply.Claim.{Confirmation, Claiming, adopt_matching_rows}

pub record ApplyOptions : Type 0 where
  pub pending_create_assertions : List Text
  pub managed_ledger : List Text
  pub confirm_api_spec_deletion : Bool

pub data RunError : Type 0 where
  config : ConfigError → RunError
  -- An error of the run, with the requests that it had made.
  run : List Request → Error → RunError

-- The result, and the requests that the run has made.
abbrev pub Applied : Type 0
Applied = ApplyResult × List Request

abbrev pub or_config : {A : Type 0} → Result ConfigError A → Result RunError A
or_config (ok a) = ok a
or_config (err e) = err (config e)

-- The requests that a run has made, also if it ends with an error.
abbrev pub asked : Result RunError Applied → List Request
asked (ok (result, requests)) = requests
asked (err (run requests e)) = requests
asked (err (config e)) = []

-- Whether every entry is a create.
unfoldable pub all_adds : List ResourceDiff → Bool
all_adds [] = true
all_adds (d ∷ diffs) = is_add d.action && all_adds diffs

abbrev pub counted : DiffResult → ApplyResult → ApplyResult
counted found result = record result {
  unmanaged_skipped = length found.unmanaged;
  spec_owned_skipped = length (select (λ (s : SpecOwnedResource). not s.pruned) found.spec_owned);
}

module _ (serde : Serde) (gateway : Gateway) (confirmation : Confirmation)
    (desired actual : GatewayConfig) (namespace : Text) (scope : OwnershipScope)
    (options : ApplyOptions) where
  -- The ordered entries of a run: the diff, and the assertions of pending creates that it lacks.
  unfoldable pub planned : DiffResult → List ResourceDiff → List ResourceDiff
  unfolding order_incremental_diffs dedupe_pending_assertions
  planned found assertions =
      order_incremental_diffs serde
        (found.diffs ++ dedupe_pending_assertions found.diffs assertions) desired

  unfoldable pub adopt :
      List ResourceDiff → Option (Text × Text) → ApplyResult → List Request → Applied
  unfolding build adopt_matching_rows
  adopt diffs stale result requests =
      let done =
        adopt_matching_rows confirmation (build desired) desired actual scope diffs
          options.pending_create_assertions options.managed_ledger stale
          (record { result = result; requests = requests; returned = false }) in
      (done.result, done.requests)

  abbrev pub unless_stopped :
      List ResourceDiff → ApplyResult → List Request → Option Error → Applied
  unless_stopped diffs result requests none = adopt diffs result.stale_plan result requests
  unless_stopped diffs result requests (some e) = (result, requests)

  abbrev pub finish : List ResourceDiff → Step → Result RunError Applied
  finish diffs (continue at_end) = ok (adopt diffs at_end.plan_stale at_end.result at_end.requests)
  finish diffs (stop at_end) = ok (at_end.result, at_end.requests)
  finish diffs (fail requests e) = err (run requests e)

  abbrev pub prepared :
      DiffResult
      → List ResourceDiff
      → List Request
      → Result Error (Unit {0})
      → Result RunError Applied
  prepared found diffs requests (err e) = err (run requests e)
  prepared found diffs requests (ok _) =
      let cyclic_creates = cyclic_create_diffs diffs (build desired) in
      finish diffs (
        apply_entries gateway namespace desired actual options.managed_ledger cyclic_creates diffs
          (first_run (counted found default_result) cyclic_creates requests))

  -- The loop over the entries, one by one.
  unfoldable pub apply_each :
      DiffResult → List ResourceDiff → List Request → Result RunError Applied
  unfolding cyclic_create_diffs apply_entries build adopt
  apply_each found diffs requests = prepared found diffs requests (gateway.preconditions requests)

  abbrev pub batched :
      DiffResult
      → List ResourceDiff
      → List Request
      → Result Error (Option ApplyResult)
      → Result RunError Applied
  batched found diffs requests (err e) = err (run requests e)
  batched found diffs requests (ok none) = apply_each found diffs requests
  batched found diffs requests (ok (some result)) =
      ok (unless_stopped diffs (counted found result) requests result.fatal_error)

  -- The batch path is for a plan of creates only.
  unfoldable pub apply_planned : DiffResult → List ResourceDiff → Result RunError Applied
  unfolding all_adds apply_each adopt
  apply_planned found diffs =
      if not (is_empty diffs) && all_adds diffs
      then batched found diffs (batch diffs ∷ []) (gateway.try_batch_create [] diffs)
      else apply_each found diffs []

  abbrev pub plan_and_apply : DiffResult → Result RunError Applied
  plan_and_apply found =
      or_config
        (pending_create_assertion_diffs desired actual options.pending_create_assertions namespace)
      >>= λ assertions. apply_planned found (planned found assertions)

  unfoldable pub apply_incremental : Result RunError Applied
  apply_incremental =
      if confirmation.served_from_cache
      then err (run [] (stale_gateway_view (codes "cached")))
      else or_config (
          compute_diff_with_options serde desired actual scope
            (record { prune_spec_owned = options.confirm_api_spec_deletion }))
        >>= λ found. plan_and_apply found
