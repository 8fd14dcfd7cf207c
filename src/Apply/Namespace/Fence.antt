-- ===== src/Apply/Namespace/Fence.antt =====
-- apply/api_target.rs: what an apply of a namespace may delete.
use ferrum_edge_git_forge_op.Base.{
  Text, List, [], ◌∷◌, ◌++◌, ◌≡◌, refl, sym, ◌∙◌, Bool, true, false, ◌||◌, Option, none, some,
  text_eq, text_key, if◌then◌else◌, Result, ok, err, ◌>>=◌, arith,
}
use ferrum_edge_git_forge_op.Base.HashMap.{any, any-append, any-one}
use ferrum_edge_git_forge_op.StateKey.{state_key}
use ferrum_edge_git_forge_op.Config.{GatewayConfig}
use ferrum_edge_git_forge_op.Config.Identity.{ConfigError}
use ferrum_edge_git_forge_op.Change.{delete, ResourceDiff}
use ferrum_edge_git_forge_op.Diff.{
  Row, row_eq, OwnershipScope, shared, DiffResult, DiffOptions, compute_diff_with_options,
}
use ferrum_edge_git_forge_op.Diff.Redact.{Serde}
use ferrum_edge_git_forge_op.Diff.Collection.{listed, matches}
use ferrum_edge_git_forge_op.Diff.Safety.{shared_delete_fence, context}
use ferrum_edge_git_forge_op.Diff.SpecOwned.{spec_owned_fence, is_spec_owned}
use ferrum_edge_git_forge_op.Ledger.{StateFile, previously_managed_keys}
use ferrum_edge_git_forge_op.Base.Map
use ferrum_edge_git_forge_op.Base.Map.{contains-keys}
use ferrum_edge_git_forge_op.Apply.Index.{build}
use ferrum_edge_git_forge_op.Apply.Outcome.{Error, ApplyResult}
use ferrum_edge_git_forge_op.Apply.Run.{Request, batch, Gateway, Step, continue, stop, fail}
use ferrum_edge_git_forge_op.Apply.Order.Cycles.{cyclic_create_diffs}
use ferrum_edge_git_forge_op.Apply.Incremental.Sent.{is_removal, removes, removed}
use ferrum_edge_git_forge_op.Apply.Incremental.Sent.Loop.{apply_entries-removed}
use ferrum_edge_git_forge_op.Apply.Adopt.{pending_create_assertion_diffs, dedupe_pending_assertions}
use ferrum_edge_git_forge_op.Apply.Claim.{Confirmation}
use ferrum_edge_git_forge_op.Apply.Claim.Requests.{adopt_matching_rows-removes}
use ferrum_edge_git_forge_op.Apply.Namespace.{
  ApplyOptions, RunError, run, asked, Applied, planned, adopt, unless_stopped, finish, apply_each,
  batched, apply_planned, apply_incremental, counted, prepared, or_config,
}
use ferrum_edge_git_forge_op.Apply.Namespace.Planned.{
  order_incremental_diffs-any, dedupe-listed, no_delete_asserted,
}

module _ (k : Text) (row : Row) where
  abbrev deleted_by : Result RunError Applied → Bool
  deleted_by outcome = removes k row (asked outcome)

  none_yet : removes k row [] ≡ false
  unfolding any
  none_yet = refl

  not_refused :
      (refused : Bool) (e : Error) (outcome : Result RunError Applied)
      → deleted_by (if refused then err (run [] e) else outcome) ≡ true
      → deleted_by outcome ≡ true
  not_refused true e outcome h = ground (arith, none_yet)
  not_refused false e outcome h = h

  -- A run that asks for a removal has passed the step before.
  passed :
      {A : Type 0} (first : Result ConfigError A) (next : A → Result RunError Applied)
      → deleted_by (or_config first >>= next) ≡ true
      → (found : A) × (first ≡ ok found) × (deleted_by (next found) ≡ true)
  passed (ok found) next h = (found, refl, h)
  passed (err e) next h = cc (none_yet, h)

  module _ (serde : Serde) (gateway : Gateway) (confirmation : Confirmation)
      (desired actual : GatewayConfig) (namespace : Text) (scope : OwnershipScope)
      (options : ApplyOptions) where
    adopt-removes :
        (diffs : List ResourceDiff) (stale : Option (Text × Text)) (result : ApplyResult)
        (requests : List Request)
        → removes k row
            (adopt serde gateway confirmation desired actual namespace scope options diffs stale
              result requests).1
          ≡ removes k row requests
    unfolding adopt
    adopt-removes diffs stale result requests =
        adopt_matching_rows-removes k row confirmation (build desired) desired actual scope diffs
          options.pending_create_assertions options.managed_ledger stale _

    finish-deletes :
        (diffs : List ResourceDiff) (step : Step)
        → deleted_by
            (finish serde gateway confirmation desired actual namespace scope options diffs step)
          ≡ removed k row step
    finish-deletes diffs (continue at_end) = adopt-removes diffs _ _ _
    finish-deletes diffs (stop at_end) = refl
    finish-deletes diffs (fail requests e) = refl

    prepared-deletes :
        (found : DiffResult) (diffs : List ResourceDiff) (requests : List Request)
        (ready : Result Error (Unit {0}))
        → deleted_by (
            prepared serde gateway confirmation desired actual namespace scope options found diffs
              requests ready)
          ≡ true
        → (removes k row requests || listed delete k row diffs) ≡ true
    prepared-deletes found diffs requests (err e) h = ground (arith, h)
    prepared-deletes found diffs requests (ok done) h =
        apply_entries-removed k row gateway namespace desired actual options.managed_ledger
          (cyclic_create_diffs diffs (build desired)) diffs _ (sym (finish-deletes diffs _) ∙ h)

    apply_each-deletes :
        (found : DiffResult) (diffs : List ResourceDiff) (requests : List Request)
        → deleted_by (
            apply_each serde gateway confirmation desired actual namespace scope options found diffs
              requests)
          ≡ true
        → (removes k row requests || listed delete k row diffs) ≡ true
    unfolding apply_each
    apply_each-deletes found diffs requests h = prepared-deletes found diffs requests _ h

    unless_stopped-deletes :
        (diffs : List ResourceDiff) (result : ApplyResult) (requests : List Request)
        (fatal : Option Error)
        → removes k row
            (unless_stopped serde gateway confirmation desired actual namespace scope options diffs
              result requests fatal).1
          ≡ removes k row requests
    unless_stopped-deletes diffs result requests none = adopt-removes diffs _ _ _
    unless_stopped-deletes diffs result requests (some e) = refl

    batched-deletes :
        (found : DiffResult) (diffs : List ResourceDiff) (requests : List Request)
        (answer : Result Error (Option ApplyResult))
        → deleted_by (
            batched serde gateway confirmation desired actual namespace scope options found diffs
              requests answer)
          ≡ true
        → (removes k row requests || listed delete k row diffs) ≡ true
    batched-deletes found diffs requests (err e) h = ground (arith, h)
    batched-deletes found diffs requests (ok none) h = apply_each-deletes found diffs requests h
    batched-deletes found diffs requests (ok (some result)) h =
        ground
          (arith, unless_stopped-deletes diffs (counted found result) requests result.fatal_error)

    no_removal : (diffs : List ResourceDiff) → removes k row (batch diffs ∷ []) ≡ false
    no_removal diffs = any-one (is_removal k row) (batch diffs)

    apply_planned-deletes :
        (found : DiffResult) (diffs : List ResourceDiff)
        → deleted_by (
            apply_planned serde gateway confirmation desired actual namespace scope options found
              diffs)
          ≡ true
        → listed delete k row diffs ≡ true
    unfolding apply_planned
    apply_planned-deletes found diffs h = ground (
      arith,
      no_removal diffs,
      none_yet,
      batched-deletes found diffs (batch diffs ∷ []) (gateway.try_batch_create [] diffs),
      apply_each-deletes found diffs [],
    )

    planned-listed :
        (found : DiffResult) (assertions : List ResourceDiff)
        → listed delete k row assertions ≡ false
        → listed delete k row (
            planned serde gateway confirmation desired actual namespace scope options found
              assertions)
          ≡ true
        → listed delete k row found.diffs ≡ true
    unfolding planned
    planned-listed found assertions none_asserted h = ground (
      arith,
      order_incremental_diffs-any k row (matches delete k row) serde
          (found.diffs ++ dedupe_pending_assertions found.diffs assertions) desired,
      any-append (matches delete k row) found.diffs
          (dedupe_pending_assertions found.diffs assertions),
      dedupe-listed k row found.diffs assertions,
    )

    -- What an apply deletes, its diff deletes.
    apply_incremental-listed :
        deleted_by
            (apply_incremental serde gateway confirmation desired actual namespace scope options)
          ≡ true
        → (found : DiffResult) × (compute_diff_with_options serde desired actual scope
              (record { prune_spec_owned = options.confirm_api_spec_deletion })
            ≡ ok found)
          × (listed delete k row found.diffs ≡ true)
    unfolding apply_incremental
    apply_incremental-listed h =
        let (found, computed, went_on) =
          passed (compute_diff_with_options serde desired actual scope _) _
            (not_refused confirmation.served_from_cache _ _ h) in
        let (assertions, asserted, done) =
          passed
            (pending_create_assertion_diffs desired actual options.pending_create_assertions
              namespace)
            _ went_on in
        (
          found,
          computed,
          planned-listed found assertions
              (no_delete_asserted k row desired actual options.pending_create_assertions namespace
                assertions asserted)
              (apply_planned-deletes found _ done),
        )

refuted : (b : Bool) → (b ≡ true → false ≡ true) → b ≡ false
refuted true h = cc (h refl)
refuted false h = refl

-- An apply in shared ownership, with the keys of the ledger as the managed ones, asks the gateway to
-- delete a resource only if the ledger manages its state key and no API spec owns the live row,
-- whatever the gateway answers to the requests and also if the apply ends with an error.
pub apply_incremental-fence :
    (serde : Serde) (gateway : Gateway) (confirmation : Confirmation)
    (desired actual : GatewayConfig) (namespace : Text) (state : StateFile) (options : ApplyOptions)
    (k : Text) (row : Row)
    → removes k row (
        asked (
          apply_incremental serde gateway confirmation desired actual namespace
            (shared (previously_managed_keys state))
            options))
      ≡ true
    → (Map.contains_key state.resources (state_key row.namespace k row.id) ≡ true)
      × (is_spec_owned serde
            (context
              (shared (previously_managed_keys state))
              (record { prune_spec_owned = options.confirm_api_spec_deletion }))
            row
            actual
            k
          ≡ false)
unfolding previously_managed_keys
apply_incremental-fence serde gateway confirmation desired actual namespace state options k row h =
    let scope = shared (previously_managed_keys state) in
    let may : DiffOptions = record { prune_spec_owned = options.confirm_api_spec_deletion } in
    let (found, computed, listed_delete) =
      apply_incremental-listed k row serde gateway confirmation desired actual namespace scope
        options h in
    (
      sym (contains-keys state.resources (state_key row.namespace k row.id))
          ∙ shared_delete_fence serde (previously_managed_keys state) may desired actual found k row
              computed listed_delete,
      refuted _ (λ owned.
          spec_owned_fence serde desired actual scope may found delete k row computed owned
            listed_delete),
    )
