-- ===== src/Apply/Incremental/Failures/Loop.antt =====
-- apply/api_target.rs: a run of the loop never has both a delete and a failed write.
use ferrum_edge_git_forge_op.Base.{
  Text, List, [], ◌∷◌, ◌≡◌, refl, sym, ◌∙◌, ap, Bool, true, false, not, ◌&&◌, ◌||◌, Option, none,
  some, text_eq, ◌==◌, arith,
}
use ferrum_edge_git_forge_op.Base.HashMap.{any}
use ferrum_edge_git_forge_op.Config.{GatewayConfig}
use ferrum_edge_git_forge_op.Change.{ResourceDiff}
use ferrum_edge_git_forge_op.Diff.{row_eq}
use ferrum_edge_git_forge_op.Apply.Changes.{is_delete}
use ferrum_edge_git_forge_op.Apply.Order.Deletes.{DeletesLast, writes_beside, rank_of_delete}
use ferrum_edge_git_forge_op.Apply.Outcome.{ApplyResult, default_result}
use ferrum_edge_git_forge_op.Apply.Run.{Request, Gateway, Run, Step, continue, stop, fail}
use ferrum_edge_git_forge_op.Apply.Incremental.{
  cycles_first, after_cycles, in_cycle, send_or_defer, entry_step, apply_entry, and_then,
  apply_entries,
}
use ferrum_edge_git_forge_op.Apply.Incremental.Failures.{creates_only, run_fits, apart, step_fits}
use ferrum_edge_git_forge_op.Base.{eq→path, Bool-cases, inl, inr}
use ferrum_edge_git_forge_op.Apply.Outcome.{backup_namespace}
use ferrum_edge_git_forge_op.Apply.Run.{first_run}
use ferrum_edge_git_forge_op.Apply.Incremental.Failures.Sends.{
  send_or_defer_fits, unless_stale_fits, nothing_fits, either_fits,
}
use ferrum_edge_git_forge_op.Apply.Incremental.Failures.Batches.{mid_fits, create_cycles_fits}

both : (a b : Bool) → (a && not b) ≡ true → (a ≡ true) × (b ≡ false)
both true true h = cc
both true false h = (refl, refl)
both false b h = cc

allowed :
    (deletes pending left : Bool)
    → (deletes && left) ≡ false
    → (deletes && pending) ≡ false
    → (not deletes || not (pending || left)) ≡ true
allowed deletes pending left p q = ground arith

module _ (left : Bool) (gateway : Gateway) (namespace : Text) (desired actual : GatewayConfig)
    (managed_ledger : List Text) (cyclic_creates : List ResourceDiff)
    (adds : (requests : List Request) (attempt : List ResourceDiff)
      → creates_only (gateway.try_batch_create requests attempt) ≡ true) where
  cycles_first_fits :
      (d : ResourceDiff) (run : Run)
      → run_fits (not (is_delete d) || left) run ≡ true
      → mid_fits
          (is_delete d)
          (not (is_delete d) || left)
          (cycles_first gateway namespace desired actual managed_ledger cyclic_creates d run)
        ≡ true
  unfolding mid_fits
  cycles_first_fits d run h = ground (
    arith,
    rank_of_delete d.action d.kind,
    create_cycles_fits (is_delete d) (not (is_delete d) || left) gateway namespace desired actual
        managed_ledger cyclic_creates adds run,
  )

  after_cycles_fits :
      (d : ResourceDiff) (step : Step)
      → (is_delete d && left) ≡ false
      → mid_fits (is_delete d) (not (is_delete d) || left) step ≡ true
      → step_fits left
          (after_cycles gateway namespace desired actual managed_ledger cyclic_creates d step)
        ≡ true
  unfolding mid_fits
  after_cycles_fits d (continue run) last h =
      let (fit, none_pending) = both _ _ h in
      either_fits left gateway namespace desired actual managed_ledger cyclic_creates
        (in_cycle gateway namespace desired actual managed_ledger cyclic_creates d) _ _
        (nothing_fits left gateway namespace desired actual managed_ledger cyclic_creates d run fit)
        (unless_stale_fits left gateway namespace desired actual managed_ledger cyclic_creates
          (send_or_defer gateway namespace desired actual managed_ledger cyclic_creates) d run
          run.plan_stale refl fit
          (λ current.
            send_or_defer_fits left gateway namespace desired actual managed_ledger cyclic_creates d
              run fit current (allowed (is_delete d) run.cyclic_pending left last none_pending)))
  after_cycles_fits d (stop run) last h = unfold step_fits in h
  after_cycles_fits d (fail requests e) last h = unfold step_fits in refl

  apply_entry_fits :
      (d : ResourceDiff) (run : Run)
      → (is_delete d && left) ≡ false
      → run_fits (not (is_delete d) || left) run ≡ true
      → step_fits left
          (apply_entry gateway namespace desired actual managed_ledger cyclic_creates d run)
        ≡ true
  unfolding apply_entry
  apply_entry_fits d run last h =
      either_fits left gateway namespace desired actual managed_ledger cyclic_creates
        (d.namespace == namespace) _ _
        (unless_stale_fits left gateway namespace desired actual managed_ledger cyclic_creates
          (entry_step gateway namespace desired actual managed_ledger cyclic_creates) d run
          run.plan_stale refl h (λ current. after_cycles_fits d _ last (cycles_first_fits d run h)))
        (unfold step_fits in refl)

-- The result of a loop, if it has one.
abbrev pub result_of : Step → Option ApplyResult
result_of (continue run) = some run.result
result_of (stop run) = some run.result
result_of (fail requests e) = none

-- Whether a result, if there is one, lacks a delete or lacks a failed write.
abbrev pub no_delete_beside_failure : Option ApplyResult → Bool
no_delete_beside_failure none = true
no_delete_beside_failure (some result) = apart result

-- Whether a list has a write in the namespace.
abbrev writes_left : Text → List ResourceDiff → Bool
writes_left namespace ds = any (λ e. e.namespace == namespace && not (is_delete e)) ds

module _ (gateway : Gateway) (namespace : Text) (desired actual : GatewayConfig)
    (managed_ledger : List Text) (cyclic_creates : List ResourceDiff)
    (adds : (requests : List Request) (attempt : List ResourceDiff)
      → creates_only (gateway.try_batch_create requests attempt) ≡ true) where
  abbrev sound : Step → Bool
  sound step = no_delete_beside_failure (result_of step)

  fits-apart : (left : Bool) (run : Run) → run_fits left run ≡ true → apart run.result ≡ true
  fits-apart left run h = ground arith

  entry_elsewhere :
      (d : ResourceDiff) (run : Run)
      → (d.namespace == namespace) ≡ false
      → apply_entry gateway namespace desired actual managed_ledger cyclic_creates d run
        ≡ fail run.requests (backup_namespace d.namespace)
  unfolding apply_entry
  entry_elsewhere d run h = rw h refl

  then_sound :
      (left : Bool) (step : Step) (next : Run → Step)
      → step_fits left step ≡ true
      → ((run : Run) → run_fits left run ≡ true → sound (next run) ≡ true)
      → sound (and_then gateway namespace desired actual managed_ledger cyclic_creates step next)
        ≡ true
  unfolding step_fits
  then_sound left (continue run) next h go = go run h
  then_sound left (stop run) next h go = h
  then_sound left (fail requests e) next h go = refl

  left_before :
      (d : ResourceDiff) (ds : List ResourceDiff) (run : Run)
      → (d.namespace == namespace) ≡ true
      → run_fits (writes_left namespace (d ∷ ds)) run ≡ true
      → run_fits (not (is_delete d) || writes_left namespace ds) run ≡ true
  unfolding any
  left_before d ds run here h = ground arith

  last_here :
      (d : ResourceDiff) (ds : List ResourceDiff)
      → (d.namespace == namespace) ≡ true
      → (is_delete d && writes_beside d ds) ≡ false
      → (is_delete d && writes_left namespace ds) ≡ false
  last_here d ds here last =
      sym (ap (λ n. is_delete d && writes_left n ds) (eq→path d.namespace namespace here)) ∙ last

  pub apply_entries_fits :
      (ds : List ResourceDiff) (run : Run)
      → DeletesLast ds
      → run_fits (writes_left namespace ds) run ≡ true
      → sound (apply_entries gateway namespace desired actual managed_ledger cyclic_creates ds run)
        ≡ true
  unfolding apply_entries
  apply_entries_fits [] run last h = fits-apart (writes_left namespace []) run h
  apply_entries_fits (d ∷ ds) run (last, more) h = elim (Bool-cases (d.namespace == namespace)) [
    | inl here ↦
        then_sound (writes_left namespace ds) _ _
          (apply_entry_fits (writes_left namespace ds) gateway namespace desired actual
            managed_ledger cyclic_creates adds d run (last_here d ds here last)
            (left_before d ds run here h))
          (λ next fit. apply_entries_fits ds next more fit)
    | inr elsewhere ↦ rw (entry_elsewhere d run elsewhere) refl
  ]

-- If a batch reports creates only and no delete stands before a write of its namespace, then the
-- loop over the entries does not return both a delete that was applied and an add or a modify that
-- failed or was withheld, whatever the gateway answers.
pub apply_entries-failures :
    (gateway : Gateway) (namespace : Text) (desired actual : GatewayConfig)
    (managed_ledger : List Text) (cyclic_creates : List ResourceDiff)
    (adds : (requests : List Request) (attempt : List ResourceDiff)
      → creates_only (gateway.try_batch_create requests attempt) ≡ true)
    (ds : List ResourceDiff) (requests : List Request)
    → DeletesLast ds
    → no_delete_beside_failure (
        result_of (
          apply_entries gateway namespace desired actual managed_ledger cyclic_creates ds
            (first_run default_result cyclic_creates requests)))
      ≡ true
apply_entries-failures gateway namespace desired actual managed_ledger cyclic_creates adds ds
      requests last =
    apply_entries_fits gateway namespace desired actual managed_ledger cyclic_creates adds ds _ last
      (unfold any in refl)
