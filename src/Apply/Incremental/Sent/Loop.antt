-- ===== src/Apply/Incremental/Sent/Loop.antt =====
-- apply/api_target.rs: the loop deletes only what its entries delete.
use ferrum_edge_git_forge_op.Base.{
  Text, List, [], ◌∷◌, Bool, ◌==◌, if◌then◌else◌, true, false, ◌||◌, Option, none, some, text_eq,
  ok,
}
use ferrum_edge_git_forge_op.Base.HashMap.{any}
use ferrum_edge_git_forge_op.Config.{GatewayConfig}
use ferrum_edge_git_forge_op.Change.{delete, ResourceDiff}
use ferrum_edge_git_forge_op.Diff.{Row, row_eq}
use ferrum_edge_git_forge_op.Apply.Index.{build}
use ferrum_edge_git_forge_op.Apply.Outcome.{Error, backup_namespace, default_result}
use ferrum_edge_git_forge_op.Apply.Withhold.{partition_cyclic_creates}
use ferrum_edge_git_forge_op.Apply.Run.{
  batch, Gateway, Run, Step, continue, stop, fail, withhold_after_stale_plan,
}
use ferrum_edge_git_forge_op.Base.{◌≡◌, ◌∙◌, ap, arith}
use ferrum_edge_git_forge_op.Diff.Collection.{matches, listed}
use ferrum_edge_git_forge_op.Apply.Incremental.{
  create_cycles, apply_entry, apply_entries, cycles_first, entry_step, after_cycles, send_or_defer,
  ask, unless_stale, and_then, send_batch,
}
use ferrum_edge_git_forge_op.Apply.Incremental.Sent.{
  removes, removed, removes-append, note_blocked-requests, settle_batch-removed,
}
use ferrum_edge_git_forge_op.Apply.Incremental.Sent.Writes.{send_or_defer-removed}

module _ (k : Text) (row : Row) (gateway : Gateway) (namespace : Text)
    (desired actual : GatewayConfig) (managed_ledger : List Text)
    (cyclic_creates : List ResourceDiff) where
  withhold-requests :
      (d : ResourceDiff) (run : Run)
      → removes k row (withhold_after_stale_plan d run).requests ≡ removes k row run.requests
  unfolding withhold_after_stale_plan
  withhold-requests d run = ground arith

  unless_stale-removed :
      (next : ResourceDiff → Run → Step) (d : ResourceDiff) (run : Run)
      (stale : Option (Text × Text))
      → (removed k row (next d run) ≡ true
          → (removes k row run.requests || matches delete k row d) ≡ true)
      → removed k row (
          unless_stale gateway namespace desired actual managed_ledger cyclic_creates next d run
            stale)
        ≡ true
      → (removes k row run.requests || matches delete k row d) ≡ true
  unless_stale-removed next d run none go h = go h
  unless_stale-removed next d run (some first) go h = ground (arith, withhold-requests d run)

  send_batch-removed :
      (attempt : List ResourceDiff) (run : Run)
      → removed k row
          (send_batch gateway namespace desired actual managed_ledger cyclic_creates attempt run)
        ≡ removes k row run.requests
  send_batch-removed attempt run = ground (
    arith,
    settle_batch-removed k row attempt run (ok (some default_result)),
    settle_batch-removed k row attempt (ask (batch attempt) run)
        (gateway.try_batch_create run.requests attempt),
    removes-append k row run.requests (batch attempt),
  )

  create_cycles-removed :
      (run : Run)
      → removed k row
          (create_cycles gateway namespace desired actual managed_ledger cyclic_creates run)
        ≡ removes k row run.requests
  unfolding create_cycles
  create_cycles-removed run =
      let split = partition_cyclic_creates cyclic_creates (build desired) run.failed_plugins in
      send_batch-removed split.1 _
      ∙ ap (removes k row)
          (note_blocked-requests k row split.0 (record run { cyclic_pending = false }))

  cycles_first-removed :
      (d : ResourceDiff) (run : Run)
      → removed k row
          (cycles_first gateway namespace desired actual managed_ledger cyclic_creates d run)
        ≡ removes k row run.requests
  cycles_first-removed d run = ground (arith, create_cycles-removed run)

  after_cycles-removed :
      (d : ResourceDiff) (step : Step)
      → removed k row
          (after_cycles gateway namespace desired actual managed_ledger cyclic_creates d step)
        ≡ true
      → (removed k row step || matches delete k row d) ≡ true
  after_cycles-removed d (continue run) h = ground (
    arith,
    unless_stale-removed
        (send_or_defer gateway namespace desired actual managed_ledger cyclic_creates) d run
        run.plan_stale
        (send_or_defer-removed k row gateway namespace desired actual managed_ledger cyclic_creates
          d run),
  )
  after_cycles-removed d (stop run) h = ground arith
  after_cycles-removed d (fail requests e) h = ground arith

  within_namespace :
      (d : ResourceDiff) (run : Run) (here : Bool) (step : Step) (e : Error)
      → removed k row (if here then step else fail run.requests e) ≡ true
      → (removed k row step ≡ true → (removes k row run.requests || matches delete k row d) ≡ true)
      → (removes k row run.requests || matches delete k row d) ≡ true
  within_namespace d run true step e h sent = sent h
  within_namespace d run false step e h sent = ground (arith, h)

  apply_entry-removed :
      (d : ResourceDiff) (run : Run)
      → removed k row
          (apply_entry gateway namespace desired actual managed_ledger cyclic_creates d run)
        ≡ true
      → (removes k row run.requests || matches delete k row d) ≡ true
  unfolding apply_entry
  apply_entry-removed d run h =
      within_namespace d run (d.namespace == namespace)
        (unless_stale gateway namespace desired actual managed_ledger cyclic_creates
          (entry_step gateway namespace desired actual managed_ledger cyclic_creates) d run
          run.plan_stale)
        (backup_namespace d.namespace) h
        (λ planned.
          unless_stale-removed
            (entry_step gateway namespace desired actual managed_ledger cyclic_creates) d run
            run.plan_stale
            (λ sent. ground (
              arith,
              after_cycles-removed d
                  (cycles_first gateway namespace desired actual managed_ledger cyclic_creates d
                    run)
                  sent,
              cycles_first-removed d run,
            ))
            planned)

  after_entry :
      (d : ResourceDiff) (ds : List ResourceDiff) (run : Run) (step : Step)
      → (removed k row step ≡ true → (removes k row run.requests || matches delete k row d) ≡ true)
      → ((next : Run)
          → removed k row
              (apply_entries gateway namespace desired actual managed_ledger cyclic_creates ds next)
            ≡ true
          → (removes k row next.requests || listed delete k row ds) ≡ true)
      → removed k row (
          and_then gateway namespace desired actual managed_ledger cyclic_creates step (λ next.
            apply_entries gateway namespace desired actual managed_ledger cyclic_creates ds next))
        ≡ true
      → (removes k row run.requests || listed delete k row (d ∷ ds)) ≡ true
  unfolding any
  after_entry d ds run (continue next) entry rest h = ground (arith, rest next h)
  after_entry d ds run (stop next) entry rest h = ground (arith, entry h)
  after_entry d ds run (fail requests e) entry rest h = ground (arith, entry h)

  -- After a run over a list of entries, a removal was asked for before or is a listed delete.
  pub apply_entries-removed :
      (ds : List ResourceDiff) (run : Run)
      → removed k row
          (apply_entries gateway namespace desired actual managed_ledger cyclic_creates ds run)
        ≡ true
      → (removes k row run.requests || listed delete k row ds) ≡ true
  unfolding apply_entries any
  apply_entries-removed [] run h = ground arith
  apply_entries-removed (d ∷ ds) run h =
      after_entry d ds run
        (apply_entry gateway namespace desired actual managed_ledger cyclic_creates d run)
        (apply_entry-removed d run) (λ next. apply_entries-removed ds next) h
