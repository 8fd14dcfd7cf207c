-- ===== src/Apply/Incremental/Failures/Batches.antt =====
-- apply/api_target.rs: the creates of cycles, and no delete beside a failed write.
use ferrum_edge_git_forge_op.Base.{
  Text, List, [], ◌∷◌, ◌≡◌, refl, Bool, true, false, not, ◌&&◌, ◌||◌, Option, none, some, text_eq,
  is_empty, is_some, Result, ok, err, arith,
}
use ferrum_edge_git_forge_op.Base.HashMap.{any, any-append}
use ferrum_edge_git_forge_op.Config.{GatewayConfig}
use ferrum_edge_git_forge_op.Change.{ResourceDiff}
use ferrum_edge_git_forge_op.Diff.{row_eq}
use ferrum_edge_git_forge_op.Apply.Index.{build}
use ferrum_edge_git_forge_op.Apply.Outcome.{
  Error, Message, batch_unsupported, batch_failed, ApplyResult, default_result,
}
use ferrum_edge_git_forge_op.Apply.Withhold.{BlockedCreateGroup, partition_cyclic_creates}
use ferrum_edge_git_forge_op.Apply.Run.{Request, batch, Gateway, Run, Step, continue, stop, fail}
use ferrum_edge_git_forge_op.Apply.Incremental.{
  note_blocked, settle_batch, unless_fatal, merge_batched, then_stale, create_cycles, send_batch,
  ask,
}
use ferrum_edge_git_forge_op.Apply.Incremental.Failures.{
  is_delete_op, is_write_failure, deleted_any, write_failed_any, creates_only, run_fits, apart,
  append-failure,
}

-- A run before which no delete was applied, and its failures are on record.
abbrev fresh : Run → Bool
fresh run =
    not (deleted_any run.result)
    && (not (write_failed_any run.result) || (run.writes_failed || is_some run.plan_stale))

-- A step after the creates, if `settled` with none pending.
unfoldable pub mid_fits : Bool → Bool → Step → Bool
mid_fits settled left (continue run) = run_fits left run && not (settled && run.cyclic_pending)
mid_fits settled left (stop run) = apart run.result
mid_fits settled left (fail requests e) = true

any-is_empty : (p : Message → Bool) (ms : List Message) → any p ms ≡ true → is_empty ms ≡ false
unfolding any
any-is_empty p [] h = cc
any-is_empty p (m ∷ ms) h = refl

then_stale-is_some :
    (a b : Option (Text × Text)) → is_some a ≡ true → is_some (then_stale a b) ≡ true
then_stale-is_some none b h = cc
then_stale-is_some (some x) b h = refl

module _ (settled left : Bool) where
  unless_fatal_fits :
      (fatal : Option Error) (run : Run) (stale : Option (Text × Text))
      → fresh run ≡ true
      → run.cyclic_pending ≡ false
      → (is_some run.plan_stale ≡ true → is_some stale ≡ true)
      → mid_fits settled left (unless_fatal fatal run stale) ≡ true
  unfolding mid_fits
  unless_fatal_fits (some e) run stale h none_pending kept = ground arith
  unless_fatal_fits none run stale h none_pending kept = ground (arith, kept)

  settle_batch_fits :
      (attempt : List ResourceDiff) (run : Run) (answer : Result Error (Option ApplyResult))
      → creates_only answer ≡ true
      → fresh run ≡ true
      → run.cyclic_pending ≡ false
      → mid_fits settled left (settle_batch attempt run answer) ≡ true
  unfolding settle_batch mid_fits
  settle_batch_fits attempt run (ok none) adds h none_pending =
      ground (arith, append-failure run.result batch_unsupported)
  settle_batch_fits attempt run (err e) adds h none_pending =
      ground (arith, append-failure run.result (batch_failed e))
  settle_batch_fits attempt run (ok (some batched)) adds h none_pending =
      unless_fatal_fits batched.fatal_error (merge_batched attempt batched run) _
        (ground (
          arith,
          any-append is_delete_op run.result.applied_incremental batched.applied_incremental,
          any-append is_write_failure run.result.errors batched.errors,
          any-is_empty is_write_failure batched.errors,
        ))
        none_pending (then_stale-is_some run.plan_stale batched.stale_plan)

-- A group's message is one of a withheld group.
abbrev names_group : List BlockedCreateGroup → Bool
names_group blocked = any (λ g. not (is_write_failure g.message)) blocked

note_blocked-fresh :
    (blocked : List BlockedCreateGroup) (run : Run)
    → fresh run ≡ true
    → fresh (note_blocked blocked run) ≡ true
unfolding note_blocked
note_blocked-fresh [] run h = h
note_blocked-fresh (group ∷ blocked) run h =
    note_blocked-fresh blocked _ (ground (arith, append-failure run.result group.message))

note_blocked_pending :
    (blocked : List BlockedCreateGroup) (run : Run)
    → (note_blocked blocked run).cyclic_pending ≡ run.cyclic_pending
unfolding note_blocked
note_blocked_pending [] run = refl
note_blocked_pending (group ∷ blocked) run = note_blocked_pending blocked _

default_creates_only : creates_only (ok (some default_result)) ≡ true
unfolding any
default_creates_only = refl

module _ (settled left : Bool) (gateway : Gateway) (namespace : Text)
    (desired actual : GatewayConfig) (managed_ledger : List Text)
    (cyclic_creates : List ResourceDiff)
    (adds : (requests : List Request) (attempt : List ResourceDiff)
      → creates_only (gateway.try_batch_create requests attempt) ≡ true) where
  send_batch_fits :
      (attempt : List ResourceDiff) (run : Run)
      → fresh run ≡ true
      → run.cyclic_pending ≡ false
      → mid_fits settled left
          (send_batch gateway namespace desired actual managed_ledger cyclic_creates attempt run)
        ≡ true
  send_batch_fits attempt run h none_pending = ground (
    arith,
    settle_batch_fits settled left attempt run (ok (some default_result)) default_creates_only,
    settle_batch_fits settled left attempt (ask (batch attempt) run)
        (gateway.try_batch_create run.requests attempt) (adds run.requests attempt),
  )

  pub create_cycles_fits :
      (run : Run)
      → fresh run ≡ true
      → mid_fits settled left
          (create_cycles gateway namespace desired actual managed_ledger cyclic_creates run)
        ≡ true
  unfolding create_cycles
  create_cycles_fits run h =
      let split = partition_cyclic_creates cyclic_creates (build desired) run.failed_plugins in
      let unmarked = record run { cyclic_pending = false } in
      send_batch_fits split.1 _ (note_blocked-fresh split.0 unmarked h)
        (note_blocked_pending split.0 unmarked)
