-- ===== src/Apply/Incremental.antt =====
-- apply/api_target.rs: the loop of `apply_incremental` over the ordered diff of a namespace.
pub mod Sent
pub mod Failures
use ferrum_edge_git_forge_op.Base.{
  ℕ, ◌+◌, Text, codes, List, [], ◌∷◌, ◌++◌, map, select, Bool, true, false, not, ◌&&◌, ◌||◌, Option,
  none, some, contains, text_eq, ◌==◌, if◌then◌else◌, is_empty, leb, Result, ok, err, ◌>>=◌,
}
use ferrum_edge_git_forge_op.Base.HashMap
use ferrum_edge_git_forge_op.Base.HashMap.{any}
use ferrum_edge_git_forge_op.StateKey.{proxy, consumer, upstream, plugin_config}
use ferrum_edge_git_forge_op.Config.{Proxy, GatewayConfig}
use ferrum_edge_git_forge_op.Change.{DiffAction, add, modify, delete, AppliedOp, ResourceDiff}
use ferrum_edge_git_forge_op.Diff.{Row, row_eq}
use ferrum_edge_git_forge_op.Apply.Changes.{key_of, is_delete}
use ferrum_edge_git_forge_op.Apply.Index.{ResourceIndex, at, plugins, build}
use ferrum_edge_git_forge_op.Apply.Order.{rank}
use ferrum_edge_git_forge_op.Apply.Order.Cycles.{cyclic_create_diffs}
use ferrum_edge_git_forge_op.Apply.Outcome.{
  Error, backup_namespace, is_fatal, Message, batch_failed, batch_unsupported, ApplyResult,
  default_result,
}
use ferrum_edge_git_forge_op.Apply.Withhold.{
  proxy_has_failed_plugin, dependency_error, BlockedCreateGroup, partition_cyclic_creates,
}
use ferrum_edge_git_forge_op.Apply.Run.{
  OpOutcome, applied, unchanged, from_delete, Request, create, update, update_after_plugins, remove,
  batch, Gateway, Run, Step, continue, stop, fail, with_result, defer_delete,
  withhold_after_stale_plan, settle, stopped_with,
}

unfoldable pub note_blocked : List BlockedCreateGroup → Run → Run
note_blocked [] run = run
note_blocked (group ∷ blocked) run = note_blocked blocked (record run {
  writes_failed = true;
  failed_plugins = group.withheld_plugins ++ run.failed_plugins;
  result = record run.result { errors = run.result.errors ++ group.message ∷ [] };
})

abbrev pub then_stale : Option (Text × Text) → Option (Text × Text) → Option (Text × Text)
then_stale (some first) later = some first
then_stale none later = later

abbrev has_op : List AppliedOp → ResourceDiff → Bool
has_op ops d = any (λ op. op.kind == d.kind && op.id == d.id) ops

-- The attempted plugin configs that a batch did not create.
unfoldable pub lost_plugins : List ResourceDiff → List AppliedOp → List Text
unfolding any
lost_plugins [] ops = []
lost_plugins (d ∷ attempt) ops =
    let rest = lost_plugins attempt ops in
    if d.kind == plugin_config && not (has_op ops d) then d.id ∷ rest else rest

abbrev pub merge_batched : List ResourceDiff → ApplyResult → Run → Run
merge_batched attempt batched run = record run {
  writes_failed = run.writes_failed || not (is_empty batched.errors);
  failed_plugins = lost_plugins attempt batched.applied_incremental ++ run.failed_plugins;
  result = record run.result {
    created = run.result.created + batched.created;
    applied_incremental = run.result.applied_incremental ++ batched.applied_incremental;
    errors = run.result.errors ++ batched.errors;
  };
}

abbrev mark_stale : Option (Text × Text) → Run → Run
mark_stale stale run = record run {
  plan_stale = stale;
  result = record run.result { stale_plan = stale };
}

abbrev pub unless_fatal : Option Error → Run → Option (Text × Text) → Step
unless_fatal (some e) run stale = stop (stopped_with run e)
unless_fatal none run stale = continue (mark_stale stale run)

abbrev note_error : Message → Run → Run
note_error message run = record run {
  writes_failed = true;
  result = record run.result { errors = run.result.errors ++ message ∷ [] };
}

unfoldable pub settle_batch : List ResourceDiff → Run → Result Error (Option ApplyResult) → Step
unfolding lost_plugins is_fatal
settle_batch attempt run (ok (some batched)) =
    unless_fatal batched.fatal_error (merge_batched attempt batched run)
      (then_stale run.plan_stale batched.stale_plan)
settle_batch attempt run (ok none) = continue (note_error batch_unsupported run)
settle_batch attempt run (err e) =
    if is_fatal e then stop (stopped_with run e) else continue (note_error (batch_failed e) run)

abbrev pub ask : Request → Run → Run
ask request run = record run { requests = run.requests ++ request ∷ [] }

module _ (gateway : Gateway) (namespace : Text) (desired actual : GatewayConfig)
    (managed_ledger : List Text) where
  abbrev pub index : ResourceIndex
  index = build desired

  module _ (cyclic_creates : List ResourceDiff) where
    abbrev pub in_cycle : ResourceDiff → Bool
    in_cycle d = contains (map key_of cyclic_creates) (key_of d)

    abbrev pub send_batch : List ResourceDiff → Run → Step
    send_batch attempt run =
        if is_empty attempt
        then settle_batch attempt run (ok (some default_result))
        else settle_batch attempt (ask (batch attempt) run)
            (gateway.try_batch_create run.requests attempt)

    unfoldable pub create_cycles : Run → Step
    unfolding partition_cyclic_creates note_blocked settle_batch
    create_cycles run =
        let (blocked, attempt) = partition_cyclic_creates cyclic_creates index run.failed_plugins in
        send_batch attempt (note_blocked blocked (record run { cyclic_pending = false }))

    -- The creates of the cycles come before the first entry of rank 2, or of a cycle.
    abbrev pub cycles_first : ResourceDiff → Run → Step
    cycles_first d run =
        if run.cyclic_pending && (leb 2 (rank d) || in_cycle d)
        then create_cycles run
        else continue run

    -- Whether a proxy that could not be deleted references the plugin config.
    unfoldable pub held_back : ResourceDiff → Run → Bool
    unfolding any plugins
    held_back d run =
        is_delete d
        && (d.kind == plugin_config
            && any (λ p. contains run.failed_proxy_deletions p.id && contains (plugins p) d.id)
                actual.proxies)

    abbrev pub created_op : Result Error (Unit {0}) → Result Error OpOutcome
    created_op answer = answer >>= λ _. ok applied

    abbrev pub updated_op : Result Error Bool → Result Error OpOutcome
    updated_op answer = answer >>= λ wrote. ok (if wrote then applied else unchanged)

    -- A write of a row that the desired document has; nothing is sent for any other.
    abbrev pub write_found : {T : Type 0} → Option T → (T → Step) → Run → Step
    write_found none write run = continue run
    write_found (some resource) write run = write resource

    abbrev pub settled : ResourceDiff → Run → Result Error OpOutcome → Step
    settled d run answer = settle actual index managed_ledger d run answer

    abbrev pub send_create : ResourceDiff → Run → Step
    send_create d run =
        settled d (ask (create d.kind (at d.namespace d.id)) run)
          (created_op (gateway.create run.requests d.kind (at d.namespace d.id)))

    abbrev pub send_update : ResourceDiff → Run → Step
    send_update d run =
        settled d (ask (update d.kind (at d.namespace d.id)) run)
          (created_op (gateway.update run.requests d.kind (at d.namespace d.id)))

    abbrev pub send_update_after : ResourceDiff → Run → Step
    send_update_after d run =
        settled d (ask (update_after_plugins d.kind (at d.namespace d.id)) run)
          (updated_op (gateway.update_proxy_after_plugins run.requests (at d.namespace d.id)))

    abbrev pub send_delete : ResourceDiff → Run → Step
    send_delete d run =
        settled d (ask (remove d.kind (at d.namespace d.id)) run) (
          gateway.delete run.requests d.kind (at d.namespace d.id) >>= λ gone.
          ok (from_delete gone))

    abbrev pub write_proxy : (ResourceDiff → Run → Step) → ResourceDiff → Run → Proxy → Step
    write_proxy send d run p =
        if proxy_has_failed_plugin p run.failed_plugins
        then settled d run (err (dependency_error p run.failed_plugins))
        else send d run

    abbrev pub update_proxy : ResourceDiff → Run → Step
    update_proxy d run =
        if contains run.changed_proxy_associations d.id
        then send_update_after d run
        else send_update d run

    abbrev pub write :
        (ResourceDiff → Run → Step) → (ResourceDiff → Run → Step) → ResourceDiff → Run → Step
    write send_proxy send d run =
        let row = at d.namespace d.id in
        if d.kind == proxy
        then write_found (HashMap.lookup index.proxies row) (write_proxy send_proxy d run) run
        else if d.kind == consumer
        then write_found (HashMap.lookup index.consumers row) (λ _. send d run) run
        else if d.kind == upstream
        then write_found (HashMap.lookup index.upstreams row) (λ _. send d run) run
        else if d.kind == plugin_config
        then write_found (HashMap.lookup index.plugin_configs row) (λ _. send d run) run
        else continue run

    abbrev pub perform : DiffAction → ResourceDiff → Run → Step
    perform DiffAction.add d run = write send_create send_create d run
    perform DiffAction.modify d run = write update_proxy send_update d run
    perform DiffAction.delete d run =
        if contains (proxy ∷ consumer ∷ upstream ∷ plugin_config ∷ []) d.kind
        then send_delete d run
        else continue run

    unfoldable pub send_op : ResourceDiff → Run → Step
    unfolding build HashMap.lookup settle proxy_has_failed_plugin dependency_error from_delete
    send_op d run = perform d.action d run

    abbrev pub unless_stale :
        (ResourceDiff → Run → Step) → ResourceDiff → Run → Option (Text × Text) → Step
    unless_stale next d run (some first) = continue (withhold_after_stale_plan d run)
    unless_stale next d run none = next d run

    abbrev pub send_or_defer : ResourceDiff → Run → Step
    send_or_defer d run =
        if run.writes_failed && is_delete d
        then continue (defer_delete run)
        else if held_back d run
        then continue (defer_delete run)
        else send_op d run

    abbrev pub after_cycles : ResourceDiff → Step → Step
    after_cycles d (continue run) =
        if in_cycle d then continue run else unless_stale send_or_defer d run run.plan_stale
    after_cycles d (stop run) = stop run
    after_cycles d (fail requests e) = fail requests e

    abbrev pub entry_step : ResourceDiff → Run → Step
    entry_step d run = after_cycles d (cycles_first d run)

    -- One turn of the loop.
    unfoldable pub apply_entry : ResourceDiff → Run → Step
    unfolding create_cycles held_back send_op withhold_after_stale_plan defer_delete
    apply_entry d run =
        if d.namespace == namespace
        then unless_stale entry_step d run run.plan_stale
        else fail run.requests (backup_namespace d.namespace)

    abbrev pub and_then : Step → (Run → Step) → Step
    and_then (continue run) next = next run
    and_then (stop run) next = stop run
    and_then (fail requests e) next = fail requests e

    unfoldable pub apply_entries : List ResourceDiff → Run → Step
    unfolding apply_entry
    apply_entries [] run = continue run
    apply_entries (d ∷ diffs) run = and_then (apply_entry d run) (λ next. apply_entries diffs next)
