-- ===== src/Apply/Incremental/Failures/Sends.antt =====
-- apply/api_target.rs: the single writes, and no delete beside a failed write.
use ferrum_edge_git_forge_op.Base.{
  Text, List, ◌≡◌, ap, Bool, true, false, not, ◌||◌, Option, none, some, text_eq, ◌==◌,
  if◌then◌else◌, is_some, err, arith,
}
use ferrum_edge_git_forge_op.Base.HashMap
use ferrum_edge_git_forge_op.Base.HashMap.{any, any-append, any-one}
use ferrum_edge_git_forge_op.StateKey.{proxy, consumer, upstream, plugin_config}
use ferrum_edge_git_forge_op.Config.{GatewayConfig}
use ferrum_edge_git_forge_op.Change.{DiffAction, ResourceDiff}
use ferrum_edge_git_forge_op.Diff.{row_eq}
use ferrum_edge_git_forge_op.Apply.Changes.{is_delete}
use ferrum_edge_git_forge_op.Apply.Index.{at, build}
use ferrum_edge_git_forge_op.Apply.Withhold.{dependency_error, proxy_has_failed_plugin}
use ferrum_edge_git_forge_op.Apply.Run.{Gateway, Run, Step, continue, defer_delete}
use ferrum_edge_git_forge_op.Apply.Incremental.{
  send_create, send_update, send_update_after, send_delete, update_proxy, write, write_found,
  perform, send_op, send_or_defer, unless_stale,
}
use ferrum_edge_git_forge_op.Apply.Incremental.Failures.{
  step_fits, withhold_fits, defer_fits, before, ready, settle_fits,
}

module _ (left : Bool) (gateway : Gateway) (namespace : Text) (desired actual : GatewayConfig)
    (managed_ledger : List Text) (cyclic_creates : List ResourceDiff) where
  abbrev Preserving : (ResourceDiff → Run → Step) → Type 0
  Preserving send =
      (d : ResourceDiff) (run : Run)
      → before left gateway namespace desired actual managed_ledger d run ≡ true
      → ready left gateway namespace desired actual managed_ledger d run ≡ true
      → step_fits left (send d run) ≡ true

  create_fits :
      Preserving (send_create gateway namespace desired actual managed_ledger cyclic_creates)
  create_fits d run h may =
      settle_fits left gateway namespace desired actual managed_ledger d _ _ h may

  update_fits :
      Preserving (send_update gateway namespace desired actual managed_ledger cyclic_creates)
  update_fits d run h may =
      settle_fits left gateway namespace desired actual managed_ledger d _ _ h may

  update_after_fits :
      Preserving (send_update_after gateway namespace desired actual managed_ledger cyclic_creates)
  update_after_fits d run h may =
      settle_fits left gateway namespace desired actual managed_ledger d _ _ h may

  delete_fits :
      Preserving (send_delete gateway namespace desired actual managed_ledger cyclic_creates)
  delete_fits d run h may =
      settle_fits left gateway namespace desired actual managed_ledger d _ _ h may

  pub nothing_fits :
      (d : ResourceDiff) (run : Run)
      → before left gateway namespace desired actual managed_ledger d run ≡ true
      → step_fits left (continue run) ≡ true
  unfolding step_fits
  nothing_fits d run h = ground arith

  pub either_fits :
      (b : Bool) (s t : Step)
      → step_fits left s ≡ true
      → step_fits left t ≡ true
      → step_fits left (if b then s else t) ≡ true
  either_fits true s t p q = p
  either_fits false s t p q = q

  found_fits :
      {T : Type 0} (found : Option T) (to : T → Step) (run : Run)
      → ((x : T) → step_fits left (to x) ≡ true)
      → step_fits left (continue run) ≡ true
      → step_fits left
          (write_found gateway namespace desired actual managed_ledger cyclic_creates found to run)
        ≡ true
  found_fits none to run go stay = stay
  found_fits (some x) to run go stay = go x

  update_proxy_fits :
      Preserving (update_proxy gateway namespace desired actual managed_ledger cyclic_creates)
  update_proxy_fits d run h may =
      either_fits _ _ _ (update_after_fits d run h may) (update_fits d run h may)

  write_fits :
      (to_proxy send : ResourceDiff → Run → Step)
      → Preserving to_proxy
      → Preserving send
      → Preserving
          (write gateway namespace desired actual managed_ledger cyclic_creates to_proxy send)
  write_fits to_proxy send proxies others d run h may =
      let stay = nothing_fits d run h in
      let ix = build desired in
      let this = at d.namespace d.id in
      either_fits (d.kind == proxy) _ _
        (found_fits (HashMap.lookup ix.proxies this) _ run
          (λ p.
            either_fits (proxy_has_failed_plugin p run.failed_plugins) _ _
              (settle_fits left gateway namespace desired actual managed_ledger d run
                (err (dependency_error p run.failed_plugins)) h may)
              (proxies d run h may))
          stay)
        (either_fits (d.kind == consumer) _ _
          (found_fits (HashMap.lookup ix.consumers this) _ run (λ _. others d run h may) stay)
          (either_fits (d.kind == upstream) _ _
            (found_fits (HashMap.lookup ix.upstreams this) _ run (λ _. others d run h may) stay)
            (either_fits (d.kind == plugin_config) _ _
              (found_fits (HashMap.lookup ix.plugin_configs this) _ run (λ _. others d run h may)
                stay)
              stay)))

  perform_fits :
      (action : DiffAction) (d : ResourceDiff) (run : Run)
      → before left gateway namespace desired actual managed_ledger d run ≡ true
      → ready left gateway namespace desired actual managed_ledger d run ≡ true
      → step_fits left
          (perform gateway namespace desired actual managed_ledger cyclic_creates action d run)
        ≡ true
  perform_fits DiffAction.add d run h may = write_fits _ _ create_fits create_fits d run h may
  perform_fits DiffAction.modify d run h may =
      write_fits _ _ update_proxy_fits update_fits d run h may
  perform_fits DiffAction.delete d run h may =
      either_fits _ _ _ (delete_fits d run h may) (nothing_fits d run h)

  defer_step_fits :
      (d : ResourceDiff) (run : Run)
      → before left gateway namespace desired actual managed_ledger d run ≡ true
      → step_fits left (continue (defer_delete run)) ≡ true
  unfolding step_fits
  defer_step_fits d run h = defer_fits left d run h

  pub send_or_defer_fits :
      (d : ResourceDiff) (run : Run)
      → before left gateway namespace desired actual managed_ledger d run ≡ true
      → is_some run.plan_stale ≡ false
      → (not (is_delete d) || not (run.cyclic_pending || left)) ≡ true
      → step_fits left
          (send_or_defer gateway namespace desired actual managed_ledger cyclic_creates d run)
        ≡ true
  unfolding send_op
  send_or_defer_fits d run h current may =
      ground (arith, defer_step_fits d run, perform_fits d.action d run)

  pub unless_stale_fits :
      (next : ResourceDiff → Run → Step) (d : ResourceDiff) (run : Run)
      (stale : Option (Text × Text))
      → run.plan_stale ≡ stale
      → before left gateway namespace desired actual managed_ledger d run ≡ true
      → (is_some run.plan_stale ≡ false → step_fits left (next d run) ≡ true)
      → step_fits left (
          unless_stale gateway namespace desired actual managed_ledger cyclic_creates next d run
            stale)
        ≡ true
  unfolding step_fits
  unless_stale_fits next d run none e h go = go (ap is_some e)
  unless_stale_fits next d run (some first) e h go = withhold_fits left d run h (ap is_some e)
