-- ===== src/Apply/Incremental/Sent/Writes.antt =====
-- apply/api_target.rs: a write sends no delete, and a delete is that of its entry.
use ferrum_edge_git_forge_op.Base.{
  Text, List, [], ◌∷◌, Bool, true, false, ◌&&◌, ◌||◌, Option, none, some, contains, text_eq, ◌==◌,
  if◌then◌else◌, Result, err,
}
use ferrum_edge_git_forge_op.Base.HashMap
use ferrum_edge_git_forge_op.Base.HashMap.{any}
use ferrum_edge_git_forge_op.StateKey.{proxy, consumer, upstream, plugin_config}
use ferrum_edge_git_forge_op.Config.{Proxy, GatewayConfig}
use ferrum_edge_git_forge_op.Change.{DiffAction, delete, ResourceDiff}
use ferrum_edge_git_forge_op.Diff.{Row, row_eq}
use ferrum_edge_git_forge_op.Apply.Index.{at, build}
use ferrum_edge_git_forge_op.Apply.Outcome.{Error}
use ferrum_edge_git_forge_op.Apply.Withhold.{dependency_error}
use ferrum_edge_git_forge_op.Apply.Run.{
  OpOutcome, Request, Gateway, Run, Step, continue, defer_delete, settle,
}
use ferrum_edge_git_forge_op.Base.{◌≡◌, refl, sym, ◌∙◌, arith}
use ferrum_edge_git_forge_op.Base.HashMap.{any-append, any-one}
use ferrum_edge_git_forge_op.Diff.Collection.{same_action, matches, row_of}
use ferrum_edge_git_forge_op.Apply.Incremental.{
  send_op, send_or_defer, ask, send_create, send_update, send_update_after, send_delete,
  write_proxy, update_proxy, write, perform, write_found,
}
use ferrum_edge_git_forge_op.Apply.Incremental.Sent.{
  is_removal, removes, removed, removes-append, settle-removed,
}

module _ (k : Text) (row : Row) (gateway : Gateway) (namespace : Text)
    (desired actual : GatewayConfig) (managed_ledger : List Text)
    (cyclic_creates : List ResourceDiff) where
  -- A request that removes k row nothing.
  asked :
      (d : ResourceDiff) (run : Run) (r : Request) (answer : Result Error OpOutcome)
      → removed k row (settle actual (build desired) managed_ledger d (ask r run) answer)
        ≡ (removes k row run.requests || is_removal k row r)
  asked d run r answer =
      settle-removed k row gateway namespace desired actual managed_ledger d (ask r run) answer
      ∙ removes-append k row run.requests r

  -- How a write is sent, if it removes k row nothing.
  abbrev Harmless : (ResourceDiff → Run → Step) → Type 0
  Harmless send =
      (d : ResourceDiff) (run : Run) → removed k row (send d run) ≡ removes k row run.requests

  or_false : (b : Bool) → (b || false) ≡ b
  or_false b = ground arith

  send_create-removed :
      (d : ResourceDiff) (run : Run)
      → removed k row
          (send_create gateway namespace desired actual managed_ledger cyclic_creates d run)
        ≡ removes k row run.requests
  send_create-removed d run = asked d run _ _ ∙ or_false (removes k row run.requests)

  send_update-removed :
      (d : ResourceDiff) (run : Run)
      → removed k row
          (send_update gateway namespace desired actual managed_ledger cyclic_creates d run)
        ≡ removes k row run.requests
  send_update-removed d run = asked d run _ _ ∙ or_false (removes k row run.requests)

  send_update_after-removed :
      (d : ResourceDiff) (run : Run)
      → removed k row
          (send_update_after gateway namespace desired actual managed_ledger cyclic_creates d run)
        ≡ removes k row run.requests
  send_update_after-removed d run = asked d run _ _ ∙ or_false (removes k row run.requests)

  send_delete-removed :
      (d : ResourceDiff) (run : Run)
      → removed k row
          (send_delete gateway namespace desired actual managed_ledger cyclic_creates d run)
        ≡ (removes k row run.requests || (d.kind == k && row_of d == row))
  send_delete-removed d run = asked d run _ _

  update_proxy-removed :
      (d : ResourceDiff) (run : Run)
      → removed k row
          (update_proxy gateway namespace desired actual managed_ledger cyclic_creates d run)
        ≡ removes k row run.requests
  update_proxy-removed d run =
      ground (arith, send_update-removed d run, send_update_after-removed d run)

  write_found-removed :
      {T : Type 0} (found : Option T) (to : T → Step) (run : Run)
      → ((x : T) → removed k row (to x) ≡ removes k row run.requests)
      → removed k row
          (write_found gateway namespace desired actual managed_ledger cyclic_creates found to run)
        ≡ removes k row run.requests
  write_found-removed none to run h = refl
  write_found-removed (some x) to run h = h x

  write_proxy-removed :
      (send : ResourceDiff → Run → Step) (harmless : Harmless send) (d : ResourceDiff) (run : Run)
      (p : Proxy)
      → removed k row
          (write_proxy gateway namespace desired actual managed_ledger cyclic_creates send d run p)
        ≡ removes k row run.requests
  write_proxy-removed send harmless d run p = ground (
    arith,
    harmless d run,
    settle-removed k row gateway namespace desired actual managed_ledger d run
        (err (dependency_error p run.failed_plugins)),
  )

  write-removed :
      (to_proxy send : ResourceDiff → Run → Step) (proxies : Harmless to_proxy)
      (others : Harmless send)
      → Harmless
          (write gateway namespace desired actual managed_ledger cyclic_creates to_proxy send)
  write-removed to_proxy send proxies others d run =
      let row' = at d.namespace d.id in
      let ix = build desired in
      ground (
        arith,
        write_found-removed (HashMap.lookup ix.proxies row')
            (write_proxy gateway namespace desired actual managed_ledger cyclic_creates to_proxy d
              run)
            run (write_proxy-removed to_proxy proxies d run),
        write_found-removed (HashMap.lookup ix.consumers row') (λ _. send d run) run
            (λ _. others d run),
        write_found-removed (HashMap.lookup ix.upstreams row') (λ _. send d run) run
            (λ _. others d run),
        write_found-removed (HashMap.lookup ix.plugin_configs row') (λ _. send d run) run
            (λ _. others d run),
      )

  known_kind :
      (known : Bool) (d : ResourceDiff) (run : Run)
      → removed k row (
          if known
          then send_delete gateway namespace desired actual managed_ledger cyclic_creates d run
          else continue run)
        ≡ true
      → (removes k row run.requests || (true && (d.kind == k && row_of d == row))) ≡ true
  known_kind true d run h = sym (send_delete-removed d run) ∙ h
  known_kind false d run h = ground arith

  perform-removed :
      (action : DiffAction) (d : ResourceDiff) (run : Run)
      → removed k row
          (perform gateway namespace desired actual managed_ledger cyclic_creates action d run)
        ≡ true
      → (removes k row run.requests
          || (same_action action delete && (d.kind == k && row_of d == row)))
        ≡ true
  perform-removed DiffAction.add d run h = ground (
    arith,
    write-removed (send_create gateway namespace desired actual managed_ledger cyclic_creates)
        (send_create gateway namespace desired actual managed_ledger cyclic_creates)
        send_create-removed send_create-removed d run,
  )
  perform-removed DiffAction.modify d run h = ground (
    arith,
    write-removed (update_proxy gateway namespace desired actual managed_ledger cyclic_creates)
        (send_update gateway namespace desired actual managed_ledger cyclic_creates)
        update_proxy-removed send_update-removed d run,
  )
  perform-removed DiffAction.delete d run h =
      known_kind (contains (proxy ∷ consumer ∷ upstream ∷ plugin_config ∷ []) d.kind) d run h

  pub send_or_defer-removed :
      (d : ResourceDiff) (run : Run)
      → removed k row
          (send_or_defer gateway namespace desired actual managed_ledger cyclic_creates d run)
        ≡ true
      → (removes k row run.requests || matches delete k row d) ≡ true
  unfolding send_op defer_delete
  send_or_defer-removed d run h = ground (arith, perform-removed d.action d run)
