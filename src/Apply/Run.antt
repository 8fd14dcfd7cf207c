-- ===== src/Apply/Run.antt =====
-- apply/api_target.rs: the state of the loop of `apply_incremental`, the gateway's side, and what an
-- outcome does to the state.
use ferrum_edge_git_forge_op.Base.{
  ◌+◌, Text, List, [], ◌∷◌, ◌++◌, select, Bool, false, not, ◌&&◌, ◌||◌, Option, none, some,
  contains, text_eq, ◌==◌, if◌then◌else◌, is_empty, Result, ok, err,
}
use ferrum_edge_git_forge_op.Base.HashMap
use ferrum_edge_git_forge_op.Base.HashMap.{any}
use ferrum_edge_git_forge_op.StateKey.{state_key, proxy, plugin_config}
use ferrum_edge_git_forge_op.Config.{PluginConfig, GatewayConfig}
use ferrum_edge_git_forge_op.Change.{DiffAction, modify, AppliedOp, ResourceDiff}
use ferrum_edge_git_forge_op.Diff.{Row, row_eq}
use ferrum_edge_git_forge_op.Apply.Changes.{is_delete}
use ferrum_edge_git_forge_op.Apply.Index.{ResourceIndex, at, proxy_id}
use ferrum_edge_git_forge_op.Apply.Outcome.{
  Error, is_fatal, proves_stale, not_sent, op_failed, ApplyResult,
}

pub data OpOutcome : Type 0 where
  applied unchanged already_gone : OpOutcome

pub data DeleteOutcome : Type 0 where
  deleted not_found : DeleteOutcome

unfoldable pub from_delete : DeleteOutcome → OpOutcome
from_delete deleted = applied
from_delete not_found = already_gone

-- What a run asks of the admin client, in the order of its calls.
pub data Request : Type 0 where
  create update update_after_plugins remove claim : Text → Row → Request
  batch : List ResourceDiff → Request

-- The answers of the admin client, each by the requests before it: the reads behind a conditional
-- write and the transport are part of them.
pub record Gateway : Type 0 where
  -- `Preconditions::new`
  pub preconditions : List Request → Result Error (Unit {0})
  pub create : List Request → Text → Row → Result Error (Unit {0})
  pub update : List Request → Text → Row → Result Error (Unit {0})
  -- Whether the proxy had to be written.
  pub update_proxy_after_plugins : List Request → Row → Result Error Bool
  pub delete : List Request → Text → Row → Result Error DeleteOutcome
  pub try_batch_create : List Request → List ResourceDiff → Result Error (Option ApplyResult)

pub record Run : Type 0 where
  pub result : ApplyResult
  pub writes_failed : Bool
  pub cyclic_pending : Bool
  pub failed_plugins : List Text
  pub failed_proxy_deletions : List Text
  pub changed_proxy_associations : List Text
  pub plan_stale : Option (Text × Text)
  pub requests : List Request

abbrev pub first_run : ApplyResult → List ResourceDiff → List Request → Run
first_run result cyclic_creates requests = record {
  result = result;
  writes_failed = false;
  cyclic_pending = not (is_empty cyclic_creates);
  failed_plugins = [];
  failed_proxy_deletions = [];
  changed_proxy_associations = [];
  plan_stale = none;
  requests = requests;
}

-- The next state, or the end of the loop: a stop with the result so far, or an error with the requests made so far.
pub data Step : Type 0 where
  continue : Run → Step
  stop : Run → Step
  fail : List Request → Error → Step

abbrev pub with_result : Run → ApplyResult → Run
with_result run result = record run { result = result }

abbrev pub stopped_with : Run → Error → Run
stopped_with run e = record run { result = record run.result { fatal_error = some e } }

abbrev pub op_of : ResourceDiff → DiffAction → AppliedOp
op_of d action = record { kind = d.kind; namespace = d.namespace; id = d.id; action = action }

abbrev defer : ApplyResult → ApplyResult
defer result = record result { deletes_deferred = result.deletes_deferred + 1 }

unfoldable pub defer_delete : Run → Run
defer_delete run = with_result run (defer run.result)

unfoldable pub withhold_after_stale_plan : ResourceDiff → Run → Run
withhold_after_stale_plan d run =
    if is_delete d
    then with_result run (defer run.result)
    else with_result run
        (record run.result { errors = run.result.errors ++ not_sent d.action d.kind d.id ∷ [] })

-- The proxies that a plugin config names, as it is live and as it is desired.
unfoldable pub owners : List PluginConfig → List Text
unfolding proxy_id
owners [] = []
owners (plugin ∷ rest) = elim (proxy_id plugin) [ none ↦ owners rest | some id ↦ id ∷ owners rest ]

abbrev listed_option : {T : Type 0} → Option T → List T
listed_option none = []
listed_option (some x) = x ∷ []

abbrev pub count : DiffAction → OpOutcome → ApplyResult → ApplyResult
count DiffAction.add op result = record result { created = result.created + 1 }
count DiffAction.modify op result = record result { updated = result.updated + 1 }
count DiffAction.delete already_gone result = record result {
  deleted = result.deleted + 1;
  deletes_missing = result.deletes_missing + 1;
}
count DiffAction.delete _ result = record result { deleted = result.deleted + 1 }

module _ (actual : GatewayConfig) (index : ResourceIndex) (managed_ledger : List Text) where
  -- The proxies whose associations the gateway rewrites with this plugin config.
  abbrev rewritten : ResourceDiff → List Text
  rewritten d = owners (
      select (λ plugin. plugin.id == d.id) actual.plugin_configs
      ++ listed_option (HashMap.lookup index.plugin_configs (at d.namespace d.id)))

  unfoldable pub note_applied : ResourceDiff → OpOutcome → Run → Run
  unfolding select owners HashMap.lookup
  note_applied d op run =
      let counted = count d.action op run.result in
      record run {
        result = record counted {
          applied_incremental = run.result.applied_incremental ++ op_of d d.action ∷ [];
        };
        changed_proxy_associations =
            if d.kind == plugin_config && not (is_delete d)
            then rewritten d ++ run.changed_proxy_associations
            else run.changed_proxy_associations;
      }

  unfoldable pub note_unchanged : ResourceDiff → Run → Run
  note_unchanged d run =
      if contains managed_ledger (state_key d.namespace proxy d.id)
      then run
      else with_result run
          (record run.result { adopted = run.result.adopted ++ op_of d modify ∷ [] })

  abbrev stale_after : ResourceDiff → Error → Option (Text × Text) → Option (Text × Text)
  stale_after d e before = if proves_stale e then some (d.kind, d.id) else before

  unfoldable pub note_failed : ResourceDiff → Error → Run → Run
  unfolding proves_stale
  note_failed d e run =
      let wrote = not (is_delete d) in
      let stale = stale_after d e run.plan_stale in
      record run {
        result = record run.result {
          errors = run.result.errors ++ op_failed d.action d.kind d.id e ∷ [];
          stale_plan = if proves_stale e then stale else run.result.stale_plan;
        };
        plan_stale = stale;
        writes_failed = run.writes_failed || wrote;
        failed_plugins =
            if wrote && d.kind == plugin_config
            then d.id ∷ run.failed_plugins
            else run.failed_plugins;
        failed_proxy_deletions =
            if is_delete d && d.kind == proxy
            then d.id ∷ run.failed_proxy_deletions
            else run.failed_proxy_deletions;
      }

  unfoldable pub settle : ResourceDiff → Run → Result Error OpOutcome → Step
  unfolding note_applied note_unchanged note_failed is_fatal
  settle d run (ok unchanged) = continue (note_unchanged d run)
  settle d run (ok applied) = continue (note_applied d applied run)
  settle d run (ok already_gone) = continue (note_applied d already_gone run)
  settle d run (err e) =
      if is_fatal e then stop (stopped_with run e) else continue (note_failed d e run)
