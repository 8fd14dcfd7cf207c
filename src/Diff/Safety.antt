-- ===== src/Diff/Safety.antt =====
-- The whole diff: what it lists, what it refuses, and what shared ownership keeps it from deleting.
use ferrum_edge_git_forge_op.Base.{
  Text, List, [], ◌≡◌, ◌↔◌, refl, sym, ◌∙◌, ap, Bool, true, false, ◌&&◌, ◌||◌, Option, none, some,
  contains, text_eq, ◌==◌, arith, Result, ok, >>=-eq-ok,
}
use ferrum_edge_git_forge_op.Base.HashMap
use ferrum_edge_git_forge_op.Base.HashMap.{HashMap, any}
use ferrum_edge_git_forge_op.Base.Sort.{any-sort_by}
use ferrum_edge_git_forge_op.StateKey.{state_key, proxy, consumer, upstream, plugin_config}
use ferrum_edge_git_forge_op.Config.{GatewayConfig}
use ferrum_edge_git_forge_op.Config.Identity.{ConfigError, identities}
use ferrum_edge_git_forge_op.Config.Identity.Laws.{Fresh, validate_unique-Fresh}
use ferrum_edge_git_forge_op.Change.{DiffAction, delete}
use ferrum_edge_git_forge_op.Diff.Redact.{Serde}
use ferrum_edge_git_forge_op.Diff.Fields.{Resource}
use ferrum_edge_git_forge_op.Diff.{
  Row, row_eq, OwnershipScope, shared, DiffOptions, CollectionContext, DiffResult, rows, proxies,
  consumers, upstreams, plugin_configs, diff_all, sort_result, compute_diff_with_options,
  validate_unique_live_resource_keys,
}
use ferrum_edge_git_forge_op.Diff.Collection.{
  listed, matches, is_action, expected, diff_collection-listed,
}

pub any_of_four :
    {C : Type 0} (p q r s : Bool)
    → (p || q || r || s) ≡ true
    → (p ≡ true → C)
    → (q ≡ true → C)
    → (r ≡ true → C)
    → (s ≡ true → C)
    → C
any_of_four true q r s h f g i j = f refl
any_of_four false true r s h f g i j = g refl
any_of_four false false true s h f g i j = i refl
any_of_four false false false true h f g i j = j refl
any_of_four false false false false h f g i j = cc

module _ (serde : Serde) (ctx : CollectionContext) where
  -- Whether a row of one collection calls for an action.
  abbrev pub calls_for :
      {T : Type 0} → Resource T → Text → List T → List T → DiffAction → Text → Row → Bool
  calls_for R kind desired actual action k row =
      kind == k
      && is_action
          (expected serde R kind ctx row (HashMap.lookup (rows serde R kind desired) row)
            (HashMap.lookup (rows serde R kind actual) row))
          action

  -- Whether a resource, as the two documents have it, calls for an action.
  abbrev pub called_for : GatewayConfig → GatewayConfig → DiffAction → Text → Row → Bool
  called_for desired actual action k row =
      calls_for proxies proxy desired.proxies actual.proxies action k row
      || calls_for consumers consumer desired.consumers actual.consumers action k row
      || calls_for upstreams upstream desired.upstreams actual.upstreams action k row
      || calls_for plugin_configs plugin_config desired.plugin_configs actual.plugin_configs action
          k row

  diff_all-listed :
      (desired actual : GatewayConfig) (action : DiffAction) (k : Text) (row : Row)
      → listed action k row (diff_all serde desired actual ctx).diffs
        ≡ called_for desired actual action k row
  unfolding diff_all any
  diff_all-listed desired actual action k row = rw (
    diff_collection-listed serde plugin_configs plugin_config ctx action k row
        desired.plugin_configs actual.plugin_configs,
    diff_collection-listed serde upstreams upstream ctx action k row desired.upstreams
        actual.upstreams,
    diff_collection-listed serde consumers consumer ctx action k row desired.consumers
        actual.consumers,
    diff_collection-listed serde proxies proxy ctx action k row desired.proxies actual.proxies,
  )

abbrev pub context : OwnershipScope → DiffOptions → CollectionContext
context scope options = record { ownership_scope = scope; options = options }

module _ (serde : Serde) (desired actual : GatewayConfig) (scope : OwnershipScope)
    (options : DiffOptions) where
  abbrev computed : Result ConfigError DiffResult
  computed = compute_diff_with_options serde desired actual scope options

  -- A diff lists an action for a resource exactly if the two documents and the ownership call for
  -- that action.
  pub compute_diff-listed :
      (result : DiffResult) (action : DiffAction) (k : Text) (row : Row)
      → computed ≡ ok result
      → listed action k row result.diffs
        ≡ called_for serde (context scope options) desired actual action k row
  unfolding compute_diff_with_options sort_result
  compute_diff-listed result action k row e =
      let (u, valid, same) = >>=-eq-ok (validate_unique_live_resource_keys actual) _ e in
      let sorted : sort_result (diff_all serde desired actual (context scope options)) ≡ result =
        cc same in
      ap (λ (r : DiffResult). listed action k row r.diffs) (sym sorted)
      ∙ any-sort_by _ (matches action k row) _
      ∙ diff_all-listed serde (context scope options) desired actual action k row

  -- The diff is computed exactly if no identity is declared twice in the live document.
  pub compute_diff-Fresh :
      ((result : DiffResult) × (computed ≡ ok result)) ↔ Fresh [] (identities actual)
  unfolding compute_diff_with_options validate_unique_live_resource_keys
  compute_diff-Fresh = (
    λ (result, e).
        (validate_unique-Fresh actual).0
          (>>=-eq-ok (validate_unique_live_resource_keys actual) _ e).1,
    λ fresh. (
      sort_result (diff_all serde desired actual (context scope options)),
      rw ((validate_unique-Fresh actual).1 fresh),
    ),
  )

module _ (serde : Serde) (managed : List Text) (options : DiffOptions) (row : Row) where
  abbrev Fence : Text → Type 0
  Fence k = contains managed (state_key row.namespace k row.id) ≡ true

  module _ {T : Type 0} (R : Resource T) (kind : Text) where
    expected_delete :
        (desired live : Option T)
        → is_action
            (expected serde R kind (context (shared managed) options) row desired live)
            delete
          ≡ true
        → Fence kind
    expected_delete none none h = cc
    expected_delete (some d) none h = cc
    expected_delete (some d) (some a) h = ground arith
    expected_delete none (some a) h = ground arith

    calls_for_delete :
        (k : Text) (desired actual : List T)
        → calls_for serde (context (shared managed) options) R kind desired actual delete k row
          ≡ true
        → Fence k
    calls_for_delete k desired actual h = ground (
      arith,
      expected_delete (HashMap.lookup (rows serde R kind desired) row)
          (HashMap.lookup (rows serde R kind actual) row),
    )

  shared_delete :
      (desired actual : GatewayConfig) (k : Text)
      → called_for serde (context (shared managed) options) desired actual delete k row ≡ true
      → Fence k
  shared_delete desired actual k h =
      any_of_four _ _ _ _ h (calls_for_delete proxies proxy k desired.proxies actual.proxies)
        (calls_for_delete consumers consumer k desired.consumers actual.consumers)
        (calls_for_delete upstreams upstream k desired.upstreams actual.upstreams)
        (calls_for_delete plugin_configs plugin_config k desired.plugin_configs
          actual.plugin_configs)

-- In shared mode, a resource that is deleted was managed before: its state key was in the ledger.
pub shared_delete_fence :
    (serde : Serde) (managed : List Text) (options : DiffOptions) (desired actual : GatewayConfig)
    (result : DiffResult) (k : Text) (row : Row)
    → compute_diff_with_options serde desired actual (shared managed) options ≡ ok result
    → listed delete k row result.diffs ≡ true
    → contains managed (state_key row.namespace k row.id) ≡ true
shared_delete_fence serde managed options desired actual result k row e h =
    shared_delete serde managed options row desired actual k (
      sym (compute_diff-listed serde desired actual (shared managed) options result delete k row e)
      ∙ h)
