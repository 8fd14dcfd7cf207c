-- ===== src/Diff/SpecOwned.antt =====
-- diff/resource_diff.rs: rows that an API spec owns are left alone.
use ferrum_edge_git_forge_op.Base.{
  Text, List, ◌≡◌, refl, sym, ◌∙◌, Bool, true, false, not, ◌&&◌, ◌||◌, Option, none, some, text_eq,
  ◌==◌, is_some, ok, arith,
}
use ferrum_edge_git_forge_op.Base.HashMap
use ferrum_edge_git_forge_op.Base.HashMap.{holds}
use ferrum_edge_git_forge_op.StateKey.{proxy, consumer, upstream, plugin_config}
use ferrum_edge_git_forge_op.Config.{GatewayConfig}
use ferrum_edge_git_forge_op.Change.{DiffAction}
use ferrum_edge_git_forge_op.Diff.Redact.{Serde}
use ferrum_edge_git_forge_op.Diff.Fields.{Resource}
use ferrum_edge_git_forge_op.Diff.{
  Row, row_eq, rows, CollectionContext, DiffOptions, DiffResult, OwnershipScope, is_exclusive,
  proxies, consumers, upstreams, plugin_configs, compute_diff_with_options,
}
use ferrum_edge_git_forge_op.Diff.Collection.{listed, expected, is_action}
use ferrum_edge_git_forge_op.Diff.Safety.{
  calls_for, called_for, compute_diff-listed, context, any_of_four,
}

all_of_four :
    (p q r s : Bool) → (p && q && r && s) ≡ true → (p ≡ true) × (q ≡ true) × (r ≡ true) × (s ≡ true)
all_of_four true true true true h = (refl, refl, refl, refl)
all_of_four true true true false h = cc
all_of_four true true false s h = cc
all_of_four true false r s h = cc
all_of_four false q r s h = cc

module _ (serde : Serde) (ctx : CollectionContext) (row : Row) where
  -- Whether an action is one that a spec-owned row may get.
  abbrev pub permitted : DiffAction → Bool
  permitted DiffAction.add = false
  permitted DiffAction.modify = false
  permitted DiffAction.delete = is_exclusive ctx.ownership_scope && ctx.options.prune_spec_owned

  module _ {T : Type 0} (R : Resource T) (kind : Text) where
    abbrev pub tagged : Option T → Bool
    tagged live = holds (λ a. is_some (R.api_spec_id a)) live

    expected-permitted :
        (desired live : Option T) (action : DiffAction)
        → tagged live ≡ true
        → is_action (expected serde R kind ctx row desired live) action ≡ true
        → permitted action ≡ true
    expected-permitted desired none action owned h = cc
    expected-permitted (some d) (some a) action owned h = ground arith
    expected-permitted none (some a) DiffAction.add owned h = ground arith
    expected-permitted none (some a) DiffAction.modify owned h = ground arith
    expected-permitted none (some a) DiffAction.delete owned h = ground arith

    -- If the kind is this collection's, the live row is tagged.
    abbrev pub tagged_if : Text → List T → Bool
    tagged_if k actual = not (kind == k) || tagged (HashMap.lookup (rows serde R kind actual) row)

    calls_for-permitted :
        (desired actual : List T) (action : DiffAction) (k : Text)
        → tagged_if k actual ≡ true
        → calls_for serde ctx R kind desired actual action k row ≡ true
        → permitted action ≡ true
    calls_for-permitted desired actual action k owned h = ground (
      arith,
      expected-permitted (HashMap.lookup (rows serde R kind desired) row)
          (HashMap.lookup (rows serde R kind actual) row) action,
    )

  -- Whether the live row of a kind, a namespace and an id carries an API spec's tag.
  abbrev pub is_spec_owned : GatewayConfig → Text → Bool
  is_spec_owned actual k =
      tagged_if proxies proxy k actual.proxies
      && tagged_if consumers consumer k actual.consumers
      && tagged_if upstreams upstream k actual.upstreams
      && tagged_if plugin_configs plugin_config k actual.plugin_configs

  called_for-permitted :
      (desired actual : GatewayConfig) (action : DiffAction) (k : Text)
      → is_spec_owned actual k ≡ true
      → called_for serde ctx desired actual action k row ≡ true
      → permitted action ≡ true
  called_for-permitted desired actual action k owned h =
      let (p, c, u, g) = all_of_four _ _ _ _ owned in
      any_of_four _ _ _ _ h
        (calls_for-permitted proxies proxy desired.proxies actual.proxies action k p)
        (calls_for-permitted consumers consumer desired.consumers actual.consumers action k c)
        (calls_for-permitted upstreams upstream desired.upstreams actual.upstreams action k u)
        (calls_for-permitted plugin_configs plugin_config desired.plugin_configs
          actual.plugin_configs action k g)

-- If the live row of a resource carries an API spec's tag, then a computed diff never adds or
-- modifies the resource, and deletes it only in exclusive ownership with the opt-in to prune.
pub spec_owned_fence :
    (serde : Serde) (desired actual : GatewayConfig) (scope : OwnershipScope)
    (options : DiffOptions) (result : DiffResult) (action : DiffAction) (k : Text) (row : Row)
    → compute_diff_with_options serde desired actual scope options ≡ ok result
    → is_spec_owned serde (context scope options) row actual k ≡ true
    → listed action k row result.diffs ≡ true
    → permitted serde (context scope options) row action ≡ true
spec_owned_fence serde desired actual scope options result action k row e owned h =
    called_for-permitted serde (context scope options) row desired actual action k owned
      (sym (compute_diff-listed serde desired actual scope options result action k row e) ∙ h)
