-- ===== src/Apply/Namespace/Planned.antt =====
-- apply/api_target.rs: the planned entries delete what the diff deletes.
use ferrum_edge_git_forge_op.Base.{
  Text, List, [], ◌∷◌, ◌++◌, select, map, ◌≡◌, refl, sym, ◌∙◌, ap, Bool, true, false, text_eq,
  text_key, ok, >>=-eq-ok, ok-injective, arith,
}
use ferrum_edge_git_forge_op.Base.HashMap.{any, any-append}
use ferrum_edge_git_forge_op.Base.Sort.{any-sort_by}
use ferrum_edge_git_forge_op.StateKey.{proxy, consumer, upstream, plugin_config}
use ferrum_edge_git_forge_op.Config.{GatewayConfig}
use ferrum_edge_git_forge_op.Change.{delete, ResourceDiff}
use ferrum_edge_git_forge_op.Diff.{
  Row, row_eq, validate_unique_live_resource_keys, proxies, consumers, upstreams, plugin_configs,
}
use ferrum_edge_git_forge_op.Diff.Redact.{Serde}
use ferrum_edge_git_forge_op.Diff.Collection.{listed, matches}
use ferrum_edge_git_forge_op.Apply.Index.{ResourceIndex}
use ferrum_edge_git_forge_op.Base.HashMap.{HashMap}
use ferrum_edge_git_forge_op.Diff.Fields.{Resource}
use ferrum_edge_git_forge_op.Apply.Order.{order_incremental_diffs, order_diffs, order_by_place}
use ferrum_edge_git_forge_op.Apply.Adopt.{
  assertions_of_kind, pending_create_assertion_diffs, dedupe_pending_assertions,
}

module _ (k : Text) (row : Row) where
  select-any :
      (p q : ResourceDiff → Bool) (ds : List ResourceDiff)
      → any p (select q ds) ≡ true
      → any p ds ≡ true
  unfolding select any
  select-any p q [] h = cc
  select-any p q (d ∷ ds) h = ground (arith, select-any p q ds)

  pub dedupe-listed :
      (diffs assertions : List ResourceDiff)
      → listed delete k row (dedupe_pending_assertions diffs assertions) ≡ true
      → listed delete k row assertions ≡ true
  unfolding dedupe_pending_assertions
  dedupe-listed diffs assertions h = select-any (matches delete k row) _ assertions h

  pub order_incremental_diffs-any :
      (p : ResourceDiff → Bool) (serde : Serde) (diffs : List ResourceDiff)
      (desired : GatewayConfig)
      → any p (order_incremental_diffs serde diffs desired) ≡ any p diffs
  unfolding order_incremental_diffs order_by_place order_diffs
  order_incremental_diffs-any p serde diffs desired =
      any-sort_by _ p (order_diffs diffs) ∙ any-sort_by _ p diffs

  modifies :
      {T : Type 0} (to : T → ResourceDiff) (xs : List T)
      → ((x : T) → matches delete k row (to x) ≡ false)
      → listed delete k row (map to xs) ≡ false
  unfolding any
  modifies to [] h = refl
  modifies to (x ∷ xs) h = ground (arith, h x, modifies to xs h)

  none_of_four :
      (xs ys zs ws : List ResourceDiff)
      → listed delete k row xs ≡ false
      → listed delete k row ys ≡ false
      → listed delete k row zs ≡ false
      → listed delete k row ws ≡ false
      → listed delete k row (xs ++ (ys ++ (zs ++ ws))) ≡ false
  none_of_four xs ys zs ws x y z w = ground (
    arith,
    any-append (matches delete k row) xs (ys ++ (zs ++ ws)),
    any-append (matches delete k row) ys (zs ++ ws),
    any-append (matches delete k row) zs ws,
  )

  assertions_of_kind-modify :
      {T : Type 0} (R : Resource T) (kind : Text) (live : ResourceIndex) (found : HashMap Row T)
      (pending : List Text) (namespace : Text) (xs : List T)
      → listed delete k row (assertions_of_kind R kind live found pending namespace xs) ≡ false
  unfolding assertions_of_kind
  assertions_of_kind-modify R kind live found pending namespace xs = modifies _ _ (λ x. refl)

  pub no_delete_asserted :
      (desired actual : GatewayConfig) (pending : List Text) (namespace : Text)
      (assertions : List ResourceDiff)
      → pending_create_assertion_diffs desired actual pending namespace ≡ ok assertions
      → listed delete k row assertions ≡ false
  unfolding pending_create_assertion_diffs
  no_delete_asserted desired actual pending namespace assertions e =
      let (checked, _, made) = >>=-eq-ok (validate_unique_live_resource_keys actual) _ e in
      ap (listed delete k row) (sym (ok-injective _ assertions made))
      ∙ none_of_four _ _ _ _
          (assertions_of_kind-modify upstreams upstream _ _ pending namespace desired.upstreams)
          (assertions_of_kind-modify consumers consumer _ _ pending namespace desired.consumers)
          (assertions_of_kind-modify proxies proxy _ _ pending namespace desired.proxies)
          (assertions_of_kind-modify plugin_configs plugin_config _ _ pending namespace
            desired.plugin_configs)
