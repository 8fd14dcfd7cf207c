-- ===== src/Samples/Reconciles.antt =====
-- The namespaces of a run, the index of a document, and the guard against large prunes.
use ferrum_edge_git_forge_op.Base.{
  ◌*◌, ◌<◌, codes, ◌≡◌, ◌↔◌, refl, true, false, ◌&&◌, ◌||◌, not, is_empty, none, contains, text_eq,
  text_key, arith,
}
use ferrum_edge_git_forge_op.Base.HashMap
use ferrum_edge_git_forge_op.Base.Map
use ferrum_edge_git_forge_op.StateKey.{
  state_key, encode_state_key_component, proxy, is_state_key_kind,
}
use ferrum_edge_git_forge_op.Diff.{Row, row_eq}
use ferrum_edge_git_forge_op.Reconcile.{shared, ResolvedEnv, resolved_namespaces}
use ferrum_edge_git_forge_op.Reconcile.Laws.{
  shared_env, looked_at, resolved_namespaces_lem, resolved_namespaces-ledger,
}
use ferrum_edge_git_forge_op.Apply.Index.{build, proxy_row, consumer_row, upstream_row, plugin_row}
use ferrum_edge_git_forge_op.Apply.Index.Laws.{find, build-find}
use ferrum_edge_git_forge_op.Apply.Prune.{large_prune_exceeds_threshold, format_prune_percentage}
use ferrum_edge_git_forge_op.Apply.Prune.Laws.{
  PrintsAtMost, large_prune_exceeds_threshold_lem, format_prune_percentage-bounds,
}
use ferrum_edge_git_forge_op.Samples.{ns, other_ns, ledger, repository, gateway}

abbrev staging : ResolvedEnv
staging = shared_env (codes "staging") none

resolved_namespaces_lem_example :
    contains (resolved_namespaces staging repository ledger) ns
    ≡ looked_at shared none none repository ledger ns
resolved_namespaces_lem_example = resolved_namespaces_lem staging repository ledger ns

-- The ledger manages a proxy in a namespace that the repository no longer has.
managed_elsewhere :
    (Map.contains_key ledger.resources (state_key other_ns proxy (codes "x"))
      || Map.contains_key ledger.pending_creates (state_key other_ns proxy (codes "x")))
    ≡ true
unfolding Map.contains_key Map.get text_eq state_key encode_state_key_component
managed_elsewhere = refl

x_is_named :
    (not (is_empty other_ns) && not (is_empty (codes "x")) && is_state_key_kind proxy) ≡ true
unfolding is_state_key_kind text_eq
x_is_named = refl

resolved_namespaces-ledger_example :
    contains (resolved_namespaces staging repository ledger) other_ns ≡ true
resolved_namespaces-ledger_example =
    resolved_namespaces-ledger other_ns proxy (codes "x") x_is_named (codes "staging") none
      repository ledger managed_elsewhere

abbrev row_p : Row
row_p = record { namespace = ns; id = codes "p" }

build-find_example :
    (HashMap.lookup (build gateway).proxies row_p ≡ find proxy_row gateway.proxies row_p)
    × (HashMap.lookup (build gateway).consumers row_p ≡ find consumer_row gateway.consumers row_p)
    × (HashMap.lookup (build gateway).upstreams row_p ≡ find upstream_row gateway.upstreams row_p)
    × (HashMap.lookup (build gateway).plugin_configs row_p
        ≡ find plugin_row gateway.plugin_configs row_p)
build-find_example = build-find gateway row_p

large_prune_exceeds_threshold_lem_example :
    (large_prune_exceeds_threshold 3 10 25 ≡ true) ↔ ((0 < 10) × (25 * 10 < 3 * 100))
large_prune_exceeds_threshold_lem_example =
    large_prune_exceeds_threshold_lem 3 10 25 (omega arith) (omega arith) (omega arith)

within_threshold : large_prune_exceeds_threshold 1 3 34 ≡ false
unfolding large_prune_exceeds_threshold
within_threshold = refl

a_third : format_prune_percentage 1 3 ≡ codes "33.33"
unfolding format_prune_percentage
a_third = refl

format_prune_percentage-bounds_example : PrintsAtMost (34 * 100) (format_prune_percentage 1 3)
format_prune_percentage-bounds_example =
    format_prune_percentage-bounds 1 3 34 (omega arith) (omega arith) (omega arith) within_threshold
