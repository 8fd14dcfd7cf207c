-- ===== src/Samples/SpecOwned.antt =====
-- A diff against a gateway whose proxies come from an API spec.
use ferrum_edge_git_forge_op.Base.{
  codes, [], ◌∷◌, ◌≡◌, refl, true, some, text_eq, text_lt, Result, ok, err,
}
use ferrum_edge_git_forge_op.Base.HashMap
use ferrum_edge_git_forge_op.Base.HashMap.{any}
use ferrum_edge_git_forge_op.StateKey.{state_key, proxy, encode_state_key_component}
use ferrum_edge_git_forge_op.Config.{GatewayConfig}
use ferrum_edge_git_forge_op.Config.Identity.{ConfigError, identity_eq}
use ferrum_edge_git_forge_op.Json.{null, with_members}
use ferrum_edge_git_forge_op.Change.{delete}
use ferrum_edge_git_forge_op.Diff.Redact.{Serde, redact_sensitive_leaves}
use ferrum_edge_git_forge_op.Diff.Fields.{compare_fields}
use ferrum_edge_git_forge_op.Diff.{
  Row, row_eq, rows, exclusive, no_diff, DiffOptions, DiffResult, compute_diff_with_options,
}
use ferrum_edge_git_forge_op.Diff.Collection.{listed}
use ferrum_edge_git_forge_op.Diff.Safety.{context}
use ferrum_edge_git_forge_op.Diff.SpecOwned.{is_spec_owned, permitted, spec_owned_fence}
use ferrum_edge_git_forge_op.Samples.{ns, route, empty_config, repository}

abbrev pub serde : Serde
serde = record { to_string = λ v. codes "{}"; from_str = λ s. some null }

abbrev imported : GatewayConfig
imported = record empty_config {
  proxies =
      route ns (codes "p") (some (codes "petstore")) (codes "/old")
      ∷ route ns (codes "s") (some (codes "petstore")) (codes "/s")
      ∷ [];
}

abbrev prune_specs : DiffOptions
prune_specs = record { prune_spec_owned = true }

abbrev value_of : Result ConfigError DiffResult → DiffResult
value_of (ok r) = r
value_of (err e) = no_diff

abbrev row_s : Row
row_s = record { namespace = ns; id = codes "s" }

pruned : DiffResult
unfolding compute_diff_with_options text_eq text_lt row_eq identity_eq redact_sensitive_leaves
    compare_fields state_key HashMap.lookup HashMap.collect any
pruned = value_of (compute_diff_with_options serde repository imported exclusive prune_specs)

computes : compute_diff_with_options serde repository imported exclusive prune_specs ≡ ok pruned
unfolding pruned
computes = refl

deletes_s : listed delete proxy row_s pruned.diffs ≡ true
unfolding pruned encode_state_key_component with_members
deletes_s = refl

s_is_spec_owned : is_spec_owned serde (context exclusive prune_specs) row_s imported proxy ≡ true
unfolding rows text_eq row_eq HashMap.lookup HashMap.collect
s_is_spec_owned = refl

spec_owned_fence_example : permitted serde (context exclusive prune_specs) row_s delete ≡ true
spec_owned_fence_example =
    spec_owned_fence serde repository imported exclusive prune_specs pruned delete proxy row_s
      computes s_is_spec_owned deletes_s
