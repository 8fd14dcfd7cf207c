-- ===== src/Samples/Diffs.antt =====
-- Diffs of concrete documents.
use ferrum_edge_git_forge_op.Base.{
  Text, codes, List, [], ◌∷◌, ◌≡◌, ◌↔◌, refl, true, false, Option, some, text_eq, text_lt, contains,
  Result, ok, err, is_some,
}
use ferrum_edge_git_forge_op.Base.HashMap
use ferrum_edge_git_forge_op.Base.HashMap.{any}
use ferrum_edge_git_forge_op.StateKey.{state_key, proxy, encode_state_key_component}
use ferrum_edge_git_forge_op.Config.Identity.{ConfigError, identities, identity_eq}
use ferrum_edge_git_forge_op.Config.Identity.Laws.{Fresh}
use ferrum_edge_git_forge_op.Json.{Value, string, object, end, member, with_members}
use ferrum_edge_git_forge_op.Change.{add, delete}
use ferrum_edge_git_forge_op.Diff.Redact.{
  Serde, json_leaf, set_leaf, token_path, redact_service_discovery_json, redact_sensitive_leaves,
}
use ferrum_edge_git_forge_op.Diff.Redact.Laws.{redact-token_hidden}
use ferrum_edge_git_forge_op.Diff.Fields.{compare_fields}
use ferrum_edge_git_forge_op.Diff.{
  Row, row_eq, shared, no_diff, DiffOptions, DiffResult, compute_diff_with_options,
}
use ferrum_edge_git_forge_op.Diff.Collection.{listed}
use ferrum_edge_git_forge_op.Diff.Safety.{
  called_for, compute_diff-listed, compute_diff-Fresh, shared_delete_fence,
}
use ferrum_edge_git_forge_op.Samples.{ns, key_p, key_gone, repository, gateway}

-- A discovery block, and a serde that writes only its token.
abbrev discovery : Value
discovery = object (member (codes "consul") (object (member (codes "token") (string []) end)) end)

abbrev token_of : Option Value → Text
token_of (some (string s)) = s
token_of _ = []

abbrev serde : Serde
serde = record {
  to_string = λ v. token_of (json_leaf v token_path);
  from_str = λ s. some (set_leaf discovery token_path (string s));
}

redact-token_hidden_example :
    let redacted = λ (token : Text).
      redact_service_discovery_json serde
        (serde.to_string (set_leaf discovery token_path (string token))) in
    (redacted (codes "s1") ≡ redacted (codes "s2")) × (is_some (redacted (codes "s1")) ≡ true)
unfolding json_leaf set_leaf text_eq text_lt
redact-token_hidden_example =
    redact-token_hidden serde discovery (string []) (codes "s1") (codes "s2") refl refl refl

abbrev keep_specs : DiffOptions
keep_specs = record { prune_spec_owned = false }

abbrev managed : List Text
managed = key_gone ∷ key_p ∷ []

abbrev row : Text → Row
row id = record { namespace = ns; id = id }

abbrev value_of : Result ConfigError DiffResult → DiffResult
value_of (ok r) = r
value_of (err e) = no_diff

result : DiffResult
unfolding compute_diff_with_options text_eq text_lt row_eq identity_eq redact_sensitive_leaves
    compare_fields state_key HashMap.lookup HashMap.collect any
result = value_of (compute_diff_with_options serde repository gateway (shared managed) keep_specs)

computes :
    compute_diff_with_options serde repository gateway (shared managed) keep_specs ≡ ok result
unfolding result
computes = refl

actions :
    (listed add (codes "Consumer") (row (codes "c")) result.diffs ≡ true)
    × (listed delete proxy (row (codes "gone")) result.diffs ≡ true)
    × (listed delete proxy (row (codes "admin")) result.diffs ≡ false)
    × (result.unmanaged ≡ record { kind = proxy; id = codes "admin"; namespace = ns } ∷ [])
unfolding result encode_state_key_component with_members
actions = (refl, refl, refl, refl)

compute_diff-listed_example :
    listed delete proxy (row (codes "gone")) result.diffs
    ≡ called_for serde
        (record { ownership_scope = shared managed; options = keep_specs })
        repository
        gateway
        delete
        proxy
        (row (codes "gone"))
compute_diff-listed_example =
    compute_diff-listed serde repository gateway (shared managed) keep_specs result delete proxy
      (row (codes "gone")) computes

compute_diff-Fresh_example :
    ((r : DiffResult) × (compute_diff_with_options serde repository gateway
          (shared managed)
          keep_specs
        ≡ ok r))
    ↔ Fresh [] (identities gateway)
compute_diff-Fresh_example = compute_diff-Fresh serde repository gateway (shared managed) keep_specs

shared_delete_fence_example : contains managed (state_key ns proxy (codes "gone")) ≡ true
shared_delete_fence_example =
    shared_delete_fence serde managed keep_specs repository gateway result proxy
      (row (codes "gone")) computes actions.1
