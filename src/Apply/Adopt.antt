-- ===== src/Apply/Adopt.antt =====
-- apply/api_target.rs: rows that already have the desired content, and who may claim them.
pub mod Laws
use ferrum_edge_git_forge_op.Base.{
  Text, List, [], ◌∷◌, ◌++◌, map, select, Bool, true, false, not, ◌&&◌, ◌||◌, Option, none, some,
  contains, text_eq, if◌then◌else◌, is_some, Result, ok, err, ◌>>=◌,
}
use ferrum_edge_git_forge_op.Base.HashMap
use ferrum_edge_git_forge_op.Base.HashMap.{HashMap, holds}
use ferrum_edge_git_forge_op.StateKey.{state_key, proxy, consumer, upstream, plugin_config}
use ferrum_edge_git_forge_op.Config.{Proxy, Consumer, Upstream, PluginConfig, GatewayConfig}
use ferrum_edge_git_forge_op.Config.Identity.{ConfigError, Identity}
use ferrum_edge_git_forge_op.Change.{DiffAction, modify, AppliedOp, ResourceDiff}
use ferrum_edge_git_forge_op.Diff.{
  Row, row_eq, validate_unique_live_resource_keys, proxies, consumers, upstreams, plugin_configs,
}
use ferrum_edge_git_forge_op.Diff.Fields.{Resource}
use ferrum_edge_git_forge_op.Apply.Changes.{key_of}
use ferrum_edge_git_forge_op.Apply.Index.{ResourceIndex, at, build, is_spec_owned}
use ferrum_edge_git_forge_op.Apply.Compare.{resource_values_match, resource_values_equal}

pub data LiveMatch : Type 0 where
  absent different exact : LiveMatch

pub record AdoptionCandidate : Type 0 where
  pub kind : Text
  pub namespace : Text
  pub id : Text

abbrev is_exact : LiveMatch → Bool
is_exact absent = false
is_exact different = false
is_exact exact = true

-- One kind: the live rows of the kind, and what is asked of a desired row.
module _ {T : Type 0} (R : Resource T) (kind : Text) (live : ResourceIndex)
    (found : HashMap Row T) where
  abbrev classify : T → Option T → LiveMatch
  classify desired none = absent
  classify desired (some row) =
      if resource_values_match R kind desired row then exact else different

  unfoldable pub live_match : T → LiveMatch
  unfolding resource_values_match HashMap.lookup
  live_match desired =
      if is_spec_owned live kind (R.namespace desired) (R.id desired)
      then different
      else classify desired (HashMap.lookup found (at (R.namespace desired) (R.id desired)))

  unfoldable pub exact_desired_is_live : T → Bool
  unfolding live_match
  exact_desired_is_live desired = is_exact (live_match desired)

  unfoldable pub safe_to_overwrite : T → Bool
  unfolding resource_values_equal HashMap.lookup
  safe_to_overwrite desired =
      holds (λ row. resource_values_equal R kind desired row)
        (HashMap.lookup found (at (R.namespace desired) (R.id desired)))

  -- The test of `consider`.
  unfoldable pub adoptable : List Text → List Text → T → Bool
  unfolding safe_to_overwrite
  adoptable managed_ledger handled desired =
      let key = state_key (R.namespace desired) kind (R.id desired) in
      not (contains managed_ledger key || contains handled key)
      && (not (is_spec_owned live kind (R.namespace desired) (R.id desired))
          && safe_to_overwrite desired)

  unfoldable pub candidates_of_kind : List Text → List Text → List T → List AdoptionCandidate
  unfolding adoptable
  candidates_of_kind managed_ledger handled resources =
      map (λ (r : T). record { kind = kind; namespace = R.namespace r; id = R.id r })
        (select (adoptable managed_ledger handled) resources)

  -- The loop over one collection of `pending_create_assertion_diffs`. An assertion has the namespace
  -- of the run.
  unfoldable pub assertions_of_kind : List Text → Text → List T → List ResourceDiff
  unfolding exact_desired_is_live
  assertions_of_kind pending namespace resources =
      map
        (λ (r : T). record {
          action = modify;
          kind = kind;
          id = R.id r;
          namespace = namespace;
          details = [];
        })
        (select
          (λ r.
            contains pending (state_key (R.namespace r) kind (R.id r)) && exact_desired_is_live r)
          resources)

unfoldable pub adoption_candidates :
    GatewayConfig
    → GatewayConfig
    → List Text
    → List Text
    → Result ConfigError (List AdoptionCandidate)
unfolding validate_unique_live_resource_keys build candidates_of_kind
adoption_candidates desired actual managed_ledger handled =
    let live = build actual in
    validate_unique_live_resource_keys actual >>= λ _. ok (
      candidates_of_kind upstreams upstream live live.upstreams managed_ledger handled
        desired.upstreams
      ++ (candidates_of_kind consumers consumer live live.consumers managed_ledger handled
            desired.consumers
          ++ (candidates_of_kind proxies proxy live live.proxies managed_ledger handled
                desired.proxies
              ++ candidates_of_kind plugin_configs plugin_config live live.plugin_configs
                  managed_ledger handled desired.plugin_configs)))

unfoldable pub pending_create_assertion_diffs :
    GatewayConfig → GatewayConfig → List Text → Text → Result ConfigError (List ResourceDiff)
unfolding validate_unique_live_resource_keys build assertions_of_kind
pending_create_assertion_diffs desired actual pending namespace =
    let live = build actual in
    validate_unique_live_resource_keys actual >>= λ _. ok (
      assertions_of_kind upstreams upstream live live.upstreams pending namespace desired.upstreams
      ++ (assertions_of_kind consumers consumer live live.consumers pending namespace
            desired.consumers
          ++ (assertions_of_kind proxies proxy live live.proxies pending namespace desired.proxies
              ++ assertions_of_kind plugin_configs plugin_config live live.plugin_configs pending
                  namespace desired.plugin_configs)))

unfoldable pub dedupe_pending_assertions : List ResourceDiff → List ResourceDiff → List ResourceDiff
unfolding select
dedupe_pending_assertions diffs assertions =
    let existing = map key_of diffs in select (λ d. not (contains existing (key_of d))) assertions

abbrev pub adopted_op : AdoptionCandidate → AppliedOp
adopted_op c = record { kind = c.kind; namespace = c.namespace; id = c.id; action = modify }
