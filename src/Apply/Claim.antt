-- ===== src/Apply/Claim.antt =====
-- apply/api_target.rs: the adoption of already matching rows into the ownership ledger.
pub mod Laws
pub mod Requests
use ferrum_edge_git_forge_op.Base.{
  ℕ, Text, codes, List, [], ◌∷◌, ◌++◌, map, Bool, true, false, not, ◌&&◌, ◌||◌, Option, none, some,
  text_eq, ◌==◌, if◌then◌else◌, is_empty, length, Result, ok, err,
}
use ferrum_edge_git_forge_op.Base.HashMap
use ferrum_edge_git_forge_op.Base.HashMap.{HashMap, holds}
use ferrum_edge_git_forge_op.StateKey.{proxy, consumer, upstream, plugin_config}
use ferrum_edge_git_forge_op.Config.{GatewayConfig}
use ferrum_edge_git_forge_op.Config.Identity.{ConfigError}
use ferrum_edge_git_forge_op.Change.{AppliedOp, ResourceDiff}
use ferrum_edge_git_forge_op.Diff.{
  Row, row_eq, OwnershipScope, is_exclusive, proxies, consumers, upstreams, plugin_configs,
}
use ferrum_edge_git_forge_op.Diff.Fields.{Resource}
use ferrum_edge_git_forge_op.Apply.Changes.{key_of}
use ferrum_edge_git_forge_op.Apply.Index.{
  ResourceIndex, at, build, is_spec_owned, referencing_proxy_ids,
}
use ferrum_edge_git_forge_op.Apply.Outcome.{
  Error, is_fatal, is_stale_plan, is_unplanned_reference, stale_plan, duplicate_live_resource,
  ApplyResult, SkipReason, plan_changed, served_from_cache, confirmation_cached,
  confirmation_failed, AdoptionSkip, not_adopting, row_changed, Message, adopt_failed,
}
use ferrum_edge_git_forge_op.Apply.Run.{Request, claim}
use ferrum_edge_git_forge_op.Apply.Adopt.{
  AdoptionCandidate, adoption_candidates, adopted_op, safe_to_overwrite,
}

pub record Snapshot : Type 0 where
  pub cached : Bool
  pub config : GatewayConfig

-- The answers of the admin client to an adoption. A read gives the row's token if the row, as it is
-- read on its own, is still the desired one and, for a consumer, the one that the plan saw.
pub record Confirmation : Type 0 where
  pub served_from_cache : Bool
  pub backup : List Request → Result Error Snapshot
  pub read : List Request → Text → Row → Result Error (Option Text)
  pub update_if_match :
      List Request → Text → Row → Text → Option (List Text) → Result Error (Unit {0})

-- The result so far, the requests, and whether the loop has returned.
pub record Claiming : Type 0 where
  pub result : ApplyResult
  pub requests : List Request
  pub returned : Bool

abbrev pub candidate_row : AdoptionCandidate → Row
candidate_row c = at c.namespace c.id

unfoldable pub skip_adoption : AdoptionSkip → ApplyResult → ApplyResult
skip_adoption message result = record result {
  adoption_skipped = result.adoption_skipped ++ message ∷ [];
}

unfoldable pub fail_adoption : Text → Text → Error → ApplyResult → ApplyResult
fail_adoption kind id e result = record result {
  errors = result.errors ++ adopt_failed kind id e ∷ [];
}

unfoldable pub refuse_consumer_claim : Text → ApplyResult → ApplyResult
unfolding fail_adoption
refuse_consumer_claim id result =
    fail_adoption consumer id (stale_plan (codes "consumer evidence changed")) result

abbrev pub return : Claiming → Claiming
return at_claim = record at_claim { returned = true }

abbrev pub with_claims : Claiming → ApplyResult → Claiming
with_claims at_claim result = record at_claim { result = result }

-- The row moved: a consumer's claim refuses the namespace's later ones.
unfoldable pub skip_changed : AdoptionCandidate → Claiming → Claiming
unfolding skip_adoption refuse_consumer_claim
skip_changed c at_claim =
    let skipped = skip_adoption (row_changed c.kind c.id) at_claim.result in
    if c.kind == consumer
    then return (with_claims at_claim (refuse_consumer_claim c.id skipped))
    else with_claims at_claim skipped

abbrev pub or_stale : Option (Text × Text) → Text × Text → Option (Text × Text)
or_stale (some first) this = some first
or_stale none this = some this

unfoldable pub fail_claim : AdoptionCandidate → Error → Claiming → Claiming
unfolding is_fatal fail_adoption
fail_claim c e at_claim =
    if is_fatal e
    then return (with_claims at_claim (record at_claim.result { fatal_error = some e }))
    else with_claims at_claim (fail_adoption c.kind c.id e at_claim.result)

unfoldable pub claim_refused : AdoptionCandidate → Error → Claiming → Claiming
unfolding is_stale_plan is_unplanned_reference skip_changed fail_claim fail_adoption
claim_refused c e at_claim =
    let failed = fail_adoption c.kind c.id e at_claim.result in
    if is_stale_plan e
    then skip_changed c at_claim
    else if is_unplanned_reference e
    then return (
        with_claims at_claim
          (record failed { stale_plan = or_stale at_claim.result.stale_plan (c.kind, c.id) }))
    else fail_claim c e at_claim

unfoldable pub adopted : AdoptionCandidate → ApplyResult → ApplyResult
adopted c result = record result { adopted = result.adopted ++ adopted_op c ∷ [] }

-- Whether the desired row of a kind still has the content of the confirmed row.
abbrev still : {T : Type 0} → Resource T → Text → ResourceIndex → HashMap Row T → Option T → Bool
still R kind confirmed rows desired = holds (λ r. safe_to_overwrite R kind confirmed rows r) desired

module _ (confirmation : Confirmation) (index : ResourceIndex) where
  unfoldable pub still_matches : ResourceIndex → AdoptionCandidate → Bool
  unfolding HashMap.lookup safe_to_overwrite
  still_matches confirmed c =
      let row = candidate_row c in
      if c.kind == proxy
      then still proxies proxy confirmed confirmed.proxies (HashMap.lookup index.proxies row)
      else if c.kind == consumer
      then still consumers consumer confirmed confirmed.consumers
          (HashMap.lookup index.consumers row)
      else if c.kind == upstream
      then still upstreams upstream confirmed confirmed.upstreams
          (HashMap.lookup index.upstreams row)
      else still plugin_configs plugin_config confirmed confirmed.plugin_configs
          (HashMap.lookup index.plugin_configs row)

  abbrev pub answered : AdoptionCandidate → Claiming → Result Error (Unit {0}) → Claiming
  answered c at_claim (ok _) = with_claims at_claim (adopted c at_claim.result)
  answered c at_claim (err e) = claim_refused c e at_claim

  abbrev pub claim_row :
      ResourceIndex → AdoptionCandidate → Claiming → Result Error (Option Text) → Claiming
  claim_row confirmed c at_claim (ok (some etag)) =
      let expected =
        if c.kind == plugin_config
        then some (referencing_proxy_ids confirmed c.namespace c.id)
        else none in
      answered c
        (record at_claim { requests = at_claim.requests ++ claim c.kind (candidate_row c) ∷ [] })
        (confirmation.update_if_match at_claim.requests c.kind (candidate_row c) etag expected)
  claim_row confirmed c at_claim (ok none) = skip_changed c at_claim
  claim_row confirmed c at_claim (err e) = fail_claim c e at_claim

  abbrev pub claim_unless :
      Bool → ResourceIndex → List Request → AdoptionCandidate → Claiming → Claiming
  claim_unless true confirmed read_at c at_claim = skip_changed c at_claim
  claim_unless false confirmed read_at c at_claim =
      claim_row confirmed c at_claim (confirmation.read read_at c.kind (candidate_row c))

  -- Consumers were read before the backup.
  unfoldable pub claim_one : ResourceIndex → List Request → AdoptionCandidate → Claiming → Claiming
  unfolding is_spec_owned still_matches skip_changed adopted claim_refused fail_claim
      referencing_proxy_ids
  claim_one confirmed before c at_claim =
      claim_unless
        (is_spec_owned confirmed c.kind c.namespace c.id || not (still_matches confirmed c))
        confirmed (if c.kind == consumer then before else at_claim.requests) c at_claim

  unfoldable pub claim_each :
      ResourceIndex → List Request → List AdoptionCandidate → Claiming → Claiming
  unfolding claim_one
  claim_each confirmed before [] at_claim = at_claim
  claim_each confirmed before (c ∷ candidates) at_claim =
      let next = claim_each confirmed before candidates (claim_one confirmed before c at_claim) in
      if at_claim.returned then at_claim else next

  abbrev pub skip_all : List AdoptionCandidate → SkipReason → Claiming → Claiming
  skip_all candidates reason at_claim =
      with_claims at_claim (skip_adoption (not_adopting (length candidates) reason) at_claim.result)

  abbrev pub confirmed_by : List AdoptionCandidate → Claiming → Result Error Snapshot → Claiming
  confirmed_by candidates at_claim (ok snapshot) =
      if snapshot.cached
      then skip_all candidates confirmation_cached at_claim
      else claim_each (build snapshot.config) at_claim.requests candidates at_claim
  confirmed_by candidates at_claim (err e) =
      if is_fatal e
      then with_claims at_claim (record at_claim.result { fatal_error = some e })
      else skip_all candidates (confirmation_failed e) at_claim

  abbrev pub adopt_all : List AdoptionCandidate → Claiming → Claiming
  adopt_all candidates at_claim =
      with_claims at_claim
        (record at_claim.result { adopted = at_claim.result.adopted ++ map adopted_op candidates })

  abbrev pub adopt_by :
      OwnershipScope → List AdoptionCandidate → Option (Text × Text) → Claiming → Claiming
  adopt_by scope candidates (some first) at_claim =
      skip_all candidates (plan_changed first) at_claim
  adopt_by scope candidates none at_claim =
      if confirmation.served_from_cache
      then skip_all candidates served_from_cache at_claim
      else if is_exclusive scope
      then adopt_all candidates at_claim
      else confirmed_by candidates at_claim (confirmation.backup at_claim.requests)

  abbrev pub adopt_found :
      OwnershipScope
      → Option (Text × Text)
      → Claiming
      → Result ConfigError (List AdoptionCandidate)
      → Claiming
  adopt_found scope stale at_claim (err e) = with_claims at_claim (record at_claim.result {
    fatal_error = some (duplicate_live_resource (codes "duplicate live resource"));
  })
  adopt_found scope stale at_claim (ok candidates) =
      if is_empty candidates then at_claim else adopt_by scope candidates stale at_claim

  unfoldable pub adopt_matching_rows :
      GatewayConfig
      → GatewayConfig
      → OwnershipScope
      → List ResourceDiff
      → List Text
      → List Text
      → Option (Text × Text)
      → Claiming
      → Claiming
  unfolding adoption_candidates claim_each skip_adoption build
  adopt_matching_rows desired actual scope diffs pending managed_ledger stale at_claim =
      adopt_found scope stale at_claim
        (adoption_candidates desired actual managed_ledger (map key_of diffs ++ pending))
