-- ===== src/Apply/Claim/Laws.antt =====
-- apply/api_target.rs: only rows that may be claimed are adopted.
use ferrum_edge_git_forge_op.Base.{
  Text, List, [], ◌∷◌, ◌++◌, ◌≡◌, refl, sym, ◌∙◌, ap, map, Bool, true, false, ◌&&◌, ◌||◌, Option,
  none, some, text_eq, ◌==◌, length, Result, ok, err, arith,
}
use ferrum_edge_git_forge_op.Base.HashMap.{any, any-append, any-one}
use ferrum_edge_git_forge_op.Config.{GatewayConfig}
use ferrum_edge_git_forge_op.Config.Identity.{ConfigError}
use ferrum_edge_git_forge_op.Change.{AppliedOp, ResourceDiff}
use ferrum_edge_git_forge_op.Diff.{Row, row_eq, OwnershipScope}
use ferrum_edge_git_forge_op.Apply.Changes.{key_of}
use ferrum_edge_git_forge_op.Apply.Index.{ResourceIndex, at, build}
use ferrum_edge_git_forge_op.Apply.Outcome.{
  Error, ApplyResult, AdoptionSkip, not_adopting, plan_changed, served_from_cache,
  confirmation_cached, confirmation_failed,
}
use ferrum_edge_git_forge_op.Apply.Run.{Request}
use ferrum_edge_git_forge_op.Apply.Adopt.{AdoptionCandidate, adopted_op}
use ferrum_edge_git_forge_op.Apply.Adopt.Laws.{
  claims, claimable, declared_equal, adoption_candidates_lem,
}
use ferrum_edge_git_forge_op.Apply.Claim.{
  Snapshot, Confirmation, Claiming, skip_adoption, fail_adoption, refuse_consumer_claim,
  skip_changed, fail_claim, claim_refused, adopted, answered, claim_row, claim_unless, claim_one,
  claim_each, confirmed_by, adopt_by, adopt_found, adopt_matching_rows,
}

module _ (k : Text) (row : Row) where
  abbrev is_op : AppliedOp → Bool
  is_op op = op.kind == k && at op.namespace op.id == row

  -- Whether the operations claim the row.
  abbrev pub owns : List AppliedOp → Bool
  owns = any is_op

  skip_changed-adopted :
      (c : AdoptionCandidate) (s : Claiming) → (skip_changed c s).result.adopted ≡ s.result.adopted
  unfolding skip_changed skip_adoption refuse_consumer_claim fail_adoption
  skip_changed-adopted c s = ground arith

  fail_claim-adopted :
      (c : AdoptionCandidate) (e : Error) (s : Claiming)
      → (fail_claim c e s).result.adopted ≡ s.result.adopted
  unfolding fail_claim fail_adoption
  fail_claim-adopted c e s = ground arith

  claim_refused-adopted :
      (c : AdoptionCandidate) (e : Error) (s : Claiming)
      → (claim_refused c e s).result.adopted ≡ s.result.adopted
  unfolding claim_refused fail_adoption
  claim_refused-adopted c e s = ground (arith, skip_changed-adopted c s, fail_claim-adopted c e s)

  adopted-owns :
      (c : AdoptionCandidate) (s : ApplyResult)
      → owns (adopted c s).adopted ≡ (owns s.adopted || (c.kind == k && at c.namespace c.id == row))
  unfolding adopted
  adopted-owns c s =
      any-append is_op s.adopted (adopted_op c ∷ [])
      ∙ ap (λ b. owns s.adopted || b) (any-one is_op (adopted_op c))

  module _ (confirmation : Confirmation) (index : ResourceIndex) where
    answered-owns :
        (c : AdoptionCandidate) (s : Claiming) (answer : Result Error (Unit {0}))
        → owns (answered confirmation index c s answer).result.adopted ≡ true
        → (owns s.result.adopted || (c.kind == k && at c.namespace c.id == row)) ≡ true
    answered-owns c s (ok done) h = sym (adopted-owns c s.result) ∙ h
    answered-owns c s (err e) h = ground (arith, claim_refused-adopted c e s)

    claim_row-owns :
        (confirmed : ResourceIndex) (c : AdoptionCandidate) (s : Claiming)
        (read : Result Error (Option Text))
        → owns (claim_row confirmation index confirmed c s read).result.adopted ≡ true
        → (owns s.result.adopted || (c.kind == k && at c.namespace c.id == row)) ≡ true
    claim_row-owns confirmed c s (err e) h = ground (arith, fail_claim-adopted c e s)
    claim_row-owns confirmed c s (ok none) h = ground (arith, skip_changed-adopted c s)
    claim_row-owns confirmed c s (ok (some etag)) h = answered-owns c _ _ h

    claim_unless-owns :
        (moved : Bool) (confirmed : ResourceIndex) (at_read : List Request) (c : AdoptionCandidate)
        (s : Claiming)
        → owns (claim_unless confirmation index moved confirmed at_read c s).result.adopted ≡ true
        → (owns s.result.adopted || (c.kind == k && at c.namespace c.id == row)) ≡ true
    claim_unless-owns true confirmed at_read c s h = ground (arith, skip_changed-adopted c s)
    claim_unless-owns false confirmed at_read c s h = claim_row-owns confirmed c s _ h

    claim_one-owns :
        (confirmed : ResourceIndex) (before : List Request) (c : AdoptionCandidate) (s : Claiming)
        → owns (claim_one confirmation index confirmed before c s).result.adopted ≡ true
        → (owns s.result.adopted || (c.kind == k && at c.namespace c.id == row)) ≡ true
    unfolding claim_one
    claim_one-owns confirmed before c s h = claim_unless-owns _ confirmed _ c s h

    claim_each-owns :
        (confirmed : ResourceIndex) (before : List Request) (cs : List AdoptionCandidate)
        (s : Claiming)
        → owns (claim_each confirmation index confirmed before cs s).result.adopted ≡ true
        → (owns s.result.adopted || claims k row cs) ≡ true
    unfolding claim_each any
    claim_each-owns confirmed before [] s h = ground arith
    claim_each-owns confirmed before (c ∷ cs) s h = ground (
      arith,
      claim_one-owns confirmed before c s,
      claim_each-owns confirmed before cs (claim_one confirmation index confirmed before c s),
    )

    owns-adopted_op : (cs : List AdoptionCandidate) → owns (map adopted_op cs) ≡ claims k row cs
    unfolding any
    owns-adopted_op [] = refl
    owns-adopted_op (c ∷ cs) =
        ap (λ b. (c.kind == k && at c.namespace c.id == row) || b) (owns-adopted_op cs)

    skip_adoption-adopted :
        (m : AdoptionSkip) (s : ApplyResult) → (skip_adoption m s).adopted ≡ s.adopted
    unfolding skip_adoption
    skip_adoption-adopted m s = refl

    confirmed_by-owns :
        (cs : List AdoptionCandidate) (s : Claiming) (answer : Result Error Snapshot)
        → owns (confirmed_by confirmation index cs s answer).result.adopted ≡ true
        → (owns s.result.adopted || claims k row cs) ≡ true
    confirmed_by-owns cs s (ok snapshot) h = ground (
      arith,
      skip_adoption-adopted (not_adopting (length cs) confirmation_cached) s.result,
      claim_each-owns (build snapshot.config) s.requests cs s,
    )
    confirmed_by-owns cs s (err e) h =
        ground
          (arith, skip_adoption-adopted (not_adopting (length cs) (confirmation_failed e)) s.result)

    adopt_by-owns :
        (scope : OwnershipScope) (cs : List AdoptionCandidate) (stale : Option (Text × Text))
        (s : Claiming)
        → owns (adopt_by confirmation index scope cs stale s).result.adopted ≡ true
        → (owns s.result.adopted || claims k row cs) ≡ true
    adopt_by-owns scope cs (some first) s h =
        ground
          (arith, skip_adoption-adopted (not_adopting (length cs) (plan_changed first)) s.result)
    adopt_by-owns scope cs none s h = ground (
      arith,
      skip_adoption-adopted (not_adopting (length cs) served_from_cache) s.result,
      any-append is_op s.result.adopted (map adopted_op cs),
      owns-adopted_op cs,
      confirmed_by-owns cs s (confirmation.backup s.requests),
    )

    adopt_found-owns :
        (scope : OwnershipScope) (stale : Option (Text × Text)) (s : Claiming) (allowed : Bool)
        (found : Result ConfigError (List AdoptionCandidate))
        → ((cs : List AdoptionCandidate) → found ≡ ok cs → claims k row cs ≡ allowed)
        → owns (adopt_found confirmation index scope stale s found).result.adopted ≡ true
        → (owns s.result.adopted || allowed) ≡ true
    adopt_found-owns scope stale s allowed (err e) known h = ground arith
    adopt_found-owns scope stale s allowed (ok cs) known h =
        ground (arith, known cs refl, adopt_by-owns scope cs stale s)

-- A row that an adoption claims was claimed before, or the document has it with the content of the
-- live row, it is not managed, no operation or pending create of the run handles it, and no API spec
-- owns the live row, whatever the gateway answers.
pub adopt_matching_rows_lem :
    (confirmation : Confirmation) (index : ResourceIndex) (desired actual : GatewayConfig)
    (scope : OwnershipScope) (diffs : List ResourceDiff) (pending managed_ledger : List Text)
    (stale : Option (Text × Text)) (s : Claiming) (k : Text) (row : Row)
    → owns k row
        (adopt_matching_rows confirmation index desired actual scope diffs pending managed_ledger
          stale s).result.adopted
      ≡ true
    → (owns k row s.result.adopted
        || (claimable managed_ledger (map key_of diffs ++ pending) (build actual) k row
            && declared_equal k row desired (build actual)))
      ≡ true
unfolding adopt_matching_rows
adopt_matching_rows_lem confirmation index desired actual scope diffs pending managed_ledger stale s
      k row h =
    adopt_found-owns k row confirmation index scope stale s _ _
      (λ cs e.
        adoption_candidates_lem desired actual managed_ledger (map key_of diffs ++ pending) cs k row
          e)
      h
