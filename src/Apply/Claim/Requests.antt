-- ===== src/Apply/Claim/Requests.antt =====
-- apply/api_target.rs: an adoption deletes nothing.
use ferrum_edge_git_forge_op.Base.{
  Text, List, [], ◌∷◌, ◌++◌, ◌≡◌, refl, ◌∙◌, ap, Bool, true, false, ◌||◌, Option, none, some,
  text_eq, Result, ok, err, arith,
}
use ferrum_edge_git_forge_op.Base.HashMap.{any-append, any-one}
use ferrum_edge_git_forge_op.Config.{GatewayConfig}
use ferrum_edge_git_forge_op.Config.Identity.{ConfigError}
use ferrum_edge_git_forge_op.Change.{ResourceDiff}
use ferrum_edge_git_forge_op.Diff.{Row, row_eq, OwnershipScope}
use ferrum_edge_git_forge_op.Apply.Index.{ResourceIndex, at, build}
use ferrum_edge_git_forge_op.Apply.Outcome.{Error}
use ferrum_edge_git_forge_op.Apply.Run.{Request, claim}
use ferrum_edge_git_forge_op.Apply.Incremental.Sent.{is_removal, removes}
use ferrum_edge_git_forge_op.Apply.Adopt.{AdoptionCandidate}
use ferrum_edge_git_forge_op.Apply.Claim.{
  Snapshot, Confirmation, Claiming, skip_changed, fail_claim, claim_refused, answered, claim_row,
  claim_unless, claim_one, claim_each, confirmed_by, adopt_by, adopt_found, adopt_matching_rows,
}

skip_changed-requests :
    (c : AdoptionCandidate) (s : Claiming) → (skip_changed c s).requests ≡ s.requests
unfolding skip_changed
skip_changed-requests c s = ground arith

fail_claim-requests :
    (c : AdoptionCandidate) (e : Error) (s : Claiming) → (fail_claim c e s).requests ≡ s.requests
unfolding fail_claim
fail_claim-requests c e s = ground arith

claim_refused-requests :
    (c : AdoptionCandidate) (e : Error) (s : Claiming) → (claim_refused c e s).requests ≡ s.requests
unfolding claim_refused
claim_refused-requests c e s = ground (arith, skip_changed-requests c s, fail_claim-requests c e s)

module _ (k : Text) (row : Row) (confirmation : Confirmation) (index : ResourceIndex) where
  abbrev gone : Claiming → Bool
  gone s = removes k row s.requests

  answered-gone :
      (c : AdoptionCandidate) (s : Claiming) (answer : Result Error (Unit {0}))
      → gone (answered confirmation index c s answer) ≡ gone s
  answered-gone c s (ok done) = refl
  answered-gone c s (err e) = ap (removes k row) (claim_refused-requests c e s)

  or_false : (b : Bool) → (b || false) ≡ b
  or_false b = ground arith

  claim_row-gone :
      (confirmed : ResourceIndex) (c : AdoptionCandidate) (s : Claiming)
      (read : Result Error (Option Text))
      → gone (claim_row confirmation index confirmed c s read) ≡ gone s
  claim_row-gone confirmed c s (err e) = ap (removes k row) (fail_claim-requests c e s)
  claim_row-gone confirmed c s (ok none) = ap (removes k row) (skip_changed-requests c s)
  claim_row-gone confirmed c s (ok (some etag)) =
      let request = claim c.kind (at c.namespace c.id) in
      answered-gone c (record s { requests = s.requests ++ request ∷ [] }) _
      ∙ any-append (is_removal k row) s.requests (request ∷ [])
      ∙ rw (any-one (is_removal k row) request) (or_false (gone s))

  claim_unless-gone :
      (moved : Bool) (confirmed : ResourceIndex) (at_read : List Request) (c : AdoptionCandidate)
      (s : Claiming)
      → gone (claim_unless confirmation index moved confirmed at_read c s) ≡ gone s
  claim_unless-gone true confirmed at_read c s = ap (removes k row) (skip_changed-requests c s)
  claim_unless-gone false confirmed at_read c s = claim_row-gone confirmed c s _

  claim_one-gone :
      (confirmed : ResourceIndex) (before : List Request) (c : AdoptionCandidate) (s : Claiming)
      → gone (claim_one confirmation index confirmed before c s) ≡ gone s
  unfolding claim_one
  claim_one-gone confirmed before c s = claim_unless-gone _ confirmed _ c s

  claim_each-gone :
      (confirmed : ResourceIndex) (before : List Request) (cs : List AdoptionCandidate)
      (s : Claiming)
      → gone (claim_each confirmation index confirmed before cs s) ≡ gone s
  unfolding claim_each
  claim_each-gone confirmed before [] s = refl
  claim_each-gone confirmed before (c ∷ cs) s = ground (
    arith,
    claim_one-gone confirmed before c s,
    claim_each-gone confirmed before cs (claim_one confirmation index confirmed before c s),
  )

  confirmed_by-gone :
      (cs : List AdoptionCandidate) (s : Claiming) (answer : Result Error Snapshot)
      → gone (confirmed_by confirmation index cs s answer) ≡ gone s
  confirmed_by-gone cs s (ok snapshot) =
      ground (arith, claim_each-gone (build snapshot.config) s.requests cs s)
  confirmed_by-gone cs s (err e) = ground arith

  adopt_by-gone :
      (scope : OwnershipScope) (cs : List AdoptionCandidate) (stale : Option (Text × Text))
      (s : Claiming)
      → gone (adopt_by confirmation index scope cs stale s) ≡ gone s
  adopt_by-gone scope cs (some first) s = refl
  adopt_by-gone scope cs none s =
      ground (arith, confirmed_by-gone cs s (confirmation.backup s.requests))

  adopt_found-gone :
      (scope : OwnershipScope) (stale : Option (Text × Text)) (s : Claiming)
      (found : Result ConfigError (List AdoptionCandidate))
      → gone (adopt_found confirmation index scope stale s found) ≡ gone s
  adopt_found-gone scope stale s (err e) = refl
  adopt_found-gone scope stale s (ok cs) = ground (arith, adopt_by-gone scope cs stale s)

  pub adopt_matching_rows-removes :
      (desired actual : GatewayConfig) (scope : OwnershipScope) (diffs : List ResourceDiff)
      (pending managed_ledger : List Text) (stale : Option (Text × Text)) (s : Claiming)
      → removes k row
          (adopt_matching_rows confirmation index desired actual scope diffs pending managed_ledger
            stale s).requests
        ≡ removes k row s.requests
  unfolding adopt_matching_rows
  adopt_matching_rows-removes desired actual scope diffs pending managed_ledger stale s =
      adopt_found-gone scope stale s _
