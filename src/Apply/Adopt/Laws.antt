-- ===== src/Apply/Adopt/Laws.antt =====
-- apply/api_target.rs: which rows are adopted.
use ferrum_edge_git_forge_op.Base.{
  Text, List, [], ◌∷◌, ◌++◌, ◌≡◌, refl, sym, ◌∙◌, ap, map, select, Bool, not, ◌&&◌, ◌||◌, contains,
  text_eq, ◌==◌, same_at, ok, >>=-eq-ok, ok-injective, arith,
}
use ferrum_edge_git_forge_op.Base.HashMap
use ferrum_edge_git_forge_op.Base.HashMap.{HashMap, any, any-append, holds}
use ferrum_edge_git_forge_op.StateKey.{state_key, proxy, consumer, upstream, plugin_config}
use ferrum_edge_git_forge_op.Config.{GatewayConfig}
use ferrum_edge_git_forge_op.Change.{ResourceDiff}
use ferrum_edge_git_forge_op.Diff.{
  Row, row_eq, validate_unique_live_resource_keys, proxies, consumers, upstreams, plugin_configs,
}
use ferrum_edge_git_forge_op.Diff.Fields.{Resource}
use ferrum_edge_git_forge_op.Apply.Changes.{key_of}
use ferrum_edge_git_forge_op.Apply.Index.{ResourceIndex, at, build, is_spec_owned}
use ferrum_edge_git_forge_op.Apply.Compare.{resource_values_equal}
use ferrum_edge_git_forge_op.Apply.Adopt.{
  AdoptionCandidate, adoptable, safe_to_overwrite, candidates_of_kind, adoption_candidates,
  dedupe_pending_assertions,
}

gather : (u v e k r : Bool) → ((u && (v && e)) && (k && r)) ≡ (k && (r && ((u && v) && e)))
gather u v e k r = ground arith

swap : (k r c e : Bool) → (k && (r && (c && e))) ≡ (k && (c && (r && e)))
swap k r c e = ground arith

front : (k c b : Bool) → (k && (c && b)) ≡ (c && (k && b))
front k c b = ground arith

-- Whether a run may claim a row of a kind: it is not managed, no operation of the run handles it,
-- and no API spec owns the live row.
abbrev pub claimable : List Text → List Text → ResourceIndex → Text → Row → Bool
claimable managed_ledger handled live kind row =
    not (
      contains managed_ledger (state_key row.namespace kind row.id)
      || contains handled (state_key row.namespace kind row.id))
    && not (is_spec_owned live kind row.namespace row.id)

module _ (k : Text) (row : Row) where
  abbrev is_candidate : AdoptionCandidate → Bool
  is_candidate c = c.kind == k && at c.namespace c.id == row

  -- Whether the row is among the candidates.
  abbrev pub claims : List AdoptionCandidate → Bool
  claims = any is_candidate

  module _ {T : Type 0} (R : Resource T) (kind : Text) (found : HashMap Row T) where
    abbrev equal_at : T → Row → Bool
    equal_at r w = holds (λ l. resource_values_equal R kind r l) (HashMap.lookup found w)

    -- Whether the collection is of the kind, and has the row with the content of the live row.
    abbrev pub equal_in : List T → Bool
    equal_in resources =
        any (λ r. kind == k && (at (R.namespace r) (R.id r) == row && equal_at r row)) resources

    module _ (managed_ledger handled : List Text) (live : ResourceIndex) where
      same_resource :
          (r : T)
          → (adoptable R kind live found managed_ledger handled r
              && (kind == k && at (R.namespace r) (R.id r) == row))
            ≡ (claimable managed_ledger handled live k row
                && (kind == k && (at (R.namespace r) (R.id r) == row && equal_at r row)))
      unfolding adoptable safe_to_overwrite
      same_resource r =
          let this = at (R.namespace r) (R.id r) in
          let may = claimable managed_ledger handled live in
          gather _ _ (equal_at r this) (kind == k) (this == row)
          ∙ ap (λ b. kind == k && b) (same_at this row (λ w. may kind w && equal_at r w))
          ∙ swap (kind == k) (this == row) (may kind row) (equal_at r row)
          ∙ same_at kind k (λ j. may j row && (this == row && equal_at r row))
          ∙ front (kind == k) (may k row) (this == row && equal_at r row)

      candidates_of_kind-claims :
          (resources : List T)
          → claims (candidates_of_kind R kind live found managed_ledger handled resources)
            ≡ (claimable managed_ledger handled live k row && equal_in resources)
      unfolding candidates_of_kind select any
      candidates_of_kind-claims [] = ground arith
      candidates_of_kind-claims (r ∷ resources) =
          ground (arith, same_resource r, candidates_of_kind-claims resources)

  -- Whether the document has the resource with the content of the live row.
  abbrev pub declared_equal : GatewayConfig → ResourceIndex → Bool
  declared_equal desired live =
      equal_in upstreams upstream live.upstreams desired.upstreams
      || (equal_in consumers consumer live.consumers desired.consumers
          || (equal_in proxies proxy live.proxies desired.proxies
              || equal_in plugin_configs plugin_config live.plugin_configs desired.plugin_configs))

distribute :
    (c p q r s : Bool)
    → ((c && p) || ((c && q) || ((c && r) || (c && s)))) ≡ (c && (p || (q || (r || s))))
distribute c p q r s = ground arith

any_of_four :
    (p : AdoptionCandidate → Bool) (xs bs cs ds : List AdoptionCandidate)
    → any p (xs ++ (bs ++ (cs ++ ds))) ≡ (any p xs || (any p bs || (any p cs || any p ds)))
any_of_four p xs bs cs ds =
    any-append p xs (bs ++ (cs ++ ds)) ∙ rw (any-append p bs (cs ++ ds), any-append p cs ds) refl

-- If the adoption has candidates, then a row is among them exactly if the document has it with the
-- content of the live row, up to timestamps and the order of associations, and it is not managed,
-- no operation of the run handles it, and no API spec owns the live row.
pub adoption_candidates_lem :
    (desired actual : GatewayConfig) (managed_ledger handled : List Text)
    (found : List AdoptionCandidate) (k : Text) (row : Row)
    → adoption_candidates desired actual managed_ledger handled ≡ ok found
    → claims k row found ≡ (
        claimable managed_ledger handled (build actual) k row
        && declared_equal k row desired (build actual))
unfolding adoption_candidates
adoption_candidates_lem desired actual managed_ledger handled found k row h =
    let live = build actual in
    let may = claimable managed_ledger handled live k row in
    let is = is_candidate k row in
    let (checked, _, listed) = >>=-eq-ok (validate_unique_live_resource_keys actual) _ h in
    ap (claims k row) (sym (ok-injective _ found listed))
    ∙ any_of_four is
        (candidates_of_kind upstreams upstream live live.upstreams managed_ledger handled
          desired.upstreams)
        (candidates_of_kind consumers consumer live live.consumers managed_ledger handled
          desired.consumers)
        (candidates_of_kind proxies proxy live live.proxies managed_ledger handled desired.proxies)
        (candidates_of_kind plugin_configs plugin_config live live.plugin_configs managed_ledger
          handled desired.plugin_configs)
    ∙ rw
        (
          candidates_of_kind-claims k row upstreams upstream live.upstreams managed_ledger handled
              live desired.upstreams,
          candidates_of_kind-claims k row consumers consumer live.consumers managed_ledger handled
              live desired.consumers,
          candidates_of_kind-claims k row proxies proxy live.proxies managed_ledger handled live
              desired.proxies,
          candidates_of_kind-claims k row plugin_configs plugin_config live.plugin_configs
              managed_ledger handled live desired.plugin_configs,
        )
        (distribute may (equal_in k row upstreams upstream live.upstreams desired.upstreams)
          (equal_in k row consumers consumer live.consumers desired.consumers)
          (equal_in k row proxies proxy live.proxies desired.proxies)
          (equal_in k row plugin_configs plugin_config live.plugin_configs desired.plugin_configs))

contains-map :
    (diffs : List ResourceDiff) (key : Text)
    → contains (map key_of diffs) key ≡ any (λ d. key_of d == key) diffs
unfolding any
contains-map [] key = refl
contains-map (d ∷ diffs) key = ap (λ b. key_of d == key || b) (contains-map diffs key)

any-unlisted :
    (existing : List Text) (assertions : List ResourceDiff) (key : Text)
    → any (λ d. key_of d == key) (select (λ d. not (contains existing (key_of d))) assertions)
      ≡ (any (λ d. key_of d == key) assertions && not (contains existing key))
unfolding select any
any-unlisted existing [] key = refl
any-unlisted existing (d ∷ assertions) key =
    ground (arith, any-unlisted existing assertions key, same_at (key_of d) key (contains existing))

-- Some kept assertion has a state key exactly if some assertion has it and no entry of the diff does.
pub dedupe_pending_assertions_lem :
    (diffs assertions : List ResourceDiff) (key : Text)
    → any (λ d. key_of d == key) (dedupe_pending_assertions diffs assertions)
      ≡ (any (λ d. key_of d == key) assertions && not (any (λ d. key_of d == key) diffs))
unfolding dedupe_pending_assertions
dedupe_pending_assertions_lem diffs assertions key =
    any-unlisted (map key_of diffs) assertions key
    ∙ ap (λ b. any (λ d. key_of d == key) assertions && not b) (contains-map diffs key)
