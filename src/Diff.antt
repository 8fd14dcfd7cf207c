-- ===== src/Diff.antt =====
-- diff/resource_diff.rs: the diff of a desired document and a live one, by ownership.
pub mod Redact
pub mod Fields
pub mod Collection
pub mod Safety
pub mod SpecOwned
use mathlib.Core.Logic.{dite}
use mathlib.Core.Bool.{Bool-discrete}
use ferrum_edge_git_forge_op.Base.{
  ℕ, Text, codes, List, [], ◌∷◌, ◌++◌, map, Bool, true, false, not, ◌&&◌, ◌||◌, ◌≡◌, Option, none,
  some, contains, text_eq, text_lt, ◌==◌, ==_refl, if◌then◌else◌, is_some, is_empty, Eq, arith,
  Result, ok, err, ◌>>=◌,
}
use ferrum_edge_git_forge_op.Base.HashMap
use ferrum_edge_git_forge_op.Base.HashMap.{HashMap}
use ferrum_edge_git_forge_op.Base.Sort.{sort_by}
use ferrum_edge_git_forge_op.StateKey.{state_key, proxy, consumer, upstream, plugin_config}
use ferrum_edge_git_forge_op.Json.{Value, string, object, Members, end, with_member, with_members}
use ferrum_edge_git_forge_op.Config.{Proxy, Consumer, Upstream, PluginConfig, GatewayConfig}
use ferrum_edge_git_forge_op.Config.Identity.{ConfigError, validate_unique_resource_keys}
use ferrum_edge_git_forge_op.Change.{DiffAction, ResourceDiff, FieldChange}
use ferrum_edge_git_forge_op.Diff.Redact.{Serde, redact_sensitive_leaves}
use ferrum_edge_git_forge_op.Diff.Fields.{Resource, compare_fields}

-- The key `(namespace, id)` of a row within its kind.
pub record Row : Type 0 where
  pub namespace : Text
  pub id : Text

pub same_row : Row → Row → Bool
same_row a b = a.namespace == b.namespace && a.id == b.id

pub same_row_sound : (a b : Row) → same_row a b ≡ true → a ≡ b
unfolding same_row
same_row_sound a b h = ground arith

pub same_row_complete : (a b : Row) → a ≡ b → same_row a b ≡ true
unfolding same_row
same_row_complete a b h = ground (arith, ==_refl a.namespace, ==_refl a.id)

instance unfoldable pub row_eq : Eq Row
unfolding same_row text_eq
row_eq = record {
  dec = λ s t.
      dite (Bool-discrete (same_row s t) true) (λ same. yes (same_row_sound s t same))
        (λ differ. no (λ p. differ (same_row_complete s t p)));
}

pub record UnmanagedResource : Type 0 where
  pub kind : Text
  pub id : Text
  pub namespace : Text

pub record SpecOwnedResource : Type 0 where
  pub kind : Text
  pub id : Text
  pub namespace : Text
  pub api_spec_id : Text
  pub declared_in_repo : Bool
  pub pruned : Bool

pub record DiffResult : Type 0 where
  pub diffs : List ResourceDiff
  pub unmanaged : List UnmanagedResource
  pub spec_owned : List SpecOwnedResource

abbrev pub no_diff : DiffResult
no_diff = record { diffs = []; unmanaged = []; spec_owned = [] }

-- The shared scope holds the state keys that were managed before.
pub data OwnershipScope : Type 0 where
  shared : List Text → OwnershipScope
  exclusive : OwnershipScope

pub record DiffOptions : Type 0 where
  pub prune_spec_owned : Bool

pub record CollectionContext : Type 0 where
  pub ownership_scope : OwnershipScope
  pub options : DiffOptions

abbrev pub is_exclusive : OwnershipScope → Bool
is_exclusive (shared managed) = false
is_exclusive exclusive = true

abbrev push_diff : DiffAction → Text → Row → List FieldChange → DiffResult → DiffResult
push_diff action kind row details result = record result {
  diffs =
      result.diffs
      ++ record {
        action = action;
        kind = kind;
        id = row.id;
        namespace = row.namespace;
        details = details;
      }
        ∷ [];
}

abbrev push_unmanaged : Text → Row → DiffResult → DiffResult
push_unmanaged kind row result = record result {
  unmanaged =
      result.unmanaged ++ record { kind = kind; id = row.id; namespace = row.namespace } ∷ [];
}

abbrev push_spec_owned : Text → Row → Text → Bool → Bool → DiffResult → DiffResult
push_spec_owned kind row api_spec_id declared pruned result = record result {
  spec_owned =
      result.spec_owned
      ++ record {
        kind = kind;
        id = row.id;
        namespace = row.namespace;
        api_spec_id = api_spec_id;
        declared_in_repo = declared;
        pruned = pruned;
      }
        ∷ [];
}

module _ (serde : Serde) {T : Type 0} (R : Resource T) (kind : Text) where
  unfoldable pub rows : List T → HashMap Row T
  rows resources =
      HashMap.collect []
        (map (λ (r : T). (record { namespace = R.namespace r; id = R.id r }, r)) resources)

  abbrev push_details : Row → List FieldChange → DiffResult → DiffResult
  push_details row details result =
      if is_empty details then result else push_diff DiffAction.modify kind row details result

  abbrev matched : Row → T → T → Option Text → DiffResult → DiffResult
  matched row desired actual (some api_spec_id) result =
      push_spec_owned kind row api_spec_id true false result
  matched row desired actual none result =
      push_details row
        (redact_sensitive_leaves serde kind (compare_fields serde R kind desired actual)) result

  -- A row of the desired map, and the live row of its key.
  unfoldable pub desired_row : Row → T → Option T → DiffResult → DiffResult
  desired_row row desired none result = push_diff DiffAction.add kind row [] result
  desired_row row desired (some actual) result =
      matched row desired actual (R.api_spec_id actual) result

  unfoldable pub desired_rows : HashMap Row T → HashMap Row T → DiffResult → DiffResult
  unfolding desired_row
  desired_rows [] live result = result
  desired_rows ((row, desired) ∷ more) live result =
      desired_rows more live (desired_row row desired (HashMap.lookup live row) result)

  module _ (ctx : CollectionContext) where
    abbrev undeclared : OwnershipScope → Row → DiffResult → DiffResult
    undeclared (shared previously_managed) row result =
        if contains previously_managed (state_key row.namespace kind row.id)
        then push_diff DiffAction.delete kind row [] result
        else push_unmanaged kind row result
    undeclared exclusive row result = push_diff DiffAction.delete kind row [] result

    abbrev undeclared_spec : Option Text → Row → DiffResult → DiffResult
    undeclared_spec none row result = undeclared ctx.ownership_scope row result
    undeclared_spec (some api_spec_id) row result =
        let prune = is_exclusive ctx.ownership_scope && ctx.options.prune_spec_owned in
        let noted = push_spec_owned kind row api_spec_id false prune result in
        if prune then push_diff DiffAction.delete kind row [] noted else noted

    -- A row of the live map, and whether the desired map has its key.
    unfoldable pub live_row : Row → T → Bool → DiffResult → DiffResult
    live_row row actual true result = result
    live_row row actual false result = undeclared_spec (R.api_spec_id actual) row result

    unfoldable pub live_rows : HashMap Row T → HashMap Row T → DiffResult → DiffResult
    unfolding live_row
    live_rows [] desired result = result
    live_rows ((row, actual) ∷ more) desired result =
        live_rows more desired (live_row row actual (is_some (HashMap.lookup desired row)) result)

    unfoldable pub diff_collection : List T → List T → DiffResult → DiffResult
    unfolding rows desired_rows live_rows
    diff_collection desired actual result =
        live_rows (rows actual) (rows desired) (desired_rows (rows desired) (rows actual) result)

-- What serde writes for the four kinds. The flattened `extra` fields come last.
abbrev optional_member : Text → Option Text → Members → Members
optional_member key none m = m
optional_member key (some s) m = with_member m key (string s)

abbrev resource_value : Text → Text → Option Text → Members → Members → Value
resource_value id namespace api_spec_id fields extra = object (
    with_members
      (optional_member (codes "api_spec_id") api_spec_id (
        with_member (with_member fields (codes "id") (string id)) (codes "namespace")
          (string namespace)))
      extra)

abbrev pub proxies : Resource Proxy
proxies = record {
  id = λ p. p.id;
  namespace = λ p. p.namespace;
  api_spec_id = λ p. p.api_spec_id;
  to_value = λ p. resource_value p.id p.namespace p.api_spec_id p.fields p.extra;
  passthrough = λ p. p.extra;
}

abbrev pub consumers : Resource Consumer
consumers = record {
  id = λ c. c.id;
  namespace = λ c. c.namespace;
  api_spec_id = λ c. none;
  to_value = λ c. resource_value c.id c.namespace none c.fields c.extra;
  passthrough = λ c. c.extra;
}

abbrev pub upstreams : Resource Upstream
upstreams = record {
  id = λ u. u.id;
  namespace = λ u. u.namespace;
  api_spec_id = λ u. u.api_spec_id;
  to_value = λ u. resource_value u.id u.namespace u.api_spec_id u.fields u.extra;
  passthrough = λ u. u.extra;
}

abbrev pub plugin_configs : Resource PluginConfig
plugin_configs = record {
  id = λ p. p.id;
  namespace = λ p. p.namespace;
  api_spec_id = λ p. p.api_spec_id;
  to_value = λ p. resource_value p.id p.namespace p.api_spec_id p.fields p.extra;
  passthrough = λ p. p.extra;
}

abbrev text_le : Text → Text → Bool
text_le s t = not (text_lt t s)

-- The order of `(namespace, kind, id)`.
abbrev pub identity_le : Text → Text → Text → Text → Text → Text → Bool
identity_le n k i n' k' i' =
    if n == n' then (if k == k' then text_le i i' else text_le k k') else text_le n n'

unfoldable pub sort_result : DiffResult → DiffResult
unfolding sort_by text_lt
sort_result result = record {
  diffs =
      sort_by (λ (a b : ResourceDiff). identity_le a.namespace a.kind a.id b.namespace b.kind b.id)
        result.diffs;
  unmanaged =
      sort_by
        (λ (a b : UnmanagedResource). identity_le a.namespace a.kind a.id b.namespace b.kind b.id)
        result.unmanaged;
  spec_owned =
      sort_by
        (λ (a b : SpecOwnedResource). identity_le a.namespace a.kind a.id b.namespace b.kind b.id)
        result.spec_owned;
}

-- `validate_unique_live_resource_keys`
unfoldable pub validate_unique_live_resource_keys : GatewayConfig → Result ConfigError (Unit {0})
unfolding validate_unique_resource_keys
validate_unique_live_resource_keys config = validate_unique_resource_keys config

module _ (serde : Serde) where
  unfoldable pub diff_all : GatewayConfig → GatewayConfig → CollectionContext → DiffResult
  unfolding diff_collection
  diff_all desired actual ctx =
      let after_proxies =
        diff_collection serde proxies proxy ctx desired.proxies actual.proxies no_diff in
      let after_consumers =
        diff_collection serde consumers consumer ctx desired.consumers actual.consumers
          after_proxies in
      let after_upstreams =
        diff_collection serde upstreams upstream ctx desired.upstreams actual.upstreams
          after_consumers in
      diff_collection serde plugin_configs plugin_config ctx desired.plugin_configs
        actual.plugin_configs after_upstreams

  unfoldable pub compute_diff_with_options :
      GatewayConfig → GatewayConfig → OwnershipScope → DiffOptions → Result ConfigError DiffResult
  unfolding validate_unique_live_resource_keys diff_all sort_result
  compute_diff_with_options desired actual ownership_scope options =
      validate_unique_live_resource_keys actual >>= λ _. ok (
        sort_result (
          diff_all desired actual
            (record { ownership_scope = ownership_scope; options = options })))

  unfoldable pub compute_diff_with_scope :
      GatewayConfig → GatewayConfig → OwnershipScope → Result ConfigError DiffResult
  unfolding compute_diff_with_options
  compute_diff_with_scope desired actual ownership_scope =
      compute_diff_with_options desired actual ownership_scope (record { prune_spec_owned = false })

  unfoldable pub compute_diff_with_ownership :
      GatewayConfig → GatewayConfig → Option (List Text) → Result ConfigError DiffResult
  unfolding compute_diff_with_scope
  compute_diff_with_ownership desired actual (some previously_managed) =
      compute_diff_with_scope desired actual (shared previously_managed)
  compute_diff_with_ownership desired actual none = compute_diff_with_scope desired actual exclusive

  unfoldable pub compute_diff :
      GatewayConfig → GatewayConfig → Result ConfigError (List ResourceDiff)
  unfolding compute_diff_with_scope
  compute_diff desired actual =
      compute_diff_with_scope desired actual exclusive >>= λ result. ok result.diffs
