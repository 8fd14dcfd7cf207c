-- ===== src/Reconcile/Laws.antt =====
-- reconcile.rs: which namespaces are looked at.
use ferrum_edge_git_forge_op.Base.{
  Text, List, [], ◌∷◌, ◌≡◌, refl, ◌∙◌, ap, Bool, true, false, ◌&&◌, ◌||◌, not, Option, none, some,
  contains, contains-append, text_eq, text_key, ◌==◌, arith, is_empty, ==_refl, map,
}
use ferrum_edge_git_forge_op.Base.Map
use ferrum_edge_git_forge_op.Base.Map.{Keys, contains_key-insert, contains-keys, contains_key}
use ferrum_edge_git_forge_op.Base.HashMap.{any, holds}
use ferrum_edge_git_forge_op.StateKey.{state_key_namespace, state_key, is_state_key_kind}
use ferrum_edge_git_forge_op.Config.{
  Proxy, Consumer, Upstream, PluginConfig, GatewayConfig, collect_namespaces, insert_namespaces,
}
use ferrum_edge_git_forge_op.Ledger.{StateFile}
use ferrum_edge_git_forge_op.Reconcile.{
  OwnershipMode, exclusive, shared, ResolvedEnv, insert_parsed, insert_key_namespaces, ledger_keys,
  shared_namespaces, namespaces_by, resolved_namespaces,
}
use ferrum_edge_git_forge_op.StateKey.Laws.{state_key_namespace-state_key, kind-Free}

-- Whether a state key parses to the namespace.
abbrev pub names : Text → Text → Bool
names namespace key = holds (λ found. found == namespace) (state_key_namespace key)

insert_namespaces_lem :
    (found : List Text) (set : Keys Text) (ns : Text)
    → contains_key (insert_namespaces found set) ns ≡ (contains found ns || contains_key set ns)
unfolding insert_namespaces
insert_namespaces_lem [] set ns = refl
insert_namespaces_lem (x ∷ found) set ns =
    ground
      (arith, insert_namespaces_lem found (Map.insert set x tt) ns, contains_key-insert set x ns tt)

insert_parsed_lem :
    (parsed : Option Text) (set : Keys Text) (ns : Text)
    → contains_key (insert_parsed parsed set) ns
      ≡ (holds (λ found. found == ns) parsed || contains_key set ns)
insert_parsed_lem none set ns = refl
insert_parsed_lem (some x) set ns = contains_key-insert set x ns tt

insert_key_namespaces_lem :
    (keys : List Text) (set : Keys Text) (ns : Text)
    → contains_key (insert_key_namespaces keys set) ns
      ≡ (any (names ns) keys || contains_key set ns)
unfolding insert_key_namespaces any
insert_key_namespaces_lem [] set ns = refl
insert_key_namespaces_lem (key ∷ keys) set ns = ground (
  arith,
  insert_key_namespaces_lem keys (insert_parsed (state_key_namespace key) set) ns,
  insert_parsed_lem (state_key_namespace key) set ns,
)

or_false : (a b : Bool) → (a || (b || false)) ≡ (a || b)
or_false a b = ground arith

union_lem :
    (keys declared : List Text) (ns : Text)
    → contains (Map.keys (insert_key_namespaces keys (insert_namespaces declared []))) ns
      ≡ (any (names ns) keys || contains declared ns)
union_lem keys declared ns =
    contains-keys (insert_key_namespaces keys (insert_namespaces declared [])) ns
    ∙ insert_key_namespaces_lem keys (insert_namespaces declared []) ns
    ∙ rw (insert_namespaces_lem declared [] ns)
        (unfold contains_key Map.get in or_false (any (names ns) keys) (contains declared ns))

-- Whether the document has a resource in the namespace.
abbrev pub declares : GatewayConfig → Text → Bool
declares config ns =
    any (λ p. p.namespace == ns) config.proxies
    || (any (λ c. c.namespace == ns) config.consumers
        || (any (λ u. u.namespace == ns) config.upstreams
            || any (λ p. p.namespace == ns) config.plugin_configs))

contains-map :
    {A : Type 0} (name : A → Text) (xs : List A) (ns : Text)
    → contains (map name xs) ns ≡ any (λ x. name x == ns) xs
unfolding any
contains-map name [] ns = refl
contains-map name (x ∷ xs) ns = ap (λ b. name x == ns || b) (contains-map name xs ns)

nothing_in_empty : (ns : Text) → contains_key {K = Text} {V = Unit {0}} [] ns ≡ false
unfolding contains_key Map.get
nothing_in_empty ns = refl

reorder : (p c u g : Bool) → (g || (u || (c || (p || false)))) ≡ (p || (c || (u || g)))
reorder p c u g = ground arith

collect_namespaces_lem :
    (config : GatewayConfig) (ns : Text)
    → contains (collect_namespaces config) ns ≡ declares config ns
unfolding collect_namespaces
collect_namespaces_lem config ns =
    contains-keys _ ns
    ∙ rw
        (
          insert_namespaces_lem (map (λ (p : PluginConfig). p.namespace) config.plugin_configs) _
              ns,
          insert_namespaces_lem (map (λ (u : Upstream). u.namespace) config.upstreams) _ ns,
          insert_namespaces_lem (map (λ (c : Consumer). c.namespace) config.consumers) _ ns,
          insert_namespaces_lem (map (λ (p : Proxy). p.namespace) config.proxies) [] ns,
          nothing_in_empty ns,
          contains-map (λ (p : Proxy). p.namespace) config.proxies ns,
          contains-map (λ (c : Consumer). c.namespace) config.consumers ns,
          contains-map (λ (u : Upstream). u.namespace) config.upstreams ns,
          contains-map (λ (p : PluginConfig). p.namespace) config.plugin_configs ns,
        )
        (reorder (any (λ p. p.namespace == ns) config.proxies)
          (any (λ c. c.namespace == ns) config.consumers)
          (any (λ u. u.namespace == ns) config.upstreams)
          (any (λ p. p.namespace == ns) config.plugin_configs))

-- A filter is the whole answer; else the owned namespaces in exclusive mode, and in shared mode
-- those that the document declares or a ledger key names.
abbrev pub looked_at :
    OwnershipMode → Option Text → Option (List Text) → GatewayConfig → StateFile → Text → Bool
looked_at mode (some filter) owned desired state ns = contains (filter ∷ []) ns
looked_at exclusive none none desired state ns = false
looked_at exclusive none (some owned) desired state ns = contains owned ns
looked_at shared none owned desired state ns =
    any (names ns) (ledger_keys state) || declares desired ns

by_mode :
    (mode : OwnershipMode) (filter : Option Text) (owned : Option (List Text))
    (desired : GatewayConfig) (state : StateFile) (ns : Text)
    → contains (namespaces_by mode filter owned desired state) ns
      ≡ looked_at mode filter owned desired state ns
unfolding shared_namespaces
by_mode exclusive (some filter) owned desired state ns = refl
by_mode shared (some filter) owned desired state ns = refl
by_mode exclusive none none desired state ns = refl
by_mode exclusive none (some owned) desired state ns = refl
by_mode shared none owned desired state ns =
    union_lem (ledger_keys state) (collect_namespaces desired) ns
    ∙ ap (λ b. any (names ns) (ledger_keys state) || b) (collect_namespaces_lem desired ns)

-- A command looks at exactly these namespaces: the filter's alone if there is one, else in exclusive
-- ownership the owned ones (none if none are set), and in shared ownership those in which the
-- document has a resource or that a managed or pending key of the ledger names.
pub resolved_namespaces_lem :
    (resolved : ResolvedEnv) (desired : GatewayConfig) (state : StateFile) (ns : Text)
    → contains (resolved_namespaces resolved desired state) ns
      ≡ looked_at resolved.ownership.mode resolved.namespace_filter resolved.ownership.namespaces
          desired state ns
unfolding resolved_namespaces
resolved_namespaces_lem resolved desired state ns =
    by_mode resolved.ownership.mode resolved.namespace_filter resolved.ownership.namespaces desired
      state ns

-- An environment in shared mode without a filter.
abbrev pub shared_env : Text → Option (List Text) → ResolvedEnv
shared_env name owned = record {
  name = name;
  namespace_filter = none;
  ownership = record { mode = shared; namespaces = owned };
}

any-contains :
    (p : Text → Bool) (xs : List Text) (x : Text)
    → contains xs x ≡ true
    → p x ≡ true
    → any p xs ≡ true
unfolding any
any-contains p [] x h q = cc
any-contains p (y ∷ xs) x h q = ground (arith, any-contains p xs x)

module _ (ns kind id : Text)
    (named : not (is_empty ns) && not (is_empty id) && is_state_key_kind kind ≡ true) where
  names-state_key : names ns (state_key ns kind id) ≡ true
  names-state_key =
      rw (state_key_namespace-state_key ns kind id (kind-Free kind (ground arith)), named)
        (==_refl ns)

  in_ledger :
      (state : StateFile)
      → (Map.contains_key state.resources (state_key ns kind id)
          || Map.contains_key state.pending_creates (state_key ns kind id))
        ≡ true
      → any (names ns) (ledger_keys state) ≡ true
  in_ledger state h =
      any-contains (names ns) (ledger_keys state) (state_key ns kind id)
        (contains-append (Map.keys state.resources) (Map.keys state.pending_creates)
            (state_key ns kind id)
          ∙ rw
              (
                contains-keys state.resources (state_key ns kind id),
                contains-keys state.pending_creates (state_key ns kind id),
              )
              h)
        names-state_key

  -- In shared mode without a filter, a namespace is looked at if the ledger has a key of one of its
  -- resources, managed or pending, whatever the document declares. The namespace and the id are not
  -- empty and the kind is known.
  pub resolved_namespaces-ledger :
      (env : Text) (owned : Option (List Text)) (desired : GatewayConfig) (state : StateFile)
      → (Map.contains_key state.resources (state_key ns kind id)
          || Map.contains_key state.pending_creates (state_key ns kind id))
        ≡ true
      → contains (resolved_namespaces (shared_env env owned) desired state) ns ≡ true
  resolved_namespaces-ledger env owned desired state h =
      ground
        (arith, resolved_namespaces_lem (shared_env env owned) desired state ns, in_ledger state h)
