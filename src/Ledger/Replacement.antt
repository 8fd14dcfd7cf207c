-- ===== src/Ledger/Replacement.antt =====
-- state.rs: which keys the ledger manages after `record`, and that `record_full_replace` agrees.
use mathlib.Core.Path.{fun_ext}
use ferrum_edge_git_forge_op.Base.{
  Text, List, [], ◌∷◌, ◌++◌, map, select, ◌≡◌, refl, ap, sym, Bool, true, false, not, ◌&&◌, ◌||◌,
  Option, none, some, contains, text_eq, text_key, ◌==◌, if◌then◌else◌, arith, Bool-cases, inl, inr,
  eq→path,
}
use ferrum_edge_git_forge_op.Base.HashMap.{any, any-append}
use ferrum_edge_git_forge_op.Base.Map
use ferrum_edge_git_forge_op.Base.Map.{Map}
use ferrum_edge_git_forge_op.StateKey.{state_key_namespace}
use ferrum_edge_git_forge_op.StateKey.Laws.{Free, kind-Free}
use ferrum_edge_git_forge_op.Config.{GatewayConfig}
use ferrum_edge_git_forge_op.Config.Identity.{
  Identity, identity_eq, key_of, identities, proxy_identity, consumer_identity, upstream_identity,
  plugin_identity,
}
use ferrum_edge_git_forge_op.Config.Identity.Laws.{KindsFree, key_of-==, identities-KindsFree}
use ferrum_edge_git_forge_op.Ledger.{
  StateFile, outside, insert_rows, record_config, elsewhere, mark_rows, record_full_replace,
  managed_resource_marker,
}
use ferrum_edge_git_forge_op.Ledger.Ownership.{IsNamed, namespace-key_of}

-- Whether a row within a scope has a key.
abbrev pub declares : List Text → List Identity → Text → Bool
declares scope rows key = any (λ row. contains scope row.namespace && key_of row == key) rows

-- Whether an apply of a scope leaves an entry alone, by the namespace that its key names: one
-- outside the scope. An entry whose key names no namespace is dropped.
abbrev pub stays : List Text → Option Text → Bool
stays scope none = false
stays scope (some ns) = not (contains scope ns)

insert_rows-declares :
    (scope : List Text) (rows : List Identity) (m : Map Text Text) (key : Text)
    → Map.contains_key (insert_rows scope rows m) key
      ≡ (declares scope rows key || Map.contains_key m key)
unfolding insert_rows any
insert_rows-declares scope [] m key = refl
insert_rows-declares scope (row ∷ rows) m key = ground (
  arith,
  insert_rows-declares scope rows (Map.insert m (key_of row) managed_resource_marker) key,
  insert_rows-declares scope rows m key,
  Map.contains_key-insert m (key_of row) key managed_resource_marker,
)

outside-stays :
    (scope : List Text) (key : Text) → outside scope key ≡ stays scope (state_key_namespace key)
unfolding outside
outside-stays scope key = by_namespace (state_key_namespace key)
  where
    by_namespace :
        (ns : Option Text)
        → (elim ns [ none ↦ false | some n ↦ not (contains scope n) ]) ≡ stays scope ns
    by_namespace none = refl
    by_namespace (some n) = refl

-- After a scoped apply, the ledger manages a key exactly if a declared row of the scope has it, or
-- it was managed and names a namespace outside the scope. It keeps the journal entries that name a
-- namespace outside the scope. Entries whose key names no namespace are dropped.
pub record_config-keys :
    (config : GatewayConfig) (scope : List Text) (now : Text) (head : Option Text)
    (state : StateFile) (key : Text)
    → (Map.contains_key (record_config config scope now head state).resources key ≡ (
        declares scope (identities config) key
        || (stays scope (state_key_namespace key) && Map.contains_key state.resources key)))
      × (Map.contains_key (record_config config scope now head state).pending_creates key
          ≡ (stays scope (state_key_namespace key) && Map.contains_key state.pending_creates key))
unfolding record_config
record_config-keys config scope now head state key =
    let ps = map proxy_identity config.proxies in
    let cs = map consumer_identity config.consumers in
    let us = map upstream_identity config.upstreams in
    let qs = map plugin_identity config.plugin_configs in
    (
      rw
          (
            insert_rows-declares scope qs _ key,
            insert_rows-declares scope us _ key,
            insert_rows-declares scope cs _ key,
            insert_rows-declares scope ps _ key,
            Map.contains_key-retain,
            outside-stays scope key,
            any-append _ ps (cs ++ (us ++ qs)),
            any-append _ cs (us ++ qs),
            any-append _ us qs,
          )
          (ground arith),
      rw (Map.contains_key-retain, outside-stays scope key) refl,
    )

distribute : (p d c : Bool) → (p && d || p && c) ≡ (p && (d || c))
distribute true d c = refl
distribute false d c = refl

declares-contains :
    (scope : List Text) (rows : List Identity) (a : Identity)
    → KindsFree rows
    → Free b':' a.kind
    → declares scope rows (key_of a) ≡ (contains scope a.namespace && contains rows a)
unfolding any
declares-contains scope [] a _ free = ground arith
declares-contains scope (row ∷ rows) a (f, fs) free = elim (Bool-cases (row == a)) [
  | inl same ↦
      rw (key_of-== row a f free, declares-contains scope rows a fs free, eq→path row a same)
        (distribute (contains scope a.namespace) _ _)
  | inr differ ↦
      rw (key_of-== row a f free, declares-contains scope rows a fs free, differ) (ground arith)
]

scope_one : (ns namespace : Text) → contains (namespace ∷ []) ns ≡ (ns == namespace)
scope_one ns namespace = ground arith

module _ (namespace : Text) where
  elsewhere-outside : (key : Text) → elsewhere namespace key ≡ outside (namespace ∷ []) key
  unfolding elsewhere outside
  elsewhere-outside key = by_namespace (state_key_namespace key)
    where
      by_namespace :
          (found : Option Text)
          → (elim found [ none ↦ false | some ns ↦ not (ns == namespace) ])
            ≡ (elim found [ none ↦ false | some ns ↦ not (contains (namespace ∷ []) ns) ])
      by_namespace none = refl
      by_namespace (some ns) = ap not (sym (scope_one ns namespace))

  mark_rows-select :
      {T : Type 0} (f : T → Identity) (xs : List T) (m : Map Text Text)
      → mark_rows (map f (select (λ r. (f r).namespace == namespace) xs)) m
        ≡ insert_rows (namespace ∷ []) (map f xs) m
  unfolding mark_rows insert_rows select
  mark_rows-select f [] m = refl
  mark_rows-select f (x ∷ xs) m =
      by_test ((f x).namespace == namespace) (contains (namespace ∷ []) (f x).namespace)
        (scope_one (f x).namespace namespace) (mark_rows-select f xs)
    where
      by_test :
          (here within : Bool)
          → within ≡ here
          → ((n : Map Text Text)
              → mark_rows (map f (select (λ r. (f r).namespace == namespace) xs)) n
                ≡ insert_rows (namespace ∷ []) (map f xs) n)
          → mark_rows
              (map f (
                if here
                then x ∷ select (λ r. (f r).namespace == namespace) xs
                else select (λ r. (f r).namespace == namespace) xs))
              m
            ≡ insert_rows
                (namespace ∷ [])
                (map f xs)
                (if within then Map.insert m (key_of (f x)) managed_resource_marker else m)
      by_test true within same more =
          rw same (more (Map.insert m (key_of (f x)) managed_resource_marker))
      by_test false within same more = rw same (more m)

-- A full replacement of one namespace leaves the ledger with the resources and the journal that a
-- scoped apply of that namespace leaves.
pub record_full_replace-record_config :
    (config : GatewayConfig) (namespace now : Text) (head : Option Text) (state : StateFile)
    → let replaced = record_full_replace namespace config state in
      let applied = record_config config (namespace ∷ []) now head state in
      (replaced.resources ≡ applied.resources)
      × (replaced.pending_creates ≡ applied.pending_creates)
unfolding record_full_replace record_config
record_full_replace-record_config config namespace now head state =
    let tests : elsewhere namespace ≡ outside (namespace ∷ []) =
      fun_ext (elsewhere-outside namespace) in
    (
      rw
          (
            mark_rows-select namespace plugin_identity config.plugin_configs,
            mark_rows-select namespace upstream_identity config.upstreams,
            mark_rows-select namespace consumer_identity config.consumers,
            mark_rows-select namespace proxy_identity config.proxies,
            tests,
          )
          refl,
      rw tests refl,
    )

-- After a scoped apply, for a resource of a known kind with a namespace and an id that are not
-- empty: in a scoped namespace, the ledger manages it exactly if the document declares it, and has
-- no journal entry for it. It keeps both entries of such a resource elsewhere.
pub record_config_lem :
    (config : GatewayConfig) (scope : List Text) (now : Text) (head : Option Text)
    (state : StateFile) (a : Identity)
    → IsNamed a
    → (Map.contains_key (record_config config scope now head state).resources (key_of a) ≡ (
        if contains scope a.namespace
        then contains (identities config) a
        else Map.contains_key state.resources (key_of a)))
      × (Map.contains_key (record_config config scope now head state).pending_creates (key_of a) ≡ (
          if contains scope a.namespace
          then false
          else Map.contains_key state.pending_creates (key_of a)))
record_config_lem config scope now head state a named =
    let keys = record_config-keys config scope now head state (key_of a) in
    let declared =
      declares-contains scope (identities config) a (identities-KindsFree config)
        (kind-Free a.kind named.kind) in
    (
      rw (keys.0, declared, namespace-key_of a named) (ground arith),
      rw (keys.1, namespace-key_of a named) (ground arith),
    )
