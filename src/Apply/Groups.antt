-- ===== src/Apply/Groups.antt =====
-- apply/api_target.rs and http_client.rs: a batch of creates, and its groups of proxies and plugin
-- configs that depend on each other, found by union-find.
pub mod Split
pub mod Blocks
pub mod Packing
use ferrum_edge_git_forge_op.Base.{
  ℕ, zero, suc, ◌+◌, Text, List, [], ◌∷◌, ◌++◌, map, Bool, true, false, Option, none, some, text_eq,
  text_lt, nat_key, ◌==◌, if◌then◌else◌, eqb, length,
}
use ferrum_edge_git_forge_op.Base.Map
use ferrum_edge_git_forge_op.Base.Map.{Map}
use ferrum_edge_git_forge_op.Base.HashMap
use ferrum_edge_git_forge_op.Base.HashMap.{HashMap}
use ferrum_edge_git_forge_op.Base.Sort.{sort_by}
use ferrum_edge_git_forge_op.Base.Order.{text_le}
use ferrum_edge_git_forge_op.StateKey.{proxy, consumer, upstream, plugin_config}
use ferrum_edge_git_forge_op.Config.{Proxy, Consumer, Upstream, PluginConfig}
use ferrum_edge_git_forge_op.Change.{ResourceDiff}
use ferrum_edge_git_forge_op.Diff.{Row, row_eq}
use ferrum_edge_git_forge_op.Apply.Index.{
  ResourceIndex, at, plugins, has_proxy_scope, proxy_id, proxy_row, consumer_row, upstream_row,
  plugin_row,
}

pub record BatchCreate : Type 0 where
  pub proxies : List Proxy
  pub consumers : List Consumer
  pub upstreams : List Upstream
  pub plugin_configs : List PluginConfig

abbrev pub empty_batch : BatchCreate
empty_batch = record { proxies = []; consumers = []; upstreams = []; plugin_configs = [] }

abbrev push_found : {T : Type 0} → List T → Option T → List T
push_found xs none = xs
push_found xs (some x) = xs ++ x ∷ []

abbrev collect_one : ResourceIndex → Text → Row → BatchCreate → BatchCreate
collect_one index kind row batch =
    if kind == upstream
    then record batch {
      upstreams = push_found batch.upstreams (HashMap.lookup index.upstreams row);
    }
    else if kind == consumer
    then record batch {
      consumers = push_found batch.consumers (HashMap.lookup index.consumers row);
    }
    else if kind == proxy
    then record batch { proxies = push_found batch.proxies (HashMap.lookup index.proxies row) }
    else if kind == plugin_config
    then record batch {
      plugin_configs = push_found batch.plugin_configs (HashMap.lookup index.plugin_configs row);
    }
    else batch

-- The loop of `collect_batch`, from the batch collected so far.
unfoldable pub collect_batch : List ResourceDiff → ResourceIndex → BatchCreate → BatchCreate
unfolding HashMap.lookup
collect_batch [] index batch = batch
collect_batch (diff ∷ diffs) index batch =
    collect_batch diffs index (collect_one index diff.kind (at diff.namespace diff.id) batch)

-- `parents[index]`, and `parents[index] = value`. The indices are in range.
unfoldable pub parent : List ℕ → ℕ → ℕ
parent [] i = i
parent (p ∷ parents) zero = p
parent (p ∷ parents) (suc i) = parent parents i

unfoldable pub set_parent : List ℕ → ℕ → ℕ → List ℕ
set_parent [] i value = []
set_parent (p ∷ parents) zero value = value ∷ parents
set_parent (p ∷ parents) (suc i) value = p ∷ set_parent parents i value

-- The loop of `root`, on fuel: a chain of parents visits each index at most once.
unfoldable pub root : ℕ → List ℕ → ℕ → List ℕ × ℕ
unfolding parent set_parent
root zero parents i = (parents, i)
root (suc fuel) parents i =
    let halved = set_parent parents i (parent parents (parent parents i)) in
    let rest = root fuel halved (parent halved i) in
    if eqb (parent parents i) i then (parents, i) else rest

unfoldable pub join : List ℕ → ℕ → ℕ → List ℕ
unfolding root set_parent
join parents a b =
    let (after_a, root_a) = root (length parents) parents a in
    let (after_b, root_b) = root (length parents) after_a b in set_parent after_b root_b root_a

-- The position of each row, from a first number. Rows of one key keep the last position.
unfoldable pub positions : {T : Type 0} → (T → Row) → ℕ → List T → HashMap Row ℕ → HashMap Row ℕ
unfolding HashMap.put
positions key i [] found = found
positions key i (x ∷ xs) found = positions key (suc i) xs (HashMap.put found (key x) i)

abbrev join_found : List ℕ → Option ℕ → ℕ → Bool → List ℕ
join_found parents none node plugin_first = parents
join_found parents (some other) node true = join parents other node
join_found parents (some other) node false = join parents node other

unfoldable pub join_references : HashMap Row ℕ → Text → ℕ → List Text → List ℕ → List ℕ
unfolding HashMap.lookup join
join_references found namespace node [] parents = parents
join_references found namespace node (id ∷ ids) parents =
    join_references found namespace node ids
      (join_found parents (HashMap.lookup found (at namespace id)) node true)

unfoldable pub join_proxies : HashMap Row ℕ → ℕ → List Proxy → List ℕ → List ℕ
unfolding join_references plugins
join_proxies found node [] parents = parents
join_proxies found node (p ∷ proxies) parents =
    join_proxies found (suc node) proxies
      (join_references found p.namespace node (plugins p) parents)

abbrev owner_of : HashMap Row ℕ → PluginConfig → Option ℕ
owner_of found plugin = elim (if has_proxy_scope plugin then proxy_id plugin else none) [
  | none ↦ none
  | some id ↦ HashMap.lookup found (at plugin.namespace id)
]

unfoldable pub join_plugins : HashMap Row ℕ → ℕ → List PluginConfig → List ℕ → List ℕ
unfolding HashMap.lookup join has_proxy_scope proxy_id
join_plugins found node [] parents = parents
join_plugins found node (plugin ∷ rest) parents =
    join_plugins found (suc node) rest (join_found parents (owner_of found plugin) node false)

unfoldable pub identity_parents : ℕ → ℕ → List ℕ
identity_parents first zero = []
identity_parents first (suc n) = first ∷ identity_parents (suc first) n

abbrev or_default : Option BatchCreate → BatchCreate
or_default none = empty_batch
or_default (some group) = group

-- One connected group for each root. The parents that `root` rewrites are threaded.
unfoldable pub group_plugins :
    ℕ → List PluginConfig → List ℕ → Map ℕ BatchCreate → List ℕ × Map ℕ BatchCreate
unfolding root
group_plugins node [] parents groups = (parents, groups)
group_plugins node (plugin ∷ rest) parents groups =
    let (after, at_root) = root (length parents) parents node in
    let group = or_default (Map.get groups at_root) in
    group_plugins (suc node) rest after (
      Map.insert groups at_root
        (record group { plugin_configs = group.plugin_configs ++ plugin ∷ [] }))

unfoldable pub group_proxies : ℕ → List Proxy → List ℕ → Map ℕ BatchCreate → Map ℕ BatchCreate
unfolding root
group_proxies node [] parents groups = groups
group_proxies node (p ∷ rest) parents groups =
    let (after, at_root) = root (length parents) parents node in
    let group = or_default (Map.get groups at_root) in
    group_proxies (suc node) rest after
      (Map.insert groups at_root (record group { proxies = group.proxies ++ p ∷ [] }))

unfoldable pub values : {V : Type 0} → Map ℕ V → List V
values [] = []
values ((_, v) ∷ m) = v ∷ values m

abbrev row_le : Row → Row → Bool
row_le a b =
    if a.namespace == b.namespace then text_le a.id b.id else text_le a.namespace b.namespace

abbrev sorted : {T : Type 0} → (T → Row) → List T → List T
sorted key xs = sort_by (λ a b. row_le (key a) (key b)) xs

unfoldable pub batch_dependency_groups : BatchCreate → List BatchCreate
unfolding sort_by text_lt positions join_proxies join_plugins identity_parents group_plugins
    group_proxies values
batch_dependency_groups batch =
    let upstreams = sorted upstream_row batch.upstreams in
    let consumers = sorted consumer_row batch.consumers in
    let plugin_configs = sorted plugin_row batch.plugin_configs in
    let proxies = sorted proxy_row batch.proxies in
    let plugin_count = length plugin_configs in
    let joined =
      join_proxies (positions plugin_row 0 plugin_configs []) plugin_count proxies
        (identity_parents 0 (plugin_count + length proxies)) in
    let parents =
      join_plugins (positions proxy_row plugin_count proxies []) 0 plugin_configs joined in
    let (after, groups) = group_plugins 0 plugin_configs parents [] in
    map (λ (u : Upstream). record empty_batch { upstreams = u ∷ [] }) upstreams
    ++ (map (λ (c : Consumer). record empty_batch { consumers = c ∷ [] }) consumers
        ++ values (group_proxies plugin_count proxies after groups))
