-- ===== src/Apply/Order.antt =====
-- apply/api_target.rs: the order in which the entries of a diff are sent to the admin API.
pub mod Laws
pub mod Keys
pub mod Deletes
pub mod Cycles
pub mod Renames
use ferrum_edge_git_forge_op.Base.{
  ℕ, Text, codes, List, [], ◌∷◌, map, Bool, true, false, not, ◌&&◌, ◌||◌, contains, text_eq, ◌==◌,
  if◌then◌else◌, leb, ltb, eqb,
}
use ferrum_edge_git_forge_op.Base.Sort.{sort_by}
use ferrum_edge_git_forge_op.Base.Order.{text_le}
use ferrum_edge_git_forge_op.StateKey.{state_key, proxy, consumer, upstream, plugin_config}
use ferrum_edge_git_forge_op.Config.{GatewayConfig}
use ferrum_edge_git_forge_op.Change.{DiffAction, add, modify, delete, ResourceDiff}
use ferrum_edge_git_forge_op.Diff.Redact.{Serde}
use ferrum_edge_git_forge_op.Apply.Index.{ResourceIndex, build}
use ferrum_edge_git_forge_op.Apply.Changes.{key_of}
use ferrum_edge_git_forge_op.Apply.Order.Cycles.{cyclic_create_diffs}
use ferrum_edge_git_forge_op.Apply.Order.Renames.{rename_unblocking_keys}

abbrev write_rank : Text → ℕ
write_rank kind =
    if kind == upstream || kind == consumer then 0 else if kind == plugin_config then 1 else 2

abbrev delete_rank : Text → ℕ
delete_rank kind =
    if kind == plugin_config then 4 else if kind == upstream || kind == consumer then 5 else 3

unfoldable pub operation_rank : DiffAction → Text → ℕ
operation_rank DiffAction.delete kind = delete_rank kind
operation_rank _ kind = write_rank kind

abbrev pub rank : ResourceDiff → ℕ
rank d = operation_rank d.action d.kind

unfoldable pub order_diffs : List ResourceDiff → List ResourceDiff
unfolding sort_by
order_diffs diffs = sort_by (λ a b. leb (rank a) (rank b)) diffs

-- The order of the keys (namespace, rank, late), where `false` stands before `true`.
pub record Place : Type 0 where
  pub namespace : Text
  pub rank : ℕ
  pub late : Bool

abbrev pub place_le : Place → Place → Bool
place_le a b =
    if a.namespace == b.namespace
    then ltb a.rank b.rank || (eqb a.rank b.rank && (not a.late || b.late))
    else text_le a.namespace b.namespace

module _ (cyclic unblocking : List Text) where
  abbrev pub place_of : ResourceDiff → Place
  place_of d =
      let in_cycle = contains cyclic (key_of d) in
      let unblocks = contains unblocking (key_of d) in
      record {
        namespace = d.namespace;
        rank = if in_cycle then 2 else if unblocks then 0 else rank d;
        late = not (in_cycle || unblocks);
      }

  unfoldable pub order_by_place : List ResourceDiff → List ResourceDiff
  unfolding sort_by
  order_by_place diffs = sort_by (λ a b. place_le (place_of a) (place_of b)) diffs

unfoldable pub order_incremental_diffs :
    Serde → List ResourceDiff → GatewayConfig → List ResourceDiff
unfolding order_diffs build cyclic_create_diffs rename_unblocking_keys order_by_place
order_incremental_diffs serde diffs desired =
    let ordered = order_diffs diffs in
    let index = build desired in
    let cycles = map key_of (cyclic_create_diffs ordered index) in
    order_by_place cycles (rename_unblocking_keys serde ordered index) ordered
