-- ===== src/Apply/Order/Deletes.antt =====
-- apply/api_target.rs: the deletes of a namespace are sent after its writes.
use ferrum_edge_git_forge_op.Base.{
  Text, List, [], ◌∷◌, ◌≡◌, refl, ◌∙◌, map, Bool, true, false, not, ◌&&◌, ◌||◌, contains, text_eq,
  ◌==◌, eq→path, leb, arith,
}
use ferrum_edge_git_forge_op.Base.HashMap.{any}
use ferrum_edge_git_forge_op.Base.Sort.{any-sort_by}
use ferrum_edge_git_forge_op.Base.Sort.Laws.{Sorted, sort_by-Sorted, by_key}
use ferrum_edge_git_forge_op.Config.{GatewayConfig}
use ferrum_edge_git_forge_op.Change.{DiffAction, delete, ResourceDiff}
use ferrum_edge_git_forge_op.Diff.{row_eq}
use ferrum_edge_git_forge_op.Diff.Redact.{Serde}
use ferrum_edge_git_forge_op.Diff.Collection.{same_action}
use ferrum_edge_git_forge_op.Apply.Changes.{key_of, is_delete}
use ferrum_edge_git_forge_op.Apply.Index.{build}
use ferrum_edge_git_forge_op.Apply.Order.{
  operation_rank, rank, order_diffs, place_le, place_of, order_by_place, order_incremental_diffs,
}
use ferrum_edge_git_forge_op.Apply.Order.Laws.{place_le-transitive, place_le-total}
use ferrum_edge_git_forge_op.Apply.Order.Cycles.{cyclic_create_diffs}
use ferrum_edge_git_forge_op.Apply.Order.Renames.{rename_unblocking_keys}
use ferrum_edge_git_forge_op.Apply.Order.Keys.{writes_key, cyclic_create_lem, unblocking_lem}

-- Whether a list has a write, that is no delete, in the namespace of an entry.
abbrev pub writes_beside : ResourceDiff → List ResourceDiff → Bool
writes_beside d ds = any (λ e. e.namespace == d.namespace && not (is_delete e)) ds

-- No delete stands before a write of its namespace.
abbrev pub DeletesLast : List ResourceDiff → Type 0
DeletesLast [] = Unit
DeletesLast (d ∷ ds) = ((is_delete d && writes_beside d ds) ≡ false) × DeletesLast ds

-- Whether some delete has the state key of a write.
abbrev pub clashing : List ResourceDiff → Bool
clashing ds = any (λ d. is_delete d && writes_key ds (key_of d)) ds

pub rank_of_delete :
    (action : DiffAction) (kind : Text)
    → same_action action delete ≡ true
    → leb 3 (operation_rank action kind) ≡ true
unfolding operation_rank
rank_of_delete DiffAction.add kind h = ground arith
rank_of_delete DiffAction.modify kind h = ground arith
rank_of_delete DiffAction.delete kind h = ground arith

rank_of_write :
    (action : DiffAction) (kind : Text)
    → same_action action delete ≡ false
    → leb (operation_rank action kind) 2 ≡ true
unfolding operation_rank
rank_of_write DiffAction.add kind h = ground arith
rank_of_write DiffAction.modify kind h = ground arith
rank_of_write DiffAction.delete kind h = ground arith

module _ (cyclic unblocking : List Text) where
  abbrev moved : ResourceDiff → Bool
  moved d = contains cyclic (key_of d) || contains unblocking (key_of d)

  abbrev before : ResourceDiff → ResourceDiff → Bool
  before a b = place_le (place_of cyclic unblocking a) (place_of cyclic unblocking b)

  write_first :
      (d e : ResourceDiff)
      → moved d ≡ false
      → is_delete d ≡ true
      → (e.namespace == d.namespace && not (is_delete e)) ≡ true
      → before d e ≡ false
  write_first d e stays deletes writes = ground (
    arith,
    rank_of_delete d.action d.kind,
    rank_of_write e.action e.kind,
    eq→path e.namespace d.namespace,
  )

  no_write_after :
      (d : ResourceDiff) (ds : List ResourceDiff)
      → moved d ≡ false
      → is_delete d ≡ true
      → any (λ e. not (before d e)) ds ≡ false
      → writes_beside d ds ≡ false
  unfolding any
  no_write_after d [] stays deletes s = refl
  no_write_after d (e ∷ ds) stays deletes s = ground (arith, write_first d e, no_write_after d ds)

  Sorted-DeletesLast :
      (ds : List ResourceDiff)
      → any (λ d. is_delete d && moved d) ds ≡ false
      → Sorted before ds
      → DeletesLast ds
  unfolding any
  Sorted-DeletesLast [] stay s = tt
  Sorted-DeletesLast (d ∷ ds) stay (s, more) =
      (ground (arith, no_write_after d ds), Sorted-DeletesLast ds (ground arith) more)

module _ (serde : Serde) (diffs : List ResourceDiff) (desired : GatewayConfig) where
  abbrev ordered : List ResourceDiff
  ordered = order_diffs diffs

  abbrev cycles : List Text
  cycles = map key_of (cyclic_create_diffs ordered (build desired))

  abbrev hoisted : List Text
  hoisted = rename_unblocking_keys serde ordered (build desired)

  moved_is_write :
      (d : ResourceDiff) → moved cycles hoisted d ≡ true → writes_key diffs (key_of d) ≡ true
  unfolding order_diffs
  moved_is_write d h = ground (
    arith,
    cyclic_create_lem (build desired) ordered (key_of d),
    unblocking_lem serde (build desired) ordered (key_of d),
    any-sort_by (by_key rank) (λ e. not (is_delete e) && key_of e == key_of d) diffs,
  )

  none_moved :
      (ds : List ResourceDiff)
      → any (λ d. is_delete d && writes_key diffs (key_of d)) ds ≡ false
      → any (λ d. is_delete d && moved cycles hoisted d) ds ≡ false
  unfolding any
  none_moved [] apart = refl
  none_moved (d ∷ ds) apart = ground (arith, moved_is_write d, none_moved ds)

  -- If no delete has the state key of an add or a modify, then in the order of an incremental apply
  -- no delete stands before an add or a modify of its namespace.
  pub order_incremental_diffs-DeletesLast :
      clashing diffs ≡ false → DeletesLast (order_incremental_diffs serde diffs desired)
  unfolding order_incremental_diffs order_by_place order_diffs
  order_incremental_diffs-DeletesLast apart =
      Sorted-DeletesLast cycles hoisted _
        (any-sort_by (before cycles hoisted) (λ d. is_delete d && moved cycles hoisted d) ordered
          ∙ any-sort_by (by_key rank) (λ d. is_delete d && moved cycles hoisted d) diffs
          ∙ none_moved diffs apart)
        (sort_by-Sorted (before cycles hoisted)
          (λ a b c.
            place_le-transitive (place_of cycles hoisted a) (place_of cycles hoisted b)
              (place_of cycles hoisted c))
          (λ a b. place_le-total (place_of cycles hoisted a) (place_of cycles hoisted b)) ordered)
