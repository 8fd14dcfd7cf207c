-- ===== src/Apply/Order/Laws.antt =====
-- apply/api_target.rs: the two orders, by the rank of an operation and by its place in a run.
use ferrum_edge_git_forge_op.StateKey.{upstream, consumer, plugin_config}
use ferrum_edge_git_forge_op.Apply.Changes.{is_delete}
use ferrum_edge_git_forge_op.Base.{
  refl, Text, Bool, not, ◌&&◌, ◌||◌, ◌==◌, ltb, if◌then◌else◌, eq→path, Bool-cases, inl, inr, ℕ,
  List, ◌≡◌, select, true, false, text_eq, leb, eqb, arith,
}
use ferrum_edge_git_forge_op.Base.Sort.Laws.{Sorted, sort_by-Sorted, by_key, select-sort_by}
use ferrum_edge_git_forge_op.Base.Order.{text_le-transitive, text_le-total, text_le-antisym}
use mathlib.Core.Path.{fun_ext}
use ferrum_edge_git_forge_op.Change.{DiffAction, delete, ResourceDiff}
use ferrum_edge_git_forge_op.Diff.Collection.{same_action}
use ferrum_edge_git_forge_op.Diff.{row_eq}
use ferrum_edge_git_forge_op.Apply.Order.{rank, operation_rank, order_diffs, Place, place_le}

leb_transitive : (x y z : ℕ) → leb x y ≡ true → leb y z ≡ true → leb x z ≡ true
leb_transitive x y z p q = ground arith

leb_total : (x y : ℕ) → leb x y ≡ false → leb y x ≡ true
leb_total x y p = ground arith

-- Upstreams and consumers refer to no other resource.
abbrev is_leaf : Text → Bool
is_leaf kind = kind == upstream || kind == consumer

-- Whether a resource of one kind may refer to a resource of another: a proxy (the last case) to
-- plugin configs and upstreams, a plugin config to leaves.
abbrev refers_to : Text → Text → Bool
refers_to kind other =
    if is_leaf kind
    then false
    else if kind == plugin_config
    then is_leaf other
    else is_leaf other || other == plugin_config

-- What must be sent first: every write before every delete, the write of a resource after the
-- writes of what it refers to, and its delete before their deletes. A plugin config's delete
-- precedes those of upstreams and consumers.
unfoldable pub must_precede : ResourceDiff → ResourceDiff → Bool
must_precede a b =
    if is_delete a
    then is_delete b && refers_to a.kind b.kind
    else is_delete b || refers_to b.kind a.kind

abbrev pub allowed : ResourceDiff → ResourceDiff → Bool
allowed a b = not (must_precede b a)

-- Neither of two entries must precede the other.
abbrev pub unrelated : ResourceDiff → ResourceDiff → Bool
unrelated a b = not (must_precede a b) && not (must_precede b a)

one_class : (kind : Text) → (is_leaf kind && kind == plugin_config) ≡ false
one_class kind = elim (Bool-cases (kind == plugin_config)) [
  | inl same ↦ rw (eq→path kind plugin_config same) (unfold text_eq in refl)
  | inr differ ↦ ground (arith, differ)
]

kind_rank : (deletes leaf plugin : Bool) → ℕ
kind_rank true leaf plugin = if plugin then 4 else if leaf then 5 else 3
kind_rank false leaf plugin = if leaf then 0 else if plugin then 1 else 2

rank_lem :
    (d : ResourceDiff) → rank d ≡ kind_rank (is_delete d) (is_leaf d.kind) (d.kind == plugin_config)
unfolding kind_rank operation_rank
rank_lem d = by_action d.action
  where
    by_action :
        (action : DiffAction)
        → operation_rank action d.kind
          ≡ kind_rank (same_action action delete) (is_leaf d.kind) (d.kind == plugin_config)
    by_action DiffAction.delete = refl
    by_action DiffAction.add = refl
    by_action DiffAction.modify = refl

must_precede-rank : (a b : ResourceDiff) → must_precede a b ≡ ltb (rank a) (rank b)
unfolding must_precede kind_rank
must_precede-rank a b =
    rw (rank_lem a, rank_lem b) (ground (arith, one_class a.kind, one_class b.kind))

same_class : (d : ResourceDiff) → (λ (x : ResourceDiff). eqb (rank x) (rank d)) ≡ unrelated d
same_class d = fun_ext (λ x. ground (arith, must_precede-rank d x, must_precede-rank x d))

pub order_diffs_lem :
    (diffs : List ResourceDiff)
    → Sorted allowed (order_diffs diffs)
      × ((d : ResourceDiff) → select (unrelated d) (order_diffs diffs) ≡ select (unrelated d) diffs)
unfolding order_diffs
order_diffs_lem diffs =
    let tests : by_key rank ≡ allowed =
      fun_ext (λ a. fun_ext (λ b. ground (arith, must_precede-rank b a))) in
    (
      coe 0 1 (i. Sorted (tests i) (order_diffs diffs)) (
          sort_by-Sorted (by_key rank) (λ x y z. leb_transitive (rank x) (rank y) (rank z))
            (λ x y. leb_total (rank x) (rank y)) diffs),
      λ d.
          coe 0 1 (i. select (same_class d i) (order_diffs diffs) ≡ select (same_class d i) diffs)
            (select-sort_by rank diffs (rank d)),
    )

pub place_le-transitive :
    (a b c : Place) → place_le a b ≡ true → place_le b c ≡ true → place_le a c ≡ true
place_le-transitive a b c p q = ground (
  arith,
  text_le-transitive a.namespace b.namespace c.namespace,
  text_le-antisym a.namespace b.namespace,
)

pub place_le-total : (a b : Place) → place_le a b ≡ false → place_le b a ≡ true
place_le-total a b p = ground (arith, text_le-total a.namespace b.namespace)
