-- ===== src/Diff/Collection.antt =====
-- What one collection adds to the diff, against the action that its rows call for.
use ferrum_edge_git_forge_op.Base.{
  Text, List, [], ◌∷◌, ◌≡◌, ◌∙◌, ap, Bool, true, false, not, ◌&&◌, ◌||◌, Option, none, some,
  contains, text_eq, ◌==◌, if◌then◌else◌, is_some, is_empty, arith, same_at, Bool-cases, inl, inr,
}
use ferrum_edge_git_forge_op.Base.HashMap
use ferrum_edge_git_forge_op.Base.HashMap.{
  HashMap, any, any-append, any-one, holds, any-lookup, NodupKeys, collect-NodupKeys,
}
use ferrum_edge_git_forge_op.StateKey.{state_key}
use ferrum_edge_git_forge_op.Change.{DiffAction, add, modify, delete, ResourceDiff, FieldChange}
use ferrum_edge_git_forge_op.Diff.Redact.{Serde, redact_sensitive_leaves}
use ferrum_edge_git_forge_op.Diff.Fields.{Resource, compare_fields}
use ferrum_edge_git_forge_op.Diff.{
  Row, row_eq, OwnershipScope, shared, exclusive, CollectionContext, DiffResult, is_exclusive,
  push_diff, push_spec_owned, matched, undeclared, undeclared_spec, rows, desired_row, desired_rows,
  live_row, live_rows, diff_collection,
}

abbrev pub same_action : DiffAction → DiffAction → Bool
same_action add add = true
same_action modify modify = true
same_action delete delete = true
same_action _ _ = false

abbrev pub row_of : ResourceDiff → Row
row_of d = record { namespace = d.namespace; id = d.id }

abbrev pub matches : DiffAction → Text → Row → ResourceDiff → Bool
matches action kind row d = same_action d.action action && (d.kind == kind && row_of d == row)

-- Whether the diff holds an entry with this action, kind and row.
abbrev pub listed : DiffAction → Text → Row → List ResourceDiff → Bool
listed action kind row = any (matches action kind row)

abbrev pub is_action : Option DiffAction → DiffAction → Bool
is_action none action = false
is_action (some a) action = same_action a action

regroup : (b s e r : Bool) → (b || (s && (e && r))) ≡ (b || (r && (e && s)))
regroup b s e r = ground arith

no_entry : (b r e : Bool) → b ≡ (b || (r && (e && false)))
no_entry b r e = ground arith

or_false : (b : Bool) → b ≡ (b || false)
or_false b = ground arith

or_assoc : (b c d : Bool) → ((b || c) || d) ≡ (b || (c || d))
or_assoc b c d = ground arith

nothing : (b e : Bool) → ((b || false) || false) ≡ (b || (e && false))
nothing b e = ground arith

drop_false : (b c : Bool) → ((b || false) || c) ≡ (b || c)
drop_false b c = ground arith

keep_first : (b c : Bool) → ((b || c) || false) ≡ (b || c)
keep_first b c = ground arith

keep_both : (b c e : Bool) → ((b || c) || (e && false)) ≡ (b || c)
keep_both b c e = ground arith

module _ (serde : Serde) {T : Type 0} (R : Resource T) (kind : Text) (ctx : CollectionContext) where
  -- Whether an undeclared live row may be deleted: a row of an API spec only in exclusive mode with
  -- the opt-in, any other in exclusive mode, or if its key was managed before.
  abbrev pub may_delete : OwnershipScope → Row → Option Text → Bool
  may_delete scope row (some api_spec_id) = is_exclusive scope && ctx.options.prune_spec_owned
  may_delete exclusive row none = true
  may_delete (shared managed) row none = contains managed (state_key row.namespace kind row.id)

  abbrev pub differs : T → T → Bool
  differs desired actual =
      not
        (is_empty (redact_sensitive_leaves serde kind (compare_fields serde R kind desired actual)))

  abbrev pub expected_change : T → T → Option Text → Option DiffAction
  expected_change desired actual (some api_spec_id) = none
  expected_change desired actual none = if differs desired actual then some modify else none

  -- The action that a row calls for.
  abbrev pub expected : Row → Option T → Option T → Option DiffAction
  expected row none none = none
  expected row (some desired) none = some add
  expected row (some desired) (some actual) = expected_change desired actual (R.api_spec_id actual)
  expected row none (some actual) =
      if may_delete ctx.ownership_scope row (R.api_spec_id actual) then some delete else none

  rows-NodupKeys : (l : List T) → NodupKeys (rows serde R kind l)
  unfolding rows
  rows-NodupKeys l = collect-NodupKeys [] _ tt

  module _ (action : DiffAction) (k : Text) (row : Row) where
    -- What is listed once an entry for the row `at` may have been pushed.
    abbrev with_entry : Bool → Row → Option DiffAction → Bool
    with_entry before at entry = before || (at == row && (kind == k && is_action entry action))

    push-listed :
        (a : DiffAction) (at : Row) (details : List FieldChange) (result : DiffResult)
        → listed action k row (push_diff a kind at details result).diffs
          ≡ with_entry (listed action k row result.diffs) at (some a)
    push-listed a at details result =
        any-append (matches action k row) result.diffs _
        ∙ ap (λ b. listed action k row result.diffs || b) (any-one (matches action k row) _)
        ∙ regroup (listed action k row result.diffs) (same_action a action) (kind == k) (at == row)

    matched-listed :
        (at : Row) (desired actual : T) (spec : Option Text) (result : DiffResult)
        → listed action k row (matched serde R kind at desired actual spec result).diffs
          ≡ with_entry (listed action k row result.diffs) at (expected_change desired actual spec)
    matched-listed at desired actual (some api_spec_id) result = no_entry _ (at == row) (kind == k)
    matched-listed at desired actual none result =
        elim (Bool-cases (
          is_empty
            (redact_sensitive_leaves serde kind (compare_fields serde R kind desired actual)))) [
              | inl same ↦ rw same (no_entry _ (at == row) (kind == k))
              | inr changed ↦ rw changed (push-listed modify at _ result)
            ]

    desired_row-listed :
        (at : Row) (desired : T) (live : Option T) (result : DiffResult)
        → listed action k row (desired_row serde R kind at desired live result).diffs
          ≡ with_entry (listed action k row result.diffs) at (expected at (some desired) live)
    unfolding desired_row
    desired_row-listed at desired none result = push-listed add at [] result
    desired_row-listed at desired (some actual) result =
        matched-listed at desired actual (R.api_spec_id actual) result

    undeclared-listed :
        (at : Row) (scope : OwnershipScope) (result : DiffResult)
        → listed action k row (undeclared serde R kind ctx scope at result).diffs
          ≡ with_entry
              (listed action k row result.diffs)
              at
              (if may_delete scope at none then some delete else none)
    undeclared-listed at exclusive result = push-listed delete at [] result
    undeclared-listed at (shared managed) result =
        elim (Bool-cases (contains managed (state_key at.namespace kind at.id))) [
          | inl ours ↦ rw ours (push-listed delete at [] result)
          | inr theirs ↦ rw theirs (no_entry _ (at == row) (kind == k))
        ]

    undeclared_spec-listed :
        (at : Row) (spec : Option Text) (result : DiffResult)
        → listed action k row (undeclared_spec serde R kind ctx spec at result).diffs
          ≡ with_entry
              (listed action k row result.diffs)
              at
              (if may_delete ctx.ownership_scope at spec then some delete else none)
    undeclared_spec-listed at none result = undeclared-listed at ctx.ownership_scope result
    undeclared_spec-listed at (some api_spec_id) result =
        elim (Bool-cases (is_exclusive ctx.ownership_scope && ctx.options.prune_spec_owned)) [
          | inl prune ↦
              rw prune
                (push-listed delete at [] (push_spec_owned kind at api_spec_id false true result))
          | inr keep ↦ rw keep (no_entry _ (at == row) (kind == k))
        ]

    abbrev unless_declared : Bool → Option DiffAction → Option DiffAction
    unless_declared true a = none
    unless_declared false a = a

    live_row-listed :
        (at : Row) (actual : T) (declared : Bool) (result : DiffResult)
        → listed action k row (live_row serde R kind ctx at actual declared result).diffs
          ≡ with_entry
              (listed action k row result.diffs)
              at
              (unless_declared declared (expected at none (some actual)))
    unfolding live_row
    live_row-listed at actual true result = no_entry _ (at == row) (kind == k)
    live_row-listed at actual false result = undeclared_spec-listed at (R.api_spec_id actual) result

    desired_rows-listed :
        (m live : HashMap Row T) (result : DiffResult)
        → listed action k row (desired_rows serde R kind m live result).diffs ≡ (
            listed action k row result.diffs
            || any
                (λ entry.
                  entry.0 == row
                  && (kind == k
                      && is_action (expected row (some entry.1) (HashMap.lookup live row)) action))
                m)
    unfolding desired_rows any
    desired_rows-listed [] live result = or_false _
    desired_rows-listed ((at, desired) ∷ m) live result =
        rw
          (
            desired_rows-listed m live
                (desired_row serde R kind at desired (HashMap.lookup live at) result),
            desired_row-listed at desired (HashMap.lookup live at) result,
            same_at at row (λ r.
                kind == k && is_action (expected r (some desired) (HashMap.lookup live r)) action),
          )
          (rw or_assoc)

    live_rows-listed :
        (m desired : HashMap Row T) (result : DiffResult)
        → listed action k row (live_rows serde R kind ctx m desired result).diffs ≡ (
            listed action k row result.diffs
            || any
                (λ entry.
                  entry.0 == row
                  && (kind == k
                      && is_action
                          (unless_declared
                            (is_some (HashMap.lookup desired row))
                            (expected row none (some entry.1)))
                          action))
                m)
    unfolding live_rows any
    live_rows-listed [] desired result = or_false _
    live_rows-listed ((at, actual) ∷ m) desired result =
        rw
          (
            live_rows-listed m desired
                (live_row serde R kind ctx at actual (is_some (HashMap.lookup desired at)) result),
            live_row-listed at actual (is_some (HashMap.lookup desired at)) result,
            same_at at row (λ r.
                kind == k
                && is_action
                    (unless_declared (is_some (HashMap.lookup desired r))
                      (expected r none (some actual)))
                    action),
          )
          (rw or_assoc)

    either_side :
        (before : Bool) (desired live : Option T)
        → (before
            || holds (λ d. kind == k && is_action (expected row (some d) live) action) desired
            || holds
                (λ a.
                  kind == k
                  && is_action
                      (unless_declared (is_some desired) (expected row none (some a)))
                      action)
                live)
          ≡ (before || (kind == k && is_action (expected row desired live) action))
    either_side before none none = nothing before (kind == k)
    either_side before none (some a) = drop_false before _
    either_side before (some d) none = keep_first before _
    either_side before (some d) (some a) = keep_both before _ (kind == k)

    -- A collection lists an action for a row exactly if it was listed before, or the collection is of
    -- that kind and the row, as the two documents have it, calls for that action.
    pub diff_collection-listed :
        (desired actual : List T) (result : DiffResult)
        → listed action k row (diff_collection serde R kind ctx desired actual result).diffs ≡ (
            listed action k row result.diffs
            || (kind == k
                && is_action
                    (expected row
                      (HashMap.lookup (rows serde R kind desired) row)
                      (HashMap.lookup (rows serde R kind actual) row))
                    action))
    unfolding diff_collection
    diff_collection-listed desired actual result =
        let D = rows serde R kind desired in
        let L = rows serde R kind actual in
        live_rows-listed L D (desired_rows serde R kind D L result)
        ∙ rw
            (
              desired_rows-listed D L result,
              any-lookup D row
                  (λ d.
                    kind == k && is_action (expected row (some d) (HashMap.lookup L row)) action)
                  (rows-NodupKeys desired),
              any-lookup L row
                  (λ a.
                    kind == k
                    && is_action
                        (unless_declared (is_some (HashMap.lookup D row))
                          (expected row none (some a)))
                        action)
                  (rows-NodupKeys actual),
            )
            (either_side _ (HashMap.lookup D row) (HashMap.lookup L row))
