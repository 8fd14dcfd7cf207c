-- ===== src/Ledger/Journal/Laws.antt =====
-- The journal of creates grants no ownership, and its reconciliation forgets exactly the entries
-- that the ledger, the backup and the repository leave nothing to do for.
use ferrum_edge_git_forge_op.Base.{
  ℕ, Text, List, [], ◌∷◌, ◌≡◌, refl, ap, ◌∙◌, Bool, true, false, not, ◌&&◌, ◌||◌, Option, none,
  some, contains, text_eq, text_key, ◌==◌, Result, ok, err, arith, Bool-cases, inl, inr, ne→eq,
}
use ferrum_edge_git_forge_op.Base.Map
use ferrum_edge_git_forge_op.Base.Map.{Map, Keys}
use ferrum_edge_git_forge_op.StateKey.{state_key, state_key_namespace}
use ferrum_edge_git_forge_op.Config.{GatewayConfig}
use ferrum_edge_git_forge_op.Config.Identity.{ResourceKeys, from_config}
use ferrum_edge_git_forge_op.Change.{ResourceDiff, is_add}
use ferrum_edge_git_forge_op.Ledger.{StateFile}
use ferrum_edge_git_forge_op.Ledger.Journal.{
  reserve_each, reserve_adds, PendingCreateScope, Progress, is_full_replace, reconcile_key,
  reconcile_keys, reconcile_pending_creates, retained, reconcile_absent_managed_resources,
}

abbrev pub diff_key : ResourceDiff → Text
diff_key diff = state_key diff.namespace diff.kind diff.id

-- Whether the document declares every resource that the diff adds.
abbrev pub declares_adds : List ResourceDiff → ResourceKeys → Bool
declares_adds [] desired = true
declares_adds (diff ∷ diffs) desired =
    not (is_add diff.action && not (contains desired (diff_key diff)))
    && declares_adds diffs desired

-- Whether the diff adds the resource of a key.
abbrev pub adds : List ResourceDiff → Text → Bool
adds [] key = false
adds (diff ∷ diffs) key = (is_add diff.action && diff_key diff == key) || adds diffs key

abbrev pub is_ok {ℓ κ} : {E : Type ℓ} {A : Type κ} → Result E A → Bool
is_ok (ok a) = true
is_ok (err e) = false

module _ (desired : ResourceKeys) where
  reserve_each-is_ok :
      (diffs : List ResourceDiff) (n : ℕ) (state : StateFile)
      → is_ok (reserve_each diffs desired n state).0 ≡ declares_adds diffs desired
  unfolding reserve_each
  reserve_each-is_ok [] n state = refl
  reserve_each-is_ok (diff ∷ diffs) n state =
      elim (Bool-cases (is_add diff.action && not (contains desired (diff_key diff)))) [
        | inl absent ↦ rw absent
        | inr fine ↦ rw fine (reserve_each-is_ok diffs _ _)
      ]

  reserve_each_frame :
      (diffs : List ResourceDiff) (n : ℕ) (state : StateFile)
      → let after = (reserve_each diffs desired n state).1 in
        after ≡ record state { pending_creates = after.pending_creates }
  unfolding reserve_each
  reserve_each_frame [] n state = refl
  reserve_each_frame (diff ∷ diffs) n state =
      elim (Bool-cases (is_add diff.action && not (contains desired (diff_key diff)))) [
        | inl absent ↦ rw absent
        | inr fine ↦
            elim (Bool-cases
              (is_add diff.action && not (Map.contains_key state.resources (diff_key diff)))) [
                | inl create ↦ rw (fine, create) (reserve_each_frame diffs _ _)
                | inr other ↦ rw (fine, other) (reserve_each_frame diffs _ _)
              ]
      ]

  reserve_each_journal :
      (diffs : List ResourceDiff) (n : ℕ) (state : StateFile) (key : Text)
      → declares_adds diffs desired ≡ true
      → Map.contains_key (reserve_each diffs desired n state).1.pending_creates key ≡ (
          Map.contains_key state.pending_creates key
          || (adds diffs key && not (Map.contains_key state.resources key)))
  unfolding reserve_each
  reserve_each_journal [] n state key h = ground arith
  reserve_each_journal (diff ∷ diffs) n state key h =
      elim (Bool-cases (is_add diff.action && not (contains desired (diff_key diff)))) [
        | inl absent ↦ ground (arith)
        | inr fine ↦
            elim (Bool-cases
              (is_add diff.action && not (Map.contains_key state.resources (diff_key diff)))) [
                | inl create ↦
                    rw
                      (
                        fine,
                        create,
                        reserve_each_journal diffs _ _ key (ground arith),
                        Map.contains_key-insert,
                      )
                      (ground arith)
                | inr other ↦
                    rw (fine, other, reserve_each_journal diffs _ _ key (ground arith))
                      (ground arith)
              ]
      ]

same_key : (key j : Text) (p : Text → Bool) → (not (key == j) || p key) ≡ (not (key == j) || p j)
same_key key j p = elim (text_eq.dec key j) [
  | yes same ↦ ap (λ (k : Text). not (key == j) || p k) same
  | no differ ↦ rw (ne→eq key j differ)
]

once_more : (b e c q : Bool) → ((b && (not e || q)) && (not c || q)) ≡ (b && (not (e || c) || q))
once_more b e c q = ground arith

module _ (desired : ResourceKeys) (actuals : Map Text GatewayConfig)
    (scope : PendingCreateScope) where
  abbrev pub keeps_in : Text → Option GatewayConfig → Bool
  keeps_in key none = true
  keeps_in key (some actual) = not (is_full_replace scope) && contains desired key

  abbrev pub keeps_parsed : Text → Option Text → Bool
  keeps_parsed key none = false
  keeps_parsed key (some namespace) = keeps_in key (Map.get actuals namespace)

  -- Whether the journal keeps an entry: it is not managed yet, its key parses, and its namespace is
  -- out of the backup, or else the document declares it and is not restored as a whole.
  abbrev pub keeps : Map Text Text → Text → Bool
  keeps resources key =
      not (Map.contains_key resources key) && keeps_parsed key (state_key_namespace key)

  reconcile_key-pending :
      (key j : Text) (p : Progress)
      → Map.contains_key (reconcile_key desired actuals scope key p).0.pending_creates j
        ≡ (Map.contains_key p.0.pending_creates j && (not (key == j) || keeps p.0.resources key))
  unfolding reconcile_key
  reconcile_key-pending key j (state, report) =
      elim (Bool-cases (Map.contains_key state.resources key)) [
        | inl managed ↦ rw (managed, Map.contains_key-remove) (ground arith)
        | inr fresh ↦ rw fresh (ground (arith, Map.contains_key-remove state.pending_creates key j))
      ]

  reconcile_key_frame :
      (key : Text) (p : Progress)
      → let after = (reconcile_key desired actuals scope key p).0 in
        after ≡ record (p.0) { pending_creates = after.pending_creates }
  unfolding reconcile_key
  reconcile_key_frame key (state, report) = ground arith

  reconcile_keys-pending :
      (keys : List Text) (j : Text) (p : Progress)
      → Map.contains_key (reconcile_keys desired actuals scope keys p).0.pending_creates j ≡ (
          Map.contains_key p.0.pending_creates j
          && (not (contains keys j) || keeps p.0.resources j))
  unfolding reconcile_keys
  reconcile_keys-pending [] j (state, report) = ground arith
  reconcile_keys-pending (key ∷ keys) j (state, report) =
      rw
        (
          reconcile_keys-pending keys j _,
          reconcile_key-pending key j (state, report),
          ap (λ (s : StateFile). s.resources) (reconcile_key_frame key (state, report)),
          same_key key j (keeps state.resources),
        )
        (once_more (Map.contains_key state.pending_creates j) (key == j) (contains keys j)
          (keeps state.resources j))

  reconcile_keys_frame :
      (keys : List Text) (p : Progress)
      → let after = (reconcile_keys desired actuals scope keys p).0 in
        after ≡ record (p.0) { pending_creates = after.pending_creates }
  unfolding reconcile_keys
  reconcile_keys_frame [] (state, report) = refl
  reconcile_keys_frame (key ∷ keys) (state, report) =
      let after = (reconcile_keys desired actuals scope (key ∷ keys) (state, report)).0 in
      reconcile_keys_frame keys (reconcile_key desired actuals scope key (state, report))
      ∙ ap (λ (s : StateFile). record s { pending_creates = after.pending_creates })
          (reconcile_key_frame key (state, report))

-- A successful or failed reservation changes nothing in the ledger but the journal: it grants no
-- ownership. It succeeds exactly if the document declares every resource that the diff adds.
pub reserve_adds_frame :
    (diffs : List ResourceDiff) (desired : GatewayConfig) (state : StateFile)
    → let (result, after) = reserve_adds diffs desired state in
      (after ≡ record state { pending_creates = after.pending_creates })
      × (is_ok result ≡ declares_adds diffs (from_config desired))
unfolding reserve_adds
reserve_adds_frame diffs desired state = (
  reserve_each_frame (from_config desired) diffs 0 state,
  reserve_each-is_ok (from_config desired) diffs 0 state,
)

-- After a successful reservation the journal holds its former keys and those of the added resources
-- that the ledger does not manage.
pub reserve_adds-journal :
    (diffs : List ResourceDiff) (desired : GatewayConfig) (state : StateFile) (key : Text)
    → declares_adds diffs (from_config desired) ≡ true
    → Map.contains_key (reserve_adds diffs desired state).1.pending_creates key ≡ (
        Map.contains_key state.pending_creates key
        || (adds diffs key && not (Map.contains_key state.resources key)))
unfolding reserve_adds
reserve_adds-journal diffs desired state key =
    reserve_each_journal (from_config desired) diffs 0 state key

-- Reconciling the journal changes nothing else in the ledger, and the journal keeps exactly the
-- entries that are not managed, whose key parses, and whose namespace is out of the backup or, when
-- it is not restored as a whole, whose resource the document declares.
pub reconcile_pending_creates_lem :
    (desired : GatewayConfig) (actuals : Map Text GatewayConfig) (scope : PendingCreateScope)
    (state : StateFile) (key : Text)
    → let after = (reconcile_pending_creates desired actuals scope state).0 in
      (after ≡ record state { pending_creates = after.pending_creates })
      × (Map.contains_key after.pending_creates key ≡ (
          Map.contains_key state.pending_creates key
          && keeps (from_config desired) actuals scope state.resources key))
unfolding reconcile_pending_creates
reconcile_pending_creates_lem desired actuals scope state key = (
  reconcile_keys_frame (from_config desired) actuals scope (Map.keys state.pending_creates) _,
  rw
      (
        reconcile_keys-pending (from_config desired) actuals scope (Map.keys state.pending_creates)
            key,
        Map.contains-keys state.pending_creates key,
      )
      (ground arith),
)

abbrev pub absent_everywhere : ResourceKeys → Option GatewayConfig → Text → Bool
absent_everywhere desired none key = false
absent_everywhere desired (some actual) key =
    not (contains desired key) && not (contains (from_config actual) key)

-- Collecting absent entries changes nothing in the ledger but its managed keys. A key leaves exactly
-- if its namespace is in the backup and neither the document nor the backup declares it.
pub reconcile_absent_lem :
    (desired : GatewayConfig) (actuals : Map Text GatewayConfig) (state : StateFile) (key : Text)
    (namespace : Text)
    → state_key_namespace key ≡ some namespace
    → let after = (reconcile_absent_managed_resources desired actuals state).0 in
      (after ≡ record state { resources = after.resources })
      × (Map.contains_key after.resources key ≡ (
          Map.contains_key state.resources key
          && not (absent_everywhere (from_config desired) (Map.get actuals namespace) key)))
unfolding reconcile_absent_managed_resources
reconcile_absent_lem desired actuals state key namespace parsed =
    (refl, rw (Map.contains_key-retain, parsed, retained) (ground arith))
