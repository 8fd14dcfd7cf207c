-- ===== src/Ledger/Journal.antt =====
-- state.rs: the write-ahead journal of creates, and the reconciliation of the ledger with a backup.
pub mod Laws
use ferrum_edge_git_forge_op.Base.{
  ℕ, ◌+◌, ◌-◌, Text, List, [], ◌∷◌, ◌++◌, Bool, true, false, not, ◌&&◌, ◌||◌, Option, none, some,
  contains, text_eq, text_key, if◌then◌else◌, Result, ok, err, length, ltb,
}
use ferrum_edge_git_forge_op.Base.Map
use ferrum_edge_git_forge_op.Base.Map.{Map, Keys}
use ferrum_edge_git_forge_op.StateKey.{state_key, state_key_namespace}
use ferrum_edge_git_forge_op.Config.{GatewayConfig}
use ferrum_edge_git_forge_op.Config.Identity.{ResourceKeys, from_config}
use ferrum_edge_git_forge_op.Change.{ResourceDiff, is_add}
use ferrum_edge_git_forge_op.Ledger.{StateFile}

pub data JournalError : Type 0 where
  absent_from_desired : Text → Text → Text → JournalError

-- The loop of `reserve_adds` over the diffs that are left. What was journalled before an error
-- stays journalled.
unfoldable pub reserve_each :
    List ResourceDiff → ResourceKeys → ℕ → StateFile → Result JournalError ℕ × StateFile
reserve_each [] desired reserved state = (ok reserved, state)
reserve_each (diff ∷ diffs) desired reserved state =
    let key = state_key diff.namespace diff.kind diff.id in
    let is_create = is_add diff.action in
    let managed = Map.contains_key state.resources key in
    let fresh = is_create && (not managed && not (Map.contains_key state.pending_creates key)) in
    let journalled = record state { pending_creates = Map.insert state.pending_creates key tt } in
    let rest =
      reserve_each diffs desired (if fresh then reserved + 1 else reserved)
        (if is_create && not managed then journalled else state) in
    if is_create && not (contains desired key)
    then (err (absent_from_desired diff.kind diff.id diff.namespace), state)
    else rest

unfoldable pub reserve_adds :
    List ResourceDiff → GatewayConfig → StateFile → Result JournalError ℕ × StateFile
unfolding reserve_each
reserve_adds diffs desired state = reserve_each diffs (from_config desired) 0 state

pub data PendingCreateScope : Type 0 where
  shared exclusive full_replace : PendingCreateScope

pub data Warning : Type 0 where
  unparseable_key : Text → Warning
  forgotten_as_unmanaged : Text → Warning
  left_to_the_prune : Text → Warning
  forgotten_before_replacement : Text → Text → Warning

pub record PendingCreateReconciliation : Type 0 where
  pub forgotten : ℕ
  pub warnings : List Warning

unfoldable pub changed : PendingCreateReconciliation → Bool
changed report = ltb 0 report.forgotten

abbrev is_full_replace : PendingCreateScope → Bool
is_full_replace shared = false
is_full_replace exclusive = false
is_full_replace full_replace = true

abbrev orphan_warning : PendingCreateScope → Text → Text → Warning
orphan_warning shared key namespace = forgotten_as_unmanaged key
orphan_warning exclusive key namespace = left_to_the_prune key
orphan_warning full_replace key namespace = forgotten_before_replacement key namespace

-- The ledger and the report, between two keys of the loop.
abbrev pub Progress : Type 0
Progress = StateFile × PendingCreateReconciliation

abbrev drop_key : Text → List Warning → Progress → Progress
drop_key key warnings (state, report) = (
  record state { pending_creates = Map.remove state.pending_creates key },
  record { forgotten = report.forgotten + 1; warnings = report.warnings ++ warnings },
)

abbrev settle : PendingCreateScope → Text → Text → Bool → Bool → Progress → Progress
settle scope key namespace true live p = p
settle scope key namespace false false p = drop_key key [] p
settle scope key namespace false true p = drop_key key (orphan_warning scope key namespace ∷ []) p

-- The backup's set of keys is built once for each namespace in the source, and for each key here.
abbrev reconcile_in :
    ResourceKeys → PendingCreateScope → Text → Text → Option GatewayConfig → Progress → Progress
reconcile_in desired scope key namespace none p = p
reconcile_in desired scope key namespace (some actual) p =
    if is_full_replace scope
    then drop_key key [] p
    else settle scope key namespace (contains desired key) (contains (from_config actual) key) p

abbrev reconcile_parsed :
    ResourceKeys
    → Map Text GatewayConfig
    → PendingCreateScope
    → Text
    → Option Text
    → Progress
    → Progress
reconcile_parsed desired actuals scope key none p = drop_key key (unparseable_key key ∷ []) p
reconcile_parsed desired actuals scope key (some namespace) p =
    reconcile_in desired scope key namespace (Map.get actuals namespace) p

unfoldable pub reconcile_key :
    ResourceKeys → Map Text GatewayConfig → PendingCreateScope → Text → Progress → Progress
reconcile_key desired actuals scope key p =
    if Map.contains_key p.0.resources key
    then drop_key key [] p
    else reconcile_parsed desired actuals scope key (state_key_namespace key) p

unfoldable pub reconcile_keys :
    ResourceKeys → Map Text GatewayConfig → PendingCreateScope → List Text → Progress → Progress
reconcile_keys desired actuals scope [] p = p
reconcile_keys desired actuals scope (key ∷ keys) p =
    reconcile_keys desired actuals scope keys (reconcile_key desired actuals scope key p)

unfoldable pub reconcile_pending_creates :
    GatewayConfig → Map Text GatewayConfig → PendingCreateScope → StateFile → Progress
unfolding reconcile_key reconcile_keys
reconcile_pending_creates desired actuals scope state =
    reconcile_keys (from_config desired) actuals scope (Map.keys state.pending_creates)
      (state, record { forgotten = 0; warnings = [] })

abbrev retained_in : ResourceKeys → Text → Option GatewayConfig → Bool
retained_in desired key none = true
retained_in desired key (some actual) = contains desired key || contains (from_config actual) key

unfoldable pub retained : ResourceKeys → Map Text GatewayConfig → Text → Bool
retained desired actuals key = elim (state_key_namespace key) [
  | none ↦ true
  | some namespace ↦ retained_in desired key (Map.get actuals namespace)
]

-- `saturating_sub` is the subtraction of ℕ.
unfoldable pub reconcile_absent_managed_resources :
    GatewayConfig → Map Text GatewayConfig → StateFile → StateFile × ℕ
unfolding retained
reconcile_absent_managed_resources desired actuals state =
    let kept = Map.retain (retained (from_config desired) actuals) state.resources in
    (record state { resources = kept }, length state.resources - length kept)
