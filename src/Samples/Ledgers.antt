-- ===== src/Samples/Ledgers.antt =====
-- Ledger operations at concrete ledgers.
use ferrum_edge_git_forge_op.Base.{
  Text, codes, List, [], ◌∷◌, ◌≡◌, refl, true, false, none, some, text_eq, text_key, ◌==◌, contains,
  if◌then◌else◌, not, ◌&&◌, ◌||◌,
}
use ferrum_edge_git_forge_op.Base.Map
use ferrum_edge_git_forge_op.Base.Map.{Map}
use ferrum_edge_git_forge_op.StateKey.{
  state_key, state_key_namespace, proxy, consumer, is_state_key_kind, encode_state_key_component,
  decode_state_key_component,
}
use ferrum_edge_git_forge_op.Config.{GatewayConfig}
use ferrum_edge_git_forge_op.Config.Identity.{
  Identity, identity_eq, key_of, identities, from_config,
}
use ferrum_edge_git_forge_op.Change.{add, delete, AppliedOp, ResourceDiff}
use ferrum_edge_git_forge_op.Ledger.Disjoint.{
  Steps, more, done, reserve, applied, IsDisjoint, Steps-IsDisjoint,
}
use ferrum_edge_git_forge_op.Ledger.{
  default_state, StateFile, record_op, record_config, record_full_replace,
}
use ferrum_edge_git_forge_op.Ledger.Ownership.{
  IsNamed, op_key, managed_after, pending_after, record_op_lem,
}
use ferrum_edge_git_forge_op.Ledger.Replacement.{
  declares, stays, record_config-keys, record_config_lem, record_full_replace-record_config,
}
use ferrum_edge_git_forge_op.Ledger.Journal.{
  reserve_adds, shared, reconcile_pending_creates, reconcile_absent_managed_resources,
}
use ferrum_edge_git_forge_op.Ledger.Journal.Laws.{
  declares_adds, adds, is_ok, keeps, absent_everywhere, reserve_adds_frame, reserve_adds-journal,
  reconcile_pending_creates_lem, reconcile_absent_lem,
}
use ferrum_edge_git_forge_op.Samples.{ns, key_gone, key_c, repository, gateway, ledger}

abbrev deleted : AppliedOp
deleted = record { kind = proxy; namespace = ns; id = codes "gone"; action = delete }

record_op_lem_example :
    (Map.contains_key (record_op deleted (from_config repository) ledger).resources key_gone ≡ (
      if op_key deleted == key_gone
      then managed_after delete
          (contains (from_config repository) key_gone)
          (Map.contains_key ledger.resources key_gone)
      else Map.contains_key ledger.resources key_gone))
    × (Map.contains_key (record_op deleted (from_config repository) ledger).pending_creates key_gone
        ≡ (if op_key deleted == key_gone
            then pending_after delete
                (contains (from_config repository) key_gone)
                (Map.contains_key ledger.pending_creates key_gone)
            else Map.contains_key ledger.pending_creates key_gone))
record_op_lem_example = record_op_lem deleted (from_config repository) ledger key_gone

abbrev proxy_p : Identity
proxy_p = record { namespace = ns; kind = proxy; id = codes "p" }

proxy_p-IsNamed : IsNamed proxy_p
unfolding is_state_key_kind text_eq
proxy_p-IsNamed = record { kind = refl; namespace = refl; id = refl }

record_config_lem_example :
    (Map.contains_key
        (record_config repository (ns ∷ []) (codes "now") none ledger).resources
        (key_of proxy_p)
      ≡ (if contains (ns ∷ []) ns
          then contains (identities repository) proxy_p
          else Map.contains_key ledger.resources (key_of proxy_p)))
    × (Map.contains_key
          (record_config repository (ns ∷ []) (codes "now") none ledger).pending_creates
          (key_of proxy_p)
        ≡ (if contains (ns ∷ []) ns
            then false
            else Map.contains_key ledger.pending_creates (key_of proxy_p)))
record_config_lem_example =
    record_config_lem repository (ns ∷ []) (codes "now") none ledger proxy_p proxy_p-IsNamed

-- An entry whose key names no namespace is dropped although no namespace is applied.
abbrev malformed : StateFile
malformed = record ledger { resources = (codes "x", codes "managed:v1") ∷ [] }

dropped : stays [] (state_key_namespace (codes "x")) ≡ false
unfolding state_key_namespace
dropped = refl

record_config-keys_example :
    (Map.contains_key
        (record_config repository [] (codes "now") none malformed).resources
        (codes "x")
      ≡ (declares [] (identities repository) (codes "x")
          || (stays [] (state_key_namespace (codes "x"))
              && Map.contains_key malformed.resources (codes "x"))))
    × (Map.contains_key
          (record_config repository [] (codes "now") none malformed).pending_creates
          (codes "x")
        ≡ (stays [] (state_key_namespace (codes "x"))
            && Map.contains_key malformed.pending_creates (codes "x")))
record_config-keys_example =
    record_config-keys repository [] (codes "now") none malformed (codes "x")

record_full_replace_example :
    ((record_full_replace ns repository ledger).resources
      ≡ (record_config repository (ns ∷ []) (codes "now") none ledger).resources)
    × ((record_full_replace ns repository ledger).pending_creates
        ≡ (record_config repository (ns ∷ []) (codes "now") none ledger).pending_creates)
record_full_replace_example =
    record_full_replace-record_config repository ns (codes "now") none ledger

abbrev additions : List ResourceDiff
additions =
    record { action = add; kind = consumer; id = codes "c"; namespace = ns; details = [] } ∷ []

reserve_adds_frame_example :
    ((reserve_adds additions repository ledger).1 ≡ record ledger {
      pending_creates = (reserve_adds additions repository ledger).1.pending_creates;
    })
    × (is_ok (reserve_adds additions repository ledger).0
        ≡ declares_adds additions (from_config repository))
reserve_adds_frame_example = reserve_adds_frame additions repository ledger

additions_declared : declares_adds additions (from_config repository) ≡ true
unfolding from_config state_key encode_state_key_component text_eq
additions_declared = refl

reserve_adds-journal_example :
    Map.contains_key (reserve_adds additions repository ledger).1.pending_creates key_c ≡ (
      Map.contains_key ledger.pending_creates key_c
      || (adds additions key_c && not (Map.contains_key ledger.resources key_c)))
reserve_adds-journal_example =
    reserve_adds-journal additions repository ledger key_c additions_declared

abbrev backup : Map Text GatewayConfig
backup = (ns, gateway) ∷ []

reconcile_pending_creates_example :
    let after = (reconcile_pending_creates repository backup shared ledger).0 in
    (after ≡ record ledger { pending_creates = after.pending_creates })
    × (Map.contains_key after.pending_creates key_c ≡ (
        Map.contains_key ledger.pending_creates key_c
        && keeps (from_config repository) backup shared ledger.resources key_c))
reconcile_pending_creates_example =
    reconcile_pending_creates_lem repository backup shared ledger key_c

key_gone-namespace : state_key_namespace key_gone ≡ some ns
unfolding state_key_namespace decode_state_key_component text_eq
key_gone-namespace = refl

reconcile_absent_example :
    let after = (reconcile_absent_managed_resources repository backup ledger).0 in
    (after ≡ record ledger { resources = after.resources })
    × (Map.contains_key after.resources key_gone ≡ (
        Map.contains_key ledger.resources key_gone
        && not (absent_everywhere (from_config repository) (Map.get backup ns) key_gone)))
reconcile_absent_example =
    reconcile_absent_lem repository backup ledger key_gone ns key_gone-namespace

abbrev reserved : StateFile
reserved = (reserve_adds additions repository default_state).1

abbrev added : AppliedOp
added = record { kind = consumer; namespace = ns; id = codes "c"; action = add }

abbrev run : Steps default_state (record_op added (from_config repository) reserved)
run =
    more (reserve additions repository default_state additions_declared)
      (more (applied added (from_config repository) reserved) (done _))

default-IsDisjoint : IsDisjoint default_state
unfolding Map.contains_key Map.get
default-IsDisjoint key = refl

Steps-IsDisjoint_example : IsDisjoint (record_op added (from_config repository) reserved)
Steps-IsDisjoint_example = Steps-IsDisjoint run default-IsDisjoint
