-- ===== src/Ledger/Allocation/Pending.antt =====
-- secrets/resolver.rs: what the ledger says about consumers. A recorded allocation counts as pending
-- for the apply that recorded it, until a clean apply. The parsing of timestamps (chrono) and their
-- order are parameters.
use ferrum_edge_git_forge_op.Base.{
  Text, List, [], ◌∷◌, ◌++◌, Bool, true, false, Option, none, some, text_key,
}
use ferrum_edge_git_forge_op.Base.Map
use ferrum_edge_git_forge_op.Base.Map.{Map, Keys}
use ferrum_edge_git_forge_op.Ledger.{CredentialMetadata, StateFile}
use ferrum_edge_git_forge_op.Ledger.Allocation.{AllocationBinding, recorded}

pub data ConsumerCoverage : Type 0 where
  partial complete : ConsumerCoverage
  namespace : Text → ConsumerCoverage

pub record ConsumerLedger : Type 0 where
  pub managed : Keys Text
  pub pending_allocations : Keys Text
  pub unbound_allocations : Keys Text
  pub coverage : ConsumerCoverage

unfoldable pub insert_keys : List Text → Keys Text → Keys Text
insert_keys [] found = found
insert_keys (key ∷ keys) found = insert_keys keys (Map.insert found key tt)

-- The branch of one slot: since the last clean apply, and recorded by this apply.
abbrev pub note_allocation : Bool → Bool → Text → ConsumerLedger → ConsumerLedger
note_allocation false _ slot ledger = ledger
note_allocation true true slot ledger = record ledger {
  pending_allocations = Map.insert ledger.pending_allocations slot tt;
}
note_allocation true false slot ledger = record ledger {
  unbound_allocations = Map.insert ledger.unbound_allocations slot tt;
}

unfoldable pub no_allocations : StateFile → ConsumerCoverage → ConsumerLedger
unfolding insert_keys
no_allocations state coverage = record {
  managed = insert_keys (Map.keys state.resources ++ Map.keys state.pending_creates) [];
  pending_allocations = [];
  unbound_allocations = [];
  coverage = coverage;
}

module _ {Time : Type 0} (parse : Text → Option Time) (is_after : Time → Time → Bool) where
  abbrev parse_stamp : Option Text → Option Time
  parse_stamp none = none
  parse_stamp (some at) = parse at

  unfoldable pub since_clean_apply : Option Time → Option Time → Bool
  since_clean_apply none _ = true
  since_clean_apply (some clean) (some allocated) = is_after allocated clean
  since_clean_apply (some clean) none = false

  -- The loop over the credentials.
  unfoldable pub note_allocations :
      Option Time
      → AllocationBinding
      → Map Text CredentialMetadata
      → ConsumerLedger
      → ConsumerLedger
  unfolding since_clean_apply recorded
  note_allocations clean binding [] ledger = ledger
  note_allocations clean binding ((slot, metadata) ∷ credentials) ledger =
      note_allocations clean binding credentials (
        note_allocation (since_clean_apply clean (parse metadata.last_rotated))
          (recorded binding metadata) slot ledger)

  unfoldable pub from_state : StateFile → ConsumerCoverage → AllocationBinding → ConsumerLedger
  unfolding note_allocations no_allocations
  from_state state coverage binding =
      note_allocations (parse_stamp state.last_applied_at) binding state.credentials
        (no_allocations state coverage)
