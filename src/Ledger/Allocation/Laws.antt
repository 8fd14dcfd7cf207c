-- ===== src/Ledger/Allocation/Laws.antt =====
-- state.rs: which allocations the ledger remembers, and that its shard count covers them.
use native.Mathlib.Omega.{arith}
use mathlib.Core.Path.{ap, sym, ◌∙◌}
use mathlib.Core.Option.{get_or}
use ferrum_edge_git_forge_op.Base.{
  ℕ, Text, List, [], ◌∷◌, ◌≡◌, refl, Bool, true, false, ◌&&◌, Option, none, some, text_key, text_eq,
  ◌==◌, leb, ltb, ◌||◌, if◌then◌else◌,
}
use ferrum_edge_git_forge_op.Base.Map
use ferrum_edge_git_forge_op.Base.Map.{Map, get-insert}
use ferrum_edge_git_forge_op.Slots.{AllocatedSlot, AllocateOutcome}
use ferrum_edge_git_forge_op.Ledger.{CredentialMetadata, StateFile}
use ferrum_edge_git_forge_op.Ledger.Allocation.{
  AllocationBinding, saturating_succ, max, credential_metadata, allocation_metadata, record_slot,
  record_slots, record_allocation,
}

-- The last allocation of a slot.
abbrev pub last_of : List AllocatedSlot → Text → Option AllocatedSlot
last_of [] key = none
last_of (slot ∷ slots) key = elim (last_of slots key) [
  | none ↦ if slot.slot == key then some slot else none
  | some later ↦ some later
]

-- The metadata after an allocation: the last committed slot's, or what was there.
abbrev pub remembered :
    (AllocatedSlot → CredentialMetadata)
    → Option AllocatedSlot
    → Option CredentialMetadata
    → Option CredentialMetadata
remembered f none before = before
remembered f (some a) before = some (f a)

-- A shard lies below a count, or is the largest 32-bit number, which the count has reached.
abbrev pub covers : ℕ → CredentialMetadata → Bool
covers count metadata =
    ltb metadata.shard count || (leb 4294967295 metadata.shard && leb 4294967295 count)

-- The count of a ledger's shards covers every credential of the ledger.
abbrev pub IsCovered : StateFile → Type 0
IsCovered state =
    (key : Text) (metadata : CredentialMetadata)
    → Map.get state.credentials key ≡ some metadata
    → covers state.credential_shard_count metadata ≡ true

module _ (now : Text) (run_id : Option Text) (binding : AllocationBinding) where
  abbrev metadata_of : AllocatedSlot → CredentialMetadata
  metadata_of = allocation_metadata now run_id binding

  record_slots-get :
      (slots : List AllocatedSlot) (state : StateFile) (key : Text)
      → Map.get (record_slots now run_id binding slots state).credentials key
        ≡ remembered metadata_of (last_of slots key) (Map.get state.credentials key)
  unfolding record_slots record_slot
  record_slots-get [] state key = refl
  record_slots-get (slot ∷ slots) state key = ground (
    arith,
    record_slots-get slots (record_slot now run_id binding slot state) key,
    get-insert state.credentials slot.slot key (metadata_of slot),
  )

  record_slots_frame :
      (slots : List AllocatedSlot) (state : StateFile)
      → record_slots now run_id binding slots state ≡ record state {
        credentials = (record_slots now run_id binding slots state).credentials;
        credential_shard_count =
            (record_slots now run_id binding slots state).credential_shard_count;
      }
  unfolding record_slots record_slot
  record_slots_frame [] state = refl
  record_slots_frame (slot ∷ slots) state =
      ground (arith, record_slots_frame slots (record_slot now run_id binding slot state))

  -- After an allocation is recorded, the ledger holds for a slot the metadata of its last committed
  -- allocation, and for any other slot what it held. Nothing but the credentials and the shard
  -- count changes.
  pub record_allocation_lem :
      (outcome : AllocateOutcome) (state : StateFile) (key : Text)
      → let after = record_allocation now run_id binding outcome state in
        (Map.get after.credentials key
          ≡ remembered metadata_of (last_of outcome.allocated key) (Map.get state.credentials key))
        × (after ≡ record state {
          credentials = after.credentials;
          credential_shard_count = after.credential_shard_count;
        })
  unfolding record_allocation
  record_allocation_lem outcome state key =
      (record_slots-get outcome.allocated state key, record_slots_frame outcome.allocated state)

  placed_covers :
      (same : Bool) (placed metadata : CredentialMetadata) (before : Option CredentialMetadata)
      (count : ℕ)
      → (before ≡ some metadata → covers count metadata ≡ true)
      → (if same then some placed else before) ≡ some metadata
      → covers (max count (saturating_succ placed.shard)) metadata ≡ true
  placed_covers true placed metadata before count covered found =
      ground (arith, ap (λ o. get_or o metadata) found)
  placed_covers false placed metadata before count covered found = ground (arith, covered found)

  record_slot-IsCovered :
      (slot : AllocatedSlot) (state : StateFile)
      → IsCovered state
      → IsCovered (record_slot now run_id binding slot state)
  unfolding record_slot allocation_metadata credential_metadata
  record_slot-IsCovered slot state covered key metadata found =
      placed_covers (slot.slot == key) (metadata_of slot) metadata (Map.get state.credentials key)
        state.credential_shard_count (covered key metadata)
        (sym (get-insert state.credentials slot.slot key (metadata_of slot)) ∙ found)

  record_slots-IsCovered :
      (slots : List AllocatedSlot) (state : StateFile)
      → IsCovered state
      → IsCovered (record_slots now run_id binding slots state)
  unfolding record_slots
  record_slots-IsCovered [] state covered = covered
  record_slots-IsCovered (slot ∷ rest) state covered =
      record_slots-IsCovered rest (record_slot now run_id binding slot state)
        (record_slot-IsCovered slot state covered)

  -- If every credential of a ledger lies in a shard below its shard count, then this holds after an
  -- allocation is recorded. The exception is the largest 32-bit number as a shard: the count
  -- saturates there.
  pub record_allocation-IsCovered :
      (outcome : AllocateOutcome) (state : StateFile)
      → IsCovered state
      → IsCovered (record_allocation now run_id binding outcome state)
  unfolding record_allocation
  record_allocation-IsCovered outcome = record_slots-IsCovered outcome.allocated
