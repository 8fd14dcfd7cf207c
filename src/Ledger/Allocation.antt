-- ===== src/Ledger/Allocation.antt =====
-- state.rs: the ledger's credential metadata, and the apply that a recorded allocation belongs to.
pub mod Laws
pub mod Pending
pub mod Retry
use ferrum_edge_git_forge_op.Base.{
  ℕ, ◌+◌, Text, codes, List, [], ◌∷◌, Bool, true, false, not, ◌&&◌, Option, none, some, text_key,
  text_eq, ◌==◌, leb, ltb, is_empty, if◌then◌else◌, Result, ok, err,
}
use ferrum_edge_git_forge_op.Base.Map
use ferrum_edge_git_forge_op.Base.Map.{Map}
use ferrum_edge_git_forge_op.Slots.{AllocatedSlot, AllocateOutcome, DeliveryResult}
use ferrum_edge_git_forge_op.Ledger.{CredentialMetadata, StateFile}

pub record AllocationBinding : Type 0 where
  pub revision : Option Text
  pub recipient : Option Text

-- `u32::MAX`.
abbrev pub u32_max : ℕ
u32_max = 4294967295

abbrev pub saturating_succ : ℕ → ℕ
saturating_succ n = if ltb n u32_max then n + 1 else u32_max

abbrev pub max : ℕ → ℕ → ℕ
max a b = if leb a b then b else a

abbrev login_of : Option DeliveryResult → Option Text
login_of none = none
login_of (some d) = some d.login

unfoldable pub credential_metadata :
    Text → Text → ℕ → Option Text → Option Text → CredentialMetadata
credential_metadata now slot shard delivered_to delivered_run_id = record {
  slot = slot;
  shard = shard;
  last_rotated = now;
  delivered_to = delivered_to;
  delivered_run_id = delivered_run_id;
  allocation_commit = none;
  allocation_recipient = none;
}

unfoldable pub record_credential :
    Text → Text → ℕ → Option Text → Option Text → StateFile → StateFile
unfolding credential_metadata
record_credential now slot shard delivered_to delivered_run_id state = record state {
  credentials =
      Map.insert state.credentials slot
        (credential_metadata now slot shard delivered_to delivered_run_id);
}

module _ (now : Text) (delivered_run_id : Option Text) (binding : AllocationBinding) where
  unfoldable pub allocation_metadata : AllocatedSlot → CredentialMetadata
  unfolding credential_metadata
  allocation_metadata slot =
      record (credential_metadata now slot.slot slot.shard (login_of slot.delivered)
        delivered_run_id) {
          allocation_commit = binding.revision;
          allocation_recipient = binding.recipient;
        }

  unfoldable pub record_slot : AllocatedSlot → StateFile → StateFile
  unfolding allocation_metadata
  record_slot slot state = record state {
    credentials = Map.insert state.credentials slot.slot (allocation_metadata slot);
    credential_shard_count = max state.credential_shard_count (saturating_succ slot.shard);
  }

  unfoldable pub record_slots : List AllocatedSlot → StateFile → StateFile
  unfolding record_slot
  record_slots [] state = state
  record_slots (slot ∷ slots) state = record_slots slots (record_slot slot state)

  unfoldable pub record_allocation : AllocateOutcome → StateFile → StateFile
  unfolding record_slots
  record_allocation outcome state = record_slots outcome.allocated state

-- `recorded` of a binding.
unfoldable pub recorded : AllocationBinding → CredentialMetadata → Bool
unfolding text_eq
recorded binding metadata =
    both binding.revision binding.recipient metadata.allocation_commit metadata.allocation_recipient
  where
    both : Option Text → Option Text → Option Text → Option Text → Bool
    both (some revision) (some recipient) (some commit) (some login) =
        revision == commit && recipient == login
    both _ _ _ _ = false
