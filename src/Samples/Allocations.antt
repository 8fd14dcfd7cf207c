-- ===== src/Samples/Allocations.antt =====
-- Allocations recorded in a concrete ledger.
use ferrum_edge_git_forge_op.Base.{
  ℕ, Bool, not, Option, length, ltb, Text, codes, [], ◌∷◌, ◌≡◌, refl, none, some, text_eq, ◌&&◌,
  text_key, arith,
}
use ferrum_edge_git_forge_op.Base.Map
use ferrum_edge_git_forge_op.Slots.{AllocatedSlot, AllocateOutcome, generate}
use ferrum_edge_git_forge_op.Ledger.Allocation.{
  AllocationBinding, record_allocation, allocation_metadata,
}
use ferrum_edge_git_forge_op.Ledger.Allocation.Laws.{
  last_of, remembered, IsCovered, record_allocation_lem, record_allocation-IsCovered,
}
use ferrum_edge_git_forge_op.Ledger.Allocation.Pending.{ConsumerCoverage, from_state}
use ferrum_edge_git_forge_op.Ledger.Allocation.Retry.{
  IsNodup, agree, is_newer, clean_of, from_state-record_allocation,
}
use ferrum_edge_git_forge_op.Samples.{ledger}

abbrev slot : Text
slot = codes "b/x/api_key"

abbrev outcome : AllocateOutcome
outcome = record {
  allocated =
      record { slot = slot; shard = 1; value = codes "v"; alloc = generate; delivered = none } ∷ [];
  shard_count = 2;
}

abbrev binding : AllocationBinding
binding = record { revision = some (codes "abc"); recipient = some (codes "ann") }

abbrev now : Text
now = codes "2026-01-01T00:00:00Z"

record_allocation_lem_example :
    let after = record_allocation now none binding outcome ledger in
    (Map.get after.credentials slot
      ≡ remembered
          (allocation_metadata now none binding)
          (last_of outcome.allocated slot)
          (Map.get ledger.credentials slot))
    × (after ≡ record ledger {
      credentials = after.credentials;
      credential_shard_count = after.credential_shard_count;
    })
record_allocation_lem_example = record_allocation_lem now none binding outcome ledger slot

ledger-IsCovered : IsCovered ledger
unfolding Map.get
ledger-IsCovered key metadata found = ground arith

record_allocation-IsCovered_example : IsCovered (record_allocation now none binding outcome ledger)
record_allocation-IsCovered_example =
    record_allocation-IsCovered now none binding outcome ledger ledger-IsCovered

abbrev allocated : AllocatedSlot
allocated = record { slot = slot; shard = 1; value = codes "v"; alloc = generate; delivered = none }

last_allocated : last_of outcome.allocated slot ≡ some allocated
unfolding text_eq
last_allocated = refl

-- A stamp is read as its length.
abbrev clock : Text → Option ℕ
clock at = some (length at)

abbrev later : ℕ → ℕ → Bool
later a b = ltb b a

abbrev other_binding : AllocationBinding
other_binding = record { revision = some (codes "def"); recipient = some (codes "ann") }

after-IsNodup : IsNodup (record_allocation now none binding outcome ledger).credentials
unfolding record_allocation Map.get Map.insert
after-IsNodup = (refl, tt)

from_state-record_allocation_example :
    let seen =
      from_state clock later
        (record_allocation now none binding outcome ledger)
        ConsumerCoverage.complete
        other_binding in
    let newer = is_newer later (clock now) (clean_of clock later ledger) in
    let same =
      agree other_binding.revision binding.revision
      && agree other_binding.recipient binding.recipient in
    (Map.contains_key seen.pending_allocations slot ≡ (newer && same))
    × (Map.contains_key seen.unbound_allocations slot ≡ (newer && not same))
from_state-record_allocation_example =
    from_state-record_allocation clock later now none binding other_binding
      ConsumerCoverage.complete outcome ledger allocated slot last_allocated after-IsNodup
