-- ===== src/Ledger/Allocation/Retry.antt =====
-- state.rs and secrets/resolver.rs: a later apply recognizes the allocations that it recorded.
use ferrum_edge_git_forge_op.Base.{
  Text, [], ◌∷◌, ◌≡◌, refl, ap, sym, ◌∙◌, Bool, true, false, not, ◌&&◌, ◌||◌, Option, none, some,
  text_key, text_eq, ◌==◌, eq→path, arith, Bool-cases, inl, inr,
}
use ferrum_edge_git_forge_op.Base.HashMap.{any, holds}
use ferrum_edge_git_forge_op.Base.Map
use ferrum_edge_git_forge_op.Base.Map.{Map, get}
use ferrum_edge_git_forge_op.Slots.{AllocatedSlot, AllocateOutcome}
use ferrum_edge_git_forge_op.Ledger.{CredentialMetadata, StateFile}
use ferrum_edge_git_forge_op.Ledger.Allocation.{
  AllocationBinding, credential_metadata, allocation_metadata, record_allocation, recorded,
}
use ferrum_edge_git_forge_op.Ledger.Allocation.Laws.{last_of, remembered, record_allocation_lem}
use ferrum_edge_git_forge_op.Ledger.Allocation.Pending.{
  ConsumerCoverage, ConsumerLedger, note_allocation, since_clean_apply, note_allocations,
  from_state, no_allocations,
}

-- No slot stands twice.
abbrev pub IsNodup : Map Text CredentialMetadata → Type 0
IsNodup [] = Unit
IsNodup ((key, _) ∷ m) = (get m key ≡ none) × IsNodup m

-- Both values are present and equal.
unfoldable pub agree : Option Text → Option Text → Bool
unfolding text_eq
agree (some a) (some b) = a == b
agree _ _ = false

-- Whether an allocation is newer than the last clean apply. Without a clean apply it counts as
-- newer, and without its own time it does not.
unfoldable pub is_newer : {Time : Type 0} → (Time → Time → Bool) → Option Time → Option Time → Bool
is_newer is_after allocated none = true
is_newer is_after (some allocated) (some clean) = is_after allocated clean
is_newer is_after none (some clean) = false

any-get :
    (p : CredentialMetadata → Bool) (m : Map Text CredentialMetadata) (key : Text)
    → IsNodup m
    → any (λ e. e.0 == key && p e.1) m ≡ holds p (get m key)
unfolding any get
any-get p [] key nodup = refl
any-get p ((k, v) ∷ m) key (absent, nodup) = elim (Bool-cases (k == key)) [
  | inl same ↦
      let gone : get m key ≡ none = sym (ap (get m) (eq→path k key same)) ∙ absent in
      rw (same, any-get p m key nodup, gone) (ground arith)
  | inr differ ↦ rw (differ) (any-get p m key nodup)
]

recorded-allocation_metadata :
    (now : Text) (run_id : Option Text) (slot : AllocatedSlot)
    (revision recipient commit login : Option Text)
    → recorded
        (record { revision = revision; recipient = recipient })
        (allocation_metadata now run_id (record { revision = commit; recipient = login }) slot)
      ≡ (agree revision commit && agree recipient login)
unfolding recorded allocation_metadata agree
recorded-allocation_metadata now run_id slot none p c l = refl
recorded-allocation_metadata now run_id slot (some r) none c l = ground arith
recorded-allocation_metadata now run_id slot (some r) (some p) none l = refl
recorded-allocation_metadata now run_id slot (some r) (some p) (some c) none = ground arith
recorded-allocation_metadata now run_id slot (some r) (some p) (some c) (some l) = refl

note_allocation-keys :
    (since bound : Bool) (slot : Text) (ledger : ConsumerLedger) (key : Text)
    → let after = note_allocation since bound slot ledger in
      (Map.contains_key after.pending_allocations key
        ≡ (slot == key && (since && bound) || Map.contains_key ledger.pending_allocations key))
      × (Map.contains_key after.unbound_allocations key ≡ (
          slot == key && (since && not bound) || Map.contains_key ledger.unbound_allocations key))
note_allocation-keys false bound slot ledger key = (ground arith, ground arith)
note_allocation-keys true true slot ledger key =
    (ground (arith, Map.contains_key-insert ledger.pending_allocations slot key tt), ground arith)
note_allocation-keys true false slot ledger key =
    (ground arith, ground (arith, Map.contains_key-insert ledger.unbound_allocations slot key tt))

module _ {Time : Type 0} (parse : Text → Option Time) (is_after : Time → Time → Bool) where
  abbrev since : Option Time → CredentialMetadata → Bool
  since clean metadata = since_clean_apply parse is_after clean (parse metadata.last_rotated)

  note_allocations-keys :
      (clean : Option Time) (binding : AllocationBinding) (m : Map Text CredentialMetadata)
      (ledger : ConsumerLedger) (key : Text)
      → let after = note_allocations parse is_after clean binding m ledger in
        (Map.contains_key after.pending_allocations key ≡ (
          any (λ e. e.0 == key && (since clean e.1 && recorded binding e.1)) m
          || Map.contains_key ledger.pending_allocations key))
        × (Map.contains_key after.unbound_allocations key ≡ (
            any (λ e. e.0 == key && (since clean e.1 && not (recorded binding e.1))) m
            || Map.contains_key ledger.unbound_allocations key))
  unfolding note_allocations any
  note_allocations-keys clean binding [] ledger key = (refl, refl)
  note_allocations-keys clean binding ((slot, metadata) ∷ m) ledger key =
      let next = note_allocation (since clean metadata) (recorded binding metadata) slot ledger in
      let step =
        note_allocation-keys (since clean metadata) (recorded binding metadata) slot ledger key in
      let rest = note_allocations-keys clean binding m next key in
      (ground (arith, step.0, rest.0), ground (arith, step.1, rest.1))

  since-is_newer :
      (allocated clean : Option Time)
      → since_clean_apply parse is_after clean allocated ≡ is_newer is_after allocated clean
  unfolding since_clean_apply is_newer
  since-is_newer none none = refl
  since-is_newer (some t) none = refl
  since-is_newer none (some c) = refl
  since-is_newer (some t) (some c) = refl

  abbrev pub clean_of : StateFile → Option Time
  clean_of state = elim state.last_applied_at [ none ↦ none | some at ↦ parse at ]

  -- What the loop does with a slot whose metadata the ledger holds.
  note_allocations-get :
      (clean : Option Time) (binding : AllocationBinding) (m : Map Text CredentialMetadata)
      (ledger : ConsumerLedger) (key : Text) (metadata : CredentialMetadata)
      → Map.contains_key ledger.pending_allocations key ≡ false
      → Map.contains_key ledger.unbound_allocations key ≡ false
      → IsNodup m
      → get m key ≡ some metadata
      → let after = note_allocations parse is_after clean binding m ledger in
        (Map.contains_key after.pending_allocations key
          ≡ (since clean metadata && recorded binding metadata))
        × (Map.contains_key after.unbound_allocations key
            ≡ (since clean metadata && not (recorded binding metadata)))
  note_allocations-get clean binding m ledger key metadata pending unbound nodup found =
      let keys = note_allocations-keys clean binding m ledger key in
      (
        rw (keys.0, any-get (λ e. since clean e && recorded binding e) m key nodup, found, pending)
            (ground arith),
        rw
            (
              keys.1,
              any-get (λ e. since clean e && not (recorded binding e)) m key nodup,
              found,
              unbound,
            )
            (ground arith),
      )

  since-allocation_metadata :
      (now : Text) (run_id : Option Text) (binding : AllocationBinding) (slot : AllocatedSlot)
      (clean : Option Time)
      → since clean (allocation_metadata now run_id binding slot)
        ≡ is_newer is_after (parse now) clean
  unfolding allocation_metadata credential_metadata
  since-allocation_metadata now run_id binding slot clean = since-is_newer (parse now) clean

  pub from_state-record_allocation :
      (now : Text) (run_id : Option Text) (binding other : AllocationBinding)
      (coverage : ConsumerCoverage) (outcome : AllocateOutcome) (state : StateFile)
      (slot : AllocatedSlot) (key : Text)
      → last_of outcome.allocated key ≡ some slot
      → IsNodup (record_allocation now run_id binding outcome state).credentials
      → let after = record_allocation now run_id binding outcome state in
        let seen = from_state parse is_after after coverage other in
        let newer = is_newer is_after (parse now) (clean_of state) in
        let same =
          agree other.revision binding.revision && agree other.recipient binding.recipient in
        (Map.contains_key seen.pending_allocations key ≡ (newer && same))
        × (Map.contains_key seen.unbound_allocations key ≡ (newer && not same))
  unfolding from_state
  from_state-record_allocation now run_id binding other coverage outcome state slot key last nodup =
      let after = record_allocation now run_id binding outcome state in
      let metadata = allocation_metadata now run_id binding slot in
      let written = record_allocation_lem now run_id binding outcome state key in
      let stored : get after.credentials key ≡ some metadata =
        written.0
        ∙ ap
            (λ l. remembered (allocation_metadata now run_id binding) l (get state.credentials key))
            last in
      let unstamped : clean_of after ≡ clean_of state =
        ap (λ (s : StateFile). clean_of s) written.1 in
      let seen =
        note_allocations-get (clean_of after) other after.credentials
          (no_allocations after coverage) key metadata
          (unfold Map.contains_key Map.get no_allocations in refl)
          (unfold Map.contains_key Map.get no_allocations in refl) nodup stored in
      let time = since-allocation_metadata now run_id binding slot (clean_of after) in
      let bound : recorded other metadata
          ≡ (agree other.revision binding.revision && agree other.recipient binding.recipient) =
        recorded-allocation_metadata now run_id slot other.revision other.recipient binding.revision
          binding.recipient in
      (seen.0 ∙ cc (time, bound, unstamped), seen.1 ∙ cc (time, bound, unstamped))
