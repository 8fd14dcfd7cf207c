-- ===== src/Allocate.antt =====
-- secrets/allocator.rs: an allocation plans every slot before it writes the first shard.
pub mod Commit
use ferrum_edge_git_forge_op.Base.{
  ℕ, zero, suc, Text, codes, List, [], ◌∷◌, ◌++◌, map, length, Bool, true, false, Option, none,
  some, text_eq, text_key, nat_key, if◌then◌else◌, Result, ok, err, ◌>>=◌,
}
use ferrum_edge_git_forge_op.Base.Map
use ferrum_edge_git_forge_op.Base.Map.{Map}
use ferrum_edge_git_forge_op.Slots.{
  PlaceholderAlloc, DeliveryResult, AllocatedSlot, AllocateOutcome,
}
use ferrum_edge_git_forge_op.Bundle.{
  CredentialBundle, Shards, BundleError, shards_full, Sizing, reserve_shard, text_bytes,
}

pub data SlotStatus : Type 0 where
  resolved needs_allocation missing_required : SlotStatus

-- What the allocator reads of a resolved placeholder.
pub record ResolveResult : Type 0 where
  pub slot : Text
  pub alloc : PlaceholderAlloc
  pub length_bytes : ℕ
  pub status : SlotStatus

pub record Planned : Type 0 where
  pub slot : Text
  pub value : Text
  pub shard : ℕ
  pub alloc : PlaceholderAlloc
  pub delivered : Option DeliveryResult

pub data AllocateError : Type 0 where
  placement : BundleError → AllocateError
  no_recipient_key : ℕ → Text → AllocateError
  remote : Text → AllocateError

-- The calls that leave the allocator: the gateway's mode from the environment, the check of the whole batch against the gateway's mode, the
-- random generator (by the position in the batch), the discovery of a recipient's key, its
-- encryption, the environment's public key, and the serialization and PUT of one shard.
pub record Remote : Type 0 where
  pub gateway_mode : Result Text (Unit {0})
  pub check_generation : ResolveResult → Result Text (Unit {0})
  pub generate : ℕ → ResolveResult → Result Text Text
  pub discover : Text → Result Text (Option (Text → Result Text DeliveryResult))
  pub fetch_public_key : Result Text (Unit {0})
  pub put_shard : ℕ → CredentialBundle → Result Text (Unit {0})

abbrev pub bundle_at : Shards → ℕ → CredentialBundle
bundle_at shards shard = elim (Map.get shards shard) [ none ↦ [] | some bundle ↦ bundle ]

-- `entry(shard).or_default().insert(slot, value)`.
unfoldable pub store : Shards → ℕ → Text → Text → Shards
store shards shard slot value =
    Map.insert shards shard (Map.insert (bundle_at shards shard) slot value)

unfoldable pub candidates_of : List ResolveResult → List ResolveResult
candidates_of [] = []
candidates_of (result ∷ results) =
    let rest = candidates_of results in
    elim result.status [ needs_allocation ↦ result ∷ rest | _ ↦ rest ]

-- A plan: the planned slots or the first error, and the shard count that it leaves.
abbrev pub Plan : Type 0
Plan = Result AllocateError (List Planned) × ℕ

abbrev pub plan_failed : AllocateError → ℕ → Plan
plan_failed e count = (err e, count)

abbrev pub and_planned : Planned → Plan → Plan
and_planned p (ok planned, count) = (ok (p ∷ planned), count)
and_planned p (err e, count) = (err e, count)

-- The slots of a batch, put into a shard's bundle.
unfoldable pub insert_planned : List Planned → CredentialBundle → CredentialBundle
insert_planned [] bundle = bundle
insert_planned (p ∷ batch) bundle = insert_planned batch (Map.insert bundle p.slot p.value)

abbrev pub allocated_slot : ℕ → Planned → AllocatedSlot
allocated_slot shard p = record {
  slot = p.slot;
  shard = shard;
  value = p.value;
  alloc = p.alloc;
  delivered = p.delivered;
}

-- What the second phase leaves: the shards, the committed slots and the error that ended it.
pub record Committed : Type 0 where
  pub shards : Shards
  pub allocated : List AllocatedSlot
  pub failure : Option Text

abbrev pub committed_first : List AllocatedSlot → Committed → Committed
committed_first slots after = record after { allocated = slots ++ after.allocated }

module _ (remote_calls : Remote) where
  unfoldable pub check_all : List ResolveResult → Result Text (Unit {0})
  check_all [] = ok tt
  check_all (candidate ∷ candidates) = elim (remote_calls.check_generation candidate) [
    | err e ↦ err e
    | ok _ ↦ check_all candidates
  ]

  -- Encryption stops at the first error.
  unfoldable pub encrypt_all :
      (Text → Result Text DeliveryResult) → List Planned → Result AllocateError (List Planned)
  encrypt_all encrypt [] = ok []
  encrypt_all encrypt (p ∷ planned) =
      let rest = encrypt_all encrypt planned in
      elim (encrypt p.value) [
        | err e ↦ err (remote e)
        | ok delivered ↦ elim rest [
          | err e ↦ err e
          | ok more ↦ ok (record p { delivered = some delivered } ∷ more)
        ]
      ]

  abbrev with_key :
      Text
      → List Planned
      → Result Text (Option (Text → Result Text DeliveryResult))
      → Result AllocateError (List Planned)
  with_key login planned (err e) = err (remote e)
  with_key login planned (ok none) = err (no_recipient_key (length planned) login)
  with_key login planned (ok (some encrypt)) = encrypt_all encrypt planned

  unfoldable pub deliver : Option Text → List Planned → Result AllocateError (List Planned)
  unfolding encrypt_all
  deliver none planned = ok planned
  deliver (some login) planned = with_key login planned (remote_calls.discover login)

  -- A batch counts once its shard was written; the first failed write ends the phase.
  abbrev pub after_put :
      Shards → List AllocatedSlot → Committed → Result Text (Unit {0}) → Committed
  after_put shards slots after (ok _) = committed_first slots after
  after_put shards slots after (err e) = record {
    shards = shards;
    allocated = [];
    failure = some e;
  }

  unfoldable pub commit : List (ℕ × List Planned) → Shards → Committed
  unfolding insert_planned
  commit [] shards = record { shards = shards; allocated = []; failure = none }
  commit ((shard, batch) ∷ batches) shards =
      let bundle = insert_planned batch (bundle_at shards shard) in
      let after = commit batches (Map.insert shards shard bundle) in
      after_put shards (map (allocated_slot shard) batch) after
        (remote_calls.put_shard shard bundle)

-- Planned slots grouped by their shard, in the order of the plan.
abbrev batch_at : Map ℕ (List Planned) → ℕ → List Planned
batch_at batches shard = elim (Map.get batches shard) [ none ↦ [] | some batch ↦ batch ]

unfoldable pub by_shard : List Planned → Map ℕ (List Planned) → Map ℕ (List Planned)
by_shard [] batches = batches
by_shard (p ∷ planned) batches =
    by_shard planned (Map.insert batches p.shard (batch_at batches p.shard ++ p ∷ []))

pub record AllocationFailure : Type 0 where
  pub source : AllocateError
  pub partial : AllocateOutcome

-- What a run leaves: the shards and their count, and its result.
pub record Allocation : Type 0 where
  pub shards : Shards
  pub shard_count : ℕ
  pub result : Result AllocationFailure AllocateOutcome

-- A failure before the first write carries the default outcome.
abbrev pub failed_early : Shards → ℕ → AllocateError → Allocation
failed_early shards count e = record {
  shards = shards;
  shard_count = count;
  result = err (record { source = e; partial = record { allocated = []; shard_count = 0 } });
}

abbrev pub finished : ℕ → Committed → Allocation
finished count after = record {
  shards = after.shards;
  shard_count = count;
  result =
      let outcome : AllocateOutcome = record { allocated = after.allocated; shard_count = count } in
      elim after.failure [
        | none ↦ ok outcome
        | some e ↦ err (record { source = remote e; partial = outcome })
      ];
}

module _ (remote_calls : Remote) (sizing : Sizing) where
  abbrev planned_one : ResolveResult → Text → ℕ → Planned
  planned_one candidate value shard = record {
    slot = candidate.slot;
    value = value;
    shard = shard;
    alloc = candidate.alloc;
    delivered = none;
  }

  -- The first phase: a value and a shard for every candidate, each placed beside those before it in
  -- `staged`. A run of `reserve_shard` out of fuel, which there is not, would end the plan.
  unfoldable pub plan : ℕ → List ResolveResult → Shards → ℕ → Plan
  unfolding reserve_shard store text_bytes
  plan position [] staged count = (ok [], count)
  plan position (candidate ∷ candidates) staged count =
      elim (remote_calls.generate position candidate) [
        | err e ↦ plan_failed (remote e) count
        | ok value ↦
            elim (reserve_shard sizing candidate.slot (text_bytes value) staged count
              (codes "allocating")) [
                | none ↦
                    plan_failed (placement (shards_full candidate.slot (codes "allocating"))) count
                | some (err e, grown) ↦ plan_failed (placement e) grown
                | some (ok shard, grown) ↦
                    and_planned (planned_one candidate value shard) (
                      plan (suc position) candidates (store staged shard candidate.slot value)
                        grown)
              ]
      ]

  abbrev pub write_shards :
      Shards → ℕ → Result AllocateError (List Planned) → Result Text (Unit {0}) → Allocation
  write_shards shards count (err e) key = failed_early shards count e
  write_shards shards count (ok planned) (err e) = failed_early shards count (remote e)
  write_shards shards count (ok planned) (ok _) =
      finished count (commit remote_calls (by_shard planned []) shards)

  abbrev pub deliver_plan : Option Text → Shards → Plan → Allocation
  deliver_plan pr_author shards (err e, count) = failed_early shards count e
  deliver_plan pr_author shards (ok planned, count) =
      write_shards shards count (deliver remote_calls pr_author planned)
        remote_calls.fetch_public_key

  abbrev pub plan_checked :
      Option Text → List ResolveResult → Shards → ℕ → Result Text (Unit {0}) → Allocation
  plan_checked pr_author candidates shards count (err e) = failed_early shards count (remote e)
  plan_checked pr_author candidates shards count (ok _) =
      deliver_plan pr_author shards (plan 0 candidates shards count)

  abbrev pub allocate_candidates : Option Text → List ResolveResult → Shards → ℕ → Allocation
  allocate_candidates pr_author [] shards count =
      finished count (record { shards = shards; allocated = []; failure = none })
  allocate_candidates pr_author (candidate ∷ candidates) shards count =
      plan_checked pr_author (candidate ∷ candidates) shards count
        (remote_calls.gateway_mode >>= λ _. check_all remote_calls (candidate ∷ candidates))

  unfoldable pub allocate_and_deliver : Option Text → List ResolveResult → Shards → ℕ → Allocation
  unfolding candidates_of check_all plan deliver by_shard commit
  allocate_and_deliver pr_author results shards count =
      allocate_candidates pr_author (candidates_of results) shards count
