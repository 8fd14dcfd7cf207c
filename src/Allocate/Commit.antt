-- ===== src/Allocate/Commit.antt =====
-- secrets/allocator.rs: the shards after a run hold the committed slots and nothing else that is new.
use ferrum_edge_git_forge_op.Base.{
  ℕ, Text, List, [], ◌∷◌, ◌++◌, map, ◌≡◌, refl, sym, ap, ◌∙◌, Bool, true, false, Option, none, some,
  text_eq, text_key, nat_key, nat_eq, ◌==◌, eq→path, if◌then◌else◌, Result, ok, err, arith, ◌&&◌,
  Bool-cases, inl, inr,
}
use ferrum_edge_git_forge_op.Base.Map
use ferrum_edge_git_forge_op.Base.Map.{Map, get-insert}
use ferrum_edge_git_forge_op.Slots.{AllocatedSlot, AllocateOutcome}
use ferrum_edge_git_forge_op.Bundle.{CredentialBundle, Shards, Sizing}
use ferrum_edge_git_forge_op.Allocate.{
  after_put, finished, write_shards, deliver_plan, plan_checked, allocate_candidates, AllocateError,
  Planned, Remote, ResolveResult, bundle_at, insert_planned, allocated_slot, Committed, commit,
  Allocation, AllocationFailure, allocate_and_deliver, by_shard, Plan, plan, candidates_of, deliver,
}
use ferrum_edge_git_forge_op.Bundle.Merge.{or_else, or_else-none, or_else_assoc}

-- The value that a slot has in a shard.
unfoldable pub value_at : Shards → ℕ → Text → Option Text
value_at shards shard slot = Map.get (bundle_at shards shard) slot

abbrev last_planned : List Planned → Text → Option Text
last_planned [] slot = none
last_planned (p ∷ batch) slot =
    or_else (last_planned batch slot) (if p.slot == slot then some p.value else none)

-- The value that the last of some committed slots gives a slot of a shard.
abbrev pub last_committed : List AllocatedSlot → ℕ → Text → Option Text
last_committed [] shard slot = none
last_committed (a ∷ allocated) shard slot =
    or_else (last_committed allocated shard slot)
      (if a.shard == shard && a.slot == slot then some a.value else none)

insert_planned-get :
    (batch : List Planned) (stored : CredentialBundle) (slot : Text)
    → Map.get (insert_planned batch stored) slot
      ≡ or_else (last_planned batch slot) (Map.get stored slot)
unfolding insert_planned
insert_planned-get [] stored slot = refl
insert_planned-get (p ∷ batch) stored slot =
    insert_planned-get batch (Map.insert stored p.slot p.value) slot
    ∙ ap (or_else (last_planned batch slot)) (get-insert stored p.slot slot p.value)
    ∙ choose (last_planned batch slot) (p.slot == slot)
  where
    choose :
        (later : Option Text) (same : Bool)
        → or_else later (if same then some p.value else Map.get stored slot)
          ≡ or_else (or_else later (if same then some p.value else none)) (Map.get stored slot)
    choose none true = refl
    choose none false = refl
    choose (some v) same = refl

last_committed-append :
    (xs ys : List AllocatedSlot) (shard : ℕ) (slot : Text)
    → last_committed (xs ++ ys) shard slot
      ≡ or_else (last_committed ys shard slot) (last_committed xs shard slot)
last_committed-append [] ys shard slot = sym (or_else-none (last_committed ys shard slot))
last_committed-append (a ∷ xs) ys shard slot =
    ap (λ later. or_else later (if a.shard == shard && a.slot == slot then some a.value else none))
      (last_committed-append xs ys shard slot)
    ∙ sym (or_else_assoc (last_committed ys shard slot) (last_committed xs shard slot) _)

last_committed-batch :
    (batch : List Planned) (at shard : ℕ) (slot : Text)
    → last_committed (map (allocated_slot at) batch) shard slot
      ≡ (if at == shard then last_planned batch slot else none)
last_committed-batch [] at shard slot = ground arith
last_committed-batch (p ∷ batch) at shard slot =
    rw (last_committed-batch batch at shard slot) (choose (at == shard))
  where
    choose :
        (here : Bool)
        → or_else
            (if here then last_planned batch slot else none)
            (if here && p.slot == slot then some p.value else none)
          ≡ (if here
              then or_else (last_planned batch slot) (if p.slot == slot then some p.value else none)
              else none)
    choose true = refl
    choose false = refl

value_at-insert :
    (shards : Shards) (at shard : ℕ) (stored : CredentialBundle) (slot : Text)
    → value_at (Map.insert shards at stored) shard slot
      ≡ (if at == shard then Map.get stored slot else value_at shards shard slot)
unfolding value_at
value_at-insert shards at shard stored slot =
    ap (λ found. Map.get (elim found [ none ↦ [] | some held ↦ held ]) slot)
      (get-insert shards at shard stored)
    ∙ choose (at == shard)
  where
    choose :
        (here : Bool)
        → Map.get
            (elim (if here then some stored else Map.get shards shard) [
              | none ↦ []
              | some held ↦ held
            ])
            slot
          ≡ (if here then Map.get stored slot else Map.get (bundle_at shards shard) slot)
    choose true = refl
    choose false = refl

-- The values after a batch is written and more is committed, as the values before.
regroup :
    (here : Bool) (later planned before : Option Text)
    → or_else later (if here then or_else planned before else before)
      ≡ or_else (or_else later (if here then planned else none)) before
regroup true later planned before = or_else_assoc later planned before
regroup false none planned before = refl
regroup false (some v) planned before = refl

after_batch :
    (at : ℕ) (batch : List Planned) (shards : Shards) (shard : ℕ) (slot : Text)
    → value_at (Map.insert shards at (insert_planned batch (bundle_at shards at))) shard slot ≡ (
        if at == shard
        then or_else (last_planned batch slot) (value_at shards shard slot)
        else value_at shards shard slot)
unfolding value_at
after_batch at batch shards shard slot =
    value_at-insert shards at shard (insert_planned batch (bundle_at shards at)) slot
    ∙ ap (λ value. if at == shard then value else value_at shards shard slot)
        (insert_planned-get batch (bundle_at shards at) slot)
    ∙ elim (Bool-cases (at == shard)) [
      | inl same ↦ rw (eq→path at shard same)
      | inr differ ↦ rw differ
    ]

module _ (remote_calls : Remote) (shard : ℕ) (slot : Text) where
  abbrev HasCommitted : Shards → Committed → Type 0
  HasCommitted shards after =
      value_at after.shards shard slot
      ≡ or_else (last_committed after.allocated shard slot) (value_at shards shard slot)

  after_put-HasCommitted :
      (at : ℕ) (batch : List Planned) (shards : Shards) (after : Committed)
      (written : Result Text (Unit {0}))
      → HasCommitted (Map.insert shards at (insert_planned batch (bundle_at shards at))) after
      → HasCommitted shards
          (after_put remote_calls shards (map (allocated_slot at) batch) after written)
  after_put-HasCommitted at batch shards after (err e) h = refl
  after_put-HasCommitted at batch shards after (ok _) h =
      let later = last_committed after.allocated shard slot in
      h
      ∙ ap (or_else later) (after_batch at batch shards shard slot)
      ∙ regroup (at == shard) later (last_planned batch slot) (value_at shards shard slot)
      ∙ ap (λ value. or_else (or_else later value) (value_at shards shard slot))
          (sym (last_committed-batch batch at shard slot))
      ∙ ap (λ value. or_else value (value_at shards shard slot))
          (sym (last_committed-append (map (allocated_slot at) batch) after.allocated shard slot))

  commit-HasCommitted :
      (batches : List (ℕ × List Planned)) (shards : Shards)
      → HasCommitted shards (commit remote_calls batches shards)
  unfolding commit
  commit-HasCommitted [] shards = refl
  commit-HasCommitted ((at, batch) ∷ batches) shards =
      let stored = insert_planned batch (bundle_at shards at) in
      after_put-HasCommitted at batch shards
        (commit remote_calls batches (Map.insert shards at stored))
        (remote_calls.put_shard at stored)
        (commit-HasCommitted batches (Map.insert shards at stored))

-- The committed slots of a run: all of a completed one's, and a failed one's partial ones.
abbrev pub committed_of : Result AllocationFailure AllocateOutcome → List AllocatedSlot
committed_of (ok outcome) = outcome.allocated
committed_of (err failure) = failure.partial.allocated

module _ (remote_calls : Remote) (sizing : Sizing) (shard : ℕ) (slot : Text) where
  abbrev pub IsAccounted : Shards → Allocation → Type 0
  IsAccounted before run =
      value_at run.shards shard slot
      ≡ or_else (last_committed (committed_of run.result) shard slot) (value_at before shard slot)

  finished-IsAccounted :
      (count : ℕ) (before stored : Shards) (allocated : List AllocatedSlot) (failure : Option Text)
      → HasCommitted remote_calls shard slot before
          (record { shards = stored; allocated = allocated; failure = failure })
      → IsAccounted before
          (finished count (record { shards = stored; allocated = allocated; failure = failure }))
  finished-IsAccounted count before stored allocated none h = h
  finished-IsAccounted count before stored allocated (some e) h = h

  write_shards-IsAccounted :
      (shards : Shards) (count : ℕ) (planned : Result AllocateError (List Planned))
      (key : Result Text (Unit {0}))
      → IsAccounted shards (write_shards remote_calls sizing shards count planned key)
  write_shards-IsAccounted shards count (err e) key = refl
  write_shards-IsAccounted shards count (ok planned) (err e) = refl
  write_shards-IsAccounted shards count (ok planned) (ok _) =
      let batches = by_shard planned [] in
      let after = commit remote_calls batches shards in
      finished-IsAccounted count shards after.shards after.allocated after.failure
        (commit-HasCommitted remote_calls shard slot batches shards)

  deliver_plan-IsAccounted :
      (pr_author : Option Text) (shards : Shards) (planned : Plan)
      → IsAccounted shards (deliver_plan remote_calls sizing pr_author shards planned)
  deliver_plan-IsAccounted pr_author shards (err e, count) = refl
  deliver_plan-IsAccounted pr_author shards (ok planned, count) =
      write_shards-IsAccounted shards count (deliver remote_calls pr_author planned)
        remote_calls.fetch_public_key

  plan_checked-IsAccounted :
      (pr_author : Option Text) (candidates : List ResolveResult) (shards : Shards) (count : ℕ)
      (checked : Result Text (Unit {0}))
      → IsAccounted shards
          (plan_checked remote_calls sizing pr_author candidates shards count checked)
  plan_checked-IsAccounted pr_author candidates shards count (err e) = refl
  plan_checked-IsAccounted pr_author candidates shards count (ok _) =
      deliver_plan-IsAccounted pr_author shards (plan remote_calls sizing 0 candidates shards count)

  candidates-IsAccounted :
      (pr_author : Option Text) (candidates : List ResolveResult) (shards : Shards) (count : ℕ)
      → IsAccounted shards
          (allocate_candidates remote_calls sizing pr_author candidates shards count)
  candidates-IsAccounted pr_author [] shards count = refl
  candidates-IsAccounted pr_author (candidate ∷ candidates) shards count =
      plan_checked-IsAccounted pr_author (candidate ∷ candidates) shards count _

-- After a run of the allocation, completed or failed at any call, each slot of each shard has the
-- value that the last committed slot gives it, or, if the run reports no committed slot there, the
-- value that it had. A completed run reports its whole outcome, and a failed one its partial
-- outcome.
pub allocate_and_deliver-IsAccounted :
    (remote_calls : Remote) (sizing : Sizing) (pr_author : Option Text)
    (results : List ResolveResult) (shards : Shards) (count shard : ℕ) (slot : Text)
    → let run = allocate_and_deliver remote_calls sizing pr_author results shards count in
      value_at run.shards shard slot
      ≡ or_else (last_committed (committed_of run.result) shard slot) (value_at shards shard slot)
unfolding allocate_and_deliver
allocate_and_deliver-IsAccounted remote_calls sizing pr_author results shards count shard slot =
    candidates-IsAccounted remote_calls sizing shard slot pr_author (candidates_of results) shards
      count
