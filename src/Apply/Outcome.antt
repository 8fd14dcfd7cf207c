-- ===== src/Apply/Outcome.antt =====
-- error.rs and apply/api_target.rs: the errors of a run, its result, and the verdict on it.
use ferrum_edge_git_forge_op.Base.{
  ℕ, Text, List, [], Bool, true, false, ◌||◌, Option, none, some, if◌then◌else◌, eqb, ltb, is_empty,
  Result, ok, err,
}
use ferrum_edge_git_forge_op.Change.{DiffAction, AppliedOp}

-- The variants of `Error` that the apply tells apart, each with its message; the others are `other`.
pub data Error : Type 0 where
  gateway_read_only backup_namespace duplicate_live_resource stale_gateway_view : Text → Error
  restore_needs_manual_recovery unsupported_backup_sections committed_not_live : Text → Error
  ambiguous_mutation conditional_write_unavailable : Text → Error
  stale_plan unplanned_plugin_reference : Text → Error
  -- The proxy's write waits for plugin configs that failed.
  failed_plugin_dependency : List Text → Error
  other : Text → Error

unfoldable pub is_fatal : Error → Bool
is_fatal (gateway_read_only _) = true
is_fatal (backup_namespace _) = true
is_fatal (duplicate_live_resource _) = true
is_fatal (stale_gateway_view _) = true
is_fatal (restore_needs_manual_recovery _) = true
is_fatal (unsupported_backup_sections _) = true
is_fatal (committed_not_live _) = true
is_fatal (ambiguous_mutation _) = true
is_fatal (conditional_write_unavailable _) = true
is_fatal _ = false

unfoldable pub is_stale_plan : Error → Bool
is_stale_plan (stale_plan _) = true
is_stale_plan _ = false

unfoldable pub is_unplanned_reference : Error → Bool
is_unplanned_reference (unplanned_plugin_reference _) = true
is_unplanned_reference _ = false

unfoldable pub proves_stale : Error → Bool
unfolding is_stale_plan is_unplanned_reference
proves_stale e = is_stale_plan e || is_unplanned_reference e

-- A message of `errors`, by what it is made of.
pub data Message : Type 0 where
  not_sent : DiffAction → Text → Text → Message
  group_withheld : List Text → List Text → List Text → Message
  batch_unsupported : Message
  batch_failed : Error → Message
  op_failed : DiffAction → Text → Text → Error → Message
  adopt_failed : Text → Text → Error → Message
  -- A message that the batch path reports.
  chunk_failed : Text → Message

-- A message of `adoption_skipped`, by what it is made of.
pub data SkipReason : Type 0 where
  plan_changed : Text × Text → SkipReason
  served_from_cache confirmation_cached : SkipReason
  confirmation_failed : Error → SkipReason

pub data AdoptionSkip : Type 0 where
  not_adopting : ℕ → SkipReason → AdoptionSkip
  row_changed : Text → Text → AdoptionSkip

pub record ApplyResult : Type 0 where
  pub created : ℕ
  pub updated : ℕ
  pub deleted : ℕ
  pub deletes_missing : ℕ
  pub deletes_deferred : ℕ
  pub unmanaged_skipped : ℕ
  pub spec_owned_skipped : ℕ
  pub errors : List Message
  pub fatal_error : Option Error
  pub stale_plan : Option (Text × Text)
  pub applied_incremental : List AppliedOp
  pub adopted : List AppliedOp
  pub adoption_skipped : List AdoptionSkip
  pub fully_replaced_namespaces : List Text

abbrev pub default_result : ApplyResult
default_result = record {
  created = 0;
  updated = 0;
  deleted = 0;
  deletes_missing = 0;
  deletes_deferred = 0;
  unmanaged_skipped = 0;
  spec_owned_skipped = 0;
  errors = [];
  fatal_error = none;
  stale_plan = none;
  applied_incremental = [];
  adopted = [];
  adoption_skipped = [];
  fully_replaced_namespaces = [];
}

-- Created, updated, deleted, deletes deferred.
abbrev Counts : Type 0
Counts = ℕ × ℕ × ℕ × ℕ

pub data ApplyFailure : Type 0 where
  partial_failure : Counts → List Message → ApplyFailure
  stopped : Error → Counts → List Message → ApplyFailure

abbrev verdict : Option Error → Counts → ApplyResult → Result ApplyFailure ApplyResult
verdict none counts result =
    if is_empty result.errors then ok result else err (partial_failure counts result.errors)
verdict (some fatal) counts result = err (stopped fatal counts result.errors)

unfoldable pub into_result : ApplyResult → Result ApplyFailure ApplyResult
into_result result =
    verdict result.fatal_error
      (result.created, result.updated, result.deleted, result.deletes_deferred)
      (record result { fatal_error = none })

-- The number that the warning states, if there is one.
unfoldable pub all_deletes_missing_warning : ℕ → ℕ → Option ℕ
all_deletes_missing_warning deleted deletes_missing =
    if eqb deleted 0 then none else if ltb deletes_missing deleted then none else some deleted
