-- ===== src/Slots.antt =====
-- secrets/placeholder.rs, secrets/delivery.rs and secrets/allocator.rs: credential slots.
use ferrum_edge_git_forge_op.Base.{Text, List, ℕ, Option}

pub data PlaceholderAlloc : Type 0 where
  generate require rotate : PlaceholderAlloc

pub record DeliveryResult : Type 0 where
  pub login : Text
  pub key_fingerprint : Text
  pub encrypted_b64 : Text

pub record AllocatedSlot : Type 0 where
  pub slot : Text
  pub shard : ℕ
  pub value : Text
  pub alloc : PlaceholderAlloc
  pub delivered : Option DeliveryResult

pub record AllocateOutcome : Type 0 where
  pub allocated : List AllocatedSlot
  pub shard_count : ℕ
