-- ===== src/Samples/Allocators.antt =====
-- A run of the allocation whose second shard cannot be written.
use ferrum_edge_git_forge_op.Base.{
  Text, codes, [], ◌∷◌, ◌≡◌, refl, none, some, ok, err, text_eq, text_key, nat_eq, eqb, ◌==◌,
  if◌then◌else◌,
}
use ferrum_edge_git_forge_op.Base.Map
use ferrum_edge_git_forge_op.Base.Map.{get}
use ferrum_edge_git_forge_op.Slots.{generate}
use ferrum_edge_git_forge_op.Bundle.{Sizing, reserve_shard, fits, projected_shard_size}
use ferrum_edge_git_forge_op.Bundle.Merge.{or_else}
use ferrum_edge_git_forge_op.Allocate.{
  Remote, ResolveResult, needs_allocation, allocate_and_deliver, Allocation,
}
use ferrum_edge_git_forge_op.Allocate.Commit.{
  value_at, last_committed, committed_of, allocate_and_deliver-IsAccounted,
}

abbrev candidate : Text → ResolveResult
candidate slot = record {
  slot = slot;
  alloc = generate;
  length_bytes = 32;
  status = needs_allocation;
}

abbrev slot_a : Text
slot_a = codes "b/x/a"

abbrev slot_b : Text
slot_b = codes "b/x/b"

-- Values are the slots' positions; shard 1 refuses its PUT.
abbrev calls : Remote
calls = record {
  gateway_mode = ok tt;
  check_generation = λ c. ok tt;
  generate = λ position c. ok (position ∷ []);
  discover = λ login. ok none;
  fetch_public_key = ok tt;
  put_shard = λ shard b. if eqb shard 1 then err (codes "HTTP 500") else ok tt;
}

-- The digest sends the first slot to shard 0 and the second to shard 1.
abbrev sizing : Sizing
sizing = record { digest = λ slot. if slot == slot_a then 0 else 1; json_bytes = λ b. 2 }

abbrev run : Allocation
run = allocate_and_deliver calls sizing none (candidate slot_a ∷ candidate slot_b ∷ []) [] 2

partly_committed :
    (value_at run.shards 0 slot_a ≡ some (0 ∷ [])) × (value_at run.shards 1 slot_b ≡ none)
unfolding allocate_and_deliver value_at get text_eq nat_eq reserve_shard fits projected_shard_size
    Map.insert Map.contains_key
partly_committed = (refl, refl)

allocate_and_deliver-IsAccounted_example :
    value_at run.shards 0 slot_a
    ≡ or_else (last_committed (committed_of run.result) 0 slot_a) (value_at [] 0 slot_a)
allocate_and_deliver-IsAccounted_example =
    allocate_and_deliver-IsAccounted calls sizing none (candidate slot_a ∷ candidate slot_b ∷ []) []
      2 0 slot_a
