-- ===== src/Bundle/Capacity.antt =====
-- secrets/bundle.rs: `reserve_shard` ends, and places a slot where it fits or where it is.
use native.Mathlib.Nat.{mod-lt}
use ferrum_edge_git_forge_op.Base.{
  ℕ, zero, suc, ◌+◌, ◌%◌, ◌<◌, ◌≤◌, Text, ◌≡◌, refl, Bool, true, false, Option, none, some, eqb,
  leb, Result, ok, err, arith, Bool-cases, inl, inr, leb→le,
}
use ferrum_edge_git_forge_op.Bundle.{
  Shards, Sizing, BundleError, shards_full, max_bundle_shards, min, fits, probe, pick_shard,
  pick_among, settle_shard, holder, reserve_loop, reserve_shard, loop_fuel, reserved, at_least_one,
}

module _ (sizing : Sizing) (slot : Text) (value_len : ℕ) (shards : Shards) where
  abbrev has_room : ℕ → Bool
  has_room shard = fits sizing slot value_len shards shard

  probe-some :
      (target from left index : ℕ)
      → probe sizing slot value_len shards target from left ≡ some index
      → (has_room index ≡ true) × (index < from + left)
  unfolding probe
  probe-some target from zero index h = cc
  probe-some target from (suc left) index h =
      ground (arith, probe-some target (from + 1) left index)

  probe-none :
      (target from left shard : ℕ)
      → probe sizing slot value_len shards target from left ≡ none
      → from ≤ shard
      → shard < from + left
      → eqb shard target ≡ false
      → has_room shard ≡ false
  unfolding probe
  probe-none target from zero shard h low high other = ground arith
  probe-none target from (suc left) shard h low high other =
      ground (arith, probe-none target (from + 1) left shard)

  pick_among-some :
      (addressable target index : ℕ)
      → target < addressable
      → pick_among sizing slot value_len shards addressable target ≡ some index
      → (has_room index ≡ true) × (index < addressable)
  unfolding pick_among
  pick_among-some addressable target index low h =
      ground (arith, probe-some target 0 addressable index)

  pick_among-none :
      (addressable target shard : ℕ)
      → pick_among sizing slot value_len shards addressable target ≡ none
      → shard < addressable
      → has_room shard ≡ false
  unfolding pick_among
  pick_among-none addressable target shard h low =
      ground (arith, probe-none target 0 addressable shard)

  -- What a loop that starts with a count may give: a shard with room below the new count and the
  -- ceiling, or a refusal when every shard below the ceiling is full.
  abbrev pub IsPlaced : ℕ → Result BundleError ℕ × ℕ → Type 0
  IsPlaced before (ok index, count) =
      (before ≤ count) × (index < count) × (index < max_bundle_shards) × (has_room index ≡ true)
  IsPlaced before (err e, count) =
      (before ≤ count)
      × (max_bundle_shards ≤ count)
      × ((shard : ℕ) → shard < max_bundle_shards → has_room shard ≡ false)

  IsPlaced-earlier :
      (n : ℕ) (outcome : Result BundleError ℕ × ℕ)
      → IsPlaced (suc (suc n)) outcome
      → IsPlaced (suc n) outcome
  IsPlaced-earlier n (ok index, count) (grown, below, low, room) = (omega arith, below, low, room)
  IsPlaced-earlier n (err e, count) (grown, ceiling, full) = (omega arith, ceiling, full)

  abbrev Ends : ℕ → Option (Result BundleError ℕ × ℕ) → Type 0
  Ends before run =
      (outcome : Result BundleError ℕ × ℕ) × (run ≡ some outcome) × IsPlaced before outcome

  settle_shard-Ends :
      (n : ℕ) (operation : Text) (picked : Option ℕ) (more : Option (Result BundleError ℕ × ℕ))
      → ((index : ℕ)
          → picked ≡ some index
          → (has_room index ≡ true) × (index < min (suc n) max_bundle_shards))
      → ((shard : ℕ)
          → picked ≡ none
          → shard < min (suc n) max_bundle_shards
          → has_room shard ≡ false)
      → (suc n < max_bundle_shards → Ends (suc (suc n)) more)
      → Ends (suc n) (settle_shard sizing slot value_len shards operation (suc n) picked more)
  settle_shard-Ends n operation (some index) more taken full later =
      let (room, bound) = taken index refl in
      ((ok index, suc n), refl, (omega arith, ground (arith, bound), ground (arith, bound), room))
  settle_shard-Ends n operation none more taken full later =
      elim (Bool-cases (leb max_bundle_shards (suc n))) [
        | inl ceiling ↦ (
          (err (shards_full slot operation), suc n),
          rw ceiling,
          (
            omega arith,
            leb→le max_bundle_shards (suc n) ceiling,
            λ shard low. full shard refl (ground arith),
          ),
        )
        | inr below ↦
            let (outcome, ends, placed) = later (ground arith) in
            (outcome, rw below ends, IsPlaced-earlier n outcome placed)
      ]

  reserve_loop-Ends :
      (fuel n : ℕ) (operation : Text)
      → 16 ≤ fuel + n
      → 1 ≤ fuel
      → Ends (suc n) (reserve_loop sizing slot value_len shards fuel (suc n) operation)
  unfolding reserve_loop pick_shard
  reserve_loop-Ends zero n operation enough some_fuel = ground arith
  reserve_loop-Ends (suc fuel) n operation enough some_fuel =
      let addressable = min (suc n) max_bundle_shards in
      let target = sizing.digest slot % addressable in
      let low : target < addressable = mod-lt (sizing.digest slot) (ground arith) in
      settle_shard-Ends n operation (pick_among sizing slot value_len shards addressable target) _
        (λ index. pick_among-some addressable target index low)
        (λ shard. pick_among-none addressable target shard)
        (λ below. reserve_loop-Ends fuel (suc n) operation (omega arith) (ground arith))

  -- A slot that a shard holds stays there; any other is placed.
  abbrev pub IsReserved : Option ℕ → ℕ → Result BundleError ℕ × ℕ → Type 0
  IsReserved (some existing) before outcome = outcome ≡ (ok existing, before)
  IsReserved none before outcome = IsPlaced (at_least_one before) outcome

  -- `reserve_shard` ends, whatever the shards, the sizes and the count. A slot that a shard holds is
  -- given that shard and leaves the count as it is. Any other slot is given a shard below 16 and
  -- below the count, in which it fits; or it is refused, the count is 16 at least, and it fits in
  -- none of the shards below 16. The count never falls.
  pub reserve_shard-ends :
      (shard_count : ℕ) (operation : Text)
      → (outcome : Result BundleError ℕ × ℕ) × (reserve_shard sizing slot value_len shards
            shard_count operation
          ≡ some outcome)
        × IsReserved (holder sizing slot value_len shards shards) shard_count outcome
  unfolding reserve_shard reserve_loop
  reserve_shard-ends shard_count operation =
      by_holder (holder sizing slot value_len shards shards) shard_count
    where
      at_count :
          (n : ℕ)
          → Ends (at_least_one n) (reserve_loop sizing slot value_len shards loop_fuel n operation)
      at_count zero = reserve_loop-Ends loop_fuel 0 operation (omega arith) (omega arith)
      at_count (suc n) = reserve_loop-Ends loop_fuel n operation (omega arith) (omega arith)

      by_holder :
          (held : Option ℕ) (n : ℕ)
          → (outcome : Result BundleError ℕ × ℕ) × (reserved sizing slot value_len shards held n
                operation
              ≡ some outcome)
            × IsReserved held n outcome
      by_holder (some existing) n = ((ok existing, n), refl, refl)
      by_holder none n = at_count n
