-- ===== src/Apply/Groups/Packing.antt =====
-- http_client.rs: what the requests of `split_batch` hold.
use mathlib.Core.List.{append-nil, append_assoc}
use ferrum_edge_git_forge_op.Base.{
  ℕ, ◌+◌, ◌≤◌, ◌≡◌, refl, List, [], ◌∷◌, ◌++◌, map, Bool, true, false, Result, ok, ◌⊎◌, inl, inr,
  arith, >>=-eq-ok, ok-injective, Bool-cases,
}
use ferrum_edge_git_forge_op.Apply.Groups.{BatchCreate, empty_batch, batch_dependency_groups}
use ferrum_edge_git_forge_op.Apply.Groups.Split.{
  no_rows, extend, body_budget, is_full, last_chunk, prepend, flushed, kept, counted, pack,
  split_batch,
}
use ferrum_edge_git_forge_op.Apply.Groups.Blocks.{
  merge, total_len, concat, merge_snoc, full_has_rows, total_len_snoc,
}
use ferrum_edge_git_forge_op.Apply.Outcome.{Error}

module _ (serialized_len : BatchCreate → Result Error ℕ) where
  -- The groups of one request: within the budget, or only the last of them has rows.
  abbrev pub Fits : ℕ → List BatchCreate → Type 0
  Fits budget block =
      (total_len serialized_len block ≤ budget)
      ⊎ ((before : List BatchCreate) × (group : BatchCreate) × (block ≡ before ++ group ∷ [])
          × (no_rows (merge empty_batch before) ≡ true))

  abbrev pub AllFit : ℕ → List (List BatchCreate) → Type 0
  AllFit budget [] = Unit
  AllFit budget (block ∷ blocks) =
      Fits budget block × (no_rows (merge empty_batch block) ≡ false) × AllFit budget blocks

  -- The requests are the merged blocks of consecutive groups; what is left over has no rows.
  unfoldable pub Packed : ℕ → List BatchCreate → List BatchCreate → Type 0
  Packed budget groups chunks =
      (blocks : List (List BatchCreate)) × (rest : List BatchCreate) × (concat blocks ++ rest
        ≡ groups)
      × (map (merge empty_batch) blocks ≡ chunks)
      × AllFit budget blocks
      × (no_rows (merge empty_batch rest) ≡ true)

  Fits-snoc :
      (budget size : ℕ) (block : List BatchCreate) (group : BatchCreate)
      → serialized_len group ≡ ok size
      → is_full budget (merge empty_batch block) (total_len serialized_len block) size ≡ false
      → Fits budget (block ++ group ∷ [])
  unfolding is_full
  Fits-snoc budget size block group h fits = elim (Bool-cases (no_rows (merge empty_batch block))) [
    | inl empty ↦ inr (block, group, refl, empty)
    | inr some_rows ↦ inl (
        let sum = total_len_snoc serialized_len block group size h in
        let bound : total_len serialized_len block + size ≤ budget =
          ground (arith, some_rows, fits) in
        omega arith)
  ]

  same_packing :
      (budget : ℕ) (groups others chunks found : List BatchCreate)
      → groups ≡ others
      → found ≡ chunks
      → Packed budget groups found
      → Packed budget others chunks
  unfolding Packed
  same_packing budget groups others chunks found g c (blocks, rest, all, merged, fits, empty) =
      (blocks, rest, cc, cc, fits, empty)

  add_block :
      (budget : ℕ) (block groups found : List BatchCreate)
      → Fits budget block
      → no_rows (merge empty_batch block) ≡ false
      → Packed budget groups found
      → Packed budget (block ++ groups) (merge empty_batch block ∷ found)
  unfolding Packed concat
  add_block budget block groups found fits some_rows (blocks, rest, all, merged, more, empty) = (
    block ∷ blocks,
    rest,
    cc (append_assoc block (concat blocks) rest, all),
    cc (merged),
    (fits, some_rows, more),
    empty,
  )

  Packed-last_chunk :
      (budget : ℕ) (block : List BatchCreate)
      → Fits budget block
      → (empty : Bool) → no_rows (merge empty_batch block) ≡ empty
      → Packed budget (block ++ []) (last_chunk (merge empty_batch block) empty)
  unfolding Packed last_chunk concat no_rows merge
  Packed-last_chunk budget block fits true h = ([], block, cc (append-nil block), refl, tt, h)
  Packed-last_chunk budget block fits false h =
      add_block budget block [] [] fits h ([], [], refl, refl, tt, refl)

  one-Fits : (budget : ℕ) (group : BatchCreate) → Fits budget (group ∷ [])
  unfolding merge no_rows
  one-Fits budget group = inr ([], group, refl, refl)

  total_len_one :
      (group : BatchCreate) (size : ℕ)
      → serialized_len group ≡ ok size
      → size ≡ total_len serialized_len (group ∷ [])
  unfolding total_len
  total_len_one group size h = rw (h) (omega arith)

  -- Packing the groups goes on from every block, with the requests found.
  abbrev Continues : ℕ → List BatchCreate → List BatchCreate → Type 0
  Continues budget groups found =
      (block : List BatchCreate) (current : BatchCreate) (bytes : ℕ)
      → current ≡ merge empty_batch block
      → bytes ≡ total_len serialized_len block
      → Fits budget block
      → pack serialized_len budget groups current bytes ≡ ok found
      → Packed budget (block ++ groups) found

  Packed-flushed :
      (budget : ℕ) (groups found : List BatchCreate)
      → Continues budget groups found
      → (block : List BatchCreate) (group current : BatchCreate) (bytes size : ℕ)
        (chunks : List BatchCreate)
      → current ≡ merge empty_batch block
      → bytes ≡ total_len serialized_len block
      → Fits budget block
      → serialized_len group ≡ ok size
      → (full : Bool) → is_full budget current bytes size ≡ full
      → pack serialized_len budget groups
          (extend (kept full current) group)
          (counted full bytes + size)
        ≡ ok found
      → flushed full current ++ found ≡ chunks
      → Packed budget (block ++ group ∷ groups) chunks
  unfolding flushed kept counted is_full merge
  Packed-flushed budget groups found more block group current bytes size chunks c b fits h true full
        packing pushed =
      let rest =
        more (group ∷ []) (extend empty_batch group) (0 + size) refl
          (let one = total_len_one group size h in omega arith) (one-Fits budget group) packing in
      same_packing budget (block ++ group ∷ groups) (block ++ group ∷ groups) chunks
        (merge empty_batch block ∷ found) refl (cc (c, pushed))
        (add_block budget block (group ∷ groups) found fits
          (full_has_rows budget (merge empty_batch block) bytes size (cc (c, full))) rest)
  Packed-flushed budget groups found more block group current bytes size chunks c b fits h false
        full packing pushed =
      same_packing budget ((block ++ group ∷ []) ++ groups) (block ++ group ∷ groups) chunks found
        (append_assoc block (group ∷ []) groups) pushed
        (more (block ++ group ∷ []) (extend current group) (bytes + size)
          (cc (merge_snoc empty_batch block group, c))
          (cc (total_len_snoc serialized_len block group size h, b))
          (Fits-snoc budget size block group h (cc (c, b, full))) packing)

  Packed-pack :
      (budget : ℕ) (groups block : List BatchCreate) (current : BatchCreate) (bytes : ℕ)
      (chunks : List BatchCreate)
      → current ≡ merge empty_batch block
      → bytes ≡ total_len serialized_len block
      → Fits budget block
      → pack serialized_len budget groups current bytes ≡ ok chunks
      → Packed budget (block ++ groups) chunks
  unfolding pack
  Packed-pack budget [] block current bytes chunks c b fits done =
      let reached : last_chunk current (no_rows current) ≡ chunks = ok-injective _ _ done in
      same_packing budget (block ++ []) (block ++ []) chunks
        (last_chunk (merge empty_batch block) (no_rows (merge empty_batch block))) refl
        (cc (c, reached)) (Packed-last_chunk budget block fits _ refl)
  Packed-pack budget (group ∷ groups) block current bytes chunks c b fits done =
      let (size, h, rest) = >>=-eq-ok (serialized_len group) _ done in
      let full = is_full budget current bytes size in
      let (found, packing, flush) =
        >>=-eq-ok
          (pack serialized_len budget groups (extend (kept full current) group)
            (counted full bytes + size))
          (prepend (flushed full current)) rest in
      Packed-flushed budget groups found
        (λ next batch count same total fit run.
          Packed-pack budget groups next batch count found same total fit run)
        block group current bytes size chunks c b fits h full refl packing (ok-injective _ _ flush)

module _ (serialized_len : BatchCreate → Result Error ℕ) (size : BatchCreate → ℕ)
    (has_length : (group : BatchCreate) → serialized_len group ≡ ok (size group)) where
  pack-ok :
      (budget : ℕ) (groups : List BatchCreate) (current : BatchCreate) (bytes : ℕ)
      → (chunks : List BatchCreate) × (pack serialized_len budget groups current bytes ≡ ok chunks)
  unfolding pack
  pack-ok budget [] current bytes = (last_chunk current (no_rows current), refl)
  pack-ok budget (group ∷ groups) current bytes =
      let full = is_full budget current bytes (size group) in
      let (found, packing) =
        pack-ok budget groups (extend (kept full current) group)
          (counted full bytes + size group) in
      (flushed full current ++ found, rw (has_length group, packing) refl)

  -- If every group has a length, then a batch is split into requests, which are the merged blocks
  -- of consecutive groups, in order and none empty. A block is within the budget, or only its last
  -- group has rows. What no request has is without rows.
  pub split_batch_lem :
      (batch : BatchCreate) (max_bytes : ℕ)
      → (chunks : List BatchCreate) × (split_batch serialized_len batch max_bytes ≡ ok chunks)
        × Packed serialized_len (body_budget max_bytes) (batch_dependency_groups batch) chunks
  unfolding split_batch merge total_len
  split_batch_lem batch max_bytes =
      let groups = batch_dependency_groups batch in
      let (chunks, done) = pack-ok (body_budget max_bytes) groups empty_batch 0 in
      (
        chunks,
        done,
        Packed-pack serialized_len (body_budget max_bytes) groups [] empty_batch 0 chunks refl refl
            (inl (omega arith)) done,
      )
