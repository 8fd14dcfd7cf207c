-- ===== src/Apply/Groups/Blocks.antt =====
-- http_client.rs: blocks of dependency groups, merged into one request, and their bytes.
use ferrum_edge_git_forge_op.Base.{
  ℕ, ◌+◌, ◌≡◌, refl, List, [], ◌∷◌, ◌++◌, true, false, Result, ok, err, arith,
}
use ferrum_edge_git_forge_op.Apply.Groups.{BatchCreate}
use ferrum_edge_git_forge_op.Apply.Groups.Split.{no_rows, extend, is_full}
use ferrum_edge_git_forge_op.Apply.Outcome.{Error}

-- A batch extended by each group in turn.
unfoldable pub merge : BatchCreate → List BatchCreate → BatchCreate
merge batch [] = batch
merge batch (group ∷ groups) = merge (extend batch group) groups

abbrev size_or_zero : Result Error ℕ → ℕ
size_or_zero (err failure) = 0
size_or_zero (ok size) = size

unfoldable pub total_len : (BatchCreate → Result Error ℕ) → List BatchCreate → ℕ
total_len serialized_len [] = 0
total_len serialized_len (group ∷ groups) =
    size_or_zero (serialized_len group) + total_len serialized_len groups

unfoldable pub concat : List (List BatchCreate) → List BatchCreate
concat [] = []
concat (block ∷ blocks) = block ++ concat blocks

pub merge_snoc :
    (batch : BatchCreate) (groups : List BatchCreate) (group : BatchCreate)
    → merge batch (groups ++ group ∷ []) ≡ extend (merge batch groups) group
unfolding merge
merge_snoc batch [] group = refl
merge_snoc batch (g ∷ groups) group = merge_snoc (extend batch g) groups group

pub full_has_rows :
    (budget : ℕ) (current : BatchCreate) (bytes size : ℕ)
    → is_full budget current bytes size ≡ true
    → no_rows current ≡ false
unfolding is_full
full_has_rows budget current bytes size full = ground arith

module _ (serialized_len : BatchCreate → Result Error ℕ) where
  pub total_len_snoc :
      (groups : List BatchCreate) (group : BatchCreate) (size : ℕ)
      → serialized_len group ≡ ok size
      → total_len serialized_len (groups ++ group ∷ []) ≡ total_len serialized_len groups + size
  unfolding total_len
  total_len_snoc [] group size h = rw (h) (omega arith)
  total_len_snoc (g ∷ groups) group size h = rw (total_len_snoc groups group size h) (omega arith)
