-- ===== src/Apply/Groups/Split.antt =====
-- http_client.rs: `split_batch` packs the dependency groups into requests below a number of bytes.
-- The length of a serialized group is a parameter: serde_json is not part of the repository.
use ferrum_edge_git_forge_op.Base.{
  ℕ, ◌+◌, ◌-◌, List, [], ◌∷◌, ◌++◌, Bool, true, false, not, ◌&&◌, eqb, ltb, if◌then◌else◌, length,
  Result, ok, ◌>>=◌,
}
use ferrum_edge_git_forge_op.Apply.Groups.{BatchCreate, empty_batch, batch_dependency_groups}
use ferrum_edge_git_forge_op.Apply.Outcome.{Error}

abbrev pub len : BatchCreate → ℕ
len batch =
    length batch.upstreams
    + length batch.consumers
    + length batch.proxies
    + length batch.plugin_configs

unfoldable pub no_rows : BatchCreate → Bool
no_rows batch = eqb (len batch) 0

unfoldable pub extend : BatchCreate → BatchCreate → BatchCreate
extend batch group = record {
  upstreams = batch.upstreams ++ group.upstreams;
  consumers = batch.consumers ++ group.consumers;
  plugin_configs = batch.plugin_configs ++ group.plugin_configs;
  proxies = batch.proxies ++ group.proxies;
}

abbrev pub batch_envelope_overhead : ℕ
batch_envelope_overhead = 512

-- `max_bytes.saturating_sub(BATCH_ENVELOPE_OVERHEAD).max(1)`
unfoldable pub body_budget : ℕ → ℕ
body_budget max_bytes =
    let left = max_bytes - batch_envelope_overhead in if ltb left 1 then 1 else left

unfoldable pub is_full : ℕ → BatchCreate → ℕ → ℕ → Bool
unfolding no_rows
is_full budget current bytes size = not (no_rows current) && ltb budget (bytes + size)

unfoldable pub last_chunk : BatchCreate → Bool → List BatchCreate
last_chunk current true = []
last_chunk current false = current ∷ []

-- A full chunk is pushed, and the next one starts with no rows and no bytes.
unfoldable pub flushed : Bool → BatchCreate → List BatchCreate
flushed true current = current ∷ []
flushed false current = []

unfoldable pub kept : Bool → BatchCreate → BatchCreate
kept true current = empty_batch
kept false current = current

unfoldable pub counted : Bool → ℕ → ℕ
counted true bytes = 0
counted false bytes = bytes

abbrev pub prepend : List BatchCreate → List BatchCreate → Result Error (List BatchCreate)
prepend flushed chunks = ok (flushed ++ chunks)

module _ (serialized_len : BatchCreate → Result Error ℕ) (budget : ℕ) where
  -- The loop over the groups, from the current chunk and its bytes.
  unfoldable pub pack : List BatchCreate → BatchCreate → ℕ → Result Error (List BatchCreate)
  unfolding no_rows is_full last_chunk extend flushed kept counted
  pack [] current bytes = ok (last_chunk current (no_rows current))
  pack (group ∷ groups) current bytes = serialized_len group >>= λ size.
      let full = is_full budget current bytes size in
      pack groups (extend (kept full current) group) (counted full bytes + size)
      >>= prepend (flushed full current)

unfoldable pub split_batch :
    (BatchCreate → Result Error ℕ) → BatchCreate → ℕ → Result Error (List BatchCreate)
unfolding batch_dependency_groups body_budget pack
split_batch serialized_len batch max_bytes =
    pack serialized_len (body_budget max_bytes) (batch_dependency_groups batch) empty_batch 0
