-- ===== src/Bundle.antt =====
-- secrets/bundle.rs: the shards that credentials are stored in, their names and their capacity.
pub mod Names
pub mod Capacity
pub mod Merge
use ferrum_edge_git_forge_op.Base.{
  ℕ, zero, suc, ◌+◌, ◌*◌, ◌-◌, ◌/◌, ◌%◌, Text, codes, List, [], ◌∷◌, ◌++◌, Bool, true, false, not,
  ◌&&◌, ◌||◌, Option, none, some, eqb, leb, ltb, text_eq, text_key, nat_key, ◌==◌, if◌then◌else◌,
  Result, ok, err,
}
use ferrum_edge_git_forge_op.Base.Map
use ferrum_edge_git_forge_op.Base.Map.{Map}

abbrev pub CredentialBundle : Type 0
CredentialBundle = Map Text Text

abbrev pub Shards : Type 0
Shards = Map ℕ CredentialBundle

abbrev pub bundle_soft_limit_bytes : ℕ
bundle_soft_limit_bytes = 40960

abbrev pub max_bundle_shards : ℕ
max_bundle_shards = 16

abbrev pub bundle_secret_prefix : Text
bundle_secret_prefix = codes "FERRUM_CREDS_BUNDLE"

-- `u32::MAX`.
abbrev pub u32_max : ℕ
u32_max = 4294967295

pub data BundleError : Type 0 where
  not_canonical : Text → BundleError
  shards_full : Text → Text → BundleError

-- The decimal digits of a number, before a text; the fuel bounds their number.
unfoldable pub digits_before : ℕ → ℕ → Text → Text
digits_before zero n rest = rest
digits_before (suc fuel) n rest =
    let higher = digits_before fuel (n / 10) ((48 + n % 10) ∷ rest) in
    if ltb n 10 then (48 + n) ∷ rest else higher

-- A 32-bit number has at most ten digits.
unfoldable pub show_u32 : ℕ → Text
unfolding digits_before
show_u32 n = digits_before 10 n []

abbrev pub is_digit : ℕ → Bool
is_digit c = leb 48 c && leb c 57

-- The digits that follow a number. A number too large for 32 bits is refused.
unfoldable pub read_digits : Text → ℕ → Option ℕ
read_digits [] n = some n
read_digits (c ∷ s) n =
    let rest = read_digits s (n * 10 + (c - 48)) in
    if is_digit c && leb (n * 10 + (c - 48)) u32_max then rest else none

-- `str::parse::<u32>`: an optional plus sign, and at least one digit.
abbrev pub parse_unsigned : Text → Option ℕ
parse_unsigned [] = none
parse_unsigned (c ∷ s) = read_digits (c ∷ s) 0

unfoldable pub parse_u32 : Text → Option ℕ
unfolding read_digits
parse_u32 [] = none
parse_u32 (c ∷ s) = if eqb c b'+' then parse_unsigned s else parse_unsigned (c ∷ s)

unfoldable pub shard_secret_name : ℕ → Text
unfolding show_u32
shard_secret_name zero = bundle_secret_prefix
shard_secret_name (suc n) = bundle_secret_prefix ++ (b'_' ∷ show_u32 (suc n))

-- `str::strip_prefix`.
unfoldable pub strip_prefix : Text → Text → Option Text
strip_prefix [] s = some s
strip_prefix (x ∷ xs) [] = none
strip_prefix (x ∷ xs) (c ∷ s) = let rest = strip_prefix xs s in if eqb x c then rest else none

-- What follows the prefix, as the index that it names.
abbrev pub shard_suffix : Text → Option ℕ
shard_suffix [] = some 0
shard_suffix (c ∷ s) = if eqb c b'_' then parse_u32 s else none

abbrev pub canonical_shard : Text → Option ℕ → Result BundleError (Option ℕ)
canonical_shard secret_name none = err (not_canonical secret_name)
canonical_shard secret_name (some shard) =
    if shard_secret_name shard == secret_name
    then ok (some shard)
    else err (not_canonical secret_name)

abbrev pub named_shard : Text → Option Text → Result BundleError (Option ℕ)
named_shard secret_name none = ok none
named_shard secret_name (some suffix) = canonical_shard secret_name (shard_suffix suffix)

unfoldable pub parse_shard_index : Text → Result BundleError (Option ℕ)
unfolding strip_prefix parse_u32 shard_secret_name text_eq
parse_shard_index secret_name =
    named_shard secret_name (strip_prefix bundle_secret_prefix secret_name)

-- A later shard's value of a slot replaces an earlier one's.
unfoldable pub merge_into : CredentialBundle → CredentialBundle → CredentialBundle
merge_into [] merged = merged
merge_into ((slot, value) ∷ bundle) merged = merge_into bundle (Map.insert merged slot value)

unfoldable pub merge_shards : Shards → CredentialBundle → CredentialBundle
unfolding merge_into
merge_shards [] merged = merged
merge_shards ((_, bundle) ∷ shards) merged = merge_shards shards (merge_into bundle merged)

unfoldable pub merge_bundles : Shards → CredentialBundle
unfolding merge_shards
merge_bundles shards = merge_shards shards []

-- The bytes of a character and of a text in UTF-8.
abbrev pub char_bytes : ℕ → ℕ
char_bytes c = if ltb c 128 then 1 else if ltb c 2048 then 2 else if ltb c 65536 then 3 else 4

unfoldable pub text_bytes : Text → ℕ
text_bytes [] = 0
text_bytes (c ∷ s) = char_bytes c + text_bytes s

-- SHA-256 and serde are parameters: the first eight bytes of the digest of a slot, as a number, and
-- the length of a bundle's JSON text.
pub record Sizing : Type 0 where
  pub digest : Text → ℕ
  pub json_bytes : CredentialBundle → ℕ

abbrev pub min : ℕ → ℕ → ℕ
min a b = if leb a b then a else b

-- The count is one at least in every round, so the sixteenth is the last.
abbrev pub loop_fuel : ℕ
loop_fuel = 16

abbrev pub at_least_one : ℕ → ℕ
at_least_one zero = 1
at_least_one (suc n) = suc n

module _ (sizing : Sizing) (slot : Text) (value_len : ℕ) (shards : Shards) where
  abbrev existing_bytes : Option CredentialBundle → ℕ
  existing_bytes none = 2
  existing_bytes (some bundle) = sizing.json_bytes bundle

  unfoldable pub projected_shard_size : ℕ → ℕ
  unfolding text_bytes
  projected_shard_size target =
      existing_bytes (Map.get shards target) + text_bytes slot + value_len + 8

  unfoldable pub fits : ℕ → Bool
  unfolding projected_shard_size
  fits shard = leb (projected_shard_size shard) bundle_soft_limit_bytes

  -- The shards from `from` on, of which `left` remain.
  unfoldable pub probe : ℕ → ℕ → ℕ → Option ℕ
  unfolding fits
  probe target from zero = none
  probe target from (suc left) =
      let rest = probe target (from + 1) left in
      if not (eqb from target) && fits from then some from else rest

  -- The choice among the addressable shards.
  unfoldable pub pick_among : ℕ → ℕ → Option ℕ
  unfolding probe fits
  pick_among addressable target = if fits target then some target else probe target 0 addressable

  unfoldable pub pick_shard : ℕ → Option ℕ
  unfolding pick_among
  pick_shard zero = some 0
  pick_shard (suc n) =
      let addressable = min (suc n) max_bundle_shards in
      pick_among addressable (sizing.digest slot % addressable)

  -- The first shard that holds a slot.
  unfoldable pub holder : Shards → Option ℕ
  holder [] = none
  holder ((index, bundle) ∷ more) =
      let rest = holder more in if Map.contains_key bundle slot then some index else rest

  -- One round of the loop, with what the next rounds give.
  abbrev pub settle_shard :
      Text → ℕ → Option ℕ → Option (Result BundleError ℕ × ℕ) → Option (Result BundleError ℕ × ℕ)
  settle_shard operation count (some index) more = some (ok index, count)
  settle_shard operation count none more =
      if leb max_bundle_shards count then some (err (shards_full slot operation), count) else more

  -- The loop of `reserve_shard`, with the count that it leaves; `none` is a loop out of fuel.
  unfoldable pub reserve_loop : ℕ → ℕ → Text → Option (Result BundleError ℕ × ℕ)
  unfolding pick_shard
  reserve_loop zero shard_count operation = none
  reserve_loop (suc fuel) shard_count operation =
      let count = at_least_one shard_count in
      let more = reserve_loop fuel (suc count) operation in
      settle_shard operation count (pick_shard count) more

  abbrev pub reserved : Option ℕ → ℕ → Text → Option (Result BundleError ℕ × ℕ)
  reserved (some existing) shard_count operation = some (ok existing, shard_count)
  reserved none shard_count operation = reserve_loop loop_fuel shard_count operation

  unfoldable pub reserve_shard : ℕ → Text → Option (Result BundleError ℕ × ℕ)
  unfolding holder reserve_loop
  reserve_shard shard_count operation = reserved (holder shards) shard_count operation
