-- ===== src/Bundle/Names.antt =====
-- secrets/bundle.rs: the names of the shards' secrets are read back.
use ferrum_edge_git_forge_op.Base.{
  ℕ, zero, suc, ◌+◌, ◌*◌, ◌-◌, ◌/◌, ◌%◌, ◌<◌, ◌≤◌, Text, [], ◌∷◌, ◌++◌, ◌≡◌, refl, ap, ◌∙◌, Bool,
  true, false, some, eqb, leb, ltb, text_eq, ==_refl, ok, arith, Bool-cases, inl, inr, eqb_refl,
  ltb→lt, ◌&&◌,
}
use ferrum_edge_git_forge_op.Bundle.{
  u32_max, digits_before, show_u32, read_digits, parse_u32, shard_secret_name, strip_prefix,
  parse_shard_index, bundle_secret_prefix, canonical_shard, is_digit, shard_suffix, named_shard,
}

-- What stands behind the prefix in a name.
abbrev name_suffix : ℕ → Text
name_suffix zero = []
name_suffix (suc n) = b'_' ∷ show_u32 (suc n)

-- Ten to a power.
abbrev tens : ℕ → ℕ
tens zero = 1
tens (suc k) = 10 * tens k

read-digit :
    (d m n : ℕ) (rest : Text)
    → d < 10
    → m * 10 + d ≡ n
    → n ≤ u32_max
    → read_digits ((48 + d) ∷ rest) m ≡ read_digits rest n
unfolding read_digits
read-digit d m n rest small value bound =
    let digit : 48 + d - 48 ≡ d = omega arith in
    let accepted : (leb 48 (48 + d) && leb (48 + d) 57) && leb n u32_max ≡ true = ground arith in
    rw (digit, value, accepted)

-- With enough fuel, reading the digits of a number puts the number behind what was read.
read-digits_before :
    (fuel n : ℕ) (rest : Text)
    → n < tens fuel
    → n ≤ u32_max
    → read_digits (digits_before fuel n rest) 0 ≡ read_digits rest n
unfolding digits_before read_digits
read-digits_before zero n rest h bound = let n≡0 : n ≡ 0 = omega arith in rw n≡0
read-digits_before (suc fuel) n rest h bound = elim (Bool-cases (ltb n 10)) [
  | inl small ↦ rw small (read-digit n 0 n rest (ltb→lt n 10 small) (omega arith) bound)
  | inr large ↦ rw large (
      read-digits_before fuel (n / 10) ((48 + n % 10) ∷ rest) (omega arith) (omega arith)
      ∙ read-digit (n % 10) (n / 10) n rest (omega arith) (omega arith) bound)
]

strip_prefix-append : (xs s : Text) → strip_prefix xs (xs ++ s) ≡ some s
unfolding strip_prefix
strip_prefix-append [] s = refl
strip_prefix-append (x ∷ xs) s = rw (eqb_refl x) (strip_prefix-append xs s)

abbrev starts_with_digit : Text → Bool
starts_with_digit [] = false
starts_with_digit (c ∷ s) = is_digit c

is_digit-digit : (d : ℕ) → d < 10 → is_digit (48 + d) ≡ true
is_digit-digit d small = ground arith

digits_before-starts :
    (fuel n : ℕ) (rest : Text)
    → starts_with_digit rest ≡ true
    → starts_with_digit (digits_before fuel n rest) ≡ true
unfolding digits_before
digits_before-starts zero n rest h = h
digits_before-starts (suc fuel) n rest h = elim (Bool-cases (ltb n 10)) [
  | inl small ↦ rw small (is_digit-digit n (ltb→lt n 10 small))
  | inr large ↦ rw large (
      digits_before-starts fuel (n / 10) ((48 + n % 10) ∷ rest)
        (is_digit-digit (n % 10) (omega arith)))
]

digits-starts : (fuel n : ℕ) → starts_with_digit (digits_before (suc fuel) n []) ≡ true
unfolding digits_before
digits-starts fuel n = elim (Bool-cases (ltb n 10)) [
  | inl small ↦ rw small (is_digit-digit n (ltb→lt n 10 small))
  | inr large ↦ rw large (
      digits_before-starts fuel (n / 10) ((48 + n % 10) ∷ [])
        (is_digit-digit (n % 10) (omega arith)))
]

parse_u32-digits : (s : Text) → starts_with_digit s ≡ true → parse_u32 s ≡ read_digits s 0
unfolding parse_u32
parse_u32-digits [] h = cc
parse_u32-digits (c ∷ s) h = let unsigned : eqb c b'+' ≡ false = ground arith in rw unsigned

read-nothing : (n : ℕ) → read_digits [] n ≡ some n
unfolding read_digits
read-nothing n = refl

parse-show : (n : ℕ) → n ≤ u32_max → parse_u32 (show_u32 n) ≡ some n
unfolding show_u32
parse-show n bound =
    parse_u32-digits (digits_before 10 n []) (digits-starts 9 n)
    ∙ read-digits_before 10 n [] (omega arith) bound
    ∙ read-nothing n

strip_prefix-name :
    (n : ℕ) → strip_prefix bundle_secret_prefix (shard_secret_name n) ≡ some (name_suffix n)
unfolding shard_secret_name strip_prefix
strip_prefix-name zero = refl
strip_prefix-name (suc n) = strip_prefix-append bundle_secret_prefix (b'_' ∷ show_u32 (suc n))

shard_suffix-name : (n : ℕ) → n ≤ u32_max → shard_suffix (name_suffix n) ≡ some n
shard_suffix-name zero bound = refl
shard_suffix-name (suc n) bound = parse-show (suc n) bound

-- The name of a shard's secret is read back as the shard, for every 32-bit index.
pub parse_shard_index-shard_secret_name :
    (n : ℕ) → n ≤ u32_max → parse_shard_index (shard_secret_name n) ≡ ok (some n)
unfolding parse_shard_index
parse_shard_index-shard_secret_name n bound =
    ap (named_shard (shard_secret_name n)) (strip_prefix-name n)
    ∙ ap (canonical_shard (shard_secret_name n)) (shard_suffix-name n bound)
    ∙ rw (==_refl (shard_secret_name n))
