-- ===== src/Apply/Prune/Laws.antt =====
-- apply/api_target.rs: the guard is exact.
use ferrum_edge_git_forge_op.Base.{
  ℕ, Text, codes, sym, ◌+◌, ◌*◌, ◌/◌, ◌%◌, ◌<◌, ◌≤◌, ◌≡◌, ◌↔◌, refl, Bool, true, false, ◌&&◌, ltb,
  eqb, if◌then◌else◌, arith,
}
use native.Mathlib.Nat.{mul-le-mul_right, div-le_of_le-mul, mul_comm, mul_assoc}
use ferrum_edge_git_forge_op.Bundle.{digits_before}
use ferrum_edge_git_forge_op.Apply.Prune.{
  print_percentage, u128, large_prune_exceeds_threshold, format_prune_percentage,
}

u128_small : (n : ℕ) → n < 340282366920938463463374607431768211456 → u128 n ≡ n
unfolding u128
u128_small n h = omega arith

percent_fits :
    (t n : ℕ) → t < 256 → n < 18446744073709551616 → t * n < 340282366920938463463374607431768211456
percent_fits t n small h =
    let bound : t * n ≤ 255 * n = mul-le-mul_right n (omega arith) in omega arith

ltb_iff : (a b : ℕ) → (ltb a b ≡ true) ↔ (a < b)
ltb_iff a b = (λ h. ground arith, λ h. ground arith)

exact :
    (d n t : ℕ)
    → d < 18446744073709551616
    → n < 18446744073709551616
    → t < 256
    → large_prune_exceeds_threshold d n t ≡ false
    → (ltb 0 n && ltb (t * n) (d * 100)) ≡ false
unfolding large_prune_exceeds_threshold
exact d n t small_d small_n small_t h =
    cc
      (h, u128_small (t * n) (percent_fits t n small_t small_n), u128_small (d * 100) (omega arith))

-- For 64-bit counts and an 8-bit threshold, the guard trips exactly if the denominator is not 0 and
-- a hundred times the deletes are more than the threshold times the denominator: no product wraps.
pub large_prune_exceeds_threshold_lem :
    (delete_count denominator threshold : ℕ)
    → delete_count < 18446744073709551616
    → denominator < 18446744073709551616
    → threshold < 256
    → (large_prune_exceeds_threshold delete_count denominator threshold ≡ true)
      ↔ ((0 < denominator) × (threshold * denominator < delete_count * 100))
unfolding large_prune_exceeds_threshold
large_prune_exceeds_threshold_lem d n t small_d small_n small_t =
    rw (u128_small (t * n) (percent_fits t n small_t small_n), u128_small (d * 100) (omega arith))
      (λ h. (ground arith, ground arith), λ (p, q). ground arith)

div_bound : (a n m : ℕ) → a ≤ n * m → a / n ≤ m
div_bound a n m h = div-le_of_le-mul n h

-- A text that prints a percentage of at most a number of hundredths of a percent.
abbrev pub PrintsAtMost : ℕ → Text → Type 0
PrintsAtMost most text =
    (whole : ℕ) × (hundredths : ℕ) × (text ≡ print_percentage whole hundredths)
    × (whole * 100 + hundredths ≤ most)
    × (hundredths < 100)

print_nothing : print_percentage 0 0 ≡ codes "0.00"
unfolding print_percentage digits_before
print_nothing = refl

printed_bounds :
    (zero_count : Bool) (points most : ℕ)
    → (zero_count ≡ false → points ≤ most)
    → PrintsAtMost most
        (if zero_count then codes "0.00" else print_percentage (points / 100) (points % 100))
printed_bounds true points most h = (0, 0, sym print_nothing, omega arith, omega arith)
printed_bounds false points most h =
    let bound = h refl in (points / 100, points % 100, refl, omega arith, omega arith)

not_over :
    (d n t : ℕ) → (ltb 0 n && ltb (t * n) (d * 100)) ≡ false → eqb n 0 ≡ false → d * 100 ≤ t * n
not_over d n t h positive = ground arith

scaled : (d n t : ℕ) → d * 100 ≤ t * n → d * 10000 ≤ n * (t * 100)
scaled d n t h =
    let more : (d * 100) * 100 ≤ (t * n) * 100 = mul-le-mul_right 100 h in
    let same : (t * n) * 100 ≡ n * (t * 100) = rw (mul_comm t n) (mul_assoc n t 100) in omega arith

-- For 64-bit counts and an 8-bit threshold, a prune that the guard lets through is printed as a
-- percentage with two decimals that is at most the threshold.
pub format_prune_percentage-bounds :
    (delete_count denominator threshold : ℕ)
    → delete_count < 18446744073709551616
    → denominator < 18446744073709551616
    → threshold < 256
    → large_prune_exceeds_threshold delete_count denominator threshold ≡ false
    → PrintsAtMost (threshold * 100) (format_prune_percentage delete_count denominator)
unfolding format_prune_percentage
format_prune_percentage-bounds d n t small_d small_n small_t allowed =
    printed_bounds (eqb n 0) (u128 (d * 10000) / n) (t * 100) (λ positive.
      rw (u128_small (d * 10000) (omega arith)) (
        div_bound (d * 10000) n (t * 100)
          (scaled d n t (not_over d n t (exact d n t small_d small_n small_t allowed) positive))))
