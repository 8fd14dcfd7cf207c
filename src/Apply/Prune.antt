-- ===== src/Apply/Prune.antt =====
-- apply/api_target.rs: the guard against large prunes, and the refusal of a cached view.
pub mod Laws
use ferrum_edge_git_forge_op.Base.{
  ℕ, ◌+◌, ◌*◌, ◌/◌, ◌%◌, Text, codes, List, [], ◌∷◌, select, Bool, true, false, not, ◌&&◌, ◌||◌,
  Option, none, some, if◌then◌else◌, is_some, ltb, eqb, length,
}
use ferrum_edge_git_forge_op.Bundle.{digits_before}
use ferrum_edge_git_forge_op.Config.{Proxy, Upstream, PluginConfig, GatewayConfig}

-- Arithmetic of 128 bits.
unfoldable pub u128 : ℕ → ℕ
u128 n = n % 340282366920938463463374607431768211456

unfoldable pub large_prune_exceeds_threshold : ℕ → ℕ → ℕ → Bool
unfolding u128
large_prune_exceeds_threshold delete_count denominator threshold_percent =
    ltb 0 denominator && ltb (u128 (threshold_percent * denominator)) (u128 (delete_count * 100))

abbrev eligible : Bool → Option Text → Bool
eligible confirm_api_spec_deletion api_spec_id =
    confirm_api_spec_deletion || not (is_some api_spec_id)

unfoldable pub exclusive_prune_denominator : GatewayConfig → Bool → ℕ
unfolding select
exclusive_prune_denominator actual confirm =
    length actual.consumers
    + length (select (λ (r : Proxy). eligible confirm r.api_spec_id) actual.proxies)
    + length (select (λ (r : Upstream). eligible confirm r.api_spec_id) actual.upstreams)
    + length (select (λ (r : PluginConfig). eligible confirm r.api_spec_id) actual.plugin_configs)

-- `{}.{:02}` of the whole percents and the hundredths. A 128-bit number has at most 39 digits.
unfoldable pub print_percentage : ℕ → ℕ → Text
unfolding digits_before
print_percentage whole hundredths =
    digits_before 39 whole (b'.' ∷ (48 + hundredths / 10) ∷ (48 + hundredths % 10) ∷ [])

unfoldable pub format_prune_percentage : ℕ → ℕ → Text
unfolding u128 print_percentage
format_prune_percentage delete_count denominator =
    let basis_points = u128 (delete_count * 10000) / denominator in
    if eqb denominator 0
    then codes "0.00"
    else print_percentage (basis_points / 100) (basis_points % 100)

unfoldable pub stale_view_block : Bool → Option (Unit {0})
stale_view_block served_from_cache = if served_from_cache then some tt else none
