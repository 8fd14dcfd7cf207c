-- ===== src/Apply.antt =====
-- apply/api_target.rs: the application of a diff through the gateway's admin API.
pub mod Index
pub mod Changes
pub mod Order
pub mod Groups
pub mod Outcome
pub mod Withhold
pub mod Run
pub mod Incremental
pub mod Compare
pub mod Adopt
pub mod Claim
pub mod Namespace
pub mod Prune
