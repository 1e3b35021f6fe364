-- ===== src/Binding.antt =====
-- The policy of approval-execution-binding/src/lib.rs.
pub mod Predicates
pub mod Request
pub mod Record
pub mod Freshness
pub mod Evaluate
pub mod Nonce
