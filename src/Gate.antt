-- ===== src/Gate.antt =====
-- The filters of aggregate-risk-gate/src/lib.rs.
pub mod Text
pub mod Json
pub mod Policy
pub mod Price
pub mod Rpc
pub mod Reason
pub mod Store
pub mod Identity
pub mod Decide
