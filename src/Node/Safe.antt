-- ===== src/Node/Safe.antt =====
-- Every program of the node ledger keeps to its protocol: aggregate-risk-gate/src/node_ledger.rs.
pub mod Marker
pub mod Claim
pub mod Collect
pub mod Slots
pub mod Sweep
pub mod Scan
pub mod Touch
pub mod Settle
pub mod Charge
pub mod Drain
pub mod Reserve
pub mod Methods
