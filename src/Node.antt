-- ===== src/Node.antt =====
-- The node-wide ledger of aggregate-risk-gate/src/node_ledger.rs.
pub mod Store
pub mod Worker
pub mod Keys
pub mod Marker
pub mod Claim
pub mod Commit
pub mod Slots
pub mod Sweep
pub mod Touch
pub mod Settle
pub mod Drain
pub mod Methods
pub mod Logic
pub mod Evolve
pub mod Upkeep
pub mod Safe
pub mod World
