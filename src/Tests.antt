-- ===== src/Tests.antt =====
-- Concrete inputs, and each theorem of the list in Lib.antt applied to one.
pub mod Ledger
pub mod Gate
pub mod Identity
pub mod Binding
pub mod Node
pub mod Nonce
