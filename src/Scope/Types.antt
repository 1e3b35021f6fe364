-- ===== src/Scope/Types.antt =====
-- The values that the ledger's operations take and return: aggregate-risk-gate/src/ledger.rs.
-- A `u64` or a `u128` is a number; the scope's name is a text.
use agent_governance_policie.Prelude.{ℕ, Option, String}

-- What happens to a reservation at its deadline.
pub data Timeout : Type 0 where
  commit release : Timeout

unfoldable pub timeout_label : Timeout → String
timeout_label Timeout.commit = "commit"
timeout_label Timeout.release = "release"

-- One reservation on a scope's record, in flight or as a tombstone.
pub record Held : Type 0 where
  pub contribution : ℕ
  pub expires_at : ℕ
  pub provisional_period : Option ℕ

-- What a successful `reserve` or `force_reserve` returns.
pub record Reservation : Type 0 where
  pub id : ℕ
  pub scope : String
  pub contribution : ℕ
  pub created_at : ℕ
  pub expires_at : ℕ
  pub total : ℕ

pub data Settlement : Type 0 where
  committed released late_committed late_released refunded already_charged not_active deferred :
      Settlement

unfoldable pub settlement_label : Settlement → String
settlement_label Settlement.committed = "committed"
settlement_label Settlement.released = "released"
settlement_label Settlement.late_committed = "late-committed"
settlement_label Settlement.late_released = "late-released"
settlement_label Settlement.refunded = "refunded"
settlement_label Settlement.already_charged = "already-charged"
settlement_label Settlement.not_active = "not-active"
settlement_label Settlement.deferred = "deferred"

-- An attempt that would have gone over the budget.
pub record Denial : Type 0 where
  pub scope : String
  pub contribution : ℕ
  pub current_total : ℕ
  pub would_be_total : ℕ
  pub budget : ℕ

pub data Refusal : Type 0 where
  over_budget : Denial → Refusal
  at_capacity contention unavailable saturated stale : Refusal
