-- ===== src/Gate/Store.antt =====
-- The `LedgerStore` that the gate decides over, and the worker ledger as one. A `reserve` reads the
-- gateway clock, which is its second argument.
use agent_governance_policie.Prelude.{ℕ, String, Bool, Result}
use agent_governance_policie.Scope.Types.{Reservation, Settlement, Refusal}
use agent_governance_policie.Ledger.{Inner, Ledger, reserve, force_reserve_checked, commit, release}
use agent_governance_policie.Ledger
use agent_governance_policie.Ledger.Stats.{LedgerStats}

pub record LedgerStore : Type 1 where
  pub State : Type 0
  pub reserve : State → ℕ → String → ℕ → ℕ → ℕ → State × Result Reservation Refusal
  pub force_reserve_checked :
      State → ℕ → String → ℕ → ℕ → ℕ → State × Result (Reservation × Bool) Refusal
  pub force_reserve : State → ℕ → String → ℕ → ℕ → State × Result Reservation Refusal
  pub commit : State → Reservation → ℕ → State × Settlement
  pub release : State → Reservation → ℕ → State × Settlement
  pub stats : State → LedgerStats

abbrev pub worker : Ledger → LedgerStore
worker ledger = record {
  State = Inner;
  reserve = Ledger.reserve ledger;
  force_reserve_checked = Ledger.force_reserve_checked ledger;
  commit = Ledger.commit ledger;
  release = Ledger.release ledger;
  force_reserve = Ledger.force_reserve ledger;
  stats = λ inner. inner.stats;
}
