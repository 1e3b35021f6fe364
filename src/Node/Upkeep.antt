-- ===== src/Node/Upkeep.antt =====
-- What a touch of a scope's record does to it before and after the operation itself: the roll to the
-- current period, the commits that markers hold, the reclaim. aggregate-risk-gate/src/node_ledger.rs.
use agent_governance_policie.Prelude.{ℕ, true, String, ◌≡◌, ◌⊎◌}
use agent_governance_policie.Scope.{ScopeState, at_period, roll_to, reclaim, settle}
use agent_governance_policie.Node.Store.{Record, Cell, record_cell}
use agent_governance_policie.Node.Worker.{NodeLedger}
use agent_governance_policie.Node.Evolve.{Moves, stays, rolls, reclaims, settles}

-- The steps of upkeep, of which none holds a reservation or releases one by its id.
pub data Upkeep (ledger : NodeLedger) (s : ScopeState) : ScopeState → Type 0 where
  as_read : Upkeep ledger s s
  at_new_period :
      {t u : ScopeState} (period : ℕ)
      → Upkeep ledger s t
      → (roll_to t period).0 ≡ u
      → Upkeep ledger s u
  expires :
      {t u : ScopeState} (now : ℕ)
      → Upkeep ledger s t
      → (reclaim t now ledger.ttl ledger.timeout).0 ≡ u
      → Upkeep ledger s u
  commits :
      {t u : ScopeState} (id : ℕ) → Upkeep ledger s t → (settle t id true).0 ≡ u → Upkeep ledger s u

pub Upkeep-Moves : {ledger : NodeLedger} {s t : ScopeState} → Upkeep ledger s t → Moves ledger s t
Upkeep-Moves as_read = stays
Upkeep-Moves (at_new_period period rest e) = rolls period (Upkeep-Moves rest) e
Upkeep-Moves (expires now rest e) = reclaims now (Upkeep-Moves rest) e
Upkeep-Moves (commits id rest e) = settles id true (Upkeep-Moves rest) e

-- A state that the store held at the key under some version.
abbrev pub WasStored : (String → String → Cell) → String → ScopeState → Type 0
WasStored content key s = (version : String) × (record_cell (Record.scope s) ≡ content key version)

-- What an operation on a key is applied to: what the store held, or an empty record, after upkeep.
abbrev pub IsReady : NodeLedger → (String → String → Cell) → String → ScopeState → Type 0
IsReady ledger content key s =
    (r : ScopeState) × (WasStored content key r ⊎ ((period : ℕ) × (r ≡ at_period period)))
    × Upkeep ledger r s
