-- ===== src/Gate/Decide/Worker.antt =====
-- Histories of a gate in block mode over the worker ledger: requests and responses in any order, the
-- responses with any tickets, as the workers' filters interleave them.
use agent_governance_policie.Prelude.{
  ℕ, ◌+◌, ◌^◌, ◌≤◌, ◌<◌, ◌≡◌, ◌⊎◌, refl, inl, inr, Option, some, Bool-cases, List, [], ◌∷◌, length,
  String, arith,
}
use agent_governance_policie.Scope.Types.{Timeout}
use agent_governance_policie.Scope.{ScopeState}
use agent_governance_policie.Scope.Exact.{max_units}
use agent_governance_policie.Ledger.{Inner, Ledger, empty, find}
use agent_governance_policie.Ledger.Run.{
  Call, reserves, commits, releases, step, run, run_within_budget,
}
use agent_governance_policie.Gate.Json.{Value}
use agent_governance_policie.Gate.Policy.{Mode, Gate}
use agent_governance_policie.Gate.Price.{RawBody}
use agent_governance_policie.Gate.Store.{worker}
use agent_governance_policie.Gate.Decide.{Identity, Ticket, decide, settle_ticket, is_success}
use agent_governance_policie.Gate.Decide.Block.{decide-ledger}

-- One filter's work: with the gateway clock and the call's own time, or with the response's status.
pub data Event : Type 0 where
  requests : Identity → (clock now : ℕ) → RawBody → Event
  responds : Ticket → (status now : ℕ) → Event

module _ (gate : Gate) (ledger : Ledger) (parse : List ℕ → Option Value)
    (digest : List ℕ → String → String) where
  unfoldable pub gate_step : Inner → Event → Inner
  unfolding decide settle_ticket
  gate_step inner (requests identity clock now raw) =
      (decide (worker ledger) parse digest gate identity clock now raw inner).ledger
  gate_step inner (responds ticket status now) =
      (settle_ticket (worker ledger) parse digest ticket status now inner).0

  unfoldable pub gate_run : Inner → List Event → Inner
  unfolding gate_step
  gate_run inner [] = inner
  gate_run inner (event ∷ events) = gate_run (gate_step inner event) events

  settle_ticket-step :
      (inner : Inner) (ticket : Ticket) (status now : ℕ)
      → let after = (settle_ticket (worker ledger) parse digest ticket status now inner).0 in
        ((after ≡ inner) ⊎ ((call : Call) × (after ≡ step ledger gate.aggregate_budget inner call)))
  unfolding settle_ticket step
  settle_ticket-step inner (Ticket.unreserved shown) status now = inl refl
  settle_ticket-step inner (Ticket.reserved shown r) status now =
      elim (Bool-cases (is_success status)) [
        | inl e ↦ inr (commits r now, rw (e, settle_ticket))
        | inr e ↦ inr (releases r now, rw (e, settle_ticket))
      ]

  gate_step-step :
      (inner : Inner) (event : Event)
      → gate.mode ≡ Mode.block
      → (gate_step inner event ≡ inner)
        ⊎ ((call : Call) × (gate_step inner event ≡ step ledger gate.aggregate_budget inner call))
  unfolding gate_step step
  gate_step-step inner (requests identity clock now raw) mode =
      elim (decide-ledger (worker ledger) parse digest gate identity clock now raw inner mode) [
        | inl e ↦ inl e
        | inr (key, amount, e) ↦ inr (reserves clock key amount now, e)
      ]
  gate_step-step inner (responds ticket status now) mode =
      settle_ticket-step inner ticket status now

  -- In block mode a history of the gate is a history of its worker ledger, with no more calls than the
  -- gate has events: the gate makes no other change to the ledger.
  pub gate_run-run :
      (inner : Inner) (events : List Event)
      → gate.mode ≡ Mode.block
      → (calls : List Call) × (length calls ≤ length events)
        × (gate_run inner events ≡ run ledger gate.aggregate_budget inner calls)
  unfolding gate_run run
  gate_run-run inner [] mode = ([], omega arith, refl)
  gate_run-run inner (event ∷ events) mode =
      let (calls, bound, same) = gate_run-run (gate_step inner event) events mode in
      elim (gate_step-step inner event mode) [
        | inl e ↦ (calls, omega (arith, bound), rw (same, e))
        | inr (call, e) ↦ (call ∷ calls, omega (arith, bound), rw (same, e))
      ]

  -- A gate in block mode, whose reservations are charged at their timeout, never takes a scope over
  -- its budget: after any requests, with any bodies, identities and clocks, and any responses, with
  -- any tickets and statuses, fewer than 2^128 - 1 in all, each scope has at most the budget, itself at
  -- most MAX_UNITS, committed and reserved together.
  pub gate_within_budget :
      (events : List Event) (scope : String) (s : ScopeState)
      → gate.mode ≡ Mode.block
      → ledger.timeout ≡ Timeout.commit
      → gate.aggregate_budget ≤ max_units
      → length events + 1 < 2 ^ 128
      → find scope (gate_run empty events).scopes ≡ some s
      → s.committed + s.reserved ≤ gate.aggregate_budget
  gate_within_budget events scope s mode timeout top small e =
      let (calls, bound, same) = gate_run-run empty events mode in
      run_within_budget ledger gate.aggregate_budget top timeout calls scope s
        (omega (arith, bound, small)) (rw same at e)
