-- ===== src/Node/Safe/Charge.antt =====
-- A commit that is charged, and one that is held back, keep to the protocol:
-- aggregate-risk-gate/src/node_ledger.rs.
use mathlib.Core.Path.{subst}
use agent_governance_policie.Prelude.{
  ℕ, Bool, true, some, String, ◌≡◌, ◌⊎◌, ap, ◌∙◌, refl, inl, inr, Result, ok, err,
}
use agent_governance_policie.Scope.Types.{Reservation, Settlement, Refusal}
use agent_governance_policie.Scope.{ScopeState, settle}
use agent_governance_policie.Node.Store.{Record, Cell, record_cell}
use agent_governance_policie.Node.Worker.{NodeLedger, key}
use agent_governance_policie.Node.Settle.{charge_outcome, charge_state, settle_only, charge, defer}
use agent_governance_policie.Node.Logic.{
  Keeps, Any, >>=-Keeps, pure-Keeps, weaken, when-Keeps, change-Keeps,
}
use agent_governance_policie.Node.Logic.Cases.{then_found}
use agent_governance_policie.Node.Evolve.{Moves, settles, charges}
use agent_governance_policie.Node.Upkeep.{IsReady}
use agent_governance_policie.Node.Safe.Marker.{protocol}
use agent_governance_policie.Node.Safe.Claim.{read_marker-Keeps, persist_commit-Keeps}
use agent_governance_policie.Node.Safe.Touch.{IsWritten, IsChange, mutate_core-Keeps}
use agent_governance_policie.Node.Safe.Settle.{HasOutcome, IsSettled, try_settle-Keeps}

module _ (ledger : NodeLedger) (content : String → String → Cell)
    (Done : String → Cell → Type 0) where
  -- The charge of a record that the store held at the key, or of an empty one, after its upkeep.
  abbrev pub IsChargeOf : Reservation → ScopeState → Settlement → Type 0
  IsChargeOf reservation u outcome =
      (s : ScopeState) × IsReady ledger content (key ledger reservation.scope) s
      × (charge_state reservation s ≡ (u, ok outcome))

  -- A charge is the outcome of the settlement, or what `charge_state` makes of the record.
  unfoldable pub IsCharged : Reservation → Settlement → Type 0
  IsCharged reservation outcome =
      (outcome ≡ Settlement.not_active)
      ⊎ ((u : ScopeState) × Done (key ledger reservation.scope) (record_cell (Record.scope u))
          × (HasOutcome ledger content Done (key ledger reservation.scope) reservation.id true u
                outcome
              ⊎ IsChargeOf reservation u outcome))

  abbrev MayBeCharged : Reservation → Result Settlement Refusal → Type 0
  MayBeCharged reservation (ok outcome) = IsCharged reservation outcome
  MayBeCharged reservation (err refusal) = Unit

  pub settled-IsCharged :
      (reservation : Reservation) (outcome : Settlement)
      → IsSettled ledger content Done
          (key ledger reservation.scope)
          reservation.id
          true
          (ok (some outcome))
      → IsCharged reservation outcome
  unfolding IsCharged IsSettled
  settled-IsCharged reservation outcome (inl e) = inl e
  settled-IsCharged reservation outcome (inr (u, done, has)) = inr (u, done, inl has)

  settle_only-Keeps :
      (reservation : Reservation) (now retries : ℕ)
      → Keeps
          (protocol ledger content Done)
          (settle_only ledger reservation now retries)
          (MayBeCharged reservation)
  unfolding settle_only IsCharged
  settle_only-Keeps reservation now retries =
      then_found _ (try_settle-Keeps ledger content Done reservation now true retries)
        (λ outcome h. pure-Keeps _ (settled-IsCharged reservation outcome h))
        (λ h. pure-Keeps _ (inl refl)) (λ e h. pure-Keeps _ tt)

  charge_outcome-Moves :
      (reservation : Reservation) (s t : ScopeState) (outcome : Settlement)
      → Moves ledger s t
      → Moves ledger s (charge_outcome reservation t outcome).0
  unfolding charge_outcome
  charge_outcome-Moves reservation s t Settlement.not_active moves = charges _ moves refl
  charge_outcome-Moves reservation s t Settlement.committed moves = moves
  charge_outcome-Moves reservation s t Settlement.released moves = moves
  charge_outcome-Moves reservation s t Settlement.late_committed moves = moves
  charge_outcome-Moves reservation s t Settlement.late_released moves = moves
  charge_outcome-Moves reservation s t Settlement.refunded moves = moves
  charge_outcome-Moves reservation s t Settlement.already_charged moves = moves
  charge_outcome-Moves reservation s t Settlement.deferred moves = moves

  charge_state-IsChange :
      (reservation : Reservation)
      → IsChange ledger content Done
          (IsChargeOf reservation)
          (key ledger reservation.scope)
          (charge_state reservation)
  unfolding charge_state
  charge_state-IsChange reservation s t result ready e = (
    λ u moves.
        subst (λ (p : ScopeState × Result Settlement Refusal). Moves ledger u p.0) e
          (charge_outcome-Moves reservation u _ (settle s reservation.id true).1
            (settles reservation.id true moves refl)),
    λ r same. (s, ready, e ∙ ap (λ (q : Result Settlement Refusal). (t, q)) same),
  )

  charged-MayBeCharged :
      (reservation : Reservation) (r : Result Settlement Refusal)
      → IsWritten ledger content Done (IsChargeOf reservation) (key ledger reservation.scope) r
      → MayBeCharged reservation r
  unfolding IsWritten IsCharged
  charged-MayBeCharged reservation (ok outcome) (u, done, charge_of) = inr (u, done, inr charge_of)
  charged-MayBeCharged reservation (err refusal) h = tt

  pub charge-Keeps :
      (reservation : Reservation) (now retries : ℕ)
      → Keeps
          (protocol ledger content Done)
          (charge ledger reservation now retries)
          (MayBeCharged reservation)
  unfolding charge
  charge-Keeps reservation now retries =
      when-Keeps _ (λ past. settle_only-Keeps reservation now retries)
        (λ held. >>=-Keeps (read_marker-Keeps ledger content Done reservation.id) λ found h.
          when-Keeps _ (λ provisional. settle_only-Keeps reservation now retries)
            (λ other.
              weaken
                (mutate_core-Keeps ledger content Done (IsChargeOf reservation) _ now retries _
                  (charge_state-IsChange reservation))
                (charged-MayBeCharged reservation)))

  pub defer-Keeps :
      (reservation : Reservation) (now : ℕ) (on_record : Bool)
      → Keeps
          (protocol ledger content Done)
          (defer ledger reservation now on_record)
          (λ outcome. outcome ≡ Settlement.deferred)
  unfolding defer
  defer-Keeps reservation now on_record =
      >>=-Keeps
        (when-Keeps {Q = Any} _
          (λ recorded. persist_commit-Keeps ledger content Done reservation now)
          (λ unrecorded. pure-Keeps _ tt))
        λ persisted h. >>=-Keeps (change-Keeps _) λ a h. pure-Keeps _ refl
