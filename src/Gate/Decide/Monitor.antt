-- ===== src/Gate/Decide/Monitor.antt =====
-- Monitor mode never refuses a call.
use agent_governance_policie.Prelude.{
  ℕ, ◌≡◌, refl, inl, inr, Option, List, String, ok, Result-cases,
}
use agent_governance_policie.Gate.Json.{Value}
use agent_governance_policie.Gate.Policy.{Mode, Gate}
use agent_governance_policie.Gate.Price.{RawBody, as_bytes, Outcome, compute_contribution}
use agent_governance_policie.Gate.Store.{LedgerStore}
use agent_governance_policie.Gate.Decide.{
  Identity, Ticket, Flow, admit_monitor, admit, charge_key, unpriced, decide_key, decide_outcome,
  decide,
}

-- The flow goes on with some ticket.
unfoldable pub GoesOn : Flow → Type 0
GoesOn flow = (ticket : Ticket) × (flow ≡ Flow.continue ticket)

module _ (store : LedgerStore) (parse : List ℕ → Option Value)
    (digest : List ℕ → String → String) where
  admit_monitor-GoesOn :
      (gate : Gate) (key : String) (amount clock now : ℕ) (state : store.State)
      → GoesOn (admit_monitor store parse digest gate key amount clock now state).flow
  unfolding GoesOn admit_monitor
  admit_monitor-GoesOn gate key amount clock now state =
      elim (Result-cases
        (store.force_reserve_checked state clock key amount gate.aggregate_budget now).1) [
          | inl (r, e) ↦ rw (e, admit_monitor) (_, refl)
          | inr (refusal, e) ↦ rw (e, admit_monitor) (_, refl)
        ]

  charge_key-ok :
      (gate : Gate) (identity : Identity)
      → gate.mode ≡ Mode.monitor
      → (key : String) × (charge_key store parse digest gate identity ≡ ok key)
  unfolding charge_key
  charge_key-ok gate (Identity.scope key) mode = (key, refl)
  charge_key-ok gate Identity.missing mode = rw (mode, charge_key) (_, refl)
  charge_key-ok gate Identity.invalid mode = rw (mode, charge_key) (_, refl)

  decide_key-GoesOn :
      (gate : Gate) (outcome : Outcome) (key : String) (clock now : ℕ) (echo : Option (List ℕ))
      (state : store.State)
      → gate.mode ≡ Mode.monitor
      → GoesOn (decide_key store parse digest gate outcome key clock now echo state).flow
  unfolding GoesOn decide_key admit unpriced
  decide_key-GoesOn gate (Outcome.known n) key clock now echo state mode =
      rw (mode, admit) (admit_monitor-GoesOn gate key n clock now state)
  decide_key-GoesOn gate Outcome.unpriceable key clock now echo state mode =
      rw (mode, unpriced) (_, refl)
  decide_key-GoesOn gate Outcome.out_of_range key clock now echo state mode =
      rw (mode, unpriced) (_, refl)
  decide_key-GoesOn gate Outcome.ungoverned key clock now echo state mode =
      rw (mode, unpriced) (_, refl)

  decide_outcome-GoesOn :
      (gate : Gate) (outcome : Outcome) (identity : Identity) (clock now : ℕ)
      (echo : Option (List ℕ)) (state : store.State)
      → gate.mode ≡ Mode.monitor
      → GoesOn (decide_outcome store parse digest gate outcome identity clock now echo state).flow
  unfolding GoesOn decide_outcome
  decide_outcome-GoesOn gate Outcome.ungoverned identity clock now echo state mode = (_, refl)
  decide_outcome-GoesOn gate (Outcome.known n) identity clock now echo state mode =
      let (key, e) = charge_key-ok gate identity mode in
      rw (e, decide_outcome)
        (decide_key-GoesOn gate (Outcome.known n) key clock now echo state mode)
  decide_outcome-GoesOn gate Outcome.unpriceable identity clock now echo state mode =
      let (key, e) = charge_key-ok gate identity mode in
      rw (e, decide_outcome)
        (decide_key-GoesOn gate Outcome.unpriceable key clock now echo state mode)
  decide_outcome-GoesOn gate Outcome.out_of_range identity clock now echo state mode =
      let (key, e) = charge_key-ok gate identity mode in
      rw (e, decide_outcome)
        (decide_key-GoesOn gate Outcome.out_of_range key clock now echo state mode)

  -- In monitor mode every request goes on to the upstream: whatever its body and identity, and
  -- whatever the ledger answers.
  pub monitor_never_denies :
      (gate : Gate) (identity : Identity) (clock now : ℕ) (raw : RawBody) (state : store.State)
      → gate.mode ≡ Mode.monitor
      → GoesOn (decide store parse digest gate identity clock now raw state).flow
  unfolding decide
  monitor_never_denies gate identity clock now raw state mode =
      decide_outcome-GoesOn gate (compute_contribution parse gate raw) identity clock now
        (as_bytes raw) state mode
