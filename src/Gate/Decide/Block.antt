-- ===== src/Gate/Decide/Block.antt =====
-- What block mode lets through, and what monitor mode never does.
use agent_governance_policie.Prelude.{
  ℕ, ◌≡◌, ◌⊎◌, refl, sym, inl, inr, Option, List, String, ok, Result-cases,
}
use agent_governance_policie.Scope.Types.{Reservation}
use agent_governance_policie.Gate.Json.{Value}
use agent_governance_policie.Gate.Policy.{Mode, Gate}
use agent_governance_policie.Gate.Price.{RawBody, as_bytes, Outcome, compute_contribution}
use agent_governance_policie.Gate.Rpc.{Response}
use agent_governance_policie.Gate.Reason.{DenyReason}
use agent_governance_policie.Gate.Store.{LedgerStore}
use agent_governance_policie.Gate.Decide.{
  Identity, Ticket, Flow, refuse, admit_block, admit, charge_key, unpriced, decide_key,
  decide_outcome, decide,
}

apart : {r : Response} {t : Ticket} → Flow.break r ≡ Flow.continue t → ⊥
apart e = cc

ticket_of : {s t : Ticket} → Flow.continue s ≡ Flow.continue t → s ≡ t
ticket_of e = cc

module _ (store : LedgerStore) where
  -- What is behind a call that goes through: `reserve` of `amount` under `key` answered `ok`, the ticket
  -- holds its reservation, and the ledger is the one that it left.
  unfoldable pub IsReserved :
      Gate → String → ℕ → ℕ → ℕ → store.State → Ticket → store.State → Type 0
  IsReserved gate key amount clock now state ticket after =
      let done = store.reserve state clock key amount gate.aggregate_budget now in
      (shown : String) × (r : Reservation) × (done.1 ≡ ok r)
      × (ticket ≡ Ticket.reserved shown r)
      × (after ≡ done.0)

  abbrev pub IsOneReserve : Gate → ℕ → ℕ → store.State → store.State → Type 0
  IsOneReserve gate clock now state after =
      (after ≡ state)
      ⊎ ((key : String) × (amount : ℕ) × (after
            ≡ (store.reserve state clock key amount gate.aggregate_budget now).0))

module _ (store : LedgerStore) (parse : List ℕ → Option Value)
    (digest : List ℕ → String → String) where
  admit_block_forwards :
      (gate : Gate) (key : String) (amount clock now : ℕ) (echo : Option (List ℕ))
      (state : store.State) (ticket : Ticket)
      → (admit_block store parse digest gate key amount clock now echo state).flow
        ≡ Flow.continue ticket
      → IsReserved store gate key amount clock now state ticket
          (admit_block store parse digest gate key amount clock now echo state).ledger
  unfolding admit_block refuse IsReserved
  admit_block_forwards gate key amount clock now echo state ticket h =
      let done = store.reserve state clock key amount gate.aggregate_budget now in
      elim (Result-cases done.1) [
        | inl (r, e) ↦
            rw (e, admit_block) (_, r, refl, sym (ticket_of (rw (e, admit_block) at h)), refl)
        | inr (refusal, e) ↦ absurd (apart (rw (e, admit_block) at h))
      ]

  pub admit-block :
      (gate : Gate) (key : String) (amount clock now : ℕ) (echo : Option (List ℕ))
      (state : store.State)
      → gate.mode ≡ Mode.block
      → admit store parse digest gate key amount clock now echo state
        ≡ admit_block store parse digest gate key amount clock now echo state
  unfolding admit
  admit-block gate key amount clock now echo state mode = rw (mode, admit)

  unpriced_breaks :
      (gate : Gate) (reason : DenyReason) (key : String) (echo : Option (List ℕ))
      (state : store.State) (ticket : Ticket)
      → gate.mode ≡ Mode.block
      → (unpriced store parse digest gate reason key echo state).flow ≡ Flow.continue ticket
      → ⊥
  unfolding unpriced refuse
  unpriced_breaks gate reason key echo state ticket mode h = apart (rw (mode, unpriced) at h)

  -- From the outcome on.
  forwards_outcome :
      (gate : Gate) (outcome : Outcome) (identity : Identity) (clock now : ℕ)
      (echo : Option (List ℕ)) (state : store.State) (ticket : Ticket)
      → gate.mode ≡ Mode.block
      → let d = decide_outcome store parse digest gate outcome identity clock now echo state in
        (d.flow ≡ Flow.continue ticket
          → ((outcome ≡ Outcome.ungoverned) × (d.ledger ≡ state))
            ⊎ ((key : String) × (amount : ℕ) × (outcome ≡ Outcome.known amount)
                × (identity ≡ Identity.scope key)
                × IsReserved store gate key amount clock now state ticket d.ledger))
  unfolding decide_outcome charge_key decide_key
  forwards_outcome gate Outcome.ungoverned identity clock now echo state ticket mode h =
      inl (refl, refl)
  forwards_outcome gate (Outcome.known n) (Identity.scope key) clock now echo state ticket mode h =
      inr (
        key,
        n,
        refl,
        refl,
        (let same = admit-block gate key n clock now echo state mode in
            rw same (admit_block_forwards gate key n clock now echo state ticket (rw same at h))),
      )
  forwards_outcome gate Outcome.unpriceable (Identity.scope key) clock now echo state ticket mode
        h =
      absurd (unpriced_breaks gate DenyReason.unpriceable key echo state ticket mode h)
  forwards_outcome gate Outcome.out_of_range (Identity.scope key) clock now echo state ticket mode
        h =
      absurd (unpriced_breaks gate DenyReason.out_of_range key echo state ticket mode h)
  forwards_outcome gate (Outcome.known n) Identity.missing clock now echo state ticket mode h =
      absurd (apart (rw (mode, charge_key) at h))
  forwards_outcome gate (Outcome.known n) Identity.invalid clock now echo state ticket mode h =
      absurd (apart (rw (mode, charge_key) at h))
  forwards_outcome gate Outcome.unpriceable Identity.missing clock now echo state ticket mode h =
      absurd (apart (rw (mode, charge_key) at h))
  forwards_outcome gate Outcome.unpriceable Identity.invalid clock now echo state ticket mode h =
      absurd (apart (rw (mode, charge_key) at h))
  forwards_outcome gate Outcome.out_of_range Identity.missing clock now echo state ticket mode h =
      absurd (apart (rw (mode, charge_key) at h))
  forwards_outcome gate Outcome.out_of_range Identity.invalid clock now echo state ticket mode h =
      absurd (apart (rw (mode, charge_key) at h))

  -- In block mode a request goes through in two ways only. Either it has no governed call, and then
  -- the ledger is untouched; or it was priced at an exact amount, its identity gave a key, and the
  -- ledger reserved that amount under that key against the budget: the ticket holds the reservation.
  pub block_forwards :
      (gate : Gate) (identity : Identity) (clock now : ℕ) (raw : RawBody) (state : store.State)
      (ticket : Ticket)
      → gate.mode ≡ Mode.block
      → (decide store parse digest gate identity clock now raw state).flow ≡ Flow.continue ticket
      → let d = decide store parse digest gate identity clock now raw state in
        ((compute_contribution parse gate raw ≡ Outcome.ungoverned) × (d.ledger ≡ state))
        ⊎ ((key : String) × (amount : ℕ) × (compute_contribution parse gate raw
              ≡ Outcome.known amount)
            × (identity ≡ Identity.scope key)
            × IsReserved store gate key amount clock now state ticket d.ledger)
  unfolding decide
  block_forwards gate identity clock now raw state ticket mode h =
      forwards_outcome gate (compute_contribution parse gate raw) identity clock now (as_bytes raw)
        state ticket mode h

  -- The ledger after a decision, in block mode: as it was, or after one `reserve` under the budget.
  admit_block-ledger :
      (gate : Gate) (key : String) (amount clock now : ℕ) (echo : Option (List ℕ))
      (state : store.State)
      → (admit_block store parse digest gate key amount clock now echo state).ledger
        ≡ (store.reserve state clock key amount gate.aggregate_budget now).0
  unfolding admit_block
  admit_block-ledger gate key amount clock now echo state =
      elim (Result-cases (store.reserve state clock key amount gate.aggregate_budget now).1) [
        | inl (r, e) ↦ rw (e, admit_block)
        | inr (refusal, e) ↦ rw (e, admit_block)
      ]

  decide_key-ledger :
      (gate : Gate) (outcome : Outcome) (key : String) (clock now : ℕ) (echo : Option (List ℕ))
      (state : store.State)
      → gate.mode ≡ Mode.block
      → IsOneReserve store gate clock now state
          (decide_key store parse digest gate outcome key clock now echo state).ledger
  unfolding decide_key unpriced
  decide_key-ledger gate (Outcome.known n) key clock now echo state mode = inr (
    key,
    n,
    rw (admit-block gate key n clock now echo state mode)
        (admit_block-ledger gate key n clock now echo state),
  )
  decide_key-ledger gate Outcome.unpriceable key clock now echo state mode = inl refl
  decide_key-ledger gate Outcome.out_of_range key clock now echo state mode = inl refl
  decide_key-ledger gate Outcome.ungoverned key clock now echo state mode = inl refl

  decide_outcome-ledger :
      (gate : Gate) (outcome : Outcome) (identity : Identity) (clock now : ℕ)
      (echo : Option (List ℕ)) (state : store.State)
      → gate.mode ≡ Mode.block
      → IsOneReserve store gate clock now state
          (decide_outcome store parse digest gate outcome identity clock now echo state).ledger
  unfolding decide_outcome
  decide_outcome-ledger gate Outcome.ungoverned identity clock now echo state mode = inl refl
  decide_outcome-ledger gate (Outcome.known n) identity clock now echo state mode =
      elim (Result-cases (charge_key store parse digest gate identity)) [
        | inl (key, e) ↦
            rw (e, decide_outcome)
              (decide_key-ledger gate (Outcome.known n) key clock now echo state mode)
        | inr (reason, e) ↦ rw (e, decide_outcome) (inl refl)
      ]
  decide_outcome-ledger gate Outcome.unpriceable identity clock now echo state mode =
      elim (Result-cases (charge_key store parse digest gate identity)) [
        | inl (key, e) ↦ rw (e, decide_outcome) (inl refl)
        | inr (reason, e) ↦ rw (e, decide_outcome) (inl refl)
      ]
  decide_outcome-ledger gate Outcome.out_of_range identity clock now echo state mode =
      elim (Result-cases (charge_key store parse digest gate identity)) [
        | inl (key, e) ↦ rw (e, decide_outcome) (inl refl)
        | inr (reason, e) ↦ rw (e, decide_outcome) (inl refl)
      ]

  pub decide-ledger :
      (gate : Gate) (identity : Identity) (clock now : ℕ) (raw : RawBody) (state : store.State)
      → gate.mode ≡ Mode.block
      → IsOneReserve store gate clock now state
          (decide store parse digest gate identity clock now raw state).ledger
  unfolding decide
  decide-ledger gate identity clock now raw state mode =
      decide_outcome-ledger gate (compute_contribution parse gate raw) identity clock now
        (as_bytes raw) state mode
