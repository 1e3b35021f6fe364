-- ===== src/Node/Settle.antt =====
-- How a reservation is settled, and the commits that a worker holds back when it cannot: `try_settle`,
-- `charge`, `defer` and `drain_pending` in aggregate-risk-gate/src/node_ledger.rs.
use agent_governance_policie.Prelude.{
  ℕ, zero, suc, Bool, true, false, not, ◌&&◌, ◌||◌, Option, none, some, [], ◌∷◌, ◌++◌, length,
  String, ltb, leb, if◌then◌else◌, sat_add, wrap_add, Result, ok, err,
}
use agent_governance_policie.Scope.Types.{Timeout, Reservation, Settlement, Refusal, unavailable}
use agent_governance_policie.Scope.{ScopeState, is_idle, roll_to, reclaim, record_committed}
use agent_governance_policie.Scope
use agent_governance_policie.Scope.Idle.{period}
use agent_governance_policie.Node.Store.{StoreError, Record, Mark, Marker, Answer, Found}
use agent_governance_policie.Node.Worker.{
  NodeLedger, Step, pure, ◌>>=◌, when◌then◌else◌, change, key, count_touch, pending_limit,
}
use agent_governance_policie.Node.Marker.{new, live, is_doomed, read, put_record, read_marker}
use agent_governance_policie.Node.Claim.{reconcile}
use agent_governance_policie.Node.Commit.{persist_commit}
use agent_governance_policie.Node.Slots.{hint_idle}
use agent_governance_policie.Node.Sweep.{unchanged}
use agent_governance_policie.Node.Touch.{Change, mutate_core}

unfoldable pub is_not_active : Settlement → Bool
is_not_active Settlement.not_active = true
is_not_active _ = false

unfoldable pub add_counts : (ℕ × ℕ × ℕ) → (ℕ × ℕ × ℕ) → ℕ × ℕ × ℕ
add_counts (a, b, c) (d, e, f) = (wrap_add a d, wrap_add b e, wrap_add c f)

-- What a settlement's touches did to a record, and the record.
pub record Settled : Type 0 where
  pub state : ScopeState
  pub outcome : Settlement
  pub rolled : Bool
  pub charged : ℕ
  pub reclaimed : ℕ × ℕ × ℕ

unfoldable pub is_untouched : Settled → Bool
is_untouched done = is_not_active done.outcome && unchanged done.rolled done.charged done.reclaimed

-- The change that charges a commit: one that is not held is charged all the same.
unfoldable pub charge_outcome :
    Reservation → ScopeState → Settlement → ScopeState × Result Settlement Refusal
charge_outcome reservation after Settlement.not_active =
    (record_committed after reservation.contribution, ok Settlement.late_committed)
charge_outcome reservation after other = (after, ok other)

unfoldable pub charge_state : Reservation → Change Settlement
unfolding charge_outcome
charge_state reservation state =
    let (after, outcome) = Scope.settle state reservation.id true in
    charge_outcome reservation after outcome

-- `matches!(marker, Ok(Some((Marker { mark: Mark::Provisional, .. }, _))))`.
unfoldable pub is_provisional : Answer (Found Marker) → Bool
is_provisional (ok (some (marker, _))) = elim marker.mark [ Mark.provisional ↦ true | _ ↦ false ]
is_provisional _ = false

module _ (ledger : NodeLedger) where
  -- Under the commit timeout, what is expired is charged first.
  unfoldable pub settle_before :
      Timeout → String → ScopeState → ℕ → Step (Answer (ScopeState × ℕ × (ℕ × ℕ × ℕ)))
  settle_before Timeout.release scope_key state now = pure (ok (state, 0, (0, 0, 0)))
  settle_before Timeout.commit scope_key state now = do
    answer ← reconcile ledger scope_key state now
    elim answer [
      | err e ↦ pure (err e)
      | ok (reconciled, charged) ↦
          let (touched, reclaimed) = reclaim reconciled now ledger.ttl ledger.timeout in
          pure (ok (touched, charged, reclaimed))
    ]

  -- The settlement of a record that was read, as far as the write.
  unfoldable pub settle_read : String → ScopeState → ℕ → ℕ → Bool → Step (Answer Settled)
  settle_read scope_key state id now commit =
      let (rolled_state, rolled) = roll_to state (period ledger.window now) in
      do
        first ← settle_before ledger.timeout scope_key rolled_state now
        elim first [
          | err e ↦ pure (err e)
          | ok (ready, before_charged, before) ↦
              let (after, outcome) = Scope.settle ready id commit in
              do
                answer ← reconcile ledger scope_key after now
                elim answer [
                  | err e ↦ pure (err e)
                  | ok (reconciled, charged) ↦
                      let (touched, reclaimed) = reclaim reconciled now ledger.ttl ledger.timeout in
                      pure (
                        ok (record {
                          state = touched;
                          outcome = outcome;
                          rolled = rolled;
                          charged = wrap_add before_charged charged;
                          reclaimed = add_counts before reclaimed;
                        }))
                ]
        ]

  unfoldable pub settle_write :
      String
      → String
      → ℕ
      → Settled
      → Step (Answer (Option Settlement))
      → Step (Answer (Option Settlement))
  settle_write scope_key version now done again =
      when is_untouched done then pure (ok (some done.outcome)) else (do
        written ← put_record scope_key (some version) (Record.scope done.state)
        elim written [
          | ok _ ↦ (do
            _ ← count_touch done.reclaimed done.charged
            _ ← (when is_idle done.state then hint_idle ledger now else pure tt)
            pure (ok (some done.outcome)))
          | err StoreError.cas_mismatch ↦ again
          | err StoreError.failed ↦ pure (err StoreError.failed)
        ])

  unfoldable pub try_loop : ℕ → String → ℕ → ℕ → Bool → Step (Answer (Option Settlement))
  try_loop zero scope_key id now commit = pure (err StoreError.cas_mismatch)
  try_loop (suc rounds) scope_key id now commit = do
    answer ← read scope_key
    elim answer [
      | err e ↦ pure (err e)
      | ok is_doomed ↦ pure (ok none)
      | ok (new _ _) ↦ pure (ok none)
      | ok (live state version) ↦ (do
        settled ← settle_read scope_key state id now commit
        elim settled [
          | err e ↦ pure (err e)
          | ok done ↦
              settle_write scope_key version now done (try_loop rounds scope_key id now commit)
        ])
    ]

  unfoldable pub try_settle : Reservation → ℕ → Bool → ℕ → Step (Answer (Option Settlement))
  try_settle reservation now commit retries =
      try_loop retries (key ledger reservation.scope) reservation.id now commit

  -- `try_settle(..).map(|o| o.unwrap_or(NotActive)).map_err(unavailable)`.
  unfoldable pub settle_only : Reservation → ℕ → ℕ → Step (Result Settlement Refusal)
  settle_only reservation now retries = do
    answer ← try_settle reservation now true retries
    elim answer [
      | err _ ↦ pure (err unavailable)
      | ok none ↦ pure (ok Settlement.not_active)
      | ok (some outcome) ↦ pure (ok outcome)
    ]

  unfoldable pub is_past : Reservation → ℕ → Bool
  is_past reservation now = elim ledger.timeout [
    | Timeout.commit ↦ leb (sat_add reservation.expires_at ledger.ttl) now
    | Timeout.release ↦ false
  ]

  unfoldable pub charge : Reservation → ℕ → ℕ → Step (Result Settlement Refusal)
  charge reservation now retries =
      when is_past reservation now then settle_only reservation now retries else (do
        answer ← read_marker ledger reservation.id
        (when is_provisional answer
            then settle_only reservation now retries
            else mutate_core ledger (key ledger reservation.scope) now retries
                (charge_state reservation)))

  unfoldable pub defer : Reservation → ℕ → Bool → Step Settlement
  defer reservation now on_record = do
    persisted ← (when on_record then persist_commit ledger reservation now else pure false)
    _ ← change (λ w.
        if not persisted || ltb (length w.pending) pending_limit
        then record w {
          pending =
              w.pending
              ++ record {
                reservation = reservation;
                persisted = persisted;
                missing_record_attempts = 0;
                marker_cap_blocked = on_record && w.marker_cap_refused;
              }
                ∷ [];
        }
        else w)
    pure Settlement.deferred
