-- ===== src/Node/Methods.antt =====
-- The calls of the shared ledger: `mutate`, and the `LedgerStore` methods of `NodeLedger` in
-- aggregate-risk-gate/src/node_ledger.rs.
use agent_governance_policie.Prelude.{
  ℕ, Bool, true, false, not, ◌&&◌, Option, none, some, String, ltb, leb, ◌==◌, if◌then◌else◌,
  sat_add, wrap_add, u64_max, Result, ok, err,
}
use agent_governance_policie.Scope.Types.{
  Reservation, Settlement, Refusal, contention, unavailable, stale,
}
use agent_governance_policie.Scope.{ScopeState, check}
use agent_governance_policie.Scope
use agent_governance_policie.Ledger.Stats.{LedgerStats, settle_free}
use agent_governance_policie.Node.Worker.{
  NodeLedger, Step, pure, ◌>>=◌, when◌then◌else◌, on_ok, store_now, ask, change, key, next_id,
  count_outcome, unpersisted, reserve_retries, settle_retries, pending_limit,
}
use agent_governance_policie.Node.Store.{StoreError}
use agent_governance_policie.Node.Sweep.{maybe_collect}
use agent_governance_policie.Node.Touch.{Change, mutate_core}
use agent_governance_policie.Node.Settle.{try_settle, charge, defer}
use agent_governance_policie.Node.Drain.{drain_pending}

-- The changes of `reserve` and of the forced reservations.
unfoldable pub reserve_state : ℕ → String → ℕ → ℕ → ℕ → ℕ → Change Reservation
unfolding check Scope.hold
reserve_state id scope contribution budget now ttl state =
    elim (check state scope contribution budget) [
      | err refusal ↦ (state, err refusal)
      | ok _ ↦ Scope.hold state id scope contribution now ttl
    ]

unfoldable pub force_state : ℕ → String → ℕ → ℕ → ℕ → Change Reservation
unfolding Scope.hold
force_state id scope contribution now ttl state = Scope.hold state id scope contribution now ttl

unfoldable pub count_contended : {R : Type 0} → Result R Refusal → Step (Unit {0})
count_contended (err contention) =
    change (λ w. record w { stats = record w.stats { contended = wrap_add w.stats.contended 1 } })
count_contended (err unavailable) =
    change (λ w. record w { stats = record w.stats { contended = wrap_add w.stats.contended 1 } })
count_contended _ = pure tt

unfoldable pub count_active : ℕ → Step (Unit {0})
count_active contribution =
    when ltb 0 contribution
    then change (λ w. record w { stats = record w.stats { active = wrap_add w.stats.active 1 } })
    else pure tt

-- A zero-cost reservation is settled without its record; the statistics are the worker's.
unfoldable pub settle_zero : Reservation → Bool → Step (Option Settlement)
unfolding settle_free
settle_zero reservation commit w =
    let (stats, outcome) = settle_free w.stats reservation commit in
    pure outcome (record w { stats = stats })

unfoldable pub stats : Step LedgerStats
stats = ask (λ w. w.stats)

module _ (ledger : NodeLedger) where
  unfoldable pub mutate_inner : {R : Type 0} → String → ℕ → Change R → Step (Result R Refusal)
  mutate_inner scope now f = do
    _ ← maybe_collect ledger now
    _ ← drain_pending ledger now
    waiting ← ask (λ w. unpersisted w.pending)
    (when leb pending_limit waiting
        then pure (err contention)
        else mutate_core ledger (key ledger scope) now reserve_retries f)

  unfoldable pub mutate : {R : Type 0} → String → ℕ → Change R → Step (Result R Refusal)
  mutate scope now f = do result ← mutate_inner scope now f; _ ← count_contended result; pure result

  unfoldable pub check_fresh : ℕ → Step (Result (Unit {0}) Refusal)
  check_fresh now = do
    clock ← store_now
    (when not (clock == 0) && leb (sat_add now ledger.ttl) clock
        then pure (err stale)
        else pure (ok tt))

  -- A reservation by a change of the scope's record.
  unfoldable pub reserve_by :
      (ℕ → Change Reservation) → String → ℕ → ℕ → Step (Result Reservation Refusal)
  reserve_by f scope contribution now = on_ok (check_fresh now) λ _. (do
    id ← next_id ledger
    on_ok (mutate scope now (f id))
        λ reservation. (do _ ← count_active contribution; pure (ok reservation)))

  unfoldable pub reserve : String → ℕ → ℕ → ℕ → Step (Result Reservation Refusal)
  reserve scope contribution budget now =
      reserve_by (λ id. reserve_state id scope contribution budget now ledger.ttl) scope
        contribution now

  unfoldable pub force_reserve_checked :
      String → ℕ → ℕ → ℕ → Step (Result (Reservation × Bool) Refusal)
  force_reserve_checked scope contribution budget now =
      on_ok
        (reserve_by (λ id. force_state id scope contribution now ledger.ttl) scope contribution now)
        λ reservation. pure (ok (reservation, ltb budget reservation.total))

  unfoldable pub force_reserve : String → ℕ → ℕ → Step (Result Reservation Refusal)
  force_reserve scope contribution now =
      on_ok (force_reserve_checked scope contribution u64_max now) λ p. pure (ok (p.0))

  -- What a commit does by what `try_settle` gave.
  unfoldable pub commit_outcome :
      Reservation → ℕ → Result (Option Settlement) StoreError → Step Settlement
  commit_outcome reservation now (ok (some outcome)) = pure outcome
  commit_outcome reservation now (ok none) =
      when ltb now (sat_add reservation.expires_at ledger.ttl)
      then (do
        charged ← charge ledger reservation now settle_retries
        elim charged [ ok outcome ↦ pure outcome | err _ ↦ defer ledger reservation now false ])
      else pure Settlement.not_active
  commit_outcome reservation now (err _) = defer ledger reservation now true

  unfoldable pub release_outcome : Result (Option Settlement) StoreError → Settlement
  release_outcome (ok (some outcome)) = outcome
  release_outcome (ok none) = Settlement.not_active
  release_outcome (err _) = Settlement.deferred

  unfoldable pub commit : Reservation → ℕ → Step Settlement
  commit reservation now = do
    _ ← drain_pending ledger now
    free ← settle_zero reservation true
    elim free [
      | some outcome ↦ pure outcome
      | none ↦ (do
        answer ← try_settle ledger reservation now true settle_retries
        outcome ← commit_outcome reservation now answer
        _ ← count_outcome outcome
        pure outcome)
    ]

  unfoldable pub release : Reservation → ℕ → Step Settlement
  release reservation now = do
    _ ← drain_pending ledger now
    free ← settle_zero reservation false
    elim free [
      | some outcome ↦ pure outcome
      | none ↦ (do
        answer ← try_settle ledger reservation now false settle_retries
        let outcome = release_outcome answer
        _ ← count_outcome outcome
        pure outcome)
    ]
