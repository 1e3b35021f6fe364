-- ===== src/Node/Claim.antt =====
-- The touches that claim markers, and the reconciliation of a scope's record with them:
-- aggregate-risk-gate/src/node_ledger.rs.
use agent_governance_policie.Prelude.{
  ℕ, zero, suc, Bool, true, false, not, ◌&&◌, Option, none, some, List, [], ◌∷◌, String,
  if◌then◌else◌, wrap_add, ok, err,
}
use agent_governance_policie.Scope.Types.{Timeout, Settlement}
use agent_governance_policie.Scope.{ScopeState, due, holds, max}
use agent_governance_policie.Scope
use agent_governance_policie.Node.Store.{StoreError, Mark, Marker, Answer}
use agent_governance_policie.Node.Worker.{
  NodeLedger, Step, pure, ◌>>=◌, when◌then◌else◌, ask, marker_retries,
}
use agent_governance_policie.Node.Marker.{read_marker, put_marker}

-- Whether a mark keeps a claim from writing its own.
unfoldable pub is_kept : Timeout → Bool → Mark → Bool
is_kept timeout tombstone Mark.provisional = true
is_kept timeout tombstone Mark.dropped = true
is_kept timeout tombstone _ =
    not tombstone && elim timeout [ Timeout.release ↦ true | Timeout.commit ↦ false ]

unfoldable pub claim_mark : Timeout → Bool → Mark
claim_mark Timeout.commit tombstone = Mark.provisional
claim_mark Timeout.release true = Mark.dropped
claim_mark Timeout.release false = Mark.expired

module _ (ledger : NodeLedger) where
  -- A round of `claim` from the marker's version on.
  unfoldable pub claim_with : Marker → Option String → Step (Answer Bool) → Step (Answer Bool)
  claim_with marker version again = do
    written ← put_marker ledger marker version
    elim written [
      | ok _ ↦ pure (ok false)
      | err StoreError.cas_mismatch ↦ again
      | err StoreError.failed ↦ (do
        refused ← ask (λ w. w.marker_cap_refused)
        pure (if refused then ok false else err StoreError.failed))
    ]

  -- A round of `claim` whose marker was found, by its mark.
  unfoldable pub claim_found :
      Marker → Bool → Mark → String → Step (Answer Bool) → Step (Answer Bool)
  claim_found mine tombstone Mark.commit version again = pure (ok true)
  claim_found mine tombstone m version again =
      when is_kept ledger.timeout tombstone m
      then pure (ok false)
      else claim_with mine (some version) again

  unfoldable pub claim_loop : ℕ → Marker → Bool → Step (Answer Bool)
  claim_loop zero mine tombstone = pure (err StoreError.cas_mismatch)
  claim_loop (suc rounds) mine tombstone = do
    answer ← read_marker ledger mine.id
    elim answer [
      | err e ↦ pure (err e)
      | ok none ↦ claim_with mine none (claim_loop rounds mine tombstone)
      | ok (some (found, version)) ↦
          claim_found mine tombstone found.mark version (claim_loop rounds mine tombstone)
    ]

  unfoldable pub claim : String → ℕ → ℕ → Bool → Step (Answer Bool)
  claim scope_key id expires_at tombstone =
      claim_loop marker_retries
        (record {
          mark = claim_mark ledger.timeout tombstone;
          key = scope_key;
          id = id;
          expires_at = expires_at;
        })
        tombstone

  -- What `reconcile` does with the commit that a marker holds: the state, and whether it charged.
  unfoldable pub charge_marked : ScopeState → ℕ → ScopeState × ℕ
  charge_marked state id =
      let (after, outcome) = Scope.settle state id true in
      elim outcome [
        | Settlement.committed ↦ (after, 1)
        | Settlement.late_committed ↦ (after, 1)
        | _ ↦ (after, 0)
      ]

  -- The loop of `reconcile` over what is due.
  unfoldable pub reconcile_all :
      String → List (ℕ × ℕ × Bool) → ScopeState → ℕ → Step (Answer (ScopeState × ℕ))
  reconcile_all scope_key [] state charged = pure (ok (state, charged))
  reconcile_all scope_key ((id, expires_at, tombstone) ∷ rest) state charged = do
    claimed ← claim scope_key id expires_at tombstone
    elim claimed [
      | err e ↦ pure (err e)
      | ok false ↦ reconcile_all scope_key rest state charged
      | ok true ↦
          let (after, one) = charge_marked state id in
          reconcile_all scope_key rest after (wrap_add charged one)
    ]

  unfoldable pub reconcile : String → ScopeState → ℕ → Step (Answer (ScopeState × ℕ))
  reconcile scope_key state now = reconcile_all scope_key (due state now ledger.ttl) state 0
