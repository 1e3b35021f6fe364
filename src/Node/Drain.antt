-- ===== src/Node/Drain.antt =====
-- The commits that a worker holds back, tried again: `drain_pending` in
-- aggregate-risk-gate/src/node_ledger.rs.
use agent_governance_policie.Prelude.{
  ℕ, zero, suc, ◌+◌, Bool, true, false, not, ◌||◌, Option, none, some, List, [], ◌∷◌, ◌++◌, ltb,
  leb, if◌then◌else◌, sat_add, Result, ok, err,
}
use agent_governance_policie.Scope.Types.{Settlement, Refusal, at_capacity, contention, unavailable}
use agent_governance_policie.Node.Store.{StoreError, Answer, as_count}
use agent_governance_policie.Node.Worker.{
  NodeLedger, Pending, Step, pure, ◌>>=◌, when◌then◌else◌, get_as, ask, change, key,
  marker_count_key, count_outcome, drain_retries, drain_per_call, missing_record_limit,
}
use agent_governance_policie.Node.Marker.{Read, new, read}
use agent_governance_policie.Node.Commit.{persist_commit}
use agent_governance_policie.Node.Settle.{try_settle, charge, is_not_active}

-- The queue of the worker: its front taken, and an entry put at its back or its front.
unfoldable pub front : List Pending → Option Pending
front [] = none
front (entry ∷ rest) = some entry

unfoldable pub rest_of : List Pending → List Pending
rest_of [] = []
rest_of (entry ∷ rest) = rest

unfoldable pub pop_front : Step (Option Pending)
pop_front = do
  entry ← ask (λ w. front w.pending)
  _ ← change (λ w. record w { pending = rest_of w.pending })
  pure entry

unfoldable pub push_back : Pending → Step (Unit {0})
push_back entry = change (λ w. record w { pending = w.pending ++ entry ∷ [] })

unfoldable pub push_front : Pending → Step (Unit {0})
push_front entry = change (λ w. record w { pending = entry ∷ w.pending })

-- `outcome.filter(|o| *o != NotActive)`.
unfoldable pub active_outcome : Option Settlement → Option Settlement
unfolding is_not_active
active_outcome none = none
active_outcome (some outcome) = if is_not_active outcome then none else some outcome

-- Whether a refusal of an entry counts towards its limit, once the record is known to be missing.
unfoldable pub is_limited : Pending → Refusal → Bool
is_limited entry at_capacity = not entry.marker_cap_blocked
is_limited entry _ = false

unfoldable pub is_missing : Answer Read → Bool
is_missing (ok (new _ _)) = true
is_missing _ = false

module _ (ledger : NodeLedger) where
  unfoldable pub has_room : Step Bool
  has_room = do
    answer ← get_as as_count (marker_count_key ledger)
    elim answer [ ok (some (count, _)) ↦ pure (ltb count ledger.max_scopes) | _ ↦ pure false ]

  -- An entry that waits for a marker's slot: the entry to try now, or none if it keeps waiting.
  unfoldable pub unblock : Pending → ℕ → Step (Option Pending)
  unblock entry now =
      when entry.marker_cap_blocked
      then (do
        persisted ← persist_commit ledger entry.reservation now
        (when persisted
            then pure (some (record entry { persisted = true; marker_cap_blocked = false }))
            else (do
              room ← has_room
              (when ltb now (sat_add entry.reservation.expires_at ledger.ttl) || not room
                  then (do _ ← push_back entry; pure none)
                  else pure (some entry)))))
      else pure (some entry)

  unfoldable pub drain_entry : Pending → ℕ → Step (Result (Option Settlement) Refusal)
  drain_entry entry now =
      when entry.persisted
      then (do
        answer ← try_settle ledger entry.reservation now true drain_retries
        elim answer [
          | ok outcome ↦ pure (ok (active_outcome outcome))
          | err StoreError.failed ↦ pure (err unavailable)
          | err StoreError.cas_mismatch ↦ pure (err contention)
        ])
      else (do
        answer ← charge ledger entry.reservation now drain_retries
        elim answer [ ok outcome ↦ pure (ok (some outcome)) | err refusal ↦ pure (err refusal) ])

  -- An entry that was refused, the store being up: kept, or dropped at its limit.
  unfoldable pub requeue : Pending → Refusal → Step (Unit {0})
  requeue entry refusal =
      when is_limited entry refusal
      then (do
        answer ← read (key ledger entry.reservation.scope)
        (when is_missing answer
            then (let attempts = entry.missing_record_attempts + 1 in
                when leb missing_record_limit attempts
                then pure tt
                else push_back (record entry { missing_record_attempts = attempts }))
            else push_back entry))
      else push_back entry

  -- What becomes of an entry that was tried; `again` is the rest of the queue's turn.
  unfoldable pub drained :
      Pending → Result (Option Settlement) Refusal → Step (Unit {0}) → Step (Unit {0})
  drained entry (ok none) again = again
  drained entry (ok (some outcome)) again = do _ ← count_outcome outcome; again
  drained entry (err unavailable) again = push_front entry
  drained entry (err refusal) again = do _ ← requeue entry refusal; again

  unfoldable pub drain_loop : ℕ → ℕ → Step (Unit {0})
  drain_loop zero now = pure tt
  drain_loop (suc rounds) now = do
    popped ← pop_front
    elim popped [
      | none ↦ pure tt
      | some entry ↦ (do
        ready ← unblock entry now
        elim ready [
          | none ↦ drain_loop rounds now
          | some entry ↦ (do
            result ← drain_entry entry now
            drained entry result (drain_loop rounds now))
        ])
    ]

  unfoldable pub drain_pending : ℕ → Step (Unit {0})
  drain_pending now = drain_loop drain_per_call now
