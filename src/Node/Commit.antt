-- ===== src/Node/Commit.antt =====
-- The commits that are kept in markers, and the markers' collection:
-- aggregate-risk-gate/src/node_ledger.rs.
use agent_governance_policie.Prelude.{
  ℕ, zero, suc, Bool, true, false, Option, none, some, String, ltb, leb, if◌then◌else◌, sat_add,
  sat_mul, ok, err,
}
use agent_governance_policie.Scope.Types.{Reservation}
use agent_governance_policie.Scope.{holds, max}
use agent_governance_policie.Node.Store.{StoreError, Mark, Marker, as_marker}
use agent_governance_policie.Node.Worker.{
  NodeLedger, Step, pure, ◌>>=◌, when◌then◌else◌, get_as, store_get, store_delete, store_now, key,
  marker_key, marker_retries, settle_retries, grace_ms,
}
use agent_governance_policie.Node.Marker.{
  Read, live, read, set_refused, read_marker, release_marker_slot, put_marker,
}

module _ (ledger : NodeLedger) where
  -- A round of `persist_commit`, once it is known what the marker holds.
  unfoldable pub persist_with : Marker → Option String → Step Bool → Step Bool
  persist_with marker version again = do
    written ← put_marker ledger marker version
    elim written [
      | ok _ ↦ pure true
      | err StoreError.cas_mismatch ↦ again
      | err StoreError.failed ↦ pure false
    ]

  -- A round whose marker was found, by its mark.
  unfoldable pub persist_found : Marker → Mark → String → Step Bool → Step Bool
  persist_found marker Mark.commit version again = pure true
  persist_found marker Mark.provisional version again = pure true
  persist_found marker Mark.expired version again = persist_with marker (some version) again
  persist_found marker _ version again = pure false

  unfoldable pub persist_loop : ℕ → Marker → Step Bool
  persist_loop zero marker = pure false
  persist_loop (suc rounds) marker = do
    answer ← read_marker ledger marker.id
    elim answer [
      | err _ ↦ pure false
      | ok none ↦ persist_with marker none (persist_loop rounds marker)
      | ok (some (found, version)) ↦
          persist_found marker found.mark version (persist_loop rounds marker)
    ]

  unfoldable pub persist_commit : Reservation → ℕ → Step Bool
  persist_commit reservation now = do
    _ ← set_refused false
    time ← store_now
    (when leb (sat_add reservation.expires_at ledger.ttl) (max now time)
        then pure false
        else persist_loop marker_retries (record {
          mark = Mark.commit;
          key = key ledger reservation.scope;
          id = reservation.id;
          expires_at = reservation.expires_at;
        }))

  -- The marker is deleted under its `collecting` mark; a delete that fails puts the old mark back.
  unfoldable pub delete_marker : String → Marker → String → Step (Unit {0})
  delete_marker marker_key marker version = do
    claimed ← put_marker ledger (record marker { mark = Mark.collecting }) (some version)
    elim claimed [
      | err _ ↦ pure tt
      | ok _ ↦ (do
        deleted ← store_delete marker_key
        elim deleted [
          | ok _ ↦ release_marker_slot ledger settle_retries
          | err _ ↦ (do
            again ← store_get marker_key
            elim again [
              | err _ ↦ pure tt
              | ok none ↦ release_marker_slot ledger settle_retries
              | ok (some (_, latest)) ↦ (do _ ← put_marker ledger marker (some latest); pure tt)
            ])
        ])
    ]

  unfoldable pub collect_marked : String → Marker → Mark → String → Step (Unit {0})
  collect_marked marker_key marker Mark.collecting version = pure tt
  collect_marked marker_key marker _ version = delete_marker marker_key marker version

  -- Whether the scope record still holds the marker's reservation.
  unfoldable pub still_held : Read → ℕ → Bool
  unfolding holds
  still_held (live state _) id = holds state id
  still_held _ id = false

  unfoldable pub collect_marker : String → ℕ → Step (Unit {0})
  collect_marker marker_key clock = do
    answer ← get_as as_marker marker_key
    elim answer [
      | err _ ↦ pure tt
      | ok none ↦ pure tt
      | ok (some (marker, version)) ↦
          when ltb clock (sat_add (sat_add marker.expires_at (sat_mul ledger.ttl 2)) grace_ms)
          then pure tt
          else (do
            at ← read marker.key
            elim at [
              | err _ ↦ pure tt
              | ok r ↦
                  when still_held r marker.id
                  then pure tt
                  else collect_marked marker_key marker marker.mark version
            ])
    ]
