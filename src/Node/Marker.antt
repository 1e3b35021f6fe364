-- ===== src/Node/Marker.antt =====
-- The commit markers of a reservation, and the touches that claim them:
-- aggregate-risk-gate/src/node_ledger.rs.
use agent_governance_policie.Prelude.{
  ℕ, zero, suc, ◌+◌, ◌-◌, Bool, true, false, Option, none, some, List, [], ◌∷◌, String, leb,
  if◌then◌else◌, ok, err,
}
use text.Mathlib.Text.{starts_with}
use agent_governance_policie.Scope.{ScopeState}
use agent_governance_policie.Node.Store.{
  StoreError, Put, Record, Marker, Answer, Found, record_cell, marker_cell, count_cell, as_record,
  as_marker, as_count, mode_of,
}
use agent_governance_policie.Node.Worker.{
  NodeLedger, Step, pure, ◌>>=◌, when◌then◌else◌, get_as, store_put, store_keys, change, key,
  marker_key, marker_prefix, marker_count_key, marker_retries, settle_retries,
}

-- What a scope key held when it was read.
pub data Read : Type 0 where
  new : Option String → ℕ → Read
  live : ScopeState → String → Read
  is_doomed : Read

unfoldable pub read_of : Found Record → Read
read_of none = new none 0
read_of (some (Record.scope state, version)) = live state version
read_of (some (Record.vacant _ period, version)) = new (some version) period
read_of (some (Record.doomed _ _, _)) = is_doomed

unfoldable pub read : String → Step (Answer Read)
read key = do
  answer ← get_as as_record key
  elim answer [ err e ↦ pure (err e) | ok found ↦ pure (ok (read_of found)) ]

unfoldable pub put_record : String → Option String → Record → Step (Answer (Unit {0}))
put_record key version r = store_put key (mode_of version) (record_cell r)

unfoldable pub count_prefixed : String → List String → ℕ
count_prefixed prefix [] = 0
count_prefixed prefix (k ∷ ks) =
    let rest = count_prefixed prefix ks in if starts_with k prefix then suc rest else rest

unfoldable pub set_refused : Bool → Step (Unit {0})
set_refused refused = change (λ w. record w { marker_cap_refused = refused })

module _ (ledger : NodeLedger) where
  unfoldable pub read_marker : ℕ → Step (Answer (Found Marker))
  read_marker id = get_as as_marker (marker_key ledger id)

  unfoldable pub refuse_slot : Step (Answer (Unit {0}))
  refuse_slot = do _ ← set_refused true; pure (err StoreError.failed)

  -- A round of `marker_slot` from the count on; `again` is the rounds that are left.
  unfoldable pub marker_slot_at :
      ℕ → Option String → Step (Answer (Unit {0})) → Step (Answer (Unit {0}))
  marker_slot_at count version again =
      when leb ledger.max_scopes count
      then (elim version [
        | some _ ↦ refuse_slot
        | none ↦ (do
          answer ← store_put (marker_count_key ledger) Put.absent (count_cell count)
          elim answer [
            | ok _ ↦ refuse_slot
            | err StoreError.cas_mismatch ↦ again
            | err StoreError.failed ↦ pure (err StoreError.failed)
          ])
      ])
      else (do
        answer ← store_put (marker_count_key ledger) (mode_of version) (count_cell (count + 1))
        elim answer [
          | ok _ ↦ pure (ok tt)
          | err StoreError.cas_mismatch ↦ again
          | err StoreError.failed ↦ pure (err StoreError.failed)
        ])

  unfoldable pub marker_slot : ℕ → Step (Answer (Unit {0}))
  marker_slot zero = pure (err StoreError.cas_mismatch)
  marker_slot (suc rounds) = do
    answer ← get_as as_count (marker_count_key ledger)
    elim answer [
      | err e ↦ pure (err e)
      | ok (some (count, version)) ↦ marker_slot_at count (some version) (marker_slot rounds)
      | ok none ↦ (do
        listed ← store_keys
        elim listed [
          | err e ↦ pure (err e)
          | ok ks ↦
              marker_slot_at (count_prefixed (marker_prefix ledger) ks) none (marker_slot rounds)
        ])
    ]

  unfoldable pub release_marker_slot : ℕ → Step (Unit {0})
  release_marker_slot zero = pure tt
  release_marker_slot (suc rounds) = do
    answer ← get_as as_count (marker_count_key ledger)
    elim answer [
      | err _ ↦ pure tt
      | ok none ↦ pure tt
      | ok (some (count, version)) ↦ (do
        written ← store_put (marker_count_key ledger) (Put.cas version) (count_cell (count - 1))
        elim written [ err StoreError.cas_mismatch ↦ release_marker_slot rounds | _ ↦ pure tt ])
    ]

  -- The write itself, and the slot that a definite mismatch gives back.
  unfoldable pub write_marker : Marker → Option String → Step (Answer (Unit {0}))
  write_marker marker version = do
    result ← store_put (marker_key ledger marker.id) (mode_of version) (marker_cell marker)
    elim version [
      | some _ ↦ pure result
      | none ↦ elim result [
        | err StoreError.cas_mismatch ↦ (do
          _ ← release_marker_slot settle_retries
          pure (err StoreError.cas_mismatch))
        | err StoreError.failed ↦ pure (err StoreError.failed)
        | ok _ ↦ pure (ok tt)
      ]
    ]

  unfoldable pub put_marker : Marker → Option String → Step (Answer (Unit {0}))
  put_marker marker version = do
    _ ← set_refused false
    elim version [
      | some read ↦ write_marker marker (some read)
      | none ↦ (do
        slot ← marker_slot marker_retries
        elim slot [ err e ↦ pure (err e) | ok _ ↦ write_marker marker none ])
    ]
