-- ===== src/Node/Slots.antt =====
-- The count of scopes and the record that coordinates sweeps:
-- aggregate-risk-gate/src/node_ledger.rs.
use agent_governance_policie.Prelude.{
  ℕ, zero, suc, ◌-◌, Option, none, some, String, ltb, if◌then◌else◌, sat_add, ok, err,
}
use agent_governance_policie.Scope.{max}
use agent_governance_policie.Node.Store.{
  StoreError, Sweep, Answer, Found, count_cell, sweep_cell, as_count, as_sweep, mode_of,
}
use agent_governance_policie.Node.Worker.{
  NodeLedger, Step, pure, ◌>>=◌, when◌then◌else◌, get_as, store_get, store_put, count_key,
  sweep_key, gc_interval_ms, min_rescan_ms,
}

unfoldable pub no_sweep : Sweep
no_sweep = record { not_before = 0; next_gc = 0; cursor = none; next_foreign_log = 0 }

-- A value that was found, with its version, or the default with none.
unfoldable pub or_default : {A : Type 0} → A → Found A → A × Option String
or_default a none = (a, none)
or_default a (some (b, version)) = (b, some version)

-- How `adjust_count` changes the count.
pub data Delta : Type 0 where
  more fewer : ℕ → Delta

unfoldable pub apply_delta : Delta → ℕ → ℕ
apply_delta (Delta.more n) count = sat_add count n
apply_delta (Delta.fewer n) count = count - n

module _ (ledger : NodeLedger) where
  unfoldable pub read_count : Step (Answer (ℕ × Option String))
  read_count = do
    answer ← get_as as_count (count_key ledger)
    elim answer [ err e ↦ pure (err e) | ok found ↦ pure (ok (or_default 0 found)) ]

  unfoldable pub put_count : ℕ → Option String → Step (Answer (Unit {0}))
  put_count count version = store_put (count_key ledger) (mode_of version) (count_cell count)

  unfoldable pub adjust_count : ℕ → Delta → Step (Unit {0})
  adjust_count zero delta = pure tt
  adjust_count (suc rounds) delta = do
    answer ← read_count
    elim answer [
      | err _ ↦ pure tt
      | ok (count, version) ↦ (do
        written ← put_count (apply_delta delta count) version
        elim written [ err StoreError.cas_mismatch ↦ adjust_count rounds delta | _ ↦ pure tt ])
    ]

  unfoldable pub read_sweep : Step (Answer (Sweep × Option String))
  read_sweep = do
    answer ← get_as as_sweep (sweep_key ledger)
    elim answer [ err e ↦ pure (err e) | ok found ↦ pure (ok (or_default no_sweep found)) ]

  -- The write, and the version that the worker then owns.
  unfoldable pub put_sweep : Sweep → Option String → Step (Answer String)
  put_sweep s version = do
    written ← store_put (sweep_key ledger) (mode_of version) (sweep_cell s)
    elim written [
      | err e ↦ pure (err e)
      | ok _ ↦ (do
        answer ← store_get (sweep_key ledger)
        elim answer [
          | err e ↦ pure (err e)
          | ok none ↦ pure (err StoreError.failed)
          | ok (some (_, mine)) ↦ pure (ok mine)
        ])
    ]

  -- A settlement left a scope idle: the next sweep may come sooner.
  unfoldable pub hint_idle : ℕ → Step (Unit {0})
  hint_idle now = do
    answer ← read_sweep
    elim answer [
      | err _ ↦ pure tt
      | ok (_, none) ↦ pure tt
      | ok (s, some version) ↦
          let soonest = max (sat_add (s.next_gc - gc_interval_ms) min_rescan_ms) now in
          when ltb soonest s.not_before
          then (do _ ← put_sweep (record s { not_before = soonest }) (some version); pure tt)
          else pure tt
    ]
