-- ===== src/Node/Sweep.antt =====
-- One scan of the namespace: `sweep` and what it calls in aggregate-risk-gate/src/node_ledger.rs.
use agent_governance_policie.Prelude.{
  ℕ, zero, suc, ◌+◌, ◌-◌, Bool, true, false, not, ◌&&◌, Option, none, some, List, [], ◌∷◌, length,
  String, ltb, leb, ◌==◌, if◌then◌else◌, sat_add, u64_max, ok, err,
}
use text.Mathlib.Text.{starts_with}
use agent_governance_policie.Scope.{ScopeState, is_idle, idle_at, roll_to, reclaim, max}
use agent_governance_policie.Scope.Idle.{period}
use agent_governance_policie.Node.Store.{StoreError, Record, Sweep, as_record}
use agent_governance_policie.Node.Worker.{
  NodeLedger, Step, pure, ◌>>=◌, when◌then◌else◌, get_as, store_get, store_delete, store_keys,
  store_now, ask, change, count_touch, scope_prefix, marker_prefix, marker_retries, settle_retries,
  grace_ms, recover_ms, min_rescan_ms, max_rescan_ms, gc_interval_ms, sweep_budget,
}
use agent_governance_policie.Node.Keys.{any_foreign, swept_keys, sort, past_cursor}
use agent_governance_policie.Node.Marker.{put_record}
use agent_governance_policie.Node.Claim.{reconcile}
use agent_governance_policie.Node.Commit.{collect_marker}
use agent_governance_policie.Node.Slots.{Delta, adjust_count, read_sweep, put_sweep}

abbrev pub min : ℕ → ℕ → ℕ
min a b = if leb a b then a else b

-- Whether a touch changed the record.
unfoldable pub unchanged : Bool → ℕ → (ℕ × ℕ × ℕ) → Bool
unchanged rolled charged (expired, abandoned, provisional) =
    not rolled && charged == 0 && (expired == 0 && abandoned == 0 && provisional == 0)

-- What a scan has found: the slots freed, when the next scope is idle, and how far it went.
pub record Scan : Type 0 where
  pub freed : ℕ
  pub next_idle : ℕ
  pub cursor : Option String
  pub processed : ℕ

module _ (ledger : NodeLedger) where
  unfoldable pub delete_vacant : String → String → ℕ → ℕ → ℕ → Step (Unit {0})
  delete_vacant key version since period now = do
    claimed ← put_record key (some version) (Record.doomed now period)
    elim claimed [
      | err _ ↦ pure tt
      | ok _ ↦ (do
        deleted ← store_delete key
        elim deleted [
          | ok _ ↦ pure tt
          | err _ ↦ (do
            again ← store_get key
            elim again [
              | err _ ↦ pure tt
              | ok none ↦ pure tt
              | ok (some (_, latest)) ↦ (do
                _ ← put_record key (some latest) (Record.vacant since period)
                pure tt)
            ])
        ])
    ]

  -- The record that the scan saves for a scope.
  unfoldable pub swept_record : ScopeState → ℕ → Record
  unfolding is_idle
  swept_record state clock =
      if is_idle state then Record.vacant clock state.period else Record.scope state

  -- The scope's rounds: whether a slot was freed, and when the next scope is idle.
  unfoldable pub sweep_scope : ℕ → String → ScopeState → String → ℕ → ℕ → ℕ → Step (Bool × ℕ)
  sweep_scope zero key state version now clock next_idle = pure (false, next_idle)
  sweep_scope (suc rounds) key state version now clock next_idle =
      let (rolled_state, rolled) = roll_to state (period ledger.window now) in
      do
        answer ← reconcile ledger key rolled_state now
        elim answer [
          | err _ ↦ pure (false, next_idle)
          | ok (settled, charged) ↦
              let (touched, reclaimed) = reclaim settled now ledger.ttl ledger.timeout in
              let sooner = min next_idle (idle_at touched ledger.ttl ledger.window) in
              when unchanged rolled charged reclaimed && not (is_idle touched)
              then pure (false, sooner)
              else (do
                written ← put_record key (some version) (swept_record touched clock)
                elim written [
                  | ok _ ↦ (do
                    _ ← count_touch reclaimed charged
                    (when is_idle touched then pure (true, next_idle) else pure (false, sooner)))
                  | err StoreError.failed ↦ pure (false, sooner)
                  | err StoreError.cas_mismatch ↦ (do
                    again ← get_as as_record key
                    elim again [
                      | ok (some (Record.scope latest, newer)) ↦
                          sweep_scope rounds key latest newer now clock sooner
                      | _ ↦ pure (false, sooner)
                    ])
                ])
        ]

  -- One key of a scope.
  unfoldable pub sweep_record : String → Record → String → ℕ → ℕ → ℕ → Step (Bool × ℕ)
  sweep_record key (Record.scope state) version now clock next_idle =
      sweep_scope marker_retries key state version now clock next_idle
  sweep_record key (Record.vacant since period) version now clock next_idle =
      when leb (sat_add since grace_ms) clock
      then (do _ ← delete_vacant key version since period clock; pure (false, next_idle))
      else pure (false, next_idle)
  sweep_record key (Record.doomed at period) version now clock next_idle =
      when leb (sat_add at recover_ms) clock
      then (do
        _ ← put_record key (some version) (Record.vacant clock period)
        pure (false, next_idle))
      else pure (false, next_idle)

  unfoldable pub sweep_one : String → ℕ → ℕ → Scan → Step Scan
  sweep_one key now clock scan =
      when starts_with key (marker_prefix ledger)
      then (do _ ← collect_marker ledger key clock; pure scan)
      else (do
        answer ← get_as as_record key
        elim answer [
          | ok (some (found, version)) ↦ (do
            result ← sweep_record key found version now clock scan.next_idle
            pure (record scan {
              freed = if result.0 then scan.freed + 1 else scan.freed;
              next_idle = result.1;
            }))
          | _ ↦ pure scan
        ])

  unfoldable pub cost : String → ℕ
  unfolding marker_prefix
  cost key = if starts_with key (marker_prefix ledger) then 3 else 1

  unfoldable pub sweep_all : List String → ℕ → ℕ → ℕ → Scan → Step Scan
  sweep_all [] budget now clock scan = pure scan
  sweep_all (key ∷ rest) budget now clock scan = when ltb budget (cost key) then pure scan else (do
    next ←
        sweep_one key now clock (record scan { processed = scan.processed + 1; cursor = some key })
    sweep_all rest (budget - cost key) now clock next)

  -- The sweep record that a scan of `total` keys leaves.
  unfoldable pub sweep_done : Scan → ℕ → ℕ → ℕ → Sweep
  sweep_done scan total now next_foreign_log =
      let partial = ltb scan.processed total in
      record {
        not_before =
            (if partial
              then sat_add now min_rescan_ms
              else min (max scan.next_idle (sat_add now min_rescan_ms))
                  (sat_add now max_rescan_ms));
        next_gc = sat_add now (if partial then min_rescan_ms else gc_interval_ms);
        cursor = if partial then scan.cursor else none;
        next_foreign_log = next_foreign_log;
      }

  -- The scan once the sweep record is read and the keys of others are reported.
  unfoldable pub sweep_scan : List String → Sweep → String → ℕ → ℕ → Step (Unit {0})
  sweep_scan listed s claim_version now clock =
      let remaining =
        past_cursor s.cursor
          (sort (swept_keys (scope_prefix ledger) (marker_prefix ledger) listed)) in
      do
        scan ←
            sweep_all remaining (sweep_budget - 4) now clock
              (record { freed = 0; next_idle = u64_max; cursor = none; processed = 0 })
        _ ←
            (when ltb 0 scan.freed
              then adjust_count ledger settle_retries (Delta.fewer scan.freed)
              else pure tt)
        let done = sweep_done scan (length remaining) now s.next_foreign_log
        _ ← change (λ w. record w { next_gc_check = done.next_gc })
        _ ← put_sweep ledger done (some claim_version)
        pure tt

  unfoldable pub sweep : ℕ → String → Step (Unit {0})
  sweep now claim_version = do
    time ← store_now
    let clock = max now time
    listed ← store_keys
    elim listed [
      | err _ ↦ pure tt
      | ok ks ↦ (do
        answer ← read_sweep ledger
        elim answer [
          | err _ ↦ pure tt
          | ok (s, version) ↦
              when leb s.next_foreign_log clock && any_foreign ledger.prefix ks
              then (let logged : Sweep = record s {
                next_foreign_log = sat_add clock gc_interval_ms;
              } in
                  do
                    claimed ← put_sweep ledger logged version
                    elim claimed [
                      | err _ ↦ pure tt
                      | ok mine ↦ sweep_scan ks logged mine now clock
                    ])
              else sweep_scan ks s claim_version now clock
        ])
    ]

  -- The periodic collection, when it is due on the replica.
  unfoldable pub maybe_collect : ℕ → Step (Unit {0})
  maybe_collect now = do
    check ← ask (λ w. w.next_gc_check)
    (when ltb now check then pure tt else (do
      _ ← change (λ w. record w { next_gc_check = sat_add now 15000 })
      answer ← read_sweep ledger
      elim answer [
        | err _ ↦ pure tt
        | ok (s, version) ↦ when ltb now s.next_gc then pure tt else (do
          claimed ← put_sweep ledger (record s { next_gc = sat_add now gc_interval_ms }) version
          elim claimed [ err _ ↦ pure tt | ok mine ↦ sweep now mine ])
      ]))
