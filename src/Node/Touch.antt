-- ===== src/Node/Touch.antt =====
-- A touch of a scope record: the slot that a new record takes, and the compare-and-swap loop that
-- reads a record, changes it and writes it back (`mutate_core` in
-- aggregate-risk-gate/src/node_ledger.rs).
use agent_governance_policie.Prelude.{
  ℕ, zero, suc, ◌+◌, Bool, true, false, ◌||◌, Option, none, some, String, ltb, if◌then◌else◌,
  sat_add, Result, ok, err,
}
use agent_governance_policie.Scope.Types.{Refusal, at_capacity, contention, unavailable}
use agent_governance_policie.Scope.{ScopeState, at_period, roll_to, reclaim}
use agent_governance_policie.Scope.Idle.{period}
use agent_governance_policie.Node.Store.{StoreError, Record}
use agent_governance_policie.Node.Worker.{
  NodeLedger, Step, pure, ◌>>=◌, when◌then◌else◌, on_ok, count_touch, reserve_retries,
  settle_retries, min_rescan_ms, gc_interval_ms,
}
use agent_governance_policie.Node.Marker.{Read, new, live, is_doomed, read, put_record}
use agent_governance_policie.Node.Claim.{reconcile}
use agent_governance_policie.Node.Slots.{
  Delta, read_count, put_count, adjust_count, read_sweep, put_sweep,
}
use agent_governance_policie.Node.Sweep.{unchanged, sweep}

-- What a call does to the record: it may refuse.
abbrev pub Change : Type 0 → Type 0
Change R = ScopeState → ScopeState × Result R Refusal

-- A record that was read to be changed: its version, and whether the scope is new.
pub record Draft : Type 0 where
  pub state : ScopeState
  pub version : Option String
  pub is_new : Bool

unfoldable pub draft_of : Read → Option Draft
unfolding at_period
draft_of is_doomed = none
draft_of (new version period) =
    some (record { state = at_period period; version = version; is_new = true })
draft_of (live state version) =
    some (record { state = state; version = some version; is_new = false })

-- What a touch did before the call's own change.
pub record Touched : Type 0 where
  pub rolled : Bool
  pub charged : ℕ
  pub reclaimed : ℕ × ℕ × ℕ

module _ (ledger : NodeLedger) where
  -- A round of `acquire_slot` once the store is full: a sweep, if one is due.
  unfoldable pub sweep_for_slot :
      ℕ → Step (Result (Unit {0}) Refusal) → Step (Result (Unit {0}) Refusal)
  sweep_for_slot now again = do
    answer ← read_sweep ledger
    elim answer [
      | err _ ↦ pure (err unavailable)
      | ok (s, version) ↦ when ltb now s.not_before then pure (err at_capacity) else (do
        claimed ←
            put_sweep ledger
              (record s {
                not_before = sat_add now min_rescan_ms;
                next_gc = sat_add now gc_interval_ms;
              })
              version
        elim claimed [
          | err _ ↦ pure (err at_capacity)
          | ok mine ↦ (do _ ← sweep ledger now mine; again)
        ])
    ]

  -- The rounds of `acquire_slot`; `swept` says whether the store was swept for this call.
  unfoldable pub acquire_loop : ℕ → Bool → ℕ → Step (Result (Unit {0}) Refusal)
  acquire_loop zero swept now = pure (err contention)
  acquire_loop (suc rounds) swept now = do
    answer ← read_count ledger
    elim answer [
      | err _ ↦ pure (err unavailable)
      | ok (count, version) ↦
          when ltb count ledger.max_scopes
          then (do
            written ← put_count ledger (count + 1) version
            elim written [
              | ok _ ↦ pure (ok tt)
              | err StoreError.cas_mismatch ↦ acquire_loop rounds swept now
              | err StoreError.failed ↦ pure (err unavailable)
            ])
          else when swept
          then pure (err at_capacity)
          else sweep_for_slot now (acquire_loop rounds true now)
    ]

  unfoldable pub acquire_slot : ℕ → Step (Result (Unit {0}) Refusal)
  acquire_slot now = acquire_loop reserve_retries false now

  module _ {R : Type 0} where
    -- The call refused: the touch is saved, if there was one. `again` is the rounds that are left,
    -- which remember the refusal.
    unfoldable pub refuse_touch :
        String
        → Draft
        → Touched
        → ScopeState
        → Refusal
        → Step (Result R Refusal)
        → Step (Result R Refusal)
    refuse_touch key draft done state refusal again =
        when draft.is_new || unchanged done.rolled done.charged done.reclaimed
        then pure (err refusal)
        else (do
          written ← put_record key draft.version (Record.scope state)
          elim written [
            | ok _ ↦ (do _ ← count_touch done.reclaimed done.charged; pure (err refusal))
            | err StoreError.cas_mismatch ↦ again
            | err StoreError.failed ↦ pure (err refusal)
          ])

    -- The call succeeded: the record is written, or the rounds that are left are run.
    unfoldable pub write_touch :
        String
        → Draft
        → Touched
        → ScopeState
        → R
        → Step (Result R Refusal)
        → Step (Result R Refusal)
    write_touch key draft done state result again = do
      written ← put_record key draft.version (Record.scope state)
      elim written [
        | ok _ ↦ (do _ ← count_touch done.reclaimed done.charged; pure (ok result))
        | err e ↦ (do
          _ ←
              (when draft.is_new
                then adjust_count ledger settle_retries (Delta.fewer 1)
                else pure tt)
          elim e [ StoreError.failed ↦ pure (err unavailable) | StoreError.cas_mismatch ↦ again ])
      ]

    unfoldable pub save_touch :
        String
        → Draft
        → Touched
        → ScopeState
        → ℕ
        → R
        → Step (Result R Refusal)
        → Step (Result R Refusal)
    save_touch key draft done state now result again =
        when draft.is_new
        then on_ok (acquire_slot now) (λ _. write_touch key draft done state result again)
        else write_touch key draft done state result again

    -- What becomes of the call's result; a refusal that is not saved is given to the rounds left.
    unfoldable pub finish_touch :
        String
        → Draft
        → Touched
        → ℕ
        → ScopeState × Result R Refusal
        → (Option Refusal → Step (Result R Refusal))
        → Option Refusal
        → Step (Result R Refusal)
    finish_touch key draft done now (state, ok result) again refused =
        save_touch key draft done state now result (again refused)
    finish_touch key draft done now (state, err refusal) again refused =
        refuse_touch key draft done state refusal (again (some refusal))

    -- A round of `mutate_core` on a record that was read.
    unfoldable pub touch_draft :
        String
        → ℕ
        → Change R
        → Draft
        → (Option Refusal → Step (Result R Refusal))
        → Option Refusal
        → Step (Result R Refusal)
    touch_draft key now f draft again refused =
        let (rolled_state, rolled) = roll_to draft.state (period ledger.window now) in
        do
          answer ← reconcile ledger key rolled_state now
          elim answer [
            | err StoreError.cas_mismatch ↦ again refused
            | err StoreError.failed ↦ pure (err unavailable)
            | ok (settled, charged) ↦
                let (touched, reclaimed) = reclaim settled now ledger.ttl ledger.timeout in
                finish_touch key draft
                  (record { rolled = rolled; charged = charged; reclaimed = reclaimed }) now
                  (f touched) again refused
          ]

    -- A round that found a key which is being deleted reads it again.
    unfoldable pub touch_read :
        String
        → ℕ
        → Change R
        → Option Draft
        → (Option Refusal → Step (Result R Refusal))
        → Option Refusal
        → Step (Result R Refusal)
    touch_read key now f none again refused = again refused
    touch_read key now f (some draft) again refused = touch_draft key now f draft again refused

    -- `refused` is the refusal of a round whose touch was not saved.
    unfoldable pub mutate_loop :
        ℕ → String → ℕ → Change R → Option Refusal → Step (Result R Refusal)
    mutate_loop zero key now f none = pure (err contention)
    mutate_loop zero key now f (some refusal) = pure (err refusal)
    mutate_loop (suc rounds) key now f refused = do
      answer ← read key
      elim answer [
        | err _ ↦ pure (err unavailable)
        | ok found ↦ touch_read key now f (draft_of found) (mutate_loop rounds key now f) refused
      ]

    unfoldable pub mutate_core : String → ℕ → ℕ → Change R → Step (Result R Refusal)
    mutate_core key now retries f = mutate_loop retries key now f none
