-- ===== src/Ledger.antt =====
-- The per-worker ledger of aggregate-risk-gate/src/ledger.rs: `Inner`, `Ledger` and its
-- `LedgerStore` methods. The mutex makes each method one step, so a method is a function from the
-- inner state to the new one and its result. The clock that `reserve` reads is an argument.
pub mod Stats
pub mod Index
pub mod Keeps
pub mod Methods
pub mod Run
use agent_governance_policie.Prelude.{
  ℕ, ◌+◌, ◌%◌, ◌^◌, ◌≤◌, Bool, true, false, not, ◌&&◌, Option, none, some, List, [], ◌∷◌, length,
  ltb, leb, ◌==◌, if◌then◌else◌, sat_add, wrap_add, String, string_discrete, Result, ok, err, ◌>>=◌,
}
use agent_governance_policie.Prelude.Assoc.{get, remove, insert}
use agent_governance_policie.Scope.Types.{Timeout, Reservation, Settlement, Refusal}
use agent_governance_policie.Scope.{ScopeState, at_period, is_idle, idle_at, roll, reclaim, check}
use agent_governance_policie.Scope
use agent_governance_policie.Scope.Idle.{period}
use Stats.{LedgerStats, no_stats, count_reclaim, count_settlement, settle_free}
use Index.{add_entry, remove_entry}

pub record Inner : Type 0 where
  pub scopes : List (String × ScopeState)
  pub idle_index : List (ℕ × String)
  pub next_id : ℕ
  pub stats : LedgerStats

-- The settings that a ledger is built with.
pub record Ledger : Type 0 where
  pub max_scopes : ℕ
  pub ttl : ℕ
  pub timeout : Timeout
  pub window : Option ℕ

unfoldable pub with_limits : ℕ → ℕ → Option ℕ → Ledger
with_limits max_scopes ttl window = record {
  max_scopes = max_scopes;
  ttl = ttl;
  timeout = Timeout.release;
  window = window;
}

unfoldable pub with_timeout : Ledger → Timeout → Ledger
with_timeout ledger timeout = record ledger { timeout = timeout }

-- The inner state that `with_limits` starts from.
unfoldable pub empty : Inner
unfolding no_stats
empty = record { scopes = []; idle_index = []; next_id = 1; stats = no_stats }

abbrev pub find : String → List (String × ScopeState) → Option ScopeState
find = get string_discrete

abbrev pub is_at : Option ℕ → ℕ → Bool
is_at none at = false
is_at (some old) at = old == at

-- The body of `reindex`, for a state that the ledger tracks.
unfoldable pub reindex_state : Inner → String → ScopeState → ℕ → Inner
reindex_state inner scope state at = if is_at state.indexed_at at then inner else record inner {
  scopes = insert string_discrete scope (record state { indexed_at = some at }) inner.scopes;
  idle_index =
      add_entry (at, scope)
        (elim state.indexed_at [
          | none ↦ inner.idle_index
          | some old ↦ remove_entry (old, scope) inner.idle_index
        ]);
}

unfoldable pub reindex : Inner → String → ℕ → Option ℕ → Inner
unfolding reindex_state
reindex inner scope ttl window = elim (find scope inner.scopes) [
  | none ↦ inner
  | some state ↦ reindex_state inner scope state (idle_at state ttl window)
]

-- `entry(scope).or_default()`.
unfoldable pub state_of : Inner → String → ScopeState
state_of inner scope = elim (find scope inner.scopes) [ none ↦ at_period 0 | some s ↦ s ]

module _ (ledger : Ledger) where
  -- The scope that the index puts first, brought up to date.
  unfoldable pub evict_touched : Inner → ℕ → String → ScopeState → ℕ → ℕ → Inner × Bool
  evict_touched inner at key state now period =
      let (touched, counts) = reclaim (roll state period) now ledger.ttl ledger.timeout in
      let counted = record inner {
        scopes = insert string_discrete key touched inner.scopes;
        stats = count_reclaim inner.stats counts;
      } in
      if is_idle touched
      then (
        record counted {
          scopes = remove string_discrete key counted.scopes;
          idle_index = remove_entry (at, key) counted.idle_index;
        },
        true,
      )
      else (reindex counted key ledger.ttl ledger.window, false)

  -- `None` for the indexed scope counts as idle.
  unfoldable pub evict_entry : Inner → ℕ → String → ℕ → ℕ → Inner × Bool
  unfolding evict_touched
  evict_entry inner at key now period = elim (find key inner.scopes) [
    | none ↦ (record inner { idle_index = remove_entry (at, key) inner.idle_index }, true)
    | some state ↦ evict_touched inner at key state now period
  ]

  unfoldable pub evict_one : Inner → ℕ → ℕ → Inner × Bool
  unfolding evict_entry
  evict_one inner now period = elim inner.idle_index [
    | [] ↦ (inner, false)
    | (at, key) ∷ _ ↦ if ltb now at then (inner, false) else evict_entry inner at key now period
  ]

  -- What the closure given to `with_state` does to the state, the id counter and the counters.
  abbrev pub Body : Type 0 → Type 0
  Body R = ScopeState → ℕ → LedgerStats → (ScopeState × ℕ × LedgerStats) × Result R Refusal

  -- The scope's state brought up to date, as every operation starts.
  unfoldable pub refresh : ScopeState → ℕ → ScopeState × (ℕ × ℕ × ℕ)
  refresh state now = reclaim (roll state (period ledger.window now)) now ledger.ttl ledger.timeout

  -- What the body's result leaves in the ledger.
  unfoldable pub store :
      {R : Type 0}
      → Inner
      → String
      → (ScopeState × ℕ × LedgerStats) × Result R Refusal
      → Inner × Result R Refusal
  store inner scope ((state, next_id, stats), result) = (
    reindex
        (record inner {
          scopes = insert string_discrete scope state inner.scopes;
          next_id = next_id;
          stats = stats;
        })
        scope ledger.ttl ledger.window,
    result,
  )

  unfoldable pub run_body : {R : Type 0} → Inner → String → ℕ → Body R → Inner × Result R Refusal
  unfolding refresh store
  run_body inner scope now body =
      let (state, counts) = refresh (state_of inner scope) now in
      store inner scope (body state inner.next_id (count_reclaim inner.stats counts))

  -- Whether there is room for `scope`, after evicting if that is needed.
  unfoldable pub make_room : Inner → String → ℕ → Inner × Bool
  unfolding evict_one
  make_room inner scope now = elim (find scope inner.scopes) [
    | some _ ↦ (inner, true)
    | none ↦
        if leb ledger.max_scopes (length inner.scopes)
        then evict_one inner now (period ledger.window now)
        else (inner, true)
  ]

  unfoldable pub with_state : {R : Type 0} → Inner → String → ℕ → Body R → Inner × Result R Refusal
  unfolding make_room run_body
  with_state inner scope now body =
      let (ready, room) = make_room inner scope now in
      if room then run_body ready scope now body else (ready, err Refusal.at_capacity)

  unfoldable pub hold : String → ℕ → ℕ → Body Reservation
  hold scope contribution now state next_id stats =
      let (held, result) = Scope.hold state next_id scope contribution now ledger.ttl in
      elim result [
        | err refusal ↦ ((held, (next_id + 1) % 2 ^ 128, stats), err refusal)
        | ok reservation ↦ (
          (
            held,
            (next_id + 1) % 2 ^ 128,
            (if ltb 0 contribution
                then record stats { active = wrap_add stats.active 1 }
                else stats),
          ),
          ok reservation,
        )
      ]

  -- `check` and then `hold`, under one lock.
  unfoldable pub reserve_body : String → ℕ → ℕ → ℕ → Body Reservation
  unfolding hold
  reserve_body scope contribution budget now state next_id stats =
      elim (check state scope contribution budget) [
        | err refusal ↦ ((state, next_id, stats), err refusal)
        | ok _ ↦ hold scope contribution now state next_id stats
      ]

  -- `expired_on_arrival`; a clock of 0 is no clock.
  unfoldable pub expired_on_arrival : ℕ → ℕ → Bool
  expired_on_arrival now clock = not (clock == 0) && leb (sat_add now ledger.ttl) clock

  unfoldable pub reserve : Inner → ℕ → String → ℕ → ℕ → ℕ → Inner × Result Reservation Refusal
  unfolding expired_on_arrival with_state reserve_body
  reserve inner clock scope contribution budget now =
      if expired_on_arrival now clock
      then (inner, err Refusal.stale)
      else with_state inner scope now (reserve_body scope contribution budget now)

  unfoldable pub force_reserve : Inner → ℕ → String → ℕ → ℕ → Inner × Result Reservation Refusal
  unfolding expired_on_arrival with_state hold
  force_reserve inner clock scope contribution now =
      if expired_on_arrival now clock
      then (inner, err Refusal.stale)
      else with_state inner scope now (hold scope contribution now)

  -- The reservation, and whether it took the scope over the budget.
  unfoldable pub checked_body : String → ℕ → ℕ → ℕ → Body (Reservation × Bool)
  unfolding hold
  checked_body scope contribution budget now state next_id stats =
      let (after, result) = hold scope contribution now state next_id stats in
      (after, do reservation ← result; ok (reservation, ltb budget reservation.total))

  unfoldable pub force_reserve_checked :
      Inner → ℕ → String → ℕ → ℕ → ℕ → Inner × Result (Reservation × Bool) Refusal
  unfolding expired_on_arrival with_state checked_body
  force_reserve_checked inner clock scope contribution budget now =
      if expired_on_arrival now clock
      then (inner, err Refusal.stale)
      else with_state inner scope now (checked_body scope contribution budget now)

  -- The reclaim that commit mode makes before it settles.
  unfoldable pub reclaim_first : ScopeState → ℕ → LedgerStats → ScopeState × LedgerStats
  reclaim_first state now stats = elim ledger.timeout [
    | Timeout.release ↦ (state, stats)
    | Timeout.commit ↦
        let (touched, counts) = reclaim state now ledger.ttl ledger.timeout in
        (touched, count_reclaim stats counts)
  ]

  -- The settlement of a reservation on the state that its scope has.
  unfoldable pub settle_state :
      ScopeState → Reservation → ℕ → Bool → LedgerStats → (ScopeState × LedgerStats) × Settlement
  unfolding reclaim_first
  settle_state state reservation now commit stats =
      let (first, counted) = reclaim_first (roll state (period ledger.window now)) now stats in
      let (settled, outcome) = Scope.settle first reservation.id commit in
      let (last, counts) = reclaim settled now ledger.ttl ledger.timeout in
      ((last, count_reclaim counted counts), outcome)

  -- `settle` for a reservation that holds something.
  unfoldable pub settle_held : Inner → Reservation → ℕ → Bool → Inner × Settlement
  unfolding settle_state
  settle_held inner reservation now commit = elim (find reservation.scope inner.scopes) [
    | none ↦ (
      record inner { stats = count_settlement inner.stats Settlement.not_active },
      Settlement.not_active,
    )
    | some state ↦
        let ((last, stats), outcome) = settle_state state reservation now commit inner.stats in
        let indexed =
          reindex
            (record inner {
              scopes = insert string_discrete reservation.scope last inner.scopes;
              stats = stats;
            })
            reservation.scope ledger.ttl ledger.window in
        (record indexed { stats = count_settlement indexed.stats outcome }, outcome)
  ]

  unfoldable pub settle : Inner → Reservation → ℕ → Bool → Inner × Settlement
  unfolding settle_held
  settle inner reservation now commit =
      let (stats, free) = settle_free inner.stats reservation commit in
      elim free [
        | some outcome ↦ (record inner { stats = stats }, outcome)
        | none ↦ settle_held inner reservation now commit
      ]

  unfoldable pub commit : Inner → Reservation → ℕ → Inner × Settlement
  unfolding settle
  commit inner reservation now = settle inner reservation now true

  unfoldable pub release : Inner → Reservation → ℕ → Inner × Settlement
  unfolding settle
  release inner reservation now = settle inner reservation now false
