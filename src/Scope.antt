-- ===== src/Scope.antt =====
-- `ScopeState` of aggregate-risk-gate/src/ledger.rs: one scope's running exposure and its
-- operations. A method that mutates the state returns the new state before its result. The two
-- `HashMap`s are association lists keyed by reservation id; `now`, `ttl` and the window are
-- milliseconds.
pub mod Types
pub mod Cases
pub mod Exact
pub mod Budget
pub mod Reclaim
pub mod Idle
pub mod Refund
pub mod Effect
pub mod Unknown
pub mod Sound
pub mod Distinct
use agent_governance_policie.Prelude.{
  ℕ, ◌+◌, ◌-◌, ◌/◌, ◌≤◌, ◌==◌, Bool, true, false, not, ◌&&◌, ◌||◌, Option, none, some, List, [],
  ◌∷◌, ◌++◌, map, length, is_empty, ltb, leb, if◌then◌else◌, sat_add, sat_mul, u64_max, String,
  ℕ_discrete, Result, ok, err,
}
use agent_governance_policie.Prelude.Assoc.{keys, retain, get, remove, insert}
use Types.{Timeout, Held, Reservation, Settlement, Denial, Refusal}

-- `MAX_HELD`.
abbrev pub max_held : ℕ
max_held = 512

pub record ScopeState : Type 0 where
  pub period : ℕ
  pub committed : ℕ
  pub reserved : ℕ
  pub active : List (ℕ × Held)
  pub reclaimed : List (ℕ × Held)
  pub indexed_at : Option ℕ

unfoldable pub at_period : ℕ → ScopeState
at_period period = record {
  period = period;
  committed = 0;
  reserved = 0;
  active = [];
  reclaimed = [];
  indexed_at = none;
}

unfoldable pub is_idle : ScopeState → Bool
is_idle s = s.committed == 0 && is_empty s.active && is_empty s.reclaimed

unfoldable pub saturated : ScopeState → Bool
saturated s = leb max_held (length s.active + length s.reclaimed)

abbrev pub contains : ℕ → List (ℕ × Held) → Bool
contains id m = elim (get ℕ_discrete id m) [ none ↦ false | some _ ↦ true ]

unfoldable pub holds : ScopeState → ℕ → Bool
holds s id = contains id s.active || contains id s.reclaimed

-- Past the deadline, and past the tombstone's term.
abbrev pub is_expired : ℕ → Held → Bool
is_expired now held = leb held.expires_at now

abbrev pub is_dropped : ℕ → ℕ → Held → Bool
is_dropped now ttl held = leb (sat_add held.expires_at ttl) now

unfoldable pub due : ScopeState → ℕ → ℕ → List (ℕ × ℕ × Bool)
due s now ttl =
    map (λ e. (e.0, e.1.expires_at, false)) (retain (is_expired now) s.active)
    ++ map (λ e. (e.0, e.1.expires_at, true)) (retain (is_dropped now ttl) s.reclaimed)

unfoldable pub total : ScopeState → ℕ
total s = sat_add s.committed s.reserved

abbrev pub max : ℕ → ℕ → ℕ
max a b = if leb a b then b else a

-- The loop over `active.values().chain(reclaimed.values())`.
unfoldable pub latest_drop : ℕ → ℕ → List (ℕ × Held) → ℕ
latest_drop ttl at [] = at
latest_drop ttl at ((_, held) ∷ rest) = latest_drop ttl (max at (sat_add held.expires_at ttl)) rest

-- When the window of the committed exposure ends.
unfoldable pub window_end : ScopeState → Option ℕ → ℕ
window_end s none = u64_max
window_end s (some window) = sat_mul (sat_add s.period 1) window

unfoldable pub idle_at : ScopeState → ℕ → Option ℕ → ℕ
unfolding latest_drop window_end
idle_at s ttl window =
    latest_drop ttl (if ltb 0 s.committed then window_end s window else 0) (s.active ++ s.reclaimed)

unfoldable pub roll_to : ScopeState → ℕ → ScopeState × Bool
roll_to s period =
    if ltb s.period period then (record s { period = period; committed = 0 }, true) else (s, false)

unfoldable pub roll : ScopeState → ℕ → ScopeState
unfolding roll_to
roll s period = (roll_to s period).0

-- The body of `reclaim`'s loop: the reservation leaves `active` for a tombstone, and commit mode
-- charges it provisionally.
unfoldable pub expire_held : Timeout → ℕ → Held → ScopeState × ℕ → ScopeState × ℕ
expire_held Timeout.commit id held (s, provisional) = (
  record s {
    committed = sat_add s.committed held.contribution;
    reserved = s.reserved - held.contribution;
    active = remove ℕ_discrete id s.active;
    reclaimed =
        insert ℕ_discrete id (record held { provisional_period = some s.period }) s.reclaimed;
  },
  provisional + 1,
)
expire_held Timeout.release id held (s, provisional) = (
  record s {
    reserved = s.reserved - held.contribution;
    active = remove ℕ_discrete id s.active;
    reclaimed = insert ℕ_discrete id held s.reclaimed;
  },
  provisional,
)

unfoldable pub expire : Timeout → ℕ → ScopeState × ℕ → ScopeState × ℕ
unfolding expire_held
expire timeout id p = elim (get ℕ_discrete id p.0.active) [
  | none ↦ p
  | some held ↦ expire_held timeout id held p
]

unfoldable pub expire_all : Timeout → List ℕ → ScopeState × ℕ → ScopeState × ℕ
unfolding expire
expire_all timeout [] p = p
expire_all timeout (id ∷ ids) p = expire_all timeout ids (expire timeout id p)

-- The ids past their deadline, collected before the loop.
unfoldable pub expired : ScopeState → ℕ → List ℕ
expired s now = keys (retain (is_expired now) s.active)

unfoldable pub kept : ℕ → ℕ → List (ℕ × Held) → List (ℕ × Held)
kept now ttl = retain (λ held. ltb now (sat_add held.expires_at ttl))

-- The state, and the expired, abandoned and provisional-charge counts.
unfoldable pub reclaim : ScopeState → ℕ → ℕ → Timeout → ScopeState × (ℕ × ℕ × ℕ)
unfolding expire_all expired kept
reclaim s now ttl timeout =
    let ids = expired s now in
    let (t, provisional) = expire_all timeout ids (s, 0) in
    let rest = kept now ttl t.reclaimed in
    (record t { reclaimed = rest }, (length ids, length t.reclaimed - length rest, provisional))

unfoldable pub check : ScopeState → String → ℕ → ℕ → Result (Unit {0}) Refusal
unfolding total
check s scope contribution budget =
    let would_be_total = sat_add (total s) contribution in
    if ltb budget would_be_total
    then err (
        Refusal.over_budget (record {
          scope = scope;
          contribution = contribution;
          current_total = total s;
          would_be_total = would_be_total;
          budget = budget;
        }))
    else ok tt

-- The reservation that `hold` returns, with the total of the state it leaves.
unfoldable pub reservation : ScopeState → ℕ → String → ℕ → ℕ → ℕ → Reservation
unfolding total
reservation s id scope contribution now ttl = record {
  id = id;
  scope = scope;
  contribution = contribution;
  created_at = now;
  expires_at = sat_add now ttl;
  total = total s;
}

-- A positive contribution set aside under `id`.
unfoldable pub set_aside : ScopeState → ℕ → ℕ → ℕ → ScopeState
set_aside s id contribution expires_at = record s {
  reserved = sat_add s.reserved contribution;
  active =
      insert ℕ_discrete id
        (record { contribution = contribution; expires_at = expires_at; provisional_period = none })
        s.active;
}

unfoldable pub hold : ScopeState → ℕ → String → ℕ → ℕ → ℕ → ScopeState × Result Reservation Refusal
unfolding reservation set_aside saturated
hold s id scope contribution now ttl =
    if ltb 0 contribution
    then (if saturated s
        then (s, err Refusal.saturated)
        else (let t = set_aside s id contribution (sat_add now ttl) in
            (t, ok (reservation t id scope contribution now ttl))))
    else (s, ok (reservation s id scope contribution now ttl))

-- `settle` of a reservation in flight.
unfoldable pub settle_active : ScopeState → ℕ → Held → Bool → ScopeState × Settlement
settle_active s id held true = (
  record s {
    committed = sat_add s.committed held.contribution;
    reserved = s.reserved - held.contribution;
    active = remove ℕ_discrete id s.active;
  },
  Settlement.committed,
)
settle_active s id held false = (
  record s { reserved = s.reserved - held.contribution; active = remove ℕ_discrete id s.active },
  Settlement.released,
)

-- `settle` of a tombstone that was charged provisionally in the period given.
unfoldable pub settle_charged : ScopeState → ℕ → Held → ℕ → Bool → ScopeState × Settlement
settle_charged s id held charged_period commit =
    let t = record s { reclaimed = remove ℕ_discrete id s.reclaimed } in
    if not commit && charged_period == s.period
    then (record t { committed = s.committed - held.contribution }, Settlement.refunded)
    else (t, Settlement.already_charged)

-- `settle` of a tombstone that was not charged.
unfoldable pub settle_late : ScopeState → ℕ → Held → Bool → ScopeState × Settlement
settle_late s id held true = (
  record s {
    committed = sat_add s.committed held.contribution;
    reclaimed = remove ℕ_discrete id s.reclaimed;
  },
  Settlement.late_committed,
)
settle_late s id held false =
    (record s { reclaimed = remove ℕ_discrete id s.reclaimed }, Settlement.late_released)

unfoldable pub settle_tombstone : ScopeState → ℕ → Held → Bool → ScopeState × Settlement
unfolding settle_charged settle_late
settle_tombstone s id held commit = elim held.provisional_period [
  | some charged_period ↦ settle_charged s id held charged_period commit
  | none ↦ settle_late s id held commit
]

unfoldable pub settle : ScopeState → ℕ → Bool → ScopeState × Settlement
unfolding settle_active settle_tombstone
settle s id commit = elim (get ℕ_discrete id s.active) [
  | some held ↦ settle_active s id held commit
  | none ↦ elim (get ℕ_discrete id s.reclaimed) [
    | some held ↦ settle_tombstone s id held commit
    | none ↦ (s, Settlement.not_active)
  ]
]

-- `record`, a keyword here: a contribution that is committed at once.
unfoldable pub record_committed : ScopeState → ℕ → ScopeState
record_committed s contribution = record s { committed = sat_add s.committed contribution }
