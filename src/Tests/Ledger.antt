-- ===== src/Tests/Ledger.antt =====
-- The scope and the worker ledger of aggregate-risk-gate/src/ledger.rs at concrete inputs.
use agent_governance_policie.Prelude.{
  ℕ, ◌+◌, ◌*◌, ◌≤◌, ◌≡◌, ◌≢◌, refl, inl, inr, true, false, Option, none, some, List, [], ◌∷◌, ok,
  ◌==◌, u64_max, sat_add, sat_mul, wrap_add, string_discrete, ℕ_discrete, arith,
}
use agent_governance_policie.Prelude.Assoc.{sum_by, get, insert, remove, retain}
use agent_governance_policie.Scope.Types.{Timeout, Held, Reservation, Settlement}
use agent_governance_policie.Scope.{
  max_held, ScopeState, is_idle, idle_at, latest_drop, window_end, reclaim, check, hold, settle,
  at_period, saturated, total, roll, roll_to, expire, expire_all, expire_held, expired, kept,
  reservation, set_aside, settle_active, settle_charged, settle_late, settle_tombstone,
}
use agent_governance_policie.Scope.Exact.{
  IsExact, max_units, settle-IsExact, hold-IsExact, reserved_bound,
}
use agent_governance_policie.Scope.Budget.{IsWithin, settle-IsWithin, hold-IsWithin}
use agent_governance_policie.Scope.Refund.{IsRefundable, settle-IsRefundable}
use agent_governance_policie.Scope.Distinct.{IsDistinct, settle_twice}
use agent_governance_policie.Scope.Effect.{Effect, held_of, settle-Effect}
use agent_governance_policie.Scope.Reclaim.{expiring_sum, reclaim_commit, reclaim_release}
use agent_governance_policie.Scope.Idle.{period, touch, idle_at-release, idle_at-commit}
use agent_governance_policie.Ledger.Stats.{no_stats, count_reclaim, count_settlement, settle_free}
use agent_governance_policie.Ledger.Index.{compare_entry, add_entry, remove_entry}
use agent_governance_policie.Ledger.{
  Inner, Ledger, empty, find, reindex, reindex_state, state_of, refresh, store, run_body, make_room,
  with_state, reserve_body, expired_on_arrival, reserve, reclaim_first, settle_state, settle_held,
  commit, release,
}
use agent_governance_policie.Ledger
use agent_governance_policie.Ledger.Run.{
  Call, reserves, commits, releases, step, run, run_within_budget,
}

-- One reservation in flight.
abbrev in_flight : Held
in_flight = record { contribution = 30; expires_at = 1500; provisional_period = none }

-- One tombstone, charged in period 0.
abbrev tombstone : Held
tombstone = record { contribution = 10; expires_at = 900; provisional_period = some 0 }

abbrev scope : ScopeState
scope = record {
  period = 0;
  committed = 12;
  reserved = 30;
  active = (7, in_flight) ∷ [];
  reclaimed = (3, tombstone) ∷ [];
  indexed_at = none;
}

scope-IsRefundable : IsRefundable scope
unfolding sum_by
scope-IsRefundable = record {
  summed = refl;
  uncharged = (refl, tt);
  stamped = (omega arith, tt);
  covered = omega arith;
}

scope-IsWithin : IsWithin 50 scope
unfolding sum_by
scope-IsWithin = record {
  summed = refl;
  fits = omega arith;
  charged = ((λ e. ground (arith, e)), tt);
}

scope-IsExact : IsExact scope
unfolding sum_by
scope-IsExact = record { summed = refl; small = (omega arith, tt); within = omega arith }

scope-IsDistinct : IsDistinct scope
unfolding get ℕ_discrete
scope-IsDistinct = record {
  active = (refl, tt);
  reclaimed = (refl, tt);
  apart =
      λ id. elim (ℕ_discrete 7 id) [ yes e ↦ inr (rw (← e) refl) | no n ↦ inl (ground (arith, n)) ];
}

-- The scope after the reservation was committed.
abbrev settled : ScopeState
unfolding settle
settled = (settle scope 7 true).0

small_enough : scope.committed + held_of scope 7 ≤ u64_max
unfolding held_of get ℕ_discrete
small_enough = omega arith

settle-Effect_example : let r = settle scope 7 true in Effect (held_of scope 7) scope r.0 r.1
settle-Effect_example = settle-Effect scope 7 true scope-IsRefundable small_enough

settle_twice_example :
    let t = (settle scope 7 true).0 in settle t 7 false ≡ (t, Settlement.not_active)
settle_twice_example = settle_twice scope 7 true false scope-IsDistinct

settle-IsWithin_example : IsWithin 50 (settle scope 3 false).0
settle-IsWithin_example = settle-IsWithin (omega arith) 3 false scope-IsWithin

fits : check scope "agent:a" 8 50 ≡ ok tt
unfolding check sat_add
fits = refl

free : get ℕ_discrete 8 scope.active ≡ none
unfolding get ℕ_discrete
free = refl

hold-IsWithin_example : IsWithin 50 (hold scope 8 "agent:a" 8 1200 500).0
hold-IsWithin_example = hold-IsWithin (omega arith) 8 "agent:a" 8 1200 500 fits free scope-IsWithin

settle-IsRefundable_example : IsRefundable (settle scope 3 false).0
settle-IsRefundable_example = settle-IsRefundable 3 false (omega arith) scope-IsRefundable

settle-IsExact_example : IsExact (settle scope 7 false).0
settle-IsExact_example = settle-IsExact 7 false scope-IsExact

hold-IsExact_example : IsExact (hold scope 8 "agent:a" 8 1200 500).0
hold-IsExact_example = hold-IsExact 8 "agent:a" 8 1200 500 (omega arith) free scope-IsExact

reserved_bound_example : scope.reserved ≤ max_held * max_units
reserved_bound_example = reserved_bound scope-IsExact

summed : scope.reserved ≡ sum_by (λ (held : Held). held.contribution) scope.active
unfolding sum_by
summed = refl

reclaim_commit_example :
    let r = reclaim scope 1600 500 Timeout.commit in
    (r.0.committed ≡ scope.committed + expiring_sum 1600 scope)
    × (r.0.reserved + expiring_sum 1600 scope ≡ scope.reserved)
    × (r.1.2 ≡ r.1.0)
reclaim_commit_example = reclaim_commit scope 1600 500 summed (omega arith) scope-IsDistinct.active

reclaim_release_example :
    let r = reclaim scope 1600 500 Timeout.release in
    (r.0.committed ≡ scope.committed)
    × (r.0.reserved + expiring_sum 1600 scope ≡ scope.reserved)
    × (r.1.2 ≡ 0)
reclaim_release_example = reclaim_release scope 1600 500 summed scope-IsDistinct.active

abbrev minute : Option ℕ
minute = some 60000

a_window : minute ≢ some 0
a_window e = ground (arith, e)

idle_by_then : idle_at scope 500 minute ≤ 60000
unfolding idle_at sat_mul sat_add latest_drop window_end
idle_by_then = omega arith

idle_at-release_example : is_idle (touch scope 60000 500 minute Timeout.release) ≡ true
idle_at-release_example =
    idle_at-release scope 60000 500 minute a_window (omega arith) idle_by_then summed
      scope-IsDistinct.active

idle_at-commit_example :
    is_idle (touch scope 60000 500 minute Timeout.commit) ≡ (scope.reserved == 0)
idle_at-commit_example =
    idle_at-commit scope 60000 500 minute a_window (omega arith) idle_by_then summed
      scope-IsDistinct.active (omega arith)

-- A worker ledger in block mode, and a history in which a response is settled twice.
abbrev ledger : Ledger
ledger = record { max_scopes = 2; ttl = 500; timeout = Timeout.commit; window = some 60000 }

abbrev first_reservation : Reservation
first_reservation = record {
  id = 1;
  scope = "agent:a";
  contribution = 30;
  created_at = 1000;
  expires_at = 1500;
  total = 30;
}

abbrev history : List Call
history =
    reserves 0 "agent:a" 30 1000
    ∷ commits first_reservation 1200
    ∷ releases first_reservation 1201
    ∷ []

abbrev final_scope : ScopeState
final_scope = record {
  period = 0;
  committed = 30;
  reserved = 0;
  active = [];
  reclaimed = [];
  indexed_at = some 60000;
}

history_ends : find "agent:a" (run ledger 50 empty history).scopes ≡ some final_scope
unfolding run step get empty reindex insert string_discrete check sat_add reclaim retain roll
    state_of at_period period hold remove idle_at ℕ_discrete settle add_entry compare_entry
    remove_entry count_reclaim count_settlement settle_free no_stats commit release
    expired_on_arrival Ledger.hold make_room reclaim_first refresh reindex_state reserve
    reserve_body run_body Ledger.settle settle_held settle_state store with_state sat_mul wrap_add
    expire expire_all expire_held expired is_idle kept latest_drop reservation roll_to saturated
    set_aside settle_active settle_charged settle_late settle_tombstone total window_end
history_ends = refl

run_within_budget_example : final_scope.committed + final_scope.reserved ≤ 50
run_within_budget_example =
    run_within_budget ledger 50 (omega arith) refl history "agent:a" final_scope (omega arith)
      history_ends
