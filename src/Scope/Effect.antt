-- ===== src/Scope/Effect.antt =====
-- What each outcome of `settle` does to the totals.
use agent_governance_policie.Prelude.{
  ℕ, ◌+◌, ◌≤◌, ◌≡◌, refl, Bool, none, some, sat_add-eq, u64_max, ℕ_discrete, arith,
}
use agent_governance_policie.Prelude.Assoc.{get}
use agent_governance_policie.Prelude.Assoc.Laws.{sum_by-remove}
use agent_governance_policie.Scope.Types.{Held, Settlement}
use agent_governance_policie.Scope.Cases.{settle_cases}
use agent_governance_policie.Scope.Refund.{IsRefundable, charged_sum-remove}
use agent_governance_policie.Scope.{ScopeState, settle_active, settle_charged, settle_late, settle}

-- The contribution of the entry that `settle` finds.
unfoldable pub held_of : ScopeState → ℕ → ℕ
held_of s id = elim (get ℕ_discrete id s.active) [
  | some held ↦ held.contribution
  | none ↦ elim (get ℕ_discrete id s.reclaimed) [ some held ↦ held.contribution | none ↦ 0 ]
]

-- What each outcome means for the totals, `c` being the reservation's contribution.
abbrev pub Effect : ℕ → ScopeState → ScopeState → Settlement → Type 0
Effect c s t Settlement.committed = (t.committed ≡ s.committed + c) × (t.reserved + c ≡ s.reserved)
Effect c s t Settlement.released = (t.committed ≡ s.committed) × (t.reserved + c ≡ s.reserved)
Effect c s t Settlement.late_committed = (t.committed ≡ s.committed + c) × (t.reserved ≡ s.reserved)
Effect c s t Settlement.late_released = (t.committed ≡ s.committed) × (t.reserved ≡ s.reserved)
Effect c s t Settlement.refunded = (t.committed + c ≡ s.committed) × (t.reserved ≡ s.reserved)
Effect c s t Settlement.already_charged = (t.committed ≡ s.committed) × (t.reserved ≡ s.reserved)
Effect c s t Settlement.not_active = t ≡ s
Effect c s t Settlement.deferred = ⊥

settle_active-Effect :
    (s : ScopeState) (id : ℕ) (held : Held) (commit : Bool)
    → get ℕ_discrete id s.active ≡ some held
    → IsRefundable s
    → s.committed + held.contribution ≤ u64_max
    → let r = settle_active s id held commit in Effect held.contribution s r.0 r.1
unfolding settle_active
settle_active-Effect s id held commit e v top = ground (
  arith,
  v.summed,
  sum_by-remove ℕ_discrete (λ (h : Held). h.contribution) id s.active e,
  sat_add-eq s.committed held.contribution,
)

settle_charged-Effect :
    (s : ScopeState) (id : ℕ) (held : Held) (p : ℕ) (commit : Bool)
    → get ℕ_discrete id s.reclaimed ≡ some held
    → held.provisional_period ≡ some p
    → IsRefundable s
    → let r = settle_charged s id held p commit in Effect held.contribution s r.0 r.1
unfolding settle_charged
settle_charged-Effect s id held p commit e f v =
    ground (arith, v.covered, charged_sum-remove s id held p e f)

settle_late-Effect :
    (s : ScopeState) (id : ℕ) (held : Held) (commit : Bool)
    → s.committed + held.contribution ≤ u64_max
    → let r = settle_late s id held commit in Effect held.contribution s r.0 r.1
unfolding settle_late
settle_late-Effect s id held commit top = ground (arith, sat_add-eq s.committed held.contribution)

held_of-active :
    (s : ScopeState) (id : ℕ) (held : Held)
    → get ℕ_discrete id s.active ≡ some held
    → held_of s id ≡ held.contribution
unfolding held_of
held_of-active s id held e = rw (e, held_of)

held_of-reclaimed :
    (s : ScopeState) (id : ℕ) (held : Held)
    → get ℕ_discrete id s.active ≡ none
    → get ℕ_discrete id s.reclaimed ≡ some held
    → held_of s id ≡ held.contribution
unfolding held_of
held_of-reclaimed s id held e f = rw (e, f, held_of)

-- On a refundable scope, where the committed total and the reservation together are a `u64`, every
-- settlement has exactly the effect that its outcome says on `committed` and `reserved`, and none is
-- deferred.
pub settle-Effect :
    (s : ScopeState) (id : ℕ) (commit : Bool)
    → IsRefundable s
    → s.committed + held_of s id ≤ u64_max
    → let r = settle s id commit in Effect (held_of s id) s r.0 r.1
settle-Effect s id commit v top =
    settle_cases (λ r. Effect (held_of s id) s r.0 r.1) s id commit
      (λ held e.
        let c = held_of-active s id held e in
        rw c (settle_active-Effect s id held commit e v (rw c at top)))
      (λ held p e f g.
        rw (held_of-reclaimed s id held e f) (settle_charged-Effect s id held p commit f g v))
      (λ held e f g.
        let c = held_of-reclaimed s id held e f in
        rw c (settle_late-Effect s id held commit (rw c at top)))
      (λ e f. refl)
