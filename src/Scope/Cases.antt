-- ===== src/Scope/Cases.antt =====
-- Case rules for `settle` (in flight, charged tombstone, uncharged tombstone, or unknown) and for
-- `hold`, and what `check` tests.
use agent_governance_policie.Prelude.{
  ℕ, ◌+◌, ◌≤◌, ◌<◌, ◌≡◌, Bool, true, false, none, some, inl, inr, Bool-cases, Option-cases,
  ℕ_discrete, dec_lt, lt→ltb, sat_add, u64_max, Result, ok, err, String, arith,
}
use agent_governance_policie.Prelude.Assoc.{get}
use agent_governance_policie.Scope.Types.{Held, Reservation, Refusal, Settlement}
use agent_governance_policie.Scope.{
  ScopeState, settle_active, settle_charged, settle_late, settle_tombstone, settle, total,
  saturated, set_aside, reservation, hold, check,
}

module _ {ℓ} (P : ScopeState × Settlement → Type ℓ) (s : ScopeState) (id : ℕ) (commit : Bool) where
  tombstone_cases :
      (held : Held)
      → ((p : ℕ) → held.provisional_period ≡ some p → P (settle_charged s id held p commit))
      → (held.provisional_period ≡ none → P (settle_late s id held commit))
      → P (settle_tombstone s id held commit)
  unfolding settle_tombstone
  tombstone_cases held charged late = elim (Option-cases held.provisional_period) [
    | inl e ↦ rw (e, settle_tombstone) (late e)
    | inr (p, e) ↦ rw (e, settle_tombstone) (charged p e)
  ]

  pub settle_cases :
      ((held : Held) → get ℕ_discrete id s.active ≡ some held → P (settle_active s id held commit))
      → ((held : Held) (p : ℕ)
          → get ℕ_discrete id s.active ≡ none
          → get ℕ_discrete id s.reclaimed ≡ some held
          → held.provisional_period ≡ some p
          → P (settle_charged s id held p commit))
      → ((held : Held)
          → get ℕ_discrete id s.active ≡ none
          → get ℕ_discrete id s.reclaimed ≡ some held
          → held.provisional_period ≡ none
          → P (settle_late s id held commit))
      → (get ℕ_discrete id s.active ≡ none
          → get ℕ_discrete id s.reclaimed ≡ none
          → P (s, Settlement.not_active))
      → P (settle s id commit)
  unfolding settle
  settle_cases in_flight charged late unknown = elim (Option-cases (get ℕ_discrete id s.active)) [
    | inr (held, e) ↦ rw (e, settle) (in_flight held e)
    | inl e ↦ elim (Option-cases (get ℕ_discrete id s.reclaimed)) [
      | inr (held, f) ↦
          rw (e, f, settle)
            (tombstone_cases held (λ p g. charged held p e f g) (λ g. late held e f g))
      | inl f ↦ rw (e, f, settle) (unknown e f)
    ]
  ]

-- A case rule for `hold`: refused at the cap, set aside, or a free reservation of zero.
module _ {ℓ} (P : ScopeState × Result Reservation Refusal → Type ℓ) (s : ScopeState) (id : ℕ)
    (scope : String) (contribution now ttl : ℕ) where
  pub hold_cases :
      (0 < contribution → saturated s ≡ true → P (s, err Refusal.saturated))
      → (0 < contribution
          → saturated s ≡ false
          → P (
            set_aside s id contribution (sat_add now ttl),
            ok (
                reservation
                  (set_aside s id contribution (sat_add now ttl))
                  id
                  scope
                  contribution
                  now
                  ttl),
          ))
      → (contribution ≡ 0 → P (s, ok (reservation s id scope contribution now ttl)))
      → P (hold s id scope contribution now ttl)
  unfolding hold
  hold_cases refused aside free = elim (dec_lt 0 contribution) [
    | yes p ↦
        rw (lt→ltb 0 contribution p, hold)
          (elim (Bool-cases (saturated s)) [
            | inl e ↦ rw e (refused p e)
            | inr e ↦ rw e (aside p e)
          ])
    | no p ↦ let e : contribution ≡ 0 = omega arith in rw (e, hold) (rw (← e) (free e))
  ]

-- What a passing `check` has tested.
pub check-le :
    (s : ScopeState) (scope : String) (contribution budget : ℕ)
    → check s scope contribution budget ≡ ok tt
    → budget < u64_max
    → s.committed + s.reserved + contribution ≤ budget
unfolding check total sat_add
check-le s scope contribution budget h top = ground arith
