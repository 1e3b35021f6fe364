-- ===== src/Scope/Budget.antt =====
-- The budget of a scope in block mode with the commit disposition: every operation of
-- `ScopeState` keeps `committed + reserved` within it.
use agent_governance_policie.Prelude.{
  ℕ, ◌+◌, ◌≤◌, ◌≡◌, ◌≢◌, Bool, none, some, List, [], ◌∷◌, inl, inr, Option-cases, ltb, sat_add,
  sat_add-eq, String, ℕ_discrete, arith, ok,
}
use agent_governance_policie.Prelude.Assoc.{sum_by, get, insert, AllValues}
use agent_governance_policie.Prelude.Assoc.Laws.{
  sum_by-remove, remove_absent, AllValues-remove, AllValues-get, AllValues-retain,
}
use agent_governance_policie.Scope.Types.{Timeout, Held}
use agent_governance_policie.Scope.Cases.{settle_cases, hold_cases, check-le}
use agent_governance_policie.Scope.Exact.{max_units, held_sum}
use agent_governance_policie.Scope.{
  ScopeState, set_aside, roll, expire_held, expire, expire_all, expired, reclaim, check, hold,
  settle_active, settle_charged, settle_late, settle,
}

abbrev pub IsCharged : Held → Type 0
IsCharged held = held.provisional_period ≢ none

-- Every tombstone was charged when its reservation expired.
pub record IsWithin (budget : ℕ) (s : ScopeState) : Type 0 where
  pub summed : s.reserved ≡ held_sum s.active
  pub fits : s.committed + s.reserved ≤ budget
  pub charged : AllValues IsCharged s.reclaimed

module _ {budget : ℕ} (top : budget ≤ max_units) where
  pub roll-IsWithin :
      {s : ScopeState} (period : ℕ) → IsWithin budget s → IsWithin budget (roll s period)
  unfolding roll
  roll-IsWithin period v = ground arith

  expire_held-IsWithin :
      (id : ℕ) (held : Held) (s : ScopeState) (n : ℕ)
      → get ℕ_discrete id s.active ≡ some held
      → IsWithin budget s
      → IsWithin budget (expire_held Timeout.commit id held (s, n)).0
  unfolding expire_held insert
  expire_held-IsWithin id held s n e v =
      let sum = sum_by-remove ℕ_discrete (λ (h : Held). h.contribution) id s.active e in
      record {
        summed = omega (arith, v.summed, sum);
        fits = omega (arith, v.fits, v.summed, sum, sat_add-eq s.committed held.contribution);
        charged = (λ p. cc, AllValues-remove ℕ_discrete IsCharged id s.reclaimed v.charged);
      }

  expire-IsWithin :
      (id : ℕ) (p : ScopeState × ℕ)
      → IsWithin budget p.0
      → IsWithin budget (expire Timeout.commit id p).0
  unfolding expire
  expire-IsWithin id p v = elim (Option-cases (get ℕ_discrete id p.0.active)) [
    | inl e ↦ rw (e, expire) v
    | inr (held, e) ↦ rw (e, expire) (expire_held-IsWithin id held p.0 p.1 e v)
  ]

  expire_all-IsWithin :
      (ids : List ℕ) (p : ScopeState × ℕ)
      → IsWithin budget p.0
      → IsWithin budget (expire_all Timeout.commit ids p).0
  unfolding expire_all
  expire_all-IsWithin [] p v = v
  expire_all-IsWithin (id ∷ ids) p v =
      expire_all-IsWithin ids (expire Timeout.commit id p) (expire-IsWithin id p v)

  pub reclaim-IsWithin :
      {s : ScopeState} (now ttl : ℕ)
      → IsWithin budget s
      → IsWithin budget (reclaim s now ttl Timeout.commit).0
  unfolding reclaim
  reclaim-IsWithin {s} now ttl v =
      let w = expire_all-IsWithin (expired s now) (s, 0) v in
      record {
        summed = w.summed;
        fits = w.fits;
        charged =
            AllValues-retain IsCharged (λ held. ltb now (sat_add held.expires_at ttl)) _ w.charged;
      }

  -- A check that passes, and the hold under a fresh id that follows it, keep a scope of which every
  -- tombstone was charged within a budget of at most MAX_UNITS.
  pub hold-IsWithin :
      {s : ScopeState} (id : ℕ) (scope : String) (contribution now ttl : ℕ)
      → check s scope contribution budget ≡ ok tt
      → get ℕ_discrete id s.active ≡ none
      → IsWithin budget s
      → IsWithin budget (hold s id scope contribution now ttl).0
  unfolding set_aside insert sum_by
  hold-IsWithin {s} id scope contribution now ttl passed fresh v =
      hold_cases (λ r. IsWithin budget r.0) s id scope contribution now ttl (λ p e. v)
        (λ p e. ground (
          arith,
          v,
          check-le s scope contribution budget passed,
          sat_add-eq s.reserved contribution,
          remove_absent ℕ_discrete id s.active fresh,
        ))
        (λ e. v)

  settle_active-IsWithin :
      (s : ScopeState) (id : ℕ) (held : Held) (commit : Bool)
      → get ℕ_discrete id s.active ≡ some held
      → IsWithin budget s
      → IsWithin budget (settle_active s id held commit).0
  unfolding settle_active
  settle_active-IsWithin s id held commit e v = ground (
    arith,
    v,
    sum_by-remove ℕ_discrete (λ (h : Held). h.contribution) id s.active e,
    sat_add-eq s.committed held.contribution,
  )

  settle_charged-IsWithin :
      (s : ScopeState) (id : ℕ) (held : Held) (p : ℕ) (commit : Bool)
      → IsWithin budget s
      → IsWithin budget (settle_charged s id held p commit).0
  unfolding settle_charged
  settle_charged-IsWithin s id held p commit v =
      ground (arith, v, AllValues-remove ℕ_discrete IsCharged id s.reclaimed v.charged)

  -- On a scope within a budget of at most MAX_UNITS of which every tombstone was charged when its
  -- reservation expired, as with the commit disposition, no settlement, whatever its outcome, takes the
  -- scope over the budget, and every tombstone stays a charged one.
  pub settle-IsWithin :
      {s : ScopeState} (id : ℕ) (commit : Bool)
      → IsWithin budget s
      → IsWithin budget (settle s id commit).0
  unfolding settle_charged settle_late
  settle-IsWithin {s} id commit v =
      settle_cases (λ r. IsWithin budget r.0) s id commit
        (λ held e. settle_active-IsWithin s id held commit e v)
        (λ held p e f g. settle_charged-IsWithin s id held p commit v)
        (λ held e f g. absurd (AllValues-get ℕ_discrete IsCharged id s.reclaimed v.charged f g))
        (λ e f. v)
