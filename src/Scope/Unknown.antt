-- ===== src/Scope/Unknown.antt =====
-- An id that a scope does not know, in flight or as a tombstone, stays unknown until it is held.
use agent_governance_policie.Prelude.{
  ℕ, ◌≡◌, ◌≢◌, ◌∙◌, Bool, none, some, List, [], ◌∷◌, inl, inr, Option-cases, String, if_neg, ap,
  ℕ_discrete,
}
use agent_governance_policie.Prelude.Assoc.{get, insert}
use agent_governance_policie.Prelude.Assoc.Laws.{get-remove_absent, get-insert, get-retain_absent}
use agent_governance_policie.Scope.Types.{Timeout, Held}
use agent_governance_policie.Scope.Cases.{settle_cases, hold_cases}
use agent_governance_policie.Scope.Distinct.{
  roll_maps, settle_active_maps, settle_charged_maps, settle_late_maps,
}
use agent_governance_policie.Scope.{
  ScopeState, roll, expire_held, expire, expire_all, expired, kept, reclaim, set_aside, hold,
  settle,
}

abbrev pub IsUnknown : ℕ → ScopeState → Type 0
IsUnknown id s = (get ℕ_discrete id s.active ≡ none) × (get ℕ_discrete id s.reclaimed ≡ none)

module _ (other : ℕ) where
  pub roll-IsUnknown :
      (s : ScopeState) (period : ℕ) → IsUnknown other s → IsUnknown other (roll s period)
  roll-IsUnknown s period u = let m = roll_maps s period in (rw (m.0) (u.0), rw (m.1) (u.1))

  get-insert_absent :
      (id : ℕ) (held : Held) (m : List (ℕ × Held))
      → id ≢ other
      → get ℕ_discrete other m ≡ none
      → get ℕ_discrete other (insert ℕ_discrete id held m) ≡ none
  get-insert_absent id held m ne e =
      get-insert ℕ_discrete id other held m ∙ if_neg (ℕ_discrete id other) ne _ _ ∙ e

  expire_held-IsUnknown :
      (timeout : Timeout) (id : ℕ) (held : Held) (p : ScopeState × ℕ)
      → id ≢ other
      → IsUnknown other p.0
      → IsUnknown other (expire_held timeout id held p).0
  unfolding expire_held
  expire_held-IsUnknown Timeout.commit id held p ne u = (
    get-remove_absent ℕ_discrete id other p.0.active u.0,
    get-insert_absent id _ p.0.reclaimed ne u.1,
  )
  expire_held-IsUnknown Timeout.release id held p ne u = (
    get-remove_absent ℕ_discrete id other p.0.active u.0,
    get-insert_absent id held p.0.reclaimed ne u.1,
  )

  expire-IsUnknown :
      (timeout : Timeout) (id : ℕ) (p : ScopeState × ℕ)
      → IsUnknown other p.0
      → IsUnknown other (expire timeout id p).0
  unfolding expire
  expire-IsUnknown timeout id p u = elim (Option-cases (get ℕ_discrete id p.0.active)) [
    | inl e ↦ rw (e, expire) u
    | inr (held, e) ↦
        rw (e, expire) (expire_held-IsUnknown timeout id held p (λ same. known held e same) u)
  ]
    where
      known : (held : Held) → get ℕ_discrete id p.0.active ≡ some held → id ≡ other → ⊥
      known held e same = cc (ap (λ i. get ℕ_discrete i p.0.active) same, e, u.0)

  expire_all-IsUnknown :
      (timeout : Timeout) (ids : List ℕ) (p : ScopeState × ℕ)
      → IsUnknown other p.0
      → IsUnknown other (expire_all timeout ids p).0
  unfolding expire_all
  expire_all-IsUnknown timeout [] p u = u
  expire_all-IsUnknown timeout (id ∷ ids) p u =
      expire_all-IsUnknown timeout ids (expire timeout id p) (expire-IsUnknown timeout id p u)

  pub reclaim-IsUnknown :
      (s : ScopeState) (now ttl : ℕ) (timeout : Timeout)
      → IsUnknown other s
      → IsUnknown other (reclaim s now ttl timeout).0
  unfolding reclaim kept
  reclaim-IsUnknown s now ttl timeout u =
      let t = expire_all timeout (expired s now) (s, 0) in
      let w = expire_all-IsUnknown timeout (expired s now) (s, 0) u in
      (w.0, get-retain_absent ℕ_discrete other _ t.0.reclaimed w.1)

  pub hold-IsUnknown :
      (s : ScopeState) (id : ℕ) (scope : String) (contribution now ttl : ℕ)
      → id ≢ other
      → IsUnknown other s
      → IsUnknown other (hold s id scope contribution now ttl).0
  unfolding set_aside
  hold-IsUnknown s id scope contribution now ttl ne u =
      hold_cases (λ r. IsUnknown other r.0) s id scope contribution now ttl (λ p e. u)
        (λ p e. (get-insert_absent id _ s.active ne u.0, u.1)) (λ e. u)

  pub settle-IsUnknown :
      (s : ScopeState) (id : ℕ) (commit : Bool)
      → IsUnknown other s
      → IsUnknown other (settle s id commit).0
  settle-IsUnknown s id commit u =
      settle_cases (λ r. IsUnknown other r.0) s id commit
        (λ held e.
          let m = settle_active_maps s id held commit in
          (rw (m.0) (get-remove_absent ℕ_discrete id other s.active u.0), rw (m.1) (u.1)))
        (λ held p e f g.
          let m = settle_charged_maps s id held p commit in
          (rw (m.0) (u.0), rw (m.1) (get-remove_absent ℕ_discrete id other s.reclaimed u.1)))
        (λ held e f g.
          let m = settle_late_maps s id held commit in
          (rw (m.0) (u.0), rw (m.1) (get-remove_absent ℕ_discrete id other s.reclaimed u.1)))
        (λ e f. u)
