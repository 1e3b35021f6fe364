-- ===== src/Scope/Distinct.antt =====
-- No reservation id stands twice on a scope, in flight or as a tombstone.
use agent_governance_policie.Prelude.{
  ℕ, ◌≡◌, refl, ◌⊎◌, inl, inr, ◌∙◌, Bool, true, false, none, some, List, [], ◌∷◌, Option-cases,
  String, if_neg, ℕ_discrete, arith,
}
use agent_governance_policie.Prelude.Assoc.{get, remove, insert, retain, Distinct}
use agent_governance_policie.Prelude.Assoc.Laws.{
  get-remove_absent, get-remove_self, Distinct-remove, Distinct-insert, get-insert,
  get-retain_absent, Distinct-retain,
}
use agent_governance_policie.Scope.Types.{Timeout, Held, Settlement}
use agent_governance_policie.Scope.Cases.{settle_cases, hold_cases}
use agent_governance_policie.Scope.{
  ScopeState, roll, expire_held, expire, expire_all, expired, kept, reclaim, set_aside, hold,
  settle_active, settle_charged, settle_late, settle,
}

abbrev pub Apart : List (ℕ × Held) → List (ℕ × Held) → Type 0
Apart m n = (id : ℕ) → (get ℕ_discrete id m ≡ none) ⊎ (get ℕ_discrete id n ≡ none)

pub record IsDistinct (s : ScopeState) : Type 0 where
  pub active : Distinct ℕ_discrete s.active
  pub reclaimed : Distinct ℕ_discrete s.reclaimed
  pub apart : Apart s.active s.reclaimed

Apart-remove_left : (id : ℕ) (m n : List (ℕ × Held)) → Apart m n → Apart (remove ℕ_discrete id m) n
Apart-remove_left id m n a j = elim (a j) [
  | inl e ↦ inl (get-remove_absent ℕ_discrete id j m e)
  | inr e ↦ inr e
]

Apart-remove_right : (id : ℕ) (m n : List (ℕ × Held)) → Apart m n → Apart m (remove ℕ_discrete id n)
Apart-remove_right id m n a j = elim (a j) [
  | inl e ↦ inl e
  | inr e ↦ inr (get-remove_absent ℕ_discrete id j n e)
]

Apart-retain : (p : Held → Bool) (m n : List (ℕ × Held)) → Apart m n → Apart m (retain p n)
Apart-retain p m n a j = elim (a j) [
  | inl e ↦ inl e
  | inr e ↦ inr (get-retain_absent ℕ_discrete j p n e)
]

-- A reservation that becomes a tombstone.
Apart-move :
    (id : ℕ) (held : Held) (m n : List (ℕ × Held))
    → Distinct ℕ_discrete m
    → Apart m n
    → Apart (remove ℕ_discrete id m) (insert ℕ_discrete id held n)
Apart-move id held m n d a j = elim (ℕ_discrete id j) [
  | yes p ↦ inl (rw (← p) (get-remove_self ℕ_discrete id m d))
  | no p ↦ elim (a j) [
    | inl e ↦ inl (get-remove_absent ℕ_discrete id j m e)
    | inr e ↦ inr (get-insert ℕ_discrete id j held n ∙ if_neg (ℕ_discrete id j) p _ _ ∙ e)
  ]
]

Apart-insert_left :
    (id : ℕ) (held : Held) (m n : List (ℕ × Held))
    → get ℕ_discrete id n ≡ none
    → Apart m n
    → Apart (insert ℕ_discrete id held m) n
Apart-insert_left id held m n fresh a j = elim (ℕ_discrete id j) [
  | yes p ↦ inr (rw (← p) fresh)
  | no p ↦ elim (a j) [
    | inl e ↦ inl (get-insert ℕ_discrete id j held m ∙ if_neg (ℕ_discrete id j) p _ _ ∙ e)
    | inr e ↦ inr e
  ]
]

module _ {s t : ScopeState} where
  -- Only the two maps matter.
  pub same-IsDistinct :
      t.active ≡ s.active → t.reclaimed ≡ s.reclaimed → IsDistinct s → IsDistinct t
  same-IsDistinct a r v = record {
    active = rw a v.active;
    reclaimed = rw r v.reclaimed;
    apart = rw (a, r) v.apart;
  }

  leave-IsDistinct :
      (id : ℕ)
      → t.active ≡ remove ℕ_discrete id s.active
      → t.reclaimed ≡ s.reclaimed
      → IsDistinct s
      → IsDistinct t
  leave-IsDistinct id a r v = record {
    active = rw a (Distinct-remove ℕ_discrete id s.active v.active);
    reclaimed = rw r v.reclaimed;
    apart = rw (a, r) (Apart-remove_left id s.active s.reclaimed v.apart);
  }

  drop-IsDistinct :
      (id : ℕ)
      → t.active ≡ s.active
      → t.reclaimed ≡ remove ℕ_discrete id s.reclaimed
      → IsDistinct s
      → IsDistinct t
  drop-IsDistinct id a r v = record {
    active = rw a v.active;
    reclaimed = rw r (Distinct-remove ℕ_discrete id s.reclaimed v.reclaimed);
    apart = rw (a, r) (Apart-remove_right id s.active s.reclaimed v.apart);
  }

-- A new period touches neither map.
pub roll_maps :
    (s : ScopeState) (period : ℕ)
    → ((roll s period).active ≡ s.active) × ((roll s period).reclaimed ≡ s.reclaimed)
unfolding roll
roll_maps s period = ground arith

pub roll-IsDistinct : {s : ScopeState} (period : ℕ) → IsDistinct s → IsDistinct (roll s period)
roll-IsDistinct {s} period v = same-IsDistinct (roll_maps s period).0 (roll_maps s period).1 v

module _ (timeout : Timeout) where
  expire_held-IsDistinct :
      (id : ℕ) (held : Held) (p : ScopeState × ℕ)
      → IsDistinct p.0
      → IsDistinct (expire_held timeout id held p).0
  unfolding expire_held
  expire_held-IsDistinct id held p v =
      elim timeout as (λ x. IsDistinct (expire_held x id held p).0) [
        | Timeout.commit ↦ record {
          active = Distinct-remove ℕ_discrete id p.0.active v.active;
          reclaimed = Distinct-insert ℕ_discrete id _ p.0.reclaimed v.reclaimed;
          apart = Apart-move id _ p.0.active p.0.reclaimed v.active v.apart;
        }
        | Timeout.release ↦ record {
          active = Distinct-remove ℕ_discrete id p.0.active v.active;
          reclaimed = Distinct-insert ℕ_discrete id held p.0.reclaimed v.reclaimed;
          apart = Apart-move id held p.0.active p.0.reclaimed v.active v.apart;
        }
      ]

  expire-IsDistinct :
      (id : ℕ) (p : ScopeState × ℕ) → IsDistinct p.0 → IsDistinct (expire timeout id p).0
  unfolding expire
  expire-IsDistinct id p v = elim (Option-cases (get ℕ_discrete id p.0.active)) [
    | inl e ↦ rw (e, expire) v
    | inr (held, e) ↦ rw (e, expire) (expire_held-IsDistinct id held p v)
  ]

  expire_all-IsDistinct :
      (ids : List ℕ) (p : ScopeState × ℕ) → IsDistinct p.0 → IsDistinct (expire_all timeout ids p).0
  unfolding expire_all
  expire_all-IsDistinct [] p v = v
  expire_all-IsDistinct (id ∷ ids) p v =
      expire_all-IsDistinct ids (expire timeout id p) (expire-IsDistinct id p v)

  pub reclaim-IsDistinct :
      {s : ScopeState} (now ttl : ℕ) → IsDistinct s → IsDistinct (reclaim s now ttl timeout).0
  unfolding reclaim kept
  reclaim-IsDistinct {s} now ttl v =
      let p = expire_all timeout (expired s now) (s, 0) in
      let w = expire_all-IsDistinct (expired s now) (s, 0) v in
      record {
        active = w.active;
        reclaimed = Distinct-retain ℕ_discrete _ p.0.reclaimed w.reclaimed;
        apart = Apart-retain _ p.0.active p.0.reclaimed w.apart;
      }

-- `hold` under an id that the scope does not know.
pub hold-IsDistinct :
    {s : ScopeState} (id : ℕ) (scope : String) (contribution now ttl : ℕ)
    → get ℕ_discrete id s.reclaimed ≡ none
    → IsDistinct s
    → IsDistinct (hold s id scope contribution now ttl).0
unfolding set_aside
hold-IsDistinct {s} id scope contribution now ttl fresh v =
    hold_cases (λ r. IsDistinct r.0) s id scope contribution now ttl (λ p e. v)
      (λ p e. record {
        active = Distinct-insert ℕ_discrete id _ s.active v.active;
        reclaimed = v.reclaimed;
        apart = Apart-insert_left id _ s.active s.reclaimed fresh v.apart;
      })
      (λ e. v)

settle_active-IsDistinct :
    (s : ScopeState) (id : ℕ) (held : Held) (commit : Bool)
    → IsDistinct s
    → IsDistinct (settle_active s id held commit).0
unfolding settle_active
settle_active-IsDistinct s id held true v = leave-IsDistinct id refl refl v
settle_active-IsDistinct s id held false v = leave-IsDistinct id refl refl v

pub settle_charged_maps :
    (s : ScopeState) (id : ℕ) (held : Held) (p : ℕ) (commit : Bool)
    → let t = (settle_charged s id held p commit).0 in
      (t.active ≡ s.active) × (t.reclaimed ≡ remove ℕ_discrete id s.reclaimed)
unfolding settle_charged
settle_charged_maps s id held p commit = ground arith

pub settle_late_maps :
    (s : ScopeState) (id : ℕ) (held : Held) (commit : Bool)
    → let t = (settle_late s id held commit).0 in
      (t.active ≡ s.active) × (t.reclaimed ≡ remove ℕ_discrete id s.reclaimed)
unfolding settle_late
settle_late_maps s id held commit = ground arith

pub settle-IsDistinct :
    {s : ScopeState} (id : ℕ) (commit : Bool) → IsDistinct s → IsDistinct (settle s id commit).0
settle-IsDistinct {s} id commit v =
    settle_cases (λ r. IsDistinct r.0) s id commit
      (λ held e. settle_active-IsDistinct s id held commit v)
      (λ held p e f g.
        let m = settle_charged_maps s id held p commit in drop-IsDistinct id m.0 m.1 v)
      (λ held e f g. let m = settle_late_maps s id held commit in drop-IsDistinct id m.0 m.1 v)
      (λ e f. v)

-- An id that the scope does not know settles as `NotActive`, and changes nothing.
pub settle_unknown :
    (s : ScopeState) (id : ℕ) (commit : Bool)
    → get ℕ_discrete id s.active ≡ none
    → get ℕ_discrete id s.reclaimed ≡ none
    → settle s id commit ≡ (s, Settlement.not_active)
unfolding settle
settle_unknown s id commit a r = rw (a, r, settle)

pub settle_active_maps :
    (s : ScopeState) (id : ℕ) (held : Held) (commit : Bool)
    → let t = (settle_active s id held commit).0 in
      (t.active ≡ remove ℕ_discrete id s.active) × (t.reclaimed ≡ s.reclaimed)
unfolding settle_active
settle_active_maps s id held commit = ground arith

-- After a settlement of `id` the scope holds `id` no more.
pub settle_gone :
    {s : ScopeState} (id : ℕ) (commit : Bool)
    → IsDistinct s
    → let t = (settle s id commit).0 in
      (get ℕ_discrete id t.active ≡ none) × (get ℕ_discrete id t.reclaimed ≡ none)
settle_gone {s} id commit v =
    settle_cases
      (λ r. (get ℕ_discrete id r.0.active ≡ none) × (get ℕ_discrete id r.0.reclaimed ≡ none)) s id
      commit
      (λ held e.
        let m = settle_active_maps s id held commit in
        (rw (m.0) (get-remove_self ℕ_discrete id s.active v.active), rw (m.1) (other held e)))
      (λ held p e f g.
        let m = settle_charged_maps s id held p commit in
        (rw (m.0) e, rw (m.1) (get-remove_self ℕ_discrete id s.reclaimed v.reclaimed)))
      (λ held e f g.
        let m = settle_late_maps s id held commit in
        (rw (m.0) e, rw (m.1) (get-remove_self ℕ_discrete id s.reclaimed v.reclaimed)))
      (λ e f. (e, f))
  where
    other :
        (held : Held)
        → get ℕ_discrete id s.active ≡ some held
        → get ℕ_discrete id s.reclaimed ≡ none
    other held e = elim (v.apart id) [ inl a ↦ absurd (ground arith) | inr r ↦ r ]

-- On a scope that has each id once, a reservation is settled at most once: after a settlement of either
-- kind a second one, of either kind, changes nothing and answers `not_active`.
pub settle_twice :
    (s : ScopeState) (id : ℕ) (first second : Bool)
    → IsDistinct s
    → let t = (settle s id first).0 in settle t id second ≡ (t, Settlement.not_active)
settle_twice s id first second v =
    let gone = settle_gone id first v in
    settle_unknown (settle s id first).0 id second gone.0 gone.1
