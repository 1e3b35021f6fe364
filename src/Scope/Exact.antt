-- ===== src/Scope/Exact.antt =====
-- `reserved` is the exact sum of the reservations in flight: with every contribution at most
-- `MAX_UNITS` (which aggregate-risk-gate/src/lib.rs ensures) and at most `MAX_HELD` entries, no
-- saturating addition to it reaches the top of `u64`.
use agent_governance_policie.Prelude.{
  ℕ, ◌+◌, ◌-◌, ◌*◌, ◌≤◌, ◌≡◌, refl, Bool, true, false, none, some, List, [], ◌∷◌, inl, inr,
  Option-cases, length, ltb, sat_add, sat_add-eq, String, ℕ_discrete, arith,
}
use agent_governance_policie.Prelude.Assoc.{sum_by, get, remove, insert, AllValues}
use agent_governance_policie.Prelude.Assoc.Laws.{
  sum_by-remove, length-remove, remove_absent, length-retain-le, AllValues-remove,
}
use agent_governance_policie.Scope.Types.{Timeout, Held}
use agent_governance_policie.Scope.Cases.{settle_cases}
use agent_governance_policie.Scope.{
  ScopeState, max_held, roll, expire_held, expire, expire_all, expired, reclaim, hold,
  settle_active, settle_charged, settle_late, settle,
}

-- `MAX_UNITS` of lib.rs, 2^53 - 1.
abbrev pub max_units : ℕ
max_units = 9007199254740991

abbrev pub held_sum : List (ℕ × Held) → ℕ
held_sum = sum_by (λ held. held.contribution)

abbrev pub AllSmall : List (ℕ × Held) → Type 0
AllSmall = AllValues (λ held. held.contribution ≤ max_units)

pub record IsExact (s : ScopeState) : Type 0 where
  pub summed : s.reserved ≡ held_sum s.active
  pub small : AllSmall s.active
  pub within : length s.active + length s.reclaimed ≤ max_held

pub held_sum-le : (m : List (ℕ × Held)) → AllSmall m → held_sum m ≤ length m * max_units
unfolding sum_by
held_sum-le [] h = omega arith
held_sum-le ((id, held) ∷ m) h = omega (arith, held_sum-le m h.1, h.0)

-- The sum of the reservations in flight is far from the top of `u64`.
pub reserved_bound : {s : ScopeState} → IsExact s → s.reserved ≤ max_held * max_units
reserved_bound {s} v = omega (arith, held_sum-le s.active v.small, v.summed, v.within)

pub length-insert-le :
    (id : ℕ) (held : Held) (m : List (ℕ × Held))
    → length (insert ℕ_discrete id held m) ≤ length m + 1
unfolding insert
length-insert-le id held m = elim (Option-cases (get ℕ_discrete id m)) [
  | inl e ↦ omega (arith, ap_length (remove_absent ℕ_discrete id m e))
  | inr (v, e) ↦ omega (arith, length-remove ℕ_discrete id m e)
]
  where
    ap_length : remove ℕ_discrete id m ≡ m → length (remove ℕ_discrete id m) ≡ length m
    ap_length e = rw e refl

pub roll-IsExact : {s : ScopeState} (period : ℕ) → IsExact s → IsExact (roll s period)
unfolding roll
roll-IsExact period v = ground arith

-- A reservation leaves `active`, for a tombstone or for good.
module _ (s : ScopeState) (id : ℕ) (held : Held) {t : ScopeState}
    (e : get ℕ_discrete id s.active ≡ some held) (active : t.active ≡ remove ℕ_discrete id s.active)
    (reserved : t.reserved ≡ s.reserved - held.contribution)
    (reclaimed : length t.reclaimed ≤ length s.reclaimed + 1) where
  leave-IsExact : IsExact s → IsExact t
  leave-IsExact v = record {
    summed = rw active (
        omega (
          arith,
          v.summed,
          reserved,
          sum_by-remove ℕ_discrete (λ held. held.contribution) id s.active e,
        ));
    small = rw active (AllValues-remove ℕ_discrete _ id s.active v.small);
    within = rw active (omega (arith, v.within, reclaimed, length-remove ℕ_discrete id s.active e));
  }

module _ (timeout : Timeout) where
  expire_held-IsExact :
      (id : ℕ) (held : Held) (s : ScopeState) (n : ℕ)
      → get ℕ_discrete id s.active ≡ some held
      → IsExact s
      → IsExact (expire_held timeout id held (s, n)).0
  unfolding expire_held
  expire_held-IsExact id held s n e v =
      elim timeout as (λ x. IsExact (expire_held x id held (s, n)).0) [
        | Timeout.commit ↦ leave-IsExact s id held e refl refl (length-insert-le id _ s.reclaimed) v
        | Timeout.release ↦
            leave-IsExact s id held e refl refl (length-insert-le id held s.reclaimed) v
      ]

  expire-IsExact : (id : ℕ) (p : ScopeState × ℕ) → IsExact p.0 → IsExact (expire timeout id p).0
  unfolding expire
  expire-IsExact id p v = elim (Option-cases (get ℕ_discrete id p.0.active)) [
    | inl e ↦ rw (e, expire) v
    | inr (held, e) ↦ rw (e, expire) (expire_held-IsExact id held p.0 p.1 e v)
  ]

  expire_all-IsExact :
      (ids : List ℕ) (p : ScopeState × ℕ) → IsExact p.0 → IsExact (expire_all timeout ids p).0
  unfolding expire_all
  expire_all-IsExact [] p v = v
  expire_all-IsExact (id ∷ ids) p v =
      expire_all-IsExact ids (expire timeout id p) (expire-IsExact id p v)

  pub reclaim-IsExact :
      {s : ScopeState} (now ttl : ℕ) → IsExact s → IsExact (reclaim s now ttl timeout).0
  unfolding reclaim
  reclaim-IsExact {s} now ttl v =
      let p = expire_all timeout (expired s now) (s, 0) in
      let w = expire_all-IsExact (expired s now) (s, 0) v in
      record {
        summed = w.summed;
        small = w.small;
        within = omega (
          arith,
          w.within,
          length-retain-le (λ held. ltb now (sat_add held.expires_at ttl)) p.0.reclaimed,
        );
      }

-- A hold under a fresh id, of at most MAX_UNITS, keeps `reserved` the sum of the reservations
-- in flight, each of them at most MAX_UNITS and no more than MAX_HELD records on the scope.
pub hold-IsExact :
    {s : ScopeState} (id : ℕ) (scope : String) (contribution now ttl : ℕ)
    → contribution ≤ max_units
    → get ℕ_discrete id s.active ≡ none
    → IsExact s
    → IsExact (hold s id scope contribution now ttl).0
unfolding hold insert sum_by
hold-IsExact {s} id scope contribution now ttl small fresh v = ground (
  arith,
  reserved_bound v,
  v,
  sat_add-eq s.reserved contribution,
  remove_absent ℕ_discrete id s.active fresh,
)

length-remove-le : (id : ℕ) (m : List (ℕ × Held)) → length (remove ℕ_discrete id m) ≤ length m
unfolding remove
length-remove-le id [] = omega arith
length-remove-le id ((j, held) ∷ m) = ground (arith, length-remove-le id m)

settle_active-IsExact :
    (s : ScopeState) (id : ℕ) (held : Held) (commit : Bool)
    → get ℕ_discrete id s.active ≡ some held
    → IsExact s
    → IsExact (settle_active s id held commit).0
unfolding settle_active
settle_active-IsExact s id held true e v = leave-IsExact s id held e refl refl (omega arith) v
settle_active-IsExact s id held false e v = leave-IsExact s id held e refl refl (omega arith) v

-- A settlement of either kind, whatever its outcome, keeps `reserved` the sum of the reservations in
-- flight, each of them at most MAX_UNITS and no more than MAX_HELD records on the scope.
pub settle-IsExact :
    {s : ScopeState} (id : ℕ) (commit : Bool) → IsExact s → IsExact (settle s id commit).0
unfolding settle_charged settle_late
settle-IsExact {s} id commit v =
    settle_cases (λ r. IsExact r.0) s id commit
      (λ held e. settle_active-IsExact s id held commit e v)
      (λ held p e f g. ground (arith, length-remove-le id s.reclaimed))
      (λ held e f g. ground (arith, length-remove-le id s.reclaimed)) (λ e f. v)
