-- ===== src/Scope/Reclaim.antt =====
-- What `reclaim` computes: which reservations leave `active`, and what becomes of their exposure.
use agent_governance_policie.Prelude.{
  ℕ, ◌+◌, ◌≤◌, ◌≡◌, refl, ◌∙◌, not, List, [], ◌∷◌, inl, inr, Option-cases, length, length-map,
  sat_add-eq, u64_max, ℕ_discrete, arith,
}
use native.Mathlib.Nat.{add_comm}
use agent_governance_policie.Prelude.Assoc.{get, retain, Distinct}
use agent_governance_policie.Prelude.Assoc.Laws.{
  sum_by-remove, length-remove, remove_absent, remove_all, remove_all-keys, length-retain,
  sum_by-retain,
}
use agent_governance_policie.Scope.Types.{Timeout, Held}
use agent_governance_policie.Scope.Exact.{held_sum}
use agent_governance_policie.Scope.{
  ScopeState, is_expired, expire_held, expire, expire_all, expired, reclaim,
}

-- The fields that the loop leaves alone, and the reservations it takes off.
record Loops (ids : List ℕ) (p q : ScopeState × ℕ) : Type 0 where
  active : q.0.active ≡ remove_all ℕ_discrete ids p.0.active
  period : q.0.period ≡ p.0.period
  indexed_at : q.0.indexed_at ≡ p.0.indexed_at

expire-Loops :
    (timeout : Timeout) (id : ℕ) (p : ScopeState × ℕ) → Loops (id ∷ []) p (expire timeout id p)
unfolding expire remove_all expire_held
expire-Loops timeout id p = elim (Option-cases (get ℕ_discrete id p.0.active)) [
  | inl e ↦
      rw (e, expire)
        (record {
          active = rw (remove_absent ℕ_discrete id p.0.active e);
          period = refl;
          indexed_at = refl;
        })
  | inr (held, e) ↦ rw (e, expire) (ground arith)
]

expire_all-Loops :
    (timeout : Timeout) (ids : List ℕ) (p : ScopeState × ℕ) → Loops ids p (expire_all timeout ids p)
unfolding expire_all remove_all
expire_all-Loops timeout [] p = record { active = refl; period = refl; indexed_at = refl }
expire_all-Loops timeout (id ∷ ids) p =
    let one = expire-Loops timeout id p in
    let rest = expire_all-Loops timeout ids (expire timeout id p) in
    record {
      active = rest.active ∙ rw one.active refl;
      period = rest.period ∙ one.period;
      indexed_at = rest.indexed_at ∙ one.indexed_at;
    }

expire_all-active :
    (s : ScopeState) (now : ℕ) (timeout : Timeout)
    → Distinct ℕ_discrete s.active
    → (expire_all timeout (expired s now) (s, 0)).0.active
      ≡ retain (λ held. not (is_expired now held)) s.active
unfolding expired
expire_all-active s now timeout d =
    (expire_all-Loops timeout (expired s now) (s, 0)).active
    ∙ remove_all-keys ℕ_discrete (is_expired now) s.active d

-- Exactly the reservations past their deadline leave `active`.
pub reclaim-active :
    (s : ScopeState) (now ttl : ℕ) (timeout : Timeout)
    → Distinct ℕ_discrete s.active
    → (reclaim s now ttl timeout).0.active ≡ retain (λ held. not (is_expired now held)) s.active
unfolding reclaim
reclaim-active s now ttl timeout d = expire_all-active s now timeout d

pub reclaim-period :
    (s : ScopeState) (now ttl : ℕ) (timeout : Timeout)
    → (reclaim s now ttl timeout).0.period ≡ s.period
unfolding reclaim
reclaim-period s now ttl timeout = (expire_all-Loops timeout (expired s now) (s, 0)).period

pub reclaim-indexed_at :
    (s : ScopeState) (now ttl : ℕ) (timeout : Timeout)
    → (reclaim s now ttl timeout).0.indexed_at ≡ s.indexed_at
unfolding reclaim
reclaim-indexed_at s now ttl timeout = (expire_all-Loops timeout (expired s now) (s, 0)).indexed_at

-- In commit mode a step moves exposure from `reserved` to `committed` and counts the move.
pub record Moves (p q : ScopeState × ℕ) : Type 0 where
  pub summed : q.0.reserved ≡ held_sum q.0.active
  pub same_total : q.0.committed + q.0.reserved ≡ p.0.committed + p.0.reserved
  pub counted : q.1 + length q.0.active ≡ p.1 + length p.0.active

pub expire-Moves :
    (id : ℕ) (p : ScopeState × ℕ)
    → p.0.reserved ≡ held_sum p.0.active
    → p.0.committed + p.0.reserved ≤ u64_max
    → Moves p (expire Timeout.commit id p)
unfolding expire expire_held
expire-Moves id p sum top = elim (Option-cases (get ℕ_discrete id p.0.active)) [
  | inl e ↦ rw (e, expire) (ground arith)
  | inr (held, e) ↦
      rw (e, expire)
        (ground (
          arith,
          sum_by-remove ℕ_discrete (λ (h : Held). h.contribution) id p.0.active e,
          length-remove ℕ_discrete id p.0.active e,
          sat_add-eq p.0.committed held.contribution,
        ))
]

expire_all-Moves :
    (ids : List ℕ) (p : ScopeState × ℕ)
    → p.0.reserved ≡ held_sum p.0.active
    → p.0.committed + p.0.reserved ≤ u64_max
    → Moves p (expire_all Timeout.commit ids p)
unfolding expire_all
expire_all-Moves [] p sum top = record { summed = sum; same_total = refl; counted = refl }
expire_all-Moves (id ∷ ids) p sum top =
    let one = expire-Moves id p sum top in
    let rest =
      expire_all-Moves ids (expire Timeout.commit id p) one.summed
        (omega (arith, one.same_total)) in
    record {
      summed = rest.summed;
      same_total = rest.same_total ∙ one.same_total;
      counted = rest.counted ∙ one.counted;
    }

-- The sum of the contributions that a `reclaim` at `now` expires.
abbrev pub expiring_sum : ℕ → ScopeState → ℕ
expiring_sum now s = held_sum (retain (is_expired now) s.active)

-- The loop's effect on the sums, for the states that `active` passes through.
module _ (s : ScopeState) (now : ℕ) (timeout : Timeout) (d : Distinct ℕ_discrete s.active) where
  expiring_split :
      held_sum (expire_all timeout (expired s now) (s, 0)).0.active + expiring_sum now s
      ≡ held_sum s.active
  expiring_split = rw (expire_all-active s now timeout d) (
      add_comm _ (expiring_sum now s)
      ∙ sum_by-retain (λ (h : Held). h.contribution) (is_expired now) s.active)

  expiring_length :
      length (expire_all timeout (expired s now) (s, 0)).0.active + length (expired s now)
      ≡ length s.active
  unfolding expired
  expiring_length = rw (expire_all-active s now timeout d) (
      omega (
        arith,
        length-retain (is_expired now) s.active,
        length-map (retain (is_expired now) s.active) (λ (e : ℕ × Held). e.0),
      ))

-- Where `reserved` is the sum of the reservations in flight, no id stands twice and the total is a
-- `u64`, a reclaim in commit mode moves exactly the expired contributions from `reserved` to
-- `committed`, and counts a provisional charge for each reservation that it expires.
pub reclaim_commit :
    (s : ScopeState) (now ttl : ℕ)
    → s.reserved ≡ held_sum s.active
    → s.committed + s.reserved ≤ u64_max
    → Distinct ℕ_discrete s.active
    → let r = reclaim s now ttl Timeout.commit in
      (r.0.committed ≡ s.committed + expiring_sum now s)
      × (r.0.reserved + expiring_sum now s ≡ s.reserved)
      × (r.1.2 ≡ r.1.0)
unfolding reclaim
reclaim_commit s now ttl sum top d = omega (
  arith,
  expire_all-Moves (expired s now) (s, 0) sum top,
  expiring_split s now Timeout.commit d,
  expiring_length s now Timeout.commit d,
)

-- In release mode a step gives a contribution back, and charges nothing.
record Frees (p q : ScopeState × ℕ) : Type 0 where
  summed : q.0.reserved ≡ held_sum q.0.active
  same_committed : q.0.committed ≡ p.0.committed
  uncounted : q.1 ≡ p.1

expire-Frees :
    (id : ℕ) (p : ScopeState × ℕ)
    → p.0.reserved ≡ held_sum p.0.active
    → Frees p (expire Timeout.release id p)
unfolding expire expire_held
expire-Frees id p sum = elim (Option-cases (get ℕ_discrete id p.0.active)) [
  | inl e ↦ rw (e, expire) (ground arith)
  | inr (held, e) ↦
      rw (e, expire)
        (ground (arith, sum_by-remove ℕ_discrete (λ (h : Held). h.contribution) id p.0.active e))
]

expire_all-Frees :
    (ids : List ℕ) (p : ScopeState × ℕ)
    → p.0.reserved ≡ held_sum p.0.active
    → Frees p (expire_all Timeout.release ids p)
unfolding expire_all
expire_all-Frees [] p sum = record { summed = sum; same_committed = refl; uncounted = refl }
expire_all-Frees (id ∷ ids) p sum =
    let one = expire-Frees id p sum in
    let rest = expire_all-Frees ids (expire Timeout.release id p) one.summed in
    record {
      summed = rest.summed;
      same_committed = rest.same_committed ∙ one.same_committed;
      uncounted = rest.uncounted ∙ one.uncounted;
    }

-- Where `reserved` is the sum of the reservations in flight and no id stands twice, a reclaim in release
-- mode leaves `committed` alone, frees exactly the expired contributions, and charges none.
pub reclaim_release :
    (s : ScopeState) (now ttl : ℕ)
    → s.reserved ≡ held_sum s.active
    → Distinct ℕ_discrete s.active
    → let r = reclaim s now ttl Timeout.release in
      (r.0.committed ≡ s.committed) × (r.0.reserved + expiring_sum now s ≡ s.reserved) × (r.1.2 ≡ 0)
unfolding reclaim
reclaim_release s now ttl sum d =
    omega
      (arith, expire_all-Frees (expired s now) (s, 0) sum, expiring_split s now Timeout.release d)
