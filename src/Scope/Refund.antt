-- ===== src/Scope/Refund.antt =====
-- Provisional charges: `committed` always covers every tombstone that was charged in the current
-- window period, so a refund takes back exactly what its reservation was charged.
use agent_governance_policie.Prelude.{
  ℕ, ◌+◌, ◌-◌, ◌≤◌, ◌<◌, ◌≡◌, refl, Bool, true, false, Option, none, some, List, [], ◌∷◌, inl, inr,
  Option-cases, ltb, lt→ltb, ltb-ge, dec_lt, ◌∙◌, ◌==◌, if◌then◌else◌, sat_add, sat_add-eq,
  le-sat_add, u64_max, String, ℕ_discrete, arith,
}
use agent_governance_policie.Prelude.Assoc.{sum_by, get, remove, insert, AllValues}
use agent_governance_policie.Prelude.Assoc.Laws.{
  sum_by-remove, sum_by-remove-le, sum_by-retain-le, AllValues-remove, AllValues-retain,
  remove_absent,
}
use agent_governance_policie.Scope.Types.{Timeout, Held}
use agent_governance_policie.Scope.Cases.{settle_cases, hold_cases}
use agent_governance_policie.Scope.Exact.{held_sum}
use agent_governance_policie.Scope.Reclaim.{expire-Moves}
use agent_governance_policie.Scope.{
  ScopeState, roll, expire_held, expire, expire_all, expired, kept, reclaim, set_aside, hold,
  settle_active, settle_charged, settle_late, settle,
}

-- What the tombstone was charged in `period`.
abbrev pub charged_in : ℕ → Held → ℕ
charged_in period held = elim held.provisional_period [
  | none ↦ 0
  | some p ↦ if p == period then held.contribution else 0
]

abbrev pub charged_sum : ℕ → List (ℕ × Held) → ℕ
charged_sum period = sum_by (charged_in period)

-- The period of the charge is not in the future.
abbrev pub StampLe : ℕ → Option ℕ → Type 0
StampLe period none = Unit
StampLe period (some p) = p ≤ period

abbrev pub AllStamped : ℕ → List (ℕ × Held) → Type 0
AllStamped period = AllValues (λ held. StampLe period held.provisional_period)

abbrev pub AllUncharged : List (ℕ × Held) → Type 0
AllUncharged = AllValues (λ held. held.provisional_period ≡ none)

pub record IsRefundable (s : ScopeState) : Type 0 where
  pub summed : s.reserved ≡ held_sum s.active
  pub uncharged : AllUncharged s.active
  pub stamped : AllStamped s.period s.reclaimed
  pub covered : charged_sum s.period s.reclaimed ≤ s.committed

charged_in-later :
    (p q : ℕ) (held : Held) → p < q → StampLe p held.provisional_period → charged_in q held ≡ 0
charged_in-later p q held h b = elim (Option-cases held.provisional_period) [
  | inl e ↦ ground arith
  | inr (r, e) ↦ let b' : r ≤ p = rw e at b in ground arith
]

-- In a later period nothing that was charged before is refundable.
charged_sum-later : (p q : ℕ) (m : List (ℕ × Held)) → p < q → AllStamped p m → charged_sum q m ≡ 0
unfolding sum_by
charged_sum-later p q [] h a = refl
charged_sum-later p q ((id, held) ∷ m) h a =
    omega (arith, charged_in-later p q held h a.0, charged_sum-later p q m h a.1)

StampLe-mono : (p q : ℕ) (o : Option ℕ) → p ≤ q → StampLe p o → StampLe q o
StampLe-mono p q none h b = tt
StampLe-mono p q (some r) h b = omega arith

AllStamped-mono : (p q : ℕ) (m : List (ℕ × Held)) → p ≤ q → AllStamped p m → AllStamped q m
AllStamped-mono p q [] h a = tt
AllStamped-mono p q ((id, held) ∷ m) h a =
    (StampLe-mono p q held.provisional_period h a.0, AllStamped-mono p q m h a.1)

pub roll-IsRefundable :
    {s : ScopeState} (period : ℕ) → IsRefundable s → IsRefundable (roll s period)
unfolding roll
roll-IsRefundable {s} period v = elim (dec_lt s.period period) [
  | yes p ↦
      rw (lt→ltb s.period period p, roll)
        (record {
          summed = v.summed;
          uncharged = v.uncharged;
          stamped = AllStamped-mono s.period period s.reclaimed (omega arith) v.stamped;
          covered = omega (arith, charged_sum-later s.period period s.reclaimed p v.stamped);
        })
  | no p ↦ rw (ltb-ge s.period period (omega arith), roll) v
]

-- A deadline in commit mode: the charge and its tombstone appear together.
expire_held-IsRefundable :
    (id : ℕ) (held : Held) (p : ScopeState × ℕ)
    → get ℕ_discrete id p.0.active ≡ some held
    → p.0.committed + p.0.reserved ≤ u64_max
    → IsRefundable p.0
    → IsRefundable (expire_held Timeout.commit id held p).0
unfolding expire_held insert sum_by
expire_held-IsRefundable id held (s, n) e top v =
    let sum = sum_by-remove ℕ_discrete (λ (h : Held). h.contribution) id s.active e in
    record {
      summed = omega (arith, v.summed, sum);
      uncharged = AllValues-remove ℕ_discrete _ id s.active v.uncharged;
      stamped = (omega arith, AllValues-remove ℕ_discrete _ id s.reclaimed v.stamped);
      covered = ground (
        arith,
        v.covered,
        v.summed,
        sum,
        sat_add-eq s.committed held.contribution,
        sum_by-remove-le ℕ_discrete (charged_in s.period) id s.reclaimed,
      );
    }

expire-IsRefundable :
    (id : ℕ) (p : ScopeState × ℕ)
    → p.0.committed + p.0.reserved ≤ u64_max
    → IsRefundable p.0
    → IsRefundable (expire Timeout.commit id p).0
unfolding expire
expire-IsRefundable id p top v = elim (Option-cases (get ℕ_discrete id p.0.active)) [
  | inl e ↦ rw (e, expire) v
  | inr (held, e) ↦ rw (e, expire) (expire_held-IsRefundable id held p e top v)
]

expire_all-IsRefundable :
    (ids : List ℕ) (p : ScopeState × ℕ)
    → p.0.committed + p.0.reserved ≤ u64_max
    → IsRefundable p.0
    → IsRefundable (expire_all Timeout.commit ids p).0
unfolding expire_all
expire_all-IsRefundable [] p top v = v
expire_all-IsRefundable (id ∷ ids) p top v =
    expire_all-IsRefundable ids (expire Timeout.commit id p)
      (omega (arith, (expire-Moves id p v.summed top).same_total)) (expire-IsRefundable id p top v)

pub reclaim-IsRefundable :
    {s : ScopeState} (now ttl : ℕ)
    → s.committed + s.reserved ≤ u64_max
    → IsRefundable s
    → IsRefundable (reclaim s now ttl Timeout.commit).0
unfolding reclaim kept
reclaim-IsRefundable {s} now ttl top v =
    let w = expire_all-IsRefundable (expired s now) (s, 0) top v in
    let t = (expire_all Timeout.commit (expired s now) (s, 0)).0 in
    record {
      summed = w.summed;
      uncharged = w.uncharged;
      stamped =
          AllValues-retain _ (λ held. ltb now (sat_add held.expires_at ttl)) t.reclaimed w.stamped;
      covered = omega (
        arith,
        w.covered,
        sum_by-retain-le (charged_in t.period) (λ held. ltb now (sat_add held.expires_at ttl))
            t.reclaimed,
      );
    }

pub hold-IsRefundable :
    {s : ScopeState} (id : ℕ) (scope : String) (contribution now ttl : ℕ)
    → s.reserved + contribution ≤ u64_max
    → get ℕ_discrete id s.active ≡ none
    → IsRefundable s
    → IsRefundable (hold s id scope contribution now ttl).0
unfolding set_aside insert sum_by
hold-IsRefundable {s} id scope contribution now ttl top fresh v =
    hold_cases (λ r. IsRefundable r.0) s id scope contribution now ttl (λ p e. v)
      (λ p e. record {
        summed = ground (
          arith,
          v.summed,
          sat_add-eq s.reserved contribution,
          remove_absent ℕ_discrete id s.active fresh,
        );
        uncharged = (refl, AllValues-remove ℕ_discrete _ id s.active v.uncharged);
        stamped = v.stamped;
        covered = v.covered;
      })
      (λ e. v)

module _ {s t : ScopeState} (id : ℕ) (period : t.period ≡ s.period) where
  leave-IsRefundable :
      (held : Held)
      → get ℕ_discrete id s.active ≡ some held
      → t.active ≡ remove ℕ_discrete id s.active
      → t.reserved ≡ s.reserved - held.contribution
      → t.reclaimed ≡ s.reclaimed
      → s.committed ≤ t.committed
      → IsRefundable s
      → IsRefundable t
  leave-IsRefundable held e a r m c v = record {
    summed = rw a (
        omega (
          arith,
          v.summed,
          r,
          sum_by-remove ℕ_discrete (λ (h : Held). h.contribution) id s.active e,
        ));
    uncharged = rw a (AllValues-remove ℕ_discrete _ id s.active v.uncharged);
    stamped = rw (m, period) v.stamped;
    covered = rw (m, period) (omega (arith, v.covered, c));
  }

  drop-IsRefundable :
      t.active ≡ s.active
      → t.reserved ≡ s.reserved
      → t.reclaimed ≡ remove ℕ_discrete id s.reclaimed
      → charged_sum s.period (remove ℕ_discrete id s.reclaimed) ≤ t.committed
      → IsRefundable s
      → IsRefundable t
  drop-IsRefundable a r m c v = record {
    summed = rw a (r ∙ v.summed);
    uncharged = rw a v.uncharged;
    stamped = rw (m, period) (AllValues-remove ℕ_discrete _ id s.reclaimed v.stamped);
    covered = rw (m, period) c;
  }

settle_active-IsRefundable :
    (s : ScopeState) (id : ℕ) (held : Held) (commit : Bool)
    → get ℕ_discrete id s.active ≡ some held
    → s.committed ≤ u64_max
    → IsRefundable s
    → IsRefundable (settle_active s id held commit).0
unfolding settle_active
settle_active-IsRefundable s id held true e top v =
    leave-IsRefundable id refl held e refl refl refl (le-sat_add s.committed held.contribution top)
      v
settle_active-IsRefundable s id held false e top v =
    leave-IsRefundable id refl held e refl refl refl (omega arith) v

-- A tombstone that is taken off takes its share of the charges with it.
pub charged_sum-remove :
    (s : ScopeState) (id : ℕ) (held : Held) (p : ℕ)
    → get ℕ_discrete id s.reclaimed ≡ some held
    → held.provisional_period ≡ some p
    → charged_sum s.period s.reclaimed
      ≡ (if p == s.period then held.contribution else 0)
        + charged_sum s.period (remove ℕ_discrete id s.reclaimed)
charged_sum-remove s id held p e f =
    sum_by-remove ℕ_discrete (charged_in s.period) id s.reclaimed e ∙ rw f refl

settle_charged-IsRefundable :
    (s : ScopeState) (id : ℕ) (held : Held) (p : ℕ) (commit : Bool)
    → get ℕ_discrete id s.reclaimed ≡ some held
    → held.provisional_period ≡ some p
    → IsRefundable s
    → IsRefundable (settle_charged s id held p commit).0
unfolding settle_charged
settle_charged-IsRefundable s id held p commit e f v =
    drop-IsRefundable id (ground arith) (ground arith) (ground arith) (ground arith)
      (ground (arith, v.covered, charged_sum-remove s id held p e f)) v

settle_late-IsRefundable :
    (s : ScopeState) (id : ℕ) (held : Held) (commit : Bool)
    → s.committed ≤ u64_max
    → IsRefundable s
    → IsRefundable (settle_late s id held commit).0
unfolding settle_late
settle_late-IsRefundable s id held true top v =
    drop-IsRefundable id refl refl refl refl
      (omega (
        arith,
        v.covered,
        sum_by-remove-le ℕ_discrete (charged_in s.period) id s.reclaimed,
        le-sat_add s.committed held.contribution top,
      ))
      v
settle_late-IsRefundable s id held false top v =
    drop-IsRefundable id refl refl refl refl
      (omega (arith, v.covered, sum_by-remove-le ℕ_discrete (charged_in s.period) id s.reclaimed)) v

-- On a scope whose committed total is a `u64`, a settlement of either kind leaves every provisional
-- charge of the current period covered by `committed`, so that a later refund never stops at 0.
pub settle-IsRefundable :
    {s : ScopeState} (id : ℕ) (commit : Bool)
    → s.committed ≤ u64_max
    → IsRefundable s
    → IsRefundable (settle s id commit).0
settle-IsRefundable {s} id commit top v =
    settle_cases (λ r. IsRefundable r.0) s id commit
      (λ held e. settle_active-IsRefundable s id held commit e top v)
      (λ held p e f g. settle_charged-IsRefundable s id held p commit f g v)
      (λ held e f g. settle_late-IsRefundable s id held commit top v) (λ e f. v)
