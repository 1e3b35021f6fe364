-- ===== src/Scope/Sound.antt =====
-- The invariants of a scope in block mode with the commit disposition, taken together.
use agent_governance_policie.Prelude.{ℕ, ◌+◌, ◌≤◌, ◌≡◌, refl, inl, Bool, String, ok, arith}
use agent_governance_policie.Prelude.Assoc.{get, sum_by}
use agent_governance_policie.Scope.Types.{Timeout}
use agent_governance_policie.Scope.Cases.{check-le}
use agent_governance_policie.Scope.Exact.{max_units}
use agent_governance_policie.Scope.Budget.{
  IsWithin, roll-IsWithin, reclaim-IsWithin, hold-IsWithin, settle-IsWithin,
}
use agent_governance_policie.Scope.Refund.{
  IsRefundable, roll-IsRefundable, reclaim-IsRefundable, hold-IsRefundable, settle-IsRefundable,
}
use agent_governance_policie.Scope.Distinct.{
  IsDistinct, roll-IsDistinct, reclaim-IsDistinct, hold-IsDistinct, settle-IsDistinct,
}
use agent_governance_policie.Scope.Unknown.{
  IsUnknown, roll-IsUnknown, reclaim-IsUnknown, hold-IsUnknown, settle-IsUnknown,
}
use agent_governance_policie.Scope.{ScopeState, at_period, roll, reclaim, check, hold, settle}

-- Within the budget, refunds covered, each id once, and no id from `n` on.
pub record IsSound (budget n : ℕ) (s : ScopeState) : Type 0 where
  pub within : IsWithin budget s
  pub refundable : IsRefundable s
  pub distinct : IsDistinct s
  pub fresh : (id : ℕ) → n ≤ id → IsUnknown id s

module _ {budget : ℕ} (n : ℕ) (top : budget ≤ max_units) where
  pub at_period-IsSound : (period : ℕ) → IsSound budget n (at_period period)
  unfolding at_period sum_by get
  at_period-IsSound period = record {
    within = record { summed = refl; fits = omega arith; charged = tt };
    refundable = record { summed = refl; uncharged = tt; stamped = tt; covered = omega arith };
    distinct = record { active = tt; reclaimed = tt; apart = λ id. inl refl };
    fresh = λ id h. (refl, refl);
  }

  pub roll-IsSound :
      {s : ScopeState} (period : ℕ) → IsSound budget n s → IsSound budget n (roll s period)
  roll-IsSound {s} period v = record {
    within = roll-IsWithin top period v.within;
    refundable = roll-IsRefundable period v.refundable;
    distinct = roll-IsDistinct period v.distinct;
    fresh = λ id h. roll-IsUnknown id s period (v.fresh id h);
  }

  pub reclaim-IsSound :
      {s : ScopeState} (now ttl : ℕ)
      → IsSound budget n s
      → IsSound budget n (reclaim s now ttl Timeout.commit).0
  reclaim-IsSound {s} now ttl v = record {
    within = reclaim-IsWithin top now ttl v.within;
    refundable = reclaim-IsRefundable now ttl (omega (arith, v.within.fits)) v.refundable;
    distinct = reclaim-IsDistinct Timeout.commit now ttl v.distinct;
    fresh = λ id h. reclaim-IsUnknown id s now ttl Timeout.commit (v.fresh id h);
  }

  pub settle-IsSound :
      {s : ScopeState} (id : ℕ) (commit : Bool)
      → IsSound budget n s
      → IsSound budget n (settle s id commit).0
  settle-IsSound {s} id commit v = record {
    within = settle-IsWithin top id commit v.within;
    refundable = settle-IsRefundable id commit (omega (arith, v.within.fits)) v.refundable;
    distinct = settle-IsDistinct id commit v.distinct;
    fresh = λ other h. settle-IsUnknown other s id commit (v.fresh other h);
  }

  pub IsSound-mono : {s : ScopeState} (m : ℕ) → n ≤ m → IsSound budget n s → IsSound budget m s
  IsSound-mono m h v = record {
    within = v.within;
    refundable = v.refundable;
    distinct = v.distinct;
    fresh = λ id g. v.fresh id (omega arith);
  }

  -- `hold` under the next id, after a check that passed.
  pub hold-IsSound :
      {s : ScopeState} (scope : String) (contribution now ttl : ℕ)
      → check s scope contribution budget ≡ ok tt
      → IsSound budget n s
      → IsSound budget (n + 1) (hold s n scope contribution now ttl).0
  hold-IsSound {s} scope contribution now ttl passed v =
      let new = v.fresh n (omega arith) in
      record {
        within = hold-IsWithin top n scope contribution now ttl passed new.0 v.within;
        refundable =
            hold-IsRefundable n scope contribution now ttl
              (omega (arith, check-le s scope contribution budget passed)) new.0 v.refundable;
        distinct = hold-IsDistinct n scope contribution now ttl new.1 v.distinct;
        fresh = λ id h.
            hold-IsUnknown id s n scope contribution now ttl (λ e. omega arith)
              (v.fresh id (omega arith));
      }
