-- ===== src/Ledger/Stats.antt =====
-- The telemetry counters of aggregate-risk-gate/src/ledger.rs. `+=` wraps, as in a release build.
use agent_governance_policie.Prelude.{
  ℕ, ◌-◌, Bool, Option, none, some, ltb, if◌then◌else◌, wrap_add,
}
use agent_governance_policie.Scope.Types.{Reservation, Settlement}

pub record LedgerStats : Type 0 where
  pub active : ℕ
  pub committed : ℕ
  pub released : ℕ
  pub expired : ℕ
  pub late_committed : ℕ
  pub late_released : ℕ
  pub provisional_charged : ℕ
  pub provisional_refunded : ℕ
  pub abandoned : ℕ
  pub not_active : ℕ
  pub deferred : ℕ
  pub contended : ℕ

unfoldable pub no_stats : LedgerStats
no_stats = record {
  active = 0;
  committed = 0;
  released = 0;
  expired = 0;
  late_committed = 0;
  late_released = 0;
  provisional_charged = 0;
  provisional_refunded = 0;
  abandoned = 0;
  not_active = 0;
  deferred = 0;
  contended = 0;
}

unfoldable pub count_reclaim : LedgerStats → (ℕ × ℕ × ℕ) → LedgerStats
count_reclaim stats (expired, abandoned, provisional) = record stats {
  active = stats.active - expired;
  expired = wrap_add stats.expired expired;
  provisional_charged = wrap_add stats.provisional_charged provisional;
  abandoned = wrap_add stats.abandoned abandoned;
}

unfoldable pub count_settlement : LedgerStats → Settlement → LedgerStats
count_settlement stats Settlement.committed = record stats {
  active = stats.active - 1;
  committed = wrap_add stats.committed 1;
}
count_settlement stats Settlement.released = record stats {
  active = stats.active - 1;
  released = wrap_add stats.released 1;
}
count_settlement stats Settlement.late_committed = record stats {
  late_committed = wrap_add stats.late_committed 1;
}
count_settlement stats Settlement.late_released = record stats {
  late_released = wrap_add stats.late_released 1;
}
count_settlement stats Settlement.refunded = record stats {
  provisional_refunded = wrap_add stats.provisional_refunded 1;
}
count_settlement stats Settlement.already_charged = stats
count_settlement stats Settlement.not_active = record stats {
  not_active = wrap_add stats.not_active 1;
}
count_settlement stats Settlement.deferred = record stats { deferred = wrap_add stats.deferred 1 }

-- A reservation of zero settles with no ledger access; `none` for any other.
unfoldable pub settle_free : LedgerStats → Reservation → Bool → LedgerStats × Option Settlement
settle_free stats reservation commit =
    if ltb 0 reservation.contribution
    then (stats, none)
    else (if commit
        then (record stats { committed = wrap_add stats.committed 1 }, some Settlement.committed)
        else (record stats { released = wrap_add stats.released 1 }, some Settlement.released))
