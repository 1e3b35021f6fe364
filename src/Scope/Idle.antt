-- ===== src/Scope/Idle.antt =====
-- `idle_at`: when a scope becomes idle.
use agent_governance_policie.Prelude.{
  ℕ, ◌+◌, ◌*◌, ◌/◌, ◌≤◌, ◌<◌, ◌≡◌, ◌≢◌, ◌∙◌, ap, sym, true, false, not, Option, none, some, List,
  [], ◌∷◌, ◌++◌, inl, inr, Option-cases, ltb, ◌==◌, sat_add, sat_add-lt, sat_mul-lt, u64_max,
  ℕ_discrete, arith,
}
use native.Mathlib.Nat.{le-div_iff_mul-le}
use agent_governance_policie.Prelude.Assoc.{get, insert, Distinct, AllValues}
use agent_governance_policie.Prelude.Assoc.Laws.{
  retain_none, retain_all, AllValues-remove, AllValues-get,
}
use agent_governance_policie.Scope.Types.{Timeout, Held}
use agent_governance_policie.Scope.Exact.{held_sum}
use agent_governance_policie.Scope.Reclaim.{
  reclaim-active, reclaim_release, reclaim_commit, expiring_sum,
}
use agent_governance_policie.Scope.{
  ScopeState, is_expired, is_idle, max, latest_drop, window_end, idle_at, roll, expire_held, expire,
  expire_all, expired, kept, reclaim,
}

-- `period` of ledger.rs: the window period that `now` falls in.
unfoldable pub period : Option ℕ → ℕ → ℕ
period none now = 0
period (some window) now = now / window

-- Every tombstone of the entries is dropped by `now`.
abbrev pub AllDropped : ℕ → ℕ → List (ℕ × Held) → Type 0
AllDropped ttl now = AllValues (λ held. sat_add held.expires_at ttl ≤ now)

latest_drop-ge : (ttl at : ℕ) (m : List (ℕ × Held)) → at ≤ latest_drop ttl at m
unfolding latest_drop
latest_drop-ge ttl at [] = omega arith
latest_drop-ge ttl at ((id, held) ∷ m) =
    ground (arith, latest_drop-ge ttl (max at (sat_add held.expires_at ttl)) m)

latest_drop-AllDropped :
    (ttl at now : ℕ) (m : List (ℕ × Held)) → latest_drop ttl at m ≤ now → AllDropped ttl now m
unfolding latest_drop
latest_drop-AllDropped ttl at now [] h = tt
latest_drop-AllDropped ttl at now ((id, held) ∷ m) h = (
  ground (arith, latest_drop-ge ttl (max at (sat_add held.expires_at ttl)) m),
  latest_drop-AllDropped ttl (max at (sat_add held.expires_at ttl)) now m h,
)

AllValues-append :
    (ttl now : ℕ) (xs ys : List (ℕ × Held))
    → AllDropped ttl now (xs ++ ys)
    → AllDropped ttl now xs × AllDropped ttl now ys
AllValues-append ttl now [] ys h = (tt, h)
AllValues-append ttl now ((id, held) ∷ xs) ys h =
    let r = AllValues-append ttl now xs ys h.1 in ((h.0, r.0), r.1)

-- Moving to a tombstone keeps the deadline.
expire_held-AllDropped :
    (timeout : Timeout) (ttl now id : ℕ) (held : Held) (p : ScopeState × ℕ)
    → get ℕ_discrete id p.0.active ≡ some held
    → AllDropped ttl now p.0.active
    → AllDropped ttl now p.0.reclaimed
    → let q = expire_held timeout id held p in
      AllDropped ttl now q.0.active × AllDropped ttl now q.0.reclaimed
unfolding expire_held insert
expire_held-AllDropped Timeout.commit ttl now id held p e a r = (
  AllValues-remove ℕ_discrete _ id p.0.active a,
  (AllValues-get ℕ_discrete _ id p.0.active a e, AllValues-remove ℕ_discrete _ id p.0.reclaimed r),
)
expire_held-AllDropped Timeout.release ttl now id held p e a r = (
  AllValues-remove ℕ_discrete _ id p.0.active a,
  (AllValues-get ℕ_discrete _ id p.0.active a e, AllValues-remove ℕ_discrete _ id p.0.reclaimed r),
)

expire-AllDropped :
    (timeout : Timeout) (ttl now id : ℕ) (p : ScopeState × ℕ)
    → AllDropped ttl now p.0.active
    → AllDropped ttl now p.0.reclaimed
    → let q = expire timeout id p in
      AllDropped ttl now q.0.active × AllDropped ttl now q.0.reclaimed
unfolding expire
expire-AllDropped timeout ttl now id p a r = elim (Option-cases (get ℕ_discrete id p.0.active)) [
  | inl e ↦ rw (e, expire) (a, r)
  | inr (held, e) ↦ rw (e, expire) (expire_held-AllDropped timeout ttl now id held p e a r)
]

next_period :
    (window now : ℕ) → 0 < window → (a : ℕ) → a * window ≤ now → now < u64_max → a < u64_max
next_period window now positive a h top = grind arith

-- The window of the committed exposure has ended.
window_end-lt-period :
    (s : ScopeState) (window : Option ℕ) (now : ℕ)
    → window ≢ some 0
    → window_end s window ≤ now
    → now < u64_max
    → s.period < period window now
unfolding window_end period
window_end-lt-period s none now w h top = absurd (omega arith)
window_end-lt-period s (some window) now w h top =
    let positive : 0 < window = ground arith in
    let whole = sat_mul-lt (sat_add s.period 1) window (omega arith) in
    let scaled : sat_add s.period 1 * window ≤ now = omega (arith, whole) in
    let next = sat_add-lt s.period 1 (next_period window now positive _ scaled top) in
    let ended : s.period + 1 ≤ now / window = rw (← next) ((le-div_iff_mul-le positive).1 scaled) in
    omega arith

expire_all-AllDropped :
    (timeout : Timeout) (ttl now : ℕ) (ids : List ℕ) (p : ScopeState × ℕ)
    → AllDropped ttl now p.0.active
    → AllDropped ttl now p.0.reclaimed
    → AllDropped ttl now (expire_all timeout ids p).0.reclaimed
unfolding expire_all
expire_all-AllDropped timeout ttl now [] p a r = r
expire_all-AllDropped timeout ttl now (id ∷ ids) p a r =
    let one = expire-AllDropped timeout ttl now id p a r in
    expire_all-AllDropped timeout ttl now ids (expire timeout id p) one.0 one.1

AllDropped-not-expired :
    (ttl now : ℕ) (m : List (ℕ × Held))
    → now < u64_max
    → AllDropped ttl now m
    → AllValues (λ held. not (is_expired now held) ≡ false) m
AllDropped-not-expired ttl now [] top h = tt
AllDropped-not-expired ttl now ((id, held) ∷ m) top h =
    (ground (arith, sat_add-lt held.expires_at ttl, h.0), AllDropped-not-expired ttl now m top h.1)

AllDropped-expired :
    (ttl now : ℕ) (m : List (ℕ × Held))
    → now < u64_max
    → AllDropped ttl now m
    → AllValues (λ held. is_expired now held ≡ true) m
AllDropped-expired ttl now [] top h = tt
AllDropped-expired ttl now ((id, held) ∷ m) top h =
    (ground (arith, sat_add-lt held.expires_at ttl, h.0), AllDropped-expired ttl now m top h.1)

AllDropped-not-kept :
    (ttl now : ℕ) (m : List (ℕ × Held))
    → AllDropped ttl now m
    → AllValues (λ held. ltb now (sat_add held.expires_at ttl) ≡ false) m
AllDropped-not-kept ttl now [] h = tt
AllDropped-not-kept ttl now ((id, held) ∷ m) h =
    (ground (arith, h.0), AllDropped-not-kept ttl now m h.1)

-- A touch of a scope: a new period starts if it is due, then the deadlines are processed.
unfoldable pub touch : ScopeState → ℕ → ℕ → Option ℕ → Timeout → ScopeState
touch s now ttl window timeout = (reclaim (roll s (period window now)) now ttl timeout).0

module _ (s : ScopeState) (now ttl : ℕ) (window : Option ℕ) (w : window ≢ some 0)
    (top : now < u64_max) (due : idle_at s ttl window ≤ now) where
  dropped : AllDropped ttl now s.active × AllDropped ttl now s.reclaimed
  unfolding idle_at
  dropped = AllValues-append ttl now s.active s.reclaimed (latest_drop-AllDropped ttl _ now _ due)

  rolled_zero : (roll s (period window now)).committed ≡ 0
  unfolding roll idle_at
  rolled_zero = ground (
    arith,
    window_end-lt-period s window now w,
    latest_drop-ge ttl (window_end s window) (s.active ++ s.reclaimed),
    due,
  )

  roll_keeps :
      let t = roll s (period window now) in
      (t.active ≡ s.active) × (t.reclaimed ≡ s.reclaimed) × (t.reserved ≡ s.reserved)
  unfolding roll
  roll_keeps = ground arith

  module _ (timeout : Timeout) (d : Distinct ℕ_discrete s.active) where
    touch_active : (touch s now ttl window timeout).active ≡ []
    unfolding touch
    touch_active =
        reclaim-active (roll s (period window now)) now ttl timeout (rw (roll_keeps.0) d)
        ∙ rw (roll_keeps.0)
            (retain_none _ s.active (AllDropped-not-expired ttl now s.active top dropped.0))

  touch_reclaimed : (timeout : Timeout) → (touch s now ttl window timeout).reclaimed ≡ []
  unfolding touch reclaim kept
  touch_reclaimed timeout = retain_none _ _ (
      AllDropped-not-kept ttl now _ (
        expire_all-AllDropped timeout ttl now (expired (roll s (period window now)) now)
          (roll s (period window now), 0) (rw (roll_keeps.0) dropped.0)
          (rw (roll_keeps.1) dropped.1)))

  sum_kept :
      s.reserved ≡ held_sum s.active
      → let t = roll s (period window now) in t.reserved ≡ held_sum t.active
  sum_kept sum = rw (roll_keeps.0, roll_keeps.2) sum

  touch_release :
      s.reserved ≡ held_sum s.active
      → Distinct ℕ_discrete s.active
      → (touch s now ttl window Timeout.release).committed ≡ 0
  unfolding touch
  touch_release sum d =
      (reclaim_release (roll s (period window now)) now ttl (sum_kept sum) (rw (roll_keeps.0) d)).0
      ∙ rolled_zero

  touch_commit :
      s.reserved ≡ held_sum s.active
      → Distinct ℕ_discrete s.active
      → s.reserved ≤ u64_max
      → (touch s now ttl window Timeout.commit).committed ≡ s.reserved
  unfolding touch
  touch_commit sum d bound =
      let t = roll s (period window now) in
      let all_expiring : expiring_sum now t ≡ s.reserved = rw (roll_keeps.0) (
        ap held_sum (retain_all _ s.active (AllDropped-expired ttl now s.active top dropped.0))
        ∙ sym sum) in
      omega (
        arith,
        reclaim_commit t now ttl (sum_kept sum) (omega (arith, rolled_zero, roll_keeps.2))
            (rw (roll_keeps.0) d),
        rolled_zero,
        all_expiring,
      )

  -- In release mode a scope is idle from `idle_at` on: at any later time below the top of `u64`, with a
  -- window that is not 0, where `reserved` is the sum of the reservations in flight and no id stands
  -- twice, rolling the scope and reclaiming leaves it idle.
  pub idle_at-release :
      s.reserved ≡ held_sum s.active
      → Distinct ℕ_discrete s.active
      → is_idle (touch s now ttl window Timeout.release) ≡ true
  unfolding is_idle
  idle_at-release sum d =
      rw (touch_release sum d, touch_active Timeout.release d, touch_reclaimed Timeout.release)

  -- In commit mode, under the same conditions and with `reserved` a `u64`, the scope is idle then exactly
  -- if nothing was reserved: what was reserved is charged at its deadline and still counts.
  pub idle_at-commit :
      s.reserved ≡ held_sum s.active
      → Distinct ℕ_discrete s.active
      → s.reserved ≤ u64_max
      → is_idle (touch s now ttl window Timeout.commit) ≡ (s.reserved == 0)
  unfolding is_idle
  idle_at-commit sum d bound =
      rw (touch_commit sum d bound, touch_active Timeout.commit d, touch_reclaimed Timeout.commit)
        (ground arith)
