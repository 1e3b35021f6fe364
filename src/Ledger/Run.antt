-- ===== src/Ledger/Run.antt =====
-- Histories of a worker ledger: any sequence of reservations and settlements, on any scopes and at
-- any times, which is what the mutex makes of concurrent calls.
use agent_governance_policie.Prelude.{
  ℕ, ◌+◌, ◌%◌, ◌^◌, ◌≤◌, ◌<◌, ◌≡◌, refl, List, [], ◌∷◌, some, inl, inr, true, false, Bool-cases,
  Result-cases, length, String, string_discrete, ok, arith,
}
use agent_governance_policie.Prelude.Assoc.Laws.{AllValues-get}
use agent_governance_policie.Scope.Types.{Timeout, Reservation}
use agent_governance_policie.Scope.{ScopeState, check}
use agent_governance_policie.Scope
use agent_governance_policie.Scope.Exact.{max_units}
use agent_governance_policie.Scope.Sound.{
  IsSound, at_period-IsSound, roll-IsSound, reclaim-IsSound, settle-IsSound, hold-IsSound,
  IsSound-mono,
}
use agent_governance_policie.Ledger.Stats.{LedgerStats, count_reclaim}
use agent_governance_policie.Ledger.Keeps.{IsKept, AllScopes, BodyKeeps}
use agent_governance_policie.Scope.Distinct.{same-IsDistinct}
use agent_governance_policie.Ledger.Methods.{
  reindex-next_id, make_room-next_id, settle-next_id, with_state-AllScopes, settle-AllScopes,
}
use agent_governance_policie.Ledger.{
  Inner, Ledger, empty, find, hold, reserve_body, expired_on_arrival, make_room, run_body, store,
  with_state, reserve, refresh, state_of, commit, release,
}

-- A call of block mode, with what it reads: the gateway clock, and the call's own time.
pub data Call : Type 0 where
  reserves : (clock : ℕ) (scope : String) (contribution now : ℕ) → Call
  commits : Reservation → ℕ → Call
  releases : Reservation → ℕ → Call

module _ (ledger : Ledger) (budget : ℕ) where
  unfoldable pub step : Inner → Call → Inner
  unfolding reserve commit release
  step inner (reserves clock scope contribution now) =
      (reserve ledger inner clock scope contribution budget now).0
  step inner (commits reservation now) = (commit ledger inner reservation now).0
  step inner (releases reservation now) = (release ledger inner reservation now).0

  unfoldable pub run : Inner → List Call → Inner
  unfolding step
  run inner [] = inner
  run inner (call ∷ calls) = run (step inner call) calls

hold_lem :
    (ledger : Ledger) (scope : String) (contribution now : ℕ) (s : ScopeState) (n : ℕ)
    (stats : LedgerStats)
    → let r = (hold ledger scope contribution now s n stats).0 in
      (r.0 ≡ (Scope.hold s n scope contribution now ledger.ttl).0) × (r.1 ≡ (n + 1) % 2 ^ 128)
unfolding hold
hold_lem ledger scope contribution now s n stats =
    elim (Result-cases (Scope.hold s n scope contribution now ledger.ttl).1) [
      | inl (r, e) ↦ rw (e, hold) (refl, refl)
      | inr (r, e) ↦ rw (e, hold) (refl, refl)
    ]

next-small : (n : ℕ) → n + 1 < 2 ^ 128 → (n + 1) % 2 ^ 128 ≡ n + 1
next-small n h = omega arith

next-le : (n : ℕ) → (n + 1) % 2 ^ 128 ≤ n + 1
next-le n = omega arith

module _ (ledger : Ledger) where
  reserve_body-next_id-le :
      (scope : String) (contribution budget now : ℕ) (s : ScopeState) (n : ℕ) (stats : LedgerStats)
      → (reserve_body ledger scope contribution budget now s n stats).0.1 ≤ n + 1
  unfolding reserve_body
  reserve_body-next_id-le scope contribution budget now s n stats =
      elim (Result-cases (check s scope contribution budget)) [
        | inl (_, e) ↦
            rw (e, reserve_body, (hold_lem ledger scope contribution now s n stats).1) (next-le n)
        | inr (refusal, e) ↦ rw (e, reserve_body) (omega arith)
      ]

  run_body-next_id-le :
      (inner : Inner) (scope : String) (contribution budget now : ℕ)
      → (run_body ledger inner scope now
          (reserve_body ledger scope contribution budget now)).0.next_id
        ≤ inner.next_id + 1
  unfolding run_body store
  run_body-next_id-le inner scope contribution budget now = rw (reindex-next_id) (
      reserve_body-next_id-le scope contribution budget now
        (refresh ledger (state_of inner scope) now).0 inner.next_id
        (count_reclaim inner.stats (refresh ledger (state_of inner scope) now).1))

  with_state-next_id-le :
      (inner : Inner) (scope : String) (contribution budget now : ℕ)
      → (with_state ledger inner scope now
          (reserve_body ledger scope contribution budget now)).0.next_id
        ≤ inner.next_id + 1
  unfolding with_state
  with_state-next_id-le inner scope contribution budget now =
      let same = make_room-next_id ledger inner scope now in
      let ready = (make_room ledger inner scope now).0 in
      let ran = run_body-next_id-le ready scope contribution budget now in
      elim (Bool-cases (make_room ledger inner scope now).1) [
        | inl e ↦ rw (e, with_state) (omega (arith, same, ran))
        | inr e ↦ rw (e, with_state) (omega (arith, same))
      ]

  reserve-next_id-le :
      (inner : Inner) (clock : ℕ) (scope : String) (contribution budget now : ℕ)
      → (reserve ledger inner clock scope contribution budget now).0.next_id ≤ inner.next_id + 1
  unfolding reserve
  reserve-next_id-le inner clock scope contribution budget now =
      elim (Bool-cases (expired_on_arrival ledger now clock)) [
        | inl e ↦ rw (e, reserve) (omega arith)
        | inr e ↦ rw (e, reserve) (with_state-next_id-le inner scope contribution budget now)
      ]

step-next_id-le :
    (ledger : Ledger) (budget : ℕ) (inner : Inner) (call : Call)
    → (step ledger budget inner call).next_id ≤ inner.next_id + 1
unfolding step commit release
step-next_id-le ledger budget inner (reserves clock scope contribution now) =
    reserve-next_id-le ledger inner clock scope contribution budget now
step-next_id-le ledger budget inner (commits r now) =
    rw (settle-next_id ledger inner r now true) (omega arith)
step-next_id-le ledger budget inner (releases r now) =
    rw (settle-next_id ledger inner r now false) (omega arith)

module _ (ledger : Ledger) (budget : ℕ) (top : budget ≤ max_units)
    (mode : ledger.timeout ≡ Timeout.commit) where
  sound-IsKept : IsKept ledger (IsSound budget)
  sound-IsKept = record {
    start = λ n p. at_period-IsSound n top p;
    rolled = λ n p s v. roll-IsSound n top p v;
    reclaimed = λ n now s v. rw mode (reclaim-IsSound n top now ledger.ttl v);
    indexed = λ n s at v. record {
      within = record {
        summed = v.within.summed;
        fits = v.within.fits;
        charged = v.within.charged;
      };
      refundable = record {
        summed = v.refundable.summed;
        uncharged = v.refundable.uncharged;
        stamped = v.refundable.stamped;
        covered = v.refundable.covered;
      };
      distinct = same-IsDistinct refl refl v.distinct;
      fresh = v.fresh;
    };
    settled = λ n id s commit v. settle-IsSound n top id commit v;
  }

  -- The body of `reserve` under the next id, while the counter has room.
  hold-own :
      (n : ℕ) (scope : String) (contribution now : ℕ) (s : ScopeState) (stats : LedgerStats)
      → n + 1 < 2 ^ 128
      → check s scope contribution budget ≡ ok tt
      → IsSound budget n s
      → let r = (hold ledger scope contribution now s n stats).0 in IsSound budget r.1 r.0
  hold-own n scope contribution now s stats small passed v =
      let m = hold_lem ledger scope contribution now s n stats in
      rw (m.0, m.1, next-small n small)
        (hold-IsSound n top scope contribution now ledger.ttl passed v)

  reserve_body-BodyKeeps :
      (n : ℕ) (scope : String) (contribution now : ℕ)
      → n + 1 < 2 ^ 128
      → BodyKeeps ledger
          (IsSound budget)
          sound-IsKept
          n
          (reserve_body ledger scope contribution budget now)
  unfolding reserve_body
  reserve_body-BodyKeeps n scope contribution now small = record {
    own = λ s stats v. elim (Result-cases (check s scope contribution budget)) [
      | inl (_, e) ↦ rw (e, reserve_body) (hold-own n scope contribution now s stats small e v)
      | inr (refusal, e) ↦ rw (e, reserve_body) v
    ];
    others = λ s stats t v. elim (Result-cases (check s scope contribution budget)) [
      | inl (_, e) ↦
          rw
            (
              e,
              reserve_body,
              (hold_lem ledger scope contribution now s n stats).1,
              next-small n small,
            )
            (IsSound-mono n top (n + 1) (omega arith) v)
      | inr (refusal, e) ↦ rw (e, reserve_body) v
    ];
  }

  reserve-AllSound :
      (inner : Inner) (clock : ℕ) (scope : String) (contribution now : ℕ)
      → inner.next_id + 1 < 2 ^ 128
      → AllScopes (IsSound budget) inner
      → AllScopes (IsSound budget) (reserve ledger inner clock scope contribution budget now).0
  unfolding reserve
  reserve-AllSound inner clock scope contribution now small v =
      elim (Bool-cases (expired_on_arrival ledger now clock)) [
        | inl e ↦ rw (e, reserve) v
        | inr e ↦
            rw (e, reserve)
              (with_state-AllScopes ledger (IsSound budget) sound-IsKept inner scope now _
                (reserve_body-BodyKeeps inner.next_id scope contribution now small) v)
      ]

  -- One call keeps every scope within the budget, its refunds covered and its ids distinct.
  pub step-AllSound :
      (inner : Inner) (call : Call)
      → inner.next_id + 1 < 2 ^ 128
      → AllScopes (IsSound budget) inner
      → AllScopes (IsSound budget) (step ledger budget inner call)
  unfolding step commit release
  step-AllSound inner (reserves clock scope contribution now) small v =
      reserve-AllSound inner clock scope contribution now small v
  step-AllSound inner (commits r now) small v =
      settle-AllScopes ledger (IsSound budget) sound-IsKept inner r now true v
  step-AllSound inner (releases r now) small v =
      settle-AllScopes ledger (IsSound budget) sound-IsKept inner r now false v

  pub run-AllSound :
      (inner : Inner) (calls : List Call)
      → inner.next_id + length calls < 2 ^ 128
      → AllScopes (IsSound budget) inner
      → AllScopes (IsSound budget) (run ledger budget inner calls)
  unfolding run
  run-AllSound inner [] small v = v
  run-AllSound inner (call ∷ calls) small v =
      run-AllSound (step ledger budget inner call) calls
        (omega (arith, step-next_id-le ledger budget inner call))
        (step-AllSound inner call (omega arith) v)

  -- With the commit disposition and a budget of at most MAX_UNITS, no history of fewer than 2^128 - 1
  -- calls takes a scope over the budget: whatever is reserved, settled, settled twice or never settled,
  -- at whatever times, `committed + reserved` is at most the budget on every scope.
  pub run_within_budget :
      (calls : List Call) (scope : String) (s : ScopeState)
      → length calls + 1 < 2 ^ 128
      → find scope (run ledger budget empty calls).scopes ≡ some s
      → s.committed + s.reserved ≤ budget
  unfolding empty
  run_within_budget calls scope s small e =
      (AllValues-get string_discrete _ scope (run ledger budget empty calls).scopes
        (run-AllSound empty calls (omega arith) tt) e).within.fits
