-- ===== src/Node/Safe/Methods.antt =====
-- The calls of the shared ledger keep to the protocol, and what they return has been written:
-- aggregate-risk-gate/src/node_ledger.rs.
use agent_governance_policie.Node.Safe.Settle.{try_settle-Keeps, IsSettled}
use agent_governance_policie.Node.Safe.Charge.{
  charge-Keeps, defer-Keeps, IsCharged, settled-IsCharged,
}
use agent_governance_policie.Node.Safe.Reserve.{
  IsForced, IsReserved, force_state-IsChange, reserve_state-IsChange,
}
use agent_governance_policie.Prelude.{
  ℕ, Bool, true, false, Option, none, some, String, ltb, u64_max, ◌≡◌, ◌⊎◌, ap, refl, inl, inr,
  Bool-cases, Result, ok, err, arith,
}
use agent_governance_policie.Scope.Types.{
  Reservation, Settlement, Refusal, over_budget, at_capacity, contention, unavailable, saturated,
  stale,
}
use agent_governance_policie.Scope.{ScopeState, total, reservation}
use agent_governance_policie.Ledger.Stats.{LedgerStats, settle_free}
use agent_governance_policie.Node.Store.{StoreError, Cell}
use agent_governance_policie.Node.Worker.{
  NodeLedger, pure, on_ok, key, next_id, settle_retries, reserve_retries,
}
use agent_governance_policie.Node.Touch.{Change}
use agent_governance_policie.Node.Methods.{
  count_contended, count_active, settle_zero, mutate_inner, mutate, check_fresh, reserve_by,
  reserve, force_reserve_checked, force_reserve, commit_outcome, release_outcome, commit, release,
}
use agent_governance_policie.Node.Logic.{
  Protocol, Keeps, IsSafe, Any, >>=-Keeps, pure-Keeps, weaken, when-Keeps, ask-Keeps, change-Keeps,
  now-Keeps,
}
use agent_governance_policie.Node.Logic.Cases.{then_answer, then_some}
use agent_governance_policie.Node.Safe.Marker.{protocol}
use agent_governance_policie.Node.Safe.Scan.{maybe_collect-Keeps}
use agent_governance_policie.Node.Safe.Touch.{IsWritten, IsChange, mutate_core-Keeps}
use agent_governance_policie.Node.Safe.Drain.{drain_pending-Keeps, count_outcome-Keeps}

module _ {protocol : Protocol} where
  count_contended-Keeps :
      {R : Type 0} (result : Result R Refusal) → Keeps protocol (count_contended result) Any
  unfolding count_contended
  count_contended-Keeps (ok r) = pure-Keeps _ tt
  count_contended-Keeps (err contention) = change-Keeps _
  count_contended-Keeps (err unavailable) = change-Keeps _
  count_contended-Keeps (err at_capacity) = pure-Keeps _ tt
  count_contended-Keeps (err saturated) = pure-Keeps _ tt
  count_contended-Keeps (err stale) = pure-Keeps _ tt
  count_contended-Keeps (err (over_budget denial)) = pure-Keeps _ tt

  count_active-Keeps : (contribution : ℕ) → Keeps protocol (count_active contribution) Any
  unfolding count_active
  count_active-Keeps contribution =
      when-Keeps _ (λ some_cost. change-Keeps _) (λ free. pure-Keeps _ tt)

abbrev WasFree : Reservation → Option Settlement → Type 0
WasFree reservation none = Unit
WasFree reservation (some outcome) = reservation.contribution ≡ 0

settle_free-WasFree :
    (stats : LedgerStats) (reservation : Reservation) (commit : Bool)
    → WasFree reservation (settle_free stats reservation commit).1
unfolding settle_free
settle_free-WasFree stats reservation commit = elim (Bool-cases (ltb 0 reservation.contribution)) [
  | inl costs ↦ rw (costs, settle_free) tt
  | inr free ↦ rw (free, settle_free) (ground arith)
]

module _ (ledger : NodeLedger) (content : String → String → Cell)
    (Done : String → Cell → Type 0) where
  next_id-Keeps : Keeps (protocol ledger content Done) (next_id ledger) Any
  unfolding next_id IsSafe
  next_id-Keeps = record { at = λ w. tt }

  module _ {R : Type 0} (Wanted : ScopeState → R → Type 0) where
    mutate_inner-Keeps :
        (scope : String) (now : ℕ) (f : Change R)
        → IsChange ledger content Done Wanted (key ledger scope) f
        → Keeps
            (protocol ledger content Done)
            (mutate_inner ledger scope now f)
            (IsWritten ledger content Done Wanted (key ledger scope))
    unfolding mutate_inner IsWritten
    mutate_inner-Keeps scope now f change =
        >>=-Keeps (maybe_collect-Keeps ledger content Done now) λ a h.
          >>=-Keeps (drain_pending-Keeps ledger content Done now) λ a h.
            >>=-Keeps (ask-Keeps _) λ waiting h.
              when-Keeps _ (λ full. pure-Keeps _ tt)
                (λ room.
                  mutate_core-Keeps ledger content Done Wanted _ now reserve_retries f change)

    pub mutate-Keeps :
        (scope : String) (now : ℕ) (f : Change R)
        → IsChange ledger content Done Wanted (key ledger scope) f
        → Keeps
            (protocol ledger content Done)
            (mutate ledger scope now f)
            (IsWritten ledger content Done Wanted (key ledger scope))
    unfolding mutate
    mutate-Keeps scope now f change =
        >>=-Keeps (mutate_inner-Keeps scope now f change)
          λ result h. >>=-Keeps (count_contended-Keeps result) λ a counted. pure-Keeps _ h

  check_fresh-Keeps :
      (time : ℕ) → Keeps (protocol ledger content Done) (check_fresh ledger time) Any
  unfolding check_fresh
  check_fresh-Keeps time =
      >>=-Keeps now-Keeps
        λ clock h. when-Keeps _ (λ late. pure-Keeps _ tt) (λ fresh. pure-Keeps _ tt)

  reserve_by-Keeps :
      (Wanted : ScopeState → Reservation → Type 0) (f : ℕ → Change Reservation) (scope : String)
      (contribution now : ℕ)
      → ((id : ℕ) → IsChange ledger content Done Wanted (key ledger scope) (f id))
      → Keeps
          (protocol ledger content Done)
          (reserve_by ledger f scope contribution now)
          (IsWritten ledger content Done Wanted (key ledger scope))
  unfolding reserve_by on_ok IsWritten
  reserve_by-Keeps Wanted f scope contribution now change =
      then_answer _ (check_fresh-Keeps now)
        (λ a h. >>=-Keeps next_id-Keeps λ id h.
          then_answer _ (mutate-Keeps Wanted scope now (f id) (change id))
            (λ r written. >>=-Keeps (count_active-Keeps contribution) λ a h. pure-Keeps _ written)
            (λ e h. pure-Keeps _ tt))
        (λ e h. pure-Keeps _ tt)

  -- Whatever the store answers, each call of the store that `reserve` makes is one that the protocol
  -- allows, and a reservation is returned only if a record was written at the scope's key that holds
  -- it, that has its total, and that is within the budget.
  pub reserve-Keeps :
      (scope : String) (contribution budget now : ℕ)
      → Keeps
          (protocol ledger content Done)
          (reserve ledger scope contribution budget now)
          (IsWritten ledger content Done (IsReserved scope contribution budget) (key ledger scope))
  unfolding reserve
  reserve-Keeps scope contribution budget now =
      reserve_by-Keeps (IsReserved scope contribution budget) _ scope contribution now (λ id.
        reserve_state-IsChange ledger content Done (key ledger scope) id scope contribution budget
          now)

  abbrev pub IsChecked : String → ℕ → ℕ → ScopeState → Reservation × Bool → Type 0
  IsChecked scope contribution budget t (r, breached) =
      IsForced scope contribution t r × (breached ≡ ltb budget (total t))

  -- Whatever the store answers, each call that a forced reservation makes of the store is one that the
  -- protocol allows; a reservation is returned only if a record was written that holds it, and the
  -- flag says whether the total of that record is over the budget.
  pub force_reserve_checked-Keeps :
      (scope : String) (contribution budget now : ℕ)
      → Keeps
          (protocol ledger content Done)
          (force_reserve_checked ledger scope contribution budget now)
          (IsWritten ledger content Done (IsChecked scope contribution budget) (key ledger scope))
  unfolding force_reserve_checked on_ok IsWritten
  force_reserve_checked-Keeps scope contribution budget now =
      then_answer _
        (reserve_by-Keeps (IsForced scope contribution) _ scope contribution now (λ id.
          force_state-IsChange ledger content Done (key ledger scope) id scope contribution now))
        (λ r written.
          pure-Keeps _ (written.0, written.1, (written.2, ap (ltb budget) written.2.totalled)))
        (λ e h. pure-Keeps _ tt)

  pub force_reserve-Keeps :
      (scope : String) (contribution now : ℕ)
      → Keeps
          (protocol ledger content Done)
          (force_reserve ledger scope contribution now)
          (IsWritten ledger content Done (IsForced scope contribution) (key ledger scope))
  unfolding force_reserve on_ok IsWritten
  force_reserve-Keeps scope contribution now =
      then_answer _ (force_reserve_checked-Keeps scope contribution u64_max now)
        (λ p written. pure-Keeps _ (written.0, written.1, written.2.0)) (λ e h. pure-Keeps _ tt)

  settle_zero-Keeps :
      (reservation : Reservation) (commit : Bool)
      → Keeps (protocol ledger content Done) (settle_zero reservation commit) (WasFree reservation)
  unfolding settle_zero pure IsSafe
  settle_zero-Keeps reservation commit = record {
    at = λ w. settle_free-WasFree w.stats reservation commit;
  }

  -- What the outcome of a commit says: the reservation cost nothing, the commit is held back, or it
  -- has been written.
  abbrev pub IsCommitted : Reservation → Settlement → Type 0
  IsCommitted reservation outcome =
      (reservation.contribution ≡ 0)
      ⊎ ((outcome ≡ Settlement.deferred) ⊎ IsCharged ledger content Done reservation outcome)

  commit_outcome-Keeps :
      (reservation : Reservation) (now : ℕ) (answer : Result (Option Settlement) StoreError)
      → IsSettled ledger content Done (key ledger reservation.scope) reservation.id true answer
      → Keeps
          (protocol ledger content Done)
          (commit_outcome ledger reservation now answer)
          (IsCommitted reservation)
  unfolding commit_outcome IsCharged
  commit_outcome-Keeps reservation now (ok (some outcome)) settled =
      pure-Keeps _ (inr (inr (settled-IsCharged ledger content Done reservation outcome settled)))
  commit_outcome-Keeps reservation now (ok none) settled =
      when-Keeps _
        (λ held.
          then_answer _ (charge-Keeps ledger content Done reservation now settle_retries)
            (λ outcome charged. pure-Keeps _ (inr (inr charged)))
            (λ e h.
              weaken (defer-Keeps ledger content Done reservation now false)
                λ outcome same. inr (inl same)))
        (λ late. pure-Keeps _ (inr (inr (inl refl))))
  commit_outcome-Keeps reservation now (err e) settled =
      weaken (defer-Keeps ledger content Done reservation now true) λ outcome same. inr (inl same)

  pub commit-Keeps :
      (reservation : Reservation) (now : ℕ)
      → Keeps
          (protocol ledger content Done)
          (commit ledger reservation now)
          (IsCommitted reservation)
  unfolding commit
  commit-Keeps reservation now = >>=-Keeps (drain_pending-Keeps ledger content Done now) λ a h.
      then_some _ (settle_zero-Keeps reservation true) (λ outcome free. pure-Keeps _ (inl free))
        (λ h.
          >>=-Keeps (try_settle-Keeps ledger content Done reservation now true settle_retries)
            λ answer settled.
              >>=-Keeps (commit_outcome-Keeps reservation now answer settled)
                λ outcome known. >>=-Keeps (count_outcome-Keeps outcome) λ a h. pure-Keeps _ known)

  -- The outcome of a release, in the same way.
  abbrev pub IsReleased : Reservation → Settlement → Type 0
  IsReleased reservation outcome =
      (reservation.contribution ≡ 0)
      ⊎ ((outcome ≡ Settlement.deferred)
          ⊎ IsSettled ledger content Done (key ledger reservation.scope) reservation.id false
              (ok (some outcome)))

  release_outcome-IsReleased :
      (reservation : Reservation) (answer : Result (Option Settlement) StoreError)
      → IsSettled ledger content Done (key ledger reservation.scope) reservation.id false answer
      → IsReleased reservation (release_outcome ledger answer)
  unfolding release_outcome IsSettled
  release_outcome-IsReleased reservation (ok (some outcome)) settled = inr (inr settled)
  release_outcome-IsReleased reservation (ok none) settled = inr (inr (inl refl))
  release_outcome-IsReleased reservation (err e) settled = inr (inl refl)

  -- Whatever the store answers, each call that a release makes of the store is one that the protocol
  -- allows, and its outcome is of a reservation of zero, deferred, not active, or a record was written
  -- that is what the upkeep, the settlement with that outcome and the upkeep after it make of a record
  -- that the store held at the scope's key.
  pub release-Keeps :
      (reservation : Reservation) (now : ℕ)
      → Keeps
          (protocol ledger content Done)
          (release ledger reservation now)
          (IsReleased reservation)
  unfolding release
  release-Keeps reservation now = >>=-Keeps (drain_pending-Keeps ledger content Done now) λ a h.
      then_some _ (settle_zero-Keeps reservation false) (λ outcome free. pure-Keeps _ (inl free))
        (λ h.
          >>=-Keeps (try_settle-Keeps ledger content Done reservation now false settle_retries)
            λ answer settled.
              >>=-Keeps (count_outcome-Keeps (release_outcome ledger answer))
                λ a h. pure-Keeps _ (release_outcome-IsReleased reservation answer settled))
