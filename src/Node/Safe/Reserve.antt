-- ===== src/Node/Safe/Reserve.antt =====
-- What a reservation on the shared ledger returns, by the record that it writes:
-- aggregate-risk-gate/src/node_ledger.rs.
use mathlib.Core.Path.{subst}
use agent_governance_policie.Prelude.{
  ℕ, ◌<◌, ◌≤◌, none, some, String, sat_add, ◌≡◌, ap, ◌∙◌, refl, inl, inr, if_pos, ℕ_discrete,
  Result, ok, err, Result-cases, arith,
}
use agent_governance_policie.Prelude.Assoc.{get}
use agent_governance_policie.Prelude.Assoc.Laws.{get-insert}
use agent_governance_policie.Scope.Types.{Reservation, Refusal}
use agent_governance_policie.Scope.{ScopeState, total, check, set_aside, reservation}
use agent_governance_policie.Scope
use agent_governance_policie.Scope.Cases.{hold_cases}
use agent_governance_policie.Node.Store.{Cell}
use agent_governance_policie.Node.Worker.{NodeLedger}
use agent_governance_policie.Node.Methods.{reserve_state, force_state}
use agent_governance_policie.Node.Evolve.{Moves, holds}
use agent_governance_policie.Node.Safe.Touch.{IsChange}

-- The record holds the reservation that was returned, and the total that it names.
pub record IsHeld (scope : String) (contribution : ℕ) (t : ScopeState) (r : Reservation)
    : Type 0 where
  pub scoped : r.scope ≡ scope
  pub contributed : r.contribution ≡ contribution
  pub totalled : r.total ≡ total t
  pub held :
      0 < contribution
      → get ℕ_discrete r.id t.active
        ≡ some (record {
          contribution = contribution;
          expires_at = r.expires_at;
          provisional_period = none;
        })

-- What `hold` gives, from a state of the total `before`.
abbrev GivesHeld : String → ℕ → ℕ → ScopeState × Result Reservation Refusal → Type 0
GivesHeld scope contribution before (t, ok r) =
    IsHeld scope contribution t r × (total t ≤ sat_add before contribution)
GivesHeld scope contribution before (t, err refusal) = Unit

hold-GivesHeld :
    (s : ScopeState) (id : ℕ) (scope : String) (contribution now ttl : ℕ)
    → GivesHeld scope contribution (total s) (Scope.hold s id scope contribution now ttl)
unfolding reservation set_aside total sat_add
hold-GivesHeld s id scope contribution now ttl =
    hold_cases (GivesHeld scope contribution (total s)) s id scope contribution now ttl (λ p e. tt)
      (λ p e. (
        record {
          scoped = refl;
          contributed = refl;
          totalled = refl;
          held = λ h. get-insert ℕ_discrete id id _ s.active ∙ if_pos (ℕ_discrete id id) refl _ _;
        },
        ground arith,
      ))
      (λ e. (
        record {
          scoped = refl;
          contributed = refl;
          totalled = refl;
          held = λ h. absurd (omega arith);
        },
        ground arith,
      ))

-- What a reservation that was made says of the record that was written: without a limit, and under
-- one.
abbrev pub IsForced : String → ℕ → ScopeState → Reservation → Type 0
IsForced scope contribution t r = IsHeld scope contribution t r

abbrev pub IsReserved : String → ℕ → ℕ → ScopeState → Reservation → Type 0
IsReserved scope contribution budget t r = IsHeld scope contribution t r × (total t ≤ budget)

check-room :
    (s : ScopeState) (scope : String) (contribution budget : ℕ)
    → check s scope contribution budget ≡ ok tt
    → sat_add (total s) contribution ≤ budget
unfolding check
check-room s scope contribution budget h = ground arith

module _ (ledger : NodeLedger) (content : String → String → Cell)
    (Done : String → Cell → Type 0) where
  pub force_state-IsChange :
      (key : String) (id : ℕ) (scope : String) (contribution now : ℕ)
      → IsChange ledger content Done
          (IsForced scope contribution)
          key
          (force_state id scope contribution now ledger.ttl)
  unfolding force_state
  force_state-IsChange key id scope contribution now s t result ready e = (
    λ u moves.
        holds id scope contribution now moves
          (ap (λ (p : ScopeState × Result Reservation Refusal). p.0) e),
    λ r same.
        (subst (GivesHeld scope contribution (total s))
          (e ∙ ap (λ (q : Result Reservation Refusal). (t, q)) same)
          (hold-GivesHeld s id scope contribution now ledger.ttl)).0,
  )

  pub reserve_state-IsChange :
      (key : String) (id : ℕ) (scope : String) (contribution budget now : ℕ)
      → IsChange ledger content Done
          (IsReserved scope contribution budget)
          key
          (reserve_state id scope contribution budget now ledger.ttl)
  unfolding reserve_state
  reserve_state-IsChange key id scope contribution budget now s t result ready e =
      elim (Result-cases (check s scope contribution budget)) [
        | inl (a, passed) ↦
            let held : Scope.hold s id scope contribution now ledger.ttl ≡ (t, result) =
              rw (passed, reserve_state) at e in
            (
              λ u moves.
                  holds id scope contribution now moves
                    (ap (λ (p : ScopeState × Result Reservation Refusal). p.0) held),
              λ r same.
                  let given =
                    subst (GivesHeld scope contribution (total s))
                      (held ∙ ap (λ (q : Result Reservation Refusal). (t, q)) same)
                      (hold-GivesHeld s id scope contribution now ledger.ttl) in
                  (given.0, omega (arith, given.1, check-room s scope contribution budget passed)),
            )
        | inr (refusal, refused) ↦
            let same_state : ◌≡◌ {A = ScopeState × Result Reservation Refusal} (s, err refusal)
                (t, result) =
              rw (refused, reserve_state) at e in
            (
              λ u moves.
                  subst (Moves ledger u)
                    (ap (λ (p : ScopeState × Result Reservation Refusal). p.0) same_state) moves,
              λ r same. cc,
            )
      ]
