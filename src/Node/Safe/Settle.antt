-- ===== src/Node/Safe/Settle.antt =====
-- The settlements keep to the protocol, and an outcome is given only once it has been written:
-- aggregate-risk-gate/src/node_ledger.rs.
use agent_governance_policie.Prelude.{
  ℕ, zero, suc, Bool, true, Option, some, String, ◌≡◌, ◌⊎◌, ap, refl, inl, inr, ok, err, arith,
}
use agent_governance_policie.Scope.Types.{Timeout, Reservation, Settlement}
use agent_governance_policie.Scope.{ScopeState, settle}
use agent_governance_policie.Scope.Idle.{period}
use agent_governance_policie.Node.Store.{Record, Cell, Answer, record_cell}
use agent_governance_policie.Node.Worker.{NodeLedger, Step, key}
use agent_governance_policie.Node.Settle.{
  Settled, is_untouched, is_not_active, settle_before, settle_read, settle_write, try_loop,
  try_settle,
}
use agent_governance_policie.Node.Logic.{Keeps, Any, >>=-Keeps, pure-Keeps, when-Keeps}
use agent_governance_policie.Node.Logic.Cases.{then_answer, then_read, then_write}
use agent_governance_policie.Node.Evolve.{
  Moves, stays, rolls, reclaims, settles, charges, holds, touched,
}
use agent_governance_policie.Node.Upkeep.{
  Upkeep, as_read, at_new_period, expires, Upkeep-Moves, WasStored,
}
use agent_governance_policie.Node.Safe.Marker.{protocol, WasRead, read-Keeps}
use agent_governance_policie.Node.Safe.Claim.{reconcile-Keeps}
use agent_governance_policie.Node.Safe.Slots.{hint_idle-Keeps}
use agent_governance_policie.Node.Safe.Sweep.{put_record-Keeps, over-MayRecord, count_touch-Keeps}

not_active_outcome :
    (outcome : Settlement) → is_not_active outcome ≡ true → outcome ≡ Settlement.not_active
unfolding is_not_active
not_active_outcome Settlement.not_active h = refl
not_active_outcome Settlement.committed h = cc
not_active_outcome Settlement.released h = cc
not_active_outcome Settlement.late_committed h = cc
not_active_outcome Settlement.late_released h = cc
not_active_outcome Settlement.refunded h = cc
not_active_outcome Settlement.already_charged h = cc
not_active_outcome Settlement.deferred h = cc

module _ (ledger : NodeLedger) (content : String → String → Cell)
    (Done : String → Cell → Type 0) where
  Moves-trans : {s t u : ScopeState} → Moves ledger s t → Moves ledger t u → Moves ledger s u
  Moves-trans first stays = first
  Moves-trans first (rolls period rest e) = rolls period (Moves-trans first rest) e
  Moves-trans first (reclaims now rest e) = reclaims now (Moves-trans first rest) e
  Moves-trans first (settles id commit rest e) = settles id commit (Moves-trans first rest) e
  Moves-trans first (charges contribution rest e) = charges contribution (Moves-trans first rest) e
  Moves-trans first (holds id scope contribution now rest e) =
      holds id scope contribution now (Moves-trans first rest) e

  abbrev HasBegun : ScopeState → Answer (ScopeState × ℕ × (ℕ × ℕ × ℕ)) → Type 0
  HasBegun s (ok (t, charged, reclaimed)) = Upkeep ledger s t
  HasBegun s (err e) = Unit

  settle_before-Keeps :
      (timeout : Timeout) (scope_key : String) (s t : ScopeState) (now : ℕ)
      → Upkeep ledger s t
      → Keeps
          (protocol ledger content Done)
          (settle_before ledger timeout scope_key t now)
          (HasBegun s)
  unfolding settle_before
  settle_before-Keeps Timeout.release scope_key s t now moves = pure-Keeps _ moves
  settle_before-Keeps Timeout.commit scope_key s t now moves =
      then_answer _ (reconcile-Keeps ledger content Done scope_key s t now moves)
        (λ p moved. pure-Keeps _ (expires now moved refl)) (λ e h. pure-Keeps _ tt)

  -- `r` becomes `u` by upkeep, a settlement with the outcome, and upkeep.
  abbrev pub SettlesTo : ScopeState → ℕ → Bool → ScopeState → Settlement → Type 0
  SettlesTo r id commit u outcome =
      (s t : ScopeState) × Upkeep ledger r s
      × (settle s id commit ≡ (t, outcome))
      × Upkeep ledger t u

  -- The same of a record that the store held at the key.
  abbrev pub HasOutcome : String → ℕ → Bool → ScopeState → Settlement → Type 0
  HasOutcome scope_key id commit u outcome =
      (r : ScopeState) × WasStored content scope_key r × SettlesTo r id commit u outcome

  SettlesTo-Moves :
      {r u : ScopeState} (id : ℕ) (commit : Bool) {outcome : Settlement}
      → SettlesTo r id commit u outcome
      → Moves ledger r u
  SettlesTo-Moves id commit (s, t, before, settled, after) =
      Moves-trans
        (settles id commit (Upkeep-Moves before)
          (ap (λ (p : ScopeState × Settlement). p.0) settled))
        (Upkeep-Moves after)

  abbrev HasSettled : ScopeState → ℕ → Bool → Answer Settled → Type 0
  HasSettled s id commit (ok done) = SettlesTo s id commit done.state done.outcome
  HasSettled s id commit (err e) = Unit

  settle_read-Keeps :
      (scope_key : String) (s : ScopeState) (id now : ℕ) (commit : Bool)
      → Keeps
          (protocol ledger content Done)
          (settle_read ledger scope_key s id now commit)
          (HasSettled s id commit)
  unfolding settle_read
  settle_read-Keeps scope_key s id now commit =
      then_answer _
        (settle_before-Keeps ledger.timeout scope_key s _ now
          (at_new_period (period ledger.window now) as_read refl))
        (λ p begun.
          then_answer _ (reconcile-Keeps ledger content Done scope_key _ _ now as_read)
            (λ q moved. pure-Keeps _ (p.0, _, begun, refl, expires now moved refl))
            (λ e h. pure-Keeps _ tt))
        (λ e h. pure-Keeps _ tt)

  -- An outcome that `try_settle` gives has been written, unless nothing was there to settle.
  unfoldable pub IsSettled : String → ℕ → Bool → Answer (Option Settlement) → Type 0
  IsSettled scope_key id commit (ok (some outcome)) =
      (outcome ≡ Settlement.not_active)
      ⊎ ((u : ScopeState) × Done scope_key (record_cell (Record.scope u))
          × HasOutcome scope_key id commit u outcome)
  IsSettled scope_key id commit _ = Unit

  untouched_outcome :
      (done : Settled) → is_untouched done ≡ true → done.outcome ≡ Settlement.not_active
  unfolding is_untouched
  untouched_outcome done h = not_active_outcome done.outcome (ground arith)

  settle_write-Keeps :
      (scope_key version : String) (s : ScopeState) (id now : ℕ) (commit : Bool) (done : Settled)
      (again : Step (Answer (Option Settlement)))
      → record_cell (Record.scope s) ≡ content scope_key version
      → HasSettled s id commit (ok done)
      → Keeps (protocol ledger content Done) again (IsSettled scope_key id commit)
      → Keeps
          (protocol ledger content Done)
          (settle_write ledger scope_key version now done again)
          (IsSettled scope_key id commit)
  unfolding settle_write IsSettled
  settle_write-Keeps scope_key version s id now commit done again was settled rest =
      when-Keeps _ (λ same. pure-Keeps _ (inl (untouched_outcome done same)))
        (λ changed.
          then_write _
            (put_record-Keeps ledger content Done scope_key (some version) _ (
              over-MayRecord ledger content Done scope_key version _ _ was
                (touched (SettlesTo-Moves id commit settled))))
            (λ a written. >>=-Keeps (count_touch-Keeps _ _) λ a h.
              >>=-Keeps
                (when-Keeps {Q = Any} _ (λ idle. hint_idle-Keeps ledger content Done now)
                  (λ busy. pure-Keeps _ tt))
                λ a h. pure-Keeps _ (inr (done.state, written refl, (s, (version, was), settled))))
            (λ h. rest) (λ h. pure-Keeps _ tt))

  try_loop-Keeps :
      (rounds : ℕ) (scope_key : String) (id now : ℕ) (commit : Bool)
      → Keeps
          (protocol ledger content Done)
          (try_loop ledger rounds scope_key id now commit)
          (IsSettled scope_key id commit)
  unfolding try_loop IsSettled WasRead
  try_loop-Keeps zero scope_key id now commit = pure-Keeps _ tt
  try_loop-Keeps (suc rounds) scope_key id now commit =
      then_read _ (read-Keeps ledger content Done scope_key)
        (λ s version was.
          then_answer _ (settle_read-Keeps scope_key s id now commit)
            (λ done settled.
              settle_write-Keeps scope_key version s id now commit done _ was settled
                (try_loop-Keeps rounds scope_key id now commit))
            (λ e h. pure-Keeps _ tt))
        (λ version period was. pure-Keeps _ tt) (λ was. pure-Keeps _ tt) (λ e h. pure-Keeps _ tt)

  pub try_settle-Keeps :
      (reservation : Reservation) (now : ℕ) (commit : Bool) (retries : ℕ)
      → Keeps
          (protocol ledger content Done)
          (try_settle ledger reservation now commit retries)
          (IsSettled (key ledger reservation.scope) reservation.id commit)
  unfolding try_settle
  try_settle-Keeps reservation now commit retries =
      try_loop-Keeps retries _ reservation.id now commit
