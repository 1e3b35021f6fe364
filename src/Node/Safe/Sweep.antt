-- ===== src/Node/Safe/Sweep.antt =====
-- A scan of the shared store, and the periodic collection, keep to the protocol:
-- aggregate-risk-gate/src/node_ledger.rs.
use agent_governance_policie.Prelude.{
  ℕ, zero, suc, Option, some, String, ◌≡◌, refl, Bool-cases, inl, inr, ok,
}
use agent_governance_policie.Scope.{ScopeState, is_idle}
use agent_governance_policie.Scope.Idle.{period}
use agent_governance_policie.Node.Store.{Record, Cell, record_cell, mode_of}
use agent_governance_policie.Node.Worker.{NodeLedger, count_touch, marker_retries}
use agent_governance_policie.Node.Marker.{put_record}
use agent_governance_policie.Node.Sweep.{delete_vacant, swept_record, sweep_scope, sweep_record}
use agent_governance_policie.Node.Logic.{
  Protocol, Keeps, Any, >>=-Keeps, pure-Keeps, when-Keeps, change-Keeps, get-Keeps, put-Keeps,
  delete-Keeps,
}
use agent_governance_policie.Node.Logic.Cases.{
  then_answer, then_found, then_record, then_write, WasFound, get_record-Keeps,
}
use agent_governance_policie.Node.Evolve.{
  Moves, Evolves, touched, retired, condemned, recovered, spared, doomed_record, replaced,
  node_protocol, IsPlaced,
}
use agent_governance_policie.Node.Upkeep.{as_read, at_new_period, expires, Upkeep-Moves}
use agent_governance_policie.Node.Safe.Marker.{protocol}
use agent_governance_policie.Node.Safe.Claim.{reconcile-Keeps}

pub count_touch-Keeps :
    {protocol : Protocol} (reclaimed : ℕ × ℕ × ℕ) (charged : ℕ)
    → Keeps protocol (count_touch reclaimed charged) Any
unfolding count_touch
count_touch-Keeps (a, b, c) charged = change-Keeps _

module _ (ledger : NodeLedger) (content : String → String → Cell)
    (Done : String → Cell → Type 0) where
  -- What a write of a scope's record replaces.
  abbrev pub MayRecord : String → Option String → Record → Type 0
  MayRecord key version r =
      Evolves ledger (Done key) (replaced content key (mode_of version)) (record_cell r)

  pub put_record-Keeps :
      (key : String) (version : Option String) (r : Record)
      → MayRecord key version r
      → Keeps
          (protocol ledger content Done)
          (put_record key version r)
          (λ answer. answer ≡ ok tt → Done key (record_cell r))
  unfolding put_record node_protocol IsPlaced
  put_record-Keeps key version r may = put-Keeps _ _ _ (tt, may)

  -- A write over a record that was read.
  pub over-MayRecord :
      (key version : String) (old fresh : Record)
      → record_cell old ≡ content key version
      → Evolves ledger (Done key) (some (record_cell old)) (record_cell fresh)
      → MayRecord key (some version) fresh
  unfolding replaced mode_of
  over-MayRecord key version old fresh was evolves = rw (← was) evolves

  delete_vacant-Keeps :
      (key version : String) (since at now : ℕ)
      → record_cell (Record.vacant since at) ≡ content key version
      → Keeps (protocol ledger content Done) (delete_vacant ledger key version since at now) Any
  unfolding delete_vacant node_protocol replaced mode_of
  delete_vacant-Keeps key version since at now was =
      then_answer _
        (put_record-Keeps key (some version) _ (over-MayRecord key version _ _ was condemned))
        (λ a done.
          then_answer _ (delete-Keeps _ (doomed_record now at (done refl))) (λ a h. pure-Keeps _ tt)
            (λ e h.
              then_found _ (get-Keeps key)
                (λ p h.
                  >>=-Keeps (put_record-Keeps key (some p.1) _ (spared (done refl)))
                    λ a h. pure-Keeps _ tt)
                (λ h. pure-Keeps _ tt) (λ e h. pure-Keeps _ tt)))
        (λ e h. pure-Keeps _ tt)

  swept-Evolves :
      (key : String) (s t : ScopeState) (clock : ℕ)
      → Moves ledger s t
      → Evolves ledger
          (Done key)
          (some (record_cell (Record.scope s)))
          (record_cell (swept_record ledger t clock))
  unfolding swept_record
  swept-Evolves key s t clock moves = elim (Bool-cases (is_idle t)) [
    | inl idle ↦ rw idle (retired moves idle refl)
    | inr busy ↦ rw busy (touched moves)
  ]

  sweep_scope-Keeps :
      (rounds : ℕ) (key : String) (s : ScopeState) (version : String) (now clock next_idle : ℕ)
      → record_cell (Record.scope s) ≡ content key version
      → Keeps
          (protocol ledger content Done)
          (sweep_scope ledger rounds key s version now clock next_idle)
          Any
  unfolding sweep_scope WasFound node_protocol
  sweep_scope-Keeps zero key s version now clock next_idle was = pure-Keeps _ tt
  sweep_scope-Keeps (suc rounds) key s version now clock next_idle was =
      then_answer _
        (reconcile-Keeps ledger content Done key s _ now
          (at_new_period (period ledger.window now) as_read refl))
        (λ p moves.
          when-Keeps _ (λ same. pure-Keeps _ tt)
            (λ changed.
              then_write _
                (put_record-Keeps key (some version) _ (
                  over-MayRecord key version _ _ was
                    (swept-Evolves key s _ clock (Upkeep-Moves (expires now moves refl)))))
                (λ a h.
                  >>=-Keeps (count_touch-Keeps _ _)
                    λ a h. when-Keeps _ (λ idle. pure-Keeps _ tt) (λ busy. pure-Keeps _ tt))
                (λ h.
                  then_record _ (get_record-Keeps key)
                    (λ latest newer found.
                      sweep_scope-Keeps rounds key latest newer now clock _ found.0)
                    (λ since period newer found. pure-Keeps _ tt)
                    (λ at period newer found. pure-Keeps _ tt) (λ h. pure-Keeps _ tt)
                    (λ e h. pure-Keeps _ tt))
                (λ h. pure-Keeps _ tt)))
        (λ e h. pure-Keeps _ tt)

  pub sweep_record-Keeps :
      (key : String) (r : Record) (version : String) (now clock next_idle : ℕ)
      → record_cell r ≡ content key version
      → Keeps
          (protocol ledger content Done)
          (sweep_record ledger key r version now clock next_idle)
          Any
  unfolding sweep_record
  sweep_record-Keeps key (Record.scope s) version now clock next_idle was =
      sweep_scope-Keeps marker_retries key s version now clock next_idle was
  sweep_record-Keeps key (Record.vacant since period) version now clock next_idle was =
      when-Keeps _
        (λ due.
          >>=-Keeps (delete_vacant-Keeps key version since period clock was) λ a h. pure-Keeps _ tt)
        (λ early. pure-Keeps _ tt)
  sweep_record-Keeps key (Record.doomed at period) version now clock next_idle was =
      when-Keeps _
        (λ due.
          >>=-Keeps
            (put_record-Keeps key (some version) _ (over-MayRecord key version _ _ was recovered))
            λ a h. pure-Keeps _ tt)
        (λ early. pure-Keeps _ tt)
