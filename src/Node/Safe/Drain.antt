-- ===== src/Node/Safe/Drain.antt =====
-- A turn of the queue of held-back commits keeps to the protocol:
-- aggregate-risk-gate/src/node_ledger.rs.
use agent_governance_policie.Prelude.{
  ℕ, zero, suc, true, Option, none, some, String, Result, ok, err,
}
use agent_governance_policie.Scope.Types.{
  Settlement, Refusal, over_budget, at_capacity, contention, unavailable, saturated, stale,
}
use agent_governance_policie.Node.Store.{Cell}
use agent_governance_policie.Node.Worker.{
  NodeLedger, Pending, Step, count_outcome, drain_retries, drain_per_call,
}
use agent_governance_policie.Node.Drain.{
  pop_front, push_back, push_front, has_room, unblock, drain_entry, requeue, drained, drain_loop,
  drain_pending,
}
use agent_governance_policie.Node.Logic.{
  Protocol, Keeps, Any, >>=-Keeps, pure-Keeps, when-Keeps, ask-Keeps, change-Keeps,
}
use agent_governance_policie.Node.Logic.Cases.{
  then_answer, then_found, then_some, then_write, get_count-Keeps,
}
use agent_governance_policie.Node.Safe.Marker.{protocol, read-Keeps}
use agent_governance_policie.Node.Safe.Claim.{persist_commit-Keeps}
use agent_governance_policie.Node.Safe.Settle.{try_settle-Keeps}
use agent_governance_policie.Node.Safe.Charge.{charge-Keeps}

module _ {protocol : Protocol} where
  pop_front-Keeps : Keeps protocol pop_front Any
  unfolding pop_front
  pop_front-Keeps =
      >>=-Keeps (ask-Keeps _) λ entry h. >>=-Keeps (change-Keeps _) λ a h. pure-Keeps _ tt

  push_back-Keeps : (entry : Pending) → Keeps protocol (push_back entry) Any
  unfolding push_back
  push_back-Keeps entry = change-Keeps _

  push_front-Keeps : (entry : Pending) → Keeps protocol (push_front entry) Any
  unfolding push_front
  push_front-Keeps entry = change-Keeps _

  pub count_outcome-Keeps : (outcome : Settlement) → Keeps protocol (count_outcome outcome) Any
  unfolding count_outcome
  count_outcome-Keeps outcome = change-Keeps _

module _ (ledger : NodeLedger) (content : String → String → Cell)
    (Done : String → Cell → Type 0) where
  has_room-Keeps : Keeps (protocol ledger content Done) (has_room ledger) Any
  unfolding has_room
  has_room-Keeps =
      then_found _ (get_count-Keeps _) (λ p h. pure-Keeps _ tt) (λ h. pure-Keeps _ tt)
        (λ e h. pure-Keeps _ tt)

  unblock-Keeps :
      (entry : Pending) (now : ℕ)
      → Keeps (protocol ledger content Done) (unblock ledger entry now) Any
  unfolding unblock
  unblock-Keeps entry now =
      when-Keeps _
        (λ blocked.
          >>=-Keeps (persist_commit-Keeps ledger content Done entry.reservation now) λ a h.
            when-Keeps _ (λ persisted. pure-Keeps _ tt)
              (λ other. >>=-Keeps has_room-Keeps λ room h.
                when-Keeps _ (λ wait. >>=-Keeps (push_back-Keeps entry) λ a h. pure-Keeps _ tt)
                  (λ try. pure-Keeps _ tt)))
        (λ free. pure-Keeps _ tt)

  drain_entry-Keeps :
      (entry : Pending) (now : ℕ)
      → Keeps (protocol ledger content Done) (drain_entry ledger entry now) Any
  unfolding drain_entry
  drain_entry-Keeps entry now =
      when-Keeps _
        (λ persisted.
          then_write _
            (try_settle-Keeps ledger content Done entry.reservation now true drain_retries)
            (λ outcome h. pure-Keeps _ tt) (λ h. pure-Keeps _ tt) (λ h. pure-Keeps _ tt))
        (λ other.
          then_answer _ (charge-Keeps ledger content Done entry.reservation now drain_retries)
            (λ outcome h. pure-Keeps _ tt) (λ e h. pure-Keeps _ tt))

  requeue-Keeps :
      (entry : Pending) (refusal : Refusal)
      → Keeps (protocol ledger content Done) (requeue ledger entry refusal) Any
  unfolding requeue
  requeue-Keeps entry refusal =
      when-Keeps _
        (λ limited. >>=-Keeps (read-Keeps ledger content Done _) λ found h.
          when-Keeps _
            (λ missing. when-Keeps _ (λ dropped. pure-Keeps _ tt) (λ kept. push_back-Keeps _))
            (λ present. push_back-Keeps entry))
        (λ other. push_back-Keeps entry)

  drained-Keeps :
      (entry : Pending) (result : Result (Option Settlement) Refusal) (again : Step (Unit {0}))
      → Keeps (protocol ledger content Done) again Any
      → Keeps (protocol ledger content Done) (drained ledger entry result again) Any
  unfolding drained
  drained-Keeps entry (ok none) again rest = rest
  drained-Keeps entry (ok (some outcome)) again rest =
      >>=-Keeps (count_outcome-Keeps outcome) λ a h. rest
  drained-Keeps entry (err unavailable) again rest = push_front-Keeps entry
  drained-Keeps entry (err at_capacity) again rest =
      >>=-Keeps (requeue-Keeps entry at_capacity) λ a h. rest
  drained-Keeps entry (err contention) again rest =
      >>=-Keeps (requeue-Keeps entry contention) λ a h. rest
  drained-Keeps entry (err saturated) again rest =
      >>=-Keeps (requeue-Keeps entry saturated) λ a h. rest
  drained-Keeps entry (err stale) again rest = >>=-Keeps (requeue-Keeps entry stale) λ a h. rest
  drained-Keeps entry (err (over_budget denial)) again rest =
      >>=-Keeps (requeue-Keeps entry (over_budget denial)) λ a h. rest

  drain_loop-Keeps :
      (rounds now : ℕ) → Keeps (protocol ledger content Done) (drain_loop ledger rounds now) Any
  unfolding drain_loop
  drain_loop-Keeps zero now = pure-Keeps _ tt
  drain_loop-Keeps (suc rounds) now =
      then_some _ pop_front-Keeps
        (λ entry h.
          then_some _ (unblock-Keeps entry now)
            (λ ready h.
              >>=-Keeps (drain_entry-Keeps ready now)
                λ result h. drained-Keeps ready result _ (drain_loop-Keeps rounds now))
            (λ h. drain_loop-Keeps rounds now))
        (λ h. pure-Keeps _ tt)

  pub drain_pending-Keeps :
      (now : ℕ) → Keeps (protocol ledger content Done) (drain_pending ledger now) Any
  unfolding drain_pending
  drain_pending-Keeps now = drain_loop-Keeps drain_per_call now
