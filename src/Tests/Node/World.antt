-- ===== src/Tests/Node/World.antt =====
-- A worker that releases a reservation, turn by turn, on a store that also holds a commit marker:
-- aggregate-risk-gate/src/node_ledger.rs.
use agent_governance_policie.Prelude.{
  ◌≡◌, none, some, List, [], ◌∷◌, String, string_discrete, ℕ_discrete, ite, if_pos, if_neg, refl,
  inl, ok,
}
use agent_governance_policie.Prelude.Assoc.{retain, remove}
use agent_governance_policie.Prelude.Assoc
use agent_governance_policie.Scope
use agent_governance_policie.Scope.{roll_to, reclaim, settle, is_idle, due}
use agent_governance_policie.Scope.Idle.{period}
use agent_governance_policie.Ledger.Stats.{settle_free}
use agent_governance_policie.Node.Store.{
  Record, Cell, Answer, Found, get, put, record_cell, then_run, decoded, found_as, as_record,
  mode_of,
}
use agent_governance_policie.Node.Worker.{
  Worker, new_worker, pure, ◌>>=◌, when◌then◌else◌, get_as, store_put, ask, change, key,
  scope_prefix, marker_key, marker_prefix, hex_digits, sweep_key,
}
use agent_governance_policie.Node.Marker.{read, read_of, put_record}
use agent_governance_policie.Node.Claim.{reconcile, reconcile_all}
use agent_governance_policie.Node.Sweep.{unchanged}
use agent_governance_policie.Node.Settle.{
  try_settle, try_loop, settle_read, settle_before, settle_write, is_untouched, is_not_active,
  add_counts,
}
use agent_governance_policie.Node.Drain.{drain_pending, drain_loop, pop_front, front, rest_of}
use agent_governance_policie.Node.Methods.{release, settle_zero}
use agent_governance_policie.Node.Evolve.{IsPlaced}
use agent_governance_policie.Node.World.{
  Call, releasing, forget, call, session, Versions, Running, write_at, Accepts, present, landed,
  Turn, here, begun, moved, held_under, held_at, Changed, AllPlaced,
}
use agent_governance_policie.Node.World.Safe.{workers_keep}
use agent_governance_policie.Node.World.Kept.{
  RecordAfter, CommitAfter, KeyAfter, Run, live_record_kept, commit_marker_kept,
}
use agent_governance_policie.Tests.Node.{node, held_seven, holding, marked_nine, written}

abbrev workers : List (Worker × List Call)
workers = (new_worker, releasing held_seven 10 ∷ []) ∷ []

-- The versions before the release is written, and after.
abbrev before : Versions
before k =
    ite (string_discrete "p:s:a" k) (some "1")
      (ite (string_discrete (marker_key node 9) k) (some "1") none)

abbrev after : Versions
after = write_at "p:s:a" (some "2") before

-- The one version that lands.
abbrev Landed : String → String → Type 0
Landed at version = version ≡ "2"

abbrev answered : Running → Answer (Found Cell) → Running
answered (get key next) answer = next answer
answered p answer = p

abbrev acknowledged : Running → Answer (Unit {0}) → Running
acknowledged (put key mode cell next) answer = next answer
acknowledged p answer = p

abbrev reading : Running
reading = session node (releasing held_seven 10 ∷ []) new_worker

abbrev writing : Running
writing = answered reading (ok (some (record_cell (Record.scope holding), "1")))

abbrev done : Running
done = acknowledged writing (ok tt)

reads : Turn written Landed before reading before writing
unfolding Turn session call forget release drain_pending drain_loop pop_front front rest_of ask
    change pure ◌>>=◌ then_run settle_zero settle_free try_settle try_loop read get_as key
    scope_prefix new_worker string_discrete marker_key marker_prefix hex_digits
reads = (ok (some (record_cell (Record.scope holding), "1")), present refl, refl, refl)

writes : Turn written Landed before writing after done
unfolding Turn session call forget release drain_pending drain_loop pop_front front rest_of ask
    change pure ◌>>=◌ then_run settle_zero settle_free try_settle try_loop read get_as key
    scope_prefix new_worker string_discrete marker_key marker_prefix hex_digits decoded found_as
    as_record read_of settle_read settle_before reconcile reconcile_all due roll_to period settle
    Scope.settle_active Scope.settle_tombstone reclaim Scope.expire_all Scope.expired Scope.kept
    settle_write is_untouched is_not_active unchanged add_counts put_record store_put mode_of
    when◌then◌else◌ Accepts retain Assoc.get ℕ_discrete remove
writes = (ok tt, landed "2" refl refl refl refl (inl refl), refl)

written-IsPlaced : (key version : String) → IsPlaced node key (written key version)
unfolding IsPlaced marker_key marker_prefix hex_digits
written-IsPlaced key version = elim (string_discrete key (marker_key node 9)) [
  | yes p ↦ rw (if_pos _ p) p
  | no p ↦ rw (if_neg _ p) tt
]

before-AllPlaced : AllPlaced written node before
before-AllPlaced key version at = written-IsPlaced key version

-- The release has been read, and is written now.
run : Run node written Landed workers before after
run = record {
  first = before;
  waiting = writing ∷ [];
  after = done ∷ [];
  placed = before-AllPlaced;
  before = moved begun (here reads);
  turn = here writes;
}

workers_keep_example : Changed written Landed node "p:s:a" before after
workers_keep_example =
    workers_keep node written Landed workers before before after (writing ∷ []) (done ∷ [])
      before-AllPlaced (moved begun (here reads)) (here writes) "p:s:a"

live_record_kept_example :
    KeyAfter node written Landed "p:s:a" before after (RecordAfter node holding)
unfolding held_at held_under string_discrete marker_key marker_prefix hex_digits sweep_key
live_record_kept_example = live_record_kept node written Landed "p:s:a" holding run (λ e. cc) refl

commit_marker_kept_example :
    KeyAfter node written Landed (marker_key node 9) before after CommitAfter
unfolding held_at held_under string_discrete marker_key marker_prefix hex_digits sweep_key
commit_marker_kept_example =
    commit_marker_kept node written Landed (marker_key node 9) marked_nine run (λ e. cc) refl refl
