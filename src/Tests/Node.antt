-- ===== src/Tests/Node.antt =====
-- The theorems on the shared ledger at concrete inputs, and a run of one worker on a small store:
-- aggregate-risk-gate/src/node_ledger.rs.
pub mod World
use Prim.Native.String.{◌++◌, slice}
use mathlib.Core.Path.{subst}
use agent_governance_policie.Prelude.{
  ℕ, ◌≤◌, Bool, true, false, if◌then◌else◌, ltb, Option, none, some, List, [], ◌∷◌, String,
  string_discrete, ite, if_pos, if_neg, ◌≡◌, ◌≢◌, ◌⊎◌, refl, inl, inr, Result, ok, err, arith,
}
use agent_governance_policie.Scope.Types.{Timeout, Reservation, Held}
use agent_governance_policie.Scope.{ScopeState, roll_to, reclaim, settle}
use agent_governance_policie.Scope
use agent_governance_policie.Scope.Idle.{period}
use agent_governance_policie.Node.Store.{
  Record, Mark, Marker, Cell, Answer, Found, Program, return, get, put, delete, keys, now,
  record_cell, marker_cell,
}
use agent_governance_policie.Node.Worker.{
  NodeLedger, Worker, new_worker, key, marker_key, sweep_key,
}
use agent_governance_policie.Node.Methods.{
  reserve, force_reserve, force_reserve_checked, commit, release,
}
use agent_governance_policie.Node.Logic.{Keeps}
use agent_governance_policie.Node.Safe.Marker.{protocol}
use agent_governance_policie.Node.Safe.Touch.{IsWritten}
use agent_governance_policie.Node.Safe.Reserve.{IsReserved, IsForced}
use agent_governance_policie.Node.Safe.Methods.{
  reserve-Keeps, IsChecked, force_reserve_checked-Keeps, IsReleased, release-Keeps,
}

abbrev pub node : NodeLedger
node = record {
  hmac = λ scope. scope;
  prefix = "p:";
  max_scopes = 2;
  ttl = 1000;
  timeout = Timeout.release;
  window = none;
  id_prefix = 0;
}

abbrev pub held_seven : Reservation
held_seven = record {
  id = 7;
  scope = "a";
  contribution = 5;
  created_at = 0;
  expires_at = 1000;
  total = 5;
}

-- The scope holds the reservation, and has let it go.
abbrev pub holding : ScopeState
holding = record {
  period = 0;
  committed = 3;
  reserved = 5;
  active = (7, record { contribution = 5; expires_at = 1000; provisional_period = none }) ∷ [];
  reclaimed = [];
  indexed_at = none;
}

abbrev pub let_go : ScopeState
let_go = record holding { reserved = 0; active = [] }

abbrev pub marked_nine : Marker
marked_nine = record { mark = Mark.commit; key = "p:s:b"; id = 9; expires_at = 1000 }

abbrev pub written : String → String → Cell
written key version =
    ite (string_discrete key (marker_key node 9)) (marker_cell marked_nine)
      (record_cell (Record.scope (ite (string_discrete version "1") holding let_go)))

abbrev Noted : String → Cell → Type 0
Noted key cell = key ≡ key

reserve-Keeps_example :
    Keeps
      (protocol node written Noted)
      (reserve node "a" 5 10 100)
      (IsWritten node written Noted (IsReserved "a" 5 10) (key node "a"))
reserve-Keeps_example = reserve-Keeps node written Noted "a" 5 10 100

force_reserve_checked-Keeps_example :
    Keeps
      (protocol node written Noted)
      (force_reserve_checked node "a" 5 2 100)
      (IsWritten node written Noted (IsChecked node written Noted "a" 5 2) (key node "a"))
force_reserve_checked-Keeps_example = force_reserve_checked-Keeps node written Noted "a" 5 2 100

release-Keeps_example :
    Keeps
      (protocol node written Noted)
      (release node held_seven 100)
      (IsReleased node written Noted held_seven)
release-Keeps_example = release-Keeps node written Noted held_seven 100
