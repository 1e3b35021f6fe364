-- ===== src/Node/Evolve.antt =====
-- How the values that the workers share may change, as a relation between a key's old value and the
-- new one: what aggregate-risk-gate/src/node_ledger.rs promises of every write of every worker.
use Prim.Native.String.{◌++◌}
use agent_governance_policie.Prelude.{
  ℕ, ◌≤◌, Bool, true, false, Option, none, some, String, ◌≡◌, ◌≢◌, ◌⊎◌,
}
use agent_governance_policie.Scope.{
  ScopeState, at_period, is_idle, roll_to, reclaim, settle, hold, record_committed,
}
use agent_governance_policie.Node.Store.{
  Put, Record, Mark, Marker, Sweep, Cell, record_cell, marker_cell, sweep_cell, count_cell,
}
use agent_governance_policie.Node.Worker.{NodeLedger, hex_digits}
use agent_governance_policie.Node.Claim.{is_kept, claim_mark}
use agent_governance_policie.Node.Logic.{Protocol}

-- A scope's record changes by the steps of the scope's own accounting, and by nothing else.
pub data Moves (ledger : NodeLedger) (s : ScopeState) : ScopeState → Type 0 where
  stays : Moves ledger s s
  rolls :
      {t u : ScopeState} (period : ℕ)
      → Moves ledger s t
      → (roll_to t period).0 ≡ u
      → Moves ledger s u
  reclaims :
      {t u : ScopeState} (now : ℕ)
      → Moves ledger s t
      → (reclaim t now ledger.ttl ledger.timeout).0 ≡ u
      → Moves ledger s u
  settles :
      {t u : ScopeState} (id : ℕ) (commit : Bool)
      → Moves ledger s t
      → (settle t id commit).0 ≡ u
      → Moves ledger s u
  charges :
      {t u : ScopeState} (contribution : ℕ)
      → Moves ledger s t
      → record_committed t contribution ≡ u
      → Moves ledger s u
  holds :
      {t u : ScopeState} (id : ℕ) (scope : String) (contribution now : ℕ)
      → Moves ledger s t
      → (hold t id scope contribution now ledger.ttl).0 ≡ u
      → Moves ledger s u

-- A commit marker is replaced by the mark of its collection alone.
pub data Succeeds (ledger : NodeLedger) : Mark → Mark → Type 0 where
  persisted : Succeeds ledger Mark.expired Mark.commit
  claimed :
      {old new : Mark} (tombstone : Bool)
      → old ≢ Mark.commit
      → is_kept ledger.timeout tombstone old ≡ false
      → claim_mark ledger.timeout tombstone ≡ new
      → Succeeds ledger old new
  collected : {old : Mark} → old ≢ Mark.collecting → Succeeds ledger old Mark.collecting

-- A marker, the count of markers, the count of scopes and the record of sweeps each lie under their
-- own key, spelled out here, and the count of scopes is within the limit. Of the keys of the scopes'
-- records nothing is said.
unfoldable pub IsPlaced : NodeLedger → String → Cell → Type 0
IsPlaced ledger key (marker_cell m) = key ≡ (ledger.prefix ++ "c:") ++ hex_digits 32 m.id
IsPlaced ledger key (count_cell n) =
    (key ≡ ledger.prefix ++ "m") ⊎ ((key ≡ ledger.prefix ++ "n") × (n ≤ ledger.max_scopes))
IsPlaced ledger key (sweep_cell _) = key ≡ ledger.prefix ++ "sweep"
IsPlaced ledger key _ = Unit

-- What a write may replace at a key, of which `Done` says what its writer has written before.
pub data Evolves (ledger : NodeLedger) (Done : Cell → Type 0) : Option Cell → Cell → Type 0 where
  created :
      {t : ScopeState}
      → Moves ledger (at_period 0) t
      → Evolves ledger Done none (record_cell (Record.scope t))
  filled :
      {t : ScopeState} {since period : ℕ}
      → Moves ledger (at_period period) t
      → Evolves ledger Done
          (some (record_cell (Record.vacant since period)))
          (record_cell (Record.scope t))
  touched :
      {s t : ScopeState}
      → Moves ledger s t
      → Evolves ledger Done (some (record_cell (Record.scope s))) (record_cell (Record.scope t))
  retired :
      {s t : ScopeState} {since period : ℕ}
      → Moves ledger s t
      → is_idle t ≡ true
      → t.period ≡ period
      → Evolves ledger Done
          (some (record_cell (Record.scope s)))
          (record_cell (Record.vacant since period))
  condemned :
      {since at period : ℕ}
      → Evolves ledger Done
          (some (record_cell (Record.vacant since period)))
          (record_cell (Record.doomed at period))
  recovered :
      {since at period : ℕ}
      → Evolves ledger Done
          (some (record_cell (Record.doomed at period)))
          (record_cell (Record.vacant since period))
  -- The writer condemned the key, and could not delete it.
  spared :
      {old : Cell} {since at period : ℕ}
      → Done (record_cell (Record.doomed at period))
      → Evolves ledger Done (some old) (record_cell (Record.vacant since period))
  marked : {m : Marker} → m.mark ≢ Mark.collecting → Evolves ledger Done none (marker_cell m)
  remarked :
      {m n : Marker}
      → Succeeds ledger m.mark n.mark
      → Evolves ledger Done (some (marker_cell m)) (marker_cell n)
  -- The writer was collecting the marker, and could not delete it.
  restored :
      {old : Cell} {m : Marker}
      → Done (marker_cell (record m { mark = Mark.collecting }))
      → Evolves ledger Done (some old) (marker_cell m)
  counted : {n : ℕ} → Evolves ledger Done none (count_cell n)
  recounted : {m n : ℕ} → Evolves ledger Done (some (count_cell m)) (count_cell n)
  swept : {old : Option Cell} {s : Sweep} → Evolves ledger Done old (sweep_cell s)

-- Only what its writer has condemned, or is collecting, is deleted.
pub data IsDoomed (Done : Cell → Type 0) : Type 0 where
  doomed_record : (at period : ℕ) → Done (record_cell (Record.doomed at period)) → IsDoomed Done
  doomed_marker : (m : Marker) → m.mark ≡ Mark.collecting → Done (marker_cell m) → IsDoomed Done

unfoldable pub replaced : (String → String → Cell) → String → Put → Option Cell
replaced content key Put.absent = none
replaced content key (Put.cas version) = some (content key version)

-- The protocol of the node ledger, over any content and any record of what was written.
unfoldable pub node_protocol :
    NodeLedger → (String → String → Cell) → (String → Cell → Type 0) → Protocol
unfolding IsPlaced replaced
node_protocol ledger content Done = record {
  content = content;
  Done = Done;
  IsValid = IsPlaced ledger;
  MayPut = λ key mode cell.
      IsPlaced ledger key cell × Evolves ledger (Done key) (replaced content key mode) cell;
  MayDelete = λ key. IsDoomed (Done key);
}
