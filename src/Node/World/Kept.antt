-- ===== src/Node/World/Kept.antt =====
-- What no worker can do to the records and the commit markers of the shared store:
-- aggregate-risk-gate/src/node_ledger.rs.
use mathlib.Core.Path.{subst}
use agent_governance_policie.Prelude.{
  ℕ, true, Option, none, some, List, String, ◌≡◌, ◌≢◌, ◌⊎◌, ◌∙◌, refl, inl, inr, ap,
}
use agent_governance_policie.Scope.{ScopeState, is_idle}
use agent_governance_policie.Node.Store.{
  Record, Mark, Marker, Sweep, Cell, record_cell, marker_cell, sweep_cell,
}
use agent_governance_policie.Node.Worker.{NodeLedger, Worker, sweep_key}
use agent_governance_policie.Node.Evolve.{
  Moves, Succeeds, persisted, claimed, collected, Evolves, created, filled, touched, retired,
  condemned, recovered, spared, marked, remarked, restored, counted, recounted, swept, IsDoomed,
  doomed_record, doomed_marker, IsPlaced,
}
use agent_governance_policie.Node.World.{
  Call, Versions, Running, Moved, Reached, moved, Written, held_under, held_at, Changed, kept,
  evolved, removed, AllPlaced,
}
use agent_governance_policie.Node.World.Safe.{start, workers_keep, workers_place}

Succeeds-commit :
    (ledger : NodeLedger) (old fresh : Mark)
    → Succeeds ledger old fresh
    → old ≡ Mark.commit
    → fresh ≡ Mark.collecting
Succeeds-commit ledger _ _ persisted e = cc
Succeeds-commit ledger _ _ (claimed tombstone other open_mark mine) e = absurd (other e)
Succeeds-commit ledger _ _ (collected other) e = refl

-- What a scope's record may become.
abbrev pub RecordAfter : NodeLedger → ScopeState → Cell → Type 0
RecordAfter ledger s (record_cell (Record.scope t)) = Moves ledger s t
RecordAfter ledger s (record_cell (Record.vacant since period)) =
    (t : ScopeState) × Moves ledger s t × (is_idle t ≡ true) × (t.period ≡ period)
RecordAfter ledger s _ = ⊥

-- What a commit marker may become.
abbrev pub CommitAfter : Cell → Type 0
CommitAfter (marker_cell m) = m.mark ≡ Mark.collecting
CommitAfter _ = ⊥

-- A write has landed that condemns the key, or that begins to collect its marker.
abbrev pub WasCondemned : (Cell → Type 0) → Type 0
WasCondemned Done =
    ((at : ℕ) × (period : ℕ) × Done (record_cell (Record.doomed at period)))
    ⊎ ((m : Marker) × (m.mark ≡ Mark.collecting) × Done (marker_cell m))

same_mark : (m n : Marker) → m ≡ n → n.mark ≡ Mark.commit → m.mark ≡ Mark.commit
same_mark m n same c = ap (λ (x : Marker). x.mark) same ∙ c

module _ (ledger : NodeLedger) (Done : Cell → Type 0) where
  -- A change of a value that was `old`, by what the new value must be.
  abbrev MayBecome : (Cell → Type 0) → Cell → Type 0
  MayBecome After cell = After cell ⊎ (WasCondemned Done ⊎ ((z : Sweep) × (cell ≡ sweep_cell z)))

  Evolves-record :
      (s : ScopeState) {old : Option Cell} {cell : Cell}
      → Evolves ledger Done old cell
      → old ≡ some (record_cell (Record.scope s))
      → MayBecome (RecordAfter ledger s) cell
  Evolves-record s (created moves) e = cc
  Evolves-record s (filled moves) e = cc
  Evolves-record s (touched {t = t} moves) e =
      inl (subst (λ (x : ScopeState). Moves ledger x t) (cc) moves)
  Evolves-record s (retired {t = t} moves idle same) e =
      inl (t, subst (λ (x : ScopeState). Moves ledger x t) (cc) moves, idle, same)
  Evolves-record s condemned e = cc
  Evolves-record s recovered e = cc
  Evolves-record s (spared {at = at} {period = period} done) e = inr (inl (inl (at, period, done)))
  Evolves-record s (marked other) e = cc
  Evolves-record s (remarked succeeds) e = cc
  Evolves-record s (restored {m = m} done) e = inr (inl (inr (_, refl, done)))
  Evolves-record s counted e = cc
  Evolves-record s recounted e = cc
  Evolves-record s (swept {s = z}) e = inr (inr (z, refl))

  Evolves-commit :
      (m : Marker) {old : Option Cell} {cell : Cell}
      → Evolves ledger Done old cell
      → old ≡ some (marker_cell m)
      → m.mark ≡ Mark.commit
      → MayBecome CommitAfter cell
  Evolves-commit m (created moves) e c = cc
  Evolves-commit m (filled moves) e c = cc
  Evolves-commit m (touched moves) e c = cc
  Evolves-commit m (retired moves idle same) e c = cc
  Evolves-commit m condemned e c = cc
  Evolves-commit m recovered e c = cc
  Evolves-commit m (spared {at = at} {period = period} done) e c =
      inr (inl (inl (at, period, done)))
  Evolves-commit m (marked other) e c = cc
  Evolves-commit m (remarked {m = old} succeeds) e c =
      inl (Succeeds-commit ledger _ _ succeeds (same_mark old m (cc) c))
  Evolves-commit m (restored done) e c = inr (inl (inr (_, refl, done)))
  Evolves-commit m counted e c = cc
  Evolves-commit m recounted e c = cc
  Evolves-commit m (swept {s = z}) e c = inr (inr (z, refl))

IsDoomed-WasCondemned : (Done : Cell → Type 0) → IsDoomed Done → WasCondemned Done
IsDoomed-WasCondemned Done (doomed_record at period done) = inl (at, period, done)
IsDoomed-WasCondemned Done (doomed_marker m same done) = inr (m, same, done)

module _ (ledger : NodeLedger) (content : String → String → Cell)
    (Landed : String → String → Type 0) where
  -- What a key may hold after a turn: what it held, a value that may follow it, or, if a write has
  -- landed that condemns the key, anything.
  abbrev pub KeyAfter : String → Versions → Versions → (Cell → Type 0) → Type 0
  KeyAfter key s t After =
      (t key ≡ s key)
      ⊎ (((cell : Cell) × (held_at content t key ≡ some cell) × After cell)
          ⊎ WasCondemned (Written content Landed key))

  sweep_under :
      (t : Versions) (key : String) (z : Sweep) (version : Option String)
      → AllPlaced content ledger t
      → t key ≡ version
      → held_under content key version ≡ some (sweep_cell z)
      → key ≡ sweep_key ledger
  unfolding held_under IsPlaced sweep_key
  sweep_under t key z none placed at held = cc
  sweep_under t key z (some version) placed at held =
      let cell : content key version ≡ sweep_cell z = cc in
      subst (IsPlaced ledger key) cell (placed key version at)

  Changed-KeyAfter :
      (key : String) (s t : Versions) (After : Cell → Type 0)
      → AllPlaced content ledger t
      → key ≢ sweep_key ledger
      → Changed content Landed ledger key s t
      → ((cell : Cell)
          → Evolves ledger (Written content Landed key) (held_at content s key) cell
          → MayBecome ledger (Written content Landed key) After cell)
      → KeyAfter key s t After
  unfolding held_at
  Changed-KeyAfter key s t After placed other (kept same) becomes = inl same
  Changed-KeyAfter key s t After placed other (removed gone doomed) becomes =
      inr (inr (IsDoomed-WasCondemned (Written content Landed key) doomed))
  Changed-KeyAfter key s t After placed other (evolved cell held evolves) becomes =
      elim (becomes cell evolves) [
        | inl follows ↦ inr (inl (cell, held, follows))
        | inr (inl doomed) ↦ inr (inr doomed)
        | inr (inr (z, same)) ↦
            absurd (other (sweep_under t key z (t key) placed refl (held ∙ ap some same)))
      ]

  -- The state of a run: the workers began on a store whose values are placed, and one takes a turn.
  pub record Run (workers : List (Worker × List Call)) (t u : Versions) : Type 0 where
    pub first : Versions
    pub waiting : List Running
    pub after : List Running
    pub placed : AllPlaced content ledger first
    pub before : Reached content Landed first (start ledger content Landed workers) t waiting
    pub turn : Moved content Landed t waiting u after

  run_placed :
      {workers : List (Worker × List Call)} {t u : Versions}
      → Run workers t u
      → AllPlaced content ledger u
  run_placed {workers} {t} {u} run =
      workers_place ledger content Landed workers run.first u run.after run.placed
        (moved run.before run.turn)

  -- Whatever calls any number of workers make, a turn leaves a scope's live record as it was, moves
  -- it by the steps of the scope's own accounting, or retires it once those steps have left it idle,
  -- unless a write that condemns the key lands in the run.
  pub live_record_kept :
      {workers : List (Worker × List Call)} {t u : Versions} (key : String) (s : ScopeState)
      → Run workers t u
      → key ≢ sweep_key ledger
      → held_at content t key ≡ some (record_cell (Record.scope s))
      → KeyAfter key t u (RecordAfter ledger s)
  live_record_kept {workers} {t} {u} key s run other live =
      Changed-KeyAfter key t u (RecordAfter ledger s) (run_placed run) other
        (workers_keep ledger content Landed workers run.first t u run.waiting run.after run.placed
          run.before run.turn key)
        (λ cell evolves. Evolves-record ledger (Written content Landed key) s evolves live)

  -- Whatever calls any number of workers make, a turn leaves a commit marker as it was, or replaces
  -- it by the mark of its collection, unless a write that condemns the key or begins to collect its
  -- marker lands in the run.
  pub commit_marker_kept :
      {workers : List (Worker × List Call)} {t u : Versions} (key : String) (m : Marker)
      → Run workers t u
      → key ≢ sweep_key ledger
      → held_at content t key ≡ some (marker_cell m)
      → m.mark ≡ Mark.commit
      → KeyAfter key t u CommitAfter
  commit_marker_kept {workers} {t} {u} key m run other held c =
      Changed-KeyAfter key t u CommitAfter (run_placed run) other
        (workers_keep ledger content Landed workers run.first t u run.waiting run.after run.placed
          run.before run.turn key)
        (λ cell evolves. Evolves-commit ledger (Written content Landed key) m evolves held c)
