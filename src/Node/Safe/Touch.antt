-- ===== src/Node/Safe/Touch.antt =====
-- A touch of a scope's record keeps to the protocol, and its result is known to have been written:
-- `mutate_core` in aggregate-risk-gate/src/node_ledger.rs.
use agent_governance_policie.Prelude.{
  ℕ, zero, suc, ◌+◌, Bool, true, false, ltb→lt, Option, none, some, String, ◌≡◌, ◌⊎◌, refl, inl,
  inr, Result, ok, err, arith,
}
use agent_governance_policie.Scope.Types.{Refusal}
use agent_governance_policie.Scope.{ScopeState, at_period}
use agent_governance_policie.Scope.Idle.{period}
use agent_governance_policie.Node.Store.{Record, Cell, record_cell, mode_of}
use agent_governance_policie.Node.Worker.{
  NodeLedger, Step, count_key, pure, when◌then◌else◌, on_ok, reserve_retries, settle_retries,
}
use agent_governance_policie.Node.Marker.{Read, new, live, is_doomed}
use agent_governance_policie.Node.Slots.{Delta, adjust_count}
use agent_governance_policie.Node.Touch.{
  Change, Draft, draft_of, Touched, sweep_for_slot, acquire_loop, acquire_slot, refuse_touch,
  write_touch, save_touch, finish_touch, touch_draft, touch_read, mutate_loop, mutate_core,
}
use agent_governance_policie.Node.Logic.{Keeps, Any, >>=-Keeps, pure-Keeps, when-Keeps}
use agent_governance_policie.Node.Logic.Cases.{then_answer, then_write}
use agent_governance_policie.Node.Evolve.{Moves, created, filled, touched, replaced}
use agent_governance_policie.Node.Upkeep.{
  as_read, at_new_period, expires, Upkeep-Moves, WasStored, IsReady,
}
use agent_governance_policie.Node.Safe.Marker.{protocol, WasRead, read-Keeps}
use agent_governance_policie.Node.Safe.Claim.{reconcile-Keeps}
use agent_governance_policie.Node.Safe.Slots.{
  WasCounted, read_count-Keeps, put_count-Keeps, adjust_count-Keeps, put_sweep-Keeps, then_swept,
}
use agent_governance_policie.Node.Safe.Sweep.{
  MayRecord, put_record-Keeps, over-MayRecord, count_touch-Keeps,
}
use agent_governance_policie.Node.Safe.Scan.{sweep-Keeps}

module _ (ledger : NodeLedger) (content : String → String → Cell)
    (Done : String → Cell → Type 0) where
  sweep_for_slot-Keeps :
      (now : ℕ) (again : Step (Result (Unit {0}) Refusal))
      → Keeps (protocol ledger content Done) again Any
      → Keeps (protocol ledger content Done) (sweep_for_slot ledger now again) Any
  unfolding sweep_for_slot
  sweep_for_slot-Keeps now again rest =
      then_swept ledger content Done _
        (λ s version.
          when-Keeps _ (λ early. pure-Keeps _ tt)
            (λ due.
              then_answer _ (put_sweep-Keeps ledger content Done _ version)
                (λ mine h. >>=-Keeps (sweep-Keeps ledger content Done now mine) λ a h. rest)
                (λ e h. pure-Keeps _ tt)))
        (λ e. pure-Keeps _ tt)

  acquire_loop-Keeps :
      (rounds : ℕ) (swept : Bool) (now : ℕ)
      → Keeps (protocol ledger content Done) (acquire_loop ledger rounds swept now) Any
  unfolding acquire_loop count_key WasCounted
  acquire_loop-Keeps zero swept now = pure-Keeps _ tt
  acquire_loop-Keeps (suc rounds) swept now =
      then_answer _ (read_count-Keeps ledger content Done)
        (λ p was.
          when-Keeps _
            (λ room.
              then_write _
                (put_count-Keeps ledger content Done p.0 (p.0 + 1) p.1
                  (inr (refl, omega (arith, ltb→lt p.0 ledger.max_scopes room))) was.1)
                (λ a h. pure-Keeps _ tt) (λ h. acquire_loop-Keeps rounds swept now)
                (λ h. pure-Keeps _ tt))
            (λ full.
              when-Keeps _ (λ again. pure-Keeps _ tt)
                (λ first. sweep_for_slot-Keeps now _ (acquire_loop-Keeps rounds true now))))
        (λ e h. pure-Keeps _ tt)

  acquire_slot-Keeps :
      (now : ℕ) → Keeps (protocol ledger content Done) (acquire_slot ledger now) Any
  unfolding acquire_slot
  acquire_slot-Keeps now = acquire_loop-Keeps reserve_retries false now

  -- The slot of a new scope whose record was not written is given back.
  slot_back-Keeps :
      (is_new : Bool)
      → Keeps
          (protocol ledger content Done)
          (when is_new then adjust_count ledger settle_retries (Delta.fewer 1) else pure tt)
          Any
  slot_back-Keeps is_new =
      when-Keeps _ (λ fresh. adjust_count-Keeps ledger content Done settle_retries 1)
        (λ old. pure-Keeps _ tt)

  -- What is known of a record that was read to be changed.
  unfoldable pub IsDraft : String → Draft → Type 0
  IsDraft key draft =
      (WasStored content key draft.state ⊎ ((period : ℕ) × (draft.state ≡ at_period period)))
      × ((t : ScopeState)
          → Moves ledger draft.state t
          → MayRecord ledger content Done key draft.version (Record.scope t))

  abbrev IsDrafted : String → Option Draft → Type 0
  IsDrafted key none = Unit
  IsDrafted key (some draft) = IsDraft key draft

  draft_of-IsDrafted :
      (key : String) (found : Read)
      → WasRead ledger content Done key (ok found)
      → IsDrafted key (draft_of found)
  unfolding IsDraft draft_of WasRead replaced mode_of
  draft_of-IsDrafted key is_doomed was = tt
  draft_of-IsDrafted key (live state version) was = (
    inl (version, was),
    λ t moves. over-MayRecord ledger content Done key version _ _ was (touched moves),
  )
  draft_of-IsDrafted key (new none period) was =
      (inr (period, refl), λ t moves. created (rw was at moves))
  draft_of-IsDrafted key (new (some version) period) was = (
    inr (period, refl),
    λ t moves. over-MayRecord ledger content Done key version _ _ was.1 (filled moves),
  )

  module _ {R : Type 0} (Wanted : ScopeState → R → Type 0) where
    -- A result is given only once a record that it is wanted with has been written.
    unfoldable pub IsWritten : String → Result R Refusal → Type 0
    IsWritten key (ok r) = (t : ScopeState) × Done key (record_cell (Record.scope t)) × Wanted t r
    IsWritten key (err refusal) = Unit

    refuse_touch-Keeps :
        (key : String) (draft : Draft) (done : Touched) (t : ScopeState) (refusal : Refusal)
        (again : Step (Result R Refusal))
        → IsDraft key draft
        → Moves ledger draft.state t
        → Keeps (protocol ledger content Done) again (IsWritten key)
        → Keeps
            (protocol ledger content Done)
            (refuse_touch ledger key draft done t refusal again)
            (IsWritten key)
    unfolding refuse_touch IsDraft IsWritten
    refuse_touch-Keeps key draft done t refusal again may moves rest =
        when-Keeps _ (λ same. pure-Keeps _ tt)
          (λ changed.
            then_write _ (put_record-Keeps ledger content Done key draft.version _ (may.1 t moves))
              (λ a h. >>=-Keeps (count_touch-Keeps _ _) λ a h. pure-Keeps _ tt) (λ h. rest)
              (λ h. pure-Keeps _ tt))

    write_touch-Keeps :
        (key : String) (draft : Draft) (done : Touched) (t : ScopeState) (r : R)
        (again : Step (Result R Refusal))
        → IsDraft key draft
        → Moves ledger draft.state t
        → Wanted t r
        → Keeps (protocol ledger content Done) again (IsWritten key)
        → Keeps
            (protocol ledger content Done)
            (write_touch ledger key draft done t r again)
            (IsWritten key)
    unfolding write_touch IsDraft IsWritten
    write_touch-Keeps key draft done t r again may moves wanted rest =
        then_write _ (put_record-Keeps ledger content Done key draft.version _ (may.1 t moves))
          (λ a h. >>=-Keeps (count_touch-Keeps _ _) λ a counted. pure-Keeps _ (t, h refl, wanted))
          (λ h. >>=-Keeps (slot_back-Keeps draft.is_new) λ a h. rest)
          (λ h. >>=-Keeps (slot_back-Keeps draft.is_new) λ a h. pure-Keeps _ tt)

    save_touch-Keeps :
        (key : String) (draft : Draft) (done : Touched) (t : ScopeState) (now : ℕ) (r : R)
        (again : Step (Result R Refusal))
        → IsDraft key draft
        → Moves ledger draft.state t
        → Wanted t r
        → Keeps (protocol ledger content Done) again (IsWritten key)
        → Keeps
            (protocol ledger content Done)
            (save_touch ledger key draft done t now r again)
            (IsWritten key)
    unfolding save_touch on_ok IsWritten
    save_touch-Keeps key draft done t now r again may moves wanted rest =
        when-Keeps _
          (λ fresh.
            then_answer _ (acquire_slot-Keeps now)
              (λ a h. write_touch-Keeps key draft done t r again may moves wanted rest)
              (λ e h. pure-Keeps _ tt))
          (λ old. write_touch-Keeps key draft done t r again may moves wanted rest)

    -- What a change of what the key holds must do: to move the record, and to give a result only if
    -- it is wanted.
    abbrev pub IsChange : String → Change R → Type 0
    IsChange key f =
        (s t : ScopeState) (result : Result R Refusal)
        → IsReady ledger content key s
        → f s ≡ (t, result)
        → ((u : ScopeState) → Moves ledger u s → Moves ledger u t)
          × ((r : R) → result ≡ ok r → Wanted t r)

    finish_touch-Keeps :
        (key : String) (draft : Draft) (done : Touched) (now : ℕ)
        (p : ScopeState × Result R Refusal) (again : Option Refusal → Step (Result R Refusal))
        (refused : Option Refusal)
        → IsDraft key draft
        → Moves ledger draft.state p.0
        → ((r : R) → p.1 ≡ ok r → Wanted p.0 r)
        → ((refused : Option Refusal)
            → Keeps (protocol ledger content Done) (again refused) (IsWritten key))
        → Keeps
            (protocol ledger content Done)
            (finish_touch ledger key draft done now p again refused)
            (IsWritten key)
    unfolding finish_touch
    finish_touch-Keeps key draft done now (t, ok r) again refused may moves wanted rest =
        save_touch-Keeps key draft done t now r _ may moves (wanted r refl) (rest refused)
    finish_touch-Keeps key draft done now (t, err refusal) again refused may moves wanted rest =
        refuse_touch-Keeps key draft done t refusal _ may moves (rest (some refusal))

    touch_draft-Keeps :
        (key : String) (now : ℕ) (f : Change R) (draft : Draft)
        (again : Option Refusal → Step (Result R Refusal)) (refused : Option Refusal)
        → IsChange key f
        → IsDraft key draft
        → ((refused : Option Refusal)
            → Keeps (protocol ledger content Done) (again refused) (IsWritten key))
        → Keeps
            (protocol ledger content Done)
            (touch_draft ledger key now f draft again refused)
            (IsWritten key)
    unfolding touch_draft IsWritten IsDraft
    touch_draft-Keeps key now f draft again refused change may rest =
        then_write _
          (reconcile-Keeps ledger content Done key draft.state _ now
            (at_new_period (period ledger.window now) as_read refl))
          (λ p moves.
            let after = expires now moves refl in
            let known = change _ _ _ (draft.state, may.0, after) refl in
            finish_touch-Keeps key draft _ now _ again refused may
              (known.0 draft.state (Upkeep-Moves after)) known.1 rest)
          (λ h. rest refused) (λ h. pure-Keeps _ tt)

    touch_read-Keeps :
        (key : String) (now : ℕ) (f : Change R) (draft : Option Draft)
        (again : Option Refusal → Step (Result R Refusal)) (refused : Option Refusal)
        → IsChange key f
        → IsDrafted key draft
        → ((refused : Option Refusal)
            → Keeps (protocol ledger content Done) (again refused) (IsWritten key))
        → Keeps
            (protocol ledger content Done)
            (touch_read ledger key now f draft again refused)
            (IsWritten key)
    unfolding touch_read
    touch_read-Keeps key now f none again refused change may rest = rest refused
    touch_read-Keeps key now f (some draft) again refused change may rest =
        touch_draft-Keeps key now f draft again refused change may rest

    mutate_loop-Keeps :
        (rounds : ℕ) (key : String) (now : ℕ) (f : Change R) (refused : Option Refusal)
        → IsChange key f
        → Keeps
            (protocol ledger content Done)
            (mutate_loop ledger rounds key now f refused)
            (IsWritten key)
    unfolding mutate_loop IsWritten
    mutate_loop-Keeps zero key now f none change = pure-Keeps _ tt
    mutate_loop-Keeps zero key now f (some refusal) change = pure-Keeps _ tt
    mutate_loop-Keeps (suc rounds) key now f refused change =
        then_answer _ (read-Keeps ledger content Done key)
          (λ found was.
            touch_read-Keeps key now f (draft_of found) _ refused change
              (draft_of-IsDrafted key found was)
              (λ refused. mutate_loop-Keeps rounds key now f refused change))
          (λ e h. pure-Keeps _ tt)

    pub mutate_core-Keeps :
        (key : String) (now retries : ℕ) (f : Change R)
        → IsChange key f
        → Keeps
            (protocol ledger content Done)
            (mutate_core ledger key now retries f)
            (IsWritten key)
    unfolding mutate_core
    mutate_core-Keeps key now retries f change = mutate_loop-Keeps retries key now f none change
