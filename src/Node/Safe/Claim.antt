-- ===== src/Node/Safe/Claim.antt =====
-- The claims of markers, the commits that are persisted in them, and the reconciliation of a scope's
-- record with them keep to the protocol: aggregate-risk-gate/src/node_ledger.rs.
use agent_governance_policie.Prelude.{
  ℕ, zero, suc, Bool, true, false, Option, none, some, List, [], ◌∷◌, String, ◌≡◌, ◌≢◌, refl, ok,
  err, arith,
}
use agent_governance_policie.Scope.Types.{Timeout, Reservation}
use agent_governance_policie.Scope.{ScopeState}
use agent_governance_policie.Node.Store.{Mark, Marker, Cell, Answer, marker_cell, mode_of}
use agent_governance_policie.Node.Worker.{
  NodeLedger, Step, pure, when◌then◌else◌, marker_key, marker_retries,
}
use agent_governance_policie.Node.Marker.{read_marker}
use agent_governance_policie.Node.Claim.{
  is_kept, claim_mark, claim_with, claim_found, claim_loop, claim, charge_marked, reconcile_all,
  reconcile,
}
use agent_governance_policie.Node.Commit.{persist_with, persist_found, persist_loop, persist_commit}
use agent_governance_policie.Node.Logic.{
  Keeps, Any, >>=-Keeps, pure-Keeps, when-Keeps, ask-Keeps, now-Keeps,
}
use agent_governance_policie.Node.Logic.Cases.{
  then_asked, then_found, then_write, WasFound, get_marker-Keeps,
}
use agent_governance_policie.Node.Evolve.{
  Succeeds, persisted, claimed, marked, remarked, replaced, node_protocol,
}
use agent_governance_policie.Node.Upkeep.{Upkeep, commits}
use agent_governance_policie.Node.Safe.Marker.{
  protocol, MayMark, put_marker-Keeps, set_refused-Keeps,
}

module _ (ledger : NodeLedger) (content : String → String → Cell)
    (Done : String → Cell → Type 0) where
  pub read_marker-Keeps :
      (id : ℕ)
      → Keeps
          (protocol ledger content Done)
          (read_marker ledger id)
          (WasFound (protocol ledger content Done) marker_cell (marker_key ledger id))
  unfolding read_marker
  read_marker-Keeps id = get_marker-Keeps _

  -- A marker that was found, replaced by a mark that may succeed its own.
  found-MayMark :
      (marker found : Marker) (version : String)
      → WasFound
          (protocol ledger content Done)
          marker_cell
          (marker_key ledger marker.id)
          (ok (some (found, version)))
      → Succeeds ledger found.mark marker.mark
      → MayMark ledger content Done marker (some version)
  unfolding WasFound node_protocol replaced mode_of
  found-MayMark marker found version h succeeds = rw (← h.0) (remarked succeeds)

  fresh-MayMark :
      (marker : Marker) → marker.mark ≢ Mark.collecting → MayMark ledger content Done marker none
  unfolding replaced mode_of
  fresh-MayMark marker h = marked h

  claim_with-Keeps :
      (marker : Marker) (version : Option String) (again : Step (Answer Bool))
      → MayMark ledger content Done marker version
      → Keeps (protocol ledger content Done) again Any
      → Keeps (protocol ledger content Done) (claim_with ledger marker version again) Any
  unfolding claim_with
  claim_with-Keeps marker version again may rest =
      then_write _ (put_marker-Keeps ledger content Done marker version may)
        (λ a h. pure-Keeps _ tt) (λ h. rest)
        (λ h. >>=-Keeps (ask-Keeps _) λ refused h. pure-Keeps _ tt)

  -- A marker of another mark than `commit` is claimed, unless it is kept.
  claim_over-Keeps :
      (marker found : Marker) (m : Mark) (tombstone : Bool) (version : String)
      (again : Step (Answer Bool))
      → claim_mark ledger.timeout tombstone ≡ marker.mark
      → WasFound
          (protocol ledger content Done)
          marker_cell
          (marker_key ledger marker.id)
          (ok (some (found, version)))
      → Keeps (protocol ledger content Done) again Any
      → found.mark ≡ m
      → m ≢ Mark.commit
      → Keeps
          (protocol ledger content Done)
          (when is_kept ledger.timeout tombstone m
            then pure (ok false)
            else claim_with ledger marker (some version) again)
          Any
  claim_over-Keeps marker found m tombstone version again mine h rest same other =
      when-Keeps _ (λ kept. pure-Keeps _ tt)
        (λ open_mark.
          let succeeds : Succeeds ledger found.mark marker.mark =
            rw same (claimed tombstone other open_mark mine) in
          claim_with-Keeps marker (some version) again
            (found-MayMark marker found version h succeeds) rest)

  claim_found-Keeps :
      (marker found : Marker) (m : Mark) (tombstone : Bool) (version : String)
      (again : Step (Answer Bool))
      → claim_mark ledger.timeout tombstone ≡ marker.mark
      → WasFound
          (protocol ledger content Done)
          marker_cell
          (marker_key ledger marker.id)
          (ok (some (found, version)))
      → Keeps (protocol ledger content Done) again Any
      → found.mark ≡ m
      → Keeps
          (protocol ledger content Done)
          (claim_found ledger marker tombstone m version again)
          Any
  unfolding claim_found
  claim_found-Keeps marker found Mark.commit tombstone version again mine h rest same =
      pure-Keeps _ tt
  claim_found-Keeps marker found Mark.expired tombstone version again mine h rest same =
      claim_over-Keeps marker found _ tombstone version again mine h rest same (λ e. cc)
  claim_found-Keeps marker found Mark.dropped tombstone version again mine h rest same =
      claim_over-Keeps marker found _ tombstone version again mine h rest same (λ e. cc)
  claim_found-Keeps marker found Mark.provisional tombstone version again mine h rest same =
      claim_over-Keeps marker found _ tombstone version again mine h rest same (λ e. cc)
  claim_found-Keeps marker found Mark.collecting tombstone version again mine h rest same =
      claim_over-Keeps marker found _ tombstone version again mine h rest same (λ e. cc)

  claim_mark-ne_collecting :
      (timeout : Timeout) (tombstone : Bool) → claim_mark timeout tombstone ≢ Mark.collecting
  unfolding claim_mark
  claim_mark-ne_collecting Timeout.commit tombstone e = cc
  claim_mark-ne_collecting Timeout.release true e = cc
  claim_mark-ne_collecting Timeout.release false e = cc

  claim_loop-Keeps :
      (rounds : ℕ) (marker : Marker) (tombstone : Bool)
      → claim_mark ledger.timeout tombstone ≡ marker.mark
      → Keeps (protocol ledger content Done) (claim_loop ledger rounds marker tombstone) Any
  unfolding claim_loop
  claim_loop-Keeps zero marker tombstone mine = pure-Keeps _ tt
  claim_loop-Keeps (suc rounds) marker tombstone mine =
      then_found _ (read_marker-Keeps marker.id)
        (λ p h.
          claim_found-Keeps marker p.0 _ tombstone p.1 _ mine h
            (claim_loop-Keeps rounds marker tombstone mine) refl)
        (λ h.
          claim_with-Keeps marker none _
            (fresh-MayMark marker (rw (← mine) (claim_mark-ne_collecting ledger.timeout tombstone)))
            (claim_loop-Keeps rounds marker tombstone mine))
        (λ e h. pure-Keeps _ tt)

  claim-Keeps :
      (scope_key : String) (id expires_at : ℕ) (tombstone : Bool)
      → Keeps (protocol ledger content Done) (claim ledger scope_key id expires_at tombstone) Any
  unfolding claim
  claim-Keeps scope_key id expires_at tombstone = claim_loop-Keeps marker_retries _ tombstone refl

  charge_marked-Upkeep :
      {s t : ScopeState} (id : ℕ)
      → Upkeep ledger s t
      → Upkeep ledger s (charge_marked ledger t id).0
  unfolding charge_marked
  charge_marked-Upkeep {t = t} id moves = commits id moves (ground arith)

  -- A reconciled record has had its upkeep alone.
  abbrev pub HasMoved : ScopeState → Answer (ScopeState × ℕ) → Type 0
  HasMoved s (ok (t, charged)) = Upkeep ledger s t
  HasMoved s (err e) = Unit

  reconcile_all-Keeps :
      (scope_key : String) (entries : List (ℕ × ℕ × Bool)) (s t : ScopeState) (charged : ℕ)
      → Upkeep ledger s t
      → Keeps
          (protocol ledger content Done)
          (reconcile_all ledger scope_key entries t charged)
          (HasMoved s)
  unfolding reconcile_all
  reconcile_all-Keeps scope_key [] s t charged moves = pure-Keeps _ moves
  reconcile_all-Keeps scope_key ((id, expires_at, tombstone) ∷ rest) s t charged moves =
      then_asked _ (claim-Keeps scope_key id expires_at tombstone)
        (λ h. reconcile_all-Keeps scope_key rest s _ _ (charge_marked-Upkeep id moves))
        (λ h. reconcile_all-Keeps scope_key rest s t charged moves) (λ e h. pure-Keeps _ tt)

  pub reconcile-Keeps :
      (scope_key : String) (s t : ScopeState) (now : ℕ)
      → Upkeep ledger s t
      → Keeps (protocol ledger content Done) (reconcile ledger scope_key t now) (HasMoved s)
  unfolding reconcile
  reconcile-Keeps scope_key s t now moves = reconcile_all-Keeps scope_key _ s t 0 moves

  persist_with-Keeps :
      (marker : Marker) (version : Option String) (again : Step Bool)
      → MayMark ledger content Done marker version
      → Keeps (protocol ledger content Done) again Any
      → Keeps (protocol ledger content Done) (persist_with ledger marker version again) Any
  unfolding persist_with
  persist_with-Keeps marker version again may rest =
      then_write _ (put_marker-Keeps ledger content Done marker version may)
        (λ a h. pure-Keeps _ tt) (λ h. rest) (λ h. pure-Keeps _ tt)

  persist_found-Keeps :
      (marker found : Marker) (m : Mark) (version : String) (again : Step Bool)
      → marker.mark ≡ Mark.commit
      → WasFound
          (protocol ledger content Done)
          marker_cell
          (marker_key ledger marker.id)
          (ok (some (found, version)))
      → Keeps (protocol ledger content Done) again Any
      → found.mark ≡ m
      → Keeps (protocol ledger content Done) (persist_found ledger marker m version again) Any
  unfolding persist_found
  persist_found-Keeps marker found Mark.expired version again mine h rest same =
      let succeeds : Succeeds ledger found.mark marker.mark = rw (same, mine) persisted in
      persist_with-Keeps marker (some version) again (found-MayMark marker found version h succeeds)
        rest
  persist_found-Keeps marker found Mark.commit version again mine h rest same = pure-Keeps _ tt
  persist_found-Keeps marker found Mark.provisional version again mine h rest same = pure-Keeps _ tt
  persist_found-Keeps marker found Mark.dropped version again mine h rest same = pure-Keeps _ tt
  persist_found-Keeps marker found Mark.collecting version again mine h rest same = pure-Keeps _ tt

  persist_loop-Keeps :
      (rounds : ℕ) (marker : Marker)
      → marker.mark ≡ Mark.commit
      → Keeps (protocol ledger content Done) (persist_loop ledger rounds marker) Any
  unfolding persist_loop
  persist_loop-Keeps zero marker mine = pure-Keeps _ tt
  persist_loop-Keeps (suc rounds) marker mine =
      then_found _ (read_marker-Keeps marker.id)
        (λ p h.
          persist_found-Keeps marker p.0 _ p.1 _ mine h (persist_loop-Keeps rounds marker mine)
            refl)
        (λ h.
          persist_with-Keeps marker none _ (fresh-MayMark marker (λ e. cc))
            (persist_loop-Keeps rounds marker mine))
        (λ e h. pure-Keeps _ tt)

  pub persist_commit-Keeps :
      (reservation : Reservation) (now : ℕ)
      → Keeps (protocol ledger content Done) (persist_commit ledger reservation now) Any
  unfolding persist_commit
  persist_commit-Keeps reservation now =
      >>=-Keeps (set_refused-Keeps ledger content Done false) λ a h. >>=-Keeps now-Keeps λ time h.
        when-Keeps _ (λ past. pure-Keeps _ tt) (λ kept. persist_loop-Keeps marker_retries _ refl)
