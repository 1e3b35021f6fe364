-- ===== src/Node/Safe/Collect.antt =====
-- The collection of markers keeps to the protocol: aggregate-risk-gate/src/node_ledger.rs.
use mathlib.Core.Path.{subst}
use agent_governance_policie.Prelude.{ℕ, some, String, ◌≡◌, ◌≢◌, refl, sym, ok}
use agent_governance_policie.Node.Store.{Mark, Marker, Cell, marker_cell, mode_of}
use agent_governance_policie.Node.Worker.{
  NodeLedger, marker_prefix, hex_digits, marker_key, settle_retries,
}
use agent_governance_policie.Node.Commit.{delete_marker, collect_marked, collect_marker}
use agent_governance_policie.Node.Logic.{
  Keeps, Any, >>=-Keeps, pure-Keeps, when-Keeps, get-Keeps, delete-Keeps,
}
use agent_governance_policie.Node.Logic.Cases.{then_answer, then_found, WasFound, get_marker-Keeps}
use agent_governance_policie.Node.Evolve.{
  collected, remarked, restored, doomed_marker, replaced, node_protocol, IsPlaced,
}
use agent_governance_policie.Node.Safe.Marker.{
  protocol, read-Keeps, MayMark, put_marker-Keeps, release_marker_slot-Keeps,
}

module _ (ledger : NodeLedger) (content : String → String → Cell)
    (Done : String → Cell → Type 0) where
  -- The marker's mark of collection may be written.
  collected-MayMark :
      (marker : Marker) (version : String)
      → WasFound
          (protocol ledger content Done)
          marker_cell
          (marker_key ledger marker.id)
          (ok (some (marker, version)))
      → marker.mark ≢ Mark.collecting
      → MayMark ledger content Done (record marker { mark = Mark.collecting }) (some version)
  unfolding WasFound node_protocol replaced mode_of
  collected-MayMark marker version h other = rw (← h.0) (remarked (collected other))

  delete_marker-Keeps :
      (marker : Marker) (version : String)
      → WasFound
          (protocol ledger content Done)
          marker_cell
          (marker_key ledger marker.id)
          (ok (some (marker, version)))
      → marker.mark ≢ Mark.collecting
      → Keeps
          (protocol ledger content Done)
          (delete_marker ledger (marker_key ledger marker.id) marker version)
          Any
  unfolding delete_marker node_protocol replaced mode_of
  delete_marker-Keeps marker version found other =
      then_answer _
        (put_marker-Keeps ledger content Done _ (some version)
          (collected-MayMark marker version found other))
        (λ a done.
          then_answer _ (delete-Keeps _ (doomed_marker _ refl (done refl)))
            (λ a h. release_marker_slot-Keeps ledger content Done settle_retries)
            (λ e h.
              then_found _ (get-Keeps _)
                (λ p h.
                  >>=-Keeps
                    (put_marker-Keeps ledger content Done marker (some p.1) (restored (done refl)))
                    λ a h. pure-Keeps _ tt)
                (λ h. release_marker_slot-Keeps ledger content Done settle_retries)
                (λ e h. pure-Keeps _ tt)))
        (λ e h. pure-Keeps _ tt)

  collect_marked-Keeps :
      (marker : Marker) (m : Mark) (version : String)
      → WasFound
          (protocol ledger content Done)
          marker_cell
          (marker_key ledger marker.id)
          (ok (some (marker, version)))
      → marker.mark ≡ m
      → Keeps
          (protocol ledger content Done)
          (collect_marked ledger (marker_key ledger marker.id) marker m version)
          Any
  unfolding collect_marked
  collect_marked-Keeps marker Mark.collecting version found same = pure-Keeps _ tt
  collect_marked-Keeps marker Mark.commit version found same =
      delete_marker-Keeps marker version found (λ e. cc)
  collect_marked-Keeps marker Mark.expired version found same =
      delete_marker-Keeps marker version found (λ e. cc)
  collect_marked-Keeps marker Mark.dropped version found same =
      delete_marker-Keeps marker version found (λ e. cc)
  collect_marked-Keeps marker Mark.provisional version found same =
      delete_marker-Keeps marker version found (λ e. cc)

  -- A marker lies under the key of its own id.
  placed-Keeps :
      (key : String) (marker : Marker) (version : String)
      → WasFound (protocol ledger content Done) marker_cell key (ok (some (marker, version)))
      → Keeps
          (protocol ledger content Done)
          (collect_marked ledger key marker marker.mark version)
          Any
  unfolding WasFound node_protocol IsPlaced marker_key marker_prefix hex_digits
  placed-Keeps key marker version found =
      subst
        (λ (at : String).
          WasFound (protocol ledger content Done) marker_cell at (ok (some (marker, version)))
          → Keeps (protocol ledger content Done)
              (collect_marked ledger at marker marker.mark version) Any)
        (sym found.1) (λ h. collect_marked-Keeps marker marker.mark version h refl) found

  pub collect_marker-Keeps :
      (key : String) (clock : ℕ)
      → Keeps (protocol ledger content Done) (collect_marker ledger key clock) Any
  unfolding collect_marker
  collect_marker-Keeps key clock =
      then_found _ (get_marker-Keeps key)
        (λ p found.
          when-Keeps _ (λ early. pure-Keeps _ tt)
            (λ due.
              then_answer _ (read-Keeps ledger content Done p.0.key)
                (λ r h.
                  when-Keeps _ (λ held. pure-Keeps _ tt) (λ gone. placed-Keeps key p.0 p.1 found))
                (λ e h. pure-Keeps _ tt)))
        (λ h. pure-Keeps _ tt) (λ e h. pure-Keeps _ tt)
